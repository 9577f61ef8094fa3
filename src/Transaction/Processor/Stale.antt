-- ===== src/Transaction/Processor/Stale.antt =====
-- transaction.processor.ts: two deliveries that read the row before either takes the lock.
use afro_pay_stellar.Prelude.{
  String, ◌≡◌, ◌∙◌, refl, Bool, false, List, ◌∷◌, Option, some, none, ℕ, Error, Result, ok, err,
  pure, lift, or_throw, Ends, Triple, Triple-pure, Triple-gets, Triple-modify, Triple-bind,
  Triple-state, Triple-given, Triple-errors,
}
use afro_pay_stellar.Lock.{World, Store, is_live, lock_ttl_ms}
use afro_pay_stellar.Lock.Service.{with_lock-app}
use afro_pay_stellar.Transaction.{Tx, TransactionJobData}
use afro_pay_stellar.Transaction.Amount.{assert_transaction_amount_integrity}
use afro_pay_stellar.Transaction.Processor.{
  ProcessorServices, ProcessorState, FraudResponse, Surroundings, update_tx, log_event, is_terminal,
  run_fraud_check, process_on_chain, submit_on_chain, record_failure, try_submit,
  process_transaction, process_row, lock_key, under_lock, passed, Operation, catch_with,
}
use afro_pay_stellar.Transaction.Processor.Guards.{IsTxTable}

module _ (env : ProcessorServices) where
  -- The answers under which a run submits.
  pub record IsAccepted (out : Surroundings env.Score) : Type 0 where
    pub response : FraudResponse env.Score
    pub hash : String
    pub answered : out.fraud ≡ ok response
    pub not_blocked : env.blocks response.risk_score ≡ false
    pub not_reviewed : env.reviews response.risk_score ≡ false
    pub on_chain : out.on_chain ≡ ok hash

module _ (env : ProcessorServices) (lawful : IsTxTable env.table) (id : String) where
  -- The row is there, and `sent` are the submissions.
  abbrev pub Has : List String → ProcessorState env → Type 0
  Has sent s = (s.submitted ≡ sent) × ((y : Tx env.Score) × (env.table.find id s.rows ≡ some y))

  abbrev pub Never : ProcessorState env → Type 0
  Never s = ⊥

  pub log_event-Has :
      (sent : List String) (user : String) (op : Operation) (good : Bool) (h : Option String)
      → Triple (Has sent) (log_event env user op good id h) (λ _. Has sent) Never
  unfolding log_event
  log_event-Has sent user op good h = Triple-modify _ (λ s p. p)

  update_tx-Has :
      (sent : List String) (f : Tx env.Score → Tx env.Score)
      → ((row : Tx env.Score) → (f row).id ≡ row.id)
      → Triple (Has sent) (update_tx env id f) (λ _. Has sent) Never
  unfolding update_tx or_throw
  update_tx-Has sent f same =
      Triple-bind (λ found s. Has sent s × (env.table.find id s.rows ≡ found))
        (Triple-gets _ (λ s h. (h, refl)))
        λ found.
          Triple-bind (λ row s. Has sent s × (env.table.find id s.rows ≡ some row)) (there found)
            λ row.
              Triple-bind (λ _. Has sent)
                (Triple-modify _ (λ s h. (
                  h.0.0,
                  (
                    f row,
                    lawful.find-write id row (f row) s.rows h.1
                        (same row ∙ lawful.find_id id row s.rows h.1),
                  ),
                )))
                λ _. Triple-pure _ (λ s h. h)
    where
      there :
          (found : Option (Tx env.Score))
          → Triple
              (λ s. Has sent s × (env.table.find id s.rows ≡ found))
              (or_throw found Error.failure)
              (λ row s. Has sent s × (env.table.find id s.rows ≡ some row))
              Never
      there none = record { run = λ s h. cc (h.1, h.0.1.1) }
      there (some row) = record { run = λ s h. h }

  module _ (sent : List String) (user : String) (r : FraudResponse env.Score) where
    pub run_fraud_check-Has :
        env.blocks r.risk_score ≡ false
        → env.reviews r.risk_score ≡ false
        → Triple
            (Has sent)
            (run_fraud_check env (ok r) user id)
            (λ c s. Has sent s × (c ≡ passed r))
            Never
    unfolding run_fraud_check
    run_fraud_check-Has low lower = rw low (
        rw lower (
          Triple-bind (λ _. Has sent) (update_tx-Has sent _ (λ row. refl))
            λ _. Triple-pure _ (λ s h. (h, refl))))

    submit_on_chain-Has :
        (hash : String)
        → Triple (Has sent) (submit_on_chain env (ok hash) user id r) (λ _. Has (id ∷ sent)) Never
    unfolding submit_on_chain process_on_chain lift
    submit_on_chain-Has hash =
        Triple-bind (λ _. Has (id ∷ sent))
          (Triple-bind (λ _. Has (id ∷ sent)) (Triple-modify _ (λ s h. (rw h.0 refl, h.1)))
            λ _. record { run = λ s h. h })
          λ x.
            Triple-bind (λ _. Has (id ∷ sent)) (update_tx-Has (id ∷ sent) _ (λ row. refl))
              λ row.
                Triple-bind (λ _. Has (id ∷ sent)) (log_event-Has (id ∷ sent) user _ _ _)
                  λ _. Triple-pure _ (λ s h. h)

    try_submit-Has :
        (hash : String)
        → Triple (Has sent) (try_submit env (ok hash) user id r) (λ _. Has (id ∷ sent)) Never
    unfolding try_submit pure
    try_submit-Has hash = record { run = λ s h. caught _ _ ((submit_on_chain-Has hash).run s h) }
      where
        caught :
            (result : Result (Tx env.Score)) (s : ProcessorState env)
            → Ends (λ _. Has (id ∷ sent)) Never result s
            → Ends
                (λ _. Has (id ∷ sent))
                Never
                (catch_with env result (record_failure env user id) s).0
                (catch_with env result (record_failure env user id) s).1
        caught (ok row) s h = h
        caught (err e) s h = absurd h

  process_transaction-Has :
      (sent : List String) (out : Surroundings env.Score) (user amount : String)
      (row : Tx env.Score)
      → IsAccepted env out
      → row.id ≡ id
      → assert_transaction_amount_integrity amount row.amount ≡ ok tt
      → Triple (Has sent) (process_transaction env out user row amount) (λ _. Has (id ∷ sent)) Never
  unfolding process_transaction lift
  process_transaction-Has sent out user amount row accepted own checked =
      rw (checked, own, accepted.answered, accepted.on_chain)
        (Triple-bind (λ _. Has sent) (record { run = λ s h. h })
          λ _.
            Triple-bind (λ _. Has sent) (log_event-Has sent user _ _ _)
              λ _.
                Triple-bind (λ c s. Has sent s × (c ≡ passed accepted.response))
                  (run_fraud_check-Has sent user accepted.response accepted.not_blocked
                    accepted.not_reviewed)
                  λ c.
                    Triple-given
                      λ e. rw e (try_submit-Has sent user accepted.response accepted.hash))

  process_row-Has :
      (sent : List String) (out : Surroundings env.Score) (job : TransactionJobData)
      (row : Tx env.Score) (w : World (ProcessorState env))
      → IsAccepted env out
      → row.id ≡ id
      → is_terminal row.status ≡ false
      → assert_transaction_amount_integrity job.dto.amount row.amount ≡ ok tt
      → is_live (w.locks (lock_key env row.id)) w.clock ≡ false
      → Has sent w.app
      → Has (id ∷ sent) (process_row env out job row w).1.app
  process_row-Has sent out job row w accepted own unsettled checked free h = rw unsettled (
      with_lock-app (Has (id ∷ sent))
        (under_lock env out (process_transaction env out job.user_id row job.dto.amount)) out.token
        (lock_key env row.id) lock_ttl_ms w free
        (Triple-state
          (Triple-errors (λ s n. absurd n)
            (process_transaction-Has sent out job.user_id job.dto.amount row accepted own checked))
          w.app h))

  -- Two deliveries have read the same row, which is not yet in a terminal status, and take the lock
  -- one after the other, each time free. When the amounts agree and both times the risk is low and
  -- the chain accepts, the transaction is submitted twice: the second run does not read the status
  -- again under the lock.
  pub stale_read-resubmits :
      (first second : Surroundings env.Score) (job : TransactionJobData) (row : Tx env.Score)
      (w : World (ProcessorState env)) (locks : Store) (clock : ℕ)
      → IsAccepted env first
      → IsAccepted env second
      → row.id ≡ id
      → is_terminal row.status ≡ false
      → assert_transaction_amount_integrity job.dto.amount row.amount ≡ ok tt
      → env.table.find id w.app.rows ≡ some row
      → is_live (w.locks (lock_key env row.id)) w.clock ≡ false
      → is_live (locks (lock_key env row.id)) clock ≡ false
      → (process_row env second job row (record (process_row env first job row w).1 {
        locks = locks;
        clock = clock;
      })).1.app.submitted
        ≡ id ∷ id ∷ w.app.submitted
  stale_read-resubmits first second job row w locks clock a b own unsettled checked found free
        free' =
      let once =
        process_row-Has w.app.submitted first job row w a own unsettled checked free
          (refl, (row, found)) in
      (process_row-Has _ second job row
        (record (process_row env first job row w).1 { locks = locks; clock = clock }) b own
        unsettled checked free' once).0
