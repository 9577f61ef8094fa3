-- ===== src/Transaction/Processor/Guards.antt =====
-- transaction.processor.ts: what a run leaves of the submissions and of the status of a row.
use afro_pay_stellar.Prelude.{
  ℕ, suc, ◌≤◌, String, ◌≡◌, ◌⊎◌, inl, inr, refl, sym, ◌∙◌, ap, subst, Bool, true, Option, none,
  some, List, [], ◌∷◌, arith, str_eq, str_eq_refl, if◌then◌else◌, Error, Result, ok, err, ◌>>=◌,
  or_throw, pure, Ends, Triple, Triple-pure, Triple-throw, Triple-gets, Triple-or_throw,
  Triple-lift, Triple-modify, Triple-bind, Triple-if, Triple-post, Triple-errors,
}
use afro_pay_stellar.Transaction.{TxStatus, Tx, TxTable}
use afro_pay_stellar.Transaction.Processor.{
  ProcessorServices, ProcessorState, FraudResponse, FraudCheck, blocked, passed, Surroundings,
  is_terminal, update_tx, log_event, stop, set_failed, set_success, run_fraud_check,
  process_on_chain, submit_on_chain, record_failure, try_submit, catch_with, after_check,
  process_transaction, Operation,
}

-- What the worker relies on: a row is found under its own identifier, and an update is read back.
pub record IsTxTable {Score : Type 0} (table : TxTable Score) : Type 0 where
  pub find_id :
      (id : String) (row : Tx Score) (t : table.Rows) → table.find id t ≡ some row → row.id ≡ id
  pub find-write :
      (id : String) (old row : Tx Score) (t : table.Rows)
      → table.find id t ≡ some old
      → row.id ≡ id
      → table.find id (table.write id row t) ≡ some row

-- How often `id` occurs.
abbrev pub occurrences : String → List String → ℕ
occurrences id [] = 0
occurrences id (x ∷ xs) = let n = occurrences id xs in if str_eq x id then suc n else n

module _ (env : ProcessorServices) where
  pub log_event-keeps :
      {P : ProcessorState env → Type 0} (user : String) (op : Operation) (good : Bool) (i : String)
      (h : Option String)
      → ((s : ProcessorState env) (a : List _) → P s → P (record s { audit = a }))
      → Triple P (log_event env user op good i h) (λ _. P) P
  unfolding log_event
  log_event-keeps user op good i h keep = Triple-modify _ (λ s p. keep s _ p)

  -- An update touches no submission.
  pub update_tx-keeps :
      {P : ProcessorState env → Type 0} (i : String) (f : Tx env.Score → Tx env.Score)
      → ((s : ProcessorState env) (t : env.table.Rows) → P s → P (record s { rows = t }))
      → Triple P (update_tx env i f) (λ _. P) P
  unfolding update_tx
  update_tx-keeps {P} i f keep =
      Triple-bind (λ _. P) (Triple-gets _ (λ s h. h))
        λ found.
          Triple-bind (λ _. P) (Triple-or_throw found _ (λ s h. h) (λ _ _ s h. h))
            λ row.
              Triple-bind (λ _. P) (Triple-modify _ (λ s h. keep s _ h))
                λ _. Triple-pure _ (λ s h. h)

module _ (env : ProcessorServices) (lawful : IsTxTable env.table) (id : String) where
  abbrev pub S : Type 0
  S = ProcessorState env

  -- The transaction was not submitted, at most once, or at most once and for good.
  abbrev pub Clean : S → Type 0
  Clean s = occurrences id s.submitted ≡ 0

  abbrev pub Once : S → Type 0
  Once s = occurrences id s.submitted ≤ 1

  abbrev pub Settled : S → Type 0
  Settled s =
      Once s
      × ((row : Tx env.Score) → env.table.find id s.rows ≡ some row → is_terminal row.status ≡ true)

  abbrev pub Inv : S → Type 0
  Inv s = Clean s ⊎ Settled s

  -- An update to a terminal status settles the transaction, also when there is no row.
  update_tx-Settled :
      (f : Tx env.Score → Tx env.Score)
      → ((row : Tx env.Score) → (is_terminal (f row).status ≡ true) × ((f row).id ≡ row.id))
      → Triple Once (update_tx env id f) (λ _. Settled) Settled
  unfolding update_tx or_throw
  update_tx-Settled f final =
      Triple-bind (λ found s. Once s × (env.table.find id s.rows ≡ found))
        (Triple-gets _ (λ s h. (h, refl)))
        λ found.
          Triple-bind (λ row s. Once s × (env.table.find id s.rows ≡ some row)) (missing found)
            λ row.
              Triple-bind (λ _. Settled) (Triple-modify _ (λ s h. (h.0, settled s row h.1)))
                λ _. Triple-pure _ (λ s h. h)
    where
      missing :
          (found : Option (Tx env.Score))
          → Triple
              (λ s. Once s × (env.table.find id s.rows ≡ found))
              (or_throw found Error.failure)
              (λ row s. Once s × (env.table.find id s.rows ≡ some row))
              Settled
      missing none = record { run = λ s h. (h.0, λ row e. cc (e, h.1)) }
      missing (some row) = record { run = λ s h. h }

      settled :
          (s : S) (row : Tx env.Score)
          → env.table.find id s.rows ≡ some row
          → (new : Tx env.Score) → env.table.find id (env.table.write id (f row) s.rows) ≡ some new
          → is_terminal new.status ≡ true
      settled s row found new e =
          let written =
            lawful.find-write id row (f row) s.rows found
              ((final row).1 ∙ lawful.find_id id row s.rows found) in
          let same : f row ≡ new = cc (written, e) in
          ap (λ (x : Tx env.Score). is_terminal x.status) (sym same) ∙ (final row).0

  stop-Clean :
      (user : String) (status : TxStatus) (score : Option env.Score) (flag : Bool) (op : Operation)
      (good : Bool)
      → Triple Clean (stop env user id status score flag op good) (λ _. Clean) Clean
  stop-Clean user status score flag op good =
      Triple-bind (λ _. Clean) (update_tx-keeps env id _ (λ s t h. h))
        λ row.
          Triple-bind (λ _. Clean) (log_event-keeps env user op good id none (λ s a h. h))
            λ _. Triple-pure _ (λ s h. h)

  run_fraud_check-Clean :
      (fraud : Result (FraudResponse env.Score)) (user : String)
      → Triple Clean (run_fraud_check env fraud user id) (λ _. Clean) Clean
  unfolding run_fraud_check
  run_fraud_check-Clean (err e) user = stop-Clean user _ _ _ _ _
  run_fraud_check-Clean (ok r) user =
      Triple-if (env.blocks r.risk_score) _ _ (λ _. stop-Clean user _ _ _ _ _)
        λ _.
          Triple-if (env.reviews r.risk_score) _ _ (λ _. stop-Clean user _ _ _ _ _)
            λ _.
              Triple-bind (λ _. Clean) (update_tx-keeps env id _ (λ s t h. h))
                λ _. Triple-pure _ (λ s h. h)

  process_on_chain-Once :
      (answer : Result String) → Triple Clean (process_on_chain env answer id) (λ _. Once) Once
  unfolding process_on_chain
  process_on_chain-Once answer =
      Triple-bind (λ _. Once) (Triple-modify _ (λ s h. rw (str_eq_refl id) (omega (arith, h))))
        λ _. Triple-lift answer (λ s h. h) (λ _ _ s h. h)

  submit_on_chain-Settled :
      (answer : Result String) (user : String) (r : FraudResponse env.Score)
      → Triple Clean (submit_on_chain env answer user id r) (λ _. Settled) Once
  unfolding submit_on_chain
  submit_on_chain-Settled answer user r =
      Triple-bind (λ _. Once) (process_on_chain-Once answer)
        λ hash.
          Triple-bind (λ _. Settled)
            (Triple-errors (λ s h. h.0)
              (update_tx-Settled (set_success env hash r) (λ row. (refl, refl))))
            λ row.
              Triple-bind (λ _. Settled)
                (Triple-errors (λ s h. h.0) (log_event-keeps env user _ _ id _ (λ s a h. h)))
                λ _. Triple-pure _ (λ s h. h)

  record_failure-Settled :
      (user : String) (e : Error)
      → Triple Once (record_failure env user id e) (λ _. Settled) Settled
  unfolding record_failure
  record_failure-Settled user e =
      Triple-bind (λ _. Settled) (update_tx-Settled (set_failed env) (λ row. (refl, refl)))
        λ row.
          Triple-bind (λ _. Settled) (log_event-keeps env user _ _ id _ (λ s a h. h))
            λ _. Triple-throw e (λ s h. h)

  try_submit-Settled :
      (answer : Result String) (user : String) (r : FraudResponse env.Score)
      → Triple Clean (try_submit env answer user id r) (λ _. Settled) Settled
  unfolding try_submit pure
  try_submit-Settled answer user r = record {
    run = λ s h. caught _ _ ((submit_on_chain-Settled answer user r).run s h);
  }
    where
      caught :
          (result : Result (Tx env.Score)) (s : S)
          → Ends (λ _. Settled) Once result s
          → Ends
              (λ _. Settled)
              Settled
              (catch_with env result (record_failure env user id) s).0
              (catch_with env result (record_failure env user id) s).1
      caught (ok row) s h = h
      caught (err e) s h = (record_failure-Settled user e).run s h

  after_check-Inv :
      (answer : Result String) (user : String) (check : FraudCheck env.Score)
      → Triple Clean (after_check env answer user id check) (λ _. Inv) Inv
  after_check-Inv answer user (blocked row) = Triple-pure _ (λ s h. inl h)
  after_check-Inv answer user (passed r) =
      Triple-post (λ _ s h. inr h) (Triple-errors (λ s h. inr h) (try_submit-Settled answer user r))

  pub process_transaction-Inv :
      (out : Surroundings env.Score) (user amount : String) (row : Tx env.Score)
      → row.id ≡ id
      → Triple Clean (process_transaction env out user row amount) (λ _. Inv) Inv
  unfolding process_transaction
  process_transaction-Inv out user amount row own =
      Triple-bind (λ _. Clean) (Triple-lift _ (λ s h. inl h) (λ _ _ s h. h))
        λ _.
          Triple-bind (λ _. Clean)
            (Triple-errors (λ s h. inl h) (log_event-keeps env user _ _ row.id _ (λ s a h. h)))
            λ _.
              subst
                (λ i.
                  Triple Clean
                    (run_fraud_check env out.fraud user i >>= after_check env out.on_chain user i)
                    (λ _. Inv) Inv)
                (sym own)
                (Triple-bind (λ _. Clean)
                  (Triple-errors (λ s h. inl h) (run_fraud_check-Clean out.fraud user))
                  λ check. after_check-Inv out.on_chain user check)
