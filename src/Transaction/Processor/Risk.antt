-- ===== src/Transaction/Processor/Risk.antt =====
-- transaction.processor.ts: the checks before a submission.
use afro_pay_stellar.Prelude.{
  String, ◌≡◌, ◌⊎◌, inl, inr, refl, Bool, false, List, ◌∷◌, Option, none, Error, Result, ok, err,
  pure, Ends, Triple, Triple-pure, Triple-throw, Triple-lift, Triple-modify, Triple-bind,
  Triple-state, Triple-if, Triple-post, Triple-errors, Triple-given, Triple-fact,
}
use afro_pay_stellar.Transaction.{Tx, TxStatus}
use afro_pay_stellar.Transaction.Amount.{assert_transaction_amount_integrity}
use afro_pay_stellar.Transaction.Processor.{
  ProcessorServices, ProcessorState, FraudResponse, FraudCheck, blocked, passed, Surroundings, stop,
  Operation, run_fraud_check, process_on_chain, submit_on_chain, record_failure, try_submit,
  catch_with, after_check, process_transaction,
}
use afro_pay_stellar.Transaction.Processor.Guards.{log_event-keeps, update_tx-keeps}

module _ (env : ProcessorServices) where
  -- The answer allows a submission.
  pub record IsLow (fraud : Result (FraudResponse env.Score)) : Type 0 where
    pub response : FraudResponse env.Score
    pub answered : fraud ≡ ok response
    pub not_blocked : env.blocks response.risk_score ≡ false
    pub not_reviewed : env.reviews response.risk_score ≡ false

  abbrev Judged : Result (FraudResponse env.Score) → FraudCheck env.Score → Type 0
  Judged fraud (blocked row) = Unit
  Judged fraud (passed r) = IsLow fraud

module _ (env : ProcessorServices) (old : List String) where
  abbrev S : Type 0
  S = ProcessorState env

  abbrev Same : S → Type 0
  Same s = s.submitted ≡ old

  abbrev Sent : String → S → Type 0
  Sent id s = s.submitted ≡ id ∷ old

  stop-Same :
      (fraud : Result (FraudResponse env.Score)) (user id : String) (status : TxStatus)
      (score : Option env.Score) (flag : Bool) (op : Operation) (good : Bool)
      → Triple Same
          (stop env user id status score flag op good)
          (λ c s. Same s × Judged env fraud c)
          Same
  stop-Same fraud user id status score flag op good =
      Triple-bind (λ _. Same) (update_tx-keeps env id _ (λ s t h. h))
        λ row.
          Triple-bind (λ _. Same) (log_event-keeps env user op good id none (λ s a h. h))
            λ _. Triple-pure _ (λ s h. (h, tt))

  run_fraud_check-Judged :
      (fraud : Result (FraudResponse env.Score)) (user id : String)
      → Triple Same (run_fraud_check env fraud user id) (λ c s. Same s × Judged env fraud c) Same
  unfolding run_fraud_check
  run_fraud_check-Judged (err e) user id = stop-Same _ user id _ _ _ _ _
  run_fraud_check-Judged (ok r) user id =
      Triple-if (env.blocks r.risk_score) _ _ (λ _. stop-Same _ user id _ _ _ _ _)
        λ low.
          Triple-if (env.reviews r.risk_score) _ _ (λ _. stop-Same _ user id _ _ _ _ _)
            λ lower.
              Triple-bind (λ _. Same) (update_tx-keeps env id _ (λ s t h. h))
                λ _. Triple-pure _ (λ s h. (
                  h,
                  record { response = r; answered = refl; not_blocked = low; not_reviewed = lower },
                ))

  submit_on_chain-Sent :
      (answer : Result String) (user id : String) (r : FraudResponse env.Score)
      → Triple Same (submit_on_chain env answer user id r) (λ _. Sent id) (Sent id)
  unfolding submit_on_chain process_on_chain
  submit_on_chain-Sent answer user id r =
      Triple-bind (λ _. Sent id)
        (Triple-bind (λ _. Sent id) (Triple-modify _ (λ s h. rw h refl))
          λ _. Triple-lift answer (λ s h. h) (λ _ _ s h. h))
        λ hash.
          Triple-bind (λ _. Sent id) (update_tx-keeps env id _ (λ s t h. h))
            λ row.
              Triple-bind (λ _. Sent id) (log_event-keeps env user _ _ id _ (λ s a h. h))
                λ _. Triple-pure _ (λ s h. h)

  record_failure-Sent :
      (user id : String) (e : Error)
      → Triple (Sent id) (record_failure env user id e) (λ _. Sent id) (Sent id)
  unfolding record_failure
  record_failure-Sent user id e =
      Triple-bind (λ _. Sent id) (update_tx-keeps env id _ (λ s t h. h))
        λ row.
          Triple-bind (λ _. Sent id) (log_event-keeps env user _ _ id _ (λ s a h. h))
            λ _. Triple-throw e (λ s h. h)

  try_submit-Sent :
      (answer : Result String) (user id : String) (r : FraudResponse env.Score)
      → Triple Same (try_submit env answer user id r) (λ _. Sent id) (Sent id)
  unfolding try_submit pure
  try_submit-Sent answer user id r = record {
    run = λ s h. caught _ _ ((submit_on_chain-Sent answer user id r).run s h);
  }
    where
      caught :
          (result : Result (Tx env.Score)) (s : S)
          → Ends (λ _. Sent id) (Sent id) result s
          → Ends
              (λ _. Sent id)
              (Sent id)
              (catch_with env result (record_failure env user id) s).0
              (catch_with env result (record_failure env user id) s).1
      caught (ok row) s h = h
      caught (err e) s h = (record_failure-Sent user id e).run s h

  -- What a run comes to.
  abbrev pub Outcome : Surroundings env.Score → Tx env.Score → String → S → Type 0
  Outcome out row amount s =
      Same s
      ⊎ Sent row.id s
        × IsLow env out.fraud
        × (assert_transaction_amount_integrity amount row.amount ≡ ok tt)

  after_check-Outcome :
      (out : Surroundings env.Score) (user amount : String) (row : Tx env.Score)
      (check : FraudCheck env.Score)
      → assert_transaction_amount_integrity amount row.amount ≡ ok tt
      → Triple
          (λ s. Same s × Judged env out.fraud check)
          (after_check env out.on_chain user row.id check)
          (λ _. Outcome out row amount)
          (Outcome out row amount)
  after_check-Outcome out user amount row (blocked x) checked = Triple-pure _ (λ s h. inl h.0)
  after_check-Outcome out user amount row (passed r) checked = Triple-given λ low.
      Triple-post (λ _ s h. inr (h, low, checked))
        (Triple-errors (λ s h. inr (h, low, checked)) (try_submit-Sent out.on_chain user row.id r))

  process_transaction-Outcome :
      (out : Surroundings env.Score) (user amount : String) (row : Tx env.Score)
      → Triple Same
          (process_transaction env out user row amount)
          (λ _. Outcome out row amount)
          (Outcome out row amount)
  unfolding process_transaction
  process_transaction-Outcome out user amount row =
      Triple-bind (λ _ s. Same s × (assert_transaction_amount_integrity amount row.amount ≡ ok tt))
        (Triple-lift _ (λ s h. inl h) (λ u e s h. (h, e)))
        λ _.
          Triple-bind
            (λ _ s. Same s × (assert_transaction_amount_integrity amount row.amount ≡ ok tt))
            (Triple-errors (λ s h. inl h)
              (Triple-fact (λ _. log_event-keeps env user _ _ row.id _ (λ s a h. h))))
            λ _.
              Triple-bind
                (λ check s.
                  (Same s × Judged env out.fraud check)
                  × (assert_transaction_amount_integrity amount row.amount ≡ ok tt))
                (Triple-errors (λ s h. inl h)
                  (Triple-fact (λ _. run_fraud_check-Judged out.fraud user row.id)))
                λ check.
                  Triple-given (λ checked. after_check-Outcome out user amount row check checked)

-- A run of `processTransaction` submits nothing, or it submits exactly this transaction, and then
-- the fraud service had answered with a score below both thresholds and the amount of the job and
-- that of the row had the same canonical form.
pub process_transaction-IsLow :
    (env : ProcessorServices) (out : Surroundings env.Score) (user amount : String)
    (row : Tx env.Score) (s : ProcessorState env)
    → ((process_transaction env out user row amount s).1.submitted ≡ s.submitted)
      ⊎ ((process_transaction env out user row amount s).1.submitted ≡ row.id ∷ s.submitted)
        × IsLow env out.fraud
        × (assert_transaction_amount_integrity amount row.amount ≡ ok tt)
process_transaction-IsLow env out user amount row s =
    Triple-state (process_transaction-Outcome env s.submitted out user amount row) s refl
