-- ===== src/Transaction/Processor.antt =====
-- apps/api/src/transaction/transaction.processor.ts: the worker of the queue 'transactions', under
-- the lock of common/lock. The answers of the fraud service and of the chain are arguments of a
-- run; log lines and audit metadata are left out.
pub mod Guards
pub mod Once
pub mod Stale
pub mod Terminal
pub mod Risk
pub mod Tests
use Prim.Native.String
use afro_pay_stellar.Prelude.{
  ℕ, String, Bool, true, false, Option, none, some, List, [], ◌∷◌, if◌then◌else◌, Error, failure,
  Result, ok, err, Exec, ◌>>=◌, ◌>>◌, pure, throw, gets, or_throw, lift, modify,
}
use afro_pay_stellar.Lock.{Store, World, RedisLock, lock_ttl_ms, with_lock}
use afro_pay_stellar.Transaction.{
  TxStatus, pending, retrying, success, failed, pending_review, Tx, TxTable, TransactionJobData,
}
use afro_pay_stellar.Transaction.Amount.{assert_transaction_amount_integrity}

-- `blocks` and `reviews` compare a score with FRAUD_BLOCK_THRESHOLD = 0.8 and
-- FRAUD_REVIEW_THRESHOLD = 0.5.
pub record ProcessorServices : Type 1 where
  pub Score : Type 0
  pub blocks : Score → Bool
  pub reviews : Score → Bool
  pub table : TxTable Score

pub data Operation : Type 0 where
  transaction_initiate transaction_complete transaction_failed : Operation
  transaction_blocked transaction_pending_review : Operation

pub record TxEvent : Type 0 where
  pub user_id : String
  pub operation : Operation
  pub success : Bool
  pub transaction_id : String
  pub tx_hash : Option String

-- `submitted` are the transactions that were handed to the chain, the newest first.
pub record ProcessorState (env : ProcessorServices) : Type 0 where
  pub rows : env.table.Rows
  pub audit : List TxEvent
  pub submitted : List String

pub record FraudResponse (Score : Type 0) : Type 0 where
  pub risk_score : Score
  pub flagged : Bool

-- What a run meets outside: the answers, the lock's token, and what goes on beside the work
-- (renewals of the lease, other holders, the clock).
pub record Surroundings (Score : Type 0) : Type 0 where
  pub fraud : Result (FraudResponse Score)
  pub on_chain : Result String
  pub token : String
  pub beside : RedisLock → Store → ℕ → RedisLock × Store × ℕ

-- `runFraudCheck`: the row when it is blocked, the response when it may be submitted.
pub data FraudCheck (Score : Type 0) : Type 0 where
  blocked : Tx Score → FraudCheck Score
  passed : FraudResponse Score → FraudCheck Score

abbrev pub is_terminal : TxStatus → Bool
is_terminal success = true
is_terminal failed = true
is_terminal pending_review = true
is_terminal pending = false
is_terminal retrying = false

module _ (env : ProcessorServices) where
  -- `prisma.transaction.update`: the new row, or an error where there is none.
  pub update_tx : String → (Tx env.Score → Tx env.Score) → Exec (ProcessorState env) (Tx env.Score)
  update_tx id f = do
    found ← gets (λ s. env.table.find id s.rows)
    row ← or_throw found failure
    modify (λ s. record s { rows = env.table.write id (f row) s.rows })
    pure (f row)

  -- `auditService.log`, which throws no error.
  pub log_event :
      String → Operation → Bool → String → Option String → Exec (ProcessorState env) (Unit {0})
  log_event user op good id hash = modify λ s. record s {
    audit =
        record {
          user_id = user;
          operation = op;
          success = good;
          transaction_id = id;
          tx_hash = hash;
        }
        ∷ s.audit;
  }

  abbrev pub set_failed : Tx env.Score → Tx env.Score
  set_failed row = record row { status = failed }

  -- `data: { status, riskScore, flagged }`
  abbrev pub set_risk : TxStatus → Option env.Score → Bool → Tx env.Score → Tx env.Score
  set_risk status score flag row = record row {
    status = status;
    risk_score = score;
    flagged = flag;
  }

  abbrev pub set_score : FraudResponse env.Score → Tx env.Score → Tx env.Score
  set_score r row = record row { risk_score = some r.risk_score; flagged = r.flagged }

  abbrev pub set_success : String → FraudResponse env.Score → Tx env.Score → Tx env.Score
  set_success hash r row = record row {
    status = success;
    stellar_tx_hash = some hash;
    risk_score = some r.risk_score;
    flagged = r.flagged;
  }

  -- One of the tiers that stop a transaction.
  abbrev pub stop :
      String
      → String
      → TxStatus
      → Option env.Score
      → Bool
      → Operation
      → Bool
      → Exec (ProcessorState env) (FraudCheck env.Score)
  stop user id status score flag op good = do
    row ← update_tx id (set_risk status score flag)
    log_event user op good id none
    pure (blocked row)

  pub run_fraud_check :
      Result (FraudResponse env.Score)
      → String
      → String
      → Exec (ProcessorState env) (FraudCheck env.Score)
  run_fraud_check (err e) user id = stop user id failed none false transaction_failed false
  run_fraud_check (ok r) user id =
      if env.blocks r.risk_score
      then stop user id failed (some r.risk_score) true transaction_blocked false
      else if env.reviews r.risk_score
      then stop user id pending_review (some r.risk_score) true transaction_pending_review true
      else do update_tx id (set_score r); pure (passed r)

  -- `processOnChain`. It draws a random hash and always returns it; here it may end in any way, which
  -- includes that, so what is shown for every answer is shown of it.
  pub process_on_chain : Result String → String → Exec (ProcessorState env) String
  process_on_chain answer id = do
    modify (λ s. record s { submitted = id ∷ s.submitted })
    lift answer

  -- The `try` block of `processTransaction`.
  pub submit_on_chain :
      Result String
      → String
      → String
      → FraudResponse env.Score
      → Exec (ProcessorState env) (Tx env.Score)
  submit_on_chain answer user id r = do
    hash ← process_on_chain answer id
    updated ← update_tx id (set_success hash r)
    log_event user transaction_complete true id (some hash)
    pure updated

  -- The `catch` block.
  pub record_failure : String → String → Error → Exec (ProcessorState env) (Tx env.Score)
  record_failure user id e = do
    update_tx id set_failed
    log_event user transaction_failed false id none
    throw e

  abbrev pub catch_with :
      Result (Tx env.Score)
      → (Error → Exec (ProcessorState env) (Tx env.Score))
      → Exec (ProcessorState env) (Tx env.Score)
  catch_with (ok row) handler = pure row
  catch_with (err e) handler = handler e

  pub try_submit :
      Result String
      → String
      → String
      → FraudResponse env.Score
      → Exec (ProcessorState env) (Tx env.Score)
  try_submit answer user id r s =
      let (result, s') = submit_on_chain answer user id r s in
      catch_with result (record_failure user id) s'

  abbrev pub after_check :
      Result String
      → String
      → String
      → FraudCheck env.Score
      → Exec (ProcessorState env) (Tx env.Score)
  after_check answer user id (blocked row) = pure row
  after_check answer user id (passed r) = try_submit answer user id r

  pub process_transaction :
      Surroundings env.Score
      → String
      → Tx env.Score
      → String
      → Exec (ProcessorState env) (Tx env.Score)
  process_transaction out user row amount = do
    lift (assert_transaction_amount_integrity amount row.amount)
    log_event user transaction_initiate true row.id none
    check ← run_fraud_check out.fraud user row.id
    after_check out.on_chain user row.id check

  -- The work under the lock, with what goes on beside it.
  abbrev pub under_lock :
      Surroundings env.Score
      → Exec (ProcessorState env) (Tx env.Score)
      → RedisLock
      → World (ProcessorState env)
      → (Result (Tx env.Score) × RedisLock) × World (ProcessorState env)
  under_lock out work lock w =
      let (result, app) = work w.app in
      let (lock', locks, clock) = out.beside lock w.locks w.clock in
      ((result, lock'), record { app = app; locks = locks; clock = clock })

  abbrev pub lock_key : String → String
  lock_key id = String.◌++◌ "lock:escrow:" id

  abbrev pub process_row :
      Surroundings env.Score
      → TransactionJobData
      → Tx env.Score
      → Exec (World (ProcessorState env)) (Tx env.Score)
  process_row out job row =
      if is_terminal row.status
      then pure row
      else with_lock out.token (lock_key row.id) lock_ttl_ms
          (under_lock out (process_transaction out job.user_id row job.dto.amount))

  pub handle_send_transaction :
      Surroundings env.Score → TransactionJobData → Exec (World (ProcessorState env)) (Tx env.Score)
  handle_send_transaction out job = do
    found ← gets (λ w. env.table.find job.tx_id w.app.rows)
    row ← or_throw found failure
    process_row out job row
