-- ===== src/Transaction/Status.antt =====
-- `getTransaction`, `updateRiskScore` and `updateTransactionStatus` of
-- apps/api/src/transaction/transaction.service.ts. An empty text counts as no argument,
-- and Redis answers.
pub mod Held
mod Tests
use Prim.Native.String
use afro_pay_stellar.Prelude.{
  String, Bool, true, false, not, ◌&&◌, ◌||◌, Option, none, some, str_eq, if◌then◌else◌, Dict,
  set_key, Error, not_found, failure, Exec, ◌>>=◌, ◌>>◌, pure, gets, or_throw, modify, throw_if,
}
use afro_pay_stellar.Transaction.{
  TxStatus, pending, retrying, success, failed, pending_review, Tx, TxTable,
}

-- The rows, and the balances that are cached in Redis.
pub record StatusState {Score : Type 0} (table : TxTable Score) : Type 0 where
  pub rows : table.Rows
  pub balances : Dict String

-- `tx.status === 'PENDING' || tx.status === 'RETRYING'`
abbrev pub is_open : TxStatus → Bool
is_open pending = true
is_open retrying = true
is_open success = false
is_open failed = false
is_open pending_review = false

abbrev is_other_user : Option String → String → Bool
is_other_user none owner = false
is_other_user (some user) owner = not (str_eq owner user)

module _ {Score : Type 0} (table : TxTable Score) where
  pub get_transaction : String → Option String → Exec (StatusState table) (Tx Score)
  get_transaction id user = do
    found ← gets (λ s. table.find id s.rows)
    tx ← or_throw found not_found
    throw_if (is_other_user user tx.user_id) not_found
    pure tx

  -- `prisma.transaction.update`
  pub update : String → (Tx Score → Tx Score) → Exec (StatusState table) (Tx Score)
  update id f = do
    found ← gets (λ s. table.find id s.rows)
    row ← or_throw found failure
    modify (λ s. record s { rows = table.write id (f row) s.rows })
    pure (f row)

  -- The fields of `data` in `updateRiskScore`; `held` says whether it has a status.
  abbrev pub scored : Score → Bool → Bool → Tx Score → Tx Score
  scored score flag held row = record row {
    risk_score = some score;
    flagged = flag;
    status = if held then pending_review else row.status;
  }

  pub update_risk_score : String → Score → Bool → Exec (StatusState table) (Tx Score)
  update_risk_score id score flag = do
    found ← gets (λ s. table.find id s.rows)
    tx ← or_throw found not_found
    update id (scored score flag (flag && is_open tx.status))

  abbrev with_status : TxStatus → Option String → Tx Score → Tx Score
  with_status status none row = record row { status = status }
  with_status status (some hash) row = record row { status = status; stellar_tx_hash = some hash }

  abbrev is_success : TxStatus → Bool
  is_success success = true
  is_success pending = false
  is_success retrying = false
  is_success failed = false
  is_success pending_review = false

  -- `redis.del` of the user's balances
  abbrev drop_balances : String → StatusState table → StatusState table
  drop_balances user s = record s {
    balances = set_key (String.◌++◌ "wallet_balances:" user) none s.balances;
  }

  pub update_transaction_status :
      String → TxStatus → Option String → Exec (StatusState table) (Tx Score)
  update_transaction_status id status hash = do
    updated ← update id (with_status status hash)
    modify (λ s. if is_success status then drop_balances updated.user_id s else s)
    pure updated
