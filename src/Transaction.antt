-- ===== src/Transaction.antt =====
-- The transfers of apps/api/src/transaction: the rows, the job queue and what the services assume
-- of them. The JSON texts of cached responses and job data are kept as the values they stand for.
pub mod Send
pub mod History
pub mod Amount
pub mod Processor
pub mod Dlq
pub mod Status
use afro_pay_stellar.Prelude.{
  ℕ, String, ◌≡◌, ◌⊎◌, Bool, true, false, ◌&&◌, Option, none, some, List, [], ◌∷◌, ◌++◌, str_eq,
  if◌then◌else◌, Error, Result, ok, err, Exec,
}

pub data TxStatus : Type 0 where
  pending retrying success failed pending_review : TxStatus

-- The table `Transaction`. `Score` is the type of risk scores.
pub record Tx (Score : Type 0) : Type 0 where
  pub id : String
  pub user_id : String
  pub wallet_id : String
  pub destination : String
  pub amount : String
  pub asset_code : String
  pub asset_issuer : Option String
  pub memo : Option String
  pub idempotency_key : Option String
  pub status : TxStatus
  pub stellar_tx_hash : Option String
  pub risk_score : Option Score
  pub flagged : Bool

pub record SendDto : Type 0 where
  pub destination_public_key : String
  pub amount : String
  pub asset_code : String
  pub asset_issuer : Option String
  pub memo : Option String

-- What `transaction.create` may do.
pub data Created (Rows : Type 0) : Type 0 where
  created : Rows → Created Rows
  -- Prisma's error P2002
  unique_violation : Created Rows
  refused : Error → Created Rows

-- `find` is `findUnique` by the identifier, `find_key` is `findFirst` by user and idempotency key.
pub record TxTable (Score : Type 0) : Type 1 where
  pub Rows : Type 0
  pub find : String → Rows → Option (Tx Score)
  pub find_key : String → String → Rows → Option (Tx Score)
  pub create : Tx Score → Rows → Created Rows
  pub write : String → Tx Score → Rows → Rows

pub record TransactionJobData : Type 0 where
  pub tx_id : String
  pub user_id : String
  pub dto : SendDto

pub record QueuedJob : Type 0 where
  pub job_id : Option String
  pub job : TransactionJobData

-- The queue 'transactions'; `jobs` are the jobs that it knows.
pub record TxQueue : Type 1 where
  pub Queue : Type 0
  pub jobs : Queue → List QueuedJob
  pub add : QueuedJob → Exec Queue (Unit {0})

abbrev pub has_job_id : String → QueuedJob → Bool
has_job_id id q = elim q.job_id [ none ↦ false | some j ↦ str_eq j id ]

abbrev pub knows : String → List QueuedJob → Bool
knows id [] = false
knows id (q ∷ qs) = let rest = knows id qs in if has_job_id id q then true else rest
