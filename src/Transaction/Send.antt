-- ===== src/Transaction/Send.antt =====
-- `sendTransfer` of apps/api/src/transaction/transaction.service.ts with its three guards against
-- duplicates: the cached response, the unique key of the row, the identifier of the job.
pub mod Settled
pub mod Replay
pub mod Ttl
mod Tests
use Prim.Native.String
use afro_pay_stellar.Prelude.{
  ℕ, zero, suc, ◌+◌, ◌*◌, String, Bool, true, false, Option, none, some, List, [], ◌∷◌, ltb, str_eq,
  if◌then◌else◌, Dict, set_key, Error, not_found, bad_request, Result, ok, err, Exec, ◌>>=◌, ◌>>◌,
  pure, throw, gets, or_throw, lift, modify,
}
use afro_pay_stellar.Transaction.{
  TxStatus, pending, Tx, SendDto, Created, created, unique_violation, refused, TxTable,
  TransactionJobData, QueuedJob, TxQueue,
}

abbrev pub idempotency_ttl_seconds : ℕ
idempotency_ttl_seconds = 24 * 60 * 60

pub record SendTransferResponse : Type 0 where
  pub tx_id : String
  pub status : TxStatus

pub record SendTransferResult : Type 0 where
  pub tx_id : String
  pub status : TxStatus
  pub idempotent_replay : Bool

-- An entry of `InMemoryTtlStore`.
pub record CacheEntry : Type 0 where
  pub value : SendTransferResponse
  pub expires_at : Option ℕ

abbrev pub Cache : Type 0
Cache = Dict CacheEntry

abbrev has_expired : Option ℕ → ℕ → Bool
has_expired none now = false
has_expired (some t) now = ltb t now

-- `InMemoryTtlStore.get`: an expired entry is deleted.
pub cache_get_entry : ℕ → String → Option CacheEntry → Cache → Option SendTransferResponse × Cache
cache_get_entry now key none c = (none, c)
cache_get_entry now key (some e) c =
    if has_expired e.expires_at now then (none, set_key key none c) else (some e.value, c)

pub cache_get : ℕ → String → Cache → Option SendTransferResponse × Cache
unfolding cache_get_entry
cache_get now key c = cache_get_entry now key (c key) c

-- `seconds ? Date.now() + seconds * 1000 : null`
abbrev pub expires_after : ℕ → ℕ → Option ℕ
expires_after now zero = none
expires_after now (suc n) = some (now + suc n * 1000)

-- `InMemoryTtlStore.set` with a lifetime in seconds, where 0 is for ever.
pub cache_set : ℕ → String → SendTransferResponse → ℕ → Cache → Cache
cache_set now key value seconds c =
    set_key key (some (record { value = value; expires_at = expires_after now seconds })) c

-- `idempotency:${userId}:${key}` and `send:${userId}:${key}`
abbrev pub join_key : String → String → String → String
join_key tag user key = String.◌++◌ tag (String.◌++◌ ":" (String.◌++◌ user (String.◌++◌ ":" key)))

abbrev pub idempotency_cache_key : String → String → String
idempotency_cache_key user key = join_key "idempotency" user key

abbrev pub send_job_id : String → String → String
send_job_id user key = join_key "send" user key

-- `assert_within_limit` stands for the two calls of `KycService`: it reads the rows.
pub record SendServices : Type 1 where
  pub Score : Type 0
  pub table : TxTable Score
  pub queue : TxQueue
  pub Wallets : Type 0
  pub find_wallet : String → Wallets → Option String
  pub assert_within_limit : String → SendDto → table.Rows → Result (Unit {0})

pub record SendState (env : SendServices) : Type 0 where
  pub rows : env.table.Rows
  pub jobs : env.queue.Queue
  pub wallets : env.Wallets
  pub cache : Cache
  pub clock : ℕ

module _ (env : SendServices) where
  pub read_cached_response : String → String → Exec (SendState env) (Option SendTransferResponse)
  read_cached_response user key s =
      let (found, cache) = cache_get s.clock (idempotency_cache_key user key) s.cache in
      (ok found, record s { cache = cache })

  pub write_cached_response :
      String → String → SendTransferResponse → Exec (SendState env) (Unit {0})
  write_cached_response user key response = modify λ s. record s {
    cache =
        cache_set s.clock (idempotency_cache_key user key) response idempotency_ttl_seconds s.cache;
  }

  abbrev job_id_of : String → Option String → Option String
  job_id_of user none = none
  job_id_of user (some key) = some (send_job_id user key)

  pub enqueue_job : String → String → SendDto → Option String → Exec (SendState env) (Unit {0})
  enqueue_job tx_id user dto key s =
      let (r, jobs) =
        env.queue.add
          (record {
            job_id = job_id_of user key;
            job = record { tx_id = tx_id; user_id = user; dto = dto };
          })
          s.jobs in
      (r, record s { jobs = jobs })

  abbrev pub result_of : SendTransferResponse → Bool → SendTransferResult
  result_of r replay = record { tx_id = r.tx_id; status = r.status; idempotent_replay = replay }

  pub replay_from_db : String → String → SendDto → Exec (SendState env) SendTransferResult
  replay_from_db user key dto = do
    found ← gets (λ s. env.table.find_key user key s.rows)
    existing ← or_throw found bad_request
    enqueue_job existing.id user dto (some key)
    let response : SendTransferResponse = record { tx_id = existing.id; status = existing.status }
    write_cached_response user key response
    pure (result_of response true)

  abbrev pub new_row : String → String → String → SendDto → Option String → Tx env.Score
  new_row id user wallet dto key = record {
    id = id;
    user_id = user;
    wallet_id = wallet;
    destination = dto.destination_public_key;
    amount = dto.amount;
    asset_code = dto.asset_code;
    asset_issuer = dto.asset_issuer;
    memo = dto.memo;
    idempotency_key = key;
    status = pending;
    stellar_tx_hash = none;
    risk_score = none;
    flagged = false;
  }

  abbrev write_response :
      String → Option String → SendTransferResponse → Exec (SendState env) (Unit {0})
  write_response user none response = pure tt
  write_response user (some key) response = write_cached_response user key response

  -- After the row is created: the job, the cached response, the result.
  pub finish_send :
      String → String → SendDto → Option String → Exec (SendState env) SendTransferResult
  finish_send id user dto key = do
    enqueue_job id user dto key
    let response : SendTransferResponse = record { tx_id = id; status = pending }
    write_response user key response
    pure (result_of response false)

  -- What `create` came to; the `catch` replays a violation of the unique key.
  pub after_create :
      String
      → String
      → SendDto
      → Option String
      → Created env.table.Rows
      → Exec (SendState env) SendTransferResult
  after_create id user dto key (created rows) = do
    modify (λ s. record s { rows = rows })
    finish_send id user dto key
  after_create id user dto (some key) unique_violation = replay_from_db user key dto
  after_create id user dto none unique_violation = throw Error.failure
  after_create id user dto key (refused e) = throw e

  -- `sendTransfer` past the cached response. `id` is drawn by the database.
  pub submit : String → String → SendDto → Option String → Exec (SendState env) SendTransferResult
  submit id user dto key = do
    allowed ← gets (λ s. env.assert_within_limit user dto s.rows)
    lift allowed
    found ← gets (λ s. env.find_wallet user s.wallets)
    wallet ← or_throw found not_found
    outcome ← gets (λ s. env.table.create (new_row id user wallet dto key) s.rows)
    after_create id user dto key outcome

  abbrev replay_or :
      Option SendTransferResponse
      → Exec (SendState env) SendTransferResult
      → Exec (SendState env) SendTransferResult
  replay_or none m = m
  replay_or (some r) m = pure (result_of r true)

  pub send_transfer :
      String → String → SendDto → Option String → Exec (SendState env) SendTransferResult
  send_transfer id user dto none = submit id user dto none
  send_transfer id user dto (some key) = do
    cached ← read_cached_response user key
    replay_or cached (submit id user dto (some key))
