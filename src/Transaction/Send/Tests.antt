-- ===== src/Transaction/Send/Tests.antt =====
-- Services in memory, and the theorem on retries at a concrete transfer.
use afro_pay_stellar.Prelude.{
  String, ◌≡◌, ◌≢◌, subst, inl, inr, refl, Bool, true, false, ◌&&◌, Option, none, some, List, [],
  ◌∷◌, str_eq, str_eq_refl, if◌then◌else◌, ok, Exec, ◌>>=◌, Bool-cases,
}
use afro_pay_stellar.Transaction.{
  Tx, pending, SendDto, Created, created, unique_violation, TxTable, QueuedJob, TxQueue, knows,
  has_job_id,
}
use afro_pay_stellar.Transaction.Send.{
  SendServices, SendState, SendTransferResult, read_cached_response, write_cached_response,
  enqueue_job, finish_send, after_create, submit, send_transfer, cache_get, cache_get_entry,
  cache_set, SendTransferResponse,
}
use afro_pay_stellar.Transaction.Send.Settled.{IsLawful}
use afro_pay_stellar.Transaction.Send.Ttl.{
  Event, setting, getting, waiting, answers, log_answers, answers_refine_log,
}
use afro_pay_stellar.Transaction.Send.Replay.{Retry, retry, retry_all, retry-once}

abbrev Row : Type 0
Row = Tx (Unit {0})

abbrev has_key : String → String → Row → Bool
has_key user key tx =
    str_eq tx.user_id user && elim tx.idempotency_key [ none ↦ false | some k ↦ str_eq k key ]

abbrev find_key : String → String → List Row → Option Row
find_key user key [] = none
find_key user key (tx ∷ txs) =
    let rest = find_key user key txs in if has_key user key tx then some tx else rest

abbrev find : String → List Row → Option Row
find id [] = none
find id (tx ∷ txs) = let rest = find id txs in if str_eq tx.id id then some tx else rest

abbrev write : String → Row → List Row → List Row
write id new [] = []
write id new (tx ∷ txs) = (if str_eq tx.id id then new else tx) ∷ write id new txs

abbrev insert : Option Row → Row → List Row → Created (List Row)
insert none tx txs = created (tx ∷ txs)
insert (some old) tx txs = unique_violation

abbrev create : Option String → Row → List Row → Created (List Row)
create none tx txs = created (tx ∷ txs)
create (some key) tx txs = insert (find_key tx.user_id key txs) tx txs

abbrev rows : TxTable (Unit {0})
rows = record {
  Rows = List Row;
  find = find;
  find_key = find_key;
  create = λ tx txs. create tx.idempotency_key tx txs;
  write = write;
}

abbrev enqueue : Option String → QueuedJob → Exec (List QueuedJob) (Unit {0})
enqueue none q qs = (ok tt, q ∷ qs)
enqueue (some id) q qs = if knows id qs then (ok tt, qs) else (ok tt, q ∷ qs)

abbrev queue : TxQueue
queue = record { Queue = List QueuedJob; jobs = λ qs. qs; add = λ q qs. enqueue q.job_id q qs }

abbrev services : SendServices
services = record {
  Score = Unit;
  table = rows;
  queue = queue;
  Wallets = Unit;
  find_wallet = λ user w. some "w1";
  assert_within_limit = λ user dto txs. ok tt;
}

-- the rows of a user under a key, once a row is created
found :
    (tx : Row) (key : String) (o : Option Row) (t t' : List Row)
    → insert o tx t ≡ created t'
    → tx.idempotency_key ≡ some key
    → find_key tx.user_id key t' ≡ some tx
found tx key none t t' e k =
    let same : tx ∷ t ≡ t' = cc e in
    rw (← same) (rw k (rw (str_eq_refl tx.user_id, str_eq_refl key)))
found tx key (some old) t t' e k = cc e

occupied :
    (tx old : Row) (o : Option Row) (t t' : List Row) → o ≡ some old → insert o tx t ≢ created t'
occupied tx old none t t' e q = cc e
occupied tx old (some x) t t' e q = cc q

own_id : (id : String) (q : QueuedJob) → q.job_id ≡ some id → has_job_id id q ≡ true
own_id id q k = rw k (str_eq_refl id)

knows-enqueue :
    (id : String) (q : QueuedJob) (j : List QueuedJob) (o : Option String)
    → o ≡ some id
    → q.job_id ≡ some id
    → knows id (enqueue o q j).1 ≡ true
knows-enqueue id q j none e k = cc e
knows-enqueue id q j (some i) e k =
    let same : i ≡ id = cc e in
    rw same (elim (Bool-cases (knows id j)) [
      | inl known ↦ rw known known
      | inr new ↦ rw new (rw (own_id id q k))
    ])

enqueue_known :
    (id : String) (q : QueuedJob) (j : List QueuedJob) (o : Option String)
    → o ≡ some id
    → knows id j ≡ true
    → (enqueue o q j).1 ≡ j
enqueue_known id q j none e known = cc e
enqueue_known id q j (some i) e known = let same : i ≡ id = cc e in rw same (rw known)

services-IsLawful : IsLawful services
services-IsLawful = record {
  find_key-create =
      λ tx key t t' e k. found tx key _ t t' (subst (λ o. create o tx t ≡ created t') k e) k;
  unique = λ tx old key t t' k f e.
      occupied tx old _ t t' f (subst (λ o. create o tx t ≡ created t') k e);
  add_known = λ id q j k f. enqueue_known id q j q.job_id k f;
  added = λ id q j k e. knows-enqueue id q j q.job_id k k;
}

abbrev dto : SendDto
dto = record {
  destination_public_key = "GDEST";
  amount = "10";
  asset_code = "XLM";
  asset_issuer = none;
  memo = none;
}

abbrev fresh : SendState services
fresh = record { rows = []; jobs = []; wallets = tt; cache = λ k. none; clock = 0 }

abbrev first : SendTransferResult
first = record { tx_id = "t1"; status = pending; idempotent_replay = false }

first_sent : (send_transfer services "t1" "u" dto (some "k") fresh).0 ≡ ok first
unfolding send_transfer submit after_create finish_send enqueue_job write_cached_response
    read_cached_response cache_get cache_get_entry ◌>>=◌
first_sent = refl

-- A day and a second later the cached response has expired.
abbrev late : Retry services
late = record { id = "t2"; dto = dto; wait = 86_401_000 }

abbrev again : SendTransferResult
again = record { tx_id = "t1"; status = pending; idempotent_replay = true }

abbrev sent : SendState services
sent = (send_transfer services "t1" "u" dto (some "k") fresh).1

retry-once_example :
    ((retry services "u" "k" late (retry_all services "u" "k" (late ∷ []) sent)).1.rows ≡ sent.rows)
    × ((retry services "u" "k" late (retry_all services "u" "k" (late ∷ []) sent)).1.jobs
        ≡ sent.jobs)
    × ((retry services "u" "k" late (retry_all services "u" "k" (late ∷ []) sent)).0 ≡ ok again
        → (again.tx_id ≡ first.tx_id) × (again.idempotent_replay ≡ true))
retry-once_example =
    retry-once services services-IsLawful "u" "k" "t1" dto fresh first first_sent refl (late ∷ [])
      late again

abbrev cached : SendTransferResponse
cached = record { tx_id = "tx"; status = pending }

-- A read in time, a read after the lifetime, and one after a second write.
abbrev reads : List Event
reads =
    setting "k" cached 2
    ∷ getting "k"
    ∷ waiting 2_001
    ∷ getting "k"
    ∷ setting "k" cached 1
    ∷ getting "k"
    ∷ []

reads_answered : answers reads 5 (λ key. none) ≡ some cached ∷ none ∷ some cached ∷ []
unfolding answers cache_get cache_set
reads_answered = refl

answers_refine_log_example : answers reads 5 (λ key. none) ≡ log_answers reads 5 []
answers_refine_log_example = answers_refine_log reads 5
