-- ===== src/Transaction/Send/Settled.antt =====
-- transaction.service.ts: a transfer that is settled under its idempotency key, as an invariant.
use afro_pay_stellar.Prelude.{
  ℕ, String, ◌≡◌, ◌≢◌, inl, inr, refl, sym, ap, subst, ◌∙◌, true, Option, none, some, List,
  str_eq_refl, ok, Triple, Triple-pure, Triple-throw, Triple-gets, Triple-or_throw, Triple-lift,
  Triple-modify, Triple-bind, Triple-fact, Triple-given, Ends-both, Bool-cases,
}
use afro_pay_stellar.Transaction.{
  Tx, SendDto, Created, created, unique_violation, refused, QueuedJob, knows,
}
use afro_pay_stellar.Transaction.Send.{
  CacheEntry, Cache, SendServices, SendState, SendTransferResult, SendTransferResponse,
  idempotency_cache_key, send_job_id, cache_get, cache_get_entry, cache_set, has_expired,
  read_cached_response, write_cached_response, replay_or, enqueue_job, replay_from_db, new_row,
  after_create, submit, send_transfer,
}

-- What the service relies on: the unique key of the rows, and a queue that takes a job whose
-- identifier it knows for the job that it has.
pub record IsLawful (env : SendServices) : Type 0 where
  pub find_key-create :
      (tx : Tx env.Score) (key : String) (t t' : env.table.Rows)
      → env.table.create tx t ≡ created t'
      → tx.idempotency_key ≡ some key
      → env.table.find_key tx.user_id key t' ≡ some tx
  pub unique :
      (tx old : Tx env.Score) (key : String) (t t' : env.table.Rows)
      → tx.idempotency_key ≡ some key
      → env.table.find_key tx.user_id key t ≡ some old
      → env.table.create tx t ≢ created t'
  pub add_known :
      (id : String) (q : QueuedJob) (j : env.queue.Queue)
      → q.job_id ≡ some id
      → knows id (env.queue.jobs j) ≡ true
      → env.queue.jobs (env.queue.add q j).1 ≡ env.queue.jobs j
  pub added :
      (id : String) (q : QueuedJob) (j : env.queue.Queue)
      → q.job_id ≡ some id
      → (env.queue.add q j).0 ≡ ok tt
      → knows id (env.queue.jobs (env.queue.add q j).1) ≡ true

-- What the cache holds under a key is the answer for one transaction.
abbrev pub CacheSound : String → String → Cache → Type 0
CacheSound k tx_id c = (e : CacheEntry) → c k ≡ some e → e.value.tx_id ≡ tx_id

cache_get_entry-CacheSound :
    (now : ℕ) (k tx_id : String) (o : Option CacheEntry) (c : Cache)
    → CacheSound k tx_id c
    → c k ≡ o
    → CacheSound k tx_id (cache_get_entry now k o c).1
      × ((r : SendTransferResponse) → (cache_get_entry now k o c).0 ≡ some r → r.tx_id ≡ tx_id)
unfolding cache_get_entry
cache_get_entry-CacheSound now k tx_id none c sound e = (sound, λ r q. cc)
cache_get_entry-CacheSound now k tx_id (some l) c sound e =
    elim (Bool-cases (has_expired l.expires_at now)) [
      | inl old ↦ rw old ((λ x q. cc (rw (str_eq_refl k) at q)), (λ r q. cc))
      | inr live ↦ rw live (
        sound,
        (λ r q.
            let same : r ≡ l.value = cc q in
            ap (λ (x : SendTransferResponse). x.tx_id) same ∙ sound l e),
      )
    ]

pub cache_set-CacheSound :
    (now seconds : ℕ) (k tx_id : String) (r : SendTransferResponse) (c : Cache)
    → r.tx_id ≡ tx_id
    → CacheSound k tx_id (cache_set now k r seconds c)
unfolding cache_set
cache_set-CacheSound now seconds k tx_id r c same x q =
    let kept : x.value ≡ r = cc (rw (str_eq_refl k) at q) in
    ap (λ (y : SendTransferResponse). y.tx_id) kept ∙ same

module _ (env : SendServices) (user key : String) where
  -- The transfer of `user` under `key` has become the transaction `tx_id`, with the rows `rows` and
  -- the jobs `jobs`.
  pub record IsSettled (rows : env.table.Rows) (jobs : List QueuedJob) (tx_id : String)
      (s : SendState env) : Type 0 where
    pub row : Tx env.Score
    pub same_rows : s.rows ≡ rows
    pub same_jobs : env.queue.jobs s.jobs ≡ jobs
    pub stored : env.table.find_key user key rows ≡ some row
    pub own_id : row.id ≡ tx_id
    pub known : knows (send_job_id user key) jobs ≡ true
    pub cached :
        (e : CacheEntry) → s.cache (idempotency_cache_key user key) ≡ some e → e.value.tx_id ≡ tx_id

  module _ (lawful : IsLawful env) (rows : env.table.Rows) (jobs : List QueuedJob)
      (tx_id : String) where
    abbrev pub P : SendState env → Type 0
    P = IsSettled rows jobs tx_id

    abbrev pub Q : SendTransferResult → SendState env → Type 0
    Q r s = P s × (r.tx_id ≡ tx_id) × (r.idempotent_replay ≡ true)

    with_cache :
        (s : SendState env) (c : Cache)
        → CacheSound (idempotency_cache_key user key) tx_id c
        → P s
        → P (record s { cache = c })
    with_cache s c sound h = record {
      row = h.row;
      same_rows = h.same_rows;
      same_jobs = h.same_jobs;
      stored = h.stored;
      own_id = h.own_id;
      known = h.known;
      cached = sound;
    }

    read_cached_response-triple :
        Triple P
          (read_cached_response env user key)
          (λ o s. P s × ((r : SendTransferResponse) → o ≡ some r → r.tx_id ≡ tx_id))
          P
    unfolding read_cached_response cache_get
    read_cached_response-triple = record {
      run = λ s h.
          let (sound, answer) =
            cache_get_entry-CacheSound s.clock (idempotency_cache_key user key) tx_id _ s.cache
              h.cached refl in
          (with_cache s _ sound h, answer);
    }

    enqueue_job-triple :
        (id : String) (dto : SendDto) → Triple P (enqueue_job env id user dto (some key)) (λ _. P) P
    unfolding enqueue_job
    enqueue_job-triple id dto = record {
      run = λ s h. Ends-both P (enqueue_job env id user dto (some key) s).0 _ (record {
        row = h.row;
        same_rows = h.same_rows;
        same_jobs =
            lawful.add_known (send_job_id user key) _ s.jobs refl (rw h.same_jobs h.known)
            ∙ h.same_jobs;
        stored = h.stored;
        own_id = h.own_id;
        known = h.known;
        cached = h.cached;
      });
    }

    write_cached_response-triple :
        (r : SendTransferResponse)
        → r.tx_id ≡ tx_id
        → Triple P (write_cached_response env user key r) (λ _. P) P
    unfolding write_cached_response
    write_cached_response-triple r same =
        Triple-modify _ (λ s h. with_cache s _ (cache_set-CacheSound _ _ _ tx_id r s.cache same) h)

    replay_from_db-triple : (dto : SendDto) → Triple P (replay_from_db env user key dto) Q P
    unfolding replay_from_db
    replay_from_db-triple dto =
        Triple-bind (λ found s. P s × (env.table.find_key user key s.rows ≡ found))
          (Triple-gets _ (λ s h. (h, refl)))
          λ found.
            Triple-bind (λ row s. P s × (row.id ≡ tx_id))
              (Triple-or_throw found _ (λ s h. h.0)
                (λ row e s h. (h.0, row_id s row h.0 (h.1 ∙ e))))
              λ row.
                Triple-bind (λ _ s. P s × (row.id ≡ tx_id))
                  (Triple-fact (λ _. enqueue_job-triple row.id dto))
                  λ _.
                    Triple-bind (λ _ s. P s × (row.id ≡ tx_id))
                      (Triple-fact (λ same. write_cached_response-triple _ same))
                      λ _. Triple-pure _ (λ s h. (h.0, h.1, refl))
      where
        row_id :
            (s : SendState env) (row : Tx env.Score)
            → P s
            → env.table.find_key user key s.rows ≡ some row
            → row.id ≡ tx_id
        row_id s row h e =
            let stored : env.table.find_key user key rows ≡ some row =
              subst (λ t. env.table.find_key user key t ≡ some row) h.same_rows e in
            let same : row ≡ h.row = cc (stored, h.stored) in
            ap (λ (x : Tx env.Score). x.id) same ∙ h.own_id

    after_create-triple :
        (id : String) (dto : SendDto) (outcome : Created env.table.Rows)
        → ((t : env.table.Rows) → outcome ≢ created t)
        → Triple P (after_create env id user dto (some key) outcome) Q P
    unfolding after_create
    after_create-triple id dto (created t) other = absurd (other t refl)
    after_create-triple id dto unique_violation other = replay_from_db-triple dto
    after_create-triple id dto (refused e) other = Triple-throw e (λ s h. h)

    submit-triple : (id : String) (dto : SendDto) → Triple P (submit env id user dto (some key)) Q P
    unfolding submit
    submit-triple id dto =
        Triple-bind (λ _. P) (Triple-gets _ (λ s h. h))
          λ allowed.
            Triple-bind (λ _. P) (Triple-lift allowed (λ s h. h) (λ _ _ s h. h))
              λ _.
                Triple-bind (λ _. P) (Triple-gets _ (λ s h. h))
                  λ found.
                    Triple-bind (λ _. P) (Triple-or_throw found _ (λ s h. h) (λ _ _ s h. h))
                      λ wallet.
                        Triple-bind
                          (λ outcome s. P s × ((t : env.table.Rows) → outcome ≢ created t))
                          (Triple-gets _ (λ s h. (
                            h,
                            not_created s h (new_row env id user wallet dto (some key)) refl refl,
                          )))
                          λ outcome.
                            Triple-given (λ other. after_create-triple id dto outcome other)
      where
        not_created :
            (s : SendState env)
            → P s
            → (tx : Tx env.Score) → tx.idempotency_key ≡ some key
            → tx.user_id ≡ user
            → (t : env.table.Rows) → env.table.create tx s.rows ≢ created t
        not_created s h tx keyed own t = lawful.unique tx h.row key s.rows t keyed (
            subst (λ u. env.table.find_key u key s.rows ≡ some h.row) (sym own)
              (subst (λ r. env.table.find_key user key r ≡ some h.row) (sym h.same_rows) h.stored))

    pub send_transfer-triple :
        (id : String) (dto : SendDto) → Triple P (send_transfer env id user dto (some key)) Q P
    unfolding send_transfer
    send_transfer-triple id dto =
        Triple-bind _ read_cached_response-triple λ cached. replay_or-triple cached
      where
        replay_or-triple :
            (o : Option SendTransferResponse)
            → Triple
                (λ s. P s × ((r : SendTransferResponse) → o ≡ some r → r.tx_id ≡ tx_id))
                (replay_or env o (submit env id user dto (some key)))
                Q
                P
        replay_or-triple none = Triple-given (λ _. submit-triple id dto)
        replay_or-triple (some r) = Triple-pure _ (λ s h. (h.0, h.1 r refl, refl))
