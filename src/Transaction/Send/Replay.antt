-- ===== src/Transaction/Send/Replay.antt =====
-- transaction.service.ts: retries of a transfer under its idempotency key.
use afro_pay_stellar.Prelude.{
  ℕ, ◌+◌, String, ◌≡◌, refl, sym, true, false, Option, none, some, List, [], ◌∷◌, Result, ok, err,
  Triple, Triple-pure, Triple-throw, Triple-gets, Triple-or_throw, Triple-modify, Triple-bind,
  Triple-state, Ends, Triple-any, Triple-ok, Triple-post,
}
use afro_pay_stellar.Transaction.{
  Tx, SendDto, Created, created, unique_violation, refused, QueuedJob, knows,
}
use afro_pay_stellar.Transaction.Send.{
  SendServices, SendState, SendTransferResult, SendTransferResponse, send_job_id,
  write_cached_response, replay_or, enqueue_job, replay_from_db, new_row, finish_send, after_create,
  submit, send_transfer,
}
use afro_pay_stellar.Transaction.Send.Settled.{
  IsLawful, IsSettled, cache_set-CacheSound, send_transfer-triple,
}

module _ (env : SendServices) (lawful : IsLawful env) (user key : String) where
  abbrev Any : SendState env → Type 0
  Any s = Unit

  -- A result that is no replay settles the transfer.
  abbrev Settles : SendTransferResult → SendState env → Type 0
  Settles r s =
      r.idempotent_replay ≡ false → IsSettled env user key s.rows (env.queue.jobs s.jobs) r.tx_id s

  record Stored (id : String) (s : SendState env) : Type 0 where
    row : Tx env.Score
    stored : env.table.find_key user key s.rows ≡ some row
    own_id : row.id ≡ id

  Queued : String → SendState env → Type 0
  Queued id s = Stored id s × (knows (send_job_id user key) (env.queue.jobs s.jobs) ≡ true)

  enqueue_job-Queued :
      (id : String) (dto : SendDto)
      → Triple (Stored id) (enqueue_job env id user dto (some key)) (λ _. Queued id) Any
  unfolding enqueue_job Queued
  enqueue_job-Queued id dto = record {
    run = λ s h. go s h (enqueue_job env id user dto (some key) s).0 refl;
  }
    where
      go :
          (s : SendState env)
          → Stored id s
          → (r : Result (Unit {0})) → (enqueue_job env id user dto (some key) s).0 ≡ r
          → Ends (λ _. Queued id) Any r (enqueue_job env id user dto (some key) s).1
      go s h (err e) p = tt
      go s h (ok u) p = (
        record { row = h.row; stored = h.stored; own_id = h.own_id },
        lawful.added (send_job_id user key) _ s.jobs refl p,
      )

  finish_send-Settles :
      (id : String) (dto : SendDto)
      → Triple (Stored id) (finish_send env id user dto (some key)) Settles Any
  unfolding finish_send write_cached_response Queued
  finish_send-Settles id dto =
      Triple-bind (λ _. Queued id) (enqueue_job-Queued id dto)
        λ _.
          Triple-bind (λ _ s. IsSettled env user key s.rows (env.queue.jobs s.jobs) id s)
            (Triple-modify _ (λ s h. record {
              row = h.0.row;
              same_rows = refl;
              same_jobs = refl;
              stored = h.0.stored;
              own_id = h.0.own_id;
              known = h.1;
              cached = cache_set-CacheSound _ _ _ id _ s.cache refl;
            }))
            λ _. Triple-pure _ (λ s h _. h)

  -- A replay settles nothing anew.
  replay_from_db-Settles :
      {P : SendState env → Type 0} (dto : SendDto)
      → Triple P (replay_from_db env user key dto) Settles Any
  unfolding replay_from_db
  replay_from_db-Settles dto =
      Triple-bind (λ _. Any) (Triple-gets _ (λ s h. tt))
        λ found.
          Triple-bind (λ _. Any) (Triple-or_throw found _ (λ s h. tt) (λ _ _ s h. tt))
            λ row.
              Triple-bind (λ _. Any) (Triple-any _ _)
                λ _. Triple-bind (λ _. Any) (Triple-any _ _) λ _. Triple-pure _ (λ s h q. cc)

  after_create-Settles :
      (id wallet : String) (dto : SendDto) (outcome : Created env.table.Rows)
      → Triple
          (λ s. outcome ≡ env.table.create (new_row env id user wallet dto (some key)) s.rows)
          (after_create env id user dto (some key) outcome)
          Settles
          Any
  unfolding after_create
  after_create-Settles id wallet dto (created t) =
      Triple-bind (λ _. Stored id)
        (Triple-modify _ (λ s made. record {
          row = new_row env id user wallet dto (some key);
          stored =
              lawful.find_key-create (new_row env id user wallet dto (some key)) key s.rows t
                (sym made) refl;
          own_id = refl;
        }))
        λ _. finish_send-Settles id dto
  after_create-Settles id wallet dto unique_violation = replay_from_db-Settles dto
  after_create-Settles id wallet dto (refused e) = Triple-throw e (λ s h. tt)

  submit-Settles :
      (id : String) (dto : SendDto) → Triple Any (submit env id user dto (some key)) Settles Any
  unfolding submit
  submit-Settles id dto =
      Triple-bind (λ _. Any) (Triple-any _ _)
        λ allowed.
          Triple-bind (λ _. Any) (Triple-any _ _)
            λ _.
              Triple-bind (λ _. Any) (Triple-any _ _)
                λ found.
                  Triple-bind (λ _. Any) (Triple-any _ _)
                    λ wallet.
                      Triple-bind
                        (λ outcome s.
                          outcome
                          ≡ env.table.create (new_row env id user wallet dto (some key)) s.rows)
                        (Triple-gets _ (λ s h. refl))
                        λ outcome. after_create-Settles id wallet dto outcome

  replay_or-Settles :
      (o : Option SendTransferResponse) (id : String) (dto : SendDto)
      → Triple Any (replay_or env o (submit env id user dto (some key))) Settles Any
  replay_or-Settles none id dto = submit-Settles id dto
  replay_or-Settles (some r) id dto = Triple-pure _ (λ s h q. cc)

  send_transfer-Settles :
      (id : String) (dto : SendDto)
      → Triple Any (send_transfer env id user dto (some key)) Settles Any
  unfolding send_transfer
  send_transfer-Settles id dto =
      Triple-bind (λ _. Any) (Triple-any _ _) λ cached. replay_or-Settles cached id dto

module _ (env : SendServices) where
  -- A retry under the same key: the identifier that the database would draw, the body, and the time
  -- that has passed.
  pub record Retry : Type 0 where
    pub id : String
    pub dto : SendDto
    pub wait : ℕ

  pub retry : String → String → Retry → SendState env → Result SendTransferResult × SendState env
  retry user key r s =
      send_transfer env r.id user r.dto (some key) (record s { clock = s.clock + r.wait })

  pub retry_all : String → String → List Retry → SendState env → SendState env
  retry_all user key [] s = s
  retry_all user key (r ∷ rs) s = retry_all user key rs (retry user key r s).1

module _ (env : SendServices) (lawful : IsLawful env) (user key : String) where
  -- time that passes settles and unsettles nothing
  IsSettled-clock :
      (rows : env.table.Rows) (jobs : List QueuedJob) (tx_id : String) (s : SendState env) (t : ℕ)
      → IsSettled env user key rows jobs tx_id s
      → IsSettled env user key rows jobs tx_id (record s { clock = t })
  IsSettled-clock rows jobs tx_id s t h = record {
    row = h.row;
    same_rows = h.same_rows;
    same_jobs = h.same_jobs;
    stored = h.stored;
    own_id = h.own_id;
    known = h.known;
    cached = h.cached;
  }

  retry_all-IsSettled :
      (rows : env.table.Rows) (jobs : List QueuedJob) (tx_id : String) (rs : List (Retry env))
      (s : SendState env)
      → IsSettled env user key rows jobs tx_id s
      → IsSettled env user key rows jobs tx_id (retry_all env user key rs s)
  unfolding retry_all retry
  retry_all-IsSettled rows jobs tx_id [] s h = h
  retry_all-IsSettled rows jobs tx_id (r ∷ rs) s h = retry_all-IsSettled rows jobs tx_id rs _ (
      Triple-state
        (Triple-post (λ _ _ q. q.0)
          (send_transfer-triple env user key lawful rows jobs tx_id r.id r.dto))
        _ (IsSettled-clock rows jobs tx_id s _ h))

  -- Once a send under an idempotency key has succeeded as a new transfer, retries under that key,
  -- any number of them, with any bodies, after any time (also when the cached response has
  -- expired), create no row and no job; and each retry that succeeds answers with the identifier
  -- of the first transaction, marked as a replay.
  pub retry-once :
      (id : String) (dto : SendDto) (s : SendState env) (result : SendTransferResult)
      → (send_transfer env id user dto (some key) s).0 ≡ ok result
      → result.idempotent_replay ≡ false
      → (rs : List (Retry env)) (r : Retry env) (again : SendTransferResult)
      → ((retry env user key r
            (retry_all env user key rs (send_transfer env id user dto (some key) s).1)).1.rows
          ≡ (send_transfer env id user dto (some key) s).1.rows)
        × (env.queue.jobs
              (retry env user key r
                (retry_all env user key rs (send_transfer env id user dto (some key) s).1)).1.jobs
            ≡ env.queue.jobs (send_transfer env id user dto (some key) s).1.jobs)
        × ((retry env user key r
                (retry_all env user key rs (send_transfer env id user dto (some key) s).1)).0
              ≡ ok again
            → (again.tx_id ≡ result.tx_id) × (again.idempotent_replay ≡ true))
  unfolding retry
  retry-once id dto s result success new rs r again =
      let first : IsSettled env user key _ _ result.tx_id
          (send_transfer env id user dto (some key) s).1 =
        Triple-ok (send_transfer-Settles env lawful user key id dto) s result success tt new in
      let settled = retry_all-IsSettled _ _ _ rs _ first in
      let t = send_transfer-triple env user key lawful _ _ _ r.id r.dto in
      let later =
        IsSettled-clock _ _ _
          (retry_all env user key rs (send_transfer env id user dto (some key) s).1) _ settled in
      let kept = Triple-state (Triple-post (λ _ _ q. q.0) t) _ later in
      (
        kept.same_rows,
        kept.same_jobs,
        λ e. let (h, same, replay) = Triple-ok t _ again e later in (same, replay),
      )
