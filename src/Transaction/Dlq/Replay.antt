-- ===== src/Transaction/Dlq/Replay.antt =====
-- transaction-dlq.service.ts: a job that is routed to the queue of failed jobs, and replayed from it.
use afro_pay_stellar.Prelude.{
  ℕ, String, ◌≡◌, refl, true, false, none, some, ok, Result-cases, inl, inr, ◌>>=◌,
}
use afro_pay_stellar.Transaction.Dlq.{
  Job, JobError, TransactionDlqPayload, DlqServices, DlqState, dlq_job_id, or_text, replay_key,
  payload_of, has_attempts_left, route_failed_job_to_dlq, replay,
}

-- A job that was added under a new identifier is found under it.
abbrev pub IsQueue : DlqServices → Type 0
IsQueue env =
    (id : String) (p : TransactionDlqPayload) (q : env.Dlq) (u : Unit {0})
    → env.get_job id q ≡ none
    → (env.add id p q).0 ≡ ok u
    → env.get_job id (env.add id p q).1 ≡ some p

module _ (env : DlqServices) where
  replay-found :
      (id : String) (p : TransactionDlqPayload) (s : DlqState env)
      → env.get_job id s.dlq ≡ some p
      → (replay env id s).1.jobs
        ≡ (env.add_job
            (or_text p.original_job_name "process")
            p.payload
            (replay_key env id s.clock)
            s.jobs).1
  unfolding replay ◌>>=◌
  replay-found id p s found =
      elim (Result-cases
        (env.add_job (or_text p.original_job_name "process") p.payload (replay_key env id s.clock)
          s.jobs).0) [
            | inr (e, h) ↦ rw (found, h) refl
            | inl (new, h) ↦
                elim (Result-cases
                  (env.update id (record p { replayed_at = some s.clock; replay_job_id = new })
                    s.dlq).0) [
                      | inr (e, k) ↦ rw (found, h, k) refl
                      | inl (u, k) ↦ rw (found, h, k) refl
                    ]
          ]

  routed :
      (job : Job) (error : JobError) (s : DlqState env)
      → has_attempts_left env job ≡ false
      → (env.add (dlq_job_id env job) (payload_of env job error s.clock) s.dlq).0 ≡ ok tt
      → route_failed_job_to_dlq env job error s ≡ (
        ok true,
        record s {
          dlq = (env.add (dlq_job_id env job) (payload_of env job error s.clock) s.dlq).1;
        },
      )
  unfolding route_failed_job_to_dlq ◌>>=◌
  routed job error s last added = rw (last, added) refl

  -- A job that has no attempts left is routed to the queue of failed jobs, and its replay at any later
  -- time puts it back on the queue of transactions: with its own data, under its own name (or
  -- 'process', where that is empty), and with an identifier made of that of the failed job and the
  -- time. It is assumed that the queue of failed jobs does not know the job yet, accepts it, and finds
  -- what it has accepted.
  pub replay-route :
      (job : Job) (error : JobError) (s : DlqState env) (later : ℕ)
      → IsQueue env
      → has_attempts_left env job ≡ false
      → env.get_job (dlq_job_id env job) s.dlq ≡ none
      → (env.add (dlq_job_id env job) (payload_of env job error s.clock) s.dlq).0 ≡ ok tt
      → ((route_failed_job_to_dlq env job error s).0 ≡ ok true)
        × ((replay env
              (dlq_job_id env job)
              (record (route_failed_job_to_dlq env job error s).1 { clock = later })).1.jobs
            ≡ (env.add_job
                (or_text job.name "process")
                job.job_data
                (replay_key env (dlq_job_id env job) later)
                s.jobs).1)
  replay-route job error s later keeps last unknown added = rw (routed job error s last added) (
    refl,
    replay-found (dlq_job_id env job) (payload_of env job error s.clock)
        (record s {
          dlq = (env.add (dlq_job_id env job) (payload_of env job error s.clock) s.dlq).1;
          clock = later;
        })
        (keeps (dlq_job_id env job) (payload_of env job error s.clock) s.dlq tt unknown added),
  )
