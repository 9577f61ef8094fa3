-- ===== src/Compliance/Execution.antt =====
-- compliance-action.service.ts: an action around the hand-over of its job.
use afro_pay_stellar.Prelude.{String, ◌≡◌, true, some, str_eq_refl, ◌>>=◌, find-write_here}
use afro_pay_stellar.Compliance.{
  executing, executed, Action, Services, State, awaits_result, success, load_action, update_action,
  conclude, record_execution_result,
}

module _ (env : Services) where
  module _ (s : State env) (id : String) (row : Action)
      (found : env.actions.find id s.actions ≡ some row) where
    find_written :
        (new : Action) → env.actions.find id (env.actions.write id new s.actions) ≡ some new
    find_written new = find-write_here env.actions id id new s.actions (str_eq_refl id)

    -- The worker reports a success on a dispatched action: it is executed, with its hash.
    report-executed :
        (tx_hash : String)
        → awaits_result row.status ≡ true
        → env.actions.find id (record_execution_result env id tx_hash success s).1.actions
          ≡ some (record row { status = executed; tx_hash = some tx_hash })
    unfolding record_execution_result load_action update_action ◌>>=◌
    report-executed tx_hash h = rw (found, h) (rw found (find_written _))

  conclude-executing :
      (s : State env) (a row : Action) (job_ref : String)
      → env.actions.find a.id s.actions ≡ some row
      → env.actions.find a.id (conclude env a job_ref s).1.actions
        ≡ some (record row { status = executing })
  unfolding conclude ◌>>=◌
  conclude-executing s a row job_ref found =
      rw found (find_written s a.id row found (record row { status = executing }))

  -- The race of a fast worker: when it reports the success of an action between the hand-over of
  -- the job and the last write of `execute`, that write takes the action from executed back to
  -- executing; the hash stays.
  pub late_conclude :
      (s : State env) (a row : Action) (job_ref tx_hash : String)
      → env.actions.find a.id s.actions ≡ some row
      → awaits_result row.status ≡ true
      → (env.actions.find a.id (record_execution_result env a.id tx_hash success s).1.actions
          ≡ some (record row { status = executed; tx_hash = some tx_hash }))
        × (env.actions.find a.id
              (conclude env a job_ref
                (record_execution_result env a.id tx_hash success s).1).1.actions
            ≡ some (record row { status = executing; tx_hash = some tx_hash }))
  late_conclude s a row job_ref tx_hash found h =
      let done = report-executed s a.id row found tx_hash h in
      (done, conclude-executing _ a _ job_ref done)
