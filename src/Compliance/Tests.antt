-- ===== src/Compliance/Tests.antt =====
-- Services in memory, and the theorems at concrete calls.
use afro_pay_stellar.Prelude.{
  ℕ, suc, String, ◌≡◌, inr, refl, true, false, ◌&&◌, Bool, Option, none, some, List, [], ◌∷◌, All,
  arith, str_eq, if◌then◌else◌, ◌>>=◌, Exec, conflict, failure, ok, err, map_table,
}
use afro_pay_stellar.Audit.{AuditLogOptions}
use afro_pay_stellar.Compliance.{
  approved, user, admin, User, freeze, pending_approval, executing, executed, Action, ActionDto,
  testnet, ComplianceJobPayload, Services, State, job_of, success, sign_approval, is_active_admin,
  assert_admin, load_action, update_action, assert_awaiting_approval, request_action, dispatch,
  conclude, execute, sign_and_execute, approve, reject, record_execution_result,
}
use afro_pay_stellar.Compliance.Soundness.{IsLawful, IsApproved}
use afro_pay_stellar.Compliance.FourEyes.{
  here, next, request, approval, IsInitial, Reach-IsApproved,
}
use afro_pay_stellar.Compliance.Execution.{late_conclude}
use afro_pay_stellar.Compliance.Stuck.{MayApprove, refused_job_sticks}

abbrev Approvals : Type 0
Approvals = List (String × String × String)

abbrev find_approval : String → String → Approvals → Option String
find_approval a o [] = none
find_approval a o ((b, p, sig) ∷ t) =
    if str_eq b a && str_eq p o then some sig else find_approval a o t

abbrev count_approvals : String → Approvals → ℕ
count_approvals a [] = 0
count_approvals a ((b, p, sig) ∷ t) = let n = count_approvals a t in if str_eq b a then suc n else n

abbrev hand_over_to : Bool → ComplianceJobPayload → Exec (List ComplianceJobPayload) String
hand_over_to true job q = (ok job.action_id, job ∷ q)
hand_over_to false job q = (err failure, q)

-- `up` says whether the queue accepts jobs.
abbrev services : Bool → Services
services up = record {
  users = map_table User;
  actions = map_table Action;
  approvals = record {
    Rows = Approvals;
    find = find_approval;
    create = λ a o sig t. (a, o, sig) ∷ t;
    count = count_approvals;
  };
  audit = record { Log = List AuditLogOptions; log = λ o l. o ∷ l };
  executor = record { Queue = List ComplianceJobPayload; jobs = λ q. q; execute = hand_over_to up };
  sha256 = λ s. s;
  secret = "dev-secret";
  network = testnet;
}

services-IsLawful : IsLawful (services true)
services-IsLawful = record { find-create = λ a o b p sig t. refl; handed_over = λ job q. inr refl }

abbrev staff : String → Option User
staff n =
    if str_eq n "ann"
    then some (record { role = admin; erased_at = none })
    else if str_eq n "bob"
    then some (record { role = admin; erased_at = none })
    else if str_eq n "eve"
    then some (record { role = user; erased_at = none })
    else none

abbrev start : (up : Bool) → State (services up)
start up = record { users = staff; actions = λ k. none; approvals = []; audit = []; queue = [] }

abbrev freeze_dto : ActionDto
freeze_dto = record {
  target_account = "GA1";
  asset_code = "USDC";
  asset_issuer = some "GB2";
  amount = none;
  reason = none;
}

abbrev requested : (up : Bool) → State (services up)
requested up = (request_action (services up) "id1" "ann" freeze freeze_dto (start up)).1

abbrev after_bob : State (services true)
after_bob = (approve (services true) "bob" "id1" (requested true)).1

calls : Unit {0}
unfolding request_action assert_admin load_action update_action assert_awaiting_approval
    sign_approval approve sign_and_execute execute dispatch conclude reject record_execution_result
    ◌>>=◌
calls = tt

abbrev frozen : Action
frozen = record {
  id = "id1";
  type = freeze;
  status = pending_approval;
  target_account = "GA1";
  asset_code = "USDC";
  asset_issuer = some "GB2";
  amount = none;
  reason = none;
  requested_by = "ann";
  tx_hash = none;
}

-- The second officer dispatches the job; the requester alone and a plain user do not.
approve_tests :
    (after_bob.queue ≡ job_of (services true) frozen ∷ [])
    × (after_bob.actions "id1" ≡ some (record frozen { status = executing }))
    × ((approve (services true) "ann" "id1" (requested true)).0 ≡ err conflict)
    × ((approve (services true) "eve" "id1" (requested true)).1.queue ≡ [])
unfolding calls
approve_tests = (refl, refl, refl, refl)

start-IsInitial : IsInitial (services true) (start true)
start-IsInitial = record { no_actions = λ id. refl; no_jobs = refl }

Reach-IsApproved_example : All (IsApproved (services true) after_bob) after_bob.queue
Reach-IsApproved_example =
    Reach-IsApproved (services true) services-IsLawful (start true) after_bob start-IsInitial (
      next (next here (request (start true) "id1" "ann" freeze freeze_dto refl))
        (approval (requested true) "bob" "id1"))

late_conclude_example :
    ((record_execution_result (services true) "id1" "h" success after_bob).1.actions "id1"
      ≡ some (record frozen { status = executed; tx_hash = some "h" }))
    × ((conclude
            (services true)
            frozen
            "id1"
            (record_execution_result (services true) "id1" "h" success after_bob).1).1.actions
          "id1"
        ≡ some (record frozen { status = executing; tx_hash = some "h" }))
late_conclude_example =
    late_conclude (services true) after_bob frozen (record frozen { status = executing }) "id1" "h"
      approve_tests.1 refl

may_approve : MayApprove (services false) (requested false) "bob" "id1" frozen
unfolding calls
may_approve = record {
  admin = refl;
  found = refl;
  own_id = refl;
  pending = refl;
  unsigned = refl;
  enough = omega arith;
}

requested_queue : (requested false).queue ≡ []
unfolding calls
requested_queue = refl

refused_job_sticks_example :
    ((approve (services false) "bob" "id1" (requested false)).0 ≡ err failure)
    × ((approve (services false) "bob" "id1" (requested false)).1.actions "id1"
        ≡ some (record frozen { status = approved }))
    × ((o : String) (reason : Option String)
        → is_active_admin ((approve (services false) "bob" "id1" (requested false)).1.users o)
          ≡ true
        → (approve
              (services false)
              o
              "id1"
              (approve (services false) "bob" "id1" (requested false)).1
            ≡ (err conflict, (approve (services false) "bob" "id1" (requested false)).1))
          × (reject
                (services false)
                o
                "id1"
                reason
                (approve (services false) "bob" "id1" (requested false)).1
              ≡ (err conflict, (approve (services false) "bob" "id1" (requested false)).1)))
refused_job_sticks_example =
    refused_job_sticks (services false) (requested false) "bob" "id1" frozen failure may_approve
      refl
