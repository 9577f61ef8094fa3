-- ===== src/Compliance.antt =====
-- apps/api/src/transaction/compliance-action.service.ts and compliance-executor.ts: freezing and
-- clawback under the approval of two officers. The tables, the audit log, the job queue and
-- SHA-256 are parameters.
pub mod Soundness
pub mod Preserves
pub mod Handlers
pub mod FourEyes
pub mod Execution
pub mod Stuck
pub mod Listing
mod Tests
use Prim.Native.String
use afro_pay_stellar.Prelude.{
  ℕ, zero, suc, String, ◌≡◌, Bool, true, false, not, ◌||◌, Option, none, some, List, [], ◌∷◌, leb,
  str_eq, if◌then◌else◌, Error, bad_request, forbidden, not_found, conflict, failure, Result, ok,
  err, Exec, ◌>>=◌, ◌>>◌, pure, throw, gets, or_throw, throw_if, modify, Table,
}
use afro_pay_stellar.Audit.{Metadata, AuditLogOptions, AuditSink}

abbrev pub required_compliance_approvals : ℕ
required_compliance_approvals = 2

pub data Role : Type 0 where
  user admin : Role

-- The fields of `User` that `assertAdmin` selects.
pub record User : Type 0 where
  pub role : Role
  pub erased_at : Option ℕ

pub data ComplianceType : Type 0 where
  freeze clawback : ComplianceType

pub data Status : Type 0 where
  pending_approval approved executing executed failed rejected : Status

pub record Action : Type 0 where
  pub id : String
  pub type : ComplianceType
  pub status : Status
  pub target_account : String
  pub asset_code : String
  pub asset_issuer : Option String
  pub amount : Option String
  pub reason : Option String
  pub requested_by : String
  pub tx_hash : Option String

-- The body of a request; a freeze has no amount.
pub record ActionDto : Type 0 where
  pub target_account : String
  pub asset_code : String
  pub asset_issuer : Option String
  pub amount : Option String
  pub reason : Option String

-- The table of approvals: `find` is `findUnique` by action and officer, `create` stores the
-- signature, `count` counts the approvals of an action.
pub record ApprovalTable : Type 1 where
  pub Rows : Type 0
  pub find : String → String → Rows → Option String
  pub create : String → String → String → Rows → Rows
  pub count : String → Rows → ℕ

pub data Network : Type 0 where
  testnet mainnet : Network

pub record ComplianceJobPayload : Type 0 where
  pub action_id : String
  pub action_type : ComplianceType
  pub target_account : String
  pub asset_code : String
  pub asset_issuer : Option String
  pub amount : Option String
  pub network : Network

-- `ComplianceExecutor`: the job reference, or an error of the queue. `jobs` are those handed over.
pub record Executor : Type 1 where
  pub Queue : Type 0
  pub jobs : Queue → List ComplianceJobPayload
  pub execute : ComplianceJobPayload → Exec Queue String

pub record Services : Type 1 where
  pub users : Table User
  pub actions : Table Action
  pub approvals : ApprovalTable
  pub audit : AuditSink
  pub executor : Executor
  pub sha256 : String → String
  pub secret : String
  pub network : Network

pub record State (env : Services) : Type 0 where
  pub users : env.users.Rows
  pub actions : env.actions.Rows
  pub approvals : env.approvals.Rows
  pub audit : env.audit.Log
  pub queue : env.executor.Queue

abbrev pub is_pending : Status → Bool
is_pending pending_approval = true
is_pending _ = false

abbrev pub awaits_result : Status → Bool
awaits_result executing = true
awaits_result approved = true
awaits_result _ = false

abbrev is_admin : Role → Bool
is_admin admin = true
is_admin user = false

-- `!admin || admin.role !== 'ADMIN' || admin.erasedAt`
abbrev pub is_active_admin : Option User → Bool
is_active_admin none = false
is_active_admin (some u) = elim u.erased_at [ none ↦ is_admin u.role | some _ ↦ false ]

abbrev event : Option String → String → String → Option String → Metadata → AuditLogOptions
event user_id operation outcome tx_hash metadata = record {
  user_id = user_id;
  category = some "COMPLIANCE";
  operation = some operation;
  outcome = some outcome;
  wallet_public_key = none;
  amount = none;
  asset_code = none;
  destination = none;
  tx_hash = tx_hash;
  metadata = some metadata;
}

abbrev type_name : ComplianceType → String
type_name freeze = "FREEZE"
type_name clawback = "CLAWBACK"

pub data Outcome : Type 0 where
  success failure_outcome : Outcome

-- The fields that a reported result writes.
abbrev pub reported : String → Outcome → Action → Action
reported tx_hash success a = record a { status = executed; tx_hash = some tx_hash }
reported tx_hash failure_outcome a = record a { status = failed }

abbrev result_event : String → String → Outcome → AuditLogOptions
result_event id tx_hash success =
    event none "COMPLIANCE_ACTION_EXECUTED" "SUCCESS" (some tx_hash) (("actionId", some id) ∷ [])
result_event id tx_hash failure_outcome =
    event none "COMPLIANCE_ACTION_FAILED" "FAILURE" none (("actionId", some id) ∷ [])

abbrev is_some : Option String → Bool
is_some none = false
is_some (some _) = true

abbrev pub approval_event : String → String → Action → AuditLogOptions
approval_event officer id a = event (some officer) "COMPLIANCE_ACTION_APPROVED" "SUCCESS" none (
    ("actionId", some id)
    ∷ ("officerId", some officer)
    ∷ ("targetAccount", some a.target_account)
    ∷ [])

abbrev or_empty : Option String → String
or_empty none = ""
or_empty (some s) = s

abbrev join_colon : List String → String
join_colon [] = ""
join_colon (s ∷ []) = s
join_colon (s ∷ t ∷ r) = String.◌++◌ s (String.◌++◌ ":" (join_colon (t ∷ r)))

module _ (env : Services) where
  abbrev pub log : AuditLogOptions → Exec (State env) (Unit {0})
  log opts = modify λ s. record s { audit = env.audit.log opts s.audit }

  abbrev pub create_action : Action → Exec (State env) (Unit {0})
  create_action a = modify λ s. record s { actions = env.actions.write a.id a s.actions }

  -- `complianceAction.update`: a row that is gone is an error of the database.
  pub update_action : String → (Action → Action) → Exec (State env) Action
  update_action id f = do
    found ← gets (λ s. env.actions.find id s.actions)
    row ← or_throw found failure
    modify λ s. record s { actions = env.actions.write id (f row) s.actions }
    pure (f row)

  pub assert_admin : String → Exec (State env) (Unit {0})
  assert_admin user_id = do
    found ← gets (λ s. env.users.find user_id s.users)
    throw_if (not (is_active_admin found)) forbidden

  pub load_action : String → Exec (State env) Action
  load_action id = do found ← gets (λ s. env.actions.find id s.actions); or_throw found not_found

  pub assert_awaiting_approval : Action → Exec (State env) (Unit {0})
  assert_awaiting_approval a = throw_if (not (is_pending a.status)) conflict

  pub sign_approval : String → Action → String
  sign_approval officer a = env.sha256 (
      join_colon
        (officer ∷ a.id ∷ a.target_account ∷ a.asset_code ∷ or_empty a.amount ∷ env.secret ∷ []))

  abbrev pub create_approval : String → String → Action → Exec (State env) (Unit {0})
  create_approval id officer a = modify λ s. record s {
    approvals = env.approvals.create id officer (sign_approval officer a) s.approvals;
  }

  abbrev requested : ComplianceType → String
  requested freeze = "COMPLIANCE_FREEZE_REQUESTED"
  requested clawback = "COMPLIANCE_CLAWBACK_REQUESTED"

  -- `id` is the identifier that the database draws for the new row.
  pub request_action : String → String → ComplianceType → ActionDto → Exec (State env) Action
  request_action id officer type dto = do
    assert_admin officer
    let action : Action = record {
      id = id;
      type = type;
      status = pending_approval;
      target_account = dto.target_account;
      asset_code = dto.asset_code;
      asset_issuer = dto.asset_issuer;
      amount = dto.amount;
      reason = dto.reason;
      requested_by = officer;
      tx_hash = none;
    }
    create_action action
    create_approval id officer action
    log (
        event (some officer) (requested type) "SUCCESS" none (
          ("actionId", some id)
          ∷ ("targetAccount", some action.target_account)
          ∷ ("assetCode", some action.asset_code)
          ∷ ("assetIssuer", action.asset_issuer)
          ∷ ("amount", action.amount)
          ∷ ("reason", action.reason)
          ∷ []))
    load_action id

  abbrev pub job_of : Action → ComplianceJobPayload
  job_of a = record {
    action_id = a.id;
    action_type = a.type;
    target_account = a.target_account;
    asset_code = a.asset_code;
    asset_issuer = a.asset_issuer;
    amount = a.amount;
    network = env.network;
  }

  abbrev pub hand_over : ComplianceJobPayload → Exec (State env) String
  hand_over job s = let (r, q) = env.executor.execute job s.queue in (r, record s { queue = q })

  -- `execute` up to the hand-over of the job.
  pub dispatch : Action → Exec (State env) String
  unfolding update_action
  dispatch a = do update_action a.id (λ row. record row { status = approved }); hand_over (job_of a)

  -- The rest of `execute`.
  pub conclude : Action → String → Exec (State env) (Unit {0})
  unfolding update_action
  conclude a job_ref = do
    update_action a.id (λ row. record row { status = executing })
    log (
        event none "COMPLIANCE_ACTION_DISPATCHED" "SUCCESS" none (
          ("actionId", some a.id)
          ∷ ("jobRef", some job_ref)
          ∷ ("actionType", some (type_name a.type))
          ∷ []))

  pub execute : Action → Exec (State env) (Unit {0})
  execute a = do job_ref ← dispatch a; conclude a job_ref

  -- `approve` once its checks have passed.
  pub sign_and_execute : String → String → Action → Exec (State env) Action
  sign_and_execute officer id a = do
    create_approval id officer a
    log (approval_event officer id a)
    count ← gets (λ s. env.approvals.count id s.approvals)
    if leb required_compliance_approvals count then execute a else pure tt
    load_action a.id

  pub approve : String → String → Exec (State env) Action
  approve officer id = do
    assert_admin officer
    a ← load_action id
    assert_awaiting_approval a
    already ← gets (λ s. env.approvals.find id officer s.approvals)
    throw_if (is_some already) conflict
    sign_and_execute officer id a

  pub reject : String → String → Option String → Exec (State env) Action
  unfolding update_action
  reject officer id reason = do
    assert_admin officer
    a ← load_action id
    assert_awaiting_approval a
    updated ← update_action id (λ row. record row { status = rejected })
    log (
        event (some officer) "COMPLIANCE_ACTION_REJECTED" "SUCCESS" none
          (("actionId", some id) ∷ ("rejectedBy", some officer) ∷ ("reason", reason) ∷ []))
    pure updated

  pub record_execution_result : String → String → Outcome → Exec (State env) Action
  unfolding update_action
  record_execution_result id tx_hash outcome = do
    a ← load_action id
    throw_if (not (awaits_result a.status)) conflict
    updated ← update_action id (reported tx_hash outcome)
    log (result_event id tx_hash outcome)
    pure updated
