-- ===== src/Compliance/Soundness.antt =====
-- compliance-action.service.ts: what the signatures and the jobs of the store have to do with each
-- other, as an invariant, and the writes to the store.
use afro_pay_stellar.Prelude.{
  String, ◌≡◌, ◌≢◌, ◌⊎◌, inl, inr, refl, sym, ◌∙◌, true, ◌&&◌, some, ◌∷◌, All, All-map, str_eq,
  str_eq_iff, if◌then◌else◌, Bool-cases, find-write_here, find-write_there,
}
use afro_pay_stellar.Compliance.{
  Status, Action, Services, State, ComplianceJobPayload, is_active_admin,
}

-- What the service relies on: the approvals are keyed by action and officer, and a hand-over adds
-- the job to the queue or leaves the queue as it was.
pub record IsLawful (env : Services) : Type 0 where
  pub find-create :
      (a o b p sig : String) (t : env.approvals.Rows)
      → env.approvals.find a o (env.approvals.create b p sig t)
        ≡ (if str_eq b a && str_eq p o then some sig else env.approvals.find a o t)
  pub handed_over :
      (job : ComplianceJobPayload) (q : env.executor.Queue)
      → (env.executor.jobs (env.executor.execute job q).1 ≡ env.executor.jobs q)
        ⊎ (env.executor.jobs (env.executor.execute job q).1 ≡ job ∷ env.executor.jobs q)

module _ (env : Services) where
  -- The officer is an administrator, and the action bears the officer's signature.
  abbrev pub Signed : State env → String → String → Type 0
  Signed s id officer =
      (is_active_admin (env.users.find officer s.users) ≡ true)
      × ((sig : String) × (env.approvals.find id officer s.approvals ≡ some sig))

  abbrev pub Matches : Action → ComplianceJobPayload → Type 0
  Matches a job =
      (a.type ≡ job.action_type)
      × (a.target_account ≡ job.target_account)
      × (a.asset_code ≡ job.asset_code)
      × (a.asset_issuer ≡ job.asset_issuer)
      × (a.amount ≡ job.amount)

  pub record IsApproved (s : State env) (job : ComplianceJobPayload) : Type 0 where
    pub action : Action
    pub stored : env.actions.find job.action_id s.actions ≡ some action
    pub matches : Matches action job
    pub second : String
    pub distinct : second ≢ action.requested_by
    pub first_signed : Signed s job.action_id action.requested_by
    pub second_signed : Signed s job.action_id second

  pub record IsSound (s : State env) : Type 0 where
    pub own_id : (k : String) (a : Action) → env.actions.find k s.actions ≡ some a → a.id ≡ k
    pub requester_signed :
        (k : String) (a : Action)
        → env.actions.find k s.actions ≡ some a
        → Signed s k a.requested_by
    pub jobs_approved : All (IsApproved s) (env.executor.jobs s.queue)

module _ (env : Services) where
  -- An approval that is added takes no signature away.
  pub approvals-IsSound :
      (s : State env) (t : env.approvals.Rows)
      → ((k o : String) → Signed env s k o → Signed env (record s { approvals = t }) k o)
      → IsSound env s
      → IsSound env (record s { approvals = t })
  approvals-IsSound s t grow h = record {
    own_id = h.own_id;
    requester_signed = λ k a e. grow k a.requested_by (h.requester_signed k a e);
    jobs_approved =
        All-map
          (λ job j. record {
            action = j.action;
            stored = j.stored;
            matches = j.matches;
            second = j.second;
            distinct = j.distinct;
            first_signed = grow _ _ j.first_signed;
            second_signed = grow _ _ j.second_signed;
          })
          _ h.jobs_approved;
  }

  pub IsApproved-queue :
      (s : State env) (q : env.executor.Queue) (job : ComplianceJobPayload)
      → IsApproved env s job
      → IsApproved env (record s { queue = q }) job
  IsApproved-queue s q job j = record {
    action = j.action;
    stored = j.stored;
    matches = j.matches;
    second = j.second;
    distinct = j.distinct;
    first_signed = j.first_signed;
    second_signed = j.second_signed;
  }

  pub IsApproved-audit :
      (s : State env) (l : env.audit.Log) (job : ComplianceJobPayload)
      → IsApproved env s job
      → IsApproved env (record s { audit = l }) job
  IsApproved-audit s l job j = record {
    action = j.action;
    stored = j.stored;
    matches = j.matches;
    second = j.second;
    distinct = j.distinct;
    first_signed = j.first_signed;
    second_signed = j.second_signed;
  }

  pub audit-IsSound :
      (s : State env) (l : env.audit.Log) → IsSound env s → IsSound env (record s { audit = l })
  audit-IsSound s l h = record {
    own_id = h.own_id;
    requester_signed = h.requester_signed;
    jobs_approved = All-map (IsApproved-audit s l) _ h.jobs_approved;
  }

  -- The fields that no update changes.
  pub record SameRequest (a b : Action) : Type 0 where
    pub id : a.id ≡ b.id
    pub type : a.type ≡ b.type
    pub target_account : a.target_account ≡ b.target_account
    pub asset_code : a.asset_code ≡ b.asset_code
    pub asset_issuer : a.asset_issuer ≡ b.asset_issuer
    pub amount : a.amount ≡ b.amount
    pub requested_by : a.requested_by ≡ b.requested_by

  SameRequest-refl : (a : Action) → SameRequest a a
  SameRequest-refl a = record {
    id = refl;
    type = refl;
    target_account = refl;
    asset_code = refl;
    asset_issuer = refl;
    amount = refl;
    requested_by = refl;
  }

  pub SameRequest-status :
      (status : Status) (a : Action) → SameRequest (record a { status = status }) a
  SameRequest-status status a = record {
    id = refl;
    type = refl;
    target_account = refl;
    asset_code = refl;
    asset_issuer = refl;
    amount = refl;
    requested_by = refl;
  }

  module _ (s : State env) (id : String) (row new : Action)
      (found : env.actions.find id s.actions ≡ some row) (same : SameRequest new row) where
    abbrev pub updated : State env
    updated = record s { actions = env.actions.write id new s.actions }

    -- A row after the update has a row before it that made the same request.
    find-updated :
        (k : String) (a : Action)
        → env.actions.find k updated.actions ≡ some a
        → (b : Action) × (env.actions.find k s.actions ≡ some b) × SameRequest a b
    find-updated k a e = elim (Bool-cases (str_eq id k)) [
      | inl here ↦
          let found_k : env.actions.find k s.actions ≡ some row =
            rw (← (str_eq_iff id k).0 here) found in
          let a_new : new ≡ a = cc (find-write_here env.actions id k new s.actions here) in
          (row, found_k, rw (← a_new) same)
      | inr there ↦
          (a, sym (find-write_there env.actions id k new s.actions there) ∙ e, SameRequest-refl a)
    ]

    find-old :
        (k : String) (b : Action)
        → env.actions.find k s.actions ≡ some b
        → (a : Action) × (env.actions.find k updated.actions ≡ some a) × SameRequest a b
    find-old k b e = elim (Bool-cases (str_eq id k)) [
      | inl here ↦
          let found_k : env.actions.find k s.actions ≡ some row =
            rw (← (str_eq_iff id k).0 here) found in
          let b_row : row ≡ b = cc in
          (new, find-write_here env.actions id k new s.actions here, rw (← b_row) same)
      | inr there ↦
          (b, find-write_there env.actions id k new s.actions there ∙ e, SameRequest-refl b)
    ]

    pub IsApproved-updated :
        (job : ComplianceJobPayload) → IsApproved env s job → IsApproved env updated job
    IsApproved-updated job j =
        let (a, stored, r) = find-old job.action_id j.action j.stored in
        let (type, target, code, issuer, amount) = j.matches in
        record {
          action = a;
          stored = stored;
          matches = (
            r.type ∙ type,
            r.target_account ∙ target,
            r.asset_code ∙ code,
            r.asset_issuer ∙ issuer,
            r.amount ∙ amount,
          );
          second = j.second;
          distinct = rw r.requested_by j.distinct;
          first_signed = rw r.requested_by j.first_signed;
          second_signed = j.second_signed;
        }

    pub updated-IsSound : IsSound env s → IsSound env updated
    updated-IsSound h = record {
      own_id = λ k a e. let (b, old, r) = find-updated k a e in r.id ∙ h.own_id k b old;
      requester_signed = λ k a e.
          let (b, old, r) = find-updated k a e in rw r.requested_by (h.requester_signed k b old);
      jobs_approved = All-map IsApproved-updated _ h.jobs_approved;
    }
