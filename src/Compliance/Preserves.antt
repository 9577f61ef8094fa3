-- ===== src/Compliance/Preserves.antt =====
-- compliance-action.service.ts: the steps of the service and the invariant of `Soundness`.
use afro_pay_stellar.Prelude.{
  String, ◌≡◌, ◌⊎◌, inl, inr, refl, ◌∙◌, true, ◌&&◌, some, ◌∷◌, All-map, arith, str_eq, str_eq_refl,
  Bool-cases, Triple, Triple-pure, Triple-gets, Triple-or_throw, Triple-modify, Triple-throw_if,
  Triple-bind, Ends-both,
}
use afro_pay_stellar.Compliance.{
  Action, Services, State, ComplianceJobPayload, is_active_admin, assert_admin, load_action,
  update_action, dispatch, conclude, execute, job_of, hand_over, log,
}
use afro_pay_stellar.Audit.{AuditLogOptions}
use afro_pay_stellar.Compliance.Soundness.{
  IsLawful, Signed, IsApproved, IsSound, SameRequest, audit-IsSound, IsApproved-updated,
  updated-IsSound, IsApproved-queue, IsApproved-audit, SameRequest-status,
}

module _ (env : Services) (lawful : IsLawful env) where
  abbrev pub Ready : ComplianceJobPayload → State env → Type 0
  Ready job s = IsSound env s × IsApproved env s job

  abbrev pub KeepsRequest : (Action → Action) → Type 0
  KeepsRequest f = (a : Action) → SameRequest env (f a) a

  pub log-IsSound :
      (opts : AuditLogOptions)
      → Triple (IsSound env) (log env opts) (λ _. IsSound env) (IsSound env)
  log-IsSound opts = Triple-modify _ (λ s h. audit-IsSound env s _ h)

  pub update_action-IsSound :
      (id : String) (f : Action → Action)
      → KeepsRequest f
      → Triple (IsSound env) (update_action env id f) (λ _. IsSound env) (IsSound env)
  unfolding update_action
  update_action-IsSound id f keeps =
      Triple-bind (λ found s. IsSound env s × (env.actions.find id s.actions ≡ found))
        (Triple-gets _ (λ s h. (h, refl)))
        λ found.
          Triple-bind (λ row s. IsSound env s × (env.actions.find id s.actions ≡ some row))
            (Triple-or_throw found _ (λ s h. h.0) (λ row e s h. (h.0, h.1 ∙ e)))
            λ row.
              Triple-bind (λ _. IsSound env)
                (Triple-modify _ (λ s h. updated-IsSound env s id row (f row) h.1 (keeps row) h.0))
                λ _. Triple-pure _ (λ s h. h)

  update_action-Ready :
      (id : String) (f : Action → Action) (job : ComplianceJobPayload)
      → KeepsRequest f
      → Triple (Ready job) (update_action env id f) (λ _. Ready job) (IsSound env)
  unfolding update_action
  update_action-Ready id f job keeps =
      Triple-bind (λ found s. Ready job s × (env.actions.find id s.actions ≡ found))
        (Triple-gets _ (λ s h. (h, refl)))
        λ found.
          Triple-bind (λ row s. Ready job s × (env.actions.find id s.actions ≡ some row))
            (Triple-or_throw found _ (λ s h. h.0.0) (λ row e s h. (h.0, h.1 ∙ e)))
            λ row.
              Triple-bind (λ _. Ready job)
                (Triple-modify _ (λ s h. (
                  updated-IsSound env s id row (f row) h.1 (keeps row) h.0.0,
                  IsApproved-updated env s id row (f row) h.1 (keeps row) job h.0.1,
                )))
                λ _. Triple-pure _ (λ s h. h)

  queue-IsSound :
      (s : State env) (q : env.executor.Queue) (job : ComplianceJobPayload)
      → (env.executor.jobs q ≡ env.executor.jobs s.queue)
        ⊎ (env.executor.jobs q ≡ job ∷ env.executor.jobs s.queue)
      → Ready job s
      → IsSound env (record s { queue = q })
  queue-IsSound s q job step (h, a) = record {
    own_id = h.own_id;
    requester_signed = h.requester_signed;
    jobs_approved =
        let old = All-map (IsApproved-queue env s q) _ h.jobs_approved in
        elim step [
          | inl same ↦ rw same old
          | inr more ↦ rw more (IsApproved-queue env s q job a, old)
        ];
  }

  hand_over-IsSound :
      (job : ComplianceJobPayload)
      → Triple (Ready job) (hand_over env job) (λ _. IsSound env) (IsSound env)
  hand_over-IsSound job = record {
    run = λ s h.
        Ends-both (IsSound env) (hand_over env job s).0 _
          (queue-IsSound s _ job (lawful.handed_over job s.queue) h);
  }

  dispatch-IsSound :
      (a : Action) → Triple (Ready (job_of env a)) (dispatch env a) (λ _. IsSound env) (IsSound env)
  unfolding dispatch
  dispatch-IsSound a =
      Triple-bind (λ _. Ready (job_of env a)) (update_action-Ready _ _ _ (SameRequest-status env _))
        λ _. hand_over-IsSound _

  conclude-IsSound :
      (a : Action) (job_ref : String)
      → Triple (IsSound env) (conclude env a job_ref) (λ _. IsSound env) (IsSound env)
  unfolding conclude
  conclude-IsSound a job_ref =
      Triple-bind (λ _. IsSound env) (update_action-IsSound _ _ (SameRequest-status env _))
        λ _. log-IsSound _

  pub execute-IsSound :
      (a : Action) → Triple (Ready (job_of env a)) (execute env a) (λ _. IsSound env) (IsSound env)
  unfolding execute
  execute-IsSound a =
      Triple-bind (λ _. IsSound env) (dispatch-IsSound a) λ job_ref. conclude-IsSound a job_ref

  pub log-Ready :
      (job : ComplianceJobPayload) (opts : AuditLogOptions)
      → Triple (Ready job) (log env opts) (λ _. Ready job) (IsSound env)
  log-Ready job opts =
      Triple-modify _ (λ s h. (audit-IsSound env s _ h.0, IsApproved-audit env s _ job h.1))

  pub Signed_self :
      (s : State env) (id officer sig : String)
      → env.approvals.find id officer (env.approvals.create id officer sig s.approvals) ≡ some sig
  Signed_self s id officer sig =
      lawful.find-create id officer id officer sig s.approvals
      ∙ rw (str_eq_refl id, str_eq_refl officer)

  pub Signed-create :
      (s : State env) (id officer sig : String) (k o : String)
      → Signed env s k o
      → Signed env (record s { approvals = env.approvals.create id officer sig s.approvals }) k o
  Signed-create s id officer sig k o (admin, (old, e)) =
      elim (Bool-cases (str_eq id k && str_eq officer o)) [
        | inl same ↦
            (admin, (sig, lawful.find-create k o id officer sig s.approvals ∙ rw same refl))
        | inr other ↦ (admin, (old, lawful.find-create k o id officer sig s.approvals ∙ rw other e))
      ]

-- The two actions that only read, under any assertion.
module _ (env : Services) {P : State env → Type 0} where
  pub load_action-triple :
      (id : String)
      → Triple P (load_action env id) (λ a s. P s × (env.actions.find id s.actions ≡ some a)) P
  unfolding load_action
  load_action-triple id =
      Triple-bind (λ found s. P s × (env.actions.find id s.actions ≡ found))
        (Triple-gets _ (λ s h. (h, refl)))
        λ found. Triple-or_throw found _ (λ s h. h.0) (λ row e s h. (h.0, h.1 ∙ e))

  pub assert_admin-triple :
      (user : String)
      → Triple P
          (assert_admin env user)
          (λ _ s. P s × (is_active_admin (env.users.find user s.users) ≡ true))
          P
  unfolding assert_admin
  assert_admin-triple user =
      Triple-bind (λ found s. P s × (env.users.find user s.users ≡ found))
        (Triple-gets _ (λ s h. (h, refl)))
        λ found. Triple-throw_if _ _ (λ s h. h.0) (λ e s h. (h.0, rw h.1 (ground arith)))
