-- ===== src/Compliance/FourEyes.antt =====
-- compliance-action.service.ts: the service as a step relation.
use afro_pay_stellar.Prelude.{
  String, ◌≡◌, refl, sym, ◌∙◌, true, Bool-cases, inl, inr, ap, Option, none, [], All, All-map,
  str_eq, str_eq_iff, find-write_here, find-write_there, Triple, Triple-modify, Triple-bind,
  Triple-post, Triple-errors, Triple-state,
}
use afro_pay_stellar.Compliance.{
  pending_approval, ComplianceType, Action, ActionDto, Services, State, ComplianceJobPayload,
  Outcome, is_active_admin, request_action, approve, reject, record_execution_result,
}
use afro_pay_stellar.Compliance.Soundness.{IsLawful, Signed, IsApproved, IsSound}
use afro_pay_stellar.Compliance.Preserves.{
  log-IsSound, load_action-triple, assert_admin-triple, Signed_self, Signed-create,
}
use afro_pay_stellar.Compliance.Handlers.{
  approve-IsSound, reject-IsSound, record_execution_result-IsSound,
}

module _ (env : Services) (lawful : IsLawful env) where
  -- The store with a new row and the signature of its requester.
  module _ (s : State env) (id officer sig : String) (a : Action) (own : a.id ≡ id)
      (by : a.requested_by ≡ officer) (fresh : env.actions.find id s.actions ≡ none)
      (admin : is_active_admin (env.users.find officer s.users) ≡ true) where
    abbrev created : State env
    created = record s {
      actions = env.actions.write id a s.actions;
      approvals = env.approvals.create id officer sig s.approvals;
    }

    grow : (k o : String) → Signed env s k o → Signed env created k o
    grow k o h = Signed-create env lawful s id officer sig k o h

    Signed-new : Signed env created id officer
    Signed-new = (admin, (sig, Signed_self env lawful s id officer sig))

    IsApproved-created :
        (job : ComplianceJobPayload) → IsApproved env s job → IsApproved env created job
    IsApproved-created job j = record {
      action = j.action;
      stored = elim (Bool-cases (str_eq id job.action_id)) [
        | inl same ↦ absurd (ne_fresh ((str_eq_iff _ _).0 same))
        | inr other ↦ find-write_there env.actions _ _ _ _ other ∙ j.stored
      ];
      matches = j.matches;
      second = j.second;
      distinct = j.distinct;
      first_signed = grow _ _ j.first_signed;
      second_signed = grow _ _ j.second_signed;
    }
      where
        ne_fresh : id ≡ job.action_id → ⊥
        ne_fresh p = cc (fresh, j.stored, ap (λ k. env.actions.find k s.actions) p)

    created-IsSound : IsSound env s → IsSound env created
    created-IsSound h = record {
      own_id = λ k b e. elim (Bool-cases (str_eq id k)) [
        | inl same ↦
            let new : a ≡ b = cc (find-write_here env.actions id k a s.actions same) in
            ap (λ (x : Action). x.id) (sym new) ∙ own ∙ (str_eq_iff _ _).0 same
        | inr other ↦ h.own_id k b (sym (find-write_there env.actions id k a s.actions other) ∙ e)
      ];
      requester_signed = λ k b e. elim (Bool-cases (str_eq id k)) [
        | inl same ↦
            let new : a ≡ b = cc (find-write_here env.actions id k a s.actions same) in
            rw (← (str_eq_iff id k).0 same, ← new, by) Signed-new
        | inr other ↦
            grow k b.requested_by (
              h.requester_signed k b
                (sym (find-write_there env.actions id k a s.actions other) ∙ e))
      ];
      jobs_approved = All-map IsApproved-created _ h.jobs_approved;
    }

  -- Between the two writes of a request: the row stands, its requester has yet to sign.
  record Half (id officer : String) (a : Action) (s : State env) : Type 0 where
    before : State env
    sound : IsSound env before
    fresh : env.actions.find id before.actions ≡ none
    admin : is_active_admin (env.users.find officer before.users) ≡ true
    reached : s ≡ record before { actions = env.actions.write id a before.actions }

  request_action-IsSound :
      (id officer : String) (type : ComplianceType) (dto : ActionDto)
      → Triple
          (λ s. IsSound env s × (env.actions.find id s.actions ≡ none))
          (request_action env id officer type dto)
          (λ _. IsSound env)
          (IsSound env)
  unfolding request_action
  request_action-IsSound id officer type dto =
      let a : Action = record {
        id = id;
        type = type;
        status = pending_approval;
        target_account = dto.target_account;
        asset_code = dto.asset_code;
        asset_issuer = dto.asset_issuer;
        amount = dto.amount;
        reason = dto.reason;
        requested_by = officer;
        tx_hash = none;
      } in
      Triple-bind
        (λ _ s.
          (IsSound env s × (env.actions.find id s.actions ≡ none))
          × (is_active_admin (env.users.find officer s.users) ≡ true))
        (Triple-errors (λ s h. h.0) (assert_admin-triple env officer))
        λ _.
          Triple-bind (λ _. Half id officer a)
            (Triple-modify _ (λ s h. record {
              before = s;
              sound = h.0.0;
              fresh = h.0.1;
              admin = h.1;
              reached = refl;
            }))
            λ _.
              Triple-bind (λ _. IsSound env)
                (Triple-modify _ (λ s h.
                  rw h.reached
                    (created-IsSound h.before id officer _ a refl refl h.fresh h.admin h.sound)))
                λ _.
                  Triple-bind (λ _. IsSound env) (log-IsSound env lawful _)
                    λ _. Triple-post (λ _ s h. h.0) (load_action-triple env id)

module _ (env : Services) where
  -- One call of the service, also one that throws. A new row gets a new identifier.
  pub data Step : State env → State env → Type 0 where
    request :
        (s : State env) (id officer : String) (type : ComplianceType) (dto : ActionDto)
        → env.actions.find id s.actions ≡ none
        → Step s (request_action env id officer type dto s).1
    approval : (s : State env) (officer id : String) → Step s (approve env officer id s).1
    rejection :
        (s : State env) (officer id : String) (reason : Option String)
        → Step s (reject env officer id reason s).1
    report :
        (s : State env) (id tx_hash : String) (outcome : Outcome)
        → Step s (record_execution_result env id tx_hash outcome s).1

  pub data Reach (s : State env) : State env → Type 0 where
    here : Reach s s
    next : {t u : State env} → Reach s t → Step t u → Reach s u

  pub record IsInitial (s : State env) : Type 0 where
    pub no_actions : (id : String) → env.actions.find id s.actions ≡ none
    pub no_jobs : env.executor.jobs s.queue ≡ []

  IsInitial-IsSound : {s : State env} → IsInitial s → IsSound env s
  IsInitial-IsSound h = record {
    own_id = λ k a e. cc (h.no_actions k);
    requester_signed = λ k a e. cc (h.no_actions k);
    jobs_approved = rw h.no_jobs tt;
  }

module _ (env : Services) (lawful : IsLawful env) where
  Step-IsSound : {s t : State env} → Step env s t → IsSound env s → IsSound env t
  Step-IsSound (request s id officer type dto fresh) h =
      Triple-state (request_action-IsSound env lawful id officer type dto) s (h, fresh)
  Step-IsSound (approval s officer id) h = Triple-state (approve-IsSound env lawful officer id) s h
  Step-IsSound (rejection s officer id reason) h =
      Triple-state (reject-IsSound env lawful officer id reason) s h
  Step-IsSound (report s id tx_hash outcome) h =
      Triple-state (record_execution_result-IsSound env lawful id tx_hash outcome) s h

  Reach-IsSound : {s t : State env} → IsSound env s → Reach env s t → IsSound env t
  Reach-IsSound h here = h
  Reach-IsSound h (next r st) = Step-IsSound st (Reach-IsSound h r)

  -- From a store without actions and jobs, after any calls of the service: every job in the queue
  -- carries the type, account, asset and amount of a stored action that two different officers
  -- signed, its requester and another one, both of them active administrators.
  pub Reach-IsApproved :
      (s t : State env)
      → IsInitial env s
      → Reach env s t
      → All (IsApproved env t) (env.executor.jobs t.queue)
  Reach-IsApproved s t h r = (Reach-IsSound (IsInitial-IsSound env h) r).jobs_approved
