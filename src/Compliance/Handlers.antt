-- ===== src/Compliance/Handlers.antt =====
-- compliance-action.service.ts: the handlers and the invariant of `Soundness`.
use afro_pay_stellar.Prelude.{
  String, ◌≡◌, ◌≢◌, refl, sym, ap, subst, ◌∙◌, true, Option, none, some, arith, Triple, Triple-pure,
  Triple-gets, Triple-if, Triple-modify, Triple-throw_if, Triple-bind, Triple-weaken, Triple-post,
  Triple-errors,
}
use afro_pay_stellar.Compliance.{
  Action, Services, State, Outcome, reported, is_active_admin, assert_admin, load_action,
  assert_awaiting_approval, sign_and_execute, approve, reject, record_execution_result,
  sign_approval, job_of,
}
use afro_pay_stellar.Compliance.Soundness.{
  IsLawful, Signed, IsSound, SameRequest, SameRequest-status, approvals-IsSound, SameRequest-status,
}
use afro_pay_stellar.Compliance.Preserves.{
  Ready, log-IsSound, update_action-IsSound, execute-IsSound, load_action-triple,
  assert_admin-triple, log-Ready, Signed_self, Signed-create,
}

module _ (env : Services) (lawful : IsLawful env) where
  sign_and_execute-IsSound :
      (officer id : String) (a : Action)
      → Triple
          (λ s.
            IsSound env s
            × (env.actions.find id s.actions ≡ some a)
            × (is_active_admin (env.users.find officer s.users) ≡ true)
            × (officer ≢ a.requested_by))
          (sign_and_execute env officer id a)
          (λ _. IsSound env)
          (IsSound env)
  unfolding sign_and_execute
  sign_and_execute-IsSound officer id a =
      Triple-bind (λ _. Ready env lawful (job_of env a))
        (Triple-modify _ (λ s (h, found, admin, other).
          let s' : State env = record s {
            approvals = env.approvals.create id officer (sign_approval env officer a) s.approvals;
          } in
          let sound : IsSound env s' =
            approvals-IsSound env s _ (Signed-create env lawful s id officer _) h in
          let same : a.id ≡ id = h.own_id id a found in
          (
            sound,
            record {
              action = a;
              stored = subst (λ k. env.actions.find k s.actions ≡ some a) (sym same) found;
              matches = (refl, refl, refl, refl, refl);
              second = officer;
              distinct = other;
              first_signed =
                  subst (λ k. Signed env s' k a.requested_by) (sym same)
                    (sound.requester_signed id a found);
              second_signed =
                  subst (λ k. Signed env s' k officer) (sym same)
                    (admin, (_, Signed_self env lawful s id officer _));
            },
          )))
        λ _.
          Triple-bind (λ _. Ready env lawful (job_of env a)) (log-Ready env lawful _ _)
            λ _.
              Triple-bind (λ _. Ready env lawful (job_of env a)) (Triple-gets _ (λ s h. h))
                λ count.
                  Triple-bind (λ _. IsSound env)
                    (Triple-if _ _ _ (λ _. execute-IsSound env lawful a)
                      (λ _. Triple-pure _ (λ s h. h.0)))
                    λ _. Triple-post (λ _ s h. h.0) (load_action-triple env a.id)

  abbrev Loaded : String → String → Action → State env → Type 0
  Loaded officer id a s =
      (IsSound env s × (is_active_admin (env.users.find officer s.users) ≡ true))
      × (env.actions.find id s.actions ≡ some a)

  pub assert_admin-IsSound :
      (user : String)
      → Triple
          (IsSound env)
          (assert_admin env user)
          (λ _ s. IsSound env s × (is_active_admin (env.users.find user s.users) ≡ true))
          (IsSound env)
  assert_admin-IsSound user = assert_admin-triple env user

  load_action-Loaded :
      (officer id : String)
      → Triple
          (λ s. IsSound env s × (is_active_admin (env.users.find officer s.users) ≡ true))
          (load_action env id)
          (Loaded officer id)
          (IsSound env)
  load_action-Loaded officer id = Triple-errors (λ s h. h.0) (load_action-triple env id)

  -- An officer with no approval yet is not the one who requested the action.
  ne-requester :
      (officer id : String) (a : Action) (s : State env)
      → Loaded officer id a s
      → env.approvals.find id officer s.approvals ≡ none
      → officer ≢ a.requested_by
  ne-requester officer id a s h fresh same =
      let (sig, signed) = (h.0.0.requester_signed id a h.1).1 in
      cc (fresh, signed, ap (λ o. env.approvals.find id o s.approvals) same)

  pub approve-IsSound :
      (officer id : String)
      → Triple (IsSound env) (approve env officer id) (λ _. IsSound env) (IsSound env)
  unfolding approve assert_awaiting_approval
  approve-IsSound officer id = Triple-bind _ (assert_admin-IsSound officer) λ _.
      Triple-bind _ (load_action-Loaded officer id) λ a.
        Triple-bind (λ _. Loaded officer id a) (Triple-throw_if _ _ (λ s h. h.0.0) (λ _ s h. h))
          λ _.
            Triple-bind
              (λ already s.
                Loaded officer id a s × (env.approvals.find id officer s.approvals ≡ already))
              (Triple-gets _ (λ s h. (h, refl)))
              λ already.
                Triple-bind
                  (λ _ s.
                    Loaded officer id a s × (env.approvals.find id officer s.approvals ≡ none))
                  (Triple-throw_if _ _ (λ s h. h.0.0.0) (λ e s h. (h.0, h.1 ∙ ground arith)))
                  λ _.
                    Triple-weaken
                      (λ s h. (h.0.0.0, h.0.1, h.0.0.1, ne-requester officer id a s h.0 h.1))
                      (sign_and_execute-IsSound officer id a)

  pub reject-IsSound :
      (officer id : String) (reason : Option String)
      → Triple (IsSound env) (reject env officer id reason) (λ _. IsSound env) (IsSound env)
  unfolding reject assert_awaiting_approval
  reject-IsSound officer id reason = Triple-bind _ (assert_admin-IsSound officer) λ _.
      Triple-bind _ (load_action-Loaded officer id) λ a.
        Triple-bind (λ _. IsSound env) (Triple-throw_if _ _ (λ s h. h.0.0) (λ _ s h. h.0.0))
          λ _.
            Triple-bind (λ _. IsSound env)
              (update_action-IsSound env lawful _ _ (SameRequest-status env _))
              λ u.
                Triple-bind (λ _. IsSound env) (log-IsSound env lawful _)
                  λ _. Triple-pure u (λ s h. h)

  reported-SameRequest :
      (tx_hash : String) (outcome : Outcome) (a : Action)
      → SameRequest env (reported tx_hash outcome a) a
  reported-SameRequest tx_hash Outcome.success a = record {
    id = refl;
    type = refl;
    target_account = refl;
    asset_code = refl;
    asset_issuer = refl;
    amount = refl;
    requested_by = refl;
  }
  reported-SameRequest tx_hash Outcome.failure_outcome a = SameRequest-status env _ a

  pub record_execution_result-IsSound :
      (id tx_hash : String) (outcome : Outcome)
      → Triple
          (IsSound env)
          (record_execution_result env id tx_hash outcome)
          (λ _. IsSound env)
          (IsSound env)
  unfolding record_execution_result
  record_execution_result-IsSound id tx_hash outcome =
      Triple-bind _ (load_action-triple env id) λ a.
        Triple-bind (λ _. IsSound env) (Triple-throw_if _ _ (λ s h. h.0) (λ _ s h. h.0))
          λ _.
            Triple-bind (λ _. IsSound env)
              (update_action-IsSound env lawful _ _ (reported-SameRequest tx_hash outcome))
              λ u.
                Triple-bind (λ _. IsSound env) (log-IsSound env lawful _)
                  λ _. Triple-pure u (λ s h. h)
