-- ===== src/Compliance/Stuck.antt =====
-- compliance-action.service.ts: an action whose job the executor fails to hand over.
use afro_pay_stellar.Prelude.{
  ◌≤◌, String, ◌≡◌, refl, sym, subst, true, Option, none, some, arith, str_eq_refl, ◌>>=◌, leb,
  find-write_here, Error, conflict, err,
}
use afro_pay_stellar.Compliance.{
  pending_approval, approved, Action, Services, State, job_of, approval_event, is_active_admin,
  sign_approval, required_compliance_approvals, load_action, update_action, assert_admin,
  assert_awaiting_approval, sign_and_execute, execute, dispatch, approve, reject,
}

module _ (env : Services) where
  -- `approve` of an action that awaits approval, by an administrator who has not signed it yet.
  pub record MayApprove (s : State env) (officer id : String) (a : Action) : Type 0 where
    pub admin : is_active_admin (env.users.find officer s.users) ≡ true
    pub found : env.actions.find id s.actions ≡ some a
    pub own_id : a.id ≡ id
    pub pending : a.status ≡ pending_approval
    pub unsigned : env.approvals.find id officer s.approvals ≡ none
    pub enough :
        required_compliance_approvals
        ≤ env.approvals.count id
            (env.approvals.create id officer (sign_approval env officer a) s.approvals)

  approve-sign :
      (s : State env) (officer id : String) (a : Action)
      → MayApprove s officer id a
      → approve env officer id s ≡ sign_and_execute env officer id a s
  unfolding approve assert_admin load_action assert_awaiting_approval ◌>>=◌
  approve-sign s officer id a m = rw (m.admin, m.found) (rw m.pending (rw m.unsigned))

  failing_dispatch :
      (s : State env) (a : Action) (e : Error)
      → env.actions.find a.id s.actions ≡ some a
      → (env.executor.execute (job_of env a) s.queue).0 ≡ err e
      → ((execute env a s).0 ≡ err e)
        × (env.actions.find a.id (execute env a s).1.actions
            ≡ some (record a { status = approved }))
  unfolding execute dispatch update_action ◌>>=◌
  failing_dispatch s a e found refused = (
    rw found (rw refused refl),
    rw found (rw refused (find-write_here env.actions a.id a.id _ s.actions (str_eq_refl a.id))),
  )

  -- `sign_and_execute` past its signature, at the threshold, with an executor that fails.
  sign_and_execute-refused :
      (s : State env) (officer id : String) (a : Action) (e : Error)
      → MayApprove s officer id a
      → (env.executor.execute (job_of env a) s.queue).0 ≡ err e
      → ((sign_and_execute env officer id a s).0 ≡ err e)
        × (env.actions.find id (sign_and_execute env officer id a s).1.actions
            ≡ some (record a { status = approved }))
  unfolding sign_and_execute ◌>>=◌
  sign_and_execute-refused s officer id a e m refused =
      let t : State env = record s {
        approvals = env.approvals.create id officer (sign_approval env officer a) s.approvals;
        audit = env.audit.log (approval_event officer id a) s.audit;
      } in
      let over : leb required_compliance_approvals (
            env.approvals.count id
              (env.approvals.create id officer (sign_approval env officer a) s.approvals))
          ≡ true =
        ground (arith, m.enough) in
      let stored : env.actions.find a.id s.actions ≡ some a =
        subst (λ k. env.actions.find k s.actions ≡ some a) (sym m.own_id) m.found in
      let (failed, kept) = failing_dispatch t a e stored refused in
      (
        rw over (rw failed refl),
        rw over (
            rw failed (
              subst
                (λ k.
                  env.actions.find k (execute env a t).1.actions
                  ≡ some (record a { status = approved }))
                m.own_id kept)),
      )

  -- Approving and rejecting an approved action is a conflict that changes nothing.
  approved_conflict :
      (t : State env) (id : String) (a : Action)
      → env.actions.find id t.actions ≡ some a
      → a.status ≡ approved
      → (o : String) (reason : Option String) → is_active_admin (env.users.find o t.users) ≡ true
      → (approve env o id t ≡ (err conflict, t)) × (reject env o id reason t ≡ (err conflict, t))
  unfolding approve reject assert_admin load_action assert_awaiting_approval ◌>>=◌
  approved_conflict t id a found status o reason admin =
      (rw (admin, found) (rw status), rw (admin, found) (rw status))

  -- A hand-over that fails leaves its action stuck: the approval that reached the threshold ends with
  -- the error of the executor, the action is stored as approved, and from then on every approval and
  -- every rejection by an administrator is a conflict that changes nothing.
  pub refused_job_sticks :
      (s : State env) (officer id : String) (a : Action) (e : Error)
      → MayApprove s officer id a
      → (env.executor.execute (job_of env a) s.queue).0 ≡ err e
      → ((approve env officer id s).0 ≡ err e)
        × (env.actions.find id (approve env officer id s).1.actions
            ≡ some (record a { status = approved }))
        × ((o : String) (reason : Option String)
            → is_active_admin (env.users.find o (approve env officer id s).1.users) ≡ true
            → (approve env o id (approve env officer id s).1
                ≡ (err conflict, (approve env officer id s).1))
              × (reject env o id reason (approve env officer id s).1
                  ≡ (err conflict, (approve env officer id s).1)))
  refused_job_sticks s officer id a e m refused =
      let (failed, kept) = sign_and_execute-refused s officer id a e m refused in
      rw (approve-sign s officer id a m)
        (failed, kept, λ o reason admin. approved_conflict _ id _ kept refl o reason admin)
