-- ===== src/Rpc/Failover.antt =====
-- `withEndpoint` of apps/api/src/soroban/rpc-client.service.ts: which endpoints are called, in which
-- order, and what comes of it.
use afro_pay_stellar.Prelude.{
  ℕ, String, ◌≡◌, ◌≢◌, refl, sym, ap, ◌∙◌, List, [], ◌∷◌, ◌++◌, map, inl, inr,
}
use mathlib.Core.List.{Perm, append_assoc, append-nil}
use afro_pay_stellar.Rpc.{
  Kind, Numbers, Endpoint, RankedEndpoint, Config, RpcError, Reply, replied, failed, Reply-cases,
  none_healthy, all_failed, Outcome, returned, thrown, Router, routable, of_kind, alert_with,
  alert_if_all_degraded,
}
use afro_pay_stellar.Rpc.Ranking.Candidates.{id_of, rank_healthy-ids}
use afro_pay_stellar.Rpc.Ranking.{rank_healthy}
use afro_pay_stellar.Rpc.Calls.{attempt, try_candidates, alert_on_error, route, with_endpoint}

-- The calls that fail, one after the other, with what they throw and what they do to the application.
pub data Failures {N App A : Type 0} (operation : Endpoint N → App → (Reply A × ℕ) × App)
    : List (RankedEndpoint N) → App → List (String × String) → App → Type 0 where
  no_calls : {app : App} → Failures operation [] app [] app
  one_more :
      {c : RankedEndpoint N} {cs : List (RankedEndpoint N)} {app app' : App}
      {errors : List (String × String)} (error : RpcError)
      → (operation c.endpoint app).0.0 ≡ failed error
      → Failures operation cs (operation c.endpoint app).1 errors app'
      → Failures operation (c ∷ cs) app ((c.endpoint.id, error.message) ∷ errors) app'

module _ {N App A : Type 0} (num : Numbers N) (config : Config)
    (operation : Endpoint N → App → (Reply A × ℕ) × App) where
  -- The calls before the first that answers fail, and none is made after it.
  pub record Answer (cs : List (RankedEndpoint N)) (app : App) (a : A) (app' : App) : Type 0 where
    pub before : List (RankedEndpoint N)
    pub after : List (RankedEndpoint N)
    pub candidate : RankedEndpoint N
    pub errors : List (String × String)
    pub reached : App
    pub elapsed : ℕ
    pub split : cs ≡ before ++ candidate ∷ after
    pub failures : Failures operation before app errors reached
    pub answer : operation candidate.endpoint reached ≡ ((replied a, elapsed), app')

  -- What an outcome says of the calls that were made.
  abbrev pub Explains :
      List (RankedEndpoint N) → App → List (String × String) → Outcome A → App → Type 0
  Explains cs app so_far (returned a) app' = Answer cs app a app'
  Explains cs app so_far (thrown none_healthy) app' = (cs ≡ []) × (app ≡ app')
  Explains cs app so_far (thrown (all_failed errors)) app' =
      (more : List (String × String)) × (errors ≡ so_far ++ more)
      × Failures operation cs app more app'

  Explains-failed :
      (c : RankedEndpoint N) (cs : List (RankedEndpoint N)) (app : App)
      (so_far : List (String × String)) (error : RpcError) (o : Outcome A) (app' : App)
      → (operation c.endpoint app).0.0 ≡ failed error
      → o ≢ thrown none_healthy
      → Explains cs
          (operation c.endpoint app).1
          (so_far ++ (c.endpoint.id, error.message) ∷ [])
          o
          app'
      → Explains (c ∷ cs) app so_far o app'
  Explains-failed c cs app so_far error (returned a) app' e ne h = record {
    before = c ∷ h.before;
    after = h.after;
    candidate = h.candidate;
    errors = (c.endpoint.id, error.message) ∷ h.errors;
    reached = h.reached;
    elapsed = h.elapsed;
    split = ap (λ xs. c ∷ xs) h.split;
    failures = one_more error e h.failures;
    answer = h.answer;
  }
  Explains-failed c cs app so_far error (thrown none_healthy) app' e ne h = absurd (ne refl)
  Explains-failed c cs app so_far error (thrown (all_failed errors)) app' e ne h =
      ((c.endpoint.id, error.message) ∷ h.0, h.1 ∙ append_assoc so_far _ h.0, one_more error e h.2)

  answered :
      (c : RankedEndpoint N) (cs : List (RankedEndpoint N)) (app : App) (a : A)
      → (operation c.endpoint app).0.0 ≡ replied a
      → Answer (c ∷ cs) app a (operation c.endpoint app).1
  answered c cs app a e = record {
    before = [];
    after = cs;
    candidate = c;
    errors = [];
    reached = app;
    elapsed = (operation c.endpoint app).0.1;
    split = refl;
    failures = no_calls;
    answer = ap (λ r. ((r, (operation c.endpoint app).0.1), (operation c.endpoint app).1)) e;
  }

  try_candidates-tries :
      (cs : List (RankedEndpoint N)) (so_far : List (String × String)) (w : Router N App)
      → (try_candidates num config operation cs so_far w).0 ≢ thrown none_healthy
  unfolding try_candidates
  try_candidates-tries [] so_far w = λ e. cc e
  try_candidates-tries (c ∷ cs) so_far w =
      elim (Reply-cases (attempt num config operation c.endpoint w).0) [
        | inl (a, e) ↦ rw (e, try_candidates) (λ e'. cc e')
        | inr (error, e) ↦
            rw (e, try_candidates)
              (try_candidates-tries cs _ (attempt num config operation c.endpoint w).1)
      ]

  try_candidates-Explains :
      (cs : List (RankedEndpoint N)) (so_far : List (String × String)) (w : Router N App)
      → Explains cs w.app so_far
          (try_candidates num config operation cs so_far w).0
          (try_candidates num config operation cs so_far w).1.app
  unfolding try_candidates attempt
  try_candidates-Explains [] so_far w = ([], sym (append-nil so_far), no_calls)
  try_candidates-Explains (c ∷ cs) so_far w =
      elim (Reply-cases (attempt num config operation c.endpoint w).0) [
        | inl (a, e) ↦ rw (e, try_candidates) (answered c cs w.app a e)
        | inr (error, e) ↦
            rw (e, try_candidates)
              (Explains-failed c cs w.app so_far error _ _ e (try_candidates-tries cs _ _)
                (try_candidates-Explains cs _ (attempt num config operation c.endpoint w).1))
      ]

  alert-app :
      (kind : Kind) (es : List (Endpoint N)) (w : Router N App)
      → (alert_with config kind es w).app ≡ w.app
  alert-app kind [] w = refl
  alert-app kind (e ∷ es) w = refl

  alert_on_error-Explains :
      (kind : Kind) (cs : List (RankedEndpoint N)) (app : App) (r : Outcome A × Router N App)
      → Explains cs app [] r.0 r.1.app
      → Explains cs app []
          (alert_on_error num config operation kind r).0
          (alert_on_error num config operation kind r).1.app
  unfolding alert_if_all_degraded
  alert_on_error-Explains kind cs app (returned a, w) h = h
  alert_on_error-Explains kind cs app (thrown e, w) h =
      rw (alert-app kind (of_kind kind w.endpoints) w) h

  route-Explains :
      (kind : Kind) (cs : List (RankedEndpoint N)) (w : Router N App)
      → Explains cs w.app []
          (route num config operation kind cs w).0
          (route num config operation kind cs w).1.app
  unfolding alert_if_all_degraded
  route-Explains kind [] w = (refl, sym (alert-app kind (of_kind kind w.endpoints) w))
  route-Explains kind (c ∷ cs) w =
      alert_on_error-Explains kind (c ∷ cs) w.app
        (try_candidates num config operation (c ∷ cs) [] w) (try_candidates-Explains (c ∷ cs) [] w)

  -- A call through the service, whose candidates are an order of the endpoints of the kind that take
  -- calls, each once. If it returns, then the operation failed in turn at the candidates before one,
  -- the value is what the operation gave there, and no later candidate was called. If no endpoint
  -- takes calls, it throws and calls nothing. Otherwise, if it throws, the operation has failed at
  -- every candidate in turn and the error lists each with its message.
  pub with_endpoint-Explains :
      (kind : Kind) (w : Router N App)
      → Perm
          (map id_of (rank_healthy num config w.clock kind w.endpoints).0)
          (map (λ e. e.id) (routable config w.clock kind w.endpoints))
        × Explains
            (rank_healthy num config w.clock kind w.endpoints).0
            w.app
            []
            (with_endpoint num config operation kind w).0
            (with_endpoint num config operation kind w).1.app
  unfolding with_endpoint
  with_endpoint-Explains kind w = (
    rank_healthy-ids num config w.clock kind w.endpoints,
    route-Explains kind (rank_healthy num config w.clock kind w.endpoints).0
        (record w { endpoints = (rank_healthy num config w.clock kind w.endpoints).1 }),
  )
