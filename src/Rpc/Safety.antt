-- ===== src/Rpc/Safety.antt =====
-- Which endpoints `withEndpoint` of apps/api/src/soroban/rpc-client.service.ts calls.
use afro_pay_stellar.Prelude.{ℕ, String, List, [], ◌∷◌, All, inl, inr}
use afro_pay_stellar.Rpc.{
  Kind, Numbers, Endpoint, RankedEndpoint, Config, Reply, Reply-cases, Outcome, returned, thrown,
  Router, highest_block, of_kind, alert_with, alert_if_all_degraded,
}
use afro_pay_stellar.Rpc.Ranking.{rank_healthy}
use afro_pay_stellar.Rpc.Ranking.Candidates.{TakesCalls, rank_healthy-TakesCalls}
use afro_pay_stellar.Rpc.Calls.{attempt, try_candidates, alert_on_error, route, with_endpoint}

module _ {N App A : Type 0} (num : Numbers N) (config : Config)
    (operation : Endpoint N → App → (Reply A × ℕ) × App) (Kept : App → Type 0) where
  module _ (May : Endpoint N → Type 0)
      (keeps : (e : Endpoint N) (app : App) → May e → Kept app → Kept (operation e app).1) where
    try_candidates-keeps :
        (cs : List (RankedEndpoint N)) (errors : List (String × String)) (w : Router N App)
        → All (λ c. May c.endpoint) cs
        → Kept w.app
        → Kept (try_candidates num config operation cs errors w).1.app
    unfolding try_candidates attempt
    try_candidates-keeps [] errors w may h = h
    try_candidates-keeps (c ∷ cs) errors w may h =
        elim (Reply-cases (attempt num config operation c.endpoint w).0) [
          | inl (a, e) ↦ rw (e, try_candidates) (keeps c.endpoint w.app may.0 h)
          | inr (error, e) ↦
              rw (e, try_candidates)
                (try_candidates-keeps cs _ (attempt num config operation c.endpoint w).1 may.1
                  (keeps c.endpoint w.app may.0 h))
        ]

    alert-keeps :
        (kind : Kind) (es : List (Endpoint N)) (w : Router N App)
        → Kept w.app
        → Kept (alert_with config kind es w).app
    alert-keeps kind [] w h = h
    alert-keeps kind (e ∷ es) w h = h

    alert_on_error-keeps :
        (kind : Kind) (r : Outcome A × Router N App)
        → Kept r.1.app
        → Kept (alert_on_error num config operation kind r).1.app
    unfolding alert_if_all_degraded
    alert_on_error-keeps kind (returned a, w) h = h
    alert_on_error-keeps kind (thrown e, w) h = alert-keeps kind (of_kind kind w.endpoints) w h

    route-keeps :
        (kind : Kind) (cs : List (RankedEndpoint N)) (w : Router N App)
        → All (λ c. May c.endpoint) cs
        → Kept w.app
        → Kept (route num config operation kind cs w).1.app
    unfolding alert_if_all_degraded
    route-keeps kind [] w may h = alert-keeps kind (of_kind kind w.endpoints) w h
    route-keeps kind (c ∷ cs) w may h =
        alert_on_error-keeps kind (try_candidates num config operation (c ∷ cs) [] w)
          (try_candidates-keeps (c ∷ cs) [] w may h)

  -- The operation reaches only endpoints of the kind that take calls when the call begins: whatever
  -- of the application it keeps at each such endpoint, a call through the service keeps.
  pub with_endpoint-keeps :
      (kind : Kind) (w : Router N App)
      → ((e : Endpoint N) (app : App)
          → TakesCalls config w.clock (highest_block kind w.endpoints) kind e
          → Kept app
          → Kept (operation e app).1)
      → Kept w.app
      → Kept (with_endpoint num config operation kind w).1.app
  unfolding with_endpoint
  with_endpoint-keeps kind w keeps h =
      route-keeps (TakesCalls config w.clock (highest_block kind w.endpoints) kind) keeps kind
        (rank_healthy num config w.clock kind w.endpoints).0
        (record w { endpoints = (rank_healthy num config w.clock kind w.endpoints).1 })
        (rank_healthy-TakesCalls num config w.clock kind w.endpoints) h
