-- ===== src/Rpc/Calls.antt =====
-- `withEndpoint`, `pollEndpoint` and `refreshHealth` of apps/api/src/soroban/rpc-client.service.ts.
-- A call of a node is a function of the endpoint and the application, with the time it takes; the
-- polls of `Promise.all` run one after the other.
use afro_pay_stellar.Prelude.{ℕ, ◌+◌, String, some, List, [], ◌∷◌, ◌++◌}
use afro_pay_stellar.Rpc.{
  Kind, soroban, horizon, Numbers, Endpoint, RankedEndpoint, Config, Reply, replied, failed,
  none_healthy, all_failed, Outcome, returned, thrown, Router, mark_success, mark_failure, update,
  alert_if_all_degraded,
}
use afro_pay_stellar.Rpc.Ranking.{rank_healthy}

-- The endpoint after a call.
abbrev pub marked : {N A : Type 0} → Config → ℕ → ℕ → Reply A → Endpoint N → Endpoint N
marked config now elapsed (replied a) e = mark_success now elapsed e
marked config now elapsed (failed error) e = mark_failure config now error e

-- The endpoint after a poll, whose reply is the height of the chain.
abbrev pub polled : {N : Type 0} → Config → ℕ → ℕ → Reply ℕ → Endpoint N → Endpoint N
polled config now elapsed (replied height) e =
    mark_success now elapsed (record e { block_height = some height })
polled config now elapsed (failed error) e = mark_failure config now error e

module _ {N App : Type 0} (num : Numbers N) (config : Config) where
  module _ {A : Type 0} (operation : Endpoint N → App → (Reply A × ℕ) × App) where
    -- One round of the loop: the reply, and the service with the endpoint marked.
    unfoldable pub attempt : Endpoint N → Router N App → Reply A × Router N App
    unfolding mark_success mark_failure
    attempt e w =
        let ((reply, elapsed), app) = operation e w.app in
        let now = w.clock + elapsed in
        (
          reply,
          record w {
            endpoints = update e.id (marked config now elapsed reply) w.endpoints;
            clock = now;
            app = app;
          },
        )

    unfoldable pub try_candidates :
        List (RankedEndpoint N) → List (String × String) → Router N App → Outcome A × Router N App
    unfolding attempt
    try_candidates [] errors w = (thrown (all_failed errors), w)
    try_candidates (c ∷ cs) errors w =
        let (reply, w') = attempt c.endpoint w in
        elim reply [
          | replied a ↦ (returned a, w')
          | failed error ↦ try_candidates cs (errors ++ (c.endpoint.id, error.message) ∷ []) w'
        ]

    -- `alertIfAllDegraded` runs when the loop has found no endpoint that answers.
    abbrev pub alert_on_error : Kind → Outcome A × Router N App → Outcome A × Router N App
    alert_on_error kind (returned a, w) = (returned a, w)
    alert_on_error kind (thrown e, w) = (thrown e, alert_if_all_degraded config kind w)

    abbrev pub route : Kind → List (RankedEndpoint N) → Router N App → Outcome A × Router N App
    route kind [] w = (thrown none_healthy, alert_if_all_degraded config kind w)
    route kind (c ∷ cs) w = alert_on_error kind (try_candidates (c ∷ cs) [] w)

    unfoldable pub with_endpoint : Kind → Router N App → Outcome A × Router N App
    unfolding rank_healthy try_candidates alert_if_all_degraded
    with_endpoint kind w =
        let (candidates, endpoints) = rank_healthy num config w.clock kind w.endpoints in
        route kind candidates (record w { endpoints = endpoints })

  -- What a poll reads: the latest ledger, or what it throws, and the time it takes.
  module _ (fetch_ledger : Endpoint N → App → (Reply ℕ × ℕ) × App) where
    unfoldable pub poll_endpoint : Endpoint N → Router N App → Router N App
    unfolding mark_success mark_failure
    poll_endpoint e w =
        let ((reply, elapsed), app) = fetch_ledger e w.app in
        let now = w.clock + elapsed in
        record w {
          endpoints = update e.id (polled config now elapsed reply) w.endpoints;
          clock = now;
          app = app;
        }

    unfoldable pub poll_all : List (Endpoint N) → Router N App → Router N App
    unfolding poll_endpoint
    poll_all [] w = w
    poll_all (e ∷ es) w = poll_all es (poll_endpoint e w)

    unfoldable pub refresh_health : Router N App → Router N App
    unfolding poll_all alert_if_all_degraded
    refresh_health w =
        alert_if_all_degraded config horizon
          (alert_if_all_degraded config soroban (poll_all w.endpoints w))
