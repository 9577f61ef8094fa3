-- ===== src/Rpc/Coherence.antt =====
-- What holds of the endpoints of apps/api/src/soroban/rpc-client.service.ts after any calls and polls.
use afro_pay_stellar.Prelude.{
  ℕ, suc, ◌+◌, ◌≤◌, String, ◌≡◌, refl, Bool, Option, none, some, List, [], ◌∷◌, map, arith, leb,
  if◌then◌else◌, All, Bool-cases, inl, inr, str_eq,
}
use afro_pay_stellar.Rpc.{
  Kind, soroban, horizon, Health, healthy, degraded, unhealthy, rate_limited, Numbers, Endpoint,
  RankedEndpoint, Config, RpcError, Reply, Reply-cases, replied, failed, Router, is_429, routable,
  mark_success, mark_failure, update, of_kind, alert_with, alert_if_all_degraded, Outcome, returned,
  thrown,
}
use afro_pay_stellar.Rpc.Ranking.{credit, credit_all, rank, balance, scored, rank_healthy}
use afro_pay_stellar.Rpc.Calls.{
  marked, polled, attempt, try_candidates, alert_on_error, route, with_endpoint, poll_endpoint,
  poll_all, refresh_health,
}

-- The counter, the last error and the cool-down that go with a status.
abbrev pub Fits : Health → ℕ → Option String → Option ℕ → Type 0
Fits healthy failures error until = (failures ≡ 0) × (error ≡ none) × (until ≡ none)
Fits degraded failures error until = (failures ≤ 1) × (until ≡ none)
Fits unhealthy failures error until = 2 ≤ failures
Fits rate_limited failures error until = (1 ≤ failures) × ((t : ℕ) × (until ≡ some t))

abbrev pub IsCoherent : {N : Type 0} → Endpoint N → Type 0
IsCoherent e = Fits e.status e.consecutive_failures e.last_error e.rate_limited_until

All-update :
    {N : Type 0} {P : Endpoint N → Type 0} (id : String) (f : Endpoint N → Endpoint N)
    → ((e : Endpoint N) → P e → P (f e))
    → (es : List (Endpoint N)) → All P es
    → All P (update id f es)
All-update id f keeps [] h = tt
All-update {P} id f keeps (e ∷ es) h = (
  elim (Bool-cases (str_eq e.id id)) [
    | inl same ↦ rw same (keeps e h.0)
    | inr other ↦ rw other h.0
  ],
  All-update id f keeps es h.1,
)

Fits-failure :
    (config : Config) (now : ℕ) (status : Health) (failures : ℕ) (error : Option String)
    (until : Option ℕ) (limited : Bool) (message : String)
    → Fits status failures error until
    → Fits
        (if limited then rate_limited else (if leb 2 (suc failures) then unhealthy else degraded))
        (suc failures)
        (some message)
        (if limited then some (now + config.rate_limit_cooldown_ms) else until)
Fits-failure config now healthy failures error until limited message h = ground arith
Fits-failure config now degraded failures error until limited message h = ground arith
Fits-failure config now unhealthy failures error until limited message h = ground arith
Fits-failure config now rate_limited failures error until limited message h = ground arith

mark_failure-IsCoherent :
    {N : Type 0} (config : Config) (now : ℕ) (error : RpcError) (e : Endpoint N)
    → IsCoherent e
    → IsCoherent (mark_failure config now error e)
unfolding mark_failure
mark_failure-IsCoherent config now error e h =
    Fits-failure config now e.status e.consecutive_failures e.last_error e.rate_limited_until
      (is_429 error.http_status) error.message h

mark_success-IsCoherent :
    {N : Type 0} (now latency : ℕ) (e : Endpoint N) → IsCoherent (mark_success now latency e)
unfolding mark_success
mark_success-IsCoherent now latency e = (refl, refl, refl)

marked-IsCoherent :
    {N A : Type 0} (config : Config) (now elapsed : ℕ) (reply : Reply A) (e : Endpoint N)
    → IsCoherent e
    → IsCoherent (marked config now elapsed reply e)
marked-IsCoherent config now elapsed (replied a) e h = mark_success-IsCoherent now elapsed e
marked-IsCoherent config now elapsed (failed error) e h =
    mark_failure-IsCoherent config now error e h

polled-IsCoherent :
    {N : Type 0} (config : Config) (now elapsed : ℕ) (reply : Reply ℕ) (e : Endpoint N)
    → IsCoherent e
    → IsCoherent (polled config now elapsed reply e)
polled-IsCoherent config now elapsed (replied height) e h =
    mark_success-IsCoherent now elapsed (record e { block_height = some height })
polled-IsCoherent config now elapsed (failed error) e h =
    mark_failure-IsCoherent config now error e h

abbrev pub AllCoherent : {N App : Type 0} → Router N App → Type 0
AllCoherent w = All IsCoherent w.endpoints

module _ {N : Type 0} (num : Numbers N) where
  credit_all-IsCoherent :
      (cs : List (RankedEndpoint N)) (es : List (Endpoint N))
      → All IsCoherent es
      → All IsCoherent (credit_all num cs es)
  credit_all-IsCoherent [] es h = h
  credit_all-IsCoherent (c ∷ cs) es h =
      credit_all-IsCoherent cs (update c.endpoint.id (credit num c.score) es)
        (All-update c.endpoint.id (credit num c.score) (λ e k. k) es h)

  rank-IsCoherent :
      (cs : List (RankedEndpoint N)) (es : List (Endpoint N))
      → All IsCoherent es
      → All IsCoherent (rank num cs es).1
  unfolding balance
  rank-IsCoherent [] es h = h
  rank-IsCoherent (c ∷ []) es h = h
  rank-IsCoherent (c ∷ d ∷ cs) es h =
      All-update _ _ (λ e k. k) (credit_all num (c ∷ d ∷ cs) es)
        (credit_all-IsCoherent (c ∷ d ∷ cs) es h)

module _ {N App : Type 0} (num : Numbers N) (config : Config) where
  alert_with-AllCoherent :
      (kind : Kind) (es : List (Endpoint N)) (w : Router N App)
      → AllCoherent w
      → AllCoherent (alert_with config kind es w)
  alert_with-AllCoherent kind [] w h = h
  alert_with-AllCoherent kind (e ∷ es) w h = h

  alert-AllCoherent :
      (kind : Kind) (w : Router N App)
      → AllCoherent w
      → AllCoherent (alert_if_all_degraded config kind w)
  unfolding alert_if_all_degraded
  alert-AllCoherent kind w h = alert_with-AllCoherent kind (of_kind kind w.endpoints) w h

  module _ {A : Type 0} (operation : Endpoint N → App → (Reply A × ℕ) × App) where
    attempt-AllCoherent :
        (e : Endpoint N) (w : Router N App)
        → AllCoherent w
        → AllCoherent (attempt num config operation e w).1
    unfolding attempt
    attempt-AllCoherent e w h =
        All-update e.id _ (marked-IsCoherent config _ _ (operation e w.app).0.0) w.endpoints h

    try_candidates-AllCoherent :
        (cs : List (RankedEndpoint N)) (errors : List (String × String)) (w : Router N App)
        → AllCoherent w
        → AllCoherent (try_candidates num config operation cs errors w).1
    unfolding try_candidates
    try_candidates-AllCoherent [] errors w h = h
    try_candidates-AllCoherent (c ∷ cs) errors w h =
        elim (Reply-cases (attempt num config operation c.endpoint w).0) [
          | inl (a, e) ↦ rw (e, try_candidates) (attempt-AllCoherent c.endpoint w h)
          | inr (error, e) ↦
              rw (e, try_candidates)
                (try_candidates-AllCoherent cs _ _ (attempt-AllCoherent c.endpoint w h))
        ]

    alert_on_error-AllCoherent :
        (kind : Kind) (r : Outcome A × Router N App)
        → AllCoherent r.1
        → AllCoherent (alert_on_error num config operation kind r).1
    alert_on_error-AllCoherent kind (returned a, w) h = h
    alert_on_error-AllCoherent kind (thrown e, w) h = alert-AllCoherent kind w h

    route-AllCoherent :
        (kind : Kind) (cs : List (RankedEndpoint N)) (w : Router N App)
        → AllCoherent w
        → AllCoherent (route num config operation kind cs w).1
    route-AllCoherent kind [] w h = alert-AllCoherent kind w h
    route-AllCoherent kind (c ∷ cs) w h =
        alert_on_error-AllCoherent kind (try_candidates num config operation (c ∷ cs) [] w)
          (try_candidates-AllCoherent (c ∷ cs) [] w h)

    pub with_endpoint-AllCoherent :
        (kind : Kind) (w : Router N App)
        → AllCoherent w
        → AllCoherent (with_endpoint num config operation kind w).1
    unfolding with_endpoint rank_healthy
    with_endpoint-AllCoherent kind w h = route-AllCoherent kind _ _ (
        rank-IsCoherent num (map (scored num) (routable config w.clock kind w.endpoints))
          w.endpoints h)

  module _ (fetch_ledger : Endpoint N → App → (Reply ℕ × ℕ) × App) where
    poll_all-AllCoherent :
        (es : List (Endpoint N)) (w : Router N App)
        → AllCoherent w
        → AllCoherent (poll_all num config fetch_ledger es w)
    unfolding poll_all poll_endpoint
    poll_all-AllCoherent [] w h = h
    poll_all-AllCoherent (e ∷ es) w h =
        poll_all-AllCoherent es (poll_endpoint num config fetch_ledger e w) (
          All-update e.id _ (polled-IsCoherent config _ _ (fetch_ledger e w.app).0.0) w.endpoints h)

    pub refresh_health-AllCoherent :
        (w : Router N App) → AllCoherent w → AllCoherent (refresh_health num config fetch_ledger w)
    unfolding refresh_health
    refresh_health-AllCoherent w h =
        alert-AllCoherent horizon _
          (alert-AllCoherent soroban _ (poll_all-AllCoherent w.endpoints w h))
