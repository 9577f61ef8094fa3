-- ===== src/Rpc/Reach.antt =====
-- The service of apps/api/src/soroban/rpc-client.service.ts over time: calls, polls and waits in any
-- order, and what the cool-down of an endpoint does there.
use afro_pay_stellar.Prelude.{
  ℕ, ◌+◌, String, ◌≡◌, refl, false, Option, none, arith, if◌then◌else◌, All, All-map,
}
use afro_pay_stellar.Rpc.{
  Kind, Health, healthy, degraded, unhealthy, rate_limited, Numbers, Endpoint, Config, Reply,
  Router, is_cooling, is_down, keeps_up, is_routable,
}
use afro_pay_stellar.Rpc.Calls.{with_endpoint, refresh_health}
use afro_pay_stellar.Rpc.Coherence.{
  Fits, AllCoherent, with_endpoint-AllCoherent, refresh_health-AllCoherent,
}

-- What happens to the service: a call of anyone, a round of polls, time and the application.
pub data Step {N App : Type 0} (num : Numbers N) (config : Config)
    : Router N App → Router N App → Type 1 where
  calls :
      {w : Router N App} {A : Type 0} (operation : Endpoint N → App → (Reply A × ℕ) × App)
      (kind : Kind)
      → Step num config w (with_endpoint num config operation kind w).1
  refreshes :
      {w : Router N App} (fetch_ledger : Endpoint N → App → (Reply ℕ × ℕ) × App)
      → Step num config w (refresh_health num config fetch_ledger w)
  waits : {w : Router N App} (ms : ℕ) → Step num config w (record w { clock = w.clock + ms })
  works : {w : Router N App} (app : App) → Step num config w (record w { app = app })

pub data Reach {N App : Type 0} (num : Numbers N) (config : Config) (start : Router N App)
    : Router N App → Type 1 where
  here : Reach num config start start
  next :
      {v w : Router N App}
      → Reach num config start v
      → Step num config v w
      → Reach num config start w

-- The endpoints as the constructor registers them: unpolled, without failures.
abbrev pub IsRegistered : {N : Type 0} → Endpoint N → Type 0
IsRegistered e =
    (e.status ≡ degraded) × (e.consecutive_failures ≡ 0) × (e.rate_limited_until ≡ none)

cooldown_unused :
    (config : Config) (now : ℕ) (highest : Option ℕ) (height : Option ℕ) (status : Health)
    (failures : ℕ) (error : Option String) (until : Option ℕ)
    → Fits status failures error until
    → (if is_down status
        then false
        else (if is_cooling now until then false else keeps_up config status highest height))
      ≡ (if is_down status then false else keeps_up config status highest height)
cooldown_unused config now highest height healthy failures error until h = rw (h.2) refl
cooldown_unused config now highest height degraded failures error until h = rw (h.1) refl
cooldown_unused config now highest height unhealthy failures error until h = refl
cooldown_unused config now highest height rate_limited failures error until h = refl

module _ {N App : Type 0} (num : Numbers N) (config : Config) where
  Step-AllCoherent : {v w : Router N App} → Step num config v w → AllCoherent v → AllCoherent w
  Step-AllCoherent (calls operation kind) h =
      with_endpoint-AllCoherent num config operation kind _ h
  Step-AllCoherent (refreshes fetch) h = refresh_health-AllCoherent num config fetch _ h
  Step-AllCoherent (waits ms) h = h
  Step-AllCoherent (works app) h = h

  pub Reach-AllCoherent :
      {v w : Router N App} → All IsRegistered v.endpoints → Reach num config v w → AllCoherent w
  Reach-AllCoherent h here = All-map (λ e k. rw (k.0, k.1, k.2) (omega arith, refl)) _ h
  Reach-AllCoherent h (next r step) = Step-AllCoherent step (Reach-AllCoherent h r)

  -- Whatever calls, polls and waits have happened since the endpoints were registered, at every time
  -- the answer to whether an endpoint takes calls is the same as without the test of its cool-down:
  -- an endpoint in its cool-down either has a status that refuses it already, or has left it by a
  -- poll, however early.
  pub is_routable-ignores_cooldown :
      {v w : Router N App}
      → All IsRegistered v.endpoints
      → Reach num config v w
      → (now : ℕ) (highest : Option ℕ)
      → All
          (λ e.
            is_routable config now highest e
            ≡ (if is_down e.status then false else keeps_up config e.status highest e.block_height))
          w.endpoints
  unfolding is_routable
  is_routable-ignores_cooldown start reach now highest =
      All-map
        (λ e h.
          cooldown_unused config now highest e.block_height e.status e.consecutive_failures
            e.last_error e.rate_limited_until h)
        _ (Reach-AllCoherent start reach)
