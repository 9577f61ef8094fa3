-- ===== src/Rpc.antt =====
-- apps/api/src/soroban/rpc-client.service.ts: the endpoints of the Soroban and Horizon nodes, their
-- health and the calls that go through them. JavaScript's numbers, the nodes and the clock are
-- parameters; an endpoint, which the source shares by reference, is found by its id.
pub mod Ranking
pub mod Calls
pub mod Coherence
pub mod Reach
pub mod Failover
pub mod Safety
pub mod Recovery
mod Tests
use afro_pay_stellar.Prelude.{
  ℕ, suc, ◌+◌, ◌-◌, max, String, Bool, true, false, not, ◌&&◌, ◌||◌, Option, none, some, List, [],
  ◌∷◌, ◌++◌, map, ltb, leb, ◌==◌, str_eq, if◌then◌else◌, filter, every, ◌≡◌, refl, ◌⊎◌, inl, inr,
}

pub data Kind : Type 0 where
  soroban horizon : Kind

abbrev pub same_kind : Kind → Kind → Bool
same_kind soroban soroban = true
same_kind horizon horizon = true
same_kind _ _ = false

pub data Health : Type 0 where
  healthy degraded unhealthy rate_limited : Health

-- The numbers of JavaScript: weights, scores and balances are not whole.
pub record Numbers (N : Type 0) : Type 0 where
  pub of_ℕ : ℕ → N
  pub add : N → N → N
  pub sub : N → N → N
  pub mul : N → N → N
  pub div : N → N → N
  pub gt : N → N → Bool

pub record Endpoint (N : Type 0) : Type 0 where
  pub id : String
  pub url : String
  pub kind : Kind
  pub weight : N
  pub status : Health
  pub latency_ms : Option ℕ
  pub block_height : Option ℕ
  pub last_checked_at : Option ℕ
  pub last_error : Option String
  pub consecutive_failures : ℕ
  pub rate_limited_until : Option ℕ
  pub routing_balance : N

pub record RankedEndpoint (N : Type 0) : Type 0 where
  pub endpoint : Endpoint N
  pub score : N

pub record Config : Type 0 where
  pub max_block_lag : ℕ
  pub rate_limit_cooldown_ms : ℕ

-- What a failing call throws: the HTTP status of its response, if any, and its message.
pub record RpcError : Type 0 where
  pub http_status : Option ℕ
  pub message : String

pub data Reply (A : Type 0) : Type 0 where
  replied : A → Reply A
  failed : RpcError → Reply A

pub Reply-cases :
    {A : Type 0} (r : Reply A)
    → ((a : A) × (r ≡ replied a)) ⊎ ((error : RpcError) × (r ≡ failed error))
Reply-cases (replied a) = inl (a, refl)
Reply-cases (failed error) = inr (error, refl)

pub data RoutingError : Type 0 where
  none_healthy : RoutingError
  all_failed : List (String × String) → RoutingError

pub data Outcome (A : Type 0) : Type 0 where
  returned : A → Outcome A
  thrown : RoutingError → Outcome A

-- The service, the gauges `rpcAllEndpointsDegraded`, the clock and the rest of the application.
pub record Router (N App : Type 0) : Type 0 where
  pub endpoints : List (Endpoint N)
  pub all_degraded : Kind → Option Bool
  pub clock : ℕ
  pub app : App

abbrev pub of_kind : {N : Type 0} → Kind → List (Endpoint N) → List (Endpoint N)
of_kind kind es = filter (λ e. same_kind e.kind kind) es

abbrev pub max_of : List ℕ → Option ℕ
max_of [] = none
max_of (n ∷ ns) = elim (max_of ns) [ none ↦ some n | some m ↦ some (max n m) ]

abbrev pub heights : {N : Type 0} → List (Endpoint N) → List ℕ
heights [] = []
heights (e ∷ es) = elim e.block_height [ none ↦ heights es | some h ↦ h ∷ heights es ]

pub highest_block : {N : Type 0} → Kind → List (Endpoint N) → Option ℕ
highest_block kind es = max_of (heights (of_kind kind es))

-- `rateLimitedUntil && rateLimitedUntil.getTime() > Date.now()`
abbrev pub is_cooling : ℕ → Option ℕ → Bool
is_cooling now none = false
is_cooling now (some until) = ltb now until

abbrev pub is_down : Health → Bool
is_down unhealthy = true
is_down rate_limited = true
is_down _ = false

-- The lag behind the highest block, where both are known.
abbrev pub keeps_up : Config → Health → Option ℕ → Option ℕ → Bool
keeps_up config status (some highest) (some height) = leb (highest - height) config.max_block_lag
keeps_up config healthy _ _ = true
keeps_up config degraded _ _ = true
keeps_up config _ _ _ = false

pub is_routable : {N : Type 0} → Config → ℕ → Option ℕ → Endpoint N → Bool
is_routable config now highest e =
    if is_down e.status
    then false
    else (if is_cooling now e.rate_limited_until
        then false
        else keeps_up config e.status highest e.block_height)

pub routable : {N : Type 0} → Config → ℕ → Kind → List (Endpoint N) → List (Endpoint N)
unfolding is_routable highest_block
routable config now kind es =
    filter (is_routable config now (highest_block kind es)) (of_kind kind es)

pub mark_success : {N : Type 0} → ℕ → ℕ → Endpoint N → Endpoint N
mark_success now latency e = record e {
  latency_ms = some latency;
  last_checked_at = some now;
  last_error = none;
  consecutive_failures = 0;
  rate_limited_until = none;
  status = healthy;
}

abbrev pub is_429 : Option ℕ → Bool
is_429 none = false
is_429 (some n) = n == 429

pub mark_failure : {N : Type 0} → Config → ℕ → RpcError → Endpoint N → Endpoint N
mark_failure config now error e =
    let failures = suc e.consecutive_failures in
    let limited = is_429 error.http_status in
    record e {
      last_checked_at = some now;
      last_error = some error.message;
      consecutive_failures = failures;
      status = if limited then rate_limited else (if leb 2 failures then unhealthy else degraded);
      rate_limited_until =
          if limited then some (now + config.rate_limit_cooldown_ms) else e.rate_limited_until;
    }

-- A write through a reference to the endpoint of this id.
abbrev pub update :
    {N : Type 0} → String → (Endpoint N → Endpoint N) → List (Endpoint N) → List (Endpoint N)
update id f es = map (λ e. if str_eq e.id id then f e else e) es

abbrev pub alert_value : {N : Type 0} → Config → ℕ → Kind → List (Endpoint N) → Bool
alert_value config now kind es =
    every (λ e. not (is_routable config now (highest_block kind es) e)) (of_kind kind es)

abbrev pub set_gauge : Kind → Bool → (Kind → Option Bool) → Kind → Option Bool
set_gauge kind b gauge k = if same_kind k kind then some b else gauge k

abbrev pub alert_with :
    {N App : Type 0} → Config → Kind → List (Endpoint N) → Router N App → Router N App
alert_with config kind [] w = w
alert_with config kind (e ∷ es) w = record w {
  all_degraded = set_gauge kind (alert_value config w.clock kind w.endpoints) w.all_degraded;
}

pub alert_if_all_degraded : {N App : Type 0} → Config → Kind → Router N App → Router N App
unfolding is_routable highest_block
alert_if_all_degraded config kind w = alert_with config kind (of_kind kind w.endpoints) w

-- An endpoint as the constructor registers it.
abbrev pub registered : {N : Type 0} → Numbers N → String → String → Kind → N → Endpoint N
registered num id url kind weight = record {
  id = id;
  url = url;
  kind = kind;
  weight = weight;
  status = degraded;
  latency_ms = none;
  block_height = none;
  last_checked_at = none;
  last_error = none;
  consecutive_failures = 0;
  rate_limited_until = none;
  routing_balance = num.of_ℕ 0;
}
