-- ===== src/Rpc/Tests.antt =====
-- The theorems at concrete endpoints, with whole numbers for scores.
use afro_pay_stellar.Prelude.{
  ℕ, ◌+◌, ◌-◌, ◌*◌, ◌/◌, String, ◌≡◌, refl, true, false, none, some, List, [], ◌∷◌, map, arith, ltb,
  All, if◌then◌else◌, str_eq,
}
use mathlib.Core.List.{Perm}
use afro_pay_stellar.Rpc.{
  Kind, soroban, horizon, same_kind, Numbers, Endpoint, RankedEndpoint, Config, Reply, replied,
  failed, returned, Router, healthy, is_down, keeps_up, is_routable, routable, registered,
}
use afro_pay_stellar.Rpc.Ranking.{rank_healthy, scored, credited}
use afro_pay_stellar.Rpc.Ranking.Candidates.{id_of}
use afro_pay_stellar.Rpc.Ranking.Selection.{IsOrdered, IsIn, NotAbove, HasHead, rank_healthy-head}
use afro_pay_stellar.Rpc.Calls.{with_endpoint, refresh_health}
use afro_pay_stellar.Rpc.Reach.{here, next, calls, refreshes, is_routable-ignores_cooldown}
use afro_pay_stellar.Rpc.Failover.{Explains, with_endpoint-Explains}
use afro_pay_stellar.Rpc.Safety.{with_endpoint-keeps}
use afro_pay_stellar.Rpc.Recovery.{refresh_health-heals}

abbrev whole : Numbers ℕ
whole = record {
  of_ℕ = λ n. n;
  add = λ a b. a + b;
  sub = λ a b. a - b;
  mul = λ a b. a * b;
  div = λ a b. a / b;
  gt = λ a b. ltb b a;
}

whole-IsOrdered : IsOrdered whole
whole-IsOrdered = record { gt_irrefl = λ a. ground arith; gt_mono = λ a b c h k. ground arith }

abbrev config : Config
config = record { max_block_lag = 3; rate_limit_cooldown_ms = 60_000 }

abbrev first : Endpoint ℕ
first = registered whole "soroban-1" "https://a" soroban 1

abbrev second : Endpoint ℕ
second = registered whole "soroban-2" "https://b" soroban 2

abbrev service : Router ℕ (List String)
service = record {
  endpoints = first ∷ second ∷ [];
  all_degraded = λ k. none;
  clock = 1_000;
  app = [];
}

-- The second node answers; the other one limits the rate. The application keeps the calls.
abbrev ask : Endpoint ℕ → List String → (Reply ℕ × ℕ) × List String
ask e ids = (
  (
    if str_eq e.id "soroban-1"
        then failed (record { http_status = some 429; message = "slow down" })
        else replied 7,
    20,
  ),
  e.id ∷ ids,
)

abbrev limits : Endpoint ℕ → List String → (Reply ℕ × ℕ) × List String
limits e ids = ((failed (record { http_status = some 429; message = "slow down" }), 20), e.id ∷ ids)

-- The node of the higher weight is called first.
asks_second : (with_endpoint whole config ask soroban service).0 ≡ returned 7
asks_second = unfold with_endpoint in refl

called : (with_endpoint whole config limits soroban service).1.app ≡ "soroban-1" ∷ "soroban-2" ∷ []
called = unfold with_endpoint in refl

with_endpoint-Explains_example :
    Perm
      (map id_of (rank_healthy whole config 1_000 soroban service.endpoints).0)
      (map (λ e. e.id) (routable config 1_000 soroban service.endpoints))
    × Explains whole config ask
        (rank_healthy whole config 1_000 soroban service.endpoints).0
        []
        []
        (with_endpoint whole config ask soroban service).0
        (with_endpoint whole config ask soroban service).1.app
with_endpoint-Explains_example = with_endpoint-Explains whole config ask soroban service

limited : Router ℕ (List String)
limited = (with_endpoint whole config limits soroban service).1

abbrev reply_all : Endpoint ℕ → List String → (Reply ℕ × ℕ) × List String
reply_all e ids = ((replied 5, 10), ids)

refresh_health-heals_example :
    All (λ x. x.status ≡ healthy) (refresh_health whole config reply_all limited).endpoints
refresh_health-heals_example =
    refresh_health-heals whole config reply_all (λ e app. (5, refl)) limited

is_routable-ignores_cooldown_example :
    All
      (λ e.
        is_routable config 5_000 none e
        ≡ (if is_down e.status then false else keeps_up config e.status none e.block_height))
      (refresh_health whole config reply_all
        (with_endpoint whole config limits soroban service).1).endpoints
is_routable-ignores_cooldown_example =
    is_routable-ignores_cooldown whole config ((refl, refl, refl), ((refl, refl, refl), tt))
      (next (next here (calls limits soroban)) (refreshes reply_all)) 5_000 none

abbrev note_kind : Endpoint ℕ → List Kind → (Reply ℕ × ℕ) × List Kind
note_kind e kinds = ((replied 1, 5), e.kind ∷ kinds)

abbrev noting : Router ℕ (List Kind)
noting = record {
  endpoints = registered whole "horizon-1" "https://c" horizon 1 ∷ first ∷ second ∷ [];
  all_degraded = λ k. none;
  clock = 1_000;
  app = [];
}

with_endpoint-keeps_example :
    All
      (λ k. same_kind k soroban ≡ true)
      (with_endpoint whole config note_kind soroban noting).1.app
with_endpoint-keeps_example =
    with_endpoint-keeps whole config note_kind
      (λ kinds. All (λ k. same_kind k soroban ≡ true) kinds) soroban noting (λ e app t h. (t.1, h))
      tt

rank_healthy-head_example :
    (best : RankedEndpoint ℕ) × IsIn whole best
      (map (credited whole) (scored whole first ∷ scored whole second ∷ []))
    × All
        (NotAbove whole best)
        (map (credited whole) (scored whole first ∷ scored whole second ∷ []))
    × HasHead whole (id_of best) (rank_healthy whole config 1_000 soroban service.endpoints).0
rank_healthy-head_example =
    rank_healthy-head whole config 1_000 soroban service.endpoints (scored whole first)
      (scored whole second) [] whole-IsOrdered (unfold routable in refl)
