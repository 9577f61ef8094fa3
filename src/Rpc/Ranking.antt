-- ===== src/Rpc/Ranking.antt =====
-- `rankHealthy` of apps/api/src/soroban/rpc-client.service.ts: a smooth weighted round robin over the
-- endpoints that take calls.
pub mod Candidates
pub mod Selection
use afro_pay_stellar.Prelude.{
  ℕ, max, String, Bool, true, false, not, Option, none, some, List, [], ◌∷◌, map, str_eq,
  if◌then◌else◌,
}
use afro_pay_stellar.Rpc.{Kind, Numbers, Endpoint, RankedEndpoint, Config, routable, update}

-- The stable sort of `Array.prototype.sort`: `before x y` is that comparing `x` with `y` gives no
-- positive number.
unfoldable pub insert_by {ℓ} : {A : Type ℓ} → (A → A → Bool) → A → List A → List A
insert_by before x [] = x ∷ []
insert_by before x (y ∷ ys) =
    let rest = insert_by before x ys in if before x y then x ∷ y ∷ ys else y ∷ rest

unfoldable pub sort_by {ℓ} : {A : Type ℓ} → (A → A → Bool) → List A → List A
unfolding insert_by
sort_by before [] = []
sort_by before (x ∷ xs) = insert_by before x (sort_by before xs)

module _ {N : Type 0} (num : Numbers N) where
  unfoldable pub effective_weight : Endpoint N → N
  effective_weight e =
      let latency : ℕ = elim e.latency_ms [ none ↦ 1_000 | some ms ↦ max ms 1 ] in
      num.mul e.weight (num.div (num.of_ℕ 1_000) (num.of_ℕ latency))

  abbrev pub total_score : List (RankedEndpoint N) → N → N
  total_score [] sum = sum
  total_score (c ∷ cs) sum = total_score cs (num.add sum c.score)

  abbrev pub credit : N → Endpoint N → Endpoint N
  credit score e = record e { routing_balance = num.add e.routing_balance score }

  abbrev pub debit : N → Endpoint N → Endpoint N
  debit total e = record e { routing_balance = num.sub e.routing_balance total }

  abbrev pub credited : RankedEndpoint N → RankedEndpoint N
  credited c = record c { endpoint = credit c.score c.endpoint }

  -- `ranked.reduce(...)`: the first with the highest balance.
  unfoldable pub best_of : RankedEndpoint N → List (RankedEndpoint N) → RankedEndpoint N
  best_of best [] = best
  best_of best (c ∷ cs) =
      best_of (if num.gt c.endpoint.routing_balance best.endpoint.routing_balance then c else best)
        cs

  -- Comparing `a` with `b` gives no positive number.
  unfoldable pub goes_before : String → RankedEndpoint N → RankedEndpoint N → Bool
  goes_before selected a b =
      if str_eq a.endpoint.id selected
      then true
      else (if str_eq b.endpoint.id selected then false else not (num.gt b.score a.score))

  abbrev pub scored : Endpoint N → RankedEndpoint N
  scored e = record { endpoint = e; score = effective_weight e }

  abbrev pub credit_all : List (RankedEndpoint N) → List (Endpoint N) → List (Endpoint N)
  credit_all [] es = es
  credit_all (c ∷ cs) es = credit_all cs (update c.endpoint.id (credit c.score) es)

  abbrev pub debited : String → N → RankedEndpoint N → RankedEndpoint N
  debited selected total c =
      if str_eq c.endpoint.id selected then record c { endpoint = debit total c.endpoint } else c

  -- Two candidates or more: every balance grows by the score, the selected one pays the total.
  unfoldable pub balance :
      RankedEndpoint N
      → List (RankedEndpoint N)
      → List (Endpoint N)
      → List (RankedEndpoint N) × List (Endpoint N)
  unfolding best_of sort_by goes_before
  balance c cs es =
      let total = total_score (c ∷ cs) (num.of_ℕ 0) in
      let selected = (best_of (credited c) (map credited cs)).endpoint.id in
      (
        sort_by (goes_before selected) (map (debited selected total) (map credited (c ∷ cs))),
        update selected (debit total) (credit_all (c ∷ cs) es),
      )

  abbrev pub rank :
      List (RankedEndpoint N) → List (Endpoint N) → List (RankedEndpoint N) × List (Endpoint N)
  rank [] es = ([], es)
  rank (c ∷ []) es = (c ∷ [], es)
  rank (c ∷ d ∷ cs) es = balance c (d ∷ cs) es

  unfoldable pub rank_healthy :
      Config → ℕ → Kind → List (Endpoint N) → List (RankedEndpoint N) × List (Endpoint N)
  unfolding routable effective_weight balance
  rank_healthy config now kind es = rank (map scored (routable config now kind es)) es
