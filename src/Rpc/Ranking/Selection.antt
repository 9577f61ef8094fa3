-- ===== src/Rpc/Ranking/Selection.antt =====
-- The endpoint that `rankHealthy` of apps/api/src/soroban/rpc-client.service.ts selects.
use afro_pay_stellar.Prelude.{
  ℕ, String, ◌≡◌, refl, sym, ap, subst, ◌∙◌, true, false, List, [], ◌∷◌, map, All, Bool-cases, inl,
  inr, str_eq, str_eq_iff, ◌⊎◌,
}
use afro_pay_stellar.Rpc.{Kind, Numbers, Endpoint, RankedEndpoint, Config, routable}
use afro_pay_stellar.Rpc.Ranking.{
  insert_by, sort_by, credited, debited, goes_before, balance, scored, rank_healthy, best_of,
  total_score,
}
use afro_pay_stellar.Rpc.Ranking.Candidates.{id_of, id_of-debited}

-- What comparing numbers does when none is NaN.
pub record IsOrdered {N : Type 0} (num : Numbers N) : Type 0 where
  pub gt_irrefl : (a : N) → num.gt a a ≡ false
  pub gt_mono : (a b c : N) → num.gt c b ≡ true → num.gt a b ≡ false → num.gt a c ≡ false

module _ {N : Type 0} (num : Numbers N) where
  abbrev pub NotAbove : RankedEndpoint N → RankedEndpoint N → Type 0
  NotAbove best c = num.gt c.endpoint.routing_balance best.endpoint.routing_balance ≡ false

  abbrev pub IsIn : RankedEndpoint N → List (RankedEndpoint N) → Type 0
  IsIn x [] = ⊥
  IsIn x (c ∷ cs) = (x ≡ c) ⊎ IsIn x cs

  best_of-higher :
      (best c : RankedEndpoint N) (cs : List (RankedEndpoint N))
      → num.gt c.endpoint.routing_balance best.endpoint.routing_balance ≡ true
      → best_of num best (c ∷ cs) ≡ best_of num c cs
  unfolding best_of
  best_of-higher best c cs e = rw e refl

  best_of-lower :
      (best c : RankedEndpoint N) (cs : List (RankedEndpoint N))
      → num.gt c.endpoint.routing_balance best.endpoint.routing_balance ≡ false
      → best_of num best (c ∷ cs) ≡ best_of num best cs
  unfolding best_of
  best_of-lower best c cs e = rw e refl

  module _ (ordered : IsOrdered num) where
    best_of-above :
        (best x : RankedEndpoint N) (cs : List (RankedEndpoint N))
        → NotAbove best x
        → NotAbove (best_of num best cs) x
    unfolding best_of
    best_of-above best x [] h = h
    best_of-above best x (c ∷ cs) h =
        elim (Bool-cases (num.gt c.endpoint.routing_balance best.endpoint.routing_balance)) [
          | inl e ↦
              subst (λ b. NotAbove b x) (sym (best_of-higher best c cs e))
                (best_of-above c x cs (
                  ordered.gt_mono x.endpoint.routing_balance best.endpoint.routing_balance
                    c.endpoint.routing_balance e h))
          | inr e ↦
              subst (λ b. NotAbove b x) (sym (best_of-lower best c cs e))
                (best_of-above best x cs h)
        ]

    best_of-highest :
        (best : RankedEndpoint N) (cs : List (RankedEndpoint N))
        → All (NotAbove (best_of num best cs)) cs
    unfolding best_of
    best_of-highest best [] = tt
    best_of-highest best (c ∷ cs) =
        elim (Bool-cases (num.gt c.endpoint.routing_balance best.endpoint.routing_balance)) [
          | inl e ↦
              subst (λ b. All (NotAbove b) (c ∷ cs)) (sym (best_of-higher best c cs e))
                (
                  best_of-above c c cs (ordered.gt_irrefl c.endpoint.routing_balance),
                  best_of-highest c cs,
                )
          | inr e ↦
              subst (λ b. All (NotAbove b) (c ∷ cs)) (sym (best_of-lower best c cs e))
                (best_of-above best c cs e, best_of-highest best cs)
        ]

  best_of-IsIn :
      (best : RankedEndpoint N) (cs : List (RankedEndpoint N))
      → IsIn (best_of num best cs) (best ∷ cs)
  unfolding best_of
  best_of-IsIn best [] = inl refl
  best_of-IsIn best (c ∷ cs) =
      elim (Bool-cases (num.gt c.endpoint.routing_balance best.endpoint.routing_balance)) [
        | inl e ↦
            subst (λ b. IsIn b (best ∷ c ∷ cs)) (sym (best_of-higher best c cs e))
              (inr (best_of-IsIn c cs))
        | inr e ↦
            subst (λ b. IsIn b (best ∷ c ∷ cs)) (sym (best_of-lower best c cs e))
              (elim (best_of-IsIn best cs) [ inl h ↦ inl h | inr h ↦ inr (inr h) ])
      ]

  abbrev pub HasHead : String → List (RankedEndpoint N) → Type 0
  HasHead selected [] = ⊥
  HasHead selected (c ∷ cs) = id_of c ≡ selected

  abbrev HasId : String → List (RankedEndpoint N) → Type 0
  HasId selected [] = ⊥
  HasId selected (c ∷ cs) = (id_of c ≡ selected) ⊎ HasId selected cs

  insert_by-selected :
      (selected : String) (c : RankedEndpoint N) (cs : List (RankedEndpoint N))
      → id_of c ≡ selected
      → HasHead selected (insert_by (goes_before num selected) c cs)
  unfolding insert_by goes_before
  insert_by-selected selected c [] h = h
  insert_by-selected selected c (d ∷ cs) h = rw ((str_eq_iff c.endpoint.id selected).1 h) h

  insert_by-other :
      (selected : String) (c : RankedEndpoint N) (cs : List (RankedEndpoint N))
      → HasHead selected cs
      → HasHead selected (insert_by (goes_before num selected) c cs)
  unfolding insert_by goes_before
  insert_by-other selected c [] h = elim h [ ]
  insert_by-other selected c (d ∷ cs) h = elim (Bool-cases (str_eq c.endpoint.id selected)) [
    | inl e ↦ rw e ((str_eq_iff c.endpoint.id selected).0 e)
    | inr e ↦ rw (e, (str_eq_iff d.endpoint.id selected).1 h) h
  ]

  sort_by-head :
      (selected : String) (cs : List (RankedEndpoint N))
      → HasId selected cs
      → HasHead selected (sort_by (goes_before num selected) cs)
  unfolding sort_by
  sort_by-head selected [] h = elim h [ ]
  sort_by-head selected (c ∷ cs) (inl h) = insert_by-selected selected c _ h
  sort_by-head selected (c ∷ cs) (inr h) =
      insert_by-other selected c (sort_by (goes_before num selected) cs)
        (sort_by-head selected cs h)

  debited-HasId :
      (selected : String) (total : N) (best : RankedEndpoint N) (cs : List (RankedEndpoint N))
      → id_of best ≡ selected
      → IsIn best cs
      → HasId selected (map (debited num selected total) cs)
  debited-HasId selected total best [] h k = elim k [ ]
  debited-HasId selected total best (c ∷ cs) h (inl e) =
      inl (id_of-debited num selected total c ∙ sym (ap id_of e) ∙ h)
  debited-HasId selected total best (c ∷ cs) h (inr k) =
      inr (debited-HasId selected total best cs h k)

  balance-head :
      (c : RankedEndpoint N) (cs : List (RankedEndpoint N)) (es : List (Endpoint N))
      → HasHead
          (id_of (best_of num (credited num c) (map (credited num) cs)))
          (balance num c cs es).0
  unfolding balance
  balance-head c cs es =
      let best = best_of num (credited num c) (map (credited num) cs) in
      sort_by-head (id_of best)
        (map (debited num (id_of best) (total_score num (c ∷ cs) (num.of_ℕ 0)))
          (map (credited num) (c ∷ cs)))
        (debited-HasId (id_of best) (total_score num (c ∷ cs) (num.of_ℕ 0)) best
          (map (credited num) (c ∷ cs)) refl
          (best_of-IsIn (credited num c) (map (credited num) cs)))

  -- When two endpoints or more take calls, the first candidate is one whose balance, with its score
  -- credited, no other endpoint's exceeds. (Comparing numbers is an order.)
  pub rank_healthy-head :
      (config : Config) (now : ℕ) (kind : Kind) (es : List (Endpoint N)) (c d : RankedEndpoint N)
      (cs : List (RankedEndpoint N))
      → IsOrdered num
      → map (scored num) (routable config now kind es) ≡ c ∷ d ∷ cs
      → (best : RankedEndpoint N) × IsIn best (map (credited num) (c ∷ d ∷ cs))
        × All (NotAbove best) (map (credited num) (c ∷ d ∷ cs))
        × HasHead (id_of best) (rank_healthy num config now kind es).0
  unfolding rank_healthy
  rank_healthy-head config now kind es c d cs ordered h =
      let best = best_of num (credited num c) (map (credited num) (d ∷ cs)) in
      let total = total_score num (c ∷ d ∷ cs) (num.of_ℕ 0) in
      let among = best_of-IsIn (credited num c) (map (credited num) (d ∷ cs)) in
      (
        best,
        among,
        (
          best_of-above ordered (credited num c) (credited num c) (map (credited num) (d ∷ cs))
              (ordered.gt_irrefl (credited num c).endpoint.routing_balance),
          best_of-highest ordered (credited num c) (map (credited num) (d ∷ cs)),
        ),
        rw h (balance-head c (d ∷ cs) es),
      )
