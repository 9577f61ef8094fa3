-- ===== src/Rpc/Ranking/Candidates.antt =====
-- The candidates of `rankHealthy` in apps/api/src/soroban/rpc-client.service.ts.
use afro_pay_stellar.Prelude.{
  ℕ, String, ◌≡◌, refl, sym, Bool, true, Option, List, [], ◌∷◌, map, filter, All, All-filter,
  filter-All, All-and, All-over, Bool-cases, inl, inr, str_eq,
}
use mathlib.Core.List.{Perm}
use mathlib.Core.List.Perm
use afro_pay_stellar.Rpc.{
  Kind, Numbers, Endpoint, RankedEndpoint, Config, is_routable, same_kind, highest_block, routable,
  of_kind,
}
use afro_pay_stellar.Rpc.Ranking.{
  insert_by, sort_by, credited, debited, best_of, total_score, goes_before, rank, balance, scored,
  rank_healthy,
}

abbrev pub id_of : {N : Type 0} → RankedEndpoint N → String
id_of c = c.endpoint.id

insert_by-perm {ℓ} :
    {A : Type ℓ} (before : A → A → Bool) (x : A) (ys : List A)
    → Perm (insert_by before x ys) (x ∷ ys)
unfolding insert_by
insert_by-perm before x [] = Perm.rfl
insert_by-perm before x (y ∷ ys) = elim (Bool-cases (before x y)) [
  | inl h ↦ rw (h, insert_by) Perm.rfl
  | inr h ↦
      rw (h, insert_by) (Perm.trans (Perm.cons y (insert_by-perm before x ys)) (Perm.swap x y ys))
]

sort_by-perm {ℓ} : {A : Type ℓ} (before : A → A → Bool) (xs : List A) → Perm (sort_by before xs) xs
unfolding sort_by
sort_by-perm before [] = Perm.rfl
sort_by-perm before (x ∷ xs) =
    Perm.trans (insert_by-perm before x (sort_by before xs)) (Perm.cons x (sort_by-perm before xs))

module _ {N : Type 0} (num : Numbers N) where
  pub id_of-debited :
      (selected : String) (total : N) (c : RankedEndpoint N)
      → id_of (debited num selected total c) ≡ id_of c
  id_of-debited selected total c = elim (Bool-cases (str_eq c.endpoint.id selected)) [
    | inl h ↦ rw h refl
    | inr h ↦ rw h refl
  ]

  ids-debited :
      (selected : String) (total : N) (cs : List (RankedEndpoint N))
      → map id_of (map (debited num selected total) (map (credited num) cs)) ≡ map id_of cs
  ids-debited selected total [] = refl
  ids-debited selected total (c ∷ cs) =
      rw (id_of-debited selected total (credited num c), ids-debited selected total cs) refl

  sorted-ids :
      (selected : String) (total : N) (cs : List (RankedEndpoint N))
      → Perm
          (map id_of (
            sort_by
              (goes_before num selected)
              (map (debited num selected total) (map (credited num) cs))))
          (map id_of cs)
  sorted-ids selected total cs =
      Perm.trans (Perm.map id_of (sort_by-perm (goes_before num selected) _))
        (rw (ids-debited selected total cs) Perm.rfl)

  rank-ids :
      (cs : List (RankedEndpoint N)) (es : List (Endpoint N))
      → Perm (map id_of (rank num cs es).0) (map id_of cs)
  unfolding balance
  rank-ids [] es = Perm.rfl
  rank-ids (c ∷ []) es = Perm.rfl
  rank-ids (c ∷ d ∷ cs) es = sorted-ids _ _ (c ∷ d ∷ cs)

  ids-scored : (es : List (Endpoint N)) → map id_of (map (scored num) es) ≡ map (λ e. e.id) es
  ids-scored [] = refl
  ids-scored (e ∷ es) = rw (ids-scored es) refl

  -- The candidates are the endpoints of the kind that take calls, each once, in some order.
  pub rank_healthy-ids :
      (config : Config) (now : ℕ) (kind : Kind) (es : List (Endpoint N))
      → Perm
          (map id_of (rank_healthy num config now kind es).0)
          (map (λ e. e.id) (routable config now kind es))
  unfolding rank_healthy
  rank_healthy-ids config now kind es =
      rw (sym (ids-scored (routable config now kind es)))
        (rank-ids (map (scored num) (routable config now kind es)) es)

-- The choice of endpoints that take calls, and its balances.
abbrev pub TakesCalls : {N : Type 0} → Config → ℕ → Option ℕ → Kind → Endpoint N → Type 0
TakesCalls config now highest kind e =
    (is_routable config now highest e ≡ true) × (same_kind e.kind kind ≡ true)

All-insert_by {ℓ} :
    {A : Type ℓ} (P : A → Type 0) (before : A → A → Bool) (x : A) (ys : List A)
    → P x
    → All P ys
    → All P (insert_by before x ys)
unfolding insert_by
All-insert_by P before x [] h k = (h, tt)
All-insert_by P before x (y ∷ ys) h k = elim (Bool-cases (before x y)) [
  | inl e ↦ rw (e, insert_by) (h, k)
  | inr e ↦ rw (e, insert_by) (k.0, All-insert_by P before x ys h k.1)
]

All-sort_by {ℓ} :
    {A : Type ℓ} (P : A → Type 0) (before : A → A → Bool) (xs : List A)
    → All P xs
    → All P (sort_by before xs)
unfolding sort_by
All-sort_by P before [] h = tt
All-sort_by P before (x ∷ xs) h = All-insert_by P before x _ h.0 (All-sort_by P before xs h.1)

module _ {N : Type 0} (num : Numbers N) (config : Config) (now : ℕ) (highest : Option ℕ)
    (kind : Kind) where
  abbrev pub GoodCandidate : RankedEndpoint N → Type 0
  GoodCandidate c = TakesCalls config now highest kind c.endpoint

  debited-Good :
      (selected : String) (total : N) (c : RankedEndpoint N)
      → GoodCandidate c
      → GoodCandidate (debited num selected total (credited num c))
  unfolding is_routable
  debited-Good selected total c h = elim (Bool-cases (str_eq c.endpoint.id selected)) [
    | inl e ↦ rw e h
    | inr e ↦ rw e h
  ]

  All-debited :
      (selected : String) (total : N) (cs : List (RankedEndpoint N))
      → All GoodCandidate cs
      → All GoodCandidate (map (debited num selected total) (map (credited num) cs))
  All-debited selected total [] h = tt
  All-debited selected total (c ∷ cs) h =
      (debited-Good selected total c h.0, All-debited selected total cs h.1)

  rank-Good :
      (cs : List (RankedEndpoint N)) (es : List (Endpoint N))
      → All GoodCandidate cs
      → All GoodCandidate (rank num cs es).0
  unfolding balance
  rank-Good [] es h = tt
  rank-Good (c ∷ []) es h = h
  rank-Good (c ∷ d ∷ cs) es h =
      let selected = (best_of num (credited num c) (map (credited num) (d ∷ cs))).endpoint.id in
      let total = total_score num (c ∷ d ∷ cs) (num.of_ℕ 0) in
      All-sort_by GoodCandidate (goes_before num selected)
        (map (debited num selected total) (map (credited num) (c ∷ d ∷ cs)))
        (All-debited selected total (c ∷ d ∷ cs) h)

module _ {N : Type 0} (num : Numbers N) (config : Config) where
  pub rank_healthy-TakesCalls :
      (now : ℕ) (kind : Kind) (es : List (Endpoint N))
      → All
          (λ c. TakesCalls config now (highest_block kind es) kind c.endpoint)
          (rank_healthy num config now kind es).0
  unfolding rank_healthy routable
  rank_healthy-TakesCalls now kind es =
      let p = is_routable config now (highest_block kind es) in
      rank-Good num config now (highest_block kind es) kind
        (map (scored num) (filter p (of_kind kind es))) es
        (All-over (λ c. TakesCalls config now (highest_block kind es) kind c.endpoint) (scored num)
          (λ e h. h) (filter p (of_kind kind es))
          (All-and (λ e. p e ≡ true) (λ e. same_kind e.kind kind ≡ true)
            (filter p (of_kind kind es)) (All-filter p (of_kind kind es))
            (filter-All (λ e. same_kind e.kind kind ≡ true) p (of_kind kind es)
              (All-filter (λ e. same_kind e.kind kind) es))))
