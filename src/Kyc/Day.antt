-- ===== src/Kyc/Day.antt =====
-- Transfers of a day that settle one after the other, against the limit of
-- apps/api/src/kyc/kyc.service.ts.
use afro_pay_stellar.Prelude.{
  ℕ, All, some, ltb, String, ◌≡◌, refl, ap, ◌∙◌, Bool, true, false, Bool-cases, inl, inr, List, [],
  ◌∷◌, ◌++◌, if◌then◌else◌, Error, forbidden, Result, ok, err, Result-cases, ◌>>=◌,
}
use afro_pay_stellar.Kyc.{KycTier, none_tier, basic, full}
use afro_pay_stellar.Kyc.Upload.{KycServices, KycState}
use afro_pay_stellar.Kyc.Limits.{get_limit_for_tier, tier_of, assert_within_daily_limit}
use afro_pay_stellar.Kyc.Spent.{
  Amounts, SpentTx, normalize_amount_to_usd, and_then, normalize_all, sum_from, summed,
  get_daily_spent, check_amount, can_activate, has_amount,
}

not_below : (t : KycTier) → ltb (get_limit_for_tier t) 0 ≡ false
not_below none_tier = refl
not_below basic = refl
not_below full = refl

module _ {N : Type 0} (amounts : Amounts N) where
  and_then-append :
      (r : Result N) (rest longer : Result (List N)) (vs : List N) (v : N)
      → ((ws : List N) → rest ≡ ok ws → longer ≡ ok (ws ++ v ∷ []))
      → and_then amounts r rest ≡ ok vs
      → and_then amounts r longer ≡ ok (vs ++ v ∷ [])
  and_then-append (err e) rest longer vs v k h = absurd (cc h)
  and_then-append (ok w) (err e) longer vs v k h = absurd (cc h)
  and_then-append (ok w) (ok ws) longer vs v k h =
      let e : w ∷ ws ≡ vs = cc h in rw (k ws refl) (ap (λ l. ok (l ++ v ∷ [])) e)

  normalize_all-append :
      (xs : List SpentTx) (t : SpentTx) (vs : List N) (v : N)
      → normalize_all amounts xs ≡ ok vs
      → normalize_amount_to_usd amounts t.amount t.asset_code ≡ ok v
      → normalize_all amounts (xs ++ t ∷ []) ≡ ok (vs ++ v ∷ [])
  normalize_all-append [] t vs v h k = let e : [] ≡ vs = cc h in rw k (ap (λ l. ok (l ++ v ∷ [])) e)
  normalize_all-append (x ∷ xs) t vs v h k =
      and_then-append (normalize_amount_to_usd amounts x.amount x.asset_code)
        (normalize_all amounts xs) (normalize_all amounts (xs ++ t ∷ [])) vs v
        (λ ws e. normalize_all-append xs t ws v e k) h

  sum_from-append :
      (vs : List N) (v sum : N)
      → sum_from amounts sum (vs ++ v ∷ []) ≡ amounts.numbers.add (sum_from amounts sum vs) v
  sum_from-append [] v sum = refl
  sum_from-append (x ∷ xs) v sum = sum_from-append xs v (amounts.numbers.add sum x)

  summed-append :
      (r : Result (List N)) (total v : N)
      → summed amounts r ≡ ok total
      → (vs : List N) × ((r ≡ ok vs)
          × (summed amounts (ok (vs ++ v ∷ [])) ≡ ok (amounts.numbers.add total v)))
  summed-append (err e) total v h = absurd (cc h)
  summed-append (ok vs) total v h =
      let e : sum_from amounts (amounts.numbers.of_ℕ 0) vs ≡ total = cc h in
      (vs, (refl, ap ok (sum_from-append vs v (amounts.numbers.of_ℕ 0)) ∙ rw e refl))

  get_daily_spent-append :
      (rows : List SpentTx) (t : SpentTx) (total v : N)
      → get_daily_spent amounts rows ≡ ok total
      → normalize_amount_to_usd amounts t.amount t.asset_code ≡ ok v
      → get_daily_spent amounts (rows ++ t ∷ []) ≡ ok (amounts.numbers.add total v)
  get_daily_spent-append rows t total v h k =
      let (vs, (e, sum)) = summed-append (normalize_all amounts rows) total v h in
      ap (summed amounts) (normalize_all-append rows t vs v e k) ∙ sum

  module _ (env : KycServices) (user : String) (s : KycState env) where
    -- A transfer that is accepted becomes the newest row of the day.
    abbrev pub settled_if : Result Bool → SpentTx → List SpentTx → List SpentTx
    settled_if (ok b) t rows = rows ++ t ∷ []
    settled_if (err e) t rows = rows

    abbrev pub settle_all : List SpentTx → List SpentTx → List SpentTx
    settle_all [] rows = rows
    settle_all (t ∷ ts) rows =
        settle_all ts (settled_if (can_activate env amounts rows (some user) t s).0 t rows)

    abbrev pub limit : N
    limit = amounts.numbers.of_ℕ (get_limit_for_tier (tier_of env user s))

    abbrev pub Within : List SpentTx → Type 0
    Within rows =
        (total : N) × ((get_daily_spent amounts rows ≡ ok total)
          × (amounts.numbers.gt total limit ≡ false))

    checked :
        (t : SpentTx) (rows : List SpentTx) (v total : N)
        → has_amount amounts t ≡ true
        → normalize_amount_to_usd amounts t.amount t.asset_code ≡ ok v
        → get_daily_spent amounts rows ≡ ok total
        → (can_activate env amounts rows (some user) t s).0 ≡ (
            if amounts.numbers.gt (amounts.numbers.add total v) limit
            then err forbidden
            else ok true)
    unfolding can_activate check_amount assert_within_daily_limit ◌>>=◌
    checked t rows v total given h k =
        elim (Bool-cases (amounts.numbers.gt (amounts.numbers.add total v) limit)) [
          | inl e ↦ rw (given, h, k, e) refl
          | inr e ↦ rw (given, h, k, e) refl
        ]

    unchecked :
        (t : SpentTx) (rows : List SpentTx) (e : Error)
        → has_amount amounts t ≡ true
        → normalize_amount_to_usd amounts t.amount t.asset_code ≡ err e
        → (can_activate env amounts rows (some user) t s).0 ≡ err e
    unfolding can_activate check_amount ◌>>=◌
    unchecked t rows e given h = rw (given, h) refl

    settled_if-Within :
        (t : SpentTx) (rows : List SpentTx)
        → has_amount amounts t ≡ true
        → Within rows
        → Within (settled_if (can_activate env amounts rows (some user) t s).0 t rows)
    settled_if-Within t rows given (total, (spent, low)) =
        elim (Result-cases (normalize_amount_to_usd amounts t.amount t.asset_code)) [
          | inr (e, h) ↦ rw (unchecked t rows e given h) (total, (spent, low))
          | inl (v, h) ↦
              elim (Bool-cases (amounts.numbers.gt (amounts.numbers.add total v) limit)) [
                | inl above ↦ rw (checked t rows v total given h spent, above) (total, (spent, low))
                | inr below ↦
                    rw (checked t rows v total given h spent, below)
                      (
                        amounts.numbers.add total v,
                        (get_daily_spent-append rows t total v spent h, below),
                      )
              ]
        ]

    settle_all-keeps :
        (ts rows : List SpentTx)
        → All (λ t. has_amount amounts t ≡ true) ts
        → Within rows
        → Within (settle_all ts rows)
    settle_all-keeps [] rows given h = h
    settle_all-keeps (t ∷ ts) rows given h =
        settle_all-keeps ts (settled_if (can_activate env amounts rows (some user) t s).0 t rows)
          given.1 (settled_if-Within t rows given.0 h)

-- Of any transfers of a day with amounts above zero and an asset each (the guard lets all others pass
-- unchecked), each checked when those that were accepted before it have settled and are
-- the rows of the day, in order, the accepted ones have a sum, and the sum is not above the limit of
-- the user's tier. It is assumed that the comparison of amounts is that of numbers on whole ones.
pub settle_all-Within :
    {N : Type 0} (amounts : Amounts N) (env : KycServices) (user : String) (s : KycState env)
    → ((a b : ℕ) → amounts.numbers.gt (amounts.numbers.of_ℕ a) (amounts.numbers.of_ℕ b) ≡ ltb b a)
    → (ts : List SpentTx) → All (λ t. has_amount amounts t ≡ true) ts
    → Within amounts env user s (settle_all amounts env user s ts [])
settle_all-Within amounts env user s compares ts given =
    settle_all-keeps amounts env user s ts [] given (
      amounts.numbers.of_ℕ 0,
      (refl, compares 0 (get_limit_for_tier (tier_of env user s)) ∙ not_below (tier_of env user s)),
    )
