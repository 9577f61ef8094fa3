-- ===== src/Kyc/Spent.antt =====
-- What a user has spent today, in apps/api/src/kyc/kyc.service.ts, and the check of an amount in
-- apps/api/src/kyc/kyc.guard.ts. The conversions of JavaScript and the rates of the anchor are
-- arguments; the rows are those that the database returns for the day.
use afro_pay_stellar.Prelude.{
  String, Bool, true, false, not, ◌&&◌, ◌||◌, Option, none, some, List, [], ◌∷◌, str_eq,
  if◌then◌else◌, bad_request, Result, ok, err, Exec, throw, unauthorized, pure, lift, ◌>>=◌, ◌>>◌,
}
use afro_pay_stellar.Rpc.{Numbers}
use afro_pay_stellar.Kyc.Upload.{KycServices, KycState}
use afro_pay_stellar.Kyc.Limits.{assert_within_daily_limit}

-- `parse_float` gives none for NaN, `get_fx_rate` none where there is no rate or it is zero.
pub record Amounts (N : Type 0) : Type 0 where
  pub numbers : Numbers N
  pub parse_float : String → Option N
  pub trim_upper : String → String
  pub get_fx_rate : String → Option N

-- A row with the status SUCCESS of today.
pub record SpentTx : Type 0 where
  pub amount : String
  pub asset_code : String

module _ {N : Type 0} (amounts : Amounts N) where
  abbrev converted : N → Option N → Result N
  converted n none = err bad_request
  converted n (some rate) = ok (amounts.numbers.mul n rate)

  abbrev to_usd : N → String → Result N
  to_usd n asset =
      if str_eq asset "USD" || str_eq asset "USDC"
      then ok n
      else converted n (amounts.get_fx_rate asset)

  abbrev of_asset : N → String → Result N
  of_asset n asset =
      if str_eq asset "" then err bad_request else to_usd n (amounts.trim_upper asset)

  abbrev of_amount : Option N → String → Result N
  of_amount none asset = err bad_request
  of_amount (some n) asset =
      if amounts.numbers.gt (amounts.numbers.of_ℕ 0) n then err bad_request else of_asset n asset

  abbrev pub normalize_amount_to_usd : String → String → Result N
  normalize_amount_to_usd amount asset = of_amount (amounts.parse_float amount) asset

  abbrev pub after_value : N → Result (List N) → Result (List N)
  after_value v (ok vs) = ok (v ∷ vs)
  after_value v (err e) = err e

  abbrev pub and_then : Result N → Result (List N) → Result (List N)
  and_then (ok v) rest = after_value v rest
  and_then (err e) rest = err e

  -- `Promise.all` over the conversions.
  abbrev pub normalize_all : List SpentTx → Result (List N)
  normalize_all [] = ok []
  normalize_all (t ∷ ts) =
      and_then (normalize_amount_to_usd t.amount t.asset_code) (normalize_all ts)

  abbrev pub sum_from : N → List N → N
  sum_from sum [] = sum
  sum_from sum (v ∷ vs) = sum_from (amounts.numbers.add sum v) vs

  abbrev pub summed : Result (List N) → Result N
  summed (ok vs) = ok (sum_from (amounts.numbers.of_ℕ 0) vs)
  summed (err e) = err e

  abbrev pub get_daily_spent : List SpentTx → Result N
  get_daily_spent rows = summed (normalize_all rows)

module _ {N : Type 0} (amounts : Amounts N) where
  abbrev pub is_above_zero : Option N → Bool
  is_above_zero none = false
  is_above_zero (some n) = amounts.numbers.gt n (amounts.numbers.of_ℕ 0)

  -- Not `!amount || amount <= 0 || !assetCode`.
  abbrev pub has_amount : SpentTx → Bool
  has_amount tx = is_above_zero (amounts.parse_float tx.amount) && not (str_eq tx.asset_code "")

-- The guard prints the number that it has parsed and parses it again, which gives the same number.
unfoldable pub check_amount :
    (env : KycServices) {N : Type 0}
    → Amounts N
    → List SpentTx
    → String
    → SpentTx
    → Exec (KycState env) Bool
check_amount env amounts rows user tx = if not (has_amount amounts tx) then pure true else do
  usd ← lift (normalize_amount_to_usd amounts tx.amount tx.asset_code)
  assert_within_daily_limit env amounts.numbers (λ u. get_daily_spent amounts rows) user usd
  pure true

-- `canActivate`: a request without a user is refused.
unfoldable pub can_activate :
    (env : KycServices) {N : Type 0}
    → Amounts N
    → List SpentTx
    → Option String
    → SpentTx
    → Exec (KycState env) Bool
can_activate env amounts rows none tx = throw unauthorized
can_activate env amounts rows (some user) tx = check_amount env amounts rows user tx
