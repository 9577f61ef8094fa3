-- ===== src/Liquidity/Tests.antt =====
-- Checks of one corridor, with amounts as natural numbers.
use afro_pay_stellar.Prelude.{
  ℕ, ◌≤◌, min, ltb, leb, ◌*◌, ◌/◌, ◌-◌, true, none, List, [], ◌∷◌, ok, arith,
}
use afro_pay_stellar.Liquidity.{
  Amounts, Corridor, Rebalance, LiquidityServices, LiquidityState, executing, daily_count,
}
use afro_pay_stellar.Liquidity.Daily.{Check, check_all, check_all-le}

abbrev amounts : Amounts
amounts = record {
  Amount = ℕ;
  none_at_all = 0;
  is_healthy = λ reserve forecast. leb forecast (5 * reserve);
  shortfall = λ reserve forecast. forecast / 5 - reserve;
  left = λ ns. 100_000;
  least = min;
  is_positive = λ n. ltb 0 n;
  to_source = λ n. n;
  round = λ n. n;
}

abbrev services : LiquidityServices
services = record {
  amounts = amounts;
  max_rebalances = 1;
  has_config = λ c. true;
  Queue = List (Rebalance ℕ);
  dispatch = λ r q. (ok r.id, r ∷ q);
}

abbrev corridor : Corridor
corridor = record { name = "USDC:NGN"; from_asset = "USDC"; to_asset = "NGN" }

abbrev check : Check services
check = record { id = "r1"; corridor = corridor; reserve = 100; forecast = 5_000; now = 9 }

abbrev empty : LiquidityState services
empty = record { rows = []; queue = []; observations = []; audit = [] }

check_all-le_example :
    daily_count "USDC:NGN" 0 (check_all services 0 (check ∷ check ∷ []) empty).rows ≤ 1
check_all-le_example = check_all-le services 0 "USDC:NGN" (check ∷ check ∷ []) empty (omega arith)

abbrev row : Rebalance ℕ
row = record {
  id = "r1";
  corridor = corridor;
  source_amount = 500;
  amount = 500;
  status = executing;
  skip_reason = none;
  tx_hash = none;
  failed_because = none;
  created_at = 9;
}

abbrev one : LiquidityState services
one = record { rows = row ∷ []; queue = []; observations = []; audit = [] }
