-- ===== src/Liquidity/Report.antt =====
-- liquidity.service.ts: the worker's reports on a rebalance.
use afro_pay_stellar.Prelude.{String, true, none, some, ◌∷◌}
use afro_pay_stellar.Liquidity.{
  LiquidityServices, LiquidityState, LiquidityExecutionResult, replace,
}
use afro_pay_stellar.Liquidity.Results.{reported}

module _ (env : LiquidityServices) where
  -- the report of a success under a hash
  abbrev pub succeeded : String → LiquidityExecutionResult
  succeeded hash = record { success = true; tx_hash = some hash; error = none }

  abbrev pub after_success : String → String → LiquidityState env → LiquidityState env
  after_success id hash s = record s {
    rows = replace env id (reported env (succeeded hash)) s.rows;
    audit =
        record {
          operation = "LIQUIDITY_REBALANCE_EXECUTED";
          outcome = "SUCCESS";
          rebalance_id = id;
          tx_hash = some hash;
        }
        ∷ s.audit;
  }
