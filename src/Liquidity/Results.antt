-- ===== src/Liquidity/Results.antt =====
-- `recordExecutionResult` of apps/api/src/reconciliation/liquidity.service.ts: the worker's report.
use afro_pay_stellar.Prelude.{
  String, Bool, false, not, ◌&&◌, Option, none, some, List, [], ◌∷◌, str_eq, if◌then◌else◌,
  not_found, bad_request, conflict, Exec, ◌>>=◌, ◌>>◌, pure, gets, or_throw, throw_if,
}
use afro_pay_stellar.Liquidity.{
  executed, failed, Rebalance, LiquidityExecutionResult, LiquidityServices, LiquidityState,
  is_executing, is_executed, update_row, log_event,
}

module _ (env : LiquidityServices) where
  abbrev pub find_row :
      String → List (Rebalance env.amounts.Amount) → Option (Rebalance env.amounts.Amount)
  find_row id [] = none
  find_row id (r ∷ rs) = let rest = find_row id rs in if str_eq r.id id then some r else rest

  -- `current.txHash === result.txHash`, a null on the left, an undefined on the right
  abbrev pub same_hash : Option String → Option String → Bool
  same_hash none b = false
  same_hash (some a) none = false
  same_hash (some a) (some b) = str_eq a b

  -- A hash that is neither missing nor empty.
  abbrev has_hash : Option String → Bool
  has_hash none = false
  has_hash (some h) = not (str_eq h "")

  -- `data` of the update
  abbrev pub reported :
      LiquidityExecutionResult → Rebalance env.amounts.Amount → Rebalance env.amounts.Amount
  reported result r =
      if result.success
      then record r { status = executed; tx_hash = result.tx_hash }
      else record r { status = failed; failed_because = result.error }

  abbrev pub report_event : String → LiquidityExecutionResult → Exec (LiquidityState env) (Unit {0})
  report_event id result =
      if result.success
      then log_event env "LIQUIDITY_REBALANCE_EXECUTED" "SUCCESS" id result.tx_hash
      else log_event env "LIQUIDITY_REBALANCE_FAILED" "FAILURE" id result.tx_hash

  abbrev pub settle :
      String
      → LiquidityExecutionResult
      → Rebalance env.amounts.Amount
      → Exec (LiquidityState env) (Rebalance env.amounts.Amount)
  settle id result current = do
    throw_if (not (is_executing current.status)) conflict
    throw_if (result.success && not (has_hash result.tx_hash)) bad_request
    update_row env id (reported result)
    report_event id result
    pure (reported result current)

  unfoldable pub record_execution_result :
      String → LiquidityExecutionResult → Exec (LiquidityState env) (Rebalance env.amounts.Amount)
  record_execution_result id result = do
    found ← gets (λ s. find_row id s.rows)
    current ← or_throw found not_found
    if is_executed current.status && same_hash current.tx_hash result.tx_hash
        then pure current
        else settle id result current
