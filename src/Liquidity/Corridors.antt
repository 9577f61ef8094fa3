-- ===== src/Liquidity/Corridors.antt =====
-- `checkCorridor` of apps/api/src/reconciliation/liquidity.service.ts: the observation, the guards, and
-- the hand-over of a rebalance to its executor.
use afro_pay_stellar.Prelude.{
  ℕ, String, not, none, some, ◌∷◌, if◌then◌else◌, Error, Result, ok, err, Exec, ◌>>=◌, ◌>>◌, pure,
  throw, gets, modify,
}
use afro_pay_stellar.Liquidity.{
  RebalanceStatus, planned, executing, failed, skipped, SkipReason, config_error, Corridor,
  Rebalance, LiquidityServices, Checked, healthy, checked, LiquidityState, Guard, refused, allowed,
  check_rebalance_guards, new_row, add_row, update_row, log_event,
}

module _ (env : LiquidityServices) where
  unfoldable pub skip :
      String → Corridor → ℕ → SkipReason → Exec (LiquidityState env) RebalanceStatus
  skip id c now reason = do
    add_row env
        (new_row env id c now env.amounts.none_at_all env.amounts.none_at_all skipped (some reason))
    pure skipped

  abbrev pub dispatched : Rebalance env.amounts.Amount → Exec (LiquidityState env) String
  dispatched r s =
      let (answer, queue) = env.dispatch r s.queue in (answer, record s { queue = queue })

  abbrev pub fail_with : Error → Rebalance env.amounts.Amount → Rebalance env.amounts.Amount
  fail_with e r = record r { status = failed; failed_because = some e }

  abbrev pub set_executing : Rebalance env.amounts.Amount → Rebalance env.amounts.Amount
  set_executing r = record r { status = executing }

  abbrev pub or_fail : String → Result String → Exec (LiquidityState env) RebalanceStatus
  or_fail id (ok job) = do
    log_event env "LIQUIDITY_REBALANCE_DISPATCHED" "SUCCESS" id none
    pure executing
  or_fail id (err e) = do
    update_row env id (fail_with e)
    log_event env "LIQUIDITY_REBALANCE_FAILED" "FAILURE" id none
    throw e

  -- The row is EXECUTING before its job is handed over; an error marks it FAILED.
  unfoldable pub start :
      String
      → Corridor
      → ℕ
      → env.amounts.Amount
      → env.amounts.Amount
      → Exec (LiquidityState env) RebalanceStatus
  start id c now source amount = do
    let r = new_row env id c now source amount planned none
    add_row env r
    update_row env id set_executing
    answer ← (λ s. let (a, s') = dispatched r s in (ok a, s'))
    or_fail id answer

  abbrev pub after_guard :
      String → Corridor → ℕ → Guard env.amounts.Amount → Exec (LiquidityState env) RebalanceStatus
  after_guard id c now (refused reason) = skip id c now reason
  after_guard id c now (allowed source amount) =
      if not (env.has_config c) then skip id c now config_error else start id c now source amount

  abbrev pub observe :
      Corridor → env.amounts.Amount → env.amounts.Amount → LiquidityState env → LiquidityState env
  observe c reserve forecast s = record s {
    observations = record { corridor = c; reserve = reserve; forecast = forecast } ∷ s.observations;
  }

  abbrev pub rebalance :
      String → Corridor → env.amounts.Amount → ℕ → ℕ → Exec (LiquidityState env) Checked
  rebalance id c requested day now = do
    guard ← gets (λ s. check_rebalance_guards env c requested day now s.rows)
    status ← after_guard id c now guard
    pure (checked status)

  -- `checkCorridor` with the reserve and the forecast that the monitor and the history give.
  unfoldable pub check_corridor :
      String
      → Corridor
      → env.amounts.Amount
      → env.amounts.Amount
      → ℕ
      → ℕ
      → Exec (LiquidityState env) Checked
  check_corridor id c reserve forecast day now = do
    modify (observe c reserve forecast)
    if env.amounts.is_healthy reserve forecast
        then pure healthy
        else rebalance id c (env.amounts.shortfall reserve forecast) day now
