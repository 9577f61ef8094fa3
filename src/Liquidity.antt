-- ===== src/Liquidity.antt =====
-- apps/api/src/reconciliation/liquidity.service.ts: rebalances of a corridor's reserve, under daily
-- limits. The table of rebalances is the list of its rows, the newest first, and its queries are
-- written out; amounts with their floating-point operations, the reserve monitor, the forecast and
-- the queue are parameters.
pub mod Corridors
pub mod Results
pub mod Daily
pub mod Report
mod Tests
use afro_pay_stellar.Prelude.{
  ℕ, zero, suc, ◌+◌, ◌-◌, ◌*◌, String, Bool, true, false, not, ◌&&◌, ◌||◌, Option, none, some, List,
  [], ◌∷◌, leb, str_eq, if◌then◌else◌, Error, not_found, bad_request, conflict, failure, Result, ok,
  err, Exec, ◌>>=◌, ◌>>◌, pure, throw, gets, or_throw, modify, throw_if,
}

pub data RebalanceStatus : Type 0 where
  planned executing executed failed skipped : RebalanceStatus

pub data SkipReason : Type 0 where
  count_limit opposite_cooldown volume_limit config_error : SkipReason

-- The numbers of the service: `is_healthy` is `forecast <= 0 || reserve >= threshold` with the
-- threshold of the forecast, `shortfall` what the reserve lacks of it; `to_source` divides by the configured rate, `left` is what the limit
-- of the day leaves of the amounts so far, `least` is `Math.min`; both results are rounded.
pub record Amounts : Type 1 where
  pub Amount : Type 0
  pub none_at_all : Amount
  pub is_healthy : (reserve forecast : Amount) → Bool
  pub shortfall : (reserve forecast : Amount) → Amount
  pub left : List Amount → Amount
  pub least : Amount → Amount → Amount
  pub is_positive : Amount → Bool
  pub to_source : Amount → Amount
  pub round : Amount → Amount

pub record Corridor : Type 0 where
  pub name : String
  pub from_asset : String
  pub to_asset : String

pub record Rebalance (Amount : Type 0) : Type 0 where
  pub id : String
  pub corridor : Corridor
  pub source_amount : Amount
  pub amount : Amount
  pub status : RebalanceStatus
  pub skip_reason : Option SkipReason
  pub tx_hash : Option String
  pub failed_because : Option Error
  pub created_at : ℕ

pub record LiquidityExecutionResult : Type 0 where
  pub success : Bool
  pub tx_hash : Option String
  pub error : Option Error

-- `dispatch` is the executor's `execute`; `has_config` says that no setting is missing.
pub record LiquidityServices : Type 1 where
  pub amounts : Amounts
  pub max_rebalances : ℕ
  pub has_config : Corridor → Bool
  pub Queue : Type 0
  pub dispatch : Rebalance amounts.Amount → Exec Queue String

-- A row of `LiquidityObservation`, and an entry for the audit log.
pub record Observation (Amount : Type 0) : Type 0 where
  pub corridor : Corridor
  pub reserve : Amount
  pub forecast : Amount

pub record LiquidityEvent : Type 0 where
  pub operation : String
  pub outcome : String
  pub rebalance_id : String
  pub tx_hash : Option String

pub data Checked : Type 0 where
  healthy : Checked
  checked : RebalanceStatus → Checked

pub record LiquidityState (env : LiquidityServices) : Type 0 where
  pub rows : List (Rebalance env.amounts.Amount)
  pub queue : env.Queue
  pub observations : List (Observation env.amounts.Amount)
  pub audit : List LiquidityEvent

pub data Guard (Amount : Type 0) : Type 0 where
  refused : SkipReason → Guard Amount
  allowed : (source_amount destination_amount : Amount) → Guard Amount

abbrev pub is_skipped : RebalanceStatus → Bool
is_skipped skipped = true
is_skipped planned = false
is_skipped executing = false
is_skipped executed = false
is_skipped failed = false

abbrev pub is_executing : RebalanceStatus → Bool
is_executing executing = true
is_executing planned = false
is_executing executed = false
is_executing failed = false
is_executing skipped = false

abbrev pub is_executed : RebalanceStatus → Bool
is_executed executed = true
is_executed planned = false
is_executed executing = false
is_executed failed = false
is_executed skipped = false

module _ {Amount : Type 0} where
  -- `{ corridor, createdAt: { gte: startOfDay }, status: { not: 'SKIPPED' } }`
  abbrev pub counts : String → ℕ → Rebalance Amount → Bool
  counts name day r =
      str_eq r.corridor.name name && leb day r.created_at && not (is_skipped r.status)

  abbrev pub daily_count : String → ℕ → List (Rebalance Amount) → ℕ
  daily_count name day [] = 0
  daily_count name day (r ∷ rs) =
      let n = daily_count name day rs in if counts name day r then suc n else n

  abbrev daily_amounts : String → ℕ → List (Rebalance Amount) → List Amount
  daily_amounts name day [] = []
  daily_amounts name day (r ∷ rs) =
      let rest = daily_amounts name day rs in if counts name day r then r.amount ∷ rest else rest

  abbrev is_opposite : Corridor → Rebalance Amount → Bool
  is_opposite c r =
      str_eq r.corridor.from_asset c.to_asset && str_eq r.corridor.to_asset c.from_asset

  -- The newest rebalance of the corridor or of the opposite one since a time.
  abbrev latest : Corridor → ℕ → List (Rebalance Amount) → Option (Rebalance Amount)
  latest c since [] = none
  latest c since (r ∷ rs) =
      let rest = latest c since rs in
      if leb since r.created_at
        && not (is_skipped r.status)
        && (str_eq r.corridor.name c.name || is_opposite c r)
      then some r
      else rest

  abbrev blocks : Corridor → Option (Rebalance Amount) → Bool
  blocks c none = false
  blocks c (some r) = is_opposite c r

abbrev day_ms : ℕ
day_ms = 24 * 60 * 60 * 1000

module _ (env : LiquidityServices) where
  -- `day` is the start of the day of `now`.
  pub check_rebalance_guards :
      Corridor
      → env.amounts.Amount
      → ℕ
      → ℕ
      → List (Rebalance env.amounts.Amount)
      → Guard env.amounts.Amount
  check_rebalance_guards c requested day now rows =
      let amount = env.amounts.least requested (env.amounts.left (daily_amounts c.name day rows)) in
      if leb env.max_rebalances (daily_count c.name day rows)
      then refused count_limit
      else if blocks c (latest c (now - day_ms) rows)
      then refused opposite_cooldown
      else if not (env.amounts.is_positive amount)
      then refused volume_limit
      else allowed (env.amounts.to_source amount) (env.amounts.round amount)

  abbrev pub new_row :
      String
      → Corridor
      → ℕ
      → env.amounts.Amount
      → env.amounts.Amount
      → RebalanceStatus
      → Option SkipReason
      → Rebalance env.amounts.Amount
  new_row id c now source amount status reason = record {
    id = id;
    corridor = c;
    source_amount = source;
    amount = amount;
    status = status;
    skip_reason = reason;
    tx_hash = none;
    failed_because = none;
    created_at = now;
  }

  pub add_row : Rebalance env.amounts.Amount → Exec (LiquidityState env) (Unit {0})
  add_row r = modify λ s. record s { rows = r ∷ s.rows }

  -- the row of an identifier
  abbrev pub replace :
      String
      → (Rebalance env.amounts.Amount → Rebalance env.amounts.Amount)
      → List (Rebalance env.amounts.Amount)
      → List (Rebalance env.amounts.Amount)
  replace id f [] = []
  replace id f (r ∷ rs) =
      let rest = replace id f rs in if str_eq r.id id then f r ∷ rs else r ∷ rest

  pub update_row :
      String
      → (Rebalance env.amounts.Amount → Rebalance env.amounts.Amount)
      → Exec (LiquidityState env) (Unit {0})
  update_row id f = modify λ s. record s { rows = replace id f s.rows }

  pub log_event : String → String → String → Option String → Exec (LiquidityState env) (Unit {0})
  log_event op outcome id hash = modify λ s. record s {
    audit =
        record { operation = op; outcome = outcome; rebalance_id = id; tx_hash = hash } ∷ s.audit;
  }
