-- ===== src/Liquidity/Daily.antt =====
-- liquidity.service.ts: the rebalances of a corridor in a day.
use afro_pay_stellar.Prelude.{
  ℕ, suc, ◌≤◌, ◌<◌, String, ◌≡◌, inl, inr, refl, subst, Bool, true, false, none, List, [], ◌∷◌,
  arith, leb, str_eq, str_eq_iff, Bool-cases, Result, ok, err, ◌>>=◌, pure, continue,
}
use afro_pay_stellar.Liquidity.{
  Corridor, Rebalance, LiquidityServices, LiquidityState, Guard, refused, allowed, planned,
  is_skipped, counts, daily_count, check_rebalance_guards, new_row, add_row, update_row, replace,
  log_event, checked, RebalanceStatus,
}
use afro_pay_stellar.Liquidity.Corridors.{
  observe, rebalance, skip, fail_with, set_executing, or_fail, start, after_guard, check_corridor,
}

module _ (env : LiquidityServices) where
  -- The rows after a call: one row of the corridor more, skipped or not.
  record Grown (c : Corridor) (off : Bool) (old rows : List (Rebalance env.amounts.Amount))
      : Type 0 where
    row : Rebalance env.amounts.Amount
    grown : rows ≡ row ∷ old
    own : row.corridor ≡ c
    kind : is_skipped row.status ≡ off

  skip-Grown :
      (id : String) (c : Corridor) (now : ℕ) (reason : _) (s : LiquidityState env)
      → Grown c true s.rows (skip env id c now reason s).1.rows
  unfolding skip add_row ◌>>=◌
  skip-Grown id c now reason s = record { row = _; grown = refl; own = refl; kind = refl }

  -- the newest row is the one that an update by its identifier finds
  replace-head :
      (id : String) (f : Rebalance env.amounts.Amount → Rebalance env.amounts.Amount)
      (r : Rebalance env.amounts.Amount) (rs : List (Rebalance env.amounts.Amount))
      → r.id ≡ id
      → replace env id f (r ∷ rs) ≡ f r ∷ rs
  replace-head id f r rs own = rw ((str_eq_iff _ _).1 own) refl

  or_fail-Grown :
      (id : String) (c : Corridor) (answer : Result String)
      (old : List (Rebalance env.amounts.Amount)) (r : Rebalance env.amounts.Amount)
      (s : LiquidityState env)
      → s.rows ≡ r ∷ old
      → r.id ≡ id
      → r.corridor ≡ c
      → is_skipped r.status ≡ false
      → Grown c false old (or_fail env id answer s).1.rows
  unfolding update_row log_event ◌>>=◌
  or_fail-Grown id c (ok job) old r s grown own_id own kind = record {
    row = r;
    grown = grown;
    own = own;
    kind = kind;
  }
  or_fail-Grown id c (err e) old r s grown own_id own kind = record {
    row = fail_with env e r;
    grown = rw grown (replace-head id (fail_with env e) r old own_id);
    own = own;
    kind = refl;
  }

  start-Grown :
      (id : String) (c : Corridor) (now : ℕ) (source amount : env.amounts.Amount)
      (s : LiquidityState env)
      → Grown c false s.rows (start env id c now source amount s).1.rows
  unfolding start add_row update_row ◌>>=◌
  start-Grown id c now source amount s =
      or_fail-Grown id c _ s.rows
        (set_executing env (new_row env id c now source amount planned none)) _
        (replace-head id (set_executing env) _ s.rows refl) refl refl refl

  daily_count-cons :
      (k : String) (day : ℕ) (r : Rebalance env.amounts.Amount)
      (rs : List (Rebalance env.amounts.Amount))
      → daily_count k day (r ∷ rs) ≤ suc (daily_count k day rs)
  daily_count-cons k day r rs = elim (Bool-cases (counts k day r)) [
    | inl own ↦ rw own (omega arith)
    | inr other ↦ rw other (omega arith)
  ]

  -- A row of another corridor, or a skipped one, is not counted.
  daily_count-other :
      (k : String) (day : ℕ) (r : Rebalance env.amounts.Amount)
      (rs : List (Rebalance env.amounts.Amount))
      → counts k day r ≡ false
      → daily_count k day (r ∷ rs) ≡ daily_count k day rs
  daily_count-other k day r rs other = rw other refl

  after_guard-le :
      (id k : String) (c : Corridor) (day now : ℕ) (guard : Guard env.amounts.Amount)
      (s : LiquidityState env)
      → ((source amount : env.amounts.Amount)
          → guard ≡ allowed source amount
          → daily_count c.name day s.rows < env.max_rebalances)
      → daily_count k day s.rows ≤ env.max_rebalances
      → daily_count k day (after_guard env id c now guard s).1.rows ≤ env.max_rebalances
  after_guard-le id k c day now (refused reason) s few h = skipped-le (skip-Grown id c now reason s)
    where
      skipped-le :
          {rows : List (Rebalance env.amounts.Amount)}
          → Grown c true s.rows rows
          → daily_count k day rows ≤ env.max_rebalances
      skipped-le g =
          rw g.grown (rw (daily_count-other k day g.row s.rows (rw g.kind (ground arith))) h)
  after_guard-le id k c day now (allowed source amount) s few h =
      elim (Bool-cases (env.has_config c)) [
        | inl ready ↦ rw ready (started-le (start-Grown id c now source amount s))
        | inr missing ↦ rw missing (skipped-le (skip-Grown id c now _ s))
      ]
    where
      skipped-le :
          {rows : List (Rebalance env.amounts.Amount)}
          → Grown c true s.rows rows
          → daily_count k day rows ≤ env.max_rebalances
      skipped-le g =
          rw g.grown (rw (daily_count-other k day g.row s.rows (rw g.kind (ground arith))) h)

      started-le :
          {rows : List (Rebalance env.amounts.Amount)}
          → Grown c false s.rows rows
          → daily_count k day rows ≤ env.max_rebalances
      started-le g = elim (Bool-cases (str_eq c.name k)) [
        | inl same ↦
            let fewer : daily_count k day s.rows < env.max_rebalances =
              subst (λ n. daily_count n day s.rows < env.max_rebalances) ((str_eq_iff _ _).0 same)
                (few source amount refl) in
            rw g.grown (omega (arith, daily_count-cons k day g.row s.rows, fewer))
        | inr other ↦
            rw g.grown (rw (daily_count-other k day g.row s.rows (rw g.own (rw other refl))) h)
      ]

  check_rebalance_guards-allowed :
      (c : Corridor) (requested source amount : env.amounts.Amount) (day now : ℕ)
      (rows : List (Rebalance env.amounts.Amount))
      → check_rebalance_guards env c requested day now rows ≡ allowed source amount
      → daily_count c.name day rows < env.max_rebalances
  unfolding check_rebalance_guards
  check_rebalance_guards-allowed c requested source amount day now rows e =
      elim (Bool-cases (leb env.max_rebalances (daily_count c.name day rows))) [
        | inl full ↦ cc (rw full at e)
        | inr free ↦ ground arith
      ]

  rebalance-le :
      (id k : String) (c : Corridor) (requested : env.amounts.Amount) (day now : ℕ)
      (s : LiquidityState env)
      → daily_count k day s.rows ≤ env.max_rebalances
      → daily_count k day (rebalance env id c requested day now s).1.rows ≤ env.max_rebalances
  unfolding ◌>>=◌
  rebalance-le id k c requested day now s h = ended _ _ (
      after_guard-le id k c day now (check_rebalance_guards env c requested day now s.rows) s
        (λ source amount e.
          check_rebalance_guards-allowed c requested source amount day now s.rows e)
        h)
    where
      ended :
          (a : Result RebalanceStatus) (t : LiquidityState env)
          → daily_count k day t.rows ≤ env.max_rebalances
          → daily_count k day (continue a (λ status. pure (checked status)) t).1.rows
            ≤ env.max_rebalances
      ended (ok x) t q = q
      ended (err e) t q = q

  check_corridor-le :
      (id k : String) (c : Corridor) (reserve forecast : env.amounts.Amount) (day now : ℕ)
      (s : LiquidityState env)
      → daily_count k day s.rows ≤ env.max_rebalances
      → daily_count k day (check_corridor env id c reserve forecast day now s).1.rows
        ≤ env.max_rebalances
  unfolding check_corridor ◌>>=◌
  check_corridor-le id k c reserve forecast day now s h =
      elim (Bool-cases (env.amounts.is_healthy reserve forecast)) [
        | inl good ↦ rw good h
        | inr low ↦ rw low (
            rebalance-le id k c (env.amounts.shortfall reserve forecast) day now
              (observe env c reserve forecast s) h)
      ]

-- A check of a corridor: the identifier that is drawn for a row, the reserve, the forecast, the
-- time.
pub record Check (env : LiquidityServices) : Type 0 where
  pub id : String
  pub corridor : Corridor
  pub reserve : env.amounts.Amount
  pub forecast : env.amounts.Amount
  pub now : ℕ

module _ (env : LiquidityServices) (day : ℕ) where
  pub check_all : List (Check env) → LiquidityState env → LiquidityState env
  check_all [] s = s
  check_all (c ∷ cs) s =
      check_all cs (check_corridor env c.id c.corridor c.reserve c.forecast day c.now s).1

  -- From a state in which the rebalances of a corridor in a day, those that were skipped left aside,
  -- are no more than the limit, after any checks of that day, of this corridor and of others, one
  -- after the other, also those whose job the queue refuses, they are still no more than the limit.
  pub check_all-le :
      (k : String) (checks : List (Check env)) (s : LiquidityState env)
      → daily_count k day s.rows ≤ env.max_rebalances
      → daily_count k day (check_all checks s).rows ≤ env.max_rebalances
  unfolding check_all
  check_all-le k [] s h = h
  check_all-le k (c ∷ cs) s h =
      check_all-le k cs _
        (check_corridor-le env c.id k c.corridor c.reserve c.forecast day c.now s h)
