-- ===== src/Transaction/Dlq/Pages.antt =====
-- The page that `list` of transaction-dlq.service.ts returns.
use afro_pay_stellar.Prelude.{
  ℕ, ◌+◌, ◌-◌, ◌*◌, ◌≤◌, min, max, String, ◌≡◌, ap, Option, List, length, arith,
}
use afro_pay_stellar.Transaction.Dlq.{DlqServices, DlqState, list, or_positive, dlq_states}

-- Bull applies the range to each of the states.
abbrev pub IsRanged : DlqServices → Type 0
IsRanged env =
    (states : List String) (first last : ℕ) (q : env.Dlq)
    → length (env.get_jobs states first last q) ≤ length states * (last + 1 - first)

module _ (env : DlqServices) where
  -- Whatever page and limit are asked for, the page is at least 1, the limit is from 1 to 100, and no
  -- more jobs come back than the limit for each of the four states that are listed. It is assumed of
  -- the queue that it gives no more jobs of a state than there are places in the range.
  pub list-bounds :
      (page limit : Option ℕ) (s : DlqState env)
      → IsRanged env
      → (1 ≤ (list env page limit s).page)
        × (1 ≤ (list env page limit s).limit)
        × ((list env page limit s).limit ≤ 100)
        × (length (list env page limit s).items ≤ 4 * (list env page limit s).limit)
  unfolding list
  list-bounds page limit s ranged =
      let page' = max 1 (or_positive 1 page) in
      let limit' = min 100 (max 1 (or_positive 25 limit)) in
      let low : 1 ≤ limit' = omega arith in
      let start = (page' - 1) * limit' in
      let places : start + limit' - 1 + 1 - start ≡ limit' = omega arith in
      let few = ranged dlq_states start (start + limit' - 1) s.dlq in
      let four : 4 * (start + limit' - 1 + 1 - start) ≡ 4 * limit' = ap (λ n. 4 * n) places in
      (omega arith, omega arith, omega arith, omega (arith, few, four))
