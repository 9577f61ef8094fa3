-- ===== src/Compliance/Listing.antt =====
-- `list` of apps/api/src/transaction/compliance-action.service.ts, over the rows of the actions, the
-- newest first. The approvals of the actions are left out; limits and offsets are natural numbers.
use afro_pay_stellar.Prelude.{
  ℕ, Bool, true, false, Option, none, some, List, [], ◌∷◌, length, take, drop, min, max,
  if◌then◌else◌,
}
use afro_pay_stellar.Compliance.{
  Status, pending_approval, approved, executing, executed, failed, rejected, Action,
}

pub record ListQuery : Type 0 where
  pub status : Option Status
  pub limit : Option ℕ
  pub offset : Option ℕ

pub record ActionList : Type 0 where
  pub total : ℕ
  pub actions : List Action

abbrev same_status : Status → Status → Bool
same_status pending_approval pending_approval = true
same_status approved approved = true
same_status executing executing = true
same_status executed executed = true
same_status failed failed = true
same_status rejected rejected = true
same_status _ _ = false

abbrev has_status : Option Status → Action → Bool
has_status none a = true
has_status (some s) a = same_status a.status s

abbrev pub with_status : Option Status → List Action → List Action
with_status s [] = []
with_status s (a ∷ rest) =
    let others = with_status s rest in if has_status s a then a ∷ others else others

abbrev or_else : ℕ → Option ℕ → ℕ
or_else n none = n
or_else n (some k) = k

pub list_actions : ListQuery → List Action → ActionList
list_actions query rows =
    let limit = min 100 (max 1 (or_else 25 query.limit)) in
    let offset = or_else 0 query.offset in
    let found = with_status query.status rows in
    record { total = length found; actions = take limit (drop offset found) }
