-- ===== src/Audit/Query.antt =====
-- The reading operations of apps/api/src/audit/audit.service.ts. The database's answers to a condition
-- are arguments, since entries of one time come in no fixed order; so is the date from which recent
-- entries are read.
pub mod Pages
mod Tests
use afro_pay_stellar.Prelude.{
  ℕ, ◌≡◌, String, Bool, true, false, ◌&&◌, Option, none, some, List, [], ◌∷◌, length, take, drop,
  min, max, leb, str_eq, if◌then◌else◌,
}
use afro_pay_stellar.Audit.{Entry}

pub record QueryParams : Type 0 where
  pub user_id : Option String
  pub category : Option String
  pub operation : Option String
  pub from : Option ℕ
  pub to : Option ℕ
  pub limit : Option ℕ
  pub offset : Option ℕ

pub record QueryResult (Digest : Type 0) : Type 0 where
  pub total : ℕ
  pub entries : List (Entry Digest)

-- `findMany` of the entries under a condition, ordered by `createdAt`, the newest first, and `count`.
pub record AuditReader (Digest : Type 0) : Type 1 where
  pub Rows : Type 0
  pub find_many : (Entry Digest → Bool) → Rows → List (Entry Digest)
  pub count : (Entry Digest → Bool) → Rows → ℕ

-- `{ field: x }`, on a field that may be null
abbrev pub is_text : String → Option String → Bool
is_text x none = false
is_text x (some y) = str_eq y x

-- `x ? { field: x } : {}`
abbrev pub is_text_if : Option String → Option String → Bool
is_text_if none value = true
is_text_if (some x) value = if str_eq x "" then true else is_text x value

-- `gte` and `lte`
abbrev pub is_from : Option ℕ → ℕ → Bool
is_from none t = true
is_from (some a) t = leb a t

abbrev pub is_to : Option ℕ → ℕ → Bool
is_to none t = true
is_to (some b) t = leb t b

abbrev pub or_else : ℕ → Option ℕ → ℕ
or_else n none = n
or_else n (some k) = k

module _ {Digest : Type 0} where
  -- The `where` of a query.
  abbrev pub matches : QueryParams → Entry Digest → Bool
  matches params e =
      let p = e.canonical.payload in
      is_text_if params.user_id p.user_id
      && is_text_if params.category (some p.category)
      && is_text_if params.operation (some p.operation)
      && is_from params.from e.canonical.created_at
      && is_to params.to e.canonical.created_at

module _ {Digest : Type 0} (reader : AuditReader Digest) where
  pub query : QueryParams → reader.Rows → QueryResult Digest
  query params rows =
      let limit = min 200 (max 1 (or_else 50 params.limit)) in
      let skip = or_else 0 params.offset in
      record {
        total = reader.count (matches params) rows;
        entries = take limit (drop skip (reader.find_many (matches params) rows));
      }

  pub get_user_audit_logs : String → Option ℕ → reader.Rows → List (Entry Digest)
  get_user_audit_logs user limit rows =
      take (or_else 100 limit)
        (reader.find_many (λ e. is_text user e.canonical.payload.user_id) rows)

  pub get_action_audit_logs : String → Option ℕ → reader.Rows → List (Entry Digest)
  get_action_audit_logs action limit rows =
      take (or_else 100 limit)
        (reader.find_many (λ e. str_eq e.canonical.payload.operation action) rows)

  pub get_recent_audit_logs : ℕ → reader.Rows → List (Entry Digest)
  get_recent_audit_logs cutoff rows =
      take 1000 (reader.find_many (λ e. leb cutoff e.canonical.created_at) rows)
