-- ===== src/Audit/Query/Tests.antt =====
-- A query of two entries, one on a page.
use mathlib.Core.List.Perm
use afro_pay_stellar.Prelude.{
  ℕ, ◌≤◌, ◌≡◌, refl, Bool, Bool-cases, inl, inr, none, some, List, [], ◌∷◌, All-filter, filter-All,
  filter, length, arith,
}
use afro_pay_stellar.Audit.{Entry, positional, payload}
use afro_pay_stellar.Audit.Query.{QueryParams, AuditReader, query}
use afro_pay_stellar.Audit.Query.Pages.{IsNewestFirst, IsReader, IsPage, query-IsPage}

abbrev entry : ℕ → Entry ℕ
entry t = record {
  canonical = record {
    id = "a";
    payload = payload (positional (some "ann") (some "LOGIN") none);
    previous_hash = none;
    created_at = t;
  };
  hash = none;
}

abbrev params : QueryParams
params = record {
  user_id = some "ann";
  category = none;
  operation = none;
  from = some 3;
  to = none;
  limit = some 1;
  offset = some 1;
}

abbrev entries : List (Entry ℕ)
entries = entry 9 ∷ entry 5 ∷ entry 1 ∷ []

IsNewestFirst-filter :
    (p : Entry ℕ → Bool) (es : List (Entry ℕ)) → IsNewestFirst es → IsNewestFirst (filter p es)
IsNewestFirst-filter p [] h = tt
IsNewestFirst-filter p (e ∷ es) h = elim (Bool-cases (p e)) [
  | inl hit ↦ rw hit (
    filter-All (λ f. f.canonical.created_at ≤ e.canonical.created_at) p es h.0,
    IsNewestFirst-filter p es h.1,
  )
  | inr miss ↦ rw miss (IsNewestFirst-filter p es h.1)
]

abbrev reader : AuditReader ℕ
reader = record {
  Rows = Unit {0};
  find_many = λ p t. filter p entries;
  count = λ p t. length (filter p entries);
}

reader-IsReader : IsReader reader
reader-IsReader = record {
  entries = λ t. entries;
  found = λ p t. Perm.rfl;
  matching = λ p t. All-filter p entries;
  ordered = λ p t.
      IsNewestFirst-filter p entries
        ((omega arith, (omega arith, tt)), ((omega arith, tt), (tt, tt)));
  number = λ p t. refl;
}

one_of_two : query reader params tt ≡ record { total = 2; entries = entry 5 ∷ [] }
unfolding query payload
one_of_two = refl

query-IsPage_example : IsPage reader reader-IsReader params tt (query reader params tt)
query-IsPage_example = query-IsPage reader reader-IsReader params tt
