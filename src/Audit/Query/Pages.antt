-- ===== src/Audit/Query/Pages.antt =====
-- audit.service.ts: what a page of `query` holds.
use afro_pay_stellar.Prelude.{
  ℕ, ◌≤◌, String, ◌≡◌, refl, sym, Bool, true, false, not, ◌++◌, ltb, ◌==◌, if◌then◌else◌, ◌&&◌, ◌⊎◌,
  inl, inr, Option, none, some, List, [], ◌∷◌, All, All-map, All-filter, filter, length, min, max,
  take, drop, str_eq, str_eq_iff, arith, Bool-cases, true≢false,
}
use mathlib.Core.List.{Perm, perm_middle}
use mathlib.Core.List.Perm
use afro_pay_stellar.Audit.{Entry}
use afro_pay_stellar.Audit.Query.{
  QueryParams, QueryResult, AuditReader, or_else, is_text, is_text_if, is_from, is_to, matches,
  query,
}

-- What a caller asks for in words: an empty text asks for nothing.
abbrev pub Asked : Option String → Option String → Type 0
Asked none value = Unit
Asked (some x) value = (x ≡ "") ⊎ (value ≡ some x)

abbrev pub From : Option ℕ → ℕ → Type 0
From none at = Unit
From (some a) at = a ≤ at

abbrev pub To : Option ℕ → ℕ → Type 0
To none at = Unit
To (some b) at = at ≤ b

pub record Fits {Digest : Type 0} (params : QueryParams) (e : Entry Digest) : Type 0 where
  pub user : Asked params.user_id e.canonical.payload.user_id
  pub category : Asked params.category (some e.canonical.payload.category)
  pub operation : Asked params.operation (some e.canonical.payload.operation)
  pub since : From params.from e.canonical.created_at
  pub till : To params.to e.canonical.created_at

-- Each entry is no older than those after it.
abbrev pub IsNewestFirst : {Digest : Type 0} → List (Entry Digest) → Type 0
IsNewestFirst [] = Unit
IsNewestFirst (e ∷ es) =
    All (λ f. f.canonical.created_at ≤ e.canonical.created_at) es × IsNewestFirst es

-- What the database answers: the entries under a condition, the newest first, and their number.
pub record IsReader {Digest : Type 0} (reader : AuditReader Digest) : Type 0 where
  pub entries : reader.Rows → List (Entry Digest)
  pub found :
      (p : Entry Digest → Bool) (t : reader.Rows)
      → Perm (reader.find_many p t) (filter p (entries t))
  pub matching :
      (p : Entry Digest → Bool) (t : reader.Rows) → All (λ e. p e ≡ true) (reader.find_many p t)
  pub ordered : (p : Entry Digest → Bool) (t : reader.Rows) → IsNewestFirst (reader.find_many p t)
  pub number :
      (p : Entry Digest → Bool) (t : reader.Rows) → reader.count p t ≡ length (reader.find_many p t)

and_left : (a b : Bool) → (a && b) ≡ true → a ≡ true
and_left true b h = refl
and_left false b h = h

and_right : (a b : Bool) → (a && b) ≡ true → b ≡ true
and_right true b h = h
and_right false b h = absurd (true≢false (sym h))

is_text-eq : (x : String) (value : Option String) → is_text x value ≡ true → value ≡ some x
is_text-eq x none h = absurd (true≢false (sym h))
is_text-eq x (some y) h = rw ((str_eq_iff y x).0 h) refl

is_text_if-Asked : (o value : Option String) → is_text_if o value ≡ true → Asked o value
is_text_if-Asked none value h = tt
is_text_if-Asked (some x) value h = elim (Bool-cases (str_eq x "")) [
  | inl empty ↦ inl ((str_eq_iff x "").0 empty)
  | inr given ↦ inr (is_text-eq x value (rw given at h))
]

is_from-From : (o : Option ℕ) (at : ℕ) → is_from o at ≡ true → From o at
is_from-From none at h = tt
is_from-From (some a) at h = ground (arith, h)

is_to-To : (o : Option ℕ) (at : ℕ) → is_to o at ≡ true → To o at
is_to-To none at h = tt
is_to-To (some b) at h = ground (arith, h)

text-Asked : (x : String) (o : Option String) → o ≡ some x → is_text x o ≡ true
text-Asked x none h = absurd (cc h)
text-Asked x (some y) h = let e : y ≡ x = cc h in (str_eq_iff y x).1 e

Asked-is_text_if : (o value : Option String) → Asked o value → is_text_if o value ≡ true
Asked-is_text_if none value h = refl
Asked-is_text_if (some x) value (inl empty) = rw ((str_eq_iff x "").1 empty) refl
Asked-is_text_if (some x) value (inr same) = elim (Bool-cases (str_eq x "")) [
  | inl empty ↦ rw empty refl
  | inr given ↦ rw given (text-Asked x value same)
]

From-is_from : (o : Option ℕ) (at : ℕ) → From o at → is_from o at ≡ true
From-is_from none at h = refl
From-is_from (some a) at h = ground (arith, h)

To-is_to : (o : Option ℕ) (at : ℕ) → To o at → is_to o at ≡ true
To-is_to none at h = refl
To-is_to (some b) at h = ground (arith, h)

module _ {Digest : Type 0} (params : QueryParams) where
  matches-Fits : (e : Entry Digest) → matches params e ≡ true → Fits params e
  matches-Fits e h =
      let user = is_text_if params.user_id e.canonical.payload.user_id in
      let category = is_text_if params.category (some e.canonical.payload.category) in
      let operation = is_text_if params.operation (some e.canonical.payload.operation) in
      let since = is_from params.from e.canonical.created_at in
      let till = is_to params.to e.canonical.created_at in
      let h1 = and_left (user && category && operation && since) till h in
      let h2 = and_left (user && category && operation) since h1 in
      let h3 = and_left (user && category) operation h2 in
      record {
        user =
            is_text_if-Asked params.user_id e.canonical.payload.user_id (and_left user category h3);
        category =
            is_text_if-Asked params.category (some e.canonical.payload.category)
              (and_right user category h3);
        operation =
            is_text_if-Asked params.operation (some e.canonical.payload.operation)
              (and_right (user && category) operation h2);
        since =
            is_from-From params.from e.canonical.created_at
              (and_right (user && category && operation) since h1);
        till =
            is_to-To params.to e.canonical.created_at
              (and_right (user && category && operation && since) till h);
      }

  Fits-matches : (e : Entry Digest) → Fits params e → matches params e ≡ true
  Fits-matches e f =
      rw
        (
          Asked-is_text_if params.user_id e.canonical.payload.user_id f.user,
          Asked-is_text_if params.category (some e.canonical.payload.category) f.category,
          Asked-is_text_if params.operation (some e.canonical.payload.operation) f.operation,
          From-is_from params.from e.canonical.created_at f.since,
          To-is_to params.to e.canonical.created_at f.till,
        )
        refl

-- The rest of a list, after its filtered part.
filter-perm :
    {A : Type 0} (p : A → Bool) (xs : List A) → Perm (filter p xs ++ filter (λ x. not (p x)) xs) xs
filter-perm p [] = Perm.rfl
filter-perm p (x ∷ xs) = elim (Bool-cases (p x)) [
  | inl h ↦ rw h (Perm.cons x (filter-perm p xs))
  | inr h ↦ rw h (
      Perm.trans (perm_middle (filter p xs) (filter (λ y. not (p y)) xs))
        (Perm.cons x (filter-perm p xs)))
]

-- 50 entries, or as many as are asked for, from 1 to 200.
abbrev pub page_size : Option ℕ → ℕ
page_size none = 50
page_size (some n) = if n == 0 then 1 else if ltb 200 n then 200 else n

abbrev pub offset_of : Option ℕ → ℕ
offset_of none = 0
offset_of (some n) = n

page_size_lem : (o : Option ℕ) → min 200 (max 1 (or_else 50 o)) ≡ page_size o
page_size_lem none = refl
page_size_lem (some n) = ground arith

offset_lem : (o : Option ℕ) → or_else 0 o ≡ offset_of o
offset_lem none = refl
offset_lem (some n) = refl

false_of_not : (b : Bool) → not b ≡ true → ¬ (b ≡ true)
false_of_not true h e = true≢false (sym h)
false_of_not false h e = true≢false (sym e)

module _ {Digest : Type 0} (reader : AuditReader Digest) (lawful : IsReader reader)
    (params : QueryParams) (t : reader.Rows) where
  -- The entries of the log fall into those that fit, which are number and come the newest first, and
  -- those that do not.
  pub record IsPage (page : QueryResult Digest) : Type 0 where
    pub fitting : List (Entry Digest)
    pub others : List (Entry Digest)
    pub complete : Perm (fitting ++ others) (lawful.entries t)
    pub all_fit : All (Fits params) fitting
    pub none_fits : All (λ e. ¬ (Fits params e)) others
    pub newest_first : IsNewestFirst fitting
    pub total : page.total ≡ length fitting
    pub part : page.entries ≡ take (page_size params.limit) (drop (offset_of params.offset) fitting)

  -- A query counts exactly the entries of the log that fit what is asked for (the user, the category,
  -- the operation and the span of time, where they are given), and returns of these, the newest first,
  -- as many as fit on the page (from 1 to 200, or 50 if no number is given) after those of the offset.
  -- It is assumed of the database that it finds and counts the entries under a condition, and gives them
  -- the newest first, entries of one time in any order.
  pub query-IsPage : IsPage (query reader params t)
  unfolding query
  query-IsPage = record {
    fitting = reader.find_many (matches params) t;
    others = filter (λ e. not (matches params e)) (lawful.entries t);
    complete =
        Perm.trans
          (Perm.append_right (filter (λ e. not (matches params e)) (lawful.entries t))
            (lawful.found (matches params) t))
          (filter-perm (matches params) (lawful.entries t));
    all_fit =
        All-map (λ e h. matches-Fits params e h) (reader.find_many (matches params) t)
          (lawful.matching (matches params) t);
    none_fits =
        All-map (λ e h f. false_of_not (matches params e) h (Fits-matches params e f))
          (filter (λ e. not (matches params e)) (lawful.entries t))
          (All-filter (λ e. not (matches params e)) (lawful.entries t));
    newest_first = lawful.ordered (matches params) t;
    total = lawful.number (matches params) t;
    part = rw (page_size_lem params.limit, offset_lem params.offset) refl;
  }
