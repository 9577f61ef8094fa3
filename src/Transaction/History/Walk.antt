-- ===== src/Transaction/History/Walk.antt =====
-- `getHistory` of transaction.service.ts: a client that follows the cursors.
use afro_pay_stellar.Prelude.{
  ℕ, zero, suc, ◌+◌, ◌≤◌, ◌<◌, max, String, ◌≡◌, ◌∙◌, refl, ap, subst, inl, inr, true, false,
  Option, none, some, List, [], ◌∷◌, ◌++◌, length, take, drop, length-take, take-append-drop, All,
  arith, ltb, str_eq, str_eq_refl, if◌then◌else◌, Bool-cases, Result, ok, err,
}
use mathlib.Core.List.{append_assoc, append-nil}
use afro_pay_stellar.Transaction.{Tx}
use afro_pay_stellar.Transaction.History.{
  HistoryTable, PaginatedHistory, last_id, paginate, get_history, history_max_limit,
}

module _ {Score : Type 0} where
  -- The rows after the one that has the identifier.
  abbrev pub after : String → List (Tx Score) → List (Tx Score)
  after c [] = []
  after c (x ∷ xs) = let rest = after c xs in if str_eq x.id c then xs else rest

  abbrev Differs : String → Tx Score → Type 0
  Differs c x = str_eq c x.id ≡ false

  abbrev pub IsDistinct : List (Tx Score) → Type 0
  IsDistinct [] = Unit
  IsDistinct (x ∷ xs) = All (Differs x.id) xs × IsDistinct xs

  last_id-Differs :
      (i c : String) (ys zs : List (Tx Score))
      → last_id ys ≡ some c
      → All (Differs i) (ys ++ zs)
      → str_eq i c ≡ false
  last_id-Differs i c [] zs e h = cc e
  last_id-Differs i c (y ∷ []) zs e h =
      let same : y.id ≡ c = cc e in subst (λ k. str_eq i k ≡ false) same h.0
  last_id-Differs i c (y ∷ y' ∷ ys) zs e h = last_id-Differs i c (y' ∷ ys) zs e h.1

  after-last_id :
      (c : String) (ys zs : List (Tx Score))
      → last_id ys ≡ some c
      → IsDistinct (ys ++ zs)
      → after c (ys ++ zs) ≡ zs
  after-last_id c [] zs e h = cc e
  after-last_id c (y ∷ []) zs e h = let same : y.id ≡ c = cc e in rw same (rw (str_eq_refl c) refl)
  after-last_id c (y ∷ y' ∷ ys) zs e h =
      rw (last_id-Differs y.id c (y' ∷ ys) zs e h.0) (after-last_id c (y' ∷ ys) zs e h.1)

  last_id-append :
      (c : String) (xs ys : List (Tx Score)) → last_id ys ≡ some c → last_id (xs ++ ys) ≡ some c
  last_id-append c [] ys e = e
  last_id-append c (x ∷ []) [] e = cc e
  last_id-append c (x ∷ []) (y ∷ ys) e = e
  last_id-append c (x ∷ x' ∷ xs) ys e = last_id-append c (x' ∷ xs) ys e

  -- A list that is not empty has a last row.
  last_id-some : (xs : List (Tx Score)) → 1 ≤ length xs → (c : String) × (last_id xs ≡ some c)
  last_id-some [] h = absurd (omega (arith, h))
  last_id-some (x ∷ []) h = (x.id, refl)
  last_id-some (x ∷ y ∷ ys) h = last_id-some (y ∷ ys) (omega arith)

  take-all : (n : ℕ) (xs : List (Tx Score)) → length xs ≤ n → take n xs ≡ xs
  take-all zero [] h = refl
  take-all zero (x ∷ xs) h = absurd (omega (arith, h))
  take-all (suc n) [] h = refl
  take-all (suc n) (x ∷ xs) h = ap (λ ys. x ∷ ys) (take-all n xs (omega (arith, h)))

  take-take : (m n : ℕ) (xs : List (Tx Score)) → m ≤ n → take m (take n xs) ≡ take m xs
  take-take zero n xs h = refl
  take-take (suc m) zero xs h = absurd (omega (arith, h))
  take-take (suc m) (suc n) [] h = refl
  take-take (suc m) (suc n) (x ∷ xs) h = ap (λ ys. x ∷ ys) (take-take m n xs (omega (arith, h)))

  length-drop : (n : ℕ) (xs : List (Tx Score)) → length (drop n xs) + n ≡ max n (length xs)
  length-drop zero xs = omega arith
  length-drop (suc n) [] = omega arith
  length-drop (suc n) (x ∷ xs) = omega (arith, length-drop n xs)

  paginate-last :
      (limit total : ℕ) (xs : List (Tx Score))
      → length xs ≤ limit
      → paginate limit total (take (limit + 1) xs)
        ≡ record { items = xs; next_cursor = none; total = total }
  unfolding paginate
  paginate-last limit total xs h =
      let no_more : ltb limit (length xs) ≡ false = ground arith in
      rw (take-all (limit + 1) xs (omega (arith, h))) (rw no_more refl)

  paginate-more :
      (limit total : ℕ) (xs : List (Tx Score))
      → limit < length xs
      → paginate limit total (take (limit + 1) xs)
        ≡ record { items = take limit xs; next_cursor = last_id (take limit xs); total = total }
  unfolding paginate
  paginate-more limit total xs h =
      let size : length (take (limit + 1) xs) ≡ limit + 1 =
        omega (arith, length-take (limit + 1) xs, h) in
      let more : ltb limit (length (take (limit + 1) xs)) ≡ true = rw size (ground arith) in
      rw more (rw (take-take limit (limit + 1) xs (omega arith)) refl)

-- `count` and `findMany` read one list of rows for each user, the newest first.
pub record IsPaged {Score : Type 0} (table : HistoryTable Score) : Type 0 where
  pub all : String → table.Rows → List (Tx Score)
  pub find_many_first :
      (user : String) (n : ℕ) (rows : table.Rows)
      → table.find_many user none n rows ≡ take n (all user rows)
  pub find_many_after :
      (user c : String) (n : ℕ) (rows : table.Rows)
      → table.find_many user (some c) n rows ≡ take n (after c (all user rows))

module _ {Score : Type 0} (table : HistoryTable Score) where
  abbrev next_page : Option String → (String → List (Tx Score)) → List (Tx Score)
  next_page none k = []
  next_page (some c) k = k c

  abbrev add_page : Result (PaginatedHistory Score) → (String → List (Tx Score)) → List (Tx Score)
  add_page (err e) k = []
  add_page (ok page) k = page.items ++ next_page page.next_cursor k

  -- A client that follows the cursors, for at most `fuel` pages.
  pub collect : ℕ → String → ℕ → Option String → table.Rows → List (Tx Score)
  collect zero user limit cursor rows = []
  collect (suc fuel) user limit cursor rows =
      add_page (get_history table user (record { limit = some limit; cursor = cursor }) rows)
        (λ c. collect fuel user limit (some c) rows)

  module _ (paged : IsPaged table) (user : String) (limit : ℕ) (rows : table.Rows) (low : 1 ≤ limit)
      (high : limit ≤ history_max_limit) where
    get_history_page :
        (cursor : Option String) (xs : List (Tx Score))
        → ((n : ℕ) → table.find_many user cursor n rows ≡ take n xs)
        → get_history table user (record { limit = some limit; cursor = cursor }) rows
          ≡ ok (paginate limit (table.count user rows) (take (limit + 1) xs))
    unfolding get_history
    get_history_page cursor xs at_rest =
        let accepted : ltb history_max_limit limit ≡ false = ground arith in
        let same : max 1 limit ≡ limit = omega (arith, low) in
        rw accepted (rw same (rw (at_rest (limit + 1)) refl))

    collect-rest :
        (fuel : ℕ) (cursor : Option String) (pre xs : List (Tx Score))
        → IsDistinct (paged.all user rows)
        → paged.all user rows ≡ pre ++ xs
        → ((n : ℕ) → table.find_many user cursor n rows ≡ take n xs)
        → length xs < fuel
        → collect fuel user limit cursor rows ≡ xs
    unfolding collect
    collect-rest zero cursor pre xs distinct whole at_rest enough = absurd (omega (arith, enough))
    collect-rest (suc fuel) cursor pre xs distinct whole at_rest enough =
        rw (get_history_page cursor xs at_rest) (elim (Bool-cases (ltb limit (length xs))) [
          | inl more ↦ longer (ground arith) (λ c split rest fewer.
              collect-rest fuel (some c) (pre ++ take limit xs) (drop limit xs) distinct split
                (λ n. paged.find_many_after user c n rows ∙ ap (take n) rest) fewer)
          | inr last ↦
              rw (paginate-last limit (table.count user rows) xs (ground arith)) (append-nil xs)
        ])
      where
        longer :
            limit < length xs
            → ((c : String)
                → paged.all user rows ≡ (pre ++ take limit xs) ++ drop limit xs
                → after c (paged.all user rows) ≡ drop limit xs
                → length (drop limit xs) < fuel
                → collect fuel user limit (some c) rows ≡ drop limit xs)
            → add_page
                (ok (paginate limit (table.count user rows) (take (limit + 1) xs)))
                (λ c. collect fuel user limit (some c) rows)
              ≡ xs
        longer more again =
            let (c, e) =
              last_id-some (take limit xs) (omega (arith, length-take limit xs, low, more)) in
            let split : paged.all user rows ≡ (pre ++ take limit xs) ++ drop limit xs =
              rw (append_assoc pre (take limit xs) (drop limit xs))
                (rw (take-append-drop limit xs) whole) in
            let rest : after c (paged.all user rows) ≡ drop limit xs = rw split (
              after-last_id c (pre ++ take limit xs) (drop limit xs)
                (last_id-append c pre (take limit xs) e) (subst IsDistinct split distinct)) in
            rw (paginate-more limit (table.count user rows) xs more) (
              rw e (
                rw (again c split rest (omega (arith, length-drop limit xs, more, enough, low)))
                  (take-append-drop limit xs)))

    -- Where the rows of a user have different identifiers, a client that follows the cursors under a
    -- limit from 1 to 100 gets every row of the user exactly once, in order, and one page more than
    -- there are rows is enough.
    pub collect-all :
        IsDistinct (paged.all user rows)
        → collect (suc (length (paged.all user rows))) user limit none rows ≡ paged.all user rows
    collect-all distinct =
        collect-rest (suc (length (paged.all user rows))) none [] (paged.all user rows) distinct
          refl (λ n. paged.find_many_first user n rows) (omega arith)
