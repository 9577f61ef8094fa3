-- ===== src/Transaction/Amount.antt =====
-- apps/api/src/transaction/transaction-integrity.ts: amounts as decimal texts, compared in a
-- canonical form. The regular expressions are written out as scans of the text.
pub mod Tests
use Prim.Native.Char.{Char, code}
use Prim.Native.String.{[], ◌∷◌, ◌++◌}
use afro_pay_stellar.Prelude.{
  is_digit, is_space, ℕ, String, Bool, true, false, not, ◌&&◌, ◌||◌, Option, none, some, leb, ◌==◌,
  str_eq, if◌then◌else◌, Result, ok, err, unprocessable,
}

abbrev pub is_zero : Char → Bool
is_zero c = code c == 48

abbrev strip_start : (Char → Bool) → String → String
strip_start p [] = []
strip_start p (c ∷ s) = let rest = strip_start p s in if p c then rest else c ∷ s

abbrev pub is_empty : String → Bool
is_empty [] = true
is_empty (c ∷ s) = false

abbrev pub strip_end : (Char → Bool) → String → String
strip_end p [] = []
strip_end p (c ∷ s) = let rest = strip_end p s in if p c && is_empty rest then [] else c ∷ rest

abbrev trim : String → String
trim s = strip_end is_space (strip_start is_space s)

-- The longest run of digits, and what follows it.
abbrev pub digits : String → String × String
digits [] = ([], [])
digits (c ∷ s) = let (run, rest) = digits s in if is_digit c then (c ∷ run, rest) else ([], c ∷ s)

-- `(?:\.(\d+))?$`, with "" for no fraction
abbrev fraction_part : String → Option String
fraction_part [] = some []
fraction_part (c ∷ s) =
    let (run, rest) = digits s in
    if code c == 46 && not (is_empty run) && is_empty rest then some run else none

-- `/^(\d+)(?:\.(\d+))?$/`: the whole part and the fraction.
pub match_amount : String → Option (String × String)
match_amount s =
    let (whole, rest) = digits s in
    if is_empty whole
    then none
    else elim (fraction_part rest) [ none ↦ none | some fraction ↦ some (whole, fraction) ]

-- `replace(/^0+(?=\d)/, '')`: zeros before another digit.
abbrev pub strip_zeros : String → String
strip_zeros [] = []
strip_zeros (c ∷ []) = c ∷ []
strip_zeros (c ∷ d ∷ s) =
    let rest = strip_zeros (d ∷ s) in if is_zero c && is_digit d then rest else c ∷ d ∷ s

-- `fraction ? whole.fraction : whole`
abbrev pub join_amount : String → String → String
join_amount whole [] = whole
join_amount whole (c ∷ s) = whole ++ "." ++ (c ∷ s)

abbrev canonical_of : Option (String × String) → Result String
canonical_of none = err unprocessable
canonical_of (some (whole, fraction)) =
    ok (join_amount (strip_zeros whole) (strip_end is_zero fraction))

pub canonical_amount : String → Result String
canonical_amount s = canonical_of (match_amount (trim s))

-- An error of the first argument comes before one of the second.
abbrev compare_canonical : Result String → Result String → Result (Unit {0})
compare_canonical (err e) b = err e
compare_canonical (ok a) (err e) = err e
compare_canonical (ok a) (ok b) = if str_eq a b then ok tt else err unprocessable

pub assert_transaction_amount_integrity : String → String → Result (Unit {0})
assert_transaction_amount_integrity approved persisted =
    compare_canonical (canonical_amount approved) (canonical_amount persisted)
