-- ===== src/Sep24/Tests.antt =====
-- The theorems on a table that is a list of rows, with one token.
use afro_pay_stellar.Prelude.{
  ℕ, ◌/◌, String, ◌≡◌, refl, sym, ap, ◌∙◌, Bool, true, false, Option, none, some, List, [], ◌∷◌,
  arith, ltb, str_eq, str_eq_iff, if◌then◌else◌, Bool-cases, inl, inr, ◌>>=◌, ok, err, Error,
}
use afro_pay_stellar.Sep24.{
  deposit, Session, Sep24SessionPayload, Jwt, SessionTable, Interactive, Confirmed, new_session,
  confirmed_row, confirmation,
}
use afro_pay_stellar.Sep24.Sessions.{
  sign_session_token, get_session_data, confirm_interactive_session, confirm_row,
  create_interactive_session,
}
use afro_pay_stellar.Sep24.Steps.{IsSessionTable}
use afro_pay_stellar.Sep24.Settled.{getting, confirming, run_all}
use afro_pay_stellar.Sep24.Once.{IsConfirmed, confirm-once}
use afro_pay_stellar.Sep24.Expiry.{
  IsToken, expired_token-unmarked, PassesOrRefuses, Reads, creation, get_session_data-create,
}
use afro_pay_stellar.Sep24.Race.{late_confirm-overwrites}

abbrev find_row : String → List (Session String) → Option (Session String)
find_row k [] = none
find_row k (r ∷ rs) = if str_eq r.session_token k then some r else find_row k rs

abbrev find_by_id : String → List (Session String) → Option (Session String)
find_by_id k [] = none
find_by_id k (r ∷ rs) = if str_eq r.id k then some r else find_by_id k rs

abbrev write_row : Session String → List (Session String) → List (Session String)
write_row r [] = []
write_row r (x ∷ xs) =
    let rest = write_row r xs in if str_eq x.session_token r.session_token then r ∷ xs else x ∷ rest

abbrev insert_row :
    Option (Session String)
    → Session String
    → List (Session String)
    → Option (List (Session String))
insert_row (some old) r rs = none
insert_row none r rs = some (r ∷ rs)

abbrev table : SessionTable String
table = record {
  Rows = List (Session String);
  find_token = find_row;
  find_id = find_by_id;
  create = λ r rs. insert_row (find_row r.session_token rs) r rs;
  write = write_row;
  find_many = λ f n rs. [];
}

find_row-token :
    (k : String) (r : Session String) (rs : List (Session String))
    → find_row k rs ≡ some r
    → r.session_token ≡ k
find_row-token k r [] h = absurd (cc h)
find_row-token k r (x ∷ xs) h = elim (Bool-cases (str_eq x.session_token k)) [
  | inl hit ↦
      let e : ◌≡◌ {A = Option (Session String)} (some x) (some r) = rw hit at h in
      let same : x ≡ r = cc e in
      ap (λ s. s.session_token) (sym same) ∙ (str_eq_iff x.session_token k).0 hit
  | inr miss ↦ find_row-token k r xs (rw miss at h)
]

find_row-write :
    (k : String) (r old : Session String) (rs : List (Session String))
    → find_row r.session_token rs ≡ some old
    → find_row k (write_row r rs) ≡ (if str_eq r.session_token k then some r else find_row k rs)
find_row-write k r old [] h = absurd (cc h)
find_row-write k r old (x ∷ xs) h = ground (
  arith,
  str_eq_iff x.session_token r.session_token,
  str_eq_iff r.session_token k,
  str_eq_iff x.session_token k,
  find_row-write k r old xs,
)

insert_row-some :
    (o : Option (Session String)) (r : Session String) (rs rs' : List (Session String))
    → insert_row o r rs ≡ some rs'
    → (o ≡ none) × (r ∷ rs ≡ rs')
insert_row-some none r rs rs' h = (refl, cc h)
insert_row-some (some old) r rs rs' h = absurd (cc h)

table-IsSessionTable : IsSessionTable table
table-IsSessionTable = record {
  token-found = find_row-token;
  fresh = λ r t t' h. (insert_row-some (find_row r.session_token t) r t t' h).0;
  find-create =
      λ k r t t' h. ap (find_row k) (sym (insert_row-some (find_row r.session_token t) r t t' h).1);
  find-write = λ k r old t h id. find_row-write k r old t h;
}

-- A token that is valid for 1 800 s from the second 1 000.
abbrev payload : Sep24SessionPayload
payload = record { tx_id = "aa"; account = "GA"; kind = deposit }

abbrev verified : Bool → Option Sep24SessionPayload
verified true = some payload
verified false = none

abbrev jwt : Jwt
jwt = record {
  sign = λ p ttl now. "token";
  verify = λ token now. verified (ltb (now / 1_000) 2_800);
}

jwt-IsToken : IsToken jwt payload 1_800 1_000_500
jwt-IsToken = record {
  valid = λ now h. let e : ltb (now / 1_000) 2_800 ≡ true = ground arith in rw e refl;
  expired = λ now h. let e : ltb (now / 1_000) 2_800 ≡ false = ground arith in rw e refl;
}

abbrev session : Session String
session = new_session "row" 1_000_500 1_800 "GA" deposit "USDC" none (some "10") "token"

abbrev answer : Confirmed
answer = confirmation (confirmed_row 1_200_000 "memo1" "form" "bank" none session)

confirmed_first :
    (confirm_interactive_session jwt table 1_200_000 "memo1" "token" "form" "bank" none
      (session ∷ [])).0
    ≡ ok answer
unfolding confirm_interactive_session ◌>>=◌
confirmed_first = refl

confirm-once_example :
    let later =
      run_all jwt table
        (getting 1_300_000 "token" ∷ confirming 1_400_000 "memo2" "token" "x" "y" none ∷ [])
        (confirm_interactive_session jwt table 1_200_000 "memo1" "token" "form" "bank" none
          (session ∷ [])).1 in
    IsConfirmed jwt table "token" "memo1" answer later
    × ((now' : ℕ) → (e : Error) × (get_session_data jwt table now' "token" later ≡ (err e, later)))
    × ((now' : ℕ) (memo' : String) (form' : String) (pay' : String) (amount' : Option String)
        → (e : Error) × (confirm_interactive_session jwt table now' memo' "token" form' pay' amount'
              later
            ≡ (err e, later)))
confirm-once_example =
    confirm-once jwt table table-IsSessionTable 1_200_000 "memo1" "token" "form" "bank" none
      (session ∷ []) answer
      (getting 1_300_000 "token" ∷ confirming 1_400_000 "memo2" "token" "x" "y" none ∷ [])
      confirmed_first

abbrev interactive : Interactive
interactive = record { url = "https://app?token"; id = "row" }

get_session_data-create_example :
    Reads jwt table
      (λ t. "https://app?token")
      1_800
      1_000_500
      "aa"
      "row"
      "GA"
      deposit
      "USDC"
      none
      (some "10")
      2_000_000
      interactive
      (creation jwt table
        (λ t. "https://app?token")
        1_800
        1_000_500
        "aa"
        "row"
        "GA"
        deposit
        "USDC"
        none
        (some "10")
        []).1
unfolding sign_session_token create_interactive_session ◌>>=◌
get_session_data-create_example =
    get_session_data-create jwt table (λ t. "https://app?token") 1_800 1_000_500 "aa" "row" "GA"
      deposit "USDC" none (some "10") table-IsSessionTable jwt-IsToken [] interactive 2_000_000 refl
      (omega arith)

expired_token-unmarked_example :
    PassesOrRefuses jwt table
      (λ t. "https://app?token")
      1_800
      1_000_500
      "aa"
      "row"
      "GA"
      deposit
      "USDC"
      none
      (some "10")
      3_000_000
      "memo"
      "form"
      "bank"
      none
      (creation jwt table
        (λ t. "https://app?token")
        1_800
        1_000_500
        "aa"
        "row"
        "GA"
        deposit
        "USDC"
        none
        (some "10")
        []).1
unfolding sign_session_token create_interactive_session ◌>>=◌
expired_token-unmarked_example =
    expired_token-unmarked jwt table (λ t. "https://app?token") 1_800 1_000_500 "aa" "row" "GA"
      deposit "USDC" none (some "10") table-IsSessionTable jwt-IsToken [] interactive 3_000_000
      "memo" "form" "bank" none refl

late_confirm-overwrites_example :
    let first = confirm_row jwt table 1_200_000 "memo1" "form" "bank" none session (session ∷ []) in
    let second = confirm_row jwt table 1_200_001 "memo2" "form2" "cash" none session first.1 in
    (first.0 ≡ ok (confirmation (confirmed_row 1_200_000 "memo1" "form" "bank" none session)))
    × (second.0 ≡ ok (confirmation (confirmed_row 1_200_001 "memo2" "form2" "cash" none session)))
    × (table.find_token "token" second.1
        ≡ some (confirmed_row 1_200_001 "memo2" "form2" "cash" none session))
late_confirm-overwrites_example =
    late_confirm-overwrites jwt table table-IsSessionTable 1_200_000 1_200_001 "memo1" "memo2"
      "token" "form" "form2" "bank" "cash" none none session (session ∷ []) refl
