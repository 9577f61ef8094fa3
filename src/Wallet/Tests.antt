-- ===== src/Wallet/Tests.antt =====
-- The theorems on a table that is a list of rows, where a public key is the identifier.
use afro_pay_stellar.Prelude.{
  ◌≤◌, min, String, ◌≡◌, ◌≢◌, refl, sym, ap, ◌∙◌, true≢false, subst, not, Option, none, some, List,
  [], ◌∷◌, ◌++◌, str_eq_iff, filter, All, Bool-cases, inl, inr, ◌>>=◌,
}
use afro_pay_stellar.Wallet.{
  Wallet, NewWallet, WalletTable, IsWalletTable, update_where, has_id, is_of, is_default_of,
  find_first,
}
use afro_pay_stellar.Wallet.Counting.{count}
use afro_pay_stellar.Wallet.Service.{create_wallet, delete_wallet, set_default_wallet}
use afro_pay_stellar.Wallet.Sequence.{
  Op, creating, choosing, deleting, run_all, run, run_all-IsOrderly,
}

abbrev row_of : NewWallet → Wallet
row_of n = record {
  id = n.public_key;
  user_id = n.user_id;
  public_key = n.public_key;
  alias = n.alias;
  is_default = n.is_default;
  encrypted_secret = none;
}

abbrev insert_row : Option Wallet → NewWallet → List Wallet → Option (Wallet × List Wallet)
insert_row (some old) n t = none
insert_row none n t = some (row_of n, t ++ row_of n ∷ [])

abbrev if_there : Option Wallet → List Wallet → Option (List Wallet)
if_there none t = none
if_there (some w) t = some t

abbrev table : WalletTable
table = record {
  Rows = List Wallet;
  all = λ t. t;
  create = λ n t. insert_row (find_first (has_id n.public_key) t) n t;
  update = λ id f t. if_there (find_first (has_id id) t) (update_where (has_id id) f t);
  update_many = λ p f t. update_where p f t;
  delete = λ id t. some (filter (λ w. not (has_id id w)) t);
}

find_first-fresh :
    (id : String) (t : List Wallet) → find_first (has_id id) t ≡ none → All (λ x. x.id ≢ id) t
find_first-fresh id [] h = tt
find_first-fresh id (w ∷ ws) h = elim (Bool-cases (has_id id w)) [
  | inl hit ↦ let e : ◌≡◌ {A = Option Wallet} (some w) none = rw hit at h in absurd (cc e)
  | inr miss ↦ (
    (λ e. absurd (true≢false (sym ((str_eq_iff w.id id).1 e) ∙ miss))),
    find_first-fresh id ws (rw miss at h),
  )
]

insert_row-some :
    (o : Option Wallet) (n : NewWallet) (t t' : List Wallet) (w : Wallet)
    → insert_row o n t ≡ some (w, t')
    → (o ≡ none) × (row_of n ≡ w) × (t ++ row_of n ∷ [] ≡ t')
insert_row-some none n t t' w h = (refl, cc h, cc h)
insert_row-some (some old) n t t' w h = absurd (cc h)

if_there-some : (o : Option Wallet) (t t' : List Wallet) → if_there o t ≡ some t' → t' ≡ t
if_there-some none t t' h = absurd (cc h)
if_there-some (some w) t t' h = cc h

table-IsWalletTable : IsWalletTable table
table-IsWalletTable = record {
  all-create = λ n t t' w h.
      let made = insert_row-some (find_first (has_id n.public_key) t) n t t' w h in
      (
        sym made.2 ∙ ap (λ r. t ++ r ∷ []) made.1,
        sym (ap (λ r. r.user_id) made.1),
        sym (ap (λ r. r.is_default) made.1),
        subst (λ k. All (λ x. x.id ≢ k) t) (ap (λ r. r.id) made.1)
            (find_first-fresh n.public_key t made.0),
      );
  all-update = λ id f t t' h. if_there-some (find_first (has_id id) t) _ t' h;
  all-update_many = λ p f t. refl;
  all-delete = λ id t t' h. sym (cc h);
  update-present =
      λ id b t w h. (update_where (has_id id) (λ x. record x { is_default = b }) t, rw h refl);
}

abbrev calls : List Op
calls =
    creating (some "mainnet") "ada" "G1" none
    ∷ creating (some "mainnet") "ada" "G2" (some "spare")
    ∷ choosing "G2" "ada"
    ∷ deleting "G2" "ada"
    ∷ []

run_all-IsOrderly_example :
    (count (is_of "ada") (run_all table calls []) ≤ 5)
    × (count (is_default_of "ada") (run_all table calls [])
        ≡ min 1 (count (is_of "ada") (run_all table calls [])))
run_all-IsOrderly_example = run_all-IsOrderly table table-IsWalletTable calls [] "ada" refl

one_left : count (is_of "ada") (run_all table calls []) ≡ 1
unfolding run_all run create_wallet delete_wallet set_default_wallet ◌>>=◌
one_left = refl
