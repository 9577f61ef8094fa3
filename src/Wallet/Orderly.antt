-- ===== src/Wallet/Orderly.antt =====
-- The operations of apps/api/src/wallet/wallet.service.ts keep the wallets of every user in order.
use afro_pay_stellar.Prelude.{
  String, ◌≡◌, refl, sym, ap, subst, ◌∙◌, Bool, true, Option, none, some, List, arith, str_eq,
  str_eq_iff, Bool-cases, Option-cases, ◌⊎◌, inl, inr, Error, not_found, failure, ok, err, ◌>>=◌,
  or_throw, min,
}
use afro_pay_stellar.Wallet.{
  Wallet, WalletTable, IsWalletTable, update_where, has_id, is_of, is_default_of, find_first,
}
use afro_pay_stellar.Wallet.Service.{update_row, get_wallet_by_id, set_default_wallet}
use afro_pay_stellar.Wallet.Counting.{clear, set_default, count-update, Distinct-update}
use afro_pay_stellar.Wallet.Defaults.{IsOrderly, IsOrderly-set, find-update, cleared_row}

or_throw-state : {S A : Type 0} (o : Option A) (s : S) → (or_throw o failure s).1 ≡ s
unfolding or_throw
or_throw-state none s = refl
or_throw-state (some a) s = refl

module _ (table : WalletTable) (lawful : IsWalletTable table) where
  abbrev pub InOrder : table.Rows → Type 0
  InOrder t = IsOrderly (table.all t)

  -- What `getWalletById` finds.
  abbrev pub Owns : String → String → table.Rows → Wallet → Type 0
  Owns id user t w = (find_first (has_id id) (table.all t) ≡ some w) × (w.user_id ≡ user)

  pub get_wallet_cases :
      (id user : String) (t : table.Rows)
      → (get_wallet_by_id table id user t ≡ (err not_found, t))
        ⊎ ((w : Wallet) × Owns id user t w × (get_wallet_by_id table id user t ≡ (ok w, t)))
  unfolding get_wallet_by_id ◌>>=◌
  get_wallet_cases id user t = elim (Option-cases (find_first (has_id id) (table.all t))) [
    | inl none_there ↦ rw (none_there, get_wallet_by_id) (inl refl)
    | inr (w, found) ↦ elim (Bool-cases (str_eq w.user_id user)) [
      | inl own ↦
          rw (found, get_wallet_by_id)
            (rw (own, get_wallet_by_id) (inr (w, (refl, (str_eq_iff w.user_id user).0 own), refl)))
      | inr foreign ↦ rw (found, get_wallet_by_id) (rw (foreign, get_wallet_by_id) (inl refl))
    ]
  ]

  update_row-some :
      (id : String) (f : Wallet → Wallet) (t t' : table.Rows)
      → table.update id f t ≡ some t'
      → (update_row table id f t).1 ≡ t'
  unfolding update_row or_throw
  update_row-some id f t t' h =
      rw (h, update_row) (or_throw-state (find_first (has_id id) (table.all t')) t')

  update_row-none :
      (id : String) (f : Wallet → Wallet) (t : table.Rows)
      → table.update id f t ≡ none
      → (update_row table id f t).1 ≡ t
  unfolding update_row
  update_row-none id f t h = rw (h, update_row) refl

  abbrev pub Moved : String → String → table.Rows → table.Rows → Type 0
  Moved id user t t' =
      table.all t'
      ≡ update_where (has_id id) set_default (update_where (is_default_of user) clear (table.all t))

  set_default-refused :
      (id user : String) (t : table.Rows) (e : Error)
      → get_wallet_by_id table id user t ≡ (err e, t)
      → set_default_wallet table id user t ≡ (err e, t)
  unfolding set_default_wallet ◌>>=◌
  set_default-refused id user t e h = rw (h, set_default_wallet) refl

  set_default-goes :
      (id user : String) (t : table.Rows) (w : Wallet)
      → get_wallet_by_id table id user t ≡ (ok w, t)
      → set_default_wallet table id user t
        ≡ update_row table id set_default (table.update_many (is_default_of user) clear t)
  unfolding set_default_wallet ◌>>=◌
  set_default-goes id user t w h = rw (h, set_default_wallet) refl

  set_default-moves :
      (id user : String) (t : table.Rows) (w : Wallet)
      → Owns id user t w
      → get_wallet_by_id table id user t ≡ (ok w, t)
      → Moved id user t (set_default_wallet table id user t).1
  set_default-moves id user t w owns got =
      let cleared = table.update_many (is_default_of user) clear t in
      let rows = lawful.all-update_many (is_default_of user) clear t in
      let here =
        subst (λ ws. find_first (has_id id) ws ≡ some (cleared_row user w)) (sym rows)
          (find-update (is_default_of user) clear (λ x. refl) id (table.all t) w owns.0) in
      let (t', wrote) = lawful.update-present id true cleared (cleared_row user w) here in
      ap (λ x. table.all x.1) (set_default-goes id user t w got)
      ∙ ap table.all (update_row-some id set_default cleared t' wrote)
      ∙ lawful.all-update id set_default cleared t' wrote
      ∙ ap (update_where (has_id id) set_default) rows

  pub set_default_cases :
      (id user : String) (t : table.Rows)
      → (set_default_wallet table id user t ≡ (err not_found, t))
        ⊎ ((w : Wallet) × Owns id user t w × Moved id user t (set_default_wallet table id user t).1)
  set_default_cases id user t = elim (get_wallet_cases id user t) [
    | inl refused ↦ inl (set_default-refused id user t not_found refused)
    | inr (w, owns, got) ↦ inr (w, owns, set_default-moves id user t w owns got)
  ]

  -- Moving the default keeps the order.
  pub set_default-InOrder :
      (id user : String) (t : table.Rows)
      → InOrder t
      → InOrder (set_default_wallet table id user t).1
  set_default-InOrder id user t h = elim (set_default_cases id user t) [
    | inl same ↦ rw same h
    | inr (w, owns, moved) ↦ rw moved (IsOrderly-set id user (table.all t) w h owns.0 owns.1)
  ]

  -- A write that leaves owner, identifier and flag alone.
  write-IsOrderly :
      (q : Wallet → Bool) (f : Wallet → Wallet) (ws : List Wallet)
      → ((w : Wallet) → (f w).id ≡ w.id)
      → ((w : Wallet) (user : String) → is_of user (f w) ≡ is_of user w)
      → ((w : Wallet) (user : String) → is_default_of user (f w) ≡ is_default_of user w)
      → IsOrderly ws
      → IsOrderly (update_where q f ws)
  write-IsOrderly q f ws ids owners flags h = (
    Distinct-update q f ids ws h.0,
    λ user.
        let owned = count-update q f (is_of user) (λ w. owners w user) ws in
        let defaults = count-update q f (is_default_of user) (λ w. flags w user) ws in
        (omega (arith, owned, (h.1 user).0), defaults ∙ (h.1 user).1 ∙ ap (min 1) (sym owned)),
  )

  pub update_row-InOrder :
      (id : String) (f : Wallet → Wallet) (t : table.Rows)
      → ((w : Wallet) → (f w).id ≡ w.id)
      → ((w : Wallet) (user : String) → is_of user (f w) ≡ is_of user w)
      → ((w : Wallet) (user : String) → is_default_of user (f w) ≡ is_default_of user w)
      → InOrder t
      → InOrder (update_row table id f t).1
  update_row-InOrder id f t ids owners flags h = elim (Option-cases (table.update id f t)) [
    | inl refused ↦ rw (update_row-none id f t refused) h
    | inr (t', wrote) ↦
        rw (update_row-some id f t t' wrote, lawful.all-update id f t t' wrote)
          (write-IsOrderly (has_id id) f (table.all t) ids owners flags h)
  ]
