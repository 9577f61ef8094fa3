-- ===== src/Wallet/Deleting.antt =====
-- `deleteWallet` of apps/api/src/wallet/wallet.service.ts.
use afro_pay_stellar.Prelude.{
  ◌≤◌, String, ◌≡◌, refl, sym, ap, subst, ◌∙◌, Bool, true, false, true≢false, not, ◌&&◌, Option,
  none, some, arith, leb, str_eq, str_eq_iff, filter, length, Bool-cases, Option-cases, inl, inr,
  failure, Result, ok, err, ◌>>=◌, Triple-bind, Triple-throw_if, Triple-gets, Triple-if,
  Triple-pure, Ends-both, Ends, pure,
}
use afro_pay_stellar.Wallet.{
  Wallet, WalletTable, IsWalletTable, update_where, has_id, is_of, is_default_of, find_first,
}
use afro_pay_stellar.Wallet.Service.{
  is_default_row, delete_row, get_wallet_by_id, set_default_wallet, hand_over, delete_wallet,
}
use afro_pay_stellar.Wallet.Counting.{
  count, clear, set_default, length-filter, count-update, another-exists, find_first-passes,
}
use afro_pay_stellar.Wallet.Defaults.{
  IsOrderly-set, IsOrderly-delete, find-update, cleared_row, cleared_row-plain,
}
use afro_pay_stellar.Wallet.Orderly.{InOrder, Owns, Moved, get_wallet_cases, set_default_cases}
use afro_pay_stellar.Wallet.Kept.{Keeps}

and_not : (x y : Bool) → (x && not y) ≡ true → y ≡ false
and_not true true h = sym h
and_not true false h = refl
and_not false y h = absurd (true≢false (sym h))

module _ (table : WalletTable) (lawful : IsWalletTable table) where
  -- The wallet at hand is the user's, and not the only one.
  abbrev Deletable : String → String → Wallet → table.Rows → Type 0
  Deletable id user w t =
      InOrder table lawful t
      × (Owns table lawful id user t w × (2 ≤ count (is_of user) (table.all t)))

  -- Nor is it the default.
  abbrev Ready : String → String → table.Rows → Type 0
  Ready id user t = (w : Wallet) × Deletable id user w t × (w.is_default ≡ false)

  Ends-Ready :
      {A : Type 0} (id user : String) (r : Result A) (t : table.Rows)
      → Ready id user t
      → Ends (λ _ s. Ready id user s) (InOrder table lawful) r t
  Ends-Ready id user (ok a) t h = h
  Ends-Ready id user (err e) t h = h.1.0

  cleared_row-id : (user : String) (w : Wallet) → (cleared_row user w).id ≡ w.id
  cleared_row-id user w = elim (Bool-cases (is_default_of user w)) [
    | inl h ↦ rw h refl
    | inr h ↦ rw h refl
  ]

  cleared_row-owner : (user : String) (w : Wallet) → (cleared_row user w).user_id ≡ w.user_id
  cleared_row-owner user w = elim (Bool-cases (is_default_of user w)) [
    | inl h ↦ rw h refl
    | inr h ↦ rw h refl
  ]

  str_eq-flip : (a b : String) → str_eq a b ≡ false → str_eq b a ≡ false
  str_eq-flip a b h = elim (Bool-cases (str_eq b a)) [
    | inl e ↦ absurd (true≢false (sym ((str_eq_iff a b).1 (sym ((str_eq_iff b a).0 e))) ∙ h))
    | inr e ↦ e
  ]

  Moved-Ready :
      (id user key : String) (w b : Wallet) (t t' : table.Rows)
      → Deletable id user w t
      → str_eq key id ≡ false
      → Owns table lawful key user t b
      → Moved table lawful key user t t'
      → Ready id user t'
  Moved-Ready id user key w b t t' h other owns moved =
      let ws = table.all t in
      let cleared = update_where (is_default_of user) clear ws in
      let row = cleared_row user w in
      let same_id : row.id ≡ id =
        cleared_row-id user w
        ∙ (str_eq_iff w.id id).0 (find_first-passes (has_id id) ws w h.1.0.0) in
      let first = find-update (is_default_of user) clear (λ x. refl) id ws w h.1.0.0 in
      let miss : has_id key row ≡ false =
        ap (λ k. str_eq k key) same_id ∙ str_eq-flip key id other in
      let second : find_first (has_id id) (update_where (has_id key) set_default cleared)
          ≡ some row =
        find-update (has_id key) set_default (λ x. refl) id cleared row first ∙ rw miss refl in
      let owned =
        count-update (has_id key) set_default (is_of user) (λ x. refl) cleared
        ∙ count-update (is_default_of user) clear (is_of user) (λ x. refl) ws in
      (
        row,
        (
          rw moved (IsOrderly-set key user ws b h.0 owns.0 owns.1),
          (
            (ap (find_first (has_id id)) moved ∙ second, cleared_row-owner user w ∙ h.1.0.1),
            subst (λ xs. 2 ≤ count (is_of user) xs) (sym moved) (omega (arith, owned, h.1.1)),
          ),
        ),
        cleared_row-plain user w h.1.0.1,
      )

  abbrev voided : Result Wallet → Result (Unit {0})
  voided (ok w) = ok tt
  voided (err e) = err e

  hand_over-voids :
      (user : String) (a : Wallet) (t : table.Rows) (r : Result Wallet) (t' : table.Rows)
      → set_default_wallet table a.id user t ≡ (r, t')
      → hand_over table user (some a) t ≡ (voided r, t')
  unfolding hand_over ◌>>=◌
  hand_over-voids user a t (ok w) t' h = rw (h, hand_over) refl
  hand_over-voids user a t (err e) t' h = rw (h, hand_over) refl

  hand_over-Ready :
      (id user : String) (w : Wallet) (another : Option Wallet) (t : table.Rows)
      → Deletable id user w t
      → another ≡ find_first (λ x. is_of user x && not (has_id id x)) (table.all t)
      → Ends
          (λ _ s. Ready id user s)
          (InOrder table lawful)
          (hand_over table user another t).0
          (hand_over table user another t).1
  unfolding hand_over ◌>>=◌
  hand_over-Ready id user w none t h found =
      let few = another-exists id user (table.all t) h.0.0 (sym found) in
      absurd (omega (arith, few, h.1.1))
  hand_over-Ready id user w (some a) t h found = elim (set_default_cases table lawful a.id user t) [
    | inl refused ↦
        subst (λ x. Ends (λ _ s. Ready id user s) (InOrder table lawful) x.0 x.1)
          (sym (hand_over-voids user a t _ _ refused)) h.0
    | inr (b, owns, moved) ↦
        let out = set_default_wallet table a.id user t in
        let other : has_id id a ≡ false = and_not (is_of user a) (has_id id a) (
          find_first-passes (λ x. is_of user x && not (has_id id x)) (table.all t) a (sym found)) in
        subst (λ x. Ends (λ _ s. Ready id user s) (InOrder table lawful) x.0 x.1)
          (sym (hand_over-voids user a t out.0 out.1 refl))
          (Ends-Ready id user (voided out.0) out.1
            (Moved-Ready id user a.id w b t out.1 h other owns moved))
  ]

  delete_row-InOrder :
      (id user : String) (t : table.Rows)
      → Ready id user t
      → InOrder table lawful (delete_row table id t).1
  unfolding delete_row
  delete_row-InOrder id user t (w, h, plain) = elim (Option-cases (table.delete id t)) [
    | inl refused ↦ rw refused h.0
    | inr (t', gone) ↦
        rw (gone, lawful.all-delete id t t' gone)
          (IsOrderly-delete id (table.all t) w h.0 h.1.0.0 plain
            (subst (λ u. 2 ≤ count (is_of u) (table.all t)) (sym h.1.0.1) h.1.1))
  ]

  plain-Ready :
      (id user : String) (w : Wallet) (found : Option Wallet) (t : table.Rows)
      → Deletable id user w t
      → found ≡ find_first (has_id id) (table.all t)
      → is_default_row found ≡ false
      → Ready id user t
  plain-Ready id user w found t h same plain =
      (w, h, sym (ap is_default_row (same ∙ h.1.0.0)) ∙ plain)

  got-Owns :
      (id user : String) (t : table.Rows)
      → InOrder table lawful t
      → Ends
          (λ w s. InOrder table lawful s × Owns table lawful id user s w)
          (InOrder table lawful)
          (get_wallet_by_id table id user t).0
          (get_wallet_by_id table id user t).1
  got-Owns id user t h = elim (get_wallet_cases table lawful id user t) [
    | inl refused ↦
        subst
          (λ x.
            Ends (λ w s. InOrder table lawful s × Owns table lawful id user s w)
              (InOrder table lawful) x.0 x.1)
          (sym refused) h
    | inr (w, owns, got) ↦
        subst
          (λ x.
            Ends (λ w s. InOrder table lawful s × Owns table lawful id user s w)
              (InOrder table lawful) x.0 x.1)
          (sym got) (h, owns)
  ]

  pub delete_wallet-Keeps : (id user : String) → Keeps table lawful (delete_wallet table id user)
  unfolding delete_wallet
  delete_wallet-Keeps id user =
      Triple-bind (λ w t. InOrder table lawful t × Owns table lawful id user t w)
        (record { run = λ t h. got-Owns id user t h })
        (λ w.
          Triple-bind
            (λ n t.
              (InOrder table lawful t × Owns table lawful id user t w)
              × (n ≡ length (filter (is_of user) (table.all t))))
            (Triple-gets (λ t. length (filter (is_of user) (table.all t))) (λ t h. (h, refl)))
            (λ n.
              Triple-bind (λ _ t. Deletable id user w t)
                (Triple-throw_if (leb n 1) failure (λ t h. h.0.0)
                  (λ e t h.
                    let counted = h.1 ∙ length-filter (is_of user) (table.all t) in
                    (h.0.0, (h.0.1, ground (arith, counted)))))
                (λ _.
                  Triple-bind
                    (λ found t.
                      Deletable id user w t × (found ≡ find_first (has_id id) (table.all t)))
                    (Triple-gets (λ t. find_first (has_id id) (table.all t)) (λ t h. (h, refl)))
                    (λ found.
                      Triple-bind
                        (λ another t.
                          (Deletable id user w t × (found ≡ find_first (has_id id) (table.all t)))
                          × (another
                              ≡ find_first (λ x. is_of user x && not (has_id id x)) (table.all t)))
                        (Triple-gets
                          (λ t. find_first (λ x. is_of user x && not (has_id id x)) (table.all t))
                          (λ t h. (h, refl)))
                        (λ another.
                          Triple-bind (λ _ t. Ready id user t)
                            (Triple-if (is_default_row found) (hand_over table user another)
                              (pure tt)
                              (λ e. record {
                                run = λ t h. hand_over-Ready id user w another t h.0.0 h.1;
                              })
                              (λ e.
                                Triple-pure tt
                                  (λ t h. plain-Ready id user w found t h.0.0 h.0.1 e)))
                            (λ _. record {
                              run = λ t h.
                                  Ends-both (InOrder table lawful) _ _
                                    (delete_row-InOrder id user t h);
                            }))))))
