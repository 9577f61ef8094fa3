-- ===== src/Wallet/Defaults.antt =====
-- The rows of the wallets in apps/api/src/wallet/wallet.service.ts: no more than five for a user, and
-- one default among them.
use afro_pay_stellar.Prelude.{
  ◌+◌, ◌≤◌, ◌<◌, min, String, ◌≡◌, ◌≢◌, refl, sym, ap, subst, ◌∙◌, Bool, true, false, true≢false,
  not, some, List, [], ◌∷◌, ◌++◌, arith, ◌==◌, str_eq, str_eq_iff, if◌then◌else◌, filter, All,
  Bool-cases, inl, inr,
}
use afro_pay_stellar.Wallet.{Wallet, update_where, has_id, is_of, is_default_of, find_first}
use afro_pay_stellar.Wallet.Counting.{
  count, Distinct, clear, set_default, count-append, Distinct-append, count-update, Distinct-update,
  clear-own, clear-other, count-set, count-delete, count-found, find_first-hit, find_first-miss,
  Distinct-filter,
}

abbrev pub IsOrderly : List Wallet → Type 0
IsOrderly ws =
    Distinct ws
    × ((user : String)
        → (count (is_of user) ws ≤ 5)
          × (count (is_default_of user) ws ≡ min 1 (count (is_of user) ws)))

pub IsOrderly-create :
    (ws : List Wallet) (w : Wallet)
    → IsOrderly ws
    → All (λ x. x.id ≢ w.id) ws
    → count (is_of w.user_id) ws < 5
    → w.is_default ≡ (count (is_of w.user_id) ws == 0)
    → IsOrderly (ws ++ w ∷ [])
IsOrderly-create ws w h fresh room first = (
  Distinct-append ws w fresh h.0,
  λ user. elim (Bool-cases (is_of user w)) [
    | inl own ↦
        let same = (str_eq_iff w.user_id user).0 own in
        let room' : count (is_of user) ws < 5 = subst (λ u. count (is_of u) ws < 5) same room in
        let first' : w.is_default ≡ (count (is_of user) ws == 0) =
          subst (λ u. w.is_default ≡ (count (is_of u) ws == 0)) same first in
        ground (
          arith,
          count-append (is_of user) ws w,
          count-append (is_default_of user) ws w,
          h.1 user,
          own,
          room',
          first',
        )
    | inr foreign ↦ ground (
      arith,
      count-append (is_of user) ws w,
      count-append (is_default_of user) ws w,
      h.1 user,
      foreign,
    )
  ],
)

module _ (q : Wallet → Bool) (f : Wallet → Wallet) (keeps : (w : Wallet) → (f w).id ≡ w.id) where
  updated-id : (w : Wallet) → (if q w then f w else w).id ≡ w.id
  updated-id w = elim (Bool-cases (q w)) [ inl h ↦ rw h (keeps w) | inr h ↦ rw h refl ]

  head-update :
      (id : String) (x : Wallet) (ws : List Wallet)
      → has_id id x ≡ true
      → find_first (has_id id) (update_where q f (x ∷ ws)) ≡ some (if q x then f x else x)
  head-update id x ws hit = rw (ap (λ k. str_eq k id) (updated-id x) ∙ hit) refl

  head-other :
      (id : String) (x : Wallet) (ws : List Wallet)
      → has_id id x ≡ false
      → find_first (has_id id) (update_where q f (x ∷ ws))
        ≡ find_first (has_id id) (update_where q f ws)
  head-other id x ws miss = rw (ap (λ k. str_eq k id) (updated-id x) ∙ miss) refl

  pub find-update :
      (id : String) (ws : List Wallet) (w : Wallet)
      → find_first (has_id id) ws ≡ some w
      → find_first (has_id id) (update_where q f ws) ≡ some (if q w then f w else w)
  find-update id [] w h = absurd (cc h)
  find-update id (x ∷ ws) w h = elim (Bool-cases (has_id id x)) [
    | inl hit ↦
        let same : x ≡ w = find_first-hit (has_id id) x w ws hit h in
        subst
          (λ y. find_first (has_id id) (update_where q f (x ∷ ws)) ≡ some (if q y then f y else y))
          same (head-update id x ws hit)
    | inr miss ↦
        head-other id x ws miss ∙ find-update id ws w (find_first-miss (has_id id) x w ws miss h)
  ]

abbrev pub cleared_row : String → Wallet → Wallet
cleared_row user w = if is_default_of user w then clear w else w

pub cleared_row-plain :
    (user : String) (w : Wallet) → w.user_id ≡ user → (cleared_row user w).is_default ≡ false
cleared_row-plain user w own = ground (arith, str_eq_iff w.user_id user)

cleared_row-of : (user v : String) (w : Wallet) → is_of v (cleared_row user w) ≡ is_of v w
cleared_row-of user v w = elim (Bool-cases (is_default_of user w)) [
  | inl h ↦ rw h refl
  | inr h ↦ rw h refl
]

pub IsOrderly-set :
    (id user : String) (ws : List Wallet) (w : Wallet)
    → IsOrderly ws
    → find_first (has_id id) ws ≡ some w
    → w.user_id ≡ user
    → IsOrderly (update_where (has_id id) set_default (update_where (is_default_of user) clear ws))
IsOrderly-set id user ws w h found own =
    let cleared = update_where (is_default_of user) clear ws in
    let distinct = Distinct-update (is_default_of user) clear (λ x. refl) ws h.0 in
    let row = cleared_row user w in
    let here = find-update (is_default_of user) clear (λ x. refl) id ws w found in
    let plain = cleared_row-plain user w own in
    (
      Distinct-update (has_id id) set_default (λ x. refl) cleared distinct,
      λ v.
          let owned =
            count-update (has_id id) set_default (is_of v) (λ x. refl) cleared
            ∙ count-update (is_default_of user) clear (is_of v) (λ x. refl) ws in
          let defaults = count-set id cleared row v here distinct plain in
          elim (Bool-cases (is_of v w)) [
            | inl mine ↦
                let same : user ≡ v = sym own ∙ (str_eq_iff w.user_id v).0 mine in
                let none_left : count (is_default_of v) cleared ≡ 0 =
                  subst (λ u. count (is_default_of u) cleared ≡ 0) same (clear-own user ws) in
                let one : count (is_default_of v) (update_where (has_id id) set_default cleared)
                    ≡ 1 =
                  defaults ∙ rw (none_left, cleared_row-of user v w ∙ mine) refl in
                let some_owned = count-found id ws w (is_of v) found h.0 mine in
                (omega (arith, owned, (h.1 v).0), omega (arith, owned, one, some_owned))
            | inr other ↦
                let ne : user ≢ v =
                  λ e. true≢false (sym ((str_eq_iff w.user_id v).1 (own ∙ e)) ∙ other) in
                let same : count (is_default_of v) (update_where (has_id id) set_default cleared)
                    ≡ count (is_default_of v) ws + 0 =
                  defaults ∙ rw (clear-other user v ne ws, cleared_row-of user v w ∙ other) refl in
                (omega (arith, owned, (h.1 v).0), omega (arith, owned, same, (h.1 v).1))
          ],
    )

pub IsOrderly-delete :
    (id : String) (ws : List Wallet) (w : Wallet)
    → IsOrderly ws
    → find_first (has_id id) ws ≡ some w
    → w.is_default ≡ false
    → 2 ≤ count (is_of w.user_id) ws
    → IsOrderly (filter (λ x. not (has_id id x)) ws)
IsOrderly-delete id ws w h found plain two = (
  Distinct-filter id ws h.0,
  λ user. elim (Bool-cases (is_of user w)) [
    | inl own ↦ ground (
      arith,
      count-delete id ws w (is_of user) found h.0,
      count-delete id ws w (is_default_of user) found h.0,
      h.1 user,
      own,
      plain,
      subst (λ u. 2 ≤ count (is_of u) ws) ((str_eq_iff w.user_id user).0 own) two,
    )
    | inr foreign ↦ ground (
      arith,
      count-delete id ws w (is_of user) found h.0,
      count-delete id ws w (is_default_of user) found h.0,
      h.1 user,
      foreign,
    )
  ],
)
