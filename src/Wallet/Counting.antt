-- ===== src/Wallet/Counting.antt =====
-- Counting the rows of the table of wallets, and what the writes of
-- apps/api/src/wallet/wallet.service.ts do to the counts.
use afro_pay_stellar.Prelude.{
  ℕ, ◌+◌, ◌≤◌, String, ◌≡◌, ◌≢◌, refl, sym, ap, subst, ◌∙◌, Bool, true, false, not, ◌&&◌, Option,
  none, some, List, [], ◌∷◌, ◌++◌, arith, str_eq_iff, if◌then◌else◌, filter, length, All, All-map,
  Bool-cases, inl, inr,
}
use afro_pay_stellar.Wallet.{Wallet, update_where, has_id, is_of, is_default_of, find_first}

abbrev pub count : (Wallet → Bool) → List Wallet → ℕ
count p [] = 0
count p (w ∷ ws) = (if p w then 1 else 0) + count p ws

abbrev pub Distinct : List Wallet → Type 0
Distinct [] = Unit
Distinct (w ∷ ws) = All (λ x. x.id ≢ w.id) ws × Distinct ws

abbrev pub clear : Wallet → Wallet
clear w = record w { is_default = false }

abbrev pub set_default : Wallet → Wallet
set_default w = record w { is_default = true }

pub length-filter : (p : Wallet → Bool) (ws : List Wallet) → length (filter p ws) ≡ count p ws
length-filter p [] = refl
length-filter p (w ∷ ws) = ground (arith, length-filter p ws)

pub count-append :
    (p : Wallet → Bool) (ws : List Wallet) (w : Wallet)
    → count p (ws ++ w ∷ []) ≡ count p ws + (if p w then 1 else 0)
count-append p [] w = ground arith
count-append p (x ∷ ws) w = omega (arith, count-append p ws w)

All-last :
    (w x : Wallet) (ws : List Wallet)
    → All (λ y. y.id ≢ w.id) ws
    → x.id ≢ w.id
    → All (λ y. y.id ≢ w.id) (ws ++ x ∷ [])
All-last w x [] h k = (k, tt)
All-last w x (y ∷ ws) h k = (h.0, All-last w x ws h.1 k)

pub Distinct-append :
    (ws : List Wallet) (w : Wallet)
    → All (λ x. x.id ≢ w.id) ws
    → Distinct ws
    → Distinct (ws ++ w ∷ [])
Distinct-append [] w h d = (tt, tt)
Distinct-append (x ∷ ws) w h d =
    (All-last x w ws d.0 (λ e. h.0 (sym e)), Distinct-append ws w h.1 d.1)

module _ (q : Wallet → Bool) (f : Wallet → Wallet) where
  module _ (p : Wallet → Bool) (same : (w : Wallet) → p (f w) ≡ p w) where
    -- A write that does not matter to the test.
    pub count-update : (ws : List Wallet) → count p (update_where q f ws) ≡ count p ws
    count-update [] = refl
    count-update (w ∷ ws) = elim (Bool-cases (q w)) [
      | inl h ↦ rw (h, same w, count-update ws) refl
      | inr h ↦ rw (h, count-update ws) refl
    ]

  module _ (keeps : (w : Wallet) → (f w).id ≡ w.id) where
    All-update :
        (id : String) (ws : List Wallet)
        → All (λ x. x.id ≢ id) ws
        → All (λ x. x.id ≢ id) (update_where q f ws)
    All-update id [] h = tt
    All-update id (w ∷ ws) h = elim (Bool-cases (q w)) [
      | inl e ↦ rw e ((λ k. h.0 (sym (keeps w) ∙ k)), All-update id ws h.1)
      | inr e ↦ rw e (h.0, All-update id ws h.1)
    ]

    pub Distinct-update : (ws : List Wallet) → Distinct ws → Distinct (update_where q f ws)
    Distinct-update [] d = tt
    Distinct-update (w ∷ ws) d = elim (Bool-cases (q w)) [
      | inl e ↦ rw (e, keeps w) (All-update w.id ws d.0, Distinct-update ws d.1)
      | inr e ↦ rw e (All-update w.id ws d.0, Distinct-update ws d.1)
    ]

pub clear-own :
    (user : String) (ws : List Wallet)
    → count (is_default_of user) (update_where (is_default_of user) clear ws) ≡ 0
clear-own user [] = refl
clear-own user (w ∷ ws) = elim (Bool-cases (is_default_of user w)) [
  | inl h ↦ ground (arith, clear-own user ws)
  | inr h ↦ rw (h, clear-own user ws) (rw h refl)
]

pub clear-other :
    (user v : String)
    → user ≢ v
    → (ws : List Wallet)
    → count (is_default_of v) (update_where (is_default_of user) clear ws)
      ≡ count (is_default_of v) ws
clear-other user v ne [] = refl
clear-other user v ne (w ∷ ws) =
    ground (arith, str_eq_iff w.user_id user, str_eq_iff w.user_id v, clear-other user v ne ws)

absent-update :
    (id : String) (f : Wallet → Wallet) (ws : List Wallet)
    → All (λ x. x.id ≢ id) ws
    → update_where (has_id id) f ws ≡ ws
absent-update id f [] h = refl
absent-update id f (w ∷ ws) h = elim (Bool-cases (has_id id w)) [
  | inl e ↦ absurd (h.0 ((str_eq_iff w.id id).0 e))
  | inr e ↦ rw (e, absent-update id f ws h.1) refl
]

absent-filter :
    (id : String) (ws : List Wallet)
    → All (λ x. x.id ≢ id) ws
    → filter (λ x. not (has_id id x)) ws ≡ ws
absent-filter id [] h = refl
absent-filter id (w ∷ ws) h = elim (Bool-cases (has_id id w)) [
  | inl e ↦ absurd (h.0 ((str_eq_iff w.id id).0 e))
  | inr e ↦ rw (e, absent-filter id ws h.1) refl
]

same_id :
    (id : String) (x : Wallet) (ws : List Wallet)
    → has_id id x ≡ true
    → All (λ y. y.id ≢ x.id) ws
    → All (λ y. y.id ≢ id) ws
same_id id x ws hit d = All-map (λ y ne e. ne (e ∙ sym ((str_eq_iff x.id id).0 hit))) ws d

pub find_first-hit :
    (p : Wallet → Bool) (x w : Wallet) (ws : List Wallet)
    → p x ≡ true
    → find_first p (x ∷ ws) ≡ some w
    → x ≡ w
find_first-hit p x w ws hit h =
    let e : ◌≡◌ {A = Option Wallet} (some x) (some w) = rw hit at h in cc e

pub find_first-miss :
    (p : Wallet → Bool) (x w : Wallet) (ws : List Wallet)
    → p x ≡ false
    → find_first p (x ∷ ws) ≡ some w
    → find_first p ws ≡ some w
find_first-miss p x w ws miss h = rw miss at h

set-here :
    (id : String) (ws : List Wallet) (w : Wallet) (user : String)
    → All (λ y. y.id ≢ id) ws
    → has_id id w ≡ true
    → w.is_default ≡ false
    → count (is_default_of user) (update_where (has_id id) set_default (w ∷ ws))
      ≡ count (is_default_of user) (w ∷ ws) + (if is_of user w then 1 else 0)
set-here id ws w user d hit e = rw (hit, absent-update id set_default ws d) (ground arith)

delete-here :
    (id : String) (ws : List Wallet) (w : Wallet) (p : Wallet → Bool)
    → All (λ y. y.id ≢ id) ws
    → has_id id w ≡ true
    → count p (filter (λ x. not (has_id id x)) (w ∷ ws)) + (if p w then 1 else 0) ≡ count p (w ∷ ws)
delete-here id ws w p d hit = rw (hit, absent-filter id ws d) (omega arith)

-- The row of an identifier among rows with different ones.
pub count-set :
    (id : String) (ws : List Wallet) (w : Wallet) (user : String)
    → find_first (has_id id) ws ≡ some w
    → Distinct ws
    → w.is_default ≡ false
    → count (is_default_of user) (update_where (has_id id) set_default ws)
      ≡ count (is_default_of user) ws + (if is_of user w then 1 else 0)
count-set id [] w user h d e = absurd (cc h)
count-set id (x ∷ ws) w user h d e = elim (Bool-cases (has_id id x)) [
  | inl hit ↦
      (let same = find_first-hit (has_id id) x w ws hit h in
        subst
          (λ y.
            count (is_default_of user) (update_where (has_id id) set_default (x ∷ ws))
            ≡ count (is_default_of user) (x ∷ ws) + (if is_of user y then 1 else 0))
          same
          (set-here id ws x user (same_id id x ws hit d.0) hit (ap (λ y. y.is_default) same ∙ e)))
  | inr miss ↦
      rw miss
        (omega (arith, count-set id ws w user (find_first-miss (has_id id) x w ws miss h) d.1 e))
]

pub count-delete :
    (id : String) (ws : List Wallet) (w : Wallet) (p : Wallet → Bool)
    → find_first (has_id id) ws ≡ some w
    → Distinct ws
    → count p (filter (λ x. not (has_id id x)) ws) + (if p w then 1 else 0) ≡ count p ws
count-delete id [] w p h d = absurd (cc h)
count-delete id (x ∷ ws) w p h d = elim (Bool-cases (has_id id x)) [
  | inl hit ↦
      subst
        (λ y.
          count p (filter (λ x'. not (has_id id x')) (x ∷ ws)) + (if p y then 1 else 0)
          ≡ count p (x ∷ ws))
        (find_first-hit (has_id id) x w ws hit h)
        (delete-here id ws x p (same_id id x ws hit d.0) hit)
  | inr miss ↦
      rw miss
        (omega (arith, count-delete id ws w p (find_first-miss (has_id id) x w ws miss h) d.1))
]

pub count-found :
    (id : String) (ws : List Wallet) (w : Wallet) (p : Wallet → Bool)
    → find_first (has_id id) ws ≡ some w
    → Distinct ws
    → p w ≡ true
    → 1 ≤ count p ws
count-found id ws w p found d h =
    let e : count p (filter (λ x. not (has_id id x)) ws) + 1 ≡ count p ws =
      rw h at (count-delete id ws w p found d) in
    omega (arith, e)

filter-absent :
    (id k : String) (ws : List Wallet)
    → All (λ x. x.id ≢ k) ws
    → All (λ x. x.id ≢ k) (filter (λ x. not (has_id id x)) ws)
filter-absent id k [] h = tt
filter-absent id k (w ∷ ws) h = elim (Bool-cases (has_id id w)) [
  | inl e ↦ rw e (filter-absent id k ws h.1)
  | inr e ↦ rw e (h.0, filter-absent id k ws h.1)
]

pub Distinct-filter :
    (id : String) (ws : List Wallet) → Distinct ws → Distinct (filter (λ x. not (has_id id x)) ws)
Distinct-filter id [] d = tt
Distinct-filter id (w ∷ ws) d = elim (Bool-cases (has_id id w)) [
  | inl e ↦ rw e (Distinct-filter id ws d.1)
  | inr e ↦ rw e (filter-absent id w.id ws d.0, Distinct-filter id ws d.1)
]

pub find_first-none :
    (p : Wallet → Bool) (ws : List Wallet) → find_first p ws ≡ none → count p ws ≡ 0
find_first-none p [] h = refl
find_first-none p (w ∷ ws) h = ground (arith, find_first-none p ws)

absent-count :
    (id user : String) (ws : List Wallet)
    → All (λ x. x.id ≢ id) ws
    → count (λ x. is_of user x && not (has_id id x)) ws ≡ count (is_of user) ws
absent-count id user [] h = refl
absent-count id user (w ∷ ws) h = elim (Bool-cases (has_id id w)) [
  | inl e ↦ absurd (h.0 ((str_eq_iff w.id id).0 e))
  | inr e ↦ rw e (ground (arith, absent-count id user ws h.1))
]

-- A user with two wallets has another one than the one at hand.
pub another-exists :
    (id user : String) (ws : List Wallet)
    → Distinct ws
    → find_first (λ x. is_of user x && not (has_id id x)) ws ≡ none
    → count (is_of user) ws ≤ 1
another-exists id user [] d h = omega arith
another-exists id user (w ∷ ws) d h = elim (Bool-cases (is_of user w)) [
  | inl own ↦ elim (Bool-cases (has_id id w)) [
    | inl hit ↦
        let rest : find_first (λ x. is_of user x && not (has_id id x)) ws ≡ none =
          rw (own, hit) at h in
        rw own (
          omega (
            arith,
            absent-count id user ws (same_id id w ws hit d.0),
            find_first-none (λ x. is_of user x && not (has_id id x)) ws rest,
          ))
    | inr miss ↦
        let found : ◌≡◌ {A = Option Wallet} (some w) none = rw (own, miss) at h in absurd (cc found)
  ]
  | inr foreign ↦
      let rest : find_first (λ x. is_of user x && not (has_id id x)) ws ≡ none = rw foreign at h in
      rw foreign (omega (arith, another-exists id user ws d.1 rest))
]

-- What `findFirst` finds passes the test.
pub find_first-passes :
    (p : Wallet → Bool) (ws : List Wallet) (w : Wallet) → find_first p ws ≡ some w → p w ≡ true
find_first-passes p [] w h = absurd (cc h)
find_first-passes p (x ∷ ws) w h = elim (Bool-cases (p x)) [
  | inl hit ↦ subst (λ y. p y ≡ true) (find_first-hit p x w ws hit h) hit
  | inr miss ↦ find_first-passes p ws w (find_first-miss p x w ws miss h)
]
