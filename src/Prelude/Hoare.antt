-- ===== src/Prelude/Hoare.antt =====
-- Triples for actions: from a state in `P` the action returns a value and a state in `Q`, or throws
-- in a state in `E`. One rule for each way to build an action.
use mathlib.Core.Path.{◌≡◌, refl, subst}
use mathlib.Core.Bool.{Bool, true, false}
use mathlib.Core.Option.{Option, none, some}
use afro_pay_stellar.Prelude.Tests.{if◌then◌else◌}
use afro_pay_stellar.Prelude.Effects.{
  Error, Result, ok, err, Exec, pure, throw, gets, or_throw, lift, continue, ◌>>=◌, throw_if,
  modify,
}

module _ {ℓ κ} {S A : Type ℓ} where
  abbrev pub Ends : (A → S → Type κ) → (S → Type κ) → Result A → S → Type κ
  Ends Q E (ok a) s = Q a s
  Ends Q E (err e) s = E s

  pub record Triple (P : S → Type κ) (m : Exec S A) (Q : A → S → Type κ) (E : S → Type κ)
      : Type (ℓ ⊔ κ) where
    pub run : (s : S) → P s → Ends Q E (m s).0 (m s).1

-- A state that is good at either end.
pub Ends-both {ℓ κ} :
    {S A : Type ℓ} (E : S → Type κ) (r : Result A) (s : S) → E s → Ends (λ _. E) E r s
Ends-both E (ok a) s h = h
Ends-both E (err e) s h = h

module _ {ℓ κ} {S A : Type ℓ} {P E : S → Type κ} {Q : A → S → Type κ} where
  pub Triple-pure : (a : A) → ((s : S) → P s → Q a s) → Triple P (pure a) Q E
  unfolding pure
  Triple-pure a h = record { run = h }

  pub Triple-throw : (e : Error) → ((s : S) → P s → E s) → Triple P (throw e) Q E
  unfolding throw
  Triple-throw e h = record { run = h }

  pub Triple-gets : (f : S → A) → ((s : S) → P s → Q (f s) s) → Triple P (gets f) Q E
  unfolding gets
  Triple-gets f h = record { run = h }

  pub Triple-or_throw :
      (o : Option A) (e : Error)
      → ((s : S) → P s → E s)
      → ((a : A) → o ≡ some a → (s : S) → P s → Q a s)
      → Triple P (or_throw o e) Q E
  unfolding or_throw
  Triple-or_throw none e h k = record { run = h }
  Triple-or_throw (some a) e h k = record { run = k a refl }

  pub Triple-lift :
      (r : Result A)
      → ((s : S) → P s → E s)
      → ((a : A) → r ≡ ok a → (s : S) → P s → Q a s)
      → Triple P (lift r) Q E
  unfolding lift
  Triple-lift (err e) h k = record { run = h }
  Triple-lift (ok a) h k = record { run = k a refl }

  pub Triple-if :
      (b : Bool) (m n : Exec S A)
      → (b ≡ true → Triple P m Q E)
      → (b ≡ false → Triple P n Q E)
      → Triple P (if b then m else n) Q E
  Triple-if true m n km kn = km refl
  Triple-if false m n km kn = kn refl

module _ {ℓ κ} {S : Type ℓ} {P E : S → Type κ} {Q : Unit {ℓ} → S → Type κ} where
  pub Triple-modify : (f : S → S) → ((s : S) → P s → Q tt (f s)) → Triple P (modify f) Q E
  unfolding modify
  Triple-modify f h = record { run = h }

  pub Triple-throw_if :
      (b : Bool) (e : Error)
      → ((s : S) → P s → E s)
      → (b ≡ false → (s : S) → P s → Q tt s)
      → Triple P (throw_if b e) Q E
  unfolding throw_if
  Triple-throw_if true e h k = record { run = h }
  Triple-throw_if false e h k = record { run = k refl }

module _ {ℓ κ} {S A B : Type ℓ} {E : S → Type κ} {Q : B → S → Type κ} where
  Ends-continue :
      {R : A → S → Type κ} (f : A → Exec S B) (r : Result A) (s : S)
      → ((a : A) → Triple (R a) (f a) Q E)
      → Ends R E r s
      → Ends Q E (continue r f s).0 (continue r f s).1
  Ends-continue f (ok a) s k h = (k a).run s h
  Ends-continue f (err e) s k h = h

  -- `R` is what holds between the two actions.
  pub Triple-bind :
      {P : S → Type κ} {m : Exec S A} {f : A → Exec S B} (R : A → S → Type κ)
      → Triple P m R E
      → ((a : A) → Triple (R a) (f a) Q E)
      → Triple P (m >>= f) Q E
  unfolding ◌>>=◌
  Triple-bind {m} {f} R t k = record {
    run = λ s h. Ends-continue {R = R} f (m s).0 (m s).1 k (t.run s h);
  }

module _ {ℓ κ} {S A : Type ℓ} {P P' E : S → Type κ} {Q : A → S → Type κ} where
  pub Triple-weaken : {m : Exec S A} → ((s : S) → P' s → P s) → Triple P m Q E → Triple P' m Q E
  Triple-weaken h t = record { run = λ s p. t.run s (h s p) }

module _ {ℓ κ} {S A : Type ℓ} {P E : S → Type κ} {Q : A → S → Type κ} where
  pub Triple-post :
      {m : Exec S A} {Q' : A → S → Type κ}
      → ((a : A) (s : S) → Q a s → Q' a s)
      → Triple P m Q E
      → Triple P m Q' E
  Triple-post {m} {Q'} h t = record { run = λ s p. Ends-post (m s).0 (m s).1 (t.run s p) }
    where
      Ends-post : (r : Result A) (s : S) → Ends Q E r s → Ends Q' E r s
      Ends-post (ok a) s q = h a s q
      Ends-post (err e) s q = q

module _ {ℓ κ} {S A : Type ℓ} {P E E' : S → Type κ} {Q : A → S → Type κ} where
  pub Triple-errors : {m : Exec S A} → ((s : S) → E s → E' s) → Triple P m Q E → Triple P m Q E'
  Triple-errors {m} h t = record { run = λ s p. Ends-errors (m s).0 (m s).1 (t.run s p) }
    where
      Ends-errors : (r : Result A) (s : S) → Ends Q E r s → Ends Q E' r s
      Ends-errors (ok a) s q = q
      Ends-errors (err e) s q = h s q

-- What holds at either end holds of the state.
Ends-state {ℓ κ} :
    {S A : Type ℓ} (E : S → Type κ) (r : Result A) (s : S) → Ends (λ _. E) E r s → E s
Ends-state E (ok a) s h = h
Ends-state E (err e) s h = h

-- An invariant is kept whether the action returns or throws.
pub Triple-state {ℓ κ} :
    {S A : Type ℓ} {P E : S → Type κ} {m : Exec S A}
    → Triple P m (λ _. E) E
    → (s : S) → P s
    → E (m s).1
Triple-state {E} {m} t s h = Ends-state E (m s).0 (m s).1 (t.run s h)

-- A fact that names no state goes along.
module _ {ℓ κ} {S A : Type ℓ} {P E : S → Type κ} {Q : A → S → Type κ} {F : Type κ} where
  pub Triple-fact :
      {m : Exec S A} → (F → Triple P m Q E) → Triple (λ s. P s × F) m (λ a s. Q a s × F) E
  Triple-fact {m} t = record { run = λ s h. Ends-fact h.1 (m s).0 (m s).1 ((t h.1).run s h.0) }
    where
      Ends-fact : F → (r : Result A) (s : S) → Ends Q E r s → Ends (λ a s. Q a s × F) E r s
      Ends-fact f (ok a) s q = (q, f)
      Ends-fact f (err e) s q = q

  pub Triple-given : {m : Exec S A} → (F → Triple P m Q E) → Triple (λ s. P s × F) m Q E
  Triple-given t = record { run = λ s h. (t h.1).run s h.0 }

-- Nothing is claimed of any action.
pub Triple-any {ℓ} :
    {S A : Type ℓ} (P : S → Type 0) (m : Exec S A) → Triple P m (λ _ _. Unit {0}) (λ _. Unit {0})
Triple-any P m = record { run = λ s h. Ends-both (λ _. Unit {0}) (m s).0 (m s).1 tt }

pub Triple-ok {ℓ κ} :
    {S A : Type ℓ} {P E : S → Type κ} {Q : A → S → Type κ} {m : Exec S A}
    → Triple P m Q E
    → (s : S) (a : A) → (m s).0 ≡ ok a
    → P s
    → Q a (m s).1
Triple-ok {E} {Q} {m} t s a e h = subst (λ r. Ends Q E r (m s).1) e (t.run s h)
