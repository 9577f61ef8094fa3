-- ===== src/Audit/Tests.antt =====
-- A table in memory, a digest without collisions, and the theorems at concrete logs.
use mathlib.Core.List.{head?}
use afro_pay_stellar.Prelude.{
  ℕ, String, ◌≡◌, ◌⊎◌, ◌≢◌, refl, Bool, true, false, not, ◌&&◌, Option, none, some, List, [], ◌∷◌,
  All, str_eq, str_eq_iff, Error, Result, ok, err, failure, Exec, ◌>>=◌, Bool-cases, inl, inr,
}
use afro_pay_stellar.Audit.{
  Payload, LogCall, positional, payload, Canonical, Entry, AuditTable, seal, log,
}
use afro_pay_stellar.Audit.Chain.{
  IsAuditTable, HasOtherId, IsChained, Stopped, Extended, log-IsChained, log-append_only,
}
use afro_pay_stellar.Audit.Trigger.{
  IsGuarded, IsUnlinked, prevent_mutation, update, log_all, log_all-IsUnlinked,
}

-- A digest without collisions: the content itself.
data Link : Type 0 where
  genesis : String → Payload → ℕ → Link
  after : String → Payload → ℕ → Link → Link

abbrev link : String → Payload → ℕ → Option Link → Link
link i p n none = genesis i p n
link i p n (some l) = after i p n l

abbrev digest : Canonical Link → Link
digest c = link c.id c.payload c.created_at c.previous_hash

-- The identifiers still to be drawn, the clock and the entries. `guarded` turns the trigger on.
record Memory : Type 0 where
  ids : List String
  clock : ℕ
  rows : List (Entry Link)

abbrev has_other_id : String → List (Entry Link) → Bool
has_other_id i [] = true
has_other_id i (e ∷ es) = not (str_eq e.canonical.id i) && has_other_id i es

has_other_id-All :
    (i : String) (es : List (Entry Link)) → has_other_id i es ≡ true → All (HasOtherId i) es
has_other_id-All i [] h = tt
has_other_id-All i (e ∷ es) h = elim (Bool-cases (str_eq e.canonical.id i)) [
  | inl same ↦ cc (rw same at h)
  | inr other ↦ (λ p. cc (other, (str_eq_iff _ _).1 p), has_other_id-All i es (rw other at h))
]

abbrev add : String → Payload → Option Link → Memory → Result (Canonical Link) × Memory
add i p h m =
    let c : Canonical Link = record {
      id = i;
      payload = p;
      previous_hash = h;
      created_at = m.clock;
    } in
    (ok c, record m { rows = record { canonical = c; hash = none } ∷ m.rows })

abbrev pick : Bool → String → Payload → Option Link → Exec Memory (Canonical Link)
pick true i p h m = add i p h m
pick false i p h m = (err failure, m)

abbrev draw : List String → Payload → Option Link → Exec Memory (Canonical Link)
draw [] p h m = (err failure, m)
draw (i ∷ is) p h m = pick (has_other_id i m.rows) i p h (record m { ids = is })

abbrev create : Payload → Option Link → Exec Memory (Canonical Link)
create p h m = draw m.ids p h m

update_hash : Bool → String → Link → Exec Memory (Unit {0})
unfolding prevent_mutation
update_hash true i d m = (prevent_mutation update false, m)
update_hash false i d m = (ok tt, record m { rows = seal i d m.rows })

abbrev memory : Bool → AuditTable Link
memory guarded = record {
  Rows = Memory;
  entries = λ m. m.rows;
  find_first = λ m. ok (head? m.rows);
  create = create;
  update_hash = update_hash guarded;
}

abbrev Created : Payload → Option Link → List (Entry Link) → Canonical Link → Memory → Type 0
Created p h old c m =
    (m.rows ≡ record { canonical = c; hash = none } ∷ old)
    × (c.payload ≡ p)
    × (c.previous_hash ≡ h)
    × All (HasOtherId c.id) old

pick-Created :
    (b : Bool) (i : String) (p : Payload) (h : Option Link) (m : Memory) (c : Canonical Link)
    → has_other_id i m.rows ≡ b
    → (pick b i p h m).0 ≡ ok c
    → Created p h m.rows c (pick b i p h m).1
pick-Created true i p h m c f e =
    let same : record { id = i; payload = p; previous_hash = h; created_at = m.clock } ≡ c = cc in
    rw (← same) (refl, refl, refl, has_other_id-All i m.rows f)
pick-Created false i p h m c f e = cc

draw-Created :
    (is : List String) (p : Payload) (h : Option Link) (m : Memory) (c : Canonical Link)
    → (draw is p h m).0 ≡ ok c
    → Created p h m.rows c (draw is p h m).1
draw-Created [] p h m c e = cc
draw-Created (i ∷ is) p h m c e =
    pick-Created (has_other_id i m.rows) i p h (record m { ids = is }) c refl e

pick-refused :
    (b : Bool) (i : String) (p : Payload) (h : Option Link) (m : Memory) (e : Error)
    → (pick b i p h m).0 ≡ err e
    → (pick b i p h m).1.rows ≡ m.rows
pick-refused true i p h m e q = cc
pick-refused false i p h m e q = refl

draw-refused :
    (is : List String) (p : Payload) (h : Option Link) (m : Memory) (e : Error)
    → (draw is p h m).0 ≡ err e
    → (draw is p h m).1.rows ≡ m.rows
draw-refused [] p h m e q = refl
draw-refused (i ∷ is) p h m e q =
    pick-refused (has_other_id i m.rows) i p h (record m { ids = is }) e q

memory-lawful : (guarded : Bool) → IsAuditTable (memory guarded)
unfolding update_hash
memory-lawful true = record {
  newest = λ t r e. cc;
  created = λ p h t c e. draw-Created t.ids p h t c e;
  not_created = λ p h t e q. draw-refused t.ids p h t e q;
  sealed = λ i d t u e. cc;
  not_sealed = λ i d t e q. refl;
}
memory-lawful false = record {
  newest = λ t r e. cc;
  created = λ p h t c e. draw-Created t.ids p h t c e;
  not_created = λ p h t e q. draw-refused t.ids p h t e q;
  sealed = λ i d t u e. refl;
  not_sealed = λ i d t e q. cc;
}

abbrev empty : Memory
empty = record { ids = "a" ∷ "b" ∷ "c" ∷ []; clock = 7; rows = [] }

abbrev call : LogCall
call = positional (some "ann") (some "LOGIN") none

abbrev one : Memory
one = log digest (memory false) call empty

one_sealed : one.rows ≢ []
unfolding log payload update_hash ◌>>=◌
one_sealed e = cc

one-IsChained : IsChained digest one.rows
unfolding log payload update_hash ◌>>=◌
one-IsChained = (refl, refl, tt, tt)

log-IsChained_example :
    (((log digest (memory false) call one).rows ≡ one.rows)
      × Stopped digest (memory false) call one)
    ⊎ Extended digest (memory false) call one (log digest (memory false) call one).rows
log-IsChained_example =
    log-IsChained digest (memory false) (memory-lawful false) call one one-IsChained

log-append_only_example :
    ((log digest (memory false) call one).rows ≡ one.rows)
    ⊎ ((e : Entry Link) × ((log digest (memory false) call one).rows ≡ e ∷ one.rows)
        × (e.canonical.payload ≡ payload call))
log-append_only_example = log-append_only digest (memory false) (memory-lawful false) call one

memory-IsGuarded : IsGuarded (memory true)
unfolding update_hash
memory-IsGuarded i d t = refl

log_all-IsUnlinked_example :
    All IsUnlinked (log_all digest (memory true) (call ∷ call ∷ []) empty).rows
log_all-IsUnlinked_example =
    log_all-IsUnlinked digest (memory true) (memory-lawful true) memory-IsGuarded (call ∷ call ∷ [])
      empty refl
