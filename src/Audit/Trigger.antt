-- ===== src/Audit/Trigger.antt =====
-- The trigger `audit_log_immutable` of the migration 20260821000000, met with `AuditService.log`.
use afro_pay_stellar.Prelude.{
  ◌≡◌, inl, inr, refl, ◌∙◌, Bool, true, false, none, List, [], ◌∷◌, All, Result, ok, err, failure,
}
use mathlib.Core.List.{head?}
use afro_pay_stellar.Audit.{LogCall, Canonical, Entry, AuditTable, head_hash, log}
use afro_pay_stellar.Audit.Chain.{IsAuditTable, after_create, log_cases}

pub data TriggerOp : Type 0 where
  update delete : TriggerOp

-- `audit_log_prevent_mutation`: `setting` is `audit_log.allow_anonymization`.
unfoldable pub prevent_mutation : TriggerOp → (setting : Bool) → Result (Unit {0})
prevent_mutation update true = ok tt
prevent_mutation _ _ = err failure

-- A call of `log` leaves the setting off, so each of its updates ends as the trigger says.
abbrev pub IsGuarded : {Digest : Type 0} → AuditTable Digest → Type 0
IsGuarded {Digest} table =
    (i : _) (d : Digest) (t : table.Rows)
    → (table.update_hash i d t).0 ≡ prevent_mutation update false

-- Several calls, the first one first.
pub log_all :
    {Digest : Type 0}
    → (Canonical Digest → Digest)
    → (table : AuditTable Digest) → List LogCall
    → table.Rows
    → table.Rows
log_all digest table [] t = t
log_all digest table (c ∷ cs) t = log_all digest table cs (log digest table c t)

abbrev pub IsUnlinked : {Digest : Type 0} → Entry Digest → Type 0
IsUnlinked e = (e.hash ≡ none) × (e.canonical.previous_hash ≡ none)

module _ {Digest : Type 0} (digest : Canonical Digest → Digest) (table : AuditTable Digest) where
  head_hash-IsUnlinked :
      (es : List (Entry Digest)) → All IsUnlinked es → head_hash (head? es) ≡ none
  head_hash-IsUnlinked [] h = refl
  head_hash-IsUnlinked (e ∷ es) h = h.0.0

  log-IsUnlinked :
      IsAuditTable table
      → IsGuarded table
      → (call : LogCall) (t : table.Rows) → All IsUnlinked (table.entries t)
      → All IsUnlinked (table.entries (log digest table call t))
  unfolding prevent_mutation
  log-IsUnlinked lawful guarded call t h = elim (log_cases digest table lawful call t) [
    | inl (same, stopped) ↦ rw same h
    | inr l ↦ elim l.sealing [
      | inr (x, refused, unsealed) ↦ rw l.grown ((unsealed, l.linked ∙ head_hash-IsUnlinked _ h), h)
      | inl (done, hashed) ↦
          cc (guarded l.canonical.id (digest l.canonical) (after_create digest table call t))
    ]
  ]

  log_all-IsUnlinked_from :
      IsAuditTable table
      → IsGuarded table
      → (calls : List LogCall) (t : table.Rows) → All IsUnlinked (table.entries t)
      → All IsUnlinked (table.entries (log_all digest table calls t))
  unfolding log_all
  log_all-IsUnlinked_from lawful guarded [] t h = h
  log_all-IsUnlinked_from lawful guarded (c ∷ cs) t h =
      log_all-IsUnlinked_from lawful guarded cs (log digest table c t)
        (log-IsUnlinked lawful guarded c t h)

  -- On a lawful table with the trigger in force no entry of a log that starts empty is ever sealed
  -- or linked: whatever the calls, every hash and every previous hash stays null.
  pub log_all-IsUnlinked :
      IsAuditTable table
      → IsGuarded table
      → (calls : List LogCall) (t : table.Rows) → table.entries t ≡ []
      → All IsUnlinked (table.entries (log_all digest table calls t))
  log_all-IsUnlinked lawful guarded calls t start =
      log_all-IsUnlinked_from lawful guarded calls t (rw start tt)
