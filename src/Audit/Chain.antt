-- ===== src/Audit/Chain.antt =====
-- audit.service.ts: a call of `log` and the chain of hashes.
use mathlib.Core.List.{head?}
use afro_pay_stellar.Prelude.{
  String, ◌≡◌, ◌≢◌, ◌⊎◌, inl, inr, refl, sym, ap, ◌∙◌, Option, none, some, List, [], ◌∷◌, All,
  str_eq, str_eq_iff, str_eq_refl, Error, ok, err, ◌>>=◌, Result-cases, Bool-cases,
}
use afro_pay_stellar.Audit.{
  Payload, LogCall, payload, Canonical, Entry, AuditTable, seal, head_hash, log,
}

abbrev pub HasOtherId : {Digest : Type 0} → String → Entry Digest → Type 0
HasOtherId i e = e.canonical.id ≢ i

-- What the service relies on: `findFirst` in descending order of creation gives the newest entry,
-- a created row stands first, under a new identifier and without a hash, and an operation that
-- throws changes nothing.
pub record IsAuditTable {Digest : Type 0} (table : AuditTable Digest) : Type 0 where
  pub newest :
      (t : table.Rows) (r : Option (Entry Digest))
      → table.find_first t ≡ ok r
      → r ≡ head? (table.entries t)
  pub created :
      (p : Payload) (h : Option Digest) (t : table.Rows) (c : Canonical Digest)
      → (table.create p h t).0 ≡ ok c
      → (table.entries (table.create p h t).1
          ≡ record { canonical = c; hash = none } ∷ table.entries t)
        × (c.payload ≡ p)
        × (c.previous_hash ≡ h)
        × All (HasOtherId c.id) (table.entries t)
  pub not_created :
      (p : Payload) (h : Option Digest) (t : table.Rows) (e : Error)
      → (table.create p h t).0 ≡ err e
      → table.entries (table.create p h t).1 ≡ table.entries t
  pub sealed :
      (i : String) (d : Digest) (t : table.Rows) (u : Unit {0})
      → (table.update_hash i d t).0 ≡ ok u
      → table.entries (table.update_hash i d t).1 ≡ seal i d (table.entries t)
  pub not_sealed :
      (i : String) (d : Digest) (t : table.Rows) (e : Error)
      → (table.update_hash i d t).0 ≡ err e
      → table.entries (table.update_hash i d t).1 ≡ table.entries t

module _ {Digest : Type 0} where
  seal-fresh :
      (i : String) (d : Digest) (es : List (Entry Digest))
      → All (HasOtherId i) es
      → seal i d es ≡ es
  seal-fresh i d [] h = refl
  seal-fresh i d (e ∷ es) h = elim (Bool-cases (str_eq e.canonical.id i)) [
    | inl same ↦ absurd (h.0 ((str_eq_iff _ _).0 same))
    | inr other ↦ rw other (ap (λ r. e ∷ r) (seal-fresh i d es h.1))
  ]

  seal-head :
      (c : Canonical Digest) (d : Digest) (es : List (Entry Digest))
      → All (HasOtherId c.id) es
      → seal c.id d (record { canonical = c; hash = none } ∷ es)
        ≡ record { canonical = c; hash = some d } ∷ es
  seal-head c d es h = rw (str_eq_refl c.id, seal-fresh c.id d es h)

module _ {Digest : Type 0} (digest : Canonical Digest → Digest) (table : AuditTable Digest) where
  -- The state once the row is created.
  abbrev pub after_create : LogCall → table.Rows → table.Rows
  after_create call t = (table.create (payload call) (head_hash (head? (table.entries t))) t).1

  -- How the last step ended, and the hash of the new entry then.
  abbrev pub Sealing : LogCall → table.Rows → Canonical Digest → Option Digest → Type 0
  Sealing call t c hash =
      (((table.update_hash c.id (digest c) (after_create call t)).0 ≡ ok tt)
        × (hash ≡ some (digest c)))
      ⊎ ((e : Error) × ((table.update_hash c.id (digest c) (after_create call t)).0 ≡ err e)
          × (hash ≡ none))

  -- A call that adds no entry: the read or the creation has failed.
  abbrev pub Stopped : LogCall → table.Rows → Type 0
  Stopped call t =
      ((e : Error) × (table.find_first t ≡ err e))
      ⊎ ((e : Error) × ((table.create (payload call) (head_hash (head? (table.entries t))) t).0
            ≡ err e))

  -- What one call does to the entries.
  pub record Logged (call : LogCall) (t : table.Rows) (now : List (Entry Digest)) : Type 0 where
    pub canonical : Canonical Digest
    pub hash : Option Digest
    pub grown : now ≡ record { canonical = canonical; hash = hash } ∷ table.entries t
    pub content : canonical.payload ≡ payload call
    pub linked : canonical.previous_hash ≡ head_hash (head? (table.entries t))
    pub fresh : All (HasOtherId canonical.id) (table.entries t)
    pub sealing : Sealing call t canonical hash

module _ {Digest : Type 0} (digest : Canonical Digest → Digest) (table : AuditTable Digest)
    (lawful : IsAuditTable table) where
  -- The last step of `log`, once the row is created.
  log-Logged :
      (call : LogCall) (t : table.Rows) (r : Option (Entry Digest)) (c : Canonical Digest)
      → table.find_first t ≡ ok r
      → (table.create (payload call) (head_hash r) t).0 ≡ ok c
      → Logged digest table call t (table.entries (log digest table call t))
  unfolding log ◌>>=◌
  log-Logged call t r c found made =
      let (grown, content, linked, fresh) = lawful.created _ _ t c made in
      let same : digest (record c { previous_hash = head_hash r }) ≡ digest c =
        ap (λ h. digest (record c { previous_hash = h })) (sym linked) in
      let t' = (table.create (payload call) (head_hash r) t).1 in
      let newest : head_hash r ≡ head_hash (head? (table.entries t)) =
        ap head_hash (lawful.newest t r found) in
      let there : t' ≡ after_create digest table call t =
        ap (λ h. (table.create (payload call) h t).1) newest in
      let d = digest (record c { previous_hash = head_hash r }) in
      let update : (table.update_hash c.id (digest c) (after_create digest table call t)).0
          ≡ (table.update_hash c.id d t').0 =
        ap (λ x. (table.update_hash c.id x (after_create digest table call t)).0) (sym same)
        ∙ ap (λ x. (table.update_hash c.id d x).0) (sym there) in
      elim (Result-cases (table.update_hash c.id d t').0) [
        | inl (u, done) ↦ record {
          canonical = c;
          hash = some d;
          grown =
              rw (found, made, ◌>>=◌)
                (lawful.sealed c.id d t' u done ∙ ap (seal c.id d) grown ∙ seal-head c d _ fresh);
          content = content;
          linked = linked ∙ newest;
          fresh = fresh;
          sealing = inl (update ∙ done, ap some same);
        }
        | inr (e, refused) ↦ record {
          canonical = c;
          hash = none;
          grown = rw (found, made, ◌>>=◌) (lawful.not_sealed c.id d t' e refused ∙ grown);
          content = content;
          linked = linked ∙ newest;
          fresh = fresh;
          sealing = inr (e, update ∙ refused, refl);
        }
      ]

  pub log_cases :
      (call : LogCall) (t : table.Rows)
      → ((table.entries (log digest table call t) ≡ table.entries t) × Stopped digest table call t)
        ⊎ Logged digest table call t (table.entries (log digest table call t))
  log_cases call t = elim (Result-cases (table.find_first t)) [
    | inr (e, broken) ↦ inl ((unfold log ◌>>=◌ in rw broken refl), inl (e, broken))
    | inl (r, found) ↦ elim (Result-cases (table.create (payload call) (head_hash r) t).0) [
      | inr (e, refused) ↦ inl (
        (unfold log ◌>>=◌ in rw (found, refused, ◌>>=◌) (lawful.not_created _ _ t e refused)),
        inr (
          e,
          ap (λ h. (table.create (payload call) h t).0)
                (sym (ap head_hash (lawful.newest t r found)))
              ∙ refused,
        ),
      )
      | inl (c, made) ↦ inr (log-Logged call t r c found made)
    ]
  ]

module _ {Digest : Type 0} (digest : Canonical Digest → Digest) where
  -- The chain: each entry carries the hash of the entry before it (the first one carries none), its
  -- own hash is the digest of its content, and no identifier occurs twice.
  abbrev pub IsChained : List (Entry Digest) → Type 0
  IsChained [] = Unit
  IsChained (e ∷ es) =
      (e.canonical.previous_hash ≡ head_hash (head? es))
      × (e.hash ≡ some (digest e.canonical))
      × All (HasOtherId e.canonical.id) es
      × IsChained es

module _ {Digest : Type 0} (digest : Canonical Digest → Digest) (table : AuditTable Digest) where
  -- The new entry, linked to the one before; it extends the chain where the update has succeeded.
  abbrev pub Extended : LogCall → table.Rows → List (Entry Digest) → Type 0
  Extended call t now =
      (e : Entry Digest) × (now ≡ e ∷ table.entries t)
      × (e.canonical.payload ≡ payload call)
      × (e.canonical.previous_hash ≡ head_hash (head? (table.entries t)))
      × ((((table.update_hash e.canonical.id (digest e.canonical)
                (after_create digest table call t)).0
              ≡ ok tt)
            × IsChained digest now)
          ⊎ ((x : Error) × ((table.update_hash e.canonical.id (digest e.canonical)
                  (after_create digest table call t)).0
                ≡ err x)
              × (e.hash ≡ none)))

  -- On a lawful table whose entries are a chain, each sealed and linked to the one before, a call of
  -- `log` has one of three outcomes. The read or the creation fails, and the entries stay as they are.
  -- Or an entry with the payload of the call, linked to the newest one, is put before them, its hash is
  -- stored, and the entries are a chain again. Or the entry is put there and the update fails, and then
  -- it has no hash.
  pub log-IsChained :
      IsAuditTable table
      → (call : LogCall) (t : table.Rows) → IsChained digest (table.entries t)
      → ((table.entries (log digest table call t) ≡ table.entries t) × Stopped digest table call t)
        ⊎ Extended call t (table.entries (log digest table call t))
  log-IsChained lawful call t h = elim (log_cases digest table lawful call t) [
    | inl stopped ↦ inl stopped
    | inr l ↦ elim l.sealing [
      | inl (done, hashed) ↦ inr (
        record { canonical = l.canonical; hash = l.hash },
        l.grown,
        l.content,
        l.linked,
        inl (done, rw l.grown (l.linked, hashed, l.fresh, h)),
      )
      | inr (x, refused, empty) ↦ inr (
        record { canonical = l.canonical; hash = l.hash },
        l.grown,
        l.content,
        l.linked,
        inr (x, refused, empty),
      )
    ]
  ]

  -- On a lawful table a call of `log` leaves every old entry as it is: the entries stay the same,
  -- or one entry with the payload of the call is put before them.
  pub log-append_only :
      IsAuditTable table
      → (call : LogCall) (t : table.Rows)
      → (table.entries (log digest table call t) ≡ table.entries t)
        ⊎ ((e : Entry Digest) × (table.entries (log digest table call t) ≡ e ∷ table.entries t)
            × (e.canonical.payload ≡ payload call))
  log-append_only lawful call t = elim (log_cases digest table lawful call t) [
    | inl (same, stopped) ↦ inl same
    | inr l ↦ inr (record { canonical = l.canonical; hash = l.hash }, l.grown, l.content)
  ]
