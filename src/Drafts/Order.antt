-- ===== src/Drafts/Order.antt =====
-- What the server gets from a drain of apps/frontend/lib/syncEngine.ts.
use afro_pay_stellar.Prelude.{
  ℕ, ◌≤◌, leb, ltb, arith, All, All-map, String, ◌≡◌, refl, ap, ◌∙◌, Bool, true, false, not, Option,
  none, some, List, [], ◌∷◌, map, ◌==◌, filter, if◌then◌else◌, Bool-cases, inl, inr,
}
use mathlib.Core.List.{Perm}
use mathlib.Core.List.Perm
use afro_pay_stellar.Drafts.{
  DraftStatus, pending, syncing, failed, OfflineTransactionDraft, Payload, is_pending, is_stale,
  unlock, insert_draft, sort_drafts, get_queued_drafts, release_expired_locks,
}
use afro_pay_stellar.Drafts.Sync.{
  Reply, Counts, Tab, tally, deliver, deliver_all, pending_drafts, drain_queue,
}

-- The drafts with a key, which is never 0, and what is sent for them.
abbrev pub sent : List OfflineTransactionDraft → List Payload
sent ds = map (λ d. d.payload) (filter (λ d. not (d.id == 0)) ds)

-- A draft that a drain at a time has to send: one that waits, or whose lock is over.
abbrev pub due : ℕ → DraftStatus → Option ℕ → Bool
due now pending until = true
due now failed until = false
due now syncing none = false
due now syncing (some until) = ltb until now

abbrev pub is_due : ℕ → OfflineTransactionDraft → Bool
is_due now d = due now d.status d.lock_expires_at

-- Each draft was created no later than those after it.
abbrev pub IsByCreation : List OfflineTransactionDraft → Type 0
IsByCreation [] = Unit
IsByCreation (d ∷ ds) = All (λ e. d.created_at ≤ e.created_at) ds × IsByCreation ds

insert_draft-All :
    (P : OfflineTransactionDraft → Type 0) (d : OfflineTransactionDraft)
    (ds : List OfflineTransactionDraft)
    → P d
    → All P ds
    → All P (insert_draft d ds)
insert_draft-All P d [] h hs = (h, tt)
insert_draft-All P d (e ∷ es) h hs = elim (Bool-cases (leb d.created_at e.created_at)) [
  | inl le ↦ rw le (h, hs)
  | inr gt ↦ rw gt (hs.0, insert_draft-All P d es h hs.1)
]

insert_draft-IsByCreation :
    (d : OfflineTransactionDraft) (ds : List OfflineTransactionDraft)
    → IsByCreation ds
    → IsByCreation (insert_draft d ds)
insert_draft-IsByCreation d [] h = (tt, tt)
insert_draft-IsByCreation d (e ∷ es) h = elim (Bool-cases (leb d.created_at e.created_at)) [
  | inl first ↦
      let le : d.created_at ≤ e.created_at = ground (arith, first) in
      rw first ((le, All-map (λ x k. omega (arith, le, k)) es h.0), h)
  | inr later ↦
      let le : e.created_at ≤ d.created_at = ground (arith, later) in
      rw later (
        insert_draft-All (λ x. e.created_at ≤ x.created_at) d es le h.0,
        insert_draft-IsByCreation d es h.1,
      )
]

sort_drafts-IsByCreation : (ds : List OfflineTransactionDraft) → IsByCreation (sort_drafts ds)
sort_drafts-IsByCreation [] = tt
sort_drafts-IsByCreation (d ∷ ds) =
    insert_draft-IsByCreation d (sort_drafts ds) (sort_drafts-IsByCreation ds)

insert_draft-perm :
    (d : OfflineTransactionDraft) (ds : List OfflineTransactionDraft)
    → Perm (insert_draft d ds) (d ∷ ds)
insert_draft-perm d [] = Perm.rfl
insert_draft-perm d (e ∷ es) = elim (Bool-cases (leb d.created_at e.created_at)) [
  | inl h ↦ rw h Perm.rfl
  | inr h ↦ rw h (Perm.trans (Perm.cons e (insert_draft-perm d es)) (Perm.swap d e es))
]

sort_drafts-perm : (ds : List OfflineTransactionDraft) → Perm (sort_drafts ds) ds
sort_drafts-perm [] = Perm.rfl
sort_drafts-perm (d ∷ ds) =
    Perm.trans (insert_draft-perm d (sort_drafts ds)) (Perm.cons d (sort_drafts-perm ds))

-- What the release of expired locks does to a draft.
abbrev released : ℕ → OfflineTransactionDraft → OfflineTransactionDraft
released now d = if is_stale now d.status d.lock_expires_at then unlock d else d

released-created_at :
    (now : ℕ) (d : OfflineTransactionDraft) → (released now d).created_at ≡ d.created_at
released-created_at now d = elim (Bool-cases (is_stale now d.status d.lock_expires_at)) [
  | inl h ↦ rw h refl
  | inr h ↦ rw h refl
]

insert_draft-released :
    (now : ℕ) (d : OfflineTransactionDraft) (ds : List OfflineTransactionDraft)
    → insert_draft (released now d) (map (released now) ds) ≡ map (released now) (insert_draft d ds)
insert_draft-released now d [] = refl
insert_draft-released now d (e ∷ es) =
    rw (released-created_at now d, released-created_at now e)
      (elim (Bool-cases (leb d.created_at e.created_at)) [
        | inl h ↦ rw h refl
        | inr h ↦ rw h (ap (λ l. released now e ∷ l) (insert_draft-released now d es))
      ])

sort_drafts-released :
    (now : ℕ) (ds : List OfflineTransactionDraft)
    → sort_drafts (map (released now) ds) ≡ map (released now) (sort_drafts ds)
sort_drafts-released now [] = refl
sort_drafts-released now (d ∷ ds) =
    rw (sort_drafts-released now ds) (insert_draft-released now d (sort_drafts ds))

released-due :
    (now : ℕ) (d : OfflineTransactionDraft) (status : DraftStatus) (until : Option ℕ)
    → is_pending (released now (record d { status = status; lock_expires_at = until }))
      ≡ due now status until
released-due now d pending until = refl
released-due now d failed until = refl
released-due now d syncing none = refl
released-due now d syncing (some t) = elim (Bool-cases (ltb t now)) [
  | inl h ↦ rw h refl
  | inr h ↦ rw h refl
]

released-id : (now : ℕ) (d : OfflineTransactionDraft) → (released now d).id ≡ d.id
released-id now d = elim (Bool-cases (is_stale now d.status d.lock_expires_at)) [
  | inl h ↦ rw h refl
  | inr h ↦ rw h refl
]

released-payload : (now : ℕ) (d : OfflineTransactionDraft) → (released now d).payload ≡ d.payload
released-payload now d = elim (Bool-cases (is_stale now d.status d.lock_expires_at)) [
  | inl h ↦ rw h refl
  | inr h ↦ rw h refl
]

sent-cons :
    (d e : OfflineTransactionDraft) (ds es : List OfflineTransactionDraft)
    → d.id ≡ e.id
    → d.payload ≡ e.payload
    → sent ds ≡ sent es
    → sent (d ∷ ds) ≡ sent (e ∷ es)
sent-cons d e ds es same_id same_payload h = rw same_id (elim (Bool-cases (e.id == 0)) [
  | inl zero_key ↦ rw zero_key h
  | inr key ↦ rw key (rw (same_payload, h) refl)
])

sent-released :
    (now : ℕ) (ds : List OfflineTransactionDraft)
    → sent (filter is_pending (map (released now) ds)) ≡ sent (filter (is_due now) ds)
sent-released now [] = refl
sent-released now (d ∷ ds) =
    rw (released-due now d d.status d.lock_expires_at) (elim (Bool-cases (is_due now d)) [
      | inl h ↦ rw h (
          sent-cons (released now d) d (filter is_pending (map (released now) ds))
            (filter (is_due now) ds) (released-id now d) (released-payload now d)
            (sent-released now ds))
      | inr h ↦ rw h (sent-released now ds)
    ])

module _ {Server : Type 0} (post : Payload → Server → Reply × Server)
    (http_status : Option ℕ → String) where
  -- One request for each payload, in order.
  pub post_all : List Payload → Server → Server
  post_all [] s = s
  post_all (p ∷ ps) s = post_all ps (post p s).1

  pub deliver_all-server :
      (now : ℕ) (ds : List OfflineTransactionDraft) (c : Counts) (t : Tab Server)
      → (deliver_all post http_status now ds c t).1.server ≡ post_all (sent ds) t.server
  unfolding deliver_all deliver post_all
  deliver_all-server now [] c t = refl
  deliver_all-server now (d ∷ ds) c t = elim (Bool-cases (d.id == 0)) [
    | inl h ↦ rw h (deliver_all-server now ds c t)
    | inr h ↦ rw h (
        deliver_all-server now ds (tally post http_status (post d.payload t.server).0 c)
          (deliver post http_status now d t).1)
  ]

  -- A drain takes the drafts of the store in the order of creation, each once, and sends those that
  -- wait or whose lock is over (and have a key), whatever the server answers: what the server sees is
  -- one request for each of these, one after the other. While another drain runs in the tab it sends
  -- nothing.
  pub drain_queue-server :
      (now : ℕ) (t : Tab Server)
      → ((ds : List OfflineTransactionDraft) × Perm ds t.queue.drafts
          × IsByCreation ds
          × ((drain_queue post http_status now false t).1.server
              ≡ post_all (sent (filter (is_due now) ds)) t.server))
        × (drain_queue post http_status now true t ≡ (none, t))
  unfolding drain_queue pending_drafts get_queued_drafts release_expired_locks
  drain_queue-server now t =
      let queue = (release_expired_locks now t.queue).1 in
      (
        (
          sort_drafts t.queue.drafts,
          sort_drafts-perm t.queue.drafts,
          sort_drafts-IsByCreation t.queue.drafts,
          deliver_all-server now (filter is_pending (sort_drafts queue.drafts))
                (record { completed = 0; failed = 0 }) (record t { queue = queue })
              ∙ ap (λ l. post_all (sent (filter is_pending l)) t.server)
                  (sort_drafts-released now t.queue.drafts)
              ∙ ap (λ l. post_all l t.server) (sent-released now (sort_drafts t.queue.drafts)),
        ),
        refl,
      )
