-- ===== src/Drafts/Loss.antt =====
-- No draft is lost by a drain of apps/frontend/lib/syncEngine.ts.
use afro_pay_stellar.Prelude.{
  ℕ, String, ◌≡◌, ◌≢◌, refl, sym, subst, ◌∙◌, Bool, true, false, not, Option, List, [], ◌∷◌, map,
  arith, ◌==◌, leb, if◌then◌else◌, filter, All, filter-All, Bool-cases, ◌⊎◌, inl, inr,
}
use afro_pay_stellar.Drafts.{
  OfflineTransactionDraft, Payload, Queue, is_pending, is_stale, unlock, insert_draft, sort_drafts,
  get_queued_drafts, claim_draft, release_expired_locks, mark_draft_failed, requeue_draft,
  remove_draft,
}
use afro_pay_stellar.Drafts.Sync.{
  Reply, accepted, refused, Counts, Tab, tally, settle, is_permanent, deliver, deliver_all,
  pending_drafts, drain_queue,
}

-- A draft with this key and payload is in the store.
abbrev pub Stored : ℕ → Payload → List OfflineTransactionDraft → Type 0
Stored id p [] = ⊥
Stored id p (d ∷ ds) = ((d.id ≡ id) × (d.payload ≡ p)) ⊎ Stored id p ds

-- Only this payload goes with the key.
abbrev pub Agrees : ℕ → Payload → List OfflineTransactionDraft → Type 0
Agrees id p ds = All (λ d. d.id ≡ id → d.payload ≡ p) ds

-- A change of drafts that keeps keys and payloads.
module _ (q : OfflineTransactionDraft → Bool)
    (f : OfflineTransactionDraft → OfflineTransactionDraft)
    (ids : (d : OfflineTransactionDraft) → (f d).id ≡ d.id)
    (payloads : (d : OfflineTransactionDraft) → (f d).payload ≡ d.payload) where
  Stored-change :
      (id : ℕ) (p : Payload) (ds : List OfflineTransactionDraft)
      → Stored id p ds
      → Stored id p (map (λ d. if q d then f d else d) ds)
  Stored-change id p [] h = h
  Stored-change id p (d ∷ ds) (inl h) = elim (Bool-cases (q d)) [
    | inl e ↦ rw e (inl (ids d ∙ h.0, payloads d ∙ h.1))
    | inr e ↦ rw e (inl h)
  ]
  Stored-change id p (d ∷ ds) (inr h) = inr (Stored-change id p ds h)

  Agrees-change :
      (id : ℕ) (p : Payload) (ds : List OfflineTransactionDraft)
      → Agrees id p ds
      → Agrees id p (map (λ d. if q d then f d else d) ds)
  Agrees-change id p [] h = h
  Agrees-change id p (d ∷ ds) h = elim (Bool-cases (q d)) [
    | inl e ↦ rw e ((λ k. payloads d ∙ h.0 (sym (ids d) ∙ k)), Agrees-change id p ds h.1)
    | inr e ↦ rw e (h.0, Agrees-change id p ds h.1)
  ]

Stored-remove :
    (id k : ℕ) (p : Payload) (ds : List OfflineTransactionDraft)
    → k ≢ id
    → Stored id p ds
    → Stored id p (filter (λ d. not (d.id == k)) ds)
Stored-remove id k p [] ne h = h
Stored-remove id k p (d ∷ ds) ne h = elim (Bool-cases (d.id == k)) [
  | inl e ↦ rw e (Stored-remove id k p ds ne (gone d ds e h))
  | inr e ↦
      rw e (elim h [ inl here ↦ inl here | inr there ↦ inr (Stored-remove id k p ds ne there) ])
]
  where
    gone :
        (x : OfflineTransactionDraft) (xs : List OfflineTransactionDraft)
        → x.id == k ≡ true
        → Stored id p (x ∷ xs)
        → Stored id p xs
    gone x xs e (inl here) = absurd (ground arith)
    gone x xs e (inr there) = there

Agrees-insert :
    (id : ℕ) (p : Payload) (d : OfflineTransactionDraft) (ds : List OfflineTransactionDraft)
    → (d.id ≡ id → d.payload ≡ p)
    → Agrees id p ds
    → Agrees id p (insert_draft d ds)
Agrees-insert id p d [] h k = (h, tt)
Agrees-insert id p d (e ∷ es) h k = elim (Bool-cases (leb d.created_at e.created_at)) [
  | inl b ↦ rw b (h, k)
  | inr b ↦ rw b (k.0, Agrees-insert id p d es h k.1)
]

Agrees-sort :
    (id : ℕ) (p : Payload) (ds : List OfflineTransactionDraft)
    → Agrees id p ds
    → Agrees id p (sort_drafts ds)
Agrees-sort id p [] h = tt
Agrees-sort id p (d ∷ ds) h = Agrees-insert id p d (sort_drafts ds) h.0 (Agrees-sort id p ds h.1)

module _ {Server : Type 0} (post : Payload → Server → Reply × Server)
    (http_status : Option ℕ → String) (Has : Payload → Server → Type 0)
    (takes : (p : Payload) (s : Server) → (post p s).0 ≡ accepted → Has p (post p s).1)
    (keeps : (p r : Payload) (s : Server) → Has p s → Has p (post r s).1) where
  -- The draft is in the store, or the server has its transfer.
  abbrev pub Safe : ℕ → Payload → Tab Server → Type 0
  Safe id p t = Stored id p t.queue.drafts ⊎ Has p t.server

  settled-Safe :
      (id : ℕ) (p : Payload) (d : OfflineTransactionDraft) (q : Queue) (reply : Reply) (s : Server)
      → (d.id ≡ id → d.payload ≡ p)
      → (reply ≡ accepted → Has d.payload s)
      → Stored id p q.drafts
      → Stored id p (settle post http_status reply d.id q).drafts ⊎ Has p s
  unfolding remove_draft mark_draft_failed requeue_draft
  settled-Safe id p d q accepted s agrees taken h = elim (Bool-cases (d.id == id)) [
    | inl e ↦
        let same : d.id ≡ id = ground arith in inr (subst (λ x. Has x s) (agrees same) (taken refl))
    | inr e ↦ let ne : d.id ≢ id = ground arith in inl (Stored-remove id d.id p q.drafts ne h)
  ]
  settled-Safe id p d q (refused status m) s agrees taken h =
      elim (Bool-cases (is_permanent status)) [ inl e ↦ rw e (inl h) | inr e ↦ rw e (inl h) ]

  deliver-Safe :
      (now id : ℕ) (p : Payload) (d : OfflineTransactionDraft) (t : Tab Server)
      → (d.id ≡ id → d.payload ≡ p)
      → Safe id p t
      → Safe id p (deliver post http_status now d t).1
  unfolding deliver claim_draft
  deliver-Safe now id p d t agrees (inr h) = inr (keeps p d.payload t.server h)
  deliver-Safe now id p d t agrees (inl h) =
      settled-Safe id p d (claim_draft now d.id 60_000 t.queue) (post d.payload t.server).0
        (post d.payload t.server).1 agrees (takes d.payload t.server) h

  deliver_all-Safe :
      (now id : ℕ) (p : Payload) (ds : List OfflineTransactionDraft) (c : Counts) (t : Tab Server)
      → Agrees id p ds
      → Safe id p t
      → Safe id p (deliver_all post http_status now ds c t).1
  unfolding deliver_all deliver
  deliver_all-Safe now id p [] c t agrees h = h
  deliver_all-Safe now id p (d ∷ ds) c t agrees h = elim (Bool-cases (d.id == 0)) [
    | inl e ↦ rw e (deliver_all-Safe now id p ds c t agrees.1 h)
    | inr e ↦ rw e (
        deliver_all-Safe now id p ds (tally post http_status (post d.payload t.server).0 c)
          (deliver post http_status now d t).1 agrees.1 (deliver-Safe now id p d t agrees.0 h))
  ]

  -- A drain loses no draft: a draft that is in the store before it, under a key that no other payload
  -- has, is in the store after it with its payload, or the server has accepted that payload.
  pub drain_queue-Safe :
      (now id : ℕ) (p : Payload) (t : Tab Server)
      → Agrees id p t.queue.drafts
      → Stored id p t.queue.drafts
      → Safe id p (drain_queue post http_status now false t).1
  unfolding drain_queue pending_drafts get_queued_drafts release_expired_locks
  drain_queue-Safe now id p t agrees stored =
      let stale : OfflineTransactionDraft → Bool = λ d. is_stale now d.status d.lock_expires_at in
      let queue = (release_expired_locks now t.queue).1 in
      deliver_all-Safe now id p (filter is_pending (sort_drafts queue.drafts))
        (record { completed = 0; failed = 0 }) (record t { queue = queue })
        (filter-All (λ d. d.id ≡ id → d.payload ≡ p) is_pending (sort_drafts queue.drafts)
          (Agrees-sort id p queue.drafts
            (Agrees-change stale unlock (λ d. refl) (λ d. refl) id p t.queue.drafts agrees)))
        (inl (Stored-change stale unlock (λ d. refl) (λ d. refl) id p t.queue.drafts stored))
