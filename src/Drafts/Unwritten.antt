-- ===== src/Drafts/Unwritten.antt =====
-- The handlers of apps/frontend/lib/offlineQueue.ts that `withStore` replaces.
use afro_pay_stellar.Prelude.{
  ℕ, String, ◌≡◌, refl, false, not, Option, none, List, [], ◌∷◌, map, ◌==◌, if◌then◌else◌, All,
  All-append, filter-All, Bool-cases, inl, inr,
}
use afro_pay_stellar.Drafts.{
  OfflineTransactionDraft, Payload, Queue, pending, is_stale, unlock, enqueue_draft, claim_draft,
  release_expired_locks, mark_draft_failed, requeue_draft, remove_draft, clear_queue,
}
use afro_pay_stellar.Drafts.Sync.{
  Reply, accepted, refused, Counts, Tab, settle, tally, is_permanent, deliver, deliver_all,
  pending_drafts, drain_queue,
}

-- As `enqueueDraft` stores it.
abbrev pub IsUntouched : OfflineTransactionDraft → Type 0
IsUntouched d = (d.status ≡ pending) × (d.lock_expires_at ≡ none) × (d.attempt_count ≡ 0)

pub data Op : Type 0 where
  enqueuing : (now : ℕ) (payload : Payload) → Op
  claiming : (now id lock_ms : ℕ) → Op
  releasing : (now : ℕ) → Op
  failing : (id : ℕ) (error : String) → Op
  requeuing : (id : ℕ) (error : String) → Op
  removing : (id : ℕ) → Op
  draining : (now : ℕ) → Op
  clearing : Op

module _ {Server : Type 0} (post : Payload → Server → Reply × Server)
    (http_status : Option ℕ → String) where
  abbrev with_queue : Queue → Tab Server → Tab Server
  with_queue q t = record t { queue = q }

  unfoldable pub run : Op → Tab Server → Tab Server
  run (enqueuing now payload) t = with_queue (enqueue_draft now payload t.queue).1 t
  run (claiming now id lock_ms) t = with_queue (claim_draft now id lock_ms t.queue) t
  run (releasing now) t = with_queue (release_expired_locks now t.queue).1 t
  run (failing id error) t = with_queue (mark_draft_failed id error t.queue) t
  run (requeuing id error) t = with_queue (requeue_draft id error t.queue) t
  run (removing id) t = with_queue (remove_draft id t.queue) t
  run (draining now) t = (drain_queue post http_status now false t).1
  run clearing t = with_queue (clear_queue t.queue) t

  unfoldable pub run_all : List Op → Tab Server → Tab Server
  run_all [] t = t
  run_all (op ∷ ops) t = run_all ops (run op t)

  abbrev AllUntouched : Tab Server → Type 0
  AllUntouched t = All IsUntouched t.queue.drafts

  released-IsUntouched :
      (now : ℕ) (ds : List OfflineTransactionDraft)
      → All IsUntouched ds
      → All IsUntouched
          (map (λ d. if is_stale now d.status d.lock_expires_at then unlock d else d) ds)
  released-IsUntouched now [] h = tt
  released-IsUntouched now (d ∷ ds) h =
      elim (Bool-cases (is_stale now d.status d.lock_expires_at)) [
        | inl e ↦ rw e ((refl, refl, h.0.2), released-IsUntouched now ds h.1)
        | inr e ↦ rw e (h.0, released-IsUntouched now ds h.1)
      ]

  settle-IsUntouched :
      (reply : Reply) (id : ℕ) (q : Queue)
      → All IsUntouched q.drafts
      → All IsUntouched (settle post http_status reply id q).drafts
  unfolding remove_draft mark_draft_failed requeue_draft
  settle-IsUntouched accepted id q h = filter-All IsUntouched (λ d. not (d.id == id)) q.drafts h
  settle-IsUntouched (refused status m) id q h = elim (Bool-cases (is_permanent status)) [
    | inl e ↦ rw e h
    | inr e ↦ rw e h
  ]

  deliver_all-AllUntouched :
      (now : ℕ) (ds : List OfflineTransactionDraft) (c : Counts) (t : Tab Server)
      → AllUntouched t
      → AllUntouched (deliver_all post http_status now ds c t).1
  unfolding deliver_all deliver claim_draft
  deliver_all-AllUntouched now [] c t h = h
  deliver_all-AllUntouched now (d ∷ ds) c t h = elim (Bool-cases (d.id == 0)) [
    | inl e ↦ rw e (deliver_all-AllUntouched now ds c t h)
    | inr e ↦ rw e (
        deliver_all-AllUntouched now ds (tally post http_status (post d.payload t.server).0 c)
          (deliver post http_status now d t).1
          (settle-IsUntouched (post d.payload t.server).0 d.id t.queue h))
  ]

  run-AllUntouched : (op : Op) (t : Tab Server) → AllUntouched t → AllUntouched (run op t)
  unfolding run enqueue_draft claim_draft release_expired_locks mark_draft_failed requeue_draft
      remove_draft clear_queue drain_queue
  run-AllUntouched (enqueuing now payload) t h =
      All-append IsUntouched t.queue.drafts _ h ((refl, refl, refl), tt)
  run-AllUntouched (claiming now id lock_ms) t h = h
  run-AllUntouched (releasing now) t h = released-IsUntouched now t.queue.drafts h
  run-AllUntouched (failing id error) t h = h
  run-AllUntouched (requeuing id error) t h = h
  run-AllUntouched (removing id) t h =
      filter-All IsUntouched (λ d. not (d.id == id)) t.queue.drafts h
  run-AllUntouched (draining now) t h =
      let queue = (release_expired_locks now t.queue).1 in
      deliver_all-AllUntouched now (pending_drafts post http_status queue)
        (record { completed = 0; failed = 0 }) (record t { queue = queue })
        (released-IsUntouched now t.queue.drafts h)
  run-AllUntouched clearing t h = tt

  untouched_after : (ops : List Op) (t : Tab Server) → AllUntouched t → AllUntouched (run_all ops t)
  unfolding run_all
  untouched_after [] t h = h
  untouched_after (op ∷ ops) t h = untouched_after ops (run op t) (run-AllUntouched op t h)

  -- From an empty store, after any sequence of calls, claims, failures and drains included, every draft
  -- in the store is pending, without a lock and with no attempt counted: no claim and no failure is
  -- ever written.
  pub run_all-AllUntouched :
      (ops : List Op) (t : Tab Server)
      → t.queue.drafts ≡ []
      → All IsUntouched (run_all ops t).queue.drafts
  run_all-AllUntouched ops t empty = untouched_after ops t (rw empty tt)
