-- ===== src/Drafts/Sync.antt =====
-- `drainQueue` of apps/frontend/lib/syncEngine.ts. The listeners are told the state at the end, which
-- comes back with the counts; claims, which write to the browser's own store, do not fail.
use afro_pay_stellar.Prelude.{
  ℕ, suc, String, Bool, true, false, ◌&&◌, Option, none, some, List, [], ◌∷◌, ltb, leb, ◌==◌,
  if◌then◌else◌, filter,
}
use afro_pay_stellar.Drafts.{
  OfflineTransactionDraft, Payload, Queue, is_pending, get_queued_drafts, claim_draft,
  release_expired_locks, mark_draft_failed, requeue_draft, remove_draft,
}

-- What the server answers: a success, or the status of the response, if any, with a message.
pub data Reply : Type 0 where
  accepted : Reply
  refused : Option ℕ → Option String → Reply

pub data SyncState : Type 0 where
  idle syncing error : SyncState

pub record Counts : Type 0 where
  pub completed : ℕ
  pub failed : ℕ

pub record Tab (Server : Type 0) : Type 0 where
  pub queue : Queue
  pub server : Server

-- `status && status >= 400 && status < 500`
abbrev pub is_permanent : Option ℕ → Bool
is_permanent none = false
is_permanent (some status) = leb 400 status && ltb status 500

abbrev pub message_or : String → Option String → String
message_or default none = default
message_or default (some m) = m

module _ {Server : Type 0} (post : Payload → Server → Reply × Server)
    (http_status : Option ℕ → String) where
  abbrev pub settle : Reply → ℕ → Queue → Queue
  settle accepted id q = remove_draft id q
  settle (refused status m) id q =
      if is_permanent status
      then mark_draft_failed id (message_or (http_status status) m) q
      else requeue_draft id (message_or "Network error" m) q

  abbrev pub tally : Reply → Counts → Counts
  tally accepted c = record c { completed = suc c.completed }
  tally (refused status m) c = if is_permanent status then record c { failed = suc c.failed } else c

  -- One draft of the list that was read: the claim, the request, the outcome.
  unfoldable pub deliver : ℕ → OfflineTransactionDraft → Tab Server → Reply × Tab Server
  unfolding claim_draft remove_draft mark_draft_failed requeue_draft
  deliver now d t =
      let claimed = claim_draft now d.id 60_000 t.queue in
      let (reply, server) = post d.payload t.server in
      (reply, record { queue = settle reply d.id claimed; server = server })

  unfoldable pub deliver_all :
      ℕ → List OfflineTransactionDraft → Counts → Tab Server → Counts × Tab Server
  unfolding deliver
  deliver_all now [] c t = (c, t)
  deliver_all now (d ∷ ds) c t =
      let (reply, t') = deliver now d t in
      let skipped = deliver_all now ds c t in
      let rest = deliver_all now ds (tally reply c) t' in if d.id == 0 then skipped else rest

  -- The drafts that a drain reads.
  unfoldable pub pending_drafts : Queue → List OfflineTransactionDraft
  unfolding get_queued_drafts
  pending_drafts q = filter is_pending (get_queued_drafts q)

  abbrev pub final_state : Counts → SyncState
  final_state c = if ltb 0 c.failed then error else idle

  -- `isSyncingNow`: while a drain runs in the tab, a second call returns at once.
  unfoldable pub drain_queue : ℕ → Bool → Tab Server → Option (SyncState × Counts) × Tab Server
  unfolding deliver_all pending_drafts release_expired_locks
  drain_queue now true t = (none, t)
  drain_queue now false t =
      let (released, queue) = release_expired_locks now t.queue in
      let (c, t') =
        deliver_all now (pending_drafts queue) (record { completed = 0; failed = 0 })
          (record t { queue = queue }) in
      (some (final_state c, c), t')
