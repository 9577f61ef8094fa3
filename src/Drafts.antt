-- ===== src/Drafts.antt =====
-- apps/frontend/lib/offlineQueue.ts and apps/frontend/lib/syncEngine.ts: transfers that were written
-- offline, and their delivery. The object store of the browser is the list of its records, in the order
-- of their keys; the server and the clock are arguments.
pub mod Sync
pub mod Order
pub mod Loss
pub mod Twice
pub mod Unwritten
mod Tests
use afro_pay_stellar.Prelude.{
  ℕ, suc, ◌+◌, String, Bool, true, false, not, ◌&&◌, Option, none, some, List, [], ◌∷◌, ◌++◌, map,
  ltb, leb, ◌==◌, if◌then◌else◌, filter, length,
}

pub data DraftStatus : Type 0 where
  pending syncing failed : DraftStatus

-- The fields that the user fills in.
pub record Payload : Type 0 where
  pub destination_public_key : String
  pub amount : String
  pub asset_code : String
  pub asset_issuer : Option String
  pub memo : Option String

pub record OfflineTransactionDraft : Type 0 where
  pub id : ℕ
  pub payload : Payload
  pub created_at : ℕ
  pub status : DraftStatus
  pub lock_expires_at : Option ℕ
  pub last_error : Option String
  pub attempt_count : ℕ

-- Keys count up from one and are not used again.
pub record Queue : Type 0 where
  pub drafts : List OfflineTransactionDraft
  pub next_id : ℕ

abbrev pub is_pending : OfflineTransactionDraft → Bool
is_pending d = elim d.status [ pending ↦ true | _ ↦ false ]

abbrev pub is_failed : OfflineTransactionDraft → Bool
is_failed d = elim d.status [ failed ↦ true | _ ↦ false ]

-- A request to the store: what it does itself, and what its `onsuccess` handler does then.
pub record Request : Type 0 where
  pub effect : Queue → Queue
  pub on_success : Queue → Queue

-- `request.onsuccess = () => resolve(request.result)`: a request has one handler under that name, so
-- this one, which writes nothing, replaces the one that the caller has set on the same request.
pub with_store : Request → Queue → Queue
with_store request q =
    let replaced = record request { on_success = λ x. x } in replaced.on_success (replaced.effect q)

pub enqueue_draft : ℕ → Payload → Queue → ℕ × Queue
unfolding with_store
enqueue_draft now payload q =
    let draft : OfflineTransactionDraft = record {
      id = q.next_id;
      payload = payload;
      created_at = now;
      status = pending;
      lock_expires_at = none;
      last_error = none;
      attempt_count = 0;
    } in
    let request : Request = record {
      effect = λ x. record { drafts = x.drafts ++ draft ∷ []; next_id = suc x.next_id };
      on_success = λ x. x;
    } in
    (q.next_id, with_store request q)

-- The sort by `createdAt`, which is stable.
abbrev pub insert_draft :
    OfflineTransactionDraft → List OfflineTransactionDraft → List OfflineTransactionDraft
insert_draft d [] = d ∷ []
insert_draft d (e ∷ es) =
    let rest = insert_draft d es in if leb d.created_at e.created_at then d ∷ e ∷ es else e ∷ rest

abbrev pub sort_drafts : List OfflineTransactionDraft → List OfflineTransactionDraft
sort_drafts [] = []
sort_drafts (d ∷ ds) = insert_draft d (sort_drafts ds)

pub get_queued_drafts : Queue → List OfflineTransactionDraft
get_queued_drafts q = sort_drafts q.drafts

pub get_pending_count : Queue → ℕ
unfolding get_queued_drafts
get_pending_count q = length (filter (λ d. not (is_failed d)) (get_queued_drafts q))

-- `get` and `put` under a key: nothing happens where the key is missing.
abbrev pub change :
    ℕ
    → (OfflineTransactionDraft → OfflineTransactionDraft)
    → List OfflineTransactionDraft
    → List OfflineTransactionDraft
change id f ds = map (λ d. if d.id == id then f d else d) ds

abbrev pub lock : ℕ → ℕ → OfflineTransactionDraft → OfflineTransactionDraft
lock now lock_ms d = record d { status = syncing; lock_expires_at = some (now + lock_ms) }

-- `get` with a handler that puts the changed record.
abbrev pub get_and_put : ℕ → (OfflineTransactionDraft → OfflineTransactionDraft) → Request
get_and_put id f = record {
  effect = λ x. x;
  on_success = λ x. record x { drafts = change id f x.drafts };
}

pub claim_draft : ℕ → ℕ → ℕ → Queue → Queue
unfolding with_store
claim_draft now id lock_ms q = with_store (get_and_put id (lock now lock_ms)) q

-- A lock in the past: `status === 'syncing' && lockExpiresAt && lockExpiresAt < now`
abbrev pub is_stale : ℕ → DraftStatus → Option ℕ → Bool
is_stale now syncing (some until) = ltb until now
is_stale now _ _ = false

abbrev pub unlock : OfflineTransactionDraft → OfflineTransactionDraft
unlock d = record d { status = pending; lock_expires_at = none }

pub release_expired_locks : ℕ → Queue → ℕ × Queue
release_expired_locks now q = (
  length (filter (λ d. is_stale now d.status d.lock_expires_at) q.drafts),
  record q {
    drafts = map (λ d. if is_stale now d.status d.lock_expires_at then unlock d else d) q.drafts;
  },
)

abbrev pub attempted : DraftStatus → String → OfflineTransactionDraft → OfflineTransactionDraft
attempted status error d = record d {
  status = status;
  lock_expires_at = none;
  last_error = some error;
  attempt_count = suc d.attempt_count;
}

pub mark_draft_failed : ℕ → String → Queue → Queue
unfolding with_store
mark_draft_failed id error q = with_store (get_and_put id (attempted failed error)) q

pub requeue_draft : ℕ → String → Queue → Queue
unfolding with_store
requeue_draft id error q = with_store (get_and_put id (attempted pending error)) q

pub remove_draft : ℕ → Queue → Queue
unfolding with_store
remove_draft id q =
    let request : Request = record {
      effect = λ x. record x { drafts = filter (λ d. not (d.id == id)) x.drafts };
      on_success = λ x. x;
    } in
    with_store request q

pub clear_queue : Queue → Queue
unfolding with_store
clear_queue q =
    let request : Request = record {
      effect = λ x. record x { drafts = [] };
      on_success = λ x. x;
    } in
    with_store request q
