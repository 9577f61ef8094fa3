-- ===== src/Transaction/Send/Ttl.antt =====
-- The store of cached responses of apps/api/src/transaction/transaction.service.ts (InMemoryTtlStore)
-- against a store that deletes nothing.
use afro_pay_stellar.Prelude.{
  ℕ, zero, suc, ◌==◌, ◌+◌, ◌*◌, String, ◌≡◌, refl, sym, ap, ◌∙◌, true, Option, none, some, List, [],
  ◌∷◌, arith, str_eq, Bool, false, ltb, not, ◌||◌, leb, str_eq_iff, if◌then◌else◌, set_key,
  Bool-cases, ◌⊎◌, inl, inr,
}
use afro_pay_stellar.Transaction.Send.{
  SendTransferResponse, CacheEntry, Cache, expires_after, has_expired, cache_get_entry, cache_get,
  cache_set,
}

pub data Event : Type 0 where
  setting : (key : String) (value : SendTransferResponse) (seconds : ℕ) → Event
  getting : (key : String) → Event
  waiting : ℕ → Event

abbrev pub Answers : Type 0
Answers = List (Option SendTransferResponse)

-- What the reads of a sequence of events return.
unfoldable pub answers : List Event → ℕ → Cache → Answers
answers [] now c = []
answers (setting key value seconds ∷ es) now c = answers es now (cache_set now key value seconds c)
answers (getting key ∷ es) now c = (cache_get now key c).0 ∷ answers es now (cache_get now key c).1
answers (waiting ms ∷ es) now c = answers es (now + ms) c

-- The same log as entries of the store. A read takes the newest one
-- under its key, while its lifetime lasts; a lifetime of 0 seconds does not end.
abbrev pub Log : Type 0
Log = List (String × CacheEntry)

abbrev pub newest : String → Log → Option CacheEntry
newest key [] = none
newest key ((k, e) ∷ log) = let older = newest key log in if str_eq k key then some e else older

abbrev pub alive : ℕ → Option CacheEntry → Option SendTransferResponse
alive now none = none
alive now (some e) = if has_expired e.expires_at now then none else some e.value

abbrev pub until : ℕ → ℕ → Option ℕ
until now seconds = if seconds == 0 then none else some (now + seconds * 1000)

abbrev pub written : ℕ → SendTransferResponse → ℕ → CacheEntry
written now value seconds = record { value = value; expires_at = until now seconds }

unfoldable pub entry_answers : List Event → ℕ → Log → Answers
entry_answers [] now log = []
entry_answers (setting key value seconds ∷ es) now log =
    entry_answers es now ((key, written now value seconds) ∷ log)
entry_answers (getting key ∷ es) now log = alive now (newest key log) ∷ entry_answers es now log
entry_answers (waiting ms ∷ es) now log = entry_answers es (now + ms) log

-- The store has the newest write, or has deleted it after its lifetime.
abbrev Refines : ℕ → Cache → Log → Type 0
Refines now c log =
    (key : String)
    → (c key ≡ newest key log)
      ⊎ ((c key ≡ none)
          × ((e : CacheEntry) × (newest key log ≡ some e) × (has_expired e.expires_at now ≡ true)))

deleted-Refines :
    (now : ℕ) (key : String) (e : CacheEntry) (c : Cache) (log : Log)
    → newest key log ≡ some e
    → has_expired e.expires_at now ≡ true
    → Refines now c log
    → Refines now (set_key key none c) log
deleted-Refines now key e c log found over r j = elim (Bool-cases (str_eq key j)) [
  | inl h ↦
      let same : key ≡ j = (str_eq_iff key j).0 h in
      rw h (inr (refl, (e, sym (ap (λ k. newest k log) same) ∙ found, over)))
  | inr h ↦ rw h (r j)
]

Refines-entry :
    (now : ℕ) (key : String) (o : Option CacheEntry) (c : Cache) (log : Log)
    → newest key log ≡ o
    → Refines now c log
    → ((cache_get_entry now key o c).0 ≡ alive now o)
      × Refines now (cache_get_entry now key o c).1 log
unfolding cache_get_entry
Refines-entry now key none c log found r = (refl, r)
Refines-entry now key (some e) c log found r = elim (Bool-cases (has_expired e.expires_at now)) [
  | inl over ↦ rw over (refl, deleted-Refines now key e c log found over r)
  | inr live ↦ rw live (refl, r)
]

Refines-get :
    (now : ℕ) (key : String) (c : Cache) (log : Log)
    → Refines now c log
    → ((cache_get now key c).0 ≡ alive now (newest key log))
      × Refines now (cache_get now key c).1 log
unfolding cache_get cache_get_entry
Refines-get now key c log r = elim (r key) [
  | inl same ↦ rw same (Refines-entry now key (newest key log) c log refl r)
  | inr (gone, (e, found, over)) ↦ rw gone (rw found (rw over (refl, r)))
]

same_lifetime : (now seconds : ℕ) → expires_after now seconds ≡ until now seconds
same_lifetime now zero = refl
same_lifetime now (suc n) = ground arith

Refines-set :
    (now : ℕ) (key : String) (value : SendTransferResponse) (seconds : ℕ) (c : Cache) (log : Log)
    → Refines now c log
    → Refines now (cache_set now key value seconds c) ((key, written now value seconds) ∷ log)
unfolding cache_set
Refines-set now key value seconds c log r j = elim (Bool-cases (str_eq key j)) [
  | inl h ↦ rw (same_lifetime now seconds, h) (inl refl)
  | inr h ↦ rw h (r j)
]

still_expired :
    (until : Option ℕ) (now ms : ℕ)
    → has_expired until now ≡ true
    → has_expired until (now + ms) ≡ true
still_expired none now ms h = h
still_expired (some t) now ms h = ground arith

Refines-wait : (now ms : ℕ) (c : Cache) (log : Log) → Refines now c log → Refines (now + ms) c log
Refines-wait now ms c log r j = elim (r j) [
  | inl same ↦ inl same
  | inr (gone, (e, found, over)) ↦ inr (gone, (e, found, still_expired e.expires_at now ms over))
]

answers-log :
    (es : List Event) (now : ℕ) (c : Cache) (log : Log)
    → Refines now c log
    → answers es now c ≡ entry_answers es now log
unfolding answers entry_answers
answers-log [] now c log r = refl
answers-log (setting key value seconds ∷ es) now c log r =
    answers-log es now (cache_set now key value seconds c) ((key, written now value seconds) ∷ log)
      (Refines-set now key value seconds c log r)
answers-log (getting key ∷ es) now c log r =
    let step = Refines-get now key c log r in
    rw (step.0, answers-log es now (cache_get now key c).1 log step.1) refl
answers-log (waiting ms ∷ es) now c log r =
    answers-log es (now + ms) c log (Refines-wait now ms c log r)

-- A write, as it was made.
pub record Write : Type 0 where
  pub value : SendTransferResponse
  pub at : ℕ
  pub seconds : ℕ

abbrev pub Writes : Type 0
Writes = List (String × Write)

-- A write counts for its lifetime; one of 0 seconds counts for ever.
abbrev pub lives : ℕ → Write → Bool
lives now w = w.seconds == 0 || leb now (w.at + w.seconds * 1000)

abbrev pub newest_write : String → Writes → Option Write
newest_write key [] = none
newest_write key ((k, w) ∷ ws) =
    let older = newest_write key ws in if str_eq k key then some w else older

abbrev pub read : ℕ → Option Write → Option SendTransferResponse
read now none = none
read now (some w) = if lives now w then some w.value else none

-- What reads of a log of all writes return.
unfoldable pub log_answers : List Event → ℕ → Writes → Answers
log_answers [] now ws = []
log_answers (setting key value seconds ∷ es) now ws =
    log_answers es now ((key, record { value = value; at = now; seconds = seconds }) ∷ ws)
log_answers (getting key ∷ es) now ws = read now (newest_write key ws) ∷ log_answers es now ws
log_answers (waiting ms ∷ es) now ws = log_answers es (now + ms) ws

abbrev entry_of : Write → CacheEntry
entry_of w = written w.at w.value w.seconds

abbrev entry_of? : Option Write → Option CacheEntry
entry_of? none = none
entry_of? (some w) = some (entry_of w)

abbrev entries_of : Writes → Log
entries_of [] = []
entries_of ((k, w) ∷ ws) = (k, entry_of w) ∷ entries_of ws

newest-entries_of :
    (key : String) (ws : Writes) → newest key (entries_of ws) ≡ entry_of? (newest_write key ws)
newest-entries_of key [] = refl
newest-entries_of key ((k, w) ∷ ws) = elim (Bool-cases (str_eq k key)) [
  | inl h ↦ rw h refl
  | inr h ↦ rw h (newest-entries_of key ws)
]

nonzero : (n : ℕ) → suc n == 0 ≡ false
nonzero n = ground arith

not_late : (a b : ℕ) → ltb a b ≡ not (leb b a)
not_late a b = ground arith

has_expired-until :
    (now at seconds : ℕ)
    → has_expired (until at seconds) now ≡ not (seconds == 0 || leb now (at + seconds * 1000))
has_expired-until now at zero = refl
has_expired-until now at (suc n) = rw (nonzero n) (not_late (at + suc n * 1000) now)

alive-read : (now : ℕ) (o : Option Write) → alive now (entry_of? o) ≡ read now o
alive-read now none = refl
alive-read now (some w) = elim (Bool-cases (lives now w)) [
  | inl h ↦ rw (has_expired-until now w.at w.seconds, h) refl
  | inr h ↦ rw (has_expired-until now w.at w.seconds, h) refl
]

entry_answers-log :
    (es : List Event) (now : ℕ) (ws : Writes)
    → entry_answers es now (entries_of ws) ≡ log_answers es now ws
unfolding entry_answers log_answers
entry_answers-log [] now ws = refl
entry_answers-log (setting key value seconds ∷ es) now ws =
    entry_answers-log es now ((key, record { value = value; at = now; seconds = seconds }) ∷ ws)
entry_answers-log (getting key ∷ es) now ws =
    rw (newest-entries_of key ws, alive-read now (newest_write key ws), entry_answers-log es now ws)
      refl
entry_answers-log (waiting ms ∷ es) now ws = entry_answers-log es (now + ms) ws

-- The store of cached responses, which deletes an expired entry when it is read, refines a log of the
-- writes from which nothing is deleted: from the empty store, for any sequence of writes, reads and
-- waits, every read returns the value of the newest write under its key while its lifetime lasts (for
-- ever, where it is 0 seconds), and nothing after that.
pub answers_refine_log :
    (es : List Event) (now : ℕ) → answers es now (λ key. none) ≡ log_answers es now []
answers_refine_log es now =
    answers-log es now (λ key. none) [] (λ key. inl refl) ∙ entry_answers-log es now []
