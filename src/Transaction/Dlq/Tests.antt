-- ===== src/Transaction/Dlq/Tests.antt =====
-- Queues in memory, and the theorems at a job that has failed for good and at a concrete page.
use afro_pay_stellar.Prelude.{
  ℕ, suc, ◌+◌, ◌-◌, ◌*◌, ◌≤◌, String, ◌≡◌, refl, true, Option, none, some, List, [], ◌∷◌, ◌++◌,
  length, length-append, length-take, take, drop, str_eq, str_eq_refl, if◌then◌else◌, filter, ok,
  arith, ◌>>=◌,
}
use afro_pay_stellar.Transaction.{TransactionJobData}
use afro_pay_stellar.Transaction.Processor.Tests.{job}
use afro_pay_stellar.Transaction.Dlq.{
  Job, JobError, TransactionDlqPayload, DlqJob, DlqServices, DlqState, list, replay, dlq_job_id,
  replay_key, route_failed_job_to_dlq, transaction_max_attempts,
}
use afro_pay_stellar.Transaction.Dlq.Pages.{list-bounds}
use afro_pay_stellar.Transaction.Dlq.Replay.{IsQueue, replay-route}

abbrev find : String → List DlqJob → Option TransactionDlqPayload
find id [] = none
find id (j ∷ js) = let rest = find id js in if str_eq j.job_id id then some j.job_data else rest

-- The range of each state, one state after the other.
abbrev ranges : List String → ℕ → ℕ → List DlqJob → List DlqJob
ranges [] first last q = []
ranges (state ∷ states) first last q =
    take (last + 1 - first) (drop first (filter (λ j. str_eq j.state state) q))
    ++ ranges states first last q

abbrev queues : DlqServices
queues = record {
  Dlq = List DlqJob;
  add = λ id p q. (ok tt, record { job_id = id; state = "waiting"; job_data = p } ∷ q);
  get_job = find;
  update = λ id p q. (ok tt, q);
  get_jobs = ranges;
  job_counts = λ q. length q ∷ [];
  Jobs = List (String × TransactionJobData);
  add_job = λ name contents id js. (ok (some id), (id, contents) ∷ js);
  text_of = λ n. "3";
}

ranges-few :
    (states : List String) (first last : ℕ) (q : List DlqJob)
    → length (ranges states first last q) ≤ length states * (last + 1 - first)
ranges-few [] first last q = omega arith
ranges-few (state ∷ states) first last q =
    let rest = ranges-few states first last q in
    let page = drop first (filter (λ j. str_eq j.state state) q) in
    let joined = length-append (take (last + 1 - first) page) (ranges states first last q) in
    let taken = length-take (last + 1 - first) page in
    let more : suc (length states) * (last + 1 - first)
        ≡ (last + 1 - first) + length states * (last + 1 - first) =
      omega arith in
    omega (arith, rest, joined, taken, more)

queues-IsQueue : IsQueue queues
queues-IsQueue id p q u unknown added = rw (str_eq_refl id) refl

abbrev empty : DlqState queues
empty = record { dlq = []; jobs = []; clock = 5 }

abbrev bull_job : Job
bull_job = record {
  id = some "7";
  name = "process";
  job_data = job;
  attempts = some transaction_max_attempts;
  attempts_made = 3;
  failed_reason = "";
  stacktrace = [];
}

abbrev error : JobError
error = record { message = "timeout"; stack = none }

abbrev later : DlqState queues
later = record (route_failed_job_to_dlq queues bull_job error empty).1 { clock = 9 }

replay-route_example :
    ((route_failed_job_to_dlq queues bull_job error empty).0 ≡ ok true)
    × ((replay queues (dlq_job_id queues bull_job) later).1.jobs
        ≡ (replay_key queues (dlq_job_id queues bull_job) 9, job) ∷ [])
replay-route_example = replay-route queues bull_job error empty 9 queues-IsQueue refl refl refl

abbrev failed_row : DlqJob
failed_row = record {
  job_id = "x";
  state = "failed";
  job_data = record {
    original_job_id = "x";
    original_job_name = "process";
    payload = job;
    error_message = "";
    stacktrace = [];
    attempts_made = 3;
    max_attempts = 3;
    failed_at = 1;
    replayed_at = none;
    replay_job_id = none;
  };
}

-- A job that waits and one that has failed, each first of its state.
abbrev two : DlqState queues
two =
    let waits = (route_failed_job_to_dlq queues bull_job error empty).1 in
    record waits { dlq = failed_row ∷ waits.dlq }

two_on_a_page_of_one : length (list queues (some 1) (some 1) two).items ≡ 2
unfolding list route_failed_job_to_dlq ◌>>=◌
two_on_a_page_of_one = refl

list-bounds_example :
    (1 ≤ (list queues (some 0) (some 1000) two).page)
    × (1 ≤ (list queues (some 0) (some 1000) two).limit)
    × ((list queues (some 0) (some 1000) two).limit ≤ 100)
    × (length (list queues (some 0) (some 1000) two).items
        ≤ 4 * (list queues (some 0) (some 1000) two).limit)
list-bounds_example = list-bounds queues (some 0) (some 1000) two ranges-few
