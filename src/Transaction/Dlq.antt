-- ===== src/Transaction/Dlq.antt =====
-- apps/api/src/transaction/transaction-dlq.service.ts: the queue of jobs that have failed for good.
-- The two queues, the clock and the texts of times are parameters; page numbers and limits are
-- natural numbers.
pub mod Pages
pub mod Replay
mod Tests
use Prim.Native.String
use afro_pay_stellar.Prelude.{
  ℕ, zero, suc, ◌+◌, ◌-◌, ◌*◌, min, max, String, Bool, true, false, ◌&&◌, Option, none, some, List,
  [], ◌∷◌, map, ltb, str_eq, if◌then◌else◌, Error, not_found, Result, ok, err, Exec, ◌>>=◌, ◌>>◌,
  pure, gets, or_throw, modify,
}
use afro_pay_stellar.Transaction.{TransactionJobData}

abbrev pub transaction_max_attempts : ℕ
transaction_max_attempts = 3

-- Bull's `Job`, as far as the service reads it.
pub record Job : Type 0 where
  pub id : Option String
  pub name : String
  pub job_data : TransactionJobData
  -- `opts.attempts`
  pub attempts : Option ℕ
  pub attempts_made : ℕ
  -- "" where Bull has set none
  pub failed_reason : String
  pub stacktrace : List String

pub record JobError : Type 0 where
  pub message : String
  pub stack : Option String

pub record TransactionDlqPayload : Type 0 where
  pub original_job_id : String
  pub original_job_name : String
  pub payload : TransactionJobData
  pub error_message : String
  pub stacktrace : List String
  pub attempts_made : ℕ
  pub max_attempts : ℕ
  pub failed_at : ℕ
  pub replayed_at : Option ℕ
  pub replay_job_id : Option String

pub record DlqJob : Type 0 where
  pub job_id : String
  pub state : String
  pub job_data : TransactionDlqPayload

pub record DlqServices : Type 1 where
  pub Dlq : Type 0
  pub add : String → TransactionDlqPayload → Exec Dlq (Unit {0})
  pub get_job : String → Dlq → Option TransactionDlqPayload
  pub update : String → TransactionDlqPayload → Exec Dlq (Unit {0})
  -- `getJobs` of some states, from a first to a last index of each
  pub get_jobs : List String → ℕ → ℕ → Dlq → List DlqJob
  pub job_counts : Dlq → List ℕ
  pub Jobs : Type 0
  -- `add` of the queue 'transactions': the name, the data, the job's identifier
  pub add_job : String → TransactionJobData → String → Exec Jobs (Option String)
  pub text_of : ℕ → String

pub record DlqState (env : DlqServices) : Type 0 where
  pub dlq : env.Dlq
  pub jobs : env.Jobs
  pub clock : ℕ

pub record DlqPage : Type 0 where
  pub items : List DlqJob
  pub page : ℕ
  pub limit : ℕ
  pub total : ℕ

pub record ReplayResult : Type 0 where
  pub dlq_job_id : String
  pub replay_job_id : Option String

-- The states that `list` names.
abbrev pub dlq_states : List String
dlq_states = "waiting" ∷ "delayed" ∷ "failed" ∷ "paused" ∷ []

abbrev pub or_default : ℕ → Option ℕ → ℕ
or_default n none = n
or_default n (some k) = k

-- `Number(x) || n`
abbrev pub or_positive : ℕ → Option ℕ → ℕ
or_positive n none = n
or_positive n (some zero) = n
or_positive n (some (suc k)) = suc k

abbrev or_unknown : Option String → String
or_unknown none = "unknown"
or_unknown (some id) = id

-- `a || b`
abbrev pub or_text : String → String → String
or_text a b = if str_eq a "" then b else a

abbrev stacktrace_of : List String → Option String → List String
stacktrace_of (x ∷ xs) stack = x ∷ xs
stacktrace_of [] (some s) = s ∷ []
stacktrace_of [] none = []

abbrev pub sum : List ℕ → ℕ
sum [] = 0
sum (n ∷ ns) = n + sum ns

module _ (env : DlqServices) where
  abbrev add_to_dlq : String → TransactionDlqPayload → Exec (DlqState env) (Unit {0})
  add_to_dlq id p s = let (r, dlq) = env.add id p s.dlq in (r, record s { dlq = dlq })

  abbrev update_dlq : String → TransactionDlqPayload → Exec (DlqState env) (Unit {0})
  update_dlq id p s = let (r, dlq) = env.update id p s.dlq in (r, record s { dlq = dlq })

  abbrev add_to_jobs : String → TransactionJobData → String → Exec (DlqState env) (Option String)
  add_to_jobs name contents id s =
      let (r, jobs) = env.add_job name contents id s.jobs in (r, record s { jobs = jobs })

  abbrev pub dlq_job_id : Job → String
  dlq_job_id job =
      String.◌++◌ "failed-transaction:"
        (String.◌++◌ (or_unknown job.id) (String.◌++◌ ":" (env.text_of job.attempts_made)))

  abbrev payload_of : Job → JobError → ℕ → TransactionDlqPayload
  payload_of job error now = record {
    original_job_id = or_unknown job.id;
    original_job_name = job.name;
    payload = job.job_data;
    error_message = or_text job.failed_reason error.message;
    stacktrace = stacktrace_of job.stacktrace error.stack;
    attempts_made = job.attempts_made;
    max_attempts = or_default transaction_max_attempts job.attempts;
    failed_at = now;
    replayed_at = none;
    replay_job_id = none;
  }

  -- Whether Bull will try the job again.
  abbrev pub has_attempts_left : Job → Bool
  has_attempts_left job =
      let m = or_default transaction_max_attempts job.attempts in ltb 0 m && ltb job.attempts_made m

  pub route_failed_job_to_dlq : Job → JobError → Exec (DlqState env) Bool
  route_failed_job_to_dlq job error = if has_attempts_left job then pure false else do
    now ← gets (λ s. s.clock)
    add_to_dlq (dlq_job_id job) (payload_of job error now)
    pure true

  pub list : Option ℕ → Option ℕ → DlqState env → DlqPage
  list page limit s =
      let page = max 1 (or_positive 1 page) in
      let limit = min 100 (max 1 (or_positive 25 limit)) in
      let start = (page - 1) * limit in
      record {
        items = env.get_jobs dlq_states start (start + limit - 1) s.dlq;
        page = page;
        limit = limit;
        total = sum (env.job_counts s.dlq);
      }

  abbrev pub replay_key : String → ℕ → String
  replay_key id now = String.◌++◌ "replay:" (String.◌++◌ id (String.◌++◌ ":" (env.text_of now)))

  pub replay : String → Exec (DlqState env) ReplayResult
  replay id = do
    found ← gets (λ s. env.get_job id s.dlq)
    payload ← or_throw found not_found
    now ← gets (λ s. s.clock)
    new_id ←
        add_to_jobs (or_text payload.original_job_name "process") payload.payload
          (replay_key id now)
    later ← gets (λ s. s.clock)
    update_dlq id (record payload { replayed_at = some later; replay_job_id = new_id })
    pure (record { dlq_job_id = id; replay_job_id = new_id })
