-- ===== src/Platform/Jobs.antt =====
-- The job queue (crates/platform/src/job_queue.rs), each statement on the table of jobs. A kind, a
-- payload and the name of a worker are numbers, and only compared; times are numbers of
-- milliseconds, and `now()` of the database is the argument `now`. How long a retry waits, 2 to the
-- number of attempts in seconds give or take a random fifth, is the argument `delay`.
pub mod Claims
pub mod Pending
pub mod Stale
mod Examples
use sintade.Prelude.{
  ℕ, suc, ◌+◌, Bool, true, false, not, ◌&&◌, ◌||◌, List, [], ◌∷◌, ◌++◌, Option, none, some, map,
  ltb, leb, ◌==◌, if◌then◌else◌, any, filter, find, update_where, count_where,
}
use sintade.Prelude.Sort.{sort_by}

-- A row of `jobs`.
pub record Job : Type 0 where
  pub id : ℕ
  pub kind : ℕ
  pub payload : ℕ
  pub run_at : ℕ
  pub attempts : ℕ
  pub max_attempts : ℕ
  pub locked_by : Option ℕ
  pub locked_until : Option ℕ
  pub done_at : Option ℕ
  pub dead_at : Option ℕ

pub data FailOutcome : Type 0 where
  retrying dead_lettered : FailOutcome

abbrev pub is_null : Option ℕ → Bool
is_null none = true
is_null (some _) = false

abbrev pub is_job : ℕ → Job → Bool
is_job id j = j.id == id

-- `done_at IS NULL AND dead_at IS NULL`: waiting or running.
abbrev pub is_pending : Job → Bool
is_pending j = is_null j.done_at && is_null j.dead_at

-- A new row, with the defaults of the table.
abbrev pub new_job : ℕ → ℕ → ℕ → ℕ → Job
new_job now id kind payload = record {
  id = id;
  kind = kind;
  payload = payload;
  run_at = now;
  attempts = 0;
  max_attempts = 5;
  locked_by = none;
  locked_until = none;
  done_at = none;
  dead_at = none;
}

unfoldable pub enqueue : ℕ → ℕ → ℕ → ℕ → List Job → List Job
enqueue now id kind payload jobs = jobs ++ new_job now id kind payload ∷ []

-- `locked_by = $2`.
abbrev pub is_locked_by : ℕ → Option ℕ → Bool
is_locked_by worker none = false
is_locked_by worker (some holder) = holder == worker

-- Whether the worker still held the lock.
unfoldable pub extend_lock : ℕ → ℕ → ℕ → ℕ → List Job → List Job × Bool
extend_lock now id worker lock jobs =
    let held = λ (j : Job). is_job id j && is_locked_by worker j.locked_by && is_pending j in
    (
      update_where held (λ j. record j { locked_until = some (now + lock) }) jobs,
      count_where held jobs == 1,
    )

abbrev pub pending_of : ℕ → Job → Bool
pending_of kind j = j.kind == kind && is_pending j

-- Whether a job was added. `seen` is the table as the statement's snapshot shows it: without the
-- jobs of statements that run at the same time and commit first. Nothing locks the table, and no
-- index keeps a second pending job of a kind out.
unfoldable pub enqueue_unless_pending : ℕ → ℕ → ℕ → ℕ → (seen jobs : List Job) → List Job × Bool
unfolding enqueue
enqueue_unless_pending now id kind payload seen jobs =
    if any (pending_of kind) seen then (jobs, false) else (enqueue now id kind payload jobs, true)

abbrev pub identical_pending : ℕ → ℕ → Job → Bool
identical_pending kind payload j = j.kind == kind && j.payload == payload && is_pending j

unfoldable pub enqueue_unless_identical_pending :
    ℕ → ℕ → ℕ → ℕ → (seen jobs : List Job) → List Job × Bool
unfolding enqueue
enqueue_unless_identical_pending now id kind payload seen jobs =
    if any (identical_pending kind payload) seen
    then (jobs, false)
    else (enqueue now id kind payload jobs, true)

-- `locked_until IS NULL OR locked_until < now()`.
abbrev pub is_free : ℕ → Option ℕ → Bool
is_free now none = true
is_free now (some until) = ltb until now

-- `$3 IS NULL OR kind = ANY($3)`.
abbrev pub is_wanted : Option (List ℕ) → ℕ → Bool
is_wanted none kind = true
is_wanted (some kinds) kind = any (λ k. k == kind) kinds

abbrev pub is_runnable : ℕ → Option (List ℕ) → Job → Bool
is_runnable now kinds j =
    is_pending j && leb j.run_at now && is_free now j.locked_until && is_wanted kinds j.kind

abbrev pub runs_before : Job → Job → Bool
runs_before a b = ltb a.run_at b.run_at

abbrev pub first_of : List Job → Option Job
first_of [] = none
first_of (j ∷ _) = some j

-- The oldest runnable job. A row that another claim locks at the same time is skipped, which is a
-- claim behind that one.
unfoldable pub next_runnable : ℕ → Option (List ℕ) → List Job → Option Job
next_runnable now kinds jobs = first_of (sort_by runs_before (filter (is_runnable now kinds) jobs))

abbrev pub lock_job : ℕ → ℕ → ℕ → Job → Job
lock_job now worker lock j = record j { locked_by = some worker; locked_until = some (now + lock) }

abbrev pub claimed : ℕ → ℕ → ℕ → Option Job → List Job → List Job
claimed now worker lock none jobs = jobs
claimed now worker lock (some j) jobs = update_where (is_job j.id) (lock_job now worker lock) jobs

-- The claimed job, which is returned by its id, kind, payload and attempts.
unfoldable pub claim_kinds : ℕ → ℕ → ℕ → Option (List ℕ) → List Job → Option Job × List Job
unfolding next_runnable
claim_kinds now worker lock kinds jobs =
    let next = next_runnable now kinds jobs in (next, claimed now worker lock next jobs)

unfoldable pub complete : ℕ → ℕ → List Job → List Job
complete now id = update_where (is_job id) λ j. record j { done_at = some now }

-- The first statement of `fail`.
abbrev pub count_attempt : Job → Job
count_attempt j = record j { attempts = j.attempts + 1; locked_by = none; locked_until = none }

-- Its second statement, which the numbers that the first one returned decide.
abbrev pub give_up_or_wait : ℕ → ℕ → Job → Job
give_up_or_wait now delay j =
    if leb j.max_attempts j.attempts
    then record j { dead_at = some now }
    else record j { run_at = now + delay }

abbrev pub outcome_of : Option Job → Option FailOutcome
outcome_of none = none
outcome_of (some j) = some (if leb j.max_attempts (j.attempts + 1) then dead_lettered else retrying)

-- No outcome where the job does not exist: `fetch_one` then fails. The two statements of the
-- code are one step here.
unfoldable pub fail : ℕ → ℕ → ℕ → List Job → Option FailOutcome × List Job
fail now delay id jobs = (
  outcome_of (find (is_job id) jobs),
  update_where (is_job id) (λ j. give_up_or_wait now delay (count_attempt j)) jobs,
)
