-- ===== src/Platform/Jobs/Stale.antt =====
-- What a failed attempt leaves, and who may record it.
use sintade.Prelude.{
  ℕ, ◌+◌, ◌≤◌, ◌<◌, ◌≡◌, refl, ap, ◌∙◌, true, false, List, Option, none, some, leb, ◌==◌, arith,
  find, find_sound, find-update_where, Bool-cases, inl, inr,
}
use sintade.Platform.Jobs.{
  Job, is_job, is_pending, is_runnable, retrying, dead_lettered, count_attempt, give_up_or_wait,
  outcome_of, fail,
}

same_id : (now delay : ℕ) (j : Job) → (give_up_or_wait now delay (count_attempt j)).id ≡ j.id
same_id now delay j = elim (Bool-cases (leb j.max_attempts (j.attempts + 1))) [
  | inl last ↦ rw last refl
  | inr more ↦ rw more refl
]

-- The job that a search by id finds after a failed attempt, and the outcome.
fail_lem :
    (now delay id : ℕ) (jobs : List Job) (j : Job)
    → find (is_job id) jobs ≡ some j
    → (find (is_job id) (fail now delay id jobs).1
        ≡ some (give_up_or_wait now delay (count_attempt j)))
      × ((fail now delay id jobs).0 ≡ outcome_of (some j))
unfolding fail
fail_lem now delay id jobs j e = (
  find-update_where (is_job id) (is_job id) (λ x. give_up_or_wait now delay (count_attempt x)) jobs
        (λ x k. ap (λ i. i == id) (same_id now delay x))
      ∙ rw (e, find_sound (is_job id) jobs j e) refl,
  ap outcome_of e,
)

-- A failed attempt of a pending job that has attempts left counts, and drops the lock, whoever holds
-- it and however long it would have lasted: once the delay has passed every worker may claim the
-- job.
pub fail-retrying :
    (now delay id : ℕ) (jobs : List Job) (j : Job)
    → find (is_job id) jobs ≡ some j
    → is_pending j ≡ true
    → j.attempts + 1 < j.max_attempts
    → ((fail now delay id jobs).0 ≡ some retrying)
      × ((failed : Job) × (find (is_job id) (fail now delay id jobs).1 ≡ some failed)
          × (failed.attempts ≡ j.attempts + 1)
          × (failed.locked_by ≡ none)
          × (is_runnable (now + delay) none failed ≡ true))
fail-retrying now delay id jobs j e pending left =
    let more : leb j.max_attempts (j.attempts + 1) ≡ false = ground arith in
    let (found, outcome) = fail_lem now delay id jobs j e in
    (
      outcome ∙ rw more refl,
      (
        record (count_attempt j) { run_at = now + delay },
        found ∙ rw more refl,
        refl,
        refl,
        ground arith,
      ),
    )

-- The attempt that reaches the maximum ends the job: it is dead, and no claim takes it at any time.
pub fail-dead_lettered :
    (now delay id : ℕ) (jobs : List Job) (j : Job)
    → find (is_job id) jobs ≡ some j
    → j.max_attempts ≤ j.attempts + 1
    → ((fail now delay id jobs).0 ≡ some dead_lettered)
      × ((failed : Job) × (find (is_job id) (fail now delay id jobs).1 ≡ some failed)
          × ((later : ℕ) (kinds : Option (List ℕ)) → is_runnable later kinds failed ≡ false))
fail-dead_lettered now delay id jobs j e reached =
    let last : leb j.max_attempts (j.attempts + 1) ≡ true = ground arith in
    let (found, outcome) = fail_lem now delay id jobs j e in
    (
      outcome ∙ rw last refl,
      (
        record (count_attempt j) { dead_at = some now },
        found ∙ rw last refl,
        (λ later kinds. ground arith),
      ),
    )
