-- ===== src/Platform/Jobs/Examples.antt =====
-- A queue of two jobs and three workers.
use sintade.Prelude.{ℕ, ◌+◌, ◌≤◌, ◌≡◌, refl, true, false, List, [], ◌∷◌, none, some, arith, find}
use sintade.Platform.Jobs.{
  Job, new_job, retrying, dead_lettered, is_job, is_runnable, enqueue_unless_pending, extend_lock,
  claim_kinds, complete, fail,
}
use sintade.Platform.Jobs.Claims.{claim_kinds-exclusive}
use sintade.Platform.Jobs.Pending.{
  Op, add_unless_pending, claim, apply, apply_all, pending_count, stale_checks,
  apply_all-pending_count,
}
use sintade.Platform.Jobs.Stale.{fail-retrying}
use sintade.Prelude.Sort.{sort_by}

abbrev take_job : Job
take_job = new_job 10 1 5 0

abbrev sweep_job : Job
sweep_job = new_job 12 2 6 0

abbrev queue : List Job
queue = take_job ∷ sweep_job ∷ []

abbrev held : Job
held = record take_job { locked_by = some 100; locked_until = some 50 }

abbrev one_held : List Job
one_held = held ∷ sweep_job ∷ []

abbrev held_too : Job
held_too = record sweep_job { locked_by = some 200; locked_until = some 55 }

oldest_first : claim_kinds 20 100 30 none queue ≡ (some take_job, one_held)
unfolding claim_kinds sort_by
oldest_first = refl

next_one : claim_kinds 25 200 30 none one_held ≡ (some sweep_job, held ∷ held_too ∷ [])
unfolding claim_kinds sort_by
next_one = refl

nothing_left : claim_kinds 25 200 30 (some (5 ∷ [])) one_held ≡ (none, one_held)
unfolding claim_kinds sort_by
nothing_left = refl

lost_lock : (extend_lock 60 1 300 30 one_held).1 ≡ false
unfolding extend_lock
lost_lock = refl

-- The lock of worker 100 lasts until 50, but a failure that anyone records drops it.
taken_over :
    (claim_kinds 32 300 30 (some (5 ∷ [])) (fail 30 2 1 one_held).1).0
    ≡ some (record take_job { run_at = 32; attempts = 1 })
unfolding claim_kinds sort_by fail
taken_over = refl

claim_kinds-exclusive_example : is_job take_job.id sweep_job ≡ false
claim_kinds-exclusive_example =
    claim_kinds-exclusive 20 25 100 200 30 30 none none queue one_held (held ∷ held_too ∷ [])
      take_job sweep_job (omega arith) oldest_first next_one

-- Two workers tick at 20, both with the snapshot of an empty table.
abbrev ticks : List (ℕ × Op)
ticks =
    (20, add_unless_pending [] 1 6 0)
    ∷ (20, add_unless_pending [] 2 6 0)
    ∷ (25, claim 100 30 none)
    ∷ (40, add_unless_pending (new_job 20 2 6 0 ∷ []) 3 6 0)
    ∷ []

two_at_once : pending_count 6 (apply_all ticks []) ≡ 2
unfolding apply_all enqueue_unless_pending complete claim_kinds sort_by
two_at_once = refl

one_missed : stale_checks 6 ticks [] ≡ 1
unfolding stale_checks apply enqueue_unless_pending complete claim_kinds sort_by
one_missed = refl

apply_all-pending_count_example : pending_count 6 (apply_all ticks []) ≤ 1 + stale_checks 6 ticks []
apply_all-pending_count_example =
    apply_all-pending_count 6 ticks [] (refl, (refl, (refl, (refl, tt)))) (omega arith)

fail-retrying_example :
    ((fail 30 2 1 one_held).0 ≡ some retrying)
    × ((failed : Job) × (find (is_job 1) (fail 30 2 1 one_held).1 ≡ some failed)
        × (failed.attempts ≡ 1)
        × (failed.locked_by ≡ none)
        × (is_runnable (30 + 2) none failed ≡ true))
fail-retrying_example = fail-retrying 30 2 1 one_held held refl refl (omega arith)

abbrev worn : List Job
worn = record take_job { attempts = 4 } ∷ []

last_attempt : (fail 30 2 1 worn).0 ≡ some dead_lettered
unfolding fail
last_attempt = refl
