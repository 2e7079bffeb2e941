-- ===== src/Media/Processing/Finished.antt =====
-- How a run of `ProcessTake` leaves the take and its recording.
use sintade.Prelude.{
  ℕ, ◌≡◌, refl, subst, Bool, true, false, some, Result, ok, err, any, find, update_where,
  any-update_where, count_where, count_where-none, find_sound, Option-cases, inl, inr, arith,
}
use sintade.Prelude.Text.{Text}
use sintade.Catalog.Recordings.{processing_row, mark_ready, mark_failed}
use sintade.Media.Processing.{
  MediaJob, World, is_media_job, is_open, started, find_job, mark_running, mark_rejected, mark_done,
}
use sintade.Media.Processing.Run.{Steps, StepError, reject, retry, Produced, run_in_scratch}
use sintade.Media.Processing.Service.{JobIds, process_take, settle_run, finish_ready, fail, gave_up}

-- No unfinished row of the take is left, and the recording is not `processing`.
abbrev pub IsSettled : (take_id ws recording : ℕ) → World → Type 0
IsSettled take_id ws recording world =
    (any (is_open take_id ws) world.media_jobs ≡ false)
    × (any (processing_row recording ws) world.recordings ≡ false)

module _ (show_id : ℕ → Text) (payload : ℕ → ℕ → ℕ) where
  finish_ready-IsSettled :
      (now : ℕ) (ids : JobIds) (job : MediaJob) (produced : Produced) (world : World)
      → IsSettled job.take_id job.workspace_id job.recording_id
          (finish_ready show_id payload now ids job produced world)
  unfolding finish_ready mark_done mark_ready
  finish_ready-IsSettled now ids job produced world = (
    any-update_where (is_open job.take_id job.workspace_id)
        (is_media_job job.take_id job.workspace_id) _ world.media_jobs (λ j e. ground arith)
        (λ j e. ground arith),
    any-update_where (processing_row job.recording_id job.workspace_id)
        (processing_row job.recording_id job.workspace_id) _ world.recordings (λ r e. ground arith)
        (λ r e. e),
  )

  fail-IsSettled :
      (now : ℕ) (job : MediaJob) (reason detail : Text) (world : World)
      → IsSettled job.take_id job.workspace_id job.recording_id
          (fail show_id payload now job reason detail world)
  unfolding fail mark_rejected mark_failed
  fail-IsSettled now job reason detail world = (
    any-update_where (is_open job.take_id job.workspace_id)
        (is_media_job job.take_id job.workspace_id) _ world.media_jobs (λ j e. ground arith)
        (λ j e. ground arith),
    any-update_where (processing_row job.recording_id job.workspace_id)
        (processing_row job.recording_id job.workspace_id) _ world.recordings (λ r e. ground arith)
        (λ r e. e),
  )

  settle_run-IsSettled :
      (now : ℕ) (ids : JobIds) (job : MediaJob) (outcome : Result StepError Produced)
      (world : World)
      → IsSettled job.take_id job.workspace_id job.recording_id
          (settle_run show_id payload now ids job true (outcome, world)).1
  unfolding settle_run
  settle_run-IsSettled now ids job (ok produced) world =
      finish_ready-IsSettled now ids job produced world
  settle_run-IsSettled now ids job (err (reject reason)) world =
      fail-IsSettled now job reason reason world
  settle_run-IsSettled now ids job (err (retry error)) world =
      fail-IsSettled now job gave_up error world

  -- A run that finds its take unfinished.
  process_take-settle_run :
      (now : ℕ) (ids : JobIds) (last_attempt : Bool) (steps : Steps) (world : World)
      (job : MediaJob)
      → find_job job.take_id job.workspace_id world.media_jobs ≡ some job
      → count_where (is_open job.take_id job.workspace_id) world.media_jobs ≡ 1
      → process_take show_id payload now ids job.take_id job.workspace_id last_attempt steps world
        ≡ settle_run show_id payload now ids job last_attempt (
            run_in_scratch show_id now job steps (record world {
              media_jobs =
                  update_where
                    (is_open job.take_id job.workspace_id)
                    (started now)
                    world.media_jobs;
            }))
  unfolding process_take find_job mark_running
  process_take-settle_run now ids last_attempt steps world job found unfinished =
      rw (found, unfinished) refl

  -- Whatever its steps give, the last attempt at an unfinished take leaves no unfinished row of
  -- the take, and a recording that is not `processing`.
  pub process_take-IsSettled :
      (now : ℕ) (ids : JobIds) (steps : Steps) (world : World) (job : MediaJob)
      → find_job job.take_id job.workspace_id world.media_jobs ≡ some job
      → count_where (is_open job.take_id job.workspace_id) world.media_jobs ≡ 1
      → IsSettled job.take_id job.workspace_id job.recording_id
          (process_take show_id payload now ids job.take_id job.workspace_id true steps world).1
  process_take-IsSettled now ids steps world job found unfinished =
      rw (process_take-settle_run now ids true steps world job found unfinished)
        (settle_run-IsSettled now ids job _ _)

  -- A run for a take that has no unfinished row changes nothing.
  pub process_take-finished :
      (now : ℕ) (ids : JobIds) (take_id ws : ℕ) (last_attempt : Bool) (steps : Steps)
      (world : World)
      → any (is_open take_id ws) world.media_jobs ≡ false
      → (process_take show_id payload now ids take_id ws last_attempt steps world).1 ≡ world
  unfolding process_take find_job mark_running
  process_take-finished now ids take_id ws last_attempt steps world closed =
      elim (Option-cases (find (is_media_job take_id ws) world.media_jobs)) [
        | inl missing ↦ rw missing refl
        | inr (job, found) ↦
            let mine : is_media_job take_id ws job ≡ true =
              find_sound (is_media_job take_id ws) world.media_jobs job found in
            let same_take : take_id ≡ job.take_id = ground arith in
            let same_ws : ws ≡ job.workspace_id = ground arith in
            let nothing : any (is_open job.take_id job.workspace_id) world.media_jobs ≡ false =
              subst (λ w. any (is_open job.take_id w) world.media_jobs ≡ false) same_ws
                (subst (λ t. any (is_open t ws) world.media_jobs ≡ false) same_take closed) in
            rw
              (
                found,
                count_where-none (is_open job.take_id job.workspace_id) world.media_jobs nothing,
              )
              refl
      ]

  -- After the last attempt at a take, another run of the same job changes nothing, whatever its
  -- own steps would give: a job that is delivered twice takes effect once.
  pub process_take-again :
      (now later : ℕ) (ids other_ids : JobIds) (last_attempt : Bool) (steps other_steps : Steps)
      (world : World) (job : MediaJob)
      → find_job job.take_id job.workspace_id world.media_jobs ≡ some job
      → count_where (is_open job.take_id job.workspace_id) world.media_jobs ≡ 1
      → let after =
          (process_take show_id payload now ids job.take_id job.workspace_id true steps world).1 in
        (process_take show_id payload later other_ids job.take_id job.workspace_id last_attempt
          other_steps after).1
        ≡ after
  process_take-again now later ids other_ids last_attempt steps other_steps world job found
        unfinished =
      process_take-finished later other_ids job.take_id job.workspace_id last_attempt other_steps _
        (process_take-IsSettled now ids steps world job found unfinished).0
