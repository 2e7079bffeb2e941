-- ===== src/Media/Requests.antt =====
-- The jobs that a viewer or the editor asks for (`request_ladder` and `request_waveform` of
-- crates/media/src/app/reader.rs), each with nothing else on the table of jobs at the same time.
use sintade.Prelude.{
  ℕ, Bool, true, false, ◌&&◌, List, Option, none, some, ◌==◌, if◌then◌else◌, filter,
}
use sintade.Prelude.Sort.{sort_by}
use sintade.Platform.Jobs.{Job, enqueue_unless_identical_pending}
use sintade.Media.Renditions.{Renditions, has_ladder, peaks_key}
use sintade.Media.Processing.{
  JobState, done, MediaJob, build_hls_kind, generate_waveform_kind, newest_job, first_job,
}

abbrev pub is_done : JobState → Bool
is_done done = true
is_done _ = false

-- The take that was processed last.
unfoldable pub processed_take : ℕ → ℕ → List MediaJob → Option MediaJob
processed_take workspace recording rows = first_job (
    sort_by newest_job (
      filter
        (λ (j : MediaJob).
          j.workspace_id == workspace && j.recording_id == recording && is_done j.state)
        rows))

module _ (payload : ℕ → ℕ → ℕ) where
  abbrev pub queue_for : ℕ → ℕ → ℕ → ℕ → Option MediaJob → (ℕ → Bool) → List Job → List Job × Bool
  queue_for now id kind workspace none exists jobs = (jobs, false)
  queue_for now id kind workspace (some j) exists jobs =
      if exists j.take_id
      then (jobs, false)
      else enqueue_unless_identical_pending now id kind (payload j.take_id workspace) jobs jobs

  -- Whether a job was queued: not if there is a ladder, or if one is on its way.
  unfoldable pub request_ladder :
      (now id workspace recording : ℕ) → List MediaJob → Renditions → List Job → List Job × Bool
  unfolding processed_take has_ladder
  request_ladder now id workspace recording media_jobs renditions =
      queue_for now id build_hls_kind workspace (processed_take workspace recording media_jobs)
        (λ take_id. has_ladder workspace recording take_id renditions)

  unfoldable pub request_waveform :
      (now id workspace recording : ℕ) → List MediaJob → Renditions → List Job → List Job × Bool
  unfolding processed_take peaks_key
  request_waveform now id workspace recording media_jobs renditions =
      queue_for now id generate_waveform_kind workspace
        (processed_take workspace recording media_jobs)
        (λ _. has_key (peaks_key workspace recording renditions))
    where
      has_key : {A : Type 0} → Option A → Bool
      has_key none = false
      has_key (some _) = true
