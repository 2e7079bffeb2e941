-- ===== src/Media/Processing/Retried.antt =====
-- Events and clicks that come twice, and attempts that are followed by another.
use sintade.Prelude.{
  any-weaker, ℕ, ◌≡◌, refl, ap, subst, ◌∙◌, Bool, true, false, ◌&&◌, List, [], ◌∷◌, ◌++◌, Result,
  ok, err, ◌==◌, ltb, any, any-update_where, any-update_kept, Bool-cases, Result-cases,
  Option-cases, inl, inr, arith, ok-injective,
}
use sintade.Prelude.Text.{Text}
use sintade.Catalog.Recordings.{Recording, is_row, is_failed, reopen_failed, exists_in_workspace}
use sintade.Platform.Jobs.{enqueue}
use sintade.Media.Manifest
use sintade.Media.Processing.{
  MediaJob, World, process_take_kind, insert_job, new_media_job, latest_job,
}
use sintade.Media.Processing.Retry.{RetryError, recording_not_failed, retry_processing}
use sintade.Media.Processing.Service.{
  TakeFinalizedMessage, EnqueueError, enqueue_processing, i32_max,
}

abbrev IsKnown : ℕ → World → Type 0
IsKnown take_id world = any (λ (j : MediaJob). j.take_id == take_id) world.media_jobs ≡ true

added :
    (rows : List MediaJob) (row : MediaJob)
    → any (λ (j : MediaJob). j.take_id == row.take_id) (rows ++ row ∷ []) ≡ true
added [] row = ground arith
added (j ∷ rows) row = ground (arith, added rows row)

abbrev failed_row : ℕ → ℕ → Recording → Bool
failed_row id ws r = is_row id ws r && is_failed r.state

module _ (show_id : ℕ → Text) (payload : ℕ → ℕ → ℕ) where
  -- An event that is delivered again changes nothing and reports that no job was queued.
  pub enqueue_processing-again :
      (now later id other_id : ℕ) (message : TakeFinalizedMessage) (world after : World)
      (inserted : Bool)
      → enqueue_processing show_id payload now id message world ≡ ok (after, inserted)
      → enqueue_processing show_id payload later other_id message after ≡ ok (after, false)
  unfolding enqueue_processing insert_job
  enqueue_processing-again now later id other_id message world after inserted h =
      elim (Result-cases (Manifest.new message.chunks message.chunk_count)) [
        | inr (_, bad) ↦ absurd (refused (rw bad at h))
        | inl (chunks, good) ↦ elim (Bool-cases (ltb i32_max message.duration_ms)) [
          | inl long ↦ absurd (refused (rw (good, long) at h))
          | inr fits ↦
              elim (Bool-cases
                (any (λ (j : MediaJob). j.take_id == message.take_id) world.media_jobs)) [
                  | inl known ↦
                      let same : ◌≡◌ {A = World × Bool} (world, false) (after, inserted) =
                        ok-injective (rw (good, fits, known) at h) in
                      let still : IsKnown message.take_id after =
                        subst (IsKnown message.take_id) (ap (λ p. p.0) same) known in
                      rw (good, fits, still) refl
                  | inr new ↦
                      let row : MediaJob =
                        new_media_job now message.take_id message.workspace_id message.recording_id
                          message.mime message.duration_ms chunks in
                      let next : World = record world {
                        media_jobs = world.media_jobs ++ row ∷ [];
                        jobs =
                            enqueue now id process_take_kind
                              (payload message.take_id message.workspace_id) world.jobs;
                      } in
                      let same : ◌≡◌ {A = World × Bool} (next, true) (after, inserted) =
                        ok-injective (rw (good, fits, new) at h) in
                      let recorded : IsKnown message.take_id after =
                        subst (IsKnown message.take_id) (ap (λ p. p.0) same)
                          (added world.media_jobs row) in
                      rw (good, fits, recorded) refl
                ]
        ]
      ]
    where
      refused :
          {e : EnqueueError}
          → ◌≡◌ {A = Result EnqueueError (World × Bool)} (err e) (ok (after, inserted))
          → ⊥
      refused k = cc

module _ (payload : ℕ → ℕ → ℕ) where
  -- A retry that is asked for again while the first one is under way is refused: a double click
  -- queues one job.
  pub retry_processing-again :
      (now later id other_id ws recording : ℕ) (world after : World)
      → retry_processing payload now id ws recording world ≡ ok after
      → retry_processing payload later other_id ws recording after ≡ err recording_not_failed
  unfolding retry_processing reopen_failed exists_in_workspace
  retry_processing-again now later id other_id ws recording world after h =
      elim (Bool-cases (any (failed_row recording ws) world.recordings)) [
        | inr none_failed ↦ elim (Bool-cases (any (is_row recording ws) world.recordings)) [
          | inl there ↦ absurd (refused (rw (none_failed, there) at h))
          | inr missing ↦ absurd (refused (rw (none_failed, missing) at h))
        ]
        | inl was_failed ↦ elim (Option-cases (latest_job recording ws world.media_jobs)) [
          | inl no_take ↦ absurd (refused (rw (was_failed, no_take) at h))
          | inr (job, found) ↦
              let same =
                ap (λ (w : World). w.recordings) (ok-injective (rw (was_failed, found) at h)) in
              let nothing : any (failed_row recording ws) after.recordings ≡ false =
                subst (λ rows. any (failed_row recording ws) rows ≡ false) same
                  (any-update_where (failed_row recording ws) (failed_row recording ws) _
                    world.recordings (λ r e. ground arith) (λ r e. e)) in
              let there : any (is_row recording ws) after.recordings ≡ true =
                subst (λ rows. any (is_row recording ws) rows ≡ true) same
                  (any-update_kept (is_row recording ws) (failed_row recording ws) _
                      world.recordings (λ r. refl)
                    ∙ any-weaker (failed_row recording ws) (is_row recording ws) world.recordings
                        (λ r e. ground arith) was_failed) in
              rw (nothing, there) refl
        ]
      ]
    where
      refused : {e : RetryError} → ◌≡◌ {A = Result RetryError World} (err e) (ok after) → ⊥
      refused k = cc
