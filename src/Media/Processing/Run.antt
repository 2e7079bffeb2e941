-- ===== src/Media/Processing/Run.antt =====
-- The steps of a run of `ProcessTake` (crates/media/src/app/service.rs). What the runs of ffmpeg and
-- the object store give is an argument.
use sintade.Prelude.{ℕ, List, Option, none, some, Result, ok, err, ◌>>=◌, ◌>>◌, length}
use sintade.Prelude.Text.{Text, codes}
use sintade.Media.Manifest.{ManifestChunk, ManifestError}
use sintade.Media.Manifest
use sintade.Media.Storage.{from_mime, preview_content_type, source_key}
use sintade.Media.Renditions.{source, StoredRendition, default, upsert_rendition}
use sintade.Media.Processing.{MediaJob, World}

-- A step's failure: give up on the take with a reason, or try again after an error, by its text.
pub data StepError : Type 0 where
  reject : Text → StepError
  retry : Text → StepError

pub record Report : Type 0 where
  pub duration_ms : Option ℕ
  pub width : ℕ
  pub height : ℕ
  pub mp4_bytes : ℕ
  pub poster_bytes : ℕ

-- What the steps outside this code give: the bytes of the source, assembled and stored; the
-- report of the MP4 and its poster, made and stored; and the removal of the scratch directory.
pub record Steps : Type 0 where
  pub assembled : Result StepError ℕ
  pub encoded : Result StepError Report
  pub removed : Result StepError (Unit {0})

pub record Produced : Type 0 where
  pub report : Report
  pub duration_ms : ℕ

abbrev pub or_expected : Option ℕ → ℕ → ℕ
or_expected none expected = expected
or_expected (some d) expected = d

abbrev pub unreadable : ManifestError → StepError
unreadable _ = retry (codes "the stored manifest is invalid")

module _ (show_id : ℕ → Text) where
  abbrev pub source_row : MediaJob → ℕ → StoredRendition
  source_row job bytes = record {
    kind = source;
    variant = default;
    key =
        source_key show_id job.workspace_id job.recording_id job.take_id (from_mime job.mime_type);
    bytes = bytes;
    duration_ms = none;
    content_type = some (preview_content_type job.mime_type);
  }

  -- The steps from the assembled source on; the source is recorded before the MP4 is made.
  unfoldable pub encode_source :
      ℕ → MediaJob → Steps → ℕ → World → Result StepError Produced × World
  unfolding upsert_rendition from_mime preview_content_type
  encode_source now job steps bytes world =
      let with_source = record world {
        renditions =
            upsert_rendition now job.workspace_id job.recording_id job.take_id
              (source_row job bytes) world.renditions;
      } in
      (
        (do
          report ← steps.encoded
          ok (record {
            report = report;
            duration_ms = or_expected report.duration_ms job.duration_ms;
          })),
        with_source,
      )

  abbrev pub run_assembled :
      ℕ → MediaJob → Steps → World → Result StepError ℕ → Result StepError Produced × World
  run_assembled now job steps world (err e) = (err e, world)
  run_assembled now job steps world (ok bytes) = encode_source now job steps bytes world

  -- The scratch directory is removed in any case; an error there is the step's error.
  abbrev pub after_removal {ℓ} :
      {A : Type ℓ}
      → Result StepError (Unit {0})
      → Result StepError A × World
      → Result StepError A × World
  after_removal removed (outcome, world) = (removed >> outcome, world)

  abbrev pub run_manifest :
      ℕ
      → MediaJob
      → Steps
      → World
      → Result ManifestError (List ManifestChunk)
      → Result StepError Produced × World
  run_manifest now job steps world (err e) = (err (unreadable e), world)
  run_manifest now job steps world (ok chunks) =
      after_removal steps.removed (run_assembled now job steps world steps.assembled)

  unfoldable pub run_in_scratch : ℕ → MediaJob → Steps → World → Result StepError Produced × World
  unfolding encode_source
  run_in_scratch now job steps world =
      run_manifest now job steps world (Manifest.new job.chunks (length job.chunks))
