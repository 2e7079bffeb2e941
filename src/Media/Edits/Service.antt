-- ===== src/Media/Edits/Service.antt =====
-- Submitting, rendering and applying edits (crates/media/src/app/edit.rs). Each transaction is a
-- function of the state; the versions lock makes the ones of a recording follow each other. What
-- the runs of ffmpeg and the object store give is an argument, as are the clock, the new
-- identifiers and the display of a uuid.
use sintade.Prelude.{
  ℕ, ◌-◌, ◌^◌, Bool, true, false, not, List, [], ◌∷◌, ◌++◌, Option, none, some, Result, ok, err,
  ok_or, fail_if, map_err, ◌>>=◌, ◌>>◌, if◌then◌else◌, filter, min,
}
use sintade.Prelude.Text.{Text, starts_with}
use sintade.Platform.Jobs.{Job, enqueue}
use sintade.Catalog.Recordings.{Recordings, Measured, mark_reprocessing, remeasure, restore_ready}
use sintade.Media.Edl.{KeptRange, EdlError, kept_ms, is_identity}
use sintade.Media.Edl
use sintade.Media.Storage.{edit_base, edit_prefix, poster_key_in}
use sintade.Media.Renditions.{
  mp4, thumbnail, Renditions, StoredRendition, default, poster, record_renditions,
  delete_derived_renditions,
}
use sintade.Media.Processing.Service.{or_max, or_zero}
use sintade.Media.Edits.{
  Edit, Edits, source_mp4, lock_recording, next_version, new_edit, find_edit, is_rendered,
  is_pending, mark_rendering, mark_rendered, mark_edit_failed, mark_applied, mark_superseded,
  newer_applied, others_pending,
}

pub record EditApplied : Type 0 where
  pub recording_id : ℕ
  pub take_id : ℕ
  pub workspace_id : ℕ
  pub edit_id : ℕ
  pub version : ℕ
  pub duration_ms : ℕ

-- What the service changes: its tables, the recordings, the queue, the outbox, and the keys of the
-- stored objects.
pub record World : Type 0 where
  pub edits : Edits
  pub renditions : Renditions
  pub recordings : Recordings
  pub jobs : List Job
  pub outbox : List EditApplied
  pub objects : List Text

pub record SubmittedEdit : Type 0 where
  pub edit_id : ℕ
  pub version : ℕ
  pub kept_ms : ℕ
  pub source_duration_ms : ℕ

pub data SubmitEditError : Type 0 where
  not_found not_ready no_change : SubmitEditError
  invalid : EdlError → SubmitEditError

pub data RenderOutcome : Type 0 where
  swapped_in superseded_by_newer already_finished no_such_edit : RenderOutcome

-- A version that is made and stored: the MP4's measurements and key, and the rows of its sprite,
-- preview and ladder.
pub record Version : Type 0 where
  pub duration_ms : ℕ
  pub width : ℕ
  pub height : ℕ
  pub bytes : ℕ
  pub key : Text
  pub poster_bytes : ℕ
  pub derived : List StoredRendition

-- The MP4 of a version as it is stored: its key, duration and size.
pub record Output : Type 0 where
  pub key : Text
  pub duration_ms : ℕ
  pub bytes : ℕ

abbrev pub render_edit_kind : ℕ
render_edit_kind = 5

abbrev pub measured_of : Version → Measured
measured_of v = record {
  duration_ms = or_max v.duration_ms;
  width = or_zero v.width;
  height = or_zero v.height;
  size_bytes = v.bytes;
}

module _ (show_id : ℕ → Text) (payload : ℕ → ℕ → ℕ) where
  -- `EditService::submit`.
  unfoldable pub submit :
      (now job edit_id workspace recording user : ℕ)
      → List KeptRange
      → World
      → Result SubmitEditError (World × SubmittedEdit)
  unfolding next_version enqueue kept_ms
  submit now job edit_id workspace recording user ranges world = do
    fail_if (not (lock_recording workspace recording world.recordings)) not_found
    source ←
        ok_or (source_mp4 workspace recording world.edits world.renditions world.recordings)
          not_ready
    edl ← map_err invalid (Edl.new ranges source.duration_ms)
    fail_if (is_identity edl) no_change
    let version = next_version workspace recording world.edits
    let row =
        new_edit edit_id workspace recording source.take_id version edl.ranges source.duration_ms
          user
    let submitted : SubmittedEdit = record {
      edit_id = edit_id;
      version = version;
      kept_ms = kept_ms edl;
      source_duration_ms = source.duration_ms;
    }
    ok (
      record world {
        edits = world.edits ++ row ∷ [];
        jobs = enqueue now job render_edit_kind (payload edit_id workspace) world.jobs;
      },
      submitted,
    )

  -- The recording is `ready` again unless another edit of it is still on its way.
  unfoldable pub settle : ℕ → Edit → World → World
  unfolding others_pending restore_ready
  settle now edit world =
      if others_pending edit.workspace_id edit.recording_id edit.id world.edits
      then world
      else record world {
        recordings = (restore_ready now edit.recording_id edit.workspace_id world.recordings).0;
      }

  -- A newer edit was applied first.
  unfoldable pub supersede : ℕ → Edit → World → World
  unfolding settle mark_superseded
  supersede now edit world =
      settle now edit
        (record world { edits = mark_superseded edit.id edit.workspace_id world.edits })

  -- `begin_edit`, the first transaction: whether to go on. `edit` is the row as it was read.
  unfoldable pub begin_edit : ℕ → Edit → World → World × Bool
  unfolding newer_applied supersede mark_reprocessing mark_rendering
  begin_edit now edit world =
      let started = record world {
        recordings = (mark_reprocessing now edit.recording_id edit.workspace_id world.recordings).0;
        edits =
            if is_rendered edit.status
            then world.edits
            else mark_rendering edit.id edit.workspace_id world.edits;
      } in
      if newer_applied edit.workspace_id edit.recording_id edit.version world.edits
      then (supersede now edit world, false)
      else (started, true)

  abbrev pub version_rows : Edit → Version → List StoredRendition
  version_rows edit v =
      v.derived
      ++ record {
        kind = mp4;
        variant = default;
        key = v.key;
        bytes = v.bytes;
        duration_ms = some v.duration_ms;
        content_type = none;
      }
        ∷ record {
          kind = thumbnail;
          variant = poster;
          key = poster_key_in (edit_base show_id edit.workspace_id edit.recording_id edit.version);
          bytes = v.poster_bytes;
          duration_ms = none;
          content_type = none;
        }
        ∷ []

  abbrev pub edit_applied : Edit → Version → EditApplied
  edit_applied edit v = record {
    recording_id = edit.recording_id;
    take_id = edit.take_id;
    workspace_id = edit.workspace_id;
    edit_id = edit.id;
    version = edit.version;
    duration_ms = v.duration_ms;
  }

  -- The renditions of the version in place of the ones that viewers had.
  unfoldable pub show_version : ℕ → Edit → Version → World → World
  unfolding delete_derived_renditions record_renditions mark_applied remeasure edit_base
  show_version now edit v world = record world {
    renditions =
        record_renditions now edit.workspace_id edit.recording_id edit.take_id (version_rows edit v)
          (delete_derived_renditions edit.workspace_id edit.recording_id edit.take_id
            world.renditions);
    edits = mark_applied edit.id edit.workspace_id world.edits;
    recordings =
        (remeasure now edit.recording_id edit.workspace_id (measured_of v) world.recordings).0;
    outbox = world.outbox ++ edit_applied edit v ∷ [];
  }

  -- The swap, the last transaction of `apply_in`.
  unfoldable pub swap : ℕ → Edit → Version → World → World × RenderOutcome
  unfolding newer_applied supersede show_version settle
  swap now edit v world =
      if newer_applied edit.workspace_id edit.recording_id edit.version world.edits
      then (supersede now edit world, superseded_by_newer)
      else (settle now edit (show_version now edit v world), swapped_in)

  -- `give_up`: the last attempt failed.
  unfoldable pub give_up : ℕ → Edit → Text → World → World
  unfolding mark_edit_failed settle edit_prefix
  give_up now edit reason world =
      let settled =
        settle now edit (record world {
          edits = mark_edit_failed edit.id edit.workspace_id reason world.edits;
        }) in
      record settled {
        objects =
            filter
              (λ key. not (
                starts_with (edit_prefix show_id edit.workspace_id edit.recording_id edit.version)
                  key))
              settled.objects;
      }

  -- The row learns of the MP4 as soon as that is stored.
  unfoldable pub note_rendered : Edit → Output → World → World
  unfolding mark_rendered
  note_rendered edit output world = record world {
    edits =
        mark_rendered edit.id edit.workspace_id output.key output.duration_ms
          (min (2 ^ 63 - 1) output.bytes) world.edits;
  }

  abbrev pub noted : Edit → Option Output → World → World
  noted edit none world = world
  noted edit (some output) world = note_rendered edit output world

  -- What a run makes of the version that its steps give, and of an error.
  abbrev pub finish_render :
      ℕ → Edit → Bool → World → Result Text Version → World × Result Text RenderOutcome
  finish_render now edit last_attempt world (ok v) =
      let (next, outcome) = swap now edit v world in (next, ok outcome)
  finish_render now edit last_attempt world (err reason) =
      (if last_attempt then give_up now edit reason world else world, err reason)

  abbrev pub render_begun :
      ℕ
      → Edit
      → Bool
      → Option Output
      → Result Text Version
      → World × Bool
      → World × Result Text RenderOutcome
  render_begun now edit last_attempt stored made (world, false) = (world, ok superseded_by_newer)
  render_begun now edit last_attempt stored made (world, true) =
      finish_render now edit last_attempt (noted edit stored world) made

  abbrev pub render_found :
      ℕ
      → Bool
      → Option Output
      → Result Text Version
      → World
      → Option Edit
      → World × Result Text RenderOutcome
  render_found now last_attempt stored made world none = (world, ok no_such_edit)
  render_found now last_attempt stored made world (some edit) =
      let run = render_begun now edit last_attempt stored made (begin_edit now edit world) in
      if is_pending edit.status then run else (world, ok already_finished)

  -- `render_edit`, with nothing else in between.
  unfoldable pub render_edit :
      ℕ
      → (edit_id workspace : ℕ) → Bool
      → Option Output
      → Result Text Version
      → World
      → World × Result Text RenderOutcome
  unfolding find_edit begin_edit swap give_up note_rendered
  render_edit now edit_id workspace last_attempt stored made world =
      render_found now last_attempt stored made world (find_edit edit_id workspace world.edits)
