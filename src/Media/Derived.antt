-- ===== src/Media/Derived.antt =====
-- The ladder and the sprite of a take (crates/media/src/app/service.rs), made of the MP4 that
-- viewers get. Making and storing them takes long; `meanwhile` is what other calls do to the state
-- until then. What the runs of ffmpeg and the object store give, and the removal of the scratch
-- directory, are arguments.
pub mod Current
mod Examples
use sintade.Prelude.{
  ℕ, suc, Bool, true, false, ◌&&◌, List, [], ◌∷◌, ◌++◌, Option, none, some, Result, ok, err, ◌>>◌,
  map, enumerate, length, if◌then◌else◌,
}
use sintade.Prelude.Text.{Text, codes, decimal, text_eq}
use sintade.Media.Sprite.{sheet_name}
use sintade.Media.Storage.{base_of_mp4, hls_prefix_in, img_prefix_in}
use sintade.Media.Renditions.{
  Kind, hls, sprite, preview, Rendition, StoredRendition, default, master, record_renditions,
  current_mp4,
}
use sintade.Media.Processing.{MediaJob, Event, rendition_ready, World, find_job}

pub data BuildError : Type 0 where
  not_ready : BuildError
  failed : Text → BuildError

pub data Outcome : Type 0 where
  built superseded no_such_take : Outcome

-- `RungFiles`, as far as its row goes.
pub record RungFiles : Type 0 where
  pub name : Text
  pub bytes : ℕ
  pub duration_ms : ℕ

pub record Ladder : Type 0 where
  pub rungs : List RungFiles
  pub master_bytes : ℕ

-- `SpriteSet`: the sizes of the sheets, of the preview and of the VTT.
pub record SpriteSet : Type 0 where
  pub sheets : List ℕ
  pub preview_bytes : ℕ
  pub vtt_bytes : ℕ

abbrev pub row_of : Kind → Text → Text → ℕ → Option ℕ → StoredRendition
row_of kind variant key bytes duration = record {
  kind = kind;
  variant = variant;
  key = key;
  bytes = bytes;
  duration_ms = duration;
  content_type = none;
}

abbrev pub rung_row : Text → RungFiles → StoredRendition
rung_row prefix rung =
    row_of hls rung.name (prefix ++ (codes "/" ++ (rung.name ++ codes "/index.m3u8"))) rung.bytes
      (some rung.duration_ms)

-- The rows of a stored ladder, the master last.
unfoldable pub store_ladder : Text → Ladder → List StoredRendition
store_ladder prefix ladder =
    map (rung_row prefix) ladder.rungs
    ++ row_of hls master (prefix ++ codes "/master.m3u8") ladder.master_bytes none ∷ []

abbrev pub sheet_row : Text → ℕ × ℕ → StoredRendition
sheet_row prefix (index, bytes) =
    row_of sprite (decimal index) (prefix ++ (codes "/" ++ sheet_name index)) bytes none

unfoldable pub store_sprite : Text → SpriteSet → List StoredRendition
unfolding sheet_name
store_sprite prefix set =
    map (sheet_row prefix) (enumerate 0 set.sheets)
    ++ row_of sprite (codes "vtt") (prefix ++ codes "/sprite.vtt") set.vtt_bytes none
      ∷ row_of preview default (prefix ++ codes "/preview.webp") set.preview_bytes none
      ∷ []

-- Whether `key` is still the MP4 that viewers get.
abbrev pub has_storage_key : Text → Option Rendition → Bool
has_storage_key key none = false
has_storage_key key (some r) = text_eq r.storage_key key

unfoldable pub still_current : MediaJob → Text → World → Bool
unfolding current_mp4
still_current job key world =
    has_storage_key key (current_mp4 job.workspace_id job.recording_id job.take_id world.renditions)

-- The last transaction of a run.
unfoldable pub record_current :
    ℕ → MediaJob → Text → List StoredRendition → List Event → World → World × Outcome
unfolding still_current record_renditions
record_current now job key rows events world =
    if still_current job key world
    then (
      record world {
        renditions =
            record_renditions now job.workspace_id job.recording_id job.take_id rows
              world.renditions;
        outbox = world.outbox ++ events;
      },
      built,
    )
    else (world, superseded)

abbrev pub and_outcome : World × Outcome → World × Result BuildError Outcome
and_outcome (world, outcome) = (world, ok outcome)

module _ {A : Type 0} (rows_of : Text → A → List StoredRendition)
    (events_of : MediaJob → A → List Event) where
  abbrev pub record_made :
      ℕ → MediaJob → Text → Text → Result BuildError A → World → World × Result BuildError Outcome
  record_made now job key base (err e) world = (world, err e)
  record_made now job key base (ok made) world =
      and_outcome (record_current now job key (rows_of base made) (events_of job made) world)

  abbrev pub build_under :
      ℕ
      → MediaJob
      → Text
      → Option Text
      → Result BuildError A
      → World
      → World × Result BuildError Outcome
  build_under now job key none made world = (world, err not_ready)
  build_under now job key (some base) made world = record_made now job key base made world

  abbrev pub build_current :
      ℕ
      → MediaJob
      → Option Rendition
      → Result BuildError A
      → World
      → World × Result BuildError Outcome
  build_current now job none made world = (world, err not_ready)
  build_current now job (some current) made world =
      build_under now job current.storage_key (base_of_mp4 current.storage_key) made world

  abbrev pub after_removal :
      Result BuildError (Unit {0})
      → World × Result BuildError Outcome
      → World × Result BuildError Outcome
  after_removal removed (world, outcome) = (world, removed >> outcome)

  abbrev pub build_found :
      ℕ
      → Option MediaJob
      → Result BuildError A
      → Result BuildError (Unit {0})
      → (World → World)
      → World
      → World × Result BuildError Outcome
  build_found now none made removed meanwhile world = (meanwhile world, ok no_such_take)
  build_found now (some job) made removed meanwhile world = after_removal removed (
      build_current now job
        (current_mp4 job.workspace_id job.recording_id job.take_id world.renditions) made
        (meanwhile world))

abbrev pub ladder_rows : Text → Ladder → List StoredRendition
ladder_rows base = store_ladder (hls_prefix_in base)

abbrev pub ladder_events : MediaJob → Ladder → List Event
ladder_events job ladder =
    rendition_ready job.recording_id job.take_id job.workspace_id hls
      (map (λ (rung : RungFiles). rung.name) ladder.rungs)
    ∷ []

abbrev pub sprite_rows : Text → SpriteSet → List StoredRendition
sprite_rows base = store_sprite (img_prefix_in base)

abbrev pub sprite_events : MediaJob → SpriteSet → List Event
sprite_events job set =
    rendition_ready job.recording_id job.take_id job.workspace_id sprite []
    ∷ rendition_ready job.recording_id job.take_id job.workspace_id preview []
    ∷ []

unfoldable pub build_hls :
    (now take_id workspace : ℕ)
    → Result BuildError Ladder
    → Result BuildError (Unit {0})
    → (World → World)
    → World
    → World × Result BuildError Outcome
unfolding find_job current_mp4 base_of_mp4 record_current store_ladder
build_hls now take_id workspace made removed meanwhile world =
    build_found ladder_rows ladder_events now (find_job take_id workspace world.media_jobs) made
      removed meanwhile world

unfoldable pub generate_sprite :
    (now take_id workspace : ℕ)
    → Result BuildError SpriteSet
    → Result BuildError (Unit {0})
    → (World → World)
    → World
    → World × Result BuildError Outcome
unfolding find_job current_mp4 base_of_mp4 record_current store_sprite
generate_sprite now take_id workspace made removed meanwhile world =
    build_found sprite_rows sprite_events now (find_job take_id workspace world.media_jobs) made
      removed meanwhile world
