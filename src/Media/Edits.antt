-- ===== src/Media/Edits.antt =====
-- The `edits` table (crates/media/src/infra/edits.rs). The versions of a recording's edits count up
-- from 1. A row keeps the ranges that its JSON stands for.
pub mod Service
pub mod Shown
pub mod Settled
pub mod Runs
mod Examples
use sintade.Prelude.{
  ℕ, suc, ◌+◌, Bool, true, false, not, ◌&&◌, ◌||◌, List, [], ◌∷◌, ◌++◌, Option, none, some, ltb,
  ◌==◌, if◌then◌else◌, any, filter, find, update_where, max, min,
}
use sintade.Prelude.Sort.{sort_by}
use sintade.Prelude.Text.{Text}
use sintade.Catalog.Recordings.{Recording, Recordings, is_row, is_none}
use sintade.Media.Edl.{KeptRange}
use sintade.Media.Renditions.{Rendition, Renditions, mp4, default, is_of, is_variant}

pub data Status : Type 0 where
  queued rendering rendered applied superseded failed : Status

-- A row of `edits`; each is of a take.
pub record Edit : Type 0 where
  pub id : ℕ
  pub workspace_id : ℕ
  pub recording_id : ℕ
  pub take_id : ℕ
  pub version : ℕ
  pub edl : List KeptRange
  pub source_duration_ms : ℕ
  pub created_by : ℕ
  pub status : Status
  pub failure : Option Text
  pub output_key : Option Text
  pub output_duration_ms : Option ℕ
  pub output_bytes : Option ℕ

abbrev pub Edits : Type 0
Edits = List Edit

pub record SourceMp4 : Type 0 where
  pub take_id : ℕ
  pub duration_ms : ℕ

abbrev pub is_edit_of : ℕ → ℕ → Edit → Bool
is_edit_of workspace recording e = e.workspace_id == workspace && e.recording_id == recording

-- `ORDER BY version LIMIT 1`.
abbrev pub lower_version : Edit → Edit → Bool
lower_version a b = ltb a.version b.version

abbrev pub first_edit : Edits → Option Edit
first_edit [] = none
first_edit (e ∷ _) = some e

abbrev pub or_meta : Option Edit → Option ℕ → Option ℕ
or_meta none meta = meta
or_meta (some e) meta = some e.source_duration_ms

abbrev pub source_of : ℕ → Option ℕ → Option SourceMp4
source_of take_id none = none
source_of take_id (some d) = some (record { take_id = take_id; duration_ms = d })

abbrev pub source_row : Edits → Option Rendition → Option SourceMp4
source_row firsts none = none
source_row firsts (some r) = source_of r.take_id (or_meta (first_edit firsts) r.duration_ms)

-- The recording's default MP4 with the original's length.
unfoldable pub source_mp4 : ℕ → ℕ → Edits → Renditions → Recordings → Option SourceMp4
source_mp4 workspace recording edits renditions recordings =
    if any (λ r. is_row recording workspace r && is_none r.trashed_at) recordings
    then source_row (sort_by lower_version (filter (is_edit_of workspace recording) edits))
        (find (λ r. is_of workspace recording r && is_variant mp4 default r) renditions)
    else none

unfoldable pub lock_recording : ℕ → ℕ → Recordings → Bool
lock_recording workspace recording = any (is_row recording workspace)

-- `max(version)`, 0 where there is none.
abbrev pub last_version : ℕ → ℕ → Edits → ℕ
last_version workspace recording [] = 0
last_version workspace recording (e ∷ edits) =
    let rest = last_version workspace recording edits in
    if is_edit_of workspace recording e then max e.version rest else rest

unfoldable pub next_version : ℕ → ℕ → Edits → ℕ
next_version workspace recording edits = last_version workspace recording edits + 1

abbrev pub new_edit : ℕ → ℕ → ℕ → ℕ → ℕ → List KeptRange → ℕ → ℕ → Edit
new_edit id workspace recording take_id version edl source_duration created_by = record {
  id = id;
  workspace_id = workspace;
  recording_id = recording;
  take_id = take_id;
  version = version;
  edl = edl;
  source_duration_ms = source_duration;
  created_by = created_by;
  status = queued;
  failure = none;
  output_key = none;
  output_duration_ms = none;
  output_bytes = none;
}

abbrev pub is_edit : ℕ → ℕ → Edit → Bool
is_edit id workspace e = e.id == id && e.workspace_id == workspace

unfoldable pub find_edit : ℕ → ℕ → Edits → Option Edit
find_edit id workspace = find (is_edit id workspace)

abbrev pub is_unrendered : Status → Bool
is_unrendered queued = true
is_unrendered rendering = true
is_unrendered _ = false

abbrev pub is_rendered : Status → Bool
is_rendered rendered = true
is_rendered _ = false

abbrev pub is_applied : Status → Bool
is_applied applied = true
is_applied _ = false

-- `status IN ('queued', 'rendering', 'rendered')`.
abbrev pub is_pending : Status → Bool
is_pending queued = true
is_pending rendering = true
is_pending rendered = true
is_pending _ = false

unfoldable pub mark_rendering : ℕ → ℕ → Edits → Edits
mark_rendering id workspace =
    update_where (λ e. is_edit id workspace e && is_unrendered e.status)
      λ e. record e { status = rendering; failure = none }

-- The duration is cut to an `i32`.
unfoldable pub mark_rendered : ℕ → ℕ → Text → ℕ → ℕ → Edits → Edits
mark_rendered id workspace key duration bytes = update_where (is_edit id workspace) λ e. record e {
  status = rendered;
  output_key = some key;
  output_duration_ms = some (min 2147483647 duration);
  output_bytes = some bytes;
  failure = none;
}

unfoldable pub mark_edit_failed : ℕ → ℕ → Text → Edits → Edits
mark_edit_failed id workspace reason =
    update_where (is_edit id workspace) λ e. record e { status = failed; failure = some reason }

unfoldable pub mark_applied : ℕ → ℕ → Edits → Edits
mark_applied id workspace =
    update_where (is_edit id workspace) λ e. record e { status = applied; failure = none }

unfoldable pub mark_superseded : ℕ → ℕ → Edits → Edits
mark_superseded id workspace =
    update_where (is_edit id workspace) λ e. record e { status = superseded }

abbrev pub is_newer_applied : ℕ → ℕ → ℕ → Edit → Bool
is_newer_applied workspace recording version e =
    is_edit_of workspace recording e && ltb version e.version && is_applied e.status

unfoldable pub newer_applied : ℕ → ℕ → ℕ → Edits → Bool
newer_applied workspace recording version = any (is_newer_applied workspace recording version)

abbrev pub is_other_pending : ℕ → ℕ → ℕ → Edit → Bool
is_other_pending workspace recording id e =
    is_edit_of workspace recording e && not (e.id == id) && is_pending e.status

unfoldable pub others_pending : ℕ → ℕ → ℕ → Edits → Bool
others_pending workspace recording id = any (is_other_pending workspace recording id)
