-- ===== src/Catalog/Recordings.antt =====
-- The `recordings` table and the statements on it (crates/catalog/src/infra/repo.rs, which
-- crates/catalog/src/app/service.rs passes on). A uuid is a number, and is only compared; a time
-- is a number of seconds; `now()` of the database is the argument `now`.
pub mod Lifecycle
pub mod Tenancy
mod Examples
use sintade.Prelude.{
  ℕ, suc, ◌+◌, Bool, true, false, not, ◌&&◌, ◌||◌, List, [], ◌∷◌, ◌++◌, Option, none, some, map,
  ltb, leb, ◌==◌, if◌then◌else◌, any, filter, find, take, update_where, count_where, delete_where,
}
use sintade.Prelude.Sort.{sort_by}
use sintade.Prelude.Text.{Text}

-- `recording_state` of the schema.
pub data State : Type 0 where
  recording uploading processing ready failed abandoned trashed : State

pub record Recording : Type 0 where
  pub id : ℕ
  pub workspace_id : ℕ
  pub owner_id : ℕ
  pub title : Text
  pub state : State
  pub duration_ms : Option ℕ
  pub width : Option ℕ
  pub height : Option ℕ
  pub size_bytes : Option ℕ
  pub current_take : ℕ
  pub trashed_at : Option ℕ
  pub created_at : ℕ
  pub updated_at : ℕ

abbrev pub Recordings : Type 0
Recordings = List Recording

-- `WHERE id = $1 AND workspace_id = $2`.
abbrev pub is_row : ℕ → ℕ → Recording → Bool
is_row id workspace r = r.id == id && r.workspace_id == workspace

abbrev pub accepts_uploads : State → Bool
accepts_uploads recording = true
accepts_uploads uploading = true
accepts_uploads _ = false

abbrev pub is_processing : State → Bool
is_processing processing = true
is_processing _ = false

abbrev pub is_ready : State → Bool
is_ready ready = true
is_ready _ = false

abbrev pub is_failed : State → Bool
is_failed failed = true
is_failed _ = false

-- `state NOT IN ('abandoned', 'trashed')`.
abbrev pub is_kept : State → Bool
is_kept abandoned = false
is_kept trashed = false
is_kept _ = true

abbrev pub is_none {ℓ} : {A : Type ℓ} → Option A → Bool
is_none none = true
is_none (some _) = false

unfoldable pub insert_recording : ℕ → ℕ → ℕ → ℕ → Text → ℕ → Recordings → Recordings
insert_recording now id workspace owner title take_id rows =
    rows
    ++ record {
      id = id;
      workspace_id = workspace;
      owner_id = owner;
      title = title;
      state = recording;
      duration_ms = none;
      width = none;
      height = none;
      size_bytes = none;
      current_take = take_id;
      trashed_at = none;
      created_at = now;
      updated_at = now;
    }
      ∷ []

-- An update of the row `id` of `workspace`, if it is in one of the states `from`; and whether
-- one row was affected.
abbrev pub move_row :
    ℕ → ℕ → (State → Bool) → (Recording → Recording) → Recordings → Recordings × Bool
move_row id workspace from set_row rows =
    let here = λ (r : Recording). is_row id workspace r && from r.state in
    (update_where here set_row rows, count_where here rows == 1)

unfoldable pub mark_processing : ℕ → ℕ → ℕ → ℕ → Recordings → Recordings × Bool
mark_processing now id workspace duration =
    move_row id workspace accepts_uploads
      λ r. record r { state = processing; duration_ms = some duration; updated_at = now }

unfoldable pub count_active_recordings : ℕ → Recordings → ℕ
count_active_recordings workspace =
    count_where λ r. r.workspace_id == workspace && is_kept r.state && is_none r.trashed_at

abbrev pub is_target : List (ℕ × ℕ) → Recording → Bool
is_target targets r = any (λ t. is_row t.0 t.1 r) targets

unfoldable pub mark_abandoned : ℕ → List (ℕ × ℕ) → Recordings → Recordings × List ℕ
mark_abandoned now targets rows =
    let here = λ (r : Recording). is_target targets r && accepts_uploads r.state in
    (
      update_where here (λ r. record r { state = abandoned; updated_at = now }) rows,
      map (λ r. r.id) (filter here rows),
    )

pub record RecordingOwner : Type 0 where
  pub owner_id : ℕ
  pub title : Text

-- `RETURNING owner_id, title` of the row that an update changed.
abbrev pub owner_of : Option Recording → Option RecordingOwner
owner_of none = none
owner_of (some r) = some (record { owner_id = r.owner_id; title = r.title })

pub record Measured : Type 0 where
  pub duration_ms : ℕ
  pub width : ℕ
  pub height : ℕ
  pub size_bytes : ℕ

abbrev pub measure : ℕ → Measured → Recording → Recording
measure now m r = record r {
  duration_ms = some m.duration_ms;
  width = some m.width;
  height = some m.height;
  size_bytes = some m.size_bytes;
  updated_at = now;
}

abbrev pub processing_row : ℕ → ℕ → Recording → Bool
processing_row id workspace r = is_row id workspace r && is_processing r.state

unfoldable pub mark_ready : ℕ → ℕ → ℕ → Measured → Recordings → Recordings × Option RecordingOwner
mark_ready now id workspace m rows = (
  update_where (processing_row id workspace) (λ r. record (measure now m r) { state = ready }) rows,
  owner_of (find (processing_row id workspace) rows),
)

unfoldable pub mark_reprocessing : ℕ → ℕ → ℕ → Recordings → Recordings × Bool
mark_reprocessing now id workspace =
    move_row id workspace is_ready λ r. record r { state = processing; updated_at = now }

unfoldable pub remeasure : ℕ → ℕ → ℕ → Measured → Recordings → Recordings × Bool
remeasure now id workspace m = move_row id workspace (λ _. true) (measure now m)

unfoldable pub restore_ready : ℕ → ℕ → ℕ → Recordings → Recordings × Bool
restore_ready now id workspace =
    move_row id workspace is_processing λ r. record r { state = ready; updated_at = now }

unfoldable pub mark_failed : ℕ → ℕ → ℕ → Recordings → Recordings × Option RecordingOwner
mark_failed now id workspace rows = (
  update_where (processing_row id workspace) (λ r. record r { state = failed; updated_at = now })
      rows,
  owner_of (find (processing_row id workspace) rows),
)

unfoldable pub exists_in_workspace : ℕ → ℕ → Recordings → Bool
exists_in_workspace id workspace = any (is_row id workspace)

pub data Reopened : Type 0 where
  reopened not_failed not_found : Reopened

unfoldable pub reopen_failed : ℕ → ℕ → ℕ → Recordings → Recordings × Reopened
unfolding exists_in_workspace
reopen_failed now id workspace rows =
    let here = λ (r : Recording). is_row id workspace r && is_failed r.state in
    (
      update_where here (λ r. record r { state = processing; updated_at = now }) rows,
      if any here rows
          then reopened
          else if exists_in_workspace id workspace rows
          then not_failed
          else not_found,
    )

abbrev pub live_row : ℕ → ℕ → Recording → Bool
live_row id workspace r = is_row id workspace r && is_none r.trashed_at

-- What a watch page shows: a recording that is not in the trash.
unfoldable pub watch_info : ℕ → ℕ → Recordings → Option Recording
watch_info id workspace = find (live_row id workspace)

unfoldable pub rename : ℕ → ℕ → ℕ → Text → Recordings → Recordings × Bool
rename now id workspace title rows = (
  update_where (live_row id workspace) (λ r. record r { title = title; updated_at = now }) rows,
  count_where (live_row id workspace) rows == 1,
)

-- `COALESCE(trashed_at, now)`.
abbrev pub coalesce : Option ℕ → ℕ → ℕ
coalesce none b = b
coalesce (some a) _ = a

unfoldable pub trash : ℕ → ℕ → ℕ → Recordings → Recordings × Bool
trash now id workspace rows = (
  update_where (is_row id workspace)
      (λ r. record r { trashed_at = some (coalesce r.trashed_at now); updated_at = now }) rows,
  any (is_row id workspace) rows,
)

abbrev pub is_before : ℕ → Option ℕ → Bool
is_before cutoff none = false
is_before cutoff (some t) = ltb t cutoff

abbrev pub trash_time : Recording → ℕ
trash_time r = coalesce r.trashed_at 0

unfoldable pub trashed_before : ℕ → ℕ → Recordings → List (ℕ × ℕ)
trashed_before cutoff limit rows =
    map (λ r. (r.id, r.workspace_id))
      (take limit (
        sort_by (λ a b. ltb (trash_time a) (trash_time b))
          (filter (λ r. is_before cutoff r.trashed_at) rows)))

abbrev pub trashed_row : ℕ → ℕ → Recording → Bool
trashed_row id workspace r = is_row id workspace r && not (is_none r.trashed_at)

unfoldable pub delete_trashed : ℕ → ℕ → Recordings → Recordings × Bool
delete_trashed id workspace rows =
    (delete_where (trashed_row id workspace) rows, count_where (trashed_row id workspace) rows == 1)

abbrev pub durations : Option Recording → Option (Option ℕ)
durations none = none
durations (some r) = some r.duration_ms

unfoldable pub live_duration : ℕ → ℕ → Recordings → Option (Option ℕ)
live_duration id workspace rows = durations (find (live_row id workspace) rows)
