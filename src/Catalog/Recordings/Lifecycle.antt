-- ===== src/Catalog/Recordings/Lifecycle.antt =====
-- The lifecycle of a recording (docs/design.md, "Media lifecycle") against the statements that
-- move its row.
use sintade.Prelude.{ℕ, ◌≡◌, false, List, [], ◌∷◌, ◌≢◌}
use sintade.Prelude.Text.{Text}
use sintade.Catalog.Recordings.{
  State, recording, uploading, processing, ready, failed, abandoned, trashed, Recording, Recordings,
  Measured, accepts_uploads, mark_processing, mark_abandoned, mark_ready, mark_reprocessing,
  remeasure, restore_ready, mark_failed, reopen_failed, rename, trash,
}

-- The calls of `CatalogService` and `RecordingManager` that change rows of the table.
pub data Op : Type 0 where
  process : ℕ → ℕ → ℕ → Op
  abandon : List (ℕ × ℕ) → Op
  finish : ℕ → ℕ → Measured → Op
  reprocess : ℕ → ℕ → Op
  measure_again : ℕ → ℕ → Measured → Op
  restore : ℕ → ℕ → Op
  give_up : ℕ → ℕ → Op
  reopen : ℕ → ℕ → Op
  retitle : ℕ → ℕ → Text → Op
  discard : ℕ → ℕ → Op

unfoldable pub apply : ℕ → Op → Recordings → Recordings
apply now (process id ws duration) rows = (mark_processing now id ws duration rows).0
apply now (abandon targets) rows = (mark_abandoned now targets rows).0
apply now (finish id ws m) rows = (mark_ready now id ws m rows).0
apply now (reprocess id ws) rows = (mark_reprocessing now id ws rows).0
apply now (measure_again id ws m) rows = (remeasure now id ws m rows).0
apply now (restore id ws) rows = (restore_ready now id ws rows).0
apply now (give_up id ws) rows = (mark_failed now id ws rows).0
apply now (reopen id ws) rows = (reopen_failed now id ws rows).0
apply now (retitle id ws title) rows = (rename now id ws title rows).0
apply now (discard id ws) rows = (trash now id ws rows).0

infix 40 ◌⟶◌
pub data ◌⟶◌ : State → State → Type 0 where
  stay : {s : State} → s ⟶ s
  finalized_early : recording ⟶ processing
  finalized : uploading ⟶ processing
  idle_early : recording ⟶ abandoned
  idle : uploading ⟶ abandoned
  processed : processing ⟶ ready
  gave_up : processing ⟶ failed
  edited : ready ⟶ processing
  retried : failed ⟶ processing

-- Two versions of one row: who and what it is.
pub record SameRow (a b : Recording) : Type 0 where
  pub same_id : b.id ≡ a.id
  pub same_workspace : b.workspace_id ≡ a.workspace_id
  pub same_owner : b.owner_id ≡ a.owner_id
  pub same_take : b.current_take ≡ a.current_take
  pub same_created : b.created_at ≡ a.created_at

-- What a statement may do to a row: keep who and what it is, and follow the lifecycle.
abbrev pub RowStep : Recording → Recording → Type 0
RowStep a b = SameRow a b × (a.state ⟶ b.state)

-- A history of statements, each at its time.
unfoldable pub apply_all : List (ℕ × Op) → Recordings → Recordings
apply_all [] rows = rows
apply_all ((now, op) ∷ ops) rows = apply_all ops (apply now op rows)

-- What no statement undoes: an upload that is over stays over, an abandoned recording stays
-- abandoned.
pub record Settled (a b : Recording) : Type 0 where
  pub same : SameRow a b
  pub closed : accepts_uploads a.state ≡ false → accepts_uploads b.state ≡ false
  pub abandoned_stays : a.state ≡ abandoned → b.state ≡ abandoned
  pub never_trashed : a.state ≢ trashed → b.state ≢ trashed
