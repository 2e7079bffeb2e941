-- ===== src/Catalog/Manage.antt =====
-- Renaming, chapters, the trash and its purge: `RecordingManager`
-- (crates/catalog/src/app/manage.rs), with the `chapters` table of crates/catalog/src/infra/repo.rs
-- and the keys of the stored objects. The display of a uuid is an argument. The start of a chapter
-- that is read is what was stored.
pub mod Purged
mod Examples
use sintade.Prelude.{
  ℕ, ◌+◌, ◌-◌, ◌*◌, Bool, true, false, not, ◌&&◌, List, [], ◌∷◌, ◌++◌, Option, none, some, Result,
  ok, err, ok_or, map_err, fail_if, ◌>>=◌, ◌>>◌, map, ltb, ◌==◌, if◌then◌else◌, filter, min,
  delete_where, count_where,
}
use sintade.Prelude.Sort.{sort_by}
use sintade.Prelude.Text.{Text, codes, starts_with}
use sintade.Catalog.Recordings.{
  Recordings, rename, trash, trashed_before, delete_trashed, live_duration,
}
use sintade.Catalog.Titles.{Chapter, ChapterError, parse_chapters}

-- 30 days.
abbrev pub trash_retention : ℕ
trash_retention = 30 * 86400

abbrev pub purge_batch : ℕ
purge_batch = 50

pub data ManageError : Type 0 where
  not_found : ManageError
  invalid_chapters : ChapterError → ManageError

pub record PurgeReport : Type 0 where
  pub recordings : ℕ
  pub objects : ℕ

-- A row of `chapters`.
pub record ChapterRow : Type 0 where
  pub workspace_id : ℕ
  pub recording_id : ℕ
  pub start_ms : ℕ
  pub title : Text

pub data Event : Type 0 where
  recording_trashed : (recording workspace user : ℕ) → Event
  recording_purged : (recording workspace objects : ℕ) → Event

-- What the manager changes: the tables, the keys in the store, the outbox.
pub record Archive : Type 0 where
  pub recordings : Recordings
  pub chapters : List ChapterRow
  pub objects : List Text
  pub outbox : List Event

abbrev pub is_chapter_of : ℕ → ℕ → ChapterRow → Bool
is_chapter_of recording workspace c = c.recording_id == recording && c.workspace_id == workspace

abbrev pub earlier : ChapterRow → ChapterRow → Bool
earlier a b = ltb a.start_ms b.start_ms

-- The statement and the conversion of its rows.
unfoldable pub chapters_of : ℕ → ℕ → List ChapterRow → List Chapter
chapters_of recording workspace rows =
    map (λ (c : ChapterRow). record { start_ms = c.start_ms; title = c.title })
      (sort_by earlier (filter (is_chapter_of recording workspace) rows))

abbrev pub chapter_row : ℕ → ℕ → Chapter → ChapterRow
chapter_row recording workspace c = record {
  workspace_id = workspace;
  recording_id = recording;
  start_ms = min 2147483647 c.start_ms;
  title = c.title;
}

unfoldable pub replace_chapters : ℕ → ℕ → List Chapter → List ChapterRow → List ChapterRow
replace_chapters recording workspace chapters rows =
    delete_where (is_chapter_of recording workspace) rows
    ++ map (chapter_row recording workspace) chapters

unfoldable pub rename_recording :
    (now workspace id : ℕ) → Text → Archive → Result ManageError Archive
unfolding rename
rename_recording now workspace id title archive = do
  let (rows, found) = rename now id workspace title archive.recordings
  fail_if (not found) not_found
  ok (record archive { recordings = rows })

unfoldable pub set_chapters :
    (workspace id : ℕ) → List Chapter → Archive → Result ManageError (Archive × List Chapter)
unfolding live_duration replace_chapters
set_chapters workspace id chapters archive = do
  duration ← ok_or (live_duration id workspace archive.recordings) not_found
  list ← map_err invalid_chapters (parse_chapters chapters duration)
  ok (record archive { chapters = replace_chapters id workspace list archive.chapters }, list)

unfoldable pub trash_recording : (now workspace actor id : ℕ) → Archive → Result ManageError Archive
unfolding trash
trash_recording now workspace actor id archive = do
  let (rows, found) = trash now id workspace archive.recordings
  fail_if (not found) not_found
  ok (record archive {
    recordings = rows;
    outbox = archive.outbox ++ recording_trashed id workspace actor ∷ [];
  })

module _ (show_id : ℕ → Text) where
  abbrev pub recording_prefix : ℕ → ℕ → Text
  recording_prefix workspace id =
      codes "ws/" ++ (show_id workspace ++ (codes "/rec/" ++ (show_id id ++ codes "/")))

  abbrev pub purged_row :
      ℕ → ℕ → ℕ → Archive → Recordings × Bool → PurgeReport → PurgeReport × Archive
  purged_row id workspace objects archive (rows, false) report = (report, archive)
  purged_row id workspace objects archive (rows, true) report = (
    record { recordings = report.recordings + 1; objects = report.objects + objects },
    record archive {
      recordings = rows;
      chapters = delete_where (λ (c : ChapterRow). c.recording_id == id) archive.chapters;
      outbox = archive.outbox ++ recording_purged id workspace objects ∷ [];
    },
  )

  -- One recording of a purge: its objects, then its row with what hangs on it.
  unfoldable pub purge_one : ℕ × ℕ → PurgeReport → Archive → PurgeReport × Archive
  unfolding delete_trashed
  purge_one (id, workspace) report archive =
      let prefix = recording_prefix workspace id in
      purged_row id workspace (count_where (starts_with prefix) archive.objects)
        (record archive { objects = delete_where (starts_with prefix) archive.objects })
        (delete_trashed id workspace archive.recordings) report

  unfoldable pub purge_all : List (ℕ × ℕ) → PurgeReport → Archive → PurgeReport × Archive
  unfolding purge_one
  purge_all [] report archive = (report, archive)
  purge_all (target ∷ targets) report archive =
      let (counted, next) = purge_one target report archive in purge_all targets counted next

  unfoldable pub purge_due : ℕ → Archive → PurgeReport × Archive
  unfolding trashed_before purge_all
  purge_due now archive =
      purge_all (trashed_before (now - trash_retention) purge_batch archive.recordings)
        (record { recordings = 0; objects = 0 }) archive
