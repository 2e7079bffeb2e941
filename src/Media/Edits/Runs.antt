-- ===== src/Media/Edits/Runs.antt =====
-- The runs of `RenderEdit` on the edits of one recording (`render_edit` of
-- crates/media/src/app/edit.rs), each as its transactions, and what other calls do in between. No
-- transaction of a run looks at the edit's status again: a run acts on the row that it read first.
-- Of each edit at most one run is under way: the code does not check that, it relies on the lock of
-- the edit's one job.
pub mod Others
pub mod Rows
pub mod Exclusive
pub mod Outcomes
use sintade.Prelude.{ℕ, ◌≡◌, Bool, true, false, List, ok, ◌==◌, if◌then◌else◌}
use sintade.Prelude.Text.{Text}
use sintade.Media.Edl.{KeptRange}
use sintade.Media.Edits.{Edit}
use sintade.Media.Edits.Service.{
  World, Version, Output, SubmittedEdit, submit, begin_edit, swap, give_up, note_rendered,
}
use sintade.Media.Edits.Settled.{IsOnItsWay}

-- The run of an edit: none, or one with the row that it read, before and after `begin_edit`.
pub data Run : Type 0 where
  idle : Run
  opened : Edit → Run
  begun : Edit → Run

-- The state, and the run of each edit by the edit's id.
pub record System : Type 0 where
  pub world : World
  pub runs : ℕ → Run

abbrev pub set : ℕ → Run → (ℕ → Run) → ℕ → Run
set id run runs i = if i == id then run else runs i

-- `false` of `begin_edit` ends the run.
abbrev pub after_begin : Edit → Bool → Run
after_begin e true = begun e
after_begin e false = idle

module _ (show_id : ℕ → Text) (payload : ℕ → ℕ → ℕ) (ws rec : ℕ) where
  pub data Step : System → System → Type 0 where
    submits :
        (now job id user : ℕ) (ranges : List KeptRange) {s : System} {w : World}
        (submitted : SubmittedEdit)
        → submit show_id payload now job id ws rec user ranges s.world ≡ ok (w, submitted)
        → Step s (record s { world = w })
    -- The run reads the row, and goes on if the edit is on its way.
    opens :
        (e : Edit) {s : System}
        → s.runs e.id ≡ idle
        → IsOnItsWay show_id payload ws rec s.world e
        → Step s (record s { runs = set e.id (opened e) s.runs })
    begins :
        (now : ℕ) (e : Edit) {s : System}
        → s.runs e.id ≡ opened e
        → Step s (record {
          world = (begin_edit show_id payload now e s.world).0;
          runs = set e.id (after_begin e (begin_edit show_id payload now e s.world).1) s.runs;
        })
    notes :
        (e : Edit) (output : Output) {s : System}
        → s.runs e.id ≡ begun e
        → Step s (record {
          world = note_rendered show_id payload e output s.world;
          runs = set e.id (begun e) s.runs;
        })
    swaps :
        (now : ℕ) (e : Edit) (v : Version) {s : System}
        → s.runs e.id ≡ begun e
        → Step s (record {
          world = (swap show_id payload now e v s.world).0;
          runs = set e.id idle s.runs;
        })
    gives_up :
        (now : ℕ) (e : Edit) (reason : Text) {s : System}
        → s.runs e.id ≡ begun e
        → Step s (record {
          world = give_up show_id payload now e reason s.world;
          runs = set e.id idle s.runs;
        })
    -- A run ends with an error that is not its last, or with its worker.
    drops : (id : ℕ) {s : System} → Step s (record s { runs = set id idle s.runs })

  pub data Steps : System → System → Type 0 where
    stay : {s : System} → Steps s s
    go : {s t u : System} → Step s t → Steps t u → Steps s u

-- No run is under way.
abbrev pub IsQuiet : System → Type 0
IsQuiet s = (id : ℕ) → s.runs id ≡ idle
