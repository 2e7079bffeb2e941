-- ===== src/Media/Edits/Runs/Outcomes.antt =====
-- The recording and its viewers after any runs of the recording's edits.
use sintade.Prelude.{ℕ, ◌≡◌, false, [], any}
use sintade.Prelude.Text.{Text}
use sintade.Catalog.Recordings.{processing_row}
use sintade.Media.Edits.Settled.{is_on_its_way, run-processing}
use sintade.Media.Edits.Shown.{IsForward, run-IsForward}
use sintade.Media.Edits.Runs.{System, Steps, IsQuiet}
use sintade.Media.Edits.Runs.Exclusive.{transactions_of_runs}

module _ (show_id : ℕ → Text) (payload : ℕ → ℕ → ℕ) (ws rec : ℕ) where
  -- In whatever order the runs of a recording's edits take their transactions, with submissions in
  -- between, a recording that was not `processing` before is not `processing` once none of its edits
  -- is on its way, if nothing else changes the tables, at first no run is under way, and no edit ever
  -- has two runs under way at once. Each run acts on the row that it read first, and may end at any
  -- time.
  pub steps-processing :
      (s s' : System)
      → Steps show_id payload ws rec s s'
      → IsQuiet s
      → any (processing_row rec ws) s.world.recordings ≡ false
      → any (is_on_its_way show_id payload ws rec) s'.world.edits ≡ false
      → any (processing_row rec ws) s'.world.recordings ≡ false
  steps-processing s s' steps quiet =
      run-processing show_id payload ws rec s.world s'.world
        (transactions_of_runs show_id payload ws rec s s' steps quiet)

  -- In whatever order the runs of a recording's edits take their transactions, with submissions in
  -- between, viewers never go back to an older version: of the versions that are applied, each is at
  -- least the one before it, if none was applied before, nothing else changes the tables, at first no
  -- run is under way, and no edit ever has two runs under way at once.
  pub steps-IsForward :
      (s s' : System)
      → Steps show_id payload ws rec s s'
      → IsQuiet s
      → s.world.outbox ≡ []
      → IsForward show_id payload ws rec s'.world.outbox
  steps-IsForward s s' steps quiet =
      run-IsForward show_id payload ws rec s.world s'.world
        (transactions_of_runs show_id payload ws rec s s' steps quiet)
