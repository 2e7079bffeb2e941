-- ===== src/Ingest/Sweeping/Examples.antt =====
-- A sweep over a finalized take and an upload that was left ten days ago.
use sintade.Prelude.{ℕ, ◌+◌, ◌≡◌, refl, [], ◌∷◌, ◌++◌, some, All}
use sintade.Catalog.Recordings.{abandoned, mark_abandoned}
use sintade.Ingest.Chunks.{chunk_key, chunk_prefix}
use sintade.Ingest.Tables.{
  Take, Db, purgeable_takes, abandon_idle_takes, delete_chunks, delete_prefix,
}
use sintade.Ingest.Sweeping.{sweep_stale_uploads, purge_take}
use sintade.Ingest.Sweeping.Selection.{IsFinalizedRow}
use sintade.Ingest.Sweeping.Safety.{KeepsTake, sweep-KeepsTake}
use sintade.Ingest.Scenario.{shown, shown-ShowsIds, webm, demo, demo_take, receipt, uploaded}
use sintade.Prelude.Sort.{sort_by}

abbrev left : Take
left = record demo_take { id = 12; recording_id = 2 }

abbrev before : Db
before = record uploaded {
  recordings = demo ∷ record demo { id = 2; current_take = 12 } ∷ [];
  takes = record demo_take { finalized_at = some 30 } ∷ left ∷ [];
  chunks = uploaded.chunks ++ record (receipt 0) { take_id = 12 } ∷ [];
  objects = uploaded.objects ++ (chunk_key shown 7 2 12 0 webm, 500) ∷ [];
}

abbrev ten_days : ℕ
ten_days = 864000 + 100

abbrev after : Db
after = record uploaded {
  recordings =
      demo
      ∷ record demo { id = 2; current_take = 12; state = abandoned; updated_at = ten_days }
      ∷ [];
  takes =
      record demo_take { finalized_at = some 30 }
      ∷ record left { abandoned_at = some ten_days }
      ∷ [];
}

swept :
    sweep_stale_uploads shown ten_days before ≡ (record { abandoned = 1; purged_takes = 1 }, after)
unfolding sweep_stale_uploads mark_abandoned purgeable_takes abandon_idle_takes sort_by purge_take
    delete_chunks delete_prefix chunk_prefix chunk_key
swept = refl

rows_finalized : All (IsFinalizedRow 11 7) before.takes
rows_finalized = ((λ mine. refl), ((λ mine. cc), tt))

sweep-KeepsTake_example : KeepsTake shown 11 7 before (sweep_stale_uploads shown ten_days before).1
sweep-KeepsTake_example = sweep-KeepsTake shown shown-ShowsIds 11 7 ten_days before rows_finalized
