-- ===== src/Pipeline/Examples.antt =====
-- A take of two chunks, from ingest to media.
use sintade.Prelude.{◌≡◌, refl, [], ◌∷◌, ◌++◌, ok, false, map}
use sintade.Catalog.Recordings.{mark_processing}
use sintade.Ingest.Tables.{
  Db, UploadableTake, mark_take_finalized, find_take_for_owner, received_indexes,
}
use sintade.Ingest.Service.{FinalizeOutcome}
use sintade.Ingest.Finalizing.{finalized_event, finalize, finalize_open, commit_final}
use sintade.Media.Manifest.{new}
use sintade.Ingest.Scenario.{shown, webm, uploaded, finalize_request, uploaded-IsTable}
use sintade.Pipeline.{received_as, new-finalize}
use sintade.Prelude.Sort.{sort_by}
use sintade.Ingest.Walk.{walk}

abbrev final : Db
final = record (mark_take_finalized 30 11 7 uploaded) {
  recordings = (mark_processing 30 1 7 5000 uploaded.recordings).0;
  outbox =
      finalized_event shown finalize_request
        (record { recording_id = 1; mime_type = webm; finalized = false }) uploaded
      ∷ [];
}

ran : finalize shown 30 finalize_request uploaded ≡ ok (FinalizeOutcome.finalized 1, final)
unfolding finalize find_take_for_owner finalize_open received_indexes sort_by walk commit_final
    mark_processing mark_take_finalized
ran = refl

new-finalize_example :
    (t : UploadableTake) × (final.outbox
      ≡ uploaded.outbox ++ finalized_event shown finalize_request t uploaded ∷ [])
    × (new (map received_as (finalized_event shown finalize_request t uploaded).chunks) 2
        ≡ ok (map received_as (finalized_event shown finalize_request t uploaded).chunks))
new-finalize_example = new-finalize shown 30 finalize_request uploaded 1 final uploaded-IsTable ran
