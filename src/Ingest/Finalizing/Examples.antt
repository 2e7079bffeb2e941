-- ===== src/Ingest/Finalizing/Examples.antt =====
-- `finalize` on a take of two chunks.
use sintade.Prelude.{◌≡◌, refl, true, false, [], ◌∷◌, ◌++◌, some, ok, err, arith, range}
use sintade.Catalog.Recordings.{mark_processing}
use sintade.Ingest.Tables.{
  Db, UploadableTake, mark_take_finalized, find_take_for_owner, received_indexes, insert_chunk,
}
use sintade.Ingest.Service.{
  acked, fresh, record_ack, FinalizeOutcome, already_finalized, count_mismatch, missing_chunks,
  unexpected_chunks,
}
use sintade.Ingest.Finalizing.{
  finalized_event, finalize, finalize_open, commit_final, finalize_again,
}
use sintade.Ingest.Finalizing.Success.{Completed, finalize-Completed}
use sintade.Ingest.Finalizing.Retry.{finalize-again}
use sintade.Catalog.Recordings.{Recording, ready}
use sintade.Prelude.{update_where}
use sintade.Ingest.Tables.{find_take_for_owner, received_indexes}
use sintade.Ingest.Finalizing.Refused.{verdict, finalize-verdict, finalize-ready}
use sintade.Ingest.Finalizing.Late.{finalize-late_ack}
use sintade.Ingest.Scenario.{
  shown, webm, digest, started, receipt, uploaded, ack_request, finalize_request, started-IsTable,
  uploaded-IsTable,
}
use sintade.Prelude.Sort.{sort_by}
use sintade.Ingest.Walk.{walk}

abbrev open_take : UploadableTake
open_take = record { recording_id = 1; mime_type = webm; finalized = false }

abbrev final : Db
final = record (mark_take_finalized 30 11 7 uploaded) {
  recordings = (mark_processing 30 1 7 5000 uploaded.recordings).0;
  outbox = finalized_event shown finalize_request open_take uploaded ∷ [];
}

ran : finalize shown 30 finalize_request uploaded ≡ ok (FinalizeOutcome.finalized 1, final)
unfolding finalize find_take_for_owner finalize_open received_indexes sort_by walk commit_final
    mark_processing mark_take_finalized
ran = refl

one_missing :
    finalize shown 30 finalize_request (record started { chunks = receipt 1 ∷ [] })
    ≡ err (missing_chunks (0 ∷ []) 1)
unfolding finalize find_take_for_owner finalize_open received_indexes sort_by walk
one_missing = refl

one_beyond :
    finalize shown 30 (record finalize_request { chunk_count = 1 }) uploaded
    ≡ err (unexpected_chunks (1 ∷ []))
unfolding finalize find_take_for_owner finalize_open received_indexes sort_by
one_beyond = refl

other_count :
    finalize shown 40 (record finalize_request { chunk_count = 3 }) final ≡ err (count_mismatch 2)
unfolding finalize find_take_for_owner mark_take_finalized mark_processing finalize_again
    received_indexes sort_by
other_count = refl

abbrev with_late : Db
with_late = record final {
  chunks = uploaded.chunks ++ record (receipt 2) { received_at = 35 } ∷ [];
}

late : record_ack 35 (ack_request 2) (fresh 500 digest) final ≡ (ok acked, with_late)
unfolding record_ack insert_chunk mark_take_finalized
late = refl

found : find_take_for_owner 11 7 100 uploaded ≡ some open_take
unfolding find_take_for_owner
found = refl

found_started : find_take_for_owner 11 7 100 started ≡ some open_take
unfolding find_take_for_owner
found_started = refl

All-received : received_indexes 11 7 uploaded ≡ range 0 2
unfolding received_indexes sort_by
All-received = refl

accepts : (mark_processing 30 1 7 5000 uploaded.recordings).1 ≡ true
unfolding mark_processing
accepts = refl

finalize-Completed_example : Completed shown 30 finalize_request uploaded 1 final
finalize-Completed_example =
    finalize-Completed shown 30 finalize_request uploaded 1 final uploaded-IsTable ran

-- Later the outbox was sent and media has moved the recording on.
abbrev moved_on : Db
moved_on = record final {
  outbox = [];
  recordings =
      update_where (λ _. true) (λ (r : Recording). record r { state = ready }) final.recordings;
}

take_stays : find_take_for_owner 11 7 100 moved_on ≡ find_take_for_owner 11 7 100 final
unfolding find_take_for_owner mark_processing
take_stays = refl

indexes_stay : received_indexes 11 7 moved_on ≡ received_indexes 11 7 final
unfolding received_indexes
indexes_stay = refl

finalize-again_example :
    finalize shown 90 finalize_request moved_on ≡ ok (already_finalized 1, moved_on)
finalize-again_example =
    finalize-again shown 30 90 finalize_request uploaded 1 final moved_on uploaded-IsTable ran
      take_stays indexes_stay

finalize-verdict_example :
    finalize shown 30 finalize_request started ≡ verdict shown 30 finalize_request open_take started
finalize-verdict_example =
    finalize-verdict shown 30 finalize_request open_take started started-IsTable (omega arith)
      (omega arith) (omega arith) found_started refl

finalize-ready_example :
    (db' : Db) × (finalize shown 30 finalize_request uploaded
      ≡ ok (FinalizeOutcome.finalized 1, db'))
finalize-ready_example =
    finalize-ready shown 30 finalize_request open_take uploaded uploaded-IsTable (omega arith)
      (omega arith) (omega arith) found refl All-received accepts

finalize-late_ack_example : finalize shown 90 finalize_request with_late ≡ err (count_mismatch 3)
finalize-late_ack_example =
    finalize-late_ack shown 30 35 90 finalize_request (ack_request 2) 500 digest uploaded 1 final
      with_late uploaded-IsTable refl refl ran late
