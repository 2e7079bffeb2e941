-- ===== src/Ingest/Service/Examples.antt =====
-- The calls of `IngestService` on a take of two chunks.
use sintade.Prelude.{◌≡◌, ◌≤◌, ◌+◌, ◌==◌, refl, true, [], ◌∷◌, some, ok, err, if◌then◌else◌, arith}
use sintade.Prelude.Text.{codes, trim, is_control, padded}
use sintade.Catalog.Recordings.{count_active_recordings}
use sintade.Ingest.Chunks.{parse_mime, chunk_key, chunk_size, extension_for}
use sintade.Ingest.Tables.{
  Db, find_take_for_owner, find_chunk, mark_take_finalized, head, insert_chunk,
}
use sintade.Ingest.Service.{
  free_tier, StartedRecording, started_rows, start_recording, acked, already_acked, mismatch, fresh,
  not_uploaded, size_mismatch, prepare_ack, record_ack, ack_chunk, check_stored, compare_receipt,
}
use sintade.Ingest.Service.Start.{count_active-start_recording}
use sintade.Ingest.Service.Ack.{Acked, ack_chunk-Acked}
use sintade.Ingest.Service.Again.{ack_chunk-again}
use sintade.Ingest.Scenario.{shown, webm, digest, started, receipt, start_request, ack_request}
use sintade.Catalog.Titles.{parse_title}
use sintade.Ingest.Digest.{parse_hex, parse_pairs, hex_value, from_bytes}

abbrev no_rows : Db
no_rows = record { recordings = []; takes = []; chunks = []; objects = []; outbox = [] }

abbrev new_recording : StartedRecording
new_recording = record { recording_id = 1; take_id = 11; max_duration_ms = 600000 }

abbrev after_start : Db
after_start = started_rows 10 1 11 (codes "Demo") webm start_request no_rows

start_ran : start_recording 10 1 11 start_request no_rows ≡ ok (new_recording, after_start)
unfolding start_recording parse_title trim is_control parse_mime count_active_recordings
start_ran = refl

abbrev after_ack : Db
after_ack = record started { chunks = receipt 1 ∷ [] }

ack_ran : ack_chunk shown 20 (ack_request 1) started ≡ (ok acked, after_ack)
unfolding ack_chunk prepare_ack parse_hex parse_pairs hex_value chunk_size find_take_for_owner
    find_chunk check_stored head chunk_key padded extension_for trim record_ack insert_chunk
ack_ran = refl

finalized_meanwhile :
    ack_chunk shown 40 (ack_request 1) (mark_take_finalized 30 11 7 after_ack)
    ≡ (ok already_acked, mark_take_finalized 30 11 7 after_ack)
unfolding ack_chunk prepare_ack parse_hex parse_pairs hex_value chunk_size find_take_for_owner
    mark_take_finalized find_chunk compare_receipt from_bytes record_ack
finalized_meanwhile = refl

nothing_uploaded : ack_chunk shown 20 (ack_request 2) started ≡ (err (not_uploaded 2), started)
unfolding ack_chunk prepare_ack parse_hex parse_pairs hex_value chunk_size find_take_for_owner
    find_chunk check_stored head chunk_key padded
nothing_uploaded = refl

other_size :
    ack_chunk shown 20 (record (ack_request 1) { size_bytes = 499 }) started
    ≡ (err (size_mismatch 1 500 499), started)
unfolding ack_chunk prepare_ack parse_hex parse_pairs hex_value chunk_size find_take_for_owner
    find_chunk check_stored head chunk_key padded extension_for trim
other_size = refl

other_claim :
    ack_chunk shown 30 (record (ack_request 1) { size_bytes = 499 }) after_ack
    ≡ (err (mismatch 1), after_ack)
unfolding ack_chunk prepare_ack parse_hex parse_pairs hex_value chunk_size find_take_for_owner
    find_chunk compare_receipt
other_claim = refl

none_active : count_active_recordings 7 no_rows.recordings ≤ free_tier.max_recordings
unfolding count_active_recordings
none_active = omega arith

same_receipt :
    find_chunk 11 7 1 (mark_take_finalized 30 11 7 after_ack) ≡ find_chunk 11 7 1 after_ack
unfolding find_chunk mark_take_finalized
same_receipt = refl

still_found :
    find_take_for_owner 11 7 100 (mark_take_finalized 30 11 7 after_ack)
    ≡ some (record { recording_id = 1; mime_type = webm; finalized = true })
unfolding find_take_for_owner mark_take_finalized
still_found = refl

recorded : record_ack 20 (ack_request 1) (fresh 500 digest) started ≡ (ok acked, after_ack)
unfolding record_ack insert_chunk
recorded = refl

count_active-start_recording_example :
    (count_active_recordings 7 after_start.recordings ≤ free_tier.max_recordings)
    × (count_active_recordings 7 after_start.recordings
        ≡ count_active_recordings 7 no_rows.recordings
          + (if start_request.workspace_id == 7 then 1 else 0))
count_active-start_recording_example =
    count_active-start_recording 7 10 1 11 start_request no_rows new_recording after_start
      none_active start_ran

ack_chunk-Acked_example : Acked shown 20 (ack_request 1) started after_ack
ack_chunk-Acked_example = ack_chunk-Acked shown 20 (ack_request 1) started after_ack ack_ran

ack_chunk-again_example :
    ack_chunk shown 40 (ack_request 1) (mark_take_finalized 30 11 7 after_ack)
    ≡ (ok already_acked, mark_take_finalized 30 11 7 after_ack)
ack_chunk-again_example =
    ack_chunk-again shown 20 40 (ack_request 1) started after_ack
      (mark_take_finalized 30 11 7 after_ack) acked
      (record { recording_id = 1; mime_type = webm; finalized = true }) ack_ran same_receipt
      still_found
