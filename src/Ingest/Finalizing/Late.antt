-- ===== src/Ingest/Finalizing/Late.antt =====
-- An ack whose read part ran before the take was finalized, and whose insert ran after it.
use sintade.Prelude.{
  ℕ, suc, ◌+◌, ◌≡◌, refl, sym, ap, ◌∙◌, Bool, true, false, List, [], ◌∷◌, ◌++◌, some, ◌==◌, arith,
  filter, length, length-map, length-range, ok, err,
}
use sintade.Prelude.Sort.{sort_by, length-sort_by}
use sintade.Prelude.Text.{Text}
use sintade.Ingest.Tables.{
  Chunk, Db, UploadableTake, is_chunk_of, idx_before, find_take_for_owner, receipts,
  received_indexes,
}
use sintade.Ingest.Tables.Invariant.{IsTable}
use sintade.Ingest.Service.{
  AckChunk, acked, fresh, record_ack, FinalizeTake, FinalizeOutcome, count_mismatch,
}
use sintade.Ingest.Service.Receipts.{receipt_for, record_ack-acked}
use sintade.Ingest.Finalizing.{finalize_again, finalize}
use sintade.Ingest.Finalizing.Success.{finalize-Found, finalize-Completed}
use sintade.Ingest.Finalizing.Retry.{found_again, finalize-Finalized}

length-filter_snoc :
    (p : Chunk → Bool) (xs : List Chunk) (c : Chunk)
    → p c ≡ true
    → length (filter p (xs ++ c ∷ [])) ≡ suc (length (filter p xs))
length-filter_snoc p [] c h = rw h refl
length-filter_snoc p (x ∷ xs) c h = ground (arith, length-filter_snoc p xs c h)

length-received :
    (take_id ws : ℕ) (db : Db)
    → length (received_indexes take_id ws db) ≡ length (filter (is_chunk_of take_id ws) db.chunks)
unfolding received_indexes receipts
length-received take_id ws db =
    length-map (λ (c : Chunk). c.idx)
      (sort_by idx_before (filter (is_chunk_of take_id ws) db.chunks))
    ∙ length-sort_by idx_before (filter (is_chunk_of take_id ws) db.chunks)

take-same_rows :
    (take_id ws owner : ℕ) (db : Db) (chunks : List Chunk)
    → find_take_for_owner take_id ws owner (record db { chunks = chunks })
      ≡ find_take_for_owner take_id ws owner db
unfolding find_take_for_owner
take-same_rows take_id ws owner db chunks = refl

module _ (show_id : ℕ → Text) where
  again-mismatch :
      (request : FinalizeTake) (t : UploadableTake) (db : Db) (n : ℕ)
      → length (received_indexes request.take_id request.workspace_id db) ≡ n
      → (n == request.chunk_count) ≡ false
      → finalize_again show_id request t db ≡ err (count_mismatch n)
  unfolding finalize_again
  again-mismatch request t db n e other = rw (e, other) refl

  -- An ack of the take that found its index without a receipt, and that records the receipt after
  -- the take was finalized, makes a repeated `finalize` with the same number of chunks answer a
  -- mismatch, with one chunk more.
  pub finalize-late_ack :
      (now later latest : ℕ) (request : FinalizeTake) (ack : AckChunk) (size : ℕ) (digest : List ℕ)
      (db : Db) (recording : ℕ) (db' db'' : Db)
      → IsTable db.chunks
      → ack.take_id ≡ request.take_id
      → ack.workspace_id ≡ request.workspace_id
      → finalize show_id now request db ≡ ok (FinalizeOutcome.finalized recording, db')
      → record_ack later ack (fresh size digest) db' ≡ (ok acked, db'')
      → finalize show_id latest request db'' ≡ err (count_mismatch (request.chunk_count + 1))
  finalize-late_ack now later latest request ack size digest db recording db' db'' table same_take
        same_ws done late =
      let c = finalize-Completed show_id now request db recording db' table done in
      let f =
        finalize-Found show_id now request db (FinalizeOutcome.finalized recording) db' done in
      let (free, left, _) = record_ack-acked later ack size digest db' db'' late in
      let found : find_take_for_owner request.take_id request.workspace_id request.user_id db''
          ≡ some (record c.t { finalized = true }) =
        ap (find_take_for_owner request.take_id request.workspace_id request.user_id) left
        ∙ take-same_rows request.take_id request.workspace_id request.user_id db' _
        ∙ found_again now request.take_id request.workspace_id request.user_id c.t.recording_id
            request.duration_ms db db' c.t c.found c.marked (ap (λ p. p.0) c.moved) in
      let before : length (filter (is_chunk_of request.take_id request.workspace_id) db.chunks)
          ≡ request.chunk_count =
        sym (length-received request.take_id request.workspace_id db)
        ∙ ap length c.all_there
        ∙ length-range 0 request.chunk_count in
      let mine : is_chunk_of request.take_id request.workspace_id
            (receipt_for later ack size digest)
          ≡ true =
        rw (same_take, same_ws) (ground arith) in
      let one_more : length (filter (is_chunk_of request.take_id request.workspace_id) db''.chunks)
          ≡ suc (length (filter (is_chunk_of request.take_id request.workspace_id) db.chunks)) =
        rw (left, c.same_chunks)
          (length-filter_snoc (is_chunk_of request.take_id request.workspace_id) db.chunks
            (receipt_for later ack size digest) mine) in
      let after : length (received_indexes request.take_id request.workspace_id db'')
          ≡ request.chunk_count + 1 =
        length-received request.take_id request.workspace_id db'' ∙ one_more ∙ omega arith in
      finalize-Finalized show_id latest request db'' (record c.t { finalized = true }) f.count_pos
        f.count_small f.duration_small found refl
      ∙ again-mismatch request (record c.t { finalized = true }) db'' (request.chunk_count + 1)
          after (ground arith)
