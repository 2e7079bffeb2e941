-- ===== src/Ingest/Finalizing/Refused.antt =====
-- What `finalize` answers for a take that is open, on every branch.
use sintade.Prelude.{
  ℕ, zero, suc, ◌++◌, append_assoc, ◌+◌, ◌≤◌, ◌<◌, ◌≡◌, subst, refl, ap, ◌∙◌, Bool, true, false,
  not, List, [], ◌∷◌, some, ltb, leb, if◌then◌else◌, arith, filter, length, range, take, Result, ok,
  err, ◌>>◌, fail_if,
}
use sintade.Prelude.Text.{Text}
use sintade.Catalog.Recordings.{mark_processing}
use sintade.Ingest.Chunks.{max_chunk_index}
use sintade.Ingest.Tables.{
  Db, UploadableTake, find_take_for_owner, received_indexes, mark_take_finalized,
}
use sintade.Ingest.Tables.Invariant.{IsTable, received_indexes-Ascending}
use sintade.Ingest.Walk.{gaps, member, walk_lem, max_missing_listed}
use sintade.Ingest.Service.{
  FinalizeTake, FinalizeOutcome, FinalizeError, missing_chunks, unexpected_chunks,
}
use sintade.Ingest.Finalizing.{is_nonempty, finalized_event, commit_final, finalize_open, finalize}

-- The indexes below the count that were never acknowledged, all of them.
abbrev pub missing_of : FinalizeTake → Db → List ℕ
missing_of request db =
    gaps 0 request.chunk_count (received_indexes request.take_id request.workspace_id db)

abbrev pub unexpected_of : FinalizeTake → Db → List ℕ
unexpected_of request db =
    filter (λ idx. leb request.chunk_count idx)
      (received_indexes request.take_id request.workspace_id db)

none_beyond :
    (limit first n : ℕ) → first + n ≤ limit → filter (λ idx. leb limit idx) (range first n) ≡ []
none_beyond limit first zero h = refl
none_beyond limit first (suc n) h = ground (arith, none_beyond limit (first + 1) n)

member-middle : (x : ℕ) (seen xs : List ℕ) → member x (seen ++ x ∷ xs) ≡ true
member-middle x [] xs = ground arith
member-middle x (y ∷ seen) xs = ground (arith, member-middle x seen xs)

none_missing : (seen xs : List ℕ) → filter (λ i. not (member i (seen ++ xs))) xs ≡ []
none_missing seen [] = refl
none_missing seen (x ∷ xs) = rw (member-middle x seen xs) (
    subst (λ ys. filter (λ i. not (member i ys)) xs ≡ []) (append_assoc seen (x ∷ []) xs)
      (none_missing (seen ++ x ∷ []) xs))

nonempty_of_length : (xs : List ℕ) → ltb 0 (length xs) ≡ is_nonempty xs
nonempty_of_length [] = refl
nonempty_of_length (x ∷ xs) = ground arith

steps :
    {E A : Type 0} (e e' : E) (r : Result E A) (a b : Bool)
    → (fail_if a e >> (fail_if b e' >> r)) ≡ (if a then err e else if b then err e' else r)
steps e e' r true b = refl
steps e e' r false true = refl
steps e e' r false false = refl

module _ (show_id : ℕ → Text) (now : ℕ) (request : FinalizeTake) (t : UploadableTake)
    (db : Db) where
  -- What an open take gets: a report of what is wrong, or the commit.
  abbrev pub verdict : Result FinalizeError (FinalizeOutcome × Db)
  verdict =
      if is_nonempty (unexpected_of request db)
      then err (unexpected_chunks (unexpected_of request db))
      else if is_nonempty (missing_of request db)
      then err (
          missing_chunks (take max_missing_listed (missing_of request db))
            (length (missing_of request db)))
      else commit_final show_id now request t db

  finalize_open-verdict : IsTable db.chunks → finalize_open show_id now request t db ≡ verdict
  unfolding finalize_open
  finalize_open-verdict table =
      let w =
        walk_lem request.chunk_count (received_indexes request.take_id request.workspace_id db)
          (received_indexes-Ascending request.take_id request.workspace_id db table) in
      rw (w.0, w.1, nonempty_of_length (missing_of request db))
        (steps _ _ _ (is_nonempty (unexpected_of request db)) (is_nonempty (missing_of request db)))

  finalize-Open :
      0 < request.chunk_count
      → request.chunk_count ≤ max_chunk_index + 1
      → request.duration_ms ≤ 600000
      → find_take_for_owner request.take_id request.workspace_id request.user_id db ≡ some t
      → t.finalized ≡ false
      → finalize show_id now request db ≡ finalize_open show_id now request t db
  unfolding finalize
  finalize-Open pos small short found fresh = ground arith

  -- For a request that is in bounds, for an open take: chunks beyond the count are reported first,
  -- then exactly the missing indexes, at most 1000 of them listed and all of them counted, and
  -- only where neither is the take committed.
  pub finalize-verdict :
      IsTable db.chunks
      → 0 < request.chunk_count
      → request.chunk_count ≤ max_chunk_index + 1
      → request.duration_ms ≤ 600000
      → find_take_for_owner request.take_id request.workspace_id request.user_id db ≡ some t
      → t.finalized ≡ false
      → finalize show_id now request db ≡ verdict
  finalize-verdict table pos small short found fresh =
      finalize-Open pos small short found fresh ∙ finalize_open-verdict table

  -- The commit of a take whose recording still accepts uploads.
  commit-ready :
      (mark_processing now t.recording_id request.workspace_id request.duration_ms db.recordings).1
        ≡ true
      → (db' : Db) × (commit_final show_id now request t db
          ≡ ok (FinalizeOutcome.finalized t.recording_id, db'))
  unfolding commit_final mark_take_finalized
  commit-ready accepts =
      let marked = mark_take_finalized now request.take_id request.workspace_id db in
      (
        record marked {
          recordings =
              (mark_processing now t.recording_id request.workspace_id request.duration_ms
                db.recordings).0;
          outbox = marked.outbox ++ finalized_event show_id request t db ∷ [];
        },
        rw accepts refl,
      )

  -- Once exactly the chunks `0 .. chunk_count` are acknowledged, a request in bounds for an open
  -- take finalizes it, if its recording still accepts uploads.
  pub finalize-ready :
      IsTable db.chunks
      → 0 < request.chunk_count
      → request.chunk_count ≤ max_chunk_index + 1
      → request.duration_ms ≤ 600000
      → find_take_for_owner request.take_id request.workspace_id request.user_id db ≡ some t
      → t.finalized ≡ false
      → received_indexes request.take_id request.workspace_id db ≡ range 0 request.chunk_count
      → (mark_processing now t.recording_id request.workspace_id request.duration_ms
          db.recordings).1
        ≡ true
      → (db' : Db) × (finalize show_id now request db
          ≡ ok (FinalizeOutcome.finalized t.recording_id, db'))
  finalize-ready table pos small short found fresh all accepts =
      let (db', committed) = commit-ready accepts in
      let no_others : unexpected_of request db ≡ [] =
        ap (filter (λ idx. leb request.chunk_count idx)) all
        ∙ none_beyond request.chunk_count 0 request.chunk_count (omega arith) in
      let no_gaps : missing_of request db ≡ [] =
        ap (gaps 0 request.chunk_count) all ∙ none_missing [] (range 0 request.chunk_count) in
      (db', finalize-verdict table pos small short found fresh ∙ rw (no_others, no_gaps) committed)
