-- ===== src/Ingest/Finalizing/Success.antt =====
-- What a successful `finalize` has done.
use sintade.Prelude.{
  ℕ, ◌+◌, ◌≤◌, ◌<◌, ◌≡◌, true, false, List, [], ◌∷◌, ◌++◌, some, ltb, leb, if◌then◌else◌, arith,
  All, filter, range, Bool-cases, Option-cases, inl, inr, ok, >>-eq-ok,
}
use sintade.Catalog.Recordings.{mark_processing}
use sintade.Ingest.Chunks.{max_chunk_index}
use sintade.Ingest.Tables.{
  Db, UploadableTake, find_take_for_owner, received_indexes, mark_take_finalized,
}
use sintade.Ingest.Tables.Invariant.{IsTable, received_indexes-Ascending}
use sintade.Ingest.Walk.{walk, no_missing, received-of_walk}
use sintade.Ingest.Service.{FinalizeTake, FinalizeOutcome}
use sintade.Ingest.Finalizing.{
  is_nonempty, finalized_event, commit_final, finalize_open, finalize_again, finalize,
}
use sintade.Prelude.Text.{Text}

none_unexpected :
    (count : ℕ) (received : List ℕ)
    → is_nonempty (filter (λ idx. leb count idx) received) ≡ false
    → All (λ i. i < count) received
none_unexpected count [] h = tt
none_unexpected count (i ∷ is) h = elim (Bool-cases (leb count i)) [
  | inl large ↦ absurd (cc (rw large at h))
  | inr small ↦ (ground arith, none_unexpected count is (rw small at h))
]

zero_of_not_pos : (n : ℕ) → ltb 0 n ≡ false → n ≡ 0
zero_of_not_pos n h = ground arith

module _ (show_id : ℕ → Text) where
  -- The take that a successful call found, and the part of the call that answered.
  pub record Found (now : ℕ) (request : FinalizeTake) (db : Db) (outcome : FinalizeOutcome)
      (db' : Db) : Type 0 where
    pub t : UploadableTake
    pub found : find_take_for_owner request.take_id request.workspace_id request.user_id db ≡ some t
    pub count_pos : 0 < request.chunk_count
    pub count_small : request.chunk_count ≤ max_chunk_index + 1
    pub duration_small : request.duration_ms ≤ 600000
    pub answer :
        (if t.finalized
          then finalize_again show_id request t db
          else finalize_open show_id now request t db)
        ≡ ok (outcome, db')

  pub finalize-Found :
      (now : ℕ) (request : FinalizeTake) (db : Db) (outcome : FinalizeOutcome) (db' : Db)
      → finalize show_id now request db ≡ ok (outcome, db')
      → Found now request db outcome db'
  unfolding finalize
  finalize-Found now request db outcome db' h =
      elim (Option-cases
        (find_take_for_owner request.take_id request.workspace_id request.user_id db)) [
          | inl missing ↦ absurd (ground arith)
          | inr (t, found) ↦ record {
            t = t;
            found = found;
            count_pos = ground arith;
            count_small = ground arith;
            duration_small = ground arith;
            answer = ground arith;
          }
        ]

  -- What `finalize` did when it finalized a take now.
  pub record Completed (now : ℕ) (request : FinalizeTake) (db : Db) (recording : ℕ) (db' : Db)
      : Type 0 where
    pub t : UploadableTake
    pub found : find_take_for_owner request.take_id request.workspace_id request.user_id db ≡ some t
    pub open_before : t.finalized ≡ false
    pub answered : t.recording_id ≡ recording
    pub all_there :
        received_indexes request.take_id request.workspace_id db ≡ range 0 request.chunk_count
    pub announced : db'.outbox ≡ db.outbox ++ finalized_event show_id request t db ∷ []
    pub moved :
        mark_processing now t.recording_id request.workspace_id request.duration_ms db.recordings
        ≡ (db'.recordings, true)
    pub marked : db'.takes ≡ (mark_take_finalized now request.take_id request.workspace_id db).takes
    pub same_chunks : db'.chunks ≡ db.chunks
    pub same_objects : db'.objects ≡ db.objects

  not_again :
      (request : FinalizeTake) (t : UploadableTake) (db db' : Db) (recording : ℕ)
      → finalize_again show_id request t db ≡ ok (FinalizeOutcome.finalized recording, db')
      → ⊥
  unfolding finalize_again
  not_again request t db db' recording h = ground arith

  -- The checks of an open take, and the commit that they lead to.
  open_steps :
      (now : ℕ) (request : FinalizeTake) (t : UploadableTake) (db db' : Db)
      (outcome : FinalizeOutcome)
      → finalize_open show_id now request t db ≡ ok (outcome, db')
      → let received = received_indexes request.take_id request.workspace_id db in
        (is_nonempty (filter (λ idx. leb request.chunk_count idx) received) ≡ false)
        × ((walk request.chunk_count 0 received no_missing).total ≡ 0)
        × (commit_final show_id now request t db ≡ ok (outcome, db'))
  unfolding finalize_open
  open_steps now request t db db' outcome h =
      let (expected, later) = >>-eq-ok _ _ _ _ h in
      let (complete, done) = >>-eq-ok _ _ _ _ later in (expected, zero_of_not_pos _ complete, done)

  commit_steps :
      (now : ℕ) (request : FinalizeTake) (t : UploadableTake) (db db' : Db) (recording : ℕ)
      → find_take_for_owner request.take_id request.workspace_id request.user_id db ≡ some t
      → t.finalized ≡ false
      → received_indexes request.take_id request.workspace_id db ≡ range 0 request.chunk_count
      → commit_final show_id now request t db ≡ ok (FinalizeOutcome.finalized recording, db')
      → Completed now request db recording db'
  unfolding commit_final mark_take_finalized
  commit_steps now request t db db' recording found op all h = record {
    t = t;
    found = found;
    open_before = op;
    answered = ground arith;
    all_there = all;
    announced = ground arith;
    moved = ground arith;
    marked = ground arith;
    same_chunks = ground arith;
    same_objects = ground arith;
  }

  -- `finalize` finalizes a take only if exactly the chunks `0 .. chunk_count` were acknowledged;
  -- it then marks the take, moves the recording from uploading to processing, and appends the one
  -- event, while chunks and objects stay as they are.
  pub finalize-Completed :
      (now : ℕ) (request : FinalizeTake) (db : Db) (recording : ℕ) (db' : Db)
      → IsTable db.chunks
      → finalize show_id now request db ≡ ok (FinalizeOutcome.finalized recording, db')
      → Completed now request db recording db'
  finalize-Completed now request db recording db' table h =
      let f = finalize-Found now request db (FinalizeOutcome.finalized recording) db' h in
      elim (Bool-cases f.t.finalized) [
        | inl again ↦ absurd (not_again request f.t db db' recording (rw again at f.answer))
        | inr fresh ↦
            let received = received_indexes request.take_id request.workspace_id db in
            let (expected, complete, done) =
              open_steps now request f.t db db' (FinalizeOutcome.finalized recording)
                (rw fresh at f.answer) in
            commit_steps now request f.t db db' recording f.found fresh
              (received-of_walk request.chunk_count received
                (received_indexes-Ascending request.take_id request.workspace_id db table)
                (none_unexpected request.chunk_count received expected) complete)
              done
      ]
