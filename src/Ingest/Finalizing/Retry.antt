-- ===== src/Ingest/Finalizing/Retry.antt =====
-- Calling `finalize` again.
use sintade.Prelude.{
  ℕ, ◌+◌, ◌≤◌, ◌<◌, ◌≡◌, refl, sym, ap, ◌∙◌, Bool, true, false, ◌&&◌, List, [], ◌∷◌, Option, none,
  some, arith, any, find, find_sound, find-update_where, update_found, update_where, length,
  length-range, range, ok, inl, inr, Bool-cases,
}
use sintade.Catalog.Recordings.{Recording, Recordings, mark_processing}
use sintade.Ingest.Chunks.{max_chunk_index}
use sintade.Ingest.Tables.{
  Take, Db, UploadableTake, is_take, belongs_to, uploadable, find_take_for_owner, receipts,
  received_indexes, mark_take_finalized,
}
use sintade.Prelude.Text.{Text}
use sintade.Ingest.Tables.Invariant.{IsTable}
use sintade.Ingest.Service.{FinalizeTake, FinalizeOutcome, already_finalized}
use sintade.Ingest.Finalizing.{finalize_again, finalize}
use sintade.Ingest.Finalizing.Success.{finalize-Found, finalize-Completed}

any-update_where :
    (q p : Recording → Bool) (f : Recording → Recording) (rows : Recordings)
    → ((r : Recording) → q (f r) ≡ q r)
    → any q (update_where p f rows) ≡ any q rows
any-update_where q p f [] h = refl
any-update_where q p f (r ∷ rows) h = elim (Bool-cases (p r)) [
  | inl e ↦ rw (e, h r, any-update_where q p f rows h)
  | inr e ↦ rw (e, any-update_where q p f rows h)
]

-- Moving a recording to `processing` keeps whose take it is.
belongs_to-mark_processing :
    (now id ws duration owner : ℕ) (rows : Recordings) (t : Take)
    → belongs_to owner (mark_processing now id ws duration rows).0 t ≡ belongs_to owner rows t
unfolding mark_processing
belongs_to-mark_processing now id ws duration owner rows t = any-update_where _ _ _ rows (λ r. refl)

and_left : (a b : Bool) → (a && b) ≡ true → a ≡ true
and_left true b h = refl
and_left false b h = h

find-ext : (p q : Take → Bool) (xs : List Take) → ((x : Take) → p x ≡ q x) → find p xs ≡ find q xs
find-ext p q [] h = refl
find-ext p q (x ∷ xs) h = rw (h x, find-ext p q xs h)

abbrev mark : ℕ → Take → Take
mark now x = record x { finalized_at = some now }

marked_uploadable :
    (now : ℕ) (p : Take → Bool) (o : Option Take) (t : UploadableTake)
    → ((x : Take) → o ≡ some x → p x ≡ true)
    → uploadable o ≡ some t
    → uploadable (update_found p (mark now) o) ≡ some (record t { finalized = true })
marked_uploadable now p none t h e = absurd (cc)
marked_uploadable now p (some x) t h e = rw (h x refl) (cc)

-- The take is found again, now finalized.
pub found_again :
    (now take_id ws owner id duration : ℕ) (db db' : Db) (t : UploadableTake)
    → find_take_for_owner take_id ws owner db ≡ some t
    → db'.takes ≡ (mark_take_finalized now take_id ws db).takes
    → (mark_processing now id ws duration db.recordings).0 ≡ db'.recordings
    → find_take_for_owner take_id ws owner db' ≡ some (record t { finalized = true })
unfolding find_take_for_owner mark_take_finalized
found_again now take_id ws owner id duration db db' t e same_takes same_rows =
    let q : Take → Bool = λ x. is_take take_id ws x && belongs_to owner db.recordings x in
    let q' : Take → Bool = λ x. is_take take_id ws x && belongs_to owner db'.recordings x in
    let same : (x : Take) → q' x ≡ q x = λ x.
      ap (λ b. is_take take_id ws x && b)
        (ap (λ rows. belongs_to owner rows x) (sym same_rows)
          ∙ belongs_to-mark_processing now id ws duration owner db.recordings x) in
    rw
      (
        same_takes,
        find-ext q' q (update_where (is_take take_id ws) (mark now) db.takes) same,
        find-update_where q (is_take take_id ws) (mark now) db.takes (λ x k. refl),
      )
      (marked_uploadable now (is_take take_id ws) (find q db.takes) t
        (λ x k. and_left (is_take take_id ws x) _ (find_sound q db.takes x k)) e)

same_received :
    (take_id ws : ℕ) (db db' : Db)
    → db'.chunks ≡ db.chunks
    → received_indexes take_id ws db' ≡ received_indexes take_id ws db
unfolding received_indexes receipts
same_received take_id ws db db' e = rw e refl

module _ (show_id : ℕ → Text) where
  again-Completed :
      (request : FinalizeTake) (t : UploadableTake) (db : Db)
      → received_indexes request.take_id request.workspace_id db ≡ range 0 request.chunk_count
      → finalize_again show_id request t db ≡ ok (already_finalized t.recording_id, db)
  unfolding finalize_again
  again-Completed request t db all =
      ground (arith, ap length all ∙ length-range 0 request.chunk_count)

  -- The guards let the call through to a take that is finalized.
  pub finalize-Finalized :
      (now : ℕ) (request : FinalizeTake) (db : Db) (t : UploadableTake)
      → 0 < request.chunk_count
      → request.chunk_count ≤ max_chunk_index + 1
      → request.duration_ms ≤ 600000
      → find_take_for_owner request.take_id request.workspace_id request.user_id db ≡ some t
      → t.finalized ≡ true
      → finalize show_id now request db ≡ finalize_again show_id request t db
  unfolding finalize
  finalize-Finalized now request db t pos small short found done = ground arith

  -- A call of `finalize` that is repeated after it finalized a take, at whatever later time and
  -- whatever else has changed, answers that the take is already finalized, with the same recording,
  -- and changes nothing, as long as the owner finds the take as that call left it and the take has
  -- the same received indexes: a late ack adds one.
  pub finalize-again :
      (now later : ℕ) (request : FinalizeTake) (db : Db) (recording : ℕ) (db' other : Db)
      → IsTable db.chunks
      → finalize show_id now request db ≡ ok (FinalizeOutcome.finalized recording, db')
      → find_take_for_owner request.take_id request.workspace_id request.user_id other
        ≡ find_take_for_owner request.take_id request.workspace_id request.user_id db'
      → received_indexes request.take_id request.workspace_id other
        ≡ received_indexes request.take_id request.workspace_id db'
      → finalize show_id later request other ≡ ok (already_finalized recording, other)
  finalize-again now later request db recording db' other table h same_take same_indexes =
      let c = finalize-Completed show_id now request db recording db' table h in
      let f = finalize-Found show_id now request db (FinalizeOutcome.finalized recording) db' h in
      let found : find_take_for_owner request.take_id request.workspace_id request.user_id db'
          ≡ some (record c.t { finalized = true }) =
        found_again now request.take_id request.workspace_id request.user_id c.t.recording_id
          request.duration_ms db db' c.t c.found c.marked (ap (λ p. p.0) c.moved) in
      let answer =
        again-Completed request (record c.t { finalized = true }) other
          (same_indexes
            ∙ same_received request.take_id request.workspace_id db db' c.same_chunks
            ∙ c.all_there) in
      finalize-Finalized later request other (record c.t { finalized = true }) f.count_pos
        f.count_small f.duration_small (same_take ∙ found) refl
      ∙ answer
      ∙ ap (λ r. ok (already_finalized r, other)) c.answered
