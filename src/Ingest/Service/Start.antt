-- ===== src/Ingest/Service/Start.antt =====
-- Starting a recording: `IngestService::start_recording`.
use sintade.Prelude.{
  ℕ, ◌+◌, ◌≤◌, ◌<◌, ◌≡◌, subst, refl, ap, ◌∙◌, Bool, true, false, ◌&&◌, List, [], ◌∷◌, ◌++◌, some,
  ◌==◌, if◌then◌else◌, arith, any, find, count_where, ok, Result-cases, Bool-cases, inl, inr,
}
use sintade.Prelude.Text.{Text}
use sintade.Catalog.Recordings.{
  Recording, Recordings, insert_recording, count_active_recordings, is_kept, is_none,
}
use sintade.Catalog.Titles.{parse_title}
use sintade.Ingest.Chunks.{parse_mime}
use sintade.Ingest.Tables.{
  Take, Db, is_take, belongs_to, uploadable, find_take_for_owner, insert_take,
}
use sintade.Ingest.Service.{
  free_tier, StartRecording, StartedRecording, started_rows, start_recording,
}

count_where-append :
    {A : Type 0} (p : A → Bool) (xs ys : List A)
    → count_where p (xs ++ ys) ≡ count_where p xs + count_where p ys
count_where-append p [] ys = omega arith
count_where-append p (x ∷ xs) ys = ground (arith, count_where-append p xs ys)

one_slot : (b : Bool) → ◌≡◌ {A = ℕ} (if b && true && true then 1 else 0) (if b then 1 else 0)
one_slot true = refl
one_slot false = refl

-- A new recording takes a slot of its workspace, and of no other.
count_active-insert_recording :
    (ws now id workspace owner : ℕ) (title : Text) (take_id : ℕ) (rows : Recordings)
    → count_active_recordings ws (insert_recording now id workspace owner title take_id rows)
      ≡ count_active_recordings ws rows + (if workspace == ws then 1 else 0)
unfolding count_active_recordings insert_recording
count_active-insert_recording ws now id workspace owner title take_id rows =
    count_where-append
      (λ (r : Recording). r.workspace_id == ws && is_kept r.state && is_none r.trashed_at) rows _
    ∙ ap
        (λ n.
          count_where
            (λ (r : Recording). r.workspace_id == ws && is_kept r.state && is_none r.trashed_at)
            rows
          + n)
        (one_slot (workspace == ws))

find-append_fresh :
    (p q : Take → Bool) (xs : List Take) (t : Take)
    → any p xs ≡ false
    → p t ≡ true
    → q t ≡ true
    → find (λ x. p x && q x) (xs ++ t ∷ []) ≡ some t
find-append_fresh p q [] t f k l = rw (k, l) refl
find-append_fresh p q (x ∷ xs) t f k l =
    let here : (p x && q x) ≡ false = ground arith in
    rw here (find-append_fresh p q xs t (ground arith) k l)

any-snoc :
    (p : Recording → Bool) (rows : Recordings) (r : Recording)
    → p r ≡ true
    → any p (rows ++ r ∷ []) ≡ true
any-snoc p [] r h = rw h refl
any-snoc p (x ∷ rows) r h = ground (arith, any-snoc p rows r h)

-- What a start has done.
pub record Started (now recording_id take_id : ℕ) (request : StartRecording) (db : Db)
    (answer : StartedRecording) (db' : Db) : Type 0 where
  pub title : Text
  pub mime : Text
  pub titled : parse_title request.title ≡ ok title
  pub typed : parse_mime request.mime_type ≡ ok mime
  pub had_room :
      count_active_recordings request.workspace_id db.recordings < free_tier.max_recordings
  pub answered : answer ≡ record {
    recording_id = recording_id;
    take_id = take_id;
    max_duration_ms = free_tier.max_duration_ms;
  }
  pub left : db' ≡ started_rows now recording_id take_id title mime request db

start_recording-Started :
    (now recording_id take_id : ℕ) (request : StartRecording) (db : Db) (answer : StartedRecording)
    (db' : Db)
    → start_recording now recording_id take_id request db ≡ ok (answer, db')
    → Started now recording_id take_id request db answer db'
unfolding start_recording
start_recording-Started now recording_id take_id request db answer db' h =
    elim (Result-cases (parse_title request.title)) [
      | inr (e, bad) ↦ absurd (ground arith)
      | inl (title, titled) ↦ elim (Result-cases (parse_mime request.mime_type)) [
        | inr (e, bad) ↦ absurd (ground arith)
        | inl (mime, typed) ↦ record {
          title = title;
          mime = mime;
          titled = titled;
          typed = typed;
          had_room = ground arith;
          answered = ground arith;
          left = ground arith;
        }
      ]
    ]

count_active-started_rows :
    (ws now recording_id take_id : ℕ) (title mime : Text) (request : StartRecording) (db : Db)
    → count_active_recordings ws
        (started_rows now recording_id take_id title mime request db).recordings
      ≡ count_active_recordings ws db.recordings + (if request.workspace_id == ws then 1 else 0)
unfolding insert_take
count_active-started_rows ws now recording_id take_id title mime request db =
    count_active-insert_recording ws now recording_id request.workspace_id request.owner_id title
      take_id db.recordings

-- A start never takes a workspace over the limit of its plan: if no more recordings than the limit
-- were active, no more are after it. It takes one slot of the workspace that starts.
pub count_active-start_recording :
    (ws now recording_id take_id : ℕ) (request : StartRecording) (db : Db)
    (answer : StartedRecording) (db' : Db)
    → count_active_recordings ws db.recordings ≤ free_tier.max_recordings
    → start_recording now recording_id take_id request db ≡ ok (answer, db')
    → (count_active_recordings ws db'.recordings ≤ free_tier.max_recordings)
      × (count_active_recordings ws db'.recordings
          ≡ count_active_recordings ws db.recordings
            + (if request.workspace_id == ws then 1 else 0))
count_active-start_recording ws now recording_id take_id request db answer db' room h =
    let s = start_recording-Started now recording_id take_id request db answer db' h in
    let rows = count_active-started_rows ws now recording_id take_id s.title s.mime request db in
    let after : count_active_recordings ws db'.recordings
        ≡ count_active_recordings ws db.recordings + (if request.workspace_id == ws then 1 else 0) =
      ap (λ d. count_active_recordings ws d.recordings) s.left ∙ rows in
    elim (Bool-cases (request.workspace_id == ws)) [
      | inl same ↦
          let e : request.workspace_id ≡ ws = ground arith in
          let had_room : count_active_recordings ws db.recordings < 50 =
            subst (λ w. count_active_recordings w db.recordings < 50) e s.had_room in
          let grown : count_active_recordings ws db'.recordings
              ≡ count_active_recordings ws db.recordings + 1 =
            rw same at after in
          (omega arith, after)
      | inr other ↦
          let kept : count_active_recordings ws db'.recordings
              ≡ count_active_recordings ws db.recordings + 0 =
            rw other at after in
          (omega arith, after)
    ]

take_found :
    (now recording_id take_id : ℕ) (title mime : Text) (request : StartRecording) (db : Db)
    → any (is_take take_id request.workspace_id) db.takes ≡ false
    → find_take_for_owner take_id request.workspace_id request.owner_id
        (started_rows now recording_id take_id title mime request db)
      ≡ some (record { recording_id = recording_id; mime_type = mime; finalized = false })
unfolding find_take_for_owner insert_take insert_recording
take_found now recording_id take_id title mime request db unused =
    let rows = (started_rows now recording_id take_id title mime request db).recordings in
    ap uploadable (
      find-append_fresh (is_take take_id request.workspace_id) (belongs_to request.owner_id rows)
        db.takes _ unused (ground arith)
        (any-snoc
          (λ r.
            r.id == recording_id
            && r.workspace_id == request.workspace_id
            && r.owner_id == request.owner_id)
          db.recordings _ (ground arith)))

-- After a start with a take id that is not in use, the owner's calls find the take: open, of the
-- new recording, with the MIME type as it was parsed.
pub find_take_for_owner-start_recording :
    (now recording_id take_id : ℕ) (request : StartRecording) (db : Db) (answer : StartedRecording)
    (db' : Db)
    → any (is_take take_id request.workspace_id) db.takes ≡ false
    → start_recording now recording_id take_id request db ≡ ok (answer, db')
    → (mime : Text) × (parse_mime request.mime_type ≡ ok mime)
      × (find_take_for_owner answer.take_id request.workspace_id request.owner_id db'
          ≡ some
              (record { recording_id = answer.recording_id; mime_type = mime; finalized = false }))
find_take_for_owner-start_recording now recording_id take_id request db answer db' unused h =
    let s = start_recording-Started now recording_id take_id request db answer db' h in
    (
      s.mime,
      s.typed,
      rw (s.answered, s.left)
          (take_found now recording_id take_id s.title s.mime request db unused),
    )
