-- ===== src/Ingest/Sweeping/Safety.antt =====
-- What a sweep leaves alone.
use sintade.Prelude.{
  ℕ, ◌-◌, ◌≡◌, refl, ap, ◌∙◌, Bool, true, false, List, [], ◌∷◌, some, if◌then◌else◌, arith, All,
  any, filter, take, delete_where, Bool-cases, inl, inr,
}
use sintade.Prelude.Sort.{sort_by}
use sintade.Prelude.Text.{Text, text_eq, text_eq_sound, starts_with}
use sintade.Ingest.Chunks.{chunk_prefix, chunk_key}
use sintade.Ingest.Chunks.Keys.{ShowsIds, starts_with-chunk_prefix}
use sintade.Ingest.Tables.{
  Take, Chunk, Db, is_take, is_chunk_of, is_idle, same_take, created_before, abandon_idle_takes,
  is_purgeable, purgeable_takes, delete_chunks, head, delete_prefix,
}
use sintade.Ingest.Service.{abandon_after, purge_after, sweep_batch}
use sintade.Ingest.Sweeping.{abandon_idle, purge_take, purge_takes, sweep_stale_uploads}
use sintade.Ingest.Sweeping.Selection.{
  IsFinalizedRow, IsOther, selected-IsOther, idle-open, purgeable-open, marks-keep,
  marks-IsFinalizedRow,
}

-- What is the same in two states for a take: its rows, its receipts and its stored chunks.
pub record KeepsTake (show_id : ℕ → Text) (take_id ws : ℕ) (db db' : Db) : Type 0 where
  pub rows : filter (is_take take_id ws) db'.takes ≡ filter (is_take take_id ws) db.takes
  pub receipts :
      filter (is_chunk_of take_id ws) db'.chunks ≡ filter (is_chunk_of take_id ws) db.chunks
  pub stored :
      (rec idx : ℕ) (mime : Text)
      → head (chunk_key show_id ws rec take_id idx mime) db'.objects
        ≡ head (chunk_key show_id ws rec take_id idx mime) db.objects

filter-delete_where :
    (p q : Chunk → Bool) (cs : List Chunk)
    → ((c : Chunk) → p c ≡ true → q c ≡ false)
    → filter p (delete_where q cs) ≡ filter p cs
filter-delete_where p q [] h = refl
filter-delete_where p q (c ∷ cs) h = elim (Bool-cases (q c)) [
  | inl gone ↦ elim (Bool-cases (p c)) [
    | inl mine ↦ absurd (cc (h c mine))
    | inr other ↦ rw (gone, other) (filter-delete_where p q cs h)
  ]
  | inr kept ↦ elim (Bool-cases (p c)) [
    | inl mine ↦ rw (kept, mine) (ap (λ ds. c ∷ ds) (filter-delete_where p q cs h))
    | inr other ↦ rw (kept, other) (filter-delete_where p q cs h)
  ]
]

head-delete_prefix :
    (prefix key : Text) (objects : List (Text × ℕ))
    → starts_with prefix key ≡ false
    → head key (delete_prefix prefix objects) ≡ head key objects
unfolding head delete_prefix
head-delete_prefix prefix key [] h = refl
head-delete_prefix prefix key ((k, size) ∷ objects) h = elim (Bool-cases (text_eq k key)) [
  | inl same ↦
      rw (text_eq_sound k key same, h)
        (ap (λ o. if text_eq key key then some size else o)
          (head-delete_prefix prefix key objects h))
  | inr other ↦ elim (Bool-cases (starts_with prefix k)) [
    | inl gone ↦ rw (gone, other) (head-delete_prefix prefix key objects h)
    | inr kept ↦ rw (kept, other) (head-delete_prefix prefix key objects h)
  ]
]

module _ (show_id : ℕ → Text) (ids : ShowsIds show_id) (take_id ws : ℕ) where
  KeepsTake-trans :
      (a b c : Db)
      → KeepsTake show_id take_id ws a b
      → KeepsTake show_id take_id ws b c
      → KeepsTake show_id take_id ws a c
  KeepsTake-trans a b c h k = record {
    rows = k.rows ∙ h.rows;
    receipts = k.receipts ∙ h.receipts;
    stored = λ rec idx mime. k.stored rec idx mime ∙ h.stored rec idx mime;
  }

  other_prefix :
      (t : Take) (rec idx : ℕ) (mime : Text)
      → IsOther take_id ws t
      → starts_with
          (chunk_prefix show_id t.workspace_id t.recording_id t.id)
          (chunk_key show_id ws rec take_id idx mime)
        ≡ false
  other_prefix t rec idx mime other =
      elim (Bool-cases (
        starts_with (chunk_prefix show_id t.workspace_id t.recording_id t.id)
          (chunk_key show_id ws rec take_id idx mime))) [
            | inr other_key ↦ other_key
            | inl begins ↦
                let (same_ws, same_rec, same_take) =
                  (starts_with-chunk_prefix show_id ids t.workspace_id t.recording_id t.id ws rec
                      take_id idx mime).0
                    begins in
                absurd (ground arith)
          ]

  purge_take-KeepsTake :
      (t : Take) (db : Db)
      → IsOther take_id ws t
      → KeepsTake show_id take_id ws db (purge_take show_id t db)
  unfolding purge_take delete_chunks
  purge_take-KeepsTake t db other = record {
    rows = refl;
    receipts =
        filter-delete_where (is_chunk_of take_id ws) (is_chunk_of t.id t.workspace_id) db.chunks
          (λ c mine. ground arith);
    stored = λ rec idx mime.
        head-delete_prefix (chunk_prefix show_id t.workspace_id t.recording_id t.id)
          (chunk_key show_id ws rec take_id idx mime) db.objects
          (other_prefix t rec idx mime other);
  }

  purge_takes-KeepsTake :
      (ts : List Take) (db : Db)
      → All (IsOther take_id ws) ts
      → KeepsTake show_id take_id ws db (purge_takes show_id ts db)
  unfolding purge_takes
  purge_takes-KeepsTake [] db h = record {
    rows = refl;
    receipts = refl;
    stored = λ rec idx mime. refl;
  }
  purge_takes-KeepsTake (t ∷ ts) db h =
      KeepsTake-trans db (purge_take show_id t db)
        (purge_takes show_id ts (purge_take show_id t db)) (purge_take-KeepsTake t db h.0)
        (purge_takes-KeepsTake ts (purge_take show_id t db) h.1)

  abandon_idle-KeepsTake :
      (now : ℕ) (db : Db)
      → All (IsFinalizedRow take_id ws) db.takes
      → KeepsTake show_id take_id ws db (abandon_idle now db).1
        × All (IsFinalizedRow take_id ws) (abandon_idle now db).1.takes
  unfolding abandon_idle abandon_idle_takes
  abandon_idle-KeepsTake now db h =
      let idle =
        take sweep_batch
          (sort_by created_before (filter (is_idle (now - abandon_after) db) db.takes)) in
      let others =
        selected-IsOther take_id ws (is_idle (now - abandon_after) db) sweep_batch db.takes
          (idle-open (now - abandon_after) db) h in
      (
        record {
          rows = marks-keep now take_id ws idle db.takes others;
          receipts = refl;
          stored = λ rec idx mime. refl;
        },
        marks-IsFinalizedRow now take_id ws (λ t. any (same_take t) idle) db.takes h,
      )

  -- A sweep, at whatever time, leaves every finalized take alone: its row is not marked, none of
  -- its receipts is deleted, and each of its stored chunks is still stored with the same size.
  pub sweep-KeepsTake :
      (now : ℕ) (db : Db)
      → All (IsFinalizedRow take_id ws) db.takes
      → KeepsTake show_id take_id ws db (sweep_stale_uploads show_id now db).1
  unfolding sweep_stale_uploads purgeable_takes
  sweep-KeepsTake now db h =
      let db' = (abandon_idle now db).1 in
      let (kept, rows) = abandon_idle-KeepsTake now db h in
      let expired = purgeable_takes (now - purge_after) sweep_batch db' in
      KeepsTake-trans db db' (purge_takes show_id expired db') kept (
        purge_takes-KeepsTake expired db' (
          selected-IsOther take_id ws (is_purgeable (now - purge_after) db') sweep_batch db'.takes
            (purgeable-open (now - purge_after) db') rows))
