-- ===== src/Media/Derived/Current.antt =====
-- A ladder is recorded only for the MP4 that viewers get.
use sintade.Prelude.{
  ℕ, ◌≡◌, refl, sym, subst, true, false, ◌⊎◌, inl, inr, List, [], ◌∷◌, ◌++◌, Option, none, some,
  Result, ok, err, map, any, find_sound, find-append, find-update_where, Bool-cases, Option-cases,
  arith, All, All-append, ◌==◌,
}
use sintade.Prelude.Text.{Text, text_eq, text_eq_sound}
use sintade.Media.Storage.{base_of_mp4, hls_prefix_in}
use sintade.Media.Renditions.{
  Rendition, Renditions, StoredRendition, mp4, kind_code, default, is_take_variant, is_slot,
  replaced, upsert_rendition, record_renditions, current_mp4,
}
use sintade.Media.Processing.{MediaJob, World, find_job}
use sintade.Media.Derived.{
  BuildError, Ladder, RungFiles, store_ladder, still_current, record_current, record_made,
  build_under, build_current, build_found, ladder_rows, ladder_events, rung_row, build_hls,
}

-- A row of another kind than the MP4.
abbrev IsBeside : StoredRendition → Type 0
IsBeside s = (kind_code s.kind == kind_code mp4) ≡ false

module _ (now ws rec take_id : ℕ) where
  upsert-current_mp4 :
      (s : StoredRendition) (rows : Renditions) (r : Rendition)
      → IsBeside s
      → current_mp4 ws rec take_id rows ≡ some r
      → current_mp4 ws rec take_id (upsert_rendition now ws rec take_id s rows) ≡ some r
  unfolding current_mp4 upsert_rendition
  upsert-current_mp4 s rows r beside found =
      elim (Bool-cases (any (is_slot rec take_id s.kind s.variant) rows)) [
        | inr e ↦ rw e (find-append (is_take_variant ws rec take_id mp4 default) rows _ r found)
        | inl e ↦
            let mine : is_take_variant ws rec take_id mp4 default r ≡ true =
              find_sound (is_take_variant ws rec take_id mp4 default) rows r found in
            let other : is_slot rec take_id s.kind s.variant r ≡ false = ground arith in
            rw
              (
                e,
                find-update_where (is_take_variant ws rec take_id mp4 default)
                    (is_slot rec take_id s.kind s.variant) (replaced now s) rows (λ x _. refl),
                found,
                other,
              )
              refl
      ]

  record_renditions-current_mp4 :
      (stored : List StoredRendition) (rows : Renditions) (r : Rendition)
      → All IsBeside stored
      → current_mp4 ws rec take_id rows ≡ some r
      → current_mp4 ws rec take_id (record_renditions now ws rec take_id stored rows) ≡ some r
  unfolding record_renditions
  record_renditions-current_mp4 [] rows r h found = found
  record_renditions-current_mp4 (s ∷ stored) rows r h found =
      record_renditions-current_mp4 stored _ r h.1 (upsert-current_mp4 s rows r h.0 found)

-- The rows of a ladder under `base` are recorded, with their event, beside the MP4 of that base.
pub record IsRecorded (now : ℕ) (job : MediaJob) (ladder : Ladder) (before after : World)
    : Type 0 where
  pub current : Rendition
  pub base : Text
  pub is_current :
      current_mp4 job.workspace_id job.recording_id job.take_id after.renditions ≡ some current
  pub is_base : base_of_mp4 current.storage_key ≡ some base
  pub recorded : after ≡ record before {
    renditions =
        record_renditions now job.workspace_id job.recording_id job.take_id
          (ladder_rows base ladder)
          before.renditions;
    outbox = before.outbox ++ ladder_events job ladder;
  }

ladder-IsBeside :
    (prefix : Text) (rungs : List RungFiles) → All IsBeside (map (rung_row prefix) rungs)
ladder-IsBeside prefix [] = tt
ladder-IsBeside prefix (rung ∷ rungs) = (refl, ladder-IsBeside prefix rungs)

store_ladder-IsBeside :
    (prefix : Text) (ladder : Ladder) → All IsBeside (store_ladder prefix ladder)
unfolding store_ladder
store_ladder-IsBeside prefix ladder =
    All-append IsBeside (map (rung_row prefix) ladder.rungs) _ (ladder-IsBeside prefix ladder.rungs)
      (refl, tt)

record_current-IsRecorded :
    (now : ℕ) (job : MediaJob) (key base : Text) (ladder : Ladder) (world : World)
    → base_of_mp4 key ≡ some base
    → let after =
        (record_current now job key (ladder_rows base ladder) (ladder_events job ladder) world).0 in
      (after ≡ world) ⊎ IsRecorded now job ladder world after
unfolding record_current still_current
record_current-IsRecorded now job key base ladder world is_base =
    elim (Option-cases
      (current_mp4 job.workspace_id job.recording_id job.take_id world.renditions)) [
        | inl nothing ↦ rw nothing (inl refl)
        | inr (r, found) ↦ elim (Bool-cases (text_eq r.storage_key key)) [
          | inr e ↦ rw (found, e) (inl refl)
          | inl e ↦
              rw (found, e)
                (inr (record {
                  current = r;
                  base = base;
                  is_current =
                      record_renditions-current_mp4 now job.workspace_id job.recording_id
                        job.take_id (ladder_rows base ladder) world.renditions r
                        (store_ladder-IsBeside (hls_prefix_in base) ladder) found;
                  is_base = rw (text_eq_sound r.storage_key key e) is_base;
                  recorded = refl;
                }))
        ]
      ]

-- What a run leaves: what other calls made of the state in the meantime, or that with the ladder.
abbrev pub IsSafe : (now take_id ws : ℕ) → Result BuildError Ladder → World → World → World → Type 0
IsSafe now take_id ws made start before after =
    (after ≡ before)
    ⊎ ((job : MediaJob) × (ladder : Ladder) × (find_job take_id ws start.media_jobs ≡ some job)
        × (made ≡ ok ladder)
        × IsRecorded now job ladder before after)

module _ (now take_id ws : ℕ) (start : World) (job : MediaJob)
    (its_job : find_job take_id ws start.media_jobs ≡ some job) where
  record_made-IsSafe :
      (key base : Text) (made : Result BuildError Ladder) (before : World)
      → base_of_mp4 key ≡ some base
      → IsSafe now take_id ws made start before
          (record_made ladder_rows ladder_events now job key base made before).0
  record_made-IsSafe key base (err e) before is_base = inl refl
  record_made-IsSafe key base (ok ladder) before is_base =
      elim (record_current-IsRecorded now job key base ladder before is_base) [
        | inl same ↦ inl same
        | inr recorded ↦ inr (job, ladder, its_job, refl, recorded)
      ]

  build_under-IsSafe :
      (key : Text) (base : Option Text) (made : Result BuildError Ladder) (before : World)
      → base_of_mp4 key ≡ base
      → IsSafe now take_id ws made start before
          (build_under ladder_rows ladder_events now job key base made before).0
  build_under-IsSafe key none made before e = inl refl
  build_under-IsSafe key (some base) made before e = record_made-IsSafe key base made before e

  build_current-IsSafe :
      (current : Option Rendition) (made : Result BuildError Ladder) (before : World)
      → IsSafe now take_id ws made start before
          (build_current ladder_rows ladder_events now job current made before).0
  build_current-IsSafe none made before = inl refl
  build_current-IsSafe (some r) made before =
      build_under-IsSafe r.storage_key (base_of_mp4 r.storage_key) made before refl

-- Whatever other calls do while a ladder is made, a run records it only where viewers get the MP4
-- beside which it was stored, and only with that take's job and the ladder that was made; in all
-- other cases it changes none of the tables and sends no event.
pub build_hls-IsSafe :
    (now take_id ws : ℕ) (made : Result BuildError Ladder) (removed : Result BuildError (Unit {0}))
    (meanwhile : World → World) (world : World)
    → IsSafe now take_id ws made world
        (meanwhile world)
        (build_hls now take_id ws made removed meanwhile world).0
unfolding build_hls
build_hls-IsSafe now take_id ws made removed meanwhile world =
    elim (Option-cases (find_job take_id ws world.media_jobs)) [
      | inl missing ↦ rw missing (inl refl)
      | inr (job, found) ↦
          subst
            (λ f.
              IsSafe now take_id ws made world (meanwhile world)
                (build_found ladder_rows ladder_events now f made removed meanwhile world).0)
            (sym found)
            (build_current-IsSafe now take_id ws world job found
              (current_mp4 job.workspace_id job.recording_id job.take_id world.renditions) made
              (meanwhile world))
    ]
