-- ===== src/Catalog/Manage/Purged.antt =====
-- What a purge leaves alone.
use sintade.Prelude.{
  ℕ, suc, zero, ◌-◌, ◌≡◌, refl, sym, ap, ◌∙◌, Bool, true, false, List, [], ◌∷◌, ◌++◌, map, take,
  ◌==◌, filter, delete_where, count_where, All, All-map, All-filter_passed, Bool-cases, inl, inr,
  arith, append_assoc,
}
use sintade.Prelude.Sort.{All-sort_by}
use sintade.Prelude.Text.{
  Text, codes, text_eq, text_eq_sound, starts_with, starts_with-split, append-injective,
}
use sintade.Catalog.Recordings.{
  Recording, Recordings, is_before, trashed_before, trashed_row, delete_trashed,
}
use sintade.Ingest.Chunks.Keys.{ShowsIds}
use sintade.Catalog.Manage.{
  ChapterRow, Archive, PurgeReport, recording_prefix, purge_one, purge_all, purge_due,
  trash_retention, purge_batch,
}

-- A deletion of other rows leaves a selection as it is.
filter-delete_where :
    {A : Type 0} (q p : A → Bool) (xs : List A)
    → ((x : A) → q x ≡ true → p x ≡ false)
    → filter q (delete_where p xs) ≡ filter q xs
filter-delete_where q p [] apart = refl
filter-delete_where q p (x ∷ xs) apart = elim (Bool-cases (q x)) [
  | inl e ↦ rw (e, apart x e) (rw e (ap (λ ys. x ∷ ys) (filter-delete_where q p xs apart)))
  | inr e ↦ elim (Bool-cases (p x)) [
    | inl k ↦ rw (e, k) (filter-delete_where q p xs apart)
    | inr k ↦ rw (e, k) (rw e (filter-delete_where q p xs apart))
  ]
]

All-take : {A : Type 0} (P : A → Type 0) (n : ℕ) (xs : List A) → All P xs → All P (take n xs)
All-take P zero xs h = tt
All-take P (suc n) [] h = tt
All-take P (suc n) (x ∷ xs) h = (h.0, All-take P n xs h.1)

All-of_map :
    {A B : Type 0} (P : B → Type 0) (f : A → B) (xs : List A)
    → All (λ x. P (f x)) xs
    → All P (map f xs)
All-of_map P f [] h = tt
All-of_map P f (x ∷ xs) h = (h.0, All-of_map P f xs h.1)

-- No row of the recording was in the trash before the cutoff.
abbrev pub IsNotDue : (cutoff id : ℕ) → Recordings → Type 0
IsNotDue cutoff id =
    All λ (r : Recording). (r.id == id) ≡ true → is_before cutoff r.trashed_at ≡ false

abbrev IsOther : ℕ → ℕ × ℕ → Type 0
IsOther id t = (t.0 == id) ≡ false

trashed_before-IsOther :
    (cutoff limit id : ℕ) (rows : Recordings)
    → IsNotDue cutoff id rows
    → All (IsOther id) (trashed_before cutoff limit rows)
unfolding trashed_before
trashed_before-IsOther cutoff limit id rows h = All-of_map (IsOther id) _ _ (
    All-take NotIt limit _ (
      All-sort_by _ NotIt _ (
        All-map _ NotIt other _ (
          All-filter_passed (λ (r : Recording). is_before cutoff r.trashed_at)
            (λ (r : Recording). (r.id == id) ≡ true → is_before cutoff r.trashed_at ≡ false) rows
            h))))
  where
    NotIt : Recording → Type 0
    NotIt r = (r.id == id) ≡ false

    other :
        (r : Recording)
        → ((r.id == id) ≡ true → is_before cutoff r.trashed_at ≡ false)
          × (is_before cutoff r.trashed_at ≡ true)
        → (r.id == id) ≡ false
    other r (not_yet, due) = elim (Bool-cases (r.id == id)) [
      | inl e ↦ absurd (both (not_yet e) due)
      | inr e ↦ e
    ]
      where
        both : {b : Bool} → b ≡ false → b ≡ true → ⊥
        both p q = cc

-- The rows, the chapters and an object of a recording are as before.
pub record Keeps (id : ℕ) (key : Text) (before after : Archive) : Type 0 where
  pub row :
      filter (λ (r : Recording). r.id == id) after.recordings
      ≡ filter (λ (r : Recording). r.id == id) before.recordings
  pub its_chapters :
      filter (λ (c : ChapterRow). c.recording_id == id) after.chapters
      ≡ filter (λ (c : ChapterRow). c.recording_id == id) before.chapters
  pub object : filter (text_eq key) after.objects ≡ filter (text_eq key) before.objects

module _ (show_id : ℕ → Text) (ids : ShowsIds show_id) where
  prefix-append :
      (ws id : ℕ) (x : Text)
      → recording_prefix show_id ws id ++ x
        ≡ codes "ws/" ++ (show_id ws ++ (codes "/rec/" ++ (show_id id ++ (codes "/" ++ x))))
  prefix-append ws id x =
      ap (λ z. codes "ws/" ++ z)
        (append_assoc (show_id ws) (codes "/rec/" ++ (show_id id ++ codes "/")) x
          ∙ ap (λ z. show_id ws ++ (codes "/rec/" ++ z)) (append_assoc (show_id id) (codes "/") x))

  prefix-injective :
      (ws id ws' id' : ℕ) (x y : Text)
      → recording_prefix show_id ws id ++ x ≡ recording_prefix show_id ws' id' ++ y
      → id ≡ id'
  prefix-injective ws id ws' id' x y h =
      let h' = sym (prefix-append ws id x) ∙ h ∙ prefix-append ws' id' y in
      let (_, after_ws) =
        append-injective (codes "ws/" ++ show_id ws) (codes "ws/" ++ show_id ws') _ _
          (rw (ids.long ws, ids.long ws') refl) h' in
      let (same, _) =
        append-injective (codes "/rec/" ++ show_id id) (codes "/rec/" ++ show_id id') _ _
          (rw (ids.long id, ids.long id') refl) after_ws in
      ids.injective id id' (append-injective (codes "/rec/") (codes "/rec/") _ _ refl same).1

  other_prefix :
      (ws id ws' id' : ℕ) (file : Text)
      → (id' == id) ≡ false
      → starts_with (recording_prefix show_id ws' id') (recording_prefix show_id ws id ++ file)
        ≡ false
  other_prefix ws id ws' id' file differ =
      elim (Bool-cases
        (starts_with (recording_prefix show_id ws' id') (recording_prefix show_id ws id ++ file))) [
          | inr e ↦ e
          | inl e ↦
              let (rest, split) =
                starts_with-split (recording_prefix show_id ws' id')
                  (recording_prefix show_id ws id ++ file) e in
              let same : id ≡ id' = prefix-injective ws id ws' id' file rest split in
              absurd (ground arith)
        ]

  purge_one-Keeps :
      (ws id ws' id' : ℕ) (file : Text) (report : PurgeReport) (archive : Archive)
      → (id' == id) ≡ false
      → Keeps id
          (recording_prefix show_id ws id ++ file)
          archive
          (purge_one show_id (id', ws') report archive).1
  unfolding purge_one delete_trashed
  purge_one-Keeps ws id ws' id' file report archive differ =
      elim (Bool-cases (count_where (trashed_row id' ws') archive.recordings == 1)) [
        | inl e ↦ rw e (record {
          row =
              filter-delete_where (λ (r : Recording). r.id == id) (trashed_row id' ws')
                archive.recordings (λ r h. ground arith);
          its_chapters =
              filter-delete_where (λ (c : ChapterRow). c.recording_id == id)
                (λ (c : ChapterRow). c.recording_id == id') archive.chapters (λ c h. ground arith);
          object = objects;
        })
        | inr e ↦ rw e (record { row = refl; its_chapters = refl; object = objects })
      ]
    where
      key : Text
      key = recording_prefix show_id ws id ++ file

      objects :
          filter
            (text_eq key)
            (delete_where (starts_with (recording_prefix show_id ws' id')) archive.objects)
          ≡ filter (text_eq key) archive.objects
      objects =
          filter-delete_where (text_eq key) (starts_with (recording_prefix show_id ws' id'))
            archive.objects
            (λ x h. rw (← text_eq_sound key x h) (other_prefix ws id ws' id' file differ))

  purge_all-Keeps :
      (ws id : ℕ) (file : Text) (targets : List (ℕ × ℕ)) (report : PurgeReport) (archive : Archive)
      → All (IsOther id) targets
      → Keeps id
          (recording_prefix show_id ws id ++ file)
          archive
          (purge_all show_id targets report archive).1
  unfolding purge_all
  purge_all-Keeps ws id file [] report archive h = record {
    row = refl;
    its_chapters = refl;
    object = refl;
  }
  purge_all-Keeps ws id file ((id', ws') ∷ targets) report archive h =
      let one = purge_one-Keeps ws id ws' id' file report archive h.0 in
      let rest =
        purge_all-Keeps ws id file targets _ (purge_one show_id (id', ws') report archive).1 h.1 in
      record {
        row = rest.row ∙ one.row;
        its_chapters = rest.its_chapters ∙ one.its_chapters;
        object = rest.object ∙ one.object;
      }

  -- A purge leaves a recording that did not get into the trash more than 30 days ago as it is: its
  -- row, its chapters, and each object under its prefix.
  pub purge_due-Keeps :
      (now ws id : ℕ) (file : Text) (archive : Archive)
      → IsNotDue (now - trash_retention) id archive.recordings
      → Keeps id (recording_prefix show_id ws id ++ file) archive (purge_due show_id now archive).1
  unfolding purge_due
  purge_due-Keeps now ws id file archive not_due =
      purge_all-Keeps ws id file _ _ archive
        (trashed_before-IsOther (now - trash_retention) purge_batch id archive.recordings not_due)
