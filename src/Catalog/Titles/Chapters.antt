-- ===== src/Catalog/Titles/Chapters.antt =====
-- Chapter lists: `ChapterList::parse`.
use sintade.Prelude.{
  ℕ, suc, ◌≤◌, ◌<◌, ◌≡◌, subst, refl, ap, ◌∙◌, false, ◌||◌, List, [], ◌∷◌, Option, ltb, ◌==◌, arith,
  All, All-map, length, any, ok, bind-ok, Result-cases, inl, inr,
}
use sintade.Prelude.Sort.{
  ByKey, IsSorted, sort_by, sort_by-IsSorted, sort_by-sorted, All-sort_by, length-sort_by,
}
use sintade.Prelude.Text.{is_control, trim}
use sintade.Prelude.Trim.{trim-again}
use sintade.Catalog.Titles.{
  max_chapters, max_chapter_title_chars, Chapter, is_past, check_chapter, check_chapters,
  any_equal_neighbours, start_before, parse_chapters,
}

pub record IsChapter (duration : Option ℕ) (c : Chapter) : Type 0 where
  pub some_chars : 0 < length c.title
  pub short : length c.title ≤ max_chapter_title_chars
  pub printable : any is_control c.title ≡ false
  pub trimmed : trim c.title ≡ c.title
  pub inside : is_past c.start_ms duration ≡ false

abbrev pub start_of : Chapter → ℕ
start_of c = c.start_ms

-- Each chapter starts after the one in front of it.
abbrev pub Ascending : List Chapter → Type 0
Ascending [] = Unit
Ascending (c ∷ cs) = All (λ d. c.start_ms < d.start_ms) cs × Ascending cs

pub record IsChapterList (duration : Option ℕ) (chapters : List Chapter) : Type 0 where
  pub few : length chapters ≤ max_chapters
  pub each : All (IsChapter duration) chapters
  pub ascending : Ascending chapters

check_chapter-IsChapter :
    (duration : Option ℕ) (c d : Chapter) → check_chapter duration c ≡ ok d → IsChapter duration d
unfolding check_chapter
check_chapter-IsChapter duration c d h =
    let same : record { start_ms = c.start_ms; title = trim c.title } ≡ d = ground arith in
    subst (IsChapter duration) same (record {
      some_chars = ground arith;
      short = ground arith;
      printable = ground arith;
      trimmed = trim-again c.title;
      inside = ground arith;
    })

check_chapter-again :
    (duration : Option ℕ) (c : Chapter) → IsChapter duration c → check_chapter duration c ≡ ok c
unfolding check_chapter
check_chapter-again duration c i =
    let bounded : (length c.title == 0 || ltb max_chapter_title_chars (length c.title)) ≡ false =
      ground (arith, i.some_chars, i.short) in
    rw (i.trimmed, bounded, i.printable, i.inside) refl

check_chapters-IsChapter :
    (duration : Option ℕ) (raw chapters : List Chapter)
    → check_chapters duration raw ≡ ok chapters
    → All (IsChapter duration) chapters × (length chapters ≡ length raw)
unfolding check_chapters
check_chapters-IsChapter duration [] chapters h =
    let e : ◌≡◌ {A = List Chapter} [] chapters = cc in
    subst (λ cs. All (IsChapter duration) cs × (length cs ≡ 0)) e (tt, refl)
check_chapters-IsChapter duration (c ∷ raw) chapters h =
    let (first, h', e) = bind-ok (check_chapter duration c) _ h in
    let (later, h'', f) = bind-ok (check_chapters duration raw) _ h' in
    let (all, same_length) = check_chapters-IsChapter duration raw later f in
    let e' : first ∷ later ≡ chapters = cc in
    subst (λ cs. All (IsChapter duration) cs × (length cs ≡ suc (length raw))) e'
      ((check_chapter-IsChapter duration c first e, all), ap suc same_length)

check_chapters-again :
    (duration : Option ℕ) (chapters : List Chapter)
    → All (IsChapter duration) chapters
    → check_chapters duration chapters ≡ ok chapters
unfolding check_chapters
check_chapters-again duration [] h = refl
check_chapters-again duration (c ∷ cs) h =
    rw (check_chapter-again duration c h.0, check_chapters-again duration cs h.1) refl

-- In a sorted list without equal neighbours no two starts are equal.
Ascending-of_sorted :
    (cs : List Chapter) → IsSorted start_of cs → any_equal_neighbours cs ≡ false → Ascending cs
Ascending-of_sorted [] s h = tt
Ascending-of_sorted (c ∷ []) s h = (tt, tt)
Ascending-of_sorted (c ∷ d ∷ cs) s h =
    let later : d.start_ms ≤ d.start_ms = omega arith in
    let gap : c.start_ms < d.start_ms = ground (arith, s.0.0) in
    (
      (
        gap,
        All-map (λ x. d.start_ms ≤ x.start_ms) (λ x. c.start_ms < x.start_ms) (λ x k. omega arith)
            cs s.1.0,
      ),
      Ascending-of_sorted (d ∷ cs) s.1 (ground arith),
    )

IsSorted-of_Ascending : (cs : List Chapter) → Ascending cs → IsSorted start_of cs
IsSorted-of_Ascending [] h = tt
IsSorted-of_Ascending (c ∷ cs) h = (
  All-map (λ x. c.start_ms < x.start_ms) (λ x. c.start_ms ≤ x.start_ms) (λ x k. omega arith) cs h.0,
  IsSorted-of_Ascending cs h.1,
)

no_equal_neighbours : (cs : List Chapter) → Ascending cs → any_equal_neighbours cs ≡ false
no_equal_neighbours [] h = refl
no_equal_neighbours (c ∷ []) h = refl
no_equal_neighbours (c ∷ d ∷ cs) h =
    let gap : c.start_ms < d.start_ms = h.0.0 in
    let rest = no_equal_neighbours (d ∷ cs) h.1 in ground (arith, rest)

start_before-ByKey : ByKey start_before start_of
start_before-ByKey = record { smaller = λ x y h. ground arith; larger = λ x y h. ground arith }

-- Whatever `parse` accepts becomes at most 100 chapters, one for each that was given, in strictly
-- increasing order of their starts, none past the end of the recording, each with a trimmed title
-- of 1 to 120 characters and no control character.
pub parse_chapters-IsChapterList :
    (raw : List Chapter) (duration : Option ℕ) (chapters : List Chapter)
    → parse_chapters raw duration ≡ ok chapters
    → IsChapterList duration chapters × (length chapters ≡ length raw)
unfolding parse_chapters
parse_chapters-IsChapterList raw duration chapters h =
    elim (Result-cases (check_chapters duration raw)) [
      | inr (e, bad) ↦ absurd (ground arith)
      | inl (checked, e) ↦
          let few : length raw ≤ max_chapters = ground arith in
          let distinct : any_equal_neighbours (sort_by start_before checked) ≡ false =
            ground arith in
          let same : sort_by start_before checked ≡ chapters = ground arith in
          let (all, same_length) = check_chapters-IsChapter duration raw checked e in
          let long = length-sort_by start_before checked in
          subst (λ cs. IsChapterList duration cs × (length cs ≡ length raw)) same
            (
              record {
                few = omega arith;
                each = All-sort_by start_before (IsChapter duration) checked all;
                ascending =
                    Ascending-of_sorted (sort_by start_before checked)
                      (sort_by-IsSorted start_before start_of start_before-ByKey checked) distinct;
              },
              long ∙ same_length,
            )
    ]

-- A chapter list parses to itself, so what is stored can be sent back unchanged.
pub parse_chapters-again :
    (duration : Option ℕ) (chapters : List Chapter)
    → IsChapterList duration chapters
    → parse_chapters chapters duration ≡ ok chapters
unfolding parse_chapters
parse_chapters-again duration chapters i =
    let short : ltb max_chapters (length chapters) ≡ false = ground (arith, i.few) in
    rw
      (
        short,
        check_chapters-again duration chapters i.each,
        sort_by-sorted start_before start_of (λ x y k. ground arith) chapters
            (IsSorted-of_Ascending chapters i.ascending),
        no_equal_neighbours chapters i.ascending,
      )
      refl
