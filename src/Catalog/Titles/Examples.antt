-- ===== src/Catalog/Titles/Examples.antt =====
-- Titles and chapter lists at concrete texts.
use sintade.Prelude.{any, false, ℕ, ◌≤◌, ◌≡◌, refl, List, [], ◌∷◌, none, some, ok, err, arith}
use sintade.Prelude.Text.{codes, trim, is_control}
use sintade.Catalog.Titles.{
  default_title, TitleError, parse_title, Chapter, duplicate_start, past_the_end, parse_chapters,
  check_chapters, check_chapter,
}
use sintade.Catalog.Titles.Laws.{IsTitle}
use sintade.Catalog.Titles.Chapters.{IsChapterList, IsChapter}
use sintade.Prelude.Sort.{sort_by}

padded_title : parse_title (some (codes "  Weekly demo ")) ≡ ok (codes "Weekly demo")
unfolding parse_title trim is_control
padded_title = refl

no_title : parse_title none ≡ ok default_title
unfolding parse_title trim
no_title = refl

bell_inside : parse_title (some (65 ∷ 7 ∷ 65 ∷ [])) ≡ err TitleError.control_characters
unfolding parse_title trim is_control
bell_inside = refl

abbrev chapter : ℕ → Chapter
chapter start = record { start_ms = start; title = codes "Part" }

abbrev chapter_list : List Chapter
chapter_list = chapter 0 ∷ chapter 900 ∷ []

sorted_chapters : parse_chapters (chapter 900 ∷ chapter 0 ∷ []) (some 1000) ≡ ok chapter_list
unfolding parse_chapters check_chapters check_chapter trim is_control sort_by
sorted_chapters = refl

twice : parse_chapters (chapter 5 ∷ chapter 0 ∷ chapter 5 ∷ []) none ≡ err duplicate_start
unfolding parse_chapters check_chapters check_chapter trim is_control sort_by
twice = refl

too_late : parse_chapters (chapter 1001 ∷ []) (some 1000) ≡ err past_the_end
unfolding parse_chapters check_chapters check_chapter trim is_control
too_late = refl

no_control : any is_control (codes "Weekly demo") ≡ false
unfolding is_control
no_control = refl

is_trimmed : trim (codes "Weekly demo") ≡ codes "Weekly demo"
unfolding trim
is_trimmed = refl

part_printable : any is_control (codes "Part") ≡ false
unfolding is_control
part_printable = refl

part_trimmed : trim (codes "Part") ≡ codes "Part"
unfolding trim
part_trimmed = refl

demo-IsTitle : IsTitle (codes "Weekly demo")
demo-IsTitle = record {
  some_chars = omega arith;
  short = omega arith;
  printable = no_control;
  trimmed = is_trimmed;
}

part-IsChapter : (start : ℕ) → start ≤ 1000 → IsChapter (some 1000) (chapter start)
part-IsChapter start h = record {
  some_chars = omega arith;
  short = omega arith;
  printable = part_printable;
  trimmed = part_trimmed;
  inside = ground arith;
}

chapter_list-IsChapterList : IsChapterList (some 1000) chapter_list
chapter_list-IsChapterList = record {
  few = omega arith;
  each = (part-IsChapter 0 (omega arith), (part-IsChapter 900 (omega arith), tt));
  ascending = ((omega arith, tt), (tt, tt));
}
