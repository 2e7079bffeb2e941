-- ===== src/Catalog/Titles.antt =====
-- Titles and chapters (crates/catalog/src/domain/mod.rs and chapters.rs).
pub mod Laws
pub mod Chapters
mod Examples
use sintade.Prelude.{
  ℕ, Bool, true, false, ◌&&◌, ◌||◌, List, [], ◌∷◌, Option, none, some, ltb, leb, ◌==◌,
  if◌then◌else◌, length, any, Result, ok, err, ◌>>=◌, ◌>>◌, fail_if, map_ok,
}
use sintade.Prelude.Sort.{sort_by}
use sintade.Prelude.Text.{Text, codes, is_control, trim}

abbrev pub max_title_chars : ℕ
max_title_chars = 200

abbrev pub default_title : Text
default_title = codes "Untitled recording"

pub data TitleError : Type 0 where
  too_long control_characters : TitleError

abbrev pub text_or_empty : Option Text → Text
text_or_empty none = []
text_or_empty (some text) = text

abbrev pub is_blank : Text → Bool
is_blank [] = true
is_blank (_ ∷ _) = false

-- `Title::parse`; a title is its text. Trimming a missing text leaves the empty one.
unfoldable pub parse_title : Option Text → Result TitleError Text
parse_title raw =
    let trimmed = trim (text_or_empty raw) in
    if is_blank trimmed
    then ok default_title
    else if ltb max_title_chars (length trimmed)
    then err too_long
    else if any is_control trimmed
    then err control_characters
    else ok trimmed

abbrev pub max_chapters : ℕ
max_chapters = 100

abbrev pub max_chapter_title_chars : ℕ
max_chapter_title_chars = 120

pub data ChapterError : Type 0 where
  too_many bad_title control_characters duplicate_start past_the_end : ChapterError

pub record Chapter : Type 0 where
  pub start_ms : ℕ
  pub title : Text

-- `duration_ms.is_some_and(|end| start > end)`.
abbrev pub is_past : ℕ → Option ℕ → Bool
is_past start none = false
is_past start (some end) = ltb end start

-- The checks of one chapter, and the chapter with its title trimmed.
unfoldable pub check_chapter : Option ℕ → Chapter → Result ChapterError Chapter
check_chapter duration chapter = do
  let title = trim chapter.title
  fail_if (length title == 0 || ltb max_chapter_title_chars (length title)) bad_title
  fail_if (any is_control title) control_characters
  fail_if (is_past chapter.start_ms duration) past_the_end
  ok (record { start_ms = chapter.start_ms; title = title })

unfoldable pub check_chapters : Option ℕ → List Chapter → Result ChapterError (List Chapter)
check_chapters duration [] = ok []
check_chapters duration (chapter ∷ rest) = do
  first ← check_chapter duration chapter
  later ← check_chapters duration rest
  ok (first ∷ later)

-- `windows(2).any(...)`.
abbrev pub any_equal_neighbours : List Chapter → Bool
any_equal_neighbours [] = false
any_equal_neighbours (a ∷ []) = false
any_equal_neighbours (a ∷ b ∷ rest) = a.start_ms == b.start_ms || any_equal_neighbours (b ∷ rest)

abbrev pub start_before : Chapter → Chapter → Bool
start_before a b = ltb a.start_ms b.start_ms

-- `ChapterList::parse`; a chapter list is its chapters.
unfoldable pub parse_chapters : List Chapter → Option ℕ → Result ChapterError (List Chapter)
parse_chapters raw duration = do
  fail_if (ltb max_chapters (length raw)) too_many
  checked ← check_chapters duration raw
  let chapters = sort_by start_before checked
  fail_if (any_equal_neighbours chapters) duplicate_start
  ok chapters
