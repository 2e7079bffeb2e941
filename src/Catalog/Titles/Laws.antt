-- ===== src/Catalog/Titles/Laws.antt =====
-- Titles: `Title::parse`.
use sintade.Prelude.{
  ◌≤◌, ◌<◌, ◌≡◌, subst, refl, sym, ap, ◌∙◌, false, [], ◌∷◌, Option, some, ltb, arith, length, any,
  ok, Bool-cases, inl, inr,
}
use sintade.Prelude.Text.{Text, is_control, trim}
use sintade.Prelude.Trim.{trim-again}
use sintade.Catalog.Titles.{max_title_chars, default_title, text_or_empty, is_blank, parse_title}

-- What a parsed title is.
pub record IsTitle (title : Text) : Type 0 where
  pub some_chars : 0 < length title
  pub short : length title ≤ max_title_chars
  pub printable : any is_control title ≡ false
  pub trimmed : trim title ≡ title

default_title-IsTitle : IsTitle default_title
unfolding trim is_control
default_title-IsTitle = record {
  some_chars = omega arith;
  short = omega arith;
  printable = refl;
  trimmed = refl;
}

nonblank : (title : Text) → is_blank title ≡ false → 0 < length title
nonblank [] h = cc
nonblank (c ∷ cs) h = omega arith

blank_not : (title : Text) → 0 < length title → is_blank title ≡ false
blank_not [] h = absurd (omega arith)
blank_not (c ∷ cs) h = refl

-- Whatever `parse` accepts becomes a title: trimmed, of 1 to 200 characters, none of them a control
-- character; a missing or blank text becomes the default title.
pub parse_title-IsTitle :
    (raw : Option Text) (title : Text) → parse_title raw ≡ ok title → IsTitle title
unfolding parse_title
parse_title-IsTitle raw title h = elim (Bool-cases (is_blank (trim (text_or_empty raw)))) [
  | inl blank ↦
      (let same : default_title ≡ title = ground arith in subst IsTitle same default_title-IsTitle)
  | inr text ↦
      let same : trim (text_or_empty raw) ≡ title = ground arith in
      record {
        some_chars = nonblank title (ap is_blank (sym same) ∙ text);
        short = rw (← same) (ground arith);
        printable = rw (← same) (ground arith);
        trimmed = ap trim (sym same) ∙ trim-again (text_or_empty raw) ∙ same;
      }
]

-- A title parses to itself.
pub parse_title-again : (title : Text) → IsTitle title → parse_title (some title) ≡ ok title
unfolding parse_title
parse_title-again title t =
    rw (t.trimmed, blank_not title t.some_chars, t.printable)
      (let long : ltb max_title_chars (length title) ≡ false = ground (arith, t.short) in
        rw long refl)
