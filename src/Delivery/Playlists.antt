-- ===== src/Delivery/Playlists.antt =====
-- The playlists that a viewer is given (crates/delivery/src/hls.rs). A map of signed URLs is a
-- function from file names.
mod Examples
use sintade.Prelude.{
  ℕ, Bool, true, false, not, ◌&&◌, ◌||◌, List, [], ◌∷◌, ◌++◌, Option, none, some, map, ◌==◌,
  if◌then◌else◌, all, any,
}
use sintade.Prelude.Text.{Text, codes, starts_with, trim, text_eq}
use sintade.Prelude.Lines.{
  lines, unlines, split, strip_prefix, split_once, ends_with, trim_matches, replace_first,
}
use sintade.Sharing.Slugs.{is_ascii_alphanumeric}

abbrev pub rungs : List Text
rungs = codes "360p" ∷ codes "720p" ∷ codes "1080p" ∷ []

abbrev pub is_empty : Text → Bool
is_empty [] = true
is_empty (_ ∷ _) = false

abbrev pub is_file_char : ℕ → Bool
is_file_char c = is_ascii_alphanumeric c || c == b'_' || c == b'-' || c == b'.'

unfoldable pub is_plain_file : Text → Bool
is_plain_file file =
    not (is_empty file) && not (starts_with (b'.' ∷ []) file) && all is_file_char file

abbrev pub is_comment : Text → Bool
is_comment = starts_with (b'#' ∷ [])

unfoldable pub tokenize_line : Text → Text → Text
tokenize_line token line =
    if not (is_comment line) && ends_with (codes "/index.m3u8") line
    then line ++ codes "?t=" ++ token
    else line

unfoldable pub tokenize_master : Text → Text → Text
unfolding tokenize_line lines
tokenize_master master token = unlines (map (tokenize_line token) (lines master))

-- `find_map` of the attributes that begin with `URI=`.
abbrev pub or_next : Option Text → Option Text → Option Text
or_next none next = next
or_next (some uri) next = some uri

abbrev pub first_uri : List Text → Option Text
first_uri [] = none
first_uri (attribute ∷ rest) =
    or_next (strip_prefix (codes "URI=") (trim attribute)) (first_uri rest)

abbrev pub unquoted : Option Text → Text
unquoted none = []
unquoted (some uri) = trim_matches (λ c. c == b'"') uri

unfoldable pub map_uri : Text → Text
unfolding split trim trim_matches
map_uri attributes = unquoted (first_uri (split b',' attributes))

abbrev pub map_tag : Text
map_tag = codes "#EXT-X-MAP:"

-- What a line of a rung playlist is.
pub data Line : Type 0 where
  map_line : (rest : Text) → Line
  plain_line : Line
  segment_line : (file : Text) → Line

abbrev pub line_of : Text → Option Text → Line
line_of trimmed (some rest) = map_line rest
line_of trimmed none =
    if is_empty trimmed || is_comment trimmed then plain_line else segment_line trimmed

unfoldable pub read_line : Text → Line
unfolding trim
read_line line = line_of (trim line) (strip_prefix map_tag (trim line))

abbrev pub file_of : Line → Option Text
file_of (map_line rest) = some (map_uri rest)
file_of plain_line = none
file_of (segment_line file) = some file

abbrev pub plain_before : Text → Option (List Text) → Option (List Text)
plain_before file none = none
plain_before file (some files) = if is_plain_file file then some (file ∷ files) else none

abbrev pub pushed : Option Text → Option (List Text) → Option (List Text)
pushed none files = files
pushed (some file) files = plain_before file files

unfoldable pub files_of : List Text → Option (List Text)
unfolding read_line map_uri is_plain_file
files_of [] = some []
files_of (line ∷ rest) = pushed (file_of (read_line line)) (files_of rest)

unfoldable pub referenced_files : Text → Option (List Text)
unfolding files_of lines
referenced_files playlist = files_of (lines playlist)

abbrev pub quoted : Text → Text
quoted text = b'"' ∷ text ++ b'"' ∷ []

unfoldable pub rest_with_uri : Text → Text → Text → Text → Text
unfolding replace_first
rest_with_uri prefix rest file url = prefix ++ replace_first (quoted file) (quoted url) rest

abbrev pub mapped : Text → Text → Text → Option Text → Text
mapped line rest file none = line
mapped line rest file (some url) = rest_with_uri map_tag rest file url

abbrev pub url_or : Text → Option Text → Text
url_or line none = line
url_or line (some url) = url

module _ (urls : Text → Option Text) where
  abbrev pub rewritten : Text → Line → Text
  rewritten line (map_line rest) = mapped line rest (map_uri rest) (urls (map_uri rest))
  rewritten line plain_line = line
  rewritten line (segment_line file) = url_or line (urls file)

  unfoldable pub rewrite : Text → Text
  unfolding read_line map_uri rest_with_uri lines
  rewrite playlist = unlines (map (λ line. rewritten line (read_line line)) (lines playlist))

abbrev pub rect_tag : Text
rect_tag = codes "#xywh="

abbrev pub sheet_of : Option (Text × Text) → Option Text
sheet_of none = none
sheet_of (some (file, _)) = some file

unfoldable pub sheets_of : List Text → Option (List Text)
unfolding split_once is_plain_file
sheets_of [] = some []
sheets_of (line ∷ rest) = pushed (sheet_of (split_once rect_tag line)) (sheets_of rest)

unfoldable pub sprite_files : Text → Option (List Text)
unfolding sheets_of lines
sprite_files vtt = sheets_of (lines vtt)

abbrev pub sheet_line : Text → Text → Option Text → Text
sheet_line line rect none = line
sheet_line line rect (some url) = url ++ rect_tag ++ rect

abbrev pub signed_cue : (Text → Option Text) → Text → Option (Text × Text) → Text
signed_cue urls line none = line
signed_cue urls line (some (file, rect)) = sheet_line line rect (urls file)

unfoldable pub rewrite_sprite : (Text → Option Text) → Text → Text
unfolding split_once lines
rewrite_sprite urls vtt =
    unlines (map (λ line. signed_cue urls line (split_once rect_tag line)) (lines vtt))
