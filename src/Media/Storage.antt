-- ===== src/Media/Storage.antt =====
-- Containers and storage keys (crates/media/src/domain/mod.rs). How a uuid is displayed is an
-- argument.
pub mod Versions
mod Examples
use sintade.Prelude.{
  ℕ, Bool, true, false, ◌&&◌, ◌||◌, List, [], ◌∷◌, ◌++◌, Option, none, some, if◌then◌else◌,
}
use sintade.Prelude.Text.{Text, codes, decimal, starts_with, trim, to_ascii_lowercase}
use sintade.Prelude.Lines.{strip_suffix}

pub data Container : Type 0 where
  webm mp4 : Container

unfoldable pub from_mime : Text → Container
unfolding trim
from_mime mime =
    if starts_with (codes "video/mp4") (to_ascii_lowercase (trim mime)) then mp4 else webm

abbrev pub extension : Container → Text
extension webm = codes "webm"
extension mp4 = codes "mp4"

abbrev pub content_type : Container → Text
content_type webm = codes "video/webm"
content_type mp4 = codes "video/mp4"

abbrev pub is_webm : Container → Bool
is_webm webm = true
is_webm mp4 = false

abbrev pub contains : Text → Text → Bool
contains part [] = starts_with part []
contains part (c ∷ cs) = starts_with part (c ∷ cs) || contains part cs

unfoldable pub preview_content_type : Text → Text
unfolding from_mime trim
preview_content_type mime =
    let lower = to_ascii_lowercase (trim mime) in
    if is_webm (from_mime mime) && (contains (codes "h264") lower || contains (codes "avc1") lower)
    then trim mime
    else content_type (from_mime mime)

-- The keys of one version, under its base.
abbrev pub mp4_suffix : Text
mp4_suffix = codes "/mp4/default.mp4"

unfoldable pub base_of_mp4 : Text → Option Text
base_of_mp4 = strip_suffix mp4_suffix

abbrev pub mp4_key_in : Text → Text
mp4_key_in base = base ++ mp4_suffix

abbrev pub hls_prefix_in : Text → Text
hls_prefix_in base = base ++ codes "/hls"

abbrev pub img_prefix_in : Text → Text
img_prefix_in base = base ++ codes "/img"

abbrev pub poster_key_in : Text → Text
poster_key_in base = base ++ codes "/img/poster.jpg"

module _ (show_id : ℕ → Text) where
  abbrev pub recording_base : ℕ → ℕ → Text
  recording_base workspace recording =
      codes "ws/" ++ (show_id workspace ++ (codes "/rec/" ++ show_id recording))

  unfoldable pub edit_base : ℕ → ℕ → ℕ → Text
  edit_base workspace recording version =
      recording_base workspace recording ++ (codes "/edits/" ++ decimal version)

  -- What a given up edit's files are deleted by.
  unfoldable pub edit_prefix : ℕ → ℕ → ℕ → Text
  unfolding edit_base
  edit_prefix workspace recording version = edit_base workspace recording version ++ codes "/"

  abbrev pub mp4_key : ℕ → ℕ → Text
  mp4_key workspace recording = mp4_key_in (recording_base workspace recording)

  abbrev pub poster_key : ℕ → ℕ → Text
  poster_key workspace recording = poster_key_in (recording_base workspace recording)

  abbrev pub original_sprite_vtt_key : ℕ → ℕ → Text
  original_sprite_vtt_key workspace recording =
      img_prefix_in (recording_base workspace recording) ++ codes "/sprite.vtt"

  abbrev pub waveform_key : ℕ → ℕ → Text
  waveform_key workspace recording =
      img_prefix_in (recording_base workspace recording) ++ codes "/waveform.json"

  abbrev pub source_key : ℕ → ℕ → ℕ → Container → Text
  source_key workspace recording take_id container =
      recording_base workspace recording
      ++ (codes "/takes/" ++ (show_id take_id ++ (codes "/source." ++ extension container)))
