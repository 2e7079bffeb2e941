-- ===== src/Media/Renditions.antt =====
-- The `renditions` table: the statements of crates/media/src/infra/repo.rs on it, and the lookups
-- of `RenditionReader` (crates/media/src/app/reader.rs). Of the JSON in `meta` the model keeps the
-- two fields that the code reads back.
use sintade.Prelude.{
  ℕ, Bool, true, false, ◌&&◌, List, [], ◌∷◌, ◌++◌, Option, none, some, map, ltb, ◌==◌,
  if◌then◌else◌, any, filter, find, update_where, delete_where,
}
use sintade.Prelude.Sort.{sort_by}
use sintade.Prelude.Text.{Text, codes, text_eq}
use sintade.Prelude.Lines.{strip_suffix}

-- `rendition_kind` of the schema.
pub data Kind : Type 0 where
  mp4 hls thumbnail preview sprite captions audio source waveform : Kind

abbrev pub kind_code : Kind → ℕ
kind_code mp4 = 0
kind_code hls = 1
kind_code thumbnail = 2
kind_code preview = 3
kind_code sprite = 4
kind_code captions = 5
kind_code audio = 6
kind_code source = 7
kind_code waveform = 8

pub record Rendition : Type 0 where
  pub workspace_id : ℕ
  pub recording_id : ℕ
  pub take_id : ℕ
  pub kind : Kind
  pub variant : Text
  pub storage_key : Text
  pub size_bytes : ℕ
  pub duration_ms : Option ℕ
  pub content_type : Option Text
  pub created_at : ℕ

abbrev pub Renditions : Type 0
Renditions = List Rendition

-- A stored file's row.
pub record StoredRendition : Type 0 where
  pub kind : Kind
  pub variant : Text
  pub key : Text
  pub bytes : ℕ
  pub duration_ms : Option ℕ
  pub content_type : Option Text

abbrev pub is_variant : Kind → Text → Rendition → Bool
is_variant kind variant r = kind_code r.kind == kind_code kind && text_eq r.variant variant

-- `UNIQUE (recording_id, take_id, kind, variant)`.
abbrev pub is_slot : ℕ → ℕ → Kind → Text → Rendition → Bool
is_slot recording take_id kind variant r =
    r.recording_id == recording && r.take_id == take_id && is_variant kind variant r

abbrev pub replaced : ℕ → StoredRendition → Rendition → Rendition
replaced now s r = record r {
  storage_key = s.key;
  size_bytes = s.bytes;
  duration_ms = s.duration_ms;
  content_type = s.content_type;
  created_at = now;
}

abbrev pub new_rendition : ℕ → ℕ → ℕ → ℕ → StoredRendition → Rendition
new_rendition now workspace recording take_id s = record {
  workspace_id = workspace;
  recording_id = recording;
  take_id = take_id;
  kind = s.kind;
  variant = s.variant;
  storage_key = s.key;
  size_bytes = s.bytes;
  duration_ms = s.duration_ms;
  content_type = s.content_type;
  created_at = now;
}

unfoldable pub upsert_rendition : ℕ → ℕ → ℕ → ℕ → StoredRendition → Renditions → Renditions
upsert_rendition now workspace recording take_id s rows =
    let here = is_slot recording take_id s.kind s.variant in
    if any here rows
    then update_where here (replaced now s) rows
    else rows ++ new_rendition now workspace recording take_id s ∷ []

unfoldable pub record_renditions : ℕ → ℕ → ℕ → ℕ → List StoredRendition → Renditions → Renditions
unfolding upsert_rendition
record_renditions now workspace recording take_id [] rows = rows
record_renditions now workspace recording take_id (s ∷ stored) rows =
    record_renditions now workspace recording take_id stored
      (upsert_rendition now workspace recording take_id s rows)

abbrev pub is_of : ℕ → ℕ → Rendition → Bool
is_of workspace recording r = r.workspace_id == workspace && r.recording_id == recording

abbrev pub is_derived : Kind → Bool
is_derived hls = true
is_derived sprite = true
is_derived preview = true
is_derived _ = false

unfoldable pub delete_derived_renditions : ℕ → ℕ → ℕ → Renditions → Renditions
delete_derived_renditions workspace recording take_id =
    delete_where λ r. is_of workspace recording r && r.take_id == take_id && is_derived r.kind

abbrev pub default : Text
default = codes "default"

abbrev pub master : Text
master = codes "master"

abbrev pub is_take_variant : ℕ → ℕ → ℕ → Kind → Text → Rendition → Bool
is_take_variant workspace recording take_id kind variant r =
    is_of workspace recording r && r.take_id == take_id && is_variant kind variant r

-- The MP4 viewers are given for a take: its row, for the key and the duration.
unfoldable pub current_mp4 : ℕ → ℕ → ℕ → Renditions → Option Rendition
current_mp4 workspace recording take_id =
    find (is_take_variant workspace recording take_id mp4 default)

unfoldable pub has_ladder : ℕ → ℕ → ℕ → Renditions → Bool
has_ladder workspace recording take_id =
    any (is_take_variant workspace recording take_id hls master)

pub record SourceKey : Type 0 where
  pub key : Text
  pub content_type : Text

pub record PlaybackKeys : Type 0 where
  pub mp4 : Option Text
  pub source : Option SourceKey
  pub poster : Option Text

abbrev pub key_of : Option Rendition → Option Text
key_of none = none
key_of (some r) = some r.storage_key

abbrev pub type_or_webm : Option Text → Text
type_or_webm none = codes "video/webm"
type_or_webm (some t) = t

abbrev pub source_of : Option Rendition → Option SourceKey
source_of none = none
source_of (some r) =
    some (record { key = r.storage_key; content_type = type_or_webm r.content_type })

abbrev pub some_keys : Option Text → Option SourceKey → Option Text → Option PlaybackKeys
some_keys none none image = none
some_keys video original image = some (record { mp4 = video; source = original; poster = image })

abbrev pub poster : Text
poster = codes "poster"

abbrev pub first_variant : ℕ → ℕ → Kind → Text → Renditions → Option Rendition
first_variant workspace recording kind variant =
    find λ r. is_of workspace recording r && is_variant kind variant r

unfoldable pub playback_keys : ℕ → ℕ → Renditions → Option PlaybackKeys
playback_keys workspace recording rows =
    some_keys (key_of (first_variant workspace recording mp4 default rows))
      (source_of (first_variant workspace recording source default rows))
      (key_of (first_variant workspace recording thumbnail poster rows))

-- `ORDER BY created_at DESC LIMIT 1`.
abbrev pub newest : Rendition → Rendition → Bool
newest a b = ltb b.created_at a.created_at

abbrev pub first_row : Renditions → Option Rendition
first_row [] = none
first_row (r ∷ _) = some r

unfoldable pub newest_key : ℕ → ℕ → Kind → Text → Renditions → Option Text
newest_key workspace recording kind variant rows = key_of (
    first_row (
      sort_by newest (filter (λ r. is_of workspace recording r && is_variant kind variant r) rows)))

abbrev pub stripped : Option Text → Option Text
stripped none = none
stripped (some key) = strip_suffix (codes "/master.m3u8") key

unfoldable pub hls_prefix : ℕ → ℕ → Renditions → Option Text
unfolding newest_key
hls_prefix workspace recording rows = stripped (newest_key workspace recording hls master rows)

unfoldable pub sprite_vtt_key : ℕ → ℕ → Renditions → Option Text
unfolding newest_key
sprite_vtt_key workspace recording = newest_key workspace recording sprite (codes "vtt")

unfoldable pub peaks_key : ℕ → ℕ → Renditions → Option Text
unfolding newest_key
peaks_key workspace recording = newest_key workspace recording waveform (codes "peaks")

unfoldable pub poster_keys : ℕ → List ℕ → Renditions → List (ℕ × Text)
poster_keys workspace recordings rows =
    map (λ (r : Rendition). (r.recording_id, r.storage_key))
      (filter
        (λ r.
          r.workspace_id == workspace
          && any (λ id. id == r.recording_id) recordings
          && is_variant thumbnail poster r)
        rows)

unfoldable pub available : ℕ → ℕ → Renditions → List (Kind × Text)
available workspace recording rows =
    map (λ (r : Rendition). (r.kind, r.variant)) (filter (is_of workspace recording) rows)
