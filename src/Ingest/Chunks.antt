-- ===== src/Ingest/Chunks.antt =====
-- The pure rules of the upload protocol (crates/ingest/src/domain/mod.rs): MIME types, chunk
-- ranges, sizes and storage keys. A text is a list of code points; how a uuid is displayed is the
-- parameter `show_id`.
pub mod Keys
pub mod Bounds
mod Examples
use sintade.Prelude.{
  ℕ, ◌+◌, ◌-◌, ◌*◌, ◌^◌, Bool, true, false, ◌&&◌, ◌||◌, List, [], ◌∷◌, ◌++◌, ltb, leb, ◌==◌,
  if◌then◌else◌, any, Result, ok, err, ◌>>=◌, ◌>>◌, fail_if,
}
use sintade.Prelude.Text.{
  Text, codes, is_control, trim, byte_len, to_ascii_lowercase, starts_with, text_eq, before_first,
  padded,
}

abbrev pub max_mime_type_len : ℕ
max_mime_type_len = 255

abbrev pub max_presign_batch : ℕ
max_presign_batch = 10

abbrev pub max_chunk_index : ℕ
max_chunk_index = 99999

abbrev pub max_chunk_bytes : ℕ
max_chunk_bytes = 16 * 1024 * 1024

abbrev pub u32_max : ℕ
u32_max = 2 ^ 32 - 1

abbrev pub i32_max : ℕ
i32_max = 2 ^ 31 - 1

pub data MimeTypeError : Type 0 where
  too_long unsupported : MimeTypeError

abbrev webm_type : Text
webm_type = codes "video/webm"

abbrev mp4_type : Text
mp4_type = codes "video/mp4"

-- The container that `parse` looks at: what stands in front of the first `;`.
unfoldable pub container : Text → Text
container trimmed = to_ascii_lowercase (trim (before_first b';' trimmed))

-- `MimeType::parse`; a MIME type is its text.
unfoldable pub parse_mime : Text → Result MimeTypeError Text
unfolding container
parse_mime raw = do
  let trimmed = trim raw
  fail_if (ltb max_mime_type_len (byte_len trimmed)) too_long
  fail_if (any is_control trimmed) unsupported
  if text_eq (container trimmed) webm_type || text_eq (container trimmed) mp4_type
      then ok trimmed
      else err unsupported

unfoldable pub extension_for : Text → Text
extension_for mime_type =
    if starts_with mp4_type (to_ascii_lowercase (trim mime_type)) then codes "mp4" else codes "webm"

pub data ChunkRangeError : Type 0 where
  bad_count index_too_large : ChunkRangeError

-- The indexes `first .. end`, as the pair of both.
unfoldable pub chunk_range : ℕ → ℕ → Result ChunkRangeError (ℕ × ℕ)
chunk_range first count = do
  fail_if (count == 0 || ltb max_presign_batch count) bad_count
  let end = first + count
  fail_if (ltb u32_max end) index_too_large
  fail_if (ltb max_chunk_index (end - 1)) index_too_large
  ok (first, end)

pub data ChunkSizeError : Type 0 where
  out_of_range : ChunkSizeError

unfoldable pub chunk_size : ℕ → Result ChunkSizeError ℕ
chunk_size size = if leb 1 size && leb size max_chunk_bytes then ok size else err out_of_range

module _ (show_id : ℕ → Text) where
  -- `ws/{}/rec/{}/takes/{}/chunks/`: what a take's chunk keys begin with.
  unfoldable pub chunk_prefix : ℕ → ℕ → ℕ → Text
  chunk_prefix workspace recording take_id =
      codes "ws/"
      ++ (show_id workspace
          ++ (codes "/rec/"
              ++ (show_id recording ++ (codes "/takes/" ++ (show_id take_id ++ codes "/chunks/")))))

  unfoldable pub chunk_key : ℕ → ℕ → ℕ → ℕ → Text → Text
  unfolding chunk_prefix
  chunk_key workspace recording take_id idx mime_type =
      chunk_prefix workspace recording take_id
      ++ (padded 6 idx ++ (codes "." ++ extension_for mime_type))
