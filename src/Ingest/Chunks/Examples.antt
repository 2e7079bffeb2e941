-- ===== src/Ingest/Chunks/Examples.antt =====
-- MIME types, ranges, sizes and keys at concrete values.
use sintade.Prelude.{ℕ, ◌≡◌, refl, ok, err}
use sintade.Prelude.Text.{codes, trim, is_control, padded}
use sintade.Ingest.Chunks.{
  parse_mime, unsupported, extension_for, index_too_large, chunk_range, chunk_size, out_of_range,
  chunk_key,
}
use sintade.Ingest.Scenario.{webm}

with_codecs : parse_mime (codes " video/WebM;codecs=vp9 ") ≡ ok (codes "video/WebM;codecs=vp9")
unfolding parse_mime trim is_control
with_codecs = refl

no_video : parse_mime (codes "audio/webm") ≡ err unsupported
unfolding parse_mime trim is_control
no_video = refl

mp4_extension : extension_for (codes "video/mp4;codecs=avc1") ≡ codes "mp4"
unfolding extension_for trim
mp4_extension = refl

last_batch : chunk_range 99990 10 ≡ ok (99990, 100000)
unfolding chunk_range
last_batch = refl

beyond_last : chunk_range 99991 10 ≡ err index_too_large
unfolding chunk_range
beyond_last = refl

too_large : chunk_size 16777217 ≡ err out_of_range
unfolding chunk_size
too_large = refl

key_of :
    chunk_key (λ n. codes "id") 7 1 11 42 webm ≡ codes "ws/id/rec/id/takes/id/chunks/000042.webm"
unfolding chunk_key padded extension_for trim
key_of = refl

abbrev last_span : ℕ × ℕ
last_span = (99990, 100000)

abbrev workspace : ℕ
workspace = 7

abbrev rec_id : ℕ
rec_id = 1

abbrev take_id : ℕ
take_id = 11

abbrev next_take : ℕ
next_take = 12

abbrev idx : ℕ
idx = 42
