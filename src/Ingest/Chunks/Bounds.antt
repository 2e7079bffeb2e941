-- ===== src/Ingest/Chunks/Bounds.antt =====
-- What `chunk_range` accepts.
use sintade.Prelude.{ℕ, ◌+◌, ◌≤◌, ◌<◌, ◌≡◌, ◌↔◌, arith, ok}
use sintade.Ingest.Chunks.{max_presign_batch, max_chunk_index, chunk_range}

-- `chunk_range` accepts exactly the batches of 1 to 10 indexes that are all at most 99999, and
-- gives their bounds; the sum never wraps around.
pub chunk_range_iff :
    (first count : ℕ) (span : ℕ × ℕ)
    → (chunk_range first count ≡ ok span) ↔ (
        (0 < count)
        × (count ≤ max_presign_batch)
        × (first + count ≤ max_chunk_index + 1)
        × ((first, first + count) ≡ span))
unfolding chunk_range
chunk_range_iff first count span =
    ((λ h. (ground arith, ground arith, ground arith, ground arith)), (λ k. ground arith))
