-- ===== src/Ingest/Chunks/Keys.antt =====
-- The storage keys of chunks: `chunk_key` and the prefix that the sweep deletes.
use sintade.Prelude.{ℕ, ◌≤◌, ◌≡◌, ◌↔◌, refl, sym, ap, ◌∙◌, true, ◌++◌, append_assoc, length, arith}
use sintade.Prelude.Text.{
  Text, codes, padded, padded-injective, length-padded, append-injective, starts_with,
  starts_with-split, starts_with-append,
}
use sintade.Ingest.Chunks.{max_chunk_index, chunk_prefix, chunk_key, extension_for}

-- What the keys rely on of a uuid's display: different ids are shown differently, all in 36
-- characters.
pub record ShowsIds (show_id : ℕ → Text) : Type 0 where
  pub injective : (a b : ℕ) → show_id a ≡ show_id b → a ≡ b
  pub long : (a : ℕ) → length (show_id a) ≡ 36

module _ (show_id : ℕ → Text) (ids : ShowsIds show_id) where
  same_part : (a b : ℕ) (x y : Text) → show_id a ++ x ≡ show_id b ++ y → (a ≡ b) × (x ≡ y)
  same_part a b x y h =
      let both = append-injective (show_id a) (show_id b) x y (ids.long a ∙ sym (ids.long b)) h in
      (ids.injective a b both.0, both.1)

  same_label : (label x y : Text) → label ++ x ≡ label ++ y → x ≡ y
  same_label label x y h = (append-injective label label x y refl h).1

  chunk_prefix-append :
      (ws rec take_id : ℕ) (x : Text)
      → chunk_prefix show_id ws rec take_id ++ x
        ≡ codes "ws/"
          ++ (show_id ws
              ++ (codes "/rec/"
                  ++ (show_id rec
                      ++ (codes "/takes/" ++ (show_id take_id ++ (codes "/chunks/" ++ x))))))
  unfolding chunk_prefix
  chunk_prefix-append ws rec take_id x =
      let inner = show_id take_id ++ codes "/chunks/" in
      let middle = show_id rec ++ (codes "/takes/" ++ inner) in
      ap (λ z. codes "ws/" ++ z)
        (append_assoc (show_id ws) (codes "/rec/" ++ middle) x
          ∙ ap (λ z. show_id ws ++ (codes "/rec/" ++ z))
              (append_assoc (show_id rec) (codes "/takes/" ++ inner) x
                ∙ ap (λ z. show_id rec ++ (codes "/takes/" ++ z))
                    (append_assoc (show_id take_id) (codes "/chunks/") x)))

  -- The parts of two keys, in front of whatever follows.
  prefix-injective :
      (ws rec take_id ws' rec' take' : ℕ) (x y : Text)
      → chunk_prefix show_id ws rec take_id ++ x ≡ chunk_prefix show_id ws' rec' take' ++ y
      → (ws ≡ ws') × (rec ≡ rec') × (take_id ≡ take') × (x ≡ y)
  prefix-injective ws rec take_id ws' rec' take' x y h =
      let h' =
        sym (chunk_prefix-append ws rec take_id x) ∙ h ∙ chunk_prefix-append ws' rec' take' y in
      let (same_ws, after_ws) = same_part ws ws' _ _ (same_label (codes "ws/") _ _ h') in
      let (same_rec, after_rec) =
        same_part rec rec' _ _ (same_label (codes "/rec/") _ _ after_ws) in
      let (same_take, after_take) =
        same_part take_id take' _ _ (same_label (codes "/takes/") _ _ after_rec) in
      (same_ws, same_rec, same_take, same_label (codes "/chunks/") x y after_take)

  -- Different chunks are stored under different keys: the key determines the workspace, the
  -- recording, the take and the index, for all indexes that the code accepts.
  pub chunk_key-injective :
      (ws rec take_id idx ws' rec' take' idx' : ℕ) (mime mime' : Text)
      → idx ≤ max_chunk_index
      → idx' ≤ max_chunk_index
      → chunk_key show_id ws rec take_id idx mime ≡ chunk_key show_id ws' rec' take' idx' mime'
      → (ws ≡ ws') × (rec ≡ rec') × (take_id ≡ take') × (idx ≡ idx')
  unfolding chunk_key
  chunk_key-injective ws rec take_id idx ws' rec' take' idx' mime mime' small small' h =
      let (same_ws, same_rec, same_take, names) =
        prefix-injective ws rec take_id ws' rec' take'
          (padded 6 idx ++ (codes "." ++ extension_for mime))
          (padded 6 idx' ++ (codes "." ++ extension_for mime')) h in
      let six = length-padded 5 idx (omega arith) in
      let six' = length-padded 5 idx' (omega arith) in
      let same_name =
        append-injective (padded 6 idx) (padded 6 idx') (codes "." ++ extension_for mime)
          (codes "." ++ extension_for mime') (six ∙ sym six') names in
      (same_ws, same_rec, same_take, padded-injective 6 idx idx' same_name.0)

  -- The prefix of a take covers exactly the take's own chunks: the key of any chunk begins with it
  -- just where workspace, recording and take are the same.
  pub starts_with-chunk_prefix :
      (ws rec take_id ws' rec' take' idx : ℕ) (mime : Text)
      → (starts_with
            (chunk_prefix show_id ws rec take_id)
            (chunk_key show_id ws' rec' take' idx mime)
          ≡ true)
        ↔ ((ws ≡ ws') × (rec ≡ rec') × (take_id ≡ take'))
  unfolding chunk_key
  starts_with-chunk_prefix ws rec take_id ws' rec' take' idx mime = (
    (λ h.
        let name = padded 6 idx ++ (codes "." ++ extension_for mime) in
        let (rest, e) =
          starts_with-split (chunk_prefix show_id ws rec take_id)
            (chunk_key show_id ws' rec' take' idx mime) h in
        let (same_ws, same_rec, same_take, _) =
          prefix-injective ws rec take_id ws' rec' take' rest name (sym e) in
        (same_ws, same_rec, same_take)),
    (λ k.
        rw (k.0, k.1, k.2)
          (starts_with-append (chunk_prefix show_id ws' rec' take')
            (padded 6 idx ++ (codes "." ++ extension_for mime)))),
  )
