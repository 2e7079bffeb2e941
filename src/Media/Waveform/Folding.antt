-- ===== src/Media/Waveform/Folding.antt =====
-- How the audio is cut into pieces does not matter.
use sintade.Prelude.{
  ℕ, ◌+◌, ◌≡◌, refl, sym, ap, ◌∙◌, List, [], ◌∷◌, ◌++◌, Option, none, some, ◌==◌, Bool-cases, inl,
  inr,
}
use sintade.Media.Waveform.{
  PeakFolder, from_le_bytes, close_bucket, push_sample, push_pairs, after_carry, push_bytes,
}

abbrev without_carry : PeakFolder → PeakFolder
without_carry f = record f { carry = none }

push_sample-without_carry :
    (f : PeakFolder) (sample : ℕ)
    → push_sample (without_carry f) sample ≡ without_carry (push_sample f sample)
unfolding push_sample close_bucket
push_sample-without_carry f sample = elim (Bool-cases (f.in_bucket + 1 == f.bucket_samples)) [
  | inl full ↦ rw full refl
  | inr open_bucket ↦ rw open_bucket refl
]

push_pairs-without_carry :
    (f : PeakFolder) (bytes : List ℕ) → push_pairs (without_carry f) bytes ≡ push_pairs f bytes
unfolding push_pairs
push_pairs-without_carry f [] = refl
push_pairs-without_carry f (low ∷ []) = refl
push_pairs-without_carry f (low ∷ high ∷ bytes) =
    rw (push_sample-without_carry f (from_le_bytes low high))
      (push_pairs-without_carry (push_sample f (from_le_bytes low high)) bytes)

push_bytes-push_pairs :
    (f : PeakFolder) (bytes more : List ℕ)
    → push_bytes (push_pairs f bytes) more ≡ push_pairs f (bytes ++ more)
unfolding push_bytes push_pairs
push_bytes-push_pairs f [] more = push_pairs-without_carry f more
push_bytes-push_pairs f (low ∷ []) [] = refl
push_bytes-push_pairs f (low ∷ []) (high ∷ more) =
    rw (push_sample-without_carry f (from_le_bytes low high))
      (push_pairs-without_carry (push_sample f (from_le_bytes low high)) more)
push_bytes-push_pairs f (low ∷ high ∷ bytes) more =
    push_bytes-push_pairs (push_sample f (from_le_bytes low high)) bytes more

after_carry-append :
    (carry : Option ℕ) (f : PeakFolder) (bytes more : List ℕ)
    → push_bytes (after_carry carry f bytes) more ≡ after_carry carry f (bytes ++ more)
unfolding push_bytes
after_carry-append none f bytes more = push_bytes-push_pairs f bytes more
after_carry-append (some low) f [] [] = refl
after_carry-append (some low) f [] (high ∷ more) =
    rw (push_sample-without_carry f (from_le_bytes low high))
      (push_pairs-without_carry (push_sample f (from_le_bytes low high)) more)
after_carry-append (some low) f (high ∷ bytes) more =
    push_bytes-push_pairs (push_sample f (from_le_bytes low high)) bytes more

-- The bytes of all the pieces.
abbrev pub joined : List (List ℕ) → List ℕ
joined [] = []
joined (piece ∷ pieces) = piece ++ joined pieces

-- The pieces pushed one after the other.
abbrev pub push_each : PeakFolder → List (List ℕ) → PeakFolder
push_each f [] = f
push_each f (piece ∷ pieces) = push_each (push_bytes f piece) pieces

push_bytes-append :
    (f : PeakFolder) (bytes more : List ℕ)
    → push_bytes (push_bytes f bytes) more ≡ push_bytes f (bytes ++ more)
unfolding push_bytes
push_bytes-append f bytes more = after_carry-append f.carry (without_carry f) bytes more

push_bytes-nil : (f : PeakFolder) → push_bytes f [] ≡ f
unfolding push_bytes push_pairs
push_bytes-nil f = nothing_carried f.carry refl
  where
    nothing_carried :
        (c : Option ℕ) → f.carry ≡ c → after_carry c (record f { carry = none }) [] ≡ f
    nothing_carried none e = ap (λ c. record f { carry = c }) (sym e)
    nothing_carried (some low) e = ap (λ c. record f { carry = c }) (sym e)

-- However the bytes are cut into pieces, empty pieces and pieces of an odd length included, pushing
-- the pieces in order is pushing all the bytes at once.
pub push_each-joined :
    (f : PeakFolder) (pieces : List (List ℕ)) → push_each f pieces ≡ push_bytes f (joined pieces)
push_each-joined f [] = sym (push_bytes-nil f)
push_each-joined f (piece ∷ pieces) =
    push_each-joined (push_bytes f piece) pieces ∙ push_bytes-append f piece (joined pieces)
