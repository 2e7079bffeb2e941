-- ===== src/Delivery/Rungs/Signed.antt =====
-- What is signed for a rung's playlist, and for how long.
use sintade.Prelude.{
  ℕ, ◌+◌, ◌≤◌, ◌<◌, ◌≡◌, refl, subst, ap, true, not, inl, inr, List, [], ◌∷◌, ◌++◌, Option, none,
  some, map, Result, ok, err, ok_or, any, arith, All, All-filter, All-map, Bool-cases, bind-ok,
}
use sintade.Prelude.Text.{Text, text_eq}
use sintade.Media.Renditions.{Renditions}
use sintade.Delivery.Tokens.{TokenError, invalid}
use sintade.Delivery.Tokens.Genuine.{verify-lt}
use sintade.Delivery.Playlists.{
  rungs, is_plain_file, file_of, read_line, files_of, pushed, referenced_files,
}
use sintade.Delivery.Grants.{grant_ttl}
use sintade.Delivery.Rungs.{
  Caches, Signing, distinct, ladder_prefix, rung_prefix, ttl_until, token_expiry, signed_files,
  signed_text, rung_under, rung_until, hls_rung,
}
use sintade.Prelude.Lines.{lines}

abbrev IsPlain : Text → Type 0
IsPlain file = is_plain_file file ≡ true

pushed-IsPlain :
    (file : Option Text) (later : Option (List Text)) (files : List Text)
    → ((rest : List Text) → later ≡ some rest → All IsPlain rest)
    → pushed file later ≡ some files
    → All IsPlain files
pushed-IsPlain none later files h e = h files e
pushed-IsPlain (some file) none files h e = absurd (cc)
pushed-IsPlain (some file) (some rest) files h e = elim (Bool-cases (is_plain_file file)) [
  | inl plain ↦ subst (All IsPlain) (one (rw plain at e)) (plain, h rest refl)
  | inr other ↦ absurd (nothing (rw other at e))
]
  where
    one : ◌≡◌ {A = Option (List Text)} (some (file ∷ rest)) (some files) → file ∷ rest ≡ files
    one k = cc

    nothing : ◌≡◌ {A = Option (List Text)} none (some files) → ⊥
    nothing k = cc

files_of-IsPlain :
    (ls : List Text) (files : List Text) → files_of ls ≡ some files → All IsPlain files
unfolding files_of
files_of-IsPlain [] files e = subst (All IsPlain) (one e) tt
  where
    one : ◌≡◌ {A = Option (List Text)} (some []) (some files) → [] ≡ files
    one k = cc
files_of-IsPlain (line ∷ ls) files e =
    pushed-IsPlain (file_of (read_line line)) (files_of ls) files (files_of-IsPlain ls) e

referenced_files-IsPlain :
    (text : Text) (files : List Text) → referenced_files text ≡ some files → All IsPlain files
unfolding referenced_files
referenced_files-IsPlain text files e = files_of-IsPlain (lines text) files e

distinct-IsPlain : (files : List Text) → All IsPlain files → All IsPlain (distinct files)
distinct-IsPlain [] h = tt
distinct-IsPlain (file ∷ files) h =
    (h.0, All-filter IsPlain (λ other. not (text_eq file other)) _ (distinct-IsPlain files h.1))

-- A plain file right under a prefix, signed for a time.
abbrev pub IsUnder : Text → ℕ → Signing → Type 0
IsUnder prefix ttl s =
    (file : Text) × (s.key ≡ prefix ++ file) × (is_plain_file file ≡ true) × (s.ttl ≡ ttl)

signings-IsUnder :
    (prefix : Text) (ttl : ℕ) (files : List Text)
    → All IsPlain files
    → All (IsUnder prefix ttl) (map (λ file. record { key = prefix ++ file; ttl = ttl }) files)
signings-IsUnder prefix ttl [] h = tt
signings-IsUnder prefix ttl (file ∷ files) h =
    ((file, refl, h.0, refl), signings-IsUnder prefix ttl files h.1)

module _ (stored : Text → Option Text) (mac : List ℕ → List ℕ) (encode : List ℕ → Text)
    (decode : Text → Option (List ℕ)) (id_bytes : ℕ → List ℕ) (presign : Text → ℕ → Text) where
  signed_files-IsUnder :
      (prefix : Text) (ttl : ℕ) (text : Text) (files : Option (List Text))
      → referenced_files text ≡ files
      → All
          (IsUnder prefix ttl)
          (signed_files stored mac encode decode id_bytes presign prefix ttl text files).1
  signed_files-IsUnder prefix ttl text none e = tt
  signed_files-IsUnder prefix ttl text (some files) e =
      signings-IsUnder prefix ttl (distinct files)
        (distinct-IsPlain files (referenced_files-IsPlain text files e))

  signed_text-IsUnder :
      (prefix : Text) (ttl : ℕ) (read : Option Text × Caches)
      → All
          (IsUnder prefix ttl)
          (signed_text stored mac encode decode id_bytes presign prefix ttl read).0.1
  signed_text-IsUnder prefix ttl (none, caches) = tt
  signed_text-IsUnder prefix ttl (some text, caches) =
      signed_files-IsUnder prefix ttl text (referenced_files text) refl

  -- A key right under the rung's directory in the recording's ladder, signed for at least a second,
  -- at most 15 minutes, and not past the expiry of the token.
  abbrev pub IsServed :
      (now workspace recording : ℕ) → Text → Option Text → Renditions → Caches → Signing → Type 0
  IsServed now workspace recording rung token renditions caches s =
      (prefix : Text) × (file : Text) × (expires_at : ℕ) × ((ladder_prefix now workspace recording
          renditions caches).0
        ≡ some prefix)
      × (s.key ≡ rung_prefix prefix rung ++ file)
      × (is_plain_file file ≡ true)
      × (token_expiry stored mac encode decode id_bytes now recording token ≡ ok expires_at)
      × (now + s.ttl ≤ expires_at)
      × (1 ≤ s.ttl)
      × (s.ttl ≤ grant_ttl)

  token_expiry-lt :
      (now recording : ℕ) (token : Option Text) (expires_at : ℕ)
      → token_expiry stored mac encode decode id_bytes now recording token ≡ ok expires_at
      → now < expires_at
  unfolding token_expiry
  token_expiry-lt now recording token expires_at h =
      let (given, passed, _) = bind-ok (ok_or token invalid) _ h in
      verify-lt mac encode decode given (id_bytes recording) now expires_at passed

  module _ (now workspace recording : ℕ) (rung : Text) (token : Option Text)
      (renditions : Renditions) (caches : Caches) where
    rung_under-IsServed :
        (expires_at : ℕ) (found : Option Text × Caches)
        → ladder_prefix now workspace recording renditions caches ≡ found
        → token_expiry stored mac encode decode id_bytes now recording token ≡ ok expires_at
        → All
            (IsServed now workspace recording rung token renditions caches)
            (rung_under stored mac encode decode id_bytes presign now rung
              (ttl_until expires_at now)
              found).0.1
    rung_under-IsServed expires_at (none, after) e valid = tt
    rung_under-IsServed expires_at (some prefix, after) e valid =
        All-map (IsUnder (rung_prefix prefix rung) (ttl_until expires_at now)) _
          (λ s (file, key, plain, ttl). (
            prefix,
            file,
            expires_at,
            (ap (λ (p : Option Text × Caches). p.0) e),
            key,
            plain,
            valid,
            omega (arith, ttl, before),
            omega (arith, ttl, before),
            omega (arith, ttl, before),
          ))
          _ (signed_text-IsUnder (rung_prefix prefix rung) (ttl_until expires_at now) _)
      where
        before : now < expires_at
        before = token_expiry-lt now recording token expires_at valid

    rung_until-IsServed :
        (expiry : Result TokenError ℕ)
        → token_expiry stored mac encode decode id_bytes now recording token ≡ expiry
        → All
            (IsServed now workspace recording rung token renditions caches)
            (rung_until stored mac encode decode id_bytes presign now workspace recording rung
              renditions caches expiry).0.1
    rung_until-IsServed (err error) e = tt
    rung_until-IsServed (ok expires_at) e =
        rung_under-IsServed expires_at (ladder_prefix now workspace recording renditions caches)
          refl e

    -- Whatever a stored playlist says, a request for a rung signs only files right under the
    -- rung's directory of the recording's own ladder, and only with a valid token of the
    -- recording; no signature lasts past the token's expiry or longer than 15 minutes.
    pub hls_rung-IsServed :
        All
          (IsServed now workspace recording rung token renditions caches)
          (hls_rung stored mac encode decode id_bytes presign now workspace recording rung token
            renditions caches).0.1
    unfolding hls_rung
    hls_rung-IsServed = elim (Bool-cases (any (text_eq rung) rungs)) [
      | inl known ↦ rw known (
          rung_until-IsServed (token_expiry stored mac encode decode id_bytes now recording token)
            refl)
      | inr unknown ↦ rw unknown tt
    ]
