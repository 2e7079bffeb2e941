-- ===== src/Delivery/Rungs.antt =====
-- The playlists of the adaptive ladder as they are served (crates/delivery/src/lib.rs). The object
-- store gives a stored text, if there is one of at most a MiB in UTF-8; that, signing a key for a
-- number of seconds, the MAC, base64url and the bytes of a uuid are arguments.
pub mod Signed
mod Examples
use sintade.Prelude.{
  ℕ, ◌+◌, ◌-◌, Bool, true, false, not, ◌&&◌, List, [], ◌∷◌, ◌++◌, Option, none, some, map, Result,
  ok, err, ok_or, ◌>>=◌, ◌==◌, if◌then◌else◌, any, filter, min, max,
}
use sintade.Prelude.Text.{Text, codes, text_eq}
use sintade.Media.Renditions.{Renditions, hls_prefix}
use sintade.Delivery.Cache.{TtlCache, get, insert}
use sintade.Delivery.Tokens.{TokenError, invalid, issue, verify}
use sintade.Delivery.Playlists.{rungs, tokenize_master, referenced_files, rewrite}
use sintade.Delivery.Grants.{grant_ttl}

pub data RungPlaylist : Type 0 where
  no_playlist : RungPlaylist
  refused : TokenError → RungPlaylist
  playlist : Text → RungPlaylist

-- The memory of the service: where ladders live, and the playlists that it read.
pub record Caches : Type 0 where
  pub prefixes : TtlCache (ℕ × ℕ) Text
  pub playlists : TtlCache Text Text

abbrev pub same_recording : ℕ × ℕ → ℕ × ℕ → Bool
same_recording (ws, rec) (ws', rec') = ws == ws' && rec == rec'

-- A key that is signed, and for how many seconds.
pub record Signing : Type 0 where
  pub key : Text
  pub ttl : ℕ

abbrev pub distinct : List Text → List Text
distinct [] = []
distinct (file ∷ files) = file ∷ filter (λ other. not (text_eq file other)) (distinct files)

abbrev pub remembered_prefix : ℕ → ℕ × ℕ → Option Text → Caches → Caches
remembered_prefix now key none caches = caches
remembered_prefix now key (some prefix) caches = record caches {
  prefixes = insert same_recording key prefix now caches.prefixes;
}

abbrev pub prefix_or : ℕ → ℕ × ℕ → Option Text → Option Text → Caches → Option Text × Caches
prefix_or now key (some prefix) stored caches = (some prefix, caches)
prefix_or now key none stored caches = (stored, remembered_prefix now key stored caches)

unfoldable pub ladder_prefix : ℕ → ℕ → ℕ → Renditions → Caches → Option Text × Caches
unfolding get insert hls_prefix
ladder_prefix now workspace recording renditions caches =
    prefix_or now (workspace, recording)
      (get same_recording (workspace, recording) now caches.prefixes)
      (hls_prefix workspace recording renditions) caches

abbrev pub remembered_text : ℕ → Text → Option Text → Caches → Caches
remembered_text now key none caches = caches
remembered_text now key (some text) caches = record caches {
  playlists = insert text_eq key text now caches.playlists;
}

abbrev pub text_or : ℕ → Text → Option Text → Option Text → Caches → Option Text × Caches
text_or now key (some text) stored caches = (some text, caches)
text_or now key none stored caches = (stored, remembered_text now key stored caches)

abbrev pub rung_prefix : Text → Text → Text
rung_prefix prefix rung = prefix ++ (codes "/" ++ (rung ++ codes "/"))

-- `clamp(1, 900)` of the seconds until the token expires.
abbrev pub ttl_until : ℕ → ℕ → ℕ
ttl_until expires_at now = min grant_ttl (max 1 (expires_at - now))

module _ (stored : Text → Option Text) where
  unfoldable pub read_playlist : ℕ → Text → Caches → Option Text × Caches
  unfolding get insert
  read_playlist now key caches =
      text_or now key (get text_eq key now caches.playlists) (stored key) caches

  module _ (mac : List ℕ → List ℕ) (encode : List ℕ → Text) (decode : Text → Option (List ℕ))
      (id_bytes : ℕ → List ℕ) where
    abbrev pub tokenized : ℕ → ℕ → Option Text × Caches → Option Text × Caches
    tokenized now recording (none, caches) = (none, caches)
    tokenized now recording (some master, caches) = (
      some
          (tokenize_master master (issue mac encode decode (id_bytes recording) (now + grant_ttl))),
      caches,
    )

    abbrev pub master_under : ℕ → ℕ → Option Text × Caches → Option Text × Caches
    master_under now recording (none, caches) = (none, caches)
    master_under now recording (some prefix, caches) =
        tokenized now recording (read_playlist now (prefix ++ codes "/master.m3u8") caches)

    unfoldable pub hls_master : ℕ → ℕ → ℕ → Renditions → Caches → Option Text × Caches
    hls_master now workspace recording renditions caches =
        master_under now recording (ladder_prefix now workspace recording renditions caches)

    -- The expiry that the token of a request carries.
    unfoldable pub token_expiry : ℕ → ℕ → Option Text → Result TokenError ℕ
    unfolding verify
    token_expiry now recording token = do
      given ← ok_or token invalid
      verify mac encode decode given (id_bytes recording) now

    module _ (presign : Text → ℕ → Text) where
      abbrev pub url_of : Text → ℕ → List Text → Text → Option Text
      url_of prefix ttl files file =
          if any (text_eq file) files then some (presign (prefix ++ file) ttl) else none

      abbrev pub signed_files : Text → ℕ → Text → Option (List Text) → RungPlaylist × List Signing
      signed_files prefix ttl text none = (no_playlist, [])
      signed_files prefix ttl text (some files) = (
        playlist (rewrite (url_of prefix ttl files) text),
        map (λ file. record { key = prefix ++ file; ttl = ttl }) (distinct files),
      )

      abbrev pub signed_text :
          Text → ℕ → Option Text × Caches → (RungPlaylist × List Signing) × Caches
      signed_text prefix ttl (none, caches) = ((no_playlist, []), caches)
      signed_text prefix ttl (some text, caches) =
          (signed_files prefix ttl text (referenced_files text), caches)

      abbrev pub rung_under :
          ℕ → Text → ℕ → Option Text × Caches → (RungPlaylist × List Signing) × Caches
      rung_under now rung ttl (none, caches) = ((no_playlist, []), caches)
      rung_under now rung ttl (some prefix, caches) =
          signed_text (rung_prefix prefix rung) ttl
            (read_playlist now (rung_prefix prefix rung ++ codes "index.m3u8") caches)

      abbrev pub rung_until :
          (now workspace recording : ℕ)
          → Text
          → Renditions
          → Caches
          → Result TokenError ℕ
          → (RungPlaylist × List Signing) × Caches
      rung_until now workspace recording rung renditions caches (err error) =
          ((refused error, []), caches)
      rung_until now workspace recording rung renditions caches (ok expires_at) =
          rung_under now rung (ttl_until expires_at now)
            (ladder_prefix now workspace recording renditions caches)

      -- The playlist of a rung, and the keys that are signed for it.
      unfoldable pub hls_rung :
          (now workspace recording : ℕ)
          → Text
          → Option Text
          → Renditions
          → Caches
          → (RungPlaylist × List Signing) × Caches
      hls_rung now workspace recording rung token renditions caches =
          let served =
            rung_until now workspace recording rung renditions caches
              (token_expiry now recording token) in
          if any (text_eq rung) rungs then served else ((no_playlist, []), caches)
