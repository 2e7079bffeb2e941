-- ===== src/Delivery/Grants.antt =====
-- The grants of a player, an editor and a library page (crates/delivery/src/lib.rs). Signing a key
-- for a time, in seconds, is an argument, and so is the identifier of a new job.
use sintade.Prelude.{ℕ, ◌*◌, Bool, true, false, List, Option, none, some, map, if◌then◌else◌}
use sintade.Prelude.Text.{Text, codes}
use sintade.Platform.Jobs.{Job}
use sintade.Media.Processing.{MediaJob}
use sintade.Media.Renditions.{
  Renditions, SourceKey, PlaybackKeys, playback_keys, peaks_key, poster_keys,
}
use sintade.Media.Requests.{request_ladder, request_waveform}

abbrev pub grant_ttl : ℕ
grant_ttl = 15 * 60

pub data PlaybackKind : Type 0 where
  mp4 preview : PlaybackKind

pub record PlaybackGrant : Type 0 where
  pub kind : PlaybackKind
  pub url : Text
  pub content_type : Text
  pub poster_url : Option Text
  pub expires_in_s : ℕ

pub record DownloadGrant : Type 0 where
  pub url : Text
  pub filename : Text
  pub expires_in_s : ℕ

pub record WaveformGrant : Type 0 where
  pub url : Text
  pub expires_in_s : ℕ

-- What a grant plays: which file, its key and its type.
pub record Playable : Type 0 where
  pub kind : PlaybackKind
  pub key : Text
  pub content_type : Text

abbrev pub playable : Bool → Option Text → Option SourceKey → Option Playable
playable allow_preview (some key) source =
    some (record { kind = mp4; key = key; content_type = codes "video/mp4" })
playable true none (some source) =
    some (record { kind = preview; key = source.key; content_type = source.content_type })
playable false none (some source) = none
playable allow_preview none none = none

abbrev pub is_mp4 : PlaybackKind → Bool
is_mp4 mp4 = true
is_mp4 preview = false

-- What the lookups read and the requests change.
pub record Shelf : Type 0 where
  pub renditions : Renditions
  pub media_jobs : List MediaJob
  pub jobs : List Job

module _ (presign : Text → ℕ → Text) (payload : ℕ → ℕ → ℕ) where
  abbrev pub signed_poster : Option Text → Option Text
  signed_poster none = none
  signed_poster (some key) = some (presign key grant_ttl)

  abbrev pub grant_of :
      (now id workspace recording : ℕ)
      → Option Text
      → Option Playable
      → Shelf
      → Option PlaybackGrant × Shelf
  grant_of now id workspace recording poster none shelf = (none, shelf)
  grant_of now id workspace recording poster (some p) shelf = (
    some (record {
      kind = p.kind;
      url = presign p.key grant_ttl;
      content_type = p.content_type;
      poster_url = signed_poster poster;
      expires_in_s = grant_ttl;
    }),
    record shelf {
      jobs =
          if is_mp4 p.kind
          then (request_ladder payload now id workspace recording shelf.media_jobs shelf.renditions
              shelf.jobs).0
          else shelf.jobs;
    },
  )

  abbrev pub grant_keys :
      (now id workspace recording : ℕ)
      → Bool
      → Option PlaybackKeys
      → Shelf
      → Option PlaybackGrant × Shelf
  grant_keys now id workspace recording allow_preview none shelf = (none, shelf)
  grant_keys now id workspace recording allow_preview (some keys) shelf =
      grant_of now id workspace recording keys.poster (playable allow_preview keys.mp4 keys.source)
        shelf

  unfoldable pub grant :
      (now id workspace recording : ℕ) → Bool → Shelf → Option PlaybackGrant × Shelf
  unfolding playback_keys request_ladder
  grant now id workspace recording allow_preview shelf =
      grant_keys now id workspace recording allow_preview
        (playback_keys workspace recording shelf.renditions) shelf

  abbrev pub poster_of : Option PlaybackGrant × Shelf → Option Text × Shelf
  poster_of (none, shelf) = (none, shelf)
  poster_of (some g, shelf) = (g.poster_url, shelf)

  unfoldable pub poster : (now id workspace recording : ℕ) → Shelf → Option Text × Shelf
  unfolding grant
  poster now id workspace recording shelf = poster_of (grant now id workspace recording true shelf)

  unfoldable pub posters : ℕ → List ℕ → Renditions → List (ℕ × Text)
  unfolding poster_keys
  posters workspace recordings renditions =
      map (λ (e : ℕ × Text). (e.0, presign e.1 grant_ttl))
        (poster_keys workspace recordings renditions)

  abbrev pub waveform_of :
      (now id workspace recording : ℕ) → Option Text → Shelf → Option WaveformGrant × Shelf
  waveform_of now id workspace recording none shelf = (
    none,
    record shelf {
      jobs =
          (request_waveform payload now id workspace recording shelf.media_jobs shelf.renditions
            shelf.jobs).0;
    },
  )
  waveform_of now id workspace recording (some key) shelf =
      (some (record { url = presign key grant_ttl; expires_in_s = grant_ttl }), shelf)

  unfoldable pub waveform : (now id workspace recording : ℕ) → Shelf → Option WaveformGrant × Shelf
  unfolding peaks_key request_waveform
  waveform now id workspace recording shelf =
      waveform_of now id workspace recording (peaks_key workspace recording shelf.renditions) shelf

-- The MP4 as a file: signing takes the file name too.
module _ (presign_download : Text → ℕ → Text → Text) (download_filename : Text → Text) where
  abbrev pub download_of : Text → Option Text → Option DownloadGrant
  download_of title none = none
  download_of title (some key) =
      let filename = download_filename title in
      some (record {
        url = presign_download key grant_ttl filename;
        filename = filename;
        expires_in_s = grant_ttl;
      })

  abbrev pub keys_mp4 : Option PlaybackKeys → Option Text
  keys_mp4 none = none
  keys_mp4 (some keys) = keys.mp4

  unfoldable pub download : ℕ → ℕ → Text → Renditions → Option DownloadGrant
  unfolding playback_keys
  download workspace recording title renditions =
      download_of title (keys_mp4 (playback_keys workspace recording renditions))
