-- ===== src/Delivery/Rungs/Examples.antt =====
-- A request for a rung's playlist, with a token that expires in 100 seconds.
use sintade.Prelude.{ℕ, ◌≡◌, refl, [], ◌∷◌, ◌++◌, Option, some, none, if◌then◌else◌, All}
use sintade.Prelude.Sort.{sort_by}
use sintade.Prelude.Text.{Text, codes, text_eq, trim}
use sintade.Media.Renditions.{Renditions, hls, master}
use sintade.Delivery.Tokens.{invalid, issue, to_be_bytes}
use sintade.Delivery.Rungs.{Caches, refused, hls_rung, token_expiry, ladder_prefix, read_playlist}
use sintade.Delivery.Rungs.Signed.{IsServed, hls_rung-IsServed}
use sintade.Delivery.Scenario.{mac, encode, decode, id_bytes}
use sintade.Delivery.Playlists.{referenced_files}

abbrev ladder : Renditions
ladder =
    record {
      workspace_id = 7;
      recording_id = 1;
      take_id = 11;
      kind = hls;
      variant = master;
      storage_key = codes "base/hls/master.m3u8";
      size_bytes = 100;
      duration_ms = none;
      content_type = none;
      created_at = 10;
    }
    ∷ []

abbrev stored : Text → Option Text
stored key =
    if text_eq key (codes "base/hls/720p/index.m3u8")
    then some (codes "#EXTM3U\nseg-0.m4s\nseg-0.m4s\n")
    else none

abbrev presign : Text → ℕ → Text
presign key ttl = codes "https://s/" ++ key

abbrev cold : Caches
cold = record {
  prefixes = record { entries = []; ttl_s = 30; capacity = 1024 };
  playlists = record { entries = []; ttl_s = 30; capacity = 256 };
}

abbrev token : Option Text
token = some (issue mac encode decode (id_bytes 1) 1000)

signed_once :
    (hls_rung stored mac encode decode id_bytes presign 900 7 1
      (codes "720p")
      token
      ladder
      cold).0.1
    ≡ record { key = codes "base/hls/720p/seg-0.m4s"; ttl = 100 } ∷ []
unfolding hls_rung issue trim token_expiry to_be_bytes ladder_prefix sort_by read_playlist
    referenced_files
signed_once = refl

without_token :
    (hls_rung stored mac encode decode id_bytes presign 900 7 1 (codes "720p") none ladder cold).0
    ≡ (refused invalid, [])
unfolding hls_rung token_expiry
without_token = refl

hls_rung-IsServed_example :
    All
      (IsServed stored mac encode decode id_bytes presign 900 7 1 (codes "720p") token ladder cold)
      (hls_rung stored mac encode decode id_bytes presign 900 7 1
        (codes "720p")
        token
        ladder
        cold).0.1
hls_rung-IsServed_example =
    hls_rung-IsServed stored mac encode decode id_bytes presign 900 7 1 (codes "720p") token ladder
      cold
