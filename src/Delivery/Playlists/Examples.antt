-- ===== src/Delivery/Playlists/Examples.antt =====
-- The playlists of a ladder, as they are stored and as they are served.
use sintade.Prelude.{◌≡◌, refl, [], ◌∷◌, ◌++◌, some, none}
use sintade.Prelude.Text.{Text, codes, trim}
use sintade.Delivery.Playlists.{tokenize_master, referenced_files, rewrite}

abbrev master_playlist : Text
master_playlist = codes "#EXTM3U\n720p/index.m3u8\n"

with_token : tokenize_master master_playlist (codes "T") ≡ codes "#EXTM3U\n720p/index.m3u8?t=T\n"
unfolding tokenize_master
with_token = refl

abbrev rung_playlist : Text
rung_playlist = codes "#EXTM3U\n#EXT-X-MAP:URI=\"init.mp4\"\n#EXTINF:6.0,\nseg-0.m4s\n"

its_files : referenced_files rung_playlist ≡ some (codes "init.mp4" ∷ codes "seg-0.m4s" ∷ [])
unfolding referenced_files trim
its_files = refl

signed_urls :
    rewrite (λ file. some (codes "https://s/" ++ file)) rung_playlist
    ≡ codes "#EXTM3U\n#EXT-X-MAP:URI=\"https://s/init.mp4\"\n#EXTINF:6.0,\nhttps://s/seg-0.m4s\n"
unfolding rewrite trim
signed_urls = refl

-- A path out of the directory leaves the whole playlist unserved.
no_path : referenced_files (codes "../seg-0.m4s\n") ≡ none
unfolding referenced_files trim
no_path = refl

-- An unquoted name is referenced, and stays as it is.
unquoted_map :
    (referenced_files (codes "#EXT-X-MAP:URI=init.mp4") ≡ some (codes "init.mp4" ∷ []))
    × (rewrite (λ file. some (codes "https://s/" ++ file)) (codes "#EXT-X-MAP:URI=init.mp4\n")
        ≡ codes "#EXT-X-MAP:URI=init.mp4\n")
unfolding referenced_files rewrite trim
unquoted_map = (refl, refl)
