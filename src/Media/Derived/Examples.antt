-- ===== src/Media/Derived/Examples.antt =====
-- A ladder of one rung, with and without an edit that is applied in the meantime.
use sintade.Prelude.{◌≡◌, refl, [], ◌∷◌, none, some, ok, err, map, length}
use sintade.Prelude.Text.{Text, codes, decimal}
use sintade.Media.Renditions.{Rendition, Renditions, mp4, default}
use sintade.Media.Processing.{World, new_media_job}
use sintade.Media.Derived.{
  not_ready, built, superseded, Ladder, SpriteSet, build_hls, generate_sprite,
}
use sintade.Media.Derived.Current.{IsSafe, build_hls-IsSafe}

abbrev mp4_at : Text → Rendition
mp4_at key = record {
  workspace_id = 7;
  recording_id = 1;
  take_id = 11;
  kind = mp4;
  variant = default;
  storage_key = key;
  size_bytes = 90;
  duration_ms = some 9000;
  content_type = none;
  created_at = 15;
}

abbrev with_renditions : Renditions → World
with_renditions renditions = record {
  media_jobs = new_media_job 20 11 7 1 (codes "video/webm") 9000 [] ∷ [];
  renditions = renditions;
  jobs = [];
  recordings = [];
  outbox = [];
}

abbrev viewed : World
viewed = with_renditions (mp4_at (codes "rec/mp4/default.mp4") ∷ [])

abbrev edited : World
edited = with_renditions (mp4_at (codes "rec/edits/1/mp4/default.mp4") ∷ [])

abbrev one_rung : Ladder
one_rung = record {
  rungs = record { name = codes "360p"; bytes = 40; duration_ms = 9000 } ∷ [];
  master_bytes = 4;
}

abbrev sheets : SpriteSet
sheets = record { sheets = 30 ∷ 20 ∷ []; preview_bytes = 9; vtt_bytes = 3 }

ladder_built : (build_hls 40 11 7 (ok one_rung) (ok tt) (λ w. w) viewed).1 ≡ ok built
unfolding build_hls
ladder_built = refl

its_keys :
    map
      (λ (r : Rendition). r.storage_key)
      (build_hls 40 11 7 (ok one_rung) (ok tt) (λ w. w) viewed).0.renditions
    ≡ codes "rec/mp4/default.mp4"
      ∷ codes "rec/hls/360p/index.m3u8"
      ∷ codes "rec/hls/master.m3u8"
      ∷ []
unfolding build_hls
its_keys = refl

edit_came_first :
    build_hls 40 11 7 (ok one_rung) (ok tt) (λ _. edited) viewed ≡ (edited, ok superseded)
unfolding build_hls
edit_came_first = refl

five_rows : length (generate_sprite 40 11 7 (ok sheets) (ok tt) (λ w. w) viewed).0.renditions ≡ 5
unfolding generate_sprite decimal
five_rows = refl

no_mp4 :
    (generate_sprite 40 11 7 (ok sheets) (ok tt) (λ w. w) (with_renditions [])).1 ≡ err not_ready
unfolding generate_sprite
no_mp4 = refl

build_hls-IsSafe_example :
    IsSafe 40 11 7
      (ok one_rung)
      viewed
      edited
      (build_hls 40 11 7 (ok one_rung) (ok tt) (λ _. edited) viewed).0
build_hls-IsSafe_example = build_hls-IsSafe 40 11 7 (ok one_rung) (ok tt) (λ _. edited) viewed
