-- ===== src/Media/Sprite/Examples.antt =====
-- The sprite of a recording of two and a half seconds.
use sintade.Prelude.{◌≡◌, refl, max, length, arith}
use sintade.Prelude.Text.{codes, padded}
use sintade.Media.Sprite.{
  interval_seconds, tile_count, tile_place, vtt_time, cues, sprite_vtt, cue_text, cue_at,
  sheet_name,
}
use sintade.Media.Sprite.Cues.{Contiguous, cues-Contiguous}

hour_and_more : vtt_time 3723004 ≡ codes "01:02:03.004"
unfolding vtt_time padded
hour_and_more = refl

two_seconds : interval_seconds 301000 ≡ 2
unfolding interval_seconds
two_seconds = refl

one_cue :
    sprite_vtt 2500 3 90
    ≡ codes "WEBVTT\n\n00:00:00.000 --> 00:00:02.500\nsprite_0.jpg#xywh=0,0,160,90\n"
unfolding sprite_vtt cues cue_text vtt_time padded cue_at sheet_name
one_cue = refl

twelfth : tile_place 112 90 ≡ record { sheet = 1; x = 320; y = 90 }
unfolding tile_place
twelfth = refl

cues-Contiguous_example :
    Contiguous 0 (max 2500 1) (cues 2500 1 90) × (length (cues 2500 1 90) ≡ tile_count 2500 1)
cues-Contiguous_example = cues-Contiguous 2500 1 90 (omega arith)
