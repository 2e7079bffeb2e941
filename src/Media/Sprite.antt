-- ===== src/Media/Sprite.antt =====
-- The scrub sprite (crates/media/src/domain/sprite.rs): how many thumbnails a recording gets, where
-- each one is, and the cues that map times to them.
pub mod Tiles
pub mod Cues
mod Examples
use sintade.Prelude.Rounding.{div_ceil}
use sintade.Prelude.{ℕ, zero, suc, ◌+◌, ◌*◌, ◌/◌, ◌%◌, max, min, List, [], ◌∷◌, ◌++◌}
use sintade.Prelude.Text.{Text, codes, decimal, padded}

abbrev pub tile_width : ℕ
tile_width = 160

abbrev pub columns : ℕ
columns = 10

abbrev pub rows : ℕ
rows = 10

abbrev pub tiles_per_sheet : ℕ
tiles_per_sheet = columns * rows

abbrev pub max_tiles : ℕ
max_tiles = 3 * tiles_per_sheet

unfoldable pub interval_seconds : ℕ → ℕ
interval_seconds duration = max (div_ceil (max (div_ceil duration 1000) 1) max_tiles) 1

unfoldable pub tile_count : ℕ → ℕ → ℕ
tile_count duration interval = max (div_ceil duration (interval * 1000)) 1

unfoldable pub sheet_count : ℕ → ℕ
sheet_count tiles = div_ceil tiles tiles_per_sheet

unfoldable pub sheet_name : ℕ → Text
sheet_name index = codes "sprite_" ++ (decimal index ++ codes ".jpg")

pub record TilePlace : Type 0 where
  pub sheet : ℕ
  pub x : ℕ
  pub y : ℕ

unfoldable pub tile_place : ℕ → ℕ → TilePlace
tile_place index tile_height =
    let in_sheet = index % tiles_per_sheet in
    record {
      sheet = index / tiles_per_sheet;
      x = in_sheet % columns * tile_width;
      y = in_sheet / columns * tile_height;
    }

unfoldable pub vtt_time : ℕ → Text
vtt_time ms =
    padded 2 (ms / 3600000)
    ++ (codes ":"
        ++ (padded 2 (ms / 60000 % 60)
            ++ (codes ":" ++ (padded 2 (ms / 1000 % 60) ++ (codes "." ++ padded 3 (ms % 1000))))))

-- What one round of the loop of `sprite_vtt` writes.
pub record Cue : Type 0 where
  pub start : ℕ
  pub end : ℕ
  pub place : TilePlace

unfoldable pub cue_at : ℕ → ℕ → ℕ → ℕ → Cue
unfolding tile_place
cue_at duration step tile_height index = record {
  start = index * step;
  end = min (index * step + step) (max duration (index * step + 1));
  place = tile_place index tile_height;
}

-- The rounds left, from `index` on.
unfoldable pub cues_from : ℕ → ℕ → ℕ → ℕ → ℕ → List Cue
cues_from duration step tile_height zero index = []
cues_from duration step tile_height (suc rounds) index =
    cue_at duration step tile_height index ∷ cues_from duration step tile_height rounds (index + 1)

unfoldable pub cues : ℕ → ℕ → ℕ → List Cue
unfolding cues_from tile_count
cues duration interval tile_height =
    cues_from duration (interval * 1000) tile_height (tile_count duration interval) 0

unfoldable pub cue_text : ℕ → Cue → Text
cue_text tile_height cue =
    codes "\n"
    ++ (vtt_time cue.start
        ++ (codes " --> "
            ++ (vtt_time cue.end
                ++ (codes "\n"
                    ++ (sheet_name cue.place.sheet
                        ++ (codes "#xywh="
                            ++ (decimal cue.place.x
                                ++ (codes ","
                                    ++ (decimal cue.place.y
                                        ++ (codes ","
                                            ++ (decimal tile_width
                                                ++ (codes ","
                                                    ++ (decimal tile_height
                                                        ++ codes "\n")))))))))))))

abbrev pub cue_texts : ℕ → List Cue → Text
cue_texts tile_height [] = []
cue_texts tile_height (cue ∷ rest) = cue_text tile_height cue ++ cue_texts tile_height rest

unfoldable pub sprite_vtt : ℕ → ℕ → ℕ → Text
sprite_vtt duration interval tile_height =
    codes "WEBVTT\n" ++ cue_texts tile_height (cues duration interval tile_height)
