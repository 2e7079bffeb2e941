-- ===== src/Media/Sprite/Tiles.antt =====
-- How many thumbnails there are, and that each one has its own place.
use sintade.Prelude.{ℕ, suc, ◌+◌, ◌*◌, ◌/◌, ◌%◌, ◌≤◌, ◌<◌, ◌≡◌, ap, arith}
use native.Mathlib.Nat.{suc-mul, eq_of_mul-eq-mul_right, mul-le-mul_right}
use sintade.Prelude.Rounding.{div_ceil, div_ceil_iff}
use sintade.Media.Sprite.{
  tile_width, columns, rows, max_tiles, interval_seconds, tile_count, sheet_count, TilePlace,
  tile_place,
}

interval_pos : (duration : ℕ) → 0 < interval_seconds duration
unfolding interval_seconds
interval_pos duration = omega arith

interval_wide : (duration : ℕ) → duration ≤ 300000 * interval_seconds duration
unfolding interval_seconds
interval_wide duration = ground arith

few_tiles :
    (duration interval : ℕ)
    → 0 < interval
    → duration ≤ 300000 * interval
    → tile_count duration interval ≤ max_tiles
unfolding tile_count
few_tiles duration interval pos wide =
    let few : div_ceil duration (interval * 1000) ≤ 300 =
      (div_ceil_iff duration (interval * 1000) 300 (omega arith)).1 (omega arith) in
    omega arith

-- At the interval chosen for its length a recording of any length has at most 300 thumbnails.
pub tile_count-interval_seconds :
    (duration : ℕ) → tile_count duration (interval_seconds duration) ≤ max_tiles
tile_count-interval_seconds duration =
    few_tiles duration (interval_seconds duration) (interval_pos duration) (interval_wide duration)

-- Different thumbnails have different places, if a tile has a height.
pub tile_place-injective :
    (i j tile_height : ℕ)
    → 0 < tile_height
    → tile_place i tile_height ≡ tile_place j tile_height
    → i ≡ j
unfolding tile_place
tile_place-injective i j tile_height pos h =
    let sheet : i / 100 ≡ j / 100 = ap TilePlace.sheet h in
    let x : i % 100 % 10 * 160 ≡ j % 100 % 10 * 160 = ap TilePlace.x h in
    let y : i % 100 / 10 * tile_height ≡ j % 100 / 10 * tile_height = ap TilePlace.y h in
    let row : i % 100 / 10 ≡ j % 100 / 10 =
      eq_of_mul-eq-mul_right tile_height pos (i % 100 / 10) (j % 100 / 10) y in
    omega arith

-- A thumbnail lies inside its sheet, and its sheet is one of those that are counted.
pub tile_place-inside :
    (index tiles tile_height : ℕ)
    → index < tiles
    → let place = tile_place index tile_height in
      (place.x + tile_width ≤ columns * tile_width)
      × (place.y + tile_height ≤ rows * tile_height)
      × (place.sheet < sheet_count tiles)
unfolding tile_place sheet_count
tile_place-inside index tiles tile_height h =
    let row : suc (index % 100 / 10) * tile_height ≤ 10 * tile_height =
      mul-le-mul_right tile_height (omega arith) in
    let unfolded = suc-mul (index % 100 / 10) tile_height in
    (omega arith, omega arith, ground arith)
