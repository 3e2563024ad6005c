-- ===== src/Pipette.antt =====
-- The colour that the pipette shows: sumPixelValues of libs/tiled-bitmap/src/layeroperations.cc,
-- and getPixelAverages of libs/tiled-bitmap/src/tiledbitmappresentation.cc from the rounded area
-- on. A colour is the list of the values of its channels. The areas lie in the bitmap, so that
-- their corners are not negative.
use scroom.Common.{
  ℕ, zero, suc, ◌+◌, ◌-◌, ◌*◌, ◌/◌, ◌==◌, if◌then◌else◌, List, [], ◌∷◌, replicate, map, max, min,
}
use scroom.SampleIterator.{SampleIterator, create, next_sample, move_by, get}
use scroom.LayerOperations.{Bytes, TileData}
use scroom.Layer.{tilesize}
pub mod Sums
pub mod Tiles
pub mod Averages
mod Examples

pub record Area : Type 0 where
  pub left : ℕ
  pub top : ℕ
  pub right : ℕ
  pub bottom : ℕ

-- The sums so far, and the iterator.
pub record Summing : Type 0 where
  pub sums : List ℕ
  pub si : SampleIterator

-- `sum_c += *si++; sum_m += *si++; ...`
pub add_pixel : Bytes → List ℕ → SampleIterator → Summing
add_pixel bytes [] si = record { sums = []; si = si }
add_pixel bytes (sum ∷ sums) si =
    let rest = add_pixel bytes sums (next_sample si) in
    record { sums = (sum + get si bytes) ∷ rest.sums; si = rest.si }

-- The loop over x.
pub add_line : Bytes → ℕ → Summing → Summing
add_line bytes zero s = s
add_line bytes (suc left) s = add_line bytes left (add_pixel bytes s.sums s.si)

-- The loop over y.
pub add_lines : Bytes → ℕ → ℕ → ℕ → Summing → Summing
add_lines bytes width stride zero s = s
add_lines bytes width stride (suc left) s =
    let line = add_line bytes width s in
    add_lines bytes width stride left (record line { si = move_by stride line.si })

pub sum_pixel_values : ℕ → ℕ → Area → TileData → List ℕ
sum_pixel_values channels bps area tile =
    let offset = channels * (area.top * tile.width + area.left) in
    let stride = channels * (tile.width - (area.right - area.left)) in
    let start : Summing = record {
      sums = replicate channels 0;
      si = move_by offset (create 0 0 bps);
    } in
    (add_lines tile.bytes (area.right - area.left) stride (area.bottom - area.top) start).sums

-- The sums of both, channel by channel. An empty colour is no colour yet.
pub add_channels : List ℕ → List ℕ → List ℕ
add_channels [] ys = []
add_channels (x ∷ xs) [] = []
add_channels (x ∷ xs) (y ∷ ys) = (y + x) ∷ add_channels xs ys

pub sum_pipette_colors : List ℕ → List ℕ → List ℕ
sum_pipette_colors [] rhs = rhs
sum_pipette_colors (x ∷ xs) rhs = add_channels (x ∷ xs) rhs

-- A quotient of two doubles, without rounding.
pub record Quotient : Type 0 where
  pub dividend : ℕ
  pub divisor : ℕ

pub divide_pipette_colors : List ℕ → ℕ → List Quotient
divide_pipette_colors elements divisor =
    map (λ e. record { dividend = e; divisor = divisor }) elements

-- The intersection of the area with tile (x, y), from the corner of that tile.
pub tile_area : Area → ℕ → ℕ → TileData → Area
tile_area area x y tile = record {
  left = max (x * tilesize) area.left - x * tilesize;
  top = max (y * tilesize) area.top - y * tilesize;
  right = min (x * tilesize + tile.width) area.right - x * tilesize;
  bottom = min (y * tilesize + tile.height) area.bottom - y * tilesize;
}

-- The parameter `layer` gives the tile at a place of the bottom layer.
module _ (channels bps : ℕ) (layer : ℕ → ℕ → TileData) (area : Area) where
  -- The loop over y.
  pub sum_column : ℕ → ℕ → ℕ → List ℕ → List ℕ
  sum_column x zero y colors = colors
  sum_column x (suc left) y colors =
      let tile = layer x y in
      let sums = sum_pixel_values channels bps (tile_area area x y tile) tile in
      sum_column x left (suc y) (sum_pipette_colors colors sums)

  -- The loop over x, with the lines of tiles from `y`.
  pub sum_columns : ℕ → ℕ → ℕ → ℕ → List ℕ → List ℕ
  sum_columns y lines zero x colors = colors
  sum_columns y lines (suc left) x colors =
      sum_columns y lines left (suc x) (sum_column x lines y colors)

  pub get_pixel_averages : List Quotient
  get_pixel_averages =
      let total_pixels = (area.right - area.left) * (area.bottom - area.top) in
      let x_start = area.left / tilesize in
      let y_start = area.top / tilesize in
      let x_end = (area.right - 1) / tilesize in
      let y_end = (area.bottom - 1) / tilesize in
      if total_pixels == 0
      then []
      else divide_pipette_colors
          (sum_columns y_start (suc y_end - y_start) (suc x_end - x_start) x_start []) total_pixels
