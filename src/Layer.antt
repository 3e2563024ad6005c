-- ===== src/Layer.antt =====
-- libs/tiled-bitmap/src/layer.cc: a layer of a bitmap is a grid of tiles, which a DataFetcher fills
-- row by row. A layer's sizes are not negative; a tile is named by its place. The pixels that a
-- source fills in and the observers of the tiles are left out.
use scroom.Common.{
  ℕ, zero, suc, ◌+◌, ◌-◌, ◌*◌, ◌/◌, min, Bool, ◌&&◌, ltb, if◌then◌else◌, Option, none, some, List,
  [], ◌∷◌, ◌++◌, get_elem?, replicate,
}
use scroom.Common.Int.{ℤ, pos, pos_part, leb_ℤ, ltb_ℤ}
use scroom.QueueJumper.{Jumper, set_work}
pub mod Grid
pub mod Fetch
mod Examples

abbrev pub tilesize : ℕ
tilesize = 4096

pub data Tile : Type 0 where
  tile : ℕ → ℕ → Tile
  out_of_bounds : Tile

pub record Layer : Type 0 where
  pub depth : ℕ
  pub width : ℕ
  pub height : ℕ
  pub hor_tile_count : ℕ
  pub ver_tile_count : ℕ
  pub tiles : List (List Tile)
  pub line_out_of_bounds : List Tile

-- The number of tiles that cover a size.
unfoldable pub tile_count : ℕ → ℕ
tile_count size = (size + tilesize - 1) / tilesize

-- The two loops of the constructor, from column i of row j and from row j.
pub tile_line : ℕ → ℕ → ℕ → List Tile
tile_line j i zero = []
tile_line j i (suc left) = tile i j ∷ tile_line j (suc i) left

pub tile_lines : ℕ → ℕ → ℕ → List (List Tile)
tile_lines hor j zero = []
tile_lines hor j (suc left) = tile_line j 0 hor ∷ tile_lines hor (suc j) left

unfoldable pub create : ℕ → ℕ → ℕ → Layer
create depth width height = record {
  depth = depth;
  width = width;
  height = height;
  hor_tile_count = tile_count width;
  ver_tile_count = tile_count height;
  tiles = tile_lines (tile_count width) 0 (tile_count height);
  line_out_of_bounds = replicate (tile_count width) out_of_bounds;
}

abbrev inside : ℕ → ℤ → Bool
inside n i = leb_ℤ (pos 0) i && ltb_ℤ i (pos n)

abbrev elem_of : Option (List Tile) → ℕ → Option Tile
elem_of none i = none
elem_of (some line) i = get_elem? line i

-- getTile: `none` is an index out of the range of a vector.
unfoldable pub get_tile : Layer → ℤ → ℤ → Option Tile
get_tile l i j =
    if inside l.hor_tile_count i && inside l.ver_tile_count j
    then elem_of (get_elem? l.tiles (pos_part j)) (pos_part i)
    else some out_of_bounds

unfoldable pub get_tile_line : Layer → ℤ → Option (List Tile)
get_tile_line l j =
    if inside l.ver_tile_count j then get_elem? l.tiles (pos_part j) else some l.line_out_of_bounds

-- A call of fillTiles: the first line, and how many.
pub record Fill : Type 0 where
  pub start_line : ℕ
  pub line_count : ℕ

-- The part of DataFetcher::operator() up to the fetch of the next row, for row `row`. The row
-- starts within the height, except for a bitmap without lines, of which row 0 is fetched.
pub fill_row : Layer → ℕ → Fill
fill_row l row = record {
  start_line = row * tilesize;
  line_count = min tilesize (l.height - row * tilesize);
}

-- The next row to fetch; `none` where the source is told that all is done.
pub next_row : Layer → ℕ → Option ℕ
next_row l row = if ltb (suc row) l.ver_tile_count then some (suc row) else none

-- All calls of operator() from a row on, one after another. `none` is a lack of fuel.
pub fetch_data : ℕ → Layer → ℕ → Option (List Fill)
fetch_data zero l row = none
fetch_data (suc fuel) l row =
    let rest = fetch_data fuel l (suc row) in
    elim (next_row l row) [
      | none ↦ some (fill_row l row ∷ [])
      | some next ↦ elim rest [ none ↦ none | some fills ↦ some (fill_row l row ∷ fills) ]
    ]

-- The successor of a DataFetcher goes to its QueueJumper, or to the pool if that does not take it.
pub hand_over : ℕ → Jumper → List ℕ → Jumper × List ℕ
hand_over successor qj scheduled =
    let (jumper, accepted) = set_work successor qj in
    (jumper, if accepted then scheduled else scheduled ++ successor ∷ [])
