-- ===== src/Redraw.antt =====
-- TiledBitmap::redraw of libs/tiled-bitmap/src/tiled-bitmap.cc: the layer that is drawn, and its tiles. The
-- doubles are fractions: an edge of the area is a number over `denominator`, which each layer
-- multiplies by 8.
use scroom.Common.{
  ℕ, zero, suc, ◌+◌, ◌-◌, ◌*◌, ◌≤◌, ◌<◌, Bool, true, false, ◌&&◌, ltb, if◌then◌else◌, Option, none,
  some, List, [], ◌∷◌, ◌++◌,
}
use scroom.Common.Int.{ℤ, pos, negsuc, pos_part, ◌+ℤ◌, ◌-ℤ◌, leb_ℤ, max_ℤ, div_ℤ}
use scroom.Layer.{tilesize}
use scroom.NeededTiles.{Area, Tile, ViewData, set_needed_tiles}
pub mod Complete
pub mod Tiles
mod Examples

pub record Choice : Type 0 where
  pub layer_nr : ℕ
  pub zoom : ℤ
  pub denominator : ℕ

pub record Requested : Type 0 where
  pub left : ℤ
  pub top : ℤ
  pub right : ℤ
  pub bottom : ℤ
  pub denominator : ℕ

-- The loop over the layers; `above` are the layers above the one that is chosen so far.
pub choose_layer : ℕ → Choice → Choice
choose_layer zero c = c
choose_layer (suc above) c =
    let rest = choose_layer above (record {
      layer_nr = suc c.layer_nr;
      zoom = c.zoom +ℤ pos 3;
      denominator = c.denominator * 8;
    }) in
    if leb_ℤ c.zoom (negsuc 2) then rest else c

-- ls[std::min(ls.size() - 1, layerNr)]
pub operations_of : ℕ → ℕ → ℕ
operations_of size layer_nr = if ltb layer_nr size then layer_nr else size - 1

-- static_cast<int> of an edge
pub to_int : ℤ → ℕ → ℤ
to_int edge denominator = div_ℤ edge (pos denominator)

pub first_tile : ℤ → ℤ
first_tile start = max_ℤ (pos 0) (div_ℤ start (pos tilesize))

pub end_tile : ℤ → ℤ
end_tile end = div_ℤ (end +ℤ pos tilesize -ℤ pos 1) (pos tilesize)

pub tile_area : Requested → ℕ → Area
tile_area r denominator = record {
  imin = first_tile (to_int r.left denominator);
  imax = end_tile (to_int r.right denominator);
  jmin = first_tile (to_int r.top denominator);
  jmax = end_tile (to_int r.bottom denominator);
}

-- The tiles of a column, and of all columns, in the order in which they are drawn.
pub column_tiles : ℕ → ℕ → ℤ → ℤ → List Tile
column_tiles zero l i j = []
column_tiles (suc n) l i j = record { layer = l; x = i; y = j } ∷ column_tiles n l i (j +ℤ pos 1)

pub area_tiles : ℕ → ℕ → Area → ℤ → List Tile
area_tiles zero l a i = []
area_tiles (suc n) l a i =
    column_tiles (pos_part (a.jmax -ℤ a.jmin)) l i a.jmin ++ area_tiles n l a (i +ℤ pos 1)

pub record Drawn : Type 0 where
  pub view_data : ViewData
  pub tiles : List Tile
  pub drawn_zoom : ℤ

-- `layers` is the number of layers, at least 1, and `operations` that of the layer operations.
pub redraw : (Tile → Bool) → ℕ → ℕ → Requested → ℤ → ViewData → Drawn
redraw is_loaded layers operations r zoom d =
    let c =
      choose_layer (layers - 1)
        (record { layer_nr = 0; zoom = zoom; denominator = r.denominator }) in
    let a = tile_area r c.denominator in
    record {
      view_data =
          set_needed_tiles is_loaded c.layer_nr a c.zoom (operations_of operations c.layer_nr) d;
      tiles = area_tiles (pos_part (a.imax -ℤ a.imin)) c.layer_nr a a.imin;
      drawn_zoom = c.zoom;
    }
