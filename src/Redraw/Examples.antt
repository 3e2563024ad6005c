-- ===== src/Redraw/Examples.antt =====
-- A bitmap with three layers.
use scroom.Common.{arith, ◌≡◌, refl, Bool, false, [], ◌∷◌}
use scroom.Common.Int.{pos, negsuc, ◌+ℤ◌, ◌-ℤ◌, div_ℤ}
use scroom.NeededTiles.{Tile, create, call_all, clears}
use scroom.NeededTiles.Registered.{IsRegistered}
use scroom.Redraw.{Choice, Requested, choose_layer, to_int, first_tile, end_tile, tile_area, redraw}
use scroom.Redraw.Tiles.{IsChosen, HasPixel}
use scroom.Redraw.Complete.{IsAmong, redraw-IsComplete}

abbrev none_loaded : Tile → Bool
none_loaded t = false

abbrev requested : Requested
requested = record {
  left = negsuc 99;
  top = pos 0;
  right = pos 32772;
  bottom = pos 32768;
  denominator = 1;
}

layer_test :
    choose_layer 2 (record { layer_nr = 0; zoom = negsuc 2; denominator = 1 })
    ≡ record { layer_nr = 1; zoom = pos 0; denominator = 8 }
unfolding choose_layer ◌+ℤ◌
layer_test = refl

-- The right edge is at 4096.5 pixels of layer 1: the tile from 4096 on is not drawn.
edge_test :
    tile_area requested 8 ≡ record { imin = pos 0; imax = pos 1; jmin = pos 0; jmax = pos 1 }
unfolding tile_area first_tile end_tile to_int div_ℤ ◌-ℤ◌ ◌+ℤ◌
edge_test = refl

redraw-IsComplete_example :
    let start : Choice = record { layer_nr = 0; zoom = negsuc 2; denominator = 1 } in
    let c = choose_layer 2 start in
    let drawn =
      redraw none_loaded 3 2 requested (negsuc 2) (call_all none_loaded (clears ∷ []) create) in
    IsChosen 2 start c
    × IsAmong (record { layer = c.layer_nr; x = pos 0; y = pos 0 }) drawn.tiles
    × IsRegistered
        (record { layer = c.layer_nr; x = pos 0; y = pos 0 })
        drawn.view_data.layer_operations
        c.zoom
        drawn.view_data.stuff
    × (drawn.view_data.redraw_pending ≡ false)
unfolding choose_layer to_int div_ℤ HasPixel ◌+ℤ◌ ◌-ℤ◌
redraw-IsComplete_example =
    redraw-IsComplete none_loaded 3 2 requested (negsuc 2) (clears ∷ []) 0 0
      (7, omega arith, omega arith, refl) (4095, omega arith, omega arith, refl)
