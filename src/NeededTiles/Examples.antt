-- ===== src/NeededTiles/Examples.antt =====
-- A layer with one loaded tile.
use scroom.Common.{arith, false, ◌≡◌, refl, Bool, ◌&&◌, List, [], ◌∷◌}
use scroom.Common.Int.{pos, eqb_ℤ, ◌-ℤ◌, ◌+ℤ◌}
use scroom.NeededTiles.{
  Tile, Area, create, tile_loaded, is_layer, covers, register, register_column, register_columns,
  splice, reset_needed_tiles, set_needed_tiles, store_volatile_stuff, clear_volatile_stuff, Call,
  sets, loads, stores, other, clears, call, call_all,
}
use scroom.NeededTiles.Calls.{IsIn, call_all-IsRegistered}
use scroom.NeededTiles.Registered.{IsRegistered}

abbrev corner : Tile → Bool
corner t = eqb_ℤ t.x (pos 0) && eqb_ℤ t.y (pos 0)

abbrev square : Area
square = record { imin = pos 0; imax = pos 2; jmin = pos 0; jmax = pos 2 }

abbrev calls : List Call
calls =
    stores (other 7)
    ∷ sets 1 square (pos 0) 0
    ∷ loads (record { layer = 1; x = pos 1; y = pos 0 })
    ∷ clears
    ∷ []

-- The tile that is loaded after the redraw asks for another one; that which was loaded before does not.
calls_test : (call_all corner calls create).invalidations ≡ 1
unfolding call_all call create store_volatile_stuff clear_volatile_stuff set_needed_tiles covers
    is_layer reset_needed_tiles register_columns register_column register splice tile_loaded ◌-ℤ◌
    ◌+ℤ◌
calls_test = refl

call_all-IsRegistered_example :
    let d = call_all corner calls create in
    let e = set_needed_tiles corner 2 square (pos 0) 0 d in
    (e.redraw_pending ≡ false)
    × (e.invalidations ≡ d.invalidations)
    × IsRegistered (record { layer = 2; x = pos 1; y = pos 0 }) e.layer_operations (pos 0) e.stuff
unfolding IsIn
call_all-IsRegistered_example =
    call_all-IsRegistered corner calls 2 square (pos 0) 0 (pos 1) (pos 0)
      (omega arith, omega arith, omega arith, omega arith)
