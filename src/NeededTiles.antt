-- ===== src/NeededTiles.antt =====
-- libs/tiled-bitmap/src/tiledbitmapviewdata.cc: the tiles that a view needs, and the redraws that it is
-- asked for. `is_loaded` says for which tiles registering an observer calls tileLoaded at once. Layers
-- and layer operations are numbers.
use scroom.Common.{
  ℕ, zero, suc, ◌+◌, Bool, true, false, ◌&&◌, ◌||◌, ◌==◌, not, if◌then◌else◌, Option, none, some,
  List, [], ◌∷◌, ◌++◌,
}
use scroom.Common.Int.{ℤ, pos, pos_part, ◌+ℤ◌, ◌-ℤ◌, leb_ℤ, eqb_ℤ}
pub mod Calls
pub mod Registered
mod Examples

pub record Tile : Type 0 where
  pub layer : ℕ
  pub x : ℤ
  pub y : ℤ

-- What is kept: the view state of a tile with the operations and the zoom that it was given, the
-- registration with it, and the tile when it is loaded.
pub data Stuff : Type 0 where
  view_state : Tile → ℕ → ℤ → Stuff
  registration loaded : Tile → Stuff

-- The tiles with imin <= x < imax and jmin <= y < jmax.
pub record Area : Type 0 where
  pub imin : ℤ
  pub imax : ℤ
  pub jmin : ℤ
  pub jmax : ℤ

-- What can be thrown away: the life time managers of view states, and other things, by number.
pub data VolatileStuff : Type 0 where
  life_time_manager : Tile → VolatileStuff
  other : ℕ → VolatileStuff

-- `invalidations` counts the calls of async_on_ui_thread.
pub record ViewData : Type 0 where
  pub layer : Option ℕ
  pub area : Area
  pub zoom : ℤ
  pub layer_operations : ℕ
  pub stuff : List Stuff
  pub volatile_stuff : List VolatileStuff
  pub redraw_pending : Bool
  pub invalidations : ℕ

pub create : ViewData
create = record {
  layer = none;
  area = record { imin = pos 0; imax = pos 0; jmin = pos 0; jmax = pos 0 };
  zoom = pos 0;
  layer_operations = 0;
  stuff = [];
  volatile_stuff = [];
  redraw_pending = false;
  invalidations = 0;
}

pub tile_loaded : Tile → ViewData → ViewData
tile_loaded t d =
    let kept = record d { stuff = d.stuff ++ loaded t ∷ [] } in
    if d.redraw_pending
    then kept
    else record kept { redraw_pending = true; invalidations = suc d.invalidations }

pub is_layer : Option ℕ → ℕ → Bool
is_layer none l = false
is_layer (some k) l = k == l

pub covers : ViewData → ℕ → Area → ℤ → Bool
covers d l a z =
    is_layer d.layer l
    && leb_ℤ d.area.imin a.imin
    && leb_ℤ a.imax d.area.imax
    && leb_ℤ d.area.jmin a.jmin
    && leb_ℤ a.jmax d.area.jmax
    && eqb_ℤ d.zoom z

pub store_volatile_stuff : VolatileStuff → ViewData → ViewData
store_volatile_stuff s d = record d { volatile_stuff = d.volatile_stuff ++ s ∷ [] }

pub data Call : Type 0 where
  sets : ℕ → Area → ℤ → ℕ → Call
  loads : Tile → Call
  stores : VolatileStuff → Call
  clears : Call

module _ (is_loaded : Tile → Bool) where
  -- The body of the inner loop: the new stuff, and the state with what setViewData stores and with what
  -- tileLoaded does.
  pub register : Tile → List Stuff × ViewData → List Stuff × ViewData
  register t (new_stuff, d) = (
    new_stuff ++ view_state t d.layer_operations d.zoom ∷ registration t ∷ [],
    if is_loaded t then tile_loaded t d else d,
  )

  pub register_column : ℕ → ℕ → ℤ → ℤ → List Stuff × ViewData → List Stuff × ViewData
  register_column zero l i j r = r
  register_column (suc n) l i j r =
      register_column n l i (j +ℤ pos 1) (register (record { layer = l; x = i; y = j }) r)

  pub register_columns : ℕ → ℕ → Area → ℤ → List Stuff × ViewData → List Stuff × ViewData
  register_columns zero l a i r = r
  register_columns (suc n) l a i r =
      register_columns n l a (i +ℤ pos 1)
        (register_column (pos_part (a.jmax -ℤ a.jmin)) l i a.jmin r)

  -- What the locals hold is dropped; the new stuff comes after the tiles that were loaded meanwhile.
  pub splice : List Stuff × ViewData → ViewData
  splice (new_stuff, d) = record d { stuff = d.stuff ++ new_stuff }

  -- Without a layer the loops are empty, since the area is.
  pub reset_needed_tiles : ViewData → ViewData
  reset_needed_tiles d =
      let emptied = record d { stuff = []; volatile_stuff = [] } in
      elim d.layer [
        | none ↦ emptied
        | some l ↦ splice (
            register_columns (pos_part (d.area.imax -ℤ d.area.imin)) l d.area d.area.imin
              ([], emptied))
      ]

  pub set_needed_tiles : ℕ → Area → ℤ → ℕ → ViewData → ViewData
  set_needed_tiles l a z operations d =
      if covers d l a z
      then record d { redraw_pending = false }
      else record (reset_needed_tiles (record d {
        layer = some l;
        area = a;
        zoom = z;
        layer_operations = operations;
        redraw_pending = true;
      })) { redraw_pending = false }

  pub clear_volatile_stuff : ViewData → ViewData
  clear_volatile_stuff d = reset_needed_tiles (record d { volatile_stuff = [] })

  pub call : Call → ViewData → ViewData
  call (sets l a z operations) d = set_needed_tiles l a z operations d
  call (loads t) d = tile_loaded t d
  call (stores s) d = store_volatile_stuff s d
  call clears d = clear_volatile_stuff d

  pub call_all : List Call → ViewData → ViewData
  call_all [] d = d
  call_all (c ∷ cs) d = call_all cs (call c d)
