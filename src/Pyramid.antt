-- ===== src/Pyramid.antt =====
-- libs/tiled-bitmap/src/tiled-bitmap.cc and layercoordinator.cc: a bitmap is a pyramid of layers,
-- each an eighth of the one below it. A coordinator stands between a tile and the up to 64 tiles
-- below it that are reduced into it. Layer operations, drawing and progress are left out.
use scroom.Common.{
  ℕ, zero, suc, ◌+◌, ◌-◌, ◌*◌, ◌/◌, ◌%◌, max, ltb, ◌==◌, if◌then◌else◌, Option, none, some, List,
  [], ◌∷◌, ◌++◌, get_elem?, length, Bool, true, false, ◌&&◌, ◌||◌, not, ◌≡◌,
}
use scroom.Common.Int.{pos}
use scroom.Layer.{Tile, Layer, tilesize, create, get_tile, get_tile_line}
pub mod Levels
pub mod Connections
pub mod Reduction
mod Examples

-- `(width + 7) / 8`
unfoldable pub shrink : ℕ → ℕ
shrink size = (size + 7) / 8

-- The loop of `initialize` from layer i on: the layers above the one of the given sizes. `none`
-- is a lack of fuel.
pub layers_above : ℕ → ℕ → ℕ → ℕ → Option (List Layer)
layers_above zero i width height = none
layers_above (suc fuel) i width height =
    let rest = layers_above fuel (suc i) (shrink width) (shrink height) in
    if ltb (tilesize / 4) (max width height)
    then elim rest [ none ↦ none | some layers ↦ some (create i width height ∷ layers) ]
    else some []

-- initialize()
pub initialize : ℕ → ℕ → ℕ → Option (List Layer)
initialize fuel width height = elim (layers_above fuel 1 (shrink width) (shrink height)) [
  | none ↦ none
  | some layers ↦ some (create 0 width height ∷ layers)
]

-- A call of addSourceTile: the target tile of the coordinator, and the arguments.
pub record Source : Type 0 where
  pub target : Tile
  pub hoffset : ℕ
  pub voffset : ℕ
  pub source : Tile

-- The call for column i of row j. `none` is an index out of the range of a vector.
pub add_source : Layer → List Tile → ℕ → ℕ → Option Source
add_source prev coordinators i j = elim (get_elem? coordinators (i / 8)) [
  | none ↦ none
  | some target ↦ elim (get_tile prev (pos i) (pos j)) [
    | none ↦ none
    | some source ↦
        some (record { target = target; hoffset = i % 8; voffset = j % 8; source = source })
  ]
]

-- The inner loop of `connect`, from column i on.
pub connect_row : Layer → List Tile → ℕ → ℕ → ℕ → Option (List Source)
connect_row prev coordinators j i zero = some []
connect_row prev coordinators j i (suc left) = elim (add_source prev coordinators i j) [
  | none ↦ none
  | some call ↦ elim (connect_row prev coordinators j (suc i) left) [
    | none ↦ none
    | some calls ↦ some (call ∷ calls)
  ]
]

-- The coordinators that row j uses: new ones for every eighth row.
pub coordinators_for : Layer → List Tile → ℕ → Option (List Tile)
coordinators_for layer coordinators j =
    if j % 8 == 0 then get_tile_line layer (pos (j / 8)) else some coordinators

-- The outer loop, from row j on.
pub connect_rows : Layer → Layer → List Tile → ℕ → ℕ → Option (List Source)
connect_rows layer prev coordinators j zero = some []
connect_rows layer prev coordinators j (suc left) = elim (coordinators_for layer coordinators j) [
  | none ↦ none
  | some line ↦ elim (connect_row prev line j 0 prev.hor_tile_count) [
    | none ↦ none
    | some calls ↦ elim (connect_rows layer prev line (suc j) left) [
      | none ↦ none
      | some more ↦ some (calls ++ more)
    ]
  ]
]

pub connect : Layer → Layer → Option (List Source)
connect layer prev = connect_rows layer prev [] 0 prev.ver_tile_count

-- A source is added once, as `connect` does it. That its data are loaded when it is finished, which
-- tileFinished requires, is left out.
-- LayerCoordinator, with the sources whose reduction is scheduled, those that are reduced into the
-- target, and how often the target was reported to be finished, with the sources reduced by then.
pub record Coordinator : Type 0 where
  pub source_tiles : List ℕ
  pub unfinished_source_tiles : ℕ
  pub scheduled : List ℕ
  pub reduced : List ℕ
  pub reports : List (List ℕ)

pub create_coordinator : Coordinator
create_coordinator = record {
  source_tiles = [];
  unfinished_source_tiles = 0;
  scheduled = [];
  reduced = [];
  reports = [];
}

pub add_source_tile : ℕ → Coordinator → Coordinator
add_source_tile t c = record c {
  source_tiles = t ∷ c.source_tiles;
  unfinished_source_tiles = suc c.unfinished_source_tiles;
}

pub tile_finished : ℕ → Coordinator → Coordinator
tile_finished t c = record c { scheduled = t ∷ c.scheduled }

-- The job `reduceSourceTile`, for one of the scheduled tiles. The count is an int, which goes below
-- zero where this stops; it is above zero whenever a tile that was added is reduced once.
pub reduce_source_tile : ℕ → Coordinator → Coordinator
reduce_source_tile t c =
    let unfinished = c.unfinished_source_tiles - 1 in
    let reduced = t ∷ c.reduced in
    record c {
      unfinished_source_tiles = unfinished;
      reduced = reduced;
      reports = if unfinished == 0 then reduced ∷ c.reports else c.reports;
    }
