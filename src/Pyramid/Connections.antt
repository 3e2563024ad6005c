-- ===== src/Pyramid/Connections.antt =====
-- Which tile is reduced into which tile of the layer above.
use scroom.Common.{
  ℕ, zero, suc, ◌+◌, ◌/◌, ◌%◌, ◌≤◌, ◌<◌, ◌≡◌, refl, ◌∙◌, ap, arith, ◌⊎◌, inl, inr, ◌==◌, ==_iff,
  Bool-cases, some, List, [], ◌∷◌, ◌++◌, get_elem?,
}
use scroom.Common.Int.{pos}
use scroom.Layer.{Tile, tile, Layer, tile_count, tile_line, create, get_tile, get_tile_line}
use scroom.Layer.Grid.{get_elem?-tile_line, get_elem?-tile_lines, get_tile-create}
use scroom.Pyramid.{
  shrink, Source, add_source, connect_row, coordinators_for, connect_rows, connect,
}

-- What is to be done with the tile in column i of row j.
abbrev pub source_at : ℕ → ℕ → Source
source_at i j = record {
  target = tile (i / 8) (j / 8);
  hoffset = i % 8;
  voffset = j % 8;
  source = tile i j;
}

abbrev pub row_sources : ℕ → ℕ → ℕ → List Source
row_sources j i zero = []
row_sources j i (suc left) = source_at i j ∷ row_sources j (suc i) left

abbrev pub all_sources : ℕ → ℕ → ℕ → List Source
all_sources hor j zero = []
all_sources hor j (suc left) = row_sources j 0 hor ++ all_sources hor (suc j) left

-- A layer has an eighth of the tiles of the layer below, rounded up: each of its tiles has a tile
-- below it.
pub tile_count-shrink : (size : ℕ) → tile_count (shrink size) ≡ (tile_count size + 7) / 8
unfolding tile_count shrink
tile_count-shrink size = omega arith

eighth : (size i : ℕ) → i < tile_count size → i / 8 < tile_count (shrink size)
eighth size i h = omega (arith, tile_count-shrink size)

add_source-some :
    (prev : Layer) (coordinators : List Tile) (i j : ℕ) (target source : Tile)
    → get_elem? coordinators (i / 8) ≡ some target
    → get_tile prev (pos i) (pos j) ≡ some source
    → add_source prev coordinators i j
      ≡ some (record { target = target; hoffset = i % 8; voffset = j % 8; source = source })
unfolding add_source
add_source-some prev coordinators i j target source e k = ground (arith, e, k)

connect_row-some :
    (prev : Layer) (coordinators : List Tile) (j i left : ℕ) (call : Source) (calls : List Source)
    → add_source prev coordinators i j ≡ some call
    → connect_row prev coordinators j (suc i) left ≡ some calls
    → connect_row prev coordinators j i (suc left) ≡ some (call ∷ calls)
unfolding connect_row
connect_row-some prev coordinators j i left call calls e k = ground (arith, e, k)

connect_rows-some :
    (layer prev : Layer) (coordinators now : List Tile) (j left : ℕ) (calls more : List Source)
    → coordinators_for layer coordinators j ≡ some now
    → connect_row prev now j 0 prev.hor_tile_count ≡ some calls
    → connect_rows layer prev now (suc j) left ≡ some more
    → connect_rows layer prev coordinators j (suc left) ≡ some (calls ++ more)
unfolding connect_rows
connect_rows-some layer prev coordinators now j left calls more e k m = ground (arith, e, k, m)

module _ (depth width height : ℕ) where
  abbrev below : Layer
  below = create depth width height

  abbrev above : Layer
  above = create (suc depth) (shrink width) (shrink height)

  abbrev line : ℕ → List Tile
  line j = tile_line (j / 8) 0 (tile_count (shrink width))

  get_tile-inside :
      (i j : ℕ)
      → i < tile_count width
      → j < tile_count height
      → get_tile below (pos i) (pos j) ≡ some (tile i j)
  get_tile-inside i j h k = get_tile-create depth width height (pos i) (pos j) ∙ ground arith

  add_source-line :
      (i j : ℕ)
      → i < tile_count width
      → j < tile_count height
      → add_source below (line j) i j ≡ some (source_at i j)
  add_source-line i j h k =
      add_source-some below (line j) i j (tile (i / 8) (j / 8)) (tile i j)
        (get_elem?-tile_line (j / 8) 0 (tile_count (shrink width)) (i / 8) (eighth width i h)
          ∙ ap (λ n. some (tile n (j / 8))) (omega arith))
        (get_tile-inside i j h k)

  connect_row-line :
      (j i left : ℕ)
      → i + left ≤ tile_count width
      → j < tile_count height
      → connect_row below (line j) j i left ≡ some (row_sources j i left)
  unfolding connect_row
  connect_row-line j i zero h k = refl
  connect_row-line j i (suc left) h k =
      connect_row-some below (line j) j i left (source_at i j) (row_sources j (suc i) left)
        (add_source-line i j (omega arith) k) (connect_row-line j (suc i) left (omega arith) k)

  -- The coordinators in use before row j, where that row makes no new ones.
  abbrev AreFor : ℕ → List Tile → Type 0
  AreFor j coordinators = (j % 8 ≡ 0) ⊎ (coordinators ≡ line j)

  coordinators_for-line :
      (j : ℕ) (coordinators : List Tile)
      → j < tile_count height
      → AreFor j coordinators
      → coordinators_for above coordinators j ≡ some (line j)
  unfolding coordinators_for get_tile_line create
  coordinators_for-line j coordinators h (inl e) = ground (
    arith,
    e,
    eighth height j h,
    get_elem?-tile_lines (tile_count (shrink width)) 0 (tile_count (shrink height)) (j / 8),
  )
  coordinators_for-line j coordinators h (inr e) = ground (
    arith,
    e,
    eighth height j h,
    get_elem?-tile_lines (tile_count (shrink width)) 0 (tile_count (shrink height)) (j / 8),
  )

  AreFor-next : (j : ℕ) → AreFor (suc j) (line j)
  AreFor-next j = elim (Bool-cases (suc j % 8 == 0)) [
    | inl e ↦ inl ((==_iff (suc j % 8) 0).0 e)
    | inr e ↦ inr (ap (λ n. tile_line n 0 (tile_count (shrink width))) (ground (arith, e)))
  ]

  connect_rows-all :
      (left j : ℕ) (coordinators : List Tile)
      → j + left ≤ tile_count height
      → AreFor j coordinators
      → connect_rows above below coordinators j left ≡ some (all_sources (tile_count width) j left)
  unfolding connect_rows create
  connect_rows-all zero j coordinators h a = refl
  connect_rows-all (suc left) j coordinators h a =
      connect_rows-some above below coordinators (line j) j left
        (row_sources j 0 (tile_count width)) (all_sources (tile_count width) (suc j) left)
        (coordinators_for-line j coordinators (omega arith) a)
        (connect_row-line j 0 (tile_count width) (omega arith) (omega arith))
        (connect_rows-all left (suc j) (line j) (omega arith) (AreFor-next j))

  -- Connecting a layer to the one below it leaves the range of no vector, and calls addSourceTile
  -- once for each tile below, row by row: for the coordinator of the tile above it, at the offset
  -- that it has among the 8 by 8 tiles there.
  pub connect-all_sources :
      connect above below ≡ some (all_sources (tile_count width) 0 (tile_count height))
  unfolding connect create
  connect-all_sources = connect_rows-all (tile_count height) 0 [] (omega arith) (inl refl)
