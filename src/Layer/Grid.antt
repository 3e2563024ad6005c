-- ===== src/Layer/Grid.antt =====
-- Which tile stands at a place of the grid.
use scroom.Common.{
  ℕ, zero, suc, ◌+◌, ◌*◌, ◌<◌, ◌≡◌, ◌↔◌, ◌∙◌, ap, arith, ◌&&◌, ltb, if◌then◌else◌, some, get_elem?,
}
use scroom.Common.Int.{ℤ, pos, negsuc}
use scroom.Layer.{
  Tile, tile, out_of_bounds, tilesize, tile_count, tile_line, tile_lines, create, get_tile,
}

pub get_elem?-tile_line :
    (j i left k : ℕ) → k < left → get_elem? (tile_line j i left) k ≡ some (tile (i + k) j)
unfolding tile_line
get_elem?-tile_line j i zero k h = absurd (omega arith)
get_elem?-tile_line j i (suc left) zero h = ap (λ n. some (tile n j)) (omega arith)
get_elem?-tile_line j i (suc left) (suc k) h =
    get_elem?-tile_line j (suc i) left k (omega arith) ∙ ap (λ n. some (tile n j)) (omega arith)

pub get_elem?-tile_lines :
    (hor j left k : ℕ)
    → k < left
    → get_elem? (tile_lines hor j left) k ≡ some (tile_line (j + k) 0 hor)
unfolding tile_lines
get_elem?-tile_lines hor j zero k h = absurd (omega arith)
get_elem?-tile_lines hor j (suc left) zero h = ap (λ n. some (tile_line n 0 hor)) (omega arith)
get_elem?-tile_lines hor j (suc left) (suc k) h =
    get_elem?-tile_lines hor (suc j) left k (omega arith)
    ∙ ap (λ n. some (tile_line n 0 hor)) (omega arith)

-- The place of a tile, as getTile finds it.
abbrev pub place : ℕ → ℕ → ℤ → ℤ → Tile
place hor ver (pos i) (pos j) = if ltb i hor && ltb j ver then tile i j else out_of_bounds
place hor ver _ _ = out_of_bounds

-- In a new layer no index of getTile goes out of the range of a vector: inside the grid it finds
-- the tile of that place, and elsewhere, also at negative places, the tile that is out of bounds.
pub get_tile-create :
    (depth width height : ℕ) (i j : ℤ)
    → get_tile (create depth width height) i j
      ≡ some (place (tile_count width) (tile_count height) i j)
unfolding get_tile create
get_tile-create depth width height (pos i) (pos j) =
    let hor = tile_count width in
    let ver = tile_count height in
    ground (arith, get_elem?-tile_lines hor 0 ver j, get_elem?-tile_line j 0 hor i)
get_tile-create depth width height (pos i) (negsuc j) = ground arith
get_tile-create depth width height (negsuc i) (pos j) = ground arith
get_tile-create depth width height (negsuc i) (negsuc j) = ground arith

-- A column or row of tiles exists exactly when its first pixel lies within the layer.
pub tile_count_iff : (size k : ℕ) → (k < tile_count size) ↔ (k * tilesize < size)
unfolding tile_count
tile_count_iff size k = (λ h. omega arith, λ h. omega arith)
