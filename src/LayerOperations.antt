-- ===== src/LayerOperations.antt =====
-- libs/tiled-bitmap/src/layeroperations.cc and cmyklayeroperations.cc: what the pixels of a tile
-- become in the tile that shows them eight times smaller, and in the image that is drawn. The bytes
-- of a tile are a function from positions to numbers below 256. Source and target are different
-- tiles, so that what is written does not change what is read.
use scroom.Common.{ℕ, zero, suc, ◌+◌, ◌*◌, ◌%◌, List, [], ◌∷◌, ◌==◌, if◌then◌else◌}
pub mod Loops
pub mod Reduce
pub mod Averages
pub mod Samples
pub mod Rows
pub mod Reduction
pub mod Eighth
pub mod Indexed
pub mod Cache
mod Examples

abbrev pub Bytes : Type 0
Bytes = ℕ → ℕ

-- width, height and data of a Tile or ConstTile
pub record TileData : Type 0 where
  pub width : ℕ
  pub height : ℕ
  pub bytes : Bytes

-- `for(...; current += step) sum += f(current)`
pub sum_steps : (ℕ → ℕ) → ℕ → ℕ → ℕ → ℕ
sum_steps f step zero current = 0
sum_steps f step (suc left) current = f current + sum_steps f step left (current + step)

-- `ptr[0] = v; ptr[1] = ...`, which keeps the lowest eight bits of each value.
pub store : List ℕ → ℕ → Bytes → Bytes
store [] ptr bytes p = bytes p
store (v ∷ vs) ptr bytes p = if ptr == p then v % 256 else store vs (suc ptr) bytes p

-- The horizontal loop of the reduce functions: `values` computes what is written at targetPtr
-- from the position of sourcePtr.
pub reduce_row : (ℕ → List ℕ) → ℕ → ℕ → ℕ → ℕ → ℕ → Bytes → Bytes
reduce_row values source_step target_step zero source_ptr target_ptr bytes = bytes
reduce_row values source_step target_step (suc left) source_ptr target_ptr bytes =
    reduce_row values source_step target_step left (source_ptr + source_step)
      (target_ptr + target_step) (store (values source_ptr) target_ptr bytes)

-- The vertical loop.
pub reduce_rows : (ℕ → ℕ → Bytes → Bytes) → ℕ → ℕ → ℕ → ℕ → ℕ → Bytes → Bytes
reduce_rows row source_stride target_stride zero source_base target_base bytes = bytes
reduce_rows row source_stride target_stride (suc left) source_base target_base bytes =
    reduce_rows row source_stride target_stride left (source_base + source_stride * 8)
      (target_base + target_stride) (row source_base target_base bytes)
