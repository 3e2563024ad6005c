-- ===== src/LayerOperations/Reduce.antt =====
-- The functions `reduce` of the classes that compute averages: Operations1bpp, Operations8bpp and
-- Operations24bpp of libs/tiled-bitmap/src/layeroperations.cc, and OperationsCMYK32, 16, 8 and 4
-- of libs/tiled-bitmap/src/cmyklayeroperations.cc. A shift is a quotient by a power of two.
use scroom.Common.{ℕ, zero, suc, ◌+◌, ◌*◌, ◌/◌, List, [], ◌∷◌, ◌==◌, if◌then◌else◌}
use Prim.Native.Nat.{bit_and}
use scroom.LayerOperations.{Bytes, TileData, sum_steps, reduce_row, reduce_rows}

-- `for(int v = i; v; v >>= 1) sum += v & 1`; a byte needs eight turns.
unfoldable pub count_bits : ℕ → ℕ → ℕ
count_bits zero v = 0
count_bits (suc turns) v =
    let rest = count_bits turns (v / 2) in if v == 0 then 0 else bit_and v 1 + rest

unfoldable pub lookup : ℕ → ℕ
lookup index = count_bits 8 index

-- `current[channel]`, summed over a square of eight pixels of `size` bytes by eight lines.
unfoldable pub sum_square : Bytes → ℕ → ℕ → ℕ → ℕ → ℕ
sum_square bytes size source_stride source_ptr channel =
    sum_steps (λ base. sum_steps (λ current. bytes (current + channel)) size 8 base) source_stride 8
      source_ptr

-- What is written at targetPtr, from the position of sourcePtr.
unfoldable pub values_1bpp : TileData → ℕ → List ℕ
values_1bpp source source_ptr =
    (sum_steps (λ current. lookup (source.bytes current)) (source.width / 8) 8 source_ptr
      * 255
      / 64)
    ∷ []

unfoldable pub reduce_1bpp : TileData → TileData → ℕ → ℕ → TileData
reduce_1bpp target source x y =
    let source_stride = source.width / 8 in
    let target_stride = target.width in
    let target_base = target.height * y * target_stride / 8 + target.width * x / 8 in
    record target {
      bytes =
          reduce_rows (reduce_row (values_1bpp source) 1 1 (source.width / 8)) source_stride
            target_stride (source.height / 8) 0 target_base target.bytes;
    }

unfoldable pub values_8bpp : TileData → ℕ → List ℕ
values_8bpp source source_ptr = (sum_square source.bytes 1 source.width source_ptr 0 / 64) ∷ []

unfoldable pub reduce_8bpp : TileData → TileData → ℕ → ℕ → TileData
reduce_8bpp target source x y =
    let source_stride = source.width in
    let target_stride = target.width in
    let target_base = target.height * y * target_stride / 8 + target.width * x / 8 in
    record target {
      bytes =
          reduce_rows (reduce_row (values_8bpp source) 8 1 (source.width / 8)) source_stride
            target_stride (source.height / 8) 0 target_base target.bytes;
    }

unfoldable pub values_24bpp : TileData → ℕ → List ℕ
values_24bpp source source_ptr =
    let sum = sum_square source.bytes 3 (3 * source.width) source_ptr in
    sum 0 / 64 ∷ sum 1 / 64 ∷ sum 2 / 64 ∷ []

unfoldable pub reduce_24bpp : TileData → TileData → ℕ → ℕ → TileData
reduce_24bpp target source x y =
    let source_stride = 3 * source.width in
    let target_stride = 3 * target.width in
    let target_base = target.height * y * target_stride / 8 + target_stride * x / 8 in
    record target {
      bytes =
          reduce_rows (reduce_row (values_24bpp source) (8 * 3) 3 (source.width / 8)) source_stride
            target_stride (source.height / 8) 0 target_base target.bytes;
    }

-- The averages of the four channels of CMYK. `row_sum` adds up one channel of one line of eight
-- pixels; the sums over eight lines are multiplied by `numerator` and divided by `denominator`.
unfoldable pub values_cmyk : (ℕ → ℕ → ℕ) → ℕ → ℕ → ℕ → ℕ → List ℕ
values_cmyk row_sum source_stride numerator denominator source_ptr =
    sum_steps (row_sum 0) source_stride 8 source_ptr * numerator / denominator
    ∷ sum_steps (row_sum 1) source_stride 8 source_ptr * numerator / denominator
    ∷ sum_steps (row_sum 2) source_stride 8 source_ptr * numerator / denominator
    ∷ sum_steps (row_sum 3) source_stride 8 source_ptr * numerator / denominator
    ∷ []

-- What the four classes for CMYK share: the place of the first written byte, and the loops.
unfoldable pub reduce_cmyk : (ℕ → List ℕ) → ℕ → ℕ → TileData → TileData → ℕ → ℕ → TileData
reduce_cmyk values source_stride source_step target source x y =
    let target_stride = 8 * target.width / 2 in
    let target_base = (target.height * y + x) * target_stride / 8 in
    record target {
      bytes =
          reduce_rows (reduce_row values source_step 4 (source.width / 8)) source_stride
            target_stride (source.height / 8) 0 target_base target.bytes;
    }

unfoldable pub row_sum_cmyk32 : Bytes → ℕ → ℕ → ℕ
row_sum_cmyk32 bytes channel row = sum_steps (λ current. bytes (current + channel)) 4 8 row

unfoldable pub values_cmyk32 : TileData → ℕ → List ℕ
values_cmyk32 source = values_cmyk (row_sum_cmyk32 source.bytes) (8 * source.width / 2) 1 64

unfoldable pub reduce_cmyk32 : TileData → TileData → ℕ → ℕ → TileData
reduce_cmyk32 target source =
    reduce_cmyk (values_cmyk32 source) (8 * source.width / 2) (8 * 4) target source

-- The expressions that are added to sum_c, sum_m, sum_y and sum_k.
unfoldable pub sample_cmyk16 : Bytes → ℕ → ℕ → ℕ
sample_cmyk16 bytes zero current = bytes current / 16
sample_cmyk16 bytes (suc zero) current = bit_and (bytes current) 15
sample_cmyk16 bytes (suc (suc zero)) current = bytes (current + 1) / 16
sample_cmyk16 bytes _ current = bit_and (bytes (current + 1)) 15

unfoldable pub values_cmyk16 : TileData → ℕ → List ℕ
values_cmyk16 source =
    values_cmyk (λ channel. sum_steps (sample_cmyk16 source.bytes channel) 2 8)
      (4 * source.width / 2) 255 (15 * 64)

unfoldable pub reduce_cmyk16 : TileData → TileData → ℕ → ℕ → TileData
reduce_cmyk16 target source =
    reduce_cmyk (values_cmyk16 source) (4 * source.width / 2) (4 * 4) target source

unfoldable pub sample_cmyk8 : Bytes → ℕ → ℕ → ℕ
sample_cmyk8 bytes zero current = bytes current / 64
sample_cmyk8 bytes (suc zero) current = bit_and (bytes current) 48 / 16
sample_cmyk8 bytes (suc (suc zero)) current = bit_and (bytes current) 12 / 4
sample_cmyk8 bytes _ current = bit_and (bytes current) 3

unfoldable pub values_cmyk8 : TileData → ℕ → List ℕ
values_cmyk8 source =
    values_cmyk (λ channel. sum_steps (sample_cmyk8 source.bytes channel) 1 8) source.width 255 192

unfoldable pub reduce_cmyk8 : TileData → TileData → ℕ → ℕ → TileData
reduce_cmyk8 target source = reduce_cmyk (values_cmyk8 source) source.width (2 * 4) target source

unfoldable pub sample_cmyk4 : Bytes → ℕ → ℕ → ℕ
sample_cmyk4 bytes zero current = bit_and (bytes current / 128) 1 + bit_and (bytes current / 8) 1
sample_cmyk4 bytes (suc zero) current =
    bit_and (bytes current / 64) 1 + bit_and (bytes current / 4) 1
sample_cmyk4 bytes (suc (suc zero)) current =
    bit_and (bytes current / 32) 1 + bit_and (bytes current / 2) 1
sample_cmyk4 bytes _ current = bit_and (bytes current / 16) 1 + bit_and (bytes current) 1

unfoldable pub values_cmyk4 : TileData → ℕ → List ℕ
values_cmyk4 source =
    values_cmyk (λ channel. sum_steps (sample_cmyk4 source.bytes channel) 1 4) (source.width / 2)
      255 64

unfoldable pub reduce_cmyk4 : TileData → TileData → ℕ → ℕ → TileData
reduce_cmyk4 target source = reduce_cmyk (values_cmyk4 source) (source.width / 2) 4 target source

-- The classes whose `reduce` averages.
pub data Operations : Type 0 where
  operations_1bpp operations_8bpp operations_24bpp : Operations
  operations_cmyk32 operations_cmyk16 operations_cmyk8 operations_cmyk4 : Operations

-- The virtual function.
unfoldable pub reduce : Operations → TileData → TileData → ℕ → ℕ → TileData
reduce operations_1bpp = reduce_1bpp
reduce operations_8bpp = reduce_8bpp
reduce operations_24bpp = reduce_24bpp
reduce operations_cmyk32 = reduce_cmyk32
reduce operations_cmyk16 = reduce_cmyk16
reduce operations_cmyk8 = reduce_cmyk8
reduce operations_cmyk4 = reduce_cmyk4
