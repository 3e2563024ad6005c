-- ===== src/LayerOperations/Indexed.antt =====
-- The functions `reduce` of Operations and OperationsColormapped, which keep the two most frequent
-- indices into a colormap, and of Operations1bppClipped, all of
-- libs/tiled-bitmap/src/layeroperations.cc. A word of sixteen bits is two bytes, the low one first.
use scroom.Common.{ℕ, zero, suc, ◌+◌, ◌*◌, ◌/◌, ◌%◌, ◌^◌, ◌-◌, ◌==◌, if◌then◌else◌, ltb}
use Prim.Native.Nat.{bit_and, bit_or}
use scroom.SampleIterator.{
  SampleIterator, create, next_sample, get, set, mask, bit_clear, sample_of,
}
use scroom.LayerOperations.{Bytes, TileData, sum_steps, reduce_rows}
use scroom.LayerOperations.Reduce.{lookup}
pub mod TopTwo
pub mod Histogram
pub mod Frequent

-- SampleIterator<uint16_t>(base, 0, bps): its word is counted from `base`.
pub create_16 : ℕ → SampleIterator
create_16 bps = record {
  bps = bps;
  samples_per_base = 16 / bps;
  current_base = 0;
  current_offset = 16 / bps - 1;
}

pub get_word : Bytes → ℕ → ℕ
get_word bytes ptr = bytes ptr + 256 * bytes (ptr + 1)

pub set_word : ℕ → ℕ → Bytes → Bytes
set_word ptr value bytes p =
    if p == ptr then value % 256 else if p == ptr + 1 then value / 256 % 256 else bytes p

pub get_16 : ℕ → SampleIterator → Bytes → ℕ
get_16 base it bytes =
    sample_of it.bps it.current_offset (get_word bytes (base + 2 * it.current_base))

pub set_16 : ℕ → ℕ → SampleIterator → Bytes → Bytes
set_16 value base it bytes =
    let ptr = base + 2 * it.current_base in
    let shift = 2 ^ (it.current_offset * it.bps) in
    let kept = bit_clear (get_word bytes ptr) (mask it.bps * shift) in
    set_word ptr (bit_or kept (value * shift) % 65536) bytes

-- `lookup`, with one entry for each value of a pixel.
abbrev pub Counts : Type 0
Counts = ℕ → ℕ

-- `++(lookup[value])`, on a byte.
pub count : ℕ → Counts → Counts
count value counts c = if c == value then suc (counts c) % 256 else counts c

pub pixel_mask : ℕ → ℕ
pixel_mask bpp = 2 ^ bpp - 1

-- The loop over l of Operations::reduce.
pub count_line : Bytes → ℕ → SampleIterator → Counts → Counts
count_line bytes zero current counts = counts
count_line bytes (suc left) current counts =
    count_line bytes left (next_sample current) (count (get current bytes) counts)

-- The loop over k.
pub count_lines : (ℕ → Counts → Counts) → ℕ → ℕ → ℕ → Counts → Counts
count_lines line stride zero base counts = counts
count_lines line stride (suc left) base counts =
    count_lines line stride left (base + stride) (line base counts)

-- The loop over l of OperationsColormapped::reduce.
pub count_line_16 : Bytes → ℕ → ℕ → ℕ → SampleIterator → Counts → Counts
count_line_16 bytes bpp base zero current counts = counts
count_line_16 bytes bpp base (suc left) current counts =
    let value = get_16 base current bytes in
    count_line_16 bytes bpp base left (next_sample current)
      (count (value / 2 ^ bpp) (count (bit_and value (pixel_mask bpp)) counts))

-- The indices `first` and `second`.
pub record Pick : Type 0 where
  pub first : ℕ
  pub second : ℕ

pub pick_start : Counts → Pick
pick_start counts =
    if ltb (counts 0) (counts 1)
    then record { first = 1; second = 0 }
    else record { first = 0; second = 1 }

pub consider : Counts → ℕ → Pick → Pick
consider counts c pick =
    if ltb (counts pick.first) (counts c)
    then record { first = c; second = pick.first }
    else if ltb (counts pick.second) (counts c)
    then record pick { second = c }
    else pick

pub pick_loop : Counts → ℕ → ℕ → Pick → Pick
pick_loop counts zero c pick = pick
pick_loop counts (suc left) c pick = pick_loop counts left (suc c) (consider counts c pick)

pub pick_two : Counts → ℕ → Pick
pick_two counts size =
    let pick = pick_loop counts (size - 2) 2 (pick_start counts) in
    if counts pick.second == 0 then record pick { second = pick.first } else pick

-- `first << pixelOffset | second`
pub both_indices : ℕ → Pick → ℕ
both_indices bpp pick = bit_or (pick.first * 2 ^ bpp) pick.second

-- The horizontal loops: `value` computes what is written, from the position of sourcePtr.
pub reduce_row_16 : (ℕ → ℕ) → ℕ → ℕ → ℕ → ℕ → SampleIterator → Bytes → Bytes
reduce_row_16 value source_step zero source_ptr target_base target_ptr bytes = bytes
reduce_row_16 value source_step (suc left) source_ptr target_base target_ptr bytes =
    reduce_row_16 value source_step left (source_ptr + source_step) target_base
      (next_sample target_ptr) (set_16 (value source_ptr) target_base target_ptr bytes)

pub value_indexed : ℕ → TileData → ℕ → ℕ
value_indexed bpp source source_ptr =
    let line = λ (base : ℕ). count_line source.bytes 8 (create base 0 bpp) in
    let counts = count_lines line (source.width / (8 / bpp)) 8 source_ptr (λ c. 0) in
    both_indices bpp (pick_two counts (pixel_mask bpp + 1))

-- Operations::reduce
pub reduce_indexed : ℕ → TileData → TileData → ℕ → ℕ → TileData
reduce_indexed bpp target source x y =
    let pixels_per_byte = 8 / bpp in
    let target_stride = 2 * target.width / pixels_per_byte in
    let target_base =
      target.height * target_stride * y / 8 + 2 * target.width * x / 8 / pixels_per_byte in
    let row = λ (source_base base : ℕ) (bytes : Bytes).
      reduce_row_16 (value_indexed bpp source) (8 / pixels_per_byte) (source.width / 8) source_base
        base (create_16 (2 * bpp)) bytes in
    record target {
      bytes =
          reduce_rows row (source.width / pixels_per_byte) target_stride (source.height / 8) 0
            target_base target.bytes;
    }

pub value_colormapped : ℕ → TileData → ℕ → ℕ
value_colormapped bpp source source_ptr =
    let line = λ (base : ℕ). count_line_16 source.bytes bpp base 8 (create_16 (2 * bpp)) in
    let counts = count_lines line (2 * source.width / (8 / bpp)) 8 source_ptr (λ c. 0) in
    both_indices bpp (pick_two counts (pixel_mask bpp + 1))

-- OperationsColormapped::reduce
pub reduce_colormapped : ℕ → TileData → TileData → ℕ → ℕ → TileData
reduce_colormapped bpp target source x y =
    let pixels_per_byte = 8 / bpp in
    let target_stride = 2 * target.width / pixels_per_byte in
    let target_base =
      target.height * y * target_stride / 8 + 2 * target.width * x / 8 / pixels_per_byte in
    let row = λ (source_base base : ℕ) (bytes : Bytes).
      reduce_row_16 (value_colormapped bpp source) (8 * 2 / pixels_per_byte) (source.width / 8)
        source_base base (create_16 (2 * bpp)) bytes in
    record target {
      bytes =
          reduce_rows row (2 * source.width / pixels_per_byte) target_stride (source.height / 8) 0
            target_base target.bytes;
    }

pub value_clipped : TileData → ℕ → ℕ
value_clipped source source_ptr =
    let sum =
      sum_steps (λ current. lookup (source.bytes current)) (source.width / 8) 8 source_ptr in
    if ltb 0 sum then 1 else 0

pub reduce_row_bits : (ℕ → ℕ) → ℕ → ℕ → SampleIterator → Bytes → Bytes
reduce_row_bits value zero source_ptr target_ptr bytes = bytes
reduce_row_bits value (suc left) source_ptr target_ptr bytes =
    reduce_row_bits value left (suc source_ptr) (next_sample target_ptr)
      (set (value source_ptr) target_ptr bytes)

-- Operations1bppClipped::reduce
pub reduce_clipped : TileData → TileData → ℕ → ℕ → TileData
reduce_clipped target source x y =
    let target_stride = target.width / 8 in
    let target_base = target.height * y * target_stride / 8 + target.width * x / 8 / 8 in
    let row = λ (source_base base : ℕ) (bytes : Bytes).
      reduce_row_bits (value_clipped source) (source.width / 8) source_base (create base 0 1)
        bytes in
    record target {
      bytes =
          reduce_rows row (source.width / 8) target_stride (source.height / 8) 0 target_base
            target.bytes;
    }
