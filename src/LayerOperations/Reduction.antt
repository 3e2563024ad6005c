-- ===== src/LayerOperations/Reduction.antt =====
-- What the averaging classes leave in the target tile.
use scroom.Common.{
  ℕ, zero, suc, ◌+◌, ◌*◌, ◌/◌, ◌^◌, ◌-◌, ◌<◌, ◌≡◌, refl, ap, arith, List, length, get_or,
}
use scroom.LayerOperations.{Bytes, TileData, sum_steps, reduce_row, reduce_rows}
use scroom.LayerOperations.Reduce.{
  Operations, operations_1bpp, operations_8bpp, operations_24bpp, operations_cmyk32,
  operations_cmyk16, operations_cmyk8, operations_cmyk4, reduce, values_1bpp, values_8bpp,
  values_24bpp, values_cmyk, lookup, values_cmyk32, values_cmyk16, values_cmyk8, values_cmyk4,
  sum_square, reduce_1bpp, reduce_8bpp, reduce_24bpp, reduce_cmyk, reduce_cmyk32, reduce_cmyk16,
  reduce_cmyk8, reduce_cmyk4,
}
use scroom.LayerOperations.Averages.{channels, bps}
use scroom.LayerOperations.Rows.{row_sum, step}

-- The average of 64 samples, on a scale to 255.
abbrev pub average : Operations → ℕ → ℕ
average op sum = sum * 255 / ((2 ^ bps op - 1) * 64)

pub values : Operations → TileData → ℕ → List ℕ
values operations_1bpp source = values_1bpp source
values operations_8bpp source = values_8bpp source
values operations_24bpp source = values_24bpp source
values operations_cmyk32 source = values_cmyk32 source
values operations_cmyk16 source = values_cmyk16 source
values operations_cmyk8 source = values_cmyk8 source
values operations_cmyk4 source = values_cmyk4 source

pub length-values :
    (op : Operations) (source : TileData) (p : ℕ) → length (values op source p) ≡ channels op
unfolding values values_1bpp values_8bpp values_24bpp values_cmyk values_cmyk32 values_cmyk16
    values_cmyk8 values_cmyk4
length-values operations_1bpp source p = refl
length-values operations_8bpp source p = refl
length-values operations_24bpp source p = refl
length-values operations_cmyk32 source p = refl
length-values operations_cmyk16 source p = refl
length-values operations_cmyk8 source p = refl
length-values operations_cmyk4 source p = refl

reduce_rows-eq :
    (values : ℕ → List ℕ) (ds c left : ℕ) (bytes : Bytes) {n n' ss ss' ts ts' t t' : ℕ}
    → n ≡ n'
    → ss ≡ ss'
    → ts ≡ ts'
    → t ≡ t'
    → reduce_rows (reduce_row values ds c n) ss ts left 0 t bytes
      ≡ reduce_rows (reduce_row values ds c n') ss' ts' left 0 t' bytes
reduce_rows-eq values ds c left bytes en ess ets et = rw (en, ess, ets, et) refl

module _ (w h x y : ℕ) where
  line_products : (8 * h * y * (8 * w) ≡ 8 * (h * y * (8 * w))) × (8 * w * x ≡ 8 * (w * x))
  line_products = (grind arith, grind arith)

  target_base_grey : 8 * h * y * (8 * w) / 8 + 8 * w * x / 8 ≡ (h * y * (8 * w) + w * x) * 1
  target_base_grey = let (a, b) = line_products in omega (arith, a, b)

  target_base_rgb :
      8 * h * y * (3 * (8 * w)) / 8 + 3 * (8 * w) * x / 8 ≡ (h * y * (8 * w) + w * x) * 3
  target_base_rgb =
      let a : 8 * h * y * (3 * (8 * w)) ≡ 24 * (h * y * (8 * w)) = grind arith in
      let b : 3 * (8 * w) * x ≡ 24 * (w * x) = grind arith in omega (arith, a, b)

  target_base_cmyk : (8 * h * y + x) * (8 * (8 * w) / 2) / 8 ≡ (h * y * (8 * w) + w * x) * 4
  target_base_cmyk =
      let a : 8 * (8 * w) / 2 ≡ 32 * w = omega arith in
      let b : (8 * h * y + x) * (32 * w) ≡ 32 * (h * y * (8 * w)) + 32 * (w * x) = grind arith in
      rw a (omega (arith, b))

-- Bytes per line of the source and of the target, and the position of the first byte that is
-- written, in tiles whose sides are multiples of 8.
module _ (target source : TileData) (w h m : ℕ) (target_width : target.width ≡ 8 * w)
    (target_height : target.height ≡ 8 * h) (source_width : source.width ≡ 8 * m) where
  cmyk-loops :
      (values : ℕ → List ℕ) (source_stride source_step x y : ℕ)
      → source_stride ≡ m * source_step
      → (reduce_cmyk values source_stride source_step target source x y).bytes
        ≡ reduce_rows
            (reduce_row values source_step 4 m)
            (m * source_step)
            (8 * w * 4)
            (source.height / 8)
            0
            ((h * y * (8 * w) + w * x) * 4)
            target.bytes
  unfolding reduce_cmyk
  cmyk-loops values source_stride source_step x y stride =
      reduce_rows-eq values source_step 4 (source.height / 8) target.bytes (omega arith) stride
        (omega arith) (rw (target_width, target_height) (target_base_cmyk w h x y))

  pub reduce-loops :
      (op : Operations) (x y : ℕ)
      → (reduce op target source x y).bytes
        ≡ reduce_rows
            (reduce_row (values op source) (step op) (channels op) m)
            (m * step op)
            (8 * w * channels op)
            (source.height / 8)
            0
            ((h * y * (8 * w) + w * x) * channels op)
            target.bytes
  unfolding reduce values reduce_1bpp reduce_8bpp reduce_24bpp reduce_cmyk32 reduce_cmyk16
      reduce_cmyk8 reduce_cmyk4
  reduce-loops operations_1bpp x y =
      reduce_rows-eq (values_1bpp source) 1 1 (source.height / 8) target.bytes (omega arith)
        (omega arith) (omega arith) (rw (target_width, target_height) (target_base_grey w h x y))
  reduce-loops operations_8bpp x y =
      reduce_rows-eq (values_8bpp source) 8 1 (source.height / 8) target.bytes (omega arith)
        (omega arith) (omega arith) (rw (target_width, target_height) (target_base_grey w h x y))
  reduce-loops operations_24bpp x y =
      reduce_rows-eq (values_24bpp source) 24 3 (source.height / 8) target.bytes (omega arith)
        (omega arith) (omega arith) (rw (target_width, target_height) (target_base_rgb w h x y))
  reduce-loops operations_cmyk32 x y = cmyk-loops (values_cmyk32 source) _ 32 x y (omega arith)
  reduce-loops operations_cmyk16 x y = cmyk-loops (values_cmyk16 source) _ 16 x y (omega arith)
  reduce-loops operations_cmyk8 x y = cmyk-loops (values_cmyk8 source) _ 8 x y (omega arith)
  reduce-loops operations_cmyk4 x y = cmyk-loops (values_cmyk4 source) _ 4 x y (omega arith)

  square_sums :
      (size c n n' p : ℕ)
      → n ≡ n'
      → sum_square source.bytes size n p c
        ≡ sum_steps (λ q. sum_steps (λ current. source.bytes (current + c)) size 8 q) n' 8 p
  unfolding sum_square
  square_sums size c n n' p e = rw e refl

  values_cmyk-entry :
      (row : ℕ → ℕ → ℕ) (n n' numerator denominator c p : ℕ)
      → c < 4
      → n ≡ n'
      → get_or (values_cmyk row n numerator denominator p) c 0
        ≡ sum_steps (row c) n' 8 p * numerator / denominator
  unfolding values_cmyk
  values_cmyk-entry row n n' a d zero p l e = rw e refl
  values_cmyk-entry row n n' a d (suc zero) p l e = rw e refl
  values_cmyk-entry row n n' a d (suc (suc zero)) p l e = rw e refl
  values_cmyk-entry row n n' a d (suc (suc (suc zero))) p l e = rw e refl
  values_cmyk-entry row n n' a d (suc (suc (suc (suc c)))) p l e = absurd (omega arith)

  pub values-average :
      (op : Operations) (c p : ℕ)
      → c < channels op
      → get_or (values op source p) c 0
        ≡ average op (sum_steps (row_sum op source c) (m * step op) 8 p)
  unfolding values row_sum values_1bpp values_8bpp values_24bpp values_cmyk32 values_cmyk16
      values_cmyk8 values_cmyk4
  values-average operations_1bpp zero p l =
      let eighth : source.width / 8 ≡ m * 1 = omega arith in
      omega (arith, ap (λ n. sum_steps (λ q. lookup (source.bytes q)) n 8 p) eighth)
  values-average operations_1bpp (suc c) p l = absurd (omega arith)
  values-average operations_8bpp zero p l =
      omega (arith, square_sums 1 0 source.width (m * 8) p (omega arith))
  values-average operations_8bpp (suc c) p l = absurd (omega arith)
  values-average operations_24bpp zero p l =
      omega (arith, square_sums 3 0 (3 * source.width) (m * 24) p (omega arith))
  values-average operations_24bpp (suc zero) p l =
      omega (arith, square_sums 3 1 (3 * source.width) (m * 24) p (omega arith))
  values-average operations_24bpp (suc (suc zero)) p l =
      omega (arith, square_sums 3 2 (3 * source.width) (m * 24) p (omega arith))
  values-average operations_24bpp (suc (suc (suc c))) p l = absurd (omega arith)
  values-average operations_cmyk32 c p l =
      omega (arith, values_cmyk-entry _ (8 * source.width / 2) (m * 32) 1 64 c p l (omega arith))
  values-average operations_cmyk16 c p l =
      values_cmyk-entry _ (4 * source.width / 2) (m * 16) 255 (15 * 64) c p l (omega arith)
  values-average operations_cmyk8 c p l =
      values_cmyk-entry _ source.width (m * 8) 255 192 c p l (omega arith)
  values-average operations_cmyk4 c p l =
      values_cmyk-entry _ (source.width / 2) (m * 4) 255 64 c p l (omega arith)
