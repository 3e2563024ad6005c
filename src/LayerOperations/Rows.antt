-- ===== src/LayerOperations/Rows.antt =====
-- What the averaging classes add up for eight pixels of a line is the sum of their samples.
use scroom.Common.{ℕ, ◌+◌, ◌*◌, ◌<◌, ◌-◌, ◌≡◌, refl, ap, arith, ◌∙◌, sym}
use scroom.SampleIterator.{create, get, sample_of}
use scroom.LayerOperations.{TileData, sum_steps}
use scroom.LayerOperations.Reduce.{
  Operations, operations_1bpp, operations_8bpp, operations_24bpp, operations_cmyk32,
  operations_cmyk16, operations_cmyk8, operations_cmyk4, lookup, row_sum_cmyk32, sample_cmyk16,
  sample_cmyk8, sample_cmyk4,
}
use scroom.LayerOperations.Averages.{sample, channels, sum_below, sum_below-eq, sum_steps-below}
use scroom.LayerOperations.Samples.{
  lookup-samples, get-create, whole_sample, sample_cmyk16-samples, sample_cmyk8-samples,
  sample_cmyk4-samples,
}

-- The sum over one line of eight pixels, of the bytes from a position on.
unfoldable pub row_sum : Operations → TileData → ℕ → ℕ → ℕ
row_sum operations_1bpp source c p = lookup (source.bytes p)
row_sum operations_8bpp source c p = sum_steps (λ current. source.bytes (current + 0)) 1 8 p
row_sum operations_24bpp source c p = sum_steps (λ current. source.bytes (current + c)) 3 8 p
row_sum operations_cmyk32 source c p = row_sum_cmyk32 source.bytes c p
row_sum operations_cmyk16 source c p = sum_steps (sample_cmyk16 source.bytes c) 2 8 p
row_sum operations_cmyk8 source c p = sum_steps (sample_cmyk8 source.bytes c) 1 8 p
row_sum operations_cmyk4 source c p = sum_steps (sample_cmyk4 source.bytes c) 1 4 p

-- The bytes of eight pixels.
abbrev pub step : Operations → ℕ
step operations_1bpp = 1
step operations_8bpp = 8
step operations_24bpp = 24
step operations_cmyk32 = 32
step operations_cmyk16 = 16
step operations_cmyk8 = 8
step operations_cmyk4 = 4

by_samples :
    (f g : ℕ → ℕ) (size base : ℕ)
    → ((l : ℕ) → l < 8 → f (base + l * size) ≡ g l)
    → sum_steps f size 8 base ≡ sum_below 8 g
by_samples f g size base h =
    sum_steps-below f size 8 base ∙ sum_below-eq 8 (λ k. f (base + k * size)) g h

in_pairs :
    (f g : ℕ → ℕ) (base : ℕ)
    → ((l : ℕ) → l < 4 → f (base + l * 1) ≡ g (2 * l) + g (2 * l + 1))
    → sum_steps f 1 4 base ≡ sum_below 8 g
in_pairs f g base h = omega (
  arith,
  sum_steps-below f 1 4 base,
  sum_below-eq 4 (λ k. f (base + k * 1)) (λ l. g (2 * l) + g (2 * l + 1)) h,
)

scaled : (py m s : ℕ) → py * (m * s) ≡ s * (py * m)
scaled py m s = grind arith

module _ (source : TileData) (m : ℕ) (width : source.width ≡ 8 * m)
    (all_bytes : (p : ℕ) → source.bytes p < 256) where
  line : (py : ℕ) → py * source.width ≡ 8 * (py * m)
  line py = ap (λ n. py * n) width ∙ grind arith

  abbrev offset : Operations → ℕ → ℕ → ℕ → ℕ → ℕ
  offset op c i py l = channels op * (py * source.width + (8 * i + l)) + c

  pub row_sum-samples :
      (op : Operations) (c i py : ℕ)
      → c < channels op
      → row_sum op source c (py * (m * step op) + i * step op)
        ≡ sum_below 8 (λ l. sample op source c (8 * i + l) py)
  unfolding row_sum sample row_sum_cmyk32
  row_sum-samples operations_1bpp c i py h =
      lookup-samples (source.bytes (py * (m * 1) + i * 1)) (all_bytes _)
      ∙ sum_below-eq 8 (λ l. sample_of 1 (7 - l) (source.bytes (py * (m * 1) + i * 1)))
          (λ l. sample operations_1bpp source c (8 * i + l) py)
          (λ l k.
            sym
              (get-create 1 8 _ _ l source.bytes refl k (omega (arith, line py, scaled py m 1, h))))
  row_sum-samples operations_8bpp c i py h = by_samples _ _ 1 _ (λ l k. sym (
      whole_sample source.bytes all_bytes (offset operations_8bpp c i py l)
      ∙ ap source.bytes (omega (arith, line py, scaled py m 8, h))))
  row_sum-samples operations_24bpp c i py h = by_samples _ _ 3 _ (λ l k. sym (
      whole_sample source.bytes all_bytes (offset operations_24bpp c i py l)
      ∙ ap source.bytes (omega (arith, line py, scaled py m 24, h))))
  row_sum-samples operations_cmyk32 c i py h = by_samples _ _ 4 _ (λ l k. sym (
      whole_sample source.bytes all_bytes (offset operations_cmyk32 c i py l)
      ∙ ap source.bytes (omega (arith, line py, scaled py m 32, h))))
  row_sum-samples operations_cmyk16 c i py h = by_samples _ _ 2 _ (λ l k.
      sample_cmyk16-samples source.bytes all_bytes (offset operations_cmyk16 c i py l) c
        (py * (m * 16) + i * 16 + l * 2) h (omega (arith, line py, scaled py m 16)))
  row_sum-samples operations_cmyk8 c i py h = by_samples _ _ 1 _ (λ l k.
      sample_cmyk8-samples source.bytes all_bytes (offset operations_cmyk8 c i py l) c
        (py * (m * 8) + i * 8 + l * 1) h (omega (arith, line py, scaled py m 8)))
  row_sum-samples operations_cmyk4 c i py h =
      in_pairs _ (λ l. sample operations_cmyk4 source c (8 * i + l) py) _
        (λ l k.
          let first = offset operations_cmyk4 c i py (2 * l) in
          let both =
            sample_cmyk4-samples source.bytes all_bytes first c (py * (m * 4) + i * 4 + l * 1) h
              (omega (arith, line py, scaled py m 4)) in
          let next : first + 4 ≡ offset operations_cmyk4 c i py (2 * l + 1) =
            omega (arith, line py, scaled py m 4) in
          both
          ∙ ap (λ off. get (create 0 first 1) source.bytes + get (create 0 off 1) source.bytes)
              next)
