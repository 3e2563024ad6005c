-- ===== src/LayerOperations/Averages.antt =====
-- The samples of a tile, read one by one as the pipette reads them, and the sums over squares of
-- eight by eight pixels.
use scroom.Common.{ℕ, zero, suc, ◌+◌, ◌*◌, ◌≤◌, ◌<◌, ◌≡◌, refl, ap, arith, ◌∙◌}
use scroom.SampleIterator.{create, get}
use scroom.LayerOperations.{TileData, sum_steps}
use scroom.LayerOperations.Reduce.{
  Operations, operations_1bpp, operations_8bpp, operations_24bpp, operations_cmyk32,
  operations_cmyk16, operations_cmyk8, operations_cmyk4,
}

-- Bits per sample, and samples per pixel.
abbrev pub bps : Operations → ℕ
bps operations_1bpp = 1
bps operations_8bpp = 8
bps operations_24bpp = 8
bps operations_cmyk32 = 8
bps operations_cmyk16 = 4
bps operations_cmyk8 = 2
bps operations_cmyk4 = 1

abbrev pub channels : Operations → ℕ
channels operations_1bpp = 1
channels operations_8bpp = 1
channels operations_24bpp = 3
channels _ = 4

-- Channel c of the pixel at column px and line py.
unfoldable pub sample : Operations → TileData → ℕ → ℕ → ℕ → ℕ
sample op source c px py =
    get (create 0 (channels op * (py * source.width + px) + c) (bps op)) source.bytes

abbrev pub sum_below : ℕ → (ℕ → ℕ) → ℕ
sum_below zero f = 0
sum_below (suc n) f = f 0 + sum_below n (λ k. f (suc k))

-- The sum over the pixels 8 i to 8 i + 7 of the lines 8 j to 8 j + 7.
unfoldable pub square_sum : (ℕ → ℕ → ℕ) → ℕ → ℕ → ℕ
square_sum f i j = sum_below 8 (λ k. sum_below 8 (λ l. f (8 * i + l) (8 * j + k)))

pub sum_below-eq :
    (n : ℕ) (f g : ℕ → ℕ) → ((k : ℕ) → k < n → f k ≡ g k) → sum_below n f ≡ sum_below n g
sum_below-eq zero f g h = refl
sum_below-eq (suc n) f g h = omega (
  arith,
  h 0 (omega arith),
  sum_below-eq n (λ k. f (suc k)) (λ k. g (suc k)) (λ k l. h (suc k) (omega arith)),
)

pub sum_below-bound : (n m : ℕ) (f : ℕ → ℕ) → ((k : ℕ) → f k ≤ m) → sum_below n f ≤ n * m
sum_below-bound zero m f h = omega arith
sum_below-bound (suc n) m f h =
    grind (arith, h 0, sum_below-bound n m (λ k. f (suc k)) (λ k. h (suc k)))

p_zero : (p step : ℕ) → p ≡ p + 0 * step
p_zero p step = omega arith

next_place : (p k step : ℕ) → p + step + k * step ≡ p + suc k * step
next_place p k step = grind arith

pub sum_steps-below :
    (f : ℕ → ℕ) (step n p : ℕ) → sum_steps f step n p ≡ sum_below n (λ k. f (p + k * step))
unfolding sum_steps
sum_steps-below f step zero p = refl
sum_steps-below f step (suc n) p = omega (
  arith,
  ap f (p_zero p step),
  sum_steps-below f step n (p + step),
  sum_below-eq n (λ k. f (p + step + k * step)) (λ k. f (p + suc k * step))
      (λ k l. ap f (next_place p k step)),
)

place_of_line : (i j k ds ss : ℕ) → 0 + j * (ss * 8) + i * ds + k * ss ≡ (8 * j + k) * ss + i * ds
place_of_line i j k ds ss = grind arith

-- Lines of eight pixels that are added up one by one make up a square.
pub sum_steps-square :
    (row : ℕ → ℕ) (f : ℕ → ℕ → ℕ) (ss ds i j : ℕ)
    → ((py : ℕ) → row (py * ss + i * ds) ≡ sum_below 8 (λ l. f (8 * i + l) py))
    → sum_steps row ss 8 (0 + j * (ss * 8) + i * ds) ≡ square_sum f i j
unfolding square_sum
sum_steps-square row f ss ds i j h =
    sum_steps-below row ss 8 (0 + j * (ss * 8) + i * ds)
    ∙ sum_below-eq 8 (λ k. row (0 + j * (ss * 8) + i * ds + k * ss))
        (λ k. sum_below 8 (λ l. f (8 * i + l) (8 * j + k)))
        (λ k l. ap row (place_of_line i j k ds ss) ∙ h (8 * j + k))

pub square_sum-bound :
    (f : ℕ → ℕ → ℕ) (i j m : ℕ) → ((px py : ℕ) → f px py ≤ m) → square_sum f i j ≤ 64 * m
unfolding square_sum
square_sum-bound f i j m h = omega (
  arith,
  sum_below-bound 8 (8 * m) (λ k. sum_below 8 (λ l. f (8 * i + l) (8 * j + k)))
      (λ k. sum_below-bound 8 m (λ l. f (8 * i + l) (8 * j + k)) (λ l. h _ _)),
)
