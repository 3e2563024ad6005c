-- ===== src/LayerOperations/Examples.antt =====
-- A tile of 16 by 16 pixels whose bytes count up, reduced into another of the same size.
use scroom.Common.{ℕ, ◌+◌, ◌*◌, ◌/◌, ◌%◌, ◌^◌, ◌≤◌, ◌<◌, ◌≡◌, ◌≢◌, ◌⊎◌, inl, inr, refl, arith}
use Prim.Native.Nat.{bit_or}
use scroom.LayerOperations.{TileData}
use scroom.LayerOperations.Reduce.{operations_cmyk8, reduce, lookup, count_bits}
use scroom.LayerOperations.Averages.{sample, square_sum}
use scroom.LayerOperations.Reduction.{average}
use scroom.LayerOperations.Eighth.{reduce-average}
use scroom.LayerOperations.Indexed.{value_indexed}
use scroom.LayerOperations.Indexed.Histogram.{frequency}
use scroom.LayerOperations.Indexed.Frequent.{value_indexed-frequent}
use scroom.LayerOperations.Cache.Inks.{cache, cmyk16, complement, cache-complements}

abbrev counting : TileData
counting = record { width = 16; height = 16; bytes = λ p. p % 256 }

abbrev empty : TileData
empty = record { width = 16; height = 16; bytes = λ p. 0 }

lookup_test : lookup 177 ≡ 4
unfolding lookup count_bits
lookup_test = refl

abbrev small : (p : ℕ) → p % 256 < 256
small p = omega arith

reduce-average_example :
    (reduce operations_cmyk8 empty counting 1 0).bytes (((2 * 0 + 1) * 16 + (2 * 1 + 0)) * 4 + 3)
    ≡ average operations_cmyk8 (square_sum (sample operations_cmyk8 counting 3) 0 1)
reduce-average_example =
    reduce-average operations_cmyk8 empty counting 2 2 2 1 0 0 1 3 refl refl refl (omega arith)
      small (omega arith) (omega arith) (omega arith)

value_indexed-frequent_example :
    let first = value_indexed 2 counting 0 / 2 ^ 2 in
    let second = value_indexed 2 counting 0 % 2 ^ 2 in
    let often = frequency 2 counting 0 in
    (often 3 ≤ often first)
    × ((3 ≡ first) ⊎ (often 3 ≤ often second))
    × ((first ≢ second) ⊎ (3 ≡ first) ⊎ (often 3 ≡ 0))
value_indexed-frequent_example =
    value_indexed-frequent 2 counting 0 3 (inr (inl refl)) (omega arith)

cache-complements_example :
    let black = complement cmyk16 counting.bytes 20 3 in
    let red = complement cmyk16 counting.bytes 20 0 * black / 255 in
    let green = complement cmyk16 counting.bytes 20 1 * black / 255 in
    let blue = complement cmyk16 counting.bytes 20 2 * black / 255 in
    cache cmyk16 counting (λ p. 0) (4 * 20)
    ≡ bit_or (bit_or (bit_or (255 * 2 ^ 24) (red * 2 ^ 16)) (green * 2 ^ 8)) blue
cache-complements_example = cache-complements cmyk16 counting (λ p. 0) 20 small (omega arith)
