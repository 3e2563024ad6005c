-- ===== src/LayerOperations/Indexed/Histogram.antt =====
-- What the counting loops count, and the value that Operations::reduce writes.
use scroom.Common.{
  ℕ, zero, suc, ◌+◌, ◌*◌, ◌/◌, ◌^◌, ◌≤◌, ◌<◌, ◌≡◌, refl, arith, ◌==◌, if◌then◌else◌, ap,
}
use Prim.Native.Nat.{bit_and}
use scroom.SampleIterator.{SampleIterator, next_sample, get, create}
use scroom.SampleIterator.Moves.{steps}
use scroom.LayerOperations.{Bytes, TileData}
use scroom.LayerOperations.Averages.{sum_below, sum_below-eq, sum_below-bound}
use scroom.LayerOperations.Indexed.{
  Counts, count, pixel_mask, count_line, count_lines, count_line_16, create_16, get_16,
}

abbrev pub one_if : ℕ → ℕ → ℕ
one_if c value = if c == value then 1 else 0

count-lem :
    (value : ℕ) (counts : Counts) (c : ℕ)
    → suc (counts c) < 256
    → count value counts c ≡ counts c + one_if c value
unfolding count
count-lem value counts c h = ground arith

steps-next : (n : ℕ) (it : SampleIterator) → steps n (next_sample it) ≡ next_sample (steps n it)
steps-next zero it = refl
steps-next (suc n) it = ap next_sample (steps-next n it)

-- The number of occurrences of c among n samples.
abbrev pub occurrences : Bytes → SampleIterator → ℕ → ℕ → ℕ
occurrences bytes it n c = sum_below n (λ l. one_if c (get (steps l it) bytes))

count_line-lem :
    (bytes : Bytes) (n : ℕ) (it : SampleIterator) (counts : Counts) (c : ℕ)
    → counts c + n < 256
    → count_line bytes n it counts c ≡ counts c + occurrences bytes it n c
unfolding count_line
count_line-lem bytes zero it counts c h = omega arith
count_line-lem bytes (suc n) it counts c h =
    let value = get it bytes in
    let one = count-lem value counts c (omega arith) in
    let rest =
      count_line-lem bytes n (next_sample it) (count value counts) c (ground (arith, one)) in
    let same =
      sum_below-eq n (λ l. one_if c (get (steps l (next_sample it)) bytes))
        (λ l. one_if c (get (steps (suc l) it) bytes))
        (λ l k. ap (λ i. one_if c (get i bytes)) (steps-next l it)) in
    omega (arith, one, rest, same)

one_if-bound : (c value : ℕ) → one_if c value ≤ 1
one_if-bound c value = ground arith

occurrences-bound : (bytes : Bytes) (it : SampleIterator) (n c : ℕ) → occurrences bytes it n c ≤ n
occurrences-bound bytes it n c = omega (
  arith,
  sum_below-bound n 1 (λ l. one_if c (get (steps l it) bytes))
      (λ l. one_if-bound c (get (steps l it) bytes)),
)

next_product : (n w : ℕ) → suc n * w ≡ w + n * w
next_product n w = grind arith

next_line : (base k stride : ℕ) → base + stride + k * stride ≡ base + suc k * stride
next_line base k stride = grind arith

first_line : (base stride : ℕ) → base ≡ base + 0 * stride
first_line base stride = omega arith

module _ (line : ℕ → Counts → Counts) (g : ℕ → ℕ) (w c : ℕ) (bound : (base : ℕ) → g base ≤ w)
    (adds : (base : ℕ) (counts : Counts)
      → counts c + w < 256
      → line base counts c ≡ counts c + g base) where
  count_lines-lem :
      (stride n base : ℕ) (counts : Counts)
      → counts c + n * w < 256
      → count_lines line stride n base counts c
        ≡ counts c + sum_below n (λ k. g (base + k * stride))
  unfolding count_lines
  count_lines-lem stride zero base counts h = omega arith
  count_lines-lem stride (suc n) base counts h =
      let product = next_product n w in
      let one = adds base counts (omega (arith, product)) in
      let rest =
        count_lines-lem stride n (base + stride) (line base counts)
          (ground (arith, one, bound base, product)) in
      let same =
        sum_below-eq n (λ k. g (base + stride + k * stride)) (λ k. g (base + suc k * stride))
          (λ k l. ap g (next_line base k stride)) in
      let first = ap g (first_line base stride) in omega (arith, one, rest, same, first)

-- How often c occurs in eight lines of eight samples.
unfoldable pub frequency : ℕ → TileData → ℕ → ℕ → ℕ
frequency bpp source source_ptr c =
    sum_below 8 (λ k.
      occurrences source.bytes (create (source_ptr + k * (source.width / (8 / bpp))) 0 bpp) 8 c)

pub counts-frequency :
    (bpp : ℕ) (source : TileData) (source_ptr d : ℕ)
    → count_lines
        (λ base. count_line source.bytes 8 (create base 0 bpp))
        (source.width / (8 / bpp))
        8
        source_ptr
        (λ c. 0)
        d
      ≡ frequency bpp source source_ptr d
unfolding frequency
counts-frequency bpp source source_ptr d =
    let counted =
      count_lines-lem (λ base. count_line source.bytes 8 (create base 0 bpp))
        (λ base. occurrences source.bytes (create base 0 bpp) 8 d) 8 d
        (λ base. occurrences-bound source.bytes (create base 0 bpp) 8 d)
        (λ base counts h. count_line-lem source.bytes 8 (create base 0 bpp) counts d h)
        (source.width / (8 / bpp)) 8 source_ptr (λ c. 0) (omega arith) in
    omega (arith, counted)

-- The sample of an iterator over words is two indices, which are counted both.
abbrev pub occurrences_16 : Bytes → ℕ → ℕ → SampleIterator → ℕ → ℕ → ℕ
occurrences_16 bytes bpp base it n c = sum_below n (λ l.
    one_if c (bit_and (get_16 base (steps l it) bytes) (pixel_mask bpp))
    + one_if c (get_16 base (steps l it) bytes / 2 ^ bpp))

count_line_16-lem :
    (bytes : Bytes) (bpp base n : ℕ) (it : SampleIterator) (counts : Counts) (c : ℕ)
    → counts c + 2 * n < 256
    → count_line_16 bytes bpp base n it counts c ≡ counts c + occurrences_16 bytes bpp base it n c
unfolding count_line_16
count_line_16-lem bytes bpp base zero it counts c h = omega arith
count_line_16-lem bytes bpp base (suc n) it counts c h =
    let value = get_16 base it bytes in
    let low = bit_and value (pixel_mask bpp) in
    let high = value / 2 ^ bpp in
    let one = count-lem low counts c (omega arith) in
    let two = count-lem high (count low counts) c (omega (arith, one, one_if-bound c low)) in
    let rest =
      count_line_16-lem bytes bpp base n (next_sample it) (count high (count low counts)) c
        (omega (arith, one, two, one_if-bound c low, one_if-bound c high)) in
    let at : SampleIterator → ℕ = λ i.
      one_if c (bit_and (get_16 base i bytes) (pixel_mask bpp))
      + one_if c (get_16 base i bytes / 2 ^ bpp) in
    let same =
      sum_below-eq n (λ l. at (steps l (next_sample it))) (λ l. at (steps (suc l) it))
        (λ l k. ap at (steps-next l it)) in
    omega (arith, one, two, rest, same)

occurrences_16-bound :
    (bytes : Bytes) (bpp base : ℕ) (it : SampleIterator) (n c : ℕ)
    → occurrences_16 bytes bpp base it n c ≤ n * 2
occurrences_16-bound bytes bpp base it n c =
    sum_below-bound n 2 _ (λ l. omega (arith, one_if-bound c _, one_if-bound c _))

unfoldable pub frequency_16 : ℕ → TileData → ℕ → ℕ → ℕ
frequency_16 bpp source source_ptr c = sum_below 8 (λ k.
    occurrences_16 source.bytes bpp (source_ptr + k * (2 * source.width / (8 / bpp)))
      (create_16 (2 * bpp)) 8 c)

pub counts-frequency_16 :
    (bpp : ℕ) (source : TileData) (source_ptr d : ℕ)
    → count_lines
        (λ base. count_line_16 source.bytes bpp base 8 (create_16 (2 * bpp)))
        (2 * source.width / (8 / bpp))
        8
        source_ptr
        (λ c. 0)
        d
      ≡ frequency_16 bpp source source_ptr d
unfolding frequency_16
counts-frequency_16 bpp source source_ptr d =
    let it = create_16 (2 * bpp) in
    let counted =
      count_lines-lem (λ base. count_line_16 source.bytes bpp base 8 it)
        (λ base. occurrences_16 source.bytes bpp base it 8 d) 16 d
        (λ base. occurrences_16-bound source.bytes bpp base it 8 d)
        (λ base counts h. count_line_16-lem source.bytes bpp base 8 it counts d h)
        (2 * source.width / (8 / bpp)) 8 source_ptr (λ c. 0) (omega arith) in
    omega (arith, counted)
