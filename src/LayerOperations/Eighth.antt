-- ===== src/LayerOperations/Eighth.antt =====
-- The eighth of the target, in both directions, that an averaging class fills from one source tile.
use scroom.Common.{
  ℕ, suc, ◌+◌, ◌*◌, ◌/◌, ◌%◌, ◌^◌, ◌-◌, ◌≤◌, ◌<◌, ◌≡◌, refl, ap, arith, ◌∙◌, sym, ◌⊎◌, inl, inr,
  leb, leb→le, Bool, true,
}
use scroom.SampleIterator.{create, get, sample_of, mask}
use scroom.SampleIterator.Bits.{all_below, all_below→each, IsSampleSize}
use scroom.LayerOperations.{TileData}
use scroom.LayerOperations.Loops.{reduce_rows-inside, reduce_rows-outside}
use scroom.LayerOperations.Reduce.{
  Operations, operations_1bpp, operations_8bpp, operations_24bpp, operations_cmyk32,
  operations_cmyk16, operations_cmyk8, operations_cmyk4, reduce,
}
use scroom.LayerOperations.Averages.{
  sample, channels, bps, square_sum, sum_steps-square, square_sum-bound,
}
use scroom.LayerOperations.Rows.{row_sum, step, row_sum-samples}
use scroom.LayerOperations.Reduction.{average, values, length-values, reduce-loops, values-average}

all_bounded : ℕ → Bool
all_bounded size =
    all_below (8 / size) (λ o. all_below 256 (λ b. leb (sample_of size o b) (2 ^ size - 1)))

all_bounded-sizes : (size : ℕ) → IsSampleSize size → all_bounded size ≡ true
unfolding all_bounded all_below sample_of mask
all_bounded-sizes size (inl e) = rw e refl
all_bounded-sizes size (inr (inl e)) = rw e refl
all_bounded-sizes size (inr (inr (inl e))) = rw e refl
all_bounded-sizes size (inr (inr (inr e))) = rw e refl

sample_of-bound :
    (size o b : ℕ) → IsSampleSize size → o < 8 / size → b < 256 → sample_of size o b ≤ 2 ^ size - 1
unfolding all_bounded
sample_of-bound size o b s ho hb =
    leb→le _ _
      (all_below→each 256 _ (all_below→each (8 / size) _ (all_bounded-sizes size s) o ho) b hb)

bps-size : (op : Operations) → IsSampleSize (bps op)
bps-size operations_1bpp = inl refl
bps-size operations_8bpp = inr (inr (inr refl))
bps-size operations_24bpp = inr (inr (inr refl))
bps-size operations_cmyk32 = inr (inr (inr refl))
bps-size operations_cmyk16 = inr (inr (inl refl))
bps-size operations_cmyk8 = inr (inl refl)
bps-size operations_cmyk4 = inl refl

offset-bound : (size k : ℕ) → IsSampleSize size → 8 / size - 1 - k % (8 / size) < 8 / size
offset-bound size k (inl e) = rw e (omega arith)
offset-bound size k (inr (inl e)) = rw e (omega arith)
offset-bound size k (inr (inr (inl e))) = rw e (omega arith)
offset-bound size k (inr (inr (inr e))) = rw e (omega arith)

scaled-bound :
    (size sum : ℕ)
    → IsSampleSize size
    → sum ≤ 64 * (2 ^ size - 1)
    → sum * 255 / ((2 ^ size - 1) * 64) < 256
scaled-bound size sum (inl e) = rw e (λ h. omega arith)
scaled-bound size sum (inr (inl e)) = rw e (λ h. omega arith)
scaled-bound size sum (inr (inr (inl e))) = rw e (λ h. omega arith)
scaled-bound size sum (inr (inr (inr e))) = rw e (λ h. omega arith)

module _ (source : TileData) (all_bytes : (p : ℕ) → source.bytes p < 256) where
  sample-bound : (op : Operations) (c px py : ℕ) → sample op source c px py ≤ 2 ^ bps op - 1
  unfolding sample get create
  sample-bound op c px py =
      sample_of-bound (bps op) _ _ (bps-size op) (offset-bound (bps op) _ (bps-size op))
        (all_bytes _)

  average-bound :
      (op : Operations) (c i j : ℕ) → average op (square_sum (sample op source c) i j) < 256
  average-bound op c i j =
      scaled-bound (bps op) _ (bps-size op)
        (square_sum-bound (sample op source c) i j _ (sample-bound op c))

module _ (w h x y ch : ℕ) where
  inside_place :
      (i j c : ℕ)
      → ((h * y + j) * (8 * w) + (w * x + i)) * ch + c
        ≡ (h * y * (8 * w) + w * x) * ch + j * (8 * w * ch) + i * ch + c
  inside_place i j c = grind arith

line_place :
    (w h x y ch j : ℕ)
    → (h * y * (8 * w) + w * x) * ch + j * (8 * w * ch) ≡ ((h * y + j) * (8 * w) + w * x) * ch
line_place w h x y ch j = grind arith

row-fits : (m w ch : ℕ) → m ≤ w → m * ch ≤ 8 * w * ch
row-fits m w ch h = grind arith

small-mod : (n : ℕ) → n < 256 → n % 256 ≡ n
small-mod n h = omega arith

-- For tiles whose sides are multiples of 8, the source not wider than the target: after `reduce`
-- to the eighth (x, y) of the target, the pixel at (i, j) of that eighth holds in each channel
-- the average of the samples of the eight by eight pixels of the source that it stands for, scaled
-- to 0 .. 255 and rounded down. The samples are those that an iterator over the data reads.
pub reduce-average :
    (op : Operations) (target source : TileData) (w h m x y i j c : ℕ)
    → target.width ≡ 8 * w
    → target.height ≡ 8 * h
    → source.width ≡ 8 * m
    → m ≤ w
    → ((p : ℕ) → source.bytes p < 256)
    → i < m
    → j < source.height / 8
    → c < channels op
    → (reduce op target source x y).bytes
        (((h * y + j) * target.width + (w * x + i)) * channels op + c)
      ≡ average op (square_sum (sample op source c) i j)
reduce-average op target source w h m x y i j c tw th sw fits all_bytes hi hj hc =
    let ch = channels op in
    let base = (h * y * (8 * w) + w * x) * ch in
    let inside =
      reduce_rows-inside (values op source) ch (length-values op source) (step op) m (m * step op)
        (8 * w * ch) (row-fits m w ch fits) (source.height / 8) 0 base i j c target.bytes hj hi
        hc in
    let value =
      values-average target source w h m tw th sw op c (0 + j * (m * step op * 8) + i * step op)
        hc in
    let square =
      sum_steps-square (row_sum op source c) (sample op source c) (m * step op) (step op) i j
        (λ py. row_sum-samples source m sw all_bytes op c i py hc) in
    let small = small-mod _ (average-bound source all_bytes op c i j) in
    rw (reduce-loops target source w h m tw th sw op x y, tw, inside_place w h x y ch i j c)
      (inside ∙ ap (λ v. v % 256) (value ∙ ap (average op) square) ∙ small)

eighth-within : (w x m : ℕ) → x < 8 → m ≤ w → w * x + m ≤ 8 * w
eighth-within w x m hx hm = grind arith

earlier_line : (w a b : ℕ) → a < b → a * (8 * w) + 8 * w ≤ b * (8 * w)
earlier_line w a b h = grind arith

Outside : ℕ → ℕ → ℕ → Type 0
Outside first size p = (p < first) ⊎ (first + size ≤ p)

order : (a b : ℕ) → (a < b) ⊎ (a ≡ b) ⊎ (b < a)
order a b = ground arith

suc_times : (p n : ℕ) → suc p * n ≡ p * n + n
suc_times p n = grind arith

sum_times : (a b n : ℕ) → (a + b) * n ≡ a * n + b * n
sum_times a b n = grind arith

times_le : (a b n : ℕ) → a ≤ b → a * n ≤ b * n
times_le a b n h = grind arith

-- A pixel that is left or right of a stretch of a line, or on another line, is not in it.
pixel-Outside :
    (w x m py px row : ℕ)
    → x < 8
    → m ≤ w
    → px < 8 * w
    → (px < w * x) ⊎ (w * x + m ≤ px) ⊎ (py < row) ⊎ (row < py)
    → Outside (row * (8 * w) + w * x) m (py * (8 * w) + px)
unfolding Outside
pixel-Outside w x m py px row hx hm hp h =
    let within = eighth-within w x m hx hm in
    elim (order py row) [
      | inl l ↦ inl (omega (arith, earlier_line w py row l))
      | inr (inl e) ↦ let same = ap (λ n. n * (8 * w)) e in ground (arith, h, same, e)
      | inr (inr l) ↦ inr (omega (arith, earlier_line w row py l, within))
    ]

scaled-Outside :
    (first size p ch c : ℕ)
    → c < ch
    → Outside first size p
    → Outside (first * ch) (size * ch) (p * ch + c)
unfolding Outside
scaled-Outside first size p ch c hc (inl h) =
    inl (omega (arith, times_le (suc p) first ch h, suc_times p ch))
scaled-Outside first size p ch c hc (inr h) =
    inr (omega (arith, times_le (first + size) p ch h, sum_times first size ch))

-- In the same tiles, `reduce` to the eighth (x, y) keeps every pixel of the target that is left or
-- right of the columns, or above or below the lines, that the source stands for.
pub reduce-elsewhere :
    (op : Operations) (target source : TileData) (w h m x y px py c : ℕ)
    → target.width ≡ 8 * w
    → target.height ≡ 8 * h
    → source.width ≡ 8 * m
    → m ≤ w
    → x < 8
    → px < target.width
    → c < channels op
    → (px < w * x) ⊎ (w * x + m ≤ px) ⊎ (py < h * y) ⊎ (h * y + source.height / 8 ≤ py)
    → (reduce op target source x y).bytes ((py * target.width + px) * channels op + c)
      ≡ target.bytes ((py * target.width + px) * channels op + c)
unfolding Outside
reduce-elsewhere op target source w h m x y px py c tw th sw fits hx hp hc out =
    let ch = channels op in
    let p = (py * (8 * w) + px) * ch + c in
    let within : px < 8 * w = rw (sym tw) hp in
    let outside : (j : ℕ)
        → j < source.height / 8
        → Outside ((h * y * (8 * w) + w * x) * ch + j * (8 * w * ch)) (m * ch) p =
      λ j l. rw (line_place w h x y ch j) (
        scaled-Outside ((h * y + j) * (8 * w) + w * x) m (py * (8 * w) + px) ch c hc
          (pixel-Outside w x m py px (h * y + j) hx fits within (ground (arith, out)))) in
    rw (reduce-loops target source w h m tw th sw op x y, tw)
      (reduce_rows-outside (values op source) ch (length-values op source) (step op) m (m * step op)
        (8 * w * ch) (row-fits m w ch fits) (source.height / 8) 0 ((h * y * (8 * w) + w * x) * ch) p
        target.bytes outside)
