-- ===== src/Pipette/Sums.antt =====
-- The sums over an area of one tile.
use scroom.Common.{
  ℕ, zero, suc, ◌+◌, ◌-◌, ◌*◌, ◌≤◌, ◌<◌, ◌≡◌, ◌∙◌, refl, ap, sym, subst, arith, List, [], ◌∷◌,
  length, get_or, replicate, length-replicate, inl, inr,
}
use scroom.SampleIterator.{SampleIterator, create, next_sample, move_by, get}
use scroom.SampleIterator.Bits.{IsSampleSize}
use scroom.LayerOperations.{Bytes, TileData}
use scroom.LayerOperations.Averages.{sum_below, sum_below-eq}
use scroom.Pipette.{Area, Summing, add_pixel, add_line, add_lines, sum_pixel_values}

next_sample-create :
    (n bps : ℕ) → IsSampleSize bps → next_sample (create 0 n bps) ≡ create 0 (suc n) bps
unfolding next_sample create
next_sample-create n bps (inl e) = rw e (ground arith)
next_sample-create n bps (inr (inl e)) = rw e (ground arith)
next_sample-create n bps (inr (inr (inl e))) = rw e (ground arith)
next_sample-create n bps (inr (inr (inr e))) = rw e (ground arith)

move_by-create :
    (x n bps : ℕ) → IsSampleSize bps → move_by x (create 0 n bps) ≡ create 0 (n + x) bps
unfolding move_by create
move_by-create x n bps (inl e) = rw e (ground arith)
move_by-create x n bps (inr (inl e)) = rw e (ground arith)
move_by-create x n bps (inr (inr (inl e))) = rw e (ground arith)
move_by-create x n bps (inr (inr (inr e))) = rw e (ground arith)

the_first : (n ch c : ℕ) → n + c ≡ n + 0 * ch + c
the_first n ch c = omega arith

the_next : (n ch c len k : ℕ) → len ≡ ch → n + len + k * ch + c ≡ n + suc k * ch + c
the_next n ch c len k h = grind (arith, h)

the_end : (n ch len left : ℕ) → len ≡ ch → n + len + left * ch ≡ n + suc left * ch
the_end n ch len left h = grind (arith, h)

whole_line : (ch W w : ℕ) → w ≤ W → w * ch + ch * (W - w) ≡ W * ch
whole_line ch W w h =
    let e : w + (W - w) ≡ W = omega arith in
    let f : w * ch + ch * (W - w) ≡ (w + (W - w)) * ch = grind arith in f ∙ ap (λ n. n * ch) e

abbrev no_sums : ℕ → List ℕ
no_sums n = replicate n 0

get_or-replicate : (n c : ℕ) → get_or (no_sums n) c 0 ≡ zero
get_or-replicate zero c = refl
get_or-replicate (suc n) zero = refl
get_or-replicate (suc n) (suc c) = get_or-replicate n c

joined : (n a b : ℕ) → n + a + b ≡ n + (a + b)
joined n a b = omega arith

same_line : (n step a c : ℕ) → n + a + c ≡ n + 0 * step + a + c
same_line n step a c = omega arith

next_line : (n step j : ℕ) → n + step + j * step ≡ n + suc j * step
next_line n step j = grind arith

module _ (bytes : Bytes) (bps : ℕ) (size : IsSampleSize bps) where
  -- Sample n of the data.
  abbrev value : ℕ → ℕ
  value n = get (create 0 n bps) bytes

  add_pixel-length :
      (sums : List ℕ) (si : SampleIterator) → length (add_pixel bytes sums si).sums ≡ length sums
  unfolding add_pixel
  add_pixel-length [] si = refl
  add_pixel-length (sum ∷ sums) si = ap suc (add_pixel-length sums (next_sample si))

  add_pixel-si :
      (sums : List ℕ) (n : ℕ)
      → (add_pixel bytes sums (create 0 n bps)).si ≡ create 0 (n + length sums) bps
  unfolding add_pixel
  add_pixel-si [] n = ap (λ k. create 0 k bps) (omega arith)
  add_pixel-si (sum ∷ sums) n =
      ap (λ i. (add_pixel bytes sums i).si) (next_sample-create n bps size)
      ∙ add_pixel-si sums (suc n)
      ∙ ap (λ k. create 0 k bps) (omega arith)

  add_pixel-sum :
      (sums : List ℕ) (n c : ℕ)
      → c < length sums
      → get_or (add_pixel bytes sums (create 0 n bps)).sums c 0 ≡ get_or sums c 0 + value (n + c)
  unfolding add_pixel
  add_pixel-sum [] n c h = absurd (omega arith)
  add_pixel-sum (sum ∷ sums) n zero h = ap (λ k. sum + value k) (omega arith)
  add_pixel-sum (sum ∷ sums) n (suc c) h =
      ap (λ i. get_or (add_pixel bytes sums i).sums c 0) (next_sample-create n bps size)
      ∙ add_pixel-sum sums (suc n) c (omega arith)
      ∙ ap (λ k. get_or sums c 0 + value k) (omega arith)

  -- The state of the loops at sample n.
  abbrev at : List ℕ → ℕ → Summing
  at sums n = record { sums = sums; si = create 0 n bps }

  module _ (channels c : ℕ) (in_range : c < channels) where
    -- What a loop that takes `used` samples from sample n on has done: the number of channels stays,
    -- the iterator goes on, and `added` is added to channel c.
    abbrev Adds : Summing → List ℕ → ℕ → ℕ → Type 0
    Adds after sums n added =
        (length after.sums ≡ channels)
        × (after.si ≡ create 0 n bps)
        × (get_or after.sums c 0 ≡ get_or sums c 0 + added)

    add_line-Adds :
        (left : ℕ) (sums : List ℕ) (n : ℕ)
        → length sums ≡ channels
        → Adds
            (add_line bytes left (at sums n))
            sums
            (n + left * channels)
            (sum_below left (λ k. value (n + k * channels + c)))
    unfolding add_line
    add_line-Adds zero sums n h = (h, ap (λ k. create 0 k bps) (omega arith), omega arith)
    add_line-Adds (suc left) sums n h =
        let pixel = add_pixel bytes sums (create 0 n bps) in
        let (len, si, sum) =
          add_line-Adds left pixel.sums (n + length sums) (add_pixel-length sums _ ∙ h) in
        let same =
          ap (λ i. add_line bytes left (record { sums = pixel.sums; si = i }))
            (add_pixel-si sums n) in
        let first = add_pixel-sum sums n c (omega (arith, h)) in
        let start = ap value (the_first n channels c) in
        let shifted =
          sum_below-eq left (λ k. value (n + length sums + k * channels + c))
            (λ k. value (n + suc k * channels + c))
            (λ k l. ap value (the_next n channels c (length sums) k h)) in
        subst
          (λ s.
            Adds s sums (n + suc left * channels)
              (sum_below (suc left) (λ k. value (n + k * channels + c))))
          (sym same)
          (
            len,
            si ∙ ap (λ k. create 0 k bps) (the_end n channels (length sums) left h),
            omega (arith, sum, first, start, shifted),
          )

    add_lines-Adds :
        (width stride left : ℕ) (sums : List ℕ) (n : ℕ)
        → length sums ≡ channels
        → Adds
            (add_lines bytes width stride left (at sums n))
            sums
            (n + left * (width * channels + stride))
            (sum_below left (λ j.
              sum_below width
                (λ k. value (n + j * (width * channels + stride) + k * channels + c))))
    unfolding add_lines
    add_lines-Adds width stride zero sums n h =
        (h, ap (λ k. create 0 k bps) (omega arith), omega arith)
    add_lines-Adds width stride (suc left) sums n h =
        let line = add_line bytes width (at sums n) in
        let (line_length, line_si, line_sum) = add_line-Adds width sums n h in
        let step = width * channels + stride in
        let (len, si, sum) = add_lines-Adds width stride left line.sums (n + step) line_length in
        let moved =
          ap (move_by stride) line_si
          ∙ move_by-create stride (n + width * channels) bps size
          ∙ ap (λ k. create 0 k bps) (joined n (width * channels) stride) in
        let same =
          ap (λ i. add_lines bytes width stride left (record { sums = line.sums; si = i })) moved in
        let first =
          sum_below-eq width (λ k. value (n + k * channels + c))
            (λ k. value (n + 0 * step + k * channels + c))
            (λ k l. ap value (same_line n step (k * channels) c)) in
        let shifted =
          sum_below-eq left
            (λ j. sum_below width (λ k. value (n + step + j * step + k * channels + c)))
            (λ j. sum_below width (λ k. value (n + suc j * step + k * channels + c)))
            (λ j l.
              sum_below-eq width _ _
                (λ k m. ap (λ p. value (p + k * channels + c)) (next_line n step j))) in
        subst
          (λ s. Adds s sums (n + suc left * step) (
            sum_below (suc left)
              (λ j. sum_below width (λ k. value (n + j * step + k * channels + c)))))
          (sym same)
          (
            len,
            si ∙ ap (λ k. create 0 k bps) (next_line n step left),
            omega (arith, sum, line_sum, first, shifted),
          )

line_place :
    (ch top left W w j k c : ℕ)
    → w ≤ W
    → 0 + ch * (top * W + left) + j * (w * ch + ch * (W - w)) + k * ch + c
      ≡ ch * ((top + j) * W + (left + k)) + c
line_place ch top left W w j k c h =
    let whole : w * ch + ch * (W - w) ≡ W * ch = whole_line ch W w h in rw whole (grind arith)

-- For an area of a tile, no wider than the tile: sumPixelValues adds up, for each channel, the
-- samples of all pixels of the area, each of them once.
pub sum_pixel_values-samples :
    (channels bps : ℕ) (area : Area) (tile : TileData) (c : ℕ)
    → IsSampleSize bps
    → area.right - area.left ≤ tile.width
    → c < channels
    → get_or (sum_pixel_values channels bps area tile) c 0
      ≡ sum_below (area.bottom - area.top) (λ j. sum_below (area.right - area.left) (λ k.
        get
          (create 0 (channels * ((area.top + j) * tile.width + (area.left + k)) + c) bps)
          tile.bytes))
unfolding sum_pixel_values
sum_pixel_values-samples channels bps area tile c size fits h =
    let offset = channels * (area.top * tile.width + area.left) in
    let w = area.right - area.left in
    let stride = channels * (tile.width - w) in
    let zeros = no_sums channels in
    let start = move_by-create offset 0 bps size in
    let (len, si, sum) =
      add_lines-Adds tile.bytes bps size channels c h w stride (area.bottom - area.top) zeros
        (0 + offset) (length-replicate channels 0) in
    let moved =
      ap
        (λ i.
          get_or
            (add_lines tile.bytes w stride (area.bottom - area.top)
              (record { sums = zeros; si = i })).sums
            c 0)
        start in
    let placed = sum_below-eq (area.bottom - area.top) _ _ (λ j l. sum_below-eq w _ _ (λ k m.
      ap (λ p. get (create 0 p bps) tile.bytes)
        (line_place channels area.top area.left tile.width w j k c fits))) in
    omega (arith, moved, sum, get_or-replicate channels c, placed)

pub sum_pixel_values-length :
    (channels bps : ℕ) (area : Area) (tile : TileData)
    → IsSampleSize bps
    → 0 < channels
    → length (sum_pixel_values channels bps area tile) ≡ channels
unfolding sum_pixel_values
sum_pixel_values-length channels bps area tile size h =
    let offset = channels * (area.top * tile.width + area.left) in
    let w = area.right - area.left in
    let stride = channels * (tile.width - w) in
    let zeros = no_sums channels in
    let (len, si, sum) =
      add_lines-Adds tile.bytes bps size channels 0 h w stride (area.bottom - area.top) zeros
        (0 + offset) (length-replicate channels 0) in
    ap
      (λ i.
        length
          (add_lines tile.bytes w stride (area.bottom - area.top)
            (record { sums = zeros; si = i })).sums)
      (move_by-create offset 0 bps size)
    ∙ len
