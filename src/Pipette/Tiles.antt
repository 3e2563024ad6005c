-- ===== src/Pipette/Tiles.antt =====
-- The parts of an area that lie in the tiles make up the area.
use scroom.Common.{
  ℕ, zero, suc, ◌+◌, ◌-◌, ◌*◌, ◌/◌, ◌<◌, ◌≡◌, ◌∙◌, ◌⊎◌, refl, ap, sym, arith, max, min, inl, inr,
}
use scroom.Layer.{tilesize}
use scroom.LayerOperations.Averages.{sum_below, sum_below-eq}

pub the_start : (l : ℕ) → l + 0 ≡ l
the_start l = omega arith

pub after_one : (l m : ℕ) → l + suc m ≡ suc l + m
after_one l m = omega arith

-- The sum of n values from l on.
abbrev pub sum_from : ℕ → ℕ → (ℕ → ℕ) → ℕ
sum_from l zero f = 0
sum_from l (suc n) f = f l + sum_from (suc l) n f

pub sum_from-below : (l n : ℕ) (f : ℕ → ℕ) → sum_below n (λ k. f (l + k)) ≡ sum_from l n f
sum_from-below l zero f = refl
sum_from-below l (suc n) f =
    let first = ap f (the_start l) in
    let shifted =
      sum_below-eq n (λ k. f (l + suc k)) (λ k. f (suc l + k)) (λ k h. ap f (omega arith)) in
    omega (arith, first, shifted, sum_from-below (suc l) n f)

sum_from-append :
    (l m n k : ℕ) (f : ℕ → ℕ) → k ≡ m + n → sum_from l k f ≡ sum_from l m f + sum_from (l + m) n f
sum_from-append l zero n k f e =
    let same : k ≡ n = omega (arith, e) in
    omega (arith, ap (λ i. sum_from l i f) same, ap (λ i. sum_from i n f) (the_start l))
sum_from-append l (suc m) n zero f e = absurd (omega arith)
sum_from-append l (suc m) n (suc k) f e =
    let rest = sum_from-append (suc l) m n k f (omega (arith, e)) in
    omega (arith, rest, ap (λ i. sum_from i n f) (after_one l m))

-- The values at the places from l to r that lie in the tiles from number x on.
abbrev pub within : ℕ → ℕ → ℕ → (ℕ → ℕ) → ℕ
within l r x f =
    let first = max (x * tilesize) l in sum_from first (min (x * tilesize + tilesize) r - first) f

abbrev within_tiles : ℕ → ℕ → ℕ → ℕ → (ℕ → ℕ) → ℕ
within_tiles l r x n f =
    let first = max (x * tilesize) l in sum_from first (min ((x + n) * tilesize) r - first) f

sum_from-joined :
    (first m next n total : ℕ) (f : ℕ → ℕ)
    → (n ≡ 0) ⊎ (next ≡ first + m)
    → total ≡ m + n
    → sum_from first m f + sum_from next n f ≡ sum_from first total f
sum_from-joined first m next n total f (inl e) h =
    let same : total ≡ m = omega arith in
    omega (arith, ap (λ i. sum_from next i f) e, ap (λ i. sum_from first i f) same)
sum_from-joined first m next n total f (inr e) h =
    omega (arith, ap (λ i. sum_from i n f) e, sum_from-append first m n total f h)

tiles_sum :
    (l r n x : ℕ) (f : ℕ → ℕ)
    → l < x * tilesize + tilesize
    → sum_below n (λ i. within l r (x + i) f) ≡ within_tiles l r x n f
tiles_sum l r zero x f h =
    let none_left : min ((x + 0) * tilesize) r - max (x * tilesize) l ≡ 0 = omega arith in
    sym (ap (λ n. sum_from (max (x * tilesize) l) n f) none_left)
tiles_sum l r (suc n) x f h =
    let rest = tiles_sum l r n (suc x) f (omega arith) in
    let first = ap (λ i. within l r i f) (the_start x) in
    let shifted =
      sum_below-eq n (λ i. within l r (x + suc i) f) (λ i. within l r (suc x + i) f)
        (λ i k. ap (λ j. within l r j f) (after_one x i)) in
    let joined =
      sum_from-joined (max (x * tilesize) l)
        (min (x * tilesize + tilesize) r - max (x * tilesize) l) (max (suc x * tilesize) l)
        (min ((suc x + n) * tilesize) r - max (suc x * tilesize) l)
        (min ((x + suc n) * tilesize) r - max (x * tilesize) l) f (ground arith) (omega arith) in
    omega (arith, rest, first, shifted, joined)

-- The tiles from that of the first place to that of the last one hold all of them.
pub all_tiles_sum :
    (l r : ℕ) (f : ℕ → ℕ)
    → l < r
    → sum_below (suc ((r - 1) / tilesize) - l / tilesize) (λ i. within l r (l / tilesize + i) f)
      ≡ sum_from l (r - l) f
all_tiles_sum l r f h =
    let x = l / tilesize in
    let n = suc ((r - 1) / tilesize) - x in
    let first : max (x * tilesize) l ≡ l = omega arith in
    let size : min ((x + n) * tilesize) r - max (x * tilesize) l ≡ r - l = omega arith in
    tiles_sum l r n x f (omega arith)
    ∙ ap (λ k. sum_from (max (x * tilesize) l) k f) size
    ∙ ap (λ i. sum_from i (r - l) f) first

sum_below-add : (n : ℕ) (f g : ℕ → ℕ) → sum_below n (λ k. f k + g k) ≡ sum_below n f + sum_below n g
sum_below-add zero f g = refl
sum_below-add (suc n) f g = omega (arith, sum_below-add n (λ k. f (suc k)) (λ k. g (suc k)))

sum_below-zero : (n : ℕ) → sum_below n (λ j. zero) ≡ zero
sum_below-zero zero = refl
sum_below-zero (suc n) = omega (arith, sum_below-zero n)

pub sum_below-swap :
    (m n : ℕ) (f : ℕ → ℕ → ℕ)
    → sum_below m (λ i. sum_below n (λ j. f i j)) ≡ sum_below n (λ j. sum_below m (λ i. f i j))
sum_below-swap zero n f = sym (sum_below-zero n)
sum_below-swap (suc m) n f = omega (
  arith,
  sum_below-swap m n (λ i. f (suc i)),
  sum_below-add n (f 0) (λ j. sum_below m (λ i. f (suc i) j)),
)
