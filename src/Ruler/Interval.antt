-- ===== src/Ruler/Interval.antt =====
-- calculateInterval returns, and the interval is the first one that is wide enough.
use scroom.Common.{
  ℕ, zero, suc, ◌+◌, ◌*◌, ◌/◌, ◌^◌, ◌≤◌, ◌<◌, ◌≡◌, refl, leb, true, Bool-cases, inl, inr, ◌⊎◌,
  subst, Option, some, arith, ◌==◌, if◌then◌else◌, ◌∙◌,
}
use scroom.Common.Int.{ℤ, pos}
use native.Mathlib.Nat.{div-lt_iff_lt-mul, mul-le-mul_left, mul-le-mul_right}
use scroom.Ruler.{
  valid_interval, valid_intervals_size, min_space_majorticks, interval_pixel_spacing, interval_at,
  to_int, with_interval, with_spacing, calculate_interval_loop, calculate_interval,
}

split_lt : (a b : ℕ) → a < suc b → (a < b) ⊎ (a ≡ b)
split_lt a b h = ground arith

below_power : (n : ℕ) → n < 10 ^ n
below_power zero = omega arith
below_power (suc n) = let rest = below_power n in grind arith

valid_interval-positive : (i : ℕ) → 1 ≤ valid_interval i
unfolding valid_interval
valid_interval-positive zero = omega arith
valid_interval-positive (suc zero) = omega arith
valid_interval-positive (suc (suc zero)) = omega arith
valid_interval-positive (suc (suc (suc i))) = omega arith

quotient_bound : (k x r : ℕ) → 0 < r → k * r ≤ x → k ≤ x / r
quotient_bound k x r h e = grind arith

product_bound : (a b c : ℕ) → 1 ≤ a → 1 ≤ b → c ≤ a * (b * c)
product_bound a b c ha hb = grind arith

below_product : (x r : ℕ) → 0 < r → x / r < 80 → x < 80 * r
below_product x r h e = (div-lt_iff_lt-mul h).0 e

quotient_below : (x r : ℕ) → x < 400 * r → 0 < r → x / r < 2 ^ 31
quotient_below x r e h = let less : x / r < 400 = (div-lt_iff_lt-mul h).1 e in omega (arith, less)

first_below : (a r : ℕ) → 0 < r → a < 2 ^ 31 * r → a * (1 * 10 ^ 0) / r < 2 ^ 31
first_below a r h e = (div-lt_iff_lt-mul h).1 (omega (arith, e))

five_times : (a i b : ℕ) → i ≤ 5 * b → a * i ≤ 5 * (a * b)
five_times a i b h = omega (arith, mul-le-mul_left a h, regroup a b)
  where
    regroup : (a b : ℕ) → a * (5 * b) ≡ 5 * (a * b)
    regroup a b = grind arith

cancel : (x y a : ℕ) → a * x < y * a → x < y
cancel x y a h = grind arith

valid_interval-next : (i : ℕ) → valid_interval (suc i) ≤ 5 * valid_interval i
unfolding valid_interval
valid_interval-next zero = omega arith
valid_interval-next (suc zero) = omega arith
valid_interval-next (suc (suc zero)) = omega arith
valid_interval-next (suc (suc (suc i))) = omega arith

interval_at-next : (i n : ℕ) → interval_at (suc i) n ≤ 5 * interval_at i n
unfolding interval_at
interval_at-next i n =
    times (valid_interval (suc i)) (valid_interval i) (10 ^ n) (valid_interval-next i)
  where
    regroup : (w p : ℕ) → (5 * w) * p ≡ 5 * (w * p)
    regroup w p = grind arith

    times : (v w p : ℕ) → v ≤ 5 * w → v * p ≤ 5 * (w * p)
    times v w p h = omega (arith, mul-le-mul_right p h, regroup w p)

interval_at-wrap : (n : ℕ) → interval_at 0 (suc n) ≤ 5 * interval_at 3 n
unfolding interval_at valid_interval
interval_at-wrap n = grind arith

interval_at-first : interval_at 0 0 ≡ 1 * 10 ^ 0
unfolding interval_at valid_interval
interval_at-first = refl

to_int-fits : (n : ℕ) → n < 2 ^ 31 → to_int n ≡ some n
unfolding to_int
to_int-fits n h = ground (arith, h)

module _ (range allocated_size : ℕ) where
  abbrev spacing : ℕ → ℕ → ℕ
  spacing i n = allocated_size * interval_at i n / range

  -- All intervals before the one at i and n are too narrow.
  abbrev TriedBefore : ℕ → ℕ → Type 0
  TriedBefore i n = (j m : ℕ) → j < 4 → 4 * m + j < 4 * n + i → spacing j m < min_space_majorticks

  -- `interval` is the first one of the sequence that is wide enough.
  abbrev pub IsFirst : ℕ → Type 0
  IsFirst interval =
      (i : ℕ) × (n : ℕ) × (interval ≡ interval_at i n)
      × (min_space_majorticks ≤ spacing i n)
      × TriedBefore i n

module _ (range allocated_size : ℕ) (range_positive : 0 < range)
    (size_positive : 0 < allocated_size) (size_fits : allocated_size < 2 ^ 31 * range)
    (range_fits : 400 * range ≤ 2 ^ 31 * allocated_size) where
  abbrev width : ℕ → ℕ → ℕ
  width i n = spacing range allocated_size i n

  abbrev Tried : ℕ → ℕ → Type 0
  Tried i n = TriedBefore range allocated_size i n

  wide : (i n : ℕ) → min_space_majorticks * range ≤ n → min_space_majorticks ≤ width i n
  unfolding interval_at
  wide i n h =
      let enough =
        product_bound allocated_size (valid_interval i) (10 ^ n) size_positive
          (valid_interval-positive i) in
      let power = below_power n in
      quotient_bound 80 (allocated_size * (valid_interval i * 10 ^ n)) range range_positive
        (omega (arith, enough, power))

  Tried-next :
      (i n i2 n2 : ℕ)
      → i < 4
      → 4 * n2 + i2 ≡ suc (4 * n + i)
      → Tried i n
      → width i n < min_space_majorticks
      → Tried i2 n2
  Tried-next i n i2 n2 hi e tried narrow j m hj before =
      elim (split_lt (4 * m + j) (4 * n + i) (omega arith)) [
        | inl earlier ↦ tried j m hj earlier
        | inr same ↦
            let ej : i ≡ j = omega arith in
            let em : n ≡ m = omega arith in
            subst (λ x. width x m < min_space_majorticks) ej
              (subst (λ x. width i x < min_space_majorticks) em narrow)
      ]

  -- An interval that is at most five times one that was too narrow.
  after_narrow :
      (interval before : ℕ)
      → interval ≤ 5 * before
      → allocated_size * before / range < min_space_majorticks
      → (interval < 2 ^ 31) × (allocated_size * interval / range < 2 ^ 31)
  after_narrow interval before le narrow =
      let small = below_product (allocated_size * before) range range_positive narrow in
      let less = five_times allocated_size interval before le in
      (
        cancel interval (2 ^ 31) allocated_size (omega (arith, small, less, range_fits)),
        quotient_below (allocated_size * interval) range (omega (arith, small, less))
            range_positive,
      )

  fits :
      (i n : ℕ)
      → i < 4
      → Tried i n
      → (interval_at i n < 2 ^ 31) × (allocated_size * interval_at i n / range < 2 ^ 31)
  fits zero zero hi tried =
      rw interval_at-first (omega arith, first_below allocated_size range range_positive size_fits)
  fits zero (suc n) hi tried =
      after_narrow (interval_at 0 (suc n)) (interval_at 3 n) (interval_at-wrap n)
        (tried 3 n (omega arith) (omega arith))
  fits (suc i) n hi tried =
      after_narrow (interval_at (suc i) n) (interval_at i n) (interval_at-next i n)
        (tried i n (omega arith) (omega arith))

  -- What a round of the loop does where nothing overflows.
  round :
      (interval : ℕ) (rest : Option ℤ)
      → (interval < 2 ^ 31) × (allocated_size * interval / range < 2 ^ 31)
      → with_interval (to_int interval) range allocated_size rest ≡ (
          if leb min_space_majorticks (allocated_size * interval / range)
          then some (pos interval)
          else rest)
  unfolding with_interval with_spacing interval_pixel_spacing
  round interval rest (small, fit) =
      rw (to_int-fits interval small, to_int-fits (allocated_size * interval / range) fit)
        (ground arith)

  loop-IsFirst :
      (fuel i n : ℕ)
      → i < 4
      → 4 * (min_space_majorticks * range) < fuel + (4 * n + i)
      → Tried i n
      → (interval : ℕ) × (calculate_interval_loop fuel range allocated_size i n
          ≡ some (pos interval))
        × IsFirst range allocated_size interval
  unfolding calculate_interval_loop
  loop-IsFirst zero i n hi enough tried =
      let narrow = tried 0 (min_space_majorticks * range) (omega arith) (omega arith) in
      let wide_enough = wide 0 (min_space_majorticks * range) (omega arith) in
      absurd (omega (arith, narrow, wide_enough))
  loop-IsFirst (suc fuel) i n hi enough tried =
      let fit = fits i n hi tried in
      elim (Bool-cases (leb min_space_majorticks (width i n))) [
        | inl e ↦ (
          interval_at i n,
          round (interval_at i n) _ fit ∙ rw e refl,
          (i, n, refl, ground arith, tried),
        )
        | inr e ↦
            let narrow : width i n < min_space_majorticks = ground arith in
            elim (Bool-cases (suc i == valid_intervals_size)) [
              | inl f ↦
                  let (interval, run, first) =
                    loop-IsFirst fuel 0 (suc n) (omega arith) (ground arith)
                      (Tried-next i n 0 (suc n) hi (ground arith) tried narrow) in
                  (interval, round (interval_at i n) _ fit ∙ rw (e, f) run, first)
              | inr f ↦
                  let (interval, run, first) =
                    loop-IsFirst fuel (suc i) n (ground arith) (omega arith)
                      (Tried-next i n (suc i) n hi (omega arith) tried narrow) in
                  (interval, round (interval_at i n) _ fit ∙ rw (e, f) run, first)
            ]
      ]

-- When the range is at least a pixel and the size is positive, and they are such that no int overflows,
-- the size below 2^31 times the range and 400 times the range at most 2^31 times the size:
-- calculateInterval returns an interval, the first one of the sequence 1, 5, 10, 25, 10, 50, 100, 250, ...
-- that is drawn at least 80 pixels wide.
pub calculate_interval-IsFirst :
    (unit range allocated_size : ℕ)
    → 0 < unit
    → unit ≤ range
    → 0 < allocated_size
    → allocated_size < 2 ^ 31 * range
    → 400 * range ≤ 2 ^ 31 * allocated_size
    → (interval : ℕ) × (calculate_interval unit range allocated_size ≡ some (pos interval))
      × IsFirst range allocated_size interval
unfolding calculate_interval
calculate_interval-IsFirst unit range allocated_size hu hr hs size_fits range_fits =
    let some_range : leb 1 range ≡ true = ground arith in
    let a_pixel : leb unit range ≡ true = ground arith in
    let some_size : leb 1 allocated_size ≡ true = ground arith in
    rw (some_range, a_pixel, some_size)
      (loop-IsFirst range allocated_size (omega arith) hs size_fits range_fits
        (suc (valid_intervals_size * (min_space_majorticks * range))) 0 0 (omega arith)
        (omega arith) (λ j m hj before. absurd (omega (arith, before))))
