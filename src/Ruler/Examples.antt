-- ===== src/Ruler/Examples.antt =====
-- Rulers of 540 pixels: a range of 540, and a range of 3000.
use scroom.Common.{ℕ, ◌≡◌, refl, none, some, arith}
use scroom.Ruler.{
  calculate_interval, calculate_interval_loop, interval_pixel_spacing, interval_at, valid_interval,
  with_interval, with_spacing, to_int,
}
use scroom.Common.Int.{pos}
use scroom.Ruler.Interval.{IsFirst, calculate_interval-IsFirst}

narrow_test : calculate_interval 1 540 540 ≡ some (pos 100)
unfolding calculate_interval calculate_interval_loop interval_pixel_spacing interval_at
    valid_interval with_interval with_spacing to_int
narrow_test = refl

-- 25 * 10^8 does not fit an int.
large_test : calculate_interval_loop 4 100000000000 100 3 8 ≡ none
unfolding calculate_interval_loop interval_at valid_interval with_interval to_int
large_test = refl

-- After 25 comes 10 again.
order_test : (interval_at 3 0 ≡ 25) × (interval_at 0 1 ≡ 10)
unfolding interval_at valid_interval
order_test = (refl, refl)

calculate_interval-IsFirst_example :
    (interval : ℕ) × (calculate_interval 1 3000 540 ≡ some (pos interval))
    × IsFirst 3000 540 interval
calculate_interval-IsFirst_example =
    calculate_interval-IsFirst 1 3000 540 (omega arith) (omega arith) (omega arith) (omega arith)
      (omega arith)
