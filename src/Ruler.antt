-- ===== src/Ruler.antt =====
-- gui/ruler/src/ruler.cc: the interval between the labels of a ruler. The doubles are numbers of a
-- common unit, `unit` to a pixel, without rounding. A number that is converted to an int and does not
-- fit, which C++ leaves undefined, is `none`; so is a failed `require`, and a call that is out of fuel.
use scroom.Common.{
  ℕ, zero, suc, ◌+◌, ◌*◌, ◌/◌, ◌^◌, ◌==◌, leb, ltb, ◌&&◌, if◌then◌else◌, Option, none, some,
}
use scroom.Common.Int.{ℤ, pos, negsuc, ltb_ℤ}
pub mod Interval
mod Examples

-- VALID_INTERVALS
pub valid_interval : ℕ → ℕ
valid_interval zero = 1
valid_interval (suc zero) = 5
valid_interval (suc (suc zero)) = 10
valid_interval (suc (suc (suc n))) = 25

abbrev pub valid_intervals_size : ℕ
valid_intervals_size = 4

abbrev pub min_space_majorticks : ℕ
min_space_majorticks = 80

-- The conversion of a double that is not negative to an int.
pub to_int : ℕ → Option ℕ
to_int n = if ltb n (2 ^ 31) then some n else none

-- `range` is upper - lower. The size and the range are in units.
pub interval_pixel_spacing : ℕ → ℕ → ℕ → Option ℕ
interval_pixel_spacing interval range allocated_size = to_int (allocated_size * interval / range)

pub interval_at : ℕ → ℕ → ℕ
interval_at interval_index interval_n = valid_interval interval_index * 10 ^ interval_n

-- What the loop does with the spacing, and with the interval. `rest` is what the next round returns.
pub with_spacing : ℕ → Option ℕ → Option ℤ → Option ℤ
with_spacing interval none rest = none
with_spacing interval (some spacing) rest =
    if ltb_ℤ (pos spacing) (pos 0)
    then some (negsuc 0)
    else if leb min_space_majorticks spacing
    then some (pos interval)
    else rest

pub with_interval : Option ℕ → ℕ → ℕ → Option ℤ → Option ℤ
with_interval none range allocated_size rest = none
with_interval (some interval) range allocated_size rest =
    with_spacing interval (interval_pixel_spacing interval range allocated_size) rest

-- The loop of calculateInterval; the next index and exponent are computed first.
pub calculate_interval_loop : ℕ → ℕ → ℕ → ℕ → ℕ → Option ℤ
calculate_interval_loop zero range allocated_size interval_index interval_n = none
calculate_interval_loop (suc fuel) range allocated_size interval_index interval_n =
    let wraps = suc interval_index == valid_intervals_size in
    let rest =
      calculate_interval_loop fuel range allocated_size (if wraps then 0 else suc interval_index)
        (if wraps then suc interval_n else interval_n) in
    with_interval (to_int (interval_at interval_index interval_n)) range allocated_size rest

pub calculate_interval : ℕ → ℕ → ℕ → Option ℤ
calculate_interval unit range allocated_size =
    if leb 1 range && leb unit range && leb 1 allocated_size
    then calculate_interval_loop (suc (valid_intervals_size * (min_space_majorticks * range))) range
        allocated_size 0 0
    else none
