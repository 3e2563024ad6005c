-- ===== src/Segment/Examples.antt =====
-- Tests of the segment functions, and the theorems at concrete segments.
use scroom.Common.{◌≡◌, refl, false, ap, arith}
use scroom.Common.Int.{pos, negsuc, pos_part, ◌+ℤ◌, ◌-ℤ◌, div_ℤ}
use scroom.Segment.{
  Segment, IsNormal, make_segment, contains, intersection, before, after, mul, div, center,
  set_start, set_end, set_size, move_to, add, sub,
}
use scroom.Segment.Normal.{operations-IsNormal, mul-negative}

abbrev ten : Segment
ten = record { start = pos 3; size = pos 10 }

abbrev around_zero : Segment
around_zero = record { start = negsuc 4; size = pos 10 }

make_segment_test : make_segment (pos 3) (negsuc 4) ≡ record { start = negsuc 1; size = pos 5 }
unfolding make_segment ◌+ℤ◌ ◌-ℤ◌
make_segment_test = refl

intersection_test : intersection ten around_zero ≡ record { start = pos 3; size = pos 2 }
unfolding intersection make_segment ◌+ℤ◌ ◌-ℤ◌
intersection_test = refl

before_test : before ten (pos 7) ≡ record { start = pos 3; size = pos 4 }
unfolding before make_segment ◌+ℤ◌ ◌-ℤ◌
before_test = refl

after_test : after ten (pos 7) ≡ record { start = pos 7; size = pos 6 }
unfolding after make_segment ◌+ℤ◌ ◌-ℤ◌
after_test = refl

set_start_test : set_start ten (pos 20) ≡ record { start = pos 13; size = pos 7 }
unfolding set_start ◌+ℤ◌ ◌-ℤ◌
set_start_test = refl

div_test : div around_zero (pos 2) ≡ record { start = negsuc 1; size = pos 5 }
unfolding div div_ℤ ◌-ℤ◌
div_test = refl

center_test : center (set_size around_zero (pos 9)) ≡ negsuc 0
unfolding center set_size div_ℤ ◌+ℤ◌
center_test = refl

operations-IsNormal_example :
    IsNormal (move_to ten (pos 7))
    × IsNormal (intersection ten around_zero)
    × IsNormal (before ten (pos 7))
    × IsNormal (after ten (pos 7))
    × IsNormal (add ten (pos 7))
    × IsNormal (sub ten (pos 7))
    × IsNormal (set_start ten (pos 7))
    × IsNormal (set_end ten (pos 7))
operations-IsNormal_example = operations-IsNormal ten around_zero (pos 7) (omega arith)

mul-negative_example :
    ¬ IsNormal (mul ten (negsuc 1)) × (contains (mul ten (negsuc 1)) (negsuc 9) ≡ false)
mul-negative_example =
    mul-negative ten 1 (negsuc 9) (omega arith) (λ e. omega (arith, ap pos_part e))
