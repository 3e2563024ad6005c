-- ===== src/Rectangle/Examples.antt =====
-- The theorems on rectangles at concrete rectangles.
use scroom.Common.{◌≡◌, false, ◌&&◌, arith}
use scroom.Common.Int.{pos, negsuc}
use scroom.Segment.{get_end}
use scroom.Segment
use scroom.Rectangle.{Point, Rectangle, contains, intersection, is_empty}
use scroom.Rectangle.Points.{contains-intersection_rect}

abbrev wide : Rectangle
wide = record {
  horizontally = record { start = pos 0; size = pos 20 };
  vertically = record { start = pos 2; size = pos 5 };
}

abbrev tall : Rectangle
tall = record {
  horizontally = record { start = pos 5; size = pos 3 };
  vertically = record { start = negsuc 9; size = pos 30 };
}

abbrev here : Point
here = record { x = pos 6; y = pos 3 }

contains-intersection_rect_example :
    contains (intersection wide tall) here ≡ (contains wide here && contains tall here)
contains-intersection_rect_example = contains-intersection_rect wide tall here

tall-is_empty : is_empty tall ≡ false
unfolding is_empty Segment.is_empty
tall-is_empty = ground arith
