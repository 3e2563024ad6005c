-- ===== src/Rectangle.antt =====
-- libs/util/inc/scroom/point.hh and libs/util/inc/scroom/rectangle.hh at T = int: a rectangle is
-- a horizontal and a vertical segment.
use scroom.Common.{Bool, true, false, not, ◌&&◌, ◌||◌, if◌then◌else◌}
use scroom.Common.Int.{ℤ, neg_ℤ, ◌+ℤ◌, ◌*ℤ◌, div_ℤ, eqb_ℤ}
use scroom.Segment.{Segment, get_end, make_segment, make_segment_from_start_end}
use scroom.Segment
pub mod Points
pub mod Relations
mod Examples

pub record Point : Type 0 where
  pub x : ℤ
  pub y : ℤ

-- operator-, operator+=, operator-=, operator*= and operator/= of points
unfoldable pub neg : Point → Point
neg p = record { x = neg_ℤ p.x; y = neg_ℤ p.y }

unfoldable pub plus : Point → Point → Point
plus p q = record { x = p.x +ℤ q.x; y = p.y +ℤ q.y }

unfoldable pub minus : Point → Point → Point
unfolding plus neg
minus p q = plus p (neg q)

pub times : Point → Point → Point
times p q = record { x = p.x *ℤ q.x; y = p.y *ℤ q.y }

pub divided_by : Point → Point → Point
divided_by p q = record { x = div_ℤ p.x q.x; y = div_ℤ p.y q.y }

unfoldable pub point_equals : Point → Point → Bool
point_equals p q = eqb_ℤ p.x q.x && eqb_ℤ p.y q.y

pub record Rectangle : Type 0 where
  pub horizontally : Segment
  pub vertically : Segment

-- Rectangle(x, y, width, height)
pub make_rect : ℤ → ℤ → ℤ → ℤ → Rectangle
make_rect x y width height = record {
  horizontally = make_segment x width;
  vertically = make_segment y height;
}

pub make_rect_from_start_end : Point → Point → Rectangle
make_rect_from_start_end start end = record {
  horizontally = make_segment_from_start_end start.x end.x;
  vertically = make_segment_from_start_end start.y end.y;
}

pub get_top_left : Rectangle → Point
get_top_left r = record { x = r.horizontally.start; y = r.vertically.start }

pub get_bottom_right : Rectangle → Point
get_bottom_right r = record { x = get_end r.horizontally; y = get_end r.vertically }

pub move_to : Rectangle → Point → Rectangle
move_to r p = record {
  horizontally = Segment.move_to r.horizontally p.x;
  vertically = Segment.move_to r.vertically p.y;
}

pub contains : Rectangle → Point → Bool
contains r p = Segment.contains r.horizontally p.x && Segment.contains r.vertically p.y

-- contains(const Rectangle&)
pub contains_rect : Rectangle → Rectangle → Bool
contains_rect r other =
    Segment.contains_segment r.horizontally other.horizontally
    && Segment.contains_segment r.vertically other.vertically

pub intersects : Rectangle → Rectangle → Bool
intersects r other =
    Segment.intersects r.horizontally other.horizontally
    && Segment.intersects r.vertically other.vertically

pub intersection : Rectangle → Rectangle → Rectangle
intersection r other = record {
  horizontally = Segment.intersection r.horizontally other.horizontally;
  vertically = Segment.intersection r.vertically other.vertically;
}

pub is_empty : Rectangle → Bool
is_empty r = Segment.is_empty r.horizontally || Segment.is_empty r.vertically

-- leftOf, rightOf, above and below a coordinate
pub left_of : Rectangle → ℤ → Rectangle
left_of r v = record r { horizontally = Segment.before r.horizontally v }

pub right_of : Rectangle → ℤ → Rectangle
right_of r v = record r { horizontally = Segment.after r.horizontally v }

pub above : Rectangle → ℤ → Rectangle
above r v = record r { vertically = Segment.before r.vertically v }

pub below : Rectangle → ℤ → Rectangle
below r v = record r { vertically = Segment.after r.vertically v }

-- leftOf, rightOf, above and below a rectangle
pub left_of_rect : Rectangle → Rectangle → Rectangle
left_of_rect s r = if is_empty r then r else record {
  horizontally = Segment.before s.horizontally r.horizontally.start;
  vertically = Segment.intersection s.vertically r.vertically;
}

pub right_of_rect : Rectangle → Rectangle → Rectangle
right_of_rect s r = if is_empty r then r else record {
  horizontally = Segment.after s.horizontally (get_end r.horizontally);
  vertically = Segment.intersection s.vertically r.vertically;
}

pub above_rect : Rectangle → Rectangle → Rectangle
above_rect s r = if is_empty r then r else record {
  horizontally = Segment.intersection s.horizontally r.horizontally;
  vertically = Segment.before s.vertically r.vertically.start;
}

pub below_rect : Rectangle → Rectangle → Rectangle
below_rect s r = if is_empty r then r else record {
  horizontally = Segment.intersection s.horizontally r.horizontally;
  vertically = Segment.after s.vertically (get_end r.vertically);
}

pub equals : Rectangle → Rectangle → Bool
equals r other =
    if is_empty r
    then is_empty other
    else if is_empty other
    then false
    else Segment.equals r.horizontally other.horizontally
      && Segment.equals r.vertically other.vertically

-- operator+= and operator-= with a point
pub add : Rectangle → Point → Rectangle
add r p = record {
  horizontally = Segment.add r.horizontally p.x;
  vertically = Segment.add r.vertically p.y;
}

pub sub : Rectangle → Point → Rectangle
sub r p = add r (neg p)

-- operator*= and operator/= with a point
pub mul : Rectangle → Point → Rectangle
mul r p = record {
  horizontally = Segment.mul r.horizontally p.x;
  vertically = Segment.mul r.vertically p.y;
}

pub div : Rectangle → Point → Rectangle
div r p = record {
  horizontally = Segment.div r.horizontally p.x;
  vertically = Segment.div r.vertically p.y;
}

-- operator*= and operator/= with a number, of points and of rectangles
unfoldable pub point_times : Point → ℤ → Point
point_times p n = record { x = p.x *ℤ n; y = p.y *ℤ n }

pub point_divided_by : Point → ℤ → Point
point_divided_by p n = record { x = div_ℤ p.x n; y = div_ℤ p.y n }

pub mul_by : Rectangle → ℤ → Rectangle
mul_by r n = record {
  horizontally = Segment.mul r.horizontally n;
  vertically = Segment.mul r.vertically n;
}

pub div_by : Rectangle → ℤ → Rectangle
div_by r n = record {
  horizontally = Segment.div r.horizontally n;
  vertically = Segment.div r.vertically n;
}

pub reduce_size_to_multiple_of : Rectangle → ℤ → Rectangle
reduce_size_to_multiple_of r size = record {
  horizontally = Segment.reduce_size_to_multiple_of r.horizontally size;
  vertically = Segment.reduce_size_to_multiple_of r.vertically size;
}

-- setTop, setLeft, setBottom, setRight and setSize
pub set_top : Rectangle → ℤ → Rectangle
set_top r v = record r { vertically = Segment.set_start r.vertically v }

pub set_left : Rectangle → ℤ → Rectangle
set_left r v = record r { horizontally = Segment.set_start r.horizontally v }

pub set_bottom : Rectangle → ℤ → Rectangle
set_bottom r v = record r { vertically = Segment.set_end r.vertically v }

pub set_right : Rectangle → ℤ → Rectangle
set_right r v = record r { horizontally = Segment.set_end r.horizontally v }

pub set_size : Rectangle → Point → Rectangle
set_size r s = record {
  horizontally = Segment.set_size r.horizontally s.x;
  vertically = Segment.set_size r.vertically s.y;
}
