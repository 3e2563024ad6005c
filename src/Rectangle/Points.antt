-- ===== src/Rectangle/Points.antt =====
-- Rectangles seen as the sets of the points that they contain.
use scroom.Common.{◌≡◌, true, false, ◌&&◌, arith}
use scroom.Common.Int.{ℤ, ◌-ℤ◌, ltb_ℤ, leb_ℤ, ◌+ℤ◌, neg_ℤ, int_laws}
use scroom.Segment.{get_end}
use scroom.Segment
use scroom.Segment.Points.{
  contains-intersection, contains-before, contains-after, contains-add, contains-empty_size,
}
use scroom.Rectangle.{
  Point, Rectangle, neg, minus, plus, contains, intersection, is_empty, left_of, right_of, above,
  below, left_of_rect, right_of_rect, above_rect, below_rect, add, sub,
}

-- The intersection contains exactly the points that both rectangles contain.
pub contains-intersection_rect :
    (r s : Rectangle) (p : Point) → contains (intersection r s) p ≡ (contains r p && contains s p)
unfolding contains intersection
contains-intersection_rect r s p = ground (
  arith,
  contains-intersection r.horizontally s.horizontally p.x,
  contains-intersection r.vertically s.vertically p.y,
)

-- The four cuts at a coordinate contain exactly the points of the rectangle on their side of it.
pub contains-cuts :
    (r : Rectangle) (v : ℤ) (p : Point)
    → (contains (left_of r v) p ≡ (contains r p && ltb_ℤ p.x v))
      × (contains (right_of r v) p ≡ (contains r p && leb_ℤ v p.x))
      × (contains (above r v) p ≡ (contains r p && ltb_ℤ p.y v))
      × (contains (below r v) p ≡ (contains r p && leb_ℤ v p.y))
unfolding contains left_of right_of above below
contains-cuts r v p =
    let w = contains-before r.horizontally v p.x in
    let e = contains-after r.horizontally v p.x in
    let n = contains-before r.vertically v p.y in
    let s = contains-after r.vertically v p.y in
    (ground arith, ground arith, ground arith, ground arith)

pub is_empty→no_points : (r : Rectangle) (p : Point) → is_empty r ≡ true → contains r p ≡ false
unfolding is_empty contains
is_empty→no_points r p e =
    ground (arith, contains-empty_size r.horizontally p.x, contains-empty_size r.vertically p.y)

-- The four cuts beside a rectangle that is not empty: the points on the given side of it that
-- lie, in the other direction, within its extent.
pub contains-cuts_rect :
    (s r : Rectangle) (p : Point)
    → is_empty r ≡ false
    → (contains (left_of_rect s r) p
        ≡ (contains s p && (ltb_ℤ p.x r.horizontally.start && Segment.contains r.vertically p.y)))
      × (contains (right_of_rect s r) p ≡ (
          contains s p
          && (leb_ℤ (get_end r.horizontally) p.x && Segment.contains r.vertically p.y)))
      × (contains (above_rect s r) p
          ≡ (contains s p && (ltb_ℤ p.y r.vertically.start && Segment.contains r.horizontally p.x)))
      × (contains (below_rect s r) p ≡ (
          contains s p
          && (leb_ℤ (get_end r.vertically) p.y && Segment.contains r.horizontally p.x)))
unfolding contains left_of_rect right_of_rect above_rect below_rect
contains-cuts_rect s r p e =
    let h = contains-intersection s.horizontally r.horizontally p.x in
    let v = contains-intersection s.vertically r.vertically p.y in
    let left = contains-before s.horizontally r.horizontally.start p.x in
    let right = contains-after s.horizontally (get_end r.horizontally) p.x in
    let top = contains-before s.vertically r.vertically.start p.y in
    let bottom = contains-after s.vertically (get_end r.vertically) p.y in
    rw e (ground arith, ground arith, ground arith, ground arith)

add-neg_ℤ : (a b : ℤ) → a +ℤ neg_ℤ b ≡ a -ℤ b
add-neg_ℤ a b = omega int_laws

sub-neg_ℤ : (a b : ℤ) → a -ℤ neg_ℤ b ≡ a +ℤ b
sub-neg_ℤ a b = omega int_laws

-- Moving a rectangle by a point moves the points that it contains.
pub contains-move :
    (r : Rectangle) (p q : Point)
    → (contains (add r p) q ≡ contains r (minus q p))
      × (contains (sub r p) q ≡ contains r (plus q p))
unfolding contains add sub minus plus neg
contains-move r p q = (simp (contains-add, add-neg_ℤ), simp (contains-add, sub-neg_ℤ))
