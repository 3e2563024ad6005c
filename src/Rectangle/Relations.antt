-- ===== src/Rectangle/Relations.antt =====
-- The comparison of two rectangles, against the points that they contain.
use scroom.Common.{◌≡◌, sym, ◌∙◌, ◌↔◌, inl, inr, true, false, arith, Bool-cases}
use scroom.Common.Int.{ℤ}
use scroom.Segment.{IsNormal}
use scroom.Segment
use scroom.Segment.Points.{contains-start}
use scroom.Segment.Relations.{equals_iff, intersects_iff}
use scroom.Rectangle.{Point, Rectangle, contains, is_empty, equals, intersects}
use scroom.Rectangle.Points.{is_empty→no_points}

-- Both sides have sizes that are not negative.
pub record IsNormalRect (r : Rectangle) : Type 0 where
  pub across : IsNormal r.horizontally
  pub down : IsNormal r.vertically

corner : Rectangle → Point
corner r = record { x = r.horizontally.start; y = r.vertically.start }

contains-corner :
    (r : Rectangle) → IsNormalRect r → is_empty r ≡ false → contains r (corner r) ≡ true
unfolding is_empty contains corner
contains-corner r n e =
    ground (arith, contains-start r.horizontally n.across, contains-start r.vertically n.down)

SamePoints→is_empty :
    (r s : Rectangle)
    → IsNormalRect s
    → ((p : Point) → contains r p ≡ contains s p)
    → is_empty r ≡ true
    → is_empty s ≡ true
SamePoints→is_empty r s n h e = elim (Bool-cases (is_empty s)) [
  | inl k ↦ k
  | inr k ↦ cc (h (corner s), contains-corner s n k, is_empty→no_points r (corner s) e)
]

-- The sides of a rectangle that is not empty are determined by its points.
same_across :
    (r s : Rectangle)
    → contains r (corner r) ≡ true
    → ((p : Point) → contains r p ≡ contains s p)
    → (x : ℤ) → Segment.contains r.horizontally x ≡ Segment.contains s.horizontally x
unfolding contains corner
same_across r s c h x =
    let here = h (corner r) in
    let there = h (record { x = x; y = r.vertically.start }) in ground arith

same_down :
    (r s : Rectangle)
    → contains r (corner r) ≡ true
    → ((p : Point) → contains r p ≡ contains s p)
    → (y : ℤ) → Segment.contains r.vertically y ≡ Segment.contains s.vertically y
unfolding contains corner
same_down r s c h y =
    let here = h (corner r) in
    let there = h (record { x = r.horizontally.start; y = y }) in ground arith

SamePoints→equals :
    (r s : Rectangle)
    → IsNormalRect r
    → IsNormalRect s
    → ((p : Point) → contains r p ≡ contains s p)
    → equals r s ≡ true
unfolding equals
SamePoints→equals r s nr ns h = elim (Bool-cases (is_empty r)) [
  | inl e ↦ rw (e, SamePoints→is_empty r s ns h e)
  | inr e ↦
      let c = contains-corner r nr e in
      let across =
        (equals_iff r.horizontally s.horizontally nr.across ns.across).1 (same_across r s c h) in
      let down = (equals_iff r.vertically s.vertically nr.down ns.down).1 (same_down r s c h) in
      let back = SamePoints→is_empty s r nr (λ p. sym (h p)) in
      elim (Bool-cases (is_empty s)) [ inl k ↦ cc (back k, e) | inr k ↦ rw (e, k, across, down) ]
]

equals→SamePoints :
    (r s : Rectangle)
    → IsNormalRect r
    → IsNormalRect s
    → equals r s ≡ true
    → (p : Point) → contains r p ≡ contains s p
unfolding equals contains
equals→SamePoints r s nr ns e p = elim (Bool-cases (is_empty r)) [
  | inl k ↦
      let other : is_empty s ≡ true = ground arith in
      is_empty→no_points r p k ∙ sym (is_empty→no_points s p other)
  | inr k ↦
      let across : Segment.equals r.horizontally s.horizontally ≡ true = ground arith in
      let down : Segment.equals r.vertically s.vertically ≡ true = ground arith in
      let h = (equals_iff r.horizontally s.horizontally nr.across ns.across).0 across p.x in
      let v = (equals_iff r.vertically s.vertically nr.down ns.down).0 down p.y in ground arith
]

-- Rectangles with sizes that are not negative are equal by `operator==` exactly when they contain
-- the same points.
pub equals_rect_iff :
    (r s : Rectangle)
    → IsNormalRect r
    → IsNormalRect s
    → (equals r s ≡ true) ↔ ((p : Point) → contains r p ≡ contains s p)
equals_rect_iff r s nr ns = (equals→SamePoints r s nr ns, SamePoints→equals r s nr ns)

-- Rectangles with sizes that are not negative intersect exactly when some point lies in both.
pub intersects_rect_iff :
    (r s : Rectangle)
    → IsNormalRect r
    → IsNormalRect s
    → (intersects r s ≡ true) ↔ ((p : Point) × (contains r p ≡ true) × (contains s p ≡ true))
unfolding intersects contains
intersects_rect_iff r s nr ns =
    let h = intersects_iff r.horizontally s.horizontally nr.across ns.across in
    let v = intersects_iff r.vertically s.vertically nr.down ns.down in
    (
      λ e.
          let a = h.0 (ground arith) in
          let b = v.0 (ground arith) in (record { x = a.0; y = b.0 }, ground arith, ground arith),
      λ c.
          let across : Segment.intersects r.horizontally s.horizontally ≡ true =
            h.1 (c.0.x, ground arith, ground arith) in
          let down : Segment.intersects r.vertically s.vertically ≡ true =
            v.1 (c.0.y, ground arith, ground arith) in
          rw (across, down),
    )
