-- ===== src/Segment/Points.antt =====
-- Segments seen as the sets of the points that they contain.
use scroom.Common.{◌≡◌, refl, ◌∙◌, Bool, true, false, ◌&&◌, arith, if◌then◌else◌}
use scroom.Common.Int.{
  ℤ, pos, ◌+ℤ◌, ◌-ℤ◌, ◌≤ℤ◌, ltb_ℤ, leb_ℤ, min_ℤ, max_ℤ, +ℤ_parts, -ℤ_parts, int_laws,
}
use scroom.Segment.{
  Segment, IsNormal, add, is_empty, get_end, make_segment, empty_segment, contains, intersection,
  before, after,
}

add-sub : (a b : ℤ) → a +ℤ (b -ℤ a) ≡ b
add-sub a b = omega int_laws

-- A segment spanned by two ends in order contains the points from the first up to the second.
pub contains-span :
    (a b p : ℤ) → a ≤ℤ b → contains (make_segment a (b -ℤ a)) p ≡ (leb_ℤ a p && ltb_ℤ p b)
unfolding contains make_segment
contains-span a b p h = ground (arith, -ℤ_parts a b, -ℤ_parts b a, +ℤ_parts a (b -ℤ a))

contains-empty : (p : ℤ) → contains empty_segment p ≡ false
unfolding contains ◌+ℤ◌
contains-empty p = ground arith

contains-if :
    (b : Bool) (s t : Segment) (p : ℤ)
    → contains (if b then s else t) p ≡ (if b then contains s p else contains t p)
contains-if true s t p = refl
contains-if false s t p = refl

-- `before v` contains exactly the points of the segment below v.
pub contains-before :
    (s : Segment) (v p : ℤ) → contains (before s v) p ≡ (contains s p && ltb_ℤ p v)
unfolding before
contains-before s v p =
    simp contains-if
      (unfold contains in ground (arith, contains-empty p, contains-span s.start v p))

-- `after v` contains exactly the points of the segment from v on.
pub contains-after : (s : Segment) (v p : ℤ) → contains (after s v) p ≡ (contains s p && leb_ℤ v p)
unfolding after
contains-after s v p =
    simp contains-if
      (unfold contains in ground (arith, contains-empty p, contains-span v (get_end s) p))

clip-contains :
    (b e c f p : ℤ)
    → (leb_ℤ (max_ℤ b c) p && ltb_ℤ p (min_ℤ e f))
      ≡ ((leb_ℤ b p && ltb_ℤ p e) && (leb_ℤ c p && ltb_ℤ p f))
clip-contains b e c f p = ground arith

empty_span : (a b p : ℤ) → leb_ℤ a b ≡ false → (leb_ℤ a p && ltb_ℤ p b) ≡ false
empty_span a b p h = ground arith

leb-sub : (a b : ℤ) → leb_ℤ (pos 0) (b -ℤ a) ≡ leb_ℤ a b
leb-sub a b = ground (arith, -ℤ_parts b a)

-- What `intersection` builds from its two ends contains the points between them, in every case.
contains-clip :
    (a b p : ℤ)
    → contains (if leb_ℤ (pos 0) (b -ℤ a) then make_segment a (b -ℤ a) else empty_segment) p
      ≡ (leb_ℤ a p && ltb_ℤ p b)
contains-clip a b p =
    simp contains-if
      (unfold contains in ground (arith, contains-empty p, contains-span a b p, leb-sub a b))

-- The intersection contains exactly the points that both segments contain.
pub contains-intersection :
    (s t : Segment) (p : ℤ) → contains (intersection s t) p ≡ (contains s p && contains t p)
unfolding intersection
contains-intersection s t p =
    contains-clip _ _ p
    ∙ (unfold contains in clip-contains s.start (get_end s) t.start (get_end t) p)

-- A segment that is empty contains no point.
pub contains-empty_size : (s : Segment) (p : ℤ) → is_empty s ≡ true → contains s p ≡ false
unfolding is_empty contains
contains-empty_size s p e = ground (arith, +ℤ_parts s.start s.size)

-- A moved segment contains the points that the segment contained before they were moved.
pub contains-add : (s : Segment) (n p : ℤ) → contains (add s n) p ≡ contains s (p -ℤ n)
unfolding contains add
contains-add s n p = ground (
  arith,
  +ℤ_parts s.start n,
  -ℤ_parts p n,
  +ℤ_parts s.start s.size,
  +ℤ_parts (s.start +ℤ n) s.size,
)

-- A normal segment that is not empty contains its start.
pub contains-start : (s : Segment) → IsNormal s → is_empty s ≡ false → contains s s.start ≡ true
unfolding is_empty contains
contains-start s n e = ground (arith, +ℤ_parts s.start s.size)
