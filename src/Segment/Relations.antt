-- ===== src/Segment/Relations.antt =====
-- The comparisons of two segments, against the points that they contain.
use scroom.Common.{◌≡◌, sym, ◌∙◌, ◌≢◌, ◌↔◌, ◌⊎◌, inl, inr, true, false, arith}
use scroom.Common.Int.{ℤ, pos, ◌-ℤ◌, ◌≤ℤ◌, ◌<ℤ◌, max_ℤ, +ℤ_parts, -ℤ_parts, eq_of_parts}
use scroom.Segment.{
  Segment, IsNormal, get_end, are_equal, is_empty, contains, contains_segment, intersects, equals,
}

are_equal_iff : (a b : ℤ) → (are_equal a b ≡ true) ↔ (a ≡ b)
unfolding are_equal
are_equal_iff a b = ground (arith, -ℤ_parts a b, eq_of_parts a b)

-- A segment without points has size 0, and no other normal segment has.
is_empty_iff : (s : Segment) → (is_empty s ≡ true) ↔ (s.size ≡ pos 0)
unfolding is_empty
is_empty_iff s = ground (arith, eq_of_parts s.size (pos 0))

-- A segment whose points all lie in another one has its ends within the other's.
ends_within :
    (s t : Segment)
    → pos 0 <ℤ s.size
    → ((p : ℤ) → contains s p ≡ true → contains t p ≡ true)
    → (t.start ≤ℤ s.start) × (get_end s ≤ℤ get_end t)
unfolding contains
ends_within s t n h = ground (
  arith,
  h s.start,
  h (get_end s -ℤ pos 1),
  +ℤ_parts s.start s.size,
  -ℤ_parts (get_end s) (pos 1),
)

same_ends→equals : (s t : Segment) → s.start ≡ t.start → s.size ≡ t.size → equals s t ≡ true
unfolding equals
same_ends→equals s t e f = ground (arith, -ℤ_parts s.start t.start, -ℤ_parts s.size t.size)

both_empty→equals : (s t : Segment) → s.size ≡ pos 0 → t.size ≡ pos 0 → equals s t ≡ true
unfolding equals
both_empty→equals s t e f = ground arith

no_points→empty : (s : Segment) → IsNormal s → contains s s.start ≡ false → s.size ≡ pos 0
unfolding contains
no_points→empty s n h = ground (arith, +ℤ_parts s.start s.size, eq_of_parts s.size (pos 0))

empty→no_points : (s : Segment) (p : ℤ) → s.size ≡ pos 0 → contains s p ≡ false
unfolding contains
empty→no_points s p e = ground (arith, +ℤ_parts s.start s.size)

size-cases : (s : Segment) → IsNormal s → (s.size ≡ pos 0) ⊎ (pos 0 <ℤ s.size)
size-cases s n = ground (arith, eq_of_parts s.size (pos 0))

SamePoints→equals :
    (s t : Segment)
    → IsNormal s
    → IsNormal t
    → ((p : ℤ) → contains s p ≡ contains t p)
    → equals s t ≡ true
SamePoints→equals s t hs ht h = elim (size-cases s hs) [
  | inl e ↦
      both_empty→equals s t e (no_points→empty t ht (sym (h t.start) ∙ empty→no_points s t.start e))
  | inr some_s ↦ elim (size-cases t ht) [
    | inl e ↦
        both_empty→equals s t (no_points→empty s hs (h s.start ∙ empty→no_points t s.start e)) e
    | inr some_t ↦
        let there = ends_within s t some_s (λ p k. sym (h p) ∙ k) in
        let back = ends_within t s some_t (λ p k. h p ∙ k) in
        same_ends→equals s t (omega (arith, there, back, eq_of_parts s.start t.start)) (
          omega (
            arith,
            there,
            back,
            +ℤ_parts s.start s.size,
            +ℤ_parts t.start t.size,
            eq_of_parts s.size t.size,
          ))
  ]
]

equals→SamePoints :
    (s t : Segment)
    → IsNormal s
    → IsNormal t
    → equals s t ≡ true
    → (p : ℤ) → contains s p ≡ contains t p
unfolding equals contains
equals→SamePoints s t hs ht h p = ground (
  arith,
  +ℤ_parts s.start s.size,
  +ℤ_parts t.start t.size,
  -ℤ_parts s.start t.start,
  -ℤ_parts s.size t.size,
)

-- Normal segments are equal by `operator==` exactly when they contain the same points.
pub equals_iff :
    (s t : Segment)
    → IsNormal s
    → IsNormal t
    → (equals s t ≡ true) ↔ ((p : ℤ) → contains s p ≡ contains t p)
equals_iff s t hs ht = (equals→SamePoints s t hs ht, SamePoints→equals s t hs ht)

intersects→common :
    (s t : Segment)
    → IsNormal s
    → IsNormal t
    → intersects s t ≡ true
    → (contains s (max_ℤ s.start t.start) ≡ true) × (contains t (max_ℤ s.start t.start) ≡ true)
unfolding intersects contains
intersects→common s t hs ht h = ground (arith, +ℤ_parts s.start s.size, +ℤ_parts t.start t.size)

common→intersects :
    (s t : Segment) (p : ℤ) → contains s p ≡ true → contains t p ≡ true → intersects s t ≡ true
unfolding intersects contains
common→intersects s t p h k = ground (arith, +ℤ_parts s.start s.size, +ℤ_parts t.start t.size)

-- Normal segments intersect exactly when some point lies in both.
pub intersects_iff :
    (s t : Segment)
    → IsNormal s
    → IsNormal t
    → (intersects s t ≡ true) ↔ ((p : ℤ) × (contains s p ≡ true) × (contains t p ≡ true))
intersects_iff s t hs ht = (
  λ h. let both = intersects→common s t hs ht h in (max_ℤ s.start t.start, both.0, both.1),
  λ c. common→intersects s t c.0 c.1 c.2,
)

contains_segment→subset :
    (s t : Segment) (p : ℤ)
    → contains_segment s t ≡ true
    → contains t p ≡ true
    → contains s p ≡ true
unfolding contains_segment contains
contains_segment→subset s t p h k = ground arith

subset→contains_segment :
    (s t : Segment)
    → IsNormal t
    → t.size ≢ pos 0
    → ((p : ℤ) → contains t p ≡ true → contains s p ≡ true)
    → contains_segment s t ≡ true
unfolding contains_segment
subset→contains_segment s t ht ne h = elim (size-cases t ht) [
  | inl e ↦ absurd (ne e)
  | inr n ↦ let within = ends_within t s n h in ground (arith, within)
]

-- A segment contains a normal segment that is not empty exactly when it contains all its points.
pub contains_segment_iff :
    (s t : Segment)
    → IsNormal t
    → t.size ≢ pos 0
    → (contains_segment s t ≡ true) ↔ ((p : ℤ) → contains t p ≡ true → contains s p ≡ true)
contains_segment_iff s t ht ne =
    (λ h p. contains_segment→subset s t p h, subset→contains_segment s t ht ne)
