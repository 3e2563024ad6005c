-- ===== src/Selections/Outward.antt =====
-- The selection of pixels covers what was selected.
use scroom.Common.{
  ℕ, suc, ◌+◌, ◌*◌, ◌/◌, ◌≡◌, ◌≤◌, ◌<◌, refl, Bool, true, false, if◌then◌else◌, arith, inl, inr,
  ◌⊎◌,
}
use scroom.Common.Int.{
  ℤ, pos, negsuc, pos_part, neg_part, ◌+ℤ◌, neg_ℤ, min_ℤ, max_ℤ, ◌≤ℤ◌, ◌<ℤ◌, int_laws, eq_of_parts,
  +ℤ_parts, -ℤ_parts, one_part,
}
use native.Mathlib.Nat.{div-mul-le_self, lt-div-mul-add}
use scroom.Selections.{
  Selection, Box, corner_getter, corner_at, is_after, find_closest_corner, find_opposed_corner,
  to_rectangle, round_down_to_multiple_of, round_up_to_multiple_of, AspectRatio, round_outward,
  tweak_selection,
}

-- The multiple n / a * a is at most n, and less than a away from it.
multiple-near : (n a : ℕ) → 0 < a → (n / a * a ≤ n) × (n < n / a * a + a)
multiple-near n a h = (div-mul-le_self n a, lt-div-mul-add h)

down-near :
    (z : ℤ) (a : ℕ)
    → 0 < a
    → (round_down_to_multiple_of z a ≤ℤ z) × (z <ℤ round_down_to_multiple_of z a +ℤ pos a)
unfolding round_down_to_multiple_of
down-near (pos n) a h =
    let (low, high) = multiple-near n a h in (omega (arith, low), omega (int_laws, high))
down-near (negsuc n) a h =
    negative (suc (n / a) * a) (omega (arith, multiple-near n a h))
      (omega (arith, multiple-near n a h))
  where
    negative :
        (m : ℕ)
        → suc n ≤ m
        → m < suc n + a
        → (neg_ℤ (pos m) ≤ℤ negsuc n) × (negsuc n <ℤ neg_ℤ (pos m) +ℤ pos a)
    negative m low high = (omega int_laws, omega int_laws)

up-near :
    (z : ℤ) (a : ℕ)
    → 0 < a
    → (z ≤ℤ round_up_to_multiple_of z a) × (round_up_to_multiple_of z a <ℤ z +ℤ pos a)
unfolding round_up_to_multiple_of
up-near z a h = let (low, high) = down-near (neg_ℤ z) a h in (omega int_laws, omega int_laws)

unfoldable pub IsMultiple : ℕ → ℤ → Type 0
IsMultiple a z = (k : ℕ) × (pos_part z + neg_part z ≡ k * a)

neg-IsMultiple : (a : ℕ) (z : ℤ) → IsMultiple a z → IsMultiple a (neg_ℤ z)
unfolding IsMultiple
neg-IsMultiple a z (k, e) =
    (k, ground (arith, e, -ℤ_parts (pos 0) z, one_part z, one_part (neg_ℤ z)))

down-IsMultiple : (z : ℤ) (a : ℕ) → IsMultiple a (round_down_to_multiple_of z a)
unfolding round_down_to_multiple_of IsMultiple
down-IsMultiple (pos n) a = (n / a, omega arith)
down-IsMultiple (negsuc n) a = neg-IsMultiple a (pos (suc (n / a) * a)) (suc (n / a), omega arith)

up-IsMultiple : (z : ℤ) (a : ℕ) → IsMultiple a (round_up_to_multiple_of z a)
unfolding round_up_to_multiple_of
up-IsMultiple z a =
    neg-IsMultiple a (round_down_to_multiple_of (neg_ℤ z) a) (down-IsMultiple (neg_ℤ z) a)

-- The ends p and q became p2 and q2: multiples of a, further out by less than a, at the sides where
-- they were.
unfoldable pub Outward : ℕ → ℤ → ℤ → ℤ → ℤ → Type 0
Outward a p q p2 q2 =
    IsMultiple a p2
    × IsMultiple a q2
    × (((p ≤ℤ q) × (p2 ≤ℤ p) × (p <ℤ p2 +ℤ pos a) × (q ≤ℤ q2) × (q2 <ℤ q +ℤ pos a))
        ⊎ ((q <ℤ p) × (q2 ≤ℤ q) × (q <ℤ q2 +ℤ pos a) × (p ≤ℤ p2) × (p2 <ℤ p +ℤ pos a)))

-- One coordinate of the start and of the end, and of what they become.
order-cases : (p q : ℤ) → (p ≤ℤ q) ⊎ (q <ℤ p)
order-cases p q = ground arith

before-side :
    (p q : ℤ)
    → p ≤ℤ q
    → (min_ℤ p q ≡ p) × (max_ℤ p q ≡ q) × (is_after (min_ℤ p q) (max_ℤ p q) p ≡ false)
unfolding is_after
before-side p q h =
    let small : min_ℤ p q ≡ p = ground (arith, h) in
    let large : max_ℤ p q ≡ q = ground (arith, h, eq_of_parts p q) in
    (
      small,
      large,
      rw small (rw large (ground (arith, h, +ℤ_parts p q, +ℤ_parts q p, +ℤ_parts p p))),
    )

after-side :
    (p q : ℤ)
    → q <ℤ p
    → (min_ℤ p q ≡ q) × (max_ℤ p q ≡ p) × (is_after (min_ℤ p q) (max_ℤ p q) p ≡ true)
unfolding is_after
after-side p q h =
    let small : min_ℤ p q ≡ q = ground (arith, h) in
    let large : max_ℤ p q ≡ p = ground (arith, h) in
    (
      small,
      large,
      rw small (rw large (ground (arith, h, +ℤ_parts p q, +ℤ_parts q p, +ℤ_parts p p))),
    )

side-Outward :
    (a : ℕ) (p q : ℤ)
    → 0 < a
    → let low = round_down_to_multiple_of (min_ℤ p q) a in
      let high = round_up_to_multiple_of (max_ℤ p q) a in
      let after = is_after (min_ℤ p q) (max_ℤ p q) p in
      Outward a p q (if after then high else low) (if after then low else high)
unfolding Outward
side-Outward a p q h = elim (order-cases p q) [
  | inl le ↦
      let (small, large, after) = before-side p q le in
      let (d, d2) = down-near p a h in
      let (u, u2) = up-near q a h in
      rw after
        (rw small (rw large (down-IsMultiple p a, up-IsMultiple q a, inl (le, d, d2, u, u2))))
  | inr lt ↦
      let (small, large, after) = after-side p q lt in
      let (d, d2) = down-near q a h in
      let (u, u2) = up-near p a h in
      rw after
        (rw small (rw large (up-IsMultiple p a, down-IsMultiple q a, inr (lt, d, d2, u, u2))))
]

corner_getter-corner_at :
    (b c : Bool) (r : Box)
    → ((corner_getter (corner_at b c) r).x ≡ (if b then r.right else r.left))
      × ((corner_getter (corner_at b c) r).y ≡ (if c then r.bottom else r.top))
      × ((corner_getter (find_opposed_corner (corner_at b c)) r).x
          ≡ (if b then r.left else r.right))
      × ((corner_getter (find_opposed_corner (corner_at b c)) r).y
          ≡ (if c then r.top else r.bottom))
unfolding corner_getter corner_at find_opposed_corner
corner_getter-corner_at true true r = (refl, refl, refl, refl)
corner_getter-corner_at true false r = (refl, refl, refl, refl)
corner_getter-corner_at false true r = (refl, refl, refl, refl)
corner_getter-corner_at false false r = (refl, refl, refl, refl)

-- A selection of pixels: in both directions the start and the end stay on their sides, and move outward
-- by less than a pixel, to a multiple of the size of a pixel.
pub tweak_selection-Outward :
    (a : AspectRatio) (s : Selection)
    → 0 < a.wide
    → 0 < a.high
    → let t = tweak_selection (round_outward a) s in
      Outward a.wide s.start.x s.end.x t.start.x t.end.x
      × Outward a.high s.start.y s.end.y t.start.y t.end.y
unfolding tweak_selection find_closest_corner to_rectangle round_outward
tweak_selection-Outward a s wide high =
    let r = to_rectangle s in
    let (sx, sy, ex, ey) =
      corner_getter-corner_at (is_after r.left r.right s.start.x)
        (is_after r.top r.bottom s.start.y) (round_outward a r) in
    (
      rw sx (rw ex (side-Outward a.wide s.start.x s.end.x wide)),
      rw sy (rw ey (side-Outward a.high s.start.y s.end.y high)),
    )
