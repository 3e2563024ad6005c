-- ===== src/Segment/Normal.antt =====
-- Sizes: what the constructor and each operation leave of `IsNormal`, and where the ends go.
use native.Mathlib.Nat.{div-add-mod}
use scroom.Common.{
  ℕ, zero, suc, ◌+◌, ◌-◌, ◌<◌, ◌≤◌, ◌%◌, ◌≡◌, ◌≢◌, refl, Bool, true, false, arith, if◌then◌else◌,
}
use scroom.Common.Int.{
  ℤ, pos, negsuc, pos_part, ◌+ℤ◌, ◌-ℤ◌, ◌*ℤ◌, ◌≤ℤ◌, ◌<ℤ◌, ltb_ℤ, leb_ℤ, min_ℤ, max_ℤ, rem_ℤ,
  +ℤ_parts, -ℤ_parts, eq_of_parts,
}
use scroom.Segment.{
  Segment, IsNormal, get_end, empty_segment, make_segment, move_to, contains,
  reduce_size_to_multiple_of, intersection, before, after, add, sub, mul, set_start, set_end,
}

-- The constructor makes every size normal.
make_segment-IsNormal : (a n : ℤ) → IsNormal (make_segment a n)
unfolding make_segment
make_segment-IsNormal a n = ground (arith, -ℤ_parts (pos 0) n)

if-IsNormal : (b : Bool) (s t : Segment) → IsNormal s → IsNormal t → IsNormal (if b then s else t)
if-IsNormal true s t hs ht = hs
if-IsNormal false s t hs ht = ht

empty-IsNormal : IsNormal empty_segment
empty-IsNormal = omega arith

intersection-IsNormal : (s t : Segment) → IsNormal (intersection s t)
unfolding intersection
intersection-IsNormal s t =
    let a = max_ℤ s.start t.start in
    let n = min_ℤ (get_end s) (get_end t) -ℤ a in
    if-IsNormal (leb_ℤ (pos 0) n) (make_segment a n) empty_segment (make_segment-IsNormal a n)
      empty-IsNormal

before-IsNormal : (s : Segment) (v : ℤ) → IsNormal s → IsNormal (before s v)
unfolding before
before-IsNormal s v h =
    let cut = make_segment s.start (v -ℤ s.start) in
    if-IsNormal (ltb_ℤ v s.start) empty_segment (if ltb_ℤ v (get_end s) then cut else s)
      empty-IsNormal (if-IsNormal (ltb_ℤ v (get_end s)) cut s (make_segment-IsNormal _ _) h)

after-IsNormal : (s : Segment) (v : ℤ) → IsNormal s → IsNormal (after s v)
unfolding after
after-IsNormal s v h =
    let cut = make_segment v (get_end s -ℤ v) in
    if-IsNormal (ltb_ℤ (get_end s) v) empty_segment (if ltb_ℤ s.start v then cut else s)
      empty-IsNormal (if-IsNormal (ltb_ℤ s.start v) cut s (make_segment-IsNormal _ _) h)

-- Whatever their arguments, the operations that cut or move a normal segment give a normal one.
pub operations-IsNormal :
    (s t : Segment) (v : ℤ)
    → IsNormal s
    → IsNormal (move_to s v)
      × IsNormal (intersection s t)
      × IsNormal (before s v)
      × IsNormal (after s v)
      × IsNormal (add s v)
      × IsNormal (sub s v)
      × IsNormal (set_start s v)
      × IsNormal (set_end s v)
unfolding move_to add sub set_start set_end make_segment
operations-IsNormal s t v h = (
  make_segment-IsNormal v s.size,
  intersection-IsNormal s t,
  before-IsNormal s v h,
  after-IsNormal s v h,
  h,
  h,
  make_segment-IsNormal v (get_end s -ℤ v),
  make_segment-IsNormal s.start (v -ℤ s.start),
)

span_ends :
    (a b : ℤ)
    → ((make_segment a (b -ℤ a)).start ≡ min_ℤ a b)
      × (get_end (make_segment a (b -ℤ a)) ≡ max_ℤ a b)
unfolding make_segment
span_ends a b = ground (
  arith,
  -ℤ_parts b a,
  -ℤ_parts (pos 0) (b -ℤ a),
  +ℤ_parts a (b -ℤ a),
  +ℤ_parts (a +ℤ (b -ℤ a)) (pos 0 -ℤ (b -ℤ a)),
  eq_of_parts (a +ℤ (b -ℤ a)) b,
  eq_of_parts ((a +ℤ (b -ℤ a)) +ℤ (pos 0 -ℤ (b -ℤ a))) a,
)

-- `setStart` and `setEnd` move one end and keep the other, and the two change places if they
-- have passed one another.
pub set_ends :
    (s : Segment) (n : ℤ)
    → ((set_start s n).start ≡ min_ℤ n (get_end s))
      × (get_end (set_start s n) ≡ max_ℤ n (get_end s))
      × ((set_end s n).start ≡ min_ℤ s.start n)
      × (get_end (set_end s n) ≡ max_ℤ s.start n)
unfolding set_start set_end make_segment
set_ends s n =
    let moved = span_ends n (get_end s) in
    let ended = span_ends s.start n in (moved.0, moved.1, ended.0, ended.1)

sub_mod : (n m : ℕ) → (n - n % m) % m ≡ 0
sub_mod n m = grind (arith, div-add-mod n m)

sub_rem : (z : ℤ) (m : ℕ) → pos 0 ≤ℤ z → z -ℤ rem_ℤ z (pos m) ≡ pos (pos_part z - pos_part z % m)
unfolding rem_ℤ ◌-ℤ◌
sub_rem (pos n) m h = ground arith
sub_rem (negsuc n) m h = absurd (omega arith)

-- Reducing a normal segment to a multiple of m > 0 keeps its start, leaves a multiple of m, and
-- takes less than m off.
pub reduce_size_lem :
    (s : Segment) (m : ℕ)
    → IsNormal s
    → 0 < m
    → let r = reduce_size_to_multiple_of s (pos m) in
      (r.start ≡ s.start)
      × IsNormal r
      × (pos_part r.size % m ≡ 0)
      × (pos_part r.size ≤ pos_part s.size)
      × (pos_part s.size < pos_part r.size + m)
unfolding reduce_size_to_multiple_of
reduce_size_lem s m h hm =
    rw (sub_rem s.size m h)
      (refl, omega arith, sub_mod (pos_part s.size) m, omega arith, grind arith)

mul-negsuc : (z : ℤ) (n : ℕ) → pos 0 ≤ℤ z → z ≢ pos 0 → z *ℤ negsuc n <ℤ pos 0
unfolding ◌*ℤ◌
mul-negsuc (pos zero) n h ne = absurd (ne refl)
mul-negsuc (pos (suc k)) n h ne = grind arith
mul-negsuc (negsuc k) n h ne = absurd (omega arith)

-- `operator*=` does not normalize: a segment that has points, scaled by a negative number, has none.
pub mul-negative :
    (s : Segment) (n : ℕ) (p : ℤ)
    → IsNormal s
    → s.size ≢ pos 0
    → ¬ IsNormal (mul s (negsuc n)) × (contains (mul s (negsuc n)) p ≡ false)
unfolding mul contains
mul-negative s n p h ne = (
  λ k. omega (arith, mul-negsuc s.size n h ne),
  ground (arith, mul-negsuc s.size n h ne, +ℤ_parts (s.start *ℤ negsuc n) (s.size *ℤ negsuc n)),
)
