-- ===== src/Segment.antt =====
-- libs/util/inc/scroom/linearsegment.hh at T = int: half-open intervals on a line.
-- An int is an integer of ℤ: signed overflow is undefined in the source, so results are those of
-- the program as long as no sum or product leaves the range of int.
use scroom.Common.{ℕ, zero, suc, ◌+◌, ◌/◌, ◌%◌, Bool, true, false, not, ◌&&◌, if◌then◌else◌}
use scroom.Common.Int.{
  ℤ, pos, negsuc, pos_part, neg_part, neg_ℤ, ◌+ℤ◌, ◌-ℤ◌, ◌*ℤ◌, ◌≤ℤ◌, ltb_ℤ, leb_ℤ, eqb_ℤ, min_ℤ,
  max_ℤ, div_ℤ, rem_ℤ,
}
pub mod Points
pub mod Normal
pub mod Relations
mod Examples

pub record Segment : Type 0 where
  pub start : ℤ
  pub size : ℤ

-- The state that every constructor call leaves behind.
abbrev pub IsNormal : Segment → Type 0
IsNormal s = pos 0 ≤ℤ s.size

pub is_zero : ℤ → Bool
is_zero v = eqb_ℤ v (pos 0)

pub are_equal : ℤ → ℤ → Bool
unfolding is_zero
are_equal a b = is_zero (a -ℤ b)

pub normalize : Segment → Segment
normalize s =
    if ltb_ℤ s.size (pos 0) then record { start = s.start +ℤ s.size; size = neg_ℤ s.size } else s

-- Segment()
abbrev pub empty_segment : Segment
empty_segment = record { start = pos 0; size = pos 0 }

-- Segment(start_, size_)
pub make_segment : ℤ → ℤ → Segment
unfolding normalize
make_segment start size = normalize (record { start = start; size = size })

pub make_segment_from_start_end : ℤ → ℤ → Segment
make_segment_from_start_end start end = make_segment start (end -ℤ start)

abbrev pub get_end : Segment → ℤ
get_end s = s.start +ℤ s.size

pub move_to : Segment → ℤ → Segment
move_to s p = make_segment p s.size

pub contains : Segment → ℤ → Bool
contains s p = leb_ℤ s.start p && ltb_ℤ p (get_end s)

-- contains(const Segment&)
pub contains_segment : Segment → Segment → Bool
contains_segment s other = leb_ℤ s.start other.start && leb_ℤ (get_end other) (get_end s)

unfoldable pub is_empty : Segment → Bool
unfolding is_zero
is_empty s = is_zero s.size

pub intersects : Segment → Segment → Bool
unfolding is_empty
intersects s other =
    ltb_ℤ s.start (get_end other)
    && ltb_ℤ other.start (get_end s)
    && not (is_empty s)
    && not (is_empty other)

pub reduce_size_to_multiple_of : Segment → ℤ → Segment
reduce_size_to_multiple_of s m = record s { size = s.size -ℤ rem_ℤ s.size m }

pub intersection : Segment → Segment → Segment
intersection s other =
    let new_start = max_ℤ s.start other.start in
    let new_end = min_ℤ (get_end s) (get_end other) in
    let new_size = new_end -ℤ new_start in
    if leb_ℤ (pos 0) new_size then make_segment new_start new_size else empty_segment

pub before : Segment → ℤ → Segment
before s v =
    if ltb_ℤ v s.start
    then empty_segment
    else if ltb_ℤ v (s.start +ℤ s.size)
    then make_segment s.start (v -ℤ s.start)
    else s

pub after : Segment → ℤ → Segment
after s v =
    if ltb_ℤ (s.start +ℤ s.size) v
    then empty_segment
    else if ltb_ℤ s.start v
    then make_segment v (s.start +ℤ s.size -ℤ v)
    else s

-- operator==
pub equals : Segment → Segment → Bool
unfolding is_empty are_equal
equals s other =
    if not (eqb (is_empty s) (is_empty other))
    then false
    else if is_empty s
    then true
    else are_equal s.start other.start && are_equal s.size other.size
  where
    eqb : Bool → Bool → Bool
    eqb true b = b
    eqb false b = not b

-- operator+=, operator-=, operator*= and operator/= with a number
pub add : Segment → ℤ → Segment
add s n = record s { start = s.start +ℤ n }

pub sub : Segment → ℤ → Segment
sub s n = record s { start = s.start -ℤ n }

pub mul : Segment → ℤ → Segment
mul s n = record { start = s.start *ℤ n; size = s.size *ℤ n }

pub div : Segment → ℤ → Segment
div s n = record { start = div_ℤ s.start n; size = div_ℤ s.size n }

pub set_end : Segment → ℤ → Segment
unfolding normalize
set_end s n = normalize (record s { size = n -ℤ s.start })

pub set_start : Segment → ℤ → Segment
unfolding set_end
set_start s n = let end = get_end s in set_end (record s { start = n }) end

pub set_size : Segment → ℤ → Segment
set_size s n = record s { size = n }

pub center : Segment → ℤ
center s = s.start +ℤ div_ℤ s.size (pos 2)

-- intersect and operator&=
pub intersect : Segment → Segment → Segment
intersect s other = intersection s other
