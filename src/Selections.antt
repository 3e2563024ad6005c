-- ===== src/Selections.antt =====
-- The selections that a view hands to the listeners that ask for pixels: TweakSelection and
-- TweakPixelSelection of gui/src/view.cc, with the roundings of libs/util/inc/scroom/rounding.hh. The doubles
-- are integers in a unit of length that fits: a pixel has `aspect_ratio` of them.
use scroom.Common.{ℕ, suc, ◌+◌, ◌*◌, ◌/◌, Bool, true, false, if◌then◌else◌}
use scroom.Common.Int.{ℤ, pos, negsuc, ◌+ℤ◌, neg_ℤ, ltb_ℤ, min_ℤ, max_ℤ}
use scroom.Rectangle.{Point}
pub mod Outward
mod Examples

pub data Corner : Type 0 where
  top_left top_right bottom_left bottom_right : Corner

pub record Selection : Type 0 where
  pub start : Point
  pub end : Point

pub record Box : Type 0 where
  pub left : ℤ
  pub top : ℤ
  pub right : ℤ
  pub bottom : ℤ

pub corner_getter : Corner → Box → Point
corner_getter top_left r = record { x = r.left; y = r.top }
corner_getter top_right r = record { x = r.right; y = r.top }
corner_getter bottom_left r = record { x = r.left; y = r.bottom }
corner_getter bottom_right r = record { x = r.right; y = r.bottom }

-- corners.at(right).at(low)
pub corner_at : Bool → Bool → Corner
corner_at false false = top_left
corner_at false true = bottom_left
corner_at true false = top_right
corner_at true true = bottom_right

-- The center is before the coordinate; both are doubled.
pub is_after : ℤ → ℤ → ℤ → Bool
is_after low high p = ltb_ℤ (low +ℤ high) (p +ℤ p)

pub find_closest_corner : Point → Box → Corner
find_closest_corner p r = corner_at (is_after r.left r.right p.x) (is_after r.top r.bottom p.y)

pub find_opposed_corner : Corner → Corner
find_opposed_corner top_left = bottom_right
find_opposed_corner top_right = bottom_left
find_opposed_corner bottom_left = top_right
find_opposed_corner bottom_right = top_left

pub to_rectangle : Selection → Box
to_rectangle s = record {
  left = min_ℤ s.start.x s.end.x;
  top = min_ℤ s.start.y s.end.y;
  right = max_ℤ s.start.x s.end.x;
  bottom = max_ℤ s.start.y s.end.y;
}

pub round_down_to_multiple_of : ℤ → ℕ → ℤ
round_down_to_multiple_of (pos n) factor = pos (n / factor * factor)
round_down_to_multiple_of (negsuc n) factor = neg_ℤ (pos (suc (n / factor) * factor))

pub round_up_to_multiple_of : ℤ → ℕ → ℤ
round_up_to_multiple_of z factor = neg_ℤ (round_down_to_multiple_of (neg_ℤ z) factor)

pub record AspectRatio : Type 0 where
  pub wide : ℕ
  pub high : ℕ

-- TweakPixelSelection: roundOutward(selection / aspectRatio) * aspectRatio
pub round_outward : AspectRatio → Box → Box
round_outward a r = record {
  left = round_down_to_multiple_of r.left a.wide;
  top = round_down_to_multiple_of r.top a.high;
  right = round_up_to_multiple_of r.right a.wide;
  bottom = round_up_to_multiple_of r.bottom a.high;
}

pub tweak_selection : (Box → Box) → Selection → Selection
tweak_selection tweak s =
    let original = to_rectangle s in
    let start_corner = find_closest_corner s.start original in
    record {
      start = corner_getter start_corner (tweak original);
      end = corner_getter (find_opposed_corner start_corner) (tweak original);
    }
