-- ===== src/Selections/Examples.antt =====
-- A selection to the left and down.
use scroom.Common.{arith, ◌≡◌, refl}
use scroom.Common.Int.{pos, negsuc, ◌-ℤ◌, ◌+ℤ◌}
use scroom.Selections.{
  Selection, corner_getter, corner_at, is_after, find_closest_corner, find_opposed_corner,
  to_rectangle, round_down_to_multiple_of, round_up_to_multiple_of, AspectRatio, round_outward,
  tweak_selection,
}
use scroom.Selections.Outward.{Outward, tweak_selection-Outward}

-- A pixel is 20 wide and 10 high.
abbrev aspect : AspectRatio
aspect = record { wide = 20; high = 10 }

abbrev selected : Selection
selected = record {
  start = record { x = pos 47; y = negsuc 4 };
  end = record { x = negsuc 0; y = pos 31 };
}

selected_test : tweak_selection (round_outward aspect) selected ≡ record {
  start = record { x = pos 60; y = negsuc 9 };
  end = record { x = negsuc 19; y = pos 40 };
}
unfolding tweak_selection round_outward to_rectangle find_closest_corner find_opposed_corner
    corner_getter corner_at is_after round_down_to_multiple_of round_up_to_multiple_of ◌-ℤ◌ ◌+ℤ◌
selected_test = refl

tweak_selection-Outward_example :
    let t = tweak_selection (round_outward aspect) selected in
    Outward 20 (pos 47) (negsuc 0) t.start.x t.end.x
    × Outward 10 (negsuc 4) (pos 31) t.start.y t.end.y
tweak_selection-Outward_example =
    tweak_selection-Outward aspect selected (omega arith) (omega arith)
