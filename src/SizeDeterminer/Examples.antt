-- ===== src/SizeDeterminer/Examples.antt =====
-- Presentations 0 and 1 have a size of their own, 7 can be resized and has the views 2 and 3.
use scroom.Common.{ℕ, Bool, List, [], ◌∷◌, ◌==◌, ◌≡◌, refl, if◌then◌else◌, some}
use scroom.Common.Int.{pos, negsuc, ◌-ℤ◌}
use scroom.SizeDeterminer.{
  Bounds, SizeDeterminer, create, Call, adds, opens, closes, call_all, call, determine_size,
  enlarge, start_bounds, keys, choose_rect, get_rect, set_rects, update_all, send_updates, has_key,
  insert, add, has_view, erase, find_view, open_view, close_view, open_presentation,
  close_presentation,
}
use scroom.SizeDeterminer.Updates.{IsCurrent, call_all-IsCurrent}

abbrev shapes : ℕ → Bounds
shapes p =
    if p == 0
    then record { left = pos 0; top = pos 0; right = pos 10; bottom = pos 10 }
    else record { left = negsuc 4; top = negsuc 8; right = negsuc 1; bottom = negsuc 1 }

abbrev can_resize : ℕ → Bool
can_resize p = p == 7

abbrev calls : List Call
calls = adds 7 ∷ opens 7 2 ∷ adds 0 ∷ opens 7 3 ∷ adds 1 ∷ closes 7 2 ∷ []

abbrev final : SizeDeterminer
final = record {
  presentations = 0 ∷ 1 ∷ [];
  resizable =
      record {
        presentation = 7;
        views =
            record {
              view = 3;
              given = record { x = negsuc 4; y = negsuc 8; width = pos 15; height = pos 19 };
            }
            ∷ [];
      }
      ∷ [];
}

calls_test : call_all (pos 1000) (pos 1) shapes can_resize calls create ≡ some final
unfolding call_all call create add insert has_key send_updates update_all set_rects get_rect ◌-ℤ◌
    choose_rect determine_size start_bounds enlarge keys open_presentation close_presentation
    find_view has_view open_view close_view erase
calls_test = refl

-- A presentation that is left of and above the origin: the size still reaches to the smallest
-- positive number.
left_test :
    determine_size (pos 1000) (pos 1) shapes can_resize (1 ∷ [])
    ≡ record { x = negsuc 4; y = negsuc 8; width = pos 6; height = pos 10 }
unfolding determine_size start_bounds enlarge ◌-ℤ◌
left_test = refl

call_all-IsCurrent_example : IsCurrent (pos 1000) (pos 1) shapes can_resize final
call_all-IsCurrent_example =
    call_all-IsCurrent (pos 1000) (pos 1) shapes can_resize calls final calls_test
