-- ===== src/View/Examples.antt =====
-- A window of 800 by 600 with a presentation of 1000 by 3000 pixels.
use scroom.Common.{◌≡◌, refl, true, false, List, [], ◌∷◌, some, none, arith, inl}
use scroom.Common.Int.{ℤ, pos, negsuc, ◌-ℤ◌, ◌+ℤ◌, ◌*ℤ◌}
use scroom.Rectangle.{Point, plus, point_times}
use scroom.View.{
  View, scale, scaled, window_point_to_presentation_point, tweaked_position, tweak_position,
  round_to_multiple_of, Event, shows, resizes, scrolls, presses, moves, items_from, handle_all,
}
use scroom.View.Zooms.{IsZoomed}
use scroom.View.Handlers.{handle_all-IsZoomed}

abbrev at : ℤ → ℤ → Point
at x y = record { x = x; y = y }

abbrev empty_view : View
empty_view = record {
  presentation = none;
  drawing_area_size = record { width = 800; height = 600 };
  zoom = pos 0;
  position = at (pos 0) (pos 0);
  locked = 0;
  modifier_move = false;
  cached_point = at (pos 0) (pos 0);
  zoom_items = pos 5 ∷ [];
  active_item = none;
}

-- The widgets ask for the point (1, 1), again and again.
abbrev ask : View → List Point
ask v = at (pos 64) (pos 64) ∷ at (pos 64) (pos 64) ∷ []

abbrev events : List Event
events =
    shows (some (record { width = 1000; height = 3000 }))
    ∷ scrolls true (at (pos 10) (pos 20))
    ∷ presses (at (pos 3) (pos 4))
    ∷ moves (at (pos 30) (pos 40))
    ∷ resizes (record { width = 640; height = 480 })
    ∷ []

empty_view-IsZoomed : IsZoomed empty_view
unfolding items_from ◌-ℤ◌
empty_view-IsZoomed = record {
  low = omega arith;
  high = omega arith;
  open_position = refl;
  items = (1, refl, omega arith);
  listed = inl refl;
}

handle_all-IsZoomed_example : (w : View) × (handle_all ask events empty_view ≡ some w) × IsZoomed w
handle_all-IsZoomed_example = handle_all-IsZoomed ask events empty_view empty_view-IsZoomed

-- From position -0.5 a drag by one pixel moves the picture by two.
tie_test :
    (window_point_to_presentation_point
        (at (pos 0) (pos 0))
        (record empty_view { position = at (negsuc 31) (pos 0) })
      ≡ at (negsuc 63) (pos 0))
    × (window_point_to_presentation_point
          (at (pos 0) (pos 0))
          (record empty_view { position = at (pos 32) (pos 0) })
        ≡ at (pos 64) (pos 0))
unfolding window_point_to_presentation_point tweaked_position tweak_position round_to_multiple_of
    scale scaled plus point_times ◌+ℤ◌ ◌-ℤ◌ ◌*ℤ◌
tie_test = (refl, refl)
