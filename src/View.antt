-- ===== src/View.antt =====
-- gui/src/view.cc: the position and the zoom of a view. Positions are integers in 64ths of a pixel of
-- the presentation, which is exact: a pixel of the window is at least a 32nd of it. Points in the window are whole
-- pixels, the aspect ratio is 1. The widgets are GTK's: while they are updated their callbacks set
-- positions, which `echoes` gives.
use scroom.Common.{
  ℕ, zero, suc, ◌+◌, ◌-◌, ◌*◌, ◌/◌, ◌^◌, min, Bool, true, false, not, ◌&&◌, ◌||◌, ◌==◌, ltb,
  if◌then◌else◌, Option, none, some, List, [], ◌∷◌, get_elem?,
}
use scroom.Common.Int.{
  ℤ, pos, negsuc, neg_ℤ, pos_part, ◌+ℤ◌, ◌-ℤ◌, ◌*ℤ◌, eqb_ℤ, ltb_ℤ, min_ℤ, max_ℤ,
}
use scroom.Rectangle.{Point, neg, plus, minus, point_times, point_equals}
pub mod Anchors
pub mod Handlers
pub mod Items
pub mod Shown
pub mod Zooms
mod Examples

pub record Size : Type 0 where
  pub width : ℕ
  pub height : ℕ

-- What gtk_adjustment_configure is given.
pub record Adjustment : Type 0 where
  pub value : ℤ
  pub lower : ℤ
  pub upper : ℤ
  pub page_size : ℤ

-- `locked` belongs to `position`, a Freezable. The items are the values of COLUMN_ZOOM.
pub record View : Type 0 where
  pub presentation : Option Size
  pub drawing_area_size : Size
  pub zoom : ℤ
  pub position : Point
  pub locked : ℕ
  pub modifier_move : Bool
  pub cached_point : Point
  pub zoom_items : List ℤ
  pub active_item : Option ℤ

abbrev pub max_zoom : ℤ
max_zoom = pos 5

-- 64 / pixelSizeFromZoom(zoom), up to max_zoom
pub scale : ℤ → ℕ
scale zoom = 2 ^ pos_part (pos 6 -ℤ zoom)

pub point_of : Size → Point
point_of s = record { x = pos s.width; y = pos s.height }

-- A size or a distance in the window, in the presentation.
pub scaled : ℤ → Point → Point
scaled zoom p = point_times p (pos (scale zoom))

-- The same, halved.
pub half_scaled : ℤ → Point → Point
half_scaled zoom p = point_times p (pos (scale (zoom +ℤ pos 1)))

-- The doubles are rounded half away from zero.
pub round_to_multiple_of : ℤ → ℕ → ℤ
round_to_multiple_of (pos n) factor = pos ((2 * n + factor) / (2 * factor) * factor)
round_to_multiple_of (negsuc n) factor = neg_ℤ (pos ((2 * suc n + factor) / (2 * factor) * factor))

-- TweakPresentationPosition::tweakPosition
pub tweak_position : ℤ → Point → Point
tweak_position zoom p = record {
  x = round_to_multiple_of p.x (scale zoom);
  y = round_to_multiple_of p.y (scale zoom);
}

-- The position that is drawn.
pub tweaked_position : View → Point
tweaked_position v = tweak_position v.zoom v.position

pub window_point_to_presentation_point : Point → View → Point
window_point_to_presentation_point wp v = plus (tweaked_position v) (scaled v.zoom wp)

-- Freezable::set, lock and unlock
pub set_position : Point → View → View
set_position p v = if v.locked == 0 then record v { position = p } else v

pub lock : View → View
lock v = record v { locked = suc v.locked }

pub unlock : View → View
unlock v = record v { locked = v.locked - 1 }

-- View::updateScrollbar
pub update_scrollbar : ℤ → ℤ → ℤ → ℕ → ℕ → Adjustment
update_scrollbar zoom value start presentation_size window_size =
    let half = pos window_size *ℤ pos (scale (zoom +ℤ pos 1)) in
    let window = pos window_size *ℤ pos (scale zoom) in
    let lower = start -ℤ half in
    record {
      value = value;
      lower = lower;
      upper = lower +ℤ (pos (64 * presentation_size) +ℤ window);
      page_size = window;
    }

-- The loop of updateZoom; `halved` is -minZoom.
pub min_zoom_loop : ℕ → ℕ → ℕ → Size → ℕ → Option ℕ
min_zoom_loop zero height width area halved = none
min_zoom_loop (suc fuel) height width area halved =
    let rest = min_zoom_loop fuel (height / 2) (width / 2) area (suc halved) in
    if ltb (area.height / 2) height || ltb (area.width / 2) width then rest else some halved

abbrev pub zoom_factors : ℕ
zoom_factors = 36

pub zoom_count : ℕ → ℤ → ℕ
zoom_count halved zoom =
    min (pos_part (max_ℤ (max_zoom +ℤ pos halved) (pos 1 +ℤ max_zoom -ℤ zoom))) zoom_factors

-- n items, from max_zoom - z down
pub items_from : ℕ → ℕ → List ℤ
items_from zero z = []
items_from (suc n) z = (max_zoom -ℤ pos z) ∷ items_from n (suc z)

pub has_zoom : ℤ → List ℤ → Bool
has_zoom zoom [] = false
has_zoom zoom (z ∷ zs) = eqb_ℤ z zoom || has_zoom zoom zs

pub fill_items : ℕ → View → View
fill_items n v = record v {
  zoom_items = items_from n 0;
  active_item = if has_zoom v.zoom (items_from n 0) then some v.zoom else none;
}

pub update_zoom : View → Option View
update_zoom v = elim v.presentation [
  | some size ↦
      elim (min_zoom_loop (suc (size.height + size.width)) size.height size.width
        v.drawing_area_size 0) [
          | none ↦ none
          | some halved ↦ some (fill_items (zoom_count halved v.zoom) v)
        ]
  | none ↦ some (record v { zoom_items = items_from 1 0; active_item = none })
]

-- What comes after updateZoom.
pub then_update : (View → View) → Option View → Option View
then_update f none = none
then_update f (some v) = some (f v)

pub data Event : Type 0 where
  shows : Option Size → Event
  resizes : Size → Event
  scrolls : Bool → Point → Event
  chooses : ℕ → Point → Event
  slides : Bool → ℤ → Event
  enters : Option Point → Event
  presses moves : Point → Event
  releases : Event

module _ (echoes : View → List Point) where
  pub hear : List Point → View → View
  hear [] v = v
  hear (p ∷ ps) v = hear ps (set_position p v)

  -- updateScrollbars, updateRulers, updateTextbox and invalidate
  pub update_widgets : View → View
  update_widgets v = hear (echoes v) v

  pub update_xy : Point → View → View
  update_xy p v =
      if point_equals v.position p then v else unlock (update_widgets (lock (set_position p v)))

  -- setPresentation, before the widgets are updated
  pub reset_view : Option Size → View → View
  reset_view p v =
      record (set_position (neg (half_scaled (pos 0) (point_of v.drawing_area_size)))
        (record v { presentation = p })) { zoom = pos 0 }

  pub set_presentation : Option Size → View → Option View
  set_presentation p v = then_update update_widgets (update_zoom (reset_view p v))

  -- on_window_size_changed, before the widgets are updated
  pub resize_view : Size → View → View
  resize_view size v =
      record (lock (
        set_position
          (plus v.position
            (half_scaled v.zoom (minus (point_of v.drawing_area_size) (point_of size))))
          v)) { drawing_area_size = size }

  pub on_window_size_changed : Size → View → Option View
  on_window_size_changed size v =
      then_update (λ w. unlock (update_widgets w)) (update_zoom (resize_view size v))

  -- The two changes of the position in on_zoombox_changed.
  pub move_for_zoom : ℤ → Point → View → View
  move_for_zoom new_zoom mouse v =
      let moved = set_position (plus v.position (scaled v.zoom mouse)) v in
      set_position (minus moved.position (scaled new_zoom mouse)) moved

  pub zoom_to : ℤ → Point → View → View
  zoom_to new_zoom mouse v =
      if eqb_ℤ new_zoom v.zoom
      then v
      else unlock
          (update_widgets (record (lock (move_for_zoom new_zoom mouse v)) { zoom = new_zoom }))

  pub on_scrollwheel : Bool → Point → View → View
  on_scrollwheel up mouse v =
      let new_zoom = min_ℤ max_zoom (if up then v.zoom +ℤ pos 1 else v.zoom -ℤ pos 1) in
      if has_zoom new_zoom v.zoom_items
      then record (zoom_to new_zoom mouse v) { active_item = some new_zoom }
      else v

  -- The active item of the combo box, if there is one.
  pub choose_item : Option ℤ → Point → View → View
  choose_item none center v = v
  choose_item (some new_zoom) center v =
      zoom_to new_zoom center (record v { active_item = some new_zoom })

  -- The user chooses the item with the index i.
  pub on_zoombox_changed : ℕ → Point → View → View
  on_zoombox_changed i center v = choose_item (get_elem? v.zoom_items i) center v

  -- The horizontal scrollbar, or the vertical one.
  pub on_scrollbar_value_changed : Bool → ℤ → View → View
  on_scrollbar_value_changed vertical value v =
      update_xy
        (if vertical then record v.position { y = value } else record v.position { x = value }) v

  -- The position that the text boxes name, or `none` for a text that is no number.
  pub on_textbox_value_changed : Option Point → View → View
  on_textbox_value_changed none v = v
  on_textbox_value_changed (some entered) v =
      update_xy (minus entered (half_scaled v.zoom (point_of v.drawing_area_size))) v

  -- The first button
  pub on_button_press : Point → View → View
  on_button_press mouse v =
      if v.modifier_move then v else record v { modifier_move = true; cached_point = mouse }

  pub on_button_release : View → View
  on_button_release v =
      if v.modifier_move
      then record v { modifier_move = false; cached_point = record { x = pos 0; y = pos 0 } }
      else v

  pub on_motion_notify : Point → View → View
  on_motion_notify mouse v =
      if v.modifier_move
      then update_xy (minus v.position (scaled v.zoom (minus mouse v.cached_point)))
          (record v { cached_point = mouse })
      else v

  pub handle : Event → View → Option View
  handle (shows p) v = set_presentation p v
  handle (resizes size) v = on_window_size_changed size v
  handle (scrolls up mouse) v = some (on_scrollwheel up mouse v)
  handle (chooses i center) v = some (on_zoombox_changed i center v)
  handle (slides vertical value) v = some (on_scrollbar_value_changed vertical value v)
  handle (enters p) v = some (on_textbox_value_changed p v)
  handle (presses mouse) v = some (on_button_press mouse v)
  handle (moves mouse) v = some (on_motion_notify mouse v)
  handle releases v = some (on_button_release v)

  pub handle_all : List Event → View → Option View
  handle_all [] v = some v
  handle_all (e ∷ es) v = elim (handle e v) [ none ↦ none | some w ↦ handle_all es w ]
