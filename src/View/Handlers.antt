-- ===== src/View/Handlers.antt =====
-- The handlers of the events keep the zoom in its range.
use scroom.Common.{
  ℕ, ◌≡◌, refl, ap, sym, subst, ◌∙◌, Bool, true, false, if◌then◌else◌, Option, none, some, List, [],
  ◌∷◌, arith, Bool-cases, inl, inr, Option-cases, get_elem?,
}
use scroom.Common.Int.{pos, negsuc, ◌+ℤ◌, ◌-ℤ◌, ◌≤ℤ◌, min_ℤ}
use scroom.View.Items.{get_elem-items}
use scroom.View.Zooms.{
  IsZoomed, zoom_to-IsZoomed, update_xy-IsZoomed, set_presentation-IsZoomed,
  on_window_size_changed-middle,
}
use scroom.Rectangle.{Point}
use scroom.View.{
  View, max_zoom, zoom_to, handle, handle_all, Event, shows, resizes, scrolls, chooses, slides,
  enters, presses, moves, releases, on_scrollbar_value_changed, on_textbox_value_changed,
  on_button_press, on_button_release, on_motion_notify, has_zoom, on_scrollwheel,
  on_zoombox_changed, choose_item,
}

module _ (echoes : View → List Point) where
  -- The states that a handler may leave for `none`: no handler does.
  Handled : Option View → Type 0
  Handled o = (w : View) × (o ≡ some w) × IsZoomed w

  at_once : (w : View) → IsZoomed w → Handled (some w)
  unfolding Handled
  at_once w h = (w, refl, h)

  -- Only fields that the invariant does not name differ.
  same-IsZoomed :
      (v w : View)
      → IsZoomed v
      → w.zoom ≡ v.zoom
      → w.locked ≡ v.locked
      → w.zoom_items ≡ v.zoom_items
      → w.presentation ≡ v.presentation
      → IsZoomed w
  same-IsZoomed v w h z l i p =
      let (n, items, few) = h.items in
      record {
        low = subst (λ x. negsuc 29 ≤ℤ x) (sym z) h.low;
        high = subst (λ x. x ≤ℤ max_zoom) (sym z) h.high;
        open_position = l ∙ h.open_position;
        items = (n, i ∙ items, few);
        listed = rw (p, z, i) h.listed;
      }

  if-IsZoomed : (b : Bool) {v w : View} → IsZoomed v → IsZoomed w → IsZoomed (if b then v else w)
  if-IsZoomed true h k = h
  if-IsZoomed false h k = k

  on_scrollwheel-IsZoomed :
      (up : Bool) (mouse : Point) (v : View)
      → IsZoomed v
      → IsZoomed (on_scrollwheel echoes up mouse v)
  unfolding on_scrollwheel
  on_scrollwheel-IsZoomed up mouse v h =
      let z = min_ℤ max_zoom (if up then v.zoom +ℤ pos 1 else v.zoom -ℤ pos 1) in
      elim (Bool-cases (has_zoom z v.zoom_items)) [
        | inl e ↦ rw e (
            same-IsZoomed (zoom_to echoes z mouse v)
              (record (zoom_to echoes z mouse v) { active_item = some z })
              (zoom_to-IsZoomed echoes z mouse v h e) refl refl refl refl)
        | inr e ↦ rw e h
      ]

  on_zoombox_changed-IsZoomed :
      (i : ℕ) (center : Point) (v : View)
      → IsZoomed v
      → IsZoomed (on_zoombox_changed echoes i center v)
  unfolding on_zoombox_changed choose_item
  on_zoombox_changed-IsZoomed i center v h = elim (Option-cases (get_elem? v.zoom_items i)) [
    | inl e ↦ subst (λ o. IsZoomed (choose_item echoes o center v)) (sym e) h
    | inr (z, e) ↦
        let (n, items, few) = h.items in
        let listed = get_elem-items n 0 i z (ap (λ l. get_elem? l i) (sym items) ∙ e) in
        subst (λ o. IsZoomed (choose_item echoes o center v)) (sym e)
          (zoom_to-IsZoomed echoes z center (record v { active_item = some z })
            (same-IsZoomed v (record v { active_item = some z }) h refl refl refl refl)
            (ap (has_zoom z) items ∙ listed))
  ]

  on_motion_notify-IsZoomed :
      (mouse : Point) (v : View) → IsZoomed v → IsZoomed (on_motion_notify echoes mouse v)
  unfolding on_motion_notify
  on_motion_notify-IsZoomed mouse v h =
      if-IsZoomed v.modifier_move
        (update_xy-IsZoomed echoes _ (record v { cached_point = mouse })
          (same-IsZoomed v (record v { cached_point = mouse }) h refl refl refl refl))
        h

  handle-IsZoomed :
      (e : Event) (v : View) → IsZoomed v → (w : View) × (handle echoes e v ≡ some w) × IsZoomed w
  unfolding handle Handled
  handle-IsZoomed (shows p) v h = set_presentation-IsZoomed echoes p v h
  handle-IsZoomed (resizes size) v h =
      let (w, e, kept, same) = on_window_size_changed-middle echoes size v h in (w, e, kept)
  handle-IsZoomed (scrolls up mouse) v h = at_once _ (on_scrollwheel-IsZoomed up mouse v h)
  handle-IsZoomed (chooses i center) v h = at_once _ (on_zoombox_changed-IsZoomed i center v h)
  handle-IsZoomed (slides vertical value) v h =
      at_once _ (unfold on_scrollbar_value_changed in update_xy-IsZoomed echoes _ v h)
  handle-IsZoomed (enters none) v h = at_once _ (unfold on_textbox_value_changed in h)
  handle-IsZoomed (enters (some p)) v h =
      at_once _ (unfold on_textbox_value_changed in update_xy-IsZoomed echoes _ v h)
  handle-IsZoomed (presses mouse) v h = at_once _ (
      unfold on_button_press in
      if-IsZoomed v.modifier_move h (
        same-IsZoomed v (record v { modifier_move = true; cached_point = mouse }) h refl refl refl
          refl))
  handle-IsZoomed (moves mouse) v h = at_once _ (on_motion_notify-IsZoomed mouse v h)
  handle-IsZoomed releases v h = at_once _ (
      unfold on_button_release in
      if-IsZoomed v.modifier_move
        (same-IsZoomed v
          (record v { modifier_move = false; cached_point = record { x = pos 0; y = pos 0 } }) h
          refl refl refl refl)
        h)

  -- After every sequence of events in a view with the invariant, no handler runs without end: the
  -- zoom is from -30 to 5, so that no shift by it leaves an int; the position is not frozen; the items
  -- are the zooms from 5 down, at most 36 of them; and with a presentation, the zoom is one of them.
  pub handle_all-IsZoomed :
      (es : List Event) (v : View)
      → IsZoomed v
      → (w : View) × (handle_all echoes es v ≡ some w) × IsZoomed w
  unfolding handle_all
  handle_all-IsZoomed [] v h = (v, refl, h)
  handle_all-IsZoomed (e ∷ es) v h =
      let (w, handled, kept) = handle-IsZoomed e v h in
      let (u, rest, result) = handle_all-IsZoomed es w kept in
      (u, ground (arith, handled, rest), result)
