-- ===== src/View/Zooms.antt =====
-- The zooms that can be chosen.
use scroom.Common.{
  ℕ, suc, ◌+◌, ◌≡◌, ◌≤◌, refl, ap, sym, subst, ◌∙◌, true, if◌then◌else◌, Option, none, some, List,
  [], ◌∷◌, arith, Bool-cases, inl, inr, ◌⊎◌, Option-cases,
}
use scroom.Common.Int.{ℤ, pos, negsuc, ◌+ℤ◌, ◌*ℤ◌, ◌≤ℤ◌, eqb_ℤ}
use scroom.View.Items.{min_zoom_loop-total, IsListed-has_zoom, zoom_count-IsListed, listed_range}
use scroom.Rectangle.{Point, neg, plus, minus, point_times}
use scroom.View.Anchors.{
  middle, point_eq, move, set_position-open, update_widgets-locked, update_xy-open, zoom_to-open,
  mul-neg_sum,
}
use scroom.View.{
  View, Size, max_zoom, point_of, scale, then_update, reset_view, resize_view, half_scaled, lock,
  unlock, hear, update_widgets, update_xy, zoom_to, update_zoom, fill_items, on_window_size_changed,
  zoom_count, zoom_factors, items_from, has_zoom, set_presentation,
}

-- The zoom is in the range of the factors, so shifts by it stay within an int; the position is not
-- frozen; and with a presentation, the zoom is an item that can be chosen.
pub record IsZoomed (v : View) : Type 0 where
  pub low : negsuc 29 ≤ℤ v.zoom
  pub high : v.zoom ≤ℤ max_zoom
  pub open_position : v.locked ≡ 0
  pub items : (n : ℕ) × (v.zoom_items ≡ items_from n 0) × (n ≤ zoom_factors)
  pub listed : (v.presentation ≡ none) ⊎ (has_zoom v.zoom v.zoom_items ≡ true)

-- What updateZoom leaves.
Updated : View → View → Type 0
Updated v w =
    (n : ℕ) × (active : Option ℤ) × (w
      ≡ record v { zoom_items = items_from n 0; active_item = active })
    × (n ≤ zoom_factors)
    × ((v.presentation ≡ none) ⊎ (has_zoom v.zoom (items_from n 0) ≡ true))

update_zoom-Updated :
    (v : View)
    → negsuc 29 ≤ℤ v.zoom
    → v.zoom ≤ℤ max_zoom
    → (w : View) × (update_zoom v ≡ some w) × Updated v w
unfolding update_zoom Updated fill_items
update_zoom-Updated v low high = elim (Option-cases v.presentation) [
  | inl e ↦ (
    record v { zoom_items = items_from 1 0; active_item = none },
    ground (arith, e),
    (1, none, refl, omega arith, inl e),
  )
  | inr (size, e) ↦
      let (halved, ends) =
        min_zoom_loop-total (suc (size.height + size.width)) size.height size.width 0
          v.drawing_area_size (omega arith) in
      let n = zoom_count halved v.zoom in
      let (fits, few) = zoom_count-IsListed halved v.zoom high low in
      (
        fill_items n v,
        ground (arith, e, ends),
        (
          n,
          (if has_zoom v.zoom (items_from n 0) then some v.zoom else none),
          refl,
          few,
          inr (IsListed-has_zoom n v.zoom fits),
        ),
      )
]

middle-kept :
    (z : ℤ) (p old new : Point)
    → plus (plus p (half_scaled z (minus old new))) (half_scaled z new) ≡ plus p (half_scaled z old)
unfolding plus minus neg half_scaled point_times
middle-kept z p old new =
    let n = scale (z +ℤ pos 1) in
    point_eq _ _ (rw (mul-neg_sum old.x new.x n) (move p.x (old.x *ℤ pos n) (new.x *ℤ pos n)))
      (rw (mul-neg_sum old.y new.y n) (move p.y (old.y *ℤ pos n) (new.y *ℤ pos n)))

module _ (echoes : View → List Point) where
  hear-open :
      (ps : List Point) (v : View)
      → v.locked ≡ 0
      → (q : Point) × (hear echoes ps v ≡ record v { position = q })
  unfolding hear
  hear-open [] v h = (v.position, refl)
  hear-open (p ∷ ps) v h =
      let (q, e) = hear-open ps (record v { position = p }) h in
      (q, ap (hear echoes ps) (set_position-open p v h) ∙ e)

  -- The zoom is one of the items.
  pub zoom_to-IsZoomed :
      (z : ℤ) (mouse : Point) (v : View)
      → IsZoomed v
      → has_zoom z v.zoom_items ≡ true
      → IsZoomed (zoom_to echoes z mouse v)
  zoom_to-IsZoomed z mouse v h e = elim (Bool-cases (eqb_ℤ z v.zoom)) [
    | inl same ↦
        let unchanged : zoom_to echoes z mouse v ≡ v = unfold zoom_to in rw same refl in
        rw unchanged h
    | inr other ↦
        let (n, items, few) = h.items in
        let (low, high) = listed_range n z few (ap (has_zoom z) (sym items) ∙ e) in
        rw (zoom_to-open echoes z mouse v h.open_position other) (record {
          low = low;
          high = high;
          open_position = h.open_position;
          items = h.items;
          listed = inr e;
        })
  ]

  pub update_xy-IsZoomed : (p : Point) (v : View) → IsZoomed v → IsZoomed (update_xy echoes p v)
  update_xy-IsZoomed p v h = rw (update_xy-open echoes p v h.open_position) (record {
    low = h.low;
    high = h.high;
    open_position = h.open_position;
    items = h.items;
    listed = h.listed;
  })

  reset_view-open :
      (p : Option Size) (v : View)
      → v.locked ≡ 0
      → reset_view echoes p v ≡ record v {
        presentation = p;
        zoom = pos 0;
        position = neg (half_scaled (pos 0) (point_of v.drawing_area_size));
      }
  unfolding reset_view
  reset_view-open p v h =
      ap (λ (w : View). record w { zoom = pos 0 })
        (set_position-open (neg (half_scaled (pos 0) (point_of v.drawing_area_size)))
          (record v { presentation = p }) h)

  pub set_presentation-IsZoomed :
      (p : Option Size) (v : View)
      → IsZoomed v
      → (w : View) × (set_presentation echoes p v ≡ some w) × IsZoomed w
  unfolding set_presentation then_update Updated update_widgets
  set_presentation-IsZoomed p v h =
      let reset = record v {
        presentation = p;
        zoom = pos 0;
        position = neg (half_scaled (pos 0) (point_of v.drawing_area_size));
      } in
      let (w, e, (n, active, same, few, listed)) =
        update_zoom-Updated reset (omega arith) (omega arith) in
      let (q, heard) =
        hear-open (echoes w) w (ap (λ (x : View). x.locked) same ∙ h.open_position) in
      (
        record w { position = q },
        ap (λ x. then_update (update_widgets echoes) (update_zoom x))
              (reset_view-open p v h.open_position)
            ∙ ap (then_update (update_widgets echoes)) e
            ∙ ap some heard,
        subst (λ (x : View). IsZoomed (record x { position = q })) (sym same)
            (record {
              low = omega arith;
              high = omega arith;
              open_position = h.open_position;
              items = (n, refl, few);
              listed = listed;
            }),
      )

  resize_view-open :
      (size : Size) (v : View)
      → v.locked ≡ 0
      → resize_view echoes size v ≡ record (lock v) {
        drawing_area_size = size;
        position =
            plus v.position
              (half_scaled v.zoom (minus (point_of v.drawing_area_size) (point_of size)));
      }
  unfolding resize_view lock
  resize_view-open size v h =
      ap (λ (w : View). record (lock w) { drawing_area_size = size })
        (set_position-open
          (plus v.position
            (half_scaled v.zoom (minus (point_of v.drawing_area_size) (point_of size))))
          v h)

  -- A new size of the window: the point of the presentation in its middle stays there.
  pub on_window_size_changed-middle :
      (size : Size) (v : View)
      → IsZoomed v
      → (w : View) × (on_window_size_changed echoes size v ≡ some w)
        × IsZoomed w
        × (middle w ≡ middle v)
  unfolding on_window_size_changed then_update Updated lock
  on_window_size_changed-middle size v h =
      let moved = record v {
        drawing_area_size = size;
        position =
            plus v.position
              (half_scaled v.zoom (minus (point_of v.drawing_area_size) (point_of size)));
      } in
      let (w, e, (n, active, same, few, listed)) = update_zoom-Updated (lock moved) h.low h.high in
      let done = record moved { zoom_items = items_from n 0; active_item = active } in
      (
        done,
        ap (λ x. then_update (λ y. unlock (update_widgets echoes y)) (update_zoom x))
              (resize_view-open size v h.open_position)
            ∙ ap (then_update (λ y. unlock (update_widgets echoes y))) (e ∙ ap some same)
            ∙ ap some (update_widgets-locked echoes done),
        record {
          low = h.low;
          high = h.high;
          open_position = h.open_position;
          items = (n, refl, few);
          listed = listed;
        },
        middle-kept v.zoom v.position (point_of v.drawing_area_size) (point_of size),
      )
