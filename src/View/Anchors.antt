-- ===== src/View/Anchors.antt =====
-- The position before it is rounded for drawing: what does not change of it.
use scroom.Common.{
  ℕ, suc, ◌+◌, ◌-◌, ◌*◌, ◌≡◌, refl, ap, sym, ◌∙◌, Bool, true, false, ◌==◌, if◌then◌else◌, List, [],
  ◌∷◌, arith, Bool-cases, inl, inr,
}
use scroom.Common.Int.{
  ℤ, pos, pos_part, neg_part, ◌+ℤ◌, ◌-ℤ◌, ◌*ℤ◌, eqb_ℤ, -ℤ_parts, eq_of_parts, int_laws,
}
use scroom.Rectangle.{Point, neg, plus, minus, point_times, point_equals}
use scroom.View.{
  View, point_of, scale, scaled, half_scaled, set_position, lock, unlock, hear, update_widgets,
  update_xy, move_for_zoom, zoom_to, on_motion_notify, on_button_press,
}

mul_parts :
    (a : ℤ) (n : ℕ)
    → pos_part (a *ℤ pos n) + neg_part a * n ≡ neg_part (a *ℤ pos n) + pos_part a * n
unfolding ◌*ℤ◌
mul_parts a n = ground arith

mul-sub : (a b : ℤ) (n : ℕ) → (a -ℤ b) *ℤ pos n ≡ a *ℤ pos n -ℤ b *ℤ pos n
mul-sub a b n = eq_of_parts _ _ (
    omega (
      arith,
      mul_parts a n,
      mul_parts b n,
      mul_parts (a -ℤ b) n,
      -ℤ_parts (a *ℤ pos n) (b *ℤ pos n),
      ap (λ (t : ℕ). t * n) (-ℤ_parts a b),
    ))

shift : (a b c : ℤ) → ((a +ℤ b) +ℤ (pos 0 -ℤ c)) +ℤ c ≡ a +ℤ b
shift a b c = omega int_laws

pub move : (a b c : ℤ) → (a +ℤ (b -ℤ c)) +ℤ c ≡ a +ℤ b
move a b c = omega int_laws

drag_back : (a b c : ℤ) → (a +ℤ (pos 0 -ℤ (c -ℤ b))) +ℤ c ≡ a +ℤ b
drag_back a b c = omega int_laws

eqb-eq : (a b : ℤ) → eqb_ℤ a b ≡ true → a ≡ b
eqb-eq a b h = ground (arith, eq_of_parts a b)

pub point_eq : (p q : Point) → p.x ≡ q.x → p.y ≡ q.y → p ≡ q
point_eq p q hx hy = λ i. record { x = hx i; y = hy i }

point_equals-eq : (p q : Point) → point_equals p q ≡ true → p ≡ q
unfolding point_equals
point_equals-eq p q h =
    point_eq p q (ground (arith, eq_of_parts p.x q.x, h)) (ground (arith, eq_of_parts p.y q.y, h))

pub mul-neg_sum : (a b : ℤ) (n : ℕ) → (a +ℤ (pos 0 -ℤ b)) *ℤ pos n ≡ a *ℤ pos n -ℤ b *ℤ pos n
mul-neg_sum a b n =
    let same : a +ℤ (pos 0 -ℤ b) ≡ a -ℤ b = omega int_laws in rw same (mul-sub a b n)

-- The point of the presentation at a point of the window, without rounding.
abbrev pub under : Point → View → Point
under mouse v = plus v.position (scaled v.zoom mouse)

-- The point of the presentation in the middle of the window, without rounding.
abbrev pub middle : View → Point
middle v = plus v.position (half_scaled v.zoom (point_of v.drawing_area_size))

pub set_position-open :
    (p : Point) (v : View) → v.locked ≡ 0 → set_position p v ≡ record v { position = p }
unfolding set_position
set_position-open p v h = ground (arith, h)

if-true : {b : Bool} {v : View} (w : View) → b ≡ true → (if b then v else w) ≡ v
if-true w e = rw e refl

module _ (echoes : View → List Point) where
  pub hear-locked : (ps : List Point) (v : View) → (v.locked == 0) ≡ false → hear echoes ps v ≡ v
  unfolding hear set_position
  hear-locked [] v h = refl
  hear-locked (p ∷ ps) v h = rw h (hear-locked ps v h)

  pub update_widgets-locked : (v : View) → unlock (update_widgets echoes (lock v)) ≡ v
  unfolding update_widgets lock unlock
  update_widgets-locked v =
      let kept =
        hear-locked (echoes (record v { locked = suc v.locked }))
          (record v { locked = suc v.locked }) (ground arith) in
      let same : suc v.locked - 1 ≡ v.locked = omega arith in
      rw kept (λ i. record v { locked = same i })

  pub update_xy-open :
      (p : Point) (v : View) → v.locked ≡ 0 → update_xy echoes p v ≡ record v { position = p }
  unfolding update_xy
  update_xy-open p v h = elim (Bool-cases (point_equals v.position p)) [
    | inl e ↦ rw e (λ i. record v { position = point_equals-eq v.position p e i })
    | inr e ↦
        rw e (update_widgets-locked (set_position p v) ∙ unfold set_position in ground (arith, h))
  ]

  pub move_for_zoom-open :
      (z : ℤ) (mouse : Point) (v : View)
      → v.locked ≡ 0
      → move_for_zoom echoes z mouse v
        ≡ record v { position = minus (under mouse v) (scaled z mouse) }
  unfolding move_for_zoom
  move_for_zoom-open z mouse v h =
      ap (λ (w : View). set_position (minus w.position (scaled z mouse)) w)
        (set_position-open (under mouse v) v h)
      ∙ set_position-open (minus (under mouse v) (scaled z mouse))
          (record v { position = under mouse v }) h

  -- The state that a change of the zoom leaves.
  pub zoom_to-open :
      (z : ℤ) (mouse : Point) (v : View)
      → v.locked ≡ 0
      → eqb_ℤ z v.zoom ≡ false
      → zoom_to echoes z mouse v
        ≡ record v { zoom = z; position = minus (under mouse v) (scaled z mouse) }
  unfolding zoom_to lock
  zoom_to-open z mouse v h e = rw e (
      ap (λ w. unlock (update_widgets echoes (record (lock w) { zoom = z })))
        (move_for_zoom-open z mouse v h)
      ∙ update_widgets-locked
          (record v { zoom = z; position = minus (under mouse v) (scaled z mouse) }))

  back : (z : ℤ) (p mouse : Point) → plus (minus p (scaled z mouse)) (scaled z mouse) ≡ p
  unfolding plus minus neg scaled point_times
  back z p mouse = point_eq _ p (omega int_laws) (omega int_laws)

  pub zoom_to-under :
      (z : ℤ) (mouse : Point) (v : View)
      → v.locked ≡ 0
      → (under mouse (zoom_to echoes z mouse v) ≡ under mouse v)
        × ((zoom_to echoes z mouse v).zoom ≡ z)
        × ((zoom_to echoes z mouse v).locked ≡ 0)
  zoom_to-under z mouse v h = elim (Bool-cases (eqb_ℤ z v.zoom)) [
    | inl e ↦
        let same : zoom_to echoes z mouse v ≡ v = unfold zoom_to in rw e refl in
        rw same (refl, sym (eqb-eq z v.zoom e), h)
    | inr e ↦ rw (zoom_to-open z mouse v h e) (back z (under mouse v) mouse, refl, h)
  ]

  update_xy-open_lem :
      (p q : Point) (v : View)
      → v.locked ≡ 0
      → update_xy echoes p (record v { cached_point = q })
        ≡ record v { position = p; cached_point = q }
  update_xy-open_lem p q v h = update_xy-open p (record v { cached_point = q }) h

  grab :
      (z : ℤ) (p mouse cached : Point)
      → plus (minus p (scaled z (minus mouse cached))) (scaled z mouse) ≡ plus p (scaled z cached)
  unfolding plus minus neg scaled point_times
  grab z p mouse cached =
      let n = scale z in
      let ex = mul-neg_sum mouse.x cached.x n in
      let ey = mul-neg_sum mouse.y cached.y n in
      point_eq _ _ (rw ex (drag_back p.x (cached.x *ℤ pos n) (mouse.x *ℤ pos n)))
        (rw ey (drag_back p.y (cached.y *ℤ pos n) (mouse.y *ℤ pos n)))

  -- The mouse moves with the first button held.
  pub drag : List Point → View → View
  drag [] v = v
  drag (mouse ∷ mice) v = drag mice (on_motion_notify echoes mouse v)

  pub last_of : Point → List Point → Point
  last_of p [] = p
  last_of p (q ∷ ps) = last_of q ps

  on_motion_notify-open :
      (mouse : Point) (v : View)
      → v.locked ≡ 0
      → v.modifier_move ≡ true
      → on_motion_notify echoes mouse v ≡ record v {
        position = minus v.position (scaled v.zoom (minus mouse v.cached_point));
        cached_point = mouse;
      }
  unfolding on_motion_notify
  on_motion_notify-open mouse v h e =
      if-true v e
      ∙ update_xy-open_lem (minus v.position (scaled v.zoom (minus mouse v.cached_point))) mouse v h

  drag-under :
      (mice : List Point) (v : View)
      → v.locked ≡ 0
      → v.modifier_move ≡ true
      → under (last_of v.cached_point mice) (drag mice v) ≡ under v.cached_point v
  unfolding drag last_of
  drag-under [] v h e = refl
  drag-under (mouse ∷ mice) v h e =
      ap (λ (w : View). under (last_of mouse mice) (drag mice w))
        (on_motion_notify-open mouse v h e)
      ∙ (drag-under mice
            (record v {
              position = minus v.position (scaled v.zoom (minus mouse v.cached_point));
              cached_point = mouse;
            })
            h e
          ∙ grab v.zoom v.position mouse v.cached_point)

  drag-zoom :
      (mice : List Point) (v : View)
      → v.locked ≡ 0
      → v.modifier_move ≡ true
      → (drag mice v).zoom ≡ v.zoom
  unfolding drag
  drag-zoom [] v h e = refl
  drag-zoom (mouse ∷ mice) v h e =
      ap (λ (w : View). (drag mice w).zoom) (on_motion_notify-open mouse v h e)
      ∙ drag-zoom mice
          (record v {
            position = minus v.position (scaled v.zoom (minus mouse v.cached_point));
            cached_point = mouse;
          })
          h e

  pub press-drag :
      (mouse : Point) (mice : List Point) (v : View)
      → v.locked ≡ 0
      → v.modifier_move ≡ false
      → (under (last_of mouse mice) (drag mice (on_button_press echoes mouse v)) ≡ under mouse v)
        × ((drag mice (on_button_press echoes mouse v)).zoom ≡ v.zoom)
  unfolding on_button_press
  press-drag mouse mice v h e =
      let pressed = record v { modifier_move = true; cached_point = mouse } in
      rw e (drag-under mice pressed h refl, drag-zoom mice pressed h refl)
