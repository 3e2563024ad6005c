-- ===== src/Redraw/Complete.antt =====
-- A redraw draws all tiles with pixels in the requested area.
use scroom.Common.{
  ℕ, zero, suc, ◌+◌, ◌-◌, ◌≡◌, ◌≢◌, ap, subst, Bool, false, List, [], ◌∷◌, ◌++◌, arith, Bool-cases,
  inl, inr, ◌⊎◌,
}
use scroom.Common.Int.{
  ℤ, pos, pos_part, neg_part, ◌+ℤ◌, ◌-ℤ◌, ◌≤ℤ◌, ◌<ℤ◌, eqb_ℤ, eq_of_parts, int_laws,
}
use scroom.NeededTiles.{Tile, Area, Call, create, call_all}
use scroom.NeededTiles.Registered.{IsRegistered, rows-enough}
use scroom.NeededTiles.Calls.{IsIn, call_all-IsRegistered}
use scroom.Redraw.{
  Choice, Requested, choose_layer, operations_of, to_int, tile_area, column_tiles, area_tiles,
  redraw,
}
use scroom.Redraw.Tiles.{IsChosen, choose_layer-IsChosen, HasPixel, IsDrawn, pixel-IsDrawn}

pub IsAmong : Tile → List Tile → Type 0
IsAmong t [] = ⊥
IsAmong t (x ∷ xs) = (x ≡ t) ⊎ IsAmong t xs

IsAmong-left : (t : Tile) (xs ys : List Tile) → IsAmong t xs → IsAmong t (xs ++ ys)
unfolding IsAmong
IsAmong-left t [] ys h = absurd h
IsAmong-left t (x ∷ xs) ys (inl e) = inl e
IsAmong-left t (x ∷ xs) ys (inr h) = inr (IsAmong-left t xs ys h)

IsAmong-right : (t : Tile) (xs ys : List Tile) → IsAmong t ys → IsAmong t (xs ++ ys)
unfolding IsAmong
IsAmong-right t [] ys h = h
IsAmong-right t (x ∷ xs) ys h = inr (IsAmong-right t xs ys h)

column-IsAmong :
    (n l : ℕ) (i j y : ℤ)
    → j ≤ℤ y
    → y <ℤ (j +ℤ pos n)
    → IsAmong (record { layer = l; x = i; y = y }) (column_tiles n l i j)
unfolding column_tiles IsAmong
column-IsAmong zero l i j y low high = absurd (omega int_laws)
column-IsAmong (suc n) l i j y low high = elim (Bool-cases (eqb_ℤ j y)) [
  | inl e ↦
      let same : j ≡ y = ground (arith, eq_of_parts j y, e) in
      inl (ap (λ k. record { layer = l; x = i; y = k }) same)
  | inr e ↦
      let ne : pos_part j + neg_part y ≢ pos_part y + neg_part j = ground (arith, e) in
      inr (column-IsAmong n l i (j +ℤ pos 1) y (omega int_laws) (omega int_laws))
]

area-IsAmong :
    (n l : ℕ) (a : Area) (i x y : ℤ)
    → i ≤ℤ x
    → x <ℤ (i +ℤ pos n)
    → a.jmin ≤ℤ y
    → y <ℤ a.jmax
    → IsAmong (record { layer = l; x = x; y = y }) (area_tiles n l a i)
unfolding area_tiles
area-IsAmong zero l a i x y low high top bottom = absurd (omega int_laws)
area-IsAmong (suc n) l a i x y low high top bottom =
    let rows = pos_part (a.jmax -ℤ a.jmin) in
    let column = column_tiles rows l i a.jmin in
    elim (Bool-cases (eqb_ℤ i x)) [
      | inl e ↦
          let same : i ≡ x = ground (arith, eq_of_parts i x, e) in
          IsAmong-left _ column _ (
            subst (λ k. IsAmong (record { layer = l; x = k; y = y }) column) same
              (column-IsAmong rows l i a.jmin y top (rows-enough a.jmin a.jmax y bottom)))
      | inr e ↦
          let ne : pos_part i + neg_part x ≢ pos_part x + neg_part i = ground (arith, e) in
          IsAmong-right _ column _
            (area-IsAmong n l a (i +ℤ pos 1) x y (omega int_laws) (omega int_laws) top bottom)
    ]

pixels-IsIn :
    (r : Requested) (den i j : ℕ)
    → HasPixel (to_int r.left den) (to_int r.right den) i
    → HasPixel (to_int r.top den) (to_int r.bottom den) j
    → IsIn (tile_area r den) (pos i) (pos j)
unfolding tile_area IsIn IsDrawn
pixels-IsIn r den i j h v =
    let (left, right) = pixel-IsDrawn (to_int r.left den) (to_int r.right den) i h in
    let (top, bottom) = pixel-IsDrawn (to_int r.top den) (to_int r.bottom den) j v in
    (left, right, top, bottom)

-- A redraw after any calls of the view data: it chooses the lowest layer at which the zoom is at least
-- -2, or the highest layer. A tile of that layer with a pixel between the edges, divided for the layer
-- and rounded to int, is drawn, and has a registered observer and a view state at the zoom of the
-- layer. No redraw is pending.
pub redraw-IsComplete :
    (is_loaded : Tile → Bool) (layers operations : ℕ) (r : Requested) (zoom : ℤ) (cs : List Call)
    → let start : Choice = record { layer_nr = 0; zoom = zoom; denominator = r.denominator } in
      let c = choose_layer (layers - 1) start in
      let drawn = redraw is_loaded layers operations r zoom (call_all is_loaded cs create) in
      (i j : ℕ)
      → HasPixel (to_int r.left c.denominator) (to_int r.right c.denominator) i
      → HasPixel (to_int r.top c.denominator) (to_int r.bottom c.denominator) j
      → IsChosen (layers - 1) start c
        × IsAmong (record { layer = c.layer_nr; x = pos i; y = pos j }) drawn.tiles
        × IsRegistered
            (record { layer = c.layer_nr; x = pos i; y = pos j })
            drawn.view_data.layer_operations
            c.zoom
            drawn.view_data.stuff
        × (drawn.view_data.redraw_pending ≡ false)
unfolding redraw IsIn
redraw-IsComplete is_loaded layers operations r zoom cs i j h v =
    let start : Choice = record { layer_nr = 0; zoom = zoom; denominator = r.denominator } in
    let c = choose_layer (layers - 1) start in
    let a = tile_area r c.denominator in
    let inside = pixels-IsIn r c.denominator i j h v in
    let (left, right, top, bottom) = inside in
    let (pending, asked, registered) =
      call_all-IsRegistered is_loaded cs c.layer_nr a c.zoom (operations_of operations c.layer_nr)
        (pos i) (pos j) inside in
    (
      choose_layer-IsChosen (layers - 1) start,
      area-IsAmong (pos_part (a.imax -ℤ a.imin)) c.layer_nr a a.imin (pos i) (pos j) left
          (rows-enough a.imin a.imax (pos i) right) top bottom,
      registered,
      pending,
    )
