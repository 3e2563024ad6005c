-- ===== src/NeededTiles/Registered.antt =====
-- Which tiles are registered, and how often a view is invalidated.
use scroom.Common.{
  ℕ, zero, suc, ◌+◌, ◌≡◌, ◌≢◌, refl, sym, ◌∙◌, subst, Bool, true, List, [], ◌∷◌, ◌++◌, arith,
  Bool-cases, inl, inr, ◌⊎◌,
}
use scroom.Common.Int.{
  one_part, ℤ, pos, +ℤ_parts, -ℤ_parts, pos_part, neg_part, ◌+ℤ◌, ◌-ℤ◌, ◌≤ℤ◌, ◌<ℤ◌, eqb_ℤ, int_laws,
  eq_of_parts,
}
use scroom.NeededTiles.{
  Tile, Stuff, view_state, registration, Area, ViewData, tile_loaded, register, register_column,
  register_columns,
}

-- s is among the stuff.
pub Holds : Stuff → List Stuff → Type 0
Holds s [] = ⊥
Holds s (x ∷ xs) = (x ≡ s) ⊎ Holds s xs

Holds-left : (s : Stuff) (xs ys : List Stuff) → Holds s xs → Holds s (xs ++ ys)
unfolding Holds
Holds-left s [] ys h = absurd h
Holds-left s (x ∷ xs) ys (inl e) = inl e
Holds-left s (x ∷ xs) ys (inr h) = inr (Holds-left s xs ys h)

Holds-right : (s : Stuff) (xs ys : List Stuff) → Holds s ys → Holds s (xs ++ ys)
unfolding Holds
Holds-right s [] ys h = h
Holds-right s (x ∷ xs) ys h = inr (Holds-right s xs ys h)

-- The view state of the tile has the operations and the zoom of the view, and an observer is registered.
pub IsRegistered : Tile → ℕ → ℤ → List Stuff → Type 0
IsRegistered t operations z stuff =
    Holds (view_state t operations z) stuff × Holds (registration t) stuff

pub IsRegistered-left :
    (t : Tile) (o : ℕ) (z : ℤ) (xs ys : List Stuff)
    → IsRegistered t o z xs
    → IsRegistered t o z (xs ++ ys)
unfolding IsRegistered
IsRegistered-left t o z xs ys (h, k) = (Holds-left _ xs ys h, Holds-left _ xs ys k)

pub IsRegistered-right :
    (t : Tile) (o : ℕ) (z : ℤ) (xs ys : List Stuff)
    → IsRegistered t o z ys
    → IsRegistered t o z (xs ++ ys)
unfolding IsRegistered
IsRegistered-right t o z xs ys (h, k) = (Holds-right _ xs ys h, Holds-right _ xs ys k)

-- The fields that tileLoaded leaves alone.
unfoldable pub SameView : ViewData → ViewData → Type 0
SameView d e =
    (e.layer ≡ d.layer)
    × (e.area ≡ d.area)
    × (e.zoom ≡ d.zoom)
    × (e.layer_operations ≡ d.layer_operations)

-- As many steps as the difference are enough to reach the end.
pub rows-enough : (from to y : ℤ) → y <ℤ to → y <ℤ (from +ℤ pos (pos_part (to -ℤ from)))
rows-enough from to y h =
    grind
      (arith, one_part (to -ℤ from), +ℤ_parts from (pos (pos_part (to -ℤ from))), -ℤ_parts to from)

module _ (is_loaded : Tile → Bool) where
  -- What a part of the loops does: it adds to the new stuff, keeps the view, and while a redraw is pending it asks for none.
  unfoldable pub Adds : List Stuff × ViewData → List Stuff × ViewData → Type 0
  Adds (xs, d) (ys, e) =
      ((s : Stuff) → Holds s xs → Holds s ys)
      × SameView d e
      × (d.redraw_pending ≡ true → (e.redraw_pending ≡ true) × (e.invalidations ≡ d.invalidations))

  Adds-refl : (r : List Stuff × ViewData) → Adds r r
  unfolding Adds SameView
  Adds-refl (xs, d) = ((λ s h. h), (refl, refl, refl, refl), (λ p. (p, refl)))

  Adds-trans : (r s t : List Stuff × ViewData) → Adds r s → Adds s t → Adds r t
  unfolding Adds SameView
  Adds-trans (xs, d) (ys, e) (zs, f) (h, (l, a, z, o), p) (k, (l2, a2, z2, o2), q) = (
    (λ s x. k s (h s x)),
    (l2 ∙ l, a2 ∙ a, z2 ∙ z, o2 ∙ o),
    (λ b. let (b2, n) = p b in let (b3, m) = q b2 in (b3, m ∙ n)),
  )

  register-Adds : (t : Tile) (r : List Stuff × ViewData) → Adds r (register is_loaded t r)
  unfolding Adds SameView register tile_loaded
  register-Adds t (xs, d) = (
    (λ s h. Holds-left s xs _ h),
    (ground arith, ground arith, ground arith, ground arith),
    (λ p. (ground (arith, p), ground (arith, p))),
  )

  register-IsRegistered :
      (t : Tile) (xs : List Stuff) (d : ViewData)
      → IsRegistered t d.layer_operations d.zoom ((register is_loaded t (xs, d)).0)
  unfolding register IsRegistered
  register-IsRegistered t xs d = (
    Holds-right _ xs _ (unfold Holds in inl refl),
    Holds-right _ xs _ (unfold Holds in inr (inl refl)),
  )

  column-Adds :
      (n l : ℕ) (i j : ℤ) (r : List Stuff × ViewData) → Adds r (register_column is_loaded n l i j r)
  unfolding register_column
  column-Adds zero l i j r = Adds-refl r
  column-Adds (suc n) l i j r =
      let t : Tile = record { layer = l; x = i; y = j } in
      Adds-trans r (register is_loaded t r) _ (register-Adds t r)
        (column-Adds n l i (j +ℤ pos 1) (register is_loaded t r))

  pub columns-Adds :
      (n l : ℕ) (a : Area) (i : ℤ) (r : List Stuff × ViewData)
      → Adds r (register_columns is_loaded n l a i r)
  unfolding register_columns
  columns-Adds zero l a i r = Adds-refl r
  columns-Adds (suc n) l a i r =
      let next = register_column is_loaded (pos_part (a.jmax -ℤ a.jmin)) l i a.jmin r in
      Adds-trans r next _ (column-Adds (pos_part (a.jmax -ℤ a.jmin)) l i a.jmin r)
        (columns-Adds n l a (i +ℤ pos 1) next)

  -- The tile is registered in the stuff that is left, with the view of the state before.
  unfoldable pub Registers : Tile → List Stuff × ViewData → List Stuff × ViewData → Type 0
  Registers t (xs, d) (ys, e) = IsRegistered t d.layer_operations d.zoom ys

  Registers-before :
      (t : Tile) (r s u : List Stuff × ViewData) → Adds r s → Registers t s u → Registers t r u
  unfolding Registers Adds SameView
  Registers-before t (xs, d) (ys, e) (zs, f) (h, (l, a, z, o), p) k = rw (sym z, sym o) k

  Registers-after :
      (t : Tile) (r s u : List Stuff × ViewData) → Registers t r s → Adds s u → Registers t r u
  unfolding Registers Adds IsRegistered
  Registers-after t (xs, d) (ys, e) (zs, f) (h, k) (more, same, p) = (more _ h, more _ k)

  column-Registers :
      (n l : ℕ) (i j y : ℤ) (r : List Stuff × ViewData)
      → j ≤ℤ y
      → y <ℤ (j +ℤ pos n)
      → Registers (record { layer = l; x = i; y = y }) r (register_column is_loaded n l i j r)
  unfolding register_column
  column-Registers zero l i j y r low high = absurd (omega int_laws)
  column-Registers (suc n) l i j y (xs, d) low high =
      let t : Tile = record { layer = l; x = i; y = j } in
      let next = register is_loaded t (xs, d) in
      elim (Bool-cases (eqb_ℤ j y)) [
        | inl e ↦
            let same : j ≡ y = ground (arith, eq_of_parts j y, e) in
            subst
              (λ k.
                Registers (record { layer = l; x = i; y = k }) (xs, d)
                  (register_column is_loaded n l i (j +ℤ pos 1) next))
              same
              (Registers-after t (xs, d) next _ (unfold Registers in register-IsRegistered t xs d)
                (column-Adds n l i (j +ℤ pos 1) next))
        | inr e ↦
            let ne : pos_part j + neg_part y ≢ pos_part y + neg_part j = ground (arith, e) in
            Registers-before (record { layer = l; x = i; y = y }) (xs, d) next _
              (register-Adds t (xs, d))
              (column-Registers n l i (j +ℤ pos 1) y next (omega int_laws) (omega int_laws))
      ]

  pub columns-Registers :
      (n l : ℕ) (a : Area) (i x y : ℤ) (r : List Stuff × ViewData)
      → i ≤ℤ x
      → x <ℤ (i +ℤ pos n)
      → a.jmin ≤ℤ y
      → y <ℤ a.jmax
      → Registers (record { layer = l; x = x; y = y }) r (register_columns is_loaded n l a i r)
  unfolding register_columns
  columns-Registers zero l a i x y r low high top bottom = absurd (omega int_laws)
  columns-Registers (suc n) l a i x y r low high top bottom =
      let rows = pos_part (a.jmax -ℤ a.jmin) in
      let next = register_column is_loaded rows l i a.jmin r in
      elim (Bool-cases (eqb_ℤ i x)) [
        | inl e ↦
            let same : i ≡ x = ground (arith, eq_of_parts i x, e) in
            subst
              (λ k.
                Registers (record { layer = l; x = k; y = y }) r
                  (register_columns is_loaded n l a (i +ℤ pos 1) next))
              same
              (Registers-after (record { layer = l; x = i; y = y }) r next _
                (column-Registers rows l i a.jmin y r top (rows-enough a.jmin a.jmax y bottom))
                (columns-Adds n l a (i +ℤ pos 1) next))
        | inr e ↦
            let ne : pos_part i + neg_part x ≢ pos_part x + neg_part i = ground (arith, e) in
            Registers-before (record { layer = l; x = x; y = y }) r next _
              (column-Adds rows l i a.jmin r)
              (columns-Registers n l a (i +ℤ pos 1) x y next (omega int_laws) (omega int_laws) top
                bottom)
      ]
