-- ===== src/NeededTiles/Calls.antt =====
-- The calls of a view data, from its creation.
use scroom.Common.{
  ℕ, suc, ◌≡◌, refl, ap, sym, ◌∙◌, subst, Bool, true, false, Option, none, some, List, [], ◌∷◌,
  arith, Bool-cases, ==_iff, Option-cases, inl, inr,
}
use scroom.Common.Int.{ℤ, pos_part, ◌-ℤ◌, ◌≤ℤ◌, ◌<ℤ◌, eq_of_parts}
use scroom.NeededTiles.{
  Tile, Stuff, Area, ViewData, create, tile_loaded, is_layer, covers, register_columns, splice,
  reset_needed_tiles, set_needed_tiles, store_volatile_stuff, clear_volatile_stuff, Call, sets,
  loads, stores, clears, call, call_all,
}
use scroom.NeededTiles.Registered.{
  IsRegistered, IsRegistered-left, IsRegistered-right, Adds, columns-Adds, Registers,
  columns-Registers, rows-enough, SameView,
}

-- The tile is in the area.
unfoldable pub IsIn : Area → ℤ → ℤ → Type 0
IsIn a x y = (a.imin ≤ℤ x) × (x <ℤ a.imax) × (a.jmin ≤ℤ y) × (y <ℤ a.jmax)

-- All tiles of the area are registered.
pub IsComplete : ViewData → Type 0
IsComplete d =
    (l : ℕ) (x y : ℤ)
    → d.layer ≡ some l
    → IsIn d.area x y
    → IsRegistered (record { layer = l; x = x; y = y }) d.layer_operations d.zoom d.stuff

-- What resetNeededTiles leaves of the view, and of the redraws while one is pending.
Reset : ViewData → ViewData → Type 0
Reset d e =
    SameView d e
    × (d.redraw_pending ≡ true → (e.redraw_pending ≡ true) × (e.invalidations ≡ d.invalidations))

module _ (is_loaded : Tile → Bool) where
  emptied : ViewData → ViewData
  emptied d = record d { stuff = []; volatile_stuff = [] }

  all_columns : ℕ → ViewData → List Stuff × ViewData
  unfolding emptied
  all_columns l d =
      register_columns is_loaded (pos_part (d.area.imax -ℤ d.area.imin)) l d.area d.area.imin
        ([], emptied d)

  reset-some :
      (l : ℕ) (d : ViewData)
      → d.layer ≡ some l
      → reset_needed_tiles is_loaded d ≡ splice is_loaded (all_columns l d)
  unfolding reset_needed_tiles all_columns emptied
  reset-some l d e = ground (arith, e)

  splice-Reset :
      (d : ViewData) (r : List Stuff × ViewData)
      → Adds is_loaded ([], emptied d) r
      → Reset d (splice is_loaded r)
  unfolding Adds Reset SameView splice emptied
  splice-Reset d (ys, e) (more, same, p) = (same, p)

  Reset-Reset : (l : ℕ) (d : ViewData) → d.layer ≡ some l → Reset d (reset_needed_tiles is_loaded d)
  unfolding all_columns
  Reset-Reset l d e = rw (reset-some l d e) (
      splice-Reset d (all_columns l d) (
        columns-Adds is_loaded (pos_part (d.area.imax -ℤ d.area.imin)) l d.area d.area.imin
          ([], emptied d)))

  splice-IsRegistered :
      (t : Tile) (d : ViewData) (r : List Stuff × ViewData)
      → Registers is_loaded t ([], emptied d) r
      → IsRegistered t d.layer_operations d.zoom (splice is_loaded r).stuff
  unfolding Registers splice emptied
  splice-IsRegistered t d (ys, e) h = IsRegistered-right t d.layer_operations d.zoom e.stuff ys h

  reset-IsComplete :
      (l : ℕ) (d : ViewData) → d.layer ≡ some l → IsComplete (reset_needed_tiles is_loaded d)
  unfolding IsComplete IsIn Reset SameView
  reset-IsComplete l d e k x y el inside =
      let ((sl, sa, sz, so), p) = Reset-Reset l d e in
      let same : l ≡ k = cc in
      let (left, right, top, bottom) = subst (λ a. IsIn a x y) sa inside in
      let t : Tile = record { layer = l; x = x; y = y } in
      let registered = splice-IsRegistered t d (all_columns l d) (
        unfold all_columns in
        columns-Registers is_loaded (pos_part (d.area.imax -ℤ d.area.imin)) l d.area d.area.imin x y
          ([], emptied d) left (rows-enough d.area.imin d.area.imax x right) top bottom) in
      rw (sym same, so, sz)
        (subst (λ (v : ViewData). IsRegistered t d.layer_operations d.zoom v.stuff)
          (sym (reset-some l d e)) registered)

  reset-IsComplete_any : (d : ViewData) → IsComplete (reset_needed_tiles is_loaded d)
  reset-IsComplete_any d = elim (Option-cases d.layer) [
    | inl e ↦
        let empty : reset_needed_tiles is_loaded d ≡ record d { stuff = []; volatile_stuff = [] } =
          unfold reset_needed_tiles in ground (arith, e) in
        rw empty (unfold IsComplete in λ k x y el inside. absurd (cc))
    | inr (l, e) ↦ reset-IsComplete l d e
  ]

  tile_loaded-IsComplete : (t : Tile) (d : ViewData) → IsComplete d → IsComplete (tile_loaded t d)
  unfolding tile_loaded IsComplete
  tile_loaded-IsComplete t d h = elim (Bool-cases d.redraw_pending) [
    | inl e ↦ rw e (λ l x y el inside. IsRegistered-left _ _ _ d.stuff _ (h l x y el inside))
    | inr e ↦ rw e (λ l x y el inside. IsRegistered-left _ _ _ d.stuff _ (h l x y el inside))
  ]

  set-IsComplete :
      (l : ℕ) (a : Area) (z : ℤ) (o : ℕ) (d : ViewData)
      → IsComplete d
      → IsComplete (set_needed_tiles is_loaded l a z o d)
  unfolding set_needed_tiles
  set-IsComplete l a z o d h = elim (Bool-cases (covers d l a z)) [
    | inl e ↦ rw e (unfold IsComplete in h)
    | inr e ↦ rw e (
        unfold IsComplete in
        reset-IsComplete_any (record d {
          layer = some l;
          area = a;
          zoom = z;
          layer_operations = o;
          redraw_pending = true;
        }))
  ]

  call_all-IsComplete :
      (cs : List Call) (d : ViewData) → IsComplete d → IsComplete (call_all is_loaded cs d)
  unfolding call_all call
  call_all-IsComplete [] d h = h
  call_all-IsComplete (sets l a z o ∷ cs) d h =
      call_all-IsComplete cs _ (set-IsComplete l a z o d h)
  call_all-IsComplete (loads t ∷ cs) d h = call_all-IsComplete cs _ (tile_loaded-IsComplete t d h)
  call_all-IsComplete (stores v ∷ cs) d h =
      call_all-IsComplete cs _ (unfold store_volatile_stuff IsComplete in h)
  call_all-IsComplete (clears ∷ cs) d h =
      call_all-IsComplete cs _ (unfold clear_volatile_stuff in reset-IsComplete_any _)

  -- What setNeededTiles leaves.
  unfoldable pub Needed : ℕ → Area → ℤ → ViewData → ViewData → Type 0
  Needed l a z d e =
      (e.redraw_pending ≡ false)
      × (e.invalidations ≡ d.invalidations)
      × ((x y : ℤ)
          → IsIn a x y
          → IsRegistered (record { layer = l; x = x; y = y }) e.layer_operations z e.stuff)

  covers-IsIn :
      (d : ViewData) (l : ℕ) (a : Area) (z x y : ℤ)
      → covers d l a z ≡ true
      → IsIn a x y
      → IsIn d.area x y
  unfolding covers IsIn
  covers-IsIn d l a z x y e (left, right, top, bottom) = ground (arith, e)

  is_layer-eq : (o : Option ℕ) (l : ℕ) → is_layer o l ≡ true → o ≡ some l
  unfolding is_layer
  is_layer-eq none l e = cc
  is_layer-eq (some k) l e = ap some ((==_iff k l).0 e)

  covers-same :
      (d : ViewData) (l : ℕ) (a : Area) (z : ℤ)
      → covers d l a z ≡ true
      → (d.layer ≡ some l) × (d.zoom ≡ z)
  unfolding covers
  covers-same d l a z e =
      (ground (arith, e, is_layer-eq d.layer l), ground (arith, e, eq_of_parts d.zoom z))

  set-Needed :
      (l : ℕ) (a : Area) (z : ℤ) (o : ℕ) (d : ViewData)
      → IsComplete d
      → Needed l a z d (set_needed_tiles is_loaded l a z o d)
  unfolding set_needed_tiles Needed Reset SameView
  set-Needed l a z o d h = elim (Bool-cases (covers d l a z)) [
    | inl e ↦
        let (el, ez) = covers-same d l a z e in
        rw e (
          refl,
          refl,
          (λ x y inside.
              rw (sym ez) (unfold IsComplete in h l x y el (covers-IsIn d l a z x y e inside))),
        )
    | inr e ↦
        let from = record d {
          layer = some l;
          area = a;
          zoom = z;
          layer_operations = o;
          redraw_pending = true;
        } in
        let ((sl, sa, sz, so), p) = Reset-Reset l from refl in
        rw e (
          refl,
          (p refl).1,
          (λ x y inside.
              subst
                (λ w.
                  IsRegistered (record { layer = l; x = x; y = y })
                    (reset_needed_tiles is_loaded from).layer_operations w
                    (reset_needed_tiles is_loaded from).stuff)
                sz
                (unfold IsComplete in
                  reset-IsComplete l from refl l x y sl (subst (λ b. IsIn b x y) (sym sa) inside))),
        )
  ]

  create-IsComplete : IsComplete create
  unfolding IsComplete create
  create-IsComplete l x y e inside = absurd (cc)

  pub call_all-Needed :
      (cs : List Call) (l : ℕ) (a : Area) (z : ℤ) (o : ℕ)
      → Needed l a z
          (call_all is_loaded cs create)
          (set_needed_tiles is_loaded l a z o (call_all is_loaded cs create))
  call_all-Needed cs l a z o =
      set-Needed l a z o (call_all is_loaded cs create)
        (call_all-IsComplete cs create create-IsComplete)

-- After every sequence of calls: setNeededTiles leaves no redraw pending and asks for none itself, also
-- where tiles that are loaded already report that at once; and for every tile of the area an
-- observer is registered, with its view state at the given zoom.
pub call_all-IsRegistered :
    (is_loaded : Tile → Bool) (cs : List Call) (l : ℕ) (a : Area) (z : ℤ) (o : ℕ) (x y : ℤ)
    → IsIn a x y
    → let d = call_all is_loaded cs create in
      let e = set_needed_tiles is_loaded l a z o d in
      (e.redraw_pending ≡ false)
      × (e.invalidations ≡ d.invalidations)
      × IsRegistered (record { layer = l; x = x; y = y }) e.layer_operations z e.stuff
unfolding Needed
call_all-IsRegistered is_loaded cs l a z o x y inside =
    let (pending, asked, registered) = call_all-Needed is_loaded cs l a z o in
    (pending, asked, registered x y inside)

-- The tiles are loaded one after the other.
pub load_all : List Tile → ViewData → ViewData
load_all [] d = d
load_all (t ∷ ts) d = load_all ts (tile_loaded t d)

load_all-pending :
    (ts : List Tile) (d : ViewData)
    → d.redraw_pending ≡ true
    → (load_all ts d).invalidations ≡ d.invalidations
unfolding load_all tile_loaded
load_all-pending [] d e = refl
load_all-pending (t ∷ ts) d e =
    load_all-pending ts (tile_loaded t d) (ground (arith, e)) ∙ ground (arith, e)

-- Where no redraw is pending, the first of any number of tiles that are loaded asks for a redraw, and the
-- others ask for none.
pub load_all-once :
    (t : Tile) (ts : List Tile) (d : ViewData)
    → d.redraw_pending ≡ false
    → (load_all (t ∷ ts) d).invalidations ≡ suc d.invalidations
unfolding load_all tile_loaded
load_all-once t ts d e =
    load_all-pending ts (tile_loaded t d) (ground (arith, e)) ∙ ground (arith, e)
