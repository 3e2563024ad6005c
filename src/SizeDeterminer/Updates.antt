-- ===== src/SizeDeterminer/Updates.antt =====
-- Every view of a resizable presentation was last given the current size.
use scroom.Common.{
  ℕ, Bool, true, ◌==◌, Option, none, some, List, [], ◌∷◌, ◌≡◌, refl, arith, ap, subst, Bool-cases,
  inl, inr,
}
use scroom.Common.Int.{ℤ}
use scroom.SizeDeterminer.{
  Bounds, Rect, View, PresentationData, SizeDeterminer, create, keys, get_rect, set_rects,
  update_all, send_updates, has_key, add, erase, find_view, open_view, close_view,
  open_presentation, close_presentation, call_all, Call, adds, opens, closes, call,
}

-- The last rectangle that setRect was called with is r, for all views of a list.
Given : Rect → List View → Type 0
Given r [] = r ≡ r
Given r (v ∷ vs) = (v.given ≡ r) × Given r vs

AllGiven : Rect → List PresentationData → Type 0
AllGiven r [] = r ≡ r
AllGiven r (d ∷ ds) = Given r d.views × AllGiven r ds

module _ (largest smallest : ℤ) (bounds_of : ℕ → Bounds) (is_resizable : ℕ → Bool) where
  abbrev size : SizeDeterminer → Rect
  size s = get_rect largest smallest bounds_of is_resizable s

  abbrev keys_of : List PresentationData → List ℕ
  keys_of ds = keys largest smallest bounds_of is_resizable ds

  abbrev updated : Rect → List PresentationData → List PresentationData
  updated r ds = update_all largest smallest bounds_of is_resizable r ds

  set_rects-Given :
      (r : Rect) (vs : List View) → Given r (set_rects largest smallest bounds_of is_resizable r vs)
  unfolding set_rects Given
  set_rects-Given r [] = refl
  set_rects-Given r (v ∷ vs) = (refl, set_rects-Given r vs)

  update_all-AllGiven : (r : Rect) (ds : List PresentationData) → AllGiven r (updated r ds)
  unfolding update_all AllGiven
  update_all-AllGiven r [] = refl
  update_all-AllGiven r (d ∷ ds) = (set_rects-Given r d.views, update_all-AllGiven r ds)

  keys-update_all : (r : Rect) (ds : List PresentationData) → keys_of (updated r ds) ≡ keys_of ds
  unfolding keys update_all
  keys-update_all r [] = refl
  keys-update_all r (d ∷ ds) = ap (λ ks. d.presentation ∷ ks) (keys-update_all r ds)

  keys-open_view :
      (p : ℕ) (v : View) (ds : List PresentationData)
      → keys_of (open_view largest smallest bounds_of is_resizable p v ds) ≡ keys_of ds
  unfolding keys open_view
  keys-open_view p v [] = refl
  keys-open_view p v (d ∷ ds) = ground (arith, keys-open_view p v ds)

  keys-close_view :
      (p vi : ℕ) (ds : List PresentationData)
      → keys_of (close_view largest smallest bounds_of is_resizable p vi ds) ≡ keys_of ds
  unfolding keys close_view
  keys-close_view p vi [] = refl
  keys-close_view p vi (d ∷ ds) = ground (arith, keys-close_view p vi ds)

  open_view-AllGiven :
      (r : Rect) (p vi : ℕ) (ds : List PresentationData)
      → AllGiven r ds
      → AllGiven r
          (open_view largest smallest bounds_of is_resizable p (record { view = vi; given = r }) ds)
  unfolding open_view AllGiven Given
  open_view-AllGiven r p vi [] h = h
  open_view-AllGiven r p vi (d ∷ ds) (h, rest) =
      let kept = open_view-AllGiven r p vi ds rest in
      elim (Bool-cases (d.presentation == p)) [
        | inl e ↦ rw e ((refl, h), rest)
        | inr e ↦ rw e (h, kept)
      ]

  erase-Given :
      (r : Rect) (vi : ℕ) (vs : List View)
      → Given r vs
      → Given r (erase largest smallest bounds_of is_resizable vi vs)
  unfolding erase Given
  erase-Given r vi [] h = h
  erase-Given r vi (v ∷ vs) (h, rest) =
      let kept = erase-Given r vi vs rest in
      elim (Bool-cases (v.view == vi)) [ inl e ↦ rw e kept | inr e ↦ rw e (h, kept) ]

  close_view-AllGiven :
      (r : Rect) (p vi : ℕ) (ds : List PresentationData)
      → AllGiven r ds
      → AllGiven r (close_view largest smallest bounds_of is_resizable p vi ds)
  unfolding close_view AllGiven
  close_view-AllGiven r p vi [] h = h
  close_view-AllGiven r p vi (d ∷ ds) (h, rest) =
      let kept = close_view-AllGiven r p vi ds rest in
      elim (Bool-cases (d.presentation == p)) [
        | inl e ↦ rw e (erase-Given r vi d.views h, rest)
        | inr e ↦ rw e (h, kept)
      ]

  -- All views have the current size.
  pub IsCurrent : SizeDeterminer → Type 0
  IsCurrent s = AllGiven (size s) s.resizable

  send_updates-IsCurrent :
      (s : SizeDeterminer) → IsCurrent (send_updates largest smallest bounds_of is_resizable s)
  unfolding send_updates IsCurrent get_rect
  send_updates-IsCurrent s =
      rw (keys-update_all (size s) s.resizable) (update_all-AllGiven (size s) s.resizable)

  -- After a call, unless an assertion fails.
  IsCurrentAfter : Option SizeDeterminer → Type 0
  IsCurrentAfter none = true ≡ true
  IsCurrentAfter (some s) = IsCurrent s

  open_presentation-IsCurrentAfter :
      (p vi : ℕ) (s : SizeDeterminer)
      → IsCurrent s
      → IsCurrentAfter (open_presentation largest smallest bounds_of is_resizable p vi s)
  unfolding open_presentation IsCurrentAfter IsCurrent get_rect
  open_presentation-IsCurrentAfter p vi s h =
      let given : View = record { view = vi; given = size s } in
      let keys_same = keys-open_view p given s.resizable in
      let all = open_view-AllGiven (size s) p vi s.resizable h in
      elim (Bool-cases (has_key largest smallest bounds_of is_resizable p s.resizable)) [
        | inl e ↦
            elim (Bool-cases (find_view largest smallest bounds_of is_resizable p vi s.resizable)) [
              | inl f ↦ rw (e, f) refl
              | inr f ↦ rw (e, f, keys_same) all
            ]
        | inr e ↦ elim (Bool-cases (is_resizable p)) [
          | inl f ↦ rw (e, f) refl
          | inr f ↦ rw (e, f) h
        ]
      ]

  close_presentation-IsCurrentAfter :
      (p vi : ℕ) (s : SizeDeterminer)
      → IsCurrent s
      → IsCurrentAfter (close_presentation largest smallest bounds_of is_resizable p vi s)
  unfolding close_presentation IsCurrentAfter IsCurrent get_rect
  close_presentation-IsCurrentAfter p vi s h =
      let keys_same = keys-close_view p vi s.resizable in
      let all = close_view-AllGiven (size s) p vi s.resizable h in
      elim (Bool-cases (has_key largest smallest bounds_of is_resizable p s.resizable)) [
        | inl e ↦
            elim (Bool-cases (find_view largest smallest bounds_of is_resizable p vi s.resizable)) [
              | inl f ↦ rw (e, f, keys_same) all
              | inr f ↦ rw (e, f) refl
            ]
        | inr e ↦ elim (Bool-cases (is_resizable p)) [
          | inl f ↦ rw (e, f) refl
          | inr f ↦ rw (e, f) h
        ]
      ]

  call-IsCurrentAfter :
      (c : Call) (s : SizeDeterminer)
      → IsCurrent s
      → IsCurrentAfter (call largest smallest bounds_of is_resizable c s)
  unfolding call add IsCurrentAfter
  call-IsCurrentAfter (adds p) s h = send_updates-IsCurrent _
  call-IsCurrentAfter (opens p vi) s h = open_presentation-IsCurrentAfter p vi s h
  call-IsCurrentAfter (closes p vi) s h = close_presentation-IsCurrentAfter p vi s h

  continue-IsCurrentAfter :
      (o : Option SizeDeterminer) (cs : List Call)
      → ((after : SizeDeterminer)
          → IsCurrent after
          → IsCurrentAfter (call_all largest smallest bounds_of is_resizable cs after))
      → IsCurrentAfter o
      → IsCurrentAfter (elim o [
        | none ↦ none
        | some after ↦ call_all largest smallest bounds_of is_resizable cs after
      ])
  unfolding IsCurrentAfter
  continue-IsCurrentAfter none cs rest h = refl
  continue-IsCurrentAfter (some after) cs rest h = rest after h

  calls-IsCurrentAfter :
      (cs : List Call) (s : SizeDeterminer)
      → IsCurrent s
      → IsCurrentAfter (call_all largest smallest bounds_of is_resizable cs s)
  unfolding call_all IsCurrentAfter
  calls-IsCurrentAfter [] s h = h
  calls-IsCurrentAfter (c ∷ cs) s h =
      continue-IsCurrentAfter (call largest smallest bounds_of is_resizable c s) cs
        (λ after kept. calls-IsCurrentAfter cs after kept) (call-IsCurrentAfter c s h)

-- After every sequence of calls that no failed assertion ends, every view of every resizable
-- presentation was last given the size that getRect returns now.
pub call_all-IsCurrent :
    (largest smallest : ℤ) (bounds_of : ℕ → Bounds) (is_resizable : ℕ → Bool) (cs : List Call)
    (s : SizeDeterminer)
    → call_all largest smallest bounds_of is_resizable cs create ≡ some s
    → IsCurrent largest smallest bounds_of is_resizable s
unfolding create IsCurrentAfter IsCurrent AllGiven
call_all-IsCurrent largest smallest bounds_of is_resizable cs s e =
    subst (IsCurrentAfter largest smallest bounds_of is_resizable) e
      (calls-IsCurrentAfter largest smallest bounds_of is_resizable cs create refl)
