-- ===== src/SizeDeterminer.antt =====
-- plugins/transparent-overlay/src/sizedeterminer.cc: the common size of presentations that are shown
-- on top of each other. Presentations and views are numbers. The doubles are integers (fixed point
-- numbers); the largest one, and the smallest positive one, are parameters, like the rectangles of
-- the presentations and which of them can be resized. A failed `require` is `none`.
-- No view expires while it is open.
use scroom.Common.{
  ℕ, Bool, true, false, not, ◌&&◌, ◌||◌, ◌==◌, if◌then◌else◌, Option, none, some, List, [], ◌∷◌,
  ◌++◌,
}
use scroom.Common.Int.{ℤ, pos, ◌+ℤ◌, ◌-ℤ◌, min_ℤ, max_ℤ}
pub mod Enclosing
pub mod Updates
mod Examples

-- left, top, right and bottom, in the loop of DetermineSize
pub record Bounds : Type 0 where
  pub left : ℤ
  pub top : ℤ
  pub right : ℤ
  pub bottom : ℤ

pub record Rect : Type 0 where
  pub x : ℤ
  pub y : ℤ
  pub width : ℤ
  pub height : ℤ

-- A view, and the rectangle that setRect was last called with for it.
pub record View : Type 0 where
  pub view : ℕ
  pub given : Rect

-- PresentationData, with its key
pub record PresentationData : Type 0 where
  pub presentation : ℕ
  pub views : List View

pub record SizeDeterminer : Type 0 where
  pub presentations : List ℕ
  pub resizable : List PresentationData

pub create : SizeDeterminer
create = record { presentations = []; resizable = [] }

pub data Call : Type 0 where
  adds : ℕ → Call
  opens closes : ℕ → ℕ → Call

module _ (largest smallest : ℤ) (bounds_of : ℕ → Bounds) (is_resizable : ℕ → Bool) where
  pub enlarge : List ℕ → Bounds → Bounds
  enlarge [] b = b
  enlarge (p ∷ ps) b = enlarge ps (record {
    left = min_ℤ b.left (bounds_of p).left;
    top = min_ℤ b.top (bounds_of p).top;
    right = max_ℤ b.right (bounds_of p).right;
    bottom = max_ℤ b.bottom (bounds_of p).bottom;
  })

  pub start_bounds : Bounds
  start_bounds = record { left = largest; top = largest; right = smallest; bottom = smallest }

  pub determine_size : List ℕ → Rect
  determine_size ps =
      let b = enlarge ps start_bounds in
      record { x = b.left; y = b.top; width = b.right -ℤ b.left; height = b.bottom -ℤ b.top }

  pub keys : List PresentationData → List ℕ
  keys [] = []
  keys (d ∷ ds) = d.presentation ∷ keys ds

  pub choose_rect : List ℕ → List ℕ → Rect
  choose_rect (p ∷ ps) ks = determine_size (p ∷ ps)
  choose_rect [] (k ∷ ks) = determine_size (k ∷ ks)
  choose_rect [] [] = record { x = pos 0; y = pos 0; width = pos 0; height = pos 0 }

  pub get_rect : SizeDeterminer → Rect
  get_rect s = choose_rect s.presentations (keys s.resizable)

  pub set_rects : Rect → List View → List View
  set_rects r [] = []
  set_rects r (v ∷ vs) = record v { given = r } ∷ set_rects r vs

  pub update_all : Rect → List PresentationData → List PresentationData
  update_all r [] = []
  update_all r (d ∷ ds) = record d { views = set_rects r d.views } ∷ update_all r ds

  pub send_updates : SizeDeterminer → SizeDeterminer
  send_updates s = record s { resizable = update_all (get_rect s) s.resizable }

  pub has_key : ℕ → List PresentationData → Bool
  has_key p [] = false
  has_key p (d ∷ ds) = (d.presentation == p) || has_key p ds

  -- `insert` keeps an entry that is there.
  pub insert : ℕ → List PresentationData → List PresentationData
  insert p ds = if has_key p ds then ds else record { presentation = p; views = [] } ∷ ds

  pub add : ℕ → SizeDeterminer → SizeDeterminer
  add p s = send_updates (
      if is_resizable p
      then record s { resizable = insert p s.resizable }
      else record s { presentations = s.presentations ++ p ∷ [] })

  pub has_view : ℕ → List View → Bool
  has_view vi [] = false
  has_view vi (v ∷ vs) = (v.view == vi) || has_view vi vs

  pub erase : ℕ → List View → List View
  erase vi [] = []
  erase vi (v ∷ vs) = let rest = erase vi vs in if v.view == vi then rest else v ∷ rest

  -- The views of the presentation p, and whether it has the view `vi`.
  pub find_view : ℕ → ℕ → List PresentationData → Bool
  find_view p vi [] = false
  find_view p vi (d ∷ ds) = if d.presentation == p then has_view vi d.views else find_view p vi ds

  pub open_view : ℕ → View → List PresentationData → List PresentationData
  open_view p v [] = []
  open_view p v (d ∷ ds) =
      let rest = open_view p v ds in
      if d.presentation == p then record d { views = v ∷ d.views } ∷ ds else d ∷ rest

  pub close_view : ℕ → ℕ → List PresentationData → List PresentationData
  close_view p vi [] = []
  close_view p vi (d ∷ ds) =
      let rest = close_view p vi ds in
      if d.presentation == p then record d { views = erase vi d.views } ∷ ds else d ∷ rest

  pub open_presentation : ℕ → ℕ → SizeDeterminer → Option SizeDeterminer
  open_presentation p vi s =
      if has_key p s.resizable
      then if find_view p vi s.resizable
        then none
        else some (record s {
          resizable = open_view p (record { view = vi; given = get_rect s }) s.resizable;
        })
      else if is_resizable p
      then none
      else some s

  pub close_presentation : ℕ → ℕ → SizeDeterminer → Option SizeDeterminer
  close_presentation p vi s =
      if has_key p s.resizable
      then if find_view p vi s.resizable
        then some (record s { resizable = close_view p vi s.resizable })
        else none
      else if is_resizable p
      then none
      else some s

  pub call : Call → SizeDeterminer → Option SizeDeterminer
  call (adds p) s = some (add p s)
  call (opens p vi) s = open_presentation p vi s
  call (closes p vi) s = close_presentation p vi s

  pub call_all : List Call → SizeDeterminer → Option SizeDeterminer
  call_all [] s = some s
  call_all (c ∷ cs) s = elim (call c s) [ none ↦ none | some after ↦ call_all cs after ]
