-- ===== src/SizeDeterminer/Enclosing.antt =====
-- The size encloses the presentations that cannot be resized.
use scroom.Common.{ℕ, zero, suc, ◌≡◌, Bool, subst, List, [], ◌∷◌, some, get_elem?, arith}
use scroom.Common.Int.{ℤ, ◌+ℤ◌, ◌-ℤ◌, ◌≤ℤ◌, min_ℤ, max_ℤ, int_laws}
use scroom.SizeDeterminer.{
  Bounds, enlarge, determine_size, start_bounds, get_rect, choose_rect, Rect, keys, SizeDeterminer,
}

abbrev Encloses : Bounds → Bounds → Type 0
Encloses b c = (b.left ≤ℤ c.left) × (b.top ≤ℤ c.top) × (c.right ≤ℤ b.right) × (c.bottom ≤ℤ b.bottom)

-- The bounds are within the rectangle.
abbrev pub Surrounds : Rect → Bounds → Type 0
Surrounds r b =
    (r.x ≤ℤ b.left)
    × (r.y ≤ℤ b.top)
    × (b.right ≤ℤ (r.x +ℤ r.width))
    × (b.bottom ≤ℤ (r.y +ℤ r.height))

le_min : (x a b : ℤ) → x ≤ℤ min_ℤ a b → (x ≤ℤ a) × (x ≤ℤ b)
le_min x a b h = ground arith

max_le : (x a b : ℤ) → max_ℤ a b ≤ℤ x → (a ≤ℤ x) × (b ≤ℤ x)
max_le x a b h = ground arith

le_sum : (a b c : ℤ) → c ≤ℤ b → c ≤ℤ (a +ℤ (b -ℤ a))
le_sum a b c h = omega int_laws

Encloses-refl : (b : Bounds) → Encloses b b
Encloses-refl b = (omega arith, omega arith, omega arith, omega arith)

module _ (largest smallest : ℤ) (bounds_of : ℕ → Bounds) (is_resizable : ℕ → Bool) where
  abbrev enlarged : List ℕ → Bounds → Bounds
  enlarged ps b = enlarge largest smallest bounds_of is_resizable ps b

  abbrev grown : ℕ → Bounds → Bounds
  grown p b = record {
    left = min_ℤ b.left (bounds_of p).left;
    top = min_ℤ b.top (bounds_of p).top;
    right = max_ℤ b.right (bounds_of p).right;
    bottom = max_ℤ b.bottom (bounds_of p).bottom;
  }

  -- What encloses the grown bounds encloses both.
  Encloses-grown :
      (p : ℕ) (b big : Bounds)
      → Encloses big (grown p b)
      → Encloses big b × Encloses big (bounds_of p)
  Encloses-grown p b big (l, t, r, d) =
      let l2 = le_min big.left b.left (bounds_of p).left l in
      let t2 = le_min big.top b.top (bounds_of p).top t in
      let r2 = max_le big.right b.right (bounds_of p).right r in
      let d2 = max_le big.bottom b.bottom (bounds_of p).bottom d in
      ((l2.0, t2.0, r2.0, d2.0), (l2.1, t2.1, r2.1, d2.1))

  enlarge-more : (ps : List ℕ) (b : Bounds) → Encloses (enlarged ps b) b
  unfolding enlarge
  enlarge-more [] b = Encloses-refl b
  enlarge-more (p ∷ ps) b =
      (Encloses-grown p b (enlarged ps (grown p b)) (enlarge-more ps (grown p b))).0

  enlarge-each :
      (ps : List ℕ) (b : Bounds) (i p : ℕ)
      → get_elem? ps i ≡ some p
      → Encloses (enlarged ps b) (bounds_of p)
  unfolding enlarge
  enlarge-each [] b i p e = cc
  enlarge-each (q ∷ ps) b zero p e =
      subst (λ x. Encloses (enlarged (q ∷ ps) b) (bounds_of x)) (cc)
        (Encloses-grown q b (enlarged ps (grown q b)) (enlarge-more ps (grown q b))).1
  enlarge-each (q ∷ ps) b (suc i) p e = enlarge-each ps (grown q b) i p e

  determine_size-encloses :
      (ps : List ℕ) (i p : ℕ)
      → get_elem? ps i ≡ some p
      → Surrounds (determine_size largest smallest bounds_of is_resizable ps) (bounds_of p)
  unfolding determine_size
  determine_size-encloses ps i p e =
      let big = enlarged ps (start_bounds largest smallest bounds_of is_resizable) in
      let (l, t, r, d) =
        enlarge-each ps (start_bounds largest smallest bounds_of is_resizable) i p e in
      (
        l,
        t,
        le_sum big.left big.right (bounds_of p).right r,
        le_sum big.top big.bottom (bounds_of p).bottom d,
      )

  choose_rect-encloses :
      (ps ks : List ℕ) (i p : ℕ)
      → get_elem? ps i ≡ some p
      → Surrounds (choose_rect largest smallest bounds_of is_resizable ps ks) (bounds_of p)
  unfolding choose_rect
  choose_rect-encloses [] ks i p e = cc
  choose_rect-encloses (q ∷ ps) ks i p e = determine_size-encloses (q ∷ ps) i p e

-- When there are presentations that cannot be resized, the rectangle that getRect returns encloses
-- the rectangle of each of them.
pub get_rect-encloses :
    (largest smallest : ℤ) (bounds_of : ℕ → Bounds) (is_resizable : ℕ → Bool) (s : SizeDeterminer)
    (i p : ℕ)
    → get_elem? s.presentations i ≡ some p
    → Surrounds (get_rect largest smallest bounds_of is_resizable s) (bounds_of p)
unfolding get_rect
get_rect-encloses largest smallest bounds_of is_resizable s i p e =
    choose_rect-encloses largest smallest bounds_of is_resizable s.presentations
      (keys largest smallest bounds_of is_resizable s.resizable) i p e
