-- ===== src/View/Items.antt =====
-- The items of the combo box.
use scroom.Common.{
  ℕ, zero, suc, ◌+◌, ◌/◌, ◌≡◌, ◌≢◌, ◌≤◌, ◌<◌, refl, ap, min, true, ◌||◌, ltb, some, arith,
  Bool-cases, inl, inr, get_elem?,
}
use scroom.Common.Int.{
  one_part, ℤ, pos, negsuc, pos_part, neg_part, ◌+ℤ◌, ◌-ℤ◌, ◌≤ℤ◌, ◌<ℤ◌, eqb_ℤ, max_ℤ, +ℤ_parts,
  -ℤ_parts, int_laws,
}
use scroom.View.{Size, max_zoom, min_zoom_loop, zoom_count, zoom_factors, items_from, has_zoom}

half_smaller : (n : ℕ) → 0 < n → n / 2 < n
half_smaller n h = omega arith

-- The loop ends: each round halves a size that is not 0.
pub min_zoom_loop-total :
    (fuel height width halved : ℕ) (area : Size)
    → height + width < fuel
    → (n : ℕ) × (min_zoom_loop fuel height width area halved ≡ some n)
unfolding min_zoom_loop
min_zoom_loop-total zero height width halved area h = elim h [ ]
min_zoom_loop-total (suc fuel) height width halved area h =
    elim (Bool-cases (ltb (area.height / 2) height || ltb (area.width / 2) width)) [
      | inl e ↦
          let (n, rest) =
            min_zoom_loop-total fuel (height / 2) (width / 2) (suc halved) area
              (ground (arith, e)) in
          (n, rw e rest)
      | inr e ↦ (halved, rw e refl)
    ]

-- The zooms of n items.
unfoldable pub IsListed : ℕ → ℤ → Type 0
IsListed n z = (z ≤ℤ max_zoom) × (max_zoom <ℤ (z +ℤ pos n))

has_zoom-items :
    (n k : ℕ) (z : ℤ)
    → has_zoom z (items_from n k) ≡ true
    → ((z +ℤ pos k) ≤ℤ max_zoom) × (max_zoom <ℤ (z +ℤ pos (k + n)))
unfolding has_zoom items_from
has_zoom-items zero k z e = absurd (cc)
has_zoom-items (suc n) k z e = elim (Bool-cases (eqb_ℤ (max_zoom -ℤ pos k) z)) [
  | inl same ↦
      let n : pos_part (max_zoom -ℤ pos k) + neg_part z
          ≡ pos_part z + neg_part (max_zoom -ℤ pos k) =
        ground (arith, same) in
      (omega int_laws, omega int_laws)
  | inr other ↦
      let rest : has_zoom z (items_from n (suc k)) ≡ true = ground (arith, e, other) in
      let (low, high) = has_zoom-items n (suc k) z rest in (omega int_laws, omega int_laws)
]

items-has_zoom :
    (n k : ℕ) (z : ℤ)
    → ((z +ℤ pos k) ≤ℤ max_zoom)
    → (max_zoom <ℤ (z +ℤ pos (k + n)))
    → has_zoom z (items_from n k) ≡ true
unfolding has_zoom items_from
items-has_zoom zero k z h lt = absurd (omega int_laws)
items-has_zoom (suc n) k z h lt = elim (Bool-cases (eqb_ℤ (max_zoom -ℤ pos k) z)) [
  | inl same ↦ rw same refl
  | inr other ↦
      let ne : pos_part (max_zoom -ℤ pos k) + neg_part z
          ≢ pos_part z + neg_part (max_zoom -ℤ pos k) =
        ground (arith, other) in
      let rest = items-has_zoom n (suc k) z (omega int_laws) (omega int_laws) in
      ground (arith, rest)
]

pub has_zoom-IsListed : (n : ℕ) (z : ℤ) → has_zoom z (items_from n 0) ≡ true → IsListed n z
unfolding IsListed
has_zoom-IsListed n z e =
    let (low, high) = has_zoom-items n 0 z e in (omega int_laws, omega int_laws)

pub IsListed-has_zoom : (n : ℕ) (z : ℤ) → IsListed n z → has_zoom z (items_from n 0) ≡ true
unfolding IsListed
IsListed-has_zoom n z (low, high) = items-has_zoom n 0 z (omega int_laws) (omega int_laws)

pub get_elem-items :
    (n k i : ℕ) (z : ℤ) → get_elem? (items_from n k) i ≡ some z → has_zoom z (items_from n k) ≡ true
unfolding items_from has_zoom
get_elem-items zero k i z e = cc
get_elem-items (suc n) k zero z e =
    let same : max_zoom -ℤ pos k ≡ z = cc in ground (arith, ap pos_part same, ap neg_part same)
get_elem-items (suc n) k (suc i) z e =
    let rest = get_elem-items n (suc k) i z e in ground (arith, rest)

max-pos_part : (a b : ℤ) → pos_part b ≤ pos_part (max_ℤ a b)
max-pos_part a b = ground (arith, one_part a, one_part b)

enough_items :
    (z : ℤ) (c : ℕ)
    → z ≤ℤ max_zoom
    → negsuc 29 ≤ℤ z
    → min (pos_part (pos 1 +ℤ max_zoom -ℤ z)) zoom_factors ≤ c
    → max_zoom <ℤ (z +ℤ pos c)
enough_items z c high low h =
    let parts = one_part (pos 1 +ℤ max_zoom -ℤ z) in
    grind
      (arith, parts, +ℤ_parts z (pos c), -ℤ_parts (pos 1 +ℤ max_zoom) z, +ℤ_parts (pos 1) max_zoom)

pub zoom_count-IsListed :
    (halved : ℕ) (z : ℤ)
    → z ≤ℤ max_zoom
    → negsuc 29 ≤ℤ z
    → IsListed (zoom_count halved z) z × (zoom_count halved z ≤ zoom_factors)
unfolding IsListed zoom_count
zoom_count-IsListed halved z high low =
    let more = max-pos_part (max_zoom +ℤ pos halved) (pos 1 +ℤ max_zoom -ℤ z) in
    (
      (
        high,
        enough_items z (zoom_count halved z) high low (unfold zoom_count in omega (arith, more)),
      ),
      omega arith,
    )

pub listed_range :
    (n : ℕ) (z : ℤ)
    → n ≤ zoom_factors
    → has_zoom z (items_from n 0) ≡ true
    → (negsuc 29 ≤ℤ z) × (z ≤ℤ max_zoom)
unfolding IsListed
listed_range n z few e = let (high, low) = has_zoom-IsListed n z e in (omega int_laws, high)
