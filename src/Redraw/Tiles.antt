-- ===== src/Redraw/Tiles.antt =====
-- The chosen layer, and which tiles are drawn.
use scroom.Common.{
  ℕ, zero, suc, ◌+◌, ◌*◌, ◌/◌, ◌≡◌, ◌≤◌, ◌<◌, refl, ap, sym, subst, ◌∙◌, Bool, true, false,
  if◌then◌else◌, arith, Bool-cases, inl, inr, ◌⊎◌, ◌^◌, max,
}
use scroom.Common.Int.{
  ℤ, pos, negsuc, ◌+ℤ◌, ◌-ℤ◌, ◌≤ℤ◌, ◌<ℤ◌, leb_ℤ, div_ℤ, -ℤ_parts, eq_of_parts, int_laws,
}
use scroom.Redraw.{Choice, choose_layer, first_tile, end_tile}

-- The layer is the lowest one at which the zoom is at least -2, or the highest one; each layer
-- that was passed adds 3 to the zoom and divides the area by 8.
pub record IsChosen (above : ℕ) (c chosen : Choice) : Type 0 where
  pub passed : ℕ
  pub few : passed ≤ above
  pub layer : chosen.layer_nr ≡ c.layer_nr + passed
  pub zoom : chosen.zoom ≡ c.zoom +ℤ pos (3 * passed)
  pub divided : chosen.denominator ≡ c.denominator * 8 ^ passed
  pub stopped : (passed ≡ above) ⊎ (negsuc 2 <ℤ chosen.zoom)
  pub went_on : (k : ℕ) → k < passed → (c.zoom +ℤ pos (3 * k)) ≤ℤ negsuc 2

power_suc : (n : ℕ) → 8 ^ suc n ≡ 8 * 8 ^ n
power_suc n = grind arith

product : (a b : ℕ) → a * 8 * b ≡ a * (8 * b)
product a b = grind arith

eight_times : (a n : ℕ) → a * 8 * 8 ^ n ≡ a * 8 ^ suc n
eight_times a n = product a (8 ^ n) ∙ ap (λ t. a * t) (sym (power_suc n))

IsChosen-next :
    (above : ℕ) (c chosen : Choice)
    → c.zoom ≤ℤ negsuc 2
    → IsChosen above
        (record {
          layer_nr = suc c.layer_nr;
          zoom = c.zoom +ℤ pos 3;
          denominator = c.denominator * 8;
        })
        chosen
    → IsChosen (suc above) c chosen
IsChosen-next above c chosen low rest =
    let n = rest.passed in
    record {
      passed = suc n;
      few = omega (arith, rest.few);
      layer = omega (arith, rest.layer);
      zoom = rest.zoom ∙ eq_of_parts _ _ (omega int_laws);
      divided = rest.divided ∙ eight_times c.denominator n;
      stopped = ground (arith, rest.stopped);
      went_on = went c.zoom low n rest.went_on;
    }
  where
    went :
        (z : ℤ)
        → z ≤ℤ negsuc 2
        → (n : ℕ) → ((k : ℕ) → k < n → ((z +ℤ pos 3) +ℤ pos (3 * k)) ≤ℤ negsuc 2)
        → (k : ℕ) → k < suc n
        → (z +ℤ pos (3 * k)) ≤ℤ negsuc 2
    went z low n h zero lt = omega int_laws
    went z low n h (suc k) lt = let before = h k (omega arith) in omega int_laws

if-true :
    {b : Bool}
    → b ≡ true
    → (v w : Choice) {above : ℕ} {c : Choice} → IsChosen above c v
    → IsChosen above c (if b then v else w)
if-true e v w h = rw e h

if-false :
    {b : Bool}
    → b ≡ false
    → (v w : Choice) {above : ℕ} {c : Choice} → IsChosen above c w
    → IsChosen above c (if b then v else w)
if-false e v w h = rw e h

pub choose_layer-IsChosen : (above : ℕ) (c : Choice) → IsChosen above c (choose_layer above c)
unfolding choose_layer
choose_layer-IsChosen zero c = record {
  passed = 0;
  few = omega arith;
  layer = omega arith;
  zoom = eq_of_parts _ _ (omega int_laws);
  divided = omega arith;
  stopped = inl refl;
  went_on = λ k h. elim h [ ];
}
choose_layer-IsChosen (suc above) c =
    let next : Choice = record {
      layer_nr = suc c.layer_nr;
      zoom = c.zoom +ℤ pos 3;
      denominator = c.denominator * 8;
    } in
    let rest = choose_layer-IsChosen above next in
    elim (Bool-cases (leb_ℤ c.zoom (negsuc 2))) [
      | inl e ↦
          if-true e (choose_layer above next) c
            (IsChosen-next above c (choose_layer above next) (ground (arith, e)) rest)
      | inr e ↦ if-false e (choose_layer above next) c (record {
        passed = 0;
        few = omega arith;
        layer = omega arith;
        zoom = eq_of_parts _ _ (omega int_laws);
        divided = omega arith;
        stopped = inr (ground (arith, e));
        went_on = λ k h. elim h [ ];
      })
    ]

-- i counts from the first tile of the pixels from l, and x is a pixel.
tile-pixel :
    (l r i : ℕ)
    → l < r
    → l / 4096 ≤ i
    → i < (r + 4095) / 4096
    → (l ≤ max l (i * 4096)) × (max l (i * 4096) < r) × (max l (i * 4096) / 4096 ≡ i)
tile-pixel l r i lt low high = (omega arith, omega arith, omega arith)

pixel-tile : (l r x : ℕ) → l ≤ x → x < r → (l / 4096 ≤ x / 4096) × (x / 4096 < (r + 4095) / 4096)
pixel-tile l r x low high = (omega arith, omega arith)

first_tile-pos : (l : ℕ) → first_tile (pos l) ≡ pos (l / 4096)
unfolding first_tile div_ℤ
first_tile-pos l = ground arith

first_tile-negsuc : (l : ℕ) → first_tile (negsuc l) ≡ pos 0
unfolding first_tile div_ℤ
first_tile-negsuc l = ground (arith, -ℤ_parts (pos 0) (pos (suc l / 4096)))

end_tile-pos : (r : ℕ) → end_tile (pos r) ≡ pos ((r + 4095) / 4096)
unfolding end_tile
end_tile-pos r =
    let sum : pos r +ℤ pos 4096 -ℤ pos 1 ≡ pos (r + 4095) = eq_of_parts _ _ (omega int_laws) in
    rw sum (unfold div_ℤ in refl)

end_tile-negsuc : (r : ℕ) → end_tile (negsuc r) ≤ℤ pos 0
unfolding end_tile div_ℤ ◌+ℤ◌ ◌-ℤ◌
end_tile-negsuc r = ground arith

-- A pixel of the tile i, between the edges.
unfoldable pub HasPixel : ℤ → ℤ → ℕ → Type 0
HasPixel start end i = (x : ℕ) × (start ≤ℤ pos x) × (pos x <ℤ end) × (x / 4096 ≡ i)

-- The tile is between the first one and the end.
unfoldable pub IsDrawn : ℤ → ℤ → ℕ → Type 0
IsDrawn start end i = (first_tile start ≤ℤ pos i) × (pos i <ℤ end_tile end)

drawn-pixel : (start end : ℤ) (i : ℕ) → start <ℤ end → IsDrawn start end i → HasPixel start end i
unfolding IsDrawn HasPixel
drawn-pixel start (negsuc r) i lt (low, high) = absurd (omega (arith, end_tile-negsuc r, low, high))
drawn-pixel (pos l) (pos r) i lt (low, high) =
    let low2 : pos (l / 4096) ≤ℤ pos i = subst (λ z. z ≤ℤ pos i) (first_tile-pos l) low in
    let high2 : pos i <ℤ pos ((r + 4095) / 4096) = subst (λ z. pos i <ℤ z) (end_tile-pos r) high in
    let (a, b, c) = tile-pixel l r i (omega arith) (omega (arith, low2)) (omega (arith, high2)) in
    (max l (i * 4096), omega (arith, a), omega (arith, b), c)
drawn-pixel (negsuc l) (pos r) i lt (low, high) =
    let high2 : pos i <ℤ pos ((r + 4095) / 4096) = subst (λ z. pos i <ℤ z) (end_tile-pos r) high in
    (i * 4096, omega arith, omega (arith, high2), omega arith)

pub pixel-IsDrawn : (start end : ℤ) (i : ℕ) → HasPixel start end i → IsDrawn start end i
unfolding IsDrawn HasPixel
pixel-IsDrawn start (negsuc r) i (x, low, high, e) = absurd (omega arith)
pixel-IsDrawn (pos l) (pos r) i (x, low, high, e) =
    let (a, b) = pixel-tile l r x (omega arith) (omega arith) in
    (
      subst (λ z. z ≤ℤ pos i) (sym (first_tile-pos l)) (omega arith),
      subst (λ z. pos i <ℤ z) (sym (end_tile-pos r)) (omega arith),
    )
pixel-IsDrawn (negsuc l) (pos r) i (x, low, high, e) =
    let (a, b) = pixel-tile 0 r x (omega arith) (omega arith) in
    (
      subst (λ z. z ≤ℤ pos i) (sym (first_tile-negsuc l)) (omega arith),
      subst (λ z. pos i <ℤ z) (sym (end_tile-pos r)) (omega arith),
    )
