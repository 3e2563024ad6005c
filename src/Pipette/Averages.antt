-- ===== src/Pipette/Averages.antt =====
-- The colour of an area is the average over its pixels, whatever tiles they lie in.
use scroom.Common.{
  ◌==◌, false, ℕ, zero, suc, ◌+◌, ◌-◌, ◌*◌, ◌/◌, ◌%◌, ◌≤◌, ◌<◌, ◌≡◌, ◌∙◌, ◌⊎◌, refl, ap, sym, arith,
  List, [], ◌∷◌, length, get_or, max, min, inl, inr,
}
use scroom.SampleIterator.{create, get}
use scroom.SampleIterator.Bits.{IsSampleSize}
use scroom.LayerOperations.{TileData}
use scroom.LayerOperations.Averages.{sum_below, sum_below-eq}
use scroom.Layer.{tilesize}
use scroom.Pipette.{
  Area, sum_pixel_values, add_channels, sum_pipette_colors, divide_pipette_colors, Quotient,
  tile_area, sum_column, sum_columns, get_pixel_averages,
}
use scroom.Pipette.Sums.{sum_pixel_values-samples, sum_pixel_values-length}
use scroom.Pipette.Tiles.{
  sum_from, within, sum_from-below, all_tiles_sum, sum_below-swap, the_start, after_one,
}

-- Every colour in the loops is empty or has all channels.
Colors : ℕ → List ℕ → Type 0
Colors channels colors = (colors ≡ []) ⊎ (length colors ≡ channels)

add_channels-length :
    (xs ys : List ℕ) → length xs ≡ length ys → length (add_channels xs ys) ≡ length ys
unfolding add_channels
add_channels-length [] [] h = refl
add_channels-length [] (y ∷ ys) h = absurd (omega arith)
add_channels-length (x ∷ xs) [] h = refl
add_channels-length (x ∷ xs) (y ∷ ys) h = ap suc (add_channels-length xs ys (omega arith))

add_channels-get :
    (xs ys : List ℕ) (c : ℕ)
    → length xs ≡ length ys
    → get_or (add_channels xs ys) c 0 ≡ get_or xs c 0 + get_or ys c 0
unfolding add_channels
add_channels-get [] [] c h = refl
add_channels-get [] (y ∷ ys) c h = absurd (omega arith)
add_channels-get (x ∷ xs) [] c h = absurd (omega arith)
add_channels-get (x ∷ xs) (y ∷ ys) zero h = omega arith
add_channels-get (x ∷ xs) (y ∷ ys) (suc c) h = add_channels-get xs ys c (omega arith)

ap2 : {a a' b b' : ℕ} (f : ℕ → ℕ → ℕ) → a ≡ a' → b ≡ b' → f a b ≡ f a' b'
ap2 f p q = rw (p, q) refl

abbrev nought_over : ℕ → Quotient
nought_over d = record { dividend = 0; divisor = d }

-- Channel c of a colour that was divided.
abbrev channel : List ℕ → ℕ → ℕ → Quotient
channel xs c d = get_or (divide_pipette_colors xs d) c (nought_over d)

channel-divided :
    (xs : List ℕ) (c d : ℕ)
    → ((channel xs c d).dividend ≡ get_or xs c 0) × ((channel xs c d).divisor ≡ d)
unfolding divide_pipette_colors
channel-divided [] c d = (refl, refl)
channel-divided (x ∷ xs) zero d = (refl, refl)
channel-divided (x ∷ xs) (suc c) d = channel-divided xs c d

area-positive : (a b : ℕ) → 0 < a → 0 < b → 0 < a * b
area-positive a b h l = grind arith

-- Channel c of the pixel at column X and line Y of the layer.
abbrev pub pixel_sample : ℕ → ℕ → ℕ → (ℕ → ℕ → TileData) → ℕ → ℕ → ℕ
pixel_sample channels bps c layer X Y =
    let tile = layer (X / tilesize) (Y / tilesize) in
    get (create 0 (channels * (Y % tilesize * tile.width + X % tilesize) + c) bps) tile.bytes

module _ (channels c : ℕ) where
  sum_pipette_colors-lem :
      (lhs rhs : List ℕ)
      → Colors channels lhs
      → length rhs ≡ channels
      → (length (sum_pipette_colors lhs rhs) ≡ channels)
        × (get_or (sum_pipette_colors lhs rhs) c 0 ≡ get_or lhs c 0 + get_or rhs c 0)
  unfolding sum_pipette_colors Colors
  sum_pipette_colors-lem [] rhs h l = (l, omega arith)
  sum_pipette_colors-lem (x ∷ xs) rhs h l =
      let same : length (x ∷ xs) ≡ length rhs = ground (arith, h, l) in
      (add_channels-length (x ∷ xs) rhs same ∙ l, add_channels-get (x ∷ xs) rhs c same)

length-Colors : (channels : ℕ) (colors : List ℕ) → length colors ≡ channels → Colors channels colors
unfolding Colors
length-Colors channels colors h = inr h

module _ (channels bps c : ℕ) (layer : ℕ → ℕ → TileData) (area : Area) (size : IsSampleSize bps)
    (in_range : c < channels) (tile_width : (x y : ℕ) → (layer x y).width ≡ tilesize)
    (tile_height : (x y : ℕ) → (layer x y).height ≡ tilesize) where
  -- The sample of the channel at place (X, Y) of tile (x, y).
  abbrev in_tile : ℕ → ℕ → ℕ → ℕ → ℕ
  in_tile x y X Y =
      get (create 0 (channels * (Y * (layer x y).width + X) + c) bps) (layer x y).bytes

  abbrev at_place : ℕ → ℕ → ℕ
  at_place X Y = pixel_sample channels bps c layer X Y

  abbrev tile_sum : ℕ → ℕ → ℕ
  tile_sum x y =
      within area.top area.bottom y (λ Y. within area.left area.right x (λ X. at_place X Y))

  tile-place :
      (x y X Y : ℕ)
      → x * tilesize ≤ X
      → X < x * tilesize + tilesize
      → y * tilesize ≤ Y
      → Y < y * tilesize + tilesize
      → in_tile x y (X - x * tilesize) (Y - y * tilesize) ≡ at_place X Y
  tile-place x y X Y a b d e =
      let ex : X / tilesize ≡ x = omega arith in
      let ey : Y / tilesize ≡ y = omega arith in
      let mx : X % tilesize ≡ X - x * tilesize = omega arith in
      let my : Y % tilesize ≡ Y - y * tilesize = omega arith in rw (ex, ey, mx, my) refl

  tile-values :
      (x y : ℕ)
      → get_or (sum_pixel_values channels bps (tile_area area x y (layer x y)) (layer x y)) c 0
        ≡ tile_sum x y
  unfolding tile_area
  tile-values x y =
      let tile = layer x y in
      let part = tile_area area x y tile in
      let L = max (x * tilesize) area.left in
      let T = max (y * tilesize) area.top in
      let W = min (x * tilesize + tilesize) area.right - L in
      let H = min (y * tilesize + tilesize) area.bottom - T in
      let w : part.right - part.left ≡ W = omega (arith, tile_width x y) in
      let h : part.bottom - part.top ≡ H = omega (arith, tile_height x y) in
      let row : (j : ℕ)
          → j < H
          → sum_below W (λ k. in_tile x y (part.left + k) (part.top + j))
            ≡ sum_from L W (λ X. at_place X (T + j)) =
        λ j lj.
          sum_below-eq W _ (λ k. at_place (L + k) (T + j))
            (λ k lk.
              ap2 (λ a b. in_tile x y a b) (omega arith) (omega arith)
              ∙ tile-place x y (L + k) (T + j) (omega arith) (omega arith) (omega arith)
                  (omega arith))
          ∙ sum_from-below L W (λ X. at_place X (T + j)) in
      sum_pixel_values-samples channels bps part tile c size (omega (arith, tile_width x y))
        in_range
      ∙ ap
          (λ n. sum_below n (λ j.
            sum_below (part.right - part.left) (λ k. in_tile x y (part.left + k) (part.top + j))))
          h
      ∙ ap (λ n. sum_below H (λ j. sum_below n (λ k. in_tile x y (part.left + k) (part.top + j)))) w
      ∙ sum_below-eq H _ (λ j. sum_from L W (λ X. at_place X (T + j))) row
      ∙ sum_from-below T H (λ Y. sum_from L W (λ X. at_place X Y))

  tile-length :
      (x y : ℕ)
      → length (sum_pixel_values channels bps (tile_area area x y (layer x y)) (layer x y))
        ≡ channels
  tile-length x y =
      sum_pixel_values-length channels bps (tile_area area x y (layer x y)) (layer x y) size
        (omega arith)

  -- What a loop that has added `added` to the channel leaves.
  Added : List ℕ → List ℕ → ℕ → Type 0
  Added after colors added = Colors channels after × (get_or after c 0 ≡ get_or colors c 0 + added)

  sum_column-Added :
      (x n y : ℕ) (colors : List ℕ)
      → Colors channels colors
      → Added
          (sum_column channels bps layer area x n y colors)
          colors
          (sum_below n (λ i. tile_sum x (y + i)))
  unfolding sum_column Added
  sum_column-Added x zero y colors h = (h, omega arith)
  sum_column-Added x (suc n) y colors h =
      let sums = sum_pixel_values channels bps (tile_area area x y (layer x y)) (layer x y) in
      let (len, sum) = sum_pipette_colors-lem channels c colors sums h (tile-length x y) in
      let next = sum_pipette_colors colors sums in
      let (ok, rest) = sum_column-Added x n (suc y) next (length-Colors channels next len) in
      let first = ap (tile_sum x) (the_start y) in
      let shifted =
        sum_below-eq n (λ i. tile_sum x (suc y + i)) (λ i. tile_sum x (y + suc i))
          (λ i k. sym (ap (tile_sum x) (after_one y i))) in
      (ok, omega (arith, rest, sum, tile-values x y, first, shifted))

  sum_columns-Added :
      (y lines n x : ℕ) (colors : List ℕ)
      → Colors channels colors
      → Added
          (sum_columns channels bps layer area y lines n x colors)
          colors
          (sum_below n (λ i. sum_below lines (λ j. tile_sum (x + i) (y + j))))
  unfolding sum_columns Added
  sum_columns-Added y lines zero x colors h = (h, omega arith)
  sum_columns-Added y lines (suc n) x colors h =
      let column : ℕ → ℕ = λ i. sum_below lines (λ j. tile_sum i (y + j)) in
      let (first_ok, first_sum) = sum_column-Added x lines y colors h in
      let next = sum_column channels bps layer area x lines y colors in
      let (ok, rest) = sum_columns-Added y lines n (suc x) next first_ok in
      let first = ap column (the_start x) in
      let shifted =
        sum_below-eq n (λ i. column (suc x + i)) (λ i. column (x + suc i))
          (λ i k. sym (ap column (after_one x i))) in
      (ok, omega (arith, rest, first_sum, first, shifted))

  -- The sum over all pixels of the area.
  abbrev area_sum : ℕ
  area_sum =
      sum_from area.top (area.bottom - area.top)
        (λ Y. sum_from area.left (area.right - area.left) (λ X. at_place X Y))

  module _ (wide : area.left < area.right) (high : area.top < area.bottom) where
    tiles-area :
        sum_below (suc ((area.right - 1) / tilesize) - area.left / tilesize) (λ i.
          sum_below
            (suc ((area.bottom - 1) / tilesize) - area.top / tilesize)
            (λ j. tile_sum (area.left / tilesize + i) (area.top / tilesize + j)))
        ≡ area_sum
    tiles-area =
        let m = suc ((area.right - 1) / tilesize) - area.left / tilesize in
        let n = suc ((area.bottom - 1) / tilesize) - area.top / tilesize in
        let h = area.bottom - area.top in
        let part : ℕ → ℕ → ℕ =
          λ i Y. within area.left area.right (area.left / tilesize + i) (λ X. at_place X Y) in
        sum_below-eq m _ (λ i. sum_below h (λ j. part i (area.top + j)))
          (λ i k.
            all_tiles_sum area.top area.bottom (part i) high
            ∙ sym (sum_from-below area.top h (part i)))
        ∙ sum_below-swap m h (λ i j. part i (area.top + j))
        ∙ sum_below-eq h _
            (λ j. sum_from area.left (area.right - area.left) (λ X. at_place X (area.top + j)))
            (λ j k. all_tiles_sum area.left area.right (λ X. at_place X (area.top + j)) wide)
        ∙ sum_from-below area.top h
            (λ Y. sum_from area.left (area.right - area.left) (λ X. at_place X Y))

-- For an area of at least one pixel, over tiles of 4096 by 4096 pixels: each channel of the colour
-- that getPixelAverages finds is the sum of the samples of all pixels of the area, divided by their
-- number, where a pixel is looked up in the tile that it lies in.
pub get_pixel_averages-all :
    (channels bps c : ℕ) (layer : ℕ → ℕ → TileData) (area : Area)
    → IsSampleSize bps
    → c < channels
    → ((x y : ℕ) → (layer x y).width ≡ tilesize)
    → ((x y : ℕ) → (layer x y).height ≡ tilesize)
    → area.left < area.right
    → area.top < area.bottom
    → let pixels = (area.right - area.left) * (area.bottom - area.top) in
      let nought : Quotient = record { dividend = 0; divisor = pixels } in
      let average = get_or (get_pixel_averages channels bps layer area) c nought in
      (average.dividend
        ≡ sum_from area.top (area.bottom - area.top) (λ Y.
          sum_from area.left (area.right - area.left) (λ X. pixel_sample channels bps c layer X Y)))
      × (average.divisor ≡ pixels)
unfolding get_pixel_averages Added Colors
get_pixel_averages-all channels bps c layer area size in_range tw th wide high =
    let m = suc ((area.right - 1) / tilesize) - area.left / tilesize in
    let n = suc ((area.bottom - 1) / tilesize) - area.top / tilesize in
    let total = (area.right - area.left) * (area.bottom - area.top) in
    let colors =
      sum_columns channels bps layer area (area.top / tilesize) n m (area.left / tilesize) [] in
    let (ok, sum) =
      sum_columns-Added channels bps c layer area size in_range tw th (area.top / tilesize) n m
        (area.left / tilesize) [] (inl refl) in
    let all = tiles-area channels bps c layer area size in_range tw th wide high in
    let positive : 0 < total = area-positive _ _ (omega arith) (omega arith) in
    let same : get_or colors c 0 ≡ area_sum channels bps c layer area size in_range tw th =
      omega (arith, sum, all) in
    let whole : (total == 0) ≡ false = ground (arith, positive) in
    let (dividend, divisor) = channel-divided colors c total in rw whole (dividend ∙ same, divisor)
