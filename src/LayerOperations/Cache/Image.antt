-- ===== src/LayerOperations/Cache/Image.antt =====
-- What the loops write into an image.
use scroom.Common.{ℕ, zero, suc, ◌+◌, ◌*◌, ◌/◌, ◌≤◌, ◌<◌, ◌≡◌, ◌⊎◌, inl, refl, arith, ◌∙◌}
use scroom.LayerOperations.Cache.{ImageData, set_pixel, fill_row, fill_rows, fill_all}

next_row : (j stride : ℕ) → suc j * stride ≡ j * stride + stride
next_row j stride = grind arith

place : (q step : ℕ) → 0 < step → q * step / step ≡ q
place q step h = grind arith

abbrev pub times : {S : Type 0} → (S → S) → ℕ → S → S
times next zero s = s
times next (suc n) s = times next n (next s)

module _ {S : Type 0} (value : S → ℕ) (next : S → S) where
  fill_row-before :
      (n : ℕ) (s : S) (ptr p : ℕ) (image : ImageData)
      → (p < ptr) ⊎ (ptr + 4 * n ≤ p)
      → fill_row value next n s ptr image p ≡ image p
  unfolding fill_row set_pixel
  fill_row-before zero s ptr p image h = refl
  fill_row-before (suc n) s ptr p image h =
      ground (
        arith,
        fill_row-before n (next s) (ptr + 4) p (set_pixel ptr (value s) image) (ground arith),
      )

  fill_row-pixel :
      (n : ℕ) (s : S) (ptr i : ℕ) (image : ImageData)
      → i < n
      → fill_row value next n s ptr image (ptr + 4 * i) ≡ value (times next i s)
  unfolding fill_row set_pixel
  fill_row-pixel zero s ptr i image h = absurd (omega arith)
  fill_row-pixel (suc n) s ptr zero image h = ground (
    arith,
    fill_row-before n (next s) (ptr + 4) ptr (set_pixel ptr (value s) image) (inl (omega arith)),
  )
  fill_row-pixel (suc n) s ptr (suc i) image h =
      ground
        (arith, fill_row-pixel n (next s) (ptr + 4) i (set_pixel ptr (value s) image) (omega arith))

  fill_rows-before :
      (start : ℕ → S) (width stride left j p : ℕ) (image : ImageData)
      → p < j * stride
      → fill_rows value next start width stride left j image p ≡ image p
  unfolding fill_rows
  fill_rows-before start width stride zero j p image h = refl
  fill_rows-before start width stride (suc left) j p image h =
      fill_rows-before start width stride left (suc j) p
        (fill_row value next width (start j) (j * stride) image) (omega (arith, next_row j stride))
      ∙ fill_row-before width (start j) (j * stride) p image (inl h)

  pub fill_rows-pixel :
      (start : ℕ → S) (width stride left j k i : ℕ) (image : ImageData)
      → 4 * width ≤ stride
      → k < left
      → i < width
      → fill_rows value next start width stride left j image ((j + k) * stride + 4 * i)
        ≡ value (times next i (start (j + k)))
  unfolding fill_rows
  fill_rows-pixel start width stride zero j k i image fits hk hi = absurd (omega arith)
  fill_rows-pixel start width stride (suc left) j zero i image fits hk hi =
      let first =
        fill_rows-before start width stride left (suc j) (j * stride + 4 * i)
          (fill_row value next width (start j) (j * stride) image)
          (omega (arith, next_row j stride))
        ∙ fill_row-pixel width (start j) (j * stride) i image hi in
      ground (arith, first)
  fill_rows-pixel start width stride (suc left) j (suc k) i image fits hk hi =
      let rest =
        fill_rows-pixel start width stride left (suc j) k i
          (fill_row value next width (start j) (j * stride) image) fits (omega arith) hi in
      ground (arith, rest)

module _ (pixel : ℕ → ℕ) (step : ℕ) (positive : 0 < step) where
  fill_all-before :
      (n q p : ℕ) (image : ImageData)
      → p < 4 * q
      → fill_all pixel step n (q * step) image p ≡ image p
  unfolding fill_all set_pixel
  fill_all-before zero q p image h = refl
  fill_all-before (suc n) q p image h =
      let rest =
        fill_all-before n (suc q) p (set_pixel (4 * (q * step / step)) (pixel (q * step)) image)
          (omega arith) in
      ground (arith, rest, place q step positive, next_row q step)

  fill_all-from :
      (n q k : ℕ) (image : ImageData)
      → k < n
      → fill_all pixel step n (q * step) image (4 * (q + k)) ≡ pixel ((q + k) * step)
  unfolding fill_all set_pixel
  fill_all-from zero q k image h = absurd (omega arith)
  fill_all-from (suc n) q zero image h =
      let rest =
        fill_all-before n (suc q) (4 * q)
          (set_pixel (4 * (q * step / step)) (pixel (q * step)) image) (omega arith) in
      ground (arith, rest, place q step positive, next_row q step)
  fill_all-from (suc n) q (suc k) image h =
      let rest =
        fill_all-from n (suc q) k (set_pixel (4 * (q * step / step)) (pixel (q * step)) image)
          (omega arith) in
      ground (arith, rest, next_row q step)

  pub fill_all-pixel :
      (n k : ℕ) (image : ImageData)
      → k < n
      → fill_all pixel step n 0 image (4 * k) ≡ pixel (k * step)
  fill_all-pixel n k image h = let from = fill_all-from n 0 k image h in ground (arith, from)
