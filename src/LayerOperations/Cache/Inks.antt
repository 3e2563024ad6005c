-- ===== src/LayerOperations/Cache/Inks.antt =====
-- The colours of the CMYK images, and of the images of the other classes, pixel by pixel.
use scroom.Common.{
  ℕ, ◌+◌, ◌*◌, ◌/◌, ◌%◌, ◌^◌, ◌-◌, ◌≤◌, ◌<◌, ◌≡◌, refl, arith, ◌∙◌, ap, sym, inl, inr, ◌⊎◌,
}
use Prim.Native.Nat.{bit_or}
use scroom.SampleIterator.{create, get, sample_of, mask}
use scroom.SampleIterator.Bits.{all_below}
use scroom.LayerOperations.{Bytes, TileData}
use scroom.LayerOperations.Reduce.{sample_cmyk16, sample_cmyk8}
use scroom.LayerOperations.Samples.{
  by_trial, get-create, whole_sample, sample_cmyk16-samples, sample_cmyk8-samples,
}
use scroom.LayerOperations.Cache.{
  ImageData, from_complements, pixel_cmyk32, pixel_cmyk16, pixel_cmyk8, pixel_cmyk4, one_less, argb,
  cache_cmyk32, cache_cmyk16, cache_cmyk8, cache_cmyk4,
}
use scroom.LayerOperations.Cache.Image.{fill_all-pixel}

-- The classes for CMYK.
pub data CmykOperations : Type 0 where
  cmyk32 cmyk16 cmyk8 cmyk4 : CmykOperations

abbrev pub bits : CmykOperations → ℕ
bits cmyk32 = 8
bits cmyk16 = 4
bits cmyk8 = 2
bits cmyk4 = 1

pub cache : CmykOperations → TileData → ImageData → ImageData
cache cmyk32 = cache_cmyk32
cache cmyk16 = cache_cmyk16
cache cmyk8 = cache_cmyk8
cache cmyk4 = cache_cmyk4

-- What channel c of pixel k lets through, on a scale to 255.
unfoldable pub complement : CmykOperations → Bytes → ℕ → ℕ → ℕ
complement op bytes k c = 255 - get (create 0 (4 * k + c) (bits op)) bytes * 255 / (2 ^ bits op - 1)

-- A pixel of one bit per channel, of the r-th four bits of a byte.
bit_pixel : ℕ → ℕ → ℕ
bit_pixel r b =
    from_complements (255 - sample_of 1 (8 - 1 - (4 * r + 0)) b * 255 / 1)
      (255 - sample_of 1 (8 - 1 - (4 * r + 1)) b * 255 / 1)
      (255 - sample_of 1 (8 - 1 - (4 * r + 2)) b * 255 / 1)
      (255 - sample_of 1 (8 - 1 - (4 * r + 3)) b * 255 / 1)

bit_pixel-even : (b : ℕ) → b < 256 → pixel_cmyk4 (λ p. b) 0 ≡ bit_pixel 0 b
unfolding pixel_cmyk4 bit_pixel one_less from_complements argb sample_of mask all_below
bit_pixel-even = by_trial (λ b. pixel_cmyk4 (λ p. b) 0) (bit_pixel 0) refl

bit_pixel-odd : (b : ℕ) → b < 256 → pixel_cmyk4 (λ p. b) 1 ≡ bit_pixel 1 b
unfolding pixel_cmyk4 bit_pixel one_less from_complements argb sample_of mask all_below
bit_pixel-odd = by_trial (λ b. pixel_cmyk4 (λ p. b) 1) (bit_pixel 1) refl

even_or_odd : (k : ℕ) → (k % 2 ≡ 0) ⊎ (k % 2 ≡ 1)
even_or_odd k = ground arith

pixel_cmyk4-even :
    (bytes : Bytes) (k : ℕ) → k % 2 ≡ 0 → pixel_cmyk4 bytes k ≡ pixel_cmyk4 (λ p. bytes (k / 2)) 0
unfolding pixel_cmyk4
pixel_cmyk4-even bytes k h = ground (arith, h)

pixel_cmyk4-odd :
    (bytes : Bytes) (k : ℕ) → k % 2 ≡ 1 → pixel_cmyk4 bytes k ≡ pixel_cmyk4 (λ p. bytes (k / 2)) 1
unfolding pixel_cmyk4
pixel_cmyk4-odd bytes k h = ground (arith, h)

module _ (bytes : Bytes) (all_bytes : (p : ℕ) → bytes p < 256) where
  complement_cmyk32 : (k c : ℕ) → (255 - bytes (k * 4 + c)) % 256 ≡ complement cmyk32 bytes k c
  unfolding complement
  complement_cmyk32 k c =
      let place : k * 4 + c ≡ 4 * k + c = omega arith in
      omega (arith, whole_sample bytes all_bytes (4 * k + c), ap bytes place)

  complement_cmyk16 :
      (k c : ℕ)
      → c < 4
      → (255 - sample_cmyk16 bytes c (k * 2) * 17) % 256 ≡ complement cmyk16 bytes k c
  unfolding complement
  complement_cmyk16 k c h =
      omega (arith, sample_cmyk16-samples bytes all_bytes (4 * k + c) c (k * 2) h (omega arith))

  complement_cmyk8 :
      (k c : ℕ)
      → c < 4
      → (255 - sample_cmyk8 bytes c (k * 1) * 85) % 256 ≡ complement cmyk8 bytes k c
  unfolding complement
  complement_cmyk8 k c h =
      omega (arith, sample_cmyk8-samples bytes all_bytes (4 * k + c) c (k * 1) h (omega arith))

  complements : CmykOperations → ℕ → ℕ
  complements op k =
      from_complements (complement op bytes k 0) (complement op bytes k 1) (complement op bytes k 2)
        (complement op bytes k 3)

  bit_pixel-complements :
      (k r : ℕ) → r < 2 → k ≡ 2 * (k / 2) + r → bit_pixel r (bytes (k / 2)) ≡ complements cmyk4 k
  unfolding bit_pixel complements complement
  bit_pixel-complements k r h e =
      let at : (c : ℕ)
          → c < 4
          → sample_of 1 (8 - 1 - (4 * r + c)) (bytes (k / 2)) ≡ get (create 0 (4 * k + c) 1) bytes =
        λ c l.
          sym (
            get-create 1 8 (4 * k + c) (k / 2) (4 * r + c) bytes refl (omega arith)
              (omega arith)) in
      rw (at 0 (omega arith), at 1 (omega arith), at 2 (omega arith), at 3 (omega arith)) refl

  pixel_cmyk : CmykOperations → ℕ → ℕ
  pixel_cmyk cmyk32 k = pixel_cmyk32 bytes (k * 4)
  pixel_cmyk cmyk16 k = pixel_cmyk16 bytes (k * 2)
  pixel_cmyk cmyk8 k = pixel_cmyk8 bytes (k * 1)
  pixel_cmyk cmyk4 k = pixel_cmyk4 bytes (k * 1)

  pixel-complements : (op : CmykOperations) (k : ℕ) → pixel_cmyk op k ≡ complements op k
  unfolding pixel_cmyk complements pixel_cmyk32 pixel_cmyk16 pixel_cmyk8 sample_cmyk16 sample_cmyk8
  pixel-complements cmyk32 k =
      let first : k * 4 + 0 ≡ k * 4 = omega arith in
      rw
        (
          sym (complement_cmyk32 k 0),
          sym (complement_cmyk32 k 1),
          sym (complement_cmyk32 k 2),
          sym (complement_cmyk32 k 3),
          first,
        )
        refl
  pixel-complements cmyk16 k =
      rw
        (
          sym (complement_cmyk16 k 0 (omega arith)),
          sym (complement_cmyk16 k 1 (omega arith)),
          sym (complement_cmyk16 k 2 (omega arith)),
          sym (complement_cmyk16 k 3 (omega arith)),
        )
        refl
  pixel-complements cmyk8 k =
      rw
        (
          sym (complement_cmyk8 k 0 (omega arith)),
          sym (complement_cmyk8 k 1 (omega arith)),
          sym (complement_cmyk8 k 2 (omega arith)),
          sym (complement_cmyk8 k 3 (omega arith)),
        )
        refl
  pixel-complements cmyk4 k =
      let same : k * 1 ≡ k = omega arith in
      rw same (elim (even_or_odd k) [
        | inl e ↦
            pixel_cmyk4-even bytes k e
            ∙ bit_pixel-even (bytes (k / 2)) (all_bytes (k / 2))
            ∙ bit_pixel-complements k 0 (omega arith) (omega (arith, e))
        | inr e ↦
            pixel_cmyk4-odd bytes k e
            ∙ bit_pixel-odd (bytes (k / 2)) (all_bytes (k / 2))
            ∙ bit_pixel-complements k 1 (omega arith) (omega (arith, e))
      ])

cache-from_complements :
    (op : CmykOperations) (tile : TileData) (image : ImageData) (k : ℕ)
    → ((p : ℕ) → tile.bytes p < 256)
    → k < tile.height * tile.width
    → cache op tile image (4 * k)
      ≡ from_complements
          (complement op tile.bytes k 0)
          (complement op tile.bytes k 1)
          (complement op tile.bytes k 2)
          (complement op tile.bytes k 3)
unfolding cache cache_cmyk32 cache_cmyk16 cache_cmyk8 cache_cmyk4 complements pixel_cmyk
cache-from_complements cmyk32 tile image k all_bytes h =
    fill_all-pixel (pixel_cmyk32 tile.bytes) 4 (omega arith) (tile.height * tile.width) k image h
    ∙ pixel-complements tile.bytes all_bytes cmyk32 k
cache-from_complements cmyk16 tile image k all_bytes h =
    fill_all-pixel (pixel_cmyk16 tile.bytes) 2 (omega arith) (tile.height * tile.width) k image h
    ∙ pixel-complements tile.bytes all_bytes cmyk16 k
cache-from_complements cmyk8 tile image k all_bytes h =
    fill_all-pixel (pixel_cmyk8 tile.bytes) 1 (omega arith) (tile.height * tile.width) k image h
    ∙ pixel-complements tile.bytes all_bytes cmyk8 k
cache-from_complements cmyk4 tile image k all_bytes h =
    fill_all-pixel (pixel_cmyk4 tile.bytes) 1 (omega arith) (tile.height * tile.width) k image h
    ∙ pixel-complements tile.bytes all_bytes cmyk4 k

-- A product of what two inks let through is a byte again.
let_through : (x y : ℕ) → (255 - x) * (255 - y) / 255 % 256 ≡ (255 - x) * (255 - y) / 255
let_through x y =
    let less = bounded (255 - x) (255 - y) (omega arith) (omega arith) in omega (arith, less)
  where
    bounded : (a b : ℕ) → a ≤ 255 → b ≤ 255 → a * b ≤ 65025
    bounded a b ha hb = grind arith

-- In the image of a CMYK class the pixel k, for each of the pixels of the tile, has 255 in its bits
-- from 24 on, so that it is opaque; from bit 16 on, its red, the product of what cyan and black let
-- through, divided by 255; and so from bit 8 on the green of magenta, and below that the blue of
-- yellow. What an ink lets through is 255 minus its sample, scaled to 255; the samples are those
-- that an iterator over the data reads.
pub cache-complements :
    (op : CmykOperations) (tile : TileData) (image : ImageData) (k : ℕ)
    → ((p : ℕ) → tile.bytes p < 256)
    → k < tile.height * tile.width
    → let black = complement op tile.bytes k 3 in
      let red = complement op tile.bytes k 0 * black / 255 in
      let green = complement op tile.bytes k 1 * black / 255 in
      let blue = complement op tile.bytes k 2 * black / 255 in
      cache op tile image (4 * k)
      ≡ bit_or (bit_or (bit_or (255 * 2 ^ 24) (red * 2 ^ 16)) (green * 2 ^ 8)) blue
cache-complements op tile image k all_bytes h =
    let x : ℕ → ℕ =
      λ c. get (create 0 (4 * k + c) (bits op)) tile.bytes * 255 / (2 ^ bits op - 1) in
    let bytes : (c : ℕ)
        → complement op tile.bytes k c * complement op tile.bytes k 3 / 255 % 256
          ≡ complement op tile.bytes k c * complement op tile.bytes k 3 / 255 =
      λ c. unfold complement in let_through (x c) (x 3) in
    cache-from_complements op tile image k all_bytes h
    ∙ unfold from_complements argb in rw (bytes 0, bytes 1, bytes 2) refl
