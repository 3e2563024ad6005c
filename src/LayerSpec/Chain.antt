-- ===== src/LayerSpec/Chain.antt =====
-- The layers of a bitmap fit together, and functions that are registered later come first.
use scroom.Common.{
  ℕ, ◌*◌, ◌≡◌, Bool, true, false, not, ◌&&◌, ◌==◌, if◌then◌else◌, Option, none, some, List, [], ◌∷◌,
  ◌++◌, arith, refl, ap,
}
use scroom.LayerSpec.{
  BitmapType, rgb, cmyk, greyscale, colormapped, other, LayerOperations, get_bpp, target_bpp,
  BitmapMetaData, LayerSpecResult, LayerSpecForBitmapFunc, no_result, is_some, rgb_bitmap,
  cmyk_bitmap, is_sample_size, greyscale_spec, greyscale_bitmap, colormapped_spec,
  colormapped_bitmap, built_in, register_function, is_empty, get_loop, reversed, get,
}

-- What the four functions accept.
abbrev pub is_supported : {H : Type 0} → BitmapType → ℕ → ℕ → Option H → Bool
is_supported rgb samples bits h = (samples == 3) && ((bits == 8) && not (is_some h))
is_supported cmyk samples bits h = (samples == 4) && (is_sample_size bits && not (is_some h))
is_supported greyscale samples bits h = (samples == 1) && is_sample_size bits
is_supported colormapped samples bits h = (samples == 1) && (is_sample_size bits && is_some h)
is_supported other samples bits h = false

-- Every layer is stored with the number of bits per pixel that `reduce` of the layer below writes;
-- above the last one of the list, that one is used again.
abbrev pub fits_from : {H : Type 0} → LayerOperations H → List (LayerOperations H) → Bool
fits_from op [] = target_bpp op == get_bpp op
fits_from op (next ∷ ops) = (target_bpp op == get_bpp next) && fits_from next ops

-- And the bottom is stored with `bpp` bits per pixel.
abbrev pub fits : {H : Type 0} → ℕ → List (LayerOperations H) → Bool
fits bpp [] = false
fits bpp (op ∷ ops) = (get_bpp op == bpp) && fits_from op ops

abbrev pub answer : {H : Type 0} → ℕ → Option (LayerSpecResult H) → Bool
answer bpp none = false
answer bpp (some result) = fits bpp result.layer_spec

-- For every bitmap that the four built-in functions accept, no assertion fails, and the layers fit
-- together: the bottom is stored with the bits of all samples of a pixel, and every layer above
-- with as many bits per pixel as `reduce` of the layer below it writes.
pub get-built_in :
    {H : Type 0} (made : H) (t : BitmapType) (samples bits : ℕ) (h : Option H)
    → is_supported t samples bits h ≡ true
    → answer (samples * bits) (
        get (built_in made) (record {
          bitmap_type = t;
          samples_per_pixel = samples;
          bits_per_sample = bits;
          colormap_helper = h;
        }))
      ≡ true
unfolding get reversed get_loop rgb_bitmap cmyk_bitmap greyscale_bitmap colormapped_bitmap
    colormapped_spec greyscale_spec is_sample_size get_bpp target_bpp
get-built_in made rgb samples bits h s = ground (arith, s)
get-built_in made cmyk samples bits h s = ground (arith, s)
get-built_in made greyscale samples bits h s = ground (arith, s)
get-built_in made colormapped samples bits none s = ground (arith, s)
get-built_in made colormapped samples bits (some h) s = ground (arith, s)
get-built_in made other samples bits h s = ground (arith, s)

module _ {H : Type 0} where
  reversed-register_function :
      (f : LayerSpecForBitmapFunc H) (functions : List (LayerSpecForBitmapFunc H))
      → reversed (register_function f functions) ≡ f ∷ reversed functions
  unfolding reversed register_function
  reversed-register_function f [] = refl
  reversed-register_function f (g ∷ functions) =
      ap (λ l. l ++ g ∷ []) (reversed-register_function f functions)

  -- The result of one function, and of the others when it names no layers.
  abbrev pub or_else :
      Option (LayerSpecResult H) → Option (LayerSpecResult H) → Option (LayerSpecResult H)
  or_else none others = none
  or_else (some result) others = if is_empty result.layer_spec then others else some result

  get_loop-result :
      (f : LayerSpecForBitmapFunc H) (functions : List (LayerSpecForBitmapFunc H))
      (bmd : BitmapMetaData H) (result : LayerSpecResult H)
      → get_loop (functions ++ f ∷ []) bmd result
        ≡ or_else (some result) (get_loop (functions ++ f ∷ []) bmd no_result)
  unfolding get_loop
  get_loop-result f [] bmd result = ground arith
  get_loop-result f (g ∷ functions) bmd result = ground arith

  continue-or_else :
      (f : LayerSpecForBitmapFunc H) (functions : List (LayerSpecForBitmapFunc H))
      (bmd : BitmapMetaData H) (answered : Option (LayerSpecResult H))
      → elim answered [ none ↦ none | some result ↦ get_loop (functions ++ f ∷ []) bmd result ]
        ≡ or_else answered (get_loop (functions ++ f ∷ []) bmd no_result)
  continue-or_else f functions bmd none = refl
  continue-or_else f functions bmd (some result) = get_loop-result f functions bmd result

-- A function that is registered later comes first: if its assertions fail, that is the result; if
-- it names layers, these are; otherwise the functions that were registered before are asked.
pub get-register_function :
    {H : Type 0} (f first : LayerSpecForBitmapFunc H) (functions : List (LayerSpecForBitmapFunc H))
    (bmd : BitmapMetaData H)
    → get (register_function f (first ∷ functions)) bmd
      ≡ or_else (f bmd) (get (first ∷ functions) bmd)
unfolding get get_loop reversed
get-register_function f first functions bmd =
    rw (reversed-register_function f (first ∷ functions))
      (continue-or_else first (reversed functions) bmd (f bmd))
