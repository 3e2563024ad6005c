-- ===== src/LayerSpec.antt =====
-- libs/tiled-bitmap/src/layerspecforbitmap.cc: which layer operations show a bitmap, layer by layer.
-- Colormap helpers are a type parameter, with one that MonochromeColormapHelper::create(2) makes.
-- A result `none` is a failed `require`.
use scroom.Common.{
  ℕ, ◌*◌, ◌/◌, Bool, true, false, not, ◌&&◌, ◌||◌, ◌==◌, if◌then◌else◌, Option, none, some, List,
  [], ◌∷◌, ◌++◌,
}
pub mod Chain
mod Examples

pub data BitmapType : Type 0 where
  rgb cmyk greyscale colormapped other : BitmapType

pub data LayerOperations (H : Type 0) : Type 0 where
  operations_1bpp operations_8bpp : H → LayerOperations H
  operations_24bpp : LayerOperations H
  operations operations_colormapped : H → ℕ → LayerOperations H
  operations_cmyk32 operations_cmyk16 operations_cmyk8 operations_cmyk4 : LayerOperations H

-- The functions getBpp
abbrev pub bpp_1bpp : ℕ
bpp_1bpp = 1

abbrev pub bpp_8bpp : ℕ
bpp_8bpp = 8

abbrev pub bpp_24bpp : ℕ
bpp_24bpp = 24

abbrev pub bpp_indexed : ℕ → ℕ
bpp_indexed bpp = bpp

abbrev pub bpp_colormapped : ℕ → ℕ
bpp_colormapped bpp = 2 * bpp

abbrev pub bpp_cmyk32 : ℕ
bpp_cmyk32 = 32

abbrev pub bpp_cmyk16 : ℕ
bpp_cmyk16 = 16

abbrev pub bpp_cmyk8 : ℕ
bpp_cmyk8 = 8

abbrev pub bpp_cmyk4 : ℕ
bpp_cmyk4 = 4

-- Bits per pixel of the target of `reduce`, from `targetStride`
abbrev pub target_bpp_1bpp : ℕ
target_bpp_1bpp = 8

abbrev pub target_bpp_8bpp : ℕ
target_bpp_8bpp = 8

abbrev pub target_bpp_24bpp : ℕ
target_bpp_24bpp = 3 * 8

abbrev pub target_bpp_indexed : ℕ → ℕ
target_bpp_indexed bpp = 2 * bpp

abbrev pub target_bpp_colormapped : ℕ → ℕ
target_bpp_colormapped bpp = 2 * bpp

abbrev pub target_bpp_cmyk32 : ℕ
target_bpp_cmyk32 = 8 * 8 / 2

abbrev pub target_bpp_cmyk16 : ℕ
target_bpp_cmyk16 = 8 * 8 / 2

abbrev pub target_bpp_cmyk8 : ℕ
target_bpp_cmyk8 = 8 * 8 / 2

abbrev pub target_bpp_cmyk4 : ℕ
target_bpp_cmyk4 = 8 * 8 / 2

module _ {H : Type 0} where
  pub get_bpp : LayerOperations H → ℕ
  get_bpp (operations_1bpp h) = bpp_1bpp
  get_bpp (operations_8bpp h) = bpp_8bpp
  get_bpp operations_24bpp = bpp_24bpp
  get_bpp (operations h bpp) = bpp_indexed bpp
  get_bpp (operations_colormapped h bpp) = bpp_colormapped bpp
  get_bpp operations_cmyk32 = bpp_cmyk32
  get_bpp operations_cmyk16 = bpp_cmyk16
  get_bpp operations_cmyk8 = bpp_cmyk8
  get_bpp operations_cmyk4 = bpp_cmyk4

  pub target_bpp : LayerOperations H → ℕ
  target_bpp (operations_1bpp h) = target_bpp_1bpp
  target_bpp (operations_8bpp h) = target_bpp_8bpp
  target_bpp operations_24bpp = target_bpp_24bpp
  target_bpp (operations h bpp) = target_bpp_indexed bpp
  target_bpp (operations_colormapped h bpp) = target_bpp_colormapped bpp
  target_bpp operations_cmyk32 = target_bpp_cmyk32
  target_bpp operations_cmyk16 = target_bpp_cmyk16
  target_bpp operations_cmyk8 = target_bpp_cmyk8
  target_bpp operations_cmyk4 = target_bpp_cmyk4

pub record BitmapMetaData (H : Type 0) : Type 0 where
  pub bitmap_type : BitmapType
  pub samples_per_pixel : ℕ
  pub bits_per_sample : ℕ
  pub colormap_helper : Option H

pub record LayerSpecResult (H : Type 0) : Type 0 where
  pub layer_spec : List (LayerOperations H)
  pub helper : Option H

abbrev pub LayerSpecForBitmapFunc : Type 0 → Type 0
LayerSpecForBitmapFunc H = BitmapMetaData H → Option (LayerSpecResult H)

-- 1, 2, 4 or 8
pub is_sample_size : ℕ → Bool
is_sample_size bits = (bits == 1) || ((bits == 2) || ((bits == 4) || (bits == 8)))

module _ {H : Type 0} where
  abbrev pub no_result : LayerSpecResult H
  no_result = record { layer_spec = []; helper = none }

  abbrev pub is_some : Option H → Bool
  is_some none = false
  is_some (some h) = true

  pub rgb_bitmap : LayerSpecForBitmapFunc H
  rgb_bitmap bmd = elim bmd.bitmap_type [
    | rgb ↦
        if (bmd.samples_per_pixel == 3) && not (is_some bmd.colormap_helper)
        then if bmd.bits_per_sample == 8
          then some (record { layer_spec = operations_24bpp ∷ []; helper = none })
          else some no_result
        else none
    | _ ↦ some no_result
  ]

  pub cmyk_bitmap : LayerSpecForBitmapFunc H
  cmyk_bitmap bmd = elim bmd.bitmap_type [
    | cmyk ↦
        if (bmd.samples_per_pixel == 4) && not (is_some bmd.colormap_helper)
        then if bmd.bits_per_sample == 8
          then some (record { layer_spec = operations_cmyk32 ∷ []; helper = none })
          else if bmd.bits_per_sample == 4
          then some
              (record { layer_spec = operations_cmyk16 ∷ operations_cmyk32 ∷ []; helper = none })
          else if bmd.bits_per_sample == 2
          then some
              (record { layer_spec = operations_cmyk8 ∷ operations_cmyk32 ∷ []; helper = none })
          else if bmd.bits_per_sample == 1
          then some
              (record { layer_spec = operations_cmyk4 ∷ operations_cmyk32 ∷ []; helper = none })
          else some no_result
        else none
    | _ ↦ some no_result
  ]

  abbrev pub helper_or : H → Option H → H
  helper_or made none = made
  helper_or made (some h) = h

  pub greyscale_spec : H → ℕ → List (LayerOperations H)
  greyscale_spec h bits =
      if (bits == 2) || (bits == 4)
      then operations h bits ∷ operations_colormapped h bits ∷ []
      else if bits == 1
      then operations_1bpp h ∷ operations_8bpp h ∷ []
      else operations_8bpp h ∷ []

  -- `made` is the result of MonochromeColormapHelper::create(2).
  pub greyscale_bitmap : H → LayerSpecForBitmapFunc H
  greyscale_bitmap made bmd = elim bmd.bitmap_type [
    | greyscale ↦
        if bmd.samples_per_pixel == 1
        then if is_sample_size bmd.bits_per_sample
          then some (record {
            layer_spec = greyscale_spec (helper_or made bmd.colormap_helper) bmd.bits_per_sample;
            helper = some (helper_or made bmd.colormap_helper);
          })
          else some no_result
        else none
    | _ ↦ some no_result
  ]

  pub colormapped_spec : Option H → ℕ → Option (LayerSpecResult H)
  colormapped_spec none bits = none
  colormapped_spec (some h) bits =
      if is_sample_size bits
      then some (record {
        layer_spec = operations h bits ∷ operations_colormapped h bits ∷ [];
        helper = some h;
      })
      else some no_result

  pub colormapped_bitmap : LayerSpecForBitmapFunc H
  colormapped_bitmap bmd = elim bmd.bitmap_type [
    | colormapped ↦
        if bmd.samples_per_pixel == 1
        then colormapped_spec bmd.colormap_helper bmd.bits_per_sample
        else none
    | _ ↦ some no_result
  ]

  -- The functions of a new LayerSpecForBitmapper.
  abbrev pub built_in : H → List (LayerSpecForBitmapFunc H)
  built_in made = rgb_bitmap ∷ cmyk_bitmap ∷ greyscale_bitmap made ∷ colormapped_bitmap ∷ []

  pub register_function :
      LayerSpecForBitmapFunc H → List (LayerSpecForBitmapFunc H) → List (LayerSpecForBitmapFunc H)
  register_function f functions = functions ++ f ∷ []

  abbrev pub is_empty : List (LayerOperations H) → Bool
  is_empty [] = true
  is_empty (op ∷ ops) = false

  -- The loop of `get`, over the functions in the order in which it takes them.
  pub get_loop :
      List (LayerSpecForBitmapFunc H)
      → BitmapMetaData H
      → LayerSpecResult H
      → Option (LayerSpecResult H)
  get_loop [] bmd ls = some ls
  get_loop (f ∷ functions) bmd ls =
      if is_empty ls.layer_spec
      then elim (f bmd) [ none ↦ none | some result ↦ get_loop functions bmd result ]
      else some ls

  pub reversed : List (LayerSpecForBitmapFunc H) → List (LayerSpecForBitmapFunc H)
  reversed [] = []
  reversed (f ∷ functions) = reversed functions ++ f ∷ []

  pub get : List (LayerSpecForBitmapFunc H) → BitmapMetaData H → Option (LayerSpecResult H)
  get functions bmd = get_loop (reversed functions) bmd no_result
