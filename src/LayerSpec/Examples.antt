-- ===== src/LayerSpec/Examples.antt =====
-- A CMYK bitmap of four bits per sample, and a function that is registered on top.
use scroom.Common.{ℕ, ◌*◌, ◌≡◌, refl, true, none}
use scroom.LayerSpec.{cmyk, built_in, is_sample_size, get, BitmapMetaData}
use scroom.LayerSpec.Chain.{answer, get-built_in}

abbrev helper : ℕ
helper = 0

abbrev bitmap : BitmapMetaData ℕ
bitmap = record {
  bitmap_type = cmyk;
  samples_per_pixel = 4;
  bits_per_sample = 4;
  colormap_helper = none;
}

get-built_in_example : answer (4 * 4) (get (built_in helper) bitmap) ≡ true
unfolding is_sample_size
get-built_in_example = get-built_in helper cmyk 4 4 none refl
