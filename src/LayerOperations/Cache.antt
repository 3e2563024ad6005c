-- ===== src/LayerOperations/Cache.antt =====
-- The functions `cache` of the classes of libs/tiled-bitmap/src/layeroperations.cc and
-- cmyklayeroperations.cc, which compute the image of a tile for cairo. The image is a function from
-- the position of a pixel in bytes to its 32 bits. The length of a line of the image, which cairo
-- determines, and the colours of a colormap are parameters.
use scroom.Common.{ℕ, zero, suc, ◌+◌, ◌*◌, ◌/◌, ◌%◌, ◌^◌, ◌-◌, ◌==◌, if◌then◌else◌, List, [], ◌∷◌}
use Prim.Native.Nat.{bit_and, bit_or}
use scroom.SampleIterator.{SampleIterator, create, next_sample, get}
use scroom.LayerOperations.{Bytes, TileData}
use scroom.LayerOperations.Indexed.{create_16, get_16, pixel_mask}
pub mod Image
pub mod Inks

abbrev pub ImageData : Type 0
ImageData = ℕ → ℕ

pub set_pixel : ℕ → ℕ → ImageData → ImageData
set_pixel ptr value image p = if p == ptr then value else image p

module _ {S : Type 0} (value : S → ℕ) (next : S → S) where
  -- `for(i...) { *pixel = value; pixel++; ++current; }`
  unfoldable pub fill_row : ℕ → S → ℕ → ImageData → ImageData
  fill_row zero current ptr image = image
  fill_row (suc left) current ptr image =
      fill_row left (next current) (ptr + 4) (set_pixel ptr (value current) image)

  -- `for(j...; row += stride) { current = start(j); ... }`
  unfoldable pub fill_rows : (ℕ → S) → ℕ → ℕ → ℕ → ℕ → ImageData → ImageData
  fill_rows start width stride zero j image = image
  fill_rows start width stride (suc left) j image =
      fill_rows start width stride left (suc j) (fill_row width (start j) (j * stride) image)

pub cache_1bpp : (ℕ → ℕ) → ℕ → TileData → ImageData → ImageData
cache_1bpp colors stride tile =
    fill_rows (λ bit. colors (get bit tile.bytes)) next_sample
      (λ j. create (j * tile.width / 8) 0 1) tile.width stride tile.height 0

-- `mixed v` is the mixture of the colours 0 and 1 for the grey value v.
pub cache_8bpp : (ℕ → ℕ) → ℕ → TileData → ImageData → ImageData
cache_8bpp mixed stride tile =
    fill_rows (λ cur. mixed (tile.bytes cur)) suc (λ j. j * tile.width) tile.width stride
      tile.height 0

-- `A << 24 | R << 16 | G << 8 | B`
pub argb : ℕ → ℕ → ℕ → ℕ
argb r g b = bit_or (bit_or (bit_or (255 * 2 ^ 24) (r * 2 ^ 16)) (g * 2 ^ 8)) b

pub cache_24bpp : ℕ → TileData → ImageData → ImageData
cache_24bpp stride tile =
    fill_rows (λ cur. argb (tile.bytes cur) (tile.bytes (cur + 1)) (tile.bytes (cur + 2)))
      (λ cur. cur + 3) (λ j. 3 * j * tile.width) tile.width stride tile.height 0

-- Operations::cache
pub cache_indexed : ℕ → (ℕ → ℕ) → ℕ → TileData → ImageData → ImageData
cache_indexed bpp colors stride tile =
    fill_rows (λ pixel_in. colors (get pixel_in tile.bytes)) next_sample
      (λ j. create (j * tile.width / (8 / bpp)) 0 bpp) tile.width stride tile.height 0

-- OperationsColormapped::cache; `mixed` is the even mixture of two colours of the colormap. The
-- current position is the start of the line, and an iterator over words from there.
pub cache_colormapped : ℕ → (ℕ → ℕ → ℕ) → ℕ → TileData → ImageData → ImageData
cache_colormapped bpp mixed stride tile =
    fill_rows
      (λ (current : ℕ × SampleIterator).
        let value = get_16 current.0 current.1 tile.bytes in
        mixed (bit_and value (pixel_mask bpp)) (value / 2 ^ bpp))
      (λ current. (current.0, next_sample current.1))
      (λ j. (j * 2 * tile.width / (8 / bpp), create_16 (2 * bpp))) tile.width stride tile.height 0

-- One pixel of the CMYK classes, of the four complements C_i, M_i, Y_i and K_i.
pub from_complements : ℕ → ℕ → ℕ → ℕ → ℕ
from_complements c m y k = argb (c * k / 255 % 256) (m * k / 255 % 256) (y * k / 255 % 256)

pub pixel_cmyk32 : Bytes → ℕ → ℕ
pixel_cmyk32 cur i =
    from_complements ((255 - cur i) % 256) ((255 - cur (i + 1)) % 256) ((255 - cur (i + 2)) % 256)
      ((255 - cur (i + 3)) % 256)

pub pixel_cmyk16 : Bytes → ℕ → ℕ
pixel_cmyk16 cur i =
    from_complements ((255 - cur i / 16 * 17) % 256) ((255 - bit_and (cur i) 15 * 17) % 256)
      ((255 - cur (i + 1) / 16 * 17) % 256) ((255 - bit_and (cur (i + 1)) 15 * 17) % 256)

pub pixel_cmyk8 : Bytes → ℕ → ℕ
pixel_cmyk8 cur i =
    from_complements ((255 - cur i / 64 * 85) % 256) ((255 - bit_and (cur i) 48 / 16 * 85) % 256)
      ((255 - bit_and (cur i) 12 / 4 * 85) % 256) ((255 - bit_and (cur i) 3 * 85) % 256)

-- `static_cast<uint8_t>(v - 1)`
pub one_less : ℕ → ℕ
one_less v = (v + 255) % 256

-- `(i & 1)`, of a number that is not negative, is its remainder by 2.
pub pixel_cmyk4 : Bytes → ℕ → ℕ
pixel_cmyk4 cur i =
    let byte = cur (i / 2) in
    if i % 2 == 0
    then from_complements (one_less (byte / 128)) (one_less (bit_and byte 64 / 64))
        (one_less (bit_and byte 32 / 32)) (one_less (bit_and byte 16 / 16))
    else from_complements (one_less (bit_and byte 8 / 8)) (one_less (bit_and byte 4 / 4))
        (one_less (bit_and byte 2 / 2)) (one_less (bit_and byte 1))

-- The single loop over all pixels; `step` is the step of i, and row[i / step] is written.
pub fill_all : (ℕ → ℕ) → ℕ → ℕ → ℕ → ImageData → ImageData
fill_all pixel step zero i image = image
fill_all pixel step (suc left) i image =
    fill_all pixel step left (i + step) (set_pixel (4 * (i / step)) (pixel i) image)

pub cache_cmyk32 : TileData → ImageData → ImageData
cache_cmyk32 tile = fill_all (pixel_cmyk32 tile.bytes) 4 (tile.height * tile.width) 0

pub cache_cmyk16 : TileData → ImageData → ImageData
cache_cmyk16 tile = fill_all (pixel_cmyk16 tile.bytes) 2 (tile.height * tile.width) 0

pub cache_cmyk8 : TileData → ImageData → ImageData
cache_cmyk8 tile = fill_all (pixel_cmyk8 tile.bytes) 1 (tile.height * tile.width) 0

pub cache_cmyk4 : TileData → ImageData → ImageData
cache_cmyk4 tile = fill_all (pixel_cmyk4 tile.bytes) 1 (tile.height * tile.width) 0
