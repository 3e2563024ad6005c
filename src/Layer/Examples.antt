-- ===== src/Layer/Examples.antt =====
-- A layer of 3 by 2 tiles.
use scroom.Common.{suc, ◌≡◌, refl, some, List}
use scroom.Common.Int.{pos}
use scroom.Layer.{
  tile, tilesize, tile_count, create, get_tile, Fill, fetch_data, fill_row, next_row, hand_over,
}
use scroom.Layer.Fetch.{Covers, fetch_data-Covers}

get_tile_test : get_tile (create 0 9000 5000) (pos 2) (pos 1) ≡ some (tile 2 1)
unfolding get_tile create tile_count scroom.Layer.tile_lines scroom.Layer.tile_line
get_tile_test = refl

fetch_data-Covers_example :
    (fills : List Fill) × (fetch_data (suc (tile_count 5000)) (create 0 9000 5000) 0 ≡ some fills)
    × Covers 0 5000 fills
fetch_data-Covers_example = fetch_data-Covers 0 9000 5000
