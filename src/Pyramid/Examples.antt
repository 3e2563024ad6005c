-- ===== src/Pyramid/Examples.antt =====
-- A bitmap of 40000 by 9000 pixels.
use scroom.Common.{suc, max, ◌≡◌, some, List, ◌∷◌}
use scroom.Layer.{Layer, tile_count, create}
use scroom.Pyramid.{shrink, initialize, connect}
use scroom.Pyramid.Levels.{IsPyramid, initialize-IsPyramid}
use scroom.Pyramid.Connections.{all_sources, connect-all_sources}

initialize-IsPyramid_example :
    (ls : List Layer) × (initialize (suc (max 40000 9000)) 40000 9000
      ≡ some (create 0 40000 9000 ∷ ls))
    × IsPyramid (create 0 40000 9000) ls
initialize-IsPyramid_example = initialize-IsPyramid 40000 9000

connect-all_sources_example :
    connect (create 1 (shrink 40000) (shrink 9000)) (create 0 40000 9000)
    ≡ some (all_sources (tile_count 40000) 0 (tile_count 9000))
connect-all_sources_example = connect-all_sources 0 40000 9000
