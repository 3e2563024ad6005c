-- ===== src/Pipette/Examples.antt =====
-- An area that lies in two tiles.
use scroom.Common.{ℕ, ◌+◌, ◌%◌, ◌≡◌, refl, arith, get_or, inr}
use scroom.LayerOperations.{TileData}
use scroom.Layer.{tilesize}
use scroom.Pipette.{Area, Quotient, get_pixel_averages}
use scroom.Pipette.Tiles.{sum_from}
use scroom.Pipette.Averages.{pixel_sample, get_pixel_averages-all}

abbrev layer : ℕ → ℕ → TileData
layer x y = record { width = tilesize; height = tilesize; bytes = λ p. (p + x + y) % 256 }

abbrev area : Area
area = record { left = 4000; top = 10; right = 5000; bottom = 20 }

get_pixel_averages-all_example :
    let nought : Quotient = record { dividend = 0; divisor = 10000 } in
    let average = get_or (get_pixel_averages 4 8 layer area) 2 nought in
    (average.dividend
      ≡ sum_from 10 10 (λ Y. sum_from 4000 1000 (λ X. pixel_sample 4 8 2 layer X Y)))
    × (average.divisor ≡ 10000)
get_pixel_averages-all_example =
    get_pixel_averages-all 4 8 2 layer area (inr (inr (inr refl))) (omega arith) (λ x y. refl)
      (λ x y. refl) (omega arith) (omega arith)
