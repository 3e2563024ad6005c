-- ===== src/CompressedTile/Telling.antt =====
-- How the threads go on to tell the observers that wait.
use scroom.Common.{◌<◌, ◌≡◌, Bool, true, false, ltb, if◌then◌else◌, List, [], ◌∷◌, arith, refl}
use scroom.CompressedTile.{
  Registration, CompressedTile, get_const_tile_sync, initialize_end, run_job, load_begin, load_data,
  load_end, Step, initializes_end, runs_job, begins, loads, ends, step, run,
}
use scroom.CompressedTile.Waiting.{is_passive, all_cared_for, cared_for-notify, IsValid}

-- All registrations have been told.
abbrev pub all_told : List Registration → Bool
all_told rs = all_cared_for false false rs

-- The steps of one thread that remain until it has told all.
abbrev pub plan : CompressedTile → List Step
plan tile =
    if ltb 0 tile.loaded
    then ends ∷ []
    else if tile.has_const_tile
    then []
    else if ltb 0 tile.begun
    then loads ∷ ends ∷ []
    else if ltb 0 tile.started
    then begins ∷ loads ∷ ends ∷ []
    else if ltb 0 tile.initializing
    then initializes_end ∷ begins ∷ loads ∷ ends ∷ []
    else if ltb 0 tile.scheduled
    then runs_job ∷ begins ∷ loads ∷ ends ∷ []
    else []

from_loaded :
    (tile : CompressedTile) → 0 < tile.loaded → all_told (run (ends ∷ []) tile).registrations ≡ true
unfolding run step load_end
from_loaded tile h = ground (arith, cared_for-notify false false tile.registrations)

Empty : CompressedTile → Type 0
Empty tile = tile.has_const_tile ≡ false

from_begun :
    (tile : CompressedTile)
    → Empty tile
    → 0 < tile.begun
    → all_told (run (loads ∷ ends ∷ []) tile).registrations ≡ true
unfolding run step load_data Empty
from_begun tile e h = from_loaded (load_data tile) (ground (arith, e))

from_started :
    (tile : CompressedTile)
    → Empty tile
    → 0 < tile.started
    → all_told (run (begins ∷ loads ∷ ends ∷ []) tile).registrations ≡ true
unfolding run step load_begin Empty
from_started tile e h = from_begun (load_begin tile) (ground (arith, e)) (ground arith)

from_initializing :
    (tile : CompressedTile)
    → Empty tile
    → 0 < tile.initializing
    → all_told (run (initializes_end ∷ begins ∷ loads ∷ ends ∷ []) tile).registrations ≡ true
unfolding run step initialize_end get_const_tile_sync Empty
from_initializing tile e h =
    from_started (initialize_end tile) (ground (arith, e)) (ground (arith, e))

from_scheduled :
    (tile : CompressedTile)
    → Empty tile
    → 0 < tile.scheduled
    → all_told (run (runs_job ∷ begins ∷ loads ∷ ends ∷ []) tile).registrations ≡ true
unfolding run step run_job Empty
from_scheduled tile e h = from_started (run_job tile) (ground (arith, e)) (ground arith)

run_none : (tile : CompressedTile) → run [] tile ≡ tile
unfolding run
run_none tile = refl

-- In every valid tile that has data to load, the remaining steps of one thread, at most four and
-- with no further request, tell all observers that wait.
pub plan-told :
    (tile : CompressedTile)
    → IsValid tile
    → is_passive tile.state ≡ false
    → all_told (run (plan tile) tile).registrations ≡ true
unfolding Empty
plan-told tile v h =
    let nothing : run [] tile ≡ tile = run_none tile in
    ground (
      arith,
      v,
      nothing,
      from_loaded tile,
      from_begun tile,
      from_started tile,
      from_initializing tile,
      from_scheduled tile,
    )
