-- ===== src/CompressedTile.antt =====
-- libs/tiled-bitmap/src/compressedtile.cc: how a CompressedTile loads its data and tells the
-- observers that wait for it. Several threads may be in `do_load`; they have no state of their own
-- but the place where they are, so that the model counts them. A weak pointer is a flag that says
-- whether the object still exists. `observerAdded` is two steps: it reads two weak pointers, and then it
-- takes the lock. What it read it keeps alive meanwhile; the model lets that go, which `up_to_date` tells.
use scroom.Common.{
  ℕ, zero, suc, ◌+◌, ◌-◌, Bool, true, false, not, ◌&&◌, ◌||◌, ◌==◌, ltb, if◌then◌else◌, Option,
  none, some, List, [], ◌∷◌,
}
pub mod Waiting
pub mod Telling
mod Examples

pub data TileStateInternal : Type 0 where
  uninitialized out_of_bounds normal loading_synchronously loading_asynchronously :
      TileStateInternal

-- A registered TileLoadingObserver, by number: whether `tileLoaded` was called, and whether its
-- token holds the queue.
pub record Registration : Type 0 where
  pub observer : ℕ
  pub told : Bool
  pub holds_queue : Bool

-- What a thread in observerAdded has read: whether the data is there, and whether the queue exists.
pub record Read : Type 0 where
  pub observer : ℕ
  pub result : Bool
  pub queue : Bool

-- `has_const_tile`: constTile is not expired. `scheduled`: jobs that wait in the queue. The
-- others are numbers of threads: in `initialize`, before they call getTileSync; in `do_load` before
-- its first critical section, after the first, and after the second with didLoad or without.
pub record CompressedTile : Type 0 where
  pub state : TileStateInternal
  pub has_const_tile : Bool
  pub scheduled : ℕ
  pub registrations : List Registration
  pub reading : List Read
  pub initializing : ℕ
  pub started : ℕ
  pub begun : ℕ
  pub loaded : ℕ
  pub found : ℕ

pub create : TileStateInternal → CompressedTile
create state = record {
  state = state;
  has_const_tile = false;
  scheduled = 0;
  registrations = [];
  reading = [];
  initializing = 0;
  started = 0;
  begun = 0;
  loaded = 0;
  found = 0;
}

-- The queue exists as long as a token holds it.
pub any_holds : List Registration → Bool
any_holds [] = false
any_holds (r ∷ rs) = r.holds_queue || any_holds rs

-- `state == TSI_LOADING_ASYNCHRONOUSLY && !queue.lock()`
pub cleanup_state : Bool → TileStateInternal → TileStateInternal
cleanup_state queue loading_asynchronously = if queue then loading_asynchronously else normal
cleanup_state queue state = state

-- The `switch` of observerAdded when there is no data: whether to start an asynchronous load.
pub starts_load : TileStateInternal → Bool
starts_load normal = true
starts_load _ = false

-- observerAdded from the lock on, with what was read before.
pub observer_added : Bool → Bool → ℕ → CompressedTile → CompressedTile
observer_added result queue o tile =
    if result
    then record tile {
      registrations =
          record { observer = o; told = true; holds_queue = queue } ∷ tile.registrations;
    }
    else let state = cleanup_state (any_holds tile.registrations) tile.state in
      if starts_load state
      then record tile {
        state = loading_asynchronously;
        scheduled = suc tile.scheduled;
        registrations =
            record { observer = o; told = false; holds_queue = true } ∷ tile.registrations;
      }
      else record tile {
        state = state;
        registrations =
            record { observer = o; told = false; holds_queue = queue } ∷ tile.registrations;
      }

pub start_observing : ℕ → CompressedTile → CompressedTile
start_observing o tile = record tile {
  reading =
      record { observer = o; result = tile.has_const_tile; queue = any_holds tile.registrations }
      ∷ tile.reading;
}

pub find_read : ℕ → List Read → Option Read
find_read o [] = none
find_read o (r ∷ rs) = if r.observer == o then some r else find_read o rs

pub drop_read : ℕ → List Read → List Read
drop_read o [] = []
drop_read o (r ∷ rs) = if r.observer == o then rs else r ∷ drop_read o rs

pub add_read : Option Read → ℕ → CompressedTile → CompressedTile
add_read none o tile = tile
add_read (some r) o tile =
    observer_added r.result r.queue o (record tile { reading = drop_read o tile.reading })

pub finish_observing : ℕ → CompressedTile → CompressedTile
finish_observing o tile = add_read (find_read o tile.reading) o tile

pub without : ℕ → List Registration → List Registration
without o [] = []
without o (r ∷ rs) = let rest = without o rs in if r.observer == o then rest else r ∷ rest

-- The token of an observer is deleted. When that was the last one that held the queue, the queue
-- is deleted, and with it the jobs that wait in it.
pub unregister_observer : ℕ → CompressedTile → CompressedTile
unregister_observer o tile =
    let rest = without o tile.registrations in
    record tile { registrations = rest; scheduled = if any_holds rest then tile.scheduled else 0 }

pub notify_observers : List Registration → List Registration
notify_observers [] = []
notify_observers (r ∷ rs) = record r { told = true } ∷ notify_observers rs

-- The critical section of `initialize`.
pub initialize : CompressedTile → CompressedTile
initialize tile = elim tile.state [
  | uninitialized ↦ record tile { state = normal; initializing = suc tile.initializing }
  | _ ↦ tile
]

-- getConstTileSync up to the call of do_load, if it comes to that.
pub get_const_tile_sync : CompressedTile → CompressedTile
get_const_tile_sync tile =
    if tile.has_const_tile then tile else record tile { started = suc tile.started }

-- `initialize` goes on with getTileSync, which calls getConstTileSync.
pub initialize_end : CompressedTile → CompressedTile
initialize_end tile =
    if ltb 0 tile.initializing
    then get_const_tile_sync (record tile { initializing = tile.initializing - 1 })
    else tile

-- The thread pool starts a job of the queue.
pub run_job : CompressedTile → CompressedTile
run_job tile =
    if ltb 0 tile.scheduled
    then record tile { scheduled = tile.scheduled - 1; started = suc tile.started }
    else tile

-- The three critical sections of do_load. The first and the last assign the state just after they
-- call cleanupState, which changes nothing else.
pub load_begin : CompressedTile → CompressedTile
load_begin tile =
    if ltb 0 tile.started
    then record tile {
      state = loading_synchronously;
      started = tile.started - 1;
      begun = suc tile.begun;
    }
    else tile

pub load_data : CompressedTile → CompressedTile
load_data tile =
    if ltb 0 tile.begun
    then if tile.has_const_tile
      then record tile { begun = tile.begun - 1; found = suc tile.found }
      else record tile { has_const_tile = true; begun = tile.begun - 1; loaded = suc tile.loaded }
    else tile

-- The last section, with didLoad.
pub load_end : CompressedTile → CompressedTile
load_end tile =
    if ltb 0 tile.loaded
    then record tile {
      state = normal;
      loaded = tile.loaded - 1;
      registrations = notify_observers tile.registrations;
    }
    else tile

-- The last section, without didLoad.
pub load_end_found : CompressedTile → CompressedTile
load_end_found tile =
    if ltb 0 tile.found then record tile { state = normal; found = tile.found - 1 } else tile

-- The last pointer to the data is gone. A thread that is about to leave do_load has one.
pub expire : CompressedTile → CompressedTile
expire tile =
    if ltb 0 (tile.loaded + tile.found) then tile else record tile { has_const_tile = false }

pub data Step : Type 0 where
  reads adds unregister : ℕ → Step
  initializes gets_const_tile initializes_end : Step
  runs_job begins loads ends ends_found expires : Step

pub step : Step → CompressedTile → CompressedTile
step (reads o) tile = start_observing o tile
step (adds o) tile = finish_observing o tile
step (unregister o) tile = unregister_observer o tile
step initializes tile = initialize tile
step gets_const_tile tile = get_const_tile_sync tile
step initializes_end tile = initialize_end tile
step runs_job tile = run_job tile
step begins tile = load_begin tile
step loads tile = load_data tile
step ends tile = load_end tile
step ends_found tile = load_end_found tile
step expires tile = expire tile

pub run : List Step → CompressedTile → CompressedTile
run [] tile = tile
run (s ∷ ss) tile = run ss (step s tile)
