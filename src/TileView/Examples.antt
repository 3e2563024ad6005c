-- ===== src/TileView/Examples.antt =====
-- A run of the state machine: a tile arrives, a view asks for it at zoom -2, and the worker thread
-- begins its job and leaves the loop at once. Tiles, operations and caches are numbers here.
use scroom.Common.{ℕ, ◌+◌, ◌≤◌, ◌≡◌, refl, true, false, Option, none, some, List, [], ◌∷◌}
use scroom.Common.Int.{ℤ, negsuc}
use scroom.TileView.{
  State, loaded, done, computing_zoom, View, Worker, pending, looping, leaving, create, kick,
  tile_loaded, set_view_data, set_zoom, get_cache_result, process_round, run_work, Work,
  compute_zoom, Reach, created, next, loads, sets_view_data, sets_zoom, starts, rounds,
}
use scroom.TileView.Stuck.{get_cache_result-none}

abbrev demo_cache : ℕ → Option ℕ → Option ℕ
demo_cache lo none = none
demo_cache lo (some t) = some (lo + t)

abbrev demo_zoom : ℕ → Option ℕ → ℤ → Option ℕ → Option ℕ
demo_zoom lo t z base = base

abbrev shown : List (Worker ℕ ℕ ℕ) → View ℕ ℕ ℕ
shown ws = record {
  state = loaded;
  desired_state = done;
  queue = some 0;
  weak_queue = none;
  tile = some 7;
  tbvd = true;
  lo = some 3;
  zoom = negsuc 1;
  life_time_manager = true;
  base_cache = none;
  zoom_cache = none;
  next_queue = 1;
  workers = ws;
  reported = [];
}

shown-Reach : Reach demo_cache demo_zoom (shown (leaving 0 ∷ []))
unfolding create tile_loaded kick set_zoom set_view_data process_round
shown-Reach =
    next
      (next
        (next (next (next (created refl) (loads 7 refl)) (sets_zoom (some 3) (negsuc 1) refl))
          (sets_view_data refl))
        (starts [] [] 0 refl refl))
      (rounds {w = shown (looping 0 ∷ [])} [] [] 0 (leaving 0) refl refl refl)

get_cache_result-none_example : (get_cache_result (shown (leaving 0 ∷ [])) ≡ none) × (1 ≤ 1)
get_cache_result-none_example = get_cache_result-none demo_cache demo_zoom shown-Reach

-- A state in which a worker computes the zoom cache for queue 5.
abbrev zooming : View ℕ ℕ ℕ
zooming = record (shown []) { state = computing_zoom; weak_queue = some 5; queue = some 5 }

abbrev zoomed : View ℕ ℕ ℕ
zoomed = record zooming { zoom_cache = some 10; state = State.zoom_computed }

abbrev zoom_work : Work ℕ ℕ ℕ
zoom_work = compute_zoom (some 7) (some 3) (some 10) (negsuc 1)

zoom_result : run_work demo_cache demo_zoom 5 zoom_work zooming ≡ some zoomed
unfolding run_work
zoom_result = refl

abbrev cleared : View ℕ ℕ ℕ
cleared = record zooming {
  state = loaded;
  queue = some 1;
  weak_queue = none;
  life_time_manager = false;
  next_queue = 2;
  workers = pending 1 ∷ [];
}
