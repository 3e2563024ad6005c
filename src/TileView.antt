-- ===== src/TileView.antt =====
-- libs/tiled-bitmap/src/tileviewstate.cc and tileviewstate.hh: the asynchronous state machine
-- that caches one tile for one view. The layer operations that compute caches are virtual
-- functions, here parameters. A ThreadPool::Queue is a number, and its WeakQueue the same number;
-- a null pointer is `none`. Every member function runs under the mutex, so it is one step; a
-- worker thread that runs `process` gives the mutex up between its steps.
use scroom.Common.{
  ℕ, suc, ◌≡◌, Bool, true, false, not, ◌&&◌, ◌||◌, ltb, leb, ◌==◌, if◌then◌else◌, Option, none,
  some, List, [], ◌∷◌, ◌++◌,
}
use scroom.Common.Int.{ℤ, pos, eqb_ℤ}
pub mod Stuck
mod Examples

pub data State : Type 0 where
  init loaded computing_base base_computed computing_zoom zoom_computed done : State

-- The order of the enumeration.
abbrev pub rank : State → ℕ
rank init = 0
rank loaded = 1
rank computing_base = 2
rank base_computed = 3
rank computing_zoom = 4
rank zoom_computed = 5
rank done = 6

abbrev pub is_some {ℓ} : {A : Type ℓ} → Option A → Bool
is_some none = false
is_some (some a) = true

abbrev pub same : Option ℕ → Option ℕ → Bool
same none none = true
same none (some b) = false
same (some a) none = false
same (some a) (some b) = a == b

module _ (Tile Ops Cache : Type 0) where
  -- What one call of the functor that `process` builds will do.
  pub data Work : Type 0 where
    compute_base : Option Tile → Option Ops → Work
    compute_zoom : Option Tile → Option Ops → Option Cache → ℤ → Work
    report_done : Option Tile → Work

  -- A worker thread in `process(wq)`: before its turn in the pool, at the head of the loop, inside
  -- the functor, or behind the loop.
  pub data Worker : Type 0 where
    pending looping leaving : ℕ → Worker
    working : ℕ → Work → Worker

  pub record View : Type 0 where
    pub state : State
    pub desired_state : State
    pub queue : Option ℕ
    pub weak_queue : Option ℕ
    pub tile : Option Tile
    pub tbvd : Bool
    pub lo : Option Ops
    pub zoom : ℤ
    pub life_time_manager : Bool
    pub base_cache : Option Cache
    pub zoom_cache : Option Cache
    pub next_queue : ℕ
    pub workers : List Worker
    pub reported : List (Option Tile)

module _ {Tile Ops Cache : Type 0} where
  -- TileViewState::create
  pub create : View Tile Ops Cache
  create = record {
    state = init;
    desired_state = loaded;
    queue = none;
    weak_queue = none;
    tile = none;
    tbvd = false;
    lo = none;
    zoom = pos 0;
    life_time_manager = false;
    base_cache = none;
    zoom_cache = none;
    next_queue = 0;
    workers = [];
    reported = [];
  }

  -- A new queue, whose weak pointer goes to the scheduled job. `none` is the defect message.
  pub kick : View Tile Ops Cache → Option (View Tile Ops Cache)
  kick v =
      if leb (rank loaded) (rank v.state) && not (is_some v.tile)
      then none
      else if leb (rank loaded) (rank v.state)
          && (leb (rank v.state) (rank v.desired_state) && (not (is_some v.queue) && v.tbvd))
      then some (record v {
        queue = some v.next_queue;
        next_queue = suc v.next_queue;
        workers = v.workers ++ pending v.next_queue ∷ [];
      })
      else some v

  pub tile_loaded : Tile → View Tile Ops Cache → Option (View Tile Ops Cache)
  tile_loaded t v =
      if ltb (rank loaded) (rank v.state)
      then kick (record v {
        tile = some t;
        queue = none;
        weak_queue = none;
        zoom_cache = none;
        state = loaded;
      })
      else kick (record v { tile = some t; state = loaded })

  pub get_cache_result : View Tile Ops Cache → Option Cache
  get_cache_result v = v.zoom_cache

  -- The view data are alive while the call runs, and keep the lifetime manager.
  pub set_view_data : View Tile Ops Cache → Option (View Tile Ops Cache)
  set_view_data v = kick (record v { tbvd = true; life_time_manager = true })

  pub set_zoom : Option Ops → ℤ → View Tile Ops Cache → Option (View Tile Ops Cache)
  set_zoom lo zoom v =
      if not (rank v.desired_state == rank done) || not (eqb_ℤ zoom v.zoom)
      then if leb (rank base_computed) (rank v.state)
        then kick (record v {
          zoom = zoom;
          lo = lo;
          desired_state = done;
          queue = none;
          weak_queue = none;
          zoom_cache = none;
          state = base_computed;
        })
        else kick (record v { zoom = zoom; lo = lo; desired_state = done })
      else some v

  -- The deleter of the lifetime manager.
  pub clear : View Tile Ops Cache → Option (View Tile Ops Cache)
  clear v = kick (record v {
    state = if leb (rank loaded) (rank v.state) then loaded else v.state;
    queue = none;
    weak_queue = none;
    life_time_manager = false;
    base_cache = none;
    zoom_cache = none;
  })

  -- The last reference to the view data is gone.
  pub expire_view_data : View Tile Ops Cache → View Tile Ops Cache
  expire_view_data v = record v { tbvd = false }

  -- The switch in `process`: the new state and the functor. `none` is the defect message.
  pub next_work : View Tile Ops Cache → Option (State × Work Tile Ops Cache)
  next_work v = elim v.state [
    | loaded ↦ some (computing_base, compute_base v.tile v.lo)
    | base_computed ↦ some (computing_zoom, compute_zoom v.tile v.lo v.base_cache v.zoom)
    | zoom_computed ↦ some (done, report_done v.tile)
    | _ ↦ none
  ]

  -- One round of the loop in `process(wq)` up to the call of the functor, or out of the loop.
  pub process_round : ℕ → View Tile Ops Cache → Option (View Tile Ops Cache × Worker Tile Ops Cache)
  process_round wq v =
      if same (some wq) v.weak_queue && ltb (rank v.state) (rank v.desired_state)
      then elim (next_work v) [
        | none ↦ none
        | some (s, work) ↦ some (record v { state = s }, working wq work)
      ]
      else some (v, leaving wq)

  -- The end of `process(wq)`.
  pub process_end : ℕ → View Tile Ops Cache → View Tile Ops Cache
  process_end wq v =
      if same (some wq) v.weak_queue then record v { queue = none; weak_queue = none } else v

  module _ (cache : Ops → Option Tile → Option Cache)
      (cache_zoom : Ops → Option Tile → ℤ → Option Cache → Option Cache) where
    -- The functors. `none` is a call through a null pointer.
    pub run_work : ℕ → Work Tile Ops Cache → View Tile Ops Cache → Option (View Tile Ops Cache)
    run_work wq (compute_base t none) v = none
    run_work wq (compute_base t (some lo)) v = some (
        if v.tbvd
          && (leb (rank base_computed) (rank v.desired_state) && same v.weak_queue (some wq))
        then record v { base_cache = cache lo t; state = base_computed }
        else v)
    run_work wq (compute_zoom t none base z) v = none
    run_work wq (compute_zoom t (some lo) base z) v = some (
        if v.tbvd
          && (leb (rank zoom_computed) (rank v.desired_state)
              && (eqb_ℤ v.zoom z && same v.weak_queue (some wq)))
        then record v { zoom_cache = cache_zoom lo t z base; state = zoom_computed }
        else v)
    run_work wq (report_done t) v = some (record v { reported = v.reported ++ t ∷ [] })

    -- The worker threads beside the calls from outside. The pool drops a job whose queue is gone.
    pub data Step : View Tile Ops Cache → View Tile Ops Cache → Type 0 where
      loads : {v w : View Tile Ops Cache} (t : Tile) → tile_loaded t v ≡ some w → Step v w
      sets_view_data : {v w : View Tile Ops Cache} → set_view_data v ≡ some w → Step v w
      sets_zoom :
          {v w : View Tile Ops Cache} (lo : Option Ops) (z : ℤ)
          → set_zoom lo z v ≡ some w
          → Step v w
      clears : {v w : View Tile Ops Cache} → clear v ≡ some w → Step v w
      expires : {v w : View Tile Ops Cache} → expire_view_data v ≡ w → Step v w
      starts :
          {v w : View Tile Ops Cache} (before after : List (Worker Tile Ops Cache)) (wq : ℕ)
          → v.workers ≡ before ++ (pending wq ∷ after)
          → record v { workers = before ++ (looping wq ∷ after) } ≡ w
          → Step v w
      drops :
          {v w : View Tile Ops Cache} (before after : List (Worker Tile Ops Cache)) (wq : ℕ)
          → v.workers ≡ before ++ (pending wq ∷ after)
          → same (some wq) v.queue ≡ false
          → record v { workers = before ++ after } ≡ w
          → Step v w
      rounds :
          {v w x : View Tile Ops Cache} (before after : List (Worker Tile Ops Cache)) (wq : ℕ)
          (next : Worker Tile Ops Cache)
          → v.workers ≡ before ++ (looping wq ∷ after)
          → process_round wq v ≡ some (w, next)
          → record w { workers = before ++ (next ∷ after) } ≡ x
          → Step v x
      works :
          {v w x : View Tile Ops Cache} (before after : List (Worker Tile Ops Cache)) (wq : ℕ)
          (work : Work Tile Ops Cache)
          → v.workers ≡ before ++ (working wq work ∷ after)
          → run_work wq work v ≡ some w
          → record w { workers = before ++ (looping wq ∷ after) } ≡ x
          → Step v x
      ends :
          {v w : View Tile Ops Cache} (before after : List (Worker Tile Ops Cache)) (wq : ℕ)
          → v.workers ≡ before ++ (leaving wq ∷ after)
          → record (process_end wq v) { workers = before ++ after } ≡ w
          → Step v w

    pub data Reach : View Tile Ops Cache → Type 0 where
      created : {v : View Tile Ops Cache} → create ≡ v → Reach v
      next : {v w : View Tile Ops Cache} → Reach v → Step v w → Reach w
