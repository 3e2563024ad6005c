-- ===== src/TileView/Stuck.antt =====
-- What the steps of a tile view state can reach, given that no function of it ever stores a queue
-- in the member `weakQueue`: `kick` binds a variable of that name in its closure instead.
use scroom.Common.{
  ℕ, ◌≤◌, ◌≡◌, refl, subst, ◌⊎◌, inl, inr, true, false, not, ◌||◌, ltb, leb, ◌==◌, Bool-cases,
  Option, none, some, List, [], ◌∷◌, ◌++◌, arith, Option-cases,
}
use scroom.Common.Int.{ℤ, eqb_ℤ}
use scroom.TileView.{
  init, loaded, base_computed, done, rank, is_some, Worker, pending, looping, leaving, working,
  View, create, kick, tile_loaded, get_cache_result, set_view_data, set_zoom, clear,
  expire_view_data, process_round, process_end, Step, loads, sets_view_data, sets_zoom, clears,
  expires, starts, drops, rounds, works, ends, Reach, created, next,
}

module _ {Tile Ops Cache : Type 0} where
  abbrev IsIdle : Worker Tile Ops Cache → Type 0
  IsIdle (pending wq) = Unit {0}
  IsIdle (looping wq) = Unit {0}
  IsIdle (leaving wq) = Unit {0}
  IsIdle (working wq work) = ⊥

  abbrev AllIdle : List (Worker Tile Ops Cache) → Type 0
  AllIdle [] = Unit {0}
  AllIdle (w ∷ ws) = IsIdle w × AllIdle ws

  -- No cache is there, no worker computes one, and a loaded state has its tile.
  pub record IsStuck (v : View Tile Ops Cache) : Type 0 where
    pub no_weak_queue : v.weak_queue ≡ none
    pub no_base_cache : v.base_cache ≡ none
    pub no_zoom_cache : v.zoom_cache ≡ none
    pub not_beyond : rank v.state ≤ 1
    pub has_tile : (v.state ≡ init) ⊎ (is_some v.tile ≡ true)
    pub idle : AllIdle v.workers

  AllIdle-append :
      (xs ys : List (Worker Tile Ops Cache)) → AllIdle xs → AllIdle ys → AllIdle (xs ++ ys)
  AllIdle-append [] ys h k = k
  AllIdle-append (x ∷ xs) ys h k = (h.0, AllIdle-append xs ys h.1 k)

  AllIdle-split :
      (xs ys : List (Worker Tile Ops Cache)) → AllIdle (xs ++ ys) → AllIdle xs × AllIdle ys
  AllIdle-split [] ys h = (tt, h)
  AllIdle-split (x ∷ xs) ys h = let r = AllIdle-split xs ys h.1 in ((h.0, r.0), r.1)

  kick-IsStuck : (v w : View Tile Ops Cache) → IsStuck v → kick v ≡ some w → IsStuck w
  unfolding kick
  kick-IsStuck v w h e =
      ground (arith, AllIdle-append v.workers (pending v.next_queue ∷ []) h.idle (tt, tt))

  -- With a tile where the state says there is one, `kick` does not fail.
  kick_total :
      (v : View Tile Ops Cache)
      → (v.state ≡ init) ⊎ (is_some v.tile ≡ true)
      → (w : View Tile Ops Cache) × (kick v ≡ some w)
  unfolding kick
  kick_total v (inl e) = (v, ground arith)
  kick_total v (inr e) = elim (Option-cases (kick v)) [
    | inl n ↦ absurd (ground arith)
    | inr (w, k) ↦ (w, k)
  ]

  tile_loaded-IsStuck :
      (t : Tile) (v w : View Tile Ops Cache) → IsStuck v → tile_loaded t v ≡ some w → IsStuck w
  unfolding tile_loaded
  tile_loaded-IsStuck t v w h e =
      kick-IsStuck (record v { tile = some t; state = loaded }) w
        (record {
          no_weak_queue = h.no_weak_queue;
          no_base_cache = h.no_base_cache;
          no_zoom_cache = h.no_zoom_cache;
          not_beyond = omega arith;
          has_tile = inr refl;
          idle = h.idle;
        })
        (let small = h.not_beyond in ground arith)

  set_view_data-IsStuck :
      (v w : View Tile Ops Cache) → IsStuck v → set_view_data v ≡ some w → IsStuck w
  unfolding set_view_data
  set_view_data-IsStuck v w h e =
      kick-IsStuck (record v { tbvd = true; life_time_manager = true }) w
        (record {
          no_weak_queue = h.no_weak_queue;
          no_base_cache = h.no_base_cache;
          no_zoom_cache = h.no_zoom_cache;
          not_beyond = h.not_beyond;
          has_tile = h.has_tile;
          idle = h.idle;
        })
        e

  set_zoom-IsStuck :
      (lo : Option Ops) (z : ℤ) (v w : View Tile Ops Cache)
      → IsStuck v
      → set_zoom lo z v ≡ some w
      → IsStuck w
  unfolding set_zoom
  set_zoom-IsStuck lo z v w h e = ground (
    arith,
    kick-IsStuck (record v { zoom = z; lo = lo; desired_state = done }) w
        (record {
          no_weak_queue = h.no_weak_queue;
          no_base_cache = h.no_base_cache;
          no_zoom_cache = h.no_zoom_cache;
          not_beyond = h.not_beyond;
          has_tile = h.has_tile;
          idle = h.idle;
        }),
  )

  clear-IsStuck : (v w : View Tile Ops Cache) → IsStuck v → clear v ≡ some w → IsStuck w
  unfolding clear
  clear-IsStuck v w h e = kick-IsStuck _ w (ground arith) e

  process_round-leaves :
      (wq : ℕ) (v w : View Tile Ops Cache) (after : Worker Tile Ops Cache)
      → IsStuck v
      → process_round wq v ≡ some (w, after)
      → (w ≡ v) × (after ≡ leaving wq)
  unfolding process_round
  process_round-leaves wq v w after h e = let n = h.no_weak_queue in ground arith

  with_workers :
      (v : View Tile Ops Cache) (ws : List (Worker Tile Ops Cache))
      → IsStuck v
      → AllIdle ws
      → IsStuck (record v { workers = ws })
  with_workers v ws h k = record {
    no_weak_queue = h.no_weak_queue;
    no_base_cache = h.no_base_cache;
    no_zoom_cache = h.no_zoom_cache;
    not_beyond = h.not_beyond;
    has_tile = h.has_tile;
    idle = k;
  }

  process_end-IsStuck : (wq : ℕ) (v : View Tile Ops Cache) → IsStuck v → IsStuck (process_end wq v)
  unfolding process_end
  process_end-IsStuck wq v h = let n = h.no_weak_queue in ground arith

  tile_loaded_total :
      (t : Tile) (v : View Tile Ops Cache) → (w : View Tile Ops Cache) × (tile_loaded t v ≡ some w)
  unfolding tile_loaded
  tile_loaded_total t v = elim (Bool-cases (ltb (rank loaded) (rank v.state))) [
    | inl e ↦ rw e (kick_total _ (inr refl))
    | inr e ↦ rw e (kick_total _ (inr refl))
  ]

  set_zoom_total :
      (lo : Option Ops) (z : ℤ) (v : View Tile Ops Cache)
      → IsStuck v
      → (w : View Tile Ops Cache) × (set_zoom lo z v ≡ some w)
  unfolding set_zoom
  set_zoom_total lo z v h =
      elim (Bool-cases (not (rank v.desired_state == rank done) || not (eqb_ℤ z v.zoom))) [
        | inr e ↦ rw e (v, refl)
        | inl e ↦
            let low : leb (rank base_computed) (rank v.state) ≡ false =
              let b = h.not_beyond in ground arith in
            rw (e, low)
              (kick_total (record v { zoom = z; lo = lo; desired_state = done }) h.has_tile)
      ]

  clear_total :
      (v : View Tile Ops Cache) → IsStuck v → (w : View Tile Ops Cache) × (clear v ≡ some w)
  unfolding clear
  clear_total v h = kick_total _ (let k = h.has_tile in ground arith)

  abbrev pub IsSome : Option (View Tile Ops Cache) → Type 0
  IsSome o = (w : View Tile Ops Cache) × (o ≡ some w)

module _ {Tile Ops Cache : Type 0} (cache : Ops → Option Tile → Option Cache)
    (cache_zoom : Ops → Option Tile → ℤ → Option Cache → Option Cache) where
  Step-IsStuck : {v w : View Tile Ops Cache} → Step cache cache_zoom v w → IsStuck v → IsStuck w
  Step-IsStuck {v} {w} (loads t e) h = tile_loaded-IsStuck t v w h e
  Step-IsStuck {v} {w} (sets_view_data e) h = set_view_data-IsStuck v w h e
  Step-IsStuck {v} {w} (sets_zoom lo z e) h = set_zoom-IsStuck lo z v w h e
  Step-IsStuck {v} {w} (clears e) h = clear-IsStuck v w h e
  Step-IsStuck {v} {w} (expires e) h = subst IsStuck e (
      unfold expire_view_data in
      record {
        no_weak_queue = h.no_weak_queue;
        no_base_cache = h.no_base_cache;
        no_zoom_cache = h.no_zoom_cache;
        not_beyond = h.not_beyond;
        has_tile = h.has_tile;
        idle = h.idle;
      })
  Step-IsStuck {v} {w} (starts xs ys wq at e) h =
      let (before, after) = AllIdle-split xs (pending wq ∷ ys) (subst AllIdle at h.idle) in
      subst IsStuck e (
        with_workers v (xs ++ (looping wq ∷ ys)) h
          (AllIdle-append xs (looping wq ∷ ys) before (tt, after.1)))
  Step-IsStuck {v} {w} (drops xs ys wq at gone e) h =
      let (before, after) = AllIdle-split xs (pending wq ∷ ys) (subst AllIdle at h.idle) in
      subst IsStuck e (with_workers v (xs ++ ys) h (AllIdle-append xs ys before after.1))
  Step-IsStuck {v} (rounds {w = w} xs ys wq n at r e) h =
      let (before, after) = AllIdle-split xs (looping wq ∷ ys) (subst AllIdle at h.idle) in
      let (stays, leaves) = process_round-leaves wq v w n h r in
      subst IsStuck e (
        rw (stays, leaves)
          (with_workers v (xs ++ (leaving wq ∷ ys)) h
            (AllIdle-append xs (leaving wq ∷ ys) before (tt, after.1))))
  Step-IsStuck {v} (works xs ys wq work at r e) h =
      let (before, after) = AllIdle-split xs (working wq work ∷ ys) (subst AllIdle at h.idle) in
      absurd after.0
  Step-IsStuck {v} {w} (ends xs ys wq at e) h =
      let (before, after) = AllIdle-split xs (leaving wq ∷ ys) (subst AllIdle at h.idle) in
      subst IsStuck e (
        with_workers (process_end wq v) (xs ++ ys) (process_end-IsStuck wq v h)
          (AllIdle-append xs ys before after.1))

  Reach-IsStuck : {v : View Tile Ops Cache} → Reach cache cache_zoom v → IsStuck v
  Reach-IsStuck (created e) = subst IsStuck e (
      unfold create in
      record {
        no_weak_queue = refl;
        no_base_cache = refl;
        no_zoom_cache = refl;
        not_beyond = omega arith;
        has_tile = inl refl;
        idle = tt;
      })
  Reach-IsStuck (next r s) = Step-IsStuck s (Reach-IsStuck r)

  -- In every reachable state no cache has been computed, so `getCacheResult` returns the null
  -- pointer; and the state has not gone beyond LOADED.
  pub get_cache_result-none :
      {v : View Tile Ops Cache}
      → Reach cache cache_zoom v
      → (get_cache_result v ≡ none) × (rank v.state ≤ 1)
  unfolding get_cache_result
  get_cache_result-none r = let h = Reach-IsStuck r in (h.no_zoom_cache, h.not_beyond)

  -- In every reachable state the four calls from outside succeed: none meets the defect message
  -- on a loaded state without a tile.
  pub calls_total :
      {v : View Tile Ops Cache} (t : Tile) (lo : Option Ops) (z : ℤ)
      → Reach cache cache_zoom v
      → (IsSome (tile_loaded t v) × IsSome (set_view_data v))
        × (IsSome (set_zoom lo z v) × IsSome (clear v))
  calls_total {v} t lo z r =
      let h = Reach-IsStuck r in
      (
        (
          tile_loaded_total t v,
          unfold set_view_data in
              kick_total (record v { tbvd = true; life_time_manager = true }) h.has_tile,
        ),
        (set_zoom_total lo z v h, clear_total v h),
      )
