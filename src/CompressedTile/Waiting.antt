-- ===== src/CompressedTile/Waiting.antt =====
-- An observer that waits does not wait in vain.
use scroom.Common.{
  ℕ, ◌+◌, ◌≡◌, Bool, true, false, not, ◌&&◌, ◌||◌, ◌==◌, ltb, if◌then◌else◌, Option, none, some,
  List, [], ◌∷◌, arith, refl,
}
use scroom.CompressedTile.{
  TileStateInternal, uninitialized, out_of_bounds, loading_synchronously, loading_asynchronously,
  Registration, CompressedTile, create, any_holds, cleanup_state, starts_load, observer_added, Read,
  start_observing, find_read, drop_read, add_read, finish_observing, without, unregister_observer,
  notify_observers, initialize, get_const_tile_sync, initialize_end, run_job, load_begin, load_data,
  load_end, load_end_found, expire, Step, reads, adds, unregister, initializes, gets_const_tile,
  initializes_end, runs_job, begins, loads, ends, ends_found, expires, step, run,
}

-- The tile has no data to load yet, or never will.
abbrev pub is_passive : TileStateInternal → Bool
is_passive uninitialized = true
is_passive out_of_bounds = true
is_passive _ = false

abbrev is_async : TileStateInternal → Bool
is_async loading_asynchronously = true
is_async _ = false

abbrev is_sync : TileStateInternal → Bool
is_sync loading_synchronously = true
is_sync _ = false

-- What a registration that holds the queue, or does not, can wait for: a thread that has loaded the
-- data, or else, while there is no data, one that is going to load it or a job that its queue keeps.
abbrev pub will_load : CompressedTile → Bool → Bool
will_load tile holds =
    ltb 0 tile.loaded
    || (not tile.has_const_tile
        && (is_passive tile.state
            || ltb 0 (tile.initializing + tile.started + tile.begun)
            || (ltb 0 tile.scheduled && holds)))

-- Every registration has been told, or waits for something: `a` says whether there is something to
-- wait for with the queue, `b` whether there is without.
unfoldable pub all_cared_for : Bool → Bool → List Registration → Bool
all_cared_for a b [] = true
all_cared_for a b (r ∷ rs) = (r.told || (if r.holds_queue then a else b)) && all_cared_for a b rs

abbrev implies : Bool → Bool → Bool
implies a b = not a || b

cared_for-more :
    (a b a' b' : Bool) (rs : List Registration)
    → implies a a' ≡ true
    → implies b b' ≡ true
    → all_cared_for a b rs ≡ true
    → all_cared_for a' b' rs ≡ true
unfolding all_cared_for
cared_for-more a b a' b' [] ha hb h = refl
cared_for-more a b a' b' (r ∷ rs) ha hb h =
    let rest = cared_for-more a b a' b' rs ha hb in ground (arith, h, rest)

cared_for-no_queue :
    (a b a' : Bool) (rs : List Registration)
    → any_holds rs ≡ false
    → all_cared_for a b rs ≡ true
    → all_cared_for a' b rs ≡ true
unfolding all_cared_for any_holds
cared_for-no_queue a b a' [] n h = refl
cared_for-no_queue a b a' (r ∷ rs) n h =
    let rest = cared_for-no_queue a b a' rs in ground (arith, h, n, rest)

cared_for-without :
    (a b : Bool) (o : ℕ) (rs : List Registration)
    → all_cared_for a b rs ≡ true
    → all_cared_for a b (without o rs) ≡ true
unfolding all_cared_for without
cared_for-without a b o [] h = refl
cared_for-without a b o (r ∷ rs) h =
    let rest = cared_for-without a b o rs in ground (arith, h, rest)

holds-without :
    (o : ℕ) (rs : List Registration) → implies (any_holds (without o rs)) (any_holds rs) ≡ true
unfolding any_holds without
holds-without o [] = refl
holds-without o (r ∷ rs) = let rest = holds-without o rs in ground (arith, rest)

pub cared_for-notify :
    (a b : Bool) (rs : List Registration) → all_cared_for a b (notify_observers rs) ≡ true
unfolding all_cared_for notify_observers
cared_for-notify a b [] = refl
cared_for-notify a b (r ∷ rs) = ground (arith, cared_for-notify a b rs)

holds-notify : (rs : List Registration) → any_holds (notify_observers rs) ≡ any_holds rs
unfolding any_holds notify_observers
holds-notify [] = refl
holds-notify (r ∷ rs) = ground (arith, holds-notify rs)

abbrev pub CaredFor : CompressedTile → Type 0
CaredFor tile = all_cared_for (will_load tile true) (will_load tile false) tile.registrations ≡ true

-- The invariant: every observer that was not told waits for something; a load that is said to be
-- going on is; the data is kept while a thread is about to leave do_load; and nothing was loaded in
-- a tile that has no data to load.
abbrev pub IsValid : CompressedTile → Type 0
IsValid tile =
    CaredFor tile
    × (implies (is_async tile.state && any_holds tile.registrations)
          (ltb 0 (tile.scheduled + tile.started))
        ≡ true)
    × (implies (is_sync tile.state) (ltb 0 (tile.begun + tile.loaded + tile.found)) ≡ true)
    × (implies (ltb 0 (tile.loaded + tile.found)) tile.has_const_tile ≡ true)
    × (implies (is_passive tile.state) ((tile.begun + tile.loaded + tile.found) == 0) ≡ true)

load_begin-IsValid : (tile : CompressedTile) → IsValid tile → IsValid (load_begin tile)
unfolding load_begin
load_begin-IsValid tile v =
    let after = load_begin tile in
    let (cared, async, sync, held, passive) = v in
    let more =
      cared_for-more (will_load tile true) (will_load tile false) (will_load after true)
        (will_load after false) tile.registrations in
    ground (arith, cared, async, sync, held, passive, more)

load_data-IsValid : (tile : CompressedTile) → IsValid tile → IsValid (load_data tile)
unfolding load_data
load_data-IsValid tile v =
    let after = load_data tile in
    let (cared, async, sync, held, passive) = v in
    let more =
      cared_for-more (will_load tile true) (will_load tile false) (will_load after true)
        (will_load after false) tile.registrations in
    ground (arith, cared, async, sync, held, passive, more)

run_job-IsValid : (tile : CompressedTile) → IsValid tile → IsValid (run_job tile)
unfolding run_job
run_job-IsValid tile v =
    let after = run_job tile in
    let (cared, async, sync, held, passive) = v in
    let more =
      cared_for-more (will_load tile true) (will_load tile false) (will_load after true)
        (will_load after false) tile.registrations in
    ground (arith, cared, async, sync, held, passive, more)

get_const_tile_sync-IsValid :
    (tile : CompressedTile) → IsValid tile → IsValid (get_const_tile_sync tile)
unfolding get_const_tile_sync
get_const_tile_sync-IsValid tile v =
    let after = get_const_tile_sync tile in
    let (cared, async, sync, held, passive) = v in
    let more =
      cared_for-more (will_load tile true) (will_load tile false) (will_load after true)
        (will_load after false) tile.registrations in
    ground (arith, cared, async, sync, held, passive, more)

expire-IsValid : (tile : CompressedTile) → IsValid tile → IsValid (expire tile)
unfolding expire
expire-IsValid tile v =
    let after = expire tile in
    let (cared, async, sync, held, passive) = v in
    let more =
      cared_for-more (will_load tile true) (will_load tile false) (will_load after true)
        (will_load after false) tile.registrations in
    ground (arith, cared, async, sync, held, passive, more)

initialize-IsValid : (tile : CompressedTile) → IsValid tile → IsValid (initialize tile)
unfolding initialize
initialize-IsValid tile v =
    let after = initialize tile in
    let (cared, async, sync, held, passive) = v in
    let more =
      cared_for-more (will_load tile true) (will_load tile false) (will_load after true)
        (will_load after false) tile.registrations in
    ground (arith, cared, async, sync, held, passive, more)

load_end_found-IsValid : (tile : CompressedTile) → IsValid tile → IsValid (load_end_found tile)
unfolding load_end_found
load_end_found-IsValid tile v =
    let after = load_end_found tile in
    let (cared, async, sync, held, passive) = v in
    let more =
      cared_for-more (will_load tile true) (will_load tile false) (will_load after true)
        (will_load after false) tile.registrations in
    ground (arith, cared, async, sync, held, passive, more)

initialize_end-IsValid : (tile : CompressedTile) → IsValid tile → IsValid (initialize_end tile)
unfolding initialize_end get_const_tile_sync
initialize_end-IsValid tile v =
    let after = initialize_end tile in
    let (cared, async, sync, held, passive) = v in
    let more =
      cared_for-more (will_load tile true) (will_load tile false) (will_load after true)
        (will_load after false) tile.registrations in
    ground (arith, cared, async, sync, held, passive, more)

load_end-IsValid : (tile : CompressedTile) → IsValid tile → IsValid (load_end tile)
unfolding load_end
load_end-IsValid tile v =
    let after = load_end tile in
    let told = cared_for-notify (will_load after true) (will_load after false) tile.registrations in
    ground (arith, v, told, holds-notify tile.registrations)

-- observerAdded, where what it read is still so.
observer_added-IsValid :
    (o : ℕ) (tile : CompressedTile)
    → IsValid tile
    → IsValid (observer_added tile.has_const_tile (any_holds tile.registrations) o tile)
unfolding observer_added cleanup_state starts_load any_holds all_cared_for
observer_added-IsValid o tile v =
    let after = observer_added tile.has_const_tile (any_holds tile.registrations) o tile in
    let (cared, async, sync, held, passive) = v in
    let more =
      cared_for-more (will_load tile true) (will_load tile false) (will_load after true)
        (will_load after false) tile.registrations in
    ground (arith, cared, async, sync, held, passive, more)

abbrev same : Bool → Bool → Bool
same a b = if a then b else not b

same-eq : (a b : Bool) → same a b ≡ true → a ≡ b
same-eq a b h = ground (arith, h)

-- What was read is still so.
unfoldable pub is_current : Option Read → CompressedTile → Bool
is_current none tile = true
is_current (some r) tile =
    same r.result tile.has_const_tile && same r.queue (any_holds tile.registrations)

unfoldable pub step_is_current : Step → CompressedTile → Bool
step_is_current (adds o) tile = is_current (find_read o tile.reading) tile
step_is_current _ tile = true

-- Whenever observerAdded takes the lock, what it read before is still so.
unfoldable pub up_to_date : List Step → CompressedTile → Bool
up_to_date [] tile = true
up_to_date (s ∷ ss) tile = step_is_current s tile && up_to_date ss (step s tile)

add_read-IsValid :
    (r : Option Read) (o : ℕ) (tile : CompressedTile)
    → is_current r tile ≡ true
    → IsValid tile
    → IsValid (add_read r o tile)
unfolding add_read is_current
add_read-IsValid none o tile e v = v
add_read-IsValid (some r) o tile e v =
    let result = same-eq r.result tile.has_const_tile (ground (arith, e)) in
    let queue = same-eq r.queue (any_holds tile.registrations) (ground (arith, e)) in
    rw (result, queue)
      (observer_added-IsValid o (record tile { reading = drop_read o tile.reading }) v)

start_observing-IsValid :
    (o : ℕ) (tile : CompressedTile) → IsValid tile → IsValid (start_observing o tile)
unfolding start_observing
start_observing-IsValid o tile v = v

unregister_observer-IsValid :
    (o : ℕ) (tile : CompressedTile) → IsValid tile → IsValid (unregister_observer o tile)
unfolding unregister_observer
unregister_observer-IsValid o tile v =
    let after = unregister_observer o tile in
    let (cared, async, sync, held, passive) = v in
    let rest = without o tile.registrations in
    let kept =
      cared_for-without (will_load tile true) (will_load tile false) o tile.registrations cared in
    let alone =
      cared_for-no_queue (will_load tile true) (will_load tile false) (will_load after true) rest in
    ground (arith, kept, alone, async, sync, held, passive, holds-without o tile.registrations)

-- Every step of a thread and every deletion of a token, and what observerAdded does where what it read is
-- still so, keeps the invariant: an
-- observer that was not told waits for a thread that has loaded the data, or, while there is none,
-- for one that is going to, or for a job that its own token keeps in the queue, unless the tile has
-- no data to load.
pub step-IsValid :
    (s : Step) (tile : CompressedTile)
    → step_is_current s tile ≡ true
    → IsValid tile
    → IsValid (step s tile)
unfolding step step_is_current finish_observing
step-IsValid (reads o) tile e v = start_observing-IsValid o tile v
step-IsValid (adds o) tile e v = add_read-IsValid (find_read o tile.reading) o tile e v
step-IsValid (unregister o) tile e v = unregister_observer-IsValid o tile v
step-IsValid initializes tile e v = initialize-IsValid tile v
step-IsValid gets_const_tile tile e v = get_const_tile_sync-IsValid tile v
step-IsValid initializes_end tile e v = initialize_end-IsValid tile v
step-IsValid runs_job tile e v = run_job-IsValid tile v
step-IsValid begins tile e v = load_begin-IsValid tile v
step-IsValid loads tile e v = load_data-IsValid tile v
step-IsValid ends tile e v = load_end-IsValid tile v
step-IsValid ends_found tile e v = load_end_found-IsValid tile v
step-IsValid expires tile e v = expire-IsValid tile v

create-IsValid : (state : TileStateInternal) → is_passive state ≡ true → IsValid (create state)
unfolding create all_cared_for any_holds
create-IsValid state h = ground (arith, h)

pub run-IsValid :
    (ss : List Step) (tile : CompressedTile)
    → up_to_date ss tile ≡ true
    → IsValid tile
    → IsValid (run ss tile)
unfolding run up_to_date
run-IsValid [] tile e v = v
run-IsValid (s ∷ ss) tile e v =
    run-IsValid ss (step s tile) (ground (arith, e)) (step-IsValid s tile (ground (arith, e)) v)

-- In every order of steps from a new tile that is not initialized or is out of bounds, in which what
-- observerAdded reads before it takes the lock is still so when it has it: an observer that was not
-- told waits for a thread that has loaded the data, or, while there is none, for one that is going to,
-- or for a job that its own token keeps in the queue, unless the tile has no data to load yet or at
-- all; and the other parts of the invariant hold.
pub run-create-IsValid :
    (ss : List Step) (state : TileStateInternal)
    → is_passive state ≡ true
    → up_to_date ss (create state) ≡ true
    → IsValid (run ss (create state))
run-create-IsValid ss state h e = run-IsValid ss (create state) e (create-IsValid state h)
