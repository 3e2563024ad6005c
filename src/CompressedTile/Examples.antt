-- ===== src/CompressedTile/Examples.antt =====
-- An observer of a tile, from its registration until it is told, and one that is not.
use scroom.Common.{◌≡◌, refl, true, false, List, [], ◌∷◌}
use scroom.CompressedTile.{
  CompressedTile, uninitialized, create, observer_added, step, run, Step, reads, adds, unregister,
  initializes, initializes_end, begins, loads, ends, expires, unregister_observer, start_observing,
  find_read, drop_read, add_read, finish_observing, expire, load_end, load_data, load_begin,
  initialize_end, initialize, get_const_tile_sync, starts_load, cleanup_state, any_holds, without,
  notify_observers,
}
use scroom.CompressedTile.Waiting.{
  IsValid, is_current, step_is_current, up_to_date, run-create-IsValid, all_cared_for,
}
use scroom.CompressedTile.Telling.{all_told, plan, plan-told}

abbrev steps : List Step
steps =
    initializes
    ∷ initializes_end
    ∷ begins
    ∷ loads
    ∷ ends
    ∷ expires
    ∷ reads 1
    ∷ adds 1
    ∷ reads 2
    ∷ adds 2
    ∷ unregister 2
    ∷ []

run-create-IsValid_example : IsValid (run steps (create uninitialized))
unfolding up_to_date step_is_current is_current run step observer_added expire load_end load_data
    load_begin initialize_end initialize create get_const_tile_sync starts_load cleanup_state
    any_holds start_observing find_read drop_read add_read finish_observing unregister_observer
    without notify_observers
run-create-IsValid_example = run-create-IsValid steps uninitialized refl refl

abbrev waiting : CompressedTile
waiting = run steps (create uninitialized)

plan-told_example : all_told (run (plan waiting) waiting).registrations ≡ true
unfolding up_to_date step_is_current is_current run step observer_added expire load_end load_data
    load_begin initialize_end initialize create get_const_tile_sync starts_load cleanup_state
    any_holds start_observing find_read drop_read add_read finish_observing unregister_observer
    without notify_observers
plan-told_example = plan-told waiting (run-create-IsValid steps uninitialized refl refl) refl

-- Observer 1 reads that there is no data and no queue; then observer 2 starts a load, and after
-- observer 1 has had the lock, observer 2 goes away. Nothing is left that would tell observer 1.
abbrev race : CompressedTile
race =
    run
      (initializes
        ∷ initializes_end
        ∷ begins
        ∷ loads
        ∷ ends
        ∷ expires
        ∷ reads 1
        ∷ reads 2
        ∷ adds 2
        ∷ adds 1
        ∷ unregister 2
        ∷ [])
      (create uninitialized)

race_test : (race.scheduled ≡ 0) × (plan race ≡ []) × (all_told race.registrations ≡ false)
unfolding run step observer_added expire load_end load_data load_begin initialize_end initialize
    create get_const_tile_sync starts_load cleanup_state any_holds start_observing find_read
    drop_read add_read finish_observing unregister_observer without notify_observers all_cared_for
race_test = (refl, refl, refl)
