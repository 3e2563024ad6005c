-- ===== src/Progress/Examples.antt =====
-- Children of a multiplexer and of a broadcaster, with progress in hundredths.
use scroom.Common.{ℕ, ◌+◌, ◌/◌, ◌≡◌, refl, List, [], ◌∷◌}
use scroom.Progress.{
  idle, working, finished, Call, set_working, Store, to_state, from_state, init, set_progress,
  tell_store, update_progress_state, Broadcaster, create_broadcaster, subscribe, broadcast, Reach,
  created, next, subscribes, broadcasts, mem, tell, tell_all, count_child, count_children,
}

abbrev two : List (Store ℕ)
two = record { state = finished; progress = 100 } ∷ record { state = working; progress = 40 } ∷ []

abbrev all_finished : List (Store ℕ)
all_finished =
    record { state = finished; progress = 100 } ∷ record { state = idle; progress = 0 } ∷ []

abbrev at_70 : Call ℕ
at_70 = set_working 70

abbrev at_40 : Store ℕ
at_40 = record { state = working; progress = 40 }

update_test : (update_progress_state ◌+◌ ◌/◌ 0 100 two).1 ≡ set_working 70
unfolding update_progress_state from_state count_children count_child
update_test = refl

abbrev subscribed : Broadcaster ℕ
subscribed = record {
  store = record { state = working; progress = 40 };
  children = 1 ∷ [];
  told = tell (set_working 40) 1 (λ c. []);
}

subscribed-Reach : Reach 0 100 subscribed
unfolding create_broadcaster subscribe broadcast mem tell_all tell_store to_state set_progress init
subscribed-Reach = next (next (created refl) (broadcasts (set_working 40) refl)) (subscribes 1 refl)
