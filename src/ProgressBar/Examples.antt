-- ===== src/ProgressBar/Examples.antt =====
-- Three bars, of which two wait.
use scroom.Common.{ℕ, ◌≡◌, refl, false, List, [], ◌∷◌, some, none}
use scroom.ProgressBar.{
  Window, Call, set_waiting, set_working, time_out, push_back, start, clear, stop, work_loop,
  return_work, do_work, no_bars, replace, start_waiting, stop_waiting, show, work, call, call_all,
}
use scroom.ProgressBar.Pulsing.{active, turns, pulses}
use scroom.ProgressBar.Waiting.{occurrences, Timed, IsTimely, call_all-IsTimely}

abbrev quiet : Window ℕ
quiet = record { pulser = no_bars; managers = λ b. record { is_waiting = false; fraction = 0 } }

abbrev calls : List (Call ℕ)
calls =
    set_waiting 1
    ∷ set_waiting 2
    ∷ time_out
    ∷ set_waiting 3
    ∷ set_waiting 1
    ∷ set_working 2 50
    ∷ time_out
    ∷ []

-- The bar 3 comes after the iterator.
order_test :
    (elim (call_all 0 calls quiet) [ none ↦ [] | some w ↦ pulses 3 w.pulser ]) ≡ 1 ∷ 3 ∷ 1 ∷ []
unfolding call_all call start_waiting stop_waiting work show replace start push_back stop clear
    do_work return_work work_loop pulses no_bars
order_test = refl

quiet-IsTimely : IsTimely ℕ quiet
unfolding no_bars turns active occurrences Timed
quiet-IsTimely = record { counted = λ b. refl; timed = refl }

call_all-IsTimely_example : (t : Window ℕ) × (call_all 0 calls quiet ≡ some t) × IsTimely ℕ t
call_all-IsTimely_example = call_all-IsTimely 0 calls quiet quiet-IsTimely
