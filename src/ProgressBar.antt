-- ===== src/ProgressBar.antt =====
-- gui/src/progressbarmanager.cc: the progress bars that pulse while something waits, and the managers
-- that start and stop that. A progress bar is a number, a progress is of any type. The iterator `current`
-- cuts the list in two: `before`, and `after` with the element that it points at.
use scroom.Common.{
  ℕ, zero, suc, ◌+◌, ◌-◌, Bool, true, false, ◌==◌, ltb, if◌then◌else◌, Option, none, some, List, [],
  ◌∷◌, ◌++◌, length,
}
pub mod Pulsing
pub mod Waiting
mod Examples

-- A bar that was stopped is `none`. `timers` are the timeouts of GTK that call doWork.
pub record Pulser : Type 0 where
  pub before : List (Option ℕ)
  pub after : List (Option ℕ)
  pub timers : ℕ

pub no_bars : Pulser
no_bars = record { before = []; after = []; timers = 0 }

-- An element that is pushed back comes before an iterator that points at the end.
pub push_back : ℕ → Pulser → Pulser
push_back p s = elim s.after [
  | [] ↦ record s { before = s.before ++ some p ∷ [] }
  | a ∷ rest ↦ record s { after = (a ∷ rest) ++ some p ∷ [] }
]

pub start : ℕ → Pulser → Pulser
start p s =
    let pushed = push_back p s in
    if length pushed.before + length pushed.after == 1
    then record { before = []; after = pushed.before ++ pushed.after; timers = suc s.timers }
    else pushed

pub clear : ℕ → List (Option ℕ) → List (Option ℕ)
clear p [] = []
clear p (none ∷ bars) = none ∷ clear p bars
clear p (some b ∷ bars) = (if b == p then none else some b) ∷ clear p bars

pub stop : ℕ → Pulser → Pulser
stop p s = record s { before = clear p s.before; after = clear p s.after }

-- The loop of doWork: what is before the iterator and after it, and the bar that pulses, or `none` where
-- doWork returns false.
pub work_loop :
    ℕ → List (Option ℕ) → List (Option ℕ) → Option (List (Option ℕ) × List (Option ℕ) × Option ℕ)
work_loop zero before after = none
work_loop (suc fuel) before (none ∷ after) = work_loop fuel before after
work_loop (suc fuel) before (some p ∷ after) = some (before ++ some p ∷ [], after, some p)
work_loop (suc fuel) [] [] = some ([], [], none)
work_loop (suc fuel) (b ∷ bs) [] = work_loop fuel [] (b ∷ bs)

-- A timeout whose function returns false is removed.
pub return_work :
    Pulser → Option (List (Option ℕ) × List (Option ℕ) × Option ℕ) → Option (Pulser × Option ℕ)
return_work s none = none
return_work s (some (before, after, none)) =
    some (record { before = before; after = after; timers = s.timers - 1 }, none)
return_work s (some (before, after, some p)) =
    some (record { before = before; after = after; timers = s.timers }, some p)

pub do_work : Pulser → Option (Pulser × Option ℕ)
do_work s = return_work s (work_loop (length s.before + length s.after + 2) s.before s.after)

-- The ProgressBarManager of a bar, and the fraction that the bar shows.
pub record Manager (Progress : Type 0) : Type 0 where
  pub is_waiting : Bool
  pub fraction : Progress

pub record Window (Progress : Type 0) : Type 0 where
  pub pulser : Pulser
  pub managers : ℕ → Manager Progress

pub data Call (Progress : Type 0) : Type 0 where
  set_idle set_waiting set_finished delete : ℕ → Call Progress
  set_working : ℕ → Progress → Call Progress
  time_out : Call Progress

module _ {Progress : Type 0} where
  pub replace : (ℕ → Manager Progress) → ℕ → Manager Progress → ℕ → Manager Progress
  replace managers b m x = if x == b then m else managers x

  pub start_waiting : ℕ → Window Progress → Window Progress
  start_waiting b w = if (w.managers b).is_waiting then w else record {
    pulser = start b w.pulser;
    managers = replace w.managers b (record (w.managers b) { is_waiting = true });
  }

  pub stop_waiting : ℕ → Window Progress → Window Progress
  stop_waiting b w =
      if (w.managers b).is_waiting
      then record {
        pulser = stop b w.pulser;
        managers = replace w.managers b (record (w.managers b) { is_waiting = false });
      }
      else w

  pub show : ℕ → Progress → Window Progress → Window Progress
  show b progress w = record w {
    managers = replace w.managers b (record (w.managers b) { fraction = progress });
  }

  pub work : ℕ → Progress → Window Progress → Window Progress
  work b progress w = show b progress (stop_waiting b w)

  -- With the bar that pulses. A timeout without a timer does not happen. `nothing` is 0.0.
  pub call : Progress → Call Progress → Window Progress → Option (Window Progress × Option ℕ)
  call nothing (set_idle b) w = some (work b nothing w, none)
  call nothing (set_waiting b) w = some (start_waiting b w, none)
  call nothing (set_finished b) w = some (work b nothing w, none)
  call nothing (delete b) w = some (stop_waiting b w, none)
  call nothing (set_working b progress) w = some (work b progress w, none)
  call nothing time_out w =
      if w.pulser.timers == 0 then some (w, none) else elim (do_work w.pulser) [
        | none ↦ none
        | some (p, pulsed) ↦ some (record w { pulser = p }, pulsed)
      ]

  pub call_all : Progress → List (Call Progress) → Window Progress → Option (Window Progress)
  call_all nothing [] w = some w
  call_all nothing (c ∷ cs) w = elim (call nothing c w) [
    | none ↦ none
    | some (t, pulsed) ↦ call_all nothing cs t
  ]
