-- ===== src/PipetteHandler/Examples.antt =====
-- Selections, and the tool that is switched off. The colors of a selection are its number.
use scroom.Common.{arith, ℕ, ◌+◌, ◌≡◌, refl, true, false, some, [], ◌∷◌}
use scroom.PipetteHandler.{
  free, working, computing, values, selection_update, selection_end, enable, disable, job_start,
  job_test, job_show, job_end, Handler, on_disable, say, compute_start, compute_test,
  display_values, start_next, test_running, show_running, compute_end, handle, handle_all,
}
use scroom.PipetteHandler.Ignored.{any_end, is_end, on_disable-ignored}
use scroom.PipetteHandler.Quiet.{
  shown, any_enable, is_enable, running_jobs, is_posting, IsQuiet, on_disable-IsQuiet,
}

abbrev colors : ℕ → ℕ
colors s = s + 100

abbrev busy : Handler ℕ ℕ
busy = record {
  selection = some 7;
  enabled = true;
  was_disabled = false;
  running = working 7;
  pending = [];
  messages = values 3 ∷ [];
}

abbrev two_jobs : Handler ℕ ℕ
two_jobs = record busy { running = free; pending = 7 ∷ 8 ∷ [] }

-- Two jobs that were scheduled before the tool is switched off: the second one shows its values.
two_jobs_test :
    (handle_all colors
      (disable ∷ job_start ∷ job_test true ∷ job_end ∷ job_start ∷ job_test true ∷ job_show ∷ [])
      two_jobs).messages
    ≡ values 3 ∷ computing ∷ computing ∷ values 108 ∷ []
unfolding handle_all handle on_disable start_next compute_start say test_running show_running
    compute_end compute_test display_values
two_jobs_test = refl

-- The tool is switched off after the test of the flag.
late_test :
    (handle_all colors (job_test true ∷ disable ∷ job_show ∷ []) busy).messages
    ≡ values 3 ∷ values 107 ∷ []
unfolding handle_all handle on_disable say test_running show_running compute_test display_values
late_test = refl

on_disable-IsQuiet_example : IsQuiet colors 1 (
    handle_all colors
      (selection_end 9 ∷ job_test true ∷ job_end ∷ job_start ∷ [])
      (on_disable colors busy))
unfolding shown any_enable is_enable running_jobs is_posting
on_disable-IsQuiet_example =
    on_disable-IsQuiet colors (selection_end 9 ∷ job_test true ∷ job_end ∷ job_start ∷ []) busy
      (omega arith) refl refl

on_disable-ignored_example :
    shown
      (handle colors job_end (
        handle_all colors
          (selection_update 4 ∷ enable ∷ job_test true ∷ job_show ∷ [])
          (on_disable colors busy))).messages
    ≡ 1
unfolding shown any_end is_end
on_disable-ignored_example =
    on_disable-ignored colors 7 (selection_update 4 ∷ enable ∷ job_test true ∷ job_show ∷ []) busy
      refl refl
