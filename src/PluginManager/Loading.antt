-- ===== src/PluginManager/Loading.antt =====
-- The calls of doWork from the start to the end, and what they have loaded.
use mathlib.Core.List.{append_assoc, append-nil}
use scroom.Common.{
  ℕ, suc, ◌+◌, ◌-◌, ◌≤◌, ◌≡◌, refl, ap, ◌∙◌, Bool, true, false, ◌&&◌, ◌||◌, ◌==◌, ltb,
  if◌then◌else◌, Option, none, some, List, [], ◌∷◌, ◌++◌, length, drop, arith, Bool-cases, inl, inr,
}
use scroom.PluginManager.{
  PluginManager, Entry, Module, scanning_directories, loading_files, done, same, dot_so,
  compare_end, scan_entries, add_hook, default_dirs, env_dirs, finding, scanning, keeps,
  module_close, load_module, loading, do_work, run,
}

-- A file name of at least three bytes, the length of ".so".
unfoldable pub AllLong : List (List ℕ) → Type 0
AllLong [] = Unit {0}
AllLong (f ∷ fs) = (3 ≤ length f) × AllLong fs

-- xs, the last one first, before ys
pub reverse_onto : List (List ℕ) → List (List ℕ) → List (List ℕ)
reverse_onto [] ys = ys
reverse_onto (x ∷ xs) ys = reverse_onto xs (x ∷ ys)

-- n, and one for each element
later : List (List ℕ) → ℕ → ℕ
later [] n = n
later (x ∷ xs) n = suc (later xs n)

later_lem : (xs : List (List ℕ)) (n : ℕ) → later xs n ≡ length xs + n
unfolding later
later_lem [] n = omega arith
later_lem (x ∷ xs) n = omega (arith, later_lem xs n)

compare_end-long :
    (f : List ℕ) → 3 ≤ length f → compare_end f ≡ some (same (drop (length f - 3) f) dot_so)
unfolding compare_end
compare_end-long f h = let e : ltb (length f) 3 ≡ false = ground arith in rw e refl

module _ (plugin_dir : List ℕ) (env : Option (List ℕ)) (is_directory : List ℕ → Bool)
    (entries : List ℕ → List Entry) (module_open : List ℕ → Option Module)
    (plugin_api_version : ℕ) where
  -- The function of the interface is found, and makes an interface of the version of the program.
  unfoldable pub is_plugin : Module → Bool
  is_plugin m = (m.has_symbol || m.has_c_symbol) && elim m.get_plugin_information [
    | none ↦ false
    | some none ↦ false
    | some (some version) ↦ version == plugin_api_version
  ]

  unfoldable pub opens_as_plugin : Option Module → Bool
  opens_as_plugin none = false
  opens_as_plugin (some m) = is_plugin m

  -- The file ends in ".so" and is a plugin.
  unfoldable pub loadable_file : List ℕ → Bool
  loadable_file f = same (drop (length f - 3) f) dot_so && opens_as_plugin (module_open f)

  unfoldable pub loadable : List (List ℕ) → List (List ℕ)
  loadable [] = []
  loadable (f ∷ fs) = let rest = loadable fs in if loadable_file f then f ∷ rest else rest

  -- The files of the directories that are there.
  unfoldable pub found_files : List (List ℕ) → List (List ℕ)
  found_files [] = []
  found_files (d ∷ ds) =
      let rest = found_files ds in if is_directory d then scan_entries (entries d) ++ rest else rest

  abbrev work : PluginManager → Option (PluginManager × Bool)
  work s = do_work plugin_dir env is_directory entries module_open plugin_api_version s

  abbrev runs : ℕ → PluginManager → Option PluginManager
  runs n s = run plugin_dir env is_directory entries module_open plugin_api_version n s

  abbrev at_files : PluginManager → List (List ℕ) → List (List ℕ) → List (List ℕ) → PluginManager
  at_files s fs kept open_now = record s {
    state = loading_files;
    current_file = fs;
    plugin_information_list = kept;
    open_modules = open_now;
  }

  work-file :
      (s : PluginManager) (f : List ℕ) (fs kept open_now : List (List ℕ))
      → 3 ≤ length f
      → work (at_files s (f ∷ fs) kept open_now) ≡ (
          if loadable_file f
          then some (at_files s fs (kept ++ f ∷ []) (f ∷ open_now), true)
          else some (at_files s fs kept open_now, true))
  unfolding do_work loading load_module keeps module_close loadable_file is_plugin opens_as_plugin
  work-file s f fs kept open_now h = ground (arith, compare_end-long f h)

  abbrev at_end : PluginManager → List (List ℕ) → List (List ℕ) → PluginManager
  at_end s kept open_now = record s {
    state = done;
    current_file = [];
    plugin_information_list = kept;
    open_modules = open_now;
    done_calls = suc s.done_calls;
  }

  runs-step : (n : ℕ) (s t : PluginManager) → work s ≡ some (t, true) → runs (suc n) s ≡ runs n t
  unfolding run
  runs-step n s t e = ground (arith, e)

  runs-files :
      (fs : List (List ℕ)) (s : PluginManager) (kept open_now : List (List ℕ))
      → AllLong fs
      → runs (later fs 2) (at_files s fs kept open_now)
        ≡ some (at_end s (kept ++ loadable fs) (reverse_onto (loadable fs) open_now))
  unfolding AllLong later loadable reverse_onto
  runs-files [] s kept open_now h = rw (append-nil kept) (unfold run do_work loading in refl)
  runs-files (f ∷ fs) s kept open_now (hf, h) =
      let step = work-file s f fs kept open_now hf in
      elim (Bool-cases (loadable_file f)) [
        | inl e ↦
            let taken =
              runs-step (later fs 2) (at_files s (f ∷ fs) kept open_now)
                (at_files s fs (kept ++ f ∷ []) (f ∷ open_now)) (step ∙ ground (arith, e)) in
            let rest = runs-files fs s (kept ++ f ∷ []) (f ∷ open_now) h in
            let joined = append_assoc kept (f ∷ []) (loadable fs) in
            rw e (
              taken
              ∙ rest
              ∙ ap (λ l. some (at_end s l (reverse_onto (loadable fs) (f ∷ open_now)))) joined)
        | inr e ↦
            let left =
              runs-step (later fs 2) (at_files s (f ∷ fs) kept open_now)
                (at_files s fs kept open_now) (step ∙ ground (arith, e)) in
            rw e (left ∙ runs-files fs s kept open_now h)
      ]

  abbrev at_dirs : PluginManager → List (List ℕ) → List (List ℕ) → PluginManager
  at_dirs s ds fs = record s { state = scanning_directories; current_dir = ds; files = fs }

  abbrev scanned : PluginManager → List (List ℕ) → PluginManager
  scanned s fs = record s { state = loading_files; current_dir = []; files = fs; current_file = fs }

  runs-dirs :
      (ds : List (List ℕ)) (s : PluginManager) (fs : List (List ℕ)) (n : ℕ)
      → runs (later ds (suc n)) (at_dirs s ds fs) ≡ runs n (scanned s (fs ++ found_files ds))
  unfolding later found_files
  runs-dirs [] s fs n = rw (append-nil fs) (unfold run do_work scanning in refl)
  runs-dirs (d ∷ ds) s fs n = elim (Bool-cases (is_directory d)) [
    | inl e ↦
        let step =
          runs-step (later ds (suc n)) (at_dirs s (d ∷ ds) fs)
            (at_dirs s ds (fs ++ scan_entries (entries d)))
            (unfold do_work scanning in rw e refl) in
        rw e (
          step
          ∙ runs-dirs ds s (fs ++ scan_entries (entries d)) n
          ∙ ap (λ l. runs n (scanned s l))
              (append_assoc fs (scan_entries (entries d)) (found_files ds)))
    | inr e ↦
        let step =
          runs-step (later ds (suc n)) (at_dirs s (d ∷ ds) fs) (at_dirs s ds fs)
            (unfold do_work scanning in rw e refl) in
        rw e (step ∙ runs-dirs ds s fs n)
  ]

  abbrev pub dirs_of : Bool → List (List ℕ)
  dirs_of dev =
      default_dirs plugin_dir env is_directory entries module_open plugin_api_version dev
      ++ env_dirs plugin_dir env is_directory entries module_open plugin_api_version env

  abbrev pub files_of : Bool → List (List ℕ)
  files_of dev = found_files (dirs_of dev)

  -- When no file name is shorter than ".so": doWork returns false in a call whose number is that of the
  -- directories and the files together, and four more. By then the plugins among the files that end in
  -- ".so" are kept, in the order of the directories and their entries; the modules that are open are those
  -- of the kept plugins and the ones that were open before; and on_done_loading_plugins was called once.
  pub run-add_hook :
      (dev : Bool) (s : PluginManager)
      → AllLong (files_of dev)
      → run plugin_dir env is_directory entries module_open plugin_api_version
          (length (dirs_of dev) + length (files_of dev) + 4)
          (add_hook dev s)
        ≡ some (record s {
          state = done;
          dev_mode = dev;
          dirs = dirs_of dev;
          current_dir = [];
          files = files_of dev;
          current_file = [];
          plugin_information_list = s.plugin_information_list ++ loadable (files_of dev);
          open_modules = reverse_onto (loadable (files_of dev)) s.open_modules;
          done_calls = suc s.done_calls;
        })
  unfolding add_hook
  run-add_hook dev s h =
      let start = record s { dev_mode = dev; dirs = dirs_of dev } in
      let enough : length (dirs_of dev) + length (files_of dev) + 4
          ≡ suc (later (dirs_of dev) (suc (later (files_of dev) 2))) =
        omega (
          arith,
          later_lem (dirs_of dev) (suc (later (files_of dev) 2)),
          later_lem (files_of dev) 2,
        ) in
      rw enough (
        runs-step (later (dirs_of dev) (suc (later (files_of dev) 2))) (add_hook dev s)
          (at_dirs start (dirs_of dev) []) (unfold do_work finding in refl)
        ∙ runs-dirs (dirs_of dev) start [] (later (files_of dev) 2)
        ∙ runs-files (files_of dev) (scanned start (files_of dev)) s.plugin_information_list
            s.open_modules h)
