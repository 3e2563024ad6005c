-- ===== src/PluginManager/Examples.antt =====
-- A directory p with a plugin, a text and a module that is none; the variable names a and b.
use scroom.Common.{
  ℕ, Bool, true, false, ◌+◌, ◌≡◌, refl, List, [], ◌∷◌, Option, none, some, if◌then◌else◌, length,
  arith,
}
use scroom.PluginManager.{
  PluginManager, Entry, Module, finding_directories, done, regular_file, directory, same, run,
  add_hook, find_dirs, default_dirs, env_dirs, scan_entries, is_file, compare_end,
}
use scroom.PluginManager.Directories.{join, AllLack, join-find_dirs}
use scroom.PluginManager.Loading.{
  AllLong, found_files, loadable, loadable_file, reverse_onto, dirs_of, files_of, run-add_hook,
  opens_as_plugin, is_plugin,
}

abbrev plugin_dir : List ℕ
plugin_dir = 112 ∷ []

abbrev variable : List ℕ
variable = 97 ∷ 58 ∷ 98 ∷ []

abbrev good_so : List ℕ
good_so = 112 ∷ 47 ∷ 103 ∷ 46 ∷ 115 ∷ 111 ∷ []

abbrev bad_so : List ℕ
bad_so = 112 ∷ 47 ∷ 98 ∷ 46 ∷ 115 ∷ 111 ∷ []

abbrev text : List ℕ
text = 112 ∷ 47 ∷ 116 ∷ []

abbrev is_dir : List ℕ → Bool
is_dir d = same d plugin_dir

abbrev all_entries : List ℕ → List Entry
all_entries d =
    record { path = bad_so; kind = regular_file }
    ∷ record { path = text; kind = regular_file }
    ∷ record { path = 112 ∷ []; kind = directory }
    ∷ record { path = good_so; kind = regular_file }
    ∷ []

abbrev open_module : List ℕ → Option Module
open_module f = some (record {
  has_symbol = true;
  has_c_symbol = false;
  get_plugin_information = if same f good_so then some (some 3) else some (some 2);
})

abbrev fresh : PluginManager
fresh = record {
  state = finding_directories;
  dev_mode = false;
  dirs = [];
  current_dir = [];
  files = [];
  current_file = [];
  plugin_information_list = [];
  open_modules = [];
  done_calls = 0;
}

files_test :
    files_of plugin_dir (some variable) is_dir all_entries open_module 3 false
    ≡ bad_so ∷ text ∷ good_so ∷ []
unfolding found_files scan_entries is_file default_dirs env_dirs find_dirs same
files_test = refl

loadable_test :
    loadable plugin_dir
      (some variable)
      is_dir
      all_entries
      open_module
      3
      (bad_so ∷ text ∷ good_so ∷ [])
    ≡ good_so ∷ []
unfolding loadable loadable_file opens_as_plugin is_plugin same
loadable_test = refl

-- A name that is too short makes an exception.
short_test : compare_end (47 ∷ 97 ∷ []) ≡ none
unfolding compare_end
short_test = refl

files-AllLong : AllLong (files_of plugin_dir (some variable) is_dir all_entries open_module 3 false)
unfolding AllLong
files-AllLong = rw files_test (omega arith, (omega arith, (omega arith, _)))

run-add_hook_example :
    run plugin_dir
      (some variable)
      is_dir
      all_entries
      open_module
      3
      (length (dirs_of plugin_dir (some variable) is_dir all_entries open_module 3 false)
        + length (files_of plugin_dir (some variable) is_dir all_entries open_module 3 false)
        + 4)
      (add_hook false fresh)
    ≡ some (record fresh {
      state = done;
      dirs = dirs_of plugin_dir (some variable) is_dir all_entries open_module 3 false;
      files = files_of plugin_dir (some variable) is_dir all_entries open_module 3 false;
      plugin_information_list =
          loadable plugin_dir
            (some variable)
            is_dir
            all_entries
            open_module
            3
            (files_of plugin_dir (some variable) is_dir all_entries open_module 3 false);
      open_modules =
          reverse_onto
            (loadable plugin_dir
              (some variable)
              is_dir
              all_entries
              open_module
              3
              (files_of plugin_dir (some variable) is_dir all_entries open_module 3 false))
            [];
      done_calls = 1;
    })
run-add_hook_example =
    run-add_hook plugin_dir (some variable) is_dir all_entries open_module 3 false fresh
      files-AllLong

join-find_dirs_example : (join (find_dirs [] variable) ≡ variable) × AllLack (find_dirs [] variable)
join-find_dirs_example = join-find_dirs variable
