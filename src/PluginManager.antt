-- ===== src/PluginManager.antt =====
-- gui/src/pluginmanager.cc: the directories that are searched for plugins, and the states of doWork, as
-- built for other systems than Windows. The environment variable, the file system and the modules that
-- GModule opens are parameters. Texts are lists of bytes. `none` is the exception std::out_of_range.
use scroom.Common.{
  ℕ, zero, suc, ◌-◌, Bool, true, false, ◌&&◌, ◌||◌, ◌==◌, ltb, if◌then◌else◌, Option, none, some,
  List, [], ◌∷◌, ◌++◌, length, drop,
}
pub mod Directories
pub mod Loading
mod Examples

pub data State : Type 0 where
  finding_directories scanning_directories loading_files done : State

pub data Kind : Type 0 where
  regular_file symlink other directory : Kind

pub record Entry : Type 0 where
  pub path : List ℕ
  pub kind : Kind

-- What g_module_symbol finds, and what the function that it finds returns: `none` for a function that
-- is NULL, `some none` for one that returns NULL, else the version of the interface.
pub record Module : Type 0 where
  pub has_symbol : Bool
  pub has_c_symbol : Bool
  pub get_plugin_information : Option (Option ℕ)

-- `current_dir` and `current_file` are what the iterators have before them. `open_modules` are the
-- modules that are open, the latest first; `done_calls` counts the calls of on_done_loading_plugins.
pub record PluginManager : Type 0 where
  pub state : State
  pub dev_mode : Bool
  pub dirs : List (List ℕ)
  pub current_dir : List (List ℕ)
  pub files : List (List ℕ)
  pub current_file : List (List ℕ)
  pub plugin_information_list : List (List ℕ)
  pub open_modules : List (List ℕ)
  pub done_calls : ℕ

abbrev pub delimiter : ℕ
delimiter = 58

abbrev pub dot_so : List ℕ
dot_so = 46 ∷ 115 ∷ 111 ∷ []

pub same : List ℕ → List ℕ → Bool
same [] [] = true
same [] (d ∷ t) = false
same (c ∷ s) [] = false
same (c ∷ s) (d ∷ t) = (c == d) && same s t

-- currentFile->compare(currentFile->size() - 3, 3, ".so") == 0
pub compare_end : List ℕ → Option Bool
compare_end file =
    if ltb (length file) 3 then none else some (same (drop (length file - 3) file) dot_so)

-- The loop over the environment variable; `path` is the text from `path` to `i`.
pub find_dirs : List ℕ → List ℕ → List (List ℕ)
find_dirs path [] = path ∷ []
find_dirs path (c ∷ cs) = elim (c == delimiter) [
  | true ↦ path ∷ find_dirs [] cs
  | false ↦ find_dirs (path ++ c ∷ []) cs
]

pub is_file : Kind → Bool
is_file regular_file = true
is_file symlink = true
is_file other = true
is_file directory = false

pub scan_entries : List Entry → List (List ℕ)
scan_entries [] = []
scan_entries (e ∷ es) = let rest = scan_entries es in if is_file e.kind then e.path ∷ rest else rest

pub add_hook : Bool → PluginManager → PluginManager
add_hook dev s = record s { dev_mode = dev; state = finding_directories }

module _ (plugin_dir : List ℕ) (env : Option (List ℕ)) (is_directory : List ℕ → Bool)
    (entries : List ℕ → List Entry) (module_open : List ℕ → Option Module)
    (plugin_api_version : ℕ) where
  pub default_dirs : Bool → List (List ℕ)
  default_dirs dev = if dev then [] else plugin_dir ∷ []

  pub env_dirs : Option (List ℕ) → List (List ℕ)
  env_dirs none = []
  env_dirs (some path) = find_dirs [] path

  pub finding : PluginManager → PluginManager
  finding s =
      let all = default_dirs s.dev_mode ++ env_dirs env in
      record s { dirs = all; current_dir = all; files = []; state = scanning_directories }

  pub scanning : List (List ℕ) → PluginManager → PluginManager
  scanning [] s = record s { state = loading_files; current_file = s.files }
  scanning (d ∷ ds) s =
      if is_directory d
      then record s { files = s.files ++ scan_entries (entries d); current_dir = ds }
      else record s { current_dir = ds }

  -- `plugin` is NULL after this when the plugin is kept.
  pub keeps : Module → Bool
  keeps m =
      if m.has_symbol || m.has_c_symbol
      then elim m.get_plugin_information [
        | none ↦ false
        | some none ↦ false
        | some (some version) ↦ version == plugin_api_version
      ]
      else false

  pub module_close : PluginManager → PluginManager
  module_close s = record s { open_modules = drop 1 s.open_modules }

  pub load_module : List ℕ → Option Module → PluginManager → PluginManager
  load_module file none s = s
  load_module file (some m) s =
      let opened = record s { open_modules = file ∷ s.open_modules } in
      if keeps m
      then record opened { plugin_information_list = s.plugin_information_list ++ file ∷ [] }
      else module_close opened

  pub loading : List (List ℕ) → PluginManager → Option PluginManager
  loading [] s = some (record s { state = done })
  loading (file ∷ rest) s = elim (compare_end file) [
    | none ↦ none
    | some is_so ↦ some (record (if is_so then load_module file (module_open file) s else s) {
      current_file = rest;
    })
  ]

  -- With the value that is returned, whether to be called again.
  pub do_work : PluginManager → Option (PluginManager × Bool)
  do_work s = elim s.state [
    | finding_directories ↦ some (finding s, true)
    | scanning_directories ↦ some (scanning s.current_dir s, true)
    | loading_files ↦ elim (loading s.current_file s) [ none ↦ none | some t ↦ some (t, true) ]
    | done ↦ some (record s { done_calls = suc s.done_calls }, false)
  ]

  -- The main loop of GTK calls doWork until it returns false; here at most `fuel` times.
  pub run : ℕ → PluginManager → Option PluginManager
  run zero s = none
  run (suc fuel) s = elim (do_work s) [
    | none ↦ none
    | some (t, true) ↦ run fuel t
    | some (t, false) ↦ some t
  ]
