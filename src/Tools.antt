-- ===== src/Tools.antt =====
-- The tools of a view: toolButtonToggled, addToolButton and the tool bar of gui/src/view.cc, with the
-- MeasureHandler of plugins/measure/src/measure.cc as the listener of each button. Buttons and
-- selections are numbers; GTK emits "toggled" when a button becomes active or inactive, and the user
-- can click on sensitive buttons only.
use scroom.Common.{
  ℕ, zero, suc, ◌+◌, ◌-◌, Bool, true, false, not, ◌&&◌, ◌||◌, ◌==◌, if◌then◌else◌, Option, none,
  some, List, [], ◌∷◌, length,
}
pub mod Radio
mod Examples

-- An entry of `tools`: the button, and its listener with `enabled` and `selection`.
pub record Tool : Type 0 where
  pub button : ℕ
  pub active : Bool
  pub sensitive : Bool
  pub enabled : Bool
  pub selection : Option ℕ

-- A button that is made is numbered `next_button`.
pub record Bar : Type 0 where
  pub tools : List Tool
  pub tool_bar_count : ℕ
  pub has_separator : Bool
  pub next_button : ℕ

pub empty_bar : Bar
empty_bar = record { tools = []; tool_bar_count = 0; has_separator = false; next_button = 0 }

-- MeasureHandler
pub on_disable : Tool → Tool
on_disable t = record t { selection = none; enabled = false }

pub on_enable : Tool → Tool
on_enable t = record t { enabled = true }

pub on_selection_update : ℕ → Tool → Tool
on_selection_update s t = if t.enabled then record t { selection = some s } else t

pub on_selection_end : ℕ → Tool → Tool
on_selection_end s t = if t.enabled then record t { selection = some s } else t

-- Setting a button inactive emits a signal that toolButtonToggled ignores.
pub deactivate_others : ℕ → List Tool → List Tool
deactivate_others b [] = []
deactivate_others b (t ∷ ts) =
    (if not (t.button == b) && t.active
      then on_disable (record t { active = false; sensitive = true })
      else t)
    ∷ deactivate_others b ts

pub enable_button : ℕ → List Tool → List Tool
enable_button b [] = []
enable_button b (t ∷ ts) =
    (if t.button == b then on_enable (record t { sensitive = false }) else t) ∷ enable_button b ts

pub is_active : ℕ → List Tool → Bool
is_active b [] = false
is_active b (t ∷ ts) = ((t.button == b) && t.active) || is_active b ts

pub tool_button_toggled : ℕ → List Tool → List Tool
tool_button_toggled b ts = if is_active b ts then enable_button b (deactivate_others b ts) else ts

-- gtk_toggle_button_set_active for true, before the signal
pub set_active : ℕ → List Tool → List Tool
set_active b [] = []
set_active b (t ∷ ts) = (if t.button == b then record t { active = true } else t) ∷ set_active b ts

pub is_sensitive : ℕ → List Tool → Bool
is_sensitive b [] = false
is_sensitive b (t ∷ ts) = ((t.button == b) && t.sensitive) || is_sensitive b ts

-- A click on a sensitive button, which no active one is.
pub click : ℕ → List Tool → List Tool
click b ts = if is_sensitive b ts then tool_button_toggled b (set_active b ts) else ts

pub add_to_toolbar : Bar → Bar
add_to_toolbar w = record (if w.tool_bar_count == 0 then record w { has_separator = true } else w) {
  tool_bar_count = suc w.tool_bar_count;
}

pub remove_from_toolbar : Bar → Bar
remove_from_toolbar w =
    let less = record w { tool_bar_count = w.tool_bar_count - 1 } in
    if w.tool_bar_count - 1 == 0 then record less { has_separator = false } else less

-- A new button
pub new_tool : ℕ → Tool
new_tool b = record {
  button = b;
  active = false;
  sensitive = true;
  enabled = false;
  selection = none;
}

pub add_tool : ℕ → List Tool → List Tool
add_tool b [] = enable_button b (tool_button_toggled b (set_active b (new_tool b ∷ [])))
add_tool b (t ∷ ts) = new_tool b ∷ t ∷ ts

pub add_tool_button : Bar → Bar
add_tool_button w = record (add_to_toolbar w) {
  tools = add_tool w.next_button w.tools;
  next_button = suc w.next_button;
}

pub select : (Tool → Tool) → List Tool → List Tool
select listener [] = []
select listener (t ∷ ts) = listener t ∷ select listener ts

pub data Event : Type 0 where
  clicks updates ends : ℕ → Event
  adds puts removes : Event

-- `puts` and `removes` are other items of the tool bar; an item that is not there is not removed.
pub handle : Event → Bar → Bar
handle adds w = add_tool_button w
handle (clicks b) w = record w { tools = click b w.tools }
handle (updates s) w = record w { tools = select (on_selection_update s) w.tools }
handle (ends s) w = record w { tools = select (on_selection_end s) w.tools }
handle puts w = add_to_toolbar w
handle removes w = if w.tool_bar_count == 0 then w else remove_from_toolbar w

pub handle_all : List Event → Bar → Bar
handle_all [] w = w
handle_all (e ∷ es) w = handle_all es (handle e w)
