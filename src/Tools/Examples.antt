-- ===== src/Tools/Examples.antt =====
-- Two tools at work.
use scroom.Common.{◌≡◌, refl, true, false, none, some, List, [], ◌∷◌}
use scroom.Tools.{
  Event, adds, clicks, updates, ends, puts, removes, handle_all, handle, add_to_toolbar,
  add_tool_button, empty_bar, remove_from_toolbar, select, click, is_sensitive, add_tool,
  enable_button, tool_button_toggled, is_active, set_active, new_tool, deactivate_others,
  on_selection_end, on_disable, on_enable, on_selection_update,
}
use scroom.Tools.Radio.{IsRadio, handle_all-IsRadio, empty_bar-IsRadio}

-- Two tools, a measurement with the first, then the second one is clicked, and an item comes and goes.
abbrev work : List Event
work = adds ∷ adds ∷ updates 7 ∷ ends 8 ∷ clicks 1 ∷ clicks 1 ∷ ends 9 ∷ puts ∷ removes ∷ []

work_test :
    (handle_all work empty_bar).tools
    ≡ (record { button = 1; active = true; sensitive = false; enabled = true; selection = some 9 })
      ∷ (record { button = 0; active = false; sensitive = true; enabled = false; selection = none })
      ∷ []
unfolding handle_all handle add_to_toolbar add_tool_button empty_bar remove_from_toolbar select
    click is_sensitive add_tool enable_button tool_button_toggled is_active set_active new_tool
    deactivate_others on_selection_end on_disable on_enable on_selection_update
work_test = refl

handle_all-IsRadio_example : IsRadio (handle_all work empty_bar)
handle_all-IsRadio_example = handle_all-IsRadio work empty_bar empty_bar-IsRadio
