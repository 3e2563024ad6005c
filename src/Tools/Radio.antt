-- ===== src/Tools/Radio.antt =====
-- One tool at a time.
use scroom.Common.{
  ℕ, ◌+◌, ◌≡◌, ◌≤◌, ◌<◌, refl, ap, sym, ◌∙◌, subst, true, false, not, ◌==◌, if◌then◌else◌, none,
  List, [], ◌∷◌, arith, Bool-cases, inl, inr, ◌⊎◌,
}
use scroom.Tools.{
  Tool, Bar, on_disable, on_enable, on_selection_update, on_selection_end, deactivate_others,
  enable_button, is_active, tool_button_toggled, set_active, is_sensitive, click, new_tool,
  add_tool, add_to_toolbar, remove_from_toolbar, add_tool_button, select, Event, adds, clicks,
  updates, ends, puts, removes, handle, handle_all, empty_bar,
}

-- An active button is the one that is not sensitive, and the one whose listener is enabled; no other
-- listener has a selection.
pub record IsSettled (t : Tool) : Type 0 where
  pub enabled : t.enabled ≡ t.active
  pub sensitive : t.sensitive ≡ not t.active
  pub selection : (t.selection ≡ none) ⊎ (t.active ≡ true)

pub AllSettled : List Tool → Type 0
AllSettled [] = Unit {0}
AllSettled (t ∷ ts) = IsSettled t × AllSettled ts

pub active_count : List Tool → ℕ
active_count [] = 0
active_count (t ∷ ts) = (if t.active then 1 else 0) + active_count ts

-- How many entries the button has.
pub entries : ℕ → List Tool → ℕ
entries b [] = 0
entries b (t ∷ ts) = (if t.button == b then 1 else 0) + entries b ts

-- What a click on the button b makes of a tool.
picked : ℕ → Tool → Tool
picked b t =
    if t.button == b
    then record t { active = true; sensitive = false; enabled = true }
    else if t.active
    then record t { active = false; sensitive = true; enabled = false; selection = none }
    else t

abbrev clicked : ℕ → List Tool → List Tool
clicked b ts = enable_button b (deactivate_others b (set_active b ts))

clicked-nil : (b : ℕ) → clicked b [] ≡ []
unfolding enable_button deactivate_others set_active
clicked-nil b = refl

clicked-cons : (b : ℕ) (t : Tool) (ts : List Tool) → clicked b (t ∷ ts) ≡ picked b t ∷ clicked b ts
unfolding enable_button deactivate_others set_active picked on_enable on_disable
clicked-cons b t ts = ground arith

picked-IsSettled : (b : ℕ) (t : Tool) → IsSettled t → IsSettled (picked b t)
unfolding picked
picked-IsSettled b t h = ground (arith, h.enabled, h.sensitive, h.selection)

clicked-AllSettled : (b : ℕ) (ts : List Tool) → AllSettled ts → AllSettled (clicked b ts)
unfolding AllSettled
clicked-AllSettled b [] h = subst AllSettled (sym (clicked-nil b)) h
clicked-AllSettled b (t ∷ ts) (ht, h) =
    subst AllSettled (sym (clicked-cons b t ts))
      (picked-IsSettled b t ht, clicked-AllSettled b ts h)

active_count-clicked : (b : ℕ) (ts : List Tool) → active_count (clicked b ts) ≡ entries b ts
unfolding active_count entries picked
active_count-clicked b [] = rw (clicked-nil b) refl
active_count-clicked b (t ∷ ts) =
    rw (clicked-cons b t ts) (ground (arith, active_count-clicked b ts))

entries-clicked : (c b : ℕ) (ts : List Tool) → entries c (clicked b ts) ≡ entries c ts
unfolding entries picked
entries-clicked c b [] = rw (clicked-nil b) refl
entries-clicked c b (t ∷ ts) = rw (clicked-cons b t ts) (ground (arith, entries-clicked c b ts))

is_active-set_active :
    (b : ℕ) (ts : List Tool) → is_sensitive b ts ≡ true → is_active b (set_active b ts) ≡ true
unfolding is_active set_active is_sensitive
is_active-set_active b [] e = cc
is_active-set_active b (t ∷ ts) e = ground (arith, e, is_active-set_active b ts)

sensitive-entries : (b : ℕ) (ts : List Tool) → is_sensitive b ts ≡ true → 0 < entries b ts
unfolding is_sensitive entries
sensitive-entries b [] e = cc
sensitive-entries b (t ∷ ts) e = ground (arith, e, sensitive-entries b ts)

click-clicked : (b : ℕ) (ts : List Tool) → is_sensitive b ts ≡ true → click b ts ≡ clicked b ts
unfolding click tool_button_toggled
click-clicked b ts e = ground (arith, e, is_active-set_active b ts)

-- Both handlers of selections set the selection of an enabled listener, and nothing else.
KeepsSettled : (Tool → Tool) → Type 0
KeepsSettled f =
    (t : Tool)
    → IsSettled t
    → IsSettled (f t) × ((f t).button ≡ t.button) × ((f t).active ≡ t.active)

update-KeepsSettled : (s : ℕ) → KeepsSettled (on_selection_update s)
unfolding KeepsSettled on_selection_update
update-KeepsSettled s t h =
    (ground (arith, h.enabled, h.sensitive, h.selection), ground arith, ground arith)

end-KeepsSettled : (s : ℕ) → KeepsSettled (on_selection_end s)
unfolding KeepsSettled on_selection_end
end-KeepsSettled s t h =
    (ground (arith, h.enabled, h.sensitive, h.selection), ground arith, ground arith)

select-lem :
    (f : Tool → Tool)
    → KeepsSettled f
    → (ts : List Tool) → AllSettled ts
    → AllSettled (select f ts)
      × (active_count (select f ts) ≡ active_count ts)
      × ((b : ℕ) → entries b (select f ts) ≡ entries b ts)
unfolding select AllSettled active_count entries KeepsSettled
select-lem f k [] h = (h, refl, λ b. refl)
select-lem f k (t ∷ ts) (ht, h) =
    let (settled, same, active) = k t ht in
    let (rest, count, counts) = select-lem f k ts h in
    ((settled, rest), ground (arith, active, count), λ b. ground (arith, same, counts b))

-- The tools of a view: all settled, one of them active if there is any, and each button once. The
-- separator is there exactly while the tool bar has items.
pub record IsRadio (w : Bar) : Type 0 where
  pub settled : AllSettled w.tools
  pub one_active : (w.tools ≡ []) ⊎ (active_count w.tools ≡ 1)
  pub distinct : (b : ℕ) → entries b w.tools ≤ 1
  pub fresh : (b : ℕ) → w.next_button ≤ b → entries b w.tools ≡ 0
  pub separator : w.has_separator ≡ not (w.tool_bar_count == 0)

click-IsRadio : (b : ℕ) (w : Bar) → IsRadio w → IsRadio (record w { tools = click b w.tools })
click-IsRadio b w h = elim (Bool-cases (is_sensitive b w.tools)) [
  | inl e ↦
      let present = sensitive-entries b w.tools e in
      let once = h.distinct b in
      rw (click-clicked b w.tools e) (record {
        settled = clicked-AllSettled b w.tools h.settled;
        one_active = inr (omega (arith, active_count-clicked b w.tools, present, once));
        distinct = λ c. omega (arith, entries-clicked c b w.tools, h.distinct c);
        fresh = λ c le. entries-clicked c b w.tools ∙ h.fresh c le;
        separator = h.separator;
      })
  | inr e ↦
      let same : click b w.tools ≡ w.tools = unfold click in rw e refl in
      rw same (record {
        settled = h.settled;
        one_active = h.one_active;
        distinct = h.distinct;
        fresh = h.fresh;
        separator = h.separator;
      })
]

select-IsRadio :
    (f : Tool → Tool)
    → KeepsSettled f
    → (w : Bar) → IsRadio w
    → IsRadio (record w { tools = select f w.tools })
select-IsRadio f k w h =
    let (settled, count, counts) = select-lem f k w.tools h.settled in
    record {
      settled = settled;
      one_active = elim h.one_active [
        | inl e ↦ inl (ap (select f) e ∙ unfold select in refl)
        | inr e ↦ inr (count ∙ e)
      ];
      distinct = λ b. omega (arith, counts b, h.distinct b);
      fresh = λ b le. counts b ∙ h.fresh b le;
      separator = h.separator;
    }

-- The first tool becomes active.
first_tool : ℕ → Tool
first_tool b = record {
  button = b;
  active = true;
  sensitive = false;
  enabled = true;
  selection = none;
}

add_tool-first : (b : ℕ) → add_tool b [] ≡ first_tool b ∷ []
unfolding add_tool new_tool first_tool enable_button tool_button_toggled set_active
    deactivate_others is_active on_enable on_disable
add_tool-first b = ground arith

one_tool :
    (t : Tool) (ts : List Tool)
    → (t ∷ ts ≡ []) ⊎ (active_count (t ∷ ts) ≡ 1)
    → active_count (t ∷ ts) ≡ 1
one_tool t ts (inl e) = cc
one_tool t ts (inr e) = e

-- A later one does not.
add_tool-lem :
    (b : ℕ) (ts : List Tool)
    → AllSettled ts
    → (ts ≡ []) ⊎ (active_count ts ≡ 1)
    → AllSettled (add_tool b ts)
      × (active_count (add_tool b ts) ≡ 1)
      × ((c : ℕ) → entries c (add_tool b ts) ≡ (if b == c then 1 else 0) + entries c ts)
unfolding AllSettled active_count entries new_tool
add_tool-lem b [] h one = rw (add_tool-first b) (
    unfold first_tool in
    ((record { enabled = refl; sensitive = refl; selection = inr refl }, h), refl, λ c. refl))
add_tool-lem b (t ∷ ts) (ht, h) one =
    unfold add_tool in
    (
      (record { enabled = refl; sensitive = refl; selection = inl refl }, (ht, h)),
      ground (arith, one_tool t ts one),
      λ c. refl,
    )

add_tool_button-IsRadio : (w : Bar) → IsRadio w → IsRadio (add_tool_button w)
unfolding add_tool_button add_to_toolbar
add_tool_button-IsRadio w h =
    let (settled, one, counts) = add_tool-lem w.next_button w.tools h.settled h.one_active in
    record {
      settled = settled;
      one_active = inr one;
      distinct = λ b. grind (arith, counts b, h.distinct b, h.fresh b);
      fresh = λ b le. grind (arith, counts b, h.fresh b);
      separator = ground (arith, h.separator);
    }

-- The separator does not matter to the buttons.
separate :
    (w v : Bar)
    → IsRadio w
    → v.tools ≡ w.tools
    → v.next_button ≡ w.next_button
    → v.has_separator ≡ not (v.tool_bar_count == 0)
    → IsRadio v
separate w v h same next separator = record {
  settled = subst AllSettled (sym same) h.settled;
  one_active = rw same h.one_active;
  distinct = rw same h.distinct;
  fresh = rw same (rw next h.fresh);
  separator = separator;
}

add_to_toolbar-IsRadio : (w : Bar) → IsRadio w → IsRadio (add_to_toolbar w)
add_to_toolbar-IsRadio w h =
    separate w (add_to_toolbar w) h (unfold add_to_toolbar in ground arith)
      (unfold add_to_toolbar in ground arith) (unfold add_to_toolbar in ground (arith, h.separator))

remove_from_toolbar-IsRadio :
    (w : Bar) → (w.tool_bar_count == 0) ≡ false → IsRadio w → IsRadio (remove_from_toolbar w)
remove_from_toolbar-IsRadio w nonzero h =
    separate w (remove_from_toolbar w) h (unfold remove_from_toolbar in ground arith)
      (unfold remove_from_toolbar in ground arith)
      (unfold remove_from_toolbar in ground (arith, h.separator))

handle-IsRadio : (e : Event) (w : Bar) → IsRadio w → IsRadio (handle e w)
unfolding handle
handle-IsRadio adds w h = add_tool_button-IsRadio w h
handle-IsRadio (clicks b) w h = click-IsRadio b w h
handle-IsRadio (updates s) w h = select-IsRadio (on_selection_update s) (update-KeepsSettled s) w h
handle-IsRadio (ends s) w h = select-IsRadio (on_selection_end s) (end-KeepsSettled s) w h
handle-IsRadio puts w h = add_to_toolbar-IsRadio w h
handle-IsRadio removes w h = elim (Bool-cases (w.tool_bar_count == 0)) [
  | inl e ↦ rw e h
  | inr e ↦ rw e (remove_from_toolbar-IsRadio w e h)
]

-- From tools with the invariant, such as none, whatever the user clicks and selects, and whatever
-- buttons and items are added to and removed from the tool bar: if there are buttons then exactly one is
-- active, it is the one that is not sensitive and the one whose listener is enabled, no other listener
-- has a selection, all buttons differ, and the separator is there exactly while the tool bar has items.
pub handle_all-IsRadio : (es : List Event) (w : Bar) → IsRadio w → IsRadio (handle_all es w)
unfolding handle_all
handle_all-IsRadio [] w h = h
handle_all-IsRadio (e ∷ es) w h = handle_all-IsRadio es (handle e w) (handle-IsRadio e w h)

pub empty_bar-IsRadio : IsRadio empty_bar
unfolding AllSettled entries empty_bar
empty_bar-IsRadio = record {
  settled = tt;
  one_active = inl refl;
  distinct = λ b. omega arith;
  fresh = λ b le. refl;
  separator = refl;
}
