-- ===== src/PipetteHandler.antt =====
-- PipetteHandler of plugins/pipette/src/pipette.cc: selections start jobs that compute pixel averages, one
-- after the other on the thread of Sequentially(). A job holds jobMutex from its start to its end. The
-- other calls, on the thread of the gui, come anywhere between its steps: it starts; it computes the
-- averages and tests the flag; it has the gui show them; and it clears the flag and gives the mutex
-- back. `compute` stands for getPixelAverages.
use scroom.Common.{
  Bool, true, false, ◌&&◌, not, if◌then◌else◌, Option, none, some, List, [], ◌∷◌, ◌++◌,
}
pub mod Ignored
pub mod Quiet
mod Examples

-- The job that holds the mutex: before its test of the flag; when it is about to show its values;
-- before it clears the flag; and where there are no pixel averages, so that it just leaves.
pub data Running {ℓ} (A : Type ℓ) : Type ℓ where
  free : Running A
  working posting : A → Running A
  clearing leaving : Running A

pub is_free {ℓ} : {A : Type ℓ} → Running A → Bool
is_free free = true
is_free _ = false

pub data Message {ℓ} (A : Type ℓ) : Type ℓ where
  computing unsupported : Message A
  values : A → Message A

pub data Event {ℓ} (A : Type ℓ) : Type ℓ where
  selection_update selection_end : A → Event A
  enable disable : Event A
  job_start job_show job_end : Event A
  job_test : Bool → Event A

-- `pending` are the scheduled jobs, the next one first, and `messages` those of the status bar.
pub record Handler (Selection Colors : Type 0) : Type 0 where
  pub selection : Option Selection
  pub enabled : Bool
  pub was_disabled : Bool
  pub running : Running Selection
  pub pending : List Selection
  pub messages : List (Message Colors)

module _ {Selection Colors : Type 0} (compute : Selection → Colors) where
  pub create : Handler Selection Colors
  create = record {
    selection = none;
    enabled = false;
    was_disabled = false;
    running = free;
    pending = [];
    messages = [];
  }

  pub on_selection_update : Selection → Handler Selection Colors → Handler Selection Colors
  on_selection_update s h =
      if h.enabled && is_free h.running then record h { selection = some s } else h

  pub on_selection_end : Selection → Handler Selection Colors → Handler Selection Colors
  on_selection_end s h =
      if h.enabled && is_free h.running
      then record h { selection = some s; pending = h.pending ++ s ∷ [] }
      else h

  pub on_disable : Handler Selection Colors → Handler Selection Colors
  on_disable h = record h { selection = none; enabled = false; was_disabled = true }

  pub on_enable : Handler Selection Colors → Handler Selection Colors
  on_enable h =
      if is_free h.running
      then record h { enabled = true; was_disabled = false }
      else record h { enabled = true }

  pub say : Message Colors → Handler Selection Colors → Handler Selection Colors
  say m h = record h { messages = h.messages ++ m ∷ [] }

  -- The four steps of computeValues
  pub compute_start :
      Selection → List Selection → Handler Selection Colors → Handler Selection Colors
  compute_start s rest h = say computing (record h { pending = rest; running = working s })

  -- `wasDisabled.test_and_set()`, or the message that there are no pixel averages
  pub compute_test : Bool → Selection → Handler Selection Colors → Handler Selection Colors
  compute_test supported s h =
      if supported
      then if h.was_disabled
        then record h { running = clearing }
        else record h { was_disabled = true; running = posting s }
      else say unsupported (record h { running = leaving })

  pub display_values : Selection → Handler Selection Colors → Handler Selection Colors
  display_values s h = say (values (compute s)) (record h { running = clearing })

  -- The job that waits starts when none is running.
  pub start_next :
      Running Selection → List Selection → Handler Selection Colors → Handler Selection Colors
  start_next free (s ∷ rest) h = compute_start s rest h
  start_next _ jobs h = h

  -- The other steps take place when the job is there.
  pub test_running : Bool → Running Selection → Handler Selection Colors → Handler Selection Colors
  test_running supported (working s) h = compute_test supported s h
  test_running supported _ h = h

  pub show_running : Running Selection → Handler Selection Colors → Handler Selection Colors
  show_running (posting s) h = display_values s h
  show_running _ h = h

  pub compute_end : Running Selection → Handler Selection Colors → Handler Selection Colors
  compute_end clearing h = record h { was_disabled = false; running = free }
  compute_end leaving h = record h { running = free }
  compute_end _ h = h

  pub handle : Event Selection → Handler Selection Colors → Handler Selection Colors
  handle (selection_update s) h = on_selection_update s h
  handle (selection_end s) h = on_selection_end s h
  handle enable h = on_enable h
  handle disable h = on_disable h
  handle job_start h = start_next h.running h.pending h
  handle (job_test supported) h = test_running supported h.running h
  handle job_show h = show_running h.running h
  handle job_end h = compute_end h.running h

  pub handle_all : List (Event Selection) → Handler Selection Colors → Handler Selection Colors
  handle_all [] h = h
  handle_all (e ∷ es) h = handle_all es (handle e h)
