-- ===== src/Progress.antt =====
-- libs/util/src/progressinterfacehelpers.cc: reports of progress. The two interfaces for it, what
-- turns one into the other, and the store, broadcaster and multiplexer behind them. A double is a
-- value of a type that is a parameter, with the arithmetic that the source does with it.
use scroom.Common.{
  ℕ, zero, suc, ◌+◌, ◌≡◌, Bool, true, false, ◌||◌, ◌==◌, if◌then◌else◌, List, [], ◌∷◌, ◌++◌, map,
}
pub mod Conversion
pub mod Multiplexing
pub mod Broadcasting
mod Examples

pub data State : Type 0 where
  idle waiting working finished : State

module _ (Double : Type 0) where
  -- A call of ProgressInterface.
  pub data Call : Type 0 where
    set_idle set_finished : Call
    set_waiting set_working : Double → Call

  -- ProgressStore, and ProgressInterfaceMultiplexer::ChildData
  pub record Store : Type 0 where
    pub state : State
    pub progress : Double

  -- The variables of updateProgressState.
  pub record Total : Type 0 where
    pub state : State
    pub progress : Double
    pub workers : ℕ

abbrev is_finished : State → Bool
is_finished finished = true
is_finished _ = false

module _ {Double : Type 0} where
  -- ProgressInterfaceFromProgressStateInterface: the arguments of its call of setProgress.
  pub to_state : Double → Double → Call Double → State × Double
  to_state nothing all set_idle = (idle, nothing)
  to_state nothing all (set_waiting p) = (waiting, p)
  to_state nothing all (set_working p) = (working, p)
  to_state nothing all set_finished = (finished, all)

  -- ProgressStateInterfaceFromProgressInterface::setProgress: the call that it makes.
  pub from_state : State → Double → Call Double
  from_state idle p = set_idle
  from_state waiting p = set_waiting p
  from_state working p = set_working p
  from_state finished p = set_finished

  pub create_store : Double → Store Double
  create_store nothing = record { state = idle; progress = nothing }

  -- ProgressStore::setProgress and ChildData::setProgress
  pub set_progress : State → Double → Store Double → Store Double
  set_progress s p store = record store { state = s; progress = p }

  -- A call on the store.
  pub tell_store : Double → Double → Call Double → Store Double → Store Double
  tell_store nothing all c store = let (s, p) = to_state nothing all c in set_progress s p store

  -- ProgressStore::init: the call that it makes.
  pub init : Store Double → Call Double
  init store = elim store.state [
    | idle ↦ set_idle
    | waiting ↦ set_waiting store.progress
    | working ↦ set_working store.progress
    | finished ↦ set_finished
  ]

  -- ChildData::clearFinished
  pub clear_finished : Double → Store Double → Store Double
  clear_finished nothing d = elim d.state [
    | finished ↦ record { state = idle; progress = nothing }
    | _ ↦ d
  ]

  -- The switch in its loop.
  pub count_child : (Double → Double → Double) → Double → Store Double → Total Double → Total Double
  count_child plus all child t = elim child.state [
    | idle ↦ t
    | waiting ↦ record {
      state = elim t.state [ idle ↦ waiting | finished ↦ waiting | s ↦ s ];
      progress = plus t.progress child.progress;
      workers = suc t.workers;
    }
    | working ↦ record {
      state = working;
      progress = plus t.progress child.progress;
      workers = suc t.workers;
    }
    | finished ↦ record {
      state = elim t.state [ idle ↦ finished | s ↦ s ];
      progress = plus t.progress all;
      workers = suc t.workers;
    }
  ]

  pub count_children :
      (Double → Double → Double) → Double → List (Store Double) → Total Double → Total Double
  count_children plus all [] t = t
  count_children plus all (d ∷ ds) t = count_children plus all ds (count_child plus all d t)

  -- updateProgressState, on the children in the order of their set: the children that it leaves,
  -- and the call that it makes on the parent.
  pub update_progress_state :
      (Double → Double → Double)
      → (Double → ℕ → Double)
      → Double
      → Double
      → List (Store Double)
      → List (Store Double) × Call Double
  update_progress_state plus over nothing all ds =
      let t =
        count_children plus all ds (record { state = idle; progress = nothing; workers = 0 }) in
      (
        if is_finished t.state then map (clear_finished nothing) ds else ds,
        from_state t.state (over t.progress t.workers),
      )

-- ProgressInterfaceBroadcaster, and the calls that each child has got, the last one first. The set
-- of children is a list without repetitions; the store in it stands apart.
pub record Broadcaster (Double : Type 0) : Type 0 where
  pub store : Store Double
  pub children : List ℕ
  pub told : ℕ → List (Call Double)

pub mem : ℕ → List ℕ → Bool
mem c [] = false
mem c (x ∷ xs) = (x == c) || mem c xs

pub erase : ℕ → List ℕ → List ℕ
erase c [] = []
erase c (x ∷ xs) = if x == c then erase c xs else x ∷ erase c xs

module _ {Double : Type 0} where
  pub tell : Call Double → ℕ → (ℕ → List (Call Double)) → ℕ → List (Call Double)
  tell call c told d = if c == d then call ∷ told d else told d

  -- The loop of setIdle, setWaiting, setWorking and setFinished.
  pub tell_all : Call Double → List ℕ → (ℕ → List (Call Double)) → ℕ → List (Call Double)
  tell_all call [] told = told
  tell_all call (c ∷ cs) told = tell_all call cs (tell call c told)

  pub create_broadcaster : Double → Broadcaster Double
  create_broadcaster nothing = record {
    store = create_store nothing;
    children = [];
    told = λ c. [];
  }

  pub subscribe : ℕ → Broadcaster Double → Broadcaster Double
  subscribe c b = record b {
    told = tell (init b.store) c b.told;
    children = if mem c b.children then b.children else c ∷ b.children;
  }

  pub unsubscribe : ℕ → Broadcaster Double → Broadcaster Double
  unsubscribe c b = record b { children = erase c b.children }

  -- setIdle, setWaiting, setWorking and setFinished, by the call that they pass on.
  pub broadcast : Double → Double → Call Double → Broadcaster Double → Broadcaster Double
  broadcast nothing all call b = record b {
    store = tell_store nothing all call b.store;
    told = tell_all call b.children b.told;
  }

  pub data Step (nothing all : Double) : Broadcaster Double → Broadcaster Double → Type 0 where
    subscribes : {b d : Broadcaster Double} (c : ℕ) → subscribe c b ≡ d → Step nothing all b d
    unsubscribes : {b d : Broadcaster Double} (c : ℕ) → unsubscribe c b ≡ d → Step nothing all b d
    broadcasts :
        {b d : Broadcaster Double} (call : Call Double)
        → broadcast nothing all call b ≡ d
        → Step nothing all b d

  pub data Reach (nothing all : Double) : Broadcaster Double → Type 0 where
    created : {b : Broadcaster Double} → create_broadcaster nothing ≡ b → Reach nothing all b
    next :
        {b d : Broadcaster Double}
        → Reach nothing all b
        → Step nothing all b d
        → Reach nothing all d
