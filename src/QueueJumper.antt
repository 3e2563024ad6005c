-- ===== src/QueueJumper.antt =====
-- libs/threadpool/src/threadpoolimpl.cc, the class QueueJumper: a place in the queue of a thread
-- pool that work can be given to until its turn has come. A function is a number. Both members run
-- under the mutex.
use scroom.Common.{ℕ, Bool, true, false, if◌then◌else◌, Option, none, some, List, [], ◌∷◌, ◌++◌}
pub mod Turn
mod Examples

pub record Jumper : Type 0 where
  pub in_queue : Bool
  pub is_set : Bool
  -- an empty boost::function is `none`
  pub fn : Option ℕ
  -- the functions that have run, in order
  pub ran : List ℕ

unfoldable pub create : Jumper
create = record { in_queue = true; is_set = false; fn = none; ran = [] }

-- setWork, and what it returns
unfoldable pub set_work : ℕ → Jumper → Jumper × Bool
set_work f j = (if j.in_queue then record j { fn = some f; is_set = true } else j, j.in_queue)

abbrev call_fn : Jumper → Option Jumper
call_fn j = elim j.fn [
  | none ↦ none
  | some f ↦ some (record j { ran = j.ran ++ f ∷ []; in_queue = false })
]

-- operator(). `none` is a call of an empty function.
unfoldable pub take_turn : Jumper → Option Jumper
take_turn j = if j.is_set then call_fn j else some (record j { in_queue = false })

pub data Call : Type 0 where
  asks : ℕ → Call
  turns : Call

-- A sequence of calls, with the answers of setWork.
pub run : List Call → Jumper → Option (Jumper × List Bool)
run [] j = some (j, [])
run (asks f ∷ calls) j = elim (run calls (set_work f j).0) [
  | none ↦ none
  | some (k, answers) ↦ some (k, (set_work f j).1 ∷ answers)
]
run (turns ∷ calls) j = elim (take_turn j) [ none ↦ none | some k ↦ run calls k ]
