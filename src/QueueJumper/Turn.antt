-- ===== src/QueueJumper/Turn.antt =====
-- What becomes of work that is given to a QueueJumper before and after its turn.
use scroom.Common.{
  ℕ, ◌≡◌, refl, Bool, true, false, Option, none, some, List, [], ◌∷◌, ◌++◌, map, length, replicate,
}
use scroom.QueueJumper.{Jumper, create, set_work, take_turn, asks, turns, run}

abbrev pub is_some : Option ℕ → Bool
is_some none = false
is_some (some f) = true

abbrev pub to_list : Option ℕ → List ℕ
to_list none = []
to_list (some f) = f ∷ []

abbrev pub latest : Option ℕ → List ℕ → Option ℕ
latest o [] = o
latest o (f ∷ fs) = latest (some f) fs

-- The jumper that holds the work o, before its turn and after it.
abbrev pub waiting : Option ℕ → Jumper
waiting o = record { in_queue = true; is_set = is_some o; fn = o; ran = [] }

abbrev pub passed : Option ℕ → Jumper
passed o = record { in_queue = false; is_set = is_some o; fn = o; ran = to_list o }

run-passed :
    (o : Option ℕ) (gs : List ℕ)
    → run (map asks gs) (passed o) ≡ some (passed o, replicate (length gs) false)
unfolding run set_work
run-passed o [] = refl
run-passed o (g ∷ gs) = rw (run-passed o gs)

run-waiting :
    (o : Option ℕ) (fs gs : List ℕ)
    → run (map asks fs ++ turns ∷ map asks gs) (waiting o)
      ≡ some (passed (latest o fs), replicate (length fs) true ++ replicate (length gs) false)
unfolding run set_work take_turn
run-waiting none [] gs = run-passed none gs
run-waiting (some f) [] gs = run-passed (some f) gs
run-waiting o (f ∷ fs) gs = rw (run-waiting (some f) fs gs)

-- Whatever is asked for before the turn and after it: the requests before are accepted and those
-- after are refused, and of all of them the last one that was accepted runs, once.
pub run-create :
    (fs gs : List ℕ)
    → run (map asks fs ++ turns ∷ map asks gs) create
      ≡ some (passed (latest none fs), replicate (length fs) true ++ replicate (length gs) false)
unfolding create
run-create fs gs = run-waiting none fs gs
