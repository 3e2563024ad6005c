-- ===== src/QueueJumper/Examples.antt =====
-- Two requests before the turn, one after it.
use scroom.Common.{◌≡◌, true, false, some, [], ◌∷◌}
use scroom.QueueJumper.{create, asks, turns, run}
use scroom.QueueJumper.Turn.{passed, run-create}

run-create_example :
    run (asks 1 ∷ asks 2 ∷ turns ∷ asks 3 ∷ []) create
    ≡ some (passed (some 2), true ∷ true ∷ false ∷ [])
run-create_example = run-create (1 ∷ 2 ∷ []) (3 ∷ [])
