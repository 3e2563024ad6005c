-- ===== src/Progress/Multiplexing.antt =====
-- What the multiplexer makes of the reports of its children.
use scroom.Common.{
  ℕ, suc, ◌+◌, ◌*◌, ◌/◌, ◌≤◌, max, ◌≡◌, refl, ◌==◌, if◌then◌else◌, List, [], ◌∷◌, map, arith,
}
use scroom.Progress.{
  State, idle, waiting, working, finished, Store, Total, to_state, from_state, clear_finished,
  count_child, count_children, update_progress_state,
}

-- From the least urgent state to the most urgent one.
abbrev pub rank : State → ℕ
rank idle = 0
rank finished = 1
rank waiting = 2
rank working = 3

module _ {Double : Type 0} where
  abbrev pub most : List (Store Double) → ℕ
  most [] = 0
  most (d ∷ ds) = max (rank d.state) (most ds)

  count_child-rank :
      (plus : Double → Double → Double) (all : Double) (d : Store Double) (t : Total Double)
      → rank (count_child plus all d t).state ≡ max (rank t.state) (rank d.state)
  unfolding count_child
  count_child-rank plus all d t = ground arith

  count_children-rank :
      (plus : Double → Double → Double) (all : Double) (ds : List (Store Double)) (t : Total Double)
      → rank (count_children plus all ds t).state ≡ max (rank t.state) (most ds)
  unfolding count_children
  count_children-rank plus all [] t = omega arith
  count_children-rank plus all (d ∷ ds) t = omega (
    arith,
    count_children-rank plus all ds (count_child plus all d t),
    count_child-rank plus all d t,
  )

  -- The state that the parent is told is that of a most urgent child: working before waiting,
  -- waiting before finished, finished before idle.
  pub update-rank :
      (plus : Double → Double → Double) (over : Double → ℕ → Double) (nothing all : Double)
      (ds : List (Store Double))
      → let call = (update_progress_state plus over nothing all ds).1 in
        rank (to_state nothing all call).0 ≡ most ds
  unfolding update_progress_state to_state from_state
  update-rank plus over nothing all ds = ground (
    arith,
    count_children-rank plus all ds (record { state = idle; progress = nothing; workers = 0 }),
  )

  most-clear :
      (nothing : Double) (ds : List (Store Double))
      → most ds ≤ 1
      → most (map (clear_finished nothing) ds) ≡ 0
  unfolding clear_finished
  most-clear nothing [] h = refl
  most-clear nothing (d ∷ ds) h = ground (arith, most-clear nothing ds)

  -- An update clears the children that are finished if the most urgent of them is finished, so
  -- that all are idle; otherwise it leaves them all as they were.
  pub update-most :
      (plus : Double → Double → Double) (over : Double → ℕ → Double) (nothing all : Double)
      (ds : List (Store Double))
      → let rest = (update_progress_state plus over nothing all ds).0 in
        (rest ≡ (if most ds == 1 then map (clear_finished nothing) ds else ds))
        × (most rest ≡ (if most ds == 1 then 0 else most ds))
  unfolding update_progress_state
  update-most plus over nothing all ds =
      let r =
        count_children-rank plus all ds
          (record { state = idle; progress = nothing; workers = 0 }) in
      (ground (arith, r), ground (arith, r, most-clear nothing ds))

-- In fixed-point numbers, of which `all` stand for 1.0.
abbrev pub Within : ℕ → List (Store ℕ) → Type 0
Within all [] = 0 ≤ all
Within all (d ∷ ds) = (d.progress ≤ all) × Within all ds

add-bound : (p q w all : ℕ) → p ≤ w * all → q ≤ all → p + q ≤ suc w * all
add-bound p q w all h k = grind arith

count_child-bound :
    (all : ℕ) (d : Store ℕ) (t : Total ℕ)
    → d.progress ≤ all
    → t.progress ≤ t.workers * all
    → let u = count_child ◌+◌ all d t in u.progress ≤ u.workers * all
unfolding count_child
count_child-bound all d t h k = ground (
  arith,
  add-bound t.progress d.progress t.workers all k h,
  add-bound t.progress all t.workers all k (omega arith),
)

count_children-bound :
    (all : ℕ) (ds : List (Store ℕ)) (t : Total ℕ)
    → Within all ds
    → t.progress ≤ t.workers * all
    → let u = count_children ◌+◌ all ds t in u.progress ≤ u.workers * all
unfolding count_children
count_children-bound all [] t h k = k
count_children-bound all (d ∷ ds) t (h, hs) k =
    count_children-bound all ds (count_child ◌+◌ all d t) hs (count_child-bound all d t h k)

average-bound : (a n all : ℕ) → a ≤ n * all → a / n ≤ all
average-bound a n all h = grind arith

-- With progress in fixed-point numbers and no child's progress beyond `all`, the average that the
-- parent is told is not beyond it either.
pub update-bound :
    (all : ℕ) (ds : List (Store ℕ))
    → Within all ds
    → let call = (update_progress_state ◌+◌ ◌/◌ 0 all ds).1 in (to_state 0 all call).1 ≤ all
unfolding update_progress_state to_state from_state
update-bound all ds h =
    let start : Total ℕ = record { state = idle; progress = 0; workers = 0 } in
    let t = count_children ◌+◌ all ds start in
    ground (
      arith,
      average-bound t.progress t.workers all (count_children-bound all ds start h (omega arith)),
    )
