-- ===== src/ProgressBar/Pulsing.antt =====
-- The bars take turns.
use mathlib.Core.List.{append_assoc, append-nil}
use scroom.Common.{
  ℕ, zero, suc, ◌+◌, ◌-◌, ◌≡◌, ◌<◌, refl, ap, sym, ◌∙◌, subst, Option, none, some, List, [], ◌∷◌,
  ◌++◌, length, arith,
}
use scroom.ProgressBar.{Pulser, work_loop, return_work, do_work}

-- The bars of a list that were not stopped.
unfoldable pub active : List (Option ℕ) → List ℕ
active [] = []
active (none ∷ bars) = active bars
active (some b ∷ bars) = b ∷ active bars

-- From the iterator to the end, and on from the start.
unfoldable pub turns : Pulser → List ℕ
turns s = active s.after ++ active s.before

active-append : (xs ys : List (Option ℕ)) → active (xs ++ ys) ≡ active xs ++ active ys
unfolding active
active-append [] ys = refl
active-append (none ∷ xs) ys = active-append xs ys
active-append (some b ∷ xs) ys = ap (λ l. b ∷ l) (active-append xs ys)

-- The result of the loop where the given bars are to pulse.
LoopTurn : ℕ → List (Option ℕ) → List (Option ℕ) → List ℕ → Type 0
LoopTurn fuel before after [] = work_loop fuel before after ≡ some ([], [], none)
LoopTurn fuel before after (p ∷ rest) =
    (b : List (Option ℕ)) × (a : List (Option ℕ)) × (work_loop fuel before after
      ≡ some (b, a, some p))
    × (active a ++ active b ≡ rest ++ p ∷ [])

LoopTurn-found :
    (fuel : ℕ) (before after : List (Option ℕ)) (p : ℕ)
    → LoopTurn (suc fuel) before (some p ∷ after) (active (some p ∷ after) ++ active before)
unfolding work_loop LoopTurn active
LoopTurn-found fuel before after p = (
  before ++ some p ∷ [],
  after,
  refl,
  ap (λ l. active after ++ l) (active-append before (some p ∷ []))
      ∙ sym (append_assoc (active after) (active before) (p ∷ [])),
)

LoopTurn-erase :
    (fuel : ℕ) (before after : List (Option ℕ)) (order : List ℕ)
    → LoopTurn fuel before after order
    → LoopTurn (suc fuel) before (none ∷ after) order
unfolding work_loop LoopTurn
LoopTurn-erase fuel before after [] h = h
LoopTurn-erase fuel before after (p ∷ rest) h = h

-- From the start of the list.
loop-start :
    (fuel : ℕ) (after : List (Option ℕ))
    → length after < fuel
    → LoopTurn fuel [] after (active after ++ [])
unfolding active
loop-start zero after h = elim h [ ]
loop-start (suc fuel) [] h = unfold work_loop LoopTurn in refl
loop-start (suc fuel) (none ∷ after) h =
    LoopTurn-erase fuel [] after (active after ++ []) (loop-start fuel after (omega arith))
loop-start (suc fuel) (some p ∷ after) h = LoopTurn-found fuel [] after p

LoopTurn-wrap :
    (fuel : ℕ) (b : Option ℕ) (bs : List (Option ℕ)) (order : List ℕ)
    → LoopTurn fuel [] (b ∷ bs) order
    → LoopTurn (suc fuel) (b ∷ bs) [] order
unfolding work_loop LoopTurn
LoopTurn-wrap fuel b bs [] h = h
LoopTurn-wrap fuel b bs (p ∷ rest) h = h

loop_lem :
    (fuel : ℕ) (before after : List (Option ℕ))
    → suc (length before + length after) < fuel
    → LoopTurn fuel before after (active after ++ active before)
unfolding active
loop_lem zero before after h = elim h [ ]
loop_lem (suc fuel) [] [] h = unfold work_loop LoopTurn in refl
loop_lem (suc fuel) (b ∷ bs) [] h = LoopTurn-wrap fuel b bs (active (b ∷ bs)) (
    subst (LoopTurn fuel [] (b ∷ bs)) (append-nil (active (b ∷ bs)))
      (loop-start fuel (b ∷ bs) (omega arith)))
loop_lem (suc fuel) before (none ∷ after) h =
    LoopTurn-erase fuel before after (active after ++ active before)
      (loop_lem fuel before after (omega arith))
loop_lem (suc fuel) before (some p ∷ after) h = LoopTurn-found fuel before after p

-- The result of a call where the given bars are to pulse.
unfoldable pub Turn : Pulser → List ℕ → Type 0
Turn s [] = do_work s ≡ some (record { before = []; after = []; timers = s.timers - 1 }, none)
Turn s (p ∷ rest) =
    (t : Pulser) × (do_work s ≡ some (t, some p))
    × (turns t ≡ rest ++ p ∷ [])
    × (t.timers ≡ s.timers)

Turn-of_loop :
    (s : Pulser) (order : List ℕ)
    → LoopTurn (length s.before + length s.after + 2) s.before s.after order
    → Turn s order
unfolding LoopTurn Turn do_work turns return_work
Turn-of_loop s [] h = ap (return_work s) h
Turn-of_loop s (p ∷ rest) (b, a, e, same) =
    (record { before = b; after = a; timers = s.timers }, ap (return_work s) e, same, refl)

-- doWork ends. When all bars were stopped, it empties the list, pulses none and gives up its timer.
-- Otherwise the bar whose turn it is pulses, and goes to the end of the turns.
pub do_work-Turn : (s : Pulser) → Turn s (turns s)
unfolding turns
do_work-Turn s =
    Turn-of_loop s (active s.after ++ active s.before)
      (loop_lem (length s.before + length s.after + 2) s.before s.after (omega arith))

-- The bars that pulse in the given number of calls.
unfoldable pub pulses : ℕ → Pulser → List ℕ
pulses zero s = []
pulses (suc n) s = elim (do_work s) [
  | none ↦ []
  | some (t, none) ↦ pulses n t
  | some (t, some p) ↦ p ∷ pulses n t
]

pulses-step :
    (n p : ℕ) (s t : Pulser) → do_work s ≡ some (t, some p) → pulses (suc n) s ≡ p ∷ pulses n t
unfolding pulses
pulses-step n p s t e = ground (arith, e)

pulses-first : (xs ys : List ℕ) (s : Pulser) → turns s ≡ xs ++ ys → pulses (length xs) s ≡ xs
unfolding Turn
pulses-first [] ys s e = unfold pulses in refl
pulses-first (x ∷ xs) ys s e =
    let turn : Turn s (x ∷ xs ++ ys) = subst (Turn s) e (do_work-Turn s) in
    let (t, w, next, same) = turn in
    pulses-step (length xs) x s t w
    ∙ ap (λ l. x ∷ l) (pulses-first xs (ys ++ x ∷ []) t (next ∙ append_assoc xs ys (x ∷ [])))

-- In as many calls as there are bars that were not stopped, each of them pulses, in turn, and no
-- other one does.
pub pulses-turns : (s : Pulser) → pulses (length (turns s)) s ≡ turns s
pulses-turns s = pulses-first (turns s) [] s (sym (append-nil (turns s)))
