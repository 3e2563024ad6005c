-- ===== src/ProgressBar/Waiting.antt =====
-- The bars that pulse are those whose managers wait.
use scroom.Common.{
  ℕ, suc, ◌+◌, ◌-◌, ◌≡◌, ◌≤◌, refl, ap, ◌∙◌, subst, ◌==◌, if◌then◌else◌, Option, none, some, List,
  [], ◌∷◌, ◌++◌, length, arith, length-append, Bool-cases, inl, inr, List-cases,
}
use scroom.ProgressBar.{
  Pulser, Window, Call, set_idle, set_waiting, set_finished, delete, set_working, time_out,
  push_back, start, clear, stop, do_work, replace, start_waiting, stop_waiting, show, work, call,
  call_all,
}
use scroom.ProgressBar.Pulsing.{active, turns, Turn, do_work-Turn}

-- How often b occurs.
unfoldable pub occurrences : ℕ → List ℕ → ℕ
occurrences b [] = 0
occurrences b (x ∷ xs) = (if x == b then 1 else 0) + occurrences b xs

occurrences-append :
    (b : ℕ) (xs ys : List ℕ) → occurrences b (xs ++ ys) ≡ occurrences b xs + occurrences b ys
unfolding occurrences
occurrences-append b [] ys = omega arith
occurrences-append b (x ∷ xs) ys = omega (arith, occurrences-append b xs ys)

abbrev share : ℕ → List (Option ℕ) → ℕ
share b bars = occurrences b (active bars)

share-append : (b : ℕ) (xs ys : List (Option ℕ)) → share b (xs ++ ys) ≡ share b xs + share b ys
unfolding active occurrences
share-append b [] ys = omega arith
share-append b (none ∷ xs) ys = share-append b xs ys
share-append b (some x ∷ xs) ys = omega (arith, share-append b xs ys)

share-one : (b p : ℕ) → share b (some p ∷ []) ≡ (if p == b then 1 else 0)
unfolding active occurrences
share-one b p = omega arith

share-clear :
    (b p : ℕ) (bars : List (Option ℕ))
    → share b (clear p bars) ≡ (if p == b then 0 else share b bars)
unfolding active occurrences clear
share-clear b p [] = ground arith
share-clear b p (none ∷ bars) = share-clear b p bars
share-clear b p (some x ∷ bars) = ground (arith, share-clear b p bars)

length-clear : (p : ℕ) (bars : List (Option ℕ)) → length (clear p bars) ≡ length bars
unfolding clear
length-clear p [] = refl
length-clear p (none ∷ bars) = ap suc (length-clear p bars)
length-clear p (some x ∷ bars) = ap suc (length-clear p bars)

abbrev size : Pulser → ℕ
size s = length s.before + length s.after

abbrev total : ℕ → Pulser → ℕ
total b s = share b s.after + share b s.before

occurrences-turns : (b : ℕ) (s : Pulser) → occurrences b (turns s) ≡ total b s
unfolding turns
occurrences-turns b s = occurrences-append b (active s.after) (active s.before)

total-push_back :
    (b p : ℕ) (s : Pulser) → total b (push_back p s) ≡ total b s + (if p == b then 1 else 0)
unfolding push_back
total-push_back b p s = elim (List-cases s.after) [
  | inl e ↦ ground (arith, e, share-append b s.before (some p ∷ []), share-one b p)
  | inr (x, rest, e) ↦ ground (arith, e, share-append b (x ∷ rest) (some p ∷ []), share-one b p)
]

size-push_back : (p : ℕ) (s : Pulser) → size (push_back p s) ≡ suc (size s)
unfolding push_back
size-push_back p s = elim (List-cases s.after) [
  | inl e ↦ ground (arith, e, length-append s.before (some p ∷ []))
  | inr (x, rest, e) ↦ ground (arith, e, length-append (x ∷ rest) (some p ∷ []))
]

timers-push_back : (p : ℕ) (s : Pulser) → (push_back p s).timers ≡ s.timers
unfolding push_back
timers-push_back p s = ground arith

-- There is a timer exactly while the list has elements, stopped ones included.
unfoldable pub Timed : Pulser → Type 0
Timed s = s.timers ≡ (if size s == 0 then 0 else 1)

total-start : (b p : ℕ) (s : Pulser) → total b (start p s) ≡ total b s + (if p == b then 1 else 0)
unfolding start active occurrences
total-start b p s =
    ground
      (arith, total-push_back b p s, share-append b (push_back p s).before (push_back p s).after)

start-Timed : (p : ℕ) (s : Pulser) → Timed s → Timed (start p s)
unfolding start Timed
start-Timed p s h = ground (
  arith,
  size-push_back p s,
  timers-push_back p s,
  length-append (push_back p s).before (push_back p s).after,
)

total-stop : (b p : ℕ) (s : Pulser) → total b (stop p s) ≡ (if p == b then 0 else total b s)
unfolding stop
total-stop b p s = ground (arith, share-clear b p s.before, share-clear b p s.after)

stop-Timed : (p : ℕ) (s : Pulser) → Timed s → Timed (stop p s)
unfolding stop Timed
stop-Timed p s h = rw (length-clear p s.before, length-clear p s.after) h

-- The waiting bars take turns, each of them once, and the timer runs.
pub record IsTimely (Progress : Type 0) (w : Window Progress) : Type 0 where
  pub counted :
      (b : ℕ) → occurrences b (turns w.pulser) ≡ (if (w.managers b).is_waiting then 1 else 0)
  pub timed : Timed w.pulser

length-active : (bars : List (Option ℕ)) → length (active bars) ≤ length bars
unfolding active
length-active [] = omega arith
length-active (none ∷ bars) = omega (arith, length-active bars)
length-active (some b ∷ bars) = omega (arith, length-active bars)

size-turns : (s : Pulser) → length (turns s) ≤ size s
unfolding turns
size-turns s = omega (
  arith,
  length-append (active s.after) (active s.before),
  length-active s.after,
  length-active s.before,
)

-- What doWork keeps.
Kept : Pulser → Pulser × Option ℕ → Type 0
Kept s (t, pulsed) = ((b : ℕ) → occurrences b (turns t) ≡ occurrences b (turns s)) × Timed t

Timed-taken :
    (s t : Pulser) (p : ℕ) (rest : List ℕ)
    → turns s ≡ p ∷ rest
    → turns t ≡ rest ++ p ∷ []
    → t.timers ≡ s.timers
    → Timed s
    → Timed t
unfolding Timed
Timed-taken s t p rest e next same h =
    ground
      (arith, size-turns s, size-turns t, ap length e, ap length next, length-append rest (p ∷ []))

do_work-Kept : (s : Pulser) → Timed s → (r : Pulser × Option ℕ) × (do_work s ≡ some r) × Kept s r
unfolding Kept Turn
do_work-Kept s h = elim (List-cases (turns s)) [
  | inl e ↦
      let turn : Turn s [] = subst (Turn s) e (do_work-Turn s) in
      (
        (record { before = []; after = []; timers = s.timers - 1 }, none),
        turn,
        ((λ b. rw e (unfold turns active in refl)), unfold Timed in ground (arith, h)),
      )
  | inr (p, rest, e) ↦
      let turn : Turn s (p ∷ rest) = subst (Turn s) e (do_work-Turn s) in
      let (t, works, next, same) = turn in
      (
        (t, some p),
        works,
        (
          (λ b.
              rw (e, next)
                (unfold occurrences in omega (arith, occurrences-append b rest (p ∷ [])))),
          Timed-taken s t p rest e next same h,
        ),
      )
]

occurrences-start :
    (b p : ℕ) (s : Pulser)
    → occurrences b (turns (start p s)) ≡ occurrences b (turns s) + (if p == b then 1 else 0)
occurrences-start b p s =
    omega (arith, occurrences-turns b s, occurrences-turns b (start p s), total-start b p s)

occurrences-stop :
    (b p : ℕ) (s : Pulser)
    → occurrences b (turns (stop p s)) ≡ (if p == b then 0 else occurrences b (turns s))
occurrences-stop b p s =
    ground (arith, occurrences-turns b s, occurrences-turns b (stop p s), total-stop b p s)

module _ {Progress : Type 0} where
  abbrev Timely : Window Progress → Type 0
  Timely w = IsTimely Progress w

  start_waiting-IsTimely : (b : ℕ) (w : Window Progress) → Timely w → Timely (start_waiting b w)
  unfolding start_waiting replace
  start_waiting-IsTimely b w h = elim (Bool-cases (w.managers b).is_waiting) [
    | inl e ↦ rw e h
    | inr e ↦ rw e (record {
      counted = λ x. ground (arith, h.counted x, e, occurrences-start x b w.pulser);
      timed = start-Timed b w.pulser h.timed;
    })
  ]

  stop_waiting-IsTimely : (b : ℕ) (w : Window Progress) → Timely w → Timely (stop_waiting b w)
  unfolding stop_waiting replace
  stop_waiting-IsTimely b w h = elim (Bool-cases (w.managers b).is_waiting) [
    | inl e ↦ rw e (record {
      counted = λ x. ground (arith, h.counted x, e, occurrences-stop x b w.pulser);
      timed = stop-Timed b w.pulser h.timed;
    })
    | inr e ↦ rw e h
  ]

  work-IsTimely : (b : ℕ) (p : Progress) (w : Window Progress) → Timely w → Timely (work b p w)
  unfolding work show replace
  work-IsTimely b p w h =
      let stopped = stop_waiting-IsTimely b w h in
      record { counted = λ x. ground (arith, stopped.counted x); timed = stopped.timed }

  -- A call that returns, and what it leaves.
  call-IsTimely :
      (nothing : Progress) (c : Call Progress) (w : Window Progress)
      → Timely w
      → (r : Window Progress × Option ℕ) × (call nothing c w ≡ some r) × Timely (r.0)
  unfolding call Kept
  call-IsTimely nothing (set_idle b) w h =
      ((work b nothing w, none), refl, work-IsTimely b nothing w h)
  call-IsTimely nothing (set_finished b) w h =
      ((work b nothing w, none), refl, work-IsTimely b nothing w h)
  call-IsTimely nothing (set_working b p) w h = ((work b p w, none), refl, work-IsTimely b p w h)
  call-IsTimely nothing (set_waiting b) w h =
      ((start_waiting b w, none), refl, start_waiting-IsTimely b w h)
  call-IsTimely nothing (delete b) w h =
      ((stop_waiting b w, none), refl, stop_waiting-IsTimely b w h)
  call-IsTimely nothing time_out w h = elim (Bool-cases (w.pulser.timers == 0)) [
    | inl e ↦ ((w, none), ground (arith, e), h)
    | inr e ↦
        let ((p, pulsed), works, (counts, timed)) = do_work-Kept w.pulser h.timed in
        (
          (record w { pulser = p }, pulsed),
          ground (arith, e, works),
          record { counted = λ b. counts b ∙ h.counted b; timed = timed },
        )
  ]

  -- From a window whose waiting bars take turns: every sequence of calls returns, and after it the bars
  -- whose managers wait have a turn each, exactly one, and no other bar has one; and a timer calls doWork
  -- exactly while the list has elements.
  pub call_all-IsTimely :
      (nothing : Progress) (cs : List (Call Progress)) (w : Window Progress)
      → IsTimely Progress w
      → (t : Window Progress) × (call_all nothing cs w ≡ some t) × IsTimely Progress t
  unfolding call_all
  call_all-IsTimely nothing [] w h = (w, refl, h)
  call_all-IsTimely nothing (c ∷ cs) w h =
      let ((t, pulsed), called, kept) = call-IsTimely nothing c w h in
      let (u, rest, result) = call_all-IsTimely nothing cs t kept in
      (u, ground (arith, called, rest), result)
