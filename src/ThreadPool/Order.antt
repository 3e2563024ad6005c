-- ===== src/ThreadPool/Order.antt =====
-- The order in which jobs are served: the map of queues is a stable priority queue.
use mathlib.Core.List.{append_assoc}
use scroom.Common.{
  ℕ, suc, ◌≤◌, ◌<◌, ◌≡◌, refl, sym, ap, ◌∙◌, ltb, ◌==◌, if◌then◌else◌, Option, none, some, List, [],
  ◌∷◌, ◌++◌, arith, ltb→lt, lt→ltb, ==_iff, Bool-cases, inl, inr,
}
use scroom.ThreadPool.{Job, Jobs, emplace, drop_empty, front, take_job}

-- The jobs with their priorities, in the order in which they will be taken.
abbrev pub tag : ℕ → List Job → List (ℕ × Job)
tag k [] = []
tag k (j ∷ q) = (k, j) ∷ tag k q

abbrev pub entries : Jobs → List (ℕ × Job)
entries [] = []
entries ((k, q) ∷ m) = tag k q ++ entries m

-- A stable insertion: behind every entry of the same priority or a more urgent one.
pub insert : ℕ → Job → List (ℕ × Job) → List (ℕ × Job)
insert p j [] = (p, j) ∷ []
insert p j ((k, i) ∷ r) = if ltb p k then (p, j) ∷ (k, i) ∷ r else (k, i) ∷ insert p j r

-- The keys of a std::map rise, here from `low` on.
abbrev pub KeysFrom : ℕ → Jobs → Type 0
KeysFrom low [] = Unit {0}
KeysFrom low ((k, q) ∷ m) = (low ≤ k) × KeysFrom (suc k) m

tag-append : (k : ℕ) (q r : List Job) → tag k (q ++ r) ≡ tag k q ++ tag k r
tag-append k [] r = refl
tag-append k (j ∷ q) r = ap (◌∷◌ (k, j)) (tag-append k q r)

insert_past :
    (p k : ℕ) (j : Job) (q : List Job) (r : List (ℕ × Job))
    → k ≤ p
    → insert p j (tag k q ++ r) ≡ tag k q ++ insert p j r
unfolding insert
insert_past p k j [] r h = refl
insert_past p k j (i ∷ q) r h = ground (arith, insert_past p k j q r)

insert_tagged :
    (p k : ℕ) (j : Job) (q : List Job) (r : List (ℕ × Job))
    → p < k
    → insert p j r ≡ (p, j) ∷ r
    → insert p j (tag k q ++ r) ≡ (p, j) ∷ (tag k q ++ r)
unfolding insert
insert_tagged p k j [] r h e = e
insert_tagged p k j (i ∷ q) r h e = rw (lt→ltb p k h)

insert_front :
    (p low : ℕ) (j : Job) (m : Jobs)
    → p < low
    → KeysFrom low m
    → insert p j (entries m) ≡ (p, j) ∷ entries m
unfolding insert
insert_front p low j [] h s = refl
insert_front p low j ((k, q) ∷ m) h s =
    insert_tagged p k j q (entries m) (omega arith) (insert_front p (suc k) j m (omega arith) s.1)

-- In a map with ascending keys, scheduling a job puts it behind all jobs of the same priority or a
-- more urgent one, before all others, and changes the order of no other jobs.
pub entries-emplace :
    (low p : ℕ) (j : Job) (m : Jobs)
    → KeysFrom low m
    → entries (emplace p j m) ≡ insert p j (entries m)
unfolding emplace
entries-emplace low p j [] s = unfold insert in refl
entries-emplace low p j ((k, q) ∷ m) s = elim (Bool-cases (k == p)) [
  | inl e ↦
      let same = (==_iff k p).0 e in
      rw e (
        rw (tag-append k q (j ∷ [])) (
          append_assoc (tag k q) ((k, j) ∷ []) (entries m)
          ∙ sym (
              insert_past p k j q (entries m) (omega arith)
              ∙ ap (◌++◌ (tag k q)) (
                  insert_front p (suc k) j m (omega arith) s.1
                  ∙ ap (λ (n : ℕ). (n, j) ∷ entries m) (sym same)))))
  | inr ne ↦ elim (Bool-cases (ltb p k)) [
    | inl e ↦
        rw (ne, e)
          (sym (
            insert_tagged p k j q (entries m) (ltb→lt p k e)
              (insert_front p (suc k) j m (omega (arith, ltb→lt p k e)) s.1)))
    | inr e ↦
        rw (ne, e)
          (ap (◌++◌ (tag k q)) (entries-emplace (suc k) p j m s.1)
            ∙ sym (insert_past p k j q (entries m) (ground arith)))
  ]
]

pub emplace-KeysFrom :
    (low p : ℕ) (j : Job) (m : Jobs) → low ≤ p → KeysFrom low m → KeysFrom low (emplace p j m)
unfolding emplace
emplace-KeysFrom low p j [] h s = (h, tt)
emplace-KeysFrom low p j ((k, q) ∷ m) h s =
    ground (arith, λ (g : suc k ≤ p). emplace-KeysFrom (suc k) p j m g s.1)

abbrev pub Taken : Jobs → Option (Job × Jobs) → Type 0
Taken m none = entries m ≡ []
Taken m (some (j, r)) = (k : ℕ) × (entries m ≡ (k, j) ∷ entries r)

-- What `do_one` takes is the first of all jobs in the order of service, and the rest stay as they
-- were; it finds none only if there is none.
pub take_job-Taken : (m : Jobs) → Taken m (take_job m)
unfolding take_job drop_empty front
take_job-Taken [] = refl
take_job-Taken ((k, []) ∷ m) = take_job-Taken m
take_job-Taken ((k, j ∷ q) ∷ m) = (k, refl)
