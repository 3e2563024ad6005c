-- ===== src/ThreadPool/Safety.antt =====
-- Invariants of the pool over all interleavings of its threads, schedulers and queue deletions.
use scroom.Common.{
  ℕ, zero, suc, ◌+◌, ◌≤◌, ◌<◌, ◌≡◌, refl, sym, ap, subst, ◌⊎◌, inl, inr, Bool, true, ◌==◌,
  if◌then◌else◌, none, some, List, [], ◌∷◌, ◌++◌, arith, length, length-append, replicate,
  Option-cases,
}
use scroom.ThreadPool.{
  Job, Jobs, Thread, idle, claimed, holding, executing, skipping, Pool, create, emplace, drop_empty,
  front, take_job, schedule, stop, work, do_one, job_started, job_finished, deleting_queue,
  deleted_queue, Step, schedules, stops, deletes, is_rid, works, takes, starts, finishes, Reach,
  created, next,
}

-- The jobs in all queues.
pub size : Jobs → ℕ
size [] = 0
size ((k, q) ∷ m) = length q + size m

-- What a thread counts for: a job that it has claimed and not taken; a lock on queue q; a job of
-- queue q that it executes.
abbrev pub claims : Thread → ℕ
claims claimed = 1
claims _ = 0

abbrev pub locks : ℕ → Thread → ℕ
locks q (executing j) = if q == j.queue then 1 else 0
locks q (skipping j) = if q == j.queue then 1 else 0
locks q _ = 0

abbrev pub executes : ℕ → Thread → ℕ
executes q (executing j) = if q == j.queue then 1 else 0
executes q _ = 0

pub sum_of : (Thread → ℕ) → List Thread → ℕ
sum_of f [] = 0
sum_of f (t ∷ ts) = f t + sum_of f ts

sum_of-append :
    (f : Thread → ℕ) (xs ys : List Thread) → sum_of f (xs ++ ys) ≡ sum_of f xs + sum_of f ys
unfolding sum_of
sum_of-append f [] ys = omega arith
sum_of-append f (x ∷ xs) ys = omega (arith, sum_of-append f xs ys)

-- One thread changes: the sum goes by the difference.
sum_of-change :
    (f : Thread → ℕ) (xs ys : List Thread) (t r : Thread)
    → sum_of f (xs ++ (r ∷ ys)) + f t ≡ sum_of f (xs ++ (t ∷ ys)) + f r
unfolding sum_of
sum_of-change f xs ys t r = omega (arith, sum_of-append f xs (t ∷ ys), sum_of-append f xs (r ∷ ys))

executes-le-locks : (q : ℕ) (ts : List Thread) → sum_of (executes q) ts ≤ sum_of (locks q) ts
unfolding sum_of
executes-le-locks q [] = omega arith
executes-le-locks q (executing j ∷ ts) = omega (arith, executes-le-locks q ts)
executes-le-locks q (skipping j ∷ ts) = omega (arith, executes-le-locks q ts)
executes-le-locks q (_ ∷ ts) = omega (arith, executes-le-locks q ts)

size-emplace : (p : ℕ) (j : Job) (m : Jobs) → size (emplace p j m) ≡ suc (size m)
unfolding size emplace
size-emplace p j [] = refl
size-emplace p j ((k, q) ∷ m) = ground (arith, length-append q (j ∷ []), size-emplace p j m)

size-take_job : (m r : Jobs) (j : Job) → take_job m ≡ some (j, r) → size m ≡ suc (size r)
unfolding size take_job drop_empty front
size-take_job [] r j e = cc
size-take_job ((k, []) ∷ m) r j e = omega (arith, size-take_job m r j e)
size-take_job ((k, i ∷ q) ∷ m) r j e = ground arith

take_job-none : (m : Jobs) → take_job m ≡ none → size m ≡ 0
unfolding size take_job drop_empty front
take_job-none [] e = refl
take_job-none ((k, []) ∷ m) e = omega (arith, take_job-none m e)
take_job-none ((k, i ∷ q) ∷ m) e = cc

pub record IsSafe (s : Pool) : Type 0 where
  pub counted : size s.jobs ≡ s.jobcount + sum_of claims s.threads
  pub locked : (q : ℕ) → s.count q ≡ sum_of (locks q) s.threads
  pub marked : (q : ℕ) → s.gone q ≡ true → s.is_deleted q ≡ true
  pub quiet : (q : ℕ) → s.gone q ≡ true → sum_of (executes q) s.threads ≡ 0

schedule-IsSafe : (p : ℕ) (j : Job) (s : Pool) → IsSafe s → IsSafe (schedule p j s)
unfolding schedule
schedule-IsSafe p j s v = record {
  counted = omega (arith, size-emplace p j s.jobs, v.counted);
  locked = v.locked;
  marked = v.marked;
  quiet = v.quiet;
}

deleting_queue-IsSafe : (q : ℕ) (s : Pool) → IsSafe s → IsSafe (deleting_queue q s)
unfolding deleting_queue
deleting_queue-IsSafe q s v = record {
  counted = v.counted;
  locked = v.locked;
  marked = λ r h. ground (arith, v.marked r);
  quiet = v.quiet;
}

deleted_queue-IsSafe : (q : ℕ) (s t : Pool) → IsSafe s → deleted_queue q s ≡ some t → IsSafe t
unfolding deleted_queue
deleted_queue-IsSafe q s t v e = record {
  counted = ground (arith, v.counted);
  locked = λ r. ground (arith, v.locked r);
  marked = λ r h. ground (arith, v.marked r);
  quiet = λ r h. ground (arith, v.quiet r, v.locked r, executes-le-locks r s.threads);
}

work-IsSafe :
    (s t : Pool) (xs ys : List Thread) (r : Thread)
    → IsSafe s
    → s.threads ≡ xs ++ (idle ∷ ys)
    → work s ≡ (t, r)
    → IsSafe (record t { threads = xs ++ (r ∷ ys) })
unfolding work
work-IsSafe s t xs ys r v at e = record {
  counted = ground (arith, v.counted, sum_of-change claims xs ys idle r);
  locked = λ q. ground (arith, v.locked q, sum_of-change (locks q) xs ys idle r);
  marked = λ q h. ground (arith, v.marked q);
  quiet = λ q h. ground (arith, v.quiet q, sum_of-change (executes q) xs ys idle r);
}

do_one-parts :
    (s t : Pool) (r : Thread)
    → do_one s ≡ some (t, r)
    → (j : Job) × (m : Jobs) × (take_job s.jobs ≡ some (j, m))
      × (t ≡ record s { jobs = m })
      × (r ≡ holding j)
unfolding do_one
do_one-parts s t r e = elim (Option-cases (take_job s.jobs)) [
  | inl n ↦ absurd (ground (arith, n))
  | inr ((j, m), k) ↦ (j, m, k, ground (arith, k), ground (arith, k))
]

do_one-IsSafe :
    (s t : Pool) (xs ys : List Thread) (r : Thread)
    → IsSafe s
    → s.threads ≡ xs ++ (claimed ∷ ys)
    → do_one s ≡ some (t, r)
    → IsSafe (record t { threads = xs ++ (r ∷ ys) })
do_one-IsSafe s t xs ys r v at e =
    let (j, m, k, is_t, is_r) = do_one-parts s t r e in
    let less = size-take_job s.jobs m j k in
    rw (is_t, is_r)
      (record {
        counted = ground (arith, v.counted, less, sum_of-change claims xs ys claimed (holding j));
        locked = λ q. ground (arith, v.locked q, sum_of-change (locks q) xs ys claimed (holding j));
        marked = v.marked;
        quiet =
            λ q h. ground (arith, v.quiet q, sum_of-change (executes q) xs ys claimed (holding j));
      })

job_started-IsSafe :
    (s t : Pool) (xs ys : List Thread) (j : Job) (r : Thread)
    → IsSafe s
    → s.threads ≡ xs ++ (holding j ∷ ys)
    → job_started j s ≡ (t, r)
    → IsSafe (record t { threads = xs ++ (r ∷ ys) })
unfolding job_started
job_started-IsSafe s t xs ys j r v at e = record {
  counted = ground (arith, v.counted, sum_of-change claims xs ys (holding j) r);
  locked = λ q.
      ground (arith, v.locked q, v.locked j.queue, sum_of-change (locks q) xs ys (holding j) r);
  marked = λ q h. ground (arith, v.marked q);
  quiet =
      λ q h. ground (arith, v.quiet q, v.marked q, sum_of-change (executes q) xs ys (holding j) r);
}

job_finished-IsSafe :
    (s : Pool) (xs ys : List Thread) (j : Job) (r : Thread)
    → (r ≡ executing j) ⊎ (r ≡ skipping j)
    → IsSafe s
    → s.threads ≡ xs ++ (r ∷ ys)
    → IsSafe (record (job_finished j s) { threads = xs ++ (idle ∷ ys) })
unfolding job_finished
job_finished-IsSafe s xs ys j r is v at = record {
  counted = ground (arith, v.counted, sum_of-change claims xs ys r idle);
  locked = λ q. ground (arith, v.locked q, v.locked j.queue, sum_of-change (locks q) xs ys r idle);
  marked = v.marked;
  quiet = λ q h. ground (arith, v.quiet q, sum_of-change (executes q) xs ys r idle);
}

Step-IsSafe : {s t : Pool} → Step s t → IsSafe s → IsSafe t
Step-IsSafe {s} (schedules p j e) v = subst IsSafe e (schedule-IsSafe p j s v)
Step-IsSafe {s} (stops e) v = subst IsSafe e (
    unfold stop in
    record { counted = v.counted; locked = v.locked; marked = v.marked; quiet = v.quiet })
Step-IsSafe {s} (deletes q e) v = subst IsSafe e (deleting_queue-IsSafe q s v)
Step-IsSafe {s} {t} (is_rid q e) v = deleted_queue-IsSafe q s t v e
Step-IsSafe {s} (works {t = t} xs ys r at e u) v = subst IsSafe u (work-IsSafe s t xs ys r v at e)
Step-IsSafe {s} (takes {t = t} xs ys r at e u) v = subst IsSafe u (do_one-IsSafe s t xs ys r v at e)
Step-IsSafe {s} (starts {t = t} xs ys j r at e u) v =
    subst IsSafe u (job_started-IsSafe s t xs ys j r v at e)
Step-IsSafe {s} (finishes xs ys j (inl at) u) v =
    subst IsSafe u (job_finished-IsSafe s xs ys j (executing j) (inl refl) v at)
Step-IsSafe {s} (finishes xs ys j (inr at) u) v =
    subst IsSafe u (job_finished-IsSafe s xs ys j (skipping j) (inr refl) v at)

sum_of-replicate : (f : Thread → ℕ) (n : ℕ) → f idle ≡ 0 → sum_of f (replicate n idle) ≡ 0
unfolding sum_of
sum_of-replicate f zero e = refl
sum_of-replicate f (suc n) e = omega (arith, sum_of-replicate f n e)

create-IsSafe : (b : Bool) (n : ℕ) → IsSafe (create b (replicate n idle))
unfolding create size
create-IsSafe b n = record {
  counted = omega (arith, sum_of-replicate claims n refl);
  locked = λ q. sym (sum_of-replicate (locks q) n refl);
  marked = λ q h. cc;
  quiet = λ q h. cc;
}

pub Reach-IsSafe : {b : Bool} {n : ℕ} {s : Pool} → Reach b n s → IsSafe s
Reach-IsSafe {b} {n} (created e) = subst IsSafe e (create-IsSafe b n)
Reach-IsSafe (next r st) = Step-IsSafe st (Reach-IsSafe r)

claimed-pos : (xs ys : List Thread) → 0 < sum_of claims (xs ++ (claimed ∷ ys))
unfolding sum_of
claimed-pos xs ys = omega (arith, sum_of-append claims xs (claimed ∷ ys))

-- A thread that has claimed a job finds one: in no reachable state does `do_one` meet an empty
-- job queue.
pub do_one_total :
    {b : Bool} {n : ℕ} {s : Pool} (xs ys : List Thread)
    → Reach b n s
    → s.threads ≡ xs ++ (claimed ∷ ys)
    → (j : Job) × (m : Jobs) × (do_one s ≡ some (record s { jobs = m }, holding j))
unfolding do_one
do_one_total {s = s} xs ys r at = elim (Option-cases (take_job s.jobs)) [
  | inl n ↦
      let c = (Reach-IsSafe r).counted in
      let p = claimed-pos xs ys in
      absurd (omega (arith, take_job-none s.jobs n, c, p, ap (sum_of claims) at))
  | inr ((j, m), k) ↦ (j, m, rw (k, do_one))
]

-- Once `deletingQueue` has returned for a queue, no thread executes a job of that queue, and a
-- thread that takes one up later skips it.
pub no_job_of_gone_queue :
    {b : Bool} {n : ℕ} {s : Pool} (j : Job)
    → Reach b n s
    → s.gone j.queue ≡ true
    → (sum_of (executes j.queue) s.threads ≡ 0) × ((job_started j s).1 ≡ skipping j)
no_job_of_gone_queue {s = s} j r g =
    let v = Reach-IsSafe r in
    (v.quiet j.queue g, unfold job_started in ground (arith, v.marked j.queue))
