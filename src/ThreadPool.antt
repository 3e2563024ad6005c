-- ===== src/ThreadPool.antt =====
-- libs/threadpool/src/threadpoolimpl.cc and queue.cc: prioritised jobs, the threads that run them,
-- and the queues whose deletion waits for running jobs. A function and a queue of the program are
-- numbers, and so is a priority, which is not negative; a lower one is served first, as in the
-- std::map of the source. A step is what a thread does while it holds one of the mutexes.
use scroom.Common.{
  ℕ, zero, suc, ◌+◌, ◌-◌, ◌≡◌, Bool, true, false, not, ◌&&◌, ◌||◌, ltb, ◌==◌, if◌then◌else◌, Option,
  none, some, List, [], ◌∷◌, ◌++◌, ◌⊎◌, replicate,
}
pub mod Order
pub mod Safety
mod Examples

pub record Job : Type 0 where
  pub queue : ℕ
  pub fn : ℕ

-- std::map<int, std::queue<Job>>, in the order of the keys
abbrev pub Jobs : Type 0
Jobs = List (ℕ × List Job)

-- `jobs[priority].emplace(fn, queue)`
pub emplace : ℕ → Job → Jobs → Jobs
emplace p j [] = (p, j ∷ []) ∷ []
emplace p j ((k, q) ∷ m) =
    if k == p
    then (k, q ++ j ∷ []) ∷ m
    else if ltb p k
    then (p, j ∷ []) ∷ (k, q) ∷ m
    else (k, q) ∷ emplace p j m

-- The loop of `do_one` that erases empty queues at the front.
pub drop_empty : Jobs → Jobs
drop_empty [] = []
drop_empty ((k, []) ∷ m) = drop_empty m
drop_empty ((k, j ∷ q) ∷ m) = (k, j ∷ q) ∷ m

-- The front job. `none` is the defect message: "JobQueue empty while it shouldn't be".
pub front : Jobs → Option (Job × Jobs)
front [] = none
front ((k, []) ∷ m) = none
front ((k, j ∷ q) ∷ m) = some (j, (k, q) ∷ m)

-- The first part of `do_one`, under the mutex.
pub take_job : Jobs → Option (Job × Jobs)
take_job m = front (drop_empty m)

-- A thread in `work`: at the head of its loop, between `jobcount--` and the lock of `do_one`, with
-- a job, inside the QueueLock (where the job is executed or, if its queue is gone, is not), or done.
pub data Thread : Type 0 where
  idle claimed stopped : Thread
  holding executing skipping : Job → Thread

pub record Pool : Type 0 where
  pub jobs : Jobs
  pub jobcount : ℕ
  pub alive : Bool
  pub complete_all_jobs : Bool
  pub threads : List Thread
  -- QueueImpl: `count` and `isDeleted`, and whether `deletingQueue` has returned
  pub count : ℕ → ℕ
  pub is_deleted : ℕ → Bool
  pub gone : ℕ → Bool

abbrev pub set_at {ℓ} : {A : Type ℓ} → (ℕ → A) → ℕ → A → ℕ → A
set_at f q a r = if q == r then a else f r

pub create : Bool → List Thread → Pool
create complete_all_jobs threads = record {
  jobs = [];
  jobcount = 0;
  alive = true;
  complete_all_jobs = complete_all_jobs;
  threads = threads;
  count = λ q. 0;
  is_deleted = λ q. false;
  gone = λ q. false;
}

pub schedule : ℕ → Job → Pool → Pool
schedule p j s = record s { jobs = emplace p j s.jobs; jobcount = suc s.jobcount }

-- ~ThreadPool
pub stop : Pool → Pool
stop s = record s { alive = false }

-- One round of the loops of `work`, for a thread that finds the mutex free: it claims a job, waits,
-- or leaves. The second loop runs on only if all jobs are to be completed.
pub work : Pool → Pool × Thread
work s =
    if s.alive || s.complete_all_jobs
    then if ltb 0 s.jobcount
      then (record s { jobcount = s.jobcount - 1 }, claimed)
      else (s, if s.alive then idle else stopped)
    else (s, stopped)

pub do_one : Pool → Option (Pool × Thread)
do_one s = elim (take_job s.jobs) [
  | none ↦ none
  | some (j, m) ↦ some (record s { jobs = m }, holding j)
]

-- QueueImpl::jobStarted, from the constructor of QueueLock
pub job_started : Job → Pool → Pool × Thread
job_started j s = (
  record s { count = set_at s.count j.queue (suc (s.count j.queue)) },
  if s.is_deleted j.queue then skipping j else executing j,
)

-- QueueImpl::jobFinished, from the destructor of QueueLock
pub job_finished : Job → Pool → Pool
job_finished j s = record s { count = set_at s.count j.queue (s.count j.queue - 1) }

-- QueueImpl::deletingQueue, up to its wait, and its return.
pub deleting_queue : ℕ → Pool → Pool
deleting_queue q s = record s { is_deleted = set_at s.is_deleted q true }

pub deleted_queue : ℕ → Pool → Option Pool
deleted_queue q s =
    if s.is_deleted q && (s.count q == 0)
    then some (record s { gone = set_at s.gone q true })
    else none

pub data Step : Pool → Pool → Type 0 where
  schedules : {s t : Pool} (p : ℕ) (j : Job) → schedule p j s ≡ t → Step s t
  stops : {s t : Pool} → stop s ≡ t → Step s t
  deletes : {s t : Pool} (q : ℕ) → deleting_queue q s ≡ t → Step s t
  is_rid : {s t : Pool} (q : ℕ) → deleted_queue q s ≡ some t → Step s t
  works :
      {s t u : Pool} (xs ys : List Thread) (r : Thread)
      → s.threads ≡ xs ++ (idle ∷ ys)
      → work s ≡ (t, r)
      → record t { threads = xs ++ (r ∷ ys) } ≡ u
      → Step s u
  takes :
      {s t u : Pool} (xs ys : List Thread) (r : Thread)
      → s.threads ≡ xs ++ (claimed ∷ ys)
      → do_one s ≡ some (t, r)
      → record t { threads = xs ++ (r ∷ ys) } ≡ u
      → Step s u
  starts :
      {s t u : Pool} (xs ys : List Thread) (j : Job) (r : Thread)
      → s.threads ≡ xs ++ (holding j ∷ ys)
      → job_started j s ≡ (t, r)
      → record t { threads = xs ++ (r ∷ ys) } ≡ u
      → Step s u
  finishes :
      {s t : Pool} (xs ys : List Thread) (j : Job)
      → (s.threads ≡ xs ++ (executing j ∷ ys)) ⊎ (s.threads ≡ xs ++ (skipping j ∷ ys))
      → record (job_finished j s) { threads = xs ++ (idle ∷ ys) } ≡ t
      → Step s t

pub data Reach (complete_all_jobs : Bool) (n : ℕ) : Pool → Type 0 where
  created :
      {s : Pool} → create complete_all_jobs (replicate n idle) ≡ s → Reach complete_all_jobs n s
  next : {s t : Pool} → Reach complete_all_jobs n s → Step s t → Reach complete_all_jobs n t
