-- ===== src/ThreadPool/Examples.antt =====
-- A pool of one thread, and its theorems on a short run.
use scroom.Common.{ℕ, ◌≡◌, refl, true, false, some, [], ◌∷◌, arith}
use scroom.ThreadPool.{
  Job, Jobs, claimed, holding, skipping, Pool, emplace, take_job, create, schedule, work, do_one,
  job_started, deleting_queue, deleted_queue, Reach, created, next, schedules, works, deletes,
  is_rid, set_at,
}
use scroom.ThreadPool.Order.{entries, insert, entries-emplace, Taken, take_job-Taken}
use scroom.ThreadPool.Safety.{do_one_total, no_job_of_gone_queue, sum_of, executes}

abbrev job : ℕ → Job
job f = record { queue = 0; fn = f }

abbrev two_priorities : Jobs
two_priorities = (101, job 1 ∷ []) ∷ (103, job 2 ∷ []) ∷ []

emplace_test :
    emplace 102 (job 3) two_priorities
    ≡ (101, job 1 ∷ []) ∷ (102, job 3 ∷ []) ∷ (103, job 2 ∷ []) ∷ []
unfolding emplace
emplace_test = refl

entries-emplace_example :
    entries (emplace 101 (job 3) two_priorities) ≡ insert 101 (job 3) (entries two_priorities)
entries-emplace_example = entries-emplace 0 101 (job 3) two_priorities (omega arith)

take_job-Taken_example : Taken ((100, []) ∷ two_priorities) (take_job ((100, []) ∷ two_priorities))
take_job-Taken_example = take_job-Taken ((100, []) ∷ two_priorities)

abbrev one_claim : Pool
one_claim = record {
  jobs = (101, job 1 ∷ []) ∷ [];
  jobcount = 0;
  alive = true;
  complete_all_jobs = false;
  threads = claimed ∷ [];
  count = λ q. 0;
  is_deleted = λ q. false;
  gone = λ q. false;
}

one_claim-Reach : Reach false 1 one_claim
unfolding create schedule emplace work
one_claim-Reach =
    next (next (created refl) (schedules 101 (job 1) refl)) (works [] [] claimed refl refl refl)

do_one_total_example :
    (j : Job) × (m : Jobs) × (do_one one_claim ≡ some (record one_claim { jobs = m }, holding j))
do_one_total_example = do_one_total [] [] one_claim-Reach refl

abbrev queue_gone : Pool
queue_gone = record one_claim {
  is_deleted = set_at one_claim.is_deleted 0 true;
  gone = set_at one_claim.gone 0 true;
}

queue_gone-Reach : Reach false 1 queue_gone
unfolding deleting_queue deleted_queue
queue_gone-Reach = next (next one_claim-Reach (deletes 0 refl)) (is_rid 0 refl)

no_job_of_gone_queue_example :
    (sum_of (executes 0) (claimed ∷ []) ≡ 0)
    × ((job_started (job 1) queue_gone).1 ≡ skipping (job 1))
no_job_of_gone_queue_example = no_job_of_gone_queue (job 1) queue_gone-Reach refl
