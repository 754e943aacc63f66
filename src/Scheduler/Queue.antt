-- ===== src/Scheduler/Queue.antt =====
-- internal/scheduler/queue.go: a bounded queue of jobs, first in, first out. The mutex makes each
-- method one step; `make` panics on a negative size, so the size is taken to be at least 0.
pub mod Order
use gpu_scheduler.Common.{
  Bool, true, false, Option, none, some, List, [], ◌∷◌, ◌++◌, String, eq_str, ℤ, pos, leb_ℤ, length,
  Result, ok, err, if◌then◌else◌,
}
use gpu_scheduler.Types.{Job}

pub record FifoQueue : Type 0 where
  pub jobs : List Job
  pub max_size : ℤ

pub data QueueError : Type 0 where
  queue_full : ℤ → QueueError
  queue_empty : QueueError

unfoldable pub new_fifo_queue : ℤ → FifoQueue
new_fifo_queue max_size = record { jobs = []; max_size = max_size }

unfoldable pub enqueue : FifoQueue → Job → FifoQueue × Option QueueError
enqueue q job =
    if leb_ℤ q.max_size (pos (length q.jobs))
    then (q, some (queue_full q.max_size))
    else (record q { jobs = q.jobs ++ job ∷ [] }, none)

unfoldable pub dequeue : FifoQueue → FifoQueue × Result QueueError Job
dequeue q = elim q.jobs [
  | [] ↦ (q, err queue_empty)
  | job ∷ rest ↦ (record q { jobs = rest }, ok job)
]

unfoldable pub peek : FifoQueue → Result QueueError Job
peek q = elim q.jobs [ [] ↦ err queue_empty | job ∷ rest ↦ ok job ]

unfoldable pub len : FifoQueue → ℤ
len q = pos (length q.jobs)

-- The loop of Remove: the first job with the id.
unfoldable pub remove_job : String → List Job → Option (List Job)
remove_job id [] = none
remove_job id (job ∷ jobs) =
    let later : Option (List Job) = elim (remove_job id jobs) [
      | some rest ↦ some (job ∷ rest)
      | none ↦ none
    ] in
    if eq_str job.id id then some jobs else later

unfoldable pub remove : FifoQueue → String → FifoQueue × Bool
remove q id = elim (remove_job id q.jobs) [
  | none ↦ (q, false)
  | some jobs ↦ (record q { jobs = jobs }, true)
]
