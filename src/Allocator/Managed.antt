-- ===== src/Allocator/Managed.antt =====
-- internal/allocator/allocator.go: Allocate, Release and GetNodes of the allocator, over the GPU
-- manager. A panic is a `none`.
pub mod Laws
use gpu_scheduler.Common.{Option, none, some, List, [], ◌∷◌, String, ℤ, Result, ok, err}
use gpu_scheduler.Types.{Job, NodeInfo, SchedulingResult}
use gpu_scheduler.Manager as Manager
use gpu_scheduler.Manager.{Manager, ManagerError}
use gpu_scheduler.Allocator.Errors.{AllocError}
use gpu_scheduler.Allocator.BinPack as BinPack

pub data AllocatorError : Type 0 where
  scheduling_failed : AllocError → AllocatorError
  allocation_failed : ManagerError → AllocatorError

abbrev pub Answer : Type 0
Answer = Option (Manager × Result AllocatorError SchedulingResult)

-- What the manager answers.
unfoldable pub settle : SchedulingResult → Manager × Option ManagerError → Answer
settle result (m, none) = some (m, ok result)
settle result (m, some e) = some (m, err (allocation_failed e))

-- The first of the chosen GPUs is taken; with none, the index is out of range.
unfoldable pub take : Manager → Job → SchedulingResult → List String → Answer
take m job result [] = none
take m job result (id ∷ ids) = settle result (Manager.allocate m job.id id job.memory_mb)

unfoldable pub take_for : Manager → Option Job → SchedulingResult → Answer
take_for m none result = none
take_for m (some job) result = take m job result result.gpu_ids

unfoldable pub after_schedule :
    Manager → Option Job → Option (Result AllocError SchedulingResult) → Answer
after_schedule m job none = none
after_schedule m job (some (err e)) = some (m, err (scheduling_failed e))
after_schedule m job (some (ok result)) = take_for m job result

unfoldable pub allocate : Manager → Option Job → ℤ → Answer
allocate m job now = after_schedule m job (BinPack.schedule job (Manager.get_nodes m) now)

unfoldable pub release : Manager → Job → Manager × Option ManagerError
release m job = Manager.release m job.id

unfoldable pub get_nodes : Manager → List NodeInfo
get_nodes m = Manager.get_nodes m
