-- ===== src/Allocator/Errors.antt =====
-- The errors that the allocator package returns, one constructor for each `fmt.Errorf`.
use gpu_scheduler.Common.{ℤ}
use gpu_scheduler.Types.{MemoryMode}

pub data AllocError : Type 0 where
  nil_job no_nodes : AllocError
  no_gpu : ℤ → AllocError
  bad_gpu_count : ℤ → AllocError
  bad_memory_mode : MemoryMode → AllocError
  no_single_node : ℤ → ℤ → AllocError
