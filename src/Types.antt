-- ===== src/Types.antt =====
-- pkg/types/types.go: the vocabulary of the scheduler. A Go `int` is an unbounded integer here, a
-- `time.Time` is a number of nanoseconds with 0 for the zero time, and a `uuid.UUID` is its text.
-- UtilizationPercent is a float64 that the program only ever fills with whole percentages
-- (`float64(util)`), so it is an integer here.
use gpu_scheduler.Common.{String, Bool, List, ℤ, ◌-ℤ◌}
use gpu_scheduler.Common.Dict.{Dict}

pub data MemoryMode : Type 0 where
  memory_per_gpu memory_total memory_none : MemoryMode
  -- a value of the string type that is none of the three constants
  other_mode : String → MemoryMode

pub data InferenceRole : Type 0 where
  prefill decode unified unknown : InferenceRole

pub data WorkflowType : Type 0 where
  build training inference : WorkflowType

pub data JobStatus : Type 0 where
  pending scheduled running completed failed : JobStatus

pub data JobPriority : Type 0 where
  -- the empty string, which no job of the program overwrites
  priority_unset priority_low priority_normal priority_high : JobPriority

pub record GpuPlacement : Type 0 where
  pub node_name : String
  pub gpu_id : String
  pub memory_mb : ℤ

pub record GangSchedulingResult : Type 0 where
  pub job_id : String
  pub placements : List GpuPlacement
  pub timestamp : ℤ

pub record Job : Type 0 where
  pub id : String
  pub name : String
  pub namespace : String
  pub gpu_count : ℤ
  pub memory_mb : ℤ
  pub priority : JobPriority
  pub workflow : WorkflowType
  pub status : JobStatus
  pub created_at : ℤ
  pub scheduled_at : ℤ
  pub shared : Bool

pub record Gpu : Type 0 where
  pub id : String
  pub index : ℤ
  pub node_name : String
  pub total_memory_mb : ℤ
  pub used_memory_mb : ℤ
  pub utilization_percent : ℤ
  pub is_healthy : Bool
  pub is_shared : Bool
  pub allocated_pods : ℤ
  pub is_mps : Bool

-- The free memory of a GPU.
unfoldable pub available_memory_mb : Gpu → ℤ
available_memory_mb g = g.total_memory_mb -ℤ g.used_memory_mb

pub record NodeInfo : Type 0 where
  pub name : String
  pub labels : Dict String
  pub gpus : List Gpu
  pub has_nvlink : Bool
  pub total_gpus : ℤ
  pub available_gpus : ℤ
  pub conditions : List String

pub record SchedulingResult : Type 0 where
  pub job_id : String
  pub node_name : String
  pub gpu_ids : List String
  pub success : Bool
  pub reason : String
  pub timestamp : ℤ
  pub is_mig : Bool
