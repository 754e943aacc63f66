-- ===== src/Agent.antt =====
-- internal/agent/types.go: what a node's agent reports of its GPUs.
use gpu_scheduler.Common.{String, Bool, List, ℤ}

pub record MigInstance : Type 0 where
  pub gi_index : ℤ
  pub ci_index : ℤ
  pub uuid : String
  pub profile_name : String
  pub profile_id : ℤ
  pub memory_mb : ℤ
  pub sm_count : ℤ
  pub placement_start : ℤ
  pub placement_size : ℤ
  pub is_available : Bool

pub record GpuInfo : Type 0 where
  pub uuid : String
  pub index : ℤ
  pub name : String
  pub total_memory_mb : ℤ
  pub used_memory_mb : ℤ
  pub free_memory_mb : ℤ
  pub utilization_gpu : ℤ
  pub temperature : ℤ
  pub is_healthy : Bool
  pub mps_enabled : Bool
  pub mig_enabled : Bool
  pub mig_instances : List MigInstance

pub record GpuReport : Type 0 where
  pub node_name : String
  pub has_nvlink : Bool
  pub timestamp : ℤ
  pub gpus : List GpuInfo
