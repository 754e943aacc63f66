-- ===== src/ControlPlane.antt =====
-- pkg/controlplane/types.go: what the control plane says of inference workers. The float64 metrics
-- are values of a parameter `F`, since the program only compares them. A value of the string types
-- that is none of their constants is an `other_` one.
use gpu_scheduler.Common.{String, Bool, ℤ}
use gpu_scheduler.Types.{InferenceRole}

pub data PressureState : Type 0 where
  normal prefill_hot decode_hot : PressureState
  other_pressure : String → PressureState

pub data WorkerState : Type 0 where
  starting ready draining removed : WorkerState
  other_state : String → WorkerState

pub record PressureReport (F : Type 0) : Type 0 where
  pub model_group : String
  pub inflight : ℤ
  pub queue_wait_p95 : F
  pub ttft_p95 : F
  pub itl_p95 : F
  pub pressure_state : PressureState
  pub timestamp : ℤ

pub record WorkerInfo : Type 0 where
  pub id : String
  pub role : InferenceRole
  pub state : WorkerState
  pub routable : Bool
  pub gpu2gpu_ready : Bool
  pub endpoint : String
  pub model_group : String

pub record WorkerStat (F : Type 0) : Type 0 where
  pub id : String
  pub inflight : ℤ
  pub queue_wait_p95 : F
  pub ttft_p95 : F
  pub itl_p95 : F
