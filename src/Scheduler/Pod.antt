-- ===== src/Scheduler/Pod.antt =====
-- internal/scheduler/helpers.go: what the scheduler reads of a Kubernetes pod. The pod is a record
-- of the parts that the program reads; an absent map is the empty one. `atoi`, `split`, `trim` and
-- `lower` stand for strconv.Atoi, strings.Split, strings.TrimSpace and strings.ToLower, and the
-- type `Q` for resource.Quantity with its `Value()` and `IsZero()`.
pub mod Intent
use gpu_scheduler.Common.{
  Bool, true, false, not, ◌&&◌, ◌||◌, Option, none, some, List, [], ◌∷◌, String, eq_str, ℤ, pos,
  negsuc, ltb_ℤ, ◌/ℤ◌, if◌then◌else◌,
}
use gpu_scheduler.Common.Dict.{Dict, lookup, lookup_or}
use gpu_scheduler.Types.{
  MemoryMode, memory_per_gpu, memory_total, memory_none, InferenceRole, prefill, decode, unified,
  unknown, WorkflowType, build, training, inference,
}

pub record Container (Q : Type 0) : Type 0 where
  pub requests : Dict Q
  pub limits : Dict Q

pub record Pod (Q : Type 0) : Type 0 where
  pub name : String
  pub namespace : String
  pub labels : Dict String
  pub annotations : Dict String
  pub created_at : ℤ
  pub node_name : String
  pub scheduler_name : String
  pub containers : List (Container Q)

-- internal/config/config.go
pub record WorkflowTypeConfig : Type 0 where
  pub name : String
  pub priority : ℤ
  pub preemptible : Bool

pub record WorkflowConfig : Type 0 where
  pub enabled : Bool
  pub allow_custom : Bool
  pub default_priority : ℤ
  pub types : List WorkflowTypeConfig

abbrev pub workflow_name : WorkflowType → String
workflow_name build = "build"
workflow_name training = "training"
workflow_name inference = "inference"

-- The first of the configured workflows with a name.
unfoldable pub find_workflow : String → List WorkflowTypeConfig → Option WorkflowTypeConfig
find_workflow name [] = none
find_workflow name (wf ∷ wfs) = if eq_str wf.name name then some wf else find_workflow name wfs

module _ {Q : Type 0} where
  unfoldable pub annotation : String → Pod Q → Option String
  annotation key pod = lookup key pod.annotations

  -- An annotation with "" for a missing one.
  unfoldable pub annotation_or_empty : String → Pod Q → String
  annotation_or_empty key pod = lookup_or "" key pod.annotations

  -- Whether an annotation is there and says "true".
  unfoldable pub says_true : String → Pod Q → Bool
  says_true key pod = elim (annotation key pod) [ none ↦ false | some v ↦ eq_str v "true" ]

  unfoldable pub get_workflow_from_pod : Pod Q → WorkflowType
  get_workflow_from_pod pod = elim (annotation "gpu-scheduler/workflow" pod) [
    | none ↦ inference
    | some v ↦
        if eq_str v "build" then build else if eq_str v "training" then training else inference
  ]

  unfoldable pub get_memory_mode_from_pod : Pod Q → MemoryMode
  get_memory_mode_from_pod pod = elim (annotation "gpu-scheduler/memory-mode" pod) [
    | none ↦ memory_per_gpu
    | some v ↦
        if eq_str v "total"
        then memory_total
        else if eq_str v "none"
        then memory_none
        else memory_per_gpu
  ]

  unfoldable pub is_shared_gpu_pod : Pod Q → Bool
  is_shared_gpu_pod pod = says_true "gpu-scheduler/shared" pod

  unfoldable pub get_gang_id_from_pod : Pod Q → String
  get_gang_id_from_pod pod = annotation_or_empty "gpu-scheduler/gang-id" pod

  unfoldable pub get_checkpoint_cmd_from_pod : Pod Q → String
  get_checkpoint_cmd_from_pod pod = annotation_or_empty "gpu-scheduler/checkpoint-cmd" pod

  unfoldable pub get_resume_cmd_from_pod : Pod Q → String
  get_resume_cmd_from_pod pod = annotation_or_empty "gpu-scheduler/resume-cmd" pod

  unfoldable pub get_auto_resume_from_pod : Pod Q → Bool
  get_auto_resume_from_pod pod = says_true "gpu-scheduler/auto-resume" pod

  unfoldable pub is_preemptible : Pod Q → WorkflowConfig → Bool
  is_preemptible pod cfg = elim (annotation "gpu-scheduler/preemptible" pod) [
    | some v ↦ eq_str v "true"
    | none ↦ elim (find_workflow (workflow_name (get_workflow_from_pod pod)) cfg.types) [
      | some wf ↦ wf.preemptible
      | none ↦ false
    ]
  ]

  unfoldable pub get_pod_inference_role : Pod Q → InferenceRole
  get_pod_inference_role pod = elim (annotation "gpu-scheduler/inference-role" pod) [
    | none ↦ unknown
    | some v ↦
        if eq_str v "prefill"
        then prefill
        else if eq_str v "decode"
        then decode
        else if eq_str v "unified"
        then unified
        else unknown
  ]

  unfoldable pub is_inference_pod : Pod Q → Bool
  is_inference_pod pod = elim (get_pod_inference_role pod) [
    | unified ↦ true
    | prefill ↦ true
    | decode ↦ true
    | unknown ↦ false
  ]

  -- strings.Split(value, ",")
  unfoldable pub get_assigned_gpus : (String → List String) → Pod Q → List String
  get_assigned_gpus split pod = elim (annotation "gpu-scheduler/assigned-gpus" pod) [
    | none ↦ []
    | some v ↦ split v
  ]

  unfoldable pub is_draining_gpu_pod : (String → String) → (String → String) → Option (Pod Q) → Bool
  is_draining_gpu_pod lower trim none = false
  is_draining_gpu_pod lower trim (some pod) = elim (annotation "gpu-scheduler/draining" pod) [
    | none ↦ false
    | some v ↦ eq_str (lower (trim v)) "true"
  ]

  unfoldable pub get_pod_model_group : (String → String) → Pod Q → String
  get_pod_model_group trim pod = trim (annotation_or_empty "gpu-scheduler/model-group" pod)

  unfoldable pub get_inference_pod_endpoint : (String → String) → Pod Q → String
  get_inference_pod_endpoint trim pod =
      trim (annotation_or_empty "gpu-scheduler/inference-endpoint" pod)

  module _ (atoi : String → Option ℤ) where
    -- A number in an annotation, or a default where it is missing or no number.
    unfoldable pub number_annotation : String → ℤ → Pod Q → ℤ
    number_annotation key d pod = elim (annotation key pod) [
      | none ↦ d
      | some v ↦ elim (atoi v) [ some n ↦ n | none ↦ d ]
    ]

    unfoldable pub get_preempt_count_from_pod : Pod Q → ℤ
    get_preempt_count_from_pod pod = number_annotation "gpu-scheduler/preempt-count" (pos 0) pod

    unfoldable pub get_original_priority_from_pod : Pod Q → ℤ
    get_original_priority_from_pod pod =
        number_annotation "gpu-scheduler/original-priority" (negsuc 0) pod

    -- A size that is no positive number counts as 0.
    unfoldable pub get_gang_size_from_pod : Pod Q → ℤ
    get_gang_size_from_pod pod =
        let size = number_annotation "gpu-scheduler/gang-size" (pos 0) pod in
        if ltb_ℤ (pos 0) size then size else pos 0

    unfoldable pub get_priority_from_pod : Pod Q → WorkflowConfig → ℤ
    get_priority_from_pod pod cfg =
        let by_workflow : ℤ =
          elim (find_workflow (workflow_name (get_workflow_from_pod pod)) cfg.types) [
            | some wf ↦ wf.priority
            | none ↦ cfg.default_priority
          ] in
        number_annotation "gpu-scheduler/priority" by_workflow pod

    -- The first container that asks for the resource.
    unfoldable pub first_limit : String → List (Container Q) → Option Q
    first_limit key [] = none
    first_limit key (c ∷ cs) = elim (lookup key c.limits) [
      | some q ↦ some q
      | none ↦ first_limit key cs
    ]

    unfoldable pub first_request : String → List (Container Q) → Option Q
    first_request key [] = none
    first_request key (c ∷ cs) = elim (lookup key c.requests) [
      | some q ↦ some q
      | none ↦ first_request key cs
    ]

    unfoldable pub get_gpu_count_from_pod : (Q → ℤ) → Pod Q → ℤ
    get_gpu_count_from_pod value pod =
        let count = number_annotation "gpu-scheduler/gpu-count" (pos 0) pod in
        if ltb_ℤ (pos 0) count
        then count
        else elim (first_limit "nvidia.com/gpu" pod.containers) [ some q ↦ value q | none ↦ pos 1 ]

    -- The annotation under either key, the second only where the first is missing.
    unfoldable pub memory_annotation : Pod Q → Option String
    memory_annotation pod = elim (annotation "gpu-scheduler.io/memory-mb" pod) [
      | some v ↦ some v
      | none ↦ annotation "gpu-scheduler/memory-mb" pod
    ]

    unfoldable pub get_gpu_memory_from_pod : (Q → ℤ) → Pod Q → ℤ
    get_gpu_memory_from_pod value pod =
        let by_request : ℤ = elim (first_request "nvidia.com/gpu-memory" pod.containers) [
          | some q ↦ value q /ℤ pos 1_048_576
          | none ↦ pos 0
        ] in
        elim (memory_annotation pod) [
          | none ↦ by_request
          | some v ↦ elim (atoi v) [ some memory ↦ memory | none ↦ by_request ]
        ]

  unfoldable pub requests_gpu : (Q → Bool) → List (Container Q) → Bool
  requests_gpu is_zero [] = false
  requests_gpu is_zero (c ∷ cs) =
      elim (lookup "nvidia.com/gpu" c.requests) [ some q ↦ not (is_zero q) | none ↦ false ]
      || requests_gpu is_zero cs

  unfoldable pub is_gpu_pod : (Q → Bool) → Pod Q → Bool
  is_gpu_pod is_zero pod = elim (annotation "gpu-scheduler.io/memory-mb" pod) [
    | some v ↦ true
    | none ↦ elim (annotation "gpu-scheduler/memory-mb" pod) [
      | some v ↦ true
      | none ↦ says_true "gpu-scheduler/shared" pod || requests_gpu is_zero pod.containers
    ]
  ]
