-- ===== src/Allocator/GangMultiPod.antt =====
-- internal/allocator/gang_multi_pod.go: the pods of a gang are placed one after another, each on
-- what the ones before left of a copy of the nodes. The copy (deepCopyNodes) is the list of nodes
-- itself, since lists here are values. A `none` is a panic.
pub mod Laws
pub mod Exclusive
use gpu_scheduler.Common.{
  Bool, Option, none, some, List, [], ◌∷◌, map, String, eq_str, ℤ, pos, ◌+ℤ◌, ◌/ℤ◌, ltb_ℤ, leb_ℤ,
  eqb_ℤ, false, length, Result, ok, err, if◌then◌else◌,
}
use gpu_scheduler.Types.{Job, Gpu, NodeInfo, memory_per_gpu, SchedulingResult, GangSchedulingResult}
use gpu_scheduler.Scheduler.Pod.{Pod}
use gpu_scheduler.Allocator.Errors.{AllocError}
use gpu_scheduler.Allocator.Strategy.{SchedulingStrategy}

pub record PodPlacement (Q : Type 0) : Type 0 where
  pub pod : Pod Q
  pub node_name : String
  pub gpu_ids : List String
  pub memory_mb : ℤ
  pub is_mig : Bool

pub data GangError : Type 0 where
  length_mismatch : GangError
  gang_pod : String → AllocError → GangError

-- One round of the innermost loop: a GPU against one id.
unfoldable pub charge_once : ℤ → String → Gpu → Gpu
charge_once per id g =
    if eq_str g.id id
    then record g {
      used_memory_mb = g.used_memory_mb +ℤ per;
      allocated_pods = g.allocated_pods +ℤ pos 1;
    }
    else g

-- The loop over the ids, for one GPU.
unfoldable pub charge_gpu : ℤ → List String → Gpu → Gpu
charge_gpu per [] g = g
charge_gpu per (id ∷ ids) g = charge_gpu per ids (charge_once per id g)

unfoldable pub per_gpu_memory : ℤ → List String → ℤ
per_gpu_memory memory ids =
    if ltb_ℤ (pos 1) (pos (length ids)) then memory /ℤ pos (length ids) else memory

unfoldable pub subtract_from_shadow : List NodeInfo → String → List String → ℤ → List NodeInfo
subtract_from_shadow [] name ids memory = []
subtract_from_shadow (n ∷ shadow) name ids memory =
    (if eq_str n.name name
      then record n { gpus = map (charge_gpu (per_gpu_memory memory ids) ids) n.gpus }
      else n)
    ∷ subtract_from_shadow shadow name ids memory

-- The node and the GPUs of a result; a gang with no placement has no first one.
unfoldable pub gang_choice :
    Option (Result AllocError GangSchedulingResult)
    → Option (Result AllocError (String × List String))
gang_choice none = none
gang_choice (some (err e)) = some (err e)
gang_choice (some (ok r)) = elim r.placements [
  | [] ↦ none
  | p ∷ ps ↦ some (ok (p.node_name, map (λ q. q.gpu_id) (p ∷ ps)))
]

unfoldable pub single_choice :
    Option (Result AllocError SchedulingResult) → Option (Result AllocError (String × List String))
single_choice none = none
single_choice (some (err e)) = some (err e)
single_choice (some (ok r)) = some (ok (r.node_name, r.gpu_ids))

unfoldable pub gang_count : Job → ℤ
gang_count job = if leb_ℤ job.gpu_count (pos 0) then pos 1 else job.gpu_count

-- The two calls of the strategy for one pod.
unfoldable pub place_pod :
    SchedulingStrategy → Job → List NodeInfo → ℤ → Option (Result AllocError (String × List String))
place_pod s job shadow now =
    if ltb_ℤ (pos 1) (gang_count job)
    then gang_choice (s.schedule_gang job shadow (gang_count job) memory_per_gpu now)
    else single_choice (s.schedule job shadow now)

module _ {Q : Type 0} where
  abbrev pub placed : Pod Q → Job → String × List String → PodPlacement Q
  placed pod job (name, ids) = record {
    pod = pod;
    node_name = name;
    gpu_ids = ids;
    memory_mb = job.memory_mb;
    is_mig = false;
  }

  -- placements = append(placements, ...), or the error of a later pod.
  unfoldable pub prepend :
      PodPlacement Q
      → Option (Result GangError (List (PodPlacement Q)))
      → Option (Result GangError (List (PodPlacement Q)))
  prepend p none = none
  prepend p (some (err e)) = some (err e)
  prepend p (some (ok ps)) = some (ok (p ∷ ps))

  -- The loop over the jobs, and over the pods by the same index.
  unfoldable pub place_all :
      SchedulingStrategy
      → List (Pod Q)
      → List Job
      → List NodeInfo
      → ℤ
      → Option (Result GangError (List (PodPlacement Q)))
  place_all s pods [] shadow now = some (ok [])
  place_all s [] (job ∷ jobs) shadow now = none
  place_all s (pod ∷ pods) (job ∷ jobs) shadow now = elim (place_pod s job shadow now) [
    | none ↦ none
    | some (err e) ↦ some (err (gang_pod pod.name e))
    | some (ok (name, ids)) ↦
        prepend (placed pod job (name, ids))
          (place_all s pods jobs (subtract_from_shadow shadow name ids job.memory_mb) now)
  ]

  unfoldable pub schedule_multi_pod_gang :
      SchedulingStrategy
      → List (Pod Q)
      → List NodeInfo
      → List Job
      → ℤ
      → Option (Result GangError (List (PodPlacement Q)))
  schedule_multi_pod_gang s pods nodes jobs now =
      if eqb_ℤ (pos (length pods)) (pos (length jobs))
      then place_all s pods jobs nodes now
      else some (err length_mismatch)
