-- ===== src/Scheduler/Watcher/Rollback.antt =====
-- internal/scheduler/watcher.go: what a binding that fails leaves of the reservation it was for.
use gpu_scheduler.Common.{
  ◌≡◌, refl, ◌⊎◌, sym, subst, ℤ, pos, ◌≤ℤ◌, ◌/ℤ◌, none, List, [], ◌∷◌, map, length, String, All,
  Bool, true, false,
}
use gpu_scheduler.Common.Dict.{lookup}
use gpu_scheduler.Types.{SchedulingResult}
use gpu_scheduler.Registry.{Registry, pod_key, get_reserved_memory, get_pod_count, release_pod}
use gpu_scheduler.Registry.Accounting.{IsBalanced}
use gpu_scheduler.Registry.MigRelease.{FreeOn}
use gpu_scheduler.Registry.RoundTrip.{
  Mark, gpu_mark, mig_mark, mark_for, mark_all_for, IsOwing, holdings-release, IsFreed,
}
use gpu_scheduler.Allocator.GangMultiPod.{PodPlacement}
use gpu_scheduler.Scheduler.Pod.{Pod}
use gpu_scheduler.Scheduler.Watcher.{Env, Watcher, mark_gpus, settle_bound, settle_placement}
use gpu_scheduler.Scheduler.Watcher.Books.{div_nonneg}

-- Every GPU has the reserved memory and the pod count that it had, and the books balance.
abbrev pub SameHoldings : Registry → Registry → Type 0
SameHoldings r s =
    ((node gpu : String)
      → (get_reserved_memory s node gpu ≡ get_reserved_memory r node gpu)
        × (get_pod_count s node gpu ≡ get_pod_count r node gpu))
    × IsBalanced s

-- And the MIG instances of some marks are available.
abbrev Undone : Registry → List Mark → Registry → Type 0
Undone r ms s = SameHoldings r s × All (IsFreed s) ms

-- A pod that the registry tracks nothing of.
abbrev pub IsUntracked : {Q : Type 0} → Pod Q → Registry → Type 0
IsUntracked pod r = lookup (pod_key pod.namespace pod.name) r.pod_allocations ≡ none

module _ {Q W : Type 0} (env : Env Q W) where
  -- The cluster refuses to bind a pod, whatever its state.
  abbrev pub IsRefused : Pod Q → String → Type 0
  IsRefused pod node = (c : W) → (env.bind c pod node).1 ≡ false

  -- The mark of one device.
  abbrev device_mark : String → String → ℤ → Bool → Mark
  device_mark node device memory true = mig_mark node device memory
  device_mark node device memory false = gpu_mark node device memory

  -- A device that is a MIG instance is available, all that carry its uuid on its node if that is
  -- known.
  abbrev pub IsOpen : Registry → SchedulingResult → String → Type 0
  IsOpen s r id = (r.is_mig ≡ false) ⊎ FreeOn id (lookup r.node_name s.nodes)

  gang_marks : PodPlacement Q → List String → List Mark
  gang_marks p ids = map (λ id. gpu_mark p.node_name id (p.memory_mb /ℤ pos (length p.gpu_ids))) ids

  mark_gpus-marks :
      (p : PodPlacement Q) (ids : List String) (r : Registry)
      → mark_gpus env p ids r ≡ mark_all_for r p.pod.namespace p.pod.name (gang_marks p ids)
  unfolding mark_gpus mark_all_for mark_for gang_marks
  mark_gpus-marks p [] r = refl
  mark_gpus-marks p (id ∷ ids) r = mark_gpus-marks p ids _

  gang-IsOwing :
      (p : PodPlacement Q) (ids : List String)
      → pos 0 ≤ℤ p.memory_mb
      → All IsOwing (gang_marks p ids)
  unfolding gang_marks
  gang-IsOwing p [] h = tt
  gang-IsOwing p (id ∷ ids) h = (div_nonneg p.memory_mb (length p.gpu_ids) h, gang-IsOwing p ids h)

  settle_bound-release :
      (w : Watcher W) (pod : Pod Q) (x : W × Bool)
      → x.1 ≡ false
      → (settle_bound env w pod x).registry ≡ release_pod w.registry pod.namespace pod.name
  unfolding settle_bound
  settle_bound-release w pod (c, true) e = absurd (cc e)
  settle_bound-release w pod (c, false) e = refl

  -- One pod of a gang that the cluster refuses to bind, with any number of GPUs: afterwards every
  -- GPU has the reserved memory and the pod count that it had before this pod, and the books
  -- balance. The pod had no allocation, and its placement has memory of 0 or more.
  pub settle_placement-rollback :
      (gang_id : String) (w : Watcher W) (p : PodPlacement Q)
      → IsBalanced w.registry
      → IsUntracked p.pod w.registry
      → pos 0 ≤ℤ p.memory_mb
      → IsRefused p.pod p.node_name
      → SameHoldings w.registry (settle_placement env gang_id w p).registry
  unfolding settle_placement
  settle_placement-rollback gang_id w p b fresh h refused =
      subst (SameHoldings w.registry) (sym (settle_bound-release _ p.pod _ (refused _))) (
        subst (λ (s : Registry). SameHoldings w.registry (release_pod s p.pod.namespace p.pod.name))
          (sym (mark_gpus-marks p p.gpu_ids w.registry))
          (holdings-release w.registry p.pod.namespace p.pod.name (gang_marks p p.gpu_ids) b fresh
            (gang-IsOwing p p.gpu_ids h)))
