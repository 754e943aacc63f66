-- ===== src/Scheduler/Watcher/Loop.antt =====
-- internal/scheduler/watcher.go: the rounds of the watcher, what the informers tell it, and the
-- restart.
use gpu_scheduler.Common.{
  Bool, true, false, not, ◌&&◌, ◌||◌, Option, none, some, List, [], ◌∷◌, map, String, eq_str, ℤ,
  pos, ◌+ℤ◌, ◌/ℤ◌, ltb_ℤ, eqb_ℤ, length, if◌then◌else◌, keep,
}
use gpu_scheduler.Common.Dict.{Dict, erase, lookup_or}
use gpu_scheduler.Registry.{
  Registry, mark_gpu_allocated_for_pod, mark_mig_allocated_for_pod, release_pod, pod_key,
}
use gpu_scheduler.Scheduler.Pod.{Pod, get_priority_from_pod, get_assigned_gpus, is_gpu_pod}
use gpu_scheduler.Scheduler.Gang.{GangState, Collected, collect}
use gpu_scheduler.Scheduler.Disagg.{
  ClusterPod, PodPhase, pod_pending, pod_running, pod_succeeded, pod_failed, pod_unknown,
  is_running, is_pending,
}
use gpu_scheduler.Scheduler.Watcher.{Env, Watcher, memory_of, schedule_pod, schedule_gang}

abbrev pub is_over : PodPhase → Bool
is_over pod_succeeded = true
is_over pod_failed = true
is_over pod_pending = false
is_over pod_running = false
is_over pod_unknown = false

pub record PodWithPriority (Q : Type 0) : Type 0 where
  pub pod : Pod Q
  pub priority : ℤ
  pub index : ℤ

unfoldable pub has_ready_condition : List (String × Bool) → Bool
has_ready_condition [] = false
has_ready_condition ((kind, is_true) ∷ cs) =
    if eq_str kind "Ready" && is_true then true else has_ready_condition cs

module _ {Q : Type 0} where
  -- The `less` of the sort: by the priority, highest first, then by the index.
  unfoldable pub goes_first : PodWithPriority Q → PodWithPriority Q → Bool
  goes_first a b =
      if eqb_ℤ a.priority b.priority then ltb_ℤ a.index b.index else ltb_ℤ b.priority a.priority

  -- Whether a pod is still in the cluster, by its key.
  unfoldable pub still_exists : String → List (ClusterPod Q) → Bool
  still_exists key [] = false
  still_exists key (p ∷ ps) = eq_str (pod_key p.pod.namespace p.pod.name) key || still_exists key ps

  -- The loop over the evictions in flight: whether to defer, and the evictions left. The first
  -- list is what the loop runs over.
  unfoldable pub clear_evictions : Dict ℤ → List (ClusterPod Q) → Dict ℤ → Bool × Dict ℤ
  clear_evictions [] pods evictions = (false, evictions)
  clear_evictions ((key, at) ∷ rest) pods evictions =
      let later = clear_evictions rest pods (erase key evictions) in
      if still_exists key pods then (true, evictions) else later

  -- A pod of this scheduler that waits for a node.
  unfoldable pub is_waiting : String → ClusterPod Q → Bool
  is_waiting scheduler_name p =
      eq_str p.pod.scheduler_name scheduler_name && is_pending p.phase && eq_str p.pod.node_name ""

  -- The guards of GetRunningPod, `true` where no `continue` is taken.
  unfoldable pub is_serving : String → ClusterPod Q → Bool
  is_serving scheduler_name p =
      eq_str p.pod.scheduler_name scheduler_name
      && is_running p.phase
      && not (eq_str p.pod.node_name "")
      && has_ready_condition p.conditions

  -- The marks of one pod that runs, for each of its devices.
  unfoldable pub restore_migs : Pod Q → List String → Registry → Registry
  restore_migs pod [] r = r
  restore_migs pod (id ∷ ids) r =
      restore_migs pod ids
        (mark_mig_allocated_for_pod r pod.node_name id (pos 0) pod.namespace pod.name)

  unfoldable pub restore_gpus : Pod Q → ℤ → List String → Registry → Registry
  restore_gpus pod per [] r = r
  restore_gpus pod per (id ∷ ids) r =
      restore_gpus pod per ids
        (mark_gpu_allocated_for_pod r pod.node_name id per pod.namespace pod.name)

  abbrev pub is_mig_pod : Pod Q → Bool
  is_mig_pod pod = eq_str (lookup_or "" "gpu-scheduler/allocation-type" pod.annotations) "mig"

  -- A pod of this scheduler that runs on a node.
  unfoldable pub is_restored : String → ClusterPod Q → Bool
  is_restored scheduler_name p =
      eq_str p.pod.scheduler_name scheduler_name
      && is_running p.phase
      && not (eq_str p.pod.node_name "")

module _ {Q W : Type 0} (env : Env Q W) where
  unfoldable pub with_priorities : ℤ → List (ClusterPod Q) → List (PodWithPriority Q)
  with_priorities i [] = []
  with_priorities i (p ∷ ps) =
      record {
        pod = p.pod;
        priority = get_priority_from_pod env.atoi p.pod env.workflow_cfg;
        index = i;
      }
      ∷ with_priorities (i +ℤ pos 1) ps

  -- The pods in the order in which they are tried.
  unfoldable pub in_order : List (ClusterPod Q) → List (Pod Q)
  in_order pods =
      map (λ x. x.pod)
        (env.sorter.sort_slice (PodWithPriority Q) goes_first (with_priorities (pos 0) pods))

  unfoldable pub schedule_gangs : List (GangState Q) → ℤ → Watcher W → Option (Watcher W)
  schedule_gangs [] now w = some w
  schedule_gangs (g ∷ gs) now w = elim (schedule_gang env w g now) [
    | none ↦ none
    | some w' ↦ schedule_gangs gs now w'
  ]

  unfoldable pub schedule_pods : List (Pod Q) → ℤ → Watcher W → Option (Watcher W)
  schedule_pods [] now w = some w
  schedule_pods (p ∷ ps) now w = elim (schedule_pod env w p now) [
    | none ↦ none
    | some w' ↦ schedule_pods ps now w'
  ]

  -- The end of processQueue: the ready gangs, then the pods alone.
  unfoldable pub schedule_collected : Collected Q → ℤ → Watcher W → Option (Watcher W)
  schedule_collected c now w = elim (schedule_gangs c.ready_gangs now w) [
    | none ↦ none
    | some w' ↦ schedule_pods c.standalone_pods now w'
  ]

  -- processQueue on the pods of the cluster.
  unfoldable pub process_pods : List (ClusterPod Q) → ℤ → Watcher W → Option (Watcher W)
  process_pods pods now w = elim (keep (is_waiting env.scheduler_name) pods) [
    | [] ↦ some w
    | p ∷ ps ↦
        let (deferred, left) = clear_evictions w.pending_evictions pods w.pending_evictions in
        let w' = record w { pending_evictions = left } in
        if deferred
        then some w'
        else schedule_collected (collect env.atoi env.gang_timeout now (in_order (p ∷ ps))) now w'
  ]

  unfoldable pub process_queue : Watcher W → ℤ → Option (Watcher W)
  process_queue w now = elim (env.list_pods w.cluster) [
    | none ↦ some w
    | some pods ↦ process_pods pods now w
  ]

  unfoldable pub forget_pod : Pod Q → Watcher W → Watcher W
  forget_pod pod w = record w {
    registry = release_pod w.registry pod.namespace pod.name;
    pending_evictions = erase (pod_key pod.namespace pod.name) w.pending_evictions;
  }

  -- The informer's UpdateFunc, on the new pod.
  unfoldable pub on_update : ClusterPod Q → Watcher W → Watcher W
  on_update p w =
      if not (is_gpu_pod env.is_zero p.pod)
      then w
      else if is_over p.phase
      then forget_pod p.pod w
      else w

  -- The informer's DeleteFunc; `none` is an object that is no pod.
  unfoldable pub on_delete : Option (Pod Q) → Watcher W → Watcher W
  on_delete none w = w
  on_delete (some pod) w = if is_gpu_pod env.is_zero pod then forget_pod pod w else w

  -- The marks of one pod that runs, unless it has no device.
  unfoldable pub restore_devices : ClusterPod Q → List String → Registry → Registry
  restore_devices p [] r = r
  restore_devices p (id ∷ ids) r =
      if eq_str id ""
      then r
      else if is_mig_pod p.pod
      then restore_migs p.pod (id ∷ ids) r
      else restore_gpus p.pod (memory_of env p.pod /ℤ pos (length (id ∷ ids))) (id ∷ ids) r

  -- One round of the loop of reconcileExistingPods.
  unfoldable pub reconcile_pod : ClusterPod Q → Registry → Registry
  reconcile_pod p r =
      if is_restored env.scheduler_name p
      then restore_devices p (get_assigned_gpus env.split p.pod) r
      else r

  unfoldable pub reconcile_pods : List (ClusterPod Q) → Registry → Registry
  reconcile_pods [] r = r
  reconcile_pods (p ∷ ps) r = reconcile_pods ps (reconcile_pod p r)

  unfoldable pub reconcile_existing_pods : Watcher W → Watcher W
  reconcile_existing_pods w = elim (env.list_pods w.cluster) [
    | none ↦ w
    | some pods ↦ record w { registry = reconcile_pods pods w.registry }
  ]

  -- The pods that run and are ready; `none` where the cluster cannot be listed.
  unfoldable pub get_running_pod : Watcher W → Option (List (Pod Q))
  get_running_pod w = elim (env.list_pods w.cluster) [
    | none ↦ none
    | some pods ↦ some (map (λ p. p.pod) (keep (is_serving env.scheduler_name) pods))
  ]

  -- The watcher of NewWatcher, once the registry and the cluster are there.
  unfoldable pub new_watcher : Registry → W → Watcher W
  new_watcher r cluster =
      reconcile_existing_pods (record { registry = r; pending_evictions = []; cluster = cluster })
