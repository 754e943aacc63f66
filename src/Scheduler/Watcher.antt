-- ===== src/Scheduler/Watcher.antt =====
-- internal/scheduler/watcher.go: the loop that schedules pending pods. The watcher's state is the
-- registry, the evictions in flight, and the cluster, a state `W` with the calls that the watcher
-- makes; a call that fails says so. `time.Now()` is the argument `now`, one for a whole round, and
-- a `none` is a panic, other than the cut of a short device id, which the registry records. Published
-- events, metrics and log lines are left out, but for those cuts.
pub mod Loop
pub mod Books
pub mod GangBooks
pub mod History
pub mod Order
pub mod Rollback
pub mod Sound
use gpu_scheduler.Common.{
  Bool, true, false, not, ◌&&◌, Option, none, some, List, [], ◌∷◌, map, String, eq_str, ℤ, pos,
  ◌/ℤ◌, ltb_ℤ, length, Result, ok, err, if◌then◌else◌, SortSlice, keep,
}
use gpu_scheduler.Common.Dict.{Dict, lookup, insert}
use gpu_scheduler.Types.{
  Job, Gpu, NodeInfo, priority_unset, pending, GpuPlacement, GangSchedulingResult, SchedulingResult,
}
use gpu_scheduler.Registry.{
  Registry, get_nodes, mark_gpu_allocated_for_pod, mark_mig_allocated_for_pod, release_pod, pod_key,
  cut,
}
use gpu_scheduler.Allocator.Strategy.{SchedulingStrategy}
use gpu_scheduler.Allocator.GangMultiPod.{PodPlacement, schedule_multi_pod_gang}
use gpu_scheduler.Allocator.Routing.{allocate_with_routing}
use gpu_scheduler.Scheduler.Pod.{
  Pod, WorkflowConfig, get_gpu_count_from_pod, get_gpu_memory_from_pod, get_memory_mode_from_pod,
  get_workflow_from_pod, get_priority_from_pod, is_shared_gpu_pod, is_preemptible, workflow_name,
  get_assigned_gpus,
}
use gpu_scheduler.Scheduler.Pod.Intent.{DisaggPodIntent, get_disagg_pod_intent}
use gpu_scheduler.Scheduler.Gang.{GangState}
use gpu_scheduler.Scheduler.Preemption.{
  PreemptionCandidate, PreemptionConfig, PreemptionError, preempt,
}
use gpu_scheduler.Scheduler.Disagg.{
  ClusterPod, FullGpuCandidate, is_running, select_full_gpu, resolve_preferred_nodes,
}

-- The library functions that the watcher's helpers call, and the calls of the Kubernetes API:
-- the list of all pods, an annotation patch, and a binding of a pod to a node.
pub record Env (Q W : Type 0) : Type 1 where
  pub atoi : String → Option ℤ
  pub itoa : ℤ → String
  pub parse_bool : String → Option Bool
  pub split : String → List String
  pub join : List String → String
  pub trim : String → String
  pub base_name : String → String
  pub value : Q → ℤ
  pub is_zero : Q → Bool
  pub new_id : Pod Q → String
  pub sorter : SortSlice
  pub list_pods : W → Option (List (ClusterPod Q))
  pub patch : W → Pod Q → Dict String → W × Bool
  pub bind : W → Pod Q → String → W × Bool
  pub strategy : SchedulingStrategy
  pub scheduler_name : String
  pub workflow_cfg : WorkflowConfig
  pub gang_timeout : ℤ
  pub preemption : Option (PreemptionConfig Q W)

pub record Watcher (W : Type 0) : Type 0 where
  pub registry : Registry
  pub pending_evictions : Dict ℤ
  pub cluster : W

-- The log line for every GPU of every node.
unfoldable pub cut_gpus : List Gpu → Registry → Registry
cut_gpus [] r = r
cut_gpus (g ∷ gs) r = cut_gpus gs (cut g.id r)

unfoldable pub cut_nodes : List NodeInfo → Registry → Registry
cut_nodes [] r = r
cut_nodes (n ∷ ns) r = cut_nodes ns (cut_gpus n.gpus r)

module _ {Q W : Type 0} (env : Env Q W) where
  abbrev pub memory_of : Pod Q → ℤ
  memory_of pod = get_gpu_memory_from_pod env.atoi env.value pod

  abbrev pub gpu_count_of : Pod Q → ℤ
  gpu_count_of pod = get_gpu_count_from_pod env.atoi env.value pod

  abbrev pub job_of : Pod Q → ℤ → Job
  job_of pod now = record {
    id = env.new_id pod;
    name = pod.name;
    namespace = pod.namespace;
    gpu_count = gpu_count_of pod;
    memory_mb = memory_of pod;
    priority = priority_unset;
    workflow = get_workflow_from_pod pod;
    status = pending;
    created_at = now;
    scheduled_at = pos 0;
    shared = is_shared_gpu_pod pod;
  }

  unfoldable pub rollback_placement_reservation : Watcher W → Pod Q → Watcher W
  rollback_placement_reservation w pod = record w {
    registry = release_pod w.registry pod.namespace pod.name;
  }

  unfoldable pub bind_pod_and_record : Watcher W → Pod Q → String → Watcher W
  bind_pod_and_record w pod node_name =
      let (cluster, bound) = env.bind w.cluster pod node_name in
      if bound
      then record w { cluster = cluster }
      else rollback_placement_reservation (record w { cluster = cluster }) pod

  -- The guards of buildPreemptionCandidates, `true` where no `continue` is taken.
  unfoldable pub may_be_preempted : Dict ℤ → ClusterPod Q → Bool
  may_be_preempted evictions p =
      eq_str p.pod.scheduler_name env.scheduler_name
      && is_running p.phase
      && elim (lookup (pod_key p.pod.namespace p.pod.name) evictions) [
        | none ↦ true
        | some _ ↦ false
      ]
      && elim (get_assigned_gpus env.split p.pod) [ [] ↦ false | id ∷ ids ↦ not (eq_str id "") ]

  unfoldable pub candidate_of : ClusterPod Q → PreemptionCandidate Q
  candidate_of p = record {
    pod = p.pod;
    priority = get_priority_from_pod env.atoi p.pod env.workflow_cfg;
    workflow = workflow_name (get_workflow_from_pod p.pod);
    preemptible = is_preemptible p.pod env.workflow_cfg;
    gpu_ids = get_assigned_gpus env.split p.pod;
    node_name = p.pod.node_name;
    memory_mb = memory_of p.pod;
  }

  unfoldable pub build_preemption_candidates : Watcher W → List (PreemptionCandidate Q)
  build_preemption_candidates w = elim (env.list_pods w.cluster) [
    | none ↦ []
    | some pods ↦ map candidate_of (keep (may_be_preempted w.pending_evictions) pods)
  ]

  -- The loop over the victims.
  unfoldable pub evict_victims : List (PreemptionCandidate Q) → ℤ → Watcher W → Watcher W
  evict_victims [] now w = w
  evict_victims (v ∷ vs) now w = evict_victims vs now (record w {
    registry = release_pod w.registry v.pod.namespace v.pod.name;
    pending_evictions = insert (pod_key v.pod.namespace v.pod.name) now w.pending_evictions;
  })

  -- What handleNoCapacityForPod does with the answer of Preempt.
  unfoldable pub after_preempt :
      Watcher W → ℤ → W × Result PreemptionError (List (PreemptionCandidate Q)) → Watcher W
  after_preempt w now (cluster, err e) = record w { cluster = cluster }
  after_preempt w now (cluster, ok victims) =
      evict_victims victims now (record w { cluster = cluster })

  -- The test on the orchestrator, which may be missing.
  unfoldable pub preempt_for : Option (PreemptionConfig Q W) → Watcher W → Pod Q → ℤ → ℤ → Watcher W
  preempt_for none w pod memory now = w
  preempt_for (some cfg) w pod memory now = after_preempt w now (
      preempt env.atoi env.itoa env.base_name env.sorter cfg w.cluster
        (get_priority_from_pod env.atoi pod env.workflow_cfg) memory
        (build_preemption_candidates w))

  unfoldable pub handle_no_capacity_for_pod : Watcher W → Pod Q → ℤ → ℤ → Watcher W
  handle_no_capacity_for_pod w pod memory now = preempt_for env.preemption w pod memory now

  -- The annotations and the binding of a pod whose GPUs are marked.
  unfoldable pub annotate_and_bind : Watcher W → Pod Q → String → List String → Bool → Watcher W
  annotate_and_bind w pod node_name ids is_mig =
      let (cluster, patched) = env.patch w.cluster pod (
        ("gpu-scheduler/assigned-gpus", env.join ids)
        ∷ ("gpu-scheduler/allocation-type", if is_mig then "mig" else "full")
        ∷ []) in
      bind_pod_and_record (record w { cluster = cluster }) pod node_name

  -- The marks of a gang of GPUs for one pod.
  unfoldable pub mark_placements : Pod Q → List GpuPlacement → Registry → Registry
  mark_placements pod [] r = r
  mark_placements pod (p ∷ ps) r =
      mark_placements pod ps
        (mark_gpu_allocated_for_pod r p.node_name p.gpu_id p.memory_mb pod.namespace pod.name)

  -- The branch for several GPUs, on the answer of the strategy.
  unfoldable pub finish_gang :
      {E : Type 0}
      → Watcher W
      → Pod Q
      → ℤ
      → Option (Result E GangSchedulingResult)
      → Option (Watcher W)
  finish_gang w pod now none = none
  finish_gang w pod now (some (err e)) = some (handle_no_capacity_for_pod w pod (memory_of pod) now)
  finish_gang w pod now (some (ok r)) = elim r.placements [
    | [] ↦ none
    | p ∷ ps ↦ some (
        annotate_and_bind (record w { registry = mark_placements pod (p ∷ ps) w.registry }) pod
          p.node_name (map (λ q. q.gpu_id) (p ∷ ps)) false)
  ]

  unfoldable pub mark_device : Registry → String → String → ℤ → Pod Q → Bool → Registry
  mark_device r node device memory pod is_mig =
      if is_mig
      then mark_mig_allocated_for_pod r node device memory pod.namespace pod.name
      else mark_gpu_allocated_for_pod r node device memory pod.namespace pod.name

  -- The branch for one GPU, on the answer of the routing or of the disaggregated choice. The log
  -- line after the mark cuts the id that the mark has cut already.
  unfoldable pub finish_single :
      {E : Type 0} → Watcher W → Pod Q → ℤ → Result E SchedulingResult → Option (Watcher W)
  finish_single w pod now (err e) = some (handle_no_capacity_for_pod w pod (memory_of pod) now)
  finish_single w pod now (ok r) = elim r.gpu_ids [
    | [] ↦ none
    | id ∷ ids ↦ some (
        annotate_and_bind
          (record w {
            registry = mark_device w.registry r.node_name id (memory_of pod) pod r.is_mig;
          })
          pod r.node_name (id ∷ ids) r.is_mig)
  ]

  -- The result for a candidate; the error for none carries nothing.
  unfoldable pub full_result :
      Pod Q → ℤ → Option FullGpuCandidate → Result (Unit {0}) SchedulingResult
  full_result pod now none = err tt
  full_result pod now (some c) = ok (record {
    job_id = env.new_id pod;
    node_name = c.node_name;
    gpu_ids = c.gpu_id ∷ [];
    success = true;
    reason = "";
    timestamp = now;
    is_mig = false;
  })

  -- The choice for a disaggregated pod.
  unfoldable pub choose_disagg :
      Watcher W → Pod Q → DisaggPodIntent → ℤ → Result (Unit {0}) SchedulingResult
  choose_disagg w pod intent now = full_result pod now (
      select_full_gpu (get_nodes w.registry)
        (resolve_preferred_nodes env.trim env.scheduler_name intent (env.list_pods w.cluster))
        (memory_of pod))

  -- The branch for one GPU, on whether the pod is disaggregated.
  unfoldable pub schedule_single :
      Watcher W → Pod Q → DisaggPodIntent → ℤ → Bool → Option (Watcher W)
  schedule_single w pod intent now true = finish_single w pod now (choose_disagg w pod intent now)
  schedule_single w pod intent now false = finish_single w pod now (
      allocate_with_routing env.parse_bool env.atoi env.sorter w.registry
        (record { labels = pod.labels; annotations = pod.annotations }) (job_of pod now) now)

  -- The log lines of the available resources come before the choice.
  unfoldable pub schedule_pod : Watcher W → Pod Q → ℤ → Option (Watcher W)
  schedule_pod w pod now =
      let intent = get_disagg_pod_intent env.trim pod in
      let logged = record w { registry = cut_nodes (get_nodes w.registry) w.registry } in
      if not intent.is_valid
      then some w
      else if ltb_ℤ (pos 1) (gpu_count_of pod)
      then finish_gang logged pod now (
          env.strategy.schedule_gang (job_of pod now) (get_nodes w.registry) (gpu_count_of pod)
            (get_memory_mode_from_pod pod) now)
      else schedule_single logged pod intent now intent.is_disagg

  -- The inner loop over the GPUs of one placement.
  unfoldable pub mark_gpus : PodPlacement Q → List String → Registry → Registry
  mark_gpus p [] r = r
  mark_gpus p (id ∷ ids) r = mark_gpus p ids (
      mark_gpu_allocated_for_pod r p.node_name id (p.memory_mb /ℤ pos (length p.gpu_ids))
        p.pod.namespace p.pod.name)

  -- The end of a round of the loop over the placements of a gang, on the answer to the binding: a
  -- failed one is rolled back.
  unfoldable pub settle_bound : Watcher W → Pod Q → W × Bool → Watcher W
  settle_bound w pod (cluster, true) = record w { cluster = cluster }
  settle_bound w pod (cluster, false) = record w {
    registry = release_pod w.registry pod.namespace pod.name;
    cluster = cluster;
  }

  unfoldable pub settle_placement : String → Watcher W → PodPlacement Q → Watcher W
  settle_placement gang_id w p =
      let (cluster, patched) = env.patch w.cluster p.pod (
        ("gpu-scheduler/assigned-gpus", env.join p.gpu_ids)
        ∷ ("gpu-scheduler/allocation-type", "full")
        ∷ ("gpu-scheduler/gang-id", gang_id)
        ∷ []) in
      settle_bound (record w { registry = mark_gpus p p.gpu_ids w.registry }) p.pod
        (env.bind cluster p.pod p.node_name)

  unfoldable pub settle_placements : String → Watcher W → List (PodPlacement Q) → Watcher W
  settle_placements gang_id w [] = w
  settle_placements gang_id w (p ∷ ps) = settle_placements gang_id (settle_placement gang_id w p) ps

  unfoldable pub schedule_gang : Watcher W → GangState Q → ℤ → Option (Watcher W)
  schedule_gang w gang now =
      elim (schedule_multi_pod_gang env.strategy gang.pods (get_nodes w.registry)
        (map (λ pod. job_of pod now) gang.pods) now) [
          | none ↦ none
          | some (err e) ↦ some w
          | some (ok ps) ↦ some (settle_placements gang.gang_id w ps)
        ]
