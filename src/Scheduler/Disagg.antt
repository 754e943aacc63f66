-- ===== src/Scheduler/Disagg.antt =====
-- internal/scheduler/watcher.go: where a pod of disaggregated inference goes. It gets a full GPU
-- for itself, if possible on a node that runs pods of the complementary role.
pub mod Laws
use gpu_scheduler.Common.{
  Bool, true, false, not, ◌&&◌, ◌||◌, Option, none, some, List, [], ◌∷◌, ◌++◌, String, eq_str, ℤ,
  pos, ltb_ℤ, keep, if◌then◌else◌,
}
use gpu_scheduler.Types.{
  Gpu, NodeInfo, available_memory_mb, InferenceRole, prefill, decode, unified, unknown,
}
use gpu_scheduler.Scheduler.Pod.{Pod, get_pod_model_group, get_pod_inference_role}
use gpu_scheduler.Scheduler.Pod.Intent.{DisaggPodIntent}

pub data PodPhase : Type 0 where
  pod_pending pod_running pod_succeeded pod_failed pod_unknown : PodPhase

-- A pod as the cluster lists it: with its phase and its conditions, each with whether
-- its status is True.
pub record ClusterPod (Q : Type 0) : Type 0 where
  pub pod : Pod Q
  pub phase : PodPhase
  pub conditions : List (String × Bool)

abbrev pub is_running : PodPhase → Bool
is_running pod_running = true
is_running pod_pending = false
is_running pod_succeeded = false
is_running pod_failed = false
is_running pod_unknown = false

abbrev pub is_pending : PodPhase → Bool
is_pending pod_pending = true
is_pending pod_running = false
is_pending pod_succeeded = false
is_pending pod_failed = false
is_pending pod_unknown = false

pub record FullGpuCandidate : Type 0 where
  pub node_name : String
  pub gpu_id : String
  pub free_memory_mb : ℤ

-- The guard of the loop, `true` where the `continue` is not taken.
unfoldable pub is_open : ℤ → Gpu → Bool
is_open need g = not (
    not g.is_healthy
    || g.is_mps
    || ltb_ℤ (pos 0) g.allocated_pods
    || ltb_ℤ (available_memory_mb g) need)

abbrev pub full_gpu : NodeInfo → Gpu → FullGpuCandidate
full_gpu node g = record {
  node_name = node.name;
  gpu_id = g.id;
  free_memory_mb = available_memory_mb g;
}

-- The loop over the GPUs of one node.
unfoldable pub open_of_node : ℤ → NodeInfo → List Gpu → List FullGpuCandidate
open_of_node need node [] = []
open_of_node need node (g ∷ gs) =
    let rest = open_of_node need node gs in if is_open need g then full_gpu node g ∷ rest else rest

unfoldable pub collect_candidates : List NodeInfo → ℤ → List FullGpuCandidate
collect_candidates [] need = []
collect_candidates (node ∷ nodes) need =
    open_of_node need node node.gpus ++ collect_candidates nodes need

-- The loop that keeps the least free memory, and the first of equals.
unfoldable pub least_free : FullGpuCandidate → List FullGpuCandidate → FullGpuCandidate
least_free best [] = best
least_free best (c ∷ cs) =
    least_free (if ltb_ℤ c.free_memory_mb best.free_memory_mb then c else best) cs

unfoldable pub select_best : List FullGpuCandidate → Option FullGpuCandidate
select_best [] = none
select_best (c ∷ cs) = some (least_free c cs)

abbrev pub on_node : String → FullGpuCandidate → Bool
on_node name c = eq_str c.node_name name

unfoldable pub select_best_for_node : List FullGpuCandidate → String → Option FullGpuCandidate
select_best_for_node cs name = select_best (keep (on_node name) cs)

-- The loop over the preferred nodes, and the choice among all after it.
unfoldable pub select_preferred : List FullGpuCandidate → List String → Option FullGpuCandidate
select_preferred cs [] = select_best cs
select_preferred cs (name ∷ names) = elim (select_best_for_node cs name) [
  | some c ↦ some c
  | none ↦ select_preferred cs names
]

unfoldable pub select_full_gpu : List NodeInfo → List String → ℤ → Option FullGpuCandidate
select_full_gpu nodes preferred need = elim (collect_candidates nodes need) [
  | [] ↦ none
  | c ∷ cs ↦ select_preferred (c ∷ cs) preferred
]

abbrev pub same_role : InferenceRole → InferenceRole → Bool
same_role prefill prefill = true
same_role decode decode = true
same_role unified unified = true
same_role unknown unknown = true
same_role _ _ = false

abbrev pub complementary : InferenceRole → InferenceRole
complementary prefill = decode
complementary decode = prefill
complementary unified = prefill
complementary unknown = prefill

abbrev pub seen_in : String → List String → Bool
seen_in node [] = false
seen_in node (n ∷ seen) = if eq_str n node then true else seen_in node seen

module _ {Q : Type 0} (trim : String → String) where
  -- Whether a listed pod counts: it runs on a node for this scheduler, in the same model group.
  unfoldable pub is_relative : String → DisaggPodIntent → ClusterPod Q → Bool
  is_relative scheduler_name intent p =
      not (
        not (eq_str p.pod.scheduler_name scheduler_name)
        || not (is_running p.phase)
        || eq_str p.pod.node_name "")
      && eq_str intent.model_group (get_pod_model_group trim p.pod)

  -- One round of the loop: the nodes of the complementary role, the fallback nodes, and those
  -- seen.
  unfoldable pub note_node :
      InferenceRole
      → ClusterPod Q
      → List String × List String × List String
      → List String × List String × List String
  note_node wanted p (near, fallback, seen) =
      let node = p.pod.node_name in
      let role = get_pod_inference_role p.pod in
      if seen_in node seen
      then (near, fallback, seen)
      else if same_role role (complementary wanted)
      then (near ++ node ∷ [], fallback, node ∷ seen)
      else if same_role role wanted
      then (near, fallback ++ node ∷ [], node ∷ seen)
      else (near, fallback, seen)

  unfoldable pub note_nodes :
      String
      → DisaggPodIntent
      → List (ClusterPod Q)
      → List String × List String × List String
      → List String × List String × List String
  note_nodes scheduler_name intent [] acc = acc
  note_nodes scheduler_name intent (p ∷ ps) acc =
      note_nodes scheduler_name intent ps
        (if is_relative scheduler_name intent p then note_node intent.role p acc else acc)

  -- The nodes in the order of preference; none where the cluster cannot be listed.
  unfoldable pub resolve_preferred_nodes :
      String → DisaggPodIntent → Option (List (ClusterPod Q)) → List String
  resolve_preferred_nodes scheduler_name intent none = []
  resolve_preferred_nodes scheduler_name intent (some pods) =
      let (near, fallback, seen) = note_nodes scheduler_name intent pods ([], [], []) in
      if same_role intent.role prefill || same_role intent.role decode then near ++ fallback else []
