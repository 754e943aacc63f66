-- ===== src/Scheduler/Preemption.antt =====
-- internal/scheduler/preemption.go: which running pods are evicted for one of higher priority, and
-- how each is checkpointed, deleted and resumed. The cluster is a parameter: a state `W` with the
-- three calls of PodExecutor, which can fail. `itoa` and `base_name` stand for strconv.Itoa and for
-- cutting a name at "-resume-", `sorter` for sort.Slice. The published events and the timeout of a
-- checkpoint are left out.
pub mod Laws
use Prim.Native.String.{◌++◌ as append_str}
use gpu_scheduler.Common.{
  Bool, true, false, not, ◌&&◌, Option, none, some, List, [], ◌∷◌, ◌++◌, String, eq_str, ℤ, pos,
  negsuc, ◌+ℤ◌, ◌*ℤ◌, ltb_ℤ, leb_ℤ, eqb_ℤ, keep, Result, ok, err, if◌then◌else◌, SortSlice,
}
use gpu_scheduler.Common.Dict.{Dict, insert, erase}
use gpu_scheduler.Scheduler.Pod.{
  Pod, Container, WorkflowConfig, get_checkpoint_cmd_from_pod, get_auto_resume_from_pod,
  get_preempt_count_from_pod, get_original_priority_from_pod, get_priority_from_pod,
}

pub record PreemptionCandidate (Q : Type 0) : Type 0 where
  pub pod : Pod Q
  pub priority : ℤ
  pub workflow : String
  pub preemptible : Bool
  pub gpu_ids : List String
  pub node_name : String
  pub memory_mb : ℤ

pub data PreemptionError : Type 0 where
  no_candidates : ℤ → PreemptionError
  not_enough : ℤ → ℤ → PreemptionError

unfoldable pub workflow_evict_order : String → ℤ
workflow_evict_order workflow =
    if eq_str workflow "training"
    then pos 0
    else if eq_str workflow "inference"
    then pos 1
    else pos 2

module _ {Q : Type 0} where
  unfoldable pub may_evict : ℤ → PreemptionCandidate Q → Bool
  may_evict priority c = c.preemptible && not (leb_ℤ priority c.priority)

  -- The `less` of the sort: by the workflow, then by the priority.
  unfoldable pub evict_before : PreemptionCandidate Q → PreemptionCandidate Q → Bool
  evict_before a b =
      if not (eqb_ℤ (workflow_evict_order a.workflow) (workflow_evict_order b.workflow))
      then ltb_ℤ (workflow_evict_order a.workflow) (workflow_evict_order b.workflow)
      else ltb_ℤ a.priority b.priority

  -- The greedy loop, with the victims so far and the memory they free.
  unfoldable pub pick :
      ℤ
      → List (PreemptionCandidate Q)
      → ℤ
      → List (PreemptionCandidate Q)
      → Result PreemptionError (List (PreemptionCandidate Q))
  pick need victims freed [] = err (not_enough need freed)
  pick need victims freed (c ∷ cs) =
      let rest = pick need (victims ++ c ∷ []) (freed +ℤ c.memory_mb) cs in
      if leb_ℤ need (freed +ℤ c.memory_mb) then ok (victims ++ c ∷ []) else rest

  unfoldable pub select_victims :
      SortSlice
      → ℤ
      → ℤ
      → List (PreemptionCandidate Q)
      → Result PreemptionError (List (PreemptionCandidate Q))
  select_victims sorter priority need candidates = elim (keep (may_evict priority) candidates) [
    | [] ↦ err (no_candidates priority)
    | c ∷ cs ↦
        pick need [] (pos 0) (sorter.sort_slice (PreemptionCandidate Q) evict_before (c ∷ cs))
  ]

-- PodExecutor: `true` for success.
pub record PodExecutor (Q W : Type 0) : Type 0 where
  pub exec_in_pod : W → String → String → String → W × Bool
  pub delete_pod : W → String → String → ℤ → W × Bool
  pub create_pod : W → Pod Q → W × Bool

pub record PreemptionConfig (Q W : Type 0) : Type 0 where
  pub executor : PodExecutor Q W
  pub grace_period : ℤ
  pub max_retries : ℤ
  pub priority_boost : ℤ
  pub scheduler_name : String
  pub workflow_cfg : WorkflowConfig

-- The new pod of a victim, and the node it prefers by its affinity, if it had one.
pub record ResumePod (Q : Type 0) : Type 0 where
  pub pod : Pod Q
  pub preferred_node : Option String

module _ {Q W : Type 0} (atoi : String → Option ℤ) (itoa : ℤ → String)
    (base_name : String → String) where
  -- The priority before any preemption.
  unfoldable pub original_priority : PreemptionConfig Q W → Pod Q → ℤ
  original_priority cfg pod =
      let noted = get_original_priority_from_pod atoi pod in
      if eqb_ℤ noted (negsuc 0) then get_priority_from_pod atoi pod cfg.workflow_cfg else noted

  -- The priority of the new pod: at most 100.
  unfoldable pub resume_priority : PreemptionConfig Q W → Pod Q → ℤ → ℤ
  resume_priority cfg pod count =
      let boosted = original_priority cfg pod +ℤ count *ℤ cfg.priority_boost in
      if ltb_ℤ (pos 100) boosted then pos 100 else boosted

  unfoldable pub resume_annotations : PreemptionConfig Q W → Pod Q → ℤ → Dict String
  resume_annotations cfg pod count =
      let cleared =
        erase "gpu-scheduler/allocation-type"
          (erase "gpu-scheduler/assigned-gpus" pod.annotations) in
      let counted = insert "gpu-scheduler/preempt-count" (itoa count) cleared in
      let noted =
        if eqb_ℤ (get_original_priority_from_pod atoi pod) (negsuc 0)
        then insert "gpu-scheduler/original-priority" (itoa (original_priority cfg pod)) counted
        else counted in
      insert "gpu-scheduler/priority" (itoa (resume_priority cfg pod count)) noted

  unfoldable pub build_resume_pod : PreemptionConfig Q W → PreemptionCandidate Q → ℤ → ResumePod Q
  build_resume_pod cfg victim count = record {
    pod = record {
      name = append_str (base_name victim.pod.name) (append_str "-resume-" (itoa count));
      namespace = victim.pod.namespace;
      labels = [];
      annotations = resume_annotations cfg victim.pod count;
      created_at = pos 0;
      node_name = "";
      scheduler_name = cfg.scheduler_name;
      containers = victim.pod.containers;
    };
    preferred_node = if eq_str victim.pod.node_name "" then none else some victim.pod.node_name;
  }

  unfoldable pub try_auto_resume : PreemptionConfig Q W → PreemptionCandidate Q → W → W
  try_auto_resume cfg victim w =
      let count = get_preempt_count_from_pod atoi victim.pod +ℤ pos 1 in
      if not (get_auto_resume_from_pod victim.pod)
      then w
      else if ltb_ℤ cfg.max_retries count
      then w
      else (cfg.executor.create_pod w (build_resume_pod cfg victim count).pod).0

  -- One round of the loop of Preempt: the checkpoint, the delete and, if that worked, the resume.
  unfoldable pub evict : PreemptionConfig Q W → W → PreemptionCandidate Q → W
  evict cfg w v =
      let cmd = get_checkpoint_cmd_from_pod v.pod in
      let w' =
        if eq_str cmd ""
        then w
        else (cfg.executor.exec_in_pod w v.pod.namespace v.pod.name cmd).0 in
      let (w'', deleted) = cfg.executor.delete_pod w' v.pod.namespace v.pod.name cfg.grace_period in
      if deleted then try_auto_resume cfg v w'' else w''

  unfoldable pub evict_all : PreemptionConfig Q W → W → List (PreemptionCandidate Q) → W
  evict_all cfg w [] = w
  evict_all cfg w (v ∷ vs) = evict_all cfg (evict cfg w v) vs

  -- The victims are returned whether or not their deletion worked.
  unfoldable pub preempt :
      SortSlice
      → PreemptionConfig Q W
      → W
      → ℤ
      → ℤ
      → List (PreemptionCandidate Q)
      → W × Result PreemptionError (List (PreemptionCandidate Q))
  preempt sorter cfg w priority need candidates =
      elim (select_victims sorter priority need candidates) [
        | err e ↦ (w, err e)
        | ok victims ↦ (evict_all cfg w victims, ok victims)
      ]
