-- ===== src/Allocator/Routing.antt =====
-- internal/allocator/routing.go and the routing of internal/allocator/allocator.go: a pod goes to
-- a MIG instance or to a full GPU. `parse_bool` and `atoi` stand for strconv.ParseBool and
-- strconv.Atoi, `sorter` for sort.Slice. The labels of a pod that has none are the empty map, and
-- so are its annotations. The `Reason` texts of the results are left empty.
pub mod Laws
use gpu_scheduler.Common.{
  Bool, true, false, not, ◌&&◌, Option, none, some, List, [], ◌∷◌, String, eq_str, ℤ, pos, ltb_ℤ,
  leb_ℤ, eqb_ℤ, Result, ok, err, if◌then◌else◌, SortSlice,
}
use gpu_scheduler.Common.Dict.{Dict, lookup}
use gpu_scheduler.Types.{Job, SchedulingResult}
use gpu_scheduler.Registry.{Registry}
use gpu_scheduler.Registry.Find.{
  MigCandidate, GpuCandidate, find_available_mig, find_available_mps_gpu,
  find_available_non_mps_gpu,
}

pub data PoolPreference : Type 0 where
  pool_mig pool_full pool_auto : PoolPreference

pub data RoutingError : Type 0 where
  no_mig : ℤ → RoutingError
  no_mig_selected : RoutingError
  no_mps_gpu no_non_mps_gpu : ℤ → RoutingError
  no_gpu_selected : RoutingError
  unknown_pool : PoolPreference → RoutingError
  strict_pool : PoolPreference → RoutingError → RoutingError
  no_pool : RoutingError → RoutingError

pub record JobClassification : Type 0 where
  pub pool : PoolPreference
  pub memory_request_mb : ℤ
  pub strict_mode : Bool

-- What the routing reads of a Kubernetes pod.
pub record PodMeta : Type 0 where
  pub labels : Dict String
  pub annotations : Dict String

abbrev pub label_pool : String
label_pool = "gpu-scheduler.io/pool"

abbrev pub label_allow_fallback : String
label_allow_fallback = "gpu-scheduler.io/allow-fallback"

abbrev pub annotation_memory : String
annotation_memory = "gpu-scheduler.io/memory-mb"

abbrev pub annotation_shared : String
annotation_shared = "gpu-scheduler/shared"

module _ (parse_bool : String → Option Bool) (atoi : String → Option ℤ) where
  unfoldable pub extract_gpu_memory_request : PodMeta → ℤ
  extract_gpu_memory_request pod = elim (lookup annotation_memory pod.annotations) [
    | none ↦ pos 0
    | some s ↦ elim (atoi s) [ some memory ↦ memory | none ↦ pos 0 ]
  ]

  -- The explicit pool label: a pool and whether it is strict.
  unfoldable pub explicit_pool : Option String → PoolPreference × Bool
  explicit_pool none = (pool_auto, false)
  explicit_pool (some label) =
      if eq_str label "mig"
      then (pool_mig, true)
      else if eq_str label "full"
      then (pool_full, true)
      else (pool_auto, false)

  -- The allow-fallback override.
  unfoldable pub allows_fallback : Option String → Bool
  allows_fallback none = false
  allows_fallback (some label) = elim (parse_bool label) [ some allow ↦ allow | none ↦ false ]

  unfoldable pub classify_job : Option PodMeta → JobClassification
  classify_job none = record { pool = pool_auto; memory_request_mb = pos 0; strict_mode = false }
  classify_job (some pod) =
      let (pool, strict) = explicit_pool (lookup label_pool pod.labels) in
      record {
        pool = pool;
        memory_request_mb = extract_gpu_memory_request pod;
        strict_mode =
            if allows_fallback (lookup label_allow_fallback pod.labels) then false else strict;
      }

-- The `less` of SelectBestMIG and SelectBestFullGPU: by memory, then by the number of pods, most
-- first for a shared pod.
unfoldable pub fits_before : Bool → ℤ × ℤ → ℤ × ℤ → Bool
fits_before shared (m, p) (n, q) =
    if eqb_ℤ m n then (if shared then ltb_ℤ q p else ltb_ℤ p q) else ltb_ℤ m n

abbrev pub mig_key : MigCandidate → ℤ × ℤ
mig_key c = (c.memory_mb, c.pod_count)

abbrev pub gpu_key : GpuCandidate → ℤ × ℤ
gpu_key c = (c.free_memory_mb, c.pod_count)

abbrev pub head : {A : Type 0} → List A → Option A
head [] = none
head (x ∷ xs) = some x

abbrev pub result_of : Job → ℤ → String → String → Bool → SchedulingResult
result_of job now node device is_mig = record {
  job_id = job.id;
  node_name = node;
  gpu_ids = device ∷ [];
  success = true;
  reason = "";
  timestamp = now;
  is_mig = is_mig;
}

module _ (sorter : SortSlice) where
  unfoldable pub select_best_mig : List MigCandidate → Bool → Option MigCandidate
  select_best_mig cs shared =
      head (sorter.sort_slice MigCandidate (λ a b. fits_before shared (mig_key a) (mig_key b)) cs)

  unfoldable pub select_best_full_gpu : List GpuCandidate → Bool → Option GpuCandidate
  select_best_full_gpu cs shared =
      head (sorter.sort_slice GpuCandidate (λ a b. fits_before shared (gpu_key a) (gpu_key b)) cs)

  unfoldable pub allocate_from_mig :
      Registry → ℤ → Job → Bool → ℤ → Result RoutingError SchedulingResult
  allocate_from_mig r memory job shared now = elim (find_available_mig r memory) [
    | [] ↦ err (no_mig memory)
    | c ∷ cs ↦ elim (select_best_mig (c ∷ cs) shared) [
      | none ↦ err no_mig_selected
      | some best ↦ ok (result_of job now best.node_name best.mig_uuid true)
    ]
  ]

  -- The end of allocateFromFullGPU, once there are candidates.
  unfoldable pub from_candidates :
      List GpuCandidate → Job → Bool → ℤ → Result RoutingError SchedulingResult
  from_candidates cs job shared now = elim (select_best_full_gpu cs shared) [
    | none ↦ err no_gpu_selected
    | some best ↦ ok (result_of job now best.node_name best.gpu_uuid false)
  ]

  unfoldable pub allocate_from_full_gpu :
      Registry → ℤ → Job → Bool → ℤ → Result RoutingError SchedulingResult
  allocate_from_full_gpu r memory job true now = elim (find_available_mps_gpu r memory) [
    | [] ↦ err (no_mps_gpu memory)
    | c ∷ cs ↦ from_candidates (c ∷ cs) job true now
  ]
  allocate_from_full_gpu r memory job false now = elim (find_available_non_mps_gpu r memory) [
    | [] ↦ err (no_non_mps_gpu memory)
    | c ∷ cs ↦ from_candidates (c ∷ cs) job false now
  ]

  unfoldable pub try_pool :
      Registry → PoolPreference → ℤ → Job → Bool → ℤ → Result RoutingError SchedulingResult
  try_pool r pool_mig memory job shared now = allocate_from_mig r memory job shared now
  try_pool r pool_full memory job shared now = allocate_from_full_gpu r memory job shared now
  try_pool r pool_auto memory job shared now = err (unknown_pool pool_auto)

unfoldable pub auto_select_pool : Registry → ℤ → PoolPreference
auto_select_pool r memory = elim (find_available_mig r memory) [
  | [] ↦ pool_full
  | c ∷ cs ↦ pool_mig
]

unfoldable pub get_other_pool : PoolPreference → PoolPreference
get_other_pool pool_mig = pool_full
get_other_pool pool_full = pool_mig
get_other_pool pool_auto = pool_mig

-- pod.Annotations["gpu-scheduler/shared"] == "true"
unfoldable pub is_shared_pod : PodMeta → Bool
is_shared_pod pod = elim (lookup annotation_shared pod.annotations) [
  | none ↦ false
  | some v ↦ eq_str v "true"
]

-- The pool that is tried first.
unfoldable pub preferred_pool : Registry → PoolPreference → ℤ → PoolPreference
preferred_pool r pool_auto memory = auto_select_pool r memory
preferred_pool r pool_mig memory = pool_mig
preferred_pool r pool_full memory = pool_full

unfoldable pub allocate_classified :
    SortSlice → Registry → JobClassification → Job → Bool → ℤ → Result RoutingError SchedulingResult
allocate_classified sorter r class job shared now =
    let memory =
      if eqb_ℤ class.memory_request_mb (pos 0) then job.memory_mb else class.memory_request_mb in
    let pool = preferred_pool r class.pool memory in
    elim (try_pool sorter r pool memory job shared now) [
      | ok result ↦ ok result
      | err e ↦
          if class.strict_mode
          then err (strict_pool pool e)
          else elim (try_pool sorter r (get_other_pool pool) memory job shared now) [
            | ok result ↦ ok result
            | err e' ↦ err (no_pool e')
          ]
    ]

unfoldable pub allocate_with_routing :
    (String → Option Bool)
    → (String → Option ℤ)
    → SortSlice
    → Registry
    → PodMeta
    → Job
    → ℤ
    → Result RoutingError SchedulingResult
allocate_with_routing parse_bool atoi sorter r pod job now =
    allocate_classified sorter r (classify_job parse_bool atoi (some pod)) job (is_shared_pod pod)
      now
