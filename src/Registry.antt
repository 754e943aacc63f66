-- ===== src/Registry.antt =====
-- internal/gpu/registry.go: what the agents report of the nodes, and what the scheduler has
-- reserved of their GPUs for pods. A method that changes the registry returns the new one; the
-- mutex makes each method one step. Metrics and log lines are left out, but for the cut of a device
-- id at 12 bytes in some of them, which panics on a shorter id. Only the watcher's goroutines call
-- these methods, so the panic ends the program: `panicked` records that it has happened, and what
-- a registry holds with it set is never seen.
pub mod Accounting
pub mod Release
pub mod History
pub mod Find
pub mod MigRelease
pub mod RoundTrip
use Prim.Native.String.{◌++◌ as append_str, len}
use gpu_scheduler.Common.{
  Bool, true, false, ◌||◌, ltb, Option, none, some, List, [], ◌∷◌, ◌++◌, map, String, eq_str, ℤ,
  pos, ◌+ℤ◌, ◌-ℤ◌, ltb_ℤ, leb_ℤ, length, if◌then◌else◌,
}
use gpu_scheduler.Common.Dict.{Dict, lookup, insert, erase, lookup_or, lookup2, insert2}
use gpu_scheduler.Agent.{MigInstance, GpuInfo, GpuReport}
use gpu_scheduler.Types.{Gpu, NodeInfo}

pub record AllocationEntry : Type 0 where
  pub node_name : String
  pub gpu_uuid : String
  pub memory_mb : ℤ
  pub is_mig : Bool

pub record NodeGpus : Type 0 where
  pub node_name : String
  pub has_nvlink : Bool
  pub gpus : List GpuInfo
  pub reported_at : ℤ

pub record Registry : Type 0 where
  pub nodes : Dict NodeGpus
  pub last_seen : Dict ℤ
  pub reservations : Dict (Dict ℤ)
  pub pod_allocations : Dict (List AllocationEntry)
  pub pod_count_per_gpu : Dict (Dict ℤ)
  pub panicked : Bool

unfoldable pub new_registry : Registry
new_registry = record {
  nodes = [];
  last_seen = [];
  reservations = [];
  pod_allocations = [];
  pod_count_per_gpu = [];
  panicked = false;
}

-- id[:12] in a log line, which panics on less than 12 bytes.
unfoldable pub cut : String → Registry → Registry
cut id r = record r { panicked = r.panicked || ltb (len id) 12 }

-- namespace + "/" + podName
unfoldable pub pod_key : String → String → String
pod_key namespace name = append_str namespace (append_str "/" name)

unfoldable pub update_from_report : Registry → GpuReport → ℤ → Registry
update_from_report r report now = record r {
  last_seen = insert report.node_name now r.last_seen;
  nodes =
      insert report.node_name
        (record {
          node_name = report.node_name;
          has_nvlink = report.has_nvlink;
          gpus = report.gpus;
          reported_at = now;
        })
        r.nodes;
}

-- The loop of RemoveStaleNodes over the entries of `lastSeen`.
unfoldable pub remove_stale : Dict ℤ → ℤ → ℤ → Registry → Registry
remove_stale [] threshold now r = r
remove_stale ((node, seen) ∷ rest) threshold now r = remove_stale rest threshold now (
    if leb_ℤ threshold (now -ℤ seen)
    then record r { last_seen = erase node r.last_seen; nodes = erase node r.nodes }
    else r)

unfoldable pub remove_stale_nodes : Registry → ℤ → ℤ → Registry
unfolding remove_stale
remove_stale_nodes r threshold now = remove_stale r.last_seen threshold now r

abbrev pub thirty_seconds : ℤ
thirty_seconds = pos 30_000_000_000

abbrev values {ℓ} : {V : Type ℓ} → Dict V → List V
values [] = []
values ((k, v) ∷ m) = v ∷ values m

unfoldable pub get_all_nodes : Registry → ℤ → Registry × List NodeGpus
get_all_nodes r now = let r' = remove_stale_nodes r thirty_seconds now in (r', values r'.nodes)

unfoldable pub get_node : Registry → String → Option NodeGpus
get_node r node = lookup node r.nodes

-- A MIG instance by its uuid is made available or not: all that carry the uuid.
unfoldable pub set_instances : String → Bool → List MigInstance → List MigInstance
set_instances uuid free [] = []
set_instances uuid free (m ∷ ms) =
    (if eq_str m.uuid uuid then record m { is_available = free } else m)
    ∷ set_instances uuid free ms

unfoldable pub set_mig : String → Bool → List GpuInfo → List GpuInfo
set_mig uuid free [] = []
set_mig uuid free (g ∷ gs) =
    record g { mig_instances = set_instances uuid free g.mig_instances } ∷ set_mig uuid free gs

-- The loop that marks every instance with the uuid on a node, if the node is known.
unfoldable pub set_mig_on : String → String → Bool → Registry → Registry
set_mig_on node uuid free r = elim (lookup node r.nodes) [
  | none ↦ r
  | some n ↦ record r { nodes = insert node (record n { gpus = set_mig uuid free n.gpus }) r.nodes }
]

-- The same loops with a `return` at the first hit: whether there was one, and the instances.
unfoldable pub set_first_instance : String → Bool → List MigInstance → Bool × List MigInstance
set_first_instance uuid free [] = (false, [])
set_first_instance uuid free (m ∷ ms) =
    let (hit, ms') = set_first_instance uuid free ms in
    if eq_str m.uuid uuid then (true, record m { is_available = free } ∷ ms) else (hit, m ∷ ms')

unfoldable pub set_first_mig : String → Bool → List GpuInfo → List GpuInfo
set_first_mig uuid free [] = []
set_first_mig uuid free (g ∷ gs) =
    let (hit, ms) = set_first_instance uuid free g.mig_instances in
    let rest = set_first_mig uuid free gs in
    record g { mig_instances = ms } ∷ (if hit then gs else rest)

unfoldable pub set_first_mig_on : String → String → Bool → Registry → Registry
set_first_mig_on node uuid free r = elim (lookup node r.nodes) [
  | none ↦ r
  | some n ↦ record r {
    nodes = insert node (record n { gpus = set_first_mig uuid free n.gpus }) r.nodes;
  }
]

unfoldable pub mark_mig_allocated : Registry → String → String → Registry
mark_mig_allocated r node uuid = set_first_mig_on node uuid false r

unfoldable pub release_mig : Registry → String → String → Registry
release_mig r node uuid = set_first_mig_on node uuid true r

-- The two maps of a node are made together, if its reservations are missing.
unfoldable pub with_tables : Registry → String → Registry
with_tables r node = elim (lookup node r.reservations) [
  | none ↦ record r {
    reservations = insert node [] r.reservations;
    pod_count_per_gpu = insert node [] r.pod_count_per_gpu;
  }
  | some _ ↦ r
]

-- alloc.Entries = append(alloc.Entries, entry)
unfoldable pub track : Registry → String → AllocationEntry → Registry
track r key entry = record r {
  pod_allocations = insert key (lookup_or [] key r.pod_allocations ++ entry ∷ []) r.pod_allocations;
}

abbrev pub add2 : String → String → ℤ → Dict (Dict ℤ) → Dict (Dict ℤ)
add2 n g x d = insert2 n g (lookup2 n g d +ℤ x) d

unfoldable pub reserve : Registry → String → String → ℤ → Registry
reserve r node gpu memory = record r {
  reservations = add2 node gpu memory r.reservations;
  pod_count_per_gpu = add2 node gpu (pos 1) r.pod_count_per_gpu;
}

unfoldable pub mark_gpu_allocated_for_pod :
    Registry → String → String → ℤ → String → String → Registry
mark_gpu_allocated_for_pod r node gpu memory namespace name = cut gpu (
    track (reserve (with_tables r node) node gpu memory) (pod_key namespace name)
      (record { node_name = node; gpu_uuid = gpu; memory_mb = memory; is_mig = false }))

unfoldable pub mark_mig_allocated_for_pod :
    Registry → String → String → ℤ → String → String → Registry
mark_mig_allocated_for_pod r node uuid memory namespace name = cut uuid (
    track (set_mig_on node uuid false r) (pod_key namespace name)
      (record { node_name = node; gpu_uuid = uuid; memory_mb = memory; is_mig = true }))

-- The release of a reservation; a total below 0 clears the GPU.
unfoldable pub unreserve : Registry → String → String → ℤ → Registry
unreserve r node gpu memory =
    let left = lookup2 node gpu r.reservations -ℤ memory in
    let count = lookup2 node gpu r.pod_count_per_gpu -ℤ pos 1 in
    if ltb_ℤ left (pos 0)
    then record r {
      reservations = insert2 node gpu (pos 0) r.reservations;
      pod_count_per_gpu = insert2 node gpu (pos 0) r.pod_count_per_gpu;
    }
    else record r {
      reservations = insert2 node gpu left r.reservations;
      pod_count_per_gpu = insert2 node gpu count r.pod_count_per_gpu;
    }

-- One round of the loop of ReleasePod, before its log line.
unfoldable pub free_entry : Registry → AllocationEntry → Registry
free_entry r entry =
    if entry.is_mig
    then set_mig_on entry.node_name entry.gpu_uuid true r
    else elim (lookup entry.node_name r.reservations) [
      | none ↦ r
      | some _ ↦ unreserve r entry.node_name entry.gpu_uuid entry.memory_mb
    ]

unfoldable pub release_entry : Registry → AllocationEntry → Registry
release_entry r entry = cut entry.gpu_uuid (free_entry r entry)

unfoldable pub release_entries : Registry → List AllocationEntry → Registry
release_entries r [] = r
release_entries r (e ∷ es) = release_entries (release_entry r e) es

unfoldable pub release_pod : Registry → String → String → Registry
release_pod r namespace name = elim (lookup (pod_key namespace name) r.pod_allocations) [
  | none ↦ r
  | some entries ↦
      let r' = release_entries r entries in
      record r' { pod_allocations = erase (pod_key namespace name) r'.pod_allocations }
]

unfoldable pub get_reserved_memory : Registry → String → String → ℤ
get_reserved_memory r node gpu = lookup2 node gpu r.reservations

unfoldable pub get_pod_count : Registry → String → String → ℤ
get_pod_count r node gpu = lookup2 node gpu r.pod_count_per_gpu

-- The deprecated MarkGPUAllocated only logs.
unfoldable pub mark_gpu_allocated : Registry → String → String → ℤ → Registry
mark_gpu_allocated r node gpu memory = r

-- The loop of ReleaseGPU: the first GPU with the uuid.
unfoldable pub give_back : String → ℤ → List GpuInfo → List GpuInfo
give_back uuid memory [] = []
give_back uuid memory (g ∷ gs) =
    if eq_str g.uuid uuid
    then (let left = g.used_memory_mb -ℤ memory in
        let used = if ltb_ℤ left (pos 0) then pos 0 else left in
        record g { used_memory_mb = used; free_memory_mb = g.total_memory_mb -ℤ used } ∷ gs)
    else g ∷ give_back uuid memory gs

unfoldable pub release_gpu : Registry → String → String → ℤ → Registry
release_gpu r node gpu memory = elim (lookup node r.nodes) [
  | none ↦ r
  | some n ↦ record r {
    nodes = insert node (record n { gpus = give_back gpu memory n.gpus }) r.nodes;
  }
]

-- One GPU as GetNodes shows it: its used memory is what is reserved of it.
abbrev pub gpu_of : Registry → String → GpuInfo → Gpu
gpu_of r node g = record {
  id = g.uuid;
  index = g.index;
  node_name = node;
  total_memory_mb = g.total_memory_mb;
  used_memory_mb = get_reserved_memory r node g.uuid;
  utilization_percent = g.utilization_gpu;
  is_healthy = g.is_healthy;
  is_shared = false;
  allocated_pods = get_pod_count r node g.uuid;
  is_mps = g.mps_enabled;
}

abbrev healthy_count : List GpuInfo → ℤ
healthy_count [] = pos 0
healthy_count (g ∷ gs) = (if g.is_healthy then pos 1 else pos 0) +ℤ healthy_count gs

abbrev node_info : Registry → String → NodeGpus → NodeInfo
node_info r name node = record {
  name = name;
  labels = [];
  gpus = map (gpu_of r name) node.gpus;
  has_nvlink = false;
  total_gpus = pos (length node.gpus);
  available_gpus = healthy_count node.gpus;
  conditions = "Ready" ∷ [];
}

unfoldable pub nodes_of : Registry → Dict NodeGpus → List NodeInfo
nodes_of r [] = []
nodes_of r ((name, node) ∷ rest) = node_info r name node ∷ nodes_of r rest

unfoldable pub get_nodes : Registry → List NodeInfo
get_nodes r = nodes_of r r.nodes

unfoldable pub get_last_seen : Registry → String → ℤ
get_last_seen r node = lookup_or (pos 0) node r.last_seen

unfoldable pub get_all_pod_allocations : Registry → Dict (List AllocationEntry)
get_all_pod_allocations r = r.pod_allocations
