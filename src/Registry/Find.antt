-- ===== src/Registry/Find.antt =====
-- internal/gpu/registry.go: the searches for a MIG instance or a full GPU with enough memory.
pub mod Laws
use gpu_scheduler.Common.{
  Bool, not, ◌&&◌, List, [], ◌∷◌, ◌++◌, String, ℤ, pos, ◌-ℤ◌, ltb_ℤ, leb_ℤ, eqb_ℤ, keep,
  if◌then◌else◌,
}
use gpu_scheduler.Common.Dict.{Dict}
use gpu_scheduler.Agent.{MigInstance, GpuInfo}
use gpu_scheduler.Registry.{NodeGpus, Registry, get_reserved_memory, get_pod_count}

pub record MigCandidate : Type 0 where
  pub node_name : String
  pub gpu_uuid : String
  pub mig_uuid : String
  pub profile_name : String
  pub memory_mb : ℤ
  pub sm_count : ℤ
  pub pod_count : ℤ

pub record GpuCandidate : Type 0 where
  pub node_name : String
  pub gpu_uuid : String
  pub gpu_model : String
  pub free_memory_mb : ℤ
  pub total_memory_mb : ℤ
  pub pod_count : ℤ
  pub mps_enabled : Bool

-- The loop over the MIG instances of one GPU.
unfoldable pub mig_of_gpu : Registry → ℤ → String → GpuInfo → List MigInstance → List MigCandidate
mig_of_gpu r least node g [] = []
mig_of_gpu r least node g (m ∷ ms) =
    let rest = mig_of_gpu r least node g ms in
    if m.is_available && leb_ℤ least m.memory_mb
    then record {
      node_name = node;
      gpu_uuid = g.uuid;
      mig_uuid = m.uuid;
      profile_name = m.profile_name;
      memory_mb = m.memory_mb;
      sm_count = m.sm_count;
      pod_count = get_pod_count r node g.uuid;
    }
      ∷ rest
    else rest

-- The loop over the GPUs of one node.
unfoldable pub mig_of_node : Registry → ℤ → String → List GpuInfo → List MigCandidate
mig_of_node r least node [] = []
mig_of_node r least node (g ∷ gs) =
    (if g.mig_enabled && g.is_healthy then mig_of_gpu r least node g g.mig_instances else [])
    ++ mig_of_node r least node gs

unfoldable pub mig_of_nodes : Registry → ℤ → Dict NodeGpus → List MigCandidate
mig_of_nodes r least [] = []
mig_of_nodes r least ((node, n) ∷ rest) =
    mig_of_node r least node n.gpus ++ mig_of_nodes r least rest

unfoldable pub find_available_mig : Registry → ℤ → List MigCandidate
find_available_mig r least = mig_of_nodes r least r.nodes

-- The agent's free memory, or total less used where the report has no free memory, less what is
-- reserved.
unfoldable pub free_mb : Registry → String → GpuInfo → ℤ
free_mb r node g =
    (if eqb_ℤ g.free_memory_mb (pos 0) && ltb_ℤ g.used_memory_mb g.total_memory_mb
      then g.total_memory_mb -ℤ g.used_memory_mb
      else g.free_memory_mb)
    -ℤ get_reserved_memory r node g.uuid

unfoldable pub candidate : Registry → String → GpuInfo → GpuCandidate
candidate r node g = record {
  node_name = node;
  gpu_uuid = g.uuid;
  gpu_model = g.name;
  free_memory_mb = free_mb r node g;
  total_memory_mb = g.total_memory_mb;
  pod_count = get_pod_count r node g.uuid;
  mps_enabled = g.mps_enabled;
}

-- The two `continue`s of the loop are not taken.
unfoldable pub is_candidate : Registry → ℤ → String → GpuInfo → Bool
is_candidate r least node g =
    not g.mig_enabled && g.is_healthy && not (ltb_ℤ (free_mb r node g) least)

unfoldable pub full_of_node : Registry → ℤ → String → List GpuInfo → List GpuCandidate
full_of_node r least node [] = []
full_of_node r least node (g ∷ gs) =
    let rest = full_of_node r least node gs in
    if is_candidate r least node g then candidate r node g ∷ rest else rest

unfoldable pub full_of_nodes : Registry → ℤ → Dict NodeGpus → List GpuCandidate
full_of_nodes r least [] = []
full_of_nodes r least ((node, n) ∷ rest) =
    full_of_node r least node n.gpus ++ full_of_nodes r least rest

unfoldable pub find_available_full_gpu : Registry → ℤ → List GpuCandidate
find_available_full_gpu r least = full_of_nodes r least r.nodes

unfoldable pub find_available_mps_gpu : Registry → ℤ → List GpuCandidate
find_available_mps_gpu r least = keep (λ c. c.mps_enabled) (find_available_full_gpu r least)

unfoldable pub find_available_non_mps_gpu : Registry → ℤ → List GpuCandidate
find_available_non_mps_gpu r least =
    keep (λ c. not c.mps_enabled && eqb_ℤ c.pod_count (pos 0)) (find_available_full_gpu r least)
