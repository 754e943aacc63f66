-- ===== src/Manager.antt =====
-- internal/gpu/manager.go: the nodes of the mock mode, and the allocations of jobs on their GPUs.
pub mod Refresh
pub mod RoundTrip
use gpu_scheduler.Common.{
  false, Option, none, some, List, [], ◌∷◌, ◌++◌, String, eq_str, ℤ, pos, ◌+ℤ◌, ◌-ℤ◌, ltb_ℤ, eqb_ℤ,
  length, Result, ok, err, if◌then◌else◌,
}
use gpu_scheduler.Common.Dict.{Dict, lookup, insert, erase, lookup_or}
use gpu_scheduler.Types.{Gpu, NodeInfo, available_memory_mb}

pub record Allocation : Type 0 where
  pub job_id : String
  pub gpu_id : String
  pub node_name : String
  pub memory_mb : ℤ

pub record Manager : Type 0 where
  pub nodes : Dict NodeInfo
  pub allocations : Dict (List Allocation)

pub data ManagerError : Type 0 where
  no_allocation gpu_not_found : String → ManagerError
  insufficient_memory : ManagerError
  refresh_failed : String → String → ManagerError

-- The group of each GPU's node; a GPU with no node is on the manager's own.
unfoldable pub group_by_node : String → List Gpu → Dict (List Gpu) → Dict (List Gpu)
group_by_node own [] groups = groups
group_by_node own (g ∷ gs) groups =
    let node = if eq_str g.node_name "" then own else g.node_name in
    group_by_node own gs (insert node (lookup_or [] node groups ++ g ∷ []) groups)

abbrev pub healthy_gpus : List Gpu → ℤ
healthy_gpus [] = pos 0
healthy_gpus (g ∷ gs) = (if g.is_healthy then pos 1 else pos 0) +ℤ healthy_gpus gs

abbrev pub node_of : String → List Gpu → NodeInfo
node_of name gpus = record {
  name = name;
  labels = [];
  gpus = gpus;
  has_nvlink = false;
  total_gpus = pos (length gpus);
  available_gpus = healthy_gpus gpus;
  conditions = "Ready" ∷ [];
}

unfoldable pub nodes_of : Dict (List Gpu) → Dict NodeInfo
nodes_of [] = []
nodes_of ((name, gpus) ∷ groups) = (name, node_of name gpus) ∷ nodes_of groups

-- The manager over what the discoverer found; with no GPU, one node with none.
unfoldable pub new_manager : List Gpu → String → Manager
new_manager gpus own = record {
  nodes = elim (nodes_of (group_by_node own gpus [])) [
    | [] ↦ (own, node_of own []) ∷ []
    | n ∷ ns ↦ n ∷ ns
  ];
  allocations = [];
}

-- The first GPU with an id, over the nodes.
unfoldable pub find_gpu : String → List Gpu → Option Gpu
find_gpu id [] = none
find_gpu id (g ∷ gs) = if eq_str g.id id then some g else find_gpu id gs

unfoldable pub find_on : String → Dict NodeInfo → Option (NodeInfo × Gpu)
find_on id [] = none
find_on id ((name, node) ∷ nodes) = elim (find_gpu id node.gpus) [
  | some g ↦ some (node, g)
  | none ↦ find_on id nodes
]

unfoldable pub get_gpu : Manager → String → Result ManagerError Gpu
get_gpu m id = elim (find_on id m.nodes) [ some (node, g) ↦ ok g | none ↦ err (gpu_not_found id) ]

-- A memory of 0 takes the whole GPU.
unfoldable pub charge : ℤ → Gpu → Gpu
charge memory g = record g {
  used_memory_mb = if eqb_ℤ memory (pos 0) then g.total_memory_mb else g.used_memory_mb +ℤ memory;
}

unfoldable pub charge_first : String → ℤ → List Gpu → List Gpu
charge_first id memory [] = []
charge_first id memory (g ∷ gs) =
    if eq_str g.id id then charge memory g ∷ gs else g ∷ charge_first id memory gs

-- The write through the pointer into the first node that has the GPU.
unfoldable pub charge_on : String → ℤ → Dict NodeInfo → Dict NodeInfo
charge_on id memory [] = []
charge_on id memory ((name, node) ∷ nodes) = elim (find_gpu id node.gpus) [
  | some g ↦ (name, record node { gpus = charge_first id memory node.gpus }) ∷ nodes
  | none ↦ (name, node) ∷ charge_on id memory nodes
]

unfoldable pub allocate : Manager → String → String → ℤ → Manager × Option ManagerError
allocate m job id memory = elim (find_on id m.nodes) [
  | none ↦ (m, some (gpu_not_found id))
  | some (node, g) ↦
      if ltb_ℤ (available_memory_mb g) memory then (m, some insufficient_memory) else (
        record {
          nodes = charge_on id memory m.nodes;
          allocations =
              insert job
                (lookup_or [] job m.allocations
                  ++ record {
                    job_id = job;
                    gpu_id = g.id;
                    node_name = node.name;
                    memory_mb = memory;
                  }
                    ∷ [])
                m.allocations;
        },
        none,
      )
]

-- One allocation given back: on every GPU with the id.
unfoldable pub give_back_gpus : String → ℤ → List Gpu → List Gpu
give_back_gpus id memory [] = []
give_back_gpus id memory (g ∷ gs) =
    (if eq_str g.id id then record g { used_memory_mb = g.used_memory_mb -ℤ memory } else g)
    ∷ give_back_gpus id memory gs

unfoldable pub give_back_nodes : String → ℤ → Dict NodeInfo → Dict NodeInfo
give_back_nodes id memory [] = []
give_back_nodes id memory ((name, node) ∷ nodes) =
    (name, record node { gpus = give_back_gpus id memory node.gpus })
    ∷ give_back_nodes id memory nodes

unfoldable pub give_back_all : List Allocation → Dict NodeInfo → Dict NodeInfo
give_back_all [] nodes = nodes
give_back_all (a ∷ rest) nodes = give_back_all rest (give_back_nodes a.gpu_id a.memory_mb nodes)

unfoldable pub release : Manager → String → Manager × Option ManagerError
release m job = elim (lookup job m.allocations) [
  | none ↦ (m, some (no_allocation job))
  | some held ↦
      (record { nodes = give_back_all held m.nodes; allocations = erase job m.allocations }, none)
]

abbrev pub values : Dict NodeInfo → List NodeInfo
values [] = []
values ((name, node) ∷ nodes) = node ∷ values nodes

unfoldable pub get_nodes : Manager → List NodeInfo
get_nodes m = values m.nodes

unfoldable pub get_allocations : Manager → Dict (List Allocation)
get_allocations m = m.allocations
