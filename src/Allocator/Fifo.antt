-- ===== src/Allocator/Fifo.antt =====
-- internal/allocator/fifo.go: the first node and GPU with enough memory. The Go receiver is empty;
-- `time.Now()` is the argument `now`.
pub mod Laws
pub mod Gang
use gpu_scheduler.Common.{
  ℕ, suc, ◌≡◌, Bool, true, false, Option, none, some, List, [], ◌∷◌, ◌++◌, String, ℤ, pos, ◌+ℤ◌,
  ◌-ℤ◌, ◌/ℤ◌, ltb_ℤ, leb_ℤ, length, if◌then◌else◌, Result, ok, err,
}
use gpu_scheduler.Types.{
  Job, Gpu, NodeInfo, GpuPlacement, SchedulingResult, GangSchedulingResult, MemoryMode,
  memory_per_gpu, memory_total, memory_none, other_mode,
}
use gpu_scheduler.Allocator.Errors.{
  AllocError, nil_job, no_nodes, no_gpu, bad_gpu_count, bad_memory_mode, no_single_node,
}
use gpu_scheduler.Allocator.Eligible.{has_room}

-- The loop over the GPUs of one node.
first_gpu : Bool → ℤ → List Gpu → Option Gpu
first_gpu shared need [] = none
first_gpu shared need (g ∷ gs) =
    let rest = first_gpu shared need gs in if has_room shared need g then some g else rest

-- The loop over the nodes: the return leaves both loops.
first_fit : Bool → ℤ → List NodeInfo → Option (NodeInfo × Gpu)
first_fit shared need [] = none
first_fit shared need (node ∷ nodes) =
    let rest = first_fit shared need nodes in
    elim (first_gpu shared need node.gpus) [ some g ↦ some (node, g) | none ↦ rest ]

abbrev pub scheduled : Job → ℤ → NodeInfo → Gpu → SchedulingResult
scheduled job now node g = record {
  job_id = job.id;
  node_name = node.name;
  gpu_ids = g.id ∷ [];
  success = true;
  reason = "";
  timestamp = now;
  is_mig = false;
}

unfoldable pub schedule : Option Job → List NodeInfo → ℤ → Result AllocError SchedulingResult
unfolding first_fit first_gpu
schedule none nodes now = err nil_job
schedule (some job) [] now = err no_nodes
schedule (some job) (node ∷ nodes) now = elim (first_fit job.shared job.memory_mb (node ∷ nodes)) [
  | some (n, g) ↦ ok (scheduled job now n g)
  | none ↦ err (no_gpu job.memory_mb)
]

-- The `switch` on the memory mode; the default case is an error.
unfoldable pub required_memory : MemoryMode → ℤ → ℤ → Result AllocError ℤ
required_memory memory_total memory count = ok ((memory +ℤ count -ℤ pos 1) /ℤ count)
required_memory memory_per_gpu memory count = ok memory
required_memory memory_none memory count = ok (pos 0)
required_memory (other_mode m) memory count = err (bad_memory_mode (other_mode m))

abbrev pub placement : ℤ → String → Gpu → GpuPlacement
placement need node g = record { node_name = node; gpu_id = g.id; memory_mb = need }

-- The loop over the GPUs of one node, which breaks once `count` placements are made.
take_fitting : Bool → ℤ → String → ℤ → List GpuPlacement → List Gpu → List GpuPlacement
take_fitting shared need node count acc [] = acc
take_fitting shared need node count acc (g ∷ gs) =
    let skipped = take_fitting shared need node count acc gs in
    let acc' = acc ++ placement need node g ∷ [] in
    let more = take_fitting shared need node count acc' gs in
    if has_room shared need g
    then (if leb_ℤ count (pos (length acc')) then acc' else more)
    else skipped

-- The loop over the nodes. A node with too few GPUs leaves the placements of the one before.
unfoldable pub gang_fit : Bool → ℤ → ℤ → List GpuPlacement → List NodeInfo → List GpuPlacement
unfolding take_fitting
gang_fit shared need count acc [] = acc
gang_fit shared need count acc (node ∷ nodes) =
    let passed = gang_fit shared need count acc nodes in
    let got = take_fitting shared need node.name count [] node.gpus in
    let later = gang_fit shared need count got nodes in
    if ltb_ℤ (pos (length node.gpus)) count
    then passed
    else if leb_ℤ count (pos (length got))
    then got
    else later

unfoldable pub schedule_gang :
    Option Job → List NodeInfo → ℤ → MemoryMode → ℤ → Result AllocError GangSchedulingResult
schedule_gang none nodes count mode now = err nil_job
schedule_gang (some job) [] count mode now = err no_nodes
schedule_gang (some job) (node ∷ nodes) count mode now =
    if leb_ℤ count (pos 0)
    then err (bad_gpu_count count)
    else elim (required_memory mode job.memory_mb count) [
      | err e ↦ err e
      | ok need ↦
          let placements = gang_fit job.shared need count [] (node ∷ nodes) in
          if ltb_ℤ (pos (length placements)) count
          then err (no_single_node count need)
          else ok (record { job_id = job.id; placements = placements; timestamp = now })
    ]
