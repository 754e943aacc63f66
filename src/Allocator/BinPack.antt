-- ===== src/Allocator/BinPack.antt =====
-- internal/allocator/binpack.go: the GPU, or the node's group of GPUs, that wastes least memory.
-- `sort.Slice` is the argument `sorter`, `time.Now()` is `now`.
pub mod Laws
pub mod Prefix
pub mod Group
pub mod Gang
use gpu_scheduler.Common.{
  Bool, ◌&&◌, ◌||◌, Option, none, some, List, [], ◌∷◌, ◌++◌, map, String, ℤ, pos, ◌+ℤ◌, ◌-ℤ◌, ◌/ℤ◌,
  ltb_ℤ, leb_ℤ, eqb_ℤ, length, take, if◌then◌else◌, Result, ok, err, SortSlice, pos_part,
}
use gpu_scheduler.Types.{
  Job, Gpu, NodeInfo, SchedulingResult, GangSchedulingResult, MemoryMode, memory_per_gpu,
  memory_total, memory_none, other_mode, available_memory_mb,
}
use gpu_scheduler.Allocator.Errors.{
  AllocError, nil_job, no_nodes, no_gpu, bad_gpu_count, no_single_node,
}
use gpu_scheduler.Allocator.Eligible.{has_room}
use gpu_scheduler.Allocator.Fifo.{scheduled, placement}

pub record Candidate : Type 0 where
  pub node : NodeInfo
  pub gpu : Gpu
  pub waste : ℤ

pub record GangCandidate : Type 0 where
  pub node_name : String
  pub gpus : List Gpu
  pub total_waste : ℤ

pub record EligibleGpu : Type 0 where
  pub gpu : Gpu
  pub waste : ℤ

abbrev pub waste : ℤ → Gpu → ℤ
waste need g = available_memory_mb g -ℤ need

-- The loop over the GPUs of one node.
unfoldable pub node_candidates : Bool → ℤ → NodeInfo → List Gpu → List Candidate
node_candidates shared need node [] = []
node_candidates shared need node (g ∷ gs) =
    let rest = node_candidates shared need node gs in
    if has_room shared need g
    then record { node = node; gpu = g; waste = waste need g } ∷ rest
    else rest

-- The loop over the nodes.
unfoldable pub all_candidates : Bool → ℤ → List NodeInfo → List Candidate
all_candidates shared need [] = []
all_candidates shared need (node ∷ nodes) =
    node_candidates shared need node node.gpus ++ all_candidates shared need nodes

unfoldable pub find_candidates : ℤ → List NodeInfo → Bool → Result AllocError (List Candidate)
find_candidates need nodes shared = elim (all_candidates shared need nodes) [
  | [] ↦ err (no_gpu need)
  | c ∷ cs ↦ ok (c ∷ cs)
]

abbrev is_better : Candidate → Candidate → Bool
is_better c best =
    ltb_ℤ c.waste best.waste
    || (eqb_ℤ c.waste best.waste && ltb_ℤ best.gpu.utilization_percent c.gpu.utilization_percent)

-- The loop over `candidates[1:]`, from the best so far.
unfoldable pub best_from : Candidate → List Candidate → Candidate
best_from best [] = best
best_from best (c ∷ cs) = best_from (if is_better c best then c else best) cs

-- `candidates[0]` of an empty slice panics: `none`.
unfoldable pub select_best_fit : List Candidate → Option Candidate
select_best_fit [] = none
select_best_fit (c ∷ cs) = some (best_from c cs)

-- `none` is a panic.
unfoldable pub schedule :
    Option Job → List NodeInfo → ℤ → Option (Result AllocError SchedulingResult)
schedule none nodes now = some (err nil_job)
schedule (some job) [] now = some (err no_nodes)
schedule (some job) (node ∷ nodes) now =
    elim (find_candidates job.memory_mb (node ∷ nodes) job.shared) [
      | err e ↦ some (err e)
      | ok cs ↦ elim (select_best_fit cs) [
        | none ↦ none
        | some c ↦ some (ok (scheduled job now c.node c.gpu))
      ]
    ]

-- The `switch` on the memory mode has no default: another mode leaves the zero value.
unfoldable pub required_memory : MemoryMode → ℤ → ℤ → ℤ
required_memory memory_total memory count = (memory +ℤ count -ℤ pos 1) /ℤ count
required_memory memory_per_gpu memory count = memory
required_memory memory_none memory count = pos 0
required_memory (other_mode m) memory count = pos 0

-- Step 1 of the loop over the nodes.
unfoldable pub eligible_gpus : Bool → ℤ → List Gpu → List EligibleGpu
eligible_gpus shared need [] = []
eligible_gpus shared need (g ∷ gs) =
    let rest = eligible_gpus shared need gs in
    if has_room shared need g then record { gpu = g; waste = waste need g } ∷ rest else rest

abbrev pub total_waste : List EligibleGpu → ℤ
total_waste [] = pos 0
total_waste (e ∷ es) = e.waste +ℤ total_waste es

abbrev pub less_waste : EligibleGpu → EligibleGpu → Bool
less_waste a b = ltb_ℤ a.waste b.waste

abbrev pub less_total : GangCandidate → GangCandidate → Bool
less_total a b = ltb_ℤ a.total_waste b.total_waste

unfoldable pub best_gang_from : GangCandidate → List GangCandidate → GangCandidate
best_gang_from best [] = best
best_gang_from best (c ∷ cs) = best_gang_from (if less_total c best then c else best) cs

unfoldable pub select_gang_best_fit : List GangCandidate → Option GangCandidate
select_gang_best_fit [] = none
select_gang_best_fit (c ∷ cs) = some (best_gang_from c cs)

module _ (sorter : SortSlice) where
  -- Steps 1 to 4 for one node; `none` is a `continue`.
  unfoldable pub gang_candidate : ℤ → ℤ → Bool → NodeInfo → Option GangCandidate
  gang_candidate count need shared node =
      if ltb_ℤ (pos (length node.gpus)) count
      then none
      else (let found = eligible_gpus shared need node.gpus in
          if ltb_ℤ (pos (length found)) count
          then none
          else (let best = take (pos_part count) (sorter.sort_slice EligibleGpu less_waste found) in
              some (record {
                node_name = node.name;
                gpus = map (λ e. e.gpu) best;
                total_waste = total_waste best;
              })))

  unfoldable pub gang_candidates : ℤ → ℤ → Bool → List NodeInfo → List GangCandidate
  gang_candidates count need shared [] = []
  gang_candidates count need shared (node ∷ nodes) =
      let rest = gang_candidates count need shared nodes in
      elim (gang_candidate count need shared node) [ none ↦ rest | some c ↦ c ∷ rest ]

  -- `none` is a panic.
  unfoldable pub schedule_gang :
      Option Job
      → List NodeInfo
      → ℤ
      → MemoryMode
      → ℤ
      → Option (Result AllocError GangSchedulingResult)
  schedule_gang none nodes count mode now = some (err nil_job)
  schedule_gang (some job) nodes count mode now =
      if leb_ℤ count (pos 0)
      then some (err (bad_gpu_count count))
      else (let need = required_memory mode job.memory_mb count in
          elim (gang_candidates count need job.shared nodes) [
            | [] ↦ some (err (no_single_node count need))
            | c ∷ cs ↦
                elim (select_gang_best_fit (sorter.sort_slice GangCandidate less_total (c ∷ cs))) [
                  | none ↦ none
                  | some best ↦ some (
                      ok (record {
                        job_id = job.id;
                        placements =
                            map (placement need best.node_name) (take (pos_part count) best.gpus);
                        timestamp = now;
                      }))
                ]
          ])
