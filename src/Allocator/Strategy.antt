-- ===== src/Allocator/Strategy.antt =====
-- internal/allocator/strategy.go: the interface of the scheduling strategies, what a strategy has
-- to give, and the two strategies of the package. A panic is a `none`.
pub mod Laws
use gpu_scheduler.Common.{
  ◌≡◌, suc, pos, ℕ, ◌<◌, String, Option, some, List, ℤ, Memᴰ, All, map, length, Result, Outcome,
  SortSlice,
}
use gpu_scheduler.Types.{
  Job, Gpu, NodeInfo, MemoryMode, memory_per_gpu, SchedulingResult, GangSchedulingResult,
}
use gpu_scheduler.Allocator.Errors.{AllocError}
use gpu_scheduler.Allocator.Eligible.{IsEligible, eligible}
use gpu_scheduler.Allocator.Fifo as Fifo
use gpu_scheduler.Allocator.BinPack as BinPack

pub record SchedulingStrategy : Type 0 where
  pub schedule : Job → List NodeInfo → ℤ → Option (Result AllocError SchedulingResult)
  pub schedule_gang :
      Job → List NodeInfo → ℤ → MemoryMode → ℤ → Option (Result AllocError GangSchedulingResult)

-- A node, and as many eligible GPUs of it as a job asks for, under their names.
pub record FitsOn (job : Job) (nodes : List NodeInfo) (count : ℕ) (name : String)
    (ids : List String) : Type 0 where
  pub node : NodeInfo
  pub gpus : List Gpu
  pub known : Memᴰ node nodes
  pub owned : All (λ g. Memᴰ g node.gpus) gpus
  pub fit : All (IsEligible job.shared job.memory_mb) gpus
  pub size : length gpus ≡ count
  pub node_named : name ≡ node.name
  pub gpus_named : ids ≡ map (λ g. g.id) gpus

-- No node has as many eligible GPUs.
abbrev pub Full : Job → List NodeInfo → ℕ → Type 0
Full job nodes count = All (λ n. length (eligible job.shared job.memory_mb n.gpus) < count) nodes

-- What the clients of a strategy rely on: it never panics, it places a job on eligible GPUs of one
-- node, and it refuses a job only where no node has enough of them.
pub record IsPlacing (s : SchedulingStrategy) : Type 0 where
  pub single :
      (job : Job) (nodes : List NodeInfo) (now : ℤ)
      → (r : Result AllocError SchedulingResult) × (s.schedule job nodes now ≡ some r)
        × Outcome (λ x. FitsOn job nodes 1 x.node_name x.gpu_ids) (λ _. Full job nodes 1) r
  pub gang :
      (job : Job) (nodes : List NodeInfo) (m : ℕ) (now : ℤ)
      → (r : Result AllocError GangSchedulingResult) × (s.schedule_gang job nodes
            (pos (suc m))
            memory_per_gpu
            now
          ≡ some r)
        × Outcome
            (λ x.
              (name : String) × All (λ p. p.node_name ≡ name) x.placements
              × FitsOn job nodes (suc m) name (map (λ p. p.gpu_id) x.placements))
            (λ _. Full job nodes (suc m))
            r

unfoldable pub fifo : SchedulingStrategy
fifo = record {
  schedule = λ job nodes now. some (Fifo.schedule (some job) nodes now);
  schedule_gang =
      λ job nodes count mode now. some (Fifo.schedule_gang (some job) nodes count mode now);
}

unfoldable pub bin_pack : SortSlice → SchedulingStrategy
bin_pack sorter = record {
  schedule = λ job nodes now. BinPack.schedule (some job) nodes now;
  schedule_gang =
      λ job nodes count mode now. BinPack.schedule_gang sorter (some job) nodes count mode now;
}
