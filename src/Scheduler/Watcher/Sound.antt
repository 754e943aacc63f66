-- ===== src/Scheduler/Watcher/Sound.antt =====
-- internal/allocator/binpack.go as the strategy of internal/scheduler/watcher.go.
use gpu_scheduler.Common.{
  ◌≡◌, ◌≢◌, sym, ap, subst, ℕ, zero, suc, ℤ, pos, negsuc, ◌≤ℤ◌, ◌<ℤ◌, ◌+ℤ◌, ◌-ℤ◌, int_laws, arith,
  Bool, some, List, [], ◌∷◌, map, length, length-map, Outcome-map, Result, SortSlice,
}
use gpu_scheduler.Types.{
  Job, Gpu, NodeInfo, GpuPlacement, GangSchedulingResult, SchedulingResult, MemoryMode,
  memory_per_gpu, memory_total, memory_none, other_mode,
}
use gpu_scheduler.Allocator.Errors.{AllocError}
use gpu_scheduler.Allocator.Fifo.{placement}
use gpu_scheduler.Allocator.BinPack as BinPack
use gpu_scheduler.Allocator.BinPack.Gang.{Cheapest, schedule_gang_best_fit}
use gpu_scheduler.Allocator.Strategy.{bin_pack}
use gpu_scheduler.Allocator.Strategy.Laws.{bin_pack-IsPlacing}
use gpu_scheduler.Scheduler.Pod.{Pod}
use gpu_scheduler.Scheduler.Watcher.{Env, memory_of, job_of}
use gpu_scheduler.Scheduler.Watcher.Books.{HasRoomFor, GangAnswer, IsSound, div_nonneg}

required-nonneg :
    (mode : MemoryMode) (memory : ℤ) (m : ℕ)
    → pos 0 ≤ℤ memory
    → pos 0 ≤ℤ BinPack.required_memory mode memory (pos (suc m))
unfolding BinPack.required_memory
required-nonneg memory_total memory m h =
    div_nonneg (memory +ℤ pos (suc m) -ℤ pos 1) (suc m) (omega (int_laws, h))
required-nonneg memory_per_gpu memory m h = h
required-nonneg memory_none memory m h = omega arith
required-nonneg (other_mode s) memory m h = omega arith

placed-HasRoomFor :
    (need : ℤ) (node : NodeInfo) (gs : List Gpu)
    → pos 0 ≤ℤ need
    → HasRoomFor (map (placement need node.name) gs)
placed-HasRoomFor need node [] h = tt
placed-HasRoomFor need node (g ∷ gs) h = (h, placed-HasRoomFor need node gs h)

Cheapest-HasRoomFor :
    (shared : Bool) (need : ℤ) (m : ℕ) (nodes : List NodeInfo) (ps : List GpuPlacement)
    → pos 0 ≤ℤ need
    → Cheapest shared need m nodes ps
    → HasRoomFor ps × (ps ≢ [])
Cheapest-HasRoomFor shared need m nodes ps h c = (
  subst HasRoomFor (sym c.made) (placed-HasRoomFor need c.node c.chosen h),
  λ empty. omega (
    arith,
    ap length (sym c.made),
    ap length empty,
    length-map c.chosen (placement need c.node.name),
    c.size,
  ),
)

bin_pack-GangAnswer :
    (sorter : SortSlice) (job : Job) (nodes : List NodeInfo) (count : ℤ) (mode : MemoryMode)
    (now : ℤ)
    → pos 0 ≤ℤ job.memory_mb
    → pos 1 <ℤ count
    → GangAnswer (BinPack.schedule_gang sorter (some job) nodes count mode now)
bin_pack-GangAnswer sorter job nodes (pos zero) mode now h many = absurd (omega arith)
bin_pack-GangAnswer sorter job nodes (negsuc n) mode now h many = absurd (omega arith)
bin_pack-GangAnswer sorter job nodes (pos (suc m)) mode now h many =
    let need = BinPack.required_memory mode job.memory_mb (pos (suc m)) in
    let (r, e, answer) = schedule_gang_best_fit sorter job nodes m mode now in
    (
      r,
      e,
      Outcome-map _ _ _ _ r
          (λ (x : GangSchedulingResult) (c : Cheapest job.shared need m nodes x.placements).
            Cheapest-HasRoomFor job.shared need m nodes x.placements
              (required-nonneg mode job.memory_mb m h) c)
          (λ _ _. tt) answer,
    )

-- Best fit serves the watcher, where no pod asks for less than 0 MB.
pub bin_pack-IsSound :
    {Q W : Type 0} (env : Env Q W) (sorter : SortSlice)
    → env.strategy ≡ bin_pack sorter
    → ((pod : Pod Q) → pos 0 ≤ℤ memory_of env pod)
    → IsSound env
unfolding bin_pack
bin_pack-IsSound env sorter e pods = record {
  pods = pods;
  single = λ pod nodes at now.
      subst
        (λ s.
          (r : Result AllocError SchedulingResult) × (s.schedule (job_of env pod at) nodes now
            ≡ some r))
        (sym e)
        (let (r, f, h) = (bin_pack-IsPlacing sorter).single (job_of env pod at) nodes now in
          (r, f));
  gangs = λ pod nodes count mode at now many.
      subst (λ s. GangAnswer (s.schedule_gang (job_of env pod at) nodes count mode now)) (sym e)
        (bin_pack-GangAnswer sorter (job_of env pod at) nodes count mode now (pods pod) many);
}
