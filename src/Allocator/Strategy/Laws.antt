-- ===== src/Allocator/Strategy/Laws.antt =====
-- internal/allocator/fifo.go and binpack.go as implementations of internal/allocator/strategy.go.
use gpu_scheduler.Common.{
  ◌≡◌, refl, ap, subst, sym, ℕ, suc, pos, ◌<◌, ℤ, List, [], ◌∷◌, map, String, Memᴰ, Memᴰ_middle,
  All, All-map, All-take, All-Permᴰ, All-append_left, keep-Memᴰ, length, take, length-take, Outcome,
  Outcome-map, err, arith, SortSlice, Result, some, inl, inr, Bool, Bool-cases,
}
use gpu_scheduler.Types.{
  Job, Gpu, NodeInfo, GpuPlacement, memory_per_gpu, SchedulingResult, GangSchedulingResult,
}
use gpu_scheduler.Allocator.Errors.{AllocError, no_gpu, no_nodes, no_single_node}
use gpu_scheduler.Allocator.Eligible.{has_room, IsEligible, IsEligible-of_has_room, eligible}
use gpu_scheduler.Allocator.Fifo as Fifo
use gpu_scheduler.Allocator.Fifo.{placement, scheduled}
use gpu_scheduler.Allocator.Fifo.Laws.{FirstFit, Barren, schedule-FirstFit}
use gpu_scheduler.Allocator.Fifo.Gang.{GangFit, schedule_gang_first_fit}
use gpu_scheduler.Allocator.BinPack as BinPack
use gpu_scheduler.Allocator.BinPack.Laws.{BestFit, Nowhere, schedule_best_fit}
use gpu_scheduler.Allocator.BinPack.Gang.{Cheapest, schedule_gang_best_fit}
use gpu_scheduler.Allocator.Strategy.{FitsOn, Full, IsPlacing, fifo, bin_pack}

-- A node whose GPUs are all ineligible has less than one that is eligible.
barren_few :
    (shared : Bool) (need : ℤ) (gs : List Gpu)
    → All (λ g. ¬ IsEligible shared need g) gs
    → length (eligible shared need gs) < 1
barren_few shared need [] h = omega arith
barren_few shared need (g ∷ gs) h = elim (Bool-cases (has_room shared need g)) [
  | inl e ↦ absurd (h.0 (IsEligible-of_has_room shared need g e))
  | inr e ↦ rw e (barren_few shared need gs h.1)
]

all_barren_Full :
    (job : Job) (nodes : List NodeInfo)
    → All (Barren job.shared job.memory_mb) nodes
    → Full job nodes 1
all_barren_Full job nodes h =
    All-map (Barren job.shared job.memory_mb) _ nodes
      (λ n b. barren_few job.shared job.memory_mb n.gpus b) h

-- One GPU of one node.
one-FitsOn :
    (job : Job) (nodes : List NodeInfo) (n : NodeInfo) (g : Gpu)
    → Memᴰ n nodes
    → Memᴰ g n.gpus
    → IsEligible job.shared job.memory_mb g
    → FitsOn job nodes 1 n.name (g.id ∷ [])
one-FitsOn job nodes n g mn mg h = record {
  node = n;
  gpus = g ∷ [];
  known = mn;
  owned = (mg, tt);
  fit = (h, tt);
  size = refl;
  node_named = refl;
  gpus_named = refl;
}

-- The placements of a gang, all on one node, read back as the node and its GPUs.
abbrev Placements : Job → List NodeInfo → ℕ → List GpuPlacement → Type 0
Placements job nodes count ps =
    (name : String) × All (λ p. p.node_name ≡ name) ps
    × FitsOn job nodes count name (map (λ p. p.gpu_id) ps)

placed_names :
    (need : ℤ) (name : String) (gs : List Gpu)
    → All (λ p. p.node_name ≡ name) (map (placement need name) gs)
placed_names need name [] = tt
placed_names need name (g ∷ gs) = (refl, placed_names need name gs)

placed_ids :
    (need : ℤ) (name : String) (gs : List Gpu)
    → map (λ p. p.gpu_id) (map (placement need name) gs) ≡ map (λ g. g.id) gs
placed_ids need name [] = refl
placed_ids need name (g ∷ gs) = ap (◌∷◌ g.id) (placed_ids need name gs)

gang-Placements :
    (job : Job) (nodes : List NodeInfo) (count : ℕ) (n : NodeInfo) (gs : List Gpu)
    (ps : List GpuPlacement)
    → Memᴰ n nodes
    → All (λ g. Memᴰ g n.gpus) gs
    → All (IsEligible job.shared job.memory_mb) gs
    → length gs ≡ count
    → ps ≡ map (placement job.memory_mb n.name) gs
    → Placements job nodes count ps
gang-Placements job nodes count n gs ps known owned fit size made =
    subst (Placements job nodes count) (sym made) (
      n.name,
      placed_names job.memory_mb n.name gs,
      record {
        node = n;
        gpus = gs;
        known = known;
        owned = owned;
        fit = fit;
        size = size;
        node_named = refl;
        gpus_named = placed_ids job.memory_mb n.name gs;
      },
    )

fifo_single :
    (job : Job) (node : NodeInfo) (nodes : List NodeInfo) (x : SchedulingResult) (now : ℤ)
    → (c : NodeInfo × Gpu) × FirstFit job.shared job.memory_mb (node ∷ nodes) c
      × (x ≡ scheduled job now c.0 c.1)
    → FitsOn job (node ∷ nodes) 1 x.node_name x.gpu_ids
fifo_single job node nodes x now ((n, g), (before, after, split, skipped, first), made) =
    subst (λ (y : SchedulingResult). FitsOn job (node ∷ nodes) 1 y.node_name y.gpu_ids) (sym made)
      (one-FitsOn job (node ∷ nodes) n g (subst (Memᴰ n) (sym split) (Memᴰ_middle before after n))
        (subst (Memᴰ g) (sym first.split) (Memᴰ_middle first.before first.after g)) first.holds)

fifo_gang :
    (job : Job) (nodes : List NodeInfo) (m : ℕ) (x : GangSchedulingResult)
    → (f : GangFit job.shared job.memory_mb m nodes x.placements) × (length x.placements ≡ suc m)
      × All
          (IsEligible job.shared job.memory_mb)
          (take (suc m) (eligible job.shared job.memory_mb f.node.gpus))
    → Placements job nodes (suc m) x.placements
fifo_gang job nodes m x (f, size, fits) =
    let found = eligible job.shared job.memory_mb f.node.gpus in
    gang-Placements job nodes (suc m) f.node (take (suc m) found) x.placements
      (subst (Memᴰ f.node) (sym f.split) (Memᴰ_middle f.before f.after f.node))
      (All-take _ (suc m) found (keep-Memᴰ (has_room job.shared job.memory_mb) f.node.gpus)) fits
      (omega (arith, length-take {0} (suc m) found, f.enough)) f.made

bin_pack_single :
    (job : Job) (nodes : List NodeInfo) (x : SchedulingResult) (now : ℤ)
    → (c : BinPack.Candidate) × BestFit job.shared job.memory_mb nodes c
      × (x ≡ scheduled job now c.node c.gpu)
    → FitsOn job nodes 1 x.node_name x.gpu_ids
bin_pack_single job nodes x now (c, (offer, best), made) =
    subst (λ (y : SchedulingResult). FitsOn job nodes 1 y.node_name y.gpu_ids) (sym made)
      (one-FitsOn job nodes c.node c.gpu offer.on_node offer.on_gpu offer.fits)

bin_pack_gang :
    (job : Job) (nodes : List NodeInfo) (m : ℕ) (x : GangSchedulingResult)
    → Cheapest job.shared job.memory_mb m nodes x.placements
    → Placements job nodes (suc m) x.placements
bin_pack_gang job nodes m x c =
    let found = keep-Memᴰ (has_room job.shared job.memory_mb) c.node.gpus in
    gang-Placements job nodes (suc m) c.node c.chosen x.placements c.on_node
      (All-append_left _ c.chosen c.rest (All-Permᴰ _ c.split found)) c.fits c.size c.made

pub fifo-IsPlacing : IsPlacing fifo
unfolding fifo
fifo-IsPlacing = record { single = single; gang = gang }
  where
    single :
        (job : Job) (nodes : List NodeInfo) (now : ℤ)
        → (r : Result AllocError SchedulingResult) × (fifo.schedule job nodes now ≡ some r)
          × Outcome (λ x. FitsOn job nodes 1 x.node_name x.gpu_ids) (λ _. Full job nodes 1) r
    single job [] now = (Fifo.schedule (some job) [] now, refl, unfold Fifo.schedule in tt)
    single job (node ∷ nodes) now = (
      Fifo.schedule (some job) (node ∷ nodes) now,
      refl,
      Outcome-map _ _ _ _ _ (λ x h. fifo_single job node nodes x now h)
          (λ (e : AllocError)
              (h : (e ≡ no_gpu job.memory_mb)
                × All (Barren job.shared job.memory_mb) (node ∷ nodes)).
            all_barren_Full job (node ∷ nodes) h.1)
          (schedule-FirstFit job node nodes now),
    )

    gang :
        (job : Job) (nodes : List NodeInfo) (m : ℕ) (now : ℤ)
        → (r : Result AllocError GangSchedulingResult) × (fifo.schedule_gang job nodes
              (pos (suc m))
              memory_per_gpu
              now
            ≡ some r)
          × Outcome (λ x. Placements job nodes (suc m) x.placements) (λ _. Full job nodes (suc m)) r
    gang job [] m now = (
      Fifo.schedule_gang (some job) [] (pos (suc m)) memory_per_gpu now,
      refl,
      unfold Fifo.schedule_gang in tt,
    )
    gang job (node ∷ nodes) m now = (
      Fifo.schedule_gang (some job) (node ∷ nodes) (pos (suc m)) memory_per_gpu now,
      refl,
      Outcome-map _ _ _ _ _ (λ x h. fifo_gang job (node ∷ nodes) m x h)
          (λ (e : AllocError)
              (h : (e ≡ no_single_node (pos (suc m)) job.memory_mb)
                × Full job (node ∷ nodes) (suc m)).
            h.1)
          (schedule_gang_first_fit job node nodes m memory_per_gpu now job.memory_mb
            (unfold Fifo.required_memory in refl)),
    )

-- The packer is what clients of a strategy rely on, with any sort: it never panics, it places a job
-- on as many eligible GPUs of one node as the job asks for, and it refuses a job only where no node
-- has enough of them.
pub bin_pack-IsPlacing : (sorter : SortSlice) → IsPlacing (bin_pack sorter)
unfolding bin_pack
bin_pack-IsPlacing sorter = record { single = single; gang = gang }
  where
    single :
        (job : Job) (nodes : List NodeInfo) (now : ℤ)
        → (r : Result AllocError SchedulingResult) × (BinPack.schedule (some job) nodes now
            ≡ some r)
          × Outcome (λ x. FitsOn job nodes 1 x.node_name x.gpu_ids) (λ _. Full job nodes 1) r
    single job [] now = (err no_nodes, unfold BinPack.schedule in refl, tt)
    single job (node ∷ nodes) now =
        let (r, e, h) = schedule_best_fit job node nodes now in
        (
          r,
          e,
          Outcome-map _ _ _ _ r (λ x c. bin_pack_single job (node ∷ nodes) x now c)
              (λ (e : AllocError)
                  (h : (e ≡ no_gpu job.memory_mb)
                    × Nowhere job.shared job.memory_mb (node ∷ nodes)).
                all_barren_Full job (node ∷ nodes) h.1)
              h,
        )

    gang :
        (job : Job) (nodes : List NodeInfo) (m : ℕ) (now : ℤ)
        → (r : Result AllocError GangSchedulingResult) × (BinPack.schedule_gang sorter
              (some job)
              nodes
              (pos (suc m))
              memory_per_gpu
              now
            ≡ some r)
          × Outcome (λ x. Placements job nodes (suc m) x.placements) (λ _. Full job nodes (suc m)) r
    gang job nodes m now =
        let (r, e, h) = schedule_gang_best_fit sorter job nodes m memory_per_gpu now in
        (
          r,
          e,
          unfold BinPack.required_memory in
              (Outcome-map _ _ _ _ r (λ x c. bin_pack_gang job nodes m x c)
                (λ (e : AllocError)
                    (h : (e ≡ no_single_node (pos (suc m)) job.memory_mb) × Full job nodes (suc m)).
                  h.1)
                h),
        )
