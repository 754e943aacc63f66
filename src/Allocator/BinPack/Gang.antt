-- ===== src/Allocator/BinPack/Gang.antt =====
-- internal/allocator/binpack.go: ScheduleGang over all the nodes.
use mathlib.Core.List.Permᴰ
use gpu_scheduler.Common.{
  String, leb_ℤ, ℕ, zero, suc, ◌<◌, ◌≡◌, refl, ap, ◌∙◌, sym, subst, ◌⊎◌, inl, inr, Bool, false,
  some, List, [], ◌∷◌, ◌++◌, map, Memᴰ, Permᴰ, arith, ℤ, pos, ◌≤ℤ◌, length, length-Permᴰ,
  length-append, take, All, All-append_left, All-map, All-Permᴰ, Bool-cases, SortSlice, Result, ok,
  err, Outcome, if◌then◌else◌,
}
use gpu_scheduler.Types.{Job, Gpu, NodeInfo, GpuPlacement, MemoryMode, GangSchedulingResult}
use gpu_scheduler.Allocator.Errors.{AllocError, no_single_node}
use gpu_scheduler.Allocator.Eligible.{IsEligible, eligible, eligible-IsEligible}
use gpu_scheduler.Allocator.Fifo.{placement}
use gpu_scheduler.Allocator.BinPack.{
  GangCandidate, less_total, best_gang_from, select_gang_best_fit, gang_candidates, required_memory,
  schedule_gang,
}
use gpu_scheduler.Allocator.BinPack.Group.{total, IsGroup, gang_candidate_cases}

least_of_two :
    (c b : GangCandidate)
    → let w = if less_total c b then c else b in
      (w.total_waste ≤ℤ b.total_waste) × (w.total_waste ≤ℤ c.total_waste)
least_of_two c b = ground arith

best_gang_from-least :
    (b : GangCandidate) (cs : List GangCandidate)
    → All (λ c. (best_gang_from b cs).total_waste ≤ℤ c.total_waste) (b ∷ cs)
unfolding best_gang_from
best_gang_from-least b [] = (omega arith, tt)
best_gang_from-least b (c ∷ cs) =
    let w : GangCandidate = if less_total c b then c else b in
    let h = best_gang_from-least w cs in
    let over : (w.total_waste ≤ℤ b.total_waste) × (w.total_waste ≤ℤ c.total_waste) =
      least_of_two c b in
    (omega (arith, h.0, over.0), (omega (arith, h.0, over.1), h.1))

best_gang_from-All :
    (P : GangCandidate → Type 0) (b : GangCandidate) (cs : List GangCandidate)
    → All P (b ∷ cs)
    → P (best_gang_from b cs)
unfolding best_gang_from
best_gang_from-All P b [] h = h.0
best_gang_from-All P b (c ∷ cs) h = elim (Bool-cases (less_total c b)) [
  | inl e ↦ rw e (best_gang_from-All P c cs (h.1.0, h.1.1))
  | inr e ↦ rw e (best_gang_from-All P b cs (h.0, h.1.1))
]

module _ (sorter : SortSlice) (shared : Bool) (need : ℤ) (m : ℕ) where
  abbrev offers : List NodeInfo → List GangCandidate
  offers = gang_candidates sorter (pos (suc m)) need shared

  abbrev From : List NodeInfo → GangCandidate → Type 0
  From nodes c = (n : NodeInfo) × Memᴰ n nodes × IsGroup shared need m n c

  abbrev Few : NodeInfo → Type 0
  Few n = length (eligible shared need n.gpus) < suc m

  offers-From :
      (nodes ns : List NodeInfo)
      → ((n : NodeInfo) → Memᴰ n ns → Memᴰ n nodes)
      → All (From nodes) (offers ns)
  unfolding gang_candidates
  offers-From nodes [] sub = tt
  offers-From nodes (n ∷ ns) sub =
      let rest = offers-From nodes ns (λ x mx. sub x (Memᴰ.tail mx)) in
      elim (gang_candidate_cases shared need sorter m n) [
        | inl (e, few) ↦ rw (e, gang_candidates) rest
        | inr (c, e, g) ↦ rw (e, gang_candidates) ((n, sub n (Memᴰ.head refl), g), rest)
      ]

  offers_complete :
      (P : GangCandidate → Type 0) (nodes : List NodeInfo)
      → All P (offers nodes)
      → All (λ n. Few n ⊎ ((c : GangCandidate) × IsGroup shared need m n c × P c)) nodes
  unfolding gang_candidates
  offers_complete P [] h = tt
  offers_complete P (n ∷ ns) h = elim (gang_candidate_cases shared need sorter m n) [
    | inl (e, few) ↦
        let h' : All P (offers ns) = rw (e, gang_candidates) at h in
        (inl few, offers_complete P ns h')
    | inr (c, e, g) ↦
        let h' : P c × All P (offers ns) = rw (e, gang_candidates) at h in
        (inr (c, g, h'.0), offers_complete P ns h'.1)
  ]

-- A placement of a gang on one node that is as cheap as any selection of its size on any node.
pub record Cheapest (shared : Bool) (need : ℤ) (m : ℕ) (nodes : List NodeInfo)
    (placed : List GpuPlacement) : Type 0 where
  pub node : NodeInfo
  pub on_node : Memᴰ node nodes
  pub chosen : List Gpu
  pub rest : List Gpu
  pub split : Permᴰ (eligible shared need node.gpus) (chosen ++ rest)
  pub size : length chosen ≡ suc m
  pub fits : All (IsEligible shared need) chosen
  pub made : placed ≡ map (placement need node.name) chosen
  pub least :
      All
        (λ n.
          (sel others : List Gpu)
          → Permᴰ (eligible shared need n.gpus) (sel ++ others)
          → length sel ≡ suc m
          → total shared need chosen ≤ℤ total shared need sel)
        nodes

abbrev pub CheapestOutcome :
    Job → List NodeInfo → ℕ → ℤ → Result AllocError GangSchedulingResult → Type 0
CheapestOutcome job nodes m need =
    Outcome (λ r. Cheapest job.shared need m nodes r.placements)
      (λ e.
        (e ≡ no_single_node (pos (suc m)) need)
        × All (λ n. length (eligible job.shared need n.gpus) < suc m) nodes)

take-length {ℓ} : {A : Type ℓ} (n : ℕ) (xs : List A) → length xs ≡ n → take n xs ≡ xs
take-length zero [] h = refl
take-length zero (x ∷ xs) h = absurd (omega arith)
take-length (suc n) [] h = refl
take-length (suc n) (x ∷ xs) h = ap (◌∷◌ x) (take-length n xs (omega arith))

module _ (sorter : SortSlice) (job : Job) (nodes : List NodeInfo) (m : ℕ) (mode : MemoryMode)
    (now : ℤ) where
  abbrev need : ℤ
  need = required_memory mode job.memory_mb (pos (suc m))

  abbrev found : List GangCandidate
  found = offers sorter job.shared need m nodes

  abbrev answer : GangCandidate → GangSchedulingResult
  answer best = record {
    job_id = job.id;
    placements = map (placement need best.node_name) (take (suc m) best.gpus);
    timestamp = now;
  }

  -- The best of the sorted offers, which are offers of the nodes.
  best-Cheapest :
      (b : GangCandidate) (cs : List GangCandidate)
      → Permᴰ found (b ∷ cs)
      → Cheapest job.shared need m nodes (answer (best_gang_from b cs)).placements
  best-Cheapest b cs p = record {
    node = at.0;
    on_node = at.1;
    chosen = best.gpus;
    rest = group.rest;
    split = group.split;
    size = group.size;
    fits = All-append_left (IsEligible job.shared need) best.gpus group.rest (
        All-Permᴰ (IsEligible job.shared need) group.split
          (eligible-IsEligible job.shared need at.0.gpus));
    made =
        ap (λ (s : String). map (placement need s) (take (suc m) best.gpus)) group.named
        ∙ ap (map (placement need at.0.name)) (take-length (suc m) best.gpus group.size);
    least =
        All-map
          (λ n.
            Few sorter job.shared need m n
            ⊎ ((c : GangCandidate) × IsGroup job.shared need m n c
                × (best.total_waste ≤ℤ c.total_waste)))
          _ nodes (λ n. cheaper n)
          (offers_complete sorter job.shared need m (λ c. best.total_waste ≤ℤ c.total_waste) nodes
            (All-Permᴰ (λ c. best.total_waste ≤ℤ c.total_waste) (Permᴰ.symm p)
              (best_gang_from-least b cs)));
  }
    where
      best : GangCandidate
      best = best_gang_from b cs

      at : From sorter job.shared need m nodes best
      at = best_gang_from-All (From sorter job.shared need m nodes) b cs (
          All-Permᴰ (From sorter job.shared need m nodes) p
            (offers-From sorter job.shared need m nodes nodes (λ n mn. mn)))

      group : IsGroup job.shared need m at.0 best
      group = at.2

      cheaper :
          (n : NodeInfo)
          → (Few sorter job.shared need m n
              ⊎ ((c : GangCandidate) × IsGroup job.shared need m n c
                  × (best.total_waste ≤ℤ c.total_waste)))
          → (sel others : List Gpu) → Permᴰ (eligible job.shared need n.gpus) (sel ++ others)
          → length sel ≡ suc m
          → total job.shared need best.gpus ≤ℤ total job.shared need sel
      cheaper n (inl few) sel others q size =
          absurd (omega (arith, length-Permᴰ q, length-append {0} sel others))
      cheaper n (inr (c, g, h)) sel others q size =
          subst (λ z. z ≤ℤ total job.shared need sel) group.exact
            (omega (arith, g.least sel others q size))

  abbrev pub Answers : Type 0
  Answers =
      (r : Result AllocError GangSchedulingResult) × (schedule_gang sorter (some job) nodes
          (pos (suc m)) mode now
        ≡ some r)
      × CheapestOutcome job nodes m need r

  positive : leb_ℤ (pos (suc m)) (pos 0) ≡ false
  positive = ground arith

  sorted_offers :
      (c : GangCandidate) (cs s : List GangCandidate)
      → found ≡ c ∷ cs
      → sorter.sort_slice GangCandidate less_total (c ∷ cs) ≡ s
      → Permᴰ found s
  sorted_offers c cs s e f = subst (Permᴰ found) f (
      subst (λ l. Permᴰ l (sorter.sort_slice GangCandidate less_total (c ∷ cs))) (sym e)
        (sorter.sort_slice-Permᴰ GangCandidate less_total (c ∷ cs)))

  schedule_gang_some :
      (c : GangCandidate) (cs s : List GangCandidate)
      → found ≡ c ∷ cs
      → sorter.sort_slice GangCandidate less_total (c ∷ cs) ≡ s
      → Answers
  unfolding schedule_gang select_gang_best_fit
  schedule_gang_some c cs [] e f =
      absurd (omega (arith, length-Permᴰ (sorted_offers c cs [] e f), ap length e))
  schedule_gang_some c cs (b ∷ bs) e f = (
    ok (answer (best_gang_from b bs)),
    rw (positive, e, f, schedule_gang, select_gang_best_fit),
    best-Cheapest b bs (sorted_offers c cs (b ∷ bs) e f),
  )

  schedule_gang_cases : (cs : List GangCandidate) → found ≡ cs → Answers
  unfolding schedule_gang
  schedule_gang_cases [] e = (
    err (no_single_node (pos (suc m)) need),
    rw (positive, e, schedule_gang),
    (
      refl,
      All-map
          (λ n.
            Few sorter job.shared need m n
            ⊎ ((c : GangCandidate) × IsGroup job.shared need m n c × ⊥))
          _ nodes (λ n c. few_only n c)
          (offers_complete sorter job.shared need m (λ _. ⊥) nodes (rw e tt)),
    ),
  )
    where
      few_only :
          (n : NodeInfo)
          → (Few sorter job.shared need m n
              ⊎ ((c : GangCandidate) × IsGroup job.shared need m n c × ⊥))
          → length (eligible job.shared need n.gpus) < suc m
      few_only n (inl few) = few
      few_only n (inr (c, g, h)) = absurd h
  schedule_gang_cases (c ∷ cs) e =
      schedule_gang_some c cs (sorter.sort_slice GangCandidate less_total (c ∷ cs)) e refl

-- Best-fit gang scheduling of `suc m` GPUs never panics. It places the job on one node, on as many
-- of its eligible GPUs, and no selection of that size among the eligible GPUs of any node wastes
-- less memory; or it fails, and every node has fewer eligible GPUs. The memory that is needed of
-- each GPU is what the memory mode makes of the job's.
pub schedule_gang_best_fit :
    (sorter : SortSlice) (job : Job) (nodes : List NodeInfo) (m : ℕ) (mode : MemoryMode) (now : ℤ)
    → (r : Result AllocError GangSchedulingResult) × (schedule_gang sorter
          (some job)
          nodes
          (pos (suc m))
          mode
          now
        ≡ some r)
      × CheapestOutcome job nodes m (required_memory mode job.memory_mb (pos (suc m))) r
schedule_gang_best_fit sorter job nodes m mode now =
    schedule_gang_cases sorter job nodes m mode now
      (offers sorter job.shared (required_memory mode job.memory_mb (pos (suc m))) m nodes) refl
