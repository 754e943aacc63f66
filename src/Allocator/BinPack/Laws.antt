-- ===== src/Allocator/BinPack/Laws.antt =====
-- internal/allocator/binpack.go: Schedule, for one GPU.
use gpu_scheduler.Common.{
  ◌≡◌, refl, ◌⊎◌, inl, inr, Bool, some, List, [], ◌∷◌, Memᴰ, arith, ℤ, ◌≤ℤ◌, ◌<ℤ◌, All, All-append,
  All-append_left, All-append_right, Bool-cases, Result, ok, err, Outcome, if◌then◌else◌,
}
use gpu_scheduler.Types.{Job, Gpu, NodeInfo, SchedulingResult}
use gpu_scheduler.Allocator.Errors.{AllocError, no_gpu}
use gpu_scheduler.Allocator.Eligible.{has_room, IsEligible, IsEligible-of_has_room, not-IsEligible}
use gpu_scheduler.Allocator.Fifo.{scheduled}
use gpu_scheduler.Allocator.BinPack.{
  Candidate, waste, node_candidates, all_candidates, find_candidates, is_better, best_from,
  select_best_fit, schedule,
}

-- `b` is at least as good a choice as `c`: it wastes less, or as much on a GPU as busy or busier.
abbrev Unbeaten : Candidate → Candidate → Type 0
Unbeaten b c =
    (b.waste <ℤ c.waste)
    ⊎ ((b.waste ≡ c.waste) × (c.gpu.utilization_percent ≤ℤ b.gpu.utilization_percent))

Unbeaten-trans : (a b c : Candidate) → Unbeaten a b → Unbeaten b c → Unbeaten a c
Unbeaten-trans a b c h k = ground arith

is_better-Unbeaten :
    (c b : Candidate) → let w = if is_better c b then c else b in Unbeaten w b × Unbeaten w c
is_better-Unbeaten c b = ground arith

best_from-Unbeaten :
    (b : Candidate) (cs : List Candidate) → All (Unbeaten (best_from b cs)) (b ∷ cs)
unfolding best_from
best_from-Unbeaten b [] = (inr (refl, omega arith), tt)
best_from-Unbeaten b (c ∷ cs) =
    let w : Candidate = if is_better c b then c else b in
    let a = best_from-Unbeaten w cs in
    let (over_b, over_c) = is_better-Unbeaten c b in
    (
      Unbeaten-trans (best_from w cs) w b a.0 over_b,
      (Unbeaten-trans (best_from w cs) w c a.0 over_c, a.1),
    )

-- What holds of all candidates holds of the best.
best_from-All :
    (P : Candidate → Type 0) (b : Candidate) (cs : List Candidate)
    → All P (b ∷ cs)
    → P (best_from b cs)
unfolding best_from
best_from-All P b [] h = h.0
best_from-All P b (c ∷ cs) h = elim (Bool-cases (is_better c b)) [
  | inl e ↦ rw e (best_from-All P c cs (h.1.0, h.1.1))
  | inr e ↦ rw e (best_from-All P b cs (h.0, h.1.1))
]

module _ (shared : Bool) (need : ℤ) where
  abbrev offer : NodeInfo → Gpu → Candidate
  offer node g = record { node = node; gpu = g; waste = waste need g }

  -- A candidate comes from an eligible GPU of a node.
  pub record IsOffer (nodes : List NodeInfo) (c : Candidate) : Type 0 where
    pub on_node : Memᴰ c.node nodes
    pub on_gpu : Memᴰ c.gpu c.node.gpus
    pub fits : IsEligible shared need c.gpu
    pub exact : c.waste ≡ waste need c.gpu

  node_candidates-IsOffer :
      (nodes : List NodeInfo) (node : NodeInfo) (gs : List Gpu)
      → Memᴰ node nodes
      → ((g : Gpu) → Memᴰ g gs → Memᴰ g node.gpus)
      → All (IsOffer nodes) (node_candidates shared need node gs)
  unfolding node_candidates
  node_candidates-IsOffer nodes node [] m sub = tt
  node_candidates-IsOffer nodes node (g ∷ gs) m sub =
      let rest = node_candidates-IsOffer nodes node gs m (λ x mx. sub x (Memᴰ.tail mx)) in
      elim (Bool-cases (has_room shared need g)) [
        | inl e ↦ rw e (
          record {
            on_node = m;
            on_gpu = sub g (Memᴰ.head refl);
            fits = IsEligible-of_has_room shared need g e;
            exact = refl;
          },
          rest,
        )
        | inr e ↦ rw e rest
      ]

  all_candidates-IsOffer :
      (nodes ns : List NodeInfo)
      → ((n : NodeInfo) → Memᴰ n ns → Memᴰ n nodes)
      → All (IsOffer nodes) (all_candidates shared need ns)
  unfolding all_candidates
  all_candidates-IsOffer nodes [] sub = tt
  all_candidates-IsOffer nodes (n ∷ ns) sub =
      All-append _ (node_candidates shared need n n.gpus) (all_candidates shared need ns)
        (node_candidates-IsOffer nodes n n.gpus (sub n (Memᴰ.head refl)) (λ g m. m))
        (all_candidates-IsOffer nodes ns (λ x m. sub x (Memᴰ.tail m)))

  -- What holds of all candidates holds of every eligible GPU.
  node_candidates_complete :
      (P : Candidate → Type 0) (node : NodeInfo) (gs : List Gpu)
      → All P (node_candidates shared need node gs)
      → All (λ g. IsEligible shared need g → P (offer node g)) gs
  unfolding node_candidates
  node_candidates_complete P node [] h = tt
  node_candidates_complete P node (g ∷ gs) h = elim (Bool-cases (has_room shared need g)) [
    | inl e ↦
        let h' : P (offer node g) × All P (node_candidates shared need node gs) = rw e at h in
        (λ _. h'.0, node_candidates_complete P node gs h'.1)
    | inr e ↦
        let h' : All P (node_candidates shared need node gs) = rw e at h in
        (
          λ fits. absurd (not-IsEligible shared need g e fits),
          node_candidates_complete P node gs h',
        )
  ]

  abbrev pub Everywhere : (Candidate → Type 0) → List NodeInfo → Type 0
  Everywhere P = All (λ n. All (λ g. IsEligible shared need g → P (offer n g)) n.gpus)

  all_candidates_complete :
      (P : Candidate → Type 0) (nodes : List NodeInfo)
      → All P (all_candidates shared need nodes)
      → Everywhere P nodes
  unfolding all_candidates
  all_candidates_complete P [] h = tt
  all_candidates_complete P (n ∷ ns) h =
      let here = node_candidates shared need n n.gpus in
      let later = all_candidates shared need ns in
      (
        node_candidates_complete P n n.gpus (All-append_left P here later h),
        all_candidates_complete P ns (All-append_right P here later h),
      )

  -- The promise of best fit over some nodes.
  abbrev pub BestFit : List NodeInfo → Candidate → Type 0
  BestFit nodes c = IsOffer nodes c × Everywhere (Unbeaten c) nodes

  abbrev pub Nowhere : List NodeInfo → Type 0
  Nowhere = Everywhere (λ _. ⊥)

-- What a call of the packer may return.
abbrev pub BestFitOutcome : Job → List NodeInfo → ℤ → Result AllocError SchedulingResult → Type 0
BestFitOutcome job nodes now =
    Outcome
      (λ s.
        (c : Candidate) × BestFit job.shared job.memory_mb nodes c
        × (s ≡ scheduled job now c.node c.gpu))
      (λ e. (e ≡ no_gpu job.memory_mb) × Nowhere job.shared job.memory_mb nodes)

-- Total best fit: over at least one node the packer never panics. It answers with a GPU of one of
-- the nodes that is eligible for the job, under that node's name, and every eligible GPU of every
-- node wastes more memory, or as much while being no busier; or it fails with the memory that was
-- asked for, and no GPU of any node is eligible.
pub schedule_best_fit :
    (job : Job) (node : NodeInfo) (nodes : List NodeInfo) (now : ℤ)
    → (r : Result AllocError SchedulingResult) × (schedule (some job) (node ∷ nodes) now ≡ some r)
      × BestFitOutcome job (node ∷ nodes) now r
unfolding schedule find_candidates select_best_fit
schedule_best_fit job node nodes now =
    go (all_candidates job.shared job.memory_mb (node ∷ nodes)) refl
  where
    go :
        (cs : List Candidate)
        → all_candidates job.shared job.memory_mb (node ∷ nodes) ≡ cs
        → (r : Result AllocError SchedulingResult) × (schedule (some job) (node ∷ nodes) now
            ≡ some r)
          × BestFitOutcome job (node ∷ nodes) now r
    go [] e =
        let none_left : All (λ _. ⊥) (all_candidates job.shared job.memory_mb (node ∷ nodes)) =
          rw e tt in
        (
          err (no_gpu job.memory_mb),
          rw (e, schedule, find_candidates),
          (
            refl,
            all_candidates_complete job.shared job.memory_mb (λ _. ⊥) (node ∷ nodes) none_left,
          ),
        )
    go (c ∷ cs) e =
        let best = best_from c cs in
        let offers : All (IsOffer job.shared job.memory_mb (node ∷ nodes)) (c ∷ cs) = rw e at (
          all_candidates-IsOffer job.shared job.memory_mb (node ∷ nodes) (node ∷ nodes)
            (λ n m. m)) in
        let over : All (Unbeaten best) (all_candidates job.shared job.memory_mb (node ∷ nodes)) =
          rw e (best_from-Unbeaten c cs) in
        (
          ok (scheduled job now best.node best.gpu),
          rw (e, schedule, find_candidates),
          (
            best,
            (
              best_from-All _ c cs offers,
              all_candidates_complete job.shared job.memory_mb (Unbeaten best) (node ∷ nodes) over,
            ),
            refl,
          ),
        )
