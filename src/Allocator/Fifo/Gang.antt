-- ===== src/Allocator/Fifo/Gang.antt =====
-- internal/allocator/fifo.go: ScheduleGang.
use gpu_scheduler.Common.{
  String, min, All-take, length-map, length-take, length-keep-le, sym, ◌∙◌, ℕ, zero, suc, ◌+◌, ◌≤◌,
  ◌<◌, ◌≡◌, refl, ap, ◌⊎◌, inl, inr, Bool, true, false, some, List, [], ◌∷◌, ◌++◌, arith, ℤ, pos,
  length, take, length-append, All, Bool-cases, ok, Outcome, map, ltb_ℤ, leb_ℤ,
}
use mathlib.Core.List.{append_assoc, append-nil}
use gpu_scheduler.Types.{Job, Gpu, NodeInfo, GpuPlacement, MemoryMode}
use gpu_scheduler.Allocator.Errors.{no_single_node}
use gpu_scheduler.Allocator.Eligible.{has_room, IsEligible, eligible, eligible-IsEligible}
use gpu_scheduler.Allocator.Fifo.{take_fitting, gang_fit, placement, required_memory, schedule_gang}

module _ (shared : Bool) (need : ℤ) (node : String) where
  -- What the loop over a node's GPUs adds: the first eligible ones, as many as are still wanted.
  take_fitting-eq :
      (k m : ℕ) (acc : List GpuPlacement) (gs : List Gpu)
      → k ≡ length acc + suc m
      → take_fitting shared need node (pos k) acc gs
        ≡ acc ++ map (placement need node) (take (suc m) (eligible shared need gs))
  unfolding take_fitting
  take_fitting-eq k m acc [] h = sym (append-nil acc)
  take_fitting-eq k zero acc (g ∷ gs) h = elim (Bool-cases (has_room shared need g)) [
    | inl e ↦
        let full = length-append acc (placement need node g ∷ []) in
        let done : leb_ℤ (pos k) (pos (length (acc ++ placement need node g ∷ []))) ≡ true =
          ground (arith, full) in
        rw (e, done)
    | inr e ↦ rw e (take_fitting-eq k zero acc gs h)
  ]
  take_fitting-eq k (suc m) acc (g ∷ gs) h = elim (Bool-cases (has_room shared need g)) [
    | inl e ↦
        let acc' = acc ++ placement need node g ∷ [] in
        let full = length-append acc (placement need node g ∷ []) in
        let more : leb_ℤ (pos k) (pos (length acc')) ≡ false = ground (arith, full) in
        rw (e, more) (take_fitting-eq k m acc' gs (omega (arith, full)) ∙ append_assoc acc _ _)
    | inr e ↦ rw e (take_fitting-eq k (suc m) acc gs h)
  ]

module _ (shared : Bool) (need : ℤ) (m : ℕ) where
  abbrev supply : NodeInfo → ℕ
  supply node = length (eligible shared need node.gpus)

  -- The first node with enough eligible GPUs, and the placements on the first `suc m` of them.
  pub record GangFit (nodes : List NodeInfo) (placed : List GpuPlacement) : Type 0 where
    pub node : NodeInfo
    pub before : List NodeInfo
    pub after : List NodeInfo
    pub split : nodes ≡ before ++ node ∷ after
    pub short : All (λ n. supply n < suc m) before
    pub enough : suc m ≤ supply node
    pub made :
        placed ≡ map (placement need node.name) (take (suc m) (eligible shared need node.gpus))

  abbrev pub Fit : List NodeInfo → List GpuPlacement → Type 0
  Fit nodes placed =
      GangFit nodes placed ⊎ ((length placed < suc m) × All (λ n. supply n < suc m) nodes)

  Fit-skip :
      (node : NodeInfo) (nodes : List NodeInfo) (placed : List GpuPlacement)
      → supply node < suc m
      → Fit nodes placed
      → Fit (node ∷ nodes) placed
  Fit-skip node nodes placed few (inl f) = inl (record {
    node = f.node;
    before = node ∷ f.before;
    after = f.after;
    split = ap (◌∷◌ node) f.split;
    short = (few, f.short);
    enough = f.enough;
    made = f.made;
  })
  Fit-skip node nodes placed few (inr (l, a)) = inr (l, (few, a))

  got-length :
      (node : NodeInfo)
      → length (take_fitting shared need node.name (pos (suc m)) [] node.gpus)
        ≡ min (suc m) (supply node)
  got-length node =
      let chosen = take (suc m) (eligible shared need node.gpus) in
      omega (
        arith,
        ap length (take_fitting-eq shared need node.name (suc m) m [] node.gpus (omega arith)),
        length-map chosen (placement need node.name),
        length-take {0} (suc m) (eligible shared need node.gpus),
      )

  -- The loop over the nodes meets the first node with enough, or none has enough.
  gang_fit-Fit :
      (acc : List GpuPlacement) (nodes : List NodeInfo)
      → length acc < suc m
      → Fit nodes (gang_fit shared need (pos (suc m)) acc nodes)
  unfolding gang_fit
  gang_fit-Fit acc [] h = inr (h, tt)
  gang_fit-Fit acc (node ∷ nodes) h =
      let got = take_fitting shared need node.name (pos (suc m)) [] node.gpus in
      elim (Bool-cases (ltb_ℤ (pos (length node.gpus)) (pos (suc m)))) [
        | inl few ↦
            let short : supply node < suc m =
              ground (arith, length-keep-le (has_room shared need) node.gpus) in
            rw few (Fit-skip node nodes _ short (gang_fit-Fit acc nodes h))
        | inr many ↦ elim (Bool-cases (leb_ℤ (pos (suc m)) (pos (length got)))) [
          | inl full ↦
              rw (many, full)
                (inl (record {
                  node = node;
                  before = [];
                  after = nodes;
                  split = refl;
                  short = tt;
                  enough = ground (arith, got-length node);
                  made = take_fitting-eq shared need node.name (suc m) m [] node.gpus (omega arith);
                }))
          | inr part ↦
              let short : supply node < suc m = ground (arith, got-length node) in
              let fewer : length got < suc m = ground arith in
              rw (many, part) (Fit-skip node nodes _ short (gang_fit-Fit got nodes fewer))
        ]
      ]

-- FIFO gang scheduling of `suc m` GPUs, over at least one node and in a mode that asks for `need`
-- MB of each: it places the job on the first node with that many eligible GPUs, on the first of
-- those, all of them eligible; or it fails, and then every node has fewer.
pub schedule_gang_first_fit :
    (job : Job) (node : NodeInfo) (nodes : List NodeInfo) (m : ℕ) (mode : MemoryMode) (now need : ℤ)
    → required_memory mode job.memory_mb (pos (suc m)) ≡ ok need
    → Outcome
        (λ r.
          (f : GangFit job.shared need m (node ∷ nodes) r.placements) × (length r.placements
            ≡ suc m)
          × All (IsEligible job.shared need) (take (suc m) (eligible job.shared need f.node.gpus)))
        (λ e.
          (e ≡ no_single_node (pos (suc m)) need)
          × All (λ n. length (eligible job.shared need n.gpus) < suc m) (node ∷ nodes))
        (schedule_gang (some job) (node ∷ nodes) (pos (suc m)) mode now)
unfolding schedule_gang
schedule_gang_first_fit job node nodes m mode now need h =
    let placed = gang_fit job.shared need (pos (suc m)) [] (node ∷ nodes) in
    let chosen = eligible job.shared need in
    let positive : leb_ℤ (pos (suc m)) (pos 0) ≡ false = ground arith in
    elim (gang_fit-Fit job.shared need m [] (node ∷ nodes) (omega arith)) [
      | inl f ↦
          let size : length placed ≡ suc m = omega (
            arith,
            ap length f.made,
            length-map (take (suc m) (chosen f.node.gpus)) (placement need f.node.name),
            length-take {0} (suc m) (chosen f.node.gpus),
            f.enough,
          ) in
          let full : ltb_ℤ (pos (length placed)) (pos (suc m)) ≡ false = ground (arith, size) in
          rw (h, schedule_gang)
            (rw (positive, full)
              (
                f,
                size,
                All-take _ (suc m) (chosen f.node.gpus)
                    (eligible-IsEligible job.shared need f.node.gpus),
              ))
      | inr (few, none_has) ↦
          let short : ltb_ℤ (pos (length placed)) (pos (suc m)) ≡ true = ground arith in
          rw (h, schedule_gang) (rw (positive, short) (refl, none_has))
    ]
