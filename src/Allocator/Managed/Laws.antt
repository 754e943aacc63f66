-- ===== src/Allocator/Managed/Laws.antt =====
-- internal/allocator/allocator.go: Allocate against Release, over the packer and the manager.
use gpu_scheduler.Common.{
  ◌≡◌, refl, sym, ap, subst, ◌⊎◌, inl, inr, true, false, none, some, List, [], ◌∷◌, map, length,
  eq_str, eq_iff, ℤ, pos, eqb_ℤ, ltb_ℤ, Result, ok, err, Memᴰ, All, All-Memᴰ, insertion, Outcome,
  arith,
}
use gpu_scheduler.Common.Dict.{Dict, lookup}
use gpu_scheduler.Types.{Job, Gpu, NodeInfo, SchedulingResult, available_memory_mb}
use gpu_scheduler.Manager as Manager
use gpu_scheduler.Manager.{Manager, values, find_gpu, find_on, insufficient_memory}
use gpu_scheduler.Manager.RoundTrip.{
  Absent, Once, OnceIn, find-Absent, taken, after_allocate, taken_back,
}
use gpu_scheduler.Allocator.Errors.{AllocError}
use gpu_scheduler.Allocator.Eligible.{IsEligible}
use gpu_scheduler.Allocator.BinPack as BinPack
use gpu_scheduler.Allocator.Strategy.{FitsOn, Full, bin_pack}
use gpu_scheduler.Allocator.Strategy.Laws.{bin_pack-IsPlacing}
use gpu_scheduler.Allocator.Managed.{
  scheduling_failed, settle, take, take_for, after_schedule, allocate, release,
}

module _ (g : Gpu) where
  not_Absent : (gs : List Gpu) → Absent g.id gs → Memᴰ g gs → ⊥
  not_Absent gs a m =
      cc ((eq_iff g.id g.id).1 refl, All-Memᴰ (λ x. eq_str x.id g.id ≡ false) gs a m)

  find-Memᴰ : (gs : List Gpu) → Once g.id gs → Memᴰ g gs → find_gpu g.id gs ≡ some g
  unfolding find_gpu
  find-Memᴰ [] o m = absurd o
  find-Memᴰ (x ∷ gs) o (Memᴰ.head e) =
      let own : eq_str x.id g.id ≡ true = (eq_iff x.id g.id).1 (ap (λ y. y.id) (sym e)) in
      rw own (ap some (sym e))
  find-Memᴰ (x ∷ gs) (inl (e, a)) (Memᴰ.tail m) = absurd (not_Absent gs a m)
  find-Memᴰ (x ∷ gs) (inr (e, o)) (Memᴰ.tail m) = rw e (find-Memᴰ gs o m)

  Once-Memᴰ : (gs : List Gpu) → Absent g.id gs → Once g.id gs → ⊥
  Once-Memᴰ [] a o = o
  Once-Memᴰ (x ∷ gs) a (inl (e, b)) = cc (e, a.0)
  Once-Memᴰ (x ∷ gs) a (inr (e, o)) = Once-Memᴰ gs a.1 o

  no_node :
      (n : NodeInfo) (nodes : Dict NodeInfo)
      → All (λ x. Absent g.id x.1.gpus) nodes
      → Memᴰ n (values nodes)
      → Memᴰ g n.gpus
      → ⊥
  no_node n [] a m k = elim m [ ]
  no_node n ((name, x) ∷ nodes) a (Memᴰ.head e) k =
      not_Absent n.gpus (subst (λ y. Absent g.id y.gpus) (sym e) a.0) k
  no_node n ((name, x) ∷ nodes) a (Memᴰ.tail m) k = no_node n nodes a.1 m k

  -- The GPU that the manager finds is the one that the packer chose.
  found :
      (n : NodeInfo) (nodes : Dict NodeInfo)
      → OnceIn g.id nodes
      → Memᴰ n (values nodes)
      → Memᴰ g n.gpus
      → find_on g.id nodes ≡ some (n, g)
  unfolding find_on
  found n [] o m k = absurd o
  found n ((name, x) ∷ nodes) (inl (o, a)) (Memᴰ.head e) k =
      subst (λ y. find_on g.id ((name, y) ∷ nodes) ≡ some (n, g)) e
        (rw (find-Memᴰ n.gpus (subst (λ y. Once g.id y.gpus) (sym e) o) k, find_on) refl)
  found n ((name, x) ∷ nodes) (inl (o, a)) (Memᴰ.tail m) k = absurd (no_node n nodes a m k)
  found n ((name, x) ∷ nodes) (inr (a, o)) (Memᴰ.head e) k =
      absurd (not_Absent n.gpus (subst (λ y. Absent g.id y.gpus) (sym e) a) k)
  found n ((name, x) ∷ nodes) (inr (a, o)) (Memᴰ.tail m) k =
      rw (find-Absent g.id x.gpus a, find_on) (found n nodes o m k)

-- Every GPU of the nodes has an id of its own.
abbrev pub OwnIds : Dict NodeInfo → Type 0
OwnIds nodes = (n : NodeInfo) (g : Gpu) → Memᴰ n (values nodes) → Memᴰ g n.gpus → OnceIn g.id nodes

-- Enough memory is free, so the manager takes the GPU.
chosen_taken :
    (m : Manager) (job : Job) (n : NodeInfo) (g : Gpu)
    → lookup job.id m.allocations ≡ none
    → OwnIds m.nodes
    → Memᴰ n (values m.nodes)
    → Memᴰ g n.gpus
    → IsEligible job.shared job.memory_mb g
    → Manager.allocate m job.id g.id job.memory_mb ≡ (taken m job.id g.id job.memory_mb g n, none)
chosen_taken m job n g free own known owned fit =
    let enough : ltb_ℤ (available_memory_mb g) job.memory_mb ≡ false = ground (arith, fit.fits) in
    let at = found g n m.nodes (own n g known owned) known owned in
    let made = after_allocate m job.id g.id job.memory_mb g n at free in rw enough at made

-- What Allocate gives on a choice of one GPU: it takes the GPU, and Release gives it back.
module _ (m : Manager) (job : Job) (free : lookup job.id m.allocations ≡ none)
    (some_memory : eqb_ℤ job.memory_mb (pos 0) ≡ false) (own : OwnIds m.nodes) where
  abbrev pub TakenBack : SchedulingResult → Type 0
  TakenBack r =
      (m' : Manager) × (take_for m (some job) r ≡ some (m', ok r)) × (release m' job ≡ (m, none))

  take-TakenBack :
      (r : SchedulingResult) → FitsOn job (values m.nodes) 1 r.node_name r.gpu_ids → TakenBack r
  unfolding take_for take settle release
  take-TakenBack r f = go f.gpus f.gpus_named f.owned f.fit f.size
    where
      go :
          (gs : List Gpu)
          → r.gpu_ids ≡ map (λ g. g.id) gs
          → All (λ g. Memᴰ g f.node.gpus) gs
          → All (IsEligible job.shared job.memory_mb) gs
          → length gs ≡ 1
          → TakenBack r
      go [] ids owned fit size = absurd (omega (arith, size))
      go (g ∷ gs) ids owned fit size = (
        taken m job.id g.id job.memory_mb g f.node,
        subst (λ i. take m job r i ≡ some (taken m job.id g.id job.memory_mb g f.node, ok r))
            (sym ids) (ap (settle r) (chosen_taken m job f.node g free own f.known owned.0 fit.0)),
        taken_back m job.id g.id job.memory_mb g f.node free some_memory
            (own f.node g f.known owned.0) refl,
      )

-- Over a manager whose GPUs have distinct ids, for a job that holds nothing and asks for memory,
-- not 0: Allocate never panics and the manager never refuses what the packer chose. Where the
-- packer fails on the manager's nodes, Allocate fails with that error and nothing is changed; where
-- the packer has a result, Allocate gives it, and Release then puts the manager back as it was.
pub allocate_then_release :
    (m : Manager) (job : Job) (now : ℤ)
    → lookup job.id m.allocations ≡ none
    → eqb_ℤ job.memory_mb (pos 0) ≡ false
    → OwnIds m.nodes
    → ((e : AllocError) × (BinPack.schedule (some job) (Manager.get_nodes m) now ≡ some (err e))
        × (allocate m (some job) now ≡ some (m, err (scheduling_failed e))))
      ⊎ ((r : SchedulingResult) × (m' : Manager) × (BinPack.schedule
              (some job)
              (Manager.get_nodes m)
              now
            ≡ some (ok r))
          × (allocate m (some job) now ≡ some (m', ok r))
          × (release m' job ≡ (m, none)))
unfolding allocate after_schedule Manager.get_nodes bin_pack
allocate_then_release m job now free some_memory own =
    let (r, e, h) = (bin_pack-IsPlacing insertion).single job (values m.nodes) now in go r e h
  where
    go :
        (r : Result AllocError SchedulingResult)
        → BinPack.schedule (some job) (values m.nodes) now ≡ some r
        → Outcome
            (λ x. FitsOn job (values m.nodes) 1 x.node_name x.gpu_ids)
            (λ _. Full job (values m.nodes) 1)
            r
        → ((e : AllocError) × (BinPack.schedule (some job) (Manager.get_nodes m) now ≡ some (err e))
            × (allocate m (some job) now ≡ some (m, err (scheduling_failed e))))
          ⊎ ((r : SchedulingResult) × (m' : Manager) × (BinPack.schedule
                  (some job)
                  (Manager.get_nodes m)
                  now
                ≡ some (ok r))
              × (allocate m (some job) now ≡ some (m', ok r))
              × (release m' job ≡ (m, none)))
    go (err x) e h = inl (x, e, rw (e, after_schedule) refl)
    go (ok r) e h =
        let (m', taken, back) = take-TakenBack m job free some_memory own r h in
        inr (r, m', e, rw (e, after_schedule) taken, back)
