-- ===== src/Allocator/GangMultiPod/Exclusive.antt =====
-- internal/allocator/gang_multi_pod.go: the GPUs of the pods of one gang against each other.
use gpu_scheduler.Common.{
  ◌≡◌, refl, subst, sym, ◌∙◌, ℤ, pos, ◌≤ℤ◌, ◌<ℤ◌, int_laws, arith, List, [], ◌∷◌, map, String,
  eq_str, eq_iff, Memᴰ, All, All-map, All-Memᴰ, Outcome, Outcome-map, Result, some, Bool-cases,
  false, true, inl, inr, ◌⊎◌,
}
use gpu_scheduler.Types.{Job, Gpu, NodeInfo}
use gpu_scheduler.Scheduler.Pod.{Pod}
use gpu_scheduler.Allocator.Eligible.{IsEligible}
use gpu_scheduler.Allocator.Strategy.{SchedulingStrategy, FitsOn, IsPlacing}
use gpu_scheduler.Allocator.GangMultiPod.{
  PodPlacement, GangError, charge_once, charge_gpu, per_gpu_memory, subtract_from_shadow,
  schedule_multi_pod_gang,
}
use gpu_scheduler.Allocator.GangMultiPod.Laws.{AllPlaced, gpus_asked, schedule_gang-all_or_none}

charge_once_id : (per : ℤ) (id : String) (g : Gpu) → (charge_once per id g).id ≡ g.id
unfolding charge_once
charge_once_id per id g = elim (Bool-cases (eq_str g.id id)) [
  | inl e ↦ rw e refl
  | inr e ↦ rw e refl
]

charge_once_le :
    (per : ℤ) (id : String) (g : Gpu) → g.allocated_pods ≤ℤ (charge_once per id g).allocated_pods
unfolding charge_once
charge_once_le per id g = elim (Bool-cases (eq_str g.id id)) [
  | inl e ↦ rw e (omega int_laws)
  | inr e ↦ rw e (omega arith)
]

charge_once_lt :
    (per : ℤ) (id : String) (g : Gpu)
    → g.id ≡ id
    → g.allocated_pods <ℤ (charge_once per id g).allocated_pods
unfolding charge_once
charge_once_lt per id g e = rw ((eq_iff g.id id).1 e) (omega int_laws)

charge_gpu_id : (per : ℤ) (ids : List String) (g : Gpu) → (charge_gpu per ids g).id ≡ g.id
unfolding charge_gpu
charge_gpu_id per [] g = refl
charge_gpu_id per (id ∷ ids) g =
    charge_gpu_id per ids (charge_once per id g) ∙ charge_once_id per id g

charge_gpu_le :
    (per : ℤ) (ids : List String) (g : Gpu)
    → g.allocated_pods ≤ℤ (charge_gpu per ids g).allocated_pods
unfolding charge_gpu
charge_gpu_le per [] g = omega arith
charge_gpu_le per (id ∷ ids) g =
    omega (arith, charge_once_le per id g, charge_gpu_le per ids (charge_once per id g))

-- A GPU that is among the ids has one pod more at least.
charge_gpu_lt :
    (per : ℤ) (ids : List String) (g : Gpu)
    → Memᴰ g.id ids
    → g.allocated_pods <ℤ (charge_gpu per ids g).allocated_pods
unfolding charge_gpu
charge_gpu_lt per [] g m = elim m [ ]
charge_gpu_lt per (id ∷ ids) g (Memᴰ.head e) =
    omega (arith, charge_once_lt per id g e, charge_gpu_le per ids (charge_once per id g))
charge_gpu_lt per (id ∷ ids) g (Memᴰ.tail m) =
    let m' : Memᴰ (charge_once per id g).id ids =
      subst (λ i. Memᴰ i ids) (sym (charge_once_id per id g)) m in
    omega (arith, charge_once_le per id g, charge_gpu_lt per ids (charge_once per id g) m')

All-charge :
    (P R : Gpu → Type 0) (per : ℤ) (ids : List String) (gs : List Gpu)
    → ((g : Gpu) → P g → R (charge_gpu per ids g))
    → All P gs
    → All R (map (charge_gpu per ids) gs)
All-charge P R per ids [] f h = tt
All-charge P R per ids (g ∷ gs) f h = (f g h.0, All-charge P R per ids gs f h.1)

-- What holds of every GPU of a node of a name.
abbrev pub OnNode : String → (Gpu → Type 0) → NodeInfo → Type 0
OnNode name P n = n.name ≡ name → All P n.gpus

OnNode-subtract :
    (name : String) (P R : Gpu → Type 0) (other : String) (ids : List String) (memory : ℤ)
    (nodes : List NodeInfo)
    → ((g : Gpu) → P g → R (charge_gpu (per_gpu_memory memory ids) ids g))
    → ((other ≡ name → ⊥) → (g : Gpu) → P g → R g)
    → All (OnNode name P) nodes
    → All (OnNode name R) (subtract_from_shadow nodes other ids memory)
unfolding subtract_from_shadow
OnNode-subtract name P R other ids memory [] charged kept h = tt
OnNode-subtract name P R other ids memory (n ∷ nodes) charged kept h =
    let rest = OnNode-subtract name P R other ids memory nodes charged kept h.1 in
    elim (Bool-cases (eq_str n.name other)) [
      | inl e ↦
          rw e ((λ q. All-charge P R (per_gpu_memory memory ids) ids n.gpus charged (h.0 q)), rest)
      | inr e ↦ rw e (
        (λ q. All-map P R n.gpus (kept (λ t. cc (e, (eq_iff n.name other).1 (q ∙ sym t)))) (h.0 q)),
        rest,
      )
    ]

-- The pods on a GPU are 0 or more.
abbrev Counted : Gpu → Type 0
Counted g = pos 0 ≤ℤ g.allocated_pods

-- A GPU that is among some ids has a pod.
abbrev Taken : List String → Gpu → Type 0
Taken ids g = Counted g × (Memᴰ g.id ids → pos 0 <ℤ g.allocated_pods)

Taken-charged :
    (per : ℤ) (ids : List String) (g : Gpu) → Counted g → Taken ids (charge_gpu per ids g)
Taken-charged per ids g c = (
  omega (arith, c, charge_gpu_le per ids g),
  λ m.
      omega
        (arith, c, charge_gpu_lt per ids g (subst (λ i. Memᴰ i ids) (charge_gpu_id per ids g) m)),
)

Taken-kept :
    (per : ℤ) (ids others : List String) (g : Gpu)
    → Taken ids g
    → Taken ids (charge_gpu per others g)
Taken-kept per ids others g (c, t) = (
  omega (arith, c, charge_gpu_le per others g),
  λ m. omega (
    arith,
    t (subst (λ i. Memᴰ i ids) (charge_gpu_id per others g) m),
    charge_gpu_le per others g,
  ),
)

-- On every node, the pods on a GPU are 0 or more.
abbrev pub AllCounted : List NodeInfo → Type 0
AllCounted = All (λ n. All Counted n.gpus)

AllCounted-subtract :
    (name : String) (ids : List String) (memory : ℤ) (nodes : List NodeInfo)
    → AllCounted nodes
    → AllCounted (subtract_from_shadow nodes name ids memory)
unfolding subtract_from_shadow
AllCounted-subtract name ids memory [] h = tt
AllCounted-subtract name ids memory (n ∷ nodes) h =
    let rest = AllCounted-subtract name ids memory nodes h.1 in
    let per = per_gpu_memory memory ids in
    elim (Bool-cases (eq_str n.name name)) [
      | inl e ↦ rw e (
        All-charge Counted Counted per ids n.gpus (λ g c. omega (arith, c, charge_gpu_le per ids g))
            h.0,
        rest,
      )
      | inr e ↦ rw e (h.0, rest)
    ]

-- Eligible GPUs of a node for a job alone are not taken.
free_ids :
    (need : ℤ) (ids : List String) (all gs : List Gpu)
    → All (Taken ids) all
    → All (λ g. Memᴰ g all) gs
    → All (IsEligible false need) gs
    → All (λ i. ¬ Memᴰ i ids) (map (λ g. g.id) gs)
free_ids need ids all [] t m e = tt
free_ids need ids all (g ∷ gs) t m e = (
  λ taken. alone (e.0.exclusive) ((All-Memᴰ (Taken ids) all t m.0).1 taken),
  free_ids need ids all gs t m.1 e.1,
)
  where
    alone : (false ≡ true) ⊎ (g.allocated_pods ≤ℤ pos 0) → ¬ (pos 0 <ℤ g.allocated_pods)
    alone x = ground arith

module _ {Q : Type 0} where
  -- Two placements share no GPU.
  abbrev pub Apart : PodPlacement Q → PodPlacement Q → Type 0
  Apart p q = p.node_name ≡ q.node_name → All (λ i. ¬ Memᴰ i p.gpu_ids) q.gpu_ids

  -- A placement shares no GPU with a later one of a job that does not share.
  abbrev pub ApartLater : PodPlacement Q → List Job → List (PodPlacement Q) → Type 0
  ApartLater p (job ∷ jobs) (q ∷ ps) = (job.shared ≡ false → Apart p q) × ApartLater p jobs ps
  ApartLater p jobs ps = Unit

  abbrev pub Exclusive : List Job → List (PodPlacement Q) → Type 0
  Exclusive (job ∷ jobs) (p ∷ ps) = ApartLater p jobs ps × Exclusive jobs ps
  Exclusive jobs ps = Unit

  Taken-Apart :
      (job : Job) (p q : PodPlacement Q) (nodes : List NodeInfo)
      → FitsOn job nodes (gpus_asked job) q.node_name q.gpu_ids
      → All (OnNode p.node_name (Taken p.gpu_ids)) nodes
      → job.shared ≡ false
      → Apart p q
  Taken-Apart job p q nodes f t alone same =
      let here : All (Taken p.gpu_ids) f.node.gpus =
        All-Memᴰ (OnNode p.node_name (Taken p.gpu_ids)) nodes t f.known
          (sym (same ∙ f.node_named)) in
      let fit : All (IsEligible false job.memory_mb) f.gpus =
        subst (λ b. All (IsEligible b job.memory_mb) f.gpus) alone f.fit in
      subst (All (λ i. ¬ Memᴰ i p.gpu_ids)) (sym f.gpus_named)
        (free_ids job.memory_mb p.gpu_ids f.node.gpus f.gpus here f.owned fit)

  placed-ApartLater :
      (p : PodPlacement Q) (nodes : List NodeInfo) (pods : List (Pod Q)) (jobs : List Job)
      (ps : List (PodPlacement Q))
      → AllPlaced nodes pods jobs ps
      → All (OnNode p.node_name (Taken p.gpu_ids)) nodes
      → ApartLater p jobs ps
  placed-ApartLater p nodes [] [] [] h t = tt
  placed-ApartLater p nodes [] [] (q ∷ ps) h t = absurd h
  placed-ApartLater p nodes [] (job ∷ jobs) ps h t = absurd h
  placed-ApartLater p nodes (pod ∷ pods) [] ps h t = absurd h
  placed-ApartLater p nodes (pod ∷ pods) (job ∷ jobs) [] h t = absurd h
  placed-ApartLater p nodes (pod ∷ pods) (job ∷ jobs) (q ∷ ps) (made, fits, later) t = (
    Taken-Apart job p q nodes fits t,
    placed-ApartLater p (subtract_from_shadow nodes q.node_name q.gpu_ids job.memory_mb) pods jobs
        ps later
        (OnNode-subtract p.node_name (Taken p.gpu_ids) (Taken p.gpu_ids) q.node_name q.gpu_ids
          job.memory_mb nodes
          (Taken-kept (per_gpu_memory job.memory_mb q.gpu_ids) p.gpu_ids q.gpu_ids) (λ _ g u. u) t),
  )

  placed-Exclusive :
      (nodes : List NodeInfo) (pods : List (Pod Q)) (jobs : List Job) (ps : List (PodPlacement Q))
      → AllPlaced nodes pods jobs ps
      → AllCounted nodes
      → Exclusive jobs ps
  placed-Exclusive nodes [] [] [] h c = tt
  placed-Exclusive nodes [] [] (q ∷ ps) h c = absurd h
  placed-Exclusive nodes [] (job ∷ jobs) ps h c = absurd h
  placed-Exclusive nodes (pod ∷ pods) [] ps h c = absurd h
  placed-Exclusive nodes (pod ∷ pods) (job ∷ jobs) [] h c = absurd h
  placed-Exclusive nodes (pod ∷ pods) (job ∷ jobs) (p ∷ ps) (made, fits, later) c =
      let left = subtract_from_shadow nodes p.node_name p.gpu_ids job.memory_mb in
      let taken : All (OnNode p.node_name (Taken p.gpu_ids)) left =
        OnNode-subtract p.node_name Counted (Taken p.gpu_ids) p.node_name p.gpu_ids job.memory_mb
          nodes (Taken-charged (per_gpu_memory job.memory_mb p.gpu_ids) p.gpu_ids)
          (λ apart. absurd (apart refl))
          (All-map (λ n. All Counted n.gpus) (OnNode p.node_name Counted) nodes (λ n h _. h) c) in
      (
        placed-ApartLater p left pods jobs ps later taken,
        placed-Exclusive left pods jobs ps later
            (AllCounted-subtract p.node_name p.gpu_ids job.memory_mb nodes c),
      )

  -- A gang that is scheduled on nodes whose pod counts are 0 or more, by a strategy that places on
  -- eligible GPUs: there is no panic, and where there are placements, none of them has a GPU in
  -- common with a later one whose pod does not share GPUs.
  pub schedule_gang-Exclusive :
      (s : SchedulingStrategy)
      → IsPlacing s
      → (pods : List (Pod Q)) (nodes : List NodeInfo) (jobs : List Job) (now : ℤ) → AllCounted nodes
      → (r : Result GangError (List (PodPlacement Q))) × (schedule_multi_pod_gang s pods nodes jobs
            now
          ≡ some r)
        × Outcome (Exclusive jobs) (λ _. Unit {0}) r
  schedule_gang-Exclusive s lawful pods nodes jobs now c =
      let (r, e, h) = schedule_gang-all_or_none s lawful now pods nodes jobs in
      (r, e, Outcome-map _ _ _ _ r (λ ps p. placed-Exclusive nodes pods jobs ps p c) (λ e _. tt) h)
