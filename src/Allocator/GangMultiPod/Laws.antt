-- ===== src/Allocator/GangMultiPod/Laws.antt =====
-- internal/allocator/gang_multi_pod.go: ScheduleMultiPodGang.
use gpu_scheduler.Common.{
  ◌≡◌, refl, ap, subst, sym, ℕ, suc, pos, ℤ, ltb_ℤ, eqb_ℤ, List, [], ◌∷◌, map, String, All, length,
  Outcome, Outcome-map, negsuc, zero, Option, length-map, ok, err, Result, some, inl, inr, ◌⊎◌, ◌≢◌,
  Bool-cases, arith, true,
}
use gpu_scheduler.Types.{
  Job, Gpu, NodeInfo, GpuPlacement, memory_per_gpu, SchedulingResult, GangSchedulingResult,
}
use gpu_scheduler.Scheduler.Pod.{Pod}
use gpu_scheduler.Allocator.Errors.{AllocError}
use gpu_scheduler.Allocator.Strategy.{SchedulingStrategy, FitsOn, Full, IsPlacing}
use gpu_scheduler.Allocator.GangMultiPod.{
  PodPlacement, GangError, length_mismatch, gang_pod, subtract_from_shadow, gang_choice,
  single_choice, gang_count, place_pod, placed, prepend, place_all, schedule_multi_pod_gang,
}

-- The number of GPUs that a pod of a gang gets: what it asks for, and one at least.
abbrev asked_of : ℤ → ℕ
asked_of (pos zero) = 1
asked_of (pos (suc n)) = suc n
asked_of (negsuc n) = 1

abbrev pub gpus_asked : Job → ℕ
gpus_asked job = asked_of job.gpu_count

-- The answer to a request for a number of GPUs, right or refused for want of GPUs.
abbrev Answers :
    Job → List NodeInfo → ℕ → Option (Result AllocError (String × List String)) → Type 0
Answers job nodes count x =
    (r : Result AllocError (String × List String)) × (x ≡ some r)
    × Outcome (λ c. FitsOn job nodes count c.0 c.1) (λ _. Full job nodes count) r

single-Answers :
    (job : Job) (nodes : List NodeInfo) (x : Option (Result AllocError SchedulingResult))
    (r : Result AllocError SchedulingResult)
    → x ≡ some r
    → Outcome (λ y. FitsOn job nodes 1 y.node_name y.gpu_ids) (λ _. Full job nodes 1) r
    → Answers job nodes 1 (single_choice x)
unfolding single_choice
single-Answers job nodes x (ok y) e h = (ok (y.node_name, y.gpu_ids), rw e refl, h)
single-Answers job nodes x (err y) e h = (err y, rw e refl, h)

gang_ok-Answers :
    (job : Job) (nodes : List NodeInfo) (m : ℕ) (y : GangSchedulingResult) (ps : List GpuPlacement)
    (name : String)
    → y.placements ≡ ps
    → All (λ p. p.node_name ≡ name) ps
    → FitsOn job nodes (suc m) name (map (λ p. p.gpu_id) ps)
    → Answers job nodes (suc m) (gang_choice (some (ok y)))
unfolding gang_choice
gang_ok-Answers job nodes m y [] name e h f =
    absurd (omega (arith, f.size, ap length f.gpus_named, length-map f.gpus (λ (g : Gpu). g.id)))
gang_ok-Answers job nodes m y (p ∷ ps) name e h f = (
  ok (p.node_name, map (λ q. q.gpu_id) (p ∷ ps)),
  rw (e, gang_choice) refl,
  subst (λ n. FitsOn job nodes (suc m) n (map (λ q. q.gpu_id) (p ∷ ps))) (sym h.0) f,
)

gang-Answers :
    (job : Job) (nodes : List NodeInfo) (m : ℕ)
    (x : Option (Result AllocError GangSchedulingResult))
    (r : Result AllocError GangSchedulingResult)
    → x ≡ some r
    → Outcome
        (λ y.
          (name : String) × All (λ p. p.node_name ≡ name) y.placements
          × FitsOn job nodes (suc m) name (map (λ p. p.gpu_id) y.placements))
        (λ _. Full job nodes (suc m))
        r
    → Answers job nodes (suc m) (gang_choice x)
unfolding gang_choice
gang-Answers job nodes m x (ok y) e (name, h, f) =
    subst (λ z. Answers job nodes (suc m) (gang_choice z)) (sym e)
      (gang_ok-Answers job nodes m y y.placements name refl h f)
gang-Answers job nodes m x (err y) e h = (err y, rw e refl, h)

module _ (s : SchedulingStrategy) (lawful : IsPlacing s) (job : Job) (nodes : List NodeInfo)
    (now : ℤ) where
  one_gpu : gang_count job ≡ pos 1 → Answers job nodes 1 (place_pod s job nodes now)
  unfolding place_pod
  one_gpu e =
      let (r, f, h) = lawful.single job nodes now in
      rw (e, place_pod) (single-Answers job nodes (s.schedule job nodes now) r f h)

  place_pod-Answers :
      (n : ℤ) → job.gpu_count ≡ n → Answers job nodes (asked_of n) (place_pod s job nodes now)
  unfolding place_pod gang_count
  place_pod-Answers (pos zero) e = one_gpu (ground arith)
  place_pod-Answers (pos (suc zero)) e = one_gpu (ground arith)
  place_pod-Answers (pos (suc (suc m))) e =
      let (r, f, h) = lawful.gang job nodes (suc m) now in
      let count : gang_count job ≡ pos (suc (suc m)) = ground arith in
      let many : ltb_ℤ (pos 1) (pos (suc (suc m))) ≡ true = ground arith in
      rw (count, place_pod)
        (rw many (
          gang-Answers job nodes (suc m)
            (s.schedule_gang job nodes (pos (suc (suc m))) memory_per_gpu now) r f h))
  place_pod-Answers (negsuc m) e = one_gpu (ground arith)

module _ {Q : Type 0} where
  -- The pods, one after another: each has a placement that fits the nodes as the earlier placements
  -- left them.
  abbrev pub AllPlaced : List NodeInfo → List (Pod Q) → List Job → List (PodPlacement Q) → Type 0
  AllPlaced nodes [] [] [] = Unit
  AllPlaced nodes (pod ∷ pods) (job ∷ jobs) (p ∷ ps) =
      (p ≡ placed pod job (p.node_name, p.gpu_ids))
      × FitsOn job nodes (gpus_asked job) p.node_name p.gpu_ids
      × AllPlaced (subtract_from_shadow nodes p.node_name p.gpu_ids job.memory_mb) pods jobs ps
  AllPlaced nodes pods jobs ps = ⊥

  -- One of the pods finds no room: every node has too few eligible GPUs, once the pods before it
  -- are placed.
  pub data OneBlocked : List NodeInfo → List (Pod Q) → List Job → GangError → Type 0 where
    here :
        {nodes : List NodeInfo} {pod : Pod Q} {pods : List (Pod Q)} {job : Job} {jobs : List Job}
        {e : AllocError}
        → Full job nodes (gpus_asked job)
        → OneBlocked nodes (pod ∷ pods) (job ∷ jobs) (gang_pod pod.name e)
    later :
        {nodes : List NodeInfo} {pod : Pod Q} {pods : List (Pod Q)} {job : Job} {jobs : List Job}
        {e : GangError}
        → (name : String) (ids : List String) → FitsOn job nodes (gpus_asked job) name ids
        → OneBlocked (subtract_from_shadow nodes name ids job.memory_mb) pods jobs e
        → OneBlocked nodes (pod ∷ pods) (job ∷ jobs) e

  abbrev Settled :
      List NodeInfo
      → List (Pod Q)
      → List Job
      → Option (Result GangError (List (PodPlacement Q)))
      → Type 0
  Settled nodes pods jobs x =
      (r : Result GangError (List (PodPlacement Q))) × (x ≡ some r)
      × Outcome (AllPlaced nodes pods jobs) (OneBlocked nodes pods jobs) r

  prepend-Settled :
      (nodes : List NodeInfo) (pod : Pod Q) (pods : List (Pod Q)) (job : Job) (jobs : List Job)
      (name : String) (ids : List String) (x : Option (Result GangError (List (PodPlacement Q))))
      → FitsOn job nodes (gpus_asked job) name ids
      → Settled (subtract_from_shadow nodes name ids job.memory_mb) pods jobs x
      → Settled nodes (pod ∷ pods) (job ∷ jobs) (prepend (placed pod job (name, ids)) x)
  unfolding prepend
  prepend-Settled nodes pod pods job jobs name ids x f (ok ps, e, h) =
      (ok (placed pod job (name, ids) ∷ ps), rw e refl, (refl, f, h))
  prepend-Settled nodes pod pods job jobs name ids x f (err y, e, h) =
      (err y, rw e refl, later name ids f h)

module _ {Q : Type 0} (s : SchedulingStrategy) (lawful : IsPlacing s) (now : ℤ) where
  place_all-Settled :
      (pods : List (Pod Q)) (jobs : List Job) (nodes : List NodeInfo)
      → length pods ≡ length jobs
      → Settled nodes pods jobs (place_all s pods jobs nodes now)
  unfolding place_all
  place_all-Settled [] [] nodes h = (ok [], refl, tt)
  place_all-Settled (pod ∷ pods) [] nodes h = absurd (omega arith)
  place_all-Settled [] (job ∷ jobs) nodes h = absurd (omega arith)
  place_all-Settled (pod ∷ pods) (job ∷ jobs) nodes h =
      let (r, e, answer) = place_pod-Answers s lawful job nodes now job.gpu_count refl in
      step (λ left. place_all-Settled pods jobs left (omega arith)) r e answer
    where
      step :
          ((left : List NodeInfo) → Settled left pods jobs (place_all s pods jobs left now))
          → (r : Result AllocError (String × List String)) → place_pod s job nodes now ≡ some r
          → Outcome
              (λ c. FitsOn job nodes (gpus_asked job) c.0 c.1)
              (λ _. Full job nodes (gpus_asked job))
              r
          → Settled nodes
              (pod ∷ pods)
              (job ∷ jobs)
              (place_all s (pod ∷ pods) (job ∷ jobs) nodes now)
      step rest (err e) a full = (err (gang_pod pod.name e), rw (a, place_all) refl, here full)
      step rest (ok (name, ids)) a fits =
          rw (a, place_all)
            (prepend-Settled nodes pod pods job jobs name ids _ fits
              (rest (subtract_from_shadow nodes name ids job.memory_mb)))

  -- Scheduling a gang by a strategy that places on eligible GPUs never panics. It answers with one
  -- placement for each pod, in their order, each of as many GPUs as the pod asks for, eligible on
  -- the nodes as the earlier placements left them; or with no placement at all: because the
  -- numbers of pods and jobs differ, or because for one pod every node has too few eligible GPUs.
  pub schedule_gang-all_or_none :
      (pods : List (Pod Q)) (nodes : List NodeInfo) (jobs : List Job)
      → (r : Result GangError (List (PodPlacement Q))) × (schedule_multi_pod_gang s pods nodes jobs
            now
          ≡ some r)
        × Outcome
            (AllPlaced nodes pods jobs)
            (λ e.
              ((e ≡ length_mismatch) × (length pods ≢ length jobs)) ⊎ OneBlocked nodes pods jobs e)
            r
  unfolding schedule_multi_pod_gang
  schedule_gang-all_or_none pods nodes jobs =
      elim (Bool-cases (eqb_ℤ (pos (length pods)) (pos (length jobs)))) [
        | inl same ↦
            let (r, e, h) = place_all-Settled pods jobs nodes (ground arith) in
            (r, rw same e, Outcome-map _ _ _ _ r (λ ps p. p) (λ x b. inr b) h)
        | inr differ ↦
            let apart : length pods ≢ length jobs = ground arith in
            (err length_mismatch, rw differ refl, inl (refl, apart))
      ]
