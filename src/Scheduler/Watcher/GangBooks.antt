-- ===== src/Scheduler/Watcher/GangBooks.antt =====
-- internal/scheduler/watcher.go: the registry's books over what the watcher does to a gang of pods.
use gpu_scheduler.Common.{
  ◌≡◌, refl, sym, ℤ, pos, ◌≤ℤ◌, ◌<ℤ◌, ltb_ℤ-true, ◌≢◌, Outcome, length-map, ◌/ℤ◌, ltb_ℤ, eqb_ℤ,
  if◌then◌else◌, arith, Option, none, some, List, [], ◌∷◌, map, length, String, All, Bool, true,
  false, Bool-cases, Result, ok, err, inl, inr,
}
use gpu_scheduler.Types.{
  Job, NodeInfo, GpuPlacement, GangSchedulingResult, SchedulingResult, memory_per_gpu,
}
use gpu_scheduler.Registry.{Registry, get_nodes}
use gpu_scheduler.Registry.Accounting.{IsBalanced, mark_gpu-IsBalanced}
use gpu_scheduler.Registry.Release.{release_pod-IsBalanced}
use gpu_scheduler.Allocator.Errors.{AllocError}
use gpu_scheduler.Allocator.Strategy.{SchedulingStrategy}
use gpu_scheduler.Allocator.GangMultiPod.{
  PodPlacement, GangError, length_mismatch, placed, prepend, place_pod, place_all,
  schedule_multi_pod_gang, subtract_from_shadow, single_choice, gang_choice, gang_count,
}
use gpu_scheduler.Scheduler.Pod.{Pod}
use gpu_scheduler.Scheduler.Gang.{GangState}
use gpu_scheduler.Scheduler.Watcher.{
  Env, Watcher, job_of, mark_gpus, settle_bound, settle_placement, settle_placements, schedule_gang,
}
use gpu_scheduler.Scheduler.Watcher.Books.{
  HasRoomFor, GangAnswer, IsSound, StaysBalanced, div_nonneg,
}

-- What the placement of a gang relies on for one job.
abbrev pub IsServed : SchedulingStrategy → Job → Type 0
IsServed s job =
    (pos 0 ≤ℤ job.memory_mb)
    × ((nodes : List NodeInfo) (now : ℤ)
        → (r : Result AllocError SchedulingResult) × (s.schedule job nodes now ≡ some r))
    × ((nodes : List NodeInfo) (count now : ℤ)
        → pos 1 <ℤ count
        → GangAnswer (s.schedule_gang job nodes count memory_per_gpu now))

single_choice_total :
    (x : Option (Result AllocError SchedulingResult)) (r : Result AllocError SchedulingResult)
    → x ≡ some r
    → (c : Result AllocError (String × List String)) × (single_choice x ≡ some c)
unfolding single_choice
single_choice_total x (ok r) e = (ok (r.node_name, r.gpu_ids), rw e refl)
single_choice_total x (err y) e = (err y, rw e refl)

gang_choice_ok :
    (r : GangSchedulingResult) (ps : List GpuPlacement)
    → r.placements ≡ ps
    → ps ≢ []
    → (c : Result AllocError (String × List String)) × (gang_choice (some (ok r)) ≡ some c)
unfolding gang_choice
gang_choice_ok r [] e given = absurd (given refl)
gang_choice_ok r (p ∷ ps) e given =
    (ok (p.node_name, map (λ q. q.gpu_id) (p ∷ ps)), rw (e, gang_choice) refl)

gang_choice_total :
    (r : Result AllocError GangSchedulingResult)
    → Outcome (λ y. HasRoomFor y.placements × (y.placements ≢ [])) (λ _. Unit {0}) r
    → (c : Result AllocError (String × List String)) × (gang_choice (some r) ≡ some c)
unfolding gang_choice
gang_choice_total (ok r) h = gang_choice_ok r r.placements refl h.1
gang_choice_total (err y) h = (err y, refl)

place_pod_total :
    (s : SchedulingStrategy) (job : Job) (nodes : List NodeInfo) (now : ℤ)
    → IsServed s job
    → (c : Result AllocError (String × List String)) × (place_pod s job nodes now ≡ some c)
unfolding place_pod
place_pod_total s job nodes now (memory, single, gangs) =
    elim (Bool-cases (ltb_ℤ (pos 1) (gang_count job))) [
      | inl e ↦
          let (r, f, h) =
            gangs nodes (gang_count job) now (ltb_ℤ-true (pos 1) (gang_count job) e) in
          let (c, k) = gang_choice_total r h in (c, rw e (rw f k))
      | inr e ↦
          let (r, f) = single nodes now in
          let (c, k) = single_choice_total (s.schedule job nodes now) r f in (c, rw e k)
    ]

module _ {Q : Type 0} where
  -- The memory of the placements of a gang of pods is 0 or more.
  abbrev pub PlacedMemory : List (PodPlacement Q) → Type 0
  PlacedMemory = All (λ p. pos 0 ≤ℤ p.memory_mb)

  abbrev IfPlaced : Option (Result GangError (List (PodPlacement Q))) → Type 0
  IfPlaced none = ⊥
  IfPlaced (some (err e)) = Unit
  IfPlaced (some (ok ps)) = PlacedMemory ps

  prepend-IfPlaced :
      (p : PodPlacement Q) (x : Option (Result GangError (List (PodPlacement Q))))
      → pos 0 ≤ℤ p.memory_mb
      → IfPlaced x
      → IfPlaced (prepend p x)
  unfolding prepend
  prepend-IfPlaced p none h k = k
  prepend-IfPlaced p (some (err e)) h k = tt
  prepend-IfPlaced p (some (ok ps)) h k = (h, k)

  place_all-IfPlaced :
      (s : SchedulingStrategy) (pods : List (Pod Q)) (jobs : List Job) (nodes : List NodeInfo)
      (now : ℤ)
      → length pods ≡ length jobs
      → All (IsServed s) jobs
      → IfPlaced (place_all s pods jobs nodes now)
  unfolding place_all
  place_all-IfPlaced s [] [] nodes now l h = tt
  place_all-IfPlaced s (pod ∷ pods) [] nodes now l h = tt
  place_all-IfPlaced s [] (job ∷ jobs) nodes now l h = absurd (omega arith)
  place_all-IfPlaced s (pod ∷ pods) (job ∷ jobs) nodes now l h =
      let (x, e) = place_pod_total s job nodes now h.0 in
      step (λ left. place_all-IfPlaced s pods jobs left now (omega arith) h.1) x e
    where
      step :
          ((left : List NodeInfo) → IfPlaced (place_all s pods jobs left now))
          → (x : Result AllocError (String × List String)) → place_pod s job nodes now ≡ some x
          → IfPlaced (place_all s (pod ∷ pods) (job ∷ jobs) nodes now)
      step rest (err y) e = rw (e, place_all) tt
      step rest (ok (name, ids)) e =
          rw (e, place_all)
            (prepend-IfPlaced (placed pod job (name, ids))
              (place_all s pods jobs (subtract_from_shadow nodes name ids job.memory_mb) now) h.0.0
              (rest (subtract_from_shadow nodes name ids job.memory_mb)))

module _ {Q W : Type 0} (env : Env Q W) (sound : IsSound env) where
  mark_gpus-IsBalanced :
      (p : PodPlacement Q) (ids : List String) (r : Registry)
      → pos 0 ≤ℤ p.memory_mb
      → IsBalanced r
      → IsBalanced (mark_gpus env p ids r)
  unfolding mark_gpus
  mark_gpus-IsBalanced p [] r h b = b
  mark_gpus-IsBalanced p (id ∷ ids) r h b = mark_gpus-IsBalanced p ids _ h (
      mark_gpu-IsBalanced r p.node_name id (p.memory_mb /ℤ pos (length p.gpu_ids)) p.pod.namespace
        p.pod.name (div_nonneg p.memory_mb (length p.gpu_ids) h) b)

  bound-IsBalanced :
      (w : Watcher W) (pod : Pod Q) (x : W × Bool)
      → IsBalanced w.registry
      → IsBalanced (settle_bound env w pod x).registry
  unfolding settle_bound
  bound-IsBalanced w pod (cluster, true) b = b
  bound-IsBalanced w pod (cluster, false) b =
      release_pod-IsBalanced w.registry pod.namespace pod.name b

  settle-IsBalanced :
      (gang_id : String) (ps : List (PodPlacement Q)) (w : Watcher W)
      → PlacedMemory ps
      → IsBalanced w.registry
      → IsBalanced (settle_placements env gang_id w ps).registry
  unfolding settle_placements settle_placement
  settle-IsBalanced gang_id [] w h b = b
  settle-IsBalanced gang_id (p ∷ ps) w h b =
      settle-IsBalanced gang_id ps _ h.1
        (bound-IsBalanced _ p.pod _ (mark_gpus-IsBalanced p p.gpu_ids w.registry h.0 b))

  jobs-IsServed :
      (pods : List (Pod Q)) (now : ℤ)
      → All (IsServed env.strategy) (map (λ pod. job_of env pod now) pods)
  jobs-IsServed [] now = tt
  jobs-IsServed (pod ∷ pods) now = (
    (
      sound.pods pod,
      λ nodes at. sound.single pod nodes now at,
      λ nodes count at h. sound.gangs pod nodes count memory_per_gpu now at h,
    ),
    jobs-IsServed pods now,
  )

  settle_gang :
      (w : Watcher W) (gang : GangState Q) (now : ℤ)
      (x : Option (Result GangError (List (PodPlacement Q))))
      → schedule_multi_pod_gang env.strategy gang.pods
          (get_nodes w.registry)
          (map (λ pod. job_of env pod now) gang.pods)
          now
        ≡ x
      → IfPlaced x
      → IsBalanced w.registry
      → StaysBalanced (schedule_gang env w gang now)
  unfolding schedule_gang
  settle_gang w gang now none e h b = absurd h
  settle_gang w gang now (some (err y)) e h b = rw (e, schedule_gang) b
  settle_gang w gang now (some (ok ps)) e h b =
      rw (e, schedule_gang) (settle-IsBalanced gang.gang_id ps w h b)

  pub schedule_gang-StaysBalanced :
      (w : Watcher W) (gang : GangState Q) (now : ℤ)
      → IsBalanced w.registry
      → StaysBalanced (schedule_gang env w gang now)
  unfolding schedule_multi_pod_gang
  schedule_gang-StaysBalanced w gang now b =
      settle_gang w gang now _ refl
        (placed_or_none (eqb_ℤ (pos (length gang.pods)) (pos (length jobs)))) b
    where
      jobs : List Job
      jobs = map (λ pod. job_of env pod now) gang.pods

      placed_or_none :
          (same : Bool)
          → IfPlaced (
              if same
              then place_all env.strategy gang.pods jobs (get_nodes w.registry) now
              else some (err length_mismatch))
      placed_or_none true =
          place_all-IfPlaced env.strategy gang.pods jobs (get_nodes w.registry) now
            (sym (length-map gang.pods (λ pod. job_of env pod now))) (jobs-IsServed gang.pods now)
      placed_or_none false = tt
