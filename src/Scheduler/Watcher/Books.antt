-- ===== src/Scheduler/Watcher/Books.antt =====
-- internal/scheduler/watcher.go: the registry's books over what the watcher does to one pod.
use gpu_scheduler.Common.{
  ◌≡◌, refl, sym, subst, ℕ, ℤ, pos, negsuc, ◌≤ℤ◌, ◌<ℤ◌, ltb_ℤ-true, ◌≢◌, Outcome, ◌/ℤ◌, ltb_ℤ,
  arith, Option, none, some, List, [], ◌∷◌, map, String, All, Bool, true, false, Bool-cases, Result,
  ok, err, inl, inr,
}
use gpu_scheduler.Types.{
  Gpu, NodeInfo, GpuPlacement, GangSchedulingResult, SchedulingResult, MemoryMode,
}
use gpu_scheduler.Registry.{Registry, get_nodes, cut}
use gpu_scheduler.Registry.Accounting.{IsBalanced, mark_gpu-IsBalanced, cut-IsBalanced}
use gpu_scheduler.Registry.Release.{release_pod-IsBalanced}
use gpu_scheduler.Registry.History.{mark_mig-IsBalanced}
use gpu_scheduler.Allocator.Errors.{AllocError}
use gpu_scheduler.Scheduler.Pod.{Pod, get_memory_mode_from_pod}
use gpu_scheduler.Scheduler.Pod.Intent.{DisaggPodIntent, get_disagg_pod_intent}
use gpu_scheduler.Scheduler.Disagg.{FullGpuCandidate}
use gpu_scheduler.Allocator.Routing.{allocate_with_routing}
use gpu_scheduler.Allocator.Routing.Laws.{route-devices}
use gpu_scheduler.Scheduler.Preemption.{PreemptionCandidate, PreemptionConfig, PreemptionError}
use gpu_scheduler.Scheduler.Watcher.{
  Env, Watcher, memory_of, gpu_count_of, job_of, rollback_placement_reservation,
  bind_pod_and_record, evict_victims, after_preempt, preempt_for, handle_no_capacity_for_pod,
  annotate_and_bind, mark_placements, finish_gang, mark_device, finish_single, full_result,
  choose_disagg, schedule_single, schedule_pod, cut_gpus, cut_nodes,
}

-- The memory of placements is 0 or more.
abbrev pub HasRoomFor : List GpuPlacement → Type 0
HasRoomFor = All (λ p. pos 0 ≤ℤ p.memory_mb)

-- An answer to a request for a gang of GPUs: no panic, and on success some placements, of memory
-- of at least 0.
abbrev pub GangAnswer : Option (Result AllocError GangSchedulingResult) → Type 0
GangAnswer x =
    (r : Result AllocError GangSchedulingResult) × (x ≡ some r)
    × Outcome (λ y. HasRoomFor y.placements × (y.placements ≢ [])) (λ _. Unit {0}) r

-- What the watcher relies on: no pod asks for less than 0 MB, and the strategy does not panic and
-- gives rightful answers to requests for several GPUs for the job of a pod.
pub record IsSound {Q W : Type 0} (env : Env Q W) : Type 0 where
  pub pods : (pod : Pod Q) → pos 0 ≤ℤ memory_of env pod
  pub single :
      (pod : Pod Q) (nodes : List NodeInfo) (at now : ℤ)
      → (r : Result AllocError SchedulingResult) × (env.strategy.schedule
            (job_of env pod at)
            nodes
            now
          ≡ some r)
  pub gangs :
      (pod : Pod Q) (nodes : List NodeInfo) (count : ℤ) (mode : MemoryMode) (at now : ℤ)
      → pos 1 <ℤ count
      → GangAnswer (env.strategy.schedule_gang (job_of env pod at) nodes count mode now)

-- There was no panic but what the registry records, and the books balance.
module _ {W : Type 0} where
  abbrev pub StaysBalanced : Option (Watcher W) → Type 0
  StaysBalanced none = ⊥
  StaysBalanced (some w) = IsBalanced w.registry

pub div_nonneg : (a : ℤ) (n : ℕ) → pos 0 ≤ℤ a → pos 0 ≤ℤ (a /ℤ pos n)
unfolding ◌/ℤ◌
div_nonneg (pos a) n h = omega arith
div_nonneg (negsuc a) n h = absurd (omega arith)

module _ {Q W : Type 0} (env : Env Q W) where
  bind-IsBalanced :
      (w : Watcher W) (pod : Pod Q) (node : String)
      → IsBalanced w.registry
      → IsBalanced (bind_pod_and_record env w pod node).registry
  unfolding bind_pod_and_record rollback_placement_reservation
  bind-IsBalanced w pod node b = elim (Bool-cases (env.bind w.cluster pod node).1) [
    | inl e ↦ rw e b
    | inr e ↦ rw e (release_pod-IsBalanced w.registry pod.namespace pod.name b)
  ]

  annotate-IsBalanced :
      (w : Watcher W) (pod : Pod Q) (node : String) (ids : List String) (is_mig : Bool)
      → IsBalanced w.registry
      → IsBalanced (annotate_and_bind env w pod node ids is_mig).registry
  unfolding annotate_and_bind
  annotate-IsBalanced w pod node ids is_mig b = bind-IsBalanced _ pod node b

  evict-IsBalanced :
      (vs : List (PreemptionCandidate Q)) (now : ℤ) (w : Watcher W)
      → IsBalanced w.registry
      → IsBalanced (evict_victims env vs now w).registry
  unfolding evict_victims
  evict-IsBalanced [] now w b = b
  evict-IsBalanced (v ∷ vs) now w b =
      evict-IsBalanced vs now _ (release_pod-IsBalanced w.registry v.pod.namespace v.pod.name b)

  after-IsBalanced :
      (w : Watcher W) (now : ℤ) (x : W × Result PreemptionError (List (PreemptionCandidate Q)))
      → IsBalanced w.registry
      → IsBalanced (after_preempt env w now x).registry
  unfolding after_preempt
  after-IsBalanced w now (cluster, err e) b = b
  after-IsBalanced w now (cluster, ok victims) b =
      evict-IsBalanced victims now (record w { cluster = cluster }) b

  preempt-IsBalanced :
      (cfg : Option (PreemptionConfig Q W)) (w : Watcher W) (pod : Pod Q) (memory now : ℤ)
      → IsBalanced w.registry
      → IsBalanced (preempt_for env cfg w pod memory now).registry
  unfolding preempt_for
  preempt-IsBalanced none w pod memory now b = b
  preempt-IsBalanced (some cfg) w pod memory now b = after-IsBalanced w now _ b

  no_capacity-IsBalanced :
      (w : Watcher W) (pod : Pod Q) (memory now : ℤ)
      → IsBalanced w.registry
      → IsBalanced (handle_no_capacity_for_pod env w pod memory now).registry
  unfolding handle_no_capacity_for_pod
  no_capacity-IsBalanced w pod memory now b = preempt-IsBalanced env.preemption w pod memory now b

  mark_placements-IsBalanced :
      (pod : Pod Q) (ps : List GpuPlacement) (r : Registry)
      → HasRoomFor ps
      → IsBalanced r
      → IsBalanced (mark_placements env pod ps r)
  unfolding mark_placements
  mark_placements-IsBalanced pod [] r h b = b
  mark_placements-IsBalanced pod (p ∷ ps) r h b =
      mark_placements-IsBalanced pod ps _ h.1
        (mark_gpu-IsBalanced r p.node_name p.gpu_id p.memory_mb pod.namespace pod.name h.0 b)

  finish_placed-StaysBalanced :
      (w : Watcher W) (pod : Pod Q) (now : ℤ) (r : GangSchedulingResult) (ps : List GpuPlacement)
      → r.placements ≡ ps
      → HasRoomFor ps
      → ps ≢ []
      → IsBalanced w.registry
      → StaysBalanced (finish_gang env {E = AllocError} w pod now (some (ok r)))
  unfolding finish_gang
  finish_placed-StaysBalanced w pod now r [] e h some_given b = absurd (some_given refl)
  finish_placed-StaysBalanced w pod now r (p ∷ ps) e h some_given b =
      rw (e, finish_gang)
        (annotate-IsBalanced _ pod p.node_name (map (λ q. q.gpu_id) (p ∷ ps)) false
          (mark_placements-IsBalanced pod (p ∷ ps) w.registry h b))

  finish_answer-StaysBalanced :
      (w : Watcher W) (pod : Pod Q) (now : ℤ) (r : Result AllocError GangSchedulingResult)
      → Outcome (λ y. HasRoomFor y.placements × (y.placements ≢ [])) (λ _. Unit {0}) r
      → IsBalanced w.registry
      → StaysBalanced (finish_gang env w pod now (some r))
  unfolding finish_gang
  finish_answer-StaysBalanced w pod now (err e) h b =
      no_capacity-IsBalanced w pod (memory_of env pod) now b
  finish_answer-StaysBalanced w pod now (ok r) h b =
      finish_placed-StaysBalanced w pod now r r.placements refl h.0 h.1 b

  finish_gang-StaysBalanced :
      (w : Watcher W) (pod : Pod Q) (now : ℤ) (x : Option (Result AllocError GangSchedulingResult))
      → GangAnswer x
      → IsBalanced w.registry
      → StaysBalanced (finish_gang env w pod now x)
  finish_gang-StaysBalanced w pod now x (r, e, h) b =
      subst (λ z. StaysBalanced (finish_gang env w pod now z)) (sym e)
        (finish_answer-StaysBalanced w pod now r h b)

  mark_device-IsBalanced :
      (r : Registry) (node device : String) (memory : ℤ) (pod : Pod Q) (is_mig : Bool)
      → pos 0 ≤ℤ memory
      → IsBalanced r
      → IsBalanced (mark_device env r node device memory pod is_mig)
  unfolding mark_device
  mark_device-IsBalanced r node device memory pod true h b =
      mark_mig-IsBalanced r node device memory pod.namespace pod.name h b
  mark_device-IsBalanced r node device memory pod false h b =
      mark_gpu-IsBalanced r node device memory pod.namespace pod.name h b

  finish_chosen-StaysBalanced :
      (E : Type 0) (w : Watcher W) (pod : Pod Q) (now : ℤ) (r : SchedulingResult)
      (ids : List String)
      → r.gpu_ids ≡ ids
      → ids ≢ []
      → pos 0 ≤ℤ memory_of env pod
      → IsBalanced w.registry
      → StaysBalanced (finish_single env {E = E} w pod now (ok r))
  unfolding finish_single
  finish_chosen-StaysBalanced E w pod now r [] e some_given h b = absurd (some_given refl)
  finish_chosen-StaysBalanced E w pod now r (id ∷ ids) e some_given h b =
      rw (e, finish_single)
        (annotate-IsBalanced _ pod r.node_name (id ∷ ids) r.is_mig
          (mark_device-IsBalanced w.registry r.node_name id (memory_of env pod) pod r.is_mig h b))

  finish_single-StaysBalanced :
      {E : Type 0} (w : Watcher W) (pod : Pod Q) (now : ℤ) (x : Result E SchedulingResult)
      → Outcome (λ r. r.gpu_ids ≢ []) (λ _. Unit {0}) x
      → pos 0 ≤ℤ memory_of env pod
      → IsBalanced w.registry
      → StaysBalanced (finish_single env w pod now x)
  unfolding finish_single
  finish_single-StaysBalanced {E} w pod now (err e) some_given h b =
      no_capacity-IsBalanced w pod (memory_of env pod) now b
  finish_single-StaysBalanced {E} w pod now (ok r) some_given h b =
      finish_chosen-StaysBalanced E w pod now r r.gpu_ids refl some_given h b

  full_result-devices :
      (pod : Pod Q) (now : ℤ) (c : Option FullGpuCandidate)
      → Outcome (λ r. r.gpu_ids ≢ []) (λ _. Unit {0}) (full_result env pod now c)
  unfolding full_result
  full_result-devices pod now none = tt
  full_result-devices pod now (some c) = λ given. cc given

  routed-devices :
      (w : Watcher W) (pod : Pod Q) (now : ℤ)
      → Outcome
          (λ r. r.gpu_ids ≢ [])
          (λ _. Unit {0})
          (allocate_with_routing env.parse_bool env.atoi env.sorter w.registry
            (record { labels = pod.labels; annotations = pod.annotations })
            (job_of env pod now)
            now)
  unfolding allocate_with_routing
  routed-devices w pod now = route-devices env.sorter w.registry _ (job_of env pod now) _ now

  schedule_single-StaysBalanced :
      (w : Watcher W) (pod : Pod Q) (intent : DisaggPodIntent) (now : ℤ) (disagg : Bool)
      → pos 0 ≤ℤ memory_of env pod
      → IsBalanced w.registry
      → StaysBalanced (schedule_single env w pod intent now disagg)
  unfolding schedule_single choose_disagg
  schedule_single-StaysBalanced w pod intent now true h b =
      finish_single-StaysBalanced w pod now _ (full_result-devices pod now _) h b
  schedule_single-StaysBalanced w pod intent now false h b =
      finish_single-StaysBalanced w pod now _ (routed-devices w pod now) h b

  cut_gpus-IsBalanced : (gs : List Gpu) (r : Registry) → IsBalanced r → IsBalanced (cut_gpus gs r)
  unfolding cut_gpus
  cut_gpus-IsBalanced [] r b = b
  cut_gpus-IsBalanced (g ∷ gs) r b = cut_gpus-IsBalanced gs (cut g.id r) (cut-IsBalanced g.id r b)

  cut_nodes-IsBalanced :
      (ns : List NodeInfo) (r : Registry) → IsBalanced r → IsBalanced (cut_nodes ns r)
  unfolding cut_nodes
  cut_nodes-IsBalanced [] r b = b
  cut_nodes-IsBalanced (n ∷ ns) r b =
      cut_nodes-IsBalanced ns (cut_gpus n.gpus r) (cut_gpus-IsBalanced n.gpus r b)

  pub schedule_pod-StaysBalanced :
      IsSound env
      → (w : Watcher W) (pod : Pod Q) (now : ℤ) → IsBalanced w.registry
      → StaysBalanced (schedule_pod env w pod now)
  unfolding schedule_pod
  schedule_pod-StaysBalanced sound w pod now b =
      let intent = get_disagg_pod_intent env.trim pod in
      let nodes = get_nodes w.registry in
      let logged : Watcher W = record w { registry = cut_nodes nodes w.registry } in
      let kept = cut_nodes-IsBalanced nodes w.registry b in
      elim (Bool-cases intent.is_valid) [
        | inr bad ↦ rw bad b
        | inl valid ↦ elim (Bool-cases (ltb_ℤ (pos 1) (gpu_count_of env pod))) [
          | inl many ↦
              rw (valid, many)
                (finish_gang-StaysBalanced logged pod now _
                  (sound.gangs pod (get_nodes w.registry) (gpu_count_of env pod)
                    (get_memory_mode_from_pod pod) now now
                    (ltb_ℤ-true (pos 1) (gpu_count_of env pod) many))
                  kept)
          | inr one ↦
              rw (valid, one)
                (schedule_single-StaysBalanced logged pod _ now _ (sound.pods pod) kept)
        ]
      ]
