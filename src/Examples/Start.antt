-- ===== src/Examples/Start.antt =====
-- The properties of the start-up, of the manager and of the allocator over it at concrete inputs.
use gpu_scheduler.Common.{
  ◌≡◌, List, refl, sym, subst, ◌⊎◌, inl, inr, Option, none, some, [], ◌∷◌, String, ℤ, pos, ◌*ℤ◌,
  ◌<ℤ◌, true, leb_ℤ, eqb_ℤ, if◌then◌else◌, false, ok, err, Memᴰ,
}
use gpu_scheduler.Common.Dict.{lookup}
use gpu_scheduler.Types.{Gpu, SchedulingResult}
use gpu_scheduler.Manager.{get_nodes, Manager}
use gpu_scheduler.Manager.RoundTrip.{OnceIn}
use gpu_scheduler.Allocator.Errors.{AllocError}
use gpu_scheduler.Allocator.BinPack.{schedule}
use gpu_scheduler.Allocator.Managed.{scheduling_failed, allocate, release}
use gpu_scheduler.Allocator.Managed.Laws.{OwnIds, allocate_then_release}
use gpu_scheduler.Config.{
  Config, validate, validate_workflows, validate_types, validate_proxy, validate_rebalancing,
  validate_groups,
}
use gpu_scheduler.Scheduler.Injector.{PinnedPod}
use gpu_scheduler.Scheduler.Rebalancer.{second}
use gpu_scheduler.Scheduler.Rebalancer.Pacing.{Spaced, action_times}
use gpu_scheduler.Scheduler.Rebalancer.Start.{new_rebalancer, started-Spaced}
use gpu_scheduler.Examples.{job, node, evaluation}
use gpu_scheduler.Examples.Cluster.{config, manager}

-- A discoverer whose first GPU is sick and whose second one is lost.
abbrev refresh : ℤ → Gpu → ℤ × Gpu × Option String
refresh n g =
    if eqb_ℤ n (pos 0) then (pos 1, record g { is_healthy = false }, none) else (n, g, some "lost")

own_ids : OwnIds manager.nodes
own_ids n g (Memᴰ.tail m) owned = elim m [ ]
own_ids n g (Memᴰ.head e) owned = go (subst (λ x. Memᴰ g x.gpus) e owned)
  where
    go : Memᴰ g node.gpus → OnceIn g.id manager.nodes
    go (Memᴰ.head q) =
        subst (λ x. OnceIn x.id manager.nodes) (sym q) (inl (inl (refl, (refl, (refl, tt))), tt))
    go (Memᴰ.tail (Memᴰ.head q)) =
        subst (λ x. OnceIn x.id manager.nodes) (sym q)
          (inl (inr (refl, inl (refl, (refl, tt))), tt))
    go (Memᴰ.tail (Memᴰ.tail (Memᴰ.head q))) =
        subst (λ x. OnceIn x.id manager.nodes) (sym q)
          (inl (inr (refl, inr (refl, inl (refl, tt))), tt))
    go (Memᴰ.tail (Memᴰ.tail (Memᴰ.tail m))) = elim m [ ]

allocate_then_release_example :
    ((e : AllocError) × (schedule (some job) (get_nodes manager) (pos 7) ≡ some (err e))
      × (allocate manager (some job) (pos 7) ≡ some (manager, err (scheduling_failed e))))
    ⊎ ((r : SchedulingResult) × (m' : Manager) × (schedule (some job) (get_nodes manager) (pos 7)
          ≡ some (ok r))
        × (allocate manager (some job) (pos 7) ≡ some (m', ok r))
        × (release m' job ≡ (manager, none)))
unfolding lookup
allocate_then_release_example = allocate_then_release manager job (pos 7) refl refl own_ids

abbrev small_port : Config
small_port = record config { proxy = record config.proxy { port = pos 9000 } }

started-Spaced_example :
    ((true ≡ false)
      × (action_times leb_ℤ (λ n. n) (new_rebalancer small_port) "llama" (evaluation (pos 10) ∷ [])
          ≡ []))
    ⊎ ((true ≡ true)
        × (pos 0 <ℤ pos 60)
        × Spaced (pos 60 *ℤ second) (pos 0) (
            action_times leb_ℤ
              (λ n. n)
              (new_rebalancer small_port)
              "llama"
              (evaluation (pos 10) ∷ [])))
unfolding validate validate_workflows validate_types validate_proxy validate_rebalancing
    validate_groups
started-Spaced_example =
    started-Spaced leb_ℤ (λ n. n) (λ s. s) small_port "llama" (evaluation (pos 10) ∷ []) refl

-- A pod whose container asks for a GPU and has another one in its environment.
abbrev pinned : PinnedPod ℤ
pinned = record {
  init_containers = [];
  containers =
      record {
        resources = record { requests = []; limits = ("nvidia.com/gpu", pos 1) ∷ [] };
        env = record { name = "CUDA_VISIBLE_DEVICES"; value = "GPU-0000-000-0" } ∷ [];
      }
      ∷ [];
}

abbrev first_text : List String → String
first_text [] = ""
first_text (s ∷ ss) = s
