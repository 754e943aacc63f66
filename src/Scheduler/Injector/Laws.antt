-- ===== src/Scheduler/Injector/Laws.antt =====
-- internal/scheduler/injector.go: what the containers of a pod see after the injection.
use gpu_scheduler.Common.{
  ◌≡◌, ◌⊎◌, Bool, true, false, some, List, String, ℤ, pos, ◌<ℤ◌, Result, ok, All,
}
use gpu_scheduler.Common.Dict.{Dict, lookup}
use gpu_scheduler.Scheduler.Injector.{
  EnvVar, PinnedContainer, PinnedPod, InjectError, set_env, seen_env, inject_into_containers,
}

-- The outcome of one pass: the value is seen, a second pass changes nothing, and what is not
-- reported as a change is none.
abbrev Settled : String → List EnvVar → List EnvVar × Bool → Type 0
Settled cuda es x =
    (seen_env x.0 ≡ some cuda) × ((set_env cuda x.0 ≡ (x.0, false)) × ((x.1 ≡ true) ⊎ (x.0 ≡ es)))

module _ {Q : Type 0} (value : Q → ℤ) where
  -- A table of resources has at least one GPU.
  abbrev pub HasGpu : Dict Q → Type 0
  HasGpu d = (q : Q) × (lookup "nvidia.com/gpu" d ≡ some q) × (pos 0 <ℤ value q)

  -- The limits or the requests of a container have a GPU.
  abbrev pub AsksGpu : PinnedContainer Q → Type 0
  AsksGpu c = HasGpu c.resources.limits ⊎ HasGpu c.resources.requests

  -- If a container asks for a GPU, its first variable of the name has the value.
  abbrev pub Sees : String → PinnedContainer Q → Type 0
  Sees cuda c = (¬ AsksGpu c) ⊎ (seen_env c.env ≡ some cuda)

  abbrev ContainersSettled :
      String → List (PinnedContainer Q) → List (PinnedContainer Q) × Bool → Type 0
  ContainersSettled cuda cs x =
      All (Sees cuda) x.0
      × ((inject_into_containers value cuda x.0 ≡ (x.0, false)) × ((x.1 ≡ true) ⊎ (x.0 ≡ cs)))

  -- The first variable of the name has the value in every container that asks for a GPU.
  abbrev pub PodSees : String → PinnedPod Q → Type 0
  PodSees cuda pod = All (Sees cuda) pod.init_containers × All (Sees cuda) pod.containers

  abbrev pod_of : List (PinnedContainer Q) → List (PinnedContainer Q) → PinnedPod Q
  pod_of first others = record { init_containers = first; containers = others }

  abbrev answer : PinnedPod Q × Bool → Result InjectError (PinnedPod Q × Bool)
  answer x = ok x
