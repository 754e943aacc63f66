-- ===== src/Scheduler/Injector.antt =====
-- internal/scheduler/injector.go: the environment variable that pins the containers of a pod to
-- GPUs. `value` stands for Quantity.Value and `comma_joined` for strings.Join with a comma. The pod
-- is what the injector reads and writes of it, and the deep copy is the value itself.
pub mod Laws
use gpu_scheduler.Common.{
  ◌≡◌, refl, ap, ap₂, ◌∙◌, ◌⊎◌, inl, inr, Bool, true, false, not, ◌||◌, Option, none, some, List,
  [], ◌∷◌, String, eq_str, eq_iff, ℤ, pos, ltb_ℤ, Result, ok, err, All, Bool-cases, arith,
  if◌then◌else◌,
}
use gpu_scheduler.Common.Dict.{lookup}
use gpu_scheduler.Scheduler.Pod.{Container}

pub record EnvVar : Type 0 where
  pub name : String
  pub value : String

pub record PinnedContainer (Q : Type 0) : Type 0 where
  pub resources : Container Q
  pub env : List EnvVar

pub record PinnedPod (Q : Type 0) : Type 0 where
  pub init_containers : List (PinnedContainer Q)
  pub containers : List (PinnedContainer Q)

pub data InjectError : Type 0 where
  nil_pod : InjectError

abbrev pub cuda_visible_devices_env : String
cuda_visible_devices_env = "CUDA_VISIBLE_DEVICES"

-- The first variable of the name is overridden; with none, one is appended. And whether it changed.
unfoldable pub set_env : String → List EnvVar → List EnvVar × Bool
set_env cuda [] = (record { name = cuda_visible_devices_env; value = cuda } ∷ [], true)
set_env cuda (e ∷ es) =
    let (rest, changed) = set_env cuda es in
    if eq_str e.name cuda_visible_devices_env
    then (record e { value = cuda } ∷ es, not (eq_str e.value cuda))
    else (e ∷ rest, changed)

-- The value of the first variable of the name.
unfoldable pub seen_env : List EnvVar → Option String
seen_env [] = none
seen_env (e ∷ es) =
    let rest = seen_env es in if eq_str e.name cuda_visible_devices_env then some e.value else rest

module _ {Q : Type 0} (value : Q → ℤ) where
  abbrev pub asks : Option Q → Bool
  asks none = false
  asks (some q) = ltb_ℤ (pos 0) (value q)

  unfoldable pub container_requests_gpu : PinnedContainer Q → Bool
  container_requests_gpu c =
      asks (lookup "nvidia.com/gpu" c.resources.limits)
      || asks (lookup "nvidia.com/gpu" c.resources.requests)

  unfoldable pub inject_into_containers :
      String → List (PinnedContainer Q) → List (PinnedContainer Q) × Bool
  inject_into_containers cuda [] = ([], false)
  inject_into_containers cuda (c ∷ cs) =
      let (rest, changed) = inject_into_containers cuda cs in
      let (env, here) = set_env cuda c.env in
      if not (container_requests_gpu c)
      then (c ∷ rest, changed)
      else (record c { env = env } ∷ rest, here || changed)

  unfoldable pub inject_all : String → PinnedPod Q → PinnedPod Q × Bool
  inject_all cuda pod =
      let (first, changed) = inject_into_containers cuda pod.init_containers in
      let (others, more) = inject_into_containers cuda pod.containers in
      (record { init_containers = first; containers = others }, changed || more)

  unfoldable pub inject :
      (List String → String)
      → Option (PinnedPod Q)
      → List String
      → Result InjectError (PinnedPod Q × Bool)
  inject comma_joined none ids = err nil_pod
  inject comma_joined (some pod) [] = ok (pod, false)
  inject comma_joined (some pod) (id ∷ ids) = ok (inject_all (comma_joined (id ∷ ids)) pod)
