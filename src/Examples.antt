-- ===== src/Examples.antt =====
-- The properties at concrete inputs: a small cluster, its pods and its workers.
pub mod Cluster
pub mod Start
use gpu_scheduler.Common.{
  ◌≡◌, refl, ◌⊎◌, true, false, Option, some, List, [], ◌∷◌, String, ℤ, pos, ◌≤ℤ◌, ◌+ℤ◌, ◌/ℤ◌, ◌-ℤ◌,
  ◌*ℤ◌, ◌<ℤ◌, ltb_ℤ, leb_ℤ, ◌<◌, length, take, keep, eq_str, Memᴰ, All, arith, Result, Outcome,
  insertion, ◌↔◌,
}
use gpu_scheduler.Common.Dict.{Dict, lookup, lookup2}
use gpu_scheduler.Types.{
  Job, Gpu, NodeInfo, inference, pending, priority_normal, memory_per_gpu, memory_total,
  GangSchedulingResult, SchedulingResult, decode, prefill, unified,
}
use gpu_scheduler.Agent.{GpuInfo, GpuReport}
use gpu_scheduler.ControlPlane.{WorkerInfo, PressureReport, ready, decode_hot}
use gpu_scheduler.Allocator.Errors.{AllocError, no_gpu, no_single_node}
use gpu_scheduler.Allocator.Eligible.{IsEligible, eligible}
use gpu_scheduler.Allocator.Fifo as Fifo
use gpu_scheduler.Allocator.Fifo.Laws.{FirstFit, Barren, schedule-FirstFit}
use gpu_scheduler.Allocator.Fifo.Gang.{GangFit, schedule_gang_first_fit}
use gpu_scheduler.Allocator.BinPack as BinPack
use gpu_scheduler.Allocator.BinPack.Laws.{BestFitOutcome, schedule_best_fit}
use gpu_scheduler.Allocator.BinPack.Gang.{CheapestOutcome, schedule_gang_best_fit}
use gpu_scheduler.Allocator.Routing.{
  PoolPreference, pool_mig, allocate_classified, JobClassification,
}
use gpu_scheduler.Allocator.Routing.Laws.{
  TriesFirst, TriesSecond, IsFrom, IsExhausted, route_best_fit,
}
use gpu_scheduler.Registry.{
  get_reserved_memory, get_pod_count, Registry, NodeGpus, new_registry, mark_gpu_allocated_for_pod,
}
use gpu_scheduler.Registry.Accounting.{IsBalanced}
use gpu_scheduler.Registry.History.{Op, report, mark_gpu_for, free_pod, run, history-IsBalanced}
use gpu_scheduler.Registry.Find.{candidate, free_mb, find_available_full_gpu}
use gpu_scheduler.Registry.Find.Laws.{IsFree, IsListed, find_full_exact, mark_within_free}
use gpu_scheduler.Scheduler.Rebalancer.{Rebalancer, ModelGroupPolicy, evaluate, second}
use gpu_scheduler.Scheduler.Rebalancer.Evaluation.{Evaluated, last_action, evaluate_justified}
use gpu_scheduler.Scheduler.Rebalancer.Pacing.{Call, Spaced, action_times, actions-Spaced}
use gpu_scheduler.Scheduler.Pod.{
  Pod, get_pod_inference_role, get_pod_model_group, is_shared_gpu_pod,
}
use gpu_scheduler.Scheduler.Pod.Intent.{
  no_reason, IsDisaggRole, MayAsk, get_disagg_pod_intent, get_disagg_pod_intent_lem,
}
use gpu_scheduler.Scheduler.Preemption.{
  PreemptionCandidate, no_candidates, not_enough, select_victims,
}
use gpu_scheduler.Scheduler.Preemption.Laws.{
  AreVictims, AreEligible, MayEvict, total, select_victims_lem,
}
use gpu_scheduler.Scheduler.Queue.{FifoQueue}
use gpu_scheduler.Scheduler.Queue.Order as Order
use gpu_scheduler.Scheduler.Queue.Order.{IsFifo, run-IsFifo, put, get}
use gpu_scheduler.Scheduler.Gang.{collect}
use gpu_scheduler.Scheduler.Gang.Laws.{IsReady, has_no_gang, collect-IsReady}
use gpu_scheduler.Proxy.Router.{
  serves_unified, serves_prefill, serves_decode, is_hot_group, find_request_worker, err_no_capacity,
}
use gpu_scheduler.Proxy.Router.Serving.{
  RightAnswer, NoneOf, CanServe, CanPair, find_request_worker_lem,
}

abbrev pub job : Job
job = record {
  id = "job-1";
  name = "train";
  namespace = "default";
  gpu_count = pos 2;
  memory_mb = pos 8000;
  priority = priority_normal;
  workflow = inference;
  status = pending;
  created_at = pos 5;
  scheduled_at = pos 0;
  shared = false;
}

abbrev pub gpu : String → ℤ → Gpu
gpu id used = record {
  id = id;
  index = pos 0;
  node_name = "node-a";
  total_memory_mb = pos 16000;
  used_memory_mb = used;
  utilization_percent = pos 10;
  is_healthy = true;
  is_shared = false;
  allocated_pods = pos 0;
  is_mps = false;
}

abbrev pub node : NodeInfo
node = record {
  name = "node-a";
  labels = [];
  gpus =
      gpu "GPU-0000-000-full" (pos 16000)
      ∷ gpu "GPU-0000-000-half" (pos 8000)
      ∷ gpu "GPU-0000-000-free" (pos 0)
      ∷ [];
  has_nvlink = false;
  total_gpus = pos 3;
  available_gpus = pos 3;
  conditions = "Ready" ∷ [];
}

schedule-FirstFit_example :
    Outcome
      (λ r.
        (c : NodeInfo × Gpu) × FirstFit false (pos 8000) (node ∷ []) c
        × (r ≡ Fifo.scheduled job (pos 7) c.0 c.1))
      (λ e. (e ≡ no_gpu (pos 8000)) × All (Barren false (pos 8000)) (node ∷ []))
      (Fifo.schedule (some job) (node ∷ []) (pos 7))
schedule-FirstFit_example = schedule-FirstFit job node [] (pos 7)

schedule_gang_first_fit_example :
    Outcome
      (λ r.
        (f : GangFit false (pos 4000) 1 (node ∷ []) r.placements) × (length r.placements ≡ 2)
        × All (IsEligible false (pos 4000)) (take 2 (eligible false (pos 4000) f.node.gpus)))
      (λ e.
        (e ≡ no_single_node (pos 2) (pos 4000))
        × All (λ n. length (eligible false (pos 4000) n.gpus) < 2) (node ∷ []))
      (Fifo.schedule_gang (some job) (node ∷ []) (pos 2) memory_total (pos 7))
unfolding Fifo.required_memory ◌/ℤ◌ ◌-ℤ◌ ◌+ℤ◌
schedule_gang_first_fit_example =
    schedule_gang_first_fit job node [] 1 memory_total (pos 7) (pos 4000) refl

schedule_best_fit_example :
    (r : Result AllocError SchedulingResult) × (BinPack.schedule (some job) (node ∷ []) (pos 7)
      ≡ some r)
    × BestFitOutcome job (node ∷ []) (pos 7) r
schedule_best_fit_example = schedule_best_fit job node [] (pos 7)

schedule_gang_best_fit_example :
    (r : Result AllocError GangSchedulingResult) × (BinPack.schedule_gang insertion
        (some job)
        (node ∷ [])
        (pos 2)
        memory_per_gpu
        (pos 7)
      ≡ some r)
    × CheapestOutcome job
        (node ∷ [])
        1
        (BinPack.required_memory memory_per_gpu (pos 8000) (pos 2))
        r
schedule_gang_best_fit_example =
    schedule_gang_best_fit insertion job (node ∷ []) 1 memory_per_gpu (pos 7)

abbrev pub info : GpuInfo
info = record {
  uuid = "GPU-0000-000-1";
  index = pos 0;
  name = "A100";
  total_memory_mb = pos 40000;
  used_memory_mb = pos 1000;
  free_memory_mb = pos 39000;
  utilization_gpu = pos 3;
  temperature = pos 40;
  is_healthy = true;
  mps_enabled = false;
  mig_enabled = false;
  mig_instances = [];
}

abbrev pub first_report : GpuReport
first_report = record {
  node_name = "node-a";
  has_nvlink = false;
  timestamp = pos 1;
  gpus = info ∷ [];
}

abbrev pub known : NodeGpus
known = record { node_name = "node-a"; has_nvlink = false; gpus = info ∷ []; reported_at = pos 1 }

abbrev pub registry : Registry
registry = record {
  nodes = ("node-a", known) ∷ [];
  last_seen = ("node-a", pos 1) ∷ [];
  reservations = [];
  pod_allocations = [];
  pod_count_per_gpu = [];
  panicked = false;
}

abbrev calls : List Op
calls =
    report first_report (pos 1)
    ∷ mark_gpu_for "node-a" "GPU-0000-000-1" (pos 8000) "default" "train"
    ∷ mark_gpu_for "node-a" "GPU-0000-000-1" (pos 4000) "default" "serve"
    ∷ free_pod "default" "train"
    ∷ []

history-IsBalanced_example : IsBalanced (run new_registry calls)
history-IsBalanced_example = history-IsBalanced calls (tt, (omega arith, (omega arith, (tt, tt))))

info-IsFree : IsFree registry (pos 8000) "node-a" info
unfolding free_mb get_reserved_memory lookup2 lookup ◌-ℤ◌
info-IsFree = record { whole = refl; healthy = refl; room = omega arith }

pub registry-IsBalanced : IsBalanced registry
unfolding get_reserved_memory get_pod_count lookup2 lookup
registry-IsBalanced = record {
  reserved = λ n g. refl;
  counted = λ n g. refl;
  nonneg = tt;
  paired = λ n. refl;
}

mark_within_free_example :
    (pos 0
      ≤ℤ free_mb
          (mark_gpu_allocated_for_pod registry "node-a" "GPU-0000-000-1"
            (pos 8000)
            "default"
            "train")
          "node-a"
          info)
    × (free_mb
          (mark_gpu_allocated_for_pod registry "node-a" "GPU-0000-000-1"
            (pos 8000)
            "default"
            "train")
          "node-a"
          info
        ≡ free_mb registry "node-a" info -ℤ pos 8000)
mark_within_free_example =
    mark_within_free registry (pos 8000) "node-a" info "default" "train" registry-IsBalanced
      info-IsFree

find_full_exact_example :
    All (IsListed registry (pos 8000)) (find_available_full_gpu registry (pos 8000))
    × ((n : String) (k : NodeGpus) (g : GpuInfo)
        → Memᴰ (n, k) registry.nodes
        → Memᴰ g k.gpus
        → IsFree registry (pos 8000) n g
        → Memᴰ (candidate registry n g) (find_available_full_gpu registry (pos 8000)))
find_full_exact_example = find_full_exact registry (pos 8000)

abbrev any_pool : JobClassification
any_pool = record { pool = pool_mig; memory_request_mb = pos 6000; strict_mode = false }

route_best_fit_example :
    (first second : PoolPreference) × TriesFirst registry pool_mig (pos 6000) first
    × TriesSecond first second
    × Outcome
        (λ res.
          IsFrom registry (pos 6000) job false (pos 7) first res
          ⊎ ((false ≡ false)
              × IsExhausted registry (pos 6000) job false (pos 7) first
              × IsFrom registry (pos 6000) job false (pos 7) second res))
        (λ e.
          IsExhausted registry (pos 6000) job false (pos 7) first
          × ((false ≡ true) ⊎ IsExhausted registry (pos 6000) job false (pos 7) second))
        (allocate_classified insertion registry any_pool job false (pos 7))
route_best_fit_example = route_best_fit insertion registry any_pool job false (pos 7)

abbrev pub policy : ModelGroupPolicy
policy = record {
  name = "llama";
  ttft_hot_ms = pos 500;
  itl_hot_ms = pos 50;
  max_prefill_workers = pos 3;
  max_decode_workers = pos 3;
  execution_script = "";
}

abbrev rebalancer : Rebalancer
rebalancer = record {
  enabled = true;
  dry_run = false;
  tick_interval_seconds = pos 1;
  sustain_window_seconds = pos 0;
  cooldown_seconds = pos 60;
  allow_scale_up = true;
  allow_scale_down = true;
  drain_timeout_seconds = pos 30;
  model_group_policies = policy ∷ [];
  model_group_states = [];
}

-- Whole milliseconds in place of float64.
abbrev hot : PressureReport ℤ
hot = record {
  model_group = "llama";
  inflight = pos 9;
  queue_wait_p95 = pos 100;
  ttft_p95 = pos 900;
  itl_p95 = pos 90;
  pressure_state = decode_hot;
  timestamp = pos 5;
}

abbrev worker : String → WorkerInfo
worker id = record {
  id = id;
  role = decode;
  state = ready;
  routable = true;
  gpu2gpu_ready = true;
  endpoint = "http://10.0.0.1";
  model_group = "llama";
}

abbrev pub evaluation : ℤ → Call ℤ
evaluation now = record {
  policy = policy;
  report = hot;
  workers = worker "a" ∷ worker "b" ∷ [];
  now = now;
}

actions-Spaced_example : Spaced (pos 60 *ℤ second) (last_action rebalancer "llama") (
    action_times leb_ℤ
      (λ n. n)
      rebalancer
      "llama"
      (evaluation (pos 10) ∷ evaluation (pos 20) ∷ evaluation (pos 90_000_000_000) ∷ []))
actions-Spaced_example =
    actions-Spaced leb_ℤ (λ n. n) rebalancer "llama"
      (evaluation (pos 10) ∷ evaluation (pos 20) ∷ evaluation (pos 90_000_000_000) ∷ [])

abbrev pub pod : String → Dict String → Pod ℤ
pod name annotations = record {
  name = name;
  namespace = "default";
  labels = [];
  annotations = annotations;
  created_at = pos 3;
  node_name = "node-a";
  scheduler_name = "gpu-scheduler";
  containers = [];
}

abbrev victim : String → ℤ → ℤ → PreemptionCandidate ℤ
victim workflow priority memory = record {
  pod = pod "p" [];
  priority = priority;
  workflow = workflow;
  preemptible = true;
  gpu_ids = "GPU-0000-000-1" ∷ [];
  node_name = "node-a";
  memory_mb = memory;
}

abbrev running : List (PreemptionCandidate ℤ)
running = victim "inference" (pos 10) (pos 9000) ∷ victim "training" (pos 20) (pos 2000) ∷ []

select_victims_lem_example :
    Outcome
      (AreVictims (pos 50) (pos 8000) running)
      (λ e.
        ((e ≡ no_candidates (pos 50)) × All (λ c. ¬ MayEvict (pos 50) c) running)
        ⊎ ((chosen : List (PreemptionCandidate ℤ)) × AreEligible (pos 50) running chosen
            × (e ≡ not_enough (pos 8000) (total chosen))
            × (total chosen <ℤ pos 8000)))
      (select_victims insertion (pos 50) (pos 8000) running)
select_victims_lem_example = select_victims_lem insertion (pos 50) (pos 8000) running

abbrev queue : FifoQueue
queue = record { jobs = job ∷ []; max_size = pos 2 }

run-IsFifo_example : IsFifo queue (Order.run queue (put job ∷ put job ∷ get ∷ []))
run-IsFifo_example = run-IsFifo queue (put job ∷ put job ∷ get ∷ []) (omega arith)

abbrev gang_pod : String → Pod ℤ
gang_pod name = pod name (("gpu-scheduler/gang-id", "g") ∷ ("gpu-scheduler/gang-size", "2") ∷ [])

abbrev two : String → Option ℤ
two s = some (pos 2)

abbrev gang_pods : List (Pod ℤ)
gang_pods = gang_pod "a" ∷ pod "single" [] ∷ gang_pod "b" ∷ []

collect-IsReady_example :
    All (IsReady two) (collect two (pos 60) (pos 100) gang_pods).ready_gangs
    × ((collect two (pos 60) (pos 100) gang_pods).standalone_pods
        ≡ keep (has_no_gang two) gang_pods)
collect-IsReady_example = collect-IsReady two (pos 60) (pos 100) gang_pods

abbrev prefill_pod : Pod ℤ
prefill_pod =
    pod "p"
      (("gpu-scheduler/inference-role", "prefill") ∷ ("gpu-scheduler/model-group", "llama") ∷ [])

get_disagg_pod_intent_example :
    (((get_disagg_pod_intent (λ s. s) prefill_pod).is_disagg ≡ true)
      ↔ IsDisaggRole (get_pod_inference_role prefill_pod))
    × (((get_disagg_pod_intent (λ s. s) prefill_pod).is_valid ≡ true)
        ↔ MayAsk
            (get_pod_inference_role prefill_pod)
            (get_pod_model_group (λ s. s) prefill_pod)
            (is_shared_gpu_pod prefill_pod))
    × (((get_disagg_pod_intent (λ s. s) prefill_pod).is_valid ≡ true)
        ↔ ((get_disagg_pod_intent (λ s. s) prefill_pod).reason ≡ no_reason))
get_disagg_pod_intent_example = get_disagg_pod_intent_lem (λ s. s) prefill_pod

abbrev workers : List WorkerInfo
workers = worker "a" ∷ worker "b" ∷ record (worker "c") { role = unified } ∷ []

find_request_worker_example :
    Outcome
      (RightAnswer ltb_ℤ "llama" [] (("llama", hot) ∷ []) workers)
      (λ e.
        (e ≡ err_no_capacity)
        × NoneOf ltb_ℤ (CanServe ltb_ℤ unified "llama") workers
        × (NoneOf ltb_ℤ (CanPair ltb_ℤ prefill "llama") workers
            ⊎ NoneOf ltb_ℤ (CanPair ltb_ℤ decode "llama") workers))
      (find_request_worker ltb_ℤ "llama" workers [] (("llama", hot) ∷ []))
find_request_worker_example = find_request_worker_lem ltb_ℤ "llama" workers [] (("llama", hot) ∷ [])
