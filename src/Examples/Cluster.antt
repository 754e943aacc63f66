-- ===== src/Examples/Cluster.antt =====
-- The properties of the watcher, of gangs of pods and of the log buffer at concrete inputs.
use gpu_scheduler.Common.{
  ◌≡◌, All, ◌↔◌, refl, ◌⊎◌, true, false, Bool, Option, none, some, List, [], ◌∷◌, String, ℤ, pos,
  negsuc, pos_part, arith, Result, Outcome, Memᴰ, inl, inr, eq_str, insertion, if◌then◌else◌,
}
use gpu_scheduler.Common.Dict.{lookup}
use gpu_scheduler.Types.{SchedulingResult}
use gpu_scheduler.Registry.{pod_key, release_pod, get_reserved_memory, get_pod_count}
use gpu_scheduler.Registry.Accounting.{IsBalanced}
use gpu_scheduler.Registry.RoundTrip.{gpu_mark, mig_mark, IsFreed, mark_all_for, mark_all-release}
use gpu_scheduler.Allocator.Strategy.{bin_pack}
use gpu_scheduler.Allocator.Strategy.Laws.{bin_pack-IsPlacing}
use gpu_scheduler.Allocator.GangMultiPod.{PodPlacement, GangError, schedule_multi_pod_gang}
use gpu_scheduler.Allocator.GangMultiPod.Exclusive.{Exclusive, schedule_gang-Exclusive}
use gpu_scheduler.Scheduler.Pod.{Pod}
use gpu_scheduler.Scheduler.Disagg.{ClusterPod, pod_pending, pod_running, select_full_gpu}
use gpu_scheduler.Scheduler.Disagg.Laws.{FullGpuChoice, select_full_gpu_lem}
use gpu_scheduler.Scheduler.Watcher.{Env, Watcher, settle_placement}
use gpu_scheduler.Scheduler.Watcher.Loop.{process_pods}
use gpu_scheduler.Scheduler.Watcher.History as History
use gpu_scheduler.Scheduler.Watcher.History.{Event, round, updated, deleted, reported, moved}
use gpu_scheduler.Scheduler.Watcher.Order.{IsEvicting, process_pods-deferred}
use gpu_scheduler.Scheduler.Watcher.Rollback.{SameHoldings, settle_placement-rollback}
use gpu_scheduler.Dashboard.LogBuffer.{LogBuffer, Texts, new_log_buffer, get_recent}
use gpu_scheduler.Dashboard.LogBuffer.Recent.{write_all, recent, log_of, write_all-get_recent}
use gpu_scheduler.Manager.{Manager, insufficient_memory, allocate, release}
use gpu_scheduler.Manager.RoundTrip.{OnceIn, allocate-release}
use gpu_scheduler.Config.{Config, validate}
use gpu_scheduler.Config.Valid.{ValidConfig, validate_iff}
use gpu_scheduler.Examples.{job, node, registry, registry-IsBalanced, pod, first_report}

abbrev read_number : String → Option ℤ
read_number s = if eq_str s "8000" then some (pos 8000) else none

abbrev Cluster : Type 0
Cluster = List (ClusterPod ℤ)

-- A cluster whose bindings work or fail, and which nothing else changes.
abbrev env : Bool → Env ℤ Cluster
env binds = record {
  atoi = read_number;
  itoa = λ n. "0";
  parse_bool = λ s. none;
  split = λ s. s ∷ [];
  join = λ ids. "GPU-0000-000-1";
  trim = λ s. s;
  base_name = λ s. s;
  value = λ q. pos (pos_part q);
  is_zero = λ q. false;
  new_id = λ p. "job-1";
  sorter = insertion;
  list_pods = λ c. some c;
  patch = λ c p notes. (c, true);
  bind = λ c p name. (c, binds);
  strategy = bin_pack insertion;
  scheduler_name = "gpu-scheduler";
  workflow_cfg = record {
    enabled = false;
    allow_custom = false;
    default_priority = pos 50;
    types = [];
  };
  gang_timeout = pos 1000;
  preemption = none;
}

-- A pod that waits, and one that runs.
abbrev waiting : ClusterPod ℤ
waiting = record {
  pod = record (pod "train" (("gpu-scheduler/memory-mb", "8000") ∷ [])) { node_name = "" };
  phase = pod_pending;
  conditions = [];
}

abbrev running : ClusterPod ℤ
running = record {
  pod = pod "serve" (("gpu-scheduler/assigned-gpus", "GPU-0000-000-1") ∷ []);
  phase = pod_running;
  conditions = ("Ready", true) ∷ [];
}

abbrev events : List (Event ℤ Cluster)
events =
    reported first_report (pos 1)
    ∷ moved (λ c. waiting ∷ c)
    ∷ round (pos 2)
    ∷ updated waiting
    ∷ deleted (some running.pod)
    ∷ round (pos 3)
    ∷ []

abbrev watcher : Watcher Cluster
watcher = record {
  registry = registry;
  pending_evictions = ("default/serve", pos 1) ∷ [];
  cluster = waiting ∷ running ∷ [];
}

watcher-IsEvicting : IsEvicting watcher (waiting ∷ running ∷ []) "default/serve"
unfolding pod_key
watcher-IsEvicting = record {
  at = pos 1;
  tracked = Memᴰ.head refl;
  pod = running;
  known = Memᴰ.tail (Memᴰ.head refl);
  named = refl;
}

process_pods-deferred_example :
    (w : Watcher Cluster) × (process_pods (env true) (waiting ∷ running ∷ []) (pos 2) watcher
      ≡ some w)
    × (w.registry ≡ registry)
    × (w.cluster ≡ (waiting ∷ running ∷ []))
    × (lookup "default/serve" w.pending_evictions
        ≡ lookup "default/serve" (("default/serve", pos 1) ∷ []))
process_pods-deferred_example =
    process_pods-deferred (env true) watcher (waiting ∷ running ∷ []) (pos 2) "default/serve"
      watcher-IsEvicting

abbrev on_gpu_1 : SchedulingResult
on_gpu_1 = record {
  job_id = "job-1";
  node_name = "node-a";
  gpu_ids = "GPU-0000-000-1" ∷ [];
  success = true;
  reason = "";
  timestamp = pos 2;
  is_mig = false;
}

abbrev gang_placement : PodPlacement ℤ
gang_placement = record {
  pod = waiting.pod;
  node_name = "node-a";
  gpu_ids = "GPU-0000-000-1" ∷ "GPU-0000-000-2" ∷ [];
  memory_mb = pos 8000;
  is_mig = false;
}

settle_placement-rollback_example :
    SameHoldings registry (settle_placement (env false) "gang-1" watcher gang_placement).registry
unfolding lookup
settle_placement-rollback_example =
    settle_placement-rollback (env false) "gang-1" watcher gang_placement registry-IsBalanced refl
      (omega arith) (λ c. refl)

mark_all-release_example :
    let marked = mark_all_for registry "default" "train" (
      gpu_mark "node-a" "GPU-0000-000-1" (pos 8000)
      ∷ mig_mark "node-a" "MIG-0000-000-1" (pos 5000)
      ∷ []) in
    let r = release_pod marked "default" "train" in
    (((n g : String)
        → (get_reserved_memory r n g ≡ get_reserved_memory registry n g)
          × (get_pod_count r n g ≡ get_pod_count registry n g))
      × IsBalanced r)
    × All (IsFreed r) (
        gpu_mark "node-a" "GPU-0000-000-1" (pos 8000)
        ∷ mig_mark "node-a" "MIG-0000-000-1" (pos 5000)
        ∷ [])
unfolding lookup
mark_all-release_example =
    mark_all-release registry "default" "train"
      (gpu_mark "node-a" "GPU-0000-000-1" (pos 8000)
        ∷ mig_mark "node-a" "MIG-0000-000-1" (pos 5000)
        ∷ [])
      registry-IsBalanced refl (omega arith, (omega arith, tt))

abbrev gang : List (Pod ℤ)
gang = waiting.pod ∷ running.pod ∷ []

schedule_gang-Exclusive_example :
    (r : Result GangError (List (PodPlacement ℤ))) × (schedule_multi_pod_gang
        (bin_pack insertion)
        gang
        (node ∷ [])
        (job ∷ job ∷ [])
        (pos 7)
      ≡ some r)
    × Outcome (Exclusive (job ∷ job ∷ [])) (λ _. Unit {0}) r
schedule_gang-Exclusive_example =
    schedule_gang-Exclusive (bin_pack insertion) (bin_pack-IsPlacing insertion) gang (node ∷ [])
      (job ∷ job ∷ []) (pos 7) (omega arith)

select_full_gpu_example :
    FullGpuChoice
      (node ∷ [])
      ("node-b" ∷ "node-a" ∷ [])
      (pos 8000)
      (select_full_gpu (node ∷ []) ("node-b" ∷ "node-a" ∷ []) (pos 8000))
select_full_gpu_example = select_full_gpu_lem (node ∷ []) ("node-b" ∷ "node-a" ∷ []) (pos 8000)

abbrev texts : Texts
texts = record {
  index = λ s t. negsuc 0;
  slice = λ s a b. s;
  slice_to = λ s a. s;
  slice_from = λ s a. s;
  trim = λ s. s;
  split_lines = λ s. s ∷ [];
}

write_all-get_recent_example :
    (lb : LogBuffer) × (write_all texts (new_log_buffer 2) ("a" ∷ "b" ∷ "" ∷ "c" ∷ []) ≡ some lb)
    × (get_recent lb (pos 5) "GENERAL"
        ≡ some (recent (log_of texts ("a" ∷ "b" ∷ "" ∷ "c" ∷ [])) 2 (pos 5) "GENERAL"))
write_all-get_recent_example =
    write_all-get_recent texts 1 ("a" ∷ "b" ∷ "" ∷ "c" ∷ []) (pos 5) "GENERAL"

abbrev pub config : Config
config = record {
  scheduler = record {
    name = "gpu-scheduler";
    port = pos 8888;
    metrics_port = pos 9090;
    mode = "standalone";
    gang_timeout_seconds = pos 300;
    preemption_enabled = true;
    checkpoint_timeout_seconds = pos 30;
    preemption_grace_period = pos 30;
    auto_resume_max_retries = pos 3;
    auto_resume_priority_boost = pos 5;
  };
  queue = record { max_size = pos 100; default_policy = "binpack" };
  workflows = record {
    enabled = true;
    allow_custom = false;
    default_priority = pos 50;
    types = record { name = "build"; priority = pos 100; preemptible = false } ∷ [];
  };
  gpu = record { poll_interval_seconds = pos 5; mock_mode = false };
  kubernetes = record { kubeconfig = ""; namespace = "default" };
  logging = record { level = "info"; format = "json" };
  proxy = record { enabled = true; port = pos 70000; scheduler_url = "http://scheduler" };
  rebalancing = record {
    enabled = true;
    dry_run = true;
    tick_interval_seconds = pos 5;
    sustain_window_seconds = pos 30;
    cooldown_seconds = pos 60;
    drain_timeout_seconds = pos 30;
    allow_scale_up = true;
    allow_scale_down = false;
    model_groups =
        record {
          name = "llama";
          ttft_hot_ms = pos 500;
          itl_hot_ms = pos 50;
          max_prefill_workers = pos 2;
          max_decode_workers = pos 2;
          execution_script = "";
        }
        ∷ [];
  };
}

validate_iff_example : (validate (λ s. s) config ≡ none) ↔ ValidConfig (λ s. s) config
validate_iff_example = validate_iff (λ s. s) config

abbrev pub manager : Manager
manager = record { nodes = ("node-a", node) ∷ []; allocations = [] }

free_gpu-OnceIn : OnceIn "GPU-0000-000-free" (("node-a", node) ∷ [])
free_gpu-OnceIn = inl (inr (refl, inr (refl, inl (refl, tt))), tt)

allocate-release_example :
    (allocate manager "job" "GPU-0000-000-free" (pos 8000) ≡ (manager, some insufficient_memory))
    ⊎ ((m' : Manager) × (allocate manager "job" "GPU-0000-000-free" (pos 8000) ≡ (m', none))
        × (release m' "job" ≡ (manager, none)))
unfolding lookup
allocate-release_example =
    allocate-release manager "job" "GPU-0000-000-free" (pos 8000) refl refl free_gpu-OnceIn
