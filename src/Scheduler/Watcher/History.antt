-- ===== src/Scheduler/Watcher/History.antt =====
-- internal/scheduler/watcher.go: the watcher over any sequence of rounds, of what the informers tell
-- it, of the agents' reports, and of what happens in the cluster meanwhile.
use gpu_scheduler.Common.{ℤ, Option, none, some, List, [], ◌∷◌}
use gpu_scheduler.Agent.{GpuReport}
use gpu_scheduler.Registry.{Registry, update_from_report}
use gpu_scheduler.Scheduler.Pod.{Pod}
use gpu_scheduler.Scheduler.Disagg.{ClusterPod}
use gpu_scheduler.Scheduler.Watcher.{Env, Watcher}
use gpu_scheduler.Scheduler.Watcher.Loop.{process_queue, on_update, on_delete}

-- `moved` is any change of the cluster that the watcher does not make.
pub data Event (Q W : Type 0) : Type 0 where
  round : ℤ → Event Q W
  updated : ClusterPod Q → Event Q W
  deleted : Option (Pod Q) → Event Q W
  reported : GpuReport → ℤ → Event Q W
  moved : (W → W) → Event Q W

module _ {Q W : Type 0} (env : Env Q W) where
  unfoldable pub step : Watcher W → Event Q W → Option (Watcher W)
  step w (round now) = process_queue env w now
  step w (updated p) = some (on_update env p w)
  step w (deleted pod) = some (on_delete env pod w)
  step w (reported report now) =
      some (record w { registry = update_from_report w.registry report now })
  step w (moved f) = some (record w { cluster = f w.cluster })

  -- A panic ends the run.
  unfoldable pub run : Option (Watcher W) → List (Event Q W) → Option (Watcher W)
  run x [] = x
  run none (e ∷ es) = none
  run (some w) (e ∷ es) = run (step w e) es
