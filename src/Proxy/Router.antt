-- ===== src/Proxy/Router.antt =====
-- internal/proxy/router.go: the workers that serve a request for a model group. The map of stats is
-- an association list; `less` stands for `<` of float64.
pub mod Laws
pub mod Serving
use gpu_scheduler.Common.{
  Bool, true, false, not, ◌&&◌, ◌||◌, Option, none, some, List, [], ◌∷◌, String, eq_str, ℤ, ltb_ℤ,
  keep, Result, ok, err, if◌then◌else◌,
}
use gpu_scheduler.Common.Dict.{Dict, lookup}
use gpu_scheduler.Types.{InferenceRole, prefill, decode, unified, unknown}
use gpu_scheduler.ControlPlane.{
  PressureState, normal, prefill_hot, decode_hot, other_pressure, WorkerState, starting, ready,
  draining, removed, other_state, PressureReport, WorkerInfo, WorkerStat,
}

pub data RequestWorker : Type 0 where
  unified_worker : WorkerInfo → RequestWorker
  disagg_workers : WorkerInfo → WorkerInfo → RequestWorker

pub data RouterError : Type 0 where
  err_no_capacity err_unable_to_match_disagg : RouterError

abbrev pub is_ready : WorkerState → Bool
is_ready starting = false
is_ready ready = true
is_ready draining = false
is_ready removed = false
is_ready (other_state s) = false

abbrev pub unified_role : InferenceRole → Bool
unified_role unified = true
unified_role prefill = false
unified_role decode = false
unified_role unknown = false

abbrev pub prefill_role : InferenceRole → Bool
prefill_role unified = false
prefill_role prefill = true
prefill_role decode = false
prefill_role unknown = false

abbrev pub decode_role : InferenceRole → Bool
decode_role unified = false
decode_role prefill = false
decode_role decode = true
decode_role unknown = false

-- A worker of the group that can take requests, whatever its role.
unfoldable pub is_open : String → WorkerInfo → Bool
is_open group w =
    eq_str w.model_group group && (is_ready w.state && (w.routable && not (eq_str w.endpoint "")))

unfoldable pub serves_unified : String → WorkerInfo → Bool
serves_unified group w = is_open group w && unified_role w.role

unfoldable pub serves_prefill : String → WorkerInfo → Bool
serves_prefill group w = is_open group w && (w.gpu2gpu_ready && prefill_role w.role)

unfoldable pub serves_decode : String → WorkerInfo → Bool
serves_decode group w = is_open group w && (w.gpu2gpu_ready && decode_role w.role)

abbrev pub is_hot : PressureState → Bool
is_hot normal = false
is_hot prefill_hot = true
is_hot decode_hot = true
is_hot (other_pressure p) = false

module _ {F : Type 0} (less : F → F → Bool) where
  -- A worker with stats goes before one without; then the lower inflight, then the lower metric.
  unfoldable pub should_replace :
      (WorkerStat F → F) → Option (WorkerStat F) → Option (WorkerStat F) → Bool
  should_replace metric best none = false
  should_replace metric none (some candidate) = true
  should_replace metric (some best) (some candidate) =
      if ltb_ℤ candidate.inflight best.inflight
      then true
      else if ltb_ℤ best.inflight candidate.inflight
      then false
      else less (metric candidate) (metric best)

  -- The loop of the three FindBest functions.
  unfoldable pub best_of :
      (WorkerStat F → F) → Dict (WorkerStat F) → WorkerInfo → List WorkerInfo → WorkerInfo
  best_of metric stats best [] = best
  best_of metric stats best (w ∷ ws) =
      best_of metric stats
        (if should_replace metric (lookup best.id stats) (lookup w.id stats) then w else best) ws

  -- The loop starts over the first worker again.
  unfoldable pub find_best :
      (WorkerStat F → F) → Dict (WorkerStat F) → List WorkerInfo → Option WorkerInfo
  find_best metric stats [] = none
  find_best metric stats (w ∷ ws) = some (best_of metric stats w (w ∷ ws))

  unfoldable pub find_best_prefill_worker :
      Dict (WorkerStat F) → List WorkerInfo → Option WorkerInfo
  find_best_prefill_worker stats ws = find_best (λ s. s.ttft_p95) stats ws

  unfoldable pub find_best_decode_worker : Dict (WorkerStat F) → List WorkerInfo → Option WorkerInfo
  find_best_decode_worker stats ws = find_best (λ s. s.itl_p95) stats ws

  unfoldable pub find_best_unified_worker :
      Dict (WorkerStat F) → List WorkerInfo → Option WorkerInfo
  find_best_unified_worker stats ws = find_best (λ s. s.itl_p95) stats ws

  unfoldable pub match_disagg :
      Dict (WorkerStat F) → List WorkerInfo → List WorkerInfo → Result RouterError RequestWorker
  match_disagg stats prefills decodes = elim (find_best_prefill_worker stats prefills) [
    | none ↦ err err_unable_to_match_disagg
    | some p ↦ elim (find_best_decode_worker stats decodes) [
      | none ↦ err err_unable_to_match_disagg
      | some d ↦ ok (disagg_workers p d)
    ]
  ]

  unfoldable pub match_unified :
      Dict (WorkerStat F) → List WorkerInfo → Result RouterError RequestWorker
  match_unified stats unifieds = elim (find_best_unified_worker stats unifieds) [
    | none ↦ err err_no_capacity
    | some u ↦ ok (unified_worker u)
  ]

  unfoldable pub route :
      Bool
      → Dict (WorkerStat F)
      → List WorkerInfo
      → List WorkerInfo
      → List WorkerInfo
      → Result RouterError RequestWorker
  route hot stats [] [] ds = err err_no_capacity
  route hot stats [] (p ∷ ps) [] = err err_no_capacity
  route hot stats [] (p ∷ ps) (d ∷ ds) = match_disagg stats (p ∷ ps) (d ∷ ds)
  route hot stats (u ∷ us) [] ds = match_unified stats (u ∷ us)
  route hot stats (u ∷ us) (p ∷ ps) [] = match_unified stats (u ∷ us)
  route hot stats (u ∷ us) (p ∷ ps) (d ∷ ds) =
      if hot then match_disagg stats (p ∷ ps) (d ∷ ds) else match_unified stats (u ∷ us)

  -- Whether the group is under pressure, by its report.
  unfoldable pub is_hot_group : String → Dict (PressureReport F) → Bool
  is_hot_group group reports = elim (lookup group reports) [
    | none ↦ false
    | some r ↦ is_hot r.pressure_state
  ]

  unfoldable pub find_request_worker :
      String
      → List WorkerInfo
      → Dict (WorkerStat F)
      → Dict (PressureReport F)
      → Result RouterError RequestWorker
  find_request_worker group workers stats reports =
      route (is_hot_group group reports) stats (keep (serves_unified group) workers)
        (keep (serves_prefill group) workers) (keep (serves_decode group) workers)
