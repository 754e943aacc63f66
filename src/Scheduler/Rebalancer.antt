-- ===== src/Scheduler/Rebalancer.antt =====
-- internal/scheduler/rebalancer.go: when the rebalancer adds or removes inference workers of a
-- model group. `at_most` stands for `<=` of float64 and `of_int` for the conversion `float64(n)`.
pub mod Laws
pub mod Evaluation
pub mod Pacing
pub mod Start
use gpu_scheduler.Common.{
  Bool, true, false, not, ◌&&◌, ◌||◌, Option, none, some, List, [], ◌∷◌, String, eq_str, ℤ, pos,
  ◌-ℤ◌, ◌*ℤ◌, ltb_ℤ, leb_ℤ, eqb_ℤ, length, keep, if◌then◌else◌,
}
use gpu_scheduler.Common.Dict.{Dict, lookup, insert, lookup_or}
use gpu_scheduler.Types.{InferenceRole, prefill, decode, unified, unknown}
use gpu_scheduler.ControlPlane.{
  PressureState, normal, prefill_hot, decode_hot, other_pressure, PressureReport, WorkerInfo,
}

pub record ModelGroupPolicy : Type 0 where
  pub name : String
  pub ttft_hot_ms : ℤ
  pub itl_hot_ms : ℤ
  pub max_prefill_workers : ℤ
  pub max_decode_workers : ℤ
  pub execution_script : String

-- When a state of pressure was first seen, and the last action; 0 is the zero time.
pub record ModelGroupRebalanceState : Type 0 where
  pub prefill_hot_since : ℤ
  pub decode_hot_since : ℤ
  pub normal_since : ℤ
  pub last_action_at : ℤ

pub record Rebalancer : Type 0 where
  pub enabled : Bool
  pub dry_run : Bool
  pub tick_interval_seconds : ℤ
  pub sustain_window_seconds : ℤ
  pub cooldown_seconds : ℤ
  pub allow_scale_up : Bool
  pub allow_scale_down : Bool
  pub drain_timeout_seconds : ℤ
  pub model_group_policies : List ModelGroupPolicy
  pub model_group_states : Dict ModelGroupRebalanceState

pub data RebalancerDecision : Type 0 where
  no_action scale_both add_prefill add_decode remove_prefill remove_decode : RebalancerDecision

pub data RebalancerDecisionReason : Type 0 where
  reason_disabled reason_model_group_mismatch reason_no_workers reason_normal :
      RebalancerDecisionReason
  reason_scale_up_disabled reason_scale_down_disabled reason_unified_hot : RebalancerDecisionReason
  reason_prefill_hot reason_decode_hot reason_at_max_prefill : RebalancerDecisionReason
  reason_at_max_decode reason_extra_prefill_normal : RebalancerDecisionReason
  reason_extra_decode_normal reason_threshold_not_met : RebalancerDecisionReason
  reason_not_sustained reason_cooldown : RebalancerDecisionReason

pub record RebalancerDecisionResult : Type 0 where
  pub action : RebalancerDecision
  pub reason : RebalancerDecisionReason
  pub dry_run : Bool

abbrev pub no_state : ModelGroupRebalanceState
no_state = record {
  prefill_hot_since = pos 0;
  decode_hot_since = pos 0;
  normal_since = pos 0;
  last_action_at = pos 0;
}

abbrev pub second : ℤ
second = pos 1_000_000_000

unfoldable pub get_state_for : Rebalancer → String → ModelGroupRebalanceState
get_state_for r group = lookup_or no_state group r.model_group_states

unfoldable pub sustained_since : Rebalancer → ℤ → ℤ → Bool
sustained_since r since now =
    not (eqb_ℤ since (pos 0)) && leb_ℤ (r.sustain_window_seconds *ℤ second) (now -ℤ since)

unfoldable pub in_cooldown : Rebalancer → ModelGroupRebalanceState → ℤ → Bool
in_cooldown r state now =
    not (eqb_ℤ state.last_action_at (pos 0))
    && ltb_ℤ (now -ℤ state.last_action_at) (r.cooldown_seconds *ℤ second)

abbrev first_seen : ℤ → ℤ → ℤ
first_seen since now = if eqb_ℤ since (pos 0) then now else since

-- The `switch` on the pressure: its own timer starts, the others are reset.
unfoldable pub observe : PressureState → ℤ → ModelGroupRebalanceState → ModelGroupRebalanceState
observe normal now s = record s {
  normal_since = first_seen s.normal_since now;
  decode_hot_since = pos 0;
  prefill_hot_since = pos 0;
}
observe decode_hot now s = record s {
  decode_hot_since = first_seen s.decode_hot_since now;
  normal_since = pos 0;
  prefill_hot_since = pos 0;
}
observe prefill_hot now s = record s {
  prefill_hot_since = first_seen s.prefill_hot_since now;
  normal_since = pos 0;
  decode_hot_since = pos 0;
}
observe (other_pressure p) now s = record s {
  normal_since = pos 0;
  decode_hot_since = pos 0;
  prefill_hot_since = pos 0;
}

abbrev pub is_unified : WorkerInfo → Bool
is_unified w = elim w.role [ unified ↦ true | prefill ↦ false | decode ↦ false | unknown ↦ false ]

abbrev pub is_prefill : WorkerInfo → Bool
is_prefill w = elim w.role [ unified ↦ false | prefill ↦ true | decode ↦ false | unknown ↦ false ]

abbrev pub is_decode : WorkerInfo → Bool
is_decode w = elim w.role [ unified ↦ false | prefill ↦ false | decode ↦ true | unknown ↦ false ]

abbrev pub count_of : (WorkerInfo → Bool) → List WorkerInfo → ℤ
count_of p ws = pos (length (keep p ws))

abbrev pub Step : Type 0
Step = ModelGroupRebalanceState × RebalancerDecisionResult

-- return r.decision(None, reason)
abbrev pub stay : Rebalancer → ModelGroupRebalanceState → RebalancerDecisionReason → Step
stay r s reason = (s, record { action = no_action; reason = reason; dry_run = r.dry_run })

-- The cooldown test before an action, and the action with its time.
unfoldable pub act :
    Rebalancer → ModelGroupRebalanceState → ℤ → RebalancerDecision → RebalancerDecisionReason → Step
act r s now chosen reason = if in_cooldown r s now then stay r s reason_cooldown else (
  record s { last_action_at = now },
  record { action = chosen; reason = reason; dry_run = r.dry_run },
)

-- Whether the state's own timer has run long enough; the two other states have none to wait for.
unfoldable pub hot_sustained : Rebalancer → PressureState → ModelGroupRebalanceState → ℤ → Bool
hot_sustained r prefill_hot s now = sustained_since r s.prefill_hot_since now
hot_sustained r decode_hot s now = sustained_since r s.decode_hot_since now
hot_sustained r normal s now = true
hot_sustained r (other_pressure p) s now = true

abbrev pub is_normal : PressureState → Bool
is_normal normal = true
is_normal prefill_hot = false
is_normal decode_hot = false
is_normal (other_pressure p) = false

-- A single unified worker: split it into a prefill and a decode worker.
unfoldable pub for_unified :
    Rebalancer → ModelGroupPolicy → PressureState → ModelGroupRebalanceState → ℤ → Step
for_unified r policy pressure s now =
    if is_normal pressure
    then stay r s reason_normal
    else if not r.allow_scale_up
    then stay r s reason_scale_up_disabled
    else if leb_ℤ policy.max_prefill_workers (pos 0)
    then stay r s reason_at_max_prefill
    else if leb_ℤ policy.max_decode_workers (pos 0)
    then stay r s reason_at_max_decode
    else if not (hot_sustained r pressure s now)
    then stay r s reason_not_sustained
    else act r s now scale_both reason_unified_hot

-- One of the two hot states: its threshold, its workers and its timer.
unfoldable pub for_hot :
    Rebalancer
    → Bool
    → Bool
    → Bool
    → RebalancerDecisionReason
    → ModelGroupRebalanceState
    → ℤ
    → RebalancerDecision
    → RebalancerDecisionReason
    → Step
for_hot r cool full sustained at_max s now chosen reason =
    if not r.allow_scale_up
    then stay r s reason_scale_up_disabled
    else if cool
    then stay r s reason_threshold_not_met
    else if full
    then stay r s at_max
    else if not sustained
    then stay r s reason_not_sustained
    else act r s now chosen reason

unfoldable pub for_normal : Rebalancer → ℤ → ℤ → ModelGroupRebalanceState → ℤ → Step
for_normal r prefills decodes s now =
    let extra = ltb_ℤ (pos 1) decodes || ltb_ℤ (pos 1) prefills in
    if extra && not (sustained_since r s.normal_since now)
    then stay r s reason_not_sustained
    else if ltb_ℤ (pos 1) decodes && r.allow_scale_down
    then act r s now remove_decode reason_extra_decode_normal
    else if ltb_ℤ (pos 1) prefills && r.allow_scale_down
    then act r s now remove_prefill reason_extra_prefill_normal
    else if extra && not r.allow_scale_down
    then stay r s reason_scale_down_disabled
    else stay r s reason_normal

module _ {F : Type 0} (at_most : F → F → Bool) (of_int : ℤ → F) where
  -- What follows the `switch` and the count of the workers.
  unfoldable pub decide :
      Rebalancer
      → ModelGroupPolicy
      → PressureReport F
      → ℤ
      → ℤ
      → ℤ
      → ModelGroupRebalanceState
      → ℤ
      → Step
  decide r policy report unifieds prefills decodes s now =
      let split = for_unified r policy report.pressure_state s now in
      let hot_decode =
        for_hot r (at_most report.itl_p95 (of_int policy.itl_hot_ms))
          (leb_ℤ policy.max_decode_workers decodes) (sustained_since r s.decode_hot_since now)
          reason_at_max_decode s now add_decode reason_decode_hot in
      let hot_prefill =
        for_hot r (at_most report.ttft_p95 (of_int policy.ttft_hot_ms))
          (leb_ℤ policy.max_prefill_workers prefills) (sustained_since r s.prefill_hot_since now)
          reason_at_max_prefill s now add_prefill reason_prefill_hot in
      let calm = for_normal r prefills decodes s now in
      if eqb_ℤ unifieds (pos 1) && (eqb_ℤ prefills (pos 0) && eqb_ℤ decodes (pos 0))
      then split
      else elim report.pressure_state [
        | decode_hot ↦ hot_decode
        | prefill_hot ↦ hot_prefill
        | normal ↦ calm
        | other_pressure p ↦ stay r s reason_normal
      ]

  unfoldable pub evaluate :
      Rebalancer
      → ModelGroupPolicy
      → PressureReport F
      → List WorkerInfo
      → ℤ
      → Rebalancer × RebalancerDecisionResult
  evaluate r policy report [] now =
      if not r.enabled
      then (r, (stay r no_state reason_disabled).1)
      else if not (eq_str report.model_group policy.name)
      then (r, (stay r no_state reason_model_group_mismatch).1)
      else (r, (stay r no_state reason_no_workers).1)
  evaluate r policy report (w ∷ ws) now =
      let (s, result) =
        decide r policy report (count_of is_unified (w ∷ ws)) (count_of is_prefill (w ∷ ws))
          (count_of is_decode (w ∷ ws))
          (observe report.pressure_state now (get_state_for r policy.name)) now in
      if not r.enabled
      then (r, (stay r no_state reason_disabled).1)
      else if not (eq_str report.model_group policy.name)
      then (r, (stay r no_state reason_model_group_mismatch).1)
      else (record r { model_group_states = insert policy.name s r.model_group_states }, result)
