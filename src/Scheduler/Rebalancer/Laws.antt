-- ===== src/Scheduler/Rebalancer/Laws.antt =====
-- internal/scheduler/rebalancer.go: the guards and the action of each branch of Evaluate.
use gpu_scheduler.Common.{
  ◌≡◌, refl, ◌⊎◌, inl, inr, Bool, true, false, not, ◌&&◌, ◌||◌, ℤ, pos, ◌<ℤ◌, ltb_ℤ, leb_ℤ,
  leb_ℤ-false, ltb_ℤ-true, arith, Bool-cases, if◌then◌else◌,
}
use gpu_scheduler.ControlPlane.{PressureState}
use gpu_scheduler.Scheduler.Rebalancer.{
  ModelGroupPolicy, ModelGroupRebalanceState, Rebalancer, RebalancerDecision, no_action, scale_both,
  remove_prefill, remove_decode, RebalancerDecisionReason, Step, act, stay, reason_normal,
  reason_scale_up_disabled, reason_at_max_prefill, reason_at_max_decode, reason_not_sustained,
  reason_unified_hot, reason_threshold_not_met, reason_extra_decode_normal,
  reason_extra_prefill_normal, reason_scale_down_disabled, for_unified, for_hot, for_normal,
  in_cooldown, sustained_since, hot_sustained, is_normal,
}

-- A step that either does nothing, or takes the action, with `C` and out of the cooldown, and
-- notes the time.
pub data Acts (r : Rebalancer) (s : ModelGroupRebalanceState) (now : ℤ) (step : Step)
    (chosen : RebalancerDecision) (C : Type 0) : Type 0 where
  idle : step.1.action ≡ no_action → step.0 ≡ s → Acts r s now step chosen C
  acted :
      C
      → step.1.action ≡ chosen
      → in_cooldown r s now ≡ false
      → step.0 ≡ record s { last_action_at = now }
      → Acts r s now step chosen C

pub act-Acts :
    (r : Rebalancer) (s : ModelGroupRebalanceState) (now : ℤ) (chosen : RebalancerDecision)
    (reason : RebalancerDecisionReason) (C : Type 0)
    → C
    → Acts r s now (act r s now chosen reason) chosen C
unfolding act
act-Acts r s now chosen reason C c = elim (Bool-cases (in_cooldown r s now)) [
  | inl e ↦ rw (e, act) (idle refl refl)
  | inr e ↦ rw (e, act) (acted c refl e refl)
]

-- A guard that returns with no action.
guard-Acts :
    (r : Rebalancer) (s : ModelGroupRebalanceState) (now : ℤ) (t : Bool)
    (reason : RebalancerDecisionReason) (rest : Step) (chosen : RebalancerDecision) (C : Type 0)
    → (t ≡ false → Acts r s now rest chosen C)
    → Acts r s now (if t then stay r s reason else rest) chosen C
guard-Acts r s now true reason rest chosen C h = idle refl refl
guard-Acts r s now false reason rest chosen C h = h refl

true_of_not : (t : Bool) → not t ≡ false → t ≡ true
true_of_not t h = ground (arith, h)

abbrev pub CanSplit :
    Rebalancer → ModelGroupPolicy → PressureState → ModelGroupRebalanceState → ℤ → Type 0
CanSplit r policy pressure s now =
    (is_normal pressure ≡ false)
    × (r.allow_scale_up ≡ true)
    × (pos 0 <ℤ policy.max_prefill_workers)
    × (pos 0 <ℤ policy.max_decode_workers)
    × (hot_sustained r pressure s now ≡ true)

pub for_unified-Acts :
    (r : Rebalancer) (policy : ModelGroupPolicy) (pressure : PressureState)
    (s : ModelGroupRebalanceState) (now : ℤ)
    → Acts r s now
        (for_unified r policy pressure s now)
        scale_both
        (CanSplit r policy pressure s now)
unfolding for_unified
for_unified-Acts r policy pressure s now =
    let hot = not (hot_sustained r pressure s now) in
    let x4 = act r s now scale_both reason_unified_hot in
    let x3 = if hot then stay r s reason_not_sustained else x4 in
    let full = leb_ℤ policy.max_decode_workers (pos 0) in
    let x2 = if full then stay r s reason_at_max_decode else x3 in
    let full' = leb_ℤ policy.max_prefill_workers (pos 0) in
    let x1 = if full' then stay r s reason_at_max_prefill else x2 in
    let C = CanSplit r policy pressure s now in
    let x0 = if not r.allow_scale_up then stay r s reason_scale_up_disabled else x1 in
    guard-Acts r s now (is_normal pressure) reason_normal x0 scale_both C (λ a.
      guard-Acts r s now (not r.allow_scale_up) reason_scale_up_disabled x1 scale_both C (λ b.
        guard-Acts r s now full' reason_at_max_prefill x2 scale_both C (λ c.
          guard-Acts r s now full reason_at_max_decode x3 scale_both C (λ d.
            guard-Acts r s now hot reason_not_sustained x4 scale_both C (λ e.
              act-Acts r s now scale_both reason_unified_hot C (
                a,
                true_of_not r.allow_scale_up b,
                leb_ℤ-false policy.max_prefill_workers (pos 0) c,
                leb_ℤ-false policy.max_decode_workers (pos 0) d,
                true_of_not (hot_sustained r pressure s now) e,
              ))))))

abbrev pub CanAdd : Rebalancer → Bool → Bool → Bool → Type 0
CanAdd r cool full sustained =
    (r.allow_scale_up ≡ true) × (cool ≡ false) × (full ≡ false) × (sustained ≡ true)

pub for_hot-Acts :
    (r : Rebalancer) (cool full sustained : Bool) (at_max : RebalancerDecisionReason)
    (s : ModelGroupRebalanceState) (now : ℤ) (chosen : RebalancerDecision)
    (reason : RebalancerDecisionReason)
    → Acts r s now
        (for_hot r cool full sustained at_max s now chosen reason)
        chosen
        (CanAdd r cool full sustained)
unfolding for_hot
for_hot-Acts r cool full sustained at_max s now chosen reason =
    let x3 = act r s now chosen reason in
    let x2 = if not sustained then stay r s reason_not_sustained else x3 in
    let x1 = if full then stay r s at_max else x2 in
    let x0 = if cool then stay r s reason_threshold_not_met else x1 in
    let C = CanAdd r cool full sustained in
    guard-Acts r s now (not r.allow_scale_up) reason_scale_up_disabled x0 chosen C (λ a.
      guard-Acts r s now cool reason_threshold_not_met x1 chosen C (λ b.
        guard-Acts r s now full at_max x2 chosen C (λ c.
          guard-Acts r s now (not sustained) reason_not_sustained x3 chosen C (λ d.
            act-Acts r s now chosen reason C
              (true_of_not r.allow_scale_up a, b, c, true_of_not sustained d)))))

-- Scaling down, to one worker of each role at least.
abbrev pub CanRemove : Rebalancer → ℤ → ModelGroupRebalanceState → ℤ → Type 0
CanRemove r workers s now =
    (pos 1 <ℤ workers) × (r.allow_scale_down ≡ true) × (sustained_since r s.normal_since now ≡ true)

-- The action that the rest of a normal round can take.
abbrev pub Calm : Rebalancer → ℤ → ℤ → ModelGroupRebalanceState → ℤ → Step → Type 0
Calm r prefills decodes s now step =
    Acts r s now step remove_decode (CanRemove r decodes s now)
    ⊎ Acts r s now step remove_prefill (CanRemove r prefills s now)

Calm-guard :
    (r : Rebalancer) (prefills decodes : ℤ) (s : ModelGroupRebalanceState) (now : ℤ) (t : Bool)
    (x y : Step)
    → (t ≡ true → Calm r prefills decodes s now x)
    → (t ≡ false → Calm r prefills decodes s now y)
    → Calm r prefills decodes s now (if t then x else y)
Calm-guard r prefills decodes s now true x y h k = h refl
Calm-guard r prefills decodes s now false x y h k = k refl

removable :
    (a b down long : Bool)
    → ((a || b) && not long) ≡ false
    → (a && down) ≡ true
    → (a ≡ true) × (down ≡ true) × (long ≡ true)
removable a b down long h k = ground (arith, h, k)

removable' :
    (a b down long : Bool)
    → ((a || b) && not long) ≡ false
    → (b && down) ≡ true
    → (b ≡ true) × (down ≡ true) × (long ≡ true)
removable' a b down long h k = ground (arith, h, k)

pub for_normal-Calm :
    (r : Rebalancer) (prefills decodes : ℤ) (s : ModelGroupRebalanceState) (now : ℤ)
    → Calm r prefills decodes s now (for_normal r prefills decodes s now)
unfolding for_normal
for_normal-Calm r prefills decodes s now =
    let guard = Calm-guard r prefills decodes s now in
    let more = ltb_ℤ (pos 1) decodes in
    let more' = ltb_ℤ (pos 1) prefills in
    let long = sustained_since r s.normal_since now in
    let x4 = stay r s reason_normal in
    let x3 =
      if (more || more') && not r.allow_scale_down
      then stay r s reason_scale_down_disabled
      else x4 in
    let x2 =
      if more' && r.allow_scale_down
      then act r s now remove_prefill reason_extra_prefill_normal
      else x3 in
    let x1 =
      if more && r.allow_scale_down
      then act r s now remove_decode reason_extra_decode_normal
      else x2 in
    guard ((more || more') && not long) (stay r s reason_not_sustained) x1
      (λ a. inl (idle refl refl))
      (λ a.
        guard (more && r.allow_scale_down) (act r s now remove_decode reason_extra_decode_normal) x2
          (λ b.
            let (m, d, l) = removable more more' r.allow_scale_down long a b in
            inl (
              act-Acts r s now remove_decode reason_extra_decode_normal (CanRemove r decodes s now)
                (ltb_ℤ-true (pos 1) decodes m, d, l)))
          (λ b.
            guard (more' && r.allow_scale_down)
              (act r s now remove_prefill reason_extra_prefill_normal) x3
              (λ c.
                let (m, d, l) = removable' more more' r.allow_scale_down long a c in
                inr (
                  act-Acts r s now remove_prefill reason_extra_prefill_normal
                    (CanRemove r prefills s now) (ltb_ℤ-true (pos 1) prefills m, d, l)))
              (λ c.
                guard ((more || more') && not r.allow_scale_down)
                  (stay r s reason_scale_down_disabled) x4 (λ d. inl (idle refl refl))
                  (λ d. inl (idle refl refl)))))
