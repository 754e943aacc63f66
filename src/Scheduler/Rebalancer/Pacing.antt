-- ===== src/Scheduler/Rebalancer/Pacing.antt =====
-- internal/scheduler/rebalancer.go: sequences of evaluations, and the times of their actions.
use gpu_scheduler.Common.{
  ◌≡◌, refl, ap, ◌∙◌, ◌⊎◌, inl, inr, Bool, true, false, ◌&&◌, List, [], ◌∷◌, String, eq_str, eq_iff,
  ℤ, pos, ◌-ℤ◌, ◌*ℤ◌, ◌≤ℤ◌, eqb_ℤ, eqb_ℤ-true, ltb_ℤ-false, subst, arith, Bool-cases, if◌then◌else◌,
}
use gpu_scheduler.ControlPlane.{PressureReport, WorkerInfo}
use gpu_scheduler.Scheduler.Rebalancer.{
  ModelGroupPolicy, ModelGroupRebalanceState, Rebalancer, RebalancerDecision, no_action, scale_both,
  add_prefill, add_decode, remove_prefill, remove_decode, evaluate, in_cooldown, get_state_for,
  second, count_of, is_unified, is_prefill, is_decode,
}
use gpu_scheduler.Scheduler.Rebalancer.Evaluation.{
  if_lem, last_action, observe-last, observed, Justified, waits, moves, evaluate_justified,
}

if_true : {A : Type 0} (t : Bool) (x y : A) → t ≡ true → (if t then x else y) ≡ x
if_true true x y h = refl
if_true false x y h = absurd (cc h)

if_false : {A : Type 0} (t : Bool) (x y : A) → t ≡ false → (if t then x else y) ≡ y
if_false true x y h = absurd (cc h)
if_false false x y h = refl

-- One call of `Evaluate`, at its time.
pub record Call (F : Type 0) : Type 0 where
  pub policy : ModelGroupPolicy
  pub report : PressureReport F
  pub workers : List WorkerInfo
  pub now : ℤ

abbrev pub is_action : RebalancerDecision → Bool
is_action no_action = false
is_action scale_both = true
is_action add_prefill = true
is_action add_decode = true
is_action remove_prefill = true
is_action remove_decode = true

module _ {F : Type 0} (at_most : F → F → Bool) (of_int : ℤ → F) where
  -- The times at which a sequence of calls acts on a group.
  unfoldable pub action_times : Rebalancer → String → List (Call F) → List ℤ
  action_times r group [] = []
  action_times r group (c ∷ cs) =
      let (r', result) = evaluate at_most of_int r c.policy c.report c.workers c.now in
      let later = action_times r' group cs in
      if is_action result.action && eq_str c.policy.name group then c.now ∷ later else later

-- Each time is at least `gap` after the one before it, where that is not the zero time.
abbrev pub Spaced : ℤ → ℤ → List ℤ → Type 0
Spaced gap last [] = Unit
Spaced gap last (t ∷ ts) = ((last ≡ pos 0) ⊎ (gap ≤ℤ (t -ℤ last))) × Spaced gap t ts

cooled :
    (r : Rebalancer) (s : ModelGroupRebalanceState) (now : ℤ)
    → in_cooldown r s now ≡ false
    → (s.last_action_at ≡ pos 0) ⊎ ((r.cooldown_seconds *ℤ second) ≤ℤ (now -ℤ s.last_action_at))
unfolding in_cooldown
cooled r s now h = elim (Bool-cases (eqb_ℤ s.last_action_at (pos 0))) [
  | inl e ↦ inl (eqb_ℤ-true s.last_action_at (pos 0) e)
  | inr e ↦ inr (ltb_ℤ-false (now -ℤ s.last_action_at) (r.cooldown_seconds *ℤ second) (rw e at h))
]

module _ {F : Type 0} (at_most : F → F → Bool) (of_int : ℤ → F) where
  Justified-is_action :
      (r : Rebalancer) (policy : ModelGroupPolicy) (report : PressureReport F) (u p d : ℤ)
      (s : ModelGroupRebalanceState) (now : ℤ) (a : RebalancerDecision)
      → Justified at_most of_int r policy report u p d s now a
      → is_action a ≡ true
  Justified-is_action r policy report u p d s now no_action j = absurd j
  Justified-is_action r policy report u p d s now scale_both j = refl
  Justified-is_action r policy report u p d s now add_prefill j = refl
  Justified-is_action r policy report u p d s now add_decode j = refl
  Justified-is_action r policy report u p d s now remove_prefill j = refl
  Justified-is_action r policy report u p d s now remove_decode j = refl

  evaluate-cooldown :
      (r : Rebalancer) (policy : ModelGroupPolicy) (report : PressureReport F)
      (ws : List WorkerInfo) (now : ℤ)
      → (evaluate at_most of_int r policy report ws now).0.cooldown_seconds ≡ r.cooldown_seconds
  unfolding evaluate
  evaluate-cooldown r policy report [] now = ground arith
  evaluate-cooldown r policy report (w ∷ ws) now = ground arith

  cooled_group :
      (r : Rebalancer) (c : Call F) (group : String)
      → eq_str c.policy.name group ≡ true
      → in_cooldown r (observed at_most of_int r c.policy c.report c.now) c.now ≡ false
      → (last_action r group ≡ pos 0)
        ⊎ ((r.cooldown_seconds *ℤ second) ≤ℤ (c.now -ℤ last_action r group))
  cooled_group r c group hit cool =
      let last : (observed at_most of_int r c.policy c.report c.now).last_action_at
          ≡ last_action r group =
        observe-last c.report.pressure_state c.now (get_state_for r c.policy.name)
        ∙ ap (last_action r) ((eq_iff c.policy.name group).0 hit) in
      subst (λ l. (l ≡ pos 0) ⊎ ((r.cooldown_seconds *ℤ second) ≤ℤ (c.now -ℤ l))) last
        (cooled r (observed at_most of_int r c.policy c.report c.now) c.now cool)

  -- In any sequence of evaluations, from any rebalancer, the times of the actions on one model
  -- group are spaced by the cooldown: each is at least that much after the one before it (the
  -- first after the group's last action), unless that one is at the zero time.
  pub actions-Spaced :
      (r : Rebalancer) (group : String) (calls : List (Call F))
      → Spaced
          (r.cooldown_seconds *ℤ second)
          (last_action r group)
          (action_times at_most of_int r group calls)
  unfolding action_times
  actions-Spaced r group [] = tt
  actions-Spaced r group (c ∷ cs) =
      let x = evaluate at_most of_int r c.policy c.report c.workers c.now in
      let gap = r.cooldown_seconds *ℤ second in
      let times = action_times at_most of_int x.0 group cs in
      let later : Spaced gap (last_action x.0 group) times =
        subst (λ k. Spaced (k *ℤ second) (last_action x.0 group) times)
          (evaluate-cooldown r c.policy c.report c.workers c.now) (actions-Spaced x.0 group cs) in
      elim (evaluate_justified at_most of_int r c.policy c.report c.workers c.now) [
        | waits e k ↦
            if_lem (Spaced gap (last_action r group))
              (is_action x.1.action && eq_str c.policy.name group) (c.now ∷ times) times
              (λ t. absurd (ground (arith, ap is_action e, t)))
              (λ t. subst (λ l. Spaced gap l times) (k group) later)
        | moves on same j cool k ↦
            if_lem (Spaced gap (last_action r group))
              (is_action x.1.action && eq_str c.policy.name group) (c.now ∷ times) times
              (λ t.
                let hit : eq_str c.policy.name group ≡ true = ground (arith, t) in
                (
                  cooled_group r c group hit cool,
                  subst (λ l. Spaced gap l times) (k group ∙ if_true _ _ _ hit) later,
                ))
              (λ t.
                let miss : eq_str c.policy.name group ≡ false = ground (
                  arith,
                  t,
                  Justified-is_action r c.policy c.report (count_of is_unified c.workers)
                      (count_of is_prefill c.workers) (count_of is_decode c.workers)
                      (observed at_most of_int r c.policy c.report c.now) c.now x.1.action j,
                ) in
                subst (λ l. Spaced gap l times) (k group ∙ if_false _ _ _ miss) later)
      ]
