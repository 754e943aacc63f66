-- ===== src/Scheduler/Rebalancer/Evaluation.antt =====
-- internal/scheduler/rebalancer.go: Evaluate as a whole.
use gpu_scheduler.Common.{
  ◌≡◌, refl, ap, ◌∙◌, inl, inr, Bool, true, false, not, ◌&&◌, List, [], ◌∷◌, String, eq_str, eq_iff,
  ℤ, pos, leb_ℤ, eqb_ℤ, eqb_ℤ-true, arith, Bool-cases, if◌then◌else◌,
}
use gpu_scheduler.Common.Dict.{insert, lookup_or-insert}
use gpu_scheduler.ControlPlane.{
  PressureState, normal, prefill_hot, decode_hot, other_pressure, PressureReport, WorkerInfo,
}
use gpu_scheduler.Scheduler.Rebalancer.{
  ModelGroupPolicy, ModelGroupRebalanceState, Rebalancer, RebalancerDecision,
  RebalancerDecisionResult, no_action, scale_both, add_prefill, add_decode, remove_prefill,
  remove_decode, Step, stay, reason_normal, decide, evaluate, in_cooldown, sustained_since, observe,
  get_state_for, count_of, is_unified, is_prefill, is_decode, no_state,
}
use gpu_scheduler.Scheduler.Rebalancer.Laws.{
  Acts, idle, acted, CanSplit, CanAdd, CanRemove, for_unified-Acts, for_hot-Acts, for_normal-Calm,
}

pub if_lem {ℓ κ} :
    {A : Type ℓ} (P : A → Type κ) (t : Bool) (x y : A)
    → (t ≡ true → P x)
    → (t ≡ false → P y)
    → P (if t then x else y)
if_lem P true x y h k = h refl
if_lem P false x y h k = k refl

abbrev pub last_action : Rebalancer → String → ℤ
last_action r group = (get_state_for r group).last_action_at

pub observe-last :
    (pressure : PressureState) (now : ℤ) (s : ModelGroupRebalanceState)
    → (observe pressure now s).last_action_at ≡ s.last_action_at
unfolding observe
observe-last normal now s = refl
observe-last decode_hot now s = refl
observe-last prefill_hot now s = refl
observe-last (other_pressure q) now s = refl

-- The time of the last action is noted for the group it was on.
last-insert :
    (r : Rebalancer) (name group : String) (s : ModelGroupRebalanceState)
    → last_action (record r { model_group_states = insert name s r.model_group_states }) group
      ≡ (if eq_str name group then s.last_action_at else last_action r group)
unfolding get_state_for
last-insert r name group s =
    ap (λ x. x.last_action_at) (lookup_or-insert name group no_state s r.model_group_states)
    ∙ (elim (Bool-cases (eq_str name group)) [ inl e ↦ rw e | inr e ↦ rw e ])

last-kept :
    (r : Rebalancer) (name group : String) (s : ModelGroupRebalanceState)
    → s.last_action_at ≡ last_action r name
    → (if eq_str name group then s.last_action_at else last_action r group) ≡ last_action r group
last-kept r name group s h = elim (Bool-cases (eq_str name group)) [
  | inl e ↦ let same : name ≡ group = (eq_iff name group).0 e in rw e (h ∙ ap (last_action r) same)
  | inr e ↦ rw e
]

module _ {F : Type 0} (at_most : F → F → Bool) (of_int : ℤ → F) where
  -- What an action needs, by the counts of unified, prefill and decode workers.
  abbrev pub Justified :
      Rebalancer
      → ModelGroupPolicy
      → PressureReport F
      → ℤ
      → ℤ
      → ℤ
      → ModelGroupRebalanceState
      → ℤ
      → RebalancerDecision
      → Type 0
  Justified r policy report u p d s now no_action = ⊥
  Justified r policy report u p d s now scale_both =
      (u ≡ pos 1) × (p ≡ pos 0) × (d ≡ pos 0) × CanSplit r policy report.pressure_state s now
  Justified r policy report u p d s now add_decode =
      (report.pressure_state ≡ decode_hot)
      × CanAdd r (at_most report.itl_p95 (of_int policy.itl_hot_ms))
          (leb_ℤ policy.max_decode_workers d) (sustained_since r s.decode_hot_since now)
  Justified r policy report u p d s now add_prefill =
      (report.pressure_state ≡ prefill_hot)
      × CanAdd r (at_most report.ttft_p95 (of_int policy.ttft_hot_ms))
          (leb_ℤ policy.max_prefill_workers p) (sustained_since r s.prefill_hot_since now)
  Justified r policy report u p d s now remove_decode =
      (report.pressure_state ≡ normal) × CanRemove r d s now
  Justified r policy report u p d s now remove_prefill =
      (report.pressure_state ≡ normal) × CanRemove r p s now

  Acts-map :
      (r : Rebalancer) (s : ModelGroupRebalanceState) (now : ℤ) (step : Step)
      (chosen : RebalancerDecision) (C D : Type 0)
      → (C → D)
      → Acts r s now step chosen C
      → Acts r s now step chosen D
  Acts-map r s now step chosen C D f (idle e k) = idle e k
  Acts-map r s now step chosen C D f (acted c e t k) = acted (f c) e t k

  abbrev Decided :
      Rebalancer
      → ModelGroupPolicy
      → PressureReport F
      → ℤ
      → ℤ
      → ℤ
      → ModelGroupRebalanceState
      → ℤ
      → Step
      → Type 0
  Decided r policy report u p d s now step =
      (a : RebalancerDecision) × Acts r s now step a (Justified r policy report u p d s now a)

  if-Decided :
      (r : Rebalancer) (policy : ModelGroupPolicy) (report : PressureReport F) (u p d : ℤ)
      (s : ModelGroupRebalanceState) (now : ℤ) (t : Bool) (x y : Step)
      → (t ≡ true → Decided r policy report u p d s now x)
      → Decided r policy report u p d s now y
      → Decided r policy report u p d s now (if t then x else y)
  if-Decided r policy report u p d s now true x y h k = h refl
  if-Decided r policy report u p d s now false x y h k = k

  by_pressure :
      (r : Rebalancer) (policy : ModelGroupPolicy) (report : PressureReport F) (u p d : ℤ)
      (s : ModelGroupRebalanceState) (now : ℤ) (pressure : PressureState) (hot hot' calm : Step)
      → (pressure ≡ decode_hot → Decided r policy report u p d s now hot)
      → (pressure ≡ prefill_hot → Decided r policy report u p d s now hot')
      → (pressure ≡ normal → Decided r policy report u p d s now calm)
      → Decided r policy report u p d s now (elim pressure [
        | decode_hot ↦ hot
        | prefill_hot ↦ hot'
        | normal ↦ calm
        | other_pressure q ↦ stay r s reason_normal
      ])
  by_pressure r policy report u p d s now normal hot hot' calm f g h = h refl
  by_pressure r policy report u p d s now decode_hot hot hot' calm f g h = f refl
  by_pressure r policy report u p d s now prefill_hot hot hot' calm f g h = g refl
  by_pressure r policy report u p d s now (other_pressure q) hot hot' calm f g h =
      (no_action, idle refl refl)

  decide-Decided :
      (r : Rebalancer) (policy : ModelGroupPolicy) (report : PressureReport F) (u p d : ℤ)
      (s : ModelGroupRebalanceState) (now : ℤ)
      → Decided r policy report u p d s now (decide at_most of_int r policy report u p d s now)
  unfolding decide
  decide-Decided r policy report u p d s now =
      if-Decided r policy report u p d s now
        (eqb_ℤ u (pos 1) && (eqb_ℤ p (pos 0) && eqb_ℤ d (pos 0))) _ _
        (λ t. (
          scale_both,
          Acts-map r s now _ scale_both _ _
              (λ c. (
                eqb_ℤ-true u (pos 1) (ground (arith, t)),
                eqb_ℤ-true p (pos 0) (ground (arith, t)),
                eqb_ℤ-true d (pos 0) (ground (arith, t)),
                c,
              ))
              (for_unified-Acts r policy report.pressure_state s now),
        ))
        (by_pressure r policy report u p d s now report.pressure_state _ _ _
          (λ e. (
            add_decode,
            Acts-map r s now _ add_decode _ _ (λ c. (e, c)) (for_hot-Acts r _ _ _ _ s now _ _),
          ))
          (λ e. (
            add_prefill,
            Acts-map r s now _ add_prefill _ _ (λ c. (e, c)) (for_hot-Acts r _ _ _ _ s now _ _),
          ))
          (λ e. elim (for_normal-Calm r p d s now) [
            | inl a ↦ (remove_decode, Acts-map r s now _ remove_decode _ _ (λ c. (e, c)) a)
            | inr a ↦ (remove_prefill, Acts-map r s now _ remove_prefill _ _ (λ c. (e, c)) a)
          ]))

  -- The state of the group once its timers are set.
  abbrev pub observed :
      Rebalancer → ModelGroupPolicy → PressureReport F → ℤ → ModelGroupRebalanceState
  observed r policy report now = observe report.pressure_state now (get_state_for r policy.name)

  -- What one evaluation does to the last actions: nothing, or a justified action at `now`.
  pub data Evaluated (r : Rebalancer) (policy : ModelGroupPolicy) (report : PressureReport F)
      (ws : List WorkerInfo) (now : ℤ) (x : Rebalancer × RebalancerDecisionResult) : Type 0 where
    waits :
        x.1.action ≡ no_action
        → ((group : String) → last_action x.0 group ≡ last_action r group)
        → Evaluated r policy report ws now x
    moves :
        r.enabled ≡ true
        → report.model_group ≡ policy.name
        → Justified r policy report
            (count_of is_unified ws)
            (count_of is_prefill ws)
            (count_of is_decode ws)
            (observed r policy report now)
            now
            x.1.action
        → in_cooldown r (observed r policy report now) now ≡ false
        → ((group : String)
            → last_action x.0 group
              ≡ (if eq_str policy.name group then now else last_action r group))
        → Evaluated r policy report ws now x

  -- One evaluation, on any rebalancer, policy, report, workers and time: it takes no action and
  -- leaves every group's time of the last action; or it is enabled, the report is of the policy's
  -- group, the action it takes is justified, the group is not in its cooldown, and only that
  -- group's time of the last action changes, to `now`.
  pub evaluate_justified :
      (r : Rebalancer) (policy : ModelGroupPolicy) (report : PressureReport F)
      (ws : List WorkerInfo) (now : ℤ)
      → Evaluated r policy report ws now (evaluate at_most of_int r policy report ws now)
  unfolding evaluate
  evaluate_justified r policy report [] now =
      if_lem (Evaluated r policy report [] now) (not r.enabled) _ _ (λ _. waits refl (λ g. refl))
        (λ _.
          if_lem (Evaluated r policy report [] now) (not (eq_str report.model_group policy.name)) _
            _ (λ _. waits refl (λ g. refl)) (λ _. waits refl (λ g. refl)))
  evaluate_justified r policy report (w ∷ ws) now =
      let s = observed r policy report now in
      let kept = observe-last report.pressure_state now (get_state_for r policy.name) in
      if_lem (Evaluated r policy report (w ∷ ws) now) (not r.enabled) _ _
        (λ _. waits refl (λ g. refl))
        (λ on.
          if_lem (Evaluated r policy report (w ∷ ws) now)
            (not (eq_str report.model_group policy.name)) _ _ (λ _. waits refl (λ g. refl))
            (λ same.
              let u = count_of is_unified (w ∷ ws) in
              let p = count_of is_prefill (w ∷ ws) in
              let d = count_of is_decode (w ∷ ws) in
              let s' = (decide at_most of_int r policy report u p d s now).0 in
              let (a, step) = decide-Decided r policy report u p d s now in
              elim step [
                | idle e k ↦ waits e (λ g.
                    last-insert r policy.name g s'
                    ∙ last-kept r policy.name g s' (ap (λ x. x.last_action_at) k ∙ kept))
                | acted c e t k ↦
                    moves (ground (arith, on))
                      (ground (arith, same, eq_iff report.model_group policy.name)) (rw e c) t
                      (λ g.
                        last-insert r policy.name g s'
                        ∙ ap (λ x. if eq_str policy.name g then x else last_action r g)
                            (ap (λ x. x.last_action_at) k))
              ]))
