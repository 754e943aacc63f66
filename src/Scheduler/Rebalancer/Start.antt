-- ===== src/Scheduler/Rebalancer/Start.antt =====
-- internal/scheduler/rebalancer.go: NewRebalancer, and the rebalancer that a checked configuration
-- starts.
use gpu_scheduler.Common.{
  ◌≡◌, refl, ap, ◌∙◌, subst, ◌⊎◌, inl, inr, Bool, true, false, List, [], ◌∷◌, String, eq_str, ℤ,
  pos, ◌*ℤ◌, ◌<ℤ◌, arith, Bool-cases, if◌then◌else◌, none,
}
use gpu_scheduler.Common.Dict.{Dict, lookup, insert, lookup_or, lookup_or-insert}
use gpu_scheduler.ControlPlane.{WorkerInfo}
use gpu_scheduler.Config.{Config, ModelGroups, validate}
use gpu_scheduler.Config.Valid.{validate_iff}
use gpu_scheduler.Scheduler.Rebalancer.{
  ModelGroupPolicy, ModelGroupRebalanceState, Rebalancer, no_state, second, get_state_for, evaluate,
}
use gpu_scheduler.Scheduler.Rebalancer.Evaluation.{last_action, evaluate_justified, waits, moves}
use gpu_scheduler.Scheduler.Rebalancer.Pacing.{
  Call, is_action, action_times, Spaced, actions-Spaced,
}

unfoldable pub policy_of : ModelGroups → ModelGroupPolicy
policy_of g = record {
  name = g.name;
  ttft_hot_ms = g.ttft_hot_ms;
  itl_hot_ms = g.itl_hot_ms;
  max_prefill_workers = g.max_prefill_workers;
  max_decode_workers = g.max_decode_workers;
  execution_script = g.execution_script;
}

unfoldable pub policies_of : List ModelGroups → List ModelGroupPolicy
policies_of [] = []
policies_of (g ∷ gs) = policy_of g ∷ policies_of gs

unfoldable pub states_of :
    List ModelGroups → Dict ModelGroupRebalanceState → Dict ModelGroupRebalanceState
states_of [] states = states
states_of (g ∷ gs) states = states_of gs (insert g.name no_state states)

unfoldable pub new_rebalancer : Config → Rebalancer
new_rebalancer c = record {
  enabled = c.rebalancing.enabled;
  dry_run = c.rebalancing.dry_run;
  tick_interval_seconds = c.rebalancing.tick_interval_seconds;
  sustain_window_seconds = c.rebalancing.sustain_window_seconds;
  cooldown_seconds = c.rebalancing.cooldown_seconds;
  allow_scale_up = c.rebalancing.allow_scale_up;
  allow_scale_down = c.rebalancing.allow_scale_down;
  drain_timeout_seconds = c.rebalancing.drain_timeout_seconds;
  model_group_policies = policies_of c.rebalancing.model_groups;
  model_group_states = states_of c.rebalancing.model_groups [];
}

same_if : {A : Type 0} (b : Bool) (x : A) → (if b then x else x) ≡ x
same_if true x = refl
same_if false x = refl

-- No group has a timer or an action.
states-fresh :
    (group : String) (gs : List ModelGroups) (states : Dict ModelGroupRebalanceState)
    → lookup_or no_state group states ≡ no_state
    → lookup_or no_state group (states_of gs states) ≡ no_state
unfolding states_of
states-fresh group [] states h = h
states-fresh group (g ∷ gs) states h = states-fresh group gs (insert g.name no_state states) (
    lookup_or-insert g.name group no_state no_state states
    ∙ (ap (λ s. if eq_str g.name group then no_state else s) h
        ∙ same_if (eq_str g.name group) no_state))

first_action : (c : Config) (group : String) → last_action (new_rebalancer c) group ≡ pos 0
unfolding new_rebalancer get_state_for lookup
first_action c group =
    ap (λ (s : ModelGroupRebalanceState). s.last_action_at)
      (states-fresh group c.rebalancing.model_groups [] refl)

module _ {F : Type 0} (at_most : F → F → Bool) (of_int : ℤ → F) where
  evaluate-enabled :
      (r : Rebalancer) (c : Call F)
      → (evaluate at_most of_int r c.policy c.report c.workers c.now).0.enabled ≡ r.enabled
  unfolding evaluate
  evaluate-enabled r c = go c.workers
    where
      go :
          (ws : List WorkerInfo)
          → (evaluate at_most of_int r c.policy c.report ws c.now).0.enabled ≡ r.enabled
      go [] = ground arith
      go (w ∷ ws) = ground arith

  -- A rebalancer that is off never acts.
  off_still :
      (r : Rebalancer) (group : String) (calls : List (Call F))
      → r.enabled ≡ false
      → action_times at_most of_int r group calls ≡ []
  unfolding action_times
  off_still r group [] off = refl
  off_still r group (c ∷ cs) off =
      let x = evaluate at_most of_int r c.policy c.report c.workers c.now in
      let later = off_still x.0 group cs (evaluate-enabled r c ∙ off) in
      elim (evaluate_justified at_most of_int r c.policy c.report c.workers c.now) [
        | waits e k ↦ rw (ap is_action e) later
        | moves on same j cool k ↦ absurd (cc (on, off))
      ]

  -- The rebalancer that a configuration starts which Validate accepts, over any sequence of
  -- evaluations: if it is off it never acts, and if it is on the cooldown is positive and the
  -- actions on a model group are spaced by it, with none to wait for before the first.
  pub started-Spaced :
      (trim : String → String) (c : Config) (group : String) (calls : List (Call F))
      → validate trim c ≡ none
      → ((c.rebalancing.enabled ≡ false)
          × (action_times at_most of_int (new_rebalancer c) group calls ≡ []))
        ⊎ ((c.rebalancing.enabled ≡ true)
            × (pos 0 <ℤ c.rebalancing.cooldown_seconds)
            × Spaced
                (c.rebalancing.cooldown_seconds *ℤ second)
                (pos 0)
                (action_times at_most of_int (new_rebalancer c) group calls))
  unfolding new_rebalancer
  started-Spaced trim c group calls valid =
      let (n, (q, (w, (p, (m, (pol, (lev, (form, (proxy, balance))))))))) =
        (validate_iff trim c).0 valid in
      elim (Bool-cases c.rebalancing.enabled) [
        | inl on ↦
            let (tick, (sustain, (cooldown, others))) = balance on in
            inr (
              on,
              cooldown,
              subst
                  (λ l.
                    Spaced (c.rebalancing.cooldown_seconds *ℤ second) l
                      (action_times at_most of_int (new_rebalancer c) group calls))
                  (first_action c group)
                  (actions-Spaced at_most of_int (new_rebalancer c) group calls),
            )
        | inr off ↦ inl (off, off_still (new_rebalancer c) group calls off)
      ]
