-- ===== src/Scheduler/Pod/Intent.antt =====
-- internal/scheduler/helpers.go: GetDisaggPodIntent, whether a pod's annotations ask for a role in
-- disaggregated inference that it may have. The texts of `Reason` are constructors.
use gpu_scheduler.Common.{
  ◌≡◌, ◌≢◌, ◌↔◌, ◌⊎◌, inl, inr, refl, eq_iff, Bool-cases, Bool, true, false, not, ◌&&◌, String,
  eq_str, arith, if◌then◌else◌,
}
use gpu_scheduler.Types.{InferenceRole, prefill, decode, unified, unknown}
use gpu_scheduler.Scheduler.Pod.{
  Pod, get_pod_model_group, get_pod_inference_role, is_shared_gpu_pod,
}

pub data IntentReason : Type 0 where
  no_reason missing_model_group shared_gpu group_without_role : IntentReason

pub record DisaggPodIntent : Type 0 where
  pub role : InferenceRole
  pub model_group : String
  pub is_disagg : Bool
  pub is_valid : Bool
  pub reason : IntentReason

-- The case of a prefill or a decode pod: the later of two reasons stays.
unfoldable pub disagg_intent : InferenceRole → String → Bool → DisaggPodIntent
disagg_intent role group shared = record {
  role = role;
  model_group = group;
  is_disagg = true;
  is_valid = not (eq_str group "") && not shared;
  reason =
      if shared then shared_gpu else if eq_str group "" then missing_model_group else no_reason;
}

unfoldable pub intent_of : InferenceRole → String → Bool → DisaggPodIntent
intent_of prefill group shared = disagg_intent prefill group shared
intent_of decode group shared = disagg_intent decode group shared
intent_of unified group shared = record {
  role = unified;
  model_group = group;
  is_disagg = false;
  is_valid = true;
  reason = no_reason;
}
intent_of unknown group shared = record {
  role = unknown;
  model_group = group;
  is_disagg = false;
  is_valid = eq_str group "";
  reason = if eq_str group "" then no_reason else group_without_role;
}

unfoldable pub get_disagg_pod_intent : {Q : Type 0} → (String → String) → Pod Q → DisaggPodIntent
get_disagg_pod_intent trim pod =
    intent_of (get_pod_inference_role pod) (get_pod_model_group trim pod) (is_shared_gpu_pod pod)

intent_of-reason :
    (role : InferenceRole) (group : String) (shared : Bool)
    → ((intent_of role group shared).is_valid ≡ true)
      ↔ ((intent_of role group shared).reason ≡ no_reason)
unfolding intent_of disagg_intent
intent_of-reason prefill group shared = ground arith
intent_of-reason decode group shared = ground arith
intent_of-reason unified group shared = ground arith
intent_of-reason unknown group shared = ground arith

-- A role in disaggregated inference.
abbrev pub IsDisaggRole : InferenceRole → Type 0
IsDisaggRole role = (role ≡ prefill) ⊎ (role ≡ decode)

-- What a pod may ask for: a disaggregated role with a model group and a GPU of its own, the
-- unified role, or no role and no group.
abbrev pub MayAsk : InferenceRole → String → Bool → Type 0
MayAsk prefill group shared = (group ≢ "") × (shared ≡ false)
MayAsk decode group shared = (group ≢ "") × (shared ≡ false)
MayAsk unified group shared = Unit
MayAsk unknown group shared = group ≡ ""

not_empty_lem : (group : String) → (group ≢ "") ↔ (eq_str group "" ≡ false)
not_empty_lem group = (
  λ h. elim (Bool-cases (eq_str group "")) [
    | inl e ↦ absurd (h ((eq_iff group "").0 e))
    | inr e ↦ e
  ],
  λ h e. cc ((eq_iff group "").1 e, h),
)

own_group :
    (group : String) (shared : Bool)
    → ((not (eq_str group "") && not shared) ≡ true) ↔ ((group ≢ "") × (shared ≡ false))
own_group group shared = (
  λ h. ((not_empty_lem group).1 (ground (arith, h)), ground (arith, h)),
  λ h. ground (arith, (not_empty_lem group).0 h.0, h.1),
)

intent_of-MayAsk :
    (role : InferenceRole) (group : String) (shared : Bool)
    → ((intent_of role group shared).is_valid ≡ true) ↔ MayAsk role group shared
unfolding intent_of disagg_intent
intent_of-MayAsk prefill group shared = own_group group shared
intent_of-MayAsk decode group shared = own_group group shared
intent_of-MayAsk unified group shared = (λ _. tt, λ _. refl)
intent_of-MayAsk unknown group shared = eq_iff group ""

intent_of-IsDisaggRole :
    (role : InferenceRole) (group : String) (shared : Bool)
    → ((intent_of role group shared).is_disagg ≡ true) ↔ IsDisaggRole role
unfolding intent_of disagg_intent
intent_of-IsDisaggRole prefill group shared = (λ _. inl refl, λ _. refl)
intent_of-IsDisaggRole decode group shared = (λ _. inr refl, λ _. refl)
intent_of-IsDisaggRole unified group shared = (λ h. absurd (cc h), λ h. absurd (neither h))
  where
    neither : IsDisaggRole unified → ⊥
    neither (inl e) = cc e
    neither (inr e) = cc e
intent_of-IsDisaggRole unknown group shared = (λ h. absurd (cc h), λ h. absurd (neither h))
  where
    neither : IsDisaggRole unknown → ⊥
    neither (inl e) = cc e
    neither (inr e) = cc e

-- The intent of any pod, with any `strings.TrimSpace`: it is disaggregated exactly if its role is
-- prefill or decode; it is valid exactly if the pod may ask for it, which for those two roles needs
-- a model group and no sharing, and with no role needs no model group; and it is valid exactly if
-- it gives no reason against it.
pub get_disagg_pod_intent_lem :
    {Q : Type 0} (trim : String → String) (pod : Pod Q)
    → (((get_disagg_pod_intent trim pod).is_disagg ≡ true)
        ↔ IsDisaggRole (get_pod_inference_role pod))
      × (((get_disagg_pod_intent trim pod).is_valid ≡ true)
          ↔ MayAsk
              (get_pod_inference_role pod)
              (get_pod_model_group trim pod)
              (is_shared_gpu_pod pod))
      × (((get_disagg_pod_intent trim pod).is_valid ≡ true)
          ↔ ((get_disagg_pod_intent trim pod).reason ≡ no_reason))
unfolding get_disagg_pod_intent
get_disagg_pod_intent_lem trim pod =
    let role = get_pod_inference_role pod in
    let group = get_pod_model_group trim pod in
    let shared = is_shared_gpu_pod pod in
    (
      intent_of-IsDisaggRole role group shared,
      intent_of-MayAsk role group shared,
      intent_of-reason role group shared,
    )
