-- ===== src/Config/Valid.antt =====
-- internal/config/config.go: what a configuration that passes Validate is like.
use gpu_scheduler.Common.{
  ◌≡◌, ◌≢◌, ◌↔◌, ◌⊎◌, inl, inr, refl, Bool, true, false, not, ◌&&◌, Option, none, some, List, [],
  ◌∷◌, map, String, eq_str, eq_iff, ℤ, pos, ◌+ℤ◌, ◌≤ℤ◌, ◌<ℤ◌, ltb_ℤ, leb_ℤ, length, All, All-map,
  Bool-cases, arith,
}
use gpu_scheduler.Scheduler.Pod.{WorkflowTypeConfig, WorkflowConfig}
use gpu_scheduler.Config.{
  no_scheduler_name, bad_queue_size, bad_port, bad_metrics_port, bad_policy, bad_log_level,
  bad_log_format, bad_tick, bad_sustain, bad_cooldown, bad_drain_timeout, no_model_groups,
  no_group_name, repeated_group, bad_ttft, bad_itl, bad_prefill_workers, bad_decode_workers,
  no_workflow_name, bad_workflow_priority, bad_default_priority, no_workflow_types,
  no_scheduler_url, bad_proxy_port, Config, ModelGroups, RebalancingConfig, ProxyConfig,
  ConfigError, refuse, or_then, when, outside, not_positive, validate_types, validate_workflows,
  validate_proxy, seen_name, validate_groups, validate_rebalancing, validate, is_policy, is_level,
  is_format,
}

-- A check passes exactly if its test fails and what comes after passes.
refuse_iff :
    (t : Bool) (e : ConfigError) (rest : Option ConfigError)
    → (refuse t e rest ≡ none) ↔ ((t ≡ false) × (rest ≡ none))
refuse_iff true e rest = (λ h. absurd (cc h), λ h. absurd (cc h.0))
refuse_iff false e rest = (λ h. (refl, h), λ h. h.1)

or_then_iff : (x rest : Option ConfigError) → (or_then x rest ≡ none) ↔ ((x ≡ none) × (rest ≡ none))
or_then_iff none rest = (λ h. (refl, h), λ h. h.1)
or_then_iff (some e) rest = (λ h. absurd (cc h), λ h. absurd (cc h.0))

when_iff : (b : Bool) (x : Option ConfigError) → (when b x ≡ none) ↔ (b ≡ true → x ≡ none)
when_iff true x = (λ h _. h, λ h. h refl)
when_iff false x = (λ h e. absurd (cc e), λ h. refl)

outside_iff : (low high x : ℤ) → (outside low high x ≡ false) ↔ ((low ≤ℤ x) × (x ≤ℤ high))
outside_iff low high x = ground arith

not_positive_iff : (x : ℤ) → (not_positive x ≡ false) ↔ (pos 0 <ℤ x)
not_positive_iff x = ground arith

named_iff : (s t : String) → (eq_str s t ≡ false) ↔ (s ≢ t)
named_iff s t = (
  λ h e. cc ((eq_iff s t).1 e, h),
  λ h. elim (Bool-cases (eq_str s t)) [ inl e ↦ absurd (h ((eq_iff s t).0 e)) | inr e ↦ e ],
)

-- A check, by what its test and the rest stand for.
checked :
    {P R : Type 0} {t : Bool} {rest : Option ConfigError}
    → (e : ConfigError) → (t ≡ false) ↔ P
    → (rest ≡ none) ↔ R
    → (refuse t e rest ≡ none) ↔ (P × R)
checked {P} {R} {t} {rest} e p r = (
  λ h. let (a, b) = (refuse_iff t e rest).0 h in (p.0 a, r.0 b),
  λ h. (refuse_iff t e rest).1 (p.1 h.0, r.1 h.1),
)

-- A block of checks, and what comes after.
both :
    {P R : Type 0} {x rest : Option ConfigError}
    → (x ≡ none) ↔ P
    → (rest ≡ none) ↔ R
    → (or_then x rest ≡ none) ↔ (P × R)
both {P} {R} {x} {rest} p r = (
  λ h. let (a, b) = (or_then_iff x rest).0 h in (p.0 a, r.0 b),
  λ h. (or_then_iff x rest).1 (p.1 h.0, r.1 h.1),
)

-- Checks of a part that may be off.
guarded :
    {P : Type 0} {x : Option ConfigError}
    → (b : Bool) → (x ≡ none) ↔ P
    → (when b x ≡ none) ↔ (b ≡ true → P)
guarded {P} {x} b p = (λ h e. p.0 ((when_iff b x).0 h e), λ h. (when_iff b x).1 (λ e. p.1 (h e)))

abbrev pub Between : ℤ → ℤ → ℤ → Type 0
Between low high x = (low ≤ℤ x) × (x ≤ℤ high)

abbrev pub ValidType : WorkflowTypeConfig → Type 0
ValidType wf = (wf.name ≢ "") × Between (pos 0) (pos 100) wf.priority

types_iff :
    (i : ℤ) (wfs : List WorkflowTypeConfig) → (validate_types i wfs ≡ none) ↔ All ValidType wfs
unfolding validate_types
types_iff i [] = (λ _. tt, λ _. refl)
types_iff i (wf ∷ wfs) =
    let all = checked (no_workflow_name i) (named_iff wf.name "") (
      checked (bad_workflow_priority wf.name) (outside_iff (pos 0) (pos 100) wf.priority)
        (types_iff (i +ℤ pos 1) wfs)) in
    (λ h. let (n, (p, rest)) = all.0 h in ((n, p), rest), λ h. all.1 (h.0.0, (h.0.1, h.1)))

abbrev pub ValidWorkflows : WorkflowConfig → Type 0
ValidWorkflows w =
    Between (pos 0) (pos 100) w.default_priority × ((w.types ≢ []) × All ValidType w.types)

some_types_iff :
    (wfs : List WorkflowTypeConfig) → (ltb_ℤ (pos (length wfs)) (pos 1) ≡ false) ↔ (wfs ≢ [])
some_types_iff [] = (λ h. absurd (ground arith), λ h. absurd (h refl))
some_types_iff (wf ∷ wfs) = (λ _ e. cc e, λ _. ground arith)

workflows_iff : (w : WorkflowConfig) → (validate_workflows w ≡ none) ↔ ValidWorkflows w
unfolding validate_workflows
workflows_iff w =
    checked bad_default_priority (outside_iff (pos 0) (pos 100) w.default_priority)
      (checked no_workflow_types (some_types_iff w.types) (types_iff (pos 0) w.types))

abbrev pub ValidProxy : ProxyConfig → Type 0
ValidProxy p = (p.scheduler_url ≢ "") × Between (pos 1) (pos 65535) p.port

proxy_iff : (p : ProxyConfig) → (validate_proxy p ≡ none) ↔ ValidProxy p
unfolding validate_proxy
proxy_iff p =
    let all = checked no_scheduler_url (named_iff p.scheduler_url "") (
      checked {rest = none} bad_proxy_port (outside_iff (pos 1) (pos 65535) p.port)
        ((λ _. tt {0}, λ _. refl))) in
    (λ h. let (u, (b, t)) = all.0 h in (u, b), λ h. all.1 (h.0, (h.1, tt)))

-- No name comes twice.
abbrev pub Distinct : List String → Type 0
Distinct [] = Unit
Distinct (n ∷ ns) = All (λ m. n ≢ m) ns × Distinct ns

-- What the loop over the groups tests of their names.
abbrev Fresh : List String → List String → Type 0
Fresh seen [] = Unit
Fresh seen (n ∷ ns) = (seen_name n seen ≡ false) × Fresh (n ∷ seen) ns

seen_iff :
    (s n : String) (seen : List String)
    → (seen_name n (s ∷ seen) ≡ false) ↔ ((s ≢ n) × (seen_name n seen ≡ false))
seen_iff s n seen = (
  λ h. ((named_iff s n).0 (ground (arith, h)), ground (arith, h)),
  λ h. ground (arith, (named_iff s n).1 h.0, h.1),
)

Fresh-Distinct :
    (seen ns : List String) → Fresh seen ns → All (λ n. seen_name n seen ≡ false) ns × Distinct ns
Fresh-Distinct seen [] h = (tt, tt)
Fresh-Distinct seen (n ∷ ns) h =
    let (later, distinct) = Fresh-Distinct (n ∷ seen) ns h.1 in
    (
      (
        h.0,
        All-map (λ m. seen_name m (n ∷ seen) ≡ false) (λ m. seen_name m seen ≡ false) ns
            (λ m k. ((seen_iff n m seen).0 k).1) later,
      ),
      (
        All-map (λ m. seen_name m (n ∷ seen) ≡ false) (λ m. n ≢ m) ns
            (λ m k. ((seen_iff n m seen).0 k).0) later,
        distinct,
      ),
    )

Distinct-Fresh :
    (seen ns : List String) → All (λ n. seen_name n seen ≡ false) ns → Distinct ns → Fresh seen ns
Distinct-Fresh seen [] h d = tt
Distinct-Fresh seen (n ∷ ns) h d = (h.0, Distinct-Fresh (n ∷ seen) ns (join ns h.1 d.0) d.1)
  where
    join :
        (ms : List String)
        → All (λ m. seen_name m seen ≡ false) ms
        → All (λ m. n ≢ m) ms
        → All (λ m. seen_name m (n ∷ seen) ≡ false) ms
    join [] a b = tt
    join (m ∷ ms) a b = ((seen_iff n m seen).1 (b.0, a.0), join ms a.1 b.1)

abbrev pub ValidGroup : (String → String) → ModelGroups → Type 0
ValidGroup trim g =
    (trim g.name ≢ "")
    × ((pos 0 <ℤ g.ttft_hot_ms)
        × ((pos 0 <ℤ g.itl_hot_ms)
            × ((pos 0 <ℤ g.max_prefill_workers) × (pos 0 <ℤ g.max_decode_workers))))

abbrev pub names_of : (String → String) → List ModelGroups → List String
names_of trim gs = map (λ g. trim g.name) gs

groups-Fresh :
    (trim : String → String) (i : ℤ) (seen : List String) (gs : List ModelGroups)
    → (validate_groups trim i seen gs ≡ none)
      ↔ (All (ValidGroup trim) gs × Fresh seen (names_of trim gs))
unfolding validate_groups
groups-Fresh trim i seen [] = (λ _. (tt, tt), λ _. refl)
groups-Fresh trim i seen (g ∷ gs) =
    let name = trim g.name in
    let all = checked (no_group_name i) (named_iff name "") (
      checked (repeated_group i name) ((λ (h : seen_name name seen ≡ false). h, λ h. h)) (
        checked (bad_ttft i) (not_positive_iff g.ttft_hot_ms) (
          checked (bad_itl i) (not_positive_iff g.itl_hot_ms) (
            checked (bad_prefill_workers i) (not_positive_iff g.max_prefill_workers) (
              checked (bad_decode_workers i) (not_positive_iff g.max_decode_workers)
                (groups-Fresh trim (i +ℤ pos 1) (name ∷ seen) gs)))))) in
    (
      λ h.
          let (n, (f, (a, (b, (c, (d, (rest, fresh))))))) = all.0 h in
          (((n, (a, (b, (c, d)))), rest), (f, fresh)),
      λ h.
          let (((n, (a, (b, (c, d)))), rest), (f, fresh)) = h in
          all.1 (n, (f, (a, (b, (c, (d, (rest, fresh))))))),
    )

groups_iff :
    (trim : String → String) (gs : List ModelGroups)
    → (validate_groups trim (pos 0) [] gs ≡ none)
      ↔ (All (ValidGroup trim) gs × Distinct (names_of trim gs))
groups_iff trim gs = (
  λ h.
      let (valid, fresh) = (groups-Fresh trim (pos 0) [] gs).0 h in
      (valid, (Fresh-Distinct [] (names_of trim gs) fresh).1),
  λ h.
      (groups-Fresh trim (pos 0) [] gs).1
        (h.0, Distinct-Fresh [] (names_of trim gs) (unseen (names_of trim gs)) h.1),
)
  where
    unseen : (ns : List String) → All (λ n. seen_name n [] ≡ false) ns
    unseen [] = tt
    unseen (n ∷ ns) = (refl, unseen ns)

abbrev pub ValidRebalancing : (String → String) → RebalancingConfig → Type 0
ValidRebalancing trim r =
    (pos 0 <ℤ r.tick_interval_seconds)
    × ((pos 0 <ℤ r.sustain_window_seconds)
        × ((pos 0 <ℤ r.cooldown_seconds)
            × ((r.allow_scale_down ≡ true → pos 0 <ℤ r.drain_timeout_seconds)
                × ((r.model_groups ≢ [])
                    × (All (ValidGroup trim) r.model_groups
                        × Distinct (names_of trim r.model_groups))))))

drain_iff : (down : Bool) (x : ℤ) → ((down && not_positive x) ≡ false) ↔ (down ≡ true → pos 0 <ℤ x)
drain_iff true x = (λ h _. (not_positive_iff x).0 h, λ h. (not_positive_iff x).1 (h refl))
drain_iff false x = (λ _ e. absurd (cc e), λ _. refl)

some_groups_iff : (gs : List ModelGroups) → (leb_ℤ (pos (length gs)) (pos 0) ≡ false) ↔ (gs ≢ [])
some_groups_iff [] = (λ h. absurd (ground arith), λ h. absurd (h refl))
some_groups_iff (g ∷ gs) = (λ _ e. cc e, λ _. ground arith)

rebalancing_iff :
    (trim : String → String) (r : RebalancingConfig)
    → (validate_rebalancing trim r ≡ none) ↔ (r.enabled ≡ true → ValidRebalancing trim r)
unfolding validate_rebalancing
rebalancing_iff trim r = guarded r.enabled (
    checked bad_tick (not_positive_iff r.tick_interval_seconds) (
      checked bad_sustain (not_positive_iff r.sustain_window_seconds) (
        checked bad_cooldown (not_positive_iff r.cooldown_seconds) (
          checked bad_drain_timeout (drain_iff r.allow_scale_down r.drain_timeout_seconds) (
            checked no_model_groups (some_groups_iff r.model_groups)
              (groups_iff trim r.model_groups))))))

-- One of some words.
abbrev pub OneOf : List String → String → Type 0
OneOf [] s = ⊥
OneOf (w ∷ ws) s = (s ≡ w) ⊎ OneOf ws s

-- A configuration that the program can start with.
abbrev pub ValidConfig : (String → String) → Config → Type 0
ValidConfig trim c =
    (c.scheduler.name ≢ "")
    × ((pos 0 <ℤ c.queue.max_size)
        × ((c.workflows.enabled ≡ true → ValidWorkflows c.workflows)
            × (Between (pos 1) (pos 65535) c.scheduler.port
                × (Between (pos 1) (pos 65535) c.scheduler.metrics_port
                    × (OneOf ("fifo" ∷ "binpack" ∷ []) c.queue.default_policy
                        × (OneOf ("debug" ∷ "info" ∷ "warn" ∷ "error" ∷ []) c.logging.level
                            × (OneOf ("json" ∷ "text" ∷ []) c.logging.format
                                × ((c.proxy.enabled ≡ true → ValidProxy c.proxy)
                                    × (c.rebalancing.enabled ≡ true
                                        → ValidRebalancing trim c.rebalancing)))))))))

policy_iff : (s : String) → (not (is_policy s) ≡ false) ↔ OneOf ("fifo" ∷ "binpack" ∷ []) s
policy_iff s = ground (arith, eq_iff s "fifo", eq_iff s "binpack")

format_iff : (s : String) → (not (is_format s) ≡ false) ↔ OneOf ("json" ∷ "text" ∷ []) s
format_iff s = ground (arith, eq_iff s "json", eq_iff s "text")

level_iff :
    (s : String) → (not (is_level s) ≡ false) ↔ OneOf ("debug" ∷ "info" ∷ "warn" ∷ "error" ∷ []) s
level_iff s = ground (arith, eq_iff s "debug", eq_iff s "info", eq_iff s "warn", eq_iff s "error")

-- Validate accepts a configuration exactly if it is valid: the required texts are there, the
-- numbers are positive or within their bounds, the words are known ones, and where a part is
-- enabled, that part is valid, its lists not empty and the trimmed names of model groups distinct.
pub validate_iff :
    (trim : String → String) (c : Config) → (validate trim c ≡ none) ↔ ValidConfig trim c
unfolding validate
validate_iff trim c = checked no_scheduler_name (named_iff c.scheduler.name "") (
    checked bad_queue_size (not_positive_iff c.queue.max_size) (
      both (guarded c.workflows.enabled (workflows_iff c.workflows)) (
        checked bad_port (outside_iff (pos 1) (pos 65535) c.scheduler.port) (
          checked bad_metrics_port (outside_iff (pos 1) (pos 65535) c.scheduler.metrics_port) (
            checked bad_policy (policy_iff c.queue.default_policy) (
              checked bad_log_level (level_iff c.logging.level) (
                checked bad_log_format (format_iff c.logging.format) (
                  both (guarded c.proxy.enabled (proxy_iff c.proxy))
                    (rebalancing_iff trim c.rebalancing)))))))))
