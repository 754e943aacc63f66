-- ===== src/Config.antt =====
-- internal/config/config.go: the configuration and the checks on it. The texts of the errors are
-- constructors, with the index or the name that they show; `trim` stands for strings.TrimSpace. The
-- records of the workflows stand in Scheduler.Pod.
pub mod Valid
use gpu_scheduler.Common.{
  Bool, true, false, not, ◌&&◌, ◌||◌, Option, none, some, List, [], ◌∷◌, String, eq_str, ℤ, pos,
  ◌+ℤ◌, ltb_ℤ, leb_ℤ, length, if◌then◌else◌,
}
use gpu_scheduler.Scheduler.Pod.{WorkflowTypeConfig, WorkflowConfig}

pub record SchedulerConfig : Type 0 where
  pub name : String
  pub port : ℤ
  pub metrics_port : ℤ
  pub mode : String
  pub gang_timeout_seconds : ℤ
  pub preemption_enabled : Bool
  pub checkpoint_timeout_seconds : ℤ
  pub preemption_grace_period : ℤ
  pub auto_resume_max_retries : ℤ
  pub auto_resume_priority_boost : ℤ

pub record QueueConfig : Type 0 where
  pub max_size : ℤ
  pub default_policy : String

pub record GpuConfig : Type 0 where
  pub poll_interval_seconds : ℤ
  pub mock_mode : Bool

pub record KubernetesConfig : Type 0 where
  pub kubeconfig : String
  pub namespace : String

pub record LoggingConfig : Type 0 where
  pub level : String
  pub format : String

pub record ProxyConfig : Type 0 where
  pub enabled : Bool
  pub port : ℤ
  pub scheduler_url : String

pub record ModelGroups : Type 0 where
  pub name : String
  pub ttft_hot_ms : ℤ
  pub itl_hot_ms : ℤ
  pub max_prefill_workers : ℤ
  pub max_decode_workers : ℤ
  pub execution_script : String

pub record RebalancingConfig : Type 0 where
  pub enabled : Bool
  pub dry_run : Bool
  pub tick_interval_seconds : ℤ
  pub sustain_window_seconds : ℤ
  pub cooldown_seconds : ℤ
  pub drain_timeout_seconds : ℤ
  pub allow_scale_up : Bool
  pub allow_scale_down : Bool
  pub model_groups : List ModelGroups

pub record Config : Type 0 where
  pub scheduler : SchedulerConfig
  pub queue : QueueConfig
  pub workflows : WorkflowConfig
  pub gpu : GpuConfig
  pub kubernetes : KubernetesConfig
  pub logging : LoggingConfig
  pub proxy : ProxyConfig
  pub rebalancing : RebalancingConfig

pub data ConfigError : Type 0 where
  no_scheduler_name bad_queue_size bad_default_priority no_workflow_types : ConfigError
  no_workflow_name : ℤ → ConfigError
  bad_workflow_priority : String → ConfigError
  bad_port bad_metrics_port bad_policy bad_log_level bad_log_format : ConfigError
  no_scheduler_url bad_proxy_port : ConfigError
  bad_tick bad_sustain bad_cooldown bad_drain_timeout no_model_groups : ConfigError
  no_group_name : ℤ → ConfigError
  repeated_group : ℤ → String → ConfigError
  bad_ttft bad_itl bad_prefill_workers bad_decode_workers : ℤ → ConfigError

-- `if test { return err }`, and what comes after.
abbrev pub refuse : Bool → ConfigError → Option ConfigError → Option ConfigError
refuse true e rest = some e
refuse false e rest = rest

-- One block of checks and what comes after: the first error is returned.
abbrev pub or_then : Option ConfigError → Option ConfigError → Option ConfigError
or_then (some e) rest = some e
or_then none rest = rest

-- Checks that are made only if a part is enabled.
abbrev pub when : Bool → Option ConfigError → Option ConfigError
when true checks = checks
when false checks = none

abbrev pub outside : ℤ → ℤ → ℤ → Bool
outside low high x = ltb_ℤ x low || ltb_ℤ high x

abbrev pub not_positive : ℤ → Bool
not_positive x = leb_ℤ x (pos 0)

unfoldable pub validate_types : ℤ → List WorkflowTypeConfig → Option ConfigError
validate_types i [] = none
validate_types i (wf ∷ wfs) = refuse (eq_str wf.name "") (no_workflow_name i) (
    refuse (outside (pos 0) (pos 100) wf.priority) (bad_workflow_priority wf.name)
      (validate_types (i +ℤ pos 1) wfs))

unfoldable pub validate_workflows : WorkflowConfig → Option ConfigError
validate_workflows w = refuse (outside (pos 0) (pos 100) w.default_priority) bad_default_priority (
    refuse (ltb_ℤ (pos (length w.types)) (pos 1)) no_workflow_types
      (validate_types (pos 0) w.types))

unfoldable pub validate_proxy : ProxyConfig → Option ConfigError
validate_proxy p =
    refuse (eq_str p.scheduler_url "") no_scheduler_url
      (refuse (outside (pos 1) (pos 65535) p.port) bad_proxy_port none)

abbrev pub seen_name : String → List String → Bool
seen_name name [] = false
seen_name name (s ∷ seen) = eq_str s name || seen_name name seen

abbrev pub is_policy : String → Bool
is_policy s = eq_str s "fifo" || eq_str s "binpack"

abbrev pub is_level : String → Bool
is_level s = eq_str s "debug" || eq_str s "info" || eq_str s "warn" || eq_str s "error"

abbrev pub is_format : String → Bool
is_format s = eq_str s "json" || eq_str s "text"

module _ (trim : String → String) where
  -- The loop over the groups, with the names seen.
  unfoldable pub validate_groups : ℤ → List String → List ModelGroups → Option ConfigError
  validate_groups i seen [] = none
  validate_groups i seen (g ∷ gs) = refuse (eq_str (trim g.name) "") (no_group_name i) (
      refuse (seen_name (trim g.name) seen) (repeated_group i (trim g.name)) (
        refuse (not_positive g.ttft_hot_ms) (bad_ttft i) (
          refuse (not_positive g.itl_hot_ms) (bad_itl i) (
            refuse (not_positive g.max_prefill_workers) (bad_prefill_workers i) (
              refuse (not_positive g.max_decode_workers) (bad_decode_workers i)
                (validate_groups (i +ℤ pos 1) (trim g.name ∷ seen) gs))))))

  unfoldable pub validate_rebalancing : RebalancingConfig → Option ConfigError
  validate_rebalancing r = when r.enabled (
      refuse (not_positive r.tick_interval_seconds) bad_tick (
        refuse (not_positive r.sustain_window_seconds) bad_sustain (
          refuse (not_positive r.cooldown_seconds) bad_cooldown (
            refuse (r.allow_scale_down && not_positive r.drain_timeout_seconds) bad_drain_timeout (
              refuse (leb_ℤ (pos (length r.model_groups)) (pos 0)) no_model_groups
                (validate_groups (pos 0) [] r.model_groups))))))

  -- `none` is nil, for a configuration that passes.
  unfoldable pub validate : Config → Option ConfigError
  validate c = refuse (eq_str c.scheduler.name "") no_scheduler_name (
      refuse (not_positive c.queue.max_size) bad_queue_size (
        or_then (when c.workflows.enabled (validate_workflows c.workflows)) (
          refuse (outside (pos 1) (pos 65535) c.scheduler.port) bad_port (
            refuse (outside (pos 1) (pos 65535) c.scheduler.metrics_port) bad_metrics_port (
              refuse (not (is_policy c.queue.default_policy)) bad_policy (
                refuse (not (is_level c.logging.level)) bad_log_level (
                  refuse (not (is_format c.logging.format)) bad_log_format (
                    or_then (when c.proxy.enabled (validate_proxy c.proxy))
                      (validate_rebalancing c.rebalancing)))))))))
