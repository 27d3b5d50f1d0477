-- ===== src/Limits.antt =====
-- crates/logiksmith-core/src/limits.rs: the runtime budgets and the two named profiles.
use logik_smith.Prelude.{ℕ, ◌*◌, Option, none, some}

pub record RuntimeLimits : Type 0 where
  pub max_logic_blocks : ℕ
  pub max_signals : ℕ
  pub max_signal_bindings : ℕ
  pub max_endpoints_per_block : ℕ
  pub max_schedules_per_block : ℕ
  pub max_logic_source_bytes_per_block : ℕ
  pub max_logic_source_bytes_total : ℕ
  pub max_logic_instructions : ℕ
  pub max_logic_memory_bytes : ℕ
  pub logic_handler_time_budget_ms : Option ℕ
  pub signal_cascade_time_budget_ms : Option ℕ
  pub openknx_loop_warning_threshold_ms : Option ℕ
  pub max_state_entries_per_block : ℕ
  pub max_state_bytes_per_block : ℕ
  pub max_state_bytes_total : ℕ
  pub max_pending_timers_per_block : ℕ
  pub max_pending_timers_total : ℕ
  pub max_output_effects_per_execution : ℕ
  pub max_timer_effects_per_execution : ℕ
  pub max_state_patch_entries_per_execution : ℕ
  pub max_combined_effects_per_execution : ℕ
  pub max_cascade_executions : ℕ
  pub max_live_executions_per_block_per_second : ℕ

pub data RuntimeProfile : Type 0 where
  desktop_profile embedded_baseline_profile : RuntimeProfile

-- `RuntimeProfile::limits`
abbrev pub limits : RuntimeProfile → RuntimeLimits
limits desktop_profile = record {
  max_logic_blocks = 64;
  max_signals = 256;
  max_signal_bindings = 256;
  max_endpoints_per_block = 128;
  max_schedules_per_block = 32;
  max_logic_source_bytes_per_block = 64 * 1024;
  max_logic_source_bytes_total = 1024 * 1024;
  max_logic_instructions = 100_000;
  max_logic_memory_bytes = 1024 * 1024;
  logic_handler_time_budget_ms = none;
  signal_cascade_time_budget_ms = none;
  openknx_loop_warning_threshold_ms = none;
  max_state_entries_per_block = 64;
  max_state_bytes_per_block = 16 * 1024;
  max_state_bytes_total = 512 * 1024;
  max_pending_timers_per_block = 32;
  max_pending_timers_total = 512;
  max_output_effects_per_execution = 64;
  max_timer_effects_per_execution = 32;
  max_state_patch_entries_per_execution = 64;
  max_combined_effects_per_execution = 128;
  max_cascade_executions = 256;
  max_live_executions_per_block_per_second = 128;
}
limits embedded_baseline_profile = record {
  max_logic_blocks = 32;
  max_signals = 64;
  max_signal_bindings = 128;
  max_endpoints_per_block = 32;
  max_schedules_per_block = 8;
  max_logic_source_bytes_per_block = 8 * 1024;
  max_logic_source_bytes_total = 128 * 1024;
  max_logic_instructions = 25_000;
  max_logic_memory_bytes = 128 * 1024;
  logic_handler_time_budget_ms = some 3;
  signal_cascade_time_budget_ms = some 4;
  openknx_loop_warning_threshold_ms = some 7;
  max_state_entries_per_block = 16;
  max_state_bytes_per_block = 2 * 1024;
  max_state_bytes_total = 32 * 1024;
  max_pending_timers_per_block = 8;
  max_pending_timers_total = 64;
  max_output_effects_per_execution = 16;
  max_timer_effects_per_execution = 8;
  max_state_patch_entries_per_execution = 16;
  max_combined_effects_per_execution = 32;
  max_cascade_executions = 64;
  max_live_executions_per_block_per_second = 32;
}

abbrev pub desktop : RuntimeLimits
desktop = limits desktop_profile

abbrev pub embedded_baseline : RuntimeLimits
embedded_baseline = limits embedded_baseline_profile
