-- ===== src/Watchdog/Verdict/Status.antt =====
-- src/watchdog-status.ts: the countdowns shown for a run, from the same sample and clock.
pub mod Agreement
use symphonika.Base.{ℕ, ◌+◌, ◌*◌, Bool, true, false, ◌&&◌, Option, none, some}
use symphonika.Base.Tests.{if◌then◌else◌, ltb}
use symphonika.Base.Int.{ℤ, sub_ℕ}
use symphonika.Run.{RunState, is_terminal}
use symphonika.Watchdog.Clock.{Sample}
use symphonika.Watchdog.Verdict.{Config, minute_ms}

pub record Progress : Type 0 where
  pub last_progress_at : Option ℕ
  pub last_tool_call_at : Option ℕ
  pub output_tokens_total : ℕ
  pub sampled_at : ℕ
  pub turn_id_set_size : ℕ
  pub workspace_mtime_max : Option ℕ

pub record Enabled : Type 0 where
  pub grace_ms : ℕ
  pub grace_remaining_ms : Option ℤ
  pub idle_since : Option ℕ
  pub max_run_ms : ℕ
  pub output_token_budget : ℕ
  pub run_remaining_ms : Option ℤ
  pub progress : Option Progress

pub data Status : Type 0 where
  disabled : Status
  enabled : Enabled → Status

-- runRemainingMs: `none` where the claim's timestamp is unusable.
unfoldable pub run_remaining_ms : Option ℕ → ℕ → ℕ → Option ℤ
run_remaining_ms none max_run_ms now = none
run_remaining_ms (some claimed_at) max_run_ms now = some (sub_ℕ (claimed_at + max_run_ms) now)

-- The outer option is the caller's `runCreatedAt`, the inner one its date.
abbrev pub countdown : Option (Option ℕ) → ℕ → ℕ → Option ℤ
countdown none max_run_ms now = none
countdown (some created_at) max_run_ms now =
    if ltb 0 max_run_ms then run_remaining_ms created_at max_run_ms now else none

abbrev pub grace_remaining : Option ℕ → ℕ → ℕ → Option ℤ
grace_remaining none grace_ms now = none
grace_remaining (some since) grace_ms now = some (sub_ℕ (since + grace_ms) now)

abbrev pub timestamp_from_epoch_ms : ℕ → Option ℕ
timestamp_from_epoch_ms n = if ltb 0 n then some n else none

abbrev pub idle_of : Option Sample → Option ℕ
idle_of none = none
idle_of (some s) = s.idle_since

abbrev pub progress_of : Option Sample → Option Progress
progress_of none = none
progress_of (some s) = some (record {
  last_progress_at = s.last_progress_at;
  last_tool_call_at = s.last_tool_call_at;
  output_tokens_total = s.output_tokens_total;
  sampled_at = s.sampled_at;
  turn_id_set_size = s.turn_id_set_size;
  workspace_mtime_max = timestamp_from_epoch_ms s.workspace_mtime_max;
})

-- buildWatchdogStatus, given the run's sample
unfoldable pub build_watchdog_status : Config → ℕ → Option (Option ℕ) → Option Sample → Status
unfolding run_remaining_ms
build_watchdog_status c now run_created_at sample =
    let grace_ms = c.grace_minutes * minute_ms in
    let max_run_ms = c.max_run_minutes * minute_ms in
    if c.enabled
    then enabled (record {
      grace_ms = grace_ms;
      grace_remaining_ms = grace_remaining (idle_of sample) grace_ms now;
      idle_since = idle_of sample;
      max_run_ms = max_run_ms;
      output_token_budget = c.output_token_budget;
      run_remaining_ms = countdown run_created_at max_run_ms now;
      progress = progress_of sample;
    })
    else disabled

abbrev is_running : RunState → Bool
is_running RunState.running = true
is_running _ = false

-- resolveWatchdogNowMs, given the sample's time and the time at which the run stopped, each `none`
-- where there is none or its text is no date.
pub resolve_watchdog_now_ms : ℕ → RunState → Option ℕ → Option ℕ → ℕ
unfolding is_terminal
resolve_watchdog_now_ms live state sampled_at stopped_at =
    if is_running state then live else (elim sampled_at [
      | some at ↦ at
      | none ↦ if is_terminal state then (elim stopped_at [ some at ↦ at | none ↦ live ]) else live
    ])
