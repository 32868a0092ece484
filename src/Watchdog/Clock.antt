-- ===== src/Watchdog/Clock.antt =====
-- The progress sample and the idle clock. A timestamp is its milliseconds; a `null` one is `none`.
pub mod Quiet
use symphonika.Base.{
  ℕ, String, Bool, true, false, ◌||◌, not, Option, none, some, List, [], ◌∷◌, str_eq,
}
use symphonika.Base.Tests.{if◌then◌else◌, ltb}
use symphonika.Base.Json.{Event}
use symphonika.Watchdog.Events.{latest_event_at, output_tokens_total}

-- WatchdogProgressSample in src/run-store.ts
pub record Sample : Type 0 where
  pub idle_since : Option ℕ
  pub last_message_at : Option ℕ
  pub last_progress_at : Option ℕ
  pub last_tool_call_at : Option ℕ
  pub normalized_log_offset : ℕ
  pub normalized_log_path : String
  pub output_tokens_total : ℕ
  pub sampled_at : ℕ
  pub turn_id_set_size : ℕ
  pub workspace_digest : String
  pub workspace_mtime_max : ℕ

unfoldable pub timestamp_advanced : Option ℕ → Option ℕ → Bool
timestamp_advanced previous none = false
timestamp_advanced none (some next) = true
timestamp_advanced (some previous) (some next) = ltb previous next

unfoldable pub workspace_changed : Sample → Sample → Bool
workspace_changed previous next =
    if str_eq previous.workspace_digest ""
    then false
    else not (str_eq next.workspace_digest previous.workspace_digest)

unfoldable pub progress_observed : Sample → Sample → Bool
unfolding timestamp_advanced workspace_changed
progress_observed previous next =
    timestamp_advanced previous.last_tool_call_at next.last_tool_call_at
    || workspace_changed previous next
    || ltb previous.turn_id_set_size next.turn_id_set_size
    || ltb previous.output_tokens_total next.output_tokens_total
    || timestamp_advanced previous.last_message_at next.last_message_at
    || timestamp_advanced previous.last_progress_at next.last_progress_at

pub record IdleClock : Type 0 where
  pub idle_since : Option ℕ
  pub progress : Bool

abbrev progressed : Option Sample → Sample → Bool
progressed none next = false
progressed (some previous) next = progress_observed previous next

abbrev attempt_changed : Option Sample → Sample → Bool
attempt_changed none next = false
attempt_changed (some previous) next =
    not (str_eq previous.normalized_log_path next.normalized_log_path)

abbrev carried_idle : Option Sample → ℕ → ℕ
carried_idle none sampled_at = sampled_at
carried_idle (some previous) sampled_at = elim previous.idle_since [
  | none ↦ sampled_at
  | some since ↦ since
]

-- watchdogIdleClock
unfoldable pub idle_clock : Option Sample → Sample → ℕ → IdleClock
idle_clock previous next sampled_at =
    let progress = progressed previous next in
    record {
      idle_since =
          (if progress
            then none
            else if attempt_changed previous next
            then some sampled_at
            else some (carried_idle previous sampled_at));
      progress = progress;
    }

-- What one sample of a run reads: the events since the offset, the new offset, the size of the
-- set of turn ids once these events' are remembered, and the workspace.
pub record Reading : Type 0 where
  pub events : List Event
  pub offset : ℕ
  pub turn_id_set_size : ℕ
  pub digest : String
  pub mtime_max : ℕ

-- The offset and the token total are carried over only while the log's path is the same.
abbrev carry_over : Option Sample → String → Option Sample
carry_over none path = none
carry_over (some previous) path =
    if str_eq previous.normalized_log_path path then some previous else none

-- Where the log is read from.
pub read_offset : Option Sample → String → ℕ
read_offset previous path = elim (carry_over previous path) [
  | none ↦ 0
  | some s ↦ s.normalized_log_offset
]

abbrev field_of : (Sample → Option ℕ) → Option Sample → Option ℕ
field_of f none = none
field_of f (some s) = f s

-- sampleProgress, given what it reads
unfoldable pub sample_progress : Option Sample → String → ℕ → Reading → Sample
sample_progress previous path sampled_at r = record {
  idle_since = none;
  last_message_at =
      latest_event_at (field_of (λ s. s.last_message_at) previous) r.events ("message" ∷ [])
        sampled_at;
  last_progress_at =
      latest_event_at (field_of (λ s. s.last_progress_at) previous) r.events
        ("plan_updated" ∷ "progress" ∷ "thinking" ∷ []) sampled_at;
  last_tool_call_at =
      latest_event_at (field_of (λ s. s.last_tool_call_at) previous) r.events ("tool_call" ∷ [])
        sampled_at;
  normalized_log_offset = r.offset;
  normalized_log_path = path;
  output_tokens_total =
      output_tokens_total
        (elim (carry_over previous path) [ none ↦ 0 | some s ↦ s.output_tokens_total ]) r.events;
  sampled_at = sampled_at;
  turn_id_set_size = r.turn_id_set_size;
  workspace_digest = r.digest;
  workspace_mtime_max = r.mtime_max;
}
