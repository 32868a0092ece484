-- ===== src/Tests/Watchdog.antt =====
-- The watchdog on a run that makes no progress, and the token counts of two kinds of provider.
use symphonika.Base.{ℕ, ◌+◌, ◌*◌, ◌≤◌, true, none, some, List, [], ◌∷◌, ◌≡◌, ◌↔◌, refl, arith}
use symphonika.Base.Tests.{if◌then◌else◌, ◌==◌}
use symphonika.Base.Int.{pos}
use symphonika.Watchdog.Events.{output_tokens_total, latest_event_at}
use symphonika.Watchdog.Clock.{
  Reading, sample_progress, idle_clock, progress_observed, timestamp_advanced, workspace_changed,
}
use symphonika.Watchdog.Clock.Quiet.{
  Tick, persist, stored, verdict, QuietSince, Stalled, no_progress_quiet, idle_run_is_stopped,
}
use symphonika.Watchdog.Verdict.{
  Config, no_progress, run_timeout, run_terminal_reason, run_elapsed_ms, idle_grace_expired,
  minute_ms,
}
use symphonika.Watchdog.Verdict.Status.{build_watchdog_status, run_remaining_ms, Enabled, enabled}
use symphonika.Watchdog.Verdict.Status.Agreement.{RunOut, timeout_iff_expired}
use symphonika.Watchdog.Drive.{Port}

abbrev config : Config
config = record { enabled = true; grace_minutes = 10; max_run_minutes = 0; output_token_budget = 0 }

abbrev reading : Reading
reading = record { events = []; offset = 40; turn_id_set_size = 2; digest = "d"; mtime_max = 5 }

abbrev tick : ℕ → Tick
tick now = record { now = now; path = "log"; reading = reading }

abbrev before : List Tick
before = tick 60000 ∷ tick 0 ∷ []

given_up : verdict config none (tick 660000) before ≡ some no_progress
unfolding persist stored sample_progress idle_clock progress_observed timestamp_advanced
    workspace_changed latest_event_at output_tokens_total run_terminal_reason run_elapsed_ms
    idle_grace_expired
given_up = refl

no_progress_quiet_example :
    (since : ℕ) × (since + config.grace_minutes * minute_ms ≤ 660000)
    × QuietSince since (tick 660000 ∷ before)
no_progress_quiet_example =
    no_progress_quiet config none (tick 660000) before (omega arith, (omega arith, tt)) given_up

stalls : Stalled (tick 600000 ∷ tick 60000 ∷ []) (tick 0 ∷ [])
unfolding persist stored sample_progress idle_clock progress_observed timestamp_advanced
    workspace_changed latest_event_at output_tokens_total
stalls = (refl, refl, (refl, refl, tt))

idle_run_is_stopped_example :
    (verdict config none (tick 600000) (tick 60000 ∷ tick 0 ∷ []) ≡ some no_progress)
    ↔ (0 + config.grace_minutes * minute_ms ≤ 600000)
unfolding stored
idle_run_is_stopped_example =
    idle_run_is_stopped config none (tick 600000) (tick 60000 ∷ []) (tick 0) [] refl refl refl
      stalls refl

abbrev capped : Config
capped = record { enabled = true; grace_minutes = 10; max_run_minutes = 1; output_token_budget = 0 }

abbrev shown : Enabled
shown = record {
  grace_ms = 600000;
  grace_remaining_ms = none;
  idle_since = none;
  max_run_ms = 60000;
  output_token_budget = 0;
  run_remaining_ms = some (pos 0);
  progress = none;
}

shows : build_watchdog_status capped 61000 (some (some 1000)) none ≡ enabled shown
unfolding build_watchdog_status run_remaining_ms
shows = refl

timeout_iff_expired_example :
    (run_terminal_reason capped (some 1000) none 61000 5 true ≡ some run_timeout)
    ↔ RunOut shown.run_remaining_ms
timeout_iff_expired_example =
    timeout_iff_expired capped 1000 61000 5 none true none shown shows (omega arith)

-- A port over a counter of marks: subject 1 is never given up.
abbrev port : Port ℕ ℕ
port = record {
  candidates = λ s. 0 ∷ 1 ∷ [];
  id = λ c. if c == 0 then "a" else "b";
  project_name = λ c. "web";
  load_previous = λ s c. none;
  sample = λ s c cfg previous now. (s, some (sample_progress previous "log" now reading));
  persist = λ s c sample. (s, true);
  terminal_reason = λ c cfg idle now tokens progress. if c == 0 then some no_progress else none;
  mark_stale = λ s c reason now. (s + 1, true);
  resolve_config = λ project. config;
}
