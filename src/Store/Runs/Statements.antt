-- ===== src/Store/Runs/Statements.antt =====
-- The statements on the rows of runs as a sequence, and what is counted in it.
use symphonika.Base.{ℕ, suc, Bool, true, false, ◌&&◌, Option, String, List, [], ◌∷◌, str_eq}
use symphonika.Base.Tests.{if◌then◌else◌}
use symphonika.Base.Lists.{any}
use symphonika.Run.{RunState, CancelReason, FailureClassification}
use symphonika.Store.{Notification, WatchdogReason, Store}
use symphonika.Store.Legacy.{fail_legacy_input_required_runs}
use symphonika.Store.Runs.{
  update_run_state, mark_run_watchdog_stale, mark_slot_owned_run_timed_out,
  reassert_run_watchdog_stale, mark_cancel_requested, mark_run_notification_pending,
  claim_run_notifications, complete_run_notifications, release_interrupted_run_notifications,
  StaleEntry, mark_runs_stale, record_terminal_reason,
}

-- A statement on the existing rows of runs, with its arguments: those of the watchdog, of state
-- changes, cancellation and notifications, and the three that set a terminal reason without a guard,
-- recordTerminalReason, markRunsStale and failLegacyInputRequiredRuns. createCapReachedFailureRun, which sets the reason of the row
-- that it inserts, is left out, and so are the statements that leave the reason as it is.
pub data Statement : Type 0 where
  mark_stale : String → WatchdogReason → String → Option ℕ → Statement
  time_out : String → String → Statement
  reassert : String → WatchdogReason → String → Statement
  enter : String → RunState → String → Statement
  request_cancel : String → CancelReason → String → Statement
  mark_pending : String → Statement
  claim : List String → Statement
  complete : List String → Notification → Option String → Statement
  release : Statement
  record_reason : String → String → Option FailureClassification → String → Statement
  sweep : List StaleEntry → Statement
  fail_legacy : String → (String → String) → Statement

unfoldable pub execute : Statement → Store → Store × Bool
execute (mark_stale id reason at generation) s = mark_run_watchdog_stale id reason at generation s
execute (time_out id at) s = mark_slot_owned_run_timed_out id at s
execute (reassert id reason at) s = reassert_run_watchdog_stale id reason at s
execute (enter id state now) s = (update_run_state id state now s, true)
execute (request_cancel id reason now) s = (mark_cancel_requested id reason now s, true)
execute (mark_pending id) s = (mark_run_notification_pending id s, true)
execute (claim names) s = claim_run_notifications names s
execute (complete names state error) s = (complete_run_notifications names state error s, true)
execute release s = ((release_interrupted_run_notifications s).0, true)
execute (record_reason id reason c now) s = (record_terminal_reason id reason c now s, true)
execute (sweep entries) s = (mark_runs_stale entries s, true)
execute (fail_legacy cutoff at) s = ((fail_legacy_input_required_runs cutoff at s).0, true)

-- The statement would write a verdict on the run.
abbrev pub judges : String → Statement → Bool
judges id (mark_stale name reason at generation) = str_eq name id
judges id (time_out name at) = str_eq name id
judges id _ = false

abbrev pub names_run : String → List StaleEntry → Bool
names_run id es = any (λ e. str_eq e.run_id id) es

-- The statement sets the run's terminal reason, whatever it was, or may do so: the migration of
-- legacy runs chooses its runs by their rows.
abbrev pub overwrites : String → Statement → Bool
overwrites id (record_reason name reason c now) = str_eq name id
overwrites id (sweep entries) = names_run id entries
overwrites id (fail_legacy cutoff at) = true
overwrites id _ = false

-- How many of the statements do.
unfoldable pub overwritings : String → List Statement → ℕ
overwritings id [] = 0
overwritings id (t ∷ ts) =
    let later = overwritings id ts in if overwrites id t then suc later else later

-- How many of the statements, one after the other, write a verdict on the run.
unfoldable pub verdicts_written : String → List Statement → Store → ℕ
verdicts_written id [] s = 0
verdicts_written id (t ∷ ts) s =
    let (after, done) = execute t s in
    let later = verdicts_written id ts after in if judges id t && done then suc later else later
