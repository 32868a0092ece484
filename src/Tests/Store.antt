-- ===== src/Tests/Store.antt =====
-- A table of two runs of one issue, and statements on it.
use symphonika.Base.{suc, ◌≤◌, ◌<◌, true, false, none, some, String, List, [], ◌∷◌, ◌≡◌, refl, ◌⊎◌}
use symphonika.Base.Lists.{length, Occurs, here, there}
use symphonika.Base.Texts.{lower_case}
use symphonika.Base.Order.{precedes}
use symphonika.Run.{RunState, CancelReason}
use symphonika.Store.{Notification, WatchdogReason, RunRow, Store}
use symphonika.Store.Runs.{claim_run_notifications, claim_each}
use symphonika.Store.Runs.Statements.{Statement, verdicts_written, overwritings}
use symphonika.Store.Runs.Once.{verdicts_written_once}
use symphonika.Store.Runs.Notices.{InState, claim_all_or_nothing, claim_excludes}
use symphonika.Store.Queries.{list_resumable_shutdown_runs}
use symphonika.Store.Queries.Resumable.{IsSameIssue, IsNotLater, resumable_unique}

abbrev row : String → RunState → String → RunRow
row id state created_at = record {
  id = id;
  project_name = "a";
  issue_number = 7;
  issue_owner = some "Me";
  issue_repo = some "tool";
  state = state;
  current_state_id = none;
  is_continuation = false;
  terminal_reason = none;
  failure_classification = none;
  cancel_requested = false;
  cancel_reason = some CancelReason.daemon_shutdown;
  shutdown_resume_declined_at = none;
  notification_state = Notification.pending;
  notification_error = none;
  provider_scope_cleanup_pending = false;
  watchdog_generation = 1;
  created_at = created_at;
  updated_at = created_at;
}

abbrev rows : List RunRow
rows = row "r1" RunState.cancelled "2026-01-01" ∷ row "r2" RunState.cancelled "2026-01-02" ∷ []

abbrev store : Store
store = record {
  runs = row "r1" RunState.running "2026-01-01" ∷ row "r2" RunState.failed "2026-01-02" ∷ [];
  transitions = [];
  samples = [];
  turn_ids = [];
}

abbrev statements : List Statement
statements =
    Statement.mark_stale "r1" WatchdogReason.no_progress "2026-01-03" (some 1)
    ∷ Statement.enter "r1" RunState.running "2026-01-04"
    ∷ Statement.time_out "r1" "2026-01-05"
    ∷ Statement.record_reason "r1" "done" none "2026-01-06"
    ∷ Statement.time_out "r1" "2026-01-07"
    ∷ []

verdicts_written_once_example :
    verdicts_written "r1" statements store ≤ suc (overwritings "r1" statements)
verdicts_written_once_example = verdicts_written_once "r1" statements store (refl, (refl, tt))

abbrev first_two : List String
first_two = "r1" ∷ "r2" ∷ []

claim_all_or_nothing_example :
    (((claim_run_notifications first_two store).1 ≡ true)
      × (0 < length first_two)
      × InState Notification.pending first_two store.runs
      × InState Notification.sending first_two (claim_run_notifications first_two store).0.runs)
    ⊎ (claim_run_notifications first_two store ≡ (store, false))
claim_all_or_nothing_example = claim_all_or_nothing first_two store (refl, (refl, tt))

both_claimed : (claim_run_notifications first_two store).1 ≡ true
unfolding claim_run_notifications claim_each
both_claimed = refl

claim_excludes_example :
    (claim_run_notifications ("r2" ∷ []) (claim_run_notifications first_two store).0).1 ≡ false
claim_excludes_example =
    claim_excludes first_two ("r2" ∷ []) "r2" store (refl, (refl, tt)) (there here) here
      both_claimed

-- Only the newer run is listed.
newer_listed : Occurs (row "r2" RunState.cancelled "2026-01-02") (list_resumable_shutdown_runs rows)
unfolding list_resumable_shutdown_runs lower_case precedes
newer_listed = here

one_issue :
    IsSameIssue
      (row "r1" RunState.cancelled "2026-01-01")
      (row "r2" RunState.cancelled "2026-01-02")
one_issue = record { project = refl; issue = refl; owner = refl; repo = refl }

resumable_unique_example :
    let n = row "r2" RunState.cancelled "2026-01-02" in
    let m = row "r1" RunState.cancelled "2026-01-01" in
    ((n.state ≡ RunState.cancelled)
      × (n.cancel_reason ≡ some CancelReason.daemon_shutdown)
      × (n.shutdown_resume_declined_at ≡ none))
    × IsNotLater m n
    × ((m.id ≡ n.id) ⊎ (Occurs m (list_resumable_shutdown_runs rows) → ⊥))
resumable_unique_example =
    resumable_unique rows (row "r2" RunState.cancelled "2026-01-02")
      (row "r1" RunState.cancelled "2026-01-01") newer_listed here one_issue
