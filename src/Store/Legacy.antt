-- ===== src/Store/Legacy.antt =====
-- `failLegacyInputRequiredRuns` of src/run-store.ts: runs that an older release left waiting for
-- input fail. The cutoff is given, and so is the time that is read for each run.
use symphonika.Base.{
  ℕ, Bool, true, false, ◌&&◌, ◌||◌, some, none, String, List, [], ◌∷◌, map, str_eq,
}
use symphonika.Base.Lists.{filter}
use symphonika.Base.Order.{precedes}
use symphonika.Run.{RunState, FailureClassification}
use symphonika.Store.{Notification, RunRow, Store}
use symphonika.Store.Runs.{update_where, is_id, with_transition}
use symphonika.Store.Queries.{order_by}

abbrev pub is_input_required : RunState → Bool
is_input_required RunState.input_required = true
is_input_required _ = false

abbrev pub updated_before : RunRow → RunRow → Bool
updated_before n r =
    precedes n.updated_at r.updated_at || (str_eq n.updated_at r.updated_at && precedes n.id r.id)

-- The runs that are to fail, in order.
pub legacy_runs : String → List RunRow → List RunRow
legacy_runs cutoff rows =
    order_by updated_before
      (filter (λ r. is_input_required r.state && precedes r.updated_at cutoff) rows)

-- What the call gives of a run: its key, its project and its issue's number.
abbrev pub migrated : RunRow → String × String × ℕ
migrated r = (r.id, r.project_name, r.issue_number)

abbrev pub legacy_reason : String
legacy_reason = "provider requested input (legacy)"

abbrev pub failed_legacy : String → RunRow → RunRow
failed_legacy at r = record r {
  state = RunState.failed;
  terminal_reason = some legacy_reason;
  failure_classification = some FailureClassification.input_required;
  notification_state = Notification.pending;
  notification_error = none;
  updated_at = at;
}

unfoldable pub fail_each : (String → String) → List RunRow → Store → Store
fail_each at [] s = s
fail_each at (r ∷ rs) s = fail_each at rs (
    with_transition r.id RunState.failed (at r.id)
      (record s { runs = update_where (is_id r.id) (failed_legacy (at r.id)) s.runs }))

unfoldable pub fail_legacy_input_required_runs :
    String → (String → String) → Store → Store × List (String × String × ℕ)
unfolding legacy_runs fail_each
fail_legacy_input_required_runs cutoff at s =
    let rows = legacy_runs cutoff s.runs in (fail_each at rows s, map migrated rows)
