-- ===== src/Tests/Issues.antt =====
-- Issues, a run in flight for one of them, and secrets in a message.
use symphonika.Base.{
  true, false, ◌&&◌, ◌||◌, not, none, some, String, List, [], ◌∷◌, ◌≡◌, ◌↔◌, refl, sym,
}
use symphonika.Base.Lists.{member, Occurs, here, there}
use symphonika.Base.Texts.{lower_case}
use mathlib.Core.Option.{some-injective}
use symphonika.Run.{RunState, CancelReason}
use symphonika.Issue.{
  Repository, IssueSnapshot, IssuePollStatus, IssueFilters, Project, Tracker, same_issue_repository,
  find_polled_issue_snapshot,
}
use symphonika.Issue.Eligibility.{
  Filter, or_empty, required_operational_labels, evaluate_project_eligibility,
}
use symphonika.Issue.Eligibility.Conditions.{
  open_for, disjoint, all_closed, eligible_iff_conditions,
}
use symphonika.Store.{Notification, RunRow}
use symphonika.Store.Queries.{
  get_run_issue_repository, list_resumable_shutdown_runs, list_waiting_run_ids, list_active_run_ids,
}
use symphonika.Registry.InFlight
use symphonika.Registry.InFlight.{Entry, Handler, list}
use symphonika.Registry.Scheduled
use symphonika.Registry.Reservations
use symphonika.Base.Decimal.{decimal}
use symphonika.Reconcile
use symphonika.Reconcile.{World, Answer, judge, judge_tracked, polled, reconcile_active_runs}
use symphonika.Reconcile.Spared.{Same, Retargeted, row, entry, Retargeted-spared}
use symphonika.Reconcile.Cancelled.{Requested, judged_run_cancelled}
use symphonika.StaleClaims
use symphonika.StaleClaims.{LabelAnswer, StaleClaimMark, detect_stale_claims}
use symphonika.StaleClaims.Live.{Abandoned, detect_stale_claims-Abandoned}
use symphonika.Redaction.{Text, redact_all, secret_spans}
use symphonika.Redaction.Spans.{covered}
use symphonika.Redaction.Occurrences.{Exposed, covered_iff_Exposed}
use symphonika.Redaction.Mask.{mask, redact_all-mask}

abbrev home : Repository
home = record { owner = "Me"; repo = "tool" }

abbrev fork : Repository
fork = record { owner = "you"; repo = "tool" }

abbrev issue : String → IssueSnapshot
issue state = record {
  blocked_by = none;
  blocked_by_truncated = false;
  created_at = "2026-01-01";
  labels = "ready" ∷ "sym:claimed" ∷ [];
  number = 7;
  priority = 1;
  state = state;
}

abbrev filters : IssueFilters
filters = record { states = "open" ∷ []; ready_label = "ready"; labels_none = "wip" ∷ [] }

abbrev filter : Filter
filter = record { filters = filters; repository = home }

eligible_iff_conditions_example :
    (evaluate_project_eligibility (issue "open") filter false).eligible ≡ (
      open_for (issue "open") filters
      && (member "ready" (issue "open").labels
          && (disjoint ("wip" ∷ []) (issue "open").labels
              && ((false || disjoint required_operational_labels (issue "open").labels)
                  && (all_closed (or_empty none) && not false)))))
eligible_iff_conditions_example = eligible_iff_conditions (issue "open") filter false

abbrev project_at : Repository → Project
project_at repository = record {
  name = "a";
  disabled = false;
  tracker = some (record { repository = repository; token = "$TOKEN" });
  issue_filters = filters;
  provider = "codex";
  max_in_flight = none;
  weight = none;
  overlap_guard = false;
}

abbrev run : Entry
run = record {
  cancel = Handler.noop;
  cancel_reason = none;
  cancel_requested = false;
  issue_number = 7;
  project_name = "a";
  provider = none;
  respects_issue_labels = true;
  run_id = "r1";
  touched_files = none;
}

abbrev run_row : RunRow
run_row = record {
  id = "r1";
  project_name = "a";
  issue_number = 7;
  issue_owner = some "Me";
  issue_repo = some "tool";
  state = RunState.running;
  current_state_id = none;
  is_continuation = false;
  terminal_reason = none;
  failure_classification = none;
  cancel_requested = false;
  cancel_reason = none;
  shutdown_resume_declined_at = none;
  notification_state = Notification.skipped;
  notification_error = none;
  provider_scope_cleanup_pending = false;
  watchdog_generation = 1;
  created_at = "2026-01-01";
  updated_at = "2026-01-01";
}

abbrev world : World
world = record {
  store = record { runs = run_row ∷ []; transitions = []; samples = []; turn_ids = [] };
  runs = record { entries = ("r1", run) ∷ []; issue_locks = []; shutting_down = false };
}

abbrev closed_poll : IssuePollStatus
closed_poll = record {
  candidate_issues = [];
  filtered_issues = record { issue = issue "closed"; project = "a"; repository = home } ∷ [];
}

abbrev input_at : Repository → Reconcile.Input
input_at repository = record {
  env = ("TOKEN", "t") ∷ [];
  get_issue = λ r n token. Answer.missing;
  poll_status = closed_poll;
  projects = ("a", project_at repository) ∷ [];
}

fork-Retargeted : Retargeted (input_at fork) home "r1" world
unfolding list same_issue_repository lower_case
fork-Retargeted e here k p t h j =
    let same : project_at fork ≡ p = some-injective (project_at fork) p h in
    let tracker : Tracker = record { repository = fork; token = "$TOKEN" } in
    let there_it_is : tracker ≡ t = some-injective tracker t (rw (sym same) at j) in
    rw (sym there_it_is) refl
fork-Retargeted e (there o) k p t h j = elim o [ ]

recorded : get_run_issue_repository "r1" world.store.runs ≡ some home
unfolding get_run_issue_repository
recorded = refl

Retargeted-spared_example :
    Same "r1" (reconcile_active_runs (input_at fork) "2026-01-02" world) world
Retargeted-spared_example =
    Retargeted-spared (input_at fork) "2026-01-02" "r1" home world recorded fork-Retargeted

judged : judge (input_at home) world.store.runs run ≡ some CancelReason.closed_issue
unfolding judge judge_tracked polled get_run_issue_repository same_issue_repository
    find_polled_issue_snapshot lower_case
judged = refl

in_list : Occurs run (list world.runs)
unfolding list
in_list = here

judged_run_cancelled_example :
    Requested CancelReason.closed_issue run_row
      (entry "r1" (reconcile_active_runs (input_at home) "2026-01-02" world))
      (row "r1" (reconcile_active_runs (input_at home) "2026-01-02" world))
unfolding list
judged_run_cancelled_example =
    judged_run_cancelled (input_at home) "2026-01-02" world run run_row CancelReason.closed_issue
      in_list (refl, tt) refl refl judged

abbrev sweep : StaleClaims.Input
sweep = record {
  active_runs = record { in_flight = InFlight.empty; scheduled = Scheduled.empty };
  env = ("TOKEN", "t") ∷ [];
  add_labels_to_issue = λ r n token. LabelAnswer.labelled;
  projects = ("a", project_at home) ∷ [];
  rows = record run_row { state = RunState.failed } ∷ [];
}

abbrev open_poll : IssuePollStatus
open_poll = record {
  candidate_issues = [];
  filtered_issues = record { issue = issue "open"; project = "a"; repository = home } ∷ [];
}

abbrev mark : StaleClaimMark
mark = record { issue_number = 7; project = "a" }

marked : Occurs mark (detect_stale_claims sweep open_poll).0
unfolding detect_stale_claims list_resumable_shutdown_runs list_waiting_run_ids list_active_run_ids
    Reservations.issue_keys InFlight.issue_keys Scheduled.issue_keys decimal Reconcile.resolve_token
marked = here

detect_stale_claims-Abandoned_example : Abandoned sweep open_poll.filtered_issues mark
detect_stale_claims-Abandoned_example = detect_stale_claims-Abandoned sweep open_poll mark marked

abbrev message : Text
message = "a" ∷ "b" ∷ "c" ∷ "d" ∷ "e" ∷ "f" ∷ "g" ∷ []

abbrev secrets : List Text
secrets = ("a" ∷ "b" ∷ "c" ∷ "d" ∷ []) ∷ ("b" ∷ "c" ∷ "d" ∷ "e" ∷ "f" ∷ []) ∷ []

covered_iff_Exposed_example :
    (covered 4 (secret_spans message secrets) ≡ true) ↔ Exposed message secrets 4
covered_iff_Exposed_example = covered_iff_Exposed message secrets 4

redact_all-mask_example : redact_all message secrets ≡ mask 0 (secret_spans message secrets) message
redact_all-mask_example = redact_all-mask message secrets
