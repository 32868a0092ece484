-- ===== src/StaleClaims.antt =====
-- src/lifecycle/stale-claims.ts: open issues that carry a claim label with no run behind them are
-- labelled stale. Liveness is by project, repository and issue, and by project and issue alone where
-- the repository is not known.
pub mod Live
use symphonika.Base.{
  ℕ, Bool, true, false, ◌&&◌, ◌||◌, not, Option, none, some, String, ◌<>◌, List, [], ◌∷◌, ◌++◌, map,
  str_eq,
}
use symphonika.Base.Tests.{if◌then◌else◌}
use symphonika.Base.Lists.{member}
use symphonika.Base.Decimal.{decimal}
use symphonika.Base.Maps.{Dict, lookup}
use symphonika.Base.Texts.{lower_case}
use symphonika.Issue.{Repository, IssueSnapshot, ProjectIssue, IssuePollStatus, Project, Tracker}
use symphonika.Store.{RunRow}
use symphonika.Store.Queries.{
  RunKey, run_key, list_active_run_ids, list_waiting_run_ids, list_resumable_shutdown_runs,
}
use symphonika.Registry.ActiveRuns.{ActiveRuns}
use symphonika.Registry.InFlight.{IssueKey}
use symphonika.Registry.Reservations
use symphonika.Reconcile.{resolve_token}

abbrev pub issue_key : String → ℕ → String
issue_key project number = project <> ("#" <> decimal number)

abbrev pub repository_issue_key : String → Repository → ℕ → String
repository_issue_key project repository number =
    project
    <> ("#"
        <> (lower_case repository.owner
            <> ("/" <> (lower_case repository.repo <> ("#" <> decimal number)))))

pub record LiveIssueKeys : Type 0 where
  pub qualified : List String
  pub wildcard : List String

-- `Set.prototype.add` at the front: `covers` asks for members only.
pub add : String → Option Repository → ℕ → LiveIssueKeys → LiveIssueKeys
add project none number k = record k { wildcard = issue_key project number ∷ k.wildcard }
add project (some repository) number k = record k {
  qualified = repository_issue_key project repository number ∷ k.qualified;
}

pub covers : LiveIssueKeys → String → Repository → ℕ → Bool
covers k project repository number =
    member (issue_key project number) k.wildcard
    || member (repository_issue_key project repository number) k.qualified

-- The four loops of `collectLiveKeys`, over what they add.
pub add_each : List RunKey → LiveIssueKeys → LiveIssueKeys
unfolding add
add_each [] k = k
add_each (e ∷ es) k = add_each es (add e.project_name e.issue_repository e.issue_number k)

abbrev pub reserved_key : IssueKey → RunKey
reserved_key e = record {
  run_id = "";
  project_name = e.project;
  issue_number = e.number;
  issue_repository = none;
}

pub collect_live_keys : ActiveRuns → List RunRow → LiveIssueKeys
unfolding add_each
collect_live_keys active rows =
    let reserved =
      add_each (map reserved_key (Reservations.issue_keys active.in_flight active.scheduled))
        (record { qualified = []; wildcard = [] }) in
    let running = add_each (list_active_run_ids rows) reserved in
    let waiting = add_each (list_waiting_run_ids rows) running in
    add_each (map run_key (list_resumable_shutdown_runs rows)) waiting

-- How the tracker answers to a label: the call throws, there is no `addLabelsToIssue`, or it is done.
pub data LabelAnswer : Type 0 where
  threw unavailable labelled : LabelAnswer

pub record Input : Type 0 where
  pub active_runs : ActiveRuns
  pub env : Dict String
  pub add_labels_to_issue : Repository → ℕ → String → LabelAnswer
  pub projects : Dict Project
  pub rows : List RunRow

abbrev pub has_any_label : List String → List String → Bool
has_any_label labels [] = false
has_any_label labels (t ∷ ts) = member t labels || has_any_label labels ts

abbrev pub claim_labels : List String
claim_labels = "sym:claimed" ∷ "sym:running" ∷ []

-- The issue has a claim to be looked at, with no run behind it.
pub is_abandoned : LiveIssueKeys → ProjectIssue → Bool
unfolding covers
is_abandoned keys c =
    str_eq c.issue.state "open"
    && (has_any_label c.issue.labels claim_labels
        && (not (member "sym:stale" c.issue.labels)
            && not (covers keys c.project c.repository c.issue.number)))

abbrev pub is_labelled : LabelAnswer → Bool
is_labelled labelled = true
is_labelled _ = false

-- The label is written to the repository that the issue was polled from.
abbrev pub write_label : Input → ProjectIssue → Option String → Bool
write_label input c none = false
write_label input c (some token) =
    is_labelled (input.add_labels_to_issue c.repository c.issue.number token)

abbrev pub tracker_of : Option Project → Option Tracker
tracker_of none = none
tracker_of (some p) = p.tracker

pub marks_issue : Input → LiveIssueKeys → ProjectIssue → Bool
unfolding is_abandoned
marks_issue input keys c = elim (tracker_of (lookup c.project input.projects)) [
  | none ↦ false
  | some tracker ↦
      is_abandoned keys c && write_label input c (resolve_token tracker.token input.env)
]

pub record StaleClaimMark : Type 0 where
  pub issue_number : ℕ
  pub project : String

abbrev pub with_stale : ProjectIssue → ProjectIssue
with_stale c = record c { issue = record c.issue { labels = c.issue.labels ++ "sym:stale" ∷ [] } }

-- The loop over the filtered issues: the marks, and the issues with the labels that were added.
pub detect_each :
    Input → LiveIssueKeys → List ProjectIssue → List StaleClaimMark × List ProjectIssue
unfolding marks_issue
detect_each input keys [] = ([], [])
detect_each input keys (c ∷ cs) =
    let (marks, issues) = detect_each input keys cs in
    if marks_issue input keys c
    then (
      record { issue_number = c.issue.number; project = c.project } ∷ marks,
      with_stale c ∷ issues,
    )
    else (marks, c ∷ issues)

unfoldable pub detect_stale_claims :
    Input → IssuePollStatus → List StaleClaimMark × List ProjectIssue
unfolding detect_each collect_live_keys
detect_stale_claims input poll =
    detect_each input (collect_live_keys input.active_runs input.rows) poll.filtered_issues
