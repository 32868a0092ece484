-- ===== src/Reconcile.antt =====
-- src/lifecycle/reconcile.ts: which of the runs in flight are cancelled because of their issues, and
-- src/lifecycle/token.ts. A pass is taken with no other step between its waits.
pub mod Spared
pub mod Cancelled
use symphonika.Base.{
  ℕ, Bool, true, false, ◌&&◌, ◌||◌, not, Option, none, some, String, List, [], ◌∷◌, str_eq,
}
use symphonika.Base.Tests.{if◌then◌else◌, leb, ◌==◌}
use symphonika.Base.Lists.{any}
use symphonika.Base.Maps.{Dict, lookup}
use symphonika.Run.{CancelReason}
use symphonika.Issue.{
  Repository, IssueSnapshot, IssuePollStatus, Project, Tracker, same_issue_repository,
  find_polled_issue_snapshot,
}
use symphonika.Issue.Eligibility.{
  Filter, Scope, fsm_owned, label_controlled, Eligibility, evaluate_run_continuation_eligibility,
}
use symphonika.Store.{RunRow, Store}
use symphonika.Store.Runs.{is_id, mark_cancel_requested}
use symphonika.Store.Queries.{get_run_issue_repository}
use symphonika.Registry.InFlight
use symphonika.Registry.InFlight.{Entry, request_cancel, list}
use Prim.Native.Char.{Char, code}
use Prim.Native.String.{[] as ε, ◌∷◌ as ◌◂◌}

abbrev pub is_letter : Char → Bool
is_letter c =
    (leb 65 (code c) && leb (code c) 90)
    || ((leb 97 (code c) && leb (code c) 122) || (code c == 95))

abbrev pub is_name_rest : String → Bool
is_name_rest ε = true
is_name_rest (c ◂ s) = (is_letter c || (leb 48 (code c) && leb (code c) 57)) && is_name_rest s

-- The group of `/^\$([A-Za-z_][A-Za-z0-9_]*)$/`.
abbrev pub variable_name : String → Option String
variable_name ε = none
variable_name (c ◂ ε) = none
variable_name (c ◂ (d ◂ s)) =
    if (code c == 36) && (is_letter d && is_name_rest s) then some (d ◂ s) else none

abbrev pub non_empty : Option String → Option String
non_empty none = none
non_empty (some value) = if str_eq value "" then none else some value

-- resolveToken
unfoldable pub resolve_token : String → Dict String → Option String
resolve_token reference env = elim (variable_name reference) [
  | none ↦ none
  | some name ↦ non_empty (lookup name env)
]

-- What GitHub answers for an issue: the call throws, or the adapter has no `getIssue`, or the issue
-- is missing, or it has a state.
pub data Answer : Type 0 where
  threw unavailable missing : Answer
  found : String → Answer

pub record Input : Type 0 where
  pub env : Dict String
  pub get_issue : Repository → ℕ → String → Answer
  pub poll_status : IssuePollStatus
  pub projects : Dict Project

abbrev pub closing : Answer → Option CancelReason
closing threw = none
closing unavailable = none
closing missing = some CancelReason.closed_issue
closing (found state) = if str_eq state "closed" then some CancelReason.closed_issue else none

pub handle_missing_from_poll : Input → Tracker → Entry → Option CancelReason
unfolding resolve_token
handle_missing_from_poll input tracker e = elim (resolve_token tracker.token input.env) [
  | none ↦ none
  | some token ↦ closing (input.get_issue tracker.repository e.issue_number token)
]

abbrev pub scope_of : Entry → Scope
scope_of e = if e.respects_issue_labels then label_controlled else fsm_owned

unfoldable pub polled : Project → Tracker → Entry → IssueSnapshot → Option CancelReason
polled project tracker e snapshot =
    let filter : Filter = record {
      filters = project.issue_filters;
      repository = tracker.repository;
    } in
    if not (str_eq snapshot.state "open")
    then some CancelReason.closed_issue
    else if not (evaluate_run_continuation_eligibility snapshot filter (scope_of e)).eligible
    then some CancelReason.eligibility_loss
    else none

-- The run's issue is recorded in another repository than the tracker's.
abbrev pub elsewhere : Option Repository → Repository → Bool
elsewhere none tracker = false
elsewhere (some origin) tracker = not (same_issue_repository origin tracker)

unfoldable pub judge_tracked : Input → List RunRow → Project → Tracker → Entry → Option CancelReason
unfolding handle_missing_from_poll polled
judge_tracked input rows project tracker e =
    if not (any (is_id e.run_id) rows)
    then none
    else if elsewhere (get_run_issue_repository e.run_id rows) tracker.repository
    then none
    else (elim (find_polled_issue_snapshot input.poll_status e.project_name tracker.repository
        e.issue_number) [
          | none ↦ handle_missing_from_poll input tracker e
          | some snapshot ↦ polled project tracker e snapshot
        ])

abbrev pub judge_project : Input → List RunRow → Entry → Option Project → Option CancelReason
judge_project input rows e none = none
judge_project input rows e (some project) = elim project.tracker [
  | none ↦ none
  | some tracker ↦ judge_tracked input rows project tracker e
]

-- The reason that the loop's body cancels the run for, if it does.
unfoldable pub judge : Input → List RunRow → Entry → Option CancelReason
judge input rows e =
    if e.cancel_requested
    then none
    else judge_project input rows e (lookup e.project_name input.projects)

-- What a pass changes.
pub record World : Type 0 where
  pub store : Store
  pub runs : InFlight.Registry

pub mark_cancelled : String → CancelReason → String → World → World
mark_cancelled run_id reason now w = record {
  store = mark_cancel_requested run_id reason now w.store;
  runs = (request_cancel w.runs run_id reason false).0;
}

abbrev pub cancel_if : String → String → Option CancelReason → World → World
cancel_if run_id now none w = w
cancel_if run_id now (some reason) w = mark_cancelled run_id reason now w

pub reconcile_each : Input → String → List Entry → World → World
unfolding judge
reconcile_each input now [] w = w
reconcile_each input now (e ∷ es) w =
    reconcile_each input now es (cancel_if e.run_id now (judge input w.store.runs e) w)

pub reconcile_active_runs : Input → String → World → World
unfolding reconcile_each
reconcile_active_runs input now w = reconcile_each input now (list w.runs) w
