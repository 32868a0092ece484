-- ===== src/Store/Queries.antt =====
-- The queries on the rows of runs (src/run-store.ts). SQLite compares texts by their characters'
-- codes; a query that names an order and leaves ties gives them in the table's order.
pub mod Resumable
use symphonika.Base.{
  ℕ, Bool, true, false, ◌&&◌, ◌||◌, not, Option, none, some, String, List, [], ◌∷◌, map, str_eq,
}
use symphonika.Base.Tests.{if◌then◌else◌, ◌==◌}
use symphonika.Base.Lists.{filter, any, find, length}
use symphonika.Base.Texts.{lower_case}
use symphonika.Base.Order.{precedes}
use symphonika.Run.{RunState, CancelReason}
use symphonika.Store.{RunRow}
use symphonika.Issue.{Repository}
use symphonika.Store.Runs.{is_id, is_waiting, is_shutdown}
use symphonika.Workflow.Reasons.{is_no_workspace_changes_reason}

-- toIssueRepository
abbrev pub to_issue_repository : Option String → Option String → Option Repository
to_issue_repository none repo = none
to_issue_repository (some owner) none = none
to_issue_repository (some owner) (some repo) = some (record { owner = owner; repo = repo })

unfoldable pub get_run_issue_repository : String → List RunRow → Option Repository
get_run_issue_repository id rows = elim (find (is_id id) rows) [
  | none ↦ none
  | some r ↦ to_issue_repository r.issue_owner r.issue_repo
]

-- What the three liveness queries give of a row.
pub record RunKey : Type 0 where
  pub run_id : String
  pub project_name : String
  pub issue_number : ℕ
  pub issue_repository : Option Repository

abbrev pub run_key : RunRow → RunKey
run_key r = record {
  run_id = r.id;
  project_name = r.project_name;
  issue_number = r.issue_number;
  issue_repository = to_issue_repository r.issue_owner r.issue_repo;
}

abbrev pub is_active : RunState → Bool
is_active RunState.queued = true
is_active RunState.preparing_workspace = true
is_active RunState.running = true
is_active _ = false

unfoldable pub list_active_run_ids : List RunRow → List RunKey
list_active_run_ids rows = map run_key (filter (λ r. is_active r.state) rows)

unfoldable pub list_waiting_run_ids : List RunRow → List RunKey
list_waiting_run_ids rows = map run_key (filter (λ r. is_waiting r.state) rows)

abbrev pub is_cancelled : RunState → Bool
is_cancelled RunState.cancelled = true
is_cancelled _ = false

abbrev pub is_none : Option String → Bool
is_none none = true
is_none (some t) = false

-- `lower(a) is lower(b)`: two nulls are one.
abbrev pub same_folded : Option String → Option String → Bool
same_folded none none = true
same_folded (some a) (some b) = str_eq (lower_case a) (lower_case b)
same_folded _ _ = false

-- The two rows are of one issue of one project and repository.
abbrev pub same_history : RunRow → RunRow → Bool
same_history n r =
    str_eq n.project_name r.project_name
    && ((n.issue_number == r.issue_number)
        && (same_folded n.issue_owner r.issue_owner && same_folded n.issue_repo r.issue_repo))

abbrev pub newer : RunRow → RunRow → Bool
newer n r =
    precedes r.created_at n.created_at || (str_eq n.created_at r.created_at && precedes r.id n.id)

pub is_resumable : List RunRow → RunRow → Bool
is_resumable rows r =
    (is_shutdown r.cancel_reason && is_cancelled r.state)
    && (is_none r.shutdown_resume_declined_at
        && not (any (λ n. same_history n r && newer n r) rows))

abbrev pub insert_by : (RunRow → RunRow → Bool) → RunRow → List RunRow → List RunRow
insert_by first r [] = r ∷ []
insert_by first r (n ∷ ns) =
    let rest = insert_by first r ns in if first n r then n ∷ rest else r ∷ n ∷ ns

-- `order by`, with the rows of one rank in the order of the table.
abbrev pub order_by : (RunRow → RunRow → Bool) → List RunRow → List RunRow
order_by first [] = []
order_by first (r ∷ rs) = insert_by first r (order_by first rs)

abbrev pub created_before : RunRow → RunRow → Bool
created_before n r = precedes n.created_at r.created_at

unfoldable pub list_resumable_shutdown_runs : List RunRow → List RunRow
unfolding is_resumable
list_resumable_shutdown_runs rows = order_by created_before (filter (is_resumable rows) rows)

-- `issue_owner is null or issue_repo is null or` the repository is the one that is asked for.
abbrev pub may_be_in : Repository → RunRow → Bool
may_be_in repository r = elim (to_issue_repository r.issue_owner r.issue_repo) [
  | none ↦ true
  | some origin ↦
      str_eq (lower_case origin.owner) (lower_case repository.owner)
      && str_eq (lower_case origin.repo) (lower_case repository.repo)
]

abbrev pub in_history : String → ℕ → Repository → RunRow → Bool
in_history project number repository r =
    str_eq r.project_name project && ((r.issue_number == number) && may_be_in repository r)

abbrev pub first_row : List RunRow → Option RunRow
first_row [] = none
first_row (r ∷ rs) = some r

abbrev pub is_blocked : RunState → Bool
is_blocked RunState.blocked = true
is_blocked _ = false

abbrev pub suppresses : Option RunRow → Bool
suppresses none = false
suppresses (some r) = is_blocked r.state && is_no_workspace_changes_reason r.terminal_reason

unfoldable pub latest_run_suppresses_fresh_dispatch : String → ℕ → Repository → List RunRow → Bool
latest_run_suppresses_fresh_dispatch project number repository rows =
    suppresses (first_row (order_by newer (filter (in_history project number repository) rows)))

-- findWaitingRunByIssue
pub find_waiting_run_by_issue : String → ℕ → List RunRow → Option RunRow
find_waiting_run_by_issue project number rows = first_row (
    order_by (λ n r. precedes r.created_at n.created_at)
      (filter
        (λ r.
          (is_waiting r.state && not r.cancel_requested)
          && (str_eq r.project_name project && (r.issue_number == number)))
        rows))

-- listWaitingRuns: rows with a state to be at.
pub list_waiting_runs : List RunRow → List RunRow
list_waiting_runs rows =
    order_by created_before
      (filter (λ r. is_waiting r.state && not (is_none r.current_state_id)) rows)

abbrev is_succeeded : RunState → Bool
is_succeeded RunState.succeeded = true
is_succeeded _ = false

pub count_succeeded_continuations : String → ℕ → List RunRow → ℕ
count_succeeded_continuations project number rows = length (
    filter
      (λ r.
        (str_eq r.project_name project && (r.issue_number == number))
        && (is_succeeded r.state && r.is_continuation))
      rows)

pub mark_shutdown_resume_declined : String → String → List RunRow → List RunRow
mark_shutdown_resume_declined id now [] = []
mark_shutdown_resume_declined id now (r ∷ rs) =
    (if is_id id r
      then record r { shutdown_resume_declined_at = some now; updated_at = now }
      else r)
    ∷ mark_shutdown_resume_declined id now rs
