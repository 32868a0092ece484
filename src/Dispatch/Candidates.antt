-- ===== src/Dispatch/Candidates.antt =====
-- `pickProjectCandidate` of src/lifecycle/run-controller.ts with what it asks: reservations, the run
-- store, provider plans (`getActiveProviderPlan`, `isConsumableProviderPlan`) and wait parks. The
-- loading of a workflow and the overlap guard read files and GitHub; what they answer is given.
pub mod Admission
pub mod First
use symphonika.Base.{
  ℕ, Bool, true, false, ◌&&◌, ◌||◌, not, Option, none, some, String, List, [], ◌∷◌, str_eq,
}
use symphonika.Base.Tests.{if◌then◌else◌, ◌==◌}
use symphonika.Base.Int.{ℤ}
use symphonika.Base.Lists.{any, find, member}
use symphonika.Base.Order.{precedes}
use symphonika.Base.Texts.{lower_case}
use symphonika.Issue.{Repository, Project, Tracker}
use symphonika.Issue.Priority.{compare_candidate_issues, sort}
use symphonika.Registry.ActiveRuns.{ActiveRuns, is_issue_reserved}
use symphonika.Store.{RunRow}
use symphonika.Store.Queries.{latest_run_suppresses_fresh_dispatch, find_waiting_run_by_issue}
use symphonika.Dispatch.{Candidate}

-- The status of a row of `run_chain_provider_plans`.
pub data PlanStatus : Type 0 where
  pending label_written label_failed expired cancelled consumed superseded : PlanStatus

pub record PlanRow : Type 0 where
  pub id : String
  pub repository : Repository
  pub issue_number : ℕ
  pub status : PlanStatus
  pub updated_at : String

abbrev pub is_plan_live : PlanStatus → Bool
is_plan_live PlanStatus.pending = true
is_plan_live PlanStatus.label_written = true
is_plan_live PlanStatus.label_failed = true
is_plan_live PlanStatus.expired = true
is_plan_live _ = false

-- isConsumableProviderPlan
abbrev pub is_consumable : PlanStatus → Bool
is_consumable PlanStatus.pending = true
is_consumable PlanStatus.label_written = true
is_consumable _ = false

-- The update before the query: a pending plan from before the cutoff expires.
abbrev pub lapsed : String → PlanRow → PlanStatus
lapsed cutoff plan = elim plan.status [
  | PlanStatus.pending ↦
      if precedes plan.updated_at cutoff then PlanStatus.expired else PlanStatus.pending
  | s ↦ s
]

abbrev pub is_plan_of : Repository → ℕ → PlanRow → Bool
is_plan_of repository number plan =
    str_eq (lower_case plan.repository.owner) (lower_case repository.owner)
    && (str_eq (lower_case plan.repository.repo) (lower_case repository.repo)
        && (plan.issue_number == number))

unfoldable pub active_plan_status : String → Repository → ℕ → List PlanRow → Option PlanStatus
active_plan_status cutoff repository number [] = none
active_plan_status cutoff repository number (p ∷ ps) =
    let rest = active_plan_status cutoff repository number ps in
    if is_plan_of repository number p && is_plan_live (lapsed cutoff p)
    then some (lapsed cutoff p)
    else rest

abbrev pub blocks : Option PlanStatus → Bool
blocks none = false
blocks (some s) = not (is_consumable s)

unfoldable pub has_blocking_provider_plan : String → Tracker → ℕ → List PlanRow → Bool
has_blocking_provider_plan cutoff tracker number plans =
    blocks (active_plan_status cutoff tracker.repository number plans)

-- What `loadRawFsmWorkflow` gives: no raw state machine, a failure, or the names of its states.
pub data Load : Type 0 where
  not_raw load_failed : Load
  raw : List String → Load

-- What a pick reads.
pub record Facts : Type 0 where
  pub active_runs : ActiveRuns
  pub rows : List RunRow
  pub plans : List PlanRow
  pub plan_cutoff : String
  pub load_raw_fsm_workflow : Project → Load
  pub has_known_overlap : Candidate → Bool
  pub locale_compare : String → String → ℤ

abbrev pub is_parked_at : List String → Option RunRow → Bool
is_parked_at states none = false
is_parked_at states (some r) = elim r.current_state_id [ none ↦ false | some id ↦ member id states ]

pub is_issue_parked_at_raw_fsm_state : Load → String → ℕ → List RunRow → Bool
is_issue_parked_at_raw_fsm_state not_raw project number rows = false
is_issue_parked_at_raw_fsm_state load_failed project number rows = false
is_issue_parked_at_raw_fsm_state (raw states) project number rows =
    is_parked_at states (find_waiting_run_by_issue project number rows)

-- The checks that ask for a tracker apply to dispatch projects alone.
abbrev pub tracked_blocks : Facts → Project → ℕ → Option Tracker → Bool
tracked_blocks f project number none = false
tracked_blocks f project number (some tracker) =
    latest_run_suppresses_fresh_dispatch project.name number tracker.repository f.rows
    || has_blocking_provider_plan f.plan_cutoff tracker number f.plans

-- The body of the loop lets the candidate through.
pub is_admissible : Facts → Project → Load → Candidate → Bool
unfolding is_issue_parked_at_raw_fsm_state
is_admissible f project workflow c =
    not (is_issue_reserved f.active_runs c.found.project c.found.issue.number)
    && (not (tracked_blocks f project c.found.issue.number project.tracker)
        && (not (is_issue_parked_at_raw_fsm_state workflow project.name c.found.issue.number f.rows)
            && (not project.overlap_guard || not (f.has_known_overlap c))))

abbrev pub compare_candidates : Facts → Candidate → Candidate → ℤ
compare_candidates f l r = compare_candidate_issues f.locale_compare l.found.issue r.found.issue

unfoldable pub pick_loaded : Facts → Project → Load → List Candidate → Option Candidate
unfolding is_admissible
pick_loaded f project load_failed bucket = none
pick_loaded f project not_raw bucket =
    find (is_admissible f project not_raw) (sort (compare_candidates f) bucket)
pick_loaded f project (raw states) bucket =
    find (is_admissible f project (raw states)) (sort (compare_candidates f) bucket)

unfoldable pub pick_project_candidate : Facts → Project → List Candidate → Option Candidate
unfolding pick_loaded
pick_project_candidate f project bucket =
    pick_loaded f project (f.load_raw_fsm_workflow project) bucket
