-- ===== src/Workflow/Advancement.antt =====
-- src/lifecycle/workflow-advancement.ts: how a decision is written to the run store.
pub mod Effects
use symphonika.Base.{ℕ, Bool, true, false, Option, none, some, String, ◌<>◌, List, [], ◌∷◌, ◌++◌}
use symphonika.Base.Tests.{if◌then◌else◌}
use symphonika.Workflow.{ActionKind, State, Workflow, is_issue_content_action_kind}
use symphonika.Workflow.Decision.{find_workflow_state}
use symphonika.Workflow.Progress.{
  Edge, Row, ClaimResult, claimed, unchanged, budget_exhausted, claim_progress_edge,
}
use symphonika.Workflow.Reasons.{
  build_no_progress_reason, build_edge_budget_exhausted_reason, describe_progress_guard_park,
}

-- The decisions that have an effect: those of `decideNextStep` less the other two.
pub data Effectful : Type 0 where
  terminate : String → String → Effectful
  advance : String → String → Effectful
  blocked : String → Effectful

pub record Run : Type 0 where
  pub branch_name : Option String
  pub id : String
  pub issue_number : ℕ
  pub project_name : String
  pub workspace_path : Option String

pub record WaitingRun : Type 0 where
  pub branch_name : Option String
  pub current_state_id : String
  pub id : String
  pub issue_number : ℕ
  pub parent_run_id : String
  pub project_name : String
  pub workspace_path : Option String

-- A call of the run store, with its arguments.
pub data Write : Type 0 where
  workflow_blocked : String → String → String → Write
  workflow_terminal : String → String → String → Write
  waiting_activity : String → String → Write
  state_advance : String → String → String → Write
  waiting_run : WaitingRun → Write

-- The store: its writes, oldest first, and the table of edges.
pub record Store : Type 0 where
  pub writes : List Write
  pub progress : List Row

pub data Guard : Type 0 where
  enabled : String → ℕ → Guard
  exempt : Guard

pub data Mode : Type 0 where
  provider : Bool → Mode
  waiting : Guard → Mode

pub record Input : Type 0 where
  pub current_state : State
  pub mode : Mode
  pub reason_note : Option String
  pub run : Run
  pub workflow : Workflow

pub data Result : Type 0 where
  advanced : String → Result
  blocked : Result
  deferred : Result
  progress_guarded : String → ClaimResult → Edge → String → Result
  parked : String → String → Result
  terminal : String → String → Result

pub is_workflow_parked_action : Option ActionKind → Bool
unfolding is_issue_content_action_kind
is_workflow_parked_action (some ActionKind.wait) = true
is_workflow_parked_action (some ActionKind.merge_pr) = true
is_workflow_parked_action k = is_issue_content_action_kind k

abbrev pub record_write : Store → Write → Store
record_write s w = record s { writes = s.writes ++ w ∷ [] }

abbrev pub transition_reason : Input → String → String
transition_reason input reason = elim input.reason_note [
  | none ↦ reason
  | some note ↦ reason <> " (" <> note <> ")"
]

abbrev pub target_terminal : Option State → Option String
target_terminal none = none
target_terminal (some t) = t.terminal

abbrev target_kind : Option State → Option ActionKind
target_kind none = none
target_kind (some t) = elim t.action [ none ↦ none | some a ↦ some a.kind ]

abbrev pub edge_of : Input → String → Edge
edge_of input to = record {
  from_state_id = input.current_state.id;
  issue_number = input.run.issue_number;
  project_name = input.run.project_name;
  to_state_id = to;
}

abbrev waiting_row : Input → String → String → WaitingRun
waiting_row input to run_id = record {
  branch_name = input.run.branch_name;
  current_state_id = to;
  id = run_id;
  issue_number = input.run.issue_number;
  parent_run_id = input.run.id;
  project_name = input.run.project_name;
  workspace_path = input.run.workspace_path;
}

-- The last part: the advance is recorded, and a parked state gets a row of its own.
pub record_advance : String → Store → Input → String → String → Result × Store
unfolding is_workflow_parked_action
record_advance new_run_id s input reason to =
    let advanced_store =
      record_write s (state_advance input.run.id to (transition_reason input reason)) in
    if is_workflow_parked_action (target_kind (find_workflow_state input.workflow to))
    then (
      parked to new_run_id,
      record_write advanced_store (waiting_run (waiting_row input to new_run_id)),
    )
    else (advanced to, advanced_store)

abbrev is_unchanged : ClaimResult → Bool
is_unchanged unchanged = true
is_unchanged _ = false

abbrev pub is_claimed : ClaimResult → Bool
is_claimed claimed = true
is_claimed _ = false

-- A refused claim: the run stays parked, with the refusal as its reason.
pub hold : Store → Input → String → ClaimResult → ℕ → Result × Store
hold s input to claim max_claims =
    let from = input.current_state.id in
    let park_reason =
      if is_unchanged claim
      then build_no_progress_reason from to
      else build_edge_budget_exhausted_reason from to max_claims in
    (
      progress_guarded (describe_progress_guard_park (is_unchanged claim) from to max_claims) claim
          (edge_of input to) park_reason,
      record_write s (waiting_activity input.run.id park_reason),
    )

-- The guard of a wait that is not exempt.
pub guard : String → ℕ → Store → Input → String → String → String → ℕ → Result × Store
unfolding hold record_advance
guard new_run_id at s input reason to fingerprint max_claims =
    let claim = claim_progress_edge s.progress (edge_of input to) fingerprint max_claims at in
    let after = record s { progress = claim.1 } in
    if is_claimed claim.0
    then record_advance new_run_id after input reason to
    else hold after input to claim.0 max_claims

abbrev pub by_mode : String → ℕ → Store → Input → String → String → Mode → Result × Store
by_mode new_run_id at s input reason to (provider true) = (deferred, s)
by_mode new_run_id at s input reason to (provider false) =
    record_advance new_run_id s input reason to
by_mode new_run_id at s input reason to (waiting (enabled fingerprint max_claims)) =
    guard new_run_id at s input reason to fingerprint max_claims
by_mode new_run_id at s input reason to (waiting exempt) =
    record_advance new_run_id s input reason to

abbrev pub target_id : Option State → String → String
target_id none to = to
target_id (some t) to = t.id

-- applyWorkflowDecision: `new_run_id` is what `createRunId` gives, `at` the time of a claim.
pub apply_workflow_decision : String → ℕ → Store → Input → Effectful → Result × Store
unfolding guard
apply_workflow_decision new_run_id at s input (Effectful.blocked reason) = (
  Result.blocked,
  record_write s
      (workflow_blocked input.run.id input.current_state.id (transition_reason input reason)),
)
apply_workflow_decision new_run_id at s input (terminate state_id label) = (
  terminal label state_id,
  record_write s (workflow_terminal input.run.id state_id ("entered terminal state " <> label)),
)
apply_workflow_decision new_run_id at s input (advance reason to) =
    let target = find_workflow_state input.workflow to in
    elim (target_terminal target) [
      | some label ↦ (
        terminal label (target_id target to),
        record_write s
            (workflow_terminal input.run.id (target_id target to) (transition_reason input reason)),
      )
      | none ↦ by_mode new_run_id at s input reason to input.mode
    ]
