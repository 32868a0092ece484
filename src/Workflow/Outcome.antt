-- ===== src/Workflow/Outcome.antt =====
-- src/lifecycle/outcome-projection.ts: what a classified terminal makes of the run's state and of
-- the workflow's signals, and how a workflow's own terminal label overrides it.
pub mod Verdict
use symphonika.Base.{
  Bool, true, false, ◌&&◌, ◌||◌, Option, none, some, String, List, [], ◌∷◌, str_eq,
}
use symphonika.Base.Tests.{if◌then◌else◌}
use symphonika.Run.{RunState, FailureClassification}
use symphonika.Provider.{Terminal, Kind}
use symphonika.Workflow.{PredicateMap, flag}
use symphonika.Workflow.Reasons.{is_provider_override_review_reason}

pub data Label : Type 0 where
  success failure blocked : Label

abbrev is_failed : Kind → Bool
is_failed Kind.failed = true
is_failed _ = false

abbrev blocked_reason : String → Bool
blocked_reason reason =
    str_eq reason "no_workspace_changes" || str_eq reason "workflow_terminal_blocked"

pub is_blocked_outcome : Terminal → Bool
unfolding is_provider_override_review_reason
is_blocked_outcome t =
    is_failed t.kind
    && (blocked_reason t.reason || is_provider_override_review_reason (some t.reason))

pub map_outcome_to_run_state : Terminal → RunState
unfolding is_blocked_outcome
map_outcome_to_run_state t = if is_blocked_outcome t then RunState.blocked else (elim t.kind [
  | Kind.success ↦ RunState.succeeded
  | Kind.cancelled ↦ RunState.cancelled
  | Kind.input_required ↦ RunState.failed
  | Kind.failed ↦ RunState.failed
])

pub narrow_terminal_label : Option String → Option Label
narrow_terminal_label none = none
narrow_terminal_label (some value) =
    if str_eq value "success"
    then some success
    else if str_eq value "failure"
    then some failure
    else if str_eq value "blocked"
    then some blocked
    else none

abbrev verdict : String → Terminal
verdict reason = record {
  branch_advanced_since_attempt_start = none;
  classification = some FailureClassification.deterministic;
  commits_ahead = none;
  kind = Kind.failed;
  reason = reason;
}

abbrev pub overridden : Terminal → Option Label → Terminal
overridden t (some failure) = verdict "workflow_terminal_failure"
overridden t (some blocked) = verdict "workflow_terminal_blocked"
overridden t _ = t

pub fuse_workflow_terminal : Terminal → Option Label → Terminal
fuse_workflow_terminal t label = elim t.kind [
  | Kind.cancelled ↦ t
  | Kind.input_required ↦ t
  | _ ↦ overridden t label
]

pub fuse_terminal_label : Terminal → Option String → Terminal
unfolding fuse_workflow_terminal narrow_terminal_label
fuse_terminal_label t raw_label = fuse_workflow_terminal t (narrow_terminal_label raw_label)

abbrev signals : Bool → Bool → Bool → PredicateMap
signals advanced ahead succeeded =
    ("branch_advanced_since_attempt_start", flag advanced)
    ∷ ("branch_ahead_of_base", flag ahead)
    ∷ ("provider_success", flag succeeded)
    ∷ []

abbrev or_false : Option Bool → Bool
or_false none = false
or_false (some b) = b

pub signals_from_terminal : Terminal → PredicateMap
signals_from_terminal t = elim t.kind [
  | Kind.success ↦ signals (or_false t.branch_advanced_since_attempt_start) true true
  | Kind.failed ↦
      if str_eq t.reason "no_workspace_changes"
      then signals false false true
      else signals false false false
  | _ ↦ signals false false false
]
