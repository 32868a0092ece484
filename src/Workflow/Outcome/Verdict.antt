-- ===== src/Workflow/Outcome/Verdict.antt =====
-- Which run state a fused terminal ends in.
use symphonika.Base.{Option, none, some, Bool, ◌||◌, String, str_eq, ◌≡◌, refl, arith}
use text.Mathlib.Text.{starts_with}
use symphonika.Base.Tests.{if◌then◌else◌}
use symphonika.Run.{RunState}
use symphonika.Provider.{Terminal, Kind}
use symphonika.Workflow.Reasons.{is_provider_override_review_reason}
use symphonika.Workflow.Outcome.{
  Label, success, failure, blocked, fuse_workflow_terminal, overridden, map_outcome_to_run_state,
  is_blocked_outcome,
}

-- The reasons of a failure that wait for a person, written out.
abbrev pub waits_for_person : String → Bool
waits_for_person reason =
    str_eq reason "no_workspace_changes"
    || (str_eq reason "workflow_terminal_blocked"
        || starts_with reason "provider_override_review_required:")

-- The run state of a terminal under a workflow's label, as a table of the terminal's kind and reason.
abbrev pub expected_state : Terminal → Option Label → RunState
expected_state t label = elim t.kind [
  | Kind.cancelled ↦ RunState.cancelled
  | Kind.input_required ↦ RunState.failed
  | Kind.success ↦ (elim label [
    | some failure ↦ RunState.failed
    | some blocked ↦ RunState.blocked
    | _ ↦ RunState.succeeded
  ])
  | Kind.failed ↦ (elim label [
    | some failure ↦ RunState.failed
    | some blocked ↦ RunState.blocked
    | _ ↦ if waits_for_person t.reason then RunState.blocked else RunState.failed
  ])
]

fused_success :
    (t : Terminal) (l : Option Label)
    → t.kind ≡ Kind.success
    → fuse_workflow_terminal t l ≡ overridden t l
unfolding fuse_workflow_terminal
fused_success t l e = rw e

fused_failed :
    (t : Terminal) (l : Option Label)
    → t.kind ≡ Kind.failed
    → fuse_workflow_terminal t l ≡ overridden t l
unfolding fuse_workflow_terminal
fused_failed t l e = rw e

-- A run ends as the workflow's label says, except that a cancelled run stays cancelled and one that
-- needs input fails. Without a failure or blocked label a success succeeds, and a failure is blocked
-- exactly if its reason is `no_workspace_changes`, `workflow_terminal_blocked` or a review that a
-- provider override requires.
pub state_of_fused :
    (t : Terminal) (label : Option Label)
    → map_outcome_to_run_state (fuse_workflow_terminal t label) ≡ expected_state t label
unfolding map_outcome_to_run_state fuse_workflow_terminal is_blocked_outcome
    is_provider_override_review_reason
state_of_fused t label = of t.kind label refl
  where
    of :
        (kind : Kind) (l : Option Label)
        → t.kind ≡ kind
        → map_outcome_to_run_state (fuse_workflow_terminal t l) ≡ expected_state t l
    of Kind.success none e = ground arith
    of Kind.success (some success) e = ground arith
    of Kind.success (some failure) e = rw (fused_success t (some failure) e, e)
    of Kind.success (some blocked) e = rw (fused_success t (some blocked) e, e)
    of Kind.cancelled l e = ground arith
    of Kind.input_required l e = ground arith
    of Kind.failed none e = ground arith
    of Kind.failed (some success) e = ground arith
    of Kind.failed (some failure) e = rw (fused_failed t (some failure) e, e)
    of Kind.failed (some blocked) e = rw (fused_failed t (some blocked) e, e)
