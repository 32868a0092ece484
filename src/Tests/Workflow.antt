-- ===== src/Tests/Workflow.antt =====
-- A review loop: a workflow with an agent state and a wait, taken through its decisions.
use symphonika.Base.{
  ◌+◌, ◌≤◌, String, Bool, true, false, ◌||◌, Option, none, some, List, [], ◌∷◌, ◌++◌, ◌≡◌, refl,
  arith, str_eq, eq_iff,
}
use symphonika.Base.Lists.{Occurs, member}
use symphonika.Base.Maps.{lookup}
use symphonika.Base.Texts.{
  trim, trim_start, trim_end, has_code, split, split_at, is_space, join, json_text,
}
use symphonika.Provider.{Kind, Terminal}
use symphonika.Workflow.{
  ActionKind, Action, State, Workflow, SourceKind, PredicateMap, flag, strings,
}
use symphonika.Workflow.Predicates.{
  workflow_predicate_evaluation, artifact_predicate_paths, parse_artifact_exists_paths,
  parse_entries, artifact_path_failure, resolve, walk, rev, relative, is_path_inside,
  resolve_artifact_path,
}
use symphonika.Workflow.Decision.{
  Decision, Resolver, decide_next_step, advance, probe_state_artifacts, first_open, unmet_predicate,
  unmet_one, unmet_artifact_predicate, describe_transition, describe_value, strict_equal,
  collect_artifact_paths, add_artifact_paths,
}
use symphonika.Workflow.Decision.Artifacts.{advance_probed}
use symphonika.Workflow.Progress.{Edge, Row, same_edge, row_of, clear_progress_fingerprints}
use symphonika.Workflow.Progress.Budget.{Attempt, attempts, accepted_since_clear, claims_of, one_if}
use symphonika.Workflow.Advancement.{
  Effectful, Input, Store, waiting, enabled, apply_workflow_decision,
}
use symphonika.Workflow.Advancement.Effects.{moves, guarded_move_pays}
use symphonika.Workflow.Outcome.{Label, map_outcome_to_run_state, fuse_workflow_terminal}
use symphonika.Workflow.Outcome.Verdict.{expected_state, state_of_fused}
use symphonika.Workflow.Signals.{
  Source, Checks, Mergeable, ReviewDecision, project_pull_request_signals,
  enumerate_actionable_pull_request_signals,
}
use symphonika.Workflow.Signals.Coverage.{settled_enumerated}
use symphonika.Workflow.Reasons.{build_no_progress_reason, parse_no_progress_reason}
use symphonika.Workflow.Reasons.Parse.{parse-build_no_progress}

abbrev agent : Action
agent = record {
  kind = ActionKind.agent;
  body = none;
  labels = none;
  method = none;
  prompt = none;
  provider = none;
  state_reason = none;
}

abbrev predicates : PredicateMap
predicates =
    ("artifact_exists", strings ("plan.md" ∷ "out/report.md" ∷ []))
    ∷ ("provider_success", flag true)
    ∷ []

abbrev implement : State
implement = record {
  action = some agent;
  complete_when = [];
  id = "implement";
  terminal = none;
  transitions =
      record { to = "wait"; when = ("provider_success", flag false) ∷ [] }
      ∷ record { to = "review"; when = predicates }
      ∷ [];
}

abbrev review : State
review = record {
  action = some (record agent { kind = ActionKind.wait });
  complete_when = [];
  id = "review";
  terminal = none;
  transitions = [];
}

abbrev workflow : Workflow
workflow = record {
  content_hash = "h";
  initial = "implement";
  name = "flow";
  source_kind = SourceKind.raw_fsm;
  source_path = "flow.yml";
  states = implement ∷ review ∷ [];
}

abbrev signals : PredicateMap
signals = ("provider_success", flag true) ∷ []

-- The two files of the predicate, in the workspace `/w/7`.
abbrev stat : List String → Bool
stat p = member "plan.md" p || member "report.md" p

abbrev decided : Decision
decided =
    advance
      "state implement advanced to review via artifact_exists=[\"plan.md\",\"out/report.md\"], provider_success=true"
      "review" predicates

decides :
    decide_next_step true (probe_state_artifacts stat implement (some "/w/7")) signals implement
    ≡ decided
unfolding decide_next_step probe_state_artifacts first_open unmet_predicate unmet_one
    unmet_artifact_predicate describe_transition describe_value strict_equal collect_artifact_paths
    add_artifact_paths workflow_predicate_evaluation artifact_predicate_paths
    parse_artifact_exists_paths parse_entries artifact_path_failure resolve walk rev relative
    is_path_inside resolve_artifact_path trim trim_start trim_end has_code split split_at is_space
    join json_text
decides = refl

abbrev resolver : Option Resolver
resolver = probe_state_artifacts stat implement (some "/w/7")

named :
    artifact_predicate_paths (strings ("plan.md" ∷ "out/report.md" ∷ []))
    ≡ some ("plan.md" ∷ "out/report.md" ∷ [])
unfolding artifact_predicate_paths parse_artifact_exists_paths parse_entries artifact_path_failure
    resolve walk rev relative is_path_inside trim trim_start trim_end has_code split split_at
    is_space
named = refl

advance_probed_example :
    (w : String) × (resolved : List String) × (below : List String) × (some "/w/7" ≡ some w)
    × (resolve_artifact_path w "plan.md" ≡ some resolved)
    × (resolved ≡ resolve [] w ++ below)
    × (stat resolved ≡ true)
advance_probed_example =
    advance_probed stat true signals implement (some "/w/7") "plan.md"
      ("plan.md" ∷ "out/report.md" ∷ []) decides refl named refl

abbrev edge : Edge
edge = record {
  from_state_id = "review";
  issue_number = 7;
  project_name = "web";
  to_state_id = "implement";
}

abbrev observed : String → Attempt
observed fingerprint = record { edge = edge; fingerprint = fingerprint; at = 5 }

abbrev row : Row
row = record { edge = edge; fingerprint = "old"; claim_count = 3; recorded_at = 1 }

accepted_since_clear_example :
    (attempts edge 2
      (observed "a" ∷ observed "b" ∷ observed "c" ∷ [])
      (clear_progress_fingerprints edge.issue_number edge.project_name (row ∷ []))).0
    ≤ 2
accepted_since_clear_example =
    accepted_since_clear edge 2 (observed "a" ∷ observed "b" ∷ observed "c" ∷ []) (row ∷ [])
      (omega arith)

abbrev input : Input
input = record {
  current_state = review;
  mode = waiting (enabled "new" 10);
  reason_note = none;
  run = record {
    branch_name = some "sym/7";
    id = "a";
    issue_number = 7;
    project_name = "web";
    workspace_path = some "/w/7";
  };
  workflow = workflow;
}

abbrev store : Store
store = record { writes = []; progress = row ∷ [] }

three : claims_of (row_of edge (row ∷ [])) ≤ 10
unfolding row_of same_edge
three = omega arith

guarded_move_pays_example :
    let r = apply_workflow_decision "n" 5 store input (Effectful.advance "why" "implement") in
    (claims_of (row_of edge r.1.progress)
      ≡ claims_of (row_of edge store.progress) + one_if (moves r.0))
    × (claims_of (row_of edge r.1.progress) ≤ 10)
guarded_move_pays_example =
    guarded_move_pays "n" 5 store input "why" "implement" "new" 10 refl (omega arith) three

abbrev ended : Terminal
ended = record {
  branch_advanced_since_attempt_start = some true;
  classification = none;
  commits_ahead = some true;
  kind = Kind.success;
  reason = "";
}

state_of_fused_example :
    map_outcome_to_run_state (fuse_workflow_terminal ended (some Label.blocked))
    ≡ expected_state ended (some Label.blocked)
state_of_fused_example = state_of_fused ended (some Label.blocked)

abbrev source : Source
source = record {
  checks = Checks.failure;
  merged = false;
  mergeable = Mergeable.conflicting;
  is_open = true;
  review_decision = ReviewDecision.commented;
  unresolved_review_threads = 3;
}

settled_enumerated_example :
    (cs : PredicateMap) × Occurs cs enumerate_actionable_pull_request_signals
    × ((key : String)
        → str_eq "unresolved_review_threads" key ≡ false
        → lookup key cs ≡ lookup key (project_pull_request_signals source))
settled_enumerated_example = settled_enumerated source refl refl

parse-build_no_progress_example :
    parse_no_progress_reason (some (build_no_progress_reason "review" "fix"))
    ≡ some ("review", "fix")
unfolding has_code
parse-build_no_progress_example =
    parse-build_no_progress "review" "fix" (λ e. ground (arith, (eq_iff "review" "").1 e))
      (λ e. ground (arith, (eq_iff "fix" "").1 e)) refl refl
