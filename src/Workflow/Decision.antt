-- ===== src/Workflow/Decision.antt =====
-- src/lifecycle/state-machine-dispatch.ts: what a run does next in its workflow state, and
-- src/lifecycle/artifact-probe.ts, whose snapshot answers the artifact predicates.
pub mod Choice
pub mod Artifacts
use symphonika.Base.{
  ℕ, Bool, true, false, ◌&&◌, ◌||◌, not, Option, none, some, String, ◌<>◌, List, [], ◌∷◌, ◌++◌, map,
  str_eq,
}
use symphonika.Base.Tests.{if◌then◌else◌, ◌==◌}
use symphonika.Base.Lists.{filter, find, member, add}
use symphonika.Base.Maps.{lookup, keys}
use symphonika.Base.Decimal.{decimal}
use symphonika.Base.Texts.{join, json_text}
use symphonika.Workflow.{
  ActionKind, PredicateValue, flag, count, str, strings, PredicateMap, Action, Transition, State,
  Workflow,
}
use symphonika.Workflow.Predicates.{
  Evaluation, artifact, workflow_predicate_evaluation, artifact_predicate_paths,
  resolve_artifact_path,
}

pub data Decision : Type 0 where
  execute_action : Action → String → Decision
  terminate : String → String → Decision
  advance : String → String → PredicateMap → Decision
  blocked : String → Decision
  stay_waiting : String → Decision

abbrev pub Resolver : Type 0
Resolver = String → Bool

pub find_workflow_state : Workflow → String → Option State
find_workflow_state workflow state_id = find (λ (s : State). str_eq s.id state_id) workflow.states

-- `JSON.stringify`
abbrev stringify : PredicateValue → String
stringify (flag true) = "true"
stringify (flag false) = "false"
stringify (count n) = decimal n
stringify (str s) = json_text s
stringify (strings ss) = "[" <> join "," (map json_text ss) <> "]"

unfoldable pub describe_value : Option PredicateValue → String
describe_value none = "undefined"
describe_value (some v) = stringify v

-- `===`: two lists are two objects, and never the same one.
unfoldable pub strict_equal : Option PredicateValue → PredicateValue → Bool
strict_equal (some (flag true)) (flag b) = b
strict_equal (some (flag false)) (flag b) = not b
strict_equal (some (count m)) (count n) = m == n
strict_equal (some (str s)) (str t) = str_eq s t
strict_equal _ _ = false

abbrev is_nil {ℓ} : {A : Type ℓ} → List A → Bool
is_nil [] = true
is_nil (x ∷ xs) = false

abbrev not_satisfied : String → String → String
not_satisfied key why = "predicate " <> key <> " not satisfied (" <> why <> ")"

unfoldable pub unmet_artifact_predicate : String → PredicateValue → Option Resolver → Option String
unfolding describe_value
unmet_artifact_predicate key expected artifact_exists = elim (artifact_predicate_paths expected) [
  | none ↦ some (
      not_satisfied key
        (describe_value (some expected) <> " is not a workspace-relative path or list of paths"))
  | some paths ↦ elim artifact_exists [
    | none ↦ some (not_satisfied key ("no run workspace available to check " <> join ", " paths))
    | some exists ↦
        let missing = filter (λ p. not (exists p)) paths in
        if is_nil missing
        then none
        else some (not_satisfied key ("missing from the run workspace: " <> join ", " missing))
  ]
]

abbrev is_artifact : Option Evaluation → Bool
is_artifact (some artifact) = true
is_artifact _ = false

-- One predicate of the map.
unfoldable pub unmet_one : String → PredicateValue → PredicateMap → Option Resolver → Option String
unfolding describe_value
unmet_one key expected signals artifact_exists =
    if is_artifact (workflow_predicate_evaluation key)
    then unmet_artifact_predicate key expected artifact_exists
    else if strict_equal (lookup key signals) expected
    then none
    else some (
        not_satisfied key (
          "expected "
          <> describe_value (some expected)
          <> ", got "
          <> describe_value (lookup key signals)))

unfoldable pub unmet_predicate : PredicateMap → PredicateMap → Option Resolver → Option String
unmet_predicate [] signals artifact_exists = none
unmet_predicate ((key, expected) ∷ predicates) signals artifact_exists =
    let rest = unmet_predicate predicates signals artifact_exists in
    elim (unmet_one key expected signals artifact_exists) [ some unmet ↦ some unmet | none ↦ rest ]

abbrev clause : String × PredicateValue → String
clause (key, value) = key <> "=" <> describe_value (some value)

unfoldable pub describe_transition : String → PredicateMap → String → String
describe_transition from_state_id when to =
    let head = "state " <> from_state_id <> " advanced to " <> to in
    if is_nil when then head else head <> " via " <> join ", " (map clause when)

abbrev action_kind : State → Option ActionKind
action_kind s = elim s.action [ none ↦ none | some a ↦ some a.kind ]

abbrev pub parked_kind : Option ActionKind → Bool
parked_kind (some ActionKind.wait) = true
parked_kind (some ActionKind.merge_pr) = true
parked_kind _ = false

abbrev pub is_parked : State → Bool
is_parked s = parked_kind (action_kind s)

abbrev parked_reason : State → String
parked_reason s = elim (action_kind s) [
  | some ActionKind.merge_pr ↦ "state " <> s.id <> " merge_pr predicates not yet satisfied"
  | _ ↦ "state " <> s.id <> " wait predicates not yet satisfied"
]

-- The loop over the transitions, and what stands after it.
unfoldable pub first_open : State → PredicateMap → Option Resolver → List Transition → Decision
unfolding unmet_predicate describe_transition
first_open s signals artifact_exists [] =
    if is_parked s
    then stay_waiting (parked_reason s)
    else blocked ("state " <> s.id <> " has no transition matching observed signals")
first_open s signals artifact_exists (t ∷ ts) =
    let rest = first_open s signals artifact_exists ts in
    elim (unmet_predicate t.when signals artifact_exists) [
      | none ↦ advance (describe_transition s.id t.when t.to) t.to t.when
      | some unmet ↦ rest
    ]

abbrev pub after_action : State → PredicateMap → Option Resolver → Decision
after_action s signals artifact_exists =
    elim (unmet_predicate s.complete_when signals artifact_exists) [
      | some unmet ↦ blocked ("state " <> s.id <> " complete_when " <> unmet)
      | none ↦ first_open s signals artifact_exists s.transitions
    ]

unfoldable pub decide_next_step : Bool → Option Resolver → PredicateMap → State → Decision
unfolding first_open
decide_next_step action_executed artifact_exists signals s = elim s.terminal [
  | some terminal ↦ terminate s.id terminal
  | none ↦ elim s.action [
    | none ↦ after_action s signals artifact_exists
    | some action ↦
        if not (is_parked s) && not action_executed
        then execute_action action s.id
        else after_action s signals artifact_exists
  ]
]

abbrev add_all : List String → List String → List String
add_all [] into = into
add_all (p ∷ ps) into = add_all ps (add p into)

abbrev or_nil : Option (List String) → List String
or_nil none = []
or_nil (some ps) = ps

unfoldable pub add_artifact_paths : PredicateMap → List String → List String
add_artifact_paths [] into = into
add_artifact_paths ((key, value) ∷ predicates) into =
    let skipped = add_artifact_paths predicates into in
    let added =
      add_artifact_paths predicates (add_all (or_nil (artifact_predicate_paths value)) into) in
    if is_artifact (workflow_predicate_evaluation key) then added else skipped

abbrev transition_paths : List Transition → List String → List String
transition_paths [] into = into
transition_paths (t ∷ ts) into = transition_paths ts (add_artifact_paths t.when into)

unfoldable pub collect_artifact_paths : State → List String
unfolding add_artifact_paths
collect_artifact_paths s = transition_paths s.transitions (add_artifact_paths s.complete_when [])

-- The paths that are there: `stat` is the file system's answer for a resolved path.
abbrev present : (List String → Bool) → String → List String → List String
present stat workspace_path [] = []
present stat workspace_path (c ∷ cs) =
    let rest = present stat workspace_path cs in
    elim (resolve_artifact_path workspace_path c) [
      | none ↦ rest
      | some resolved ↦ if stat resolved then c ∷ rest else rest
    ]

-- probeStateArtifacts
unfoldable pub probe_state_artifacts :
    (List String → Bool) → State → Option String → Option Resolver
unfolding collect_artifact_paths
probe_state_artifacts stat s none = none
probe_state_artifacts stat s (some workspace_path) =
    let found = present stat workspace_path (collect_artifact_paths s) in
    if is_nil (collect_artifact_paths s) || str_eq workspace_path ""
    then none
    else some (λ candidate. member candidate found)
