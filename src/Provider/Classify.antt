-- ===== src/Provider/Classify.antt =====
-- src/lifecycle/classify-failure.ts: the terminal of an attempt, before its reason is redacted.
-- What `git` answers about the workspace is part of the input, `none` where the command throws.
pub mod Success
use symphonika.Base.{
  ℕ, zero, suc, ◌-◌, Bool, true, false, ◌&&◌, ◌||◌, not, Option, none, some, String, ◌<>◌, List, [],
  ◌∷◌, str_eq,
}
use symphonika.Base.Tests.{if◌then◌else◌, leb}
use symphonika.Base.Json.{Event}
use symphonika.Base.Texts.{lower_case}
use symphonika.Run.{FailureClassification}
use symphonika.Provider.{Terminal, Kind}
use symphonika.Provider.Completion.{
  Completion, Grade, deterministic, transient, clean_exit, cancelled, input_required, failed,
  classify_provider_completion,
}
use Prim.Native.Char.{Char, code}
use Prim.Native.String.{[] as ε, ◌∷◌ as ◌◂◌, slice}
use text.Mathlib.Text.{find?}

-- What was thrown: an error of the workspace's preparation with its code, or anything else with its
-- message and, for an object that has one, the text of its `code`.
pub data Thrown : Type 0 where
  workspace_preparation : String → Thrown
  other : String → Option String → Thrown

pub record Workspace : Type 0 where
  pub allow_zero_commits : Bool
  pub head_inspection_failed : Bool
  pub content_digest_at_start : Option String
  pub commits_ahead : Option Bool
  pub content_digest : Option String

pub record Input : Type 0 where
  pub cancel_requested : Bool
  pub error : Option Thrown
  pub events : List Event
  pub success_workspace : Option Workspace

abbrev pub failure : FailureClassification → String → Terminal
failure classification reason = record {
  branch_advanced_since_attempt_start = none;
  classification = some classification;
  commits_ahead = none;
  kind = Kind.failed;
  reason = reason;
}

abbrev pub without_classification : Kind → String → Terminal
without_classification kind reason = record {
  branch_advanced_since_attempt_start = none;
  classification = none;
  commits_ahead = none;
  kind = kind;
  reason = reason;
}

pub workspace_inspection_failed : Terminal
workspace_inspection_failed =
    failure FailureClassification.deterministic "workspace_inspection_failed"

-- An `i` expression matches a letter of ASCII in either case, and no other character with it.
abbrev contains : String → String → Bool
contains s t = elim (find? s t) [ none ↦ false | some at ↦ true ]

pub is_render_error : String → Bool
unfolding lower_case
is_render_error message =
    let m = lower_case message in
    contains m "workflow"
    || contains m "prompt"
    || contains m "unknown variable"
    || contains m "render"
    || contains m "workflow contract"
    || contains m "workflow template"

abbrev is_enoent : Option String → Bool
is_enoent none = false
is_enoent (some c) = str_eq c "ENOENT"

pub classify_error : Thrown → Terminal
unfolding is_render_error
classify_error (workspace_preparation c) =
    failure FailureClassification.deterministic ("workspace_" <> c)
classify_error (other message c) =
    if is_render_error message
    then failure FailureClassification.deterministic ("render_error: " <> message)
    else if is_enoent c
    then failure FailureClassification.deterministic ("binary_missing: " <> message)
    else failure FailureClassification.transient message

-- computeBranchAdvancedSinceAttemptStart: `none` where reading the digest throws.
unfoldable pub branch_advanced : Workspace → Option Bool
branch_advanced w = elim w.content_digest_at_start [
  | none ↦ some true
  | some start ↦ elim w.content_digest [
    | none ↦ none
    | some current ↦ some (not (str_eq current start))
  ]
]

abbrev pub success : Bool → Option Bool → Terminal
success commits_ahead advanced = record {
  branch_advanced_since_attempt_start = advanced;
  classification = none;
  commits_ahead = some commits_ahead;
  kind = Kind.success;
  reason = "";
}

unfoldable pub verify_workspace_success : Option Workspace → Terminal
unfolding workspace_inspection_failed branch_advanced
verify_workspace_success none = workspace_inspection_failed
verify_workspace_success (some w) =
    if w.head_inspection_failed then workspace_inspection_failed else (elim w.commits_ahead [
      | none ↦ workspace_inspection_failed
      | some false ↦
          if w.allow_zero_commits
          then success false none
          else failure FailureClassification.deterministic "no_workspace_changes"
      | some true ↦ elim (branch_advanced w) [
        | none ↦ workspace_inspection_failed
        | some advanced ↦ success true (some advanced)
      ]
    ])

unfoldable pub terminal_of : Completion → Option Workspace → Terminal
unfolding verify_workspace_success
terminal_of clean_exit workspace = verify_workspace_success workspace
terminal_of (cancelled reason) workspace = without_classification Kind.cancelled reason
terminal_of (input_required reason) workspace = record {
  branch_advanced_since_attempt_start = none;
  classification = some FailureClassification.input_required;
  commits_ahead = none;
  kind = Kind.input_required;
  reason = reason;
}
terminal_of (failed deterministic reason) workspace =
    failure FailureClassification.deterministic reason
terminal_of (failed transient reason) workspace = failure FailureClassification.transient reason

-- classifyFailureUnredacted
unfoldable pub classify_failure : (String → String) → Input → Terminal
unfolding classify_error terminal_of
classify_failure with_tail input =
    if input.cancel_requested
    then without_classification Kind.cancelled "cancelled"
    else (elim input.error [
      | some thrown ↦ classify_error thrown
      | none ↦
          terminal_of (classify_provider_completion with_tail input.events) input.success_workspace
    ])
