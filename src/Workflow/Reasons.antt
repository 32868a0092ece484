-- ===== src/Workflow/Reasons.antt =====
-- The machine-readable reasons of src/lifecycle/progress-fingerprint.ts and
-- src/lifecycle/terminal-reason.ts: how they are written, and how they are read back.
pub mod Parse
use symphonika.Base.{
  ℕ, Bool, true, false, ◌&&◌, not, Option, none, some, String, ◌<>◌, List, [], ◌∷◌, str_eq,
}
use symphonika.Base.Tests.{if◌then◌else◌}
use symphonika.Base.Decimal.{decimal}
use symphonika.Base.Texts.{split}
use Prim.Native.String.{slice, len}
use text.Mathlib.Text.{starts_with}

abbrev colon : ℕ
colon = 58

abbrev no_progress_prefix : String
no_progress_prefix = "no_progress:"

abbrev edge_budget_exhausted_prefix : String
edge_budget_exhausted_prefix = "edge_budget_exhausted:"

pub build_no_progress_reason : String → String → String
build_no_progress_reason from_state_id to_state_id =
    no_progress_prefix <> from_state_id <> ":" <> to_state_id

pub build_edge_budget_exhausted_reason : String → String → ℕ → String
build_edge_budget_exhausted_reason from_state_id to_state_id max_claims =
    edge_budget_exhausted_prefix <> from_state_id <> ":" <> to_state_id <> ":" <> decimal max_claims

abbrev suffix : String → String → String
suffix prefix reason = slice reason (len prefix) (len reason)

abbrev pair : List String → Option (String × String)
pair (from_state_id ∷ to_state_id ∷ []) =
    if str_eq from_state_id ""
    then none
    else if str_eq to_state_id ""
    then none
    else some (from_state_id, to_state_id)
pair _ = none

pub parse_no_progress_reason : Option String → Option (String × String)
parse_no_progress_reason none = none
parse_no_progress_reason (some reason) =
    if starts_with reason no_progress_prefix
    then pair (split colon (suffix no_progress_prefix reason))
    else none

pub describe_progress_guard_park : Bool → String → String → ℕ → String
describe_progress_guard_park is_unchanged from_state_id to_state_id max_claims =
    let taking = from_state_id <> " -> " <> to_state_id in
    if is_unchanged
    then "The workflow is parked: taking " <> taking
      <> " again would repeat work it already did, and nothing it can observe (PR head, checks, review feedback) has changed since that transition last ran. Symphonika will not retry on its own; it resumes once the observation changes, for example after a new push to the PR branch."
    else "The workflow is parked: "
      <> taking
      <> " reached its edge budget after "
      <> decimal max_claims
      <> " accepted advances without reaching a terminal state."

pub data CapReachedKind : Type 0 where
  no_commits no_pr work_landed unknown : CapReachedKind

abbrev kind_text : CapReachedKind → String
kind_text no_commits = "no_commits"
kind_text no_pr = "no_pr"
kind_text work_landed = "work_landed"
kind_text unknown = "unknown"

abbrev cap_reached_prefix : String
cap_reached_prefix = "cap_reached:"

pub build_cap_reached_reason : CapReachedKind → String
build_cap_reached_reason kind = cap_reached_prefix <> kind_text kind

abbrev kind_of : String → Option CapReachedKind
kind_of s =
    if str_eq s "no_commits"
    then some no_commits
    else if str_eq s "no_pr"
    then some no_pr
    else if str_eq s "work_landed"
    then some work_landed
    else if str_eq s "unknown"
    then some unknown
    else none

pub parse_cap_reached_reason : Option String → Option CapReachedKind
parse_cap_reached_reason none = none
parse_cap_reached_reason (some reason) =
    if starts_with reason cap_reached_prefix
    then kind_of (suffix cap_reached_prefix reason)
    else none

pub is_no_workspace_changes_reason : Option String → Bool
is_no_workspace_changes_reason none = false
is_no_workspace_changes_reason (some reason) = str_eq reason "no_workspace_changes"

pub build_merge_pr_refused_reason : ℕ → String → String
build_merge_pr_refused_reason pr_number message =
    "merge_pr_refused:" <> " PR #" <> decimal pr_number <> ": " <> message

abbrev has_prefix : String → Option String → Bool
has_prefix prefix none = false
has_prefix prefix (some reason) = starts_with reason prefix

pub is_merge_pr_refused_reason : Option String → Bool
is_merge_pr_refused_reason reason = has_prefix "merge_pr_refused:" reason

unfoldable pub is_provider_override_review_reason : Option String → Bool
is_provider_override_review_reason reason = has_prefix "provider_override_review_required:" reason
