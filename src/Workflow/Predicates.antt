-- ===== src/Workflow/Predicates.antt =====
-- src/workflow/predicates.ts: which predicate keys there are, and the paths of `artifact_exists`.
-- Paths are the POSIX ones of `node:path`: a resolved path is the list of its segments.
pub mod Containment
use symphonika.Base.{
  ℕ, Bool, true, false, ◌||◌, not, Option, none, some, String, ◌<>◌, List, [], ◌∷◌, ◌++◌, str_eq,
}
use symphonika.Base.Tests.{if◌then◌else◌}
use symphonika.Base.Lists.{member}
use symphonika.Base.Texts.{trim, has_code, split}
use symphonika.Workflow.{PredicateValue, flag, count, str, strings}
use text.Mathlib.Text.{starts_with}

pub data Evaluation : Type 0 where
  agent_signal artifact claim_signal pr_signal : Evaluation

abbrev agent_keys : List String
agent_keys =
    "branch_advanced_since_attempt_start" ∷ "branch_ahead_of_base" ∷ "provider_success" ∷ []

abbrev pr_keys : List String
pr_keys =
    "checks" ∷ "has_unresolved_reviews" ∷ "mergeable" ∷ "pr_merged" ∷ "pr_open" ∷ "review_decision"
    ∷ "unresolved_review_threads" ∷ []

unfoldable pub workflow_predicate_evaluation : String → Option Evaluation
workflow_predicate_evaluation key =
    if str_eq "artifact_exists" key
    then some artifact
    else if str_eq "claim_status" key
    then some claim_signal
    else if member key agent_keys
    then some agent_signal
    else if member key pr_keys
    then some pr_signal
    else none

abbrev slash : ℕ
slash = 47

abbrev up : List String → List String
up [] = []
up (s ∷ r) = r

-- The walk of `path.resolve` over segments, the innermost directory first.
unfoldable pub walk : List String → List String → List String
walk dirs [] = dirs
walk dirs (s ∷ r) =
    let skipped = walk dirs r in
    let raised = walk (up dirs) r in
    let entered = walk (s ∷ dirs) r in
    if str_eq s "" || str_eq s "." then skipped else if str_eq s ".." then raised else entered

unfoldable pub rev : List String → List String → List String
rev [] acc = acc
rev (s ∷ r) acc = rev r (s ∷ acc)

abbrev pub is_absolute : String → Bool
is_absolute p = starts_with p "/"

-- `path.resolve(root, candidate)` for a resolved root.
unfoldable pub resolve : List String → String → List String
unfolding walk rev
resolve root candidate =
    if is_absolute candidate
    then rev (walk [] (split slash candidate)) []
    else rev (walk (rev root []) (split slash candidate)) []

abbrev pub ups : List String → List String
ups [] = []
ups (s ∷ r) = ".." ∷ ups r

-- `path.relative(from, to)` for resolved paths.
unfoldable pub relative : List String → List String → List String
relative [] to = to
relative (f ∷ from) [] = ups (f ∷ from)
relative (f ∷ from) (t ∷ to) =
    let rest = relative from to in if str_eq f t then rest else ups (f ∷ from) ++ t ∷ to

-- isPathInside. A relative path is never absolute on POSIX.
abbrev stays : List String → Bool
stays [] = true
stays (s ∷ r) = not (starts_with s "..")

unfoldable pub is_path_inside : List String → List String → Bool
unfolding relative
is_path_inside candidate parent = stays (relative parent candidate)

abbrev validation_workspace_root : List String
validation_workspace_root = "symphonika-workspace" ∷ []

unfoldable pub artifact_path_failure : String → Option String
unfolding resolve is_path_inside
artifact_path_failure candidate =
    if str_eq candidate ""
    then some "must not contain an empty path"
    else if has_code 0 candidate
    then some "must not contain a null byte"
    else if is_absolute candidate
    then some ("path " <> candidate <> " must be workspace-relative, not absolute")
    else if not
        (is_path_inside (resolve validation_workspace_root candidate) validation_workspace_root)
    then some ("path " <> candidate <> " must stay inside the run workspace")
    else none

pub data Parse : Type 0 where
  error : String → Parse
  paths : List String → Parse

abbrev cons_path : String → Parse → Parse
cons_path p (error e) = error e
cons_path p (paths ps) = paths (p ∷ ps)

unfoldable pub parse_entries : List String → Parse
unfolding artifact_path_failure trim
parse_entries [] = paths []
parse_entries (entry ∷ r) =
    let rest = parse_entries r in
    elim (artifact_path_failure (trim entry)) [
      | some failure ↦ error failure
      | none ↦ cons_path (trim entry) rest
    ]

-- parseArtifactExistsPaths, on the values that a predicate map holds
unfoldable pub parse_artifact_exists_paths : PredicateValue → Parse
unfolding parse_entries
parse_artifact_exists_paths (strings []) = error "must list at least one path"
parse_artifact_exists_paths (strings (p ∷ ps)) = parse_entries (p ∷ ps)
parse_artifact_exists_paths (str p) = parse_entries (p ∷ [])
parse_artifact_exists_paths (flag _) = error "must be a path string or a sequence of path strings"
parse_artifact_exists_paths (count _) = error "must be a path string or a sequence of path strings"

abbrev parsed_paths : Parse → Option (List String)
parsed_paths (error e) = none
parsed_paths (paths ps) = some ps

unfoldable pub artifact_predicate_paths : PredicateValue → Option (List String)
unfolding parse_artifact_exists_paths
artifact_predicate_paths value = parsed_paths (parse_artifact_exists_paths value)

-- resolveArtifactPath, for an absolute workspace path
unfoldable pub resolve_artifact_path : String → String → Option (List String)
unfolding resolve is_path_inside
resolve_artifact_path workspace_path candidate =
    let root = resolve [] workspace_path in
    let resolved = resolve root candidate in
    if is_path_inside resolved root then some resolved else none
