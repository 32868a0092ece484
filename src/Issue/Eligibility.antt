-- ===== src/Issue/Eligibility.antt =====
-- Whether an issue may be worked on, and why not (`issueStateReasons`, `evaluateProjectEligibility`
-- and `issueDependencyRef` of src/issue-polling.ts, src/lifecycle/issue-eligibility.ts,
-- src/operational-labels.ts).
pub mod Conditions
use symphonika.Base.{
  ℕ, Bool, true, false, ◌&&◌, ◌||◌, not, Option, none, some, String, ◌<>◌, List, [], ◌∷◌, ◌++◌,
  str_eq,
}
use symphonika.Base.Tests.{if◌then◌else◌}
use symphonika.Base.Lists.{member}
use symphonika.Base.Decimal.{decimal}
use symphonika.Issue.{DependencyRef, IssueSnapshot, Repository, IssueFilters}

abbrev pub required_operational_labels : List String
required_operational_labels =
    "sym:claimed" ∷ "sym:running" ∷ "sym:failed" ∷ "sym:blocked" ∷ "sym:stale" ∷ "sym:human-needed"
    ∷ []

-- What of a project's declaration the two functions read.
pub record Filter : Type 0 where
  pub filters : IssueFilters
  pub repository : Repository

pub issue_state_reasons : IssueSnapshot → IssueFilters → List String
issue_state_reasons issue filters =
    if not (member "open" filters.states) || not (str_eq issue.state "open")
    then ("state " <> (issue.state <> " is not eligible")) ∷ []
    else []

pub issue_dependency_ref : DependencyRef → Repository → String
issue_dependency_ref blocker repository =
    if str_eq blocker.owner repository.owner && str_eq blocker.repo repository.repo
    then "#" <> decimal blocker.number
    else blocker.owner <> ("/" <> (blocker.repo <> ("#" <> decimal blocker.number)))

-- A reason for each text of the first list that is among the labels.
abbrev pub label_reasons : String → List String → List String → List String
label_reasons prefix [] labels = []
label_reasons prefix (l ∷ ls) labels =
    let rest = label_reasons prefix ls labels in
    if member l labels then (prefix <> l) ∷ rest else rest

abbrev pub blocker_reasons : Repository → List DependencyRef → List String
blocker_reasons repository [] = []
blocker_reasons repository (b ∷ bs) =
    let rest = blocker_reasons repository bs in
    if str_eq b.state "CLOSED"
    then rest
    else ("blocked by open dependency " <> issue_dependency_ref b repository) ∷ rest

abbrev pub or_empty : Option (List DependencyRef) → List DependencyRef
or_empty none = []
or_empty (some bs) = bs

pub project_reasons : IssueSnapshot → Filter → Bool → List String
unfolding issue_state_reasons
project_reasons issue project ignore_operational_labels =
    issue_state_reasons issue project.filters
    ++ ((if member project.filters.ready_label issue.labels
          then []
          else ("missing required label " <> project.filters.ready_label) ∷ [])
        ++ (label_reasons "has excluded label " project.filters.labels_none issue.labels
            ++ ((if ignore_operational_labels
                  then []
                  else label_reasons "has operational label " required_operational_labels
                      issue.labels)
                ++ (blocker_reasons project.repository (or_empty issue.blocked_by)
                    ++ (if issue.blocked_by_truncated
                        then "has more dependency links than could be checked - treat as unresolved until reviewed"
                          ∷ []
                        else [])))))

pub record Eligibility : Type 0 where
  pub eligible : Bool
  pub reasons : List String

abbrev pub is_empty : List String → Bool
is_empty [] = true
is_empty (r ∷ rs) = false

pub evaluate_project_eligibility : IssueSnapshot → Filter → Bool → Eligibility
unfolding project_reasons
evaluate_project_eligibility issue project ignore_operational_labels =
    let reasons = project_reasons issue project ignore_operational_labels in
    record { eligible = is_empty reasons; reasons = reasons }

-- RunContinuationEligibilityScope
pub data Scope : Type 0 where
  fsm_owned label_controlled : Scope

pub evaluate_run_continuation_eligibility : IssueSnapshot → Filter → Scope → Eligibility
unfolding evaluate_project_eligibility issue_state_reasons
evaluate_run_continuation_eligibility issue project fsm_owned =
    let reasons = issue_state_reasons issue project.filters in
    record { eligible = is_empty reasons; reasons = reasons }
evaluate_run_continuation_eligibility issue project label_controlled =
    evaluate_project_eligibility issue project true
