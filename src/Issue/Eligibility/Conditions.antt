-- ===== src/Issue/Eligibility/Conditions.antt =====
-- An issue is eligible exactly if no condition of its project speaks against it.
use symphonika.Base.{
  Bool, true, false, ◌&&◌, ◌||◌, not, String, List, [], ◌∷◌, ◌++◌, ◌≡◌, refl, inl, inr, arith,
  str_eq,
}
use symphonika.Base.Tests.{if◌then◌else◌, Bool-cases}
use symphonika.Base.Lists.{member}
use symphonika.Issue.{DependencyRef, IssueSnapshot, Repository, IssueFilters}
use symphonika.Issue.Eligibility.{
  Filter, is_empty, label_reasons, blocker_reasons, or_empty, project_reasons, issue_state_reasons,
  required_operational_labels, evaluate_project_eligibility,
}

is_empty-append : (xs ys : List String) → is_empty (xs ++ ys) ≡ (is_empty xs && is_empty ys)
is_empty-append [] ys = refl
is_empty-append (x ∷ xs) ys = refl

-- No text of the first list is among the labels.
abbrev pub disjoint : List String → List String → Bool
disjoint [] labels = true
disjoint (l ∷ ls) labels = not (member l labels) && disjoint ls labels

abbrev pub all_closed : List DependencyRef → Bool
all_closed [] = true
all_closed (b ∷ bs) = str_eq b.state "CLOSED" && all_closed bs

is_empty-label_reasons :
    (prefix : String) (ls labels : List String)
    → is_empty (label_reasons prefix ls labels) ≡ disjoint ls labels
is_empty-label_reasons prefix [] labels = refl
is_empty-label_reasons prefix (l ∷ ls) labels = elim (Bool-cases (member l labels)) [
  | inl k ↦ rw k refl
  | inr k ↦ rw k (is_empty-label_reasons prefix ls labels)
]

is_empty-blocker_reasons :
    (repository : Repository) (bs : List DependencyRef)
    → is_empty (blocker_reasons repository bs) ≡ all_closed bs
is_empty-blocker_reasons repository [] = refl
is_empty-blocker_reasons repository (b ∷ bs) = elim (Bool-cases (str_eq b.state "CLOSED")) [
  | inl k ↦ rw k (is_empty-blocker_reasons repository bs)
  | inr k ↦ rw k refl
]

-- The issue's state and the states of the project allow work.
abbrev pub open_for : IssueSnapshot → IssueFilters → Bool
open_for issue filters = member "open" filters.states && str_eq issue.state "open"

state_empty :
    (issue : IssueSnapshot) (filters : IssueFilters)
    → is_empty (issue_state_reasons issue filters) ≡ open_for issue filters
unfolding issue_state_reasons
state_empty issue filters = ground arith

ready_empty : (b : Bool) (reason : String) → is_empty (if b then [] else reason ∷ []) ≡ b
ready_empty true reason = refl
ready_empty false reason = refl

truncated_empty : (b : Bool) (reason : String) → is_empty (if b then reason ∷ [] else []) ≡ not b
truncated_empty true reason = refl
truncated_empty false reason = refl

unless_empty :
    (b : Bool) (reasons : List String)
    → is_empty (if b then [] else reasons) ≡ (b || is_empty reasons)
unless_empty true reasons = refl
unless_empty false reasons = refl

-- An issue is eligible exactly if it is open, and the project's states have `open`; it has the ready
-- label and no excluded label; it has no operational label, unless those are ignored; and each of
-- its blockers is closed, with all of them known.
pub eligible_iff_conditions :
    (issue : IssueSnapshot) (project : Filter) (ignore : Bool)
    → (evaluate_project_eligibility issue project ignore).eligible ≡ (
        open_for issue project.filters
        && (member project.filters.ready_label issue.labels
            && (disjoint project.filters.labels_none issue.labels
                && ((ignore || disjoint required_operational_labels issue.labels)
                    && (all_closed (or_empty issue.blocked_by)
                        && not issue.blocked_by_truncated)))))
unfolding evaluate_project_eligibility project_reasons
eligible_iff_conditions issue project ignore =
    simp
      (
        is_empty-append, state_empty, ready_empty, truncated_empty, unless_empty,
        is_empty-label_reasons, is_empty-blocker_reasons,
      )
      refl
