-- ===== src/Issue.antt =====
-- The issues that a poll finds (src/issue-polling.ts): snapshots, the projects' declarations, and the
-- lookup in a poll. The fields are those that the parts below read.
pub mod Priority
pub mod Eligibility
pub mod Merge
use symphonika.Base.{ℕ, Bool, true, false, ◌&&◌, Option, none, some, String, List, [], ◌∷◌, str_eq}
use symphonika.Base.Tests.{if◌then◌else◌, ◌==◌}
use symphonika.Base.Int.{ℤ}
use symphonika.Base.Maps.{Dict}
use symphonika.Base.Texts.{lower_case}

-- GitHubRepositoryIdentity
pub record Repository : Type 0 where
  pub owner : String
  pub repo : String

-- RawGitHubIssueDependencyRef
pub record DependencyRef : Type 0 where
  pub number : ℕ
  pub owner : String
  pub repo : String
  pub state : String

pub record IssueSnapshot : Type 0 where
  pub blocked_by : Option (List DependencyRef)
  pub blocked_by_truncated : Bool
  pub created_at : String
  pub labels : List String
  pub number : ℕ
  pub priority : ℕ
  pub state : String

-- ProjectIssueSnapshot
pub record ProjectIssue : Type 0 where
  pub issue : IssueSnapshot
  pub project : String
  pub repository : Repository

pub record IssuePollStatus : Type 0 where
  pub candidate_issues : List ProjectIssue
  pub filtered_issues : List ProjectIssue

pub record IssueFilters : Type 0 where
  pub states : List String
  pub ready_label : String
  pub labels_none : List String

pub record Tracker : Type 0 where
  pub repository : Repository
  pub token : String

-- A project's declaration: `tracker` is `none` for a routine host.
pub record Project : Type 0 where
  pub name : String
  pub disabled : Bool
  pub tracker : Option Tracker
  pub issue_filters : IssueFilters
  pub provider : String
  pub max_in_flight : Option ℕ
  pub weight : Option ℤ
  pub overlap_guard : Bool

unfoldable pub same_issue_repository : Repository → Repository → Bool
same_issue_repository left right =
    str_eq (lower_case left.owner) (lower_case right.owner)
    && str_eq (lower_case left.repo) (lower_case right.repo)

abbrev pub is_polled : String → Repository → ℕ → ProjectIssue → Bool
is_polled project repository number c =
    str_eq c.project project
    && ((c.issue.number == number) && same_issue_repository c.repository repository)

abbrev pub find_issue : (ProjectIssue → Bool) → List ProjectIssue → Option IssueSnapshot
find_issue p [] = none
find_issue p (c ∷ cs) = let rest = find_issue p cs in if p c then some c.issue else rest

unfoldable pub find_polled_issue_snapshot :
    IssuePollStatus → String → Repository → ℕ → Option IssueSnapshot
find_polled_issue_snapshot poll project repository number =
    elim (find_issue (is_polled project repository number) poll.candidate_issues) [
      | some issue ↦ some issue
      | none ↦ find_issue (is_polled project repository number) poll.filtered_issues
    ]
