-- ===== src/Issue/Merge.antt =====
-- `mergeIssuePollStatus` of src/issue-polling.ts: a poll of some of the projects, merged into the
-- polls before it. A Set of keys is a list of texts.
pub mod Sources
use symphonika.Base.{
  Bool, true, false, ◌&&◌, not, Option, none, some, String, List, [], ◌∷◌, ◌++◌, str_eq,
}
use symphonika.Base.Tests.{if◌then◌else◌}
use symphonika.Base.Lists.{filter, member}
use symphonika.Base.Maps.{Dict, lookup}
use symphonika.Issue.{Repository, ProjectIssue, IssuePollStatus}
use symphonika.Backoff.{PollReport, project_poll_identity_key}

-- IssuePollStatus, with all its fields.
pub record Poll : Type 0 where
  pub status : IssuePollStatus
  pub errors : List String
  pub projects : List PollReport

-- The last three arguments.
pub record Keys : Type 0 where
  pub polled : List String
  pub configured : List String
  pub selected_by_name : Dict String

pub carry_over : Keys → String → Repository → Bool
carry_over keys name repository =
    let key = project_poll_identity_key name repository in
    not (member key keys.polled) && member key keys.configured

abbrev pub is_key : Option String → String → Bool
is_key none key = false
is_key (some selected) key = str_eq selected key

pub selected_candidate : Keys → ProjectIssue → Bool
selected_candidate keys c =
    is_key (lookup c.project keys.selected_by_name)
      (project_poll_identity_key c.project c.repository)

abbrev pub carries : Keys → ProjectIssue → Bool
carries keys c = carry_over keys c.project c.repository

abbrev pub carries_report : Keys → PollReport → Bool
carries_report keys r = carry_over keys r.name r.repository

abbrev pub with_error : Option String → List String → List String
with_error none errors = errors
with_error (some error) errors = error ∷ errors

abbrev pub errors_of : List PollReport → List String
errors_of [] = []
errors_of (r ∷ rs) = with_error r.error (errors_of rs)

pub merge_issue_poll_status : Poll → Poll → Keys → Poll
merge_issue_poll_status prior fresh keys =
    let carried = filter (carries_report keys) prior.projects in
    record {
      status = record {
        candidate_issues =
            filter (selected_candidate keys) (
              filter (carries keys) prior.status.candidate_issues ++ fresh.status.candidate_issues);
        filtered_issues =
            filter (carries keys) prior.status.filtered_issues ++ fresh.status.filtered_issues;
      };
      errors = errors_of carried ++ fresh.errors;
      projects = carried ++ fresh.projects;
    }
