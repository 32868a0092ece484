-- ===== src/Issue/Merge/Sources.antt =====
-- Where the candidates of a merged poll come from, and which errors it keeps.
use symphonika.Base.{true, Option, none, some, String, List, [], ◌∷◌, ◌++◌, ◌≡◌, ◌↔◌, ◌⊎◌, inl, inr}
use symphonika.Base.Lists.{
  filter, Occurs, here, there, Occurs-append, Occurs-append_left, Occurs-append_right,
  Occurs-filter, filter-Occurs,
}
use symphonika.Issue.{ProjectIssue}
use symphonika.Backoff.{PollReport}
use symphonika.Issue.Merge.{
  Poll, Keys, selected_candidate, carries, carries_report, with_error, errors_of,
  merge_issue_poll_status,
}

-- A fresh candidate, or a candidate of before that is carried over.
abbrev pub Source : Poll → Poll → Keys → ProjectIssue → Type 0
Source prior fresh keys c =
    Occurs c fresh.status.candidate_issues
    ⊎ (Occurs c prior.status.candidate_issues × (carries keys c ≡ true))

Occurs-errors_of :
    (rs : List PollReport) (r : PollReport) (error : String)
    → Occurs r rs
    → r.error ≡ some error
    → Occurs error (errors_of rs)
Occurs-errors_of [] r error o e = elim o [ ]
Occurs-errors_of (r ∷ rs) _ error here e = rw e here
Occurs-errors_of (x ∷ rs) r error (there o) e = past x.error (Occurs-errors_of rs r error o e)
  where
    past :
        (o : Option String)
        → Occurs error (errors_of rs)
        → Occurs error (with_error o (errors_of rs))
    past none k = k
    past (some f) k = there k

-- The error of a report that is carried over stays in the merged poll.
carried_error :
    (prior fresh : Poll) (keys : Keys) (r : PollReport) (error : String)
    → Occurs r prior.projects
    → carries_report keys r ≡ true
    → r.error ≡ some error
    → Occurs error (merge_issue_poll_status prior fresh keys).errors
unfolding merge_issue_poll_status
carried_error prior fresh keys r error o k e = Occurs-append_left fresh.errors (
    Occurs-errors_of (filter (carries_report keys) prior.projects) r error
      (filter-Occurs (carries_report keys) prior.projects o k) e)

-- The merged candidates are those of the selected declarations that the fresh poll has, or that the
-- poll before had, of a declaration that is configured and was not polled.
merged_candidates :
    (prior fresh : Poll) (keys : Keys) (c : ProjectIssue)
    → Occurs c (merge_issue_poll_status prior fresh keys).status.candidate_issues
      ↔ (Source prior fresh keys c × (selected_candidate keys c ≡ true))
unfolding merge_issue_poll_status
merged_candidates prior fresh keys c = (comes, goes)
  where
    from :
        Occurs c (filter (carries keys) prior.status.candidate_issues)
          ⊎ Occurs c fresh.status.candidate_issues
        → Source prior fresh keys c
    from (inl o) = inr (Occurs-filter (carries keys) prior.status.candidate_issues o)
    from (inr o) = inl o

    comes :
        Occurs c (
          filter
            (selected_candidate keys)
            (filter (carries keys) prior.status.candidate_issues ++ fresh.status.candidate_issues))
        → Source prior fresh keys c × (selected_candidate keys c ≡ true)
    comes o =
        let both =
          Occurs-filter (selected_candidate keys)
            (filter (carries keys) prior.status.candidate_issues ++ fresh.status.candidate_issues)
            o in
        (from (Occurs-append (filter (carries keys) prior.status.candidate_issues) both.0), both.1)

    into :
        Source prior fresh keys c
        → Occurs c
            (filter (carries keys) prior.status.candidate_issues ++ fresh.status.candidate_issues)
    into (inl o) = Occurs-append_right (filter (carries keys) prior.status.candidate_issues) o
    into (inr (o, k)) =
        Occurs-append_left fresh.status.candidate_issues
          (filter-Occurs (carries keys) prior.status.candidate_issues o k)

    goes :
        Source prior fresh keys c × (selected_candidate keys c ≡ true)
        → Occurs c (
            filter (selected_candidate keys) (
              filter (carries keys) prior.status.candidate_issues ++ fresh.status.candidate_issues))
    goes (s, k) =
        filter-Occurs (selected_candidate keys)
          (filter (carries keys) prior.status.candidate_issues ++ fresh.status.candidate_issues)
          (into s) k
