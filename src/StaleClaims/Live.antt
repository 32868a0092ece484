-- ===== src/StaleClaims/Live.antt =====
-- No issue with a live run behind it is labelled stale.
use symphonika.Base.{
  ℕ, Bool, true, false, ◌||◌, none, some, String, List, [], ◌∷◌, map, ◌≡◌, refl, sym, ◌∙◌, inl, inr,
  ◌⊎◌, arith, str_eq, eq_iff,
}
use symphonika.Base.Tests.{Bool-cases, Option-cases}
use symphonika.Base.Lists.{filter, Occurs, here, there, Occurs-under, Occurs-swap}
use symphonika.Base.Maps.{lookup}
use symphonika.Base.Texts.{lower_case}
use symphonika.Issue.{Repository, ProjectIssue, IssuePollStatus, same_issue_repository}
use symphonika.Store.{RunRow}
use symphonika.Store.Queries.{
  RunKey, run_key, list_active_run_ids, list_waiting_run_ids, list_resumable_shutdown_runs,
  is_active, is_resumable, insert_by, order_by, created_before,
}
use symphonika.Store.Runs.{is_waiting}
use symphonika.Registry.ActiveRuns.{ActiveRuns}
use symphonika.Registry.Reservations
use symphonika.StaleClaims.{
  LiveIssueKeys, Input, add, add_each, covers, collect_live_keys, is_abandoned, marks_issue,
  issue_key, repository_issue_key, tracker_of, reserved_key, StaleClaimMark, has_any_label,
  claim_labels, detect_each, detect_stale_claims,
}

-- The key is of the issue: of its project and number, and of its repository if it has one.
abbrev pub Of : RunKey → ProjectIssue → Type 0
Of k c =
    (k.project_name ≡ c.project)
    × (k.issue_number ≡ c.issue.number)
    × ((k.issue_repository ≡ none)
        ⊎ ((r : Repository) × (k.issue_repository ≡ some r)
            × (same_issue_repository r c.repository ≡ true)))

abbrev covered : LiveIssueKeys → ProjectIssue → Bool
covered keys c = covers keys c.project c.repository c.issue.number

one_key :
    (a b : Repository) (project : String) (n : ℕ)
    → same_issue_repository a b ≡ true
    → repository_issue_key project a n ≡ repository_issue_key project b n
unfolding same_issue_repository
one_key a b project n h =
    let owner : lower_case a.owner ≡ lower_case b.owner =
      ground (arith, eq_iff (lower_case a.owner) (lower_case b.owner)) in
    let repo : lower_case a.repo ≡ lower_case b.repo =
      ground (arith, eq_iff (lower_case a.repo) (lower_case b.repo)) in
    rw (owner, repo) refl

add-covers :
    (k : RunKey) (keys : LiveIssueKeys) (c : ProjectIssue)
    → Of k c
    → covered (add k.project_name k.issue_repository k.issue_number keys) c ≡ true
unfolding add covers
add-covers k keys c (p, n, inl none_known) =
    rw (none_known, p, n)
      (ground
        (arith, eq_iff (issue_key c.project c.issue.number) (issue_key c.project c.issue.number)))
add-covers k keys c (p, n, inr (r, known, same)) =
    let folded = one_key r c.repository c.project c.issue.number same in
    rw (known, p, n)
      (ground (
        arith,
        folded,
        eq_iff (repository_issue_key c.project r c.issue.number)
            (repository_issue_key c.project c.repository c.issue.number),
      ))

add_keeps :
    (k : RunKey) (keys : LiveIssueKeys) (c : ProjectIssue)
    → covered keys c ≡ true
    → covered (add k.project_name k.issue_repository k.issue_number keys) c ≡ true
unfolding add covers
add_keeps k keys c h = elim (Option-cases k.issue_repository) [
  | inl n ↦ rw n (ground arith)
  | inr (r, n) ↦ rw n (ground arith)
]

add_each_keeps :
    (ks : List RunKey) (keys : LiveIssueKeys) (c : ProjectIssue)
    → covered keys c ≡ true
    → covered (add_each ks keys) c ≡ true
unfolding add_each
add_each_keeps [] keys c h = h
add_each_keeps (k ∷ ks) keys c h =
    add_each_keeps ks (add k.project_name k.issue_repository k.issue_number keys) c
      (add_keeps k keys c h)

add_each-covers :
    (ks : List RunKey) (keys : LiveIssueKeys) (c : ProjectIssue) (k : RunKey)
    → Occurs k ks
    → Of k c
    → covered (add_each ks keys) c ≡ true
unfolding add_each
add_each-covers [] keys c k o h = elim o [ ]
add_each-covers (_ ∷ ks) keys c k here h =
    add_each_keeps ks (add k.project_name k.issue_repository k.issue_number keys) c
      (add-covers k keys c h)
add_each-covers (j ∷ ks) keys c k (there o) h =
    add_each-covers ks (add j.project_name j.issue_repository j.issue_number keys) c k o h

Occurs-map_filter :
    (p : RunRow → Bool) (rs : List RunRow) (r : RunRow)
    → Occurs r rs
    → p r ≡ true
    → Occurs (run_key r) (map run_key (filter p rs))
Occurs-map_filter p [] r o h = elim o [ ]
Occurs-map_filter p (_ ∷ rs) r here h = rw h here
Occurs-map_filter p (x ∷ rs) r (there o) h = elim (Bool-cases (p x)) [
  | inl k ↦ rw k (there (Occurs-map_filter p rs r o h))
  | inr k ↦ rw k (Occurs-map_filter p rs r o h)
]

module _ (first : RunRow → RunRow → Bool) where
  insert_by-Occurs :
      {x : RunRow} (r : RunRow) (rs : List RunRow)
      → Occurs x (r ∷ rs)
      → Occurs x (insert_by first r rs)
  insert_by-Occurs r [] o = o
  insert_by-Occurs r (n ∷ ns) o = elim (Bool-cases (first n r)) [
    | inl k ↦ rw k (Occurs-under (insert_by-Occurs r ns) (Occurs-swap o))
    | inr k ↦ rw k o
  ]

  order_by-Occurs : {x : RunRow} (rs : List RunRow) → Occurs x rs → Occurs x (order_by first rs)
  order_by-Occurs [] o = o
  order_by-Occurs (r ∷ rs) o =
      insert_by-Occurs r (order_by first rs) (Occurs-under (order_by-Occurs rs) o)

filter-Occurs :
    (p : RunRow → Bool) (rs : List RunRow) (r : RunRow)
    → Occurs r rs
    → p r ≡ true
    → Occurs r (filter p rs)
filter-Occurs p [] r o h = elim o [ ]
filter-Occurs p (_ ∷ rs) r here h = rw h here
filter-Occurs p (x ∷ rs) r (there o) h = elim (Bool-cases (p x)) [
  | inl k ↦ rw k (there (filter-Occurs p rs r o h))
  | inr k ↦ rw k (filter-Occurs p rs r o h)
]

Occurs-map : (rs : List RunRow) (r : RunRow) → Occurs r rs → Occurs (run_key r) (map run_key rs)
Occurs-map [] r o = elim o [ ]
Occurs-map (_ ∷ rs) r here = here
Occurs-map (x ∷ rs) r (there o) = there (Occurs-map rs r o)

-- A row that may still be worked on: in a state before the end, parked, or to be resumed.
abbrev pub is_live : List RunRow → RunRow → Bool
is_live rows r = is_active r.state || (is_waiting r.state || is_resumable rows r)

live-covered :
    (active : ActiveRuns) (rows : List RunRow) (c : ProjectIssue) (r : RunRow)
    → Occurs r rows
    → is_live rows r ≡ true
    → Of (run_key r) c
    → covered (collect_live_keys active rows) c ≡ true
unfolding collect_live_keys list_active_run_ids list_waiting_run_ids list_resumable_shutdown_runs
live-covered active rows c r o live k =
    let reserved =
      add_each (map reserved_key (Reservations.issue_keys active.in_flight active.scheduled))
        (record { qualified = []; wildcard = [] }) in
    let running = add_each (list_active_run_ids rows) reserved in
    let waiting = add_each (list_waiting_run_ids rows) running in
    let resumable = map run_key (list_resumable_shutdown_runs rows) in
    elim (Bool-cases (is_active r.state)) [
      | inl a ↦
          let found =
            add_each-covers (list_active_run_ids rows) reserved c (run_key r)
              (Occurs-map_filter (λ x. is_active x.state) rows r o a) k in
          add_each_keeps resumable waiting c
            (add_each_keeps (list_waiting_run_ids rows) running c found)
      | inr a ↦ elim (Bool-cases (is_waiting r.state)) [
        | inl b ↦
            let found =
              add_each-covers (list_waiting_run_ids rows) running c (run_key r)
                (Occurs-map_filter (λ x. is_waiting x.state) rows r o b) k in
            add_each_keeps resumable waiting c found
        | inr b ↦
            add_each-covers resumable waiting c (run_key r)
              (Occurs-map (list_resumable_shutdown_runs rows) r (
                order_by-Occurs created_before (filter (is_resumable rows) rows)
                  (filter-Occurs (is_resumable rows) rows r o (ground arith))))
              k
      ]
    ]

-- What a mark stands for: a filtered issue that is open and claimed, and of no live row.
abbrev pub Abandoned : Input → List ProjectIssue → StaleClaimMark → Type 0
Abandoned input issues m =
    (c : ProjectIssue) × Occurs c issues
    × (c.issue.number ≡ m.issue_number)
    × (c.project ≡ m.project)
    × (str_eq c.issue.state "open" ≡ true)
    × (has_any_label c.issue.labels claim_labels ≡ true)
    × ((r : RunRow) → Occurs r input.rows → is_live input.rows r ≡ true → Of (run_key r) c → ⊥)

marks_issue-abandoned :
    (input : Input) (keys : LiveIssueKeys) (c : ProjectIssue)
    → marks_issue input keys c ≡ true
    → is_abandoned keys c ≡ true
unfolding marks_issue
marks_issue-abandoned input keys c h =
    elim (Option-cases (tracker_of (lookup c.project input.projects))) [
      | inl k ↦ let no : false ≡ true = rw (k, marks_issue) at h in absurd (ground arith)
      | inr (t, k) ↦ ground (arith, rw (k, marks_issue) at h)
    ]

abandoned :
    (input : Input) (c : ProjectIssue)
    → is_abandoned (collect_live_keys input.active_runs input.rows) c ≡ true
    → (str_eq c.issue.state "open" ≡ true)
      × (has_any_label c.issue.labels claim_labels ≡ true)
      × (covered (collect_live_keys input.active_runs input.rows) c ≡ false)
unfolding is_abandoned
abandoned input c h = ground arith

further :
    (input : Input) (c : ProjectIssue) (cs : List ProjectIssue) (m : StaleClaimMark)
    → Abandoned input cs m
    → Abandoned input (c ∷ cs) m
further input c cs m a = (a.0, there a.1, a.2, a.3, a.4, a.5, a.6)

first_mark :
    (input : Input) (c : ProjectIssue) (cs : List ProjectIssue) (m : StaleClaimMark)
    (ms : List StaleClaimMark)
    → is_abandoned (collect_live_keys input.active_runs input.rows) c ≡ true
    → (Occurs m ms → Abandoned input cs m)
    → Occurs m (record { issue_number = c.issue.number; project = c.project } ∷ ms)
    → Abandoned input (c ∷ cs) m
first_mark input c cs m ms h f here =
    let (is_open, is_claimed, alone) = abandoned input c h in
    (
      c,
      here,
      refl,
      refl,
      is_open,
      is_claimed,
      λ r o live k.
          let yes_covered = live-covered input.active_runs input.rows c r o live k in
          let no : true ≡ false = sym yes_covered ∙ alone in absurd (ground arith),
    )
first_mark input c cs m ms h f (there o) = further input c cs m (f o)

detect_each-Abandoned :
    (input : Input) (cs : List ProjectIssue) (m : StaleClaimMark)
    → Occurs m (detect_each input (collect_live_keys input.active_runs input.rows) cs).0
    → Abandoned input cs m
unfolding detect_each
detect_each-Abandoned input [] m o = elim o [ ]
detect_each-Abandoned input (c ∷ cs) m o =
    let keys = collect_live_keys input.active_runs input.rows in
    elim (Bool-cases (marks_issue input keys c)) [
      | inl k ↦
          first_mark input c cs m (detect_each input keys cs).0
            (marks_issue-abandoned input keys c k) (detect_each-Abandoned input cs m) (rw k at o)
      | inr k ↦ further input c cs m (detect_each-Abandoned input cs m (rw k at o))
    ]

-- Each issue that is marked stale is one that the poll filtered, open and with a claim label, and no
-- run of it is live: none in a state before the end, none parked and none to be resumed after a
-- shutdown, whether the run's repository is unknown or spelled in other letters' case.
pub detect_stale_claims-Abandoned :
    (input : Input) (poll : IssuePollStatus) (m : StaleClaimMark)
    → Occurs m (detect_stale_claims input poll).0
    → Abandoned input poll.filtered_issues m
unfolding detect_stale_claims
detect_stale_claims-Abandoned input poll m o = detect_each-Abandoned input poll.filtered_issues m o
