-- ===== src/Workflow/Progress.antt =====
-- src/run-store.ts, claimProgressEdge and clearProgressFingerprints: the table of the edges that a
-- run chain has taken from its parked states, one row for each issue and edge.
pub mod Budget
use symphonika.Base.{
  ℕ, suc, Bool, true, false, ◌&&◌, ◌||◌, not, Option, none, some, String, List, [], ◌∷◌, ◌++◌,
  str_eq,
}
use symphonika.Base.Tests.{if◌then◌else◌, ltb, ◌==◌}
use symphonika.Base.Lists.{filter}

pub record Edge : Type 0 where
  pub from_state_id : String
  pub issue_number : ℕ
  pub project_name : String
  pub to_state_id : String

pub data ClaimResult : Type 0 where
  claimed unchanged budget_exhausted : ClaimResult

pub record Row : Type 0 where
  pub edge : Edge
  pub fingerprint : String
  pub claim_count : ℕ
  pub recorded_at : ℕ

unfoldable pub same_edge : Edge → Edge → Bool
same_edge a b =
    str_eq a.project_name b.project_name
    && a.issue_number == b.issue_number
    && str_eq a.from_state_id b.from_state_id
    && str_eq a.to_state_id b.to_state_id

unfoldable pub row_of : Edge → List Row → Option Row
row_of e [] = none
row_of e (r ∷ rows) = let rest = row_of e rows in if same_edge r.edge e then some r else rest

-- The `do update set` of the statement.
pub bump : Edge → String → ℕ → List Row → List Row
bump e fingerprint at [] = []
bump e fingerprint at (r ∷ rows) =
    let rest = bump e fingerprint at rows in
    if same_edge r.edge e
    then record r { fingerprint = fingerprint; claim_count = suc r.claim_count; recorded_at = at }
      ∷ rows
    else r ∷ rest

abbrev room : ℕ → ℕ → Bool
room max_claims n = max_claims == 0 || ltb n max_claims

-- The transaction, at the time `at`.
pub claim_progress_edge : List Row → Edge → String → ℕ → ℕ → ClaimResult × List Row
unfolding row_of bump
claim_progress_edge rows edge fingerprint max_claims at = elim (row_of edge rows) [
  | none ↦ (
    claimed,
    rows
        ++ record { edge = edge; fingerprint = fingerprint; claim_count = 1; recorded_at = at }
          ∷ [],
  )
  | some r ↦
      if not (str_eq r.fingerprint fingerprint) && room max_claims r.claim_count
      then (claimed, bump edge fingerprint at rows)
      else if str_eq r.fingerprint fingerprint
      then (unchanged, rows)
      else (budget_exhausted, rows)
]

pub clear_progress_fingerprints : ℕ → String → List Row → List Row
clear_progress_fingerprints issue_number project_name rows =
    filter
      (λ (r : Row).
        not (str_eq r.edge.project_name project_name && r.edge.issue_number == issue_number))
      rows
