-- ===== src/Workflow/Progress/Budget.antt =====
-- What the table bounds: how often an edge is taken, and that no observation pays twice in a row.
use symphonika.Base.{
  ℕ, suc, ◌+◌, ◌≤◌, ◌<◌, Bool, true, false, ◌&&◌, Option, none, some, String, List, [], ◌∷◌, ◌++◌,
  ◌≡◌, ◌↔◌, refl, inl, inr, arith, eq_iff,
}
use symphonika.Base.Tests.{if◌then◌else◌, Bool-cases, Option-cases}
use symphonika.Base.Lists.{All}
use symphonika.Workflow.Progress.{
  Edge, Row, ClaimResult, claimed, unchanged, same_edge, row_of, bump, claim_progress_edge,
  clear_progress_fingerprints,
}

same_edge_iff : (a b : Edge) → (same_edge a b ≡ true) ↔ (a ≡ b)
unfolding same_edge
same_edge_iff a b = ground (
  arith,
  eq_iff a.project_name b.project_name,
  eq_iff a.from_state_id b.from_state_id,
  eq_iff a.to_state_id b.to_state_id,
)

row_of-append :
    (e : Edge) (rows : List Row) (r : Row)
    → row_of e rows ≡ none
    → row_of e (rows ++ r ∷ []) ≡ (if same_edge r.edge e then some r else none)
unfolding row_of
row_of-append e [] r h = refl
row_of-append e (q ∷ rows) r h = ground (arith, row_of-append e rows r)

-- Of another edge, the new row changes nothing.
row_of-append_other :
    (e : Edge) (rows : List Row) (r : Row)
    → same_edge r.edge e ≡ false
    → row_of e (rows ++ r ∷ []) ≡ row_of e rows
unfolding row_of
row_of-append_other e [] r h = ground arith
row_of-append_other e (q ∷ rows) r h = ground (arith, row_of-append_other e rows r)

row_of-bump_other :
    (d e : Edge) (fingerprint : String) (at : ℕ) (rows : List Row)
    → same_edge d e ≡ false
    → row_of e (bump d fingerprint at rows) ≡ row_of e rows
unfolding row_of bump
row_of-bump_other d e fingerprint at [] h = refl
row_of-bump_other d e fingerprint at (q ∷ rows) h = ground (
  arith,
  row_of-bump_other d e fingerprint at rows,
  same_edge_iff q.edge d,
  same_edge_iff q.edge e,
  same_edge_iff d e,
)

row_of-bump :
    (e : Edge) (fingerprint : String) (at : ℕ) (rows : List Row) {r : Row}
    → row_of e rows ≡ some r
    → row_of e (bump e fingerprint at rows)
      ≡ some (record r {
        fingerprint = fingerprint;
        claim_count = suc r.claim_count;
        recorded_at = at;
      })
unfolding row_of bump
row_of-bump e fingerprint at [] h = ground arith
row_of-bump e fingerprint at (q ∷ rows) {r} h = elim (Bool-cases (same_edge q.edge e)) [
  | inl k ↦ ground arith
  | inr k ↦ ground (arith, row_of-bump e fingerprint at rows {r = r})
]

-- How often the edge has been taken, as the table has it.
abbrev pub claims_of : Option Row → ℕ
claims_of none = 0
claims_of (some r) = r.claim_count

abbrev pub taken : ClaimResult → Bool
taken claimed = true
taken _ = false

abbrev pub one_if : Bool → ℕ
one_if true = 1
one_if false = 0

claim_other :
    (d e : Edge) (fingerprint : String) (max_claims at : ℕ) (rows : List Row)
    → same_edge d e ≡ false
    → row_of e (claim_progress_edge rows d fingerprint max_claims at).1 ≡ row_of e rows
unfolding claim_progress_edge
claim_other d e fingerprint max_claims at rows h = ground (
  arith,
  row_of-bump_other d e fingerprint at rows,
  row_of-append_other e rows
      (record { edge = d; fingerprint = fingerprint; claim_count = 1; recorded_at = at }),
)

-- One attempt: the count goes up exactly if the attempt is accepted, and stays within the budget.
pub claim_counts :
    (e : Edge) (fingerprint : String) (max_claims at : ℕ) (rows : List Row)
    → 0 < max_claims
    → claims_of (row_of e rows) ≤ max_claims
    → let claim = claim_progress_edge rows e fingerprint max_claims at in
      (claims_of (row_of e claim.1) ≡ claims_of (row_of e rows) + one_if (taken claim.0))
      × (claims_of (row_of e claim.1) ≤ max_claims)
unfolding claim_progress_edge
claim_counts e fingerprint max_claims at rows m h = elim (Option-cases (row_of e rows)) [
  | inl k ↦ ground (
    arith,
    same_edge_iff e e,
    row_of-append e rows
        (record { edge = e; fingerprint = fingerprint; claim_count = 1; recorded_at = at }),
  )
  | inr (r, k) ↦ ground (arith, row_of-bump e fingerprint at rows {r = r})
]

-- One attempt of a wait: the edge, what it observed, and when.
pub record Attempt : Type 0 where
  pub edge : Edge
  pub fingerprint : String
  pub at : ℕ

abbrev claim : ℕ → List Row → Attempt → ClaimResult × List Row
claim max_claims rows a = claim_progress_edge rows a.edge a.fingerprint max_claims a.at

-- The attempts in order; how many on the given edge are accepted, and the table that they leave.
pub attempts : Edge → ℕ → List Attempt → List Row → ℕ × List Row
attempts e max_claims [] rows = (0, rows)
attempts e max_claims (a ∷ tries) rows =
    let rest = attempts e max_claims tries (claim max_claims rows a).1 in
    (one_if (same_edge a.edge e && taken (claim max_claims rows a).0) + rest.0, rest.1)

-- Whatever is tried on whatever edges, an edge whose count is within a positive budget is taken as
-- often as its count goes up, and the count never exceeds the budget.
pub accepted_within_budget :
    (e : Edge) (max_claims : ℕ) (tries : List Attempt) (rows : List Row)
    → 0 < max_claims
    → claims_of (row_of e rows) ≤ max_claims
    → (claims_of (row_of e (attempts e max_claims tries rows).1)
        ≡ claims_of (row_of e rows) + (attempts e max_claims tries rows).0)
      × (claims_of (row_of e (attempts e max_claims tries rows).1) ≤ max_claims)
unfolding attempts
accepted_within_budget e max_claims [] rows m h = ground arith
accepted_within_budget e max_claims (a ∷ tries) rows m h =
    let after = (claim max_claims rows a).1 in
    let rest = accepted_within_budget e max_claims tries after m in
    elim (Bool-cases (same_edge a.edge e)) [
      | inl k ↦ ground (
        arith,
        rest,
        (same_edge_iff a.edge e).0 k,
        claim_counts e a.fingerprint max_claims a.at rows m,
      )
      | inr k ↦ ground (arith, rest, claim_other a.edge e a.fingerprint max_claims a.at rows)
    ]

row_of-cleared :
    (e : Edge) (rows : List Row)
    → row_of e (clear_progress_fingerprints e.issue_number e.project_name rows) ≡ none
unfolding row_of clear_progress_fingerprints same_edge
row_of-cleared e [] = refl
row_of-cleared e (r ∷ rows) =
    ground (arith, row_of-cleared e rows, eq_iff r.edge.project_name e.project_name)

-- After the issue's history is cleared, at most the budget's number of attempts on an edge of the
-- issue is accepted, in any sequence of attempts on any edges.
pub accepted_since_clear :
    (e : Edge) (max_claims : ℕ) (tries : List Attempt) (rows : List Row)
    → 0 < max_claims
    → (attempts e max_claims tries
        (clear_progress_fingerprints e.issue_number e.project_name rows)).0
      ≤ max_claims
accepted_since_clear e max_claims tries rows m = ground (
  arith,
  row_of-cleared e rows,
  accepted_within_budget e max_claims tries
      (clear_progress_fingerprints e.issue_number e.project_name rows) m,
)

abbrev fingerprint_of : Option Row → Option String
fingerprint_of none = none
fingerprint_of (some r) = some r.fingerprint

claimed_row :
    (e : Edge) (fingerprint : String) (max_claims at : ℕ) (rows : List Row)
    → (claim_progress_edge rows e fingerprint max_claims at).0 ≡ claimed
    → fingerprint_of (row_of e (claim_progress_edge rows e fingerprint max_claims at).1)
      ≡ some fingerprint
unfolding claim_progress_edge
claimed_row e fingerprint max_claims at rows h = elim (Option-cases (row_of e rows)) [
  | inl k ↦ ground (
    arith,
    same_edge_iff e e,
    row_of-append e rows
        (record { edge = e; fingerprint = fingerprint; claim_count = 1; recorded_at = at }),
  )
  | inr (r, k) ↦ ground (arith, row_of-bump e fingerprint at rows {r = r})
]

abbrev pub Elsewhere : Edge → List Attempt → Type 0
Elsewhere e tries = All (λ (a : Attempt). same_edge a.edge e ≡ false) tries

attempts-Elsewhere :
    (e : Edge) (max_claims : ℕ) (tries : List Attempt) (rows : List Row)
    → Elsewhere e tries
    → row_of e (attempts e max_claims tries rows).1 ≡ row_of e rows
unfolding attempts
attempts-Elsewhere e max_claims [] rows h = refl
attempts-Elsewhere e max_claims (a ∷ tries) rows h = ground (
  arith,
  attempts-Elsewhere e max_claims tries (claim max_claims rows a).1 h.1,
  claim_other a.edge e a.fingerprint max_claims a.at rows h.0,
)

unchanged_row :
    (e : Edge) (fingerprint : String) (max_claims at : ℕ) (rows : List Row)
    → fingerprint_of (row_of e rows) ≡ some fingerprint
    → (claim_progress_edge rows e fingerprint max_claims at).0 ≡ unchanged
unfolding claim_progress_edge
unchanged_row e fingerprint max_claims at rows h = elim (Option-cases (row_of e rows)) [
  | inl k ↦ ground arith
  | inr (r, k) ↦ ground (arith, eq_iff r.fingerprint fingerprint)
]

-- An edge that was taken with an observation is refused as unchanged when it is tried again with
-- the same observation, whatever was tried on other edges in between and whatever the budget.
repeat_unchanged :
    (e : Edge) (fingerprint : String) (max_claims at later : ℕ) (rows : List Row)
    (tries : List Attempt)
    → (claim_progress_edge rows e fingerprint max_claims at).0 ≡ claimed
    → Elsewhere e tries
    → let after =
        (attempts e max_claims tries (claim_progress_edge rows e fingerprint max_claims at).1).1 in
      (claim_progress_edge after e fingerprint max_claims later).0 ≡ unchanged
repeat_unchanged e fingerprint max_claims at later rows tries h others =
    let taken_once = (claim_progress_edge rows e fingerprint max_claims at).1 in
    unchanged_row e fingerprint max_claims later (attempts e max_claims tries taken_once).1 (
      rw (attempts-Elsewhere e max_claims tries taken_once others)
        (claimed_row e fingerprint max_claims at rows h))
