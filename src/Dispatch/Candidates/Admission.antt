-- ===== src/Dispatch/Candidates/Admission.antt =====
-- When a candidate is let through, condition by condition.
use symphonika.Base.{
  ℕ, Bool, true, false, not, ◌||◌, Option, none, some, ◌≡◌, ◌⊎◌, refl, inl, inr, arith,
}
use symphonika.Issue.{Project, Tracker}
use symphonika.Registry.ActiveRuns.{is_issue_reserved}
use symphonika.Store.Queries.{latest_run_suppresses_fresh_dispatch}
use symphonika.Dispatch.{Candidate}
use symphonika.Dispatch.Candidates.{
  Facts, Load, tracked_blocks, has_blocking_provider_plan, is_issue_parked_at_raw_fsm_state,
  is_admissible,
}

-- What is asked of a candidate of a project with a tracker: no earlier run suppresses its dispatch,
-- and no provider plan blocks it.
abbrev pub Unblocked : Facts → Project → ℕ → Option Tracker → Type 0
Unblocked f project number none = Unit
Unblocked f project number (some tracker) =
    (latest_run_suppresses_fresh_dispatch project.name number tracker.repository f.rows ≡ false)
    × (has_blocking_provider_plan f.plan_cutoff tracker number f.plans ≡ false)

pub record IsAdmissible (f : Facts) (project : Project) (workflow : Load) (c : Candidate)
    : Type 0 where
  pub unreserved : is_issue_reserved f.active_runs c.found.project c.found.issue.number ≡ false
  pub unblocked : Unblocked f project c.found.issue.number project.tracker
  pub unparked :
      is_issue_parked_at_raw_fsm_state workflow project.name c.found.issue.number f.rows ≡ false
  pub apart : (project.overlap_guard ≡ false) ⊎ (f.has_known_overlap c ≡ false)

tracked_blocks-Unblocked :
    (f : Facts) (project : Project) (number : ℕ) (t : Option Tracker)
    → tracked_blocks f project number t ≡ false
    → Unblocked f project number t
tracked_blocks-Unblocked f project number none h = tt
tracked_blocks-Unblocked f project number (some tracker) h = (ground arith, ground arith)

Unblocked-tracked_blocks :
    (f : Facts) (project : Project) (number : ℕ) (t : Option Tracker)
    → Unblocked f project number t
    → tracked_blocks f project number t ≡ false
Unblocked-tracked_blocks f project number none h = refl
Unblocked-tracked_blocks f project number (some tracker) h = ground arith

apart_of : (a b : Bool) → (not a || not b) ≡ true → (a ≡ false) ⊎ (b ≡ false)
apart_of false b h = inl refl
apart_of true false h = inr refl
apart_of true true h = absurd (ground arith)

of_apart : (a b : Bool) → (a ≡ false) ⊎ (b ≡ false) → (not a || not b) ≡ true
of_apart a b (inl h) = rw h refl
of_apart true b (inr h) = rw h refl
of_apart false b (inr h) = refl

pub is_admissible-IsAdmissible :
    (f : Facts) (project : Project) (workflow : Load) (c : Candidate)
    → is_admissible f project workflow c ≡ true
    → IsAdmissible f project workflow c
unfolding is_admissible
is_admissible-IsAdmissible f project workflow c h = record {
  unreserved = ground arith;
  unblocked =
      tracked_blocks-Unblocked f project c.found.issue.number project.tracker (ground arith);
  unparked = ground arith;
  apart = apart_of project.overlap_guard (f.has_known_overlap c) (ground arith);
}

pub IsAdmissible-is_admissible :
    (f : Facts) (project : Project) (workflow : Load) (c : Candidate)
    → IsAdmissible f project workflow c
    → is_admissible f project workflow c ≡ true
unfolding is_admissible
IsAdmissible-is_admissible f project workflow c a =
    let blocked =
      Unblocked-tracked_blocks f project c.found.issue.number project.tracker a.unblocked in
    let overlap = of_apart project.overlap_guard (f.has_known_overlap c) a.apart in
    rw (a.unreserved, blocked, a.unparked, overlap) refl
