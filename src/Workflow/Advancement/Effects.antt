-- ===== src/Workflow/Advancement/Effects.antt =====
-- What a decision leaves in the store, for each of its results.
use symphonika.Base.{
  ℕ, ◌+◌, ◌≤◌, ◌<◌, Bool, true, false, none, some, String, List, [], ◌∷◌, ◌++◌, ◌≡◌, inl, inr,
  arith,
}
use symphonika.Base.Tests.{Option-cases}
use symphonika.Workflow.Decision.{find_workflow_state}
use symphonika.Workflow.Progress.{row_of, ClaimResult, claim_progress_edge}
use symphonika.Workflow.Progress.Budget.{claims_of, one_if, claim_counts}
use symphonika.Workflow.Advancement.{
  Effectful, Input, Mode, provider, waiting, enabled, exempt, Result, Store, Write,
  apply_workflow_decision, edge_of, by_mode, guard, hold, record_advance, record_write,
  workflow_terminal, target_id, transition_reason, state_advance, waiting_run, target_terminal,
}

-- The run goes on to its target state.
abbrev pub moves : Result → Bool
moves (Result.advanced to) = true
moves (Result.parked to run_id) = true
moves _ = false

abbrev pub parks : Result → Bool
parks (Result.parked to run_id) = true
parks _ = false

abbrev is_advance : Write → Bool
is_advance (state_advance run_id to reason) = true
is_advance _ = false

abbrev is_row : Write → Bool
is_row (waiting_run row) = true
is_row _ = false

pub count_of : (Write → Bool) → List Write → ℕ
count_of p [] = 0
count_of p (w ∷ ws) = one_if (p w) + count_of p ws

count_of-append :
    (p : Write → Bool) (ws : List Write) (w : Write)
    → count_of p (ws ++ w ∷ []) ≡ count_of p ws + one_if (p w)
unfolding count_of
count_of-append p [] w = omega arith
count_of-append p (v ∷ ws) w = omega (arith, count_of-append p ws w)

abbrev pub advances : Store → ℕ
advances s = count_of is_advance s.writes

abbrev pub rows : Store → ℕ
rows s = count_of is_row s.writes

-- The result tells the writes: as many advances more as it moves, as many rows more as it parks.
Accounts : Store → Result × Store → Type 0
Accounts s r =
    (advances r.1 ≡ advances s + one_if (moves r.0)) × (rows r.1 ≡ rows s + one_if (parks r.0))

record_advance-Accounts :
    (new_run_id : String) (s : Store) (input : Input) (reason to : String)
    → Accounts s (record_advance new_run_id s input reason to)
unfolding Accounts record_advance
record_advance-Accounts new_run_id s input reason to = grind (arith, count_of-append)

hold-Accounts :
    (s : Store) (input : Input) (to : String) (c : ClaimResult) (max_claims : ℕ)
    → Accounts s (hold s input to c max_claims)
unfolding Accounts hold
hold-Accounts s input to c max_claims = grind (arith, count_of-append)

by_mode-Accounts :
    (new_run_id : String) (at : ℕ) (s : Store) (input : Input) (reason to : String) (mode : Mode)
    → Accounts s (by_mode new_run_id at s input reason to mode)
unfolding Accounts guard
by_mode-Accounts new_run_id at s input reason to (provider true) = ground arith
by_mode-Accounts new_run_id at s input reason to (provider false) =
    record_advance-Accounts new_run_id s input reason to
by_mode-Accounts new_run_id at s input reason to (waiting exempt) =
    record_advance-Accounts new_run_id s input reason to
by_mode-Accounts new_run_id at s input reason to (waiting (enabled fingerprint max_claims)) =
    let claim = claim_progress_edge s.progress (edge_of input to) fingerprint max_claims at in
    let after = record s { progress = claim.1 } in
    ground (
      arith,
      record_advance-Accounts new_run_id after input reason to,
      hold-Accounts after input to claim.0 max_claims,
    )

apply_open :
    (new_run_id : String) (at : ℕ) (s : Store) (input : Input) (reason to : String)
    → target_terminal (find_workflow_state input.workflow to) ≡ none
    → apply_workflow_decision new_run_id at s input (Effectful.advance reason to)
      ≡ by_mode new_run_id at s input reason to input.mode
unfolding apply_workflow_decision
apply_open new_run_id at s input reason to e = rw (e, apply_workflow_decision)

apply_ended :
    (new_run_id : String) (at : ℕ) (s : Store) (input : Input) (reason to : String) {label : String}
    → target_terminal (find_workflow_state input.workflow to) ≡ some label
    → apply_workflow_decision new_run_id at s input (Effectful.advance reason to) ≡ (
      Result.terminal label (target_id (find_workflow_state input.workflow to) to),
      record_write s (
          workflow_terminal input.run.id
            (target_id (find_workflow_state input.workflow to) to)
            (transition_reason input reason)),
    )
unfolding apply_workflow_decision
apply_ended new_run_id at s input reason to e = rw (e, apply_workflow_decision)

-- Every decision in every mode: the store has one advance more exactly if the result is an advance
-- or a park, and one waiting row more exactly if it is a park; no other result adds either.
apply_workflow_decision-writes :
    (new_run_id : String) (at : ℕ) (s : Store) (input : Input) (decision : Effectful)
    → let r = apply_workflow_decision new_run_id at s input decision in
      (advances r.1 ≡ advances s + one_if (moves r.0)) × (rows r.1 ≡ rows s + one_if (parks r.0))
unfolding apply_workflow_decision Accounts
apply_workflow_decision-writes new_run_id at s input (Effectful.blocked reason) =
    grind (arith, count_of-append)
apply_workflow_decision-writes new_run_id at s input (Effectful.terminate state_id label) =
    grind (arith, count_of-append)
apply_workflow_decision-writes new_run_id at s input (Effectful.advance reason to) =
    elim (Option-cases (target_terminal (find_workflow_state input.workflow to))) [
      | inl e ↦
          rw (apply_open new_run_id at s input reason to e)
            (by_mode-Accounts new_run_id at s input reason to input.mode)
      | inr (label, e) ↦
          rw (apply_ended new_run_id at s input reason to e) (grind (arith, count_of-append))
    ]

-- In a wait with a progress guard and a positive budget that the edge has not exceeded, the edge's
-- count goes up by one exactly if the run goes on, and stays within the budget.
pub guarded_move_pays :
    (new_run_id : String) (at : ℕ) (s : Store) (input : Input) (reason to fingerprint : String)
    (max_claims : ℕ)
    → input.mode ≡ waiting (enabled fingerprint max_claims)
    → 0 < max_claims
    → claims_of (row_of (edge_of input to) s.progress) ≤ max_claims
    → let r = apply_workflow_decision new_run_id at s input (Effectful.advance reason to) in
      (claims_of (row_of (edge_of input to) r.1.progress)
        ≡ claims_of (row_of (edge_of input to) s.progress) + one_if (moves r.0))
      × (claims_of (row_of (edge_of input to) r.1.progress) ≤ max_claims)
unfolding apply_workflow_decision guard hold record_advance
guarded_move_pays new_run_id at s input reason to fingerprint max_claims h m n =
    elim (Option-cases (target_terminal (find_workflow_state input.workflow to))) [
      | inl e ↦
          rw (apply_open new_run_id at s input reason to e, h)
            (ground
              (arith, claim_counts (edge_of input to) fingerprint max_claims at s.progress m n))
      | inr (label, e) ↦ rw (apply_ended new_run_id at s input reason to e) (ground arith)
    ]
