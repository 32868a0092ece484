-- ===== src/Dispatch/Scheduler.antt =====
-- The weighted choice between the projects that could be dispatched (`pickTargetFromCandidates` of
-- src/lifecycle/run-controller.ts), and the weights that it writes.
pub mod Choice
pub mod Ledger
pub mod Shares
use symphonika.Base.{ℕ, suc, ◌+◌, Bool, true, false, String, List, [], ◌∷◌}
use symphonika.Base.Tests.{if◌then◌else◌, ◌==◌}
use symphonika.Base.Int.{ℤ, pos, negsuc, ◌+ℤ◌, ◌-ℤ◌, ltb_ℤ}

-- An entry of `dispatchable`; the position in the list is its identity.
pub record Entry : Type 0 where
  pub project_name : String
  pub current_weight : ℤ
  pub weight : ℕ

pub next_weight : Entry → ℤ
next_weight e = e.current_weight +ℤ pos e.weight

pub total_weight : List Entry → ℕ
total_weight [] = 0
total_weight (e ∷ es) = e.weight + total_weight es

-- The loop over `dispatchable.slice(1)`: the position and the next weight of `selected`, and the
-- position of the loop.
pub select_from : ℕ → ℤ → ℕ → List Entry → ℕ
unfolding next_weight
select_from selected best i [] = selected
select_from selected best i (e ∷ es) =
    let taken = select_from i (next_weight e) (suc i) es in
    let kept = select_from selected best (suc i) es in
    if ltb_ℤ best (next_weight e) then taken else kept

unfoldable pub select : List Entry → ℕ
unfolding select_from next_weight
select [] = 0
select (e ∷ es) = select_from 0 (next_weight e) 1 es

-- `schedulerWeights`: the next weights, less the total at the selected entry.
pub reweigh : ℕ → ℕ → ℕ → List Entry → List Entry
unfolding next_weight
reweigh selected total i [] = []
reweigh selected total i (e ∷ es) =
    record e {
      current_weight = if i == selected then next_weight e -ℤ pos total else next_weight e;
    }
    ∷ reweigh selected total (suc i) es

unfoldable pub scheduler_weights : List Entry → List Entry
unfolding reweigh select total_weight
scheduler_weights es = reweigh (select es) (total_weight es) 0 es
