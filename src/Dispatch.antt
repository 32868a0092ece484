-- ===== src/Dispatch.antt =====
-- The choice of the next issue to work on (src/lifecycle/run-controller.ts): the candidates of a
-- project, the weighted choice between projects, and the loop of a tick.
pub mod Scheduler
pub mod Candidates
pub mod Pick
pub mod Tick
use symphonika.Base.{ℕ, String}
use symphonika.Issue.{ProjectIssue}

-- A candidate is an object: `identity` tells it from every other.
pub record Candidate : Type 0 where
  pub identity : ℕ
  pub found : ProjectIssue
