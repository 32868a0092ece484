-- ===== src/Provider.antt =====
-- How a provider's process ended (src/providers/provider-completion.ts), and what that makes of the
-- run (src/lifecycle/classify-failure.ts).
pub mod Completion
pub mod Classify
use symphonika.Base.{Bool, Option, String}
use symphonika.Run.{FailureClassification}

pub data Kind : Type 0 where
  success failed cancelled input_required : Kind

-- ClassifiedTerminal
pub record Terminal : Type 0 where
  pub branch_advanced_since_attempt_start : Option Bool
  pub classification : Option FailureClassification
  pub commits_ahead : Option Bool
  pub kind : Kind
  pub reason : String
