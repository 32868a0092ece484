-- ===== src/Store.antt =====
-- src/run-store.ts: the rows of `runs` and the statements that read and write them. A statement that
-- names no order gives its rows in the table's.
pub mod Runs
pub mod Queries
pub mod Legacy
use symphonika.Base.{ℕ, Bool, true, false, Option, none, some, String, List, [], ◌∷◌}
use symphonika.Run.{RunState, CancelReason, FailureClassification}

-- RunNotificationState
pub data Notification : Type 0 where
  skipped pending sending sent failed : Notification

-- WATCHDOG_TERMINAL_REASONS
pub data WatchdogReason : Type 0 where
  no_convergence no_progress run_timeout : WatchdogReason

-- The columns of `runs` that the statements below read or write.
pub record RunRow : Type 0 where
  pub id : String
  pub project_name : String
  pub issue_number : ℕ
  pub issue_owner : Option String
  pub issue_repo : Option String
  pub state : RunState
  pub current_state_id : Option String
  pub is_continuation : Bool
  pub terminal_reason : Option String
  pub failure_classification : Option FailureClassification
  pub cancel_requested : Bool
  pub cancel_reason : Option CancelReason
  pub shutdown_resume_declined_at : Option String
  pub notification_state : Notification
  pub notification_error : Option String
  pub provider_scope_cleanup_pending : Bool
  pub watchdog_generation : ℕ
  pub created_at : String
  pub updated_at : String

-- A row of `run_state_transitions`.
pub record Transition : Type 0 where
  pub run_id : String
  pub state : RunState
  pub created_at : String

-- A row of `watchdog_samples`, and one of `watchdog_turn_ids`.
pub record Sample : Type 0 where
  pub run_id : String
  pub idle_since : Option String

pub record TurnId : Type 0 where
  pub run_id : String
  pub turn_id : String

pub record Store : Type 0 where
  pub runs : List RunRow
  pub transitions : List Transition
  pub samples : List Sample
  pub turn_ids : List TurnId
