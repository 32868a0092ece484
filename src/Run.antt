-- ===== src/Run.antt =====
-- The vocabulary of src/run-store.ts that the other parts share: run states, cancel reasons and
-- failure classifications.
use symphonika.Base.{Bool, true, false}

pub data RunState : Type 0 where
  queued preparing_workspace running input_required failed blocked succeeded : RunState
  cancelled stale waiting : RunState

-- TERMINAL_RUN_STATES: the states with no further transition ahead of them.
unfoldable pub is_terminal : RunState → Bool
is_terminal RunState.blocked = true
is_terminal RunState.cancelled = true
is_terminal RunState.failed = true
is_terminal RunState.input_required = true
is_terminal RunState.stale = true
is_terminal RunState.succeeded = true
is_terminal _ = false

pub data CancelReason : Type 0 where
  closed_issue daemon_shutdown eligibility_loss no_convergence no_progress : CancelReason
  operator run_timeout : CancelReason

pub data FailureClassification : Type 0 where
  transient deterministic input_required : FailureClassification
