-- ===== src/Registry/ActiveRuns.antt =====
-- src/lifecycle/active-runs.ts: the registries together, their shutdown, and the retry policy.
pub mod CancelAll
use symphonika.Base.{ℕ, zero, suc, ◌-◌, min, String, Bool, true, Option, none, some, List, [], ◌∷◌}
use symphonika.Base.Tests.{if◌then◌else◌}
use symphonika.Run.{CancelReason}
use symphonika.Registry.InFlight
use symphonika.Registry.InFlight.{Entry, Handler, begin_shutdown, request_cancel, list}
use symphonika.Registry.Scheduled
use symphonika.Registry.Reservations

pub record RetryPolicy : Type 0 where
  pub cap : ℕ
  pub delays_ms : List ℕ
  pub max_backoff_ms : ℕ

-- LIFECYCLE_POLICY.retry
abbrev pub lifecycle_retry : RetryPolicy
lifecycle_retry = record {
  cap = 3;
  delays_ms = 10000 ∷ 30000 ∷ 120000 ∷ [];
  max_backoff_ms = 300000;
}

abbrev pub get_elem? : List ℕ → ℕ → Option ℕ
get_elem? [] i = none
get_elem? (x ∷ xs) zero = some x
get_elem? (x ∷ xs) (suc i) = get_elem? xs i

-- `delaysMs[retryCount - 1]`: at a retry count of zero the index is -1, where nothing stands.
abbrev pub slot : List ℕ → ℕ → Option ℕ
slot ds zero = none
slot ds (suc i) = get_elem? ds i

pub compute_retry_delay_ms : ℕ → RetryPolicy → ℕ
compute_retry_delay_ms retry_count policy = elim (slot policy.delays_ms retry_count) [
  | none ↦ policy.max_backoff_ms
  | some d ↦ min d policy.max_backoff_ms
]

pub record ActiveRuns : Type 0 where
  pub in_flight : InFlight.Registry
  pub scheduled : Scheduled.Registry

unfoldable pub is_issue_reserved : ActiveRuns → String → ℕ → Bool
is_issue_reserved a project number =
    Reservations.is_issue_reserved a.in_flight a.scheduled project number

abbrev pub called_handler : Option Handler → List Handler → List Handler
called_handler none hs = hs
called_handler (some h) hs = h ∷ hs

-- `list().map((entry) => requestCancel(entry.runId, reason, { supersedeReason: true }))`
pub cancel_each : List Entry → CancelReason → InFlight.Registry → InFlight.Registry × List Handler
cancel_each [] reason r = (r, [])
cancel_each (e ∷ es) reason r =
    let (s, called) = request_cancel r e.run_id reason true in
    let (t, later) = cancel_each es reason s in (t, called_handler called later)

-- What a `cancelAll` calls: the shutdown callbacks of cleared work, then the cancel handlers.
pub record Cancelled : Type 0 where
  pub active : ActiveRuns
  pub on_shutdown : List ℕ
  pub handlers : List Handler

pub cancel_all : ActiveRuns → CancelReason → Cancelled
unfolding cancel_each
cancel_all a reason =
    let shut = begin_shutdown a.in_flight in
    let (work, callbacks) = Scheduled.cancel_all a.scheduled in
    let (runs, called) = cancel_each (list shut) reason shut in
    record {
      active = record { in_flight = runs; scheduled = work };
      on_shutdown = callbacks;
      handlers = called;
    }
