-- ===== src/Store/Runs.antt =====
-- The statements on the rows of runs (src/run-store.ts): state changes, the watchdog's verdict,
-- cancellation and notifications.
pub mod Verdicts
pub mod Statements
pub mod Keeps
pub mod Once
pub mod Notices
use symphonika.Base.{
  ℕ, suc, ◌+◌, Bool, true, false, ◌&&◌, ◌||◌, not, Option, none, some, String, List, [], ◌∷◌, ◌++◌,
  str_eq,
}
use symphonika.Base.Tests.{if◌then◌else◌, ◌==◌}
use symphonika.Base.Lists.{length, filter}
use symphonika.Run.{RunState, CancelReason, FailureClassification}
use symphonika.Store.{Notification, WatchdogReason, RunRow, Transition, Sample, TurnId, Store}

-- `update runs set ... where ...`: the rows after it, and `changes`.
abbrev pub update_where : (RunRow → Bool) → (RunRow → RunRow) → List RunRow → List RunRow
update_where p f [] = []
update_where p f (r ∷ rs) = (if p r then f r else r) ∷ update_where p f rs

abbrev pub changes : (RunRow → Bool) → List RunRow → ℕ
changes p [] = 0
changes p (r ∷ rs) = if p r then suc (changes p rs) else changes p rs

abbrev pub is_id : String → RunRow → Bool
is_id id r = str_eq r.id id

-- insertRunTransition
abbrev pub with_transition : String → RunState → String → Store → Store
with_transition run_id state at s = record s {
  transitions = s.transitions ++ record { run_id = run_id; state = state; created_at = at } ∷ [];
}

abbrev pub is_terminal_state : RunState → Bool
is_terminal_state RunState.succeeded = true
is_terminal_state RunState.failed = true
is_terminal_state RunState.blocked = true
is_terminal_state RunState.cancelled = true
is_terminal_state RunState.stale = true
is_terminal_state RunState.input_required = true
is_terminal_state _ = false

-- `not (... and failure_classification = 'transient')` is null, and no condition, where the column is.
abbrev pub is_lasting : Option FailureClassification → Bool
is_lasting none = false
is_lasting (some FailureClassification.transient) = false
is_lasting (some FailureClassification.deterministic) = true
is_lasting (some FailureClassification.input_required) = true

abbrev pub is_failed : RunState → Bool
is_failed RunState.failed = true
is_failed _ = false

abbrev pub is_preparing : RunState → Bool
is_preparing RunState.preparing_workspace = true
is_preparing _ = false

abbrev pub is_waiting : RunState → Bool
is_waiting RunState.waiting = true
is_waiting _ = false

abbrev pub is_running : RunState → Bool
is_running RunState.running = true
is_running _ = false

-- The row after `updateRunState`: a terminal state is to be notified, a failure only with a
-- classification that is not transient.
pub entered : RunState → String → RunRow → RunRow
entered state now r =
    let notify =
      is_terminal_state state && (not (is_failed state) || is_lasting r.failure_classification) in
    record r {
      state = state;
      notification_state = if notify then Notification.pending else r.notification_state;
      notification_error = if notify then none else r.notification_error;
      watchdog_generation =
          if is_preparing state then suc r.watchdog_generation else r.watchdog_generation;
      updated_at = now;
    }

abbrev clear_idle : String → List Sample → List Sample
clear_idle id [] = []
clear_idle id (w ∷ ws) =
    (if str_eq w.run_id id then record w { idle_since = none } else w) ∷ clear_idle id ws

-- A new attempt loses the last sample and the turns of the one before.
abbrev forget_attempt : String → Store → Store
forget_attempt id s = record s {
  samples = filter (λ w. not (str_eq w.run_id id)) s.samples;
  turn_ids = filter (λ t. not (str_eq t.run_id id)) s.turn_ids;
}

pub update_run_state : String → RunState → String → Store → Store
unfolding entered
update_run_state id state now s =
    let prepared = if is_preparing state then forget_attempt id s else s in
    let updated = record prepared {
      runs = update_where (is_id id) (entered state now) prepared.runs;
    } in
    let logged = with_transition id state now updated in
    if is_waiting state then record logged { samples = clear_idle id logged.samples } else logged

abbrev pub verdict_text : WatchdogReason → String
verdict_text WatchdogReason.no_convergence = "no_convergence"
verdict_text WatchdogReason.no_progress = "no_progress"
verdict_text WatchdogReason.run_timeout = "run_timeout"

abbrev pub is_verdict : String → Bool
is_verdict t = str_eq t "no_convergence" || (str_eq t "no_progress" || str_eq t "run_timeout")

-- UNCLAIMED_WATCHDOG_VERDICT_GUARD
abbrev pub unclaimed : Option String → Bool
unclaimed none = true
unclaimed (some t) = not (is_verdict t)

abbrev pub is_generation : Option ℕ → ℕ → Bool
is_generation none n = true
is_generation (some g) n = n == g

-- The `where` of `casRunWatchdogStale`, and its `set`.
pub stale_guard : Bool → String → Option ℕ → RunRow → Bool
stale_guard require_running id generation r =
    is_id id r
    && ((not require_running || is_running r.state)
        && (not r.cancel_requested
            && (unclaimed r.terminal_reason && is_generation generation r.watchdog_generation)))

pub marked_stale : WatchdogReason → String → RunRow → RunRow
marked_stale reason at r = record r {
  state = RunState.stale;
  terminal_reason = some (verdict_text reason);
  failure_classification = some FailureClassification.deterministic;
  notification_state = Notification.pending;
  notification_error = none;
  updated_at = at;
}

pub cas_run_watchdog_stale :
    Bool → String → WatchdogReason → String → Option ℕ → Store → Store × Bool
unfolding stale_guard marked_stale
cas_run_watchdog_stale require_running id reason at generation s =
    let p = stale_guard require_running id generation in
    let updated = record s { runs = update_where p (marked_stale reason at) s.runs } in
    if changes p s.runs == 0
    then (updated, false)
    else (with_transition id RunState.stale at updated, true)

pub mark_run_watchdog_stale : String → WatchdogReason → String → Option ℕ → Store → Store × Bool
unfolding cas_run_watchdog_stale
mark_run_watchdog_stale id reason at generation s =
    cas_run_watchdog_stale true id reason at generation s

pub mark_run_no_progress_stale : String → String → Option ℕ → Store → Store × Bool
unfolding mark_run_watchdog_stale
mark_run_no_progress_stale id at generation s =
    mark_run_watchdog_stale id WatchdogReason.no_progress at generation s

pub mark_slot_owned_run_timed_out : String → String → Store → Store × Bool
unfolding cas_run_watchdog_stale
mark_slot_owned_run_timed_out id at s =
    cas_run_watchdog_stale false id WatchdogReason.run_timeout at none s

abbrev pub has_reason : WatchdogReason → Option String → Bool
has_reason reason none = false
has_reason reason (some t) = str_eq t (verdict_text reason)

abbrev pub to_reassert : String → WatchdogReason → RunRow → Bool
to_reassert id reason r =
    is_id id r && (has_reason reason r.terminal_reason && not r.cancel_requested)

abbrev pub reasserted : String → RunRow → RunRow
reasserted at r = record r {
  state = RunState.stale;
  failure_classification = some FailureClassification.deterministic;
  updated_at = at;
}

pub reassert_run_watchdog_stale : String → WatchdogReason → String → Store → Store × Bool
reassert_run_watchdog_stale id reason at s =
    let updated = record s { runs = update_where (to_reassert id reason) (reasserted at) s.runs } in
    if changes (to_reassert id reason) s.runs == 0
    then (updated, false)
    else (with_transition id RunState.stale at updated, true)

-- The two statements of `recordTerminalReason`.
abbrev pub with_reason : String → Option FailureClassification → String → RunRow → RunRow
with_reason reason none now r = record r { terminal_reason = some reason; updated_at = now }
with_reason reason (some c) now r = record r {
  terminal_reason = some reason;
  failure_classification = some c;
  updated_at = now;
}

pub record_terminal_reason : String → String → Option FailureClassification → String → Store → Store
record_terminal_reason id reason classification now s = record s {
  runs = update_where (is_id id) (with_reason reason classification now) s.runs;
}

-- An entry of `markRunsStale`, with the time that is read for it.
pub record StaleEntry : Type 0 where
  pub run_id : String
  pub reason : String
  pub previous_state : RunState
  pub provider_scope_cleanup_pending : Bool
  pub at : String

abbrev pub is_stale : RunState → Bool
is_stale RunState.stale = true
is_stale _ = false

abbrev pub swept : StaleEntry → RunRow → RunRow
swept e r = record r {
  state = RunState.stale;
  terminal_reason = some e.reason;
  provider_scope_cleanup_pending = e.provider_scope_cleanup_pending;
  notification_state = Notification.pending;
  notification_error = none;
  updated_at = e.at;
}

-- A row that was stale before gets no other transition.
pub mark_run_stale : StaleEntry → Store → Store
mark_run_stale e s =
    let updated = record s { runs = update_where (is_id e.run_id) (swept e) s.runs } in
    if is_stale e.previous_state
    then updated
    else with_transition e.run_id RunState.stale e.at updated

pub mark_runs_stale : List StaleEntry → Store → Store
unfolding mark_run_stale
mark_runs_stale [] s = s
mark_runs_stale (e ∷ es) s = mark_runs_stale es (mark_run_stale e s)

abbrev pub is_shutdown : Option CancelReason → Bool
is_shutdown (some CancelReason.daemon_shutdown) = true
is_shutdown _ = false

-- The reason of a shutdown sticks.
abbrev pub to_cancel : CancelReason → String → RunRow → RunRow
to_cancel reason now r = record r {
  cancel_requested = true;
  cancel_reason = if is_shutdown r.cancel_reason then r.cancel_reason else some reason;
  updated_at = now;
}

unfoldable pub mark_cancel_requested : String → CancelReason → String → Store → Store
mark_cancel_requested id reason now s = record s {
  runs = update_where (is_id id) (to_cancel reason now) s.runs;
}

abbrev pub is_pending : Notification → Bool
is_pending Notification.pending = true
is_pending _ = false

abbrev pub is_sending : Notification → Bool
is_sending Notification.sending = true
is_sending _ = false

abbrev pub to_notify : RunRow → RunRow
to_notify r = record r { notification_state = Notification.pending; notification_error = none }

pub mark_run_notification_pending : String → Store → Store
mark_run_notification_pending id s = record s { runs = update_where (is_id id) to_notify s.runs }

abbrev pub to_claim : String → RunRow → Bool
to_claim id r = is_id id r && is_pending r.notification_state

abbrev pub claimed : RunRow → RunRow
claimed r = record r { notification_state = Notification.sending; notification_error = none }

-- The loop of the transaction: the rows and the number claimed.
unfoldable pub claim_each : List String → List RunRow → List RunRow × ℕ
claim_each [] rows = (rows, 0)
claim_each (id ∷ ids) rows =
    let (later, n) = claim_each ids (update_where (to_claim id) claimed rows) in
    (later, changes (to_claim id) rows + n)

-- A conflict rolls the transaction back.
unfoldable pub claim_run_notifications : List String → Store → Store × Bool
unfolding claim_each
claim_run_notifications [] s = (s, false)
claim_run_notifications (id ∷ ids) s =
    let (rows, n) = claim_each (id ∷ ids) s.runs in
    if n == length (id ∷ ids) then (record s { runs = rows }, true) else (s, false)

abbrev pub to_complete : String → RunRow → Bool
to_complete id r =
    is_id id r && (is_pending r.notification_state || is_sending r.notification_state)

abbrev pub completed : Notification → Option String → RunRow → RunRow
completed state error r = record r { notification_state = state; notification_error = error }

abbrev pub complete_each : Notification → Option String → List String → List RunRow → List RunRow
complete_each state error [] rows = rows
complete_each state error (id ∷ ids) rows =
    complete_each state error ids (update_where (to_complete id) (completed state error) rows)

pub complete_run_notifications : List String → Notification → Option String → Store → Store
complete_run_notifications ids state error s = record s {
  runs = complete_each state error ids s.runs;
}

abbrev pub interrupted : RunRow → Bool
interrupted r = is_sending r.notification_state

abbrev pub released : RunRow → RunRow
released r = record r {
  notification_state = Notification.pending;
  notification_error = some "delivery interrupted by daemon restart";
}

pub release_interrupted_run_notifications : Store → Store × ℕ
release_interrupted_run_notifications s =
    (record s { runs = update_where interrupted released s.runs }, changes interrupted s.runs)
