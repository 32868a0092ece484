-- ===== src/Watchdog/Verdict.antt =====
-- The verdicts: the wall-clock cap, the convergence budget, and the liveness rule, in this order.
pub mod Status
use symphonika.Base.{ℕ, ◌*◌, Bool, true, false, ◌&&◌, ◌||◌, Option, none, some}
use symphonika.Base.Tests.{if◌then◌else◌, ltb, leb}
use symphonika.Base.Int.{ℤ, pos, sub_ℕ, leb_ℤ}
use symphonika.Run.{CancelReason}

pub data TerminalReason : Type 0 where
  no_progress no_convergence run_timeout : TerminalReason

pub record Config : Type 0 where
  pub enabled : Bool
  pub grace_minutes : ℕ
  pub max_run_minutes : ℕ
  pub output_token_budget : ℕ

-- runElapsedMs: `none` where the claim's timestamp is unusable.
unfoldable pub run_elapsed_ms : Option ℕ → ℕ → Option ℤ
run_elapsed_ms none now = none
run_elapsed_ms (some claimed_at) now = some (sub_ℕ now claimed_at)

abbrev pub at_least : Option ℤ → ℕ → Bool
at_least none n = false
at_least (some z) n = leb_ℤ (pos n) z

unfoldable pub idle_grace_expired : ℕ → Option ℕ → ℕ → Bool → Bool
idle_grace_expired grace_ms idle_since now progress =
    if progress
    then false
    else (elim idle_since [ none ↦ false | some since ↦ leb_ℤ (pos grace_ms) (sub_ℕ now since) ])

abbrev pub minute_ms : ℕ
minute_ms = 60000

-- The `terminalReason` member of the run port, with watchdogTerminalReason.
unfoldable pub run_terminal_reason :
    Config → Option ℕ → Option ℕ → ℕ → ℕ → Bool → Option TerminalReason
unfolding run_elapsed_ms idle_grace_expired
run_terminal_reason c created_at idle_since now tokens progress =
    let max_run_ms = c.max_run_minutes * minute_ms in
    if ltb 0 max_run_ms && at_least (run_elapsed_ms created_at now) max_run_ms
    then some run_timeout
    else if ltb 0 c.output_token_budget && leb c.output_token_budget tokens
    then some no_convergence
    else if idle_grace_expired (c.grace_minutes * minute_ms) idle_since now progress
    then some no_progress
    else none

-- The same member of the routine-firing port: the liveness rule alone.
pub firing_terminal_reason : Config → Option ℕ → ℕ → Bool → Option TerminalReason
unfolding idle_grace_expired
firing_terminal_reason c idle_since now progress =
    if idle_grace_expired (c.grace_minutes * minute_ms) idle_since now progress
    then some no_progress
    else none

-- WATCHDOG_CANCEL_REASONS
unfoldable pub cancel_reason_of : TerminalReason → CancelReason
cancel_reason_of no_convergence = CancelReason.no_convergence
cancel_reason_of no_progress = CancelReason.no_progress
cancel_reason_of run_timeout = CancelReason.run_timeout
