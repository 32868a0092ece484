-- ===== src/Watchdog/Verdict/Status/Agreement.antt =====
-- The countdowns agree with the verdicts.
use symphonika.Base.{
  ℕ, ◌+◌, ◌*◌, ◌≤◌, ◌<◌, Bool, true, Option, none, some, ◌≡◌, ◌↔◌, sym, ap, ◌∙◌, arith, inl, inr,
}
use symphonika.Base.Tests.{lt→ltb, Bool-cases}
use symphonika.Base.Int.{ℤ, pos, sub_ℕ, ◌+ℤ◌, leb_ℤ, leb_ℤ-sub_ℕ, sub_ℕ-leb_ℤ-zero}
use symphonika.Watchdog.Clock.{Sample}
use symphonika.Watchdog.Verdict.{
  Config, run_timeout, run_terminal_reason, run_elapsed_ms, minute_ms,
}
use symphonika.Watchdog.Verdict.Status.{
  Enabled, Status, enabled, disabled, build_watchdog_status, run_remaining_ms,
}

-- A countdown that has run out.
abbrev pub RunOut : Option ℤ → Type 0
RunOut none = ⊥
RunOut (some z) = leb_ℤ z (pos 0) ≡ true

-- The run's age and its remaining time add up to the cap, whatever the sign of either.
elapsed_and_remaining :
    (claimed_at now max_run_ms : ℕ) {a b : ℤ}
    → run_elapsed_ms (some claimed_at) now ≡ some a
    → run_remaining_ms (some claimed_at) max_run_ms now ≡ some b
    → a +ℤ b ≡ pos max_run_ms
unfolding run_elapsed_ms run_remaining_ms ◌+ℤ◌
elapsed_and_remaining claimed_at now max_run_ms h k = ground arith

abbrev remaining_of : Status → Option ℤ
remaining_of disabled = none
remaining_of (enabled e) = e.run_remaining_ms

remaining_lem :
    (c : Config) (claimed_at now : ℕ) (sample : Option Sample) (status : Enabled)
    → build_watchdog_status c now (some (some claimed_at)) sample ≡ enabled status
    → 0 < c.max_run_minutes
    → status.run_remaining_ms ≡ some (sub_ℕ (claimed_at + c.max_run_minutes * minute_ms) now)
unfolding build_watchdog_status run_remaining_ms
remaining_lem c claimed_at now sample status h capped = sym (ap remaining_of h) ∙ shown
  where
    shown :
        remaining_of (build_watchdog_status c now (some (some claimed_at)) sample)
        ≡ some (sub_ℕ (claimed_at + c.max_run_minutes * minute_ms) now)
    shown = elim (Bool-cases c.enabled) [
      | inl e ↦ rw (e, lt→ltb 0 (c.max_run_minutes * minute_ms) (omega arith))
      | inr e ↦ grind arith
    ]

run_timeout_iff :
    (c : Config) (claimed_at now tokens : ℕ) (idle : Option ℕ) (progress : Bool)
    → 0 < c.max_run_minutes
    → (run_terminal_reason c (some claimed_at) idle now tokens progress ≡ some run_timeout)
      ↔ (claimed_at + c.max_run_minutes * minute_ms ≤ now)
unfolding run_terminal_reason
run_timeout_iff c claimed_at now tokens idle progress capped = (
  λ h. (leb_ℤ-sub_ℕ (c.max_run_minutes * minute_ms) claimed_at now).0 (ground arith),
  λ h. ground (arith, (leb_ℤ-sub_ℕ (c.max_run_minutes * minute_ms) claimed_at now).1),
)

-- With the watchdog enabled and a cap set, the shown countdown of a run with a usable claim time
-- has run out exactly if the watchdog's verdict at that time is a timeout.
pub timeout_iff_expired :
    (c : Config) (claimed_at now tokens : ℕ) (idle : Option ℕ) (progress : Bool)
    (sample : Option Sample) (status : Enabled)
    → build_watchdog_status c now (some (some claimed_at)) sample ≡ enabled status
    → 0 < c.max_run_minutes
    → (run_terminal_reason c (some claimed_at) idle now tokens progress ≡ some run_timeout)
      ↔ RunOut status.run_remaining_ms
timeout_iff_expired c claimed_at now tokens idle progress sample status h capped =
    let due = run_timeout_iff c claimed_at now tokens idle progress capped in
    let out = sub_ℕ-leb_ℤ-zero (claimed_at + c.max_run_minutes * minute_ms) now in
    rw (remaining_lem c claimed_at now sample status h capped)
      (λ k. out.1 (due.0 k), λ k. due.1 (out.0 k))
