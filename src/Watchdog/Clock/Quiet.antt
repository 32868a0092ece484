-- ===== src/Watchdog/Clock/Quiet.antt =====
-- The idle clock over a run's ticks, newest first.
use symphonika.Base.{
  ℕ, ◌+◌, ◌*◌, ◌≤◌, ◌<◌, String, Bool, true, false, Option, none, some, List, [], ◌∷◌, ◌++◌, ◌≡◌,
  ◌↔◌, ◌⊎◌, refl, arith, inl, inr,
}
use symphonika.Base.Int.{leb_ℤ-sub_ℕ}
use symphonika.Watchdog.Clock.{
  Sample, Reading, progressed, attempt_changed, idle_clock, sample_progress,
}
use symphonika.Watchdog.Verdict.{
  Config, TerminalReason, no_progress, run_terminal_reason, idle_grace_expired, minute_ms,
}

-- A tick at a time: where the log is, and what the tick reads.
pub record Tick : Type 0 where
  pub now : ℕ
  pub path : String
  pub reading : Reading

-- The sample that the store holds after the ticks, as the driver persists it.
unfoldable pub persist : Option Sample → Tick → Sample
persist previous t =
    let next = sample_progress previous t.path t.now t.reading in
    record next { idle_since = (idle_clock previous next t.now).idle_since }

unfoldable pub stored : List Tick → Option Sample
stored [] = none
stored (t ∷ older) = some (persist (stored older) t)

-- Whether the newest tick saw progress.
abbrev pub saw_progress : Tick → List Tick → Bool
saw_progress t older =
    progressed (stored older) (sample_progress (stored older) t.path t.now t.reading)

-- A run's verdict at the newest tick, from its claim time.
abbrev pub verdict : Config → Option ℕ → Tick → List Tick → Option TerminalReason
verdict c created_at t older =
    let sample = persist (stored older) t in
    run_terminal_reason c created_at sample.idle_since t.now sample.output_tokens_total
      (saw_progress t older)

-- Each tick is no earlier than those before it.
abbrev pub Ordered : Tick → List Tick → Type 0
Ordered t [] = Unit
Ordered t (u ∷ older) = (u.now ≤ t.now) × Ordered u older

-- No tick later than `since` saw progress.
abbrev pub QuietSince : ℕ → List Tick → Type 0
QuietSince since [] = Unit
QuietSince since (t ∷ older) =
    (since < t.now → saw_progress t older ≡ false) × QuietSince since older

QuietSince-late :
    (since : ℕ) (t : Tick) (older : List Tick)
    → Ordered t older
    → t.now ≤ since
    → QuietSince since (t ∷ older)
QuietSince-late since t [] o h = ((λ k. absurd (omega arith)), tt)
QuietSince-late since t (u ∷ older) o h =
    ((λ k. absurd (omega arith)), QuietSince-late since u older o.1 (omega (arith, o.0)))

abbrev pub idle_of : Option Sample → Option ℕ
idle_of none = none
idle_of (some s) = s.idle_since

-- The clock runs from this tick, or from where it ran before, and only without progress.
idle_clock_cases :
    (previous : Option Sample) (next : Sample) (now since : ℕ)
    → (idle_clock previous next now).idle_since ≡ some since
    → (progressed previous next ≡ false) × ((since ≡ now) ⊎ (idle_of previous ≡ some since))
unfolding idle_clock
idle_clock_cases none next now since h = ground arith
idle_clock_cases (some previous) next now since h = ground arith

idle_since-QuietSince :
    (t : Tick) (older : List Tick) (since : ℕ)
    → Ordered t older
    → (persist (stored older) t).idle_since ≡ some since
    → QuietSince since (t ∷ older)
unfolding persist stored
idle_since-QuietSince t [] since o h = ((λ k. (idle_clock_cases none _ t.now since h).0), tt)
idle_since-QuietSince t (u ∷ older) since o h =
    let (quiet, from) = idle_clock_cases (stored (u ∷ older)) _ t.now since h in
    (
      (λ k. quiet),
      elim from [
        | inl e ↦ QuietSince-late since u older o.1 (omega (arith, o.0, e))
        | inr e ↦ idle_since-QuietSince u older since o.1 e
      ],
    )

expired_since :
    (grace now : ℕ) (idle : Option ℕ) (progress : Bool)
    → idle_grace_expired grace idle now progress ≡ true
    → (since : ℕ) × (idle ≡ some since) × (since + grace ≤ now)
unfolding idle_grace_expired
expired_since grace now none progress h = ground arith
expired_since grace now (some since) progress h =
    (since, refl, (leb_ℤ-sub_ℕ grace since now).0 (ground arith))

expired_of_no_progress :
    (c : Config) (created_at idle : Option ℕ) (now tokens : ℕ) (progress : Bool)
    → run_terminal_reason c created_at idle now tokens progress ≡ some no_progress
    → idle_grace_expired (c.grace_minutes * minute_ms) idle now progress ≡ true
unfolding run_terminal_reason
expired_of_no_progress c created_at idle now tokens progress h = ground arith

-- A run that is given up for want of progress has been quiet for the whole grace: there is a
-- moment, at least the grace before this tick, after which no tick saw any progress.
pub no_progress_quiet :
    (c : Config) (created_at : Option ℕ) (t : Tick) (older : List Tick)
    → Ordered t older
    → verdict c created_at t older ≡ some no_progress
    → (since : ℕ) × (since + c.grace_minutes * minute_ms ≤ t.now) × QuietSince since (t ∷ older)
no_progress_quiet c created_at t older o h =
    let sample = persist (stored older) t in
    let expired =
      expired_of_no_progress c created_at sample.idle_since t.now sample.output_tokens_total
        (saw_progress t older) h in
    let (since, e, late) =
      expired_since (c.grace_minutes * minute_ms) t.now sample.idle_since (saw_progress t older)
        expired in
    (since, late, idle_since-QuietSince t older since o e)

-- These ticks, newest first, saw no progress, and the log stayed where it was.
abbrev pub Stalled : List Tick → List Tick → Type 0
Stalled [] older = Unit
Stalled (t ∷ ts) older =
    (saw_progress t (ts ++ older) ≡ false)
    × (attempt_changed (stored (ts ++ older))
          (sample_progress (stored (ts ++ older)) t.path t.now t.reading)
        ≡ false)
    × Stalled ts older

idle_clock_first :
    (previous : Option Sample) (next : Sample) (now : ℕ)
    → progressed previous next ≡ false
    → idle_of previous ≡ none
    → (idle_clock previous next now).idle_since ≡ some now
unfolding idle_clock
idle_clock_first none next now p h = refl
idle_clock_first (some previous) next now p h = ground arith

idle_clock_next :
    (previous : Option Sample) (next : Sample) (now since : ℕ)
    → progressed previous next ≡ false
    → attempt_changed previous next ≡ false
    → idle_of previous ≡ some since
    → (idle_clock previous next now).idle_since ≡ some since
unfolding idle_clock
idle_clock_next none next now since p q h = cc
idle_clock_next (some previous) next now since p q h = ground arith

Stalled-since :
    (ts : List Tick) (first : Tick) (older : List Tick)
    → saw_progress first older ≡ false
    → Stalled ts (first ∷ older)
    → idle_of (stored older) ≡ none
    → idle_of (stored (ts ++ first ∷ older)) ≡ some first.now
unfolding stored persist
Stalled-since [] first older p s h = idle_clock_first (stored older) _ first.now p h
Stalled-since (t ∷ ts) first older p s h =
    idle_clock_next (stored (ts ++ first ∷ older)) _ t.now first.now s.0 s.1
      (Stalled-since ts first older p s.2 h)

liveness_only :
    (c : Config) (created_at : Option ℕ) (since now tokens : ℕ)
    → c.max_run_minutes ≡ 0
    → c.output_token_budget ≡ 0
    → (run_terminal_reason c created_at (some since) now tokens false ≡ some no_progress)
      ↔ (since + c.grace_minutes * minute_ms ≤ now)
unfolding run_terminal_reason
liveness_only c created_at since now tokens cap budget =
    rw (cap, budget)
      (
        λ h. (leb_ℤ-sub_ℕ _ since now).0 (ground arith),
        λ h. ground (arith, (leb_ℤ-sub_ℕ (c.grace_minutes * minute_ms) since now).1),
      )

-- A run whose clock was not running, that then stalls at a first tick and stays stalled through
-- any ticks up to this one, is given up at this tick exactly if the grace has passed since the
-- first one. (No cap and no budget are set.)
pub idle_run_is_stopped :
    (c : Config) (created_at : Option ℕ) (t : Tick) (ts : List Tick) (first : Tick)
    (older : List Tick)
    → c.max_run_minutes ≡ 0
    → c.output_token_budget ≡ 0
    → saw_progress first older ≡ false
    → Stalled (t ∷ ts) (first ∷ older)
    → idle_of (stored older) ≡ none
    → (verdict c created_at t (ts ++ first ∷ older) ≡ some no_progress)
      ↔ (first.now + c.grace_minutes * minute_ms ≤ t.now)
unfolding stored
idle_run_is_stopped c created_at t ts first older cap budget p s h =
    rw (Stalled-since (t ∷ ts) first older p s h, s.0)
      (liveness_only c created_at first.now t.now _ cap budget)
