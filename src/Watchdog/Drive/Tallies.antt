-- ===== src/Watchdog/Drive/Tallies.antt =====
-- What a pass counts and whom it cancels.
use symphonika.Base.{ℕ, suc, ◌+◌, String, true, some, List, [], ◌∷◌, ◌≡◌, ◌⊎◌}
use symphonika.Base.Lists.{length}
use symphonika.Run.{CancelReason}
use symphonika.Watchdog.Clock.{Sample, idle_clock}
use symphonika.Watchdog.Verdict.{TerminalReason, no_convergence, no_progress, run_timeout}
use symphonika.Watchdog.Drive.{Port, Pass}

module _ {Store Candidate : Type 0} (port : Port Store Candidate) (now : ℕ) where
  -- The reason that a cancel has for a verdict, written out.
  abbrev pub named : TerminalReason → CancelReason
  named no_convergence = CancelReason.no_convergence
  named no_progress = CancelReason.no_progress
  named run_timeout = CancelReason.run_timeout

  -- At some store of the pass, the subject's sample was read and persisted with its idle clock.
  pub record IsSampled (c : Candidate) : Type 0 where
    pub read : Store
    pub before : Store
    pub after : Store
    pub next : Sample
    pub seen :
        port.sample read c
          (port.resolve_config (port.project_name c))
          (port.load_previous read c)
          now
        ≡ (before, some next)
    pub persisted :
        port.persist before c (record next {
          idle_since = (idle_clock (port.load_previous read c) next now).idle_since;
        })
        ≡ (after, true)

  -- With that sample the terminal reason was the verdict, and the mark of the subject won its race.
  pub record IsEnded (c : Candidate) (reason : TerminalReason) : Type 0 where
    pub sampled : IsSampled c
    pub marked : Store
    pub judged :
        port.terminal_reason c
          (port.resolve_config (port.project_name c))
          (idle_clock (port.load_previous sampled.read c) sampled.next now).idle_since
          now
          sampled.next.output_tokens_total
          (idle_clock (port.load_previous sampled.read c) sampled.next now).progress
        ≡ some reason
    pub won : port.mark_stale sampled.after c reason now ≡ (marked, true)

  -- What one visit does to the tallies and the cancellations: it leaves them, counts a sample, or
  -- counts a sample and one termination with one cancel of this very subject.
  data Effect (c : Candidate) (p q : Pass Store) : Type 0 where
    skipped :
        q.sampled ≡ p.sampled
        → q.terminated ≡ p.terminated
        → q.cancellations ≡ p.cancellations
        → Effect c p q
    counted :
        IsSampled c
        → q.sampled ≡ suc p.sampled
        → q.terminated ≡ p.terminated
        → q.cancellations ≡ p.cancellations
        → Effect c p q
    ended :
        (reason : TerminalReason)
        → IsEnded c reason
        → q.sampled ≡ suc p.sampled
        → q.terminated ≡ suc p.terminated
        → q.cancellations ≡ (port.id c, named reason) ∷ p.cancellations
        → Effect c p q

  -- The cancellations and the number of samples after a pass over the subjects, from those before:
  -- each subject is passed over, sampled, or sampled and ended with a cancel of its own for the
  -- reason of its verdict.
  abbrev pub Picked :
      List Candidate → List (String × CancelReason) → ℕ → List (String × CancelReason) → ℕ → Type 0
  Picked [] xs n ys m = (xs ≡ ys) × (n ≡ m)
  Picked (c ∷ cs) xs n ys m =
      Picked cs xs n ys m
      ⊎ ((IsSampled c × Picked cs xs (suc n) ys m)
          ⊎ ((r : TerminalReason) × IsEnded c r
              × Picked cs ((port.id c, named r) ∷ xs) (suc n) ys m))

  record IsTallied (cs : List Candidate) (p q : Pass Store) : Type 0 where
    picked : Picked cs p.cancellations p.sampled q.cancellations q.sampled
    lengths : q.terminated + length p.cancellations ≡ p.terminated + length q.cancellations
