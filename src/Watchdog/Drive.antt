-- ===== src/Watchdog/Drive.antt =====
-- src/lifecycle/watchdog-subject.ts: one pass over the subjects of a kind, runs or routine firings.
-- The port's members may change the store, which is an explicit state.
pub mod Tallies
use symphonika.Base.{ℕ, suc, String, Bool, true, false, Option, none, some, List, [], ◌∷◌}
use symphonika.Base.Tests.{if◌then◌else◌}
use symphonika.Run.{CancelReason}
use symphonika.Watchdog.Clock.{Sample, IdleClock, idle_clock}
use symphonika.Watchdog.Verdict.{Config, TerminalReason, cancel_reason_of}

-- WatchdogSubjectPort, with the parts of WatchdogSubjectContext that the pass reads.
pub record Port (Store Candidate : Type 0) : Type 0 where
  pub candidates : Store → List Candidate
  pub id : Candidate → String
  pub project_name : Candidate → String
  pub load_previous : Store → Candidate → Option Sample
  pub sample : Store → Candidate → Config → Option Sample → ℕ → Store × Option Sample
  pub persist : Store → Candidate → Sample → Store × Bool
  pub terminal_reason : Candidate → Config → Option ℕ → ℕ → ℕ → Bool → Option TerminalReason
  pub mark_stale : Store → Candidate → TerminalReason → ℕ → Store × Bool
  pub resolve_config : String → Config

-- The store, the tallies, and the cancels that were requested and announced, in order.
pub record Pass (Store : Type 0) : Type 0 where
  pub store : Store
  pub sampled : ℕ
  pub terminated : ℕ
  pub cancellations : List (String × CancelReason)

module _ {Store Candidate : Type 0} (port : Port Store Candidate) (now : ℕ) where
  abbrev start : Store → Pass Store
  start s = record { store = s; sampled = 0; terminated = 0; cancellations = [] }

  -- After the verdict on a subject: mark it, and request its cancel if the mark was not lost.
  abbrev mark : Candidate → TerminalReason → Store × Bool → Pass Store → Pass Store
  mark c reason (s, false) p = record p { store = s }
  mark c reason (s, true) p = record p {
    store = s;
    terminated = suc p.terminated;
    cancellations = (port.id c, cancel_reason_of reason) ∷ p.cancellations;
  }

  abbrev judge : Candidate → Config → IdleClock → Sample → Pass Store → Pass Store
  judge c config clock s p =
      elim (port.terminal_reason c config clock.idle_since now s.output_tokens_total
        clock.progress) [
          | none ↦ p
          | some reason ↦ mark c reason (port.mark_stale p.store c reason now) p
        ]

  -- After the sample of a subject: persist it with its idle clock, unless the upsert lost its race.
  abbrev settle : Candidate → Config → IdleClock → Sample → Store × Bool → Pass Store → Pass Store
  settle c config clock s (store, false) p = record p { store = store }
  settle c config clock s (store, true) p =
      judge c config clock s (record p { store = store; sampled = suc p.sampled })

  abbrev keep : Candidate → Config → Option Sample → Store × Option Sample → Pass Store → Pass Store
  keep c config previous (store, none) p = record p { store = store }
  keep c config previous (store, some next) p =
      let clock = idle_clock previous next now in
      let persisted = record next { idle_since = clock.idle_since } in
      settle c config clock persisted (port.persist store c persisted) (record p { store = store })

  -- The body of the loop.
  pub visit : Candidate → Pass Store → Pass Store
  visit c p =
      let config = port.resolve_config (port.project_name c) in
      let previous = port.load_previous p.store c in
      keep c config previous (port.sample p.store c config previous now) p

  pub visit_all : List Candidate → Pass Store → Pass Store
  visit_all [] p = p
  visit_all (c ∷ cs) p = visit_all cs (visit c p)

  -- driveWatchdogSubject. The cancellations are listed with the latest first.
  pub drive : Store → Pass Store
  unfolding visit_all visit
  drive s = visit_all (port.candidates s) (start s)
