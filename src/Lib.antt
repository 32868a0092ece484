-- ===== src/Lib.antt =====
-- A model of the orchestration core of symphonika, a daemon that takes GitHub issues, runs coding
-- agents on them and follows their pull requests. The daemon holds registries of runs in flight and
-- of delayed work, admits runs under two caps, watches them, classifies how each attempt ended, and
-- moves an issue through a workflow, which is a state machine over observed signals.
--
-- The files, with the code that each models:
-- Run: the vocabulary of src/run-store.ts (RunState, CancelReason, FailureClassification).
-- Registry/InFlight: src/lifecycle/in-flight-runs.ts. The class is a record; a method is a
--   function from the registry to the next one; a `throw` is an error value.
-- Registry/Scheduled: src/lifecycle/scheduled-work.ts. The timers that `setTimeout` armed are part
--   of the state, and a timer that goes off is a step.
-- Registry/Reservations: src/lifecycle/issue-reservations.ts, the two registries seen as one.
-- Registry/ActiveRuns: computeRetryDelayMs, isIssueReserved and cancelAll of
--   src/lifecycle/active-runs.ts.
-- Mutex: src/lifecycle/async-mutex.ts. A waiter's promise is a name.
-- Capacity: src/lifecycle/concurrency-capacity.ts.
-- Watchdog/Events, Clock, Verdict, Drive: src/lifecycle/watchdog.ts and watchdog-subject.ts.
--   Verdict/Status is src/watchdog-status.ts.
-- Provider/Completion: src/providers/provider-completion.ts. Provider/Classify:
--   src/lifecycle/classify-failure.ts up to the redaction of the reason.
-- Workflow: src/workflow/types.ts. Workflow/Predicates: src/workflow/predicates.ts and isPathInside of
--   src/path-safety.ts. Workflow/Decision: src/lifecycle/state-machine-dispatch.ts and
--   artifact-probe.ts. Workflow/Progress: claimProgressEdge and clearProgressFingerprints of
--   src/run-store.ts. Workflow/Advancement: src/lifecycle/workflow-advancement.ts. Workflow/Outcome:
--   src/lifecycle/outcome-projection.ts. Workflow/Signals: src/workflow/pr-signal-projection.ts.
--   Workflow/Reasons: the reasons of src/lifecycle/progress-fingerprint.ts and terminal-reason.ts.
-- Issue: the snapshots, polled projects and findPolledIssueSnapshot of src/issue-polling.ts.
--   Issue/Priority: src/issue-priority.ts. Issue/Eligibility: evaluateProjectEligibility of
--   src/issue-polling.ts, src/operational-labels.ts and src/lifecycle/issue-eligibility.ts.
--   Issue/Merge: mergeIssuePollStatus of src/issue-polling.ts.
-- Store: the tables of src/run-store.ts that the daemon's passes share, as lists of rows.
--   Store/Runs: the statements on a run's row: the watchdog's, terminal reasons, cancellation and
--   notifications; a statement that counts its changes returns them. Store/Queries: its queries.
--   Store/Legacy: failLegacyInputRequiredRuns, with the cutoff and the times given.
-- Reconcile: reconcileActiveRuns of src/lifecycle/reconcile.ts and resolveToken of token.ts.
-- StaleClaims: src/lifecycle/stale-claims.ts.
-- Dispatch: dispatchFresh of src/lifecycle/run-controller.ts (Dispatch/Tick), pickTargetFromCandidates
--   (Dispatch/Pick), pickProjectCandidate with the provider plans of src/lifecycle/chain-provider.ts
--   and src/run-store.ts (Dispatch/Candidates), and the weighted round robin (Dispatch/Scheduler).
-- Backoff: src/github-backoff-ledger.ts with rateLimitedTokens, backoffUntil and
--   resolveEnvBackedValue of src/issue-polling.ts.
-- Redaction: redactAll and secretSpans of src/redaction.ts.
-- Base: numbers, lists, association lists, texts and JSON values. Tests: concrete runs.
--
-- How the parts meet. Registry/InFlight and Registry/Scheduled together say which issue is reserved;
-- Capacity is asked with the counts of Registry/InFlight; Watchdog/Drive calls the clock and the
-- verdicts through a port; Provider/Classify feeds Workflow/Outcome, whose signals feed
-- Workflow/Decision; a decision is written by Workflow/Advancement, which asks Workflow/Progress.
-- Dispatch/Pick asks Capacity, Registry/Reservations and Store/Queries, orders candidates by
-- Issue/Priority, and Dispatch/Tick repeats it over the issues that Issue/Eligibility admitted.
-- Reconcile compares the runs of Registry/InFlight with the polled issues and writes its requests
-- both there and in Store/Runs; StaleClaims spares what the registries and Store/Queries name.
--
-- Conventions. An asynchronous method is its state change up to its first await, and what it calls
-- is a result. A timestamp is its number of milliseconds, and none where the text is no date or
-- null. A `Map` or `Set` is a list in insertion order. A number is a natural number where the source
-- only counts, and an integer of Base/Int where a difference may be negative. Strict equality of two
-- arrays is false, as of two objects. What git, the file system and the clock answer is an argument.
-- A path is a POSIX path. The answers of GitHub, of the overlap guard, of the loading of a workflow,
-- of the host's pressure and of a claim are arguments, and a pass over several runs is taken with no
-- other step between its waits. `localeCompare` is a parameter with the laws of an order. The order
-- of texts in SQLite is that of their codes, and lower case is that of ASCII. An object's identity,
-- where the code compares candidates by it, is a field.
--
-- Fuel. `decimal` prints a number n with n + 1 rounds of division by ten, and a number has fewer
-- digits than that. The search for a secret's occurrences has one round more than the message has
-- characters, as each round but the last moves on by at least one. `dispatch_fresh` takes its fuel as an
-- argument, and one more than there are candidates is enough.
--
-- Not modelled: the store's other tables, with the claims of attempts, run chains and routines; the
-- attempt lifecycle of the run controller, polling and the GitHub client, the provider adapters,
-- routines, workspaces, the pages and the command line, which are I/O around this core or parts
-- still to come; reconcileWaitingRuns; parseEdgeBudgetExhaustedReason and the hash of
-- progress-fingerprint.ts; redactValueDeep; the formatting of durations.
pub mod Backoff
pub mod Base
pub mod Capacity
pub mod Dispatch
pub mod Issue
pub mod Mutex
pub mod Provider
pub mod Reconcile
pub mod Redaction
pub mod Registry
pub mod Run
pub mod StaleClaims
pub mod Store
pub mod Tests
pub mod Watchdog
pub mod Workflow
