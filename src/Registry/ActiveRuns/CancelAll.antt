-- ===== src/Registry/ActiveRuns/CancelAll.antt =====
-- Shutdown reaches every live run, and retry delays stay within the policy.
use symphonika.Base.{
  ℕ, zero, suc, ◌≤◌, String, true, false, none, some, List, [], ◌∷◌, ◌++◌, ◌≡◌, refl, arith, inl,
  inr, eq_iff, str_eq, ap, ◌∙◌,
}
use mathlib.Core.List.{append_assoc}
use symphonika.Base.Tests.{if◌then◌else◌, Bool-cases}
use symphonika.Base.Lists.{member, Unique}
use symphonika.Base.Maps.{Dict, lookup, put, keys, values}
use symphonika.Run.{CancelReason}
use symphonika.Registry.InFlight.{Entry, Handler, Registry, begin_shutdown, request_cancel, list}
use symphonika.Registry.InFlight.Calls.{request_cancel_first, request_cancel_again}
use symphonika.Registry.InFlight.Locks.{IsConsistent, Named}
use symphonika.Registry.ActiveRuns.{
  ActiveRuns, RetryPolicy, lifecycle_retry, compute_retry_delay_ms, cancel_each, cancel_all,
}

-- What shutdown does to an entry.
abbrev pub marked : CancelReason → Entry → Entry
marked reason e = record e { cancel_requested = true; cancel_reason = some reason }

abbrev pub mark_all : CancelReason → Dict Entry → Dict Entry
mark_all reason [] = []
mark_all reason ((k, e) ∷ m) = (k, marked reason e) ∷ mark_all reason m

-- The handlers of the entries that no one asked to cancel before.
abbrev pub uncancelled : Dict Entry → List Handler
uncancelled [] = []
uncancelled ((k, e) ∷ m) =
    let rest = uncancelled m in if e.cancel_requested then rest else e.cancel ∷ rest

lookup-middle :
    (pre post : Dict Entry) (k : String) (e : Entry)
    → member k (keys pre) ≡ false
    → lookup k (pre ++ (k, e) ∷ post) ≡ some e
lookup-middle [] post k e h = ground (arith, eq_iff k k)
lookup-middle ((j, w) ∷ pre) post k e h = ground (arith, lookup-middle pre post k e)

put-middle :
    (pre post : Dict Entry) (k : String) (e f : Entry)
    → member k (keys pre) ≡ false
    → put k f (pre ++ (k, e) ∷ post) ≡ pre ++ (k, f) ∷ post
put-middle [] post k e f h = ground (arith, eq_iff k k)
put-middle ((j, w) ∷ pre) post k e f h = ground (arith, put-middle pre post k e f)

request_cancel_supersede :
    (r : Registry) (id : String) (e : Entry) (reason : CancelReason)
    → lookup id r.entries ≡ some e
    → request_cancel r id reason true ≡ (
      record r { entries = put id (marked reason e) r.entries },
      (if e.cancel_requested then none else some e.cancel),
    )
request_cancel_supersede r id e reason h = elim (Bool-cases e.cancel_requested) [
  | inl q ↦ request_cancel_again r id h reason true q ∙ ground arith
  | inr q ↦ request_cancel_first r id h reason true q ∙ ground arith
]

keys-append_new :
    (pre : Dict Entry) (k j : String) (e : Entry)
    → member j (keys pre) ≡ false
    → str_eq k j ≡ false
    → member j (keys (pre ++ (k, e) ∷ [])) ≡ false
keys-append_new [] k j e h p = ground arith
keys-append_new ((i, w) ∷ pre) k j e h p = ground (arith, keys-append_new pre k j e)

-- No key of the second part stands in the first.
abbrev Apart : Dict Entry → Dict Entry → Type 0
Apart pre [] = Unit
Apart pre ((k, e) ∷ m) = (member k (keys pre) ≡ false) × Apart pre m

Apart-step :
    (pre m : Dict Entry) (k : String) (e : Entry)
    → Apart pre m
    → member k (keys m) ≡ false
    → Apart (pre ++ (k, e) ∷ []) m
Apart-step pre [] k e h u = tt
Apart-step pre ((j, w) ∷ m) k e h u = (
  keys-append_new pre k j e h.0 (ground (arith, eq_iff k j, eq_iff j k)),
  Apart-step pre m k e h.1 (ground arith),
)

cancel_each_lem :
    (pre post : Dict Entry) (r : Registry) (reason : CancelReason)
    → r.entries ≡ pre ++ post
    → Apart pre post
    → Unique (keys post)
    → Named post
    → cancel_each (values post) reason r
      ≡ (record r { entries = pre ++ mark_all reason post }, uncancelled post)
unfolding cancel_each
cancel_each_lem pre [] r reason h d u n = ground arith
cancel_each_lem pre ((k, e) ∷ post) r reason h d u n =
    let rest =
      cancel_each_lem (pre ++ (k, marked reason e) ∷ []) post next reason
        (rw (append_assoc pre ((k, marked reason e) ∷ []) post))
        (Apart-step pre post k (marked reason e) d.1 u.0) u.1 n.1 in
    rw (first, rest, append_assoc pre ((k, marked reason e) ∷ []) (mark_all reason post))
      (ground arith)
  where
    next : Registry
    next = record r { entries = pre ++ (k, marked reason e) ∷ post }

    first :
        request_cancel r e.run_id reason true
        ≡ (next, (if e.cancel_requested then none else some e.cancel))
    first = rw (← n.0) (
        request_cancel_supersede r k e reason (rw h (lookup-middle pre post k e d.0))
        ∙ ground (arith, put-middle pre post k e (marked reason e) d.0))

Apart-nil : (m : Dict Entry) → Apart [] m
Apart-nil [] = tt
Apart-nil ((k, e) ∷ m) = (refl, Apart-nil m)

-- From a consistent registry, `cancelAll` leaves every run marked as cancelled for the shutdown's
-- reason, also where an earlier request recorded another, changes nothing else of a run, shuts the
-- registry to new claims, and calls, once and in order, the handlers of just those runs that no
-- one had asked to cancel before.
pub cancel_all_reaches :
    (a : ActiveRuns) (reason : CancelReason)
    → IsConsistent a.in_flight
    → let done = cancel_all a reason in
      (done.active.in_flight ≡ record {
        entries = mark_all reason a.in_flight.entries;
        issue_locks = a.in_flight.issue_locks;
        shutting_down = true;
      })
      × (done.handlers ≡ uncancelled a.in_flight.entries)
unfolding cancel_all begin_shutdown list
cancel_all_reaches a reason v =
    let shut = begin_shutdown a.in_flight in
    let e =
      cancel_each_lem [] a.in_flight.entries shut reason refl (Apart-nil a.in_flight.entries)
        v.runs_unique v.named in
    (ap (λ (p : Registry × List Handler). p.0) e, ap (λ (p : Registry × List Handler). p.1) e)

-- A retry waits at most the policy's longest backoff.
delay-le-max : (n : ℕ) (p : RetryPolicy) → compute_retry_delay_ms n p ≤ p.max_backoff_ms
unfolding compute_retry_delay_ms
delay-le-max n p = ground arith

delay-step :
    (n : ℕ)
    → compute_retry_delay_ms (suc n) lifecycle_retry
      ≤ compute_retry_delay_ms (suc (suc n)) lifecycle_retry
unfolding compute_retry_delay_ms
delay-step zero = omega arith
delay-step (suc zero) = omega arith
delay-step (suc (suc n)) = ground (arith, delay-le-max (suc (suc (suc n))) lifecycle_retry)

-- Under the lifecycle policy a retry never waits longer than the policy's longest backoff, and from
-- the first retry on never less than the retry before it.
retry_delays_grow :
    (n : ℕ)
    → (compute_retry_delay_ms n lifecycle_retry ≤ 300000)
      × (compute_retry_delay_ms (suc n) lifecycle_retry
          ≤ compute_retry_delay_ms (suc (suc n)) lifecycle_retry)
retry_delays_grow n = (delay-le-max n lifecycle_retry, delay-step n)
