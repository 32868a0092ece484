-- ===== src/Registry/Scheduled/Account.antt =====
-- The registry of scheduled work under every sequence of calls and timers.
use symphonika.Base.{
  ℕ, suc, ◌+◌, true, Option, none, some, List, [], ◌∷◌, ◌≡◌, refl, arith, inl, inr,
}
use symphonika.Base.Tests.{Option-cases}
use symphonika.Base.Lists.{length, length-append}
use symphonika.Registry.Scheduled.{
  ScheduledWorkInput, Registry, empty, Outcome, accepted, refused, already_scheduled,
  schedule_delayed, find_timer, timer_fired, cancel_all,
}
use symphonika.Registry.Scheduled.Timers.{
  IsPaired, new_timer, schedule_delayed-IsPaired, timer_fired_idle, timer_fired_armed,
  fired-IsPaired, armed-schedule_delayed, cancel_all_clears, length-disarm, length-Paired,
}

-- What can happen: a call at a time, a timer that goes off, and the shutdown.
pub data Event : Type 0 where
  schedule : ℕ → ScheduledWorkInput → Event
  elapse : ℕ → Event
  stop : Event

-- The registry, with how many items it accepted, fired and cleared so far.
pub record History : Type 0 where
  pub registry : Registry
  pub taken : ℕ
  pub fired : ℕ
  pub cleared : ℕ

abbrev pub begin : History
begin = record { registry = empty; taken = 0; fired = 0; cleared = 0 }

abbrev admit : History → Outcome → History
admit h refused = h
admit h (accepted s) = record h { registry = s; taken = suc h.taken }
admit h (already_scheduled k) = h

abbrev settle : History → Registry × Option ℕ → History
settle h (s, none) = record h { registry = s }
settle h (s, some callback) = record h { registry = s; fired = suc h.fired }

unfoldable pub step : History → Event → History
step h (schedule now input) = admit h (schedule_delayed h.registry now input)
step h (elapse t) = settle h (timer_fired h.registry t)
step h stop = record h {
  registry = (cancel_all h.registry).0;
  cleared = h.cleared + length h.registry.armed;
}

unfoldable pub run : History → List Event → History
run h [] = h
run h (e ∷ es) = run (step h e) es

pub record IsBalanced (h : History) : Type 0 where
  pub paired : IsPaired h.registry
  pub balance : h.taken ≡ h.fired + h.cleared + length h.registry.armed

admit-IsBalanced :
    (h : History) (o : Outcome) (now : ℕ) (input : ScheduledWorkInput)
    → IsBalanced h
    → schedule_delayed h.registry now input ≡ o
    → IsBalanced (admit h o)
admit-IsBalanced h refused now input v e = v
admit-IsBalanced h (already_scheduled k) now input v e = v
admit-IsBalanced h (accepted s) now input v e = record {
  paired = schedule_delayed-IsPaired h.registry s now input v.paired e;
  balance =
      rw (armed-schedule_delayed h.registry s now input e) (
        omega (arith, length-append h.registry.armed (new_timer h.registry input ∷ []), v.balance));
}

elapse-IsBalanced :
    (h : History) (t : ℕ) → IsBalanced h → IsBalanced (settle h (timer_fired h.registry t))
elapse-IsBalanced h t v = elim (Option-cases (find_timer t h.registry.armed)) [
  | inl e ↦ rw (timer_fired_idle h.registry t e) v
  | inr (x, e) ↦ rw (timer_fired_armed h.registry t x v.paired e) (record {
    paired = fired-IsPaired h.registry t x v.paired e;
    balance = omega (
      arith,
      v.balance,
      length-disarm h.registry.scheduled h.registry.armed t x v.paired.paired e,
    );
  })
]

step-IsBalanced : (h : History) (e : Event) → IsBalanced h → IsBalanced (step h e)
unfolding step
step-IsBalanced h (schedule now input) v =
    admit-IsBalanced h (schedule_delayed h.registry now input) now input v refl
step-IsBalanced h (elapse t) v = elapse-IsBalanced h t v
step-IsBalanced h stop v =
    let (none_left, quiet) = cancel_all_clears h.registry v.paired in
    record {
      paired = record { paired = rw (none_left, quiet) tt; below = rw quiet tt };
      balance = rw quiet (omega (arith, v.balance));
    }

run-IsBalanced : (h : History) (es : List Event) → IsBalanced h → IsBalanced (run h es)
unfolding run
run-IsBalanced h [] v = v
run-IsBalanced h (e ∷ es) v = run-IsBalanced (step h e) es (step-IsBalanced h e v)

begin-IsBalanced : IsBalanced begin
begin-IsBalanced = record { paired = record { paired = tt; below = tt }; balance = refl }

-- Over every sequence of calls, timers and shutdowns, the items accepted so far are as many as those
-- that fired, those that were cleared and those that are still scheduled, together.
pub accepted_accounted :
    (es : List Event)
    → let h = run begin es in h.taken ≡ h.fired + h.cleared + length h.registry.scheduled
accepted_accounted es =
    let v = run-IsBalanced begin es begin-IsBalanced in
    rw (length-Paired _ _ v.paired.paired) v.balance

-- Shut down and empty, as `cancelAll` leaves it.
record IsStopped (h k : History) : Type 0 where
  latched : k.registry.cancelled ≡ true
  idle : k.registry.scheduled ≡ []
  quiet : k.registry.armed ≡ []
  same_taken : k.taken ≡ h.taken
  same_fired : k.fired ≡ h.fired

step-IsStopped : (h k : History) (e : Event) → IsStopped h k → IsStopped h (step k e)
unfolding step schedule_delayed timer_fired cancel_all
step-IsStopped h k (schedule now input) v = simp v.latched v
step-IsStopped h k (elapse t) v = rw (timer_fired_idle k.registry t (rw v.quiet)) v
step-IsStopped h k stop v = record {
  latched = refl;
  idle = refl;
  quiet = rw v.idle v.quiet;
  same_taken = v.same_taken;
  same_fired = v.same_fired;
}

run-IsStopped : (h k : History) (es : List Event) → IsStopped h k → IsStopped h (run k es)
unfolding run
run-IsStopped h k [] v = v
run-IsStopped h k (e ∷ es) v = run-IsStopped h (step k e) es (step-IsStopped h k e v)

stop-IsStopped : (h : History) → IsPaired h.registry → IsStopped h (step h stop)
unfolding step cancel_all
stop-IsStopped h v = record {
  latched = refl;
  idle = refl;
  quiet = (cancel_all_clears h.registry v).1;
  same_taken = refl;
  same_fired = refl;
}

-- After the shutdown of any history, whatever is called and whichever timer goes off: nothing is
-- scheduled, no timer is armed, no further item is accepted and no callback is fired.
pub stopped_for_good :
    (es ds : List Event)
    → let h = run begin es in
      let k = run (step h stop) ds in
      (k.registry.scheduled ≡ [])
      × (k.registry.armed ≡ [])
      × (k.taken ≡ h.taken)
      × (k.fired ≡ h.fired)
stopped_for_good es ds =
    let h = run begin es in
    let v =
      run-IsStopped h (step h stop) ds
        (stop-IsStopped h (run-IsBalanced begin es begin-IsBalanced).paired) in
    (v.idle, v.quiet, v.same_taken, v.same_fired)
