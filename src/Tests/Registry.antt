-- ===== src/Tests/Registry.antt =====
-- Runs in flight, scheduled work, the mutex and the capacity policy on a small daemon.
use symphonika.Base.{Bool, ◌+◌, true, false, none, some, List, [], ◌∷◌, ◌++◌, ◌≡◌, ◌↔◌, refl}
use symphonika.Base.Tests.{if◌then◌else◌}
use symphonika.Base.Lists.{length, member, Unique}
use symphonika.Base.Maps.{lookup}
use symphonika.Base.Decimal.{decimal}
use symphonika.Run.{CancelReason}
use symphonika.Registry.InFlight.{
  closure, ReserveSlotInput, AttachProviderInput, Registry, ok, err, issue_exists, reserve_slot,
  attach_provider, request_cancel, unregister, begin_shutdown, is_issue_in_flight, issue_key,
  new_entry, lock_of, empty, count, count_by_project, has, count_in,
}
use symphonika.Registry.InFlight.Locks.{locks}
use symphonika.Registry.InFlight.Trace.{Command, run, run-IsConsistent}
use symphonika.Registry.InFlight.Exclusion.{
  in_flight_once, occurrences, reserve_slot_iff, unregister-reserve_slot,
}
use symphonika.Registry.InFlight.Shutdown.{Closed, requests, cancel_hand_off, shutdown_admits_none}
use symphonika.Registry.Scheduled
use symphonika.Registry.Scheduled.{ScheduledWorkInput, ScheduledWorkKind}
use symphonika.Registry.Scheduled.Account
use symphonika.Registry.Scheduled.Account.{accepted_accounted, stopped_for_good}
use symphonika.Registry.Reservations.{issue_keys, is_issue_reserved}
use symphonika.Registry.Reservations.Keys.{texts, reserved_listed}
use symphonika.Registry.ActiveRuns.{ActiveRuns, cancel_all}
use symphonika.Registry.ActiveRuns.CancelAll.{cancel_all_reaches, mark_all, uncancelled}
use symphonika.Mutex.Fifo
use symphonika.Mutex.Fifo.{IsFair, grants_in_order}
use symphonika.Capacity.{evaluate, admitted, is_global_cap_reached, resolve_project_max_in_flight}
use symphonika.Capacity.Admission.{Within, asked, admission_keeps_caps}

abbrev web_7 : ReserveSlotInput
web_7 = record {
  cancel = some (closure 1);
  issue_number = 7;
  project_name = "web";
  respects_issue_labels = none;
  run_id = "a";
}

abbrev web_8 : ReserveSlotInput
web_8 = record {
  cancel = some (closure 2);
  issue_number = 8;
  project_name = "web";
  respects_issue_labels = none;
  run_id = "b";
}

abbrev attachment : AttachProviderInput
attachment = record { cancel = closure 9; provider = some 4; respects_issue_labels = none }

abbrev one_live : Registry
one_live = record {
  entries = ("a", new_entry web_7) ∷ [];
  issue_locks = "web#7" ∷ [];
  shutting_down = false;
}

abbrev two_live : Registry
two_live = record {
  entries = ("a", new_entry web_7) ∷ ("b", new_entry web_8) ∷ [];
  issue_locks = "web#7" ∷ "web#8" ∷ [];
  shutting_down = false;
}

abbrev calls : List Command
calls =
    Command.reserve web_7
    ∷ Command.reserve (record web_8 { issue_number = 7 })
    ∷ Command.enroll web_8 attachment
    ∷ Command.cancel "a" CancelReason.operator false
    ∷ Command.release "b"
    ∷ []

-- A second claim of the issue is refused, and names its key.
second_claim :
    reserve_slot one_live (record web_8 { issue_number = 7 }) ≡ err (issue_exists "web#7")
unfolding reserve_slot issue_key decimal
second_claim = refl

in_flight_once_example :
    occurrences (issue_key "web" 7) (locks (run empty calls).entries)
    ≡ (if is_issue_in_flight (run empty calls) "web" 7 then 1 else 0)
in_flight_once_example = in_flight_once calls "web" 7

reserve_slot_iff_example : (reserve_slot one_live web_8 ≡ ok two_live) ↔ (
    (one_live.shutting_down ≡ false)
    × (lookup "b" one_live.entries ≡ none)
    × (is_issue_in_flight one_live "web" 8 ≡ false)
    × (two_live ≡ record {
      entries = one_live.entries ++ ("b", new_entry web_8) ∷ [];
      issue_locks = one_live.issue_locks ++ lock_of (new_entry web_8) ∷ [];
      shutting_down = false;
    }))
reserve_slot_iff_example = reserve_slot_iff one_live web_8 two_live

reserved_web_8 : reserve_slot one_live web_8 ≡ ok two_live
unfolding reserve_slot issue_key has decimal
reserved_web_8 = refl

unregister-reserve_slot_example : unregister two_live "b" ≡ (one_live, some (new_entry web_8))
unregister-reserve_slot_example = unregister-reserve_slot one_live two_live web_8 reserved_web_8

abbrev later : List (CancelReason × Bool)
later = (CancelReason.daemon_shutdown, true) ∷ (CancelReason.operator, false) ∷ []

cancel_hand_off_example :
    let (s, called) = request_cancel one_live "a" CancelReason.operator false in
    (called ≡ some (closure 1))
    × (t : Registry) × (attach_provider s "a" attachment ≡ ok (t, closure 9 ∷ []))
    × (requests "a" later t ≡ [])
cancel_hand_off_example =
    cancel_hand_off one_live "a" (new_entry web_7) CancelReason.operator false later attachment refl
      refl

shutdown_admits_none_example :
    Closed "b" (begin_shutdown one_live) (run (begin_shutdown one_live) calls)
shutdown_admits_none_example = shutdown_admits_none "b" one_live calls

abbrev park : ScheduledWorkInput
park = record {
  delay_ms = 1000;
  fire = 3;
  issue_number = 7;
  kind = ScheduledWorkKind.wait_park;
  on_shutdown = some 5;
  project_name = "web";
  run_id = "a";
}

abbrev happened : List Account.Event
happened =
    Account.schedule 0 park
    ∷ Account.schedule 5 park
    ∷ Account.schedule 7 (record park { issue_number = 8 })
    ∷ Account.elapse 0
    ∷ Account.stop
    ∷ []

accepted_accounted_example :
    let h = Account.run Account.begin happened in
    h.taken ≡ h.fired + h.cleared + length h.registry.scheduled
accepted_accounted_example = accepted_accounted happened

stopped_for_good_example :
    let h = Account.run Account.begin happened in
    let k = Account.run (Account.step h Account.stop) happened in
    (k.registry.scheduled ≡ [])
    × (k.registry.armed ≡ [])
    × (k.taken ≡ h.taken)
    × (k.fired ≡ h.fired)
stopped_for_good_example = stopped_for_good happened happened

reserved_listed_example :
    let runs = run empty calls in
    let work = (Account.run Account.begin (Account.schedule 0 park ∷ [])).registry in
    (member (issue_key "web" 7) (texts (issue_keys runs work))
      ≡ is_issue_reserved runs work "web" 7)
    × Unique (texts (issue_keys runs work))
reserved_listed_example = reserved_listed calls (Account.schedule 0 park ∷ []) "web" 7

abbrev active : ActiveRuns
active = record { in_flight = run empty calls; scheduled = Scheduled.empty }

cancel_all_reaches_example :
    let done = cancel_all active CancelReason.daemon_shutdown in
    (done.active.in_flight ≡ record {
      entries = mark_all CancelReason.daemon_shutdown active.in_flight.entries;
      issue_locks = active.in_flight.issue_locks;
      shutting_down = true;
    })
    × (done.handlers ≡ uncancelled active.in_flight.entries)
cancel_all_reaches_example =
    cancel_all_reaches active CancelReason.daemon_shutdown (run-IsConsistent calls)

grants_in_order_example :
    IsFair
      (Fifo.run Fifo.begin (Fifo.acquires 1 ∷ Fifo.acquires 2 ∷ Fifo.tries 3 ∷ Fifo.releases ∷ []))
grants_in_order_example =
    grants_in_order (Fifo.acquires 1 ∷ Fifo.acquires 2 ∷ Fifo.tries 3 ∷ Fifo.releases ∷ [])

admits_web_8 : evaluate (asked one_live web_8 (some 2) (some 5)) ≡ admitted
unfolding evaluate is_global_cap_reached resolve_project_max_in_flight count count_by_project
    count_in
admits_web_8 = refl

admission_keeps_caps_example :
    Within (some 5) (count two_live)
    × Within (resolve_project_max_in_flight (some 2) (some 5)) (count_by_project two_live "web")
admission_keeps_caps_example =
    admission_keeps_caps one_live two_live web_8 (some 2) (some 5) admits_web_8 reserved_web_8
