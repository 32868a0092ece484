-- ===== src/Registry/InFlight/Exclusion.antt =====
-- What the locks promise: one live run for an issue, no claim after shutdown, and a release that
-- undoes its reservation.
use symphonika.Base.{
  ℕ, suc, ◌↔◌, String, false, none, some, List, [], ◌∷◌, ◌++◌, ◌≡◌, refl, arith, str_eq, eq_iff,
}
use symphonika.Base.Tests.{if◌then◌else◌}
use symphonika.Base.Lists.{member, Unique, remove}
use symphonika.Base.Maps.{Dict, lookup, delete, put_new}
use symphonika.Registry.InFlight.{
  Entry, ReserveSlotInput, Registry, ok, new_entry, empty, reserve_slot, lock_of, unregister,
  issue_key, is_issue_in_flight,
}
use symphonika.Registry.InFlight.Locks.{locks}
use symphonika.Registry.InFlight.Trace.{Command, run, run-IsConsistent}

abbrev pub occurrences : String → List String → ℕ
occurrences k [] = 0
occurrences k (j ∷ js) = let n = occurrences k js in if str_eq j k then suc n else n

occurrences_absent : (k : String) (js : List String) → member k js ≡ false → occurrences k js ≡ 0
occurrences_absent k [] h = refl
occurrences_absent k (j ∷ js) h = ground (arith, occurrences_absent k js)

occurrences-Unique :
    (k : String) (js : List String) → Unique js → occurrences k js ≡ (if member k js then 1 else 0)
occurrences-Unique k [] u = refl
occurrences-Unique k (j ∷ js) u =
    ground (arith, eq_iff j k, occurrences_absent k js, occurrences-Unique k js u.1)

-- However the registry was called from empty, `isIssueInFlight` answers true for an issue exactly
-- when one entry is live for it, and never are there two.
pub in_flight_once :
    (cs : List Command) (project : String) (number : ℕ)
    → occurrences (issue_key project number) (locks (run empty cs).entries)
      ≡ (if is_issue_in_flight (run empty cs) project number then 1 else 0)
unfolding is_issue_in_flight
in_flight_once cs project number =
    let v = run-IsConsistent cs in
    rw (← v.locks_match)
      (occurrences-Unique (issue_key project number) (run empty cs).issue_locks v.locks_unique)

delete-append_new :
    (k : String) (e : Entry) (m : Dict Entry) → lookup k m ≡ none → delete k (m ++ (k, e) ∷ []) ≡ m
delete-append_new k e [] h = ground (arith, eq_iff k k)
delete-append_new k e ((j, w) ∷ m) h = ground (arith, delete-append_new k e m)

remove-append_new :
    (k : String) (ks : List String) → member k ks ≡ false → remove k (ks ++ k ∷ []) ≡ ks
remove-append_new k [] h = ground (arith, eq_iff k k)
remove-append_new k (j ∷ js) h = ground (arith, remove-append_new k js)

lookup-append_new :
    (k : String) (e : Entry) (m : Dict Entry)
    → lookup k m ≡ none
    → lookup k (m ++ (k, e) ∷ []) ≡ some e
lookup-append_new k e [] h = ground (arith, eq_iff k k)
lookup-append_new k e ((j, w) ∷ m) h = ground (arith, lookup-append_new k e m)

-- A reservation is granted exactly if the registry is open, the run id is new and the issue is
-- free; it then adds one entry, the last, and one lock.
pub reserve_slot_iff :
    (r : Registry) (input : ReserveSlotInput) (s : Registry)
    → (reserve_slot r input ≡ ok s) ↔ (
        (r.shutting_down ≡ false)
        × (lookup input.run_id r.entries ≡ none)
        × (is_issue_in_flight r input.project_name input.issue_number ≡ false)
        × (s ≡ record {
          entries = r.entries ++ (input.run_id, new_entry input) ∷ [];
          issue_locks = r.issue_locks ++ lock_of (new_entry input) ∷ [];
          shutting_down = false;
        }))
unfolding reserve_slot is_issue_in_flight
reserve_slot_iff r input s = (
  λ h. ground (arith, put_new input.run_id (new_entry input) r.entries),
  λ h. ground (arith, put_new input.run_id (new_entry input) r.entries),
)

-- Unregistering a run that was just reserved gives back the registry as it was, whatever else is
-- in flight, and returns the reserved entry.
pub unregister-reserve_slot :
    (r s : Registry) (input : ReserveSlotInput)
    → reserve_slot r input ≡ ok s
    → unregister s input.run_id ≡ (r, some (new_entry input))
unfolding unregister is_issue_in_flight
unregister-reserve_slot r s input h =
    let (up, fresh, free, e) = (reserve_slot_iff r input s).0 h in
    ground (
      arith,
      lookup-append_new input.run_id (new_entry input) r.entries,
      delete-append_new input.run_id (new_entry input) r.entries,
      remove-append_new (lock_of (new_entry input)) r.issue_locks,
    )
