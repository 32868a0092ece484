-- ===== src/Capacity/Admission.antt =====
-- What an admission means for the registry of runs in flight.
use symphonika.Base.{
  ℕ, suc, ◌+◌, ◌≤◌, String, Option, none, some, [], ◌∷◌, ◌++◌, ◌≡◌, arith, str_eq, eq_iff,
}
use symphonika.Base.Tests.{if◌then◌else◌}
use symphonika.Base.Lists.{length-append}
use symphonika.Base.Maps.{Dict, values}
use symphonika.Registry.InFlight.{
  Registry, ReserveSlotInput, Entry, reserve_slot, ok, count, count_by_project, count_in, new_entry,
}
use symphonika.Registry.InFlight.Exclusion.{reserve_slot_iff}
use symphonika.Capacity.{Input, admitted, evaluate, resolve_project_max_in_flight}

-- A cap, where there is one, bounds the number.
abbrev pub Within : Option ℕ → ℕ → Type 0
Within none n = Unit
Within (some max) n = n ≤ max

count_in-append :
    (p k : String) (e : Entry) (m : Dict Entry)
    → count_in p (values (m ++ (k, e) ∷ []))
      ≡ count_in p (values m) + (if str_eq e.project_name p then 1 else 0)
unfolding count_in
count_in-append p k e [] = ground arith
count_in-append p k e ((j, w) ∷ m) = ground (arith, count_in-append p k e m)

-- The policy asked about the registry as it stands, for a slot of this input.
abbrev pub asked : Registry → ReserveSlotInput → Option ℕ → Option ℕ → Input
asked r slot configured global_max = record {
  configured_project_max = configured;
  global_in_flight = count r;
  global_max = global_max;
  project_in_flight = count_by_project r slot.project_name;
  project_name = slot.project_name;
}

reserved_counts :
    (r s : Registry) (slot : ReserveSlotInput)
    → reserve_slot r slot ≡ ok s
    → (count s ≡ suc (count r))
      × (count_by_project s slot.project_name ≡ suc (count_by_project r slot.project_name))
unfolding count count_by_project
reserved_counts r s slot h =
    let (up, fresh, free, e) = (reserve_slot_iff r slot s).0 h in
    (
      ground (arith, length-append r.entries ((slot.run_id, new_entry slot) ∷ [])),
      ground (
        arith,
        count_in-append slot.project_name slot.run_id (new_entry slot) r.entries,
        eq_iff slot.project_name slot.project_name,
      ),
    )

-- If the policy, asked about the registry, admits a run and its slot is then reserved, the daemon's
-- cap and the project's effective cap still hold of the numbers of runs in flight.
pub admission_keeps_caps :
    (r s : Registry) (slot : ReserveSlotInput) (configured global_max : Option ℕ)
    → evaluate (asked r slot configured global_max) ≡ admitted
    → reserve_slot r slot ≡ ok s
    → Within global_max (count s)
      × Within
          (resolve_project_max_in_flight configured global_max)
          (count_by_project s slot.project_name)
unfolding evaluate
admission_keeps_caps r s slot configured global_max h k =
    let counts = reserved_counts r s slot k in (ground arith, ground arith)
