-- ===== src/Dispatch/Pick.antt =====
-- `pickTargetFromCandidates` of src/lifecycle/run-controller.ts: the caps, the projects that could be
-- dispatched, and the choice between them; `recordProjectDispatchSelection` of src/run-store.ts.
pub mod Bounds
use symphonika.Base.{
  ℕ, zero, suc, Bool, true, false, ◌&&◌, ◌||◌, not, Option, none, some, String, List, [], ◌∷◌, map,
  str_eq,
}
use symphonika.Base.Tests.{if◌then◌else◌}
use symphonika.Base.Int.{ℤ, pos}
use symphonika.Base.Lists.{filter, member}
use symphonika.Base.Maps.{Dict, lookup, put}
use symphonika.Capacity.{is_global_cap_reached, is_project_cap_reached}
use symphonika.Registry.InFlight.{count, count_by_project}
use symphonika.Issue.{Project}
use symphonika.Issue.Priority.{normalize_project_weight}
use symphonika.Dispatch.{Candidate}
use symphonika.Dispatch.Candidates.{Facts, pick_project_candidate}
use symphonika.Dispatch.Scheduler.{Entry, select, scheduler_weights}

-- What of a row of `project_states` the scheduler keeps.
pub record ProjectState : Type 0 where
  pub weight : ℤ
  pub scheduler_current_weight : ℤ

-- The configuration and the stored weights at a pick.
pub record Setting : Type 0 where
  pub global_max : Option ℕ
  pub projects : Dict Project
  pub agent_providers : List String
  pub states : Dict ProjectState

pub record Dispatchable : Type 0 where
  pub entry : Entry
  pub candidate : Candidate
  pub project : Project

abbrev pub bucket : String → List Candidate → List Candidate
bucket name cs = filter (λ c. str_eq c.found.project name) cs

abbrev pub is_none_left : List Candidate → Bool
is_none_left [] = true
is_none_left (c ∷ cs) = false

abbrev pub stored_weight : Option ProjectState → Option ℤ
stored_weight none = none
stored_weight (some s) = some s.weight

abbrev pub stored_current : Option ProjectState → ℤ
stored_current none = pos 0
stored_current (some s) = s.scheduler_current_weight

abbrev pub or_stored : Option ℤ → Option ℤ → Option ℤ
or_stored (some w) stored = some w
or_stored none stored = stored

abbrev pub entry_of : Setting → String → Project → Entry
entry_of setting name project = record {
  project_name = project.name;
  current_weight = stored_current (lookup name setting.states);
  weight =
      normalize_project_weight
        (or_stored project.weight (stored_weight (lookup name setting.states)));
}

-- The project has candidates, is enabled, has a registered provider, and is below its cap.
pub is_open_project : Facts → Setting → List Candidate → String → Project → Bool
is_open_project f setting candidates name project =
    not (is_none_left (bucket name candidates))
    && (not project.disabled
        && (member project.provider setting.agent_providers
            && not (
                is_project_cap_reached project.max_in_flight
                  (count_by_project f.active_runs.in_flight name) setting.global_max)))

pub dispatchable : Facts → Setting → List Candidate → Dict Project → List Dispatchable
unfolding is_open_project
dispatchable f setting candidates [] = []
dispatchable f setting candidates ((name, project) ∷ ps) =
    let rest = dispatchable f setting candidates ps in
    if is_open_project f setting candidates name project
    then (elim (pick_project_candidate f project (bucket name candidates)) [
      | none ↦ rest
      | some c ↦
          record { entry = entry_of setting name project; candidate = c; project = project } ∷ rest
    ])
    else rest

abbrev pub entries : List Dispatchable → List Entry
entries [] = []
entries (d ∷ ds) = d.entry ∷ entries ds

abbrev pub get_elem? : List Dispatchable → ℕ → Option Dispatchable
get_elem? [] i = none
get_elem? (d ∷ ds) zero = some d
get_elem? (d ∷ ds) (suc i) = get_elem? ds i

-- DispatchTarget
pub record Target : Type 0 where
  pub candidate : Candidate
  pub project : Project
  pub weights : List Entry

abbrev pub target_at : Option Dispatchable → List Entry → Option Target
target_at none es = none
target_at (some d) es =
    some (record { candidate = d.candidate; project = d.project; weights = scheduler_weights es })

abbrev pub target_of : List Dispatchable → Option Target
target_of ds = target_at (get_elem? ds (select (entries ds))) (entries ds)

unfoldable pub pick_target_from_candidates : Facts → Setting → List Candidate → Option Target
unfolding dispatchable
pick_target_from_candidates f setting candidates =
    if is_global_cap_reached setting.global_max (count f.active_runs.in_flight)
    then none
    else target_of (dispatchable f setting candidates setting.projects)

-- recordProjectDispatchSelection: the weights of each project of the pick.
pub record_weights : List Entry → Dict ProjectState → Dict ProjectState
record_weights [] states = states
record_weights (e ∷ es) states = record_weights es (
    put e.project_name
      (record {
        weight = pos (normalize_project_weight (some (pos e.weight)));
        scheduler_current_weight = e.current_weight;
      })
      states)
