-- ===== src/Tests/Dispatch.antt =====
-- Two projects, two candidates, and what a tick makes of them.
use symphonika.Base.{ℕ, ◌+◌, max, false, none, some, String, List, [], ◌∷◌, ◌≡◌, refl, ◌⊎◌, arith}
use symphonika.Base.Int.{ℤ, pos, sub_ℕ, ◌+ℤ◌, ◌-ℤ◌}
use symphonika.Base.Lists.{length}
use symphonika.Capacity.{is_global_cap_reached, is_project_cap_reached}
use symphonika.Issue.{Repository, Project}
use symphonika.Issue.Priority.{compare_candidate_issues, normalize_project_weight}
use symphonika.Issue.Priority.Sorted.{IsCollation}
use symphonika.Registry.ActiveRuns
use symphonika.Registry.Reservations
use symphonika.Store.Queries.{latest_run_suppresses_fresh_dispatch}
use symphonika.Registry.InFlight
use symphonika.Registry.InFlight.{count}
use symphonika.Registry.Scheduled
use symphonika.Dispatch.{Candidate}
use symphonika.Dispatch.Scheduler.{Entry, total_weight, select, scheduler_weights}
use symphonika.Dispatch.Scheduler.Ledger.{tally, weights}
use symphonika.Dispatch.Scheduler.Shares.{zeros, tally_round}
use symphonika.Dispatch.Candidates.{
  Facts, not_raw, load_failed, has_blocking_provider_plan, active_plan_status,
  pick_project_candidate,
}
use symphonika.Dispatch.Candidates.First.{Picked, picks_first_admissible}
use symphonika.Dispatch.Pick.{Setting, Target, pick_target_from_candidates}
use symphonika.Dispatch.Pick.Bounds.{Below, Allowed, pick_target_from_candidates-Allowed}
use symphonika.Dispatch.Tick.{Surroundings, DispatchResult, refused, terminal, dispatch_fresh}
use symphonika.Dispatch.Tick.Ends.{Ended, dispatch_fresh_ends}
use Prim.Native.String.{len}

abbrev two : List Entry
two =
    record { project_name = "a"; current_weight = pos 0; weight = 1 }
    ∷ record { project_name = "b"; current_weight = pos 0; weight = 2 }
    ∷ []

tally_round_example : tally (total_weight two) two (zeros two) ≡ weights two
tally_round_example = tally_round two (refl, (refl, tt))

-- A collation that tells texts apart by their lengths.
abbrev by_length : String → String → ℤ
by_length a b = sub_ℕ (len a) (len b)

by_length-IsCollation : IsCollation by_length
by_length-IsCollation = record { flips = λ a b. ground arith; chains = λ a b c h k. ground arith }

abbrev home : Repository
home = record { owner = "me"; repo = "tool" }

abbrev candidate : ℕ → ℕ → Candidate
candidate number priority = record {
  identity = number;
  found = record {
    issue = record {
      blocked_by = none;
      blocked_by_truncated = false;
      created_at = "2026-01-01T00:00:00Z";
      labels = "ready" ∷ [];
      number = number;
      priority = priority;
      state = "open";
    };
    project = "a";
    repository = home;
  };
}

abbrev both : List Candidate
both = candidate 7 2 ∷ candidate 8 1 ∷ []

abbrev project : Project
project = record {
  name = "a";
  disabled = false;
  tracker = some (record { repository = home; token = "$TOKEN" });
  issue_filters = record { states = "open" ∷ []; ready_label = "ready"; labels_none = [] };
  provider = "codex";
  max_in_flight = some 1;
  weight = none;
  overlap_guard = false;
}

abbrev facts : Facts
facts = record {
  active_runs = record { in_flight = InFlight.empty; scheduled = Scheduled.empty };
  rows = [];
  plans = [];
  plan_cutoff = "2026-01-01T00:00:00Z";
  load_raw_fsm_workflow = λ p. not_raw;
  has_known_overlap = λ c. false;
  locale_compare = by_length;
}

picks_first_admissible_example :
    Picked facts project
      (facts.load_raw_fsm_workflow project)
      both
      (pick_project_candidate facts project both)
    ⊎ ((facts.load_raw_fsm_workflow project ≡ load_failed)
        × (pick_project_candidate facts project both ≡ none))
picks_first_admissible_example = picks_first_admissible facts project both by_length-IsCollation

abbrev setting : Setting
setting = record {
  global_max = some 4;
  projects = ("a", project) ∷ [];
  agent_providers = "codex" ∷ [];
  states = [];
}

abbrev target : Target
target = record {
  candidate = candidate 8 1;
  project = project;
  weights = record { project_name = "a"; current_weight = pos 0; weight = 1 } ∷ [];
}

picked : pick_target_from_candidates facts setting both ≡ some target
unfolding pick_target_from_candidates is_global_cap_reached count is_project_cap_reached
    InFlight.count_by_project pick_project_candidate compare_candidate_issues
    ActiveRuns.is_issue_reserved Reservations.is_issue_reserved InFlight.is_issue_in_flight
    Scheduled.is_issue_scheduled latest_run_suppresses_fresh_dispatch has_blocking_provider_plan
    active_plan_status select scheduler_weights ◌+ℤ◌ ◌-ℤ◌ normalize_project_weight
picked = refl

pick_target_from_candidates-Allowed_example :
    Below setting.global_max (count facts.active_runs.in_flight)
    × Allowed facts setting both target.candidate target.project
pick_target_from_candidates-Allowed_example =
    pick_target_from_candidates-Allowed facts setting both target picked

-- A world that counts the claims, each of which is deferred.
abbrev deferring : Surroundings ℕ
deferring = record {
  refresh_host_pressure = λ n. (n, none);
  resolve_and_claim = λ t n. (n + 1, terminal (refused "deferred") false false);
  facts = λ n. facts;
  setting = λ n. setting;
}

dispatch_fresh_ends_example :
    Ended
      (max 1 (length {A = DispatchResult} [] + length both))
      (dispatch_fresh deferring 3 both [] 0)
dispatch_fresh_ends_example = dispatch_fresh_ends deferring 3 both [] 0 (omega arith)
