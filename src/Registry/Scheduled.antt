-- ===== src/Registry/Scheduled.antt =====
-- src/lifecycle/scheduled-work.ts: delayed work, one item for an issue, and its timers.
-- The environment's timers are part of the state: the ones armed, and the name of the next.
-- A callback is a name; each method returns the callbacks that it calls.
pub mod Timers
pub mod Account
pub mod Named
use symphonika.Base.{
  ℕ, suc, ◌+◌, String, Bool, true, false, Option, none, some, List, [], ◌∷◌, ◌++◌, map,
}
use symphonika.Base.Tests.{if◌then◌else◌, ◌==◌}
use symphonika.Base.Maps.{Dict, lookup, put, delete, values}
use symphonika.Registry.InFlight.{issue_key, has, IssueKey}

pub data ScheduledWorkKind : Type 0 where
  retry continuation state_advance wait_park : ScheduledWorkKind

pub record ScheduledWorkInput : Type 0 where
  pub delay_ms : ℕ
  pub fire : ℕ
  pub issue_number : ℕ
  pub kind : ScheduledWorkKind
  pub on_shutdown : Option ℕ
  pub project_name : String
  pub run_id : String

-- `fire` is what the timer's closure holds; the source keeps it in the closure.
pub record ScheduledItem : Type 0 where
  pub due_at : ℕ
  pub issue_number : ℕ
  pub kind : ScheduledWorkKind
  pub on_shutdown : Option ℕ
  pub project_name : String
  pub run_id : String
  pub timeout : ℕ

-- A timer that has not fired and was not cleared, with its closure's key and callback.
pub record Timer : Type 0 where
  pub name : ℕ
  pub key : String
  pub fire : ℕ

pub record Registry : Type 0 where
  pub scheduled : Dict ScheduledItem
  pub cancelled : Bool
  pub armed : List Timer
  pub next_timer : ℕ

abbrev pub empty : Registry
empty = record { scheduled = []; cancelled = false; armed = []; next_timer = 0 }

pub data Outcome : Type 0 where
  refused : Outcome
  accepted : Registry → Outcome
  already_scheduled : String → Outcome

abbrev pub item_of : ℕ → ℕ → ScheduledWorkInput → ScheduledItem
item_of now timer input = record {
  due_at = now + input.delay_ms;
  issue_number = input.issue_number;
  kind = input.kind;
  on_shutdown = input.on_shutdown;
  project_name = input.project_name;
  run_id = input.run_id;
  timeout = timer;
}

abbrev pub input_key : ScheduledWorkInput → String
input_key input = issue_key input.project_name input.issue_number

-- `refused` is the source's `false`, `accepted` its `true`, and `already_scheduled` its `throw`.
pub schedule_delayed : Registry → ℕ → ScheduledWorkInput → Outcome
unfolding has
schedule_delayed r now input =
    let key = input_key input in
    if r.cancelled
    then refused
    else if has key r.scheduled
    then already_scheduled key
    else accepted (record r {
      scheduled = put key (item_of now r.next_timer input) r.scheduled;
      armed = r.armed ++ record { name = r.next_timer; key = key; fire = input.fire } ∷ [];
      next_timer = suc r.next_timer;
    })

abbrev pub disarm : ℕ → List Timer → List Timer
disarm t [] = []
disarm t (x ∷ xs) = let rest = disarm t xs in if x.name == t then rest else x ∷ rest

abbrev pub find_timer : ℕ → List Timer → Option Timer
find_timer t [] = none
find_timer t (x ∷ xs) = let rest = find_timer t xs in if x.name == t then some x else rest

abbrev pub is_current : ℕ → Option ScheduledItem → Bool
is_current t none = false
is_current t (some item) = item.timeout == t

-- The timer's closure: it drops the item only if that still belongs to this timer, and calls
-- `fire`. A timer that is not armed does not fire.
pub timer_fired : Registry → ℕ → Registry × Option ℕ
timer_fired r t = elim (find_timer t r.armed) [
  | none ↦ (r, none)
  | some x ↦ (
    record r {
      scheduled =
          (if is_current t (lookup x.key r.scheduled)
            then delete x.key r.scheduled
            else r.scheduled);
      armed = disarm t r.armed;
    },
    some x.fire,
  )
]

unfoldable pub is_issue_scheduled : Registry → String → ℕ → Bool
unfolding has
is_issue_scheduled r project number = has (issue_key project number) r.scheduled

abbrev pub key_of : ScheduledItem → IssueKey
key_of item = record { number = item.issue_number; project = item.project_name }

unfoldable pub issue_keys : Registry → List IssueKey
issue_keys r = map key_of (values r.scheduled)

pub record Snapshot : Type 0 where
  pub due_at : ℕ
  pub issue_number : ℕ
  pub kind : ScheduledWorkKind
  pub project_name : String
  pub run_id : String

abbrev pub snapshot_of : ScheduledItem → Snapshot
snapshot_of item = record {
  due_at = item.due_at;
  issue_number = item.issue_number;
  kind = item.kind;
  project_name = item.project_name;
  run_id = item.run_id;
}

pub peek_delayed : Registry → List Snapshot
peek_delayed r = map snapshot_of (values r.scheduled)

abbrev pub clear_timers : Dict ScheduledItem → List Timer → List Timer
clear_timers [] armed = armed
clear_timers ((k, item) ∷ m) armed = clear_timers m (disarm item.timeout armed)

abbrev pub shutdown_callbacks : Dict ScheduledItem → List ℕ
shutdown_callbacks [] = []
shutdown_callbacks ((k, item) ∷ m) = elim item.on_shutdown [
  | none ↦ shutdown_callbacks m
  | some c ↦ c ∷ shutdown_callbacks m
]

-- The callbacks that `cancelAll` calls, in order; their failures are swallowed.
pub cancel_all : Registry → Registry × List ℕ
cancel_all r = (
  record r { scheduled = []; cancelled = true; armed = clear_timers r.scheduled r.armed },
  shutdown_callbacks r.scheduled,
)
