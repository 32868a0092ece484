-- ===== src/Registry/InFlight.antt =====
-- src/lifecycle/in-flight-runs.ts: the registry of runs in flight and its issue locks.
-- A method returns the new registry; a `throw` is an error value. A cancel closure is a name, and
-- each method that calls closures also returns the ones it calls.
pub mod Locks
pub mod Calls
pub mod Trace
pub mod Exclusion
pub mod Shutdown
use symphonika.Base.{
  ℕ, suc, String, ◌<>◌, Bool, true, false, Option, none, some, List, [], ◌∷◌, ◌++◌, map, str_eq,
}
use symphonika.Base.Tests.{if◌then◌else◌}
use symphonika.Base.Lists.{member, add, remove, length}
use symphonika.Base.Maps.{Dict, lookup, put, delete, values}
use symphonika.Base.Decimal.{decimal}
use symphonika.Run.{CancelReason}

-- A cancel handler: the do-nothing default, or a closure that a caller bound.
pub data Handler : Type 0 where
  noop : Handler
  closure : ℕ → Handler

pub record Footprint : Type 0 where
  pub files : List String
  pub refreshed_at : ℕ

pub record Entry : Type 0 where
  pub cancel : Handler
  pub cancel_reason : Option CancelReason
  pub cancel_requested : Bool
  pub issue_number : ℕ
  pub project_name : String
  pub provider : Option ℕ
  pub respects_issue_labels : Bool
  pub run_id : String
  pub touched_files : Option Footprint

pub record ReserveSlotInput : Type 0 where
  pub cancel : Option Handler
  pub issue_number : ℕ
  pub project_name : String
  pub respects_issue_labels : Option Bool
  pub run_id : String

pub record AttachProviderInput : Type 0 where
  pub cancel : Handler
  pub provider : Option ℕ
  pub respects_issue_labels : Option Bool

pub record Registry : Type 0 where
  pub entries : Dict Entry
  pub issue_locks : List String
  pub shutting_down : Bool

pub data Error : Type 0 where
  registry_shutdown : String → Error
  run_exists : String → Error
  issue_exists : String → Error
  no_run : String → Error

-- What a method that may throw gives back.
pub data Result {ℓ} (Given : Type ℓ) : Type ℓ where
  err : Error → Result Given
  ok : Given → Result Given

infixl 5 ◌>>=◌
abbrev pub ◌>>=◌ {ℓ κ} :
    {Given : Type ℓ} {Then : Type κ} → Result Given → (Given → Result Then) → Result Then
err thrown >>= next = err thrown
ok value >>= next = next value

abbrev pub or_else {ℓ} : {A : Type ℓ} → Option A → A → A
or_else (some a) d = a
or_else none d = d

-- `${projectName}#${issueNumber}`
unfoldable pub issue_key : String → ℕ → String
issue_key project number = project <> ("#" <> decimal number)

abbrev pub lock_of : Entry → String
lock_of e = issue_key e.project_name e.issue_number

abbrev pub empty : Registry
empty = record { entries = []; issue_locks = []; shutting_down = false }

unfoldable pub begin_shutdown : Registry → Registry
begin_shutdown r = record r { shutting_down = true }

abbrev pub new_entry : ReserveSlotInput → Entry
new_entry input = record {
  cancel = or_else input.cancel noop;
  cancel_reason = none;
  cancel_requested = false;
  issue_number = input.issue_number;
  project_name = input.project_name;
  provider = none;
  respects_issue_labels = or_else input.respects_issue_labels true;
  run_id = input.run_id;
  touched_files = none;
}

unfoldable pub has {ℓ} : {V : Type ℓ} → String → Dict V → Bool
has k m = elim (lookup k m) [ none ↦ false | some v ↦ true ]

unfoldable pub reserve_slot : Registry → ReserveSlotInput → Result Registry
unfolding has
reserve_slot r input =
    let key = issue_key input.project_name input.issue_number in
    if r.shutting_down
    then err (registry_shutdown input.run_id)
    else if has input.run_id r.entries
    then err (run_exists input.run_id)
    else if member key r.issue_locks
    then err (issue_exists key)
    else ok (record r {
      entries = put input.run_id (new_entry input) r.entries;
      issue_locks = add key r.issue_locks;
    })

get_entry_or_throw : Registry → String → Result Entry
get_entry_or_throw r run_id = elim (lookup run_id r.entries) [
  | none ↦ err (no_run run_id)
  | some e ↦ ok e
]

abbrev pub attached : Entry → AttachProviderInput → Entry
attached e input = record e {
  cancel = input.cancel;
  provider = elim input.provider [ none ↦ e.provider | some p ↦ some p ];
  respects_issue_labels = or_else input.respects_issue_labels e.respects_issue_labels;
}

-- The second part lists the cancel handlers that the call invokes.
pub attach_provider : Registry → String → AttachProviderInput → Result (Registry × List Handler)
unfolding get_entry_or_throw
attach_provider r run_id input = get_entry_or_throw r run_id >>= λ e. ok (
  record r { entries = put run_id (attached e input) r.entries },
  (if e.cancel_requested then input.cancel ∷ [] else []),
)

pub update_respects_issue_labels : Registry → String → Bool → Result Registry
unfolding get_entry_or_throw
update_respects_issue_labels r run_id respects = get_entry_or_throw r run_id >>= λ e.
    ok (record r { entries = put run_id (record e { respects_issue_labels = respects }) r.entries })

-- `register` passes neither the preparation handler to `reserveSlot` nor the label flag to
-- `attachProvider`.
pub register : Registry → ReserveSlotInput → AttachProviderInput → Result (Registry × List Handler)
unfolding reserve_slot attach_provider
register r input provider = reserve_slot r (record input { cancel = none }) >>= λ s.
    attach_provider s input.run_id (record provider { respects_issue_labels = none })

pub unregister : Registry → String → Registry × Option Entry
unregister r run_id = elim (lookup run_id r.entries) [
  | none ↦ (r, none)
  | some e ↦ (
    record r { entries = delete run_id r.entries; issue_locks = remove (lock_of e) r.issue_locks },
    some e,
  )
]

pub get : Registry → String → Option Entry
get r run_id = lookup run_id r.entries

unfoldable pub list : Registry → List Entry
list r = values r.entries

pub update_touched_files : Registry → String → Footprint → Registry
update_touched_files r run_id input = elim (lookup run_id r.entries) [
  | none ↦ r
  | some e ↦ record r { entries = put run_id (record e { touched_files = some input }) r.entries }
]

unfoldable pub is_issue_in_flight : Registry → String → ℕ → Bool
is_issue_in_flight r project number = member (issue_key project number) r.issue_locks

pub record IssueKey : Type 0 where
  pub number : ℕ
  pub project : String

abbrev pub key_of : Entry → IssueKey
key_of e = record { number = e.issue_number; project = e.project_name }

unfoldable pub issue_keys : Registry → List IssueKey
issue_keys r = map key_of (values r.entries)

unfoldable pub count : Registry → ℕ
count r = length r.entries

unfoldable pub count_in : String → List Entry → ℕ
count_in project [] = 0
count_in project (e ∷ es) =
    let n = count_in project es in if str_eq e.project_name project then suc n else n

unfoldable pub count_by_project : Registry → String → ℕ
unfolding count_in
count_by_project r project = count_in project (values r.entries)

-- The handler that the call awaits, if it gets that far.
unfoldable pub request_cancel : Registry → String → CancelReason → Bool → Registry × Option Handler
request_cancel r run_id reason supersede = elim (lookup run_id r.entries) [
  | none ↦ (r, none)
  | some e ↦
      if e.cancel_requested
      then (if supersede
          then (
            record r { entries = put run_id (record e { cancel_reason = some reason }) r.entries },
            none,
          )
          else (r, none))
      else (
        record r {
          entries =
              put run_id (record e { cancel_requested = true; cancel_reason = some reason })
                r.entries;
        },
        some e.cancel,
      )
]
