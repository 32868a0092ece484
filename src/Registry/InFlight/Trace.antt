-- ===== src/Registry/InFlight/Trace.antt =====
-- The registry under every sequence of calls.
use symphonika.Base.{String, Bool, true, none, some, List, [], ◌∷◌, ◌≡◌, refl, inl, inr, arith}
use symphonika.Base.Tests.{Bool-cases, Option-cases}
use symphonika.Base.Maps.{lookup}
use symphonika.Run.{CancelReason}
use symphonika.Registry.InFlight.{
  Handler, Footprint, Entry, ReserveSlotInput, AttachProviderInput, Registry, Result, ok, err,
  new_entry, attached, empty, begin_shutdown, reserve_slot, attach_provider,
  update_respects_issue_labels, register, unregister, update_touched_files, request_cancel,
}
use symphonika.Registry.InFlight.Calls.{
  attach_provider_live, relabel_live, unregister_live, update_touched_files_live,
  request_cancel_first, request_cancel_again, attach_provider_gone, relabel_gone, unregister_gone,
  update_touched_files_gone, request_cancel_gone,
}
use symphonika.Registry.InFlight.Locks.{
  IsConsistent, replace-IsConsistent, insert-IsConsistent, delete-IsConsistent,
}

-- The calls that change the registry.
pub data Command : Type 0 where
  reserve : ReserveSlotInput → Command
  attach : String → AttachProviderInput → Command
  relabel : String → Bool → Command
  enroll : ReserveSlotInput → AttachProviderInput → Command
  release : String → Command
  touch : String → Footprint → Command
  cancel : String → CancelReason → Bool → Command
  shutdown : Command

-- A call that throws leaves the registry as it was; `register` throws before it changes anything.
abbrev pub after : Registry → Result Registry → Registry
after r (ok s) = s
after r (err e) = r

abbrev pub after_calls : Registry → Result (Registry × List Handler) → Registry
after_calls r (ok (s, hs)) = s
after_calls r (err e) = r

unfoldable pub step : Registry → Command → Registry
step r (reserve input) = after r (reserve_slot r input)
step r (attach id input) = after_calls r (attach_provider r id input)
step r (relabel id b) = after r (update_respects_issue_labels r id b)
step r (enroll input p) = after_calls r (register r input p)
step r (release id) = (unregister r id).0
step r (touch id f) = update_touched_files r id f
step r (cancel id reason b) = (request_cancel r id reason b).0
step r shutdown = begin_shutdown r

unfoldable pub run : Registry → List Command → Registry
run r [] = r
run r (c ∷ cs) = run (step r c) cs

reserve_slot-IsConsistent :
    (r : Registry) (input : ReserveSlotInput) {s : Registry}
    → IsConsistent r
    → reserve_slot r input ≡ ok s
    → IsConsistent s
unfolding reserve_slot
reserve_slot-IsConsistent r input {s} v h =
    ground (arith, insert-IsConsistent r (new_entry input) v)

attach_provider-IsConsistent :
    (before r : Registry) (id : String) (input : AttachProviderInput)
    → IsConsistent before
    → IsConsistent r
    → IsConsistent (after_calls before (attach_provider r id input))
attach_provider-IsConsistent before r id input u v = elim (Option-cases (lookup id r.entries)) [
  | inl h ↦ rw (attach_provider_gone r id h input) u
  | inr (f, h) ↦
      rw (attach_provider_live r id h input)
        (replace-IsConsistent r id (attached f input) f v h refl refl)
]

request_cancel-IsConsistent :
    (r : Registry) (id : String) (reason : CancelReason) (b : Bool) (f : Entry)
    → IsConsistent r
    → lookup id r.entries ≡ some f
    → IsConsistent (request_cancel r id reason b).0
request_cancel-IsConsistent r id reason b f v h = elim (Bool-cases f.cancel_requested) [
  | inl q ↦ rw (request_cancel_again r id h reason b q) (elim (Bool-cases b) [
    | inl c ↦
        rw c (replace-IsConsistent r id (record f { cancel_reason = some reason }) f v h refl refl)
    | inr c ↦ rw c v
  ])
  | inr q ↦ rw (request_cancel_first r id h reason b q) (
      replace-IsConsistent r id (record f { cancel_requested = true; cancel_reason = some reason })
        f v h refl refl)
]

cancel-IsConsistent :
    (r : Registry) (id : String) (reason : CancelReason) (b : Bool)
    → IsConsistent r
    → IsConsistent (request_cancel r id reason b).0
cancel-IsConsistent r id reason b v = elim (Option-cases (lookup id r.entries)) [
  | inl h ↦ rw (request_cancel_gone r id h reason b) v
  | inr (f, h) ↦ request_cancel-IsConsistent r id reason b f v h
]

register-IsConsistent :
    (r : Registry) (input : ReserveSlotInput) (p : AttachProviderInput)
    → IsConsistent r
    → IsConsistent (after_calls r (register r input p))
unfolding register
register-IsConsistent r input p v = go (reserve_slot r (record input { cancel = none })) refl
  where
    go :
        (s : Result Registry)
        → reserve_slot r (record input { cancel = none }) ≡ s
        → IsConsistent (after_calls r (register r input p))
    go (err x) e = rw e v
    go (ok s) e = rw e (
        attach_provider-IsConsistent r s input.run_id (record p { respects_issue_labels = none }) v
          (reserve_slot-IsConsistent r (record input { cancel = none }) v e))

unregister-IsConsistent :
    (r : Registry) (id : String) → IsConsistent r → IsConsistent (unregister r id).0
unregister-IsConsistent r id v = elim (Option-cases (lookup id r.entries)) [
  | inl h ↦ rw (unregister_gone r id h) v
  | inr (f, h) ↦ rw (unregister_live r id h) (delete-IsConsistent r id f v h)
]

reserve-IsConsistent :
    (r : Registry) (input : ReserveSlotInput)
    → IsConsistent r
    → IsConsistent (after r (reserve_slot r input))
reserve-IsConsistent r input v = go (reserve_slot r input) refl
  where
    go :
        (s : Result Registry)
        → reserve_slot r input ≡ s
        → IsConsistent (after r (reserve_slot r input))
    go (err x) e = rw e v
    go (ok s) e = rw e (reserve_slot-IsConsistent r input v e)

-- Every call keeps the locks exactly the issues of the live entries.
pub step-IsConsistent : (r : Registry) (c : Command) → IsConsistent r → IsConsistent (step r c)
unfolding step begin_shutdown
step-IsConsistent r (reserve input) v = reserve-IsConsistent r input v
step-IsConsistent r (attach id input) v = attach_provider-IsConsistent r r id input v v
step-IsConsistent r (relabel id b) v = elim (Option-cases (lookup id r.entries)) [
  | inl h ↦ rw (relabel_gone r id h b) v
  | inr (f, h) ↦
      rw (relabel_live r id h b)
        (replace-IsConsistent r id (record f { respects_issue_labels = b }) f v h refl refl)
]
step-IsConsistent r (enroll input p) v = register-IsConsistent r input p v
step-IsConsistent r (release id) v = unregister-IsConsistent r id v
step-IsConsistent r (touch id g) v = elim (Option-cases (lookup id r.entries)) [
  | inl h ↦ rw (update_touched_files_gone r id h g) v
  | inr (f, h) ↦
      rw (update_touched_files_live r id h g)
        (replace-IsConsistent r id (record f { touched_files = some g }) f v h refl refl)
]
step-IsConsistent r (cancel id reason b) v = cancel-IsConsistent r id reason b v
step-IsConsistent r shutdown v = ground arith

run_from-IsConsistent :
    (r : Registry) (cs : List Command) → IsConsistent r → IsConsistent (run r cs)
unfolding run
run_from-IsConsistent r [] v = v
run_from-IsConsistent r (c ∷ cs) v = run_from-IsConsistent (step r c) cs (step-IsConsistent r c v)

-- However the registry is called from empty, its locks are exactly the issues of its entries, and
-- no run id and no lock stands twice.
pub run-IsConsistent : (cs : List Command) → IsConsistent (run empty cs)
run-IsConsistent cs =
    run_from-IsConsistent empty cs
      (record { locks_match = refl; runs_unique = tt; locks_unique = tt; named = tt })
