-- ===== src/Registry/InFlight/Shutdown.antt =====
-- Cancellation and shutdown of runs in flight.
use symphonika.Base.{
  String, Bool, true, false, Option, none, some, List, [], ◌∷◌, ◌≡◌, refl, inl, inr, arith, eq_iff,
}
use symphonika.Base.Tests.{Bool-cases, Option-cases}
use symphonika.Base.Lists.{member, member-remove}
use symphonika.Base.Maps.{Dict, lookup, put, keys, keys-put_old, keys-delete, lookup-put}
use symphonika.Run.{CancelReason}
use symphonika.Registry.InFlight.{
  Entry, Footprint, Handler, AttachProviderInput, Registry, ok, attached, begin_shutdown,
  reserve_slot, attach_provider, register, unregister, update_touched_files, request_cancel,
}
use symphonika.Registry.InFlight.Calls.{
  attach_provider_live, relabel_live, unregister_live, update_touched_files_live,
  request_cancel_first, request_cancel_again, attach_provider_gone, relabel_gone, unregister_gone,
  update_touched_files_gone, request_cancel_gone,
}
use symphonika.Registry.InFlight.Trace.{
  after_calls, Command, reserve, attach, relabel, enroll, release, touch, cancel, shutdown, step,
  run,
}

lookup-put_self : (id : String) (e : Entry) (m : Dict Entry) → lookup id (put id e m) ≡ some e
lookup-put_self id e m = ground (arith, lookup-put id id e m, eq_iff id id)

abbrev called_then : Option Handler → List Handler → List Handler
called_then none hs = hs
called_then (some h) hs = h ∷ hs

-- Requests for the cancellation of one run, one after the other, and the handlers that they call.
pub requests : String → List (CancelReason × Bool) → Registry → List Handler
requests id [] r = []
requests id ((reason, supersede) ∷ qs) r =
    called_then (request_cancel r id reason supersede).1
      (requests id qs (request_cancel r id reason supersede).0)

requests_silent :
    (id : String) (qs : List (CancelReason × Bool)) (r : Registry) (e : Entry)
    → lookup id r.entries ≡ some e
    → e.cancel_requested ≡ true
    → requests id qs r ≡ []
unfolding requests
requests_silent id [] r e live flagged = refl
requests_silent id ((reason, true) ∷ qs) r e live flagged =
    let next = record e { cancel_reason = some reason } in
    rw (request_cancel_again r id live reason true flagged, requests)
      (requests_silent id qs (record r { entries = put id next r.entries }) next
        (lookup-put_self id next r.entries) flagged)
requests_silent id ((reason, false) ∷ qs) r e live flagged =
    rw (request_cancel_again r id live reason false flagged, requests)
      (requests_silent id qs r e live flagged)

-- A cancel that arrives between reserving a slot and attaching the provider calls the preparation
-- handler, and attaching the provider then calls the provider's own handler; any number of later
-- requests, superseding or not, calls no handler.
pub cancel_hand_off :
    (r : Registry) (id : String) (e : Entry) (reason : CancelReason) (b : Bool)
    (qs : List (CancelReason × Bool)) (input : AttachProviderInput)
    → lookup id r.entries ≡ some e
    → e.cancel_requested ≡ false
    → let (s, called) = request_cancel r id reason b in
      (called ≡ some e.cancel)
      × (t : Registry) × (attach_provider s id input ≡ ok (t, input.cancel ∷ []))
      × (requests id qs t ≡ [])
cancel_hand_off r id e reason b qs input live calm =
    rw (request_cancel_first r id live reason b calm)
      (refl, _, attach_provider_live _ id now input, later)
  where
    flagged : Entry
    flagged = record e { cancel_requested = true; cancel_reason = some reason }

    now : lookup id (put id flagged r.entries) ≡ some flagged
    now = lookup-put_self id flagged r.entries

    later :
        requests id qs
          (record r { entries = put id (attached flagged input) (put id flagged r.entries) })
        ≡ []
    later =
        requests_silent id qs
          (record r { entries = put id (attached flagged input) (put id flagged r.entries) })
          (attached flagged input)
          (lookup-put_self id (attached flagged input) (put id flagged r.entries)) refl

-- A shut registry stays shut, and run `j` is live in it only if it was before.
pub record Closed (j : String) (r s : Registry) : Type 0 where
  pub shut : s.shutting_down ≡ true
  pub kept : member j (keys s.entries) ≡ true → member j (keys r.entries) ≡ true

module _ (j : String) (r : Registry) (shut : r.shutting_down ≡ true) where
  Closed-same : Closed j r r
  Closed-same = record { shut = shut; kept = λ h. h }

  Closed-put :
      (id : String) (e : Entry) {f : Entry}
      → lookup id r.entries ≡ some f
      → Closed j r (record r { entries = put id e r.entries })
  Closed-put id e h = record { shut = shut; kept = λ m. rw (keys-put_old id e r.entries h) at m }

  attach_provider-Closed :
      (id : String) (input : AttachProviderInput)
      → Closed j r (after_calls r (attach_provider r id input))
  attach_provider-Closed id input = elim (Option-cases (lookup id r.entries)) [
    | inl h ↦ rw (attach_provider_gone r id h input) Closed-same
    | inr (f, h) ↦ rw (attach_provider_live r id h input) (Closed-put id (attached f input) h)
  ]

  relabel-Closed : (id : String) (b : Bool) → Closed j r (step r (relabel id b))
  unfolding step
  relabel-Closed id b = elim (Option-cases (lookup id r.entries)) [
    | inl h ↦ rw (relabel_gone r id h b) Closed-same
    | inr (f, h) ↦ rw (relabel_live r id h b) (Closed-put id _ h)
  ]

  unregister-Closed : (id : String) → Closed j r (unregister r id).0
  unregister-Closed id = elim (Option-cases (lookup id r.entries)) [
    | inl h ↦ rw (unregister_gone r id h) Closed-same
    | inr (f, h) ↦ rw (unregister_live r id h) (record {
      shut = shut;
      kept = ground (arith, keys-delete id r.entries, member-remove j id (keys r.entries));
    })
  ]

  touch-Closed : (id : String) (g : Footprint) → Closed j r (update_touched_files r id g)
  touch-Closed id g = elim (Option-cases (lookup id r.entries)) [
    | inl h ↦ rw (update_touched_files_gone r id h g) Closed-same
    | inr (f, h) ↦ rw (update_touched_files_live r id h g) (Closed-put id _ h)
  ]

  request_cancel-Closed :
      (id : String) (reason : CancelReason) (b : Bool) → Closed j r (request_cancel r id reason b).0
  request_cancel-Closed id reason b = elim (Option-cases (lookup id r.entries)) [
    | inl h ↦ rw (request_cancel_gone r id h reason b) Closed-same
    | inr (f, h) ↦ elim (Bool-cases f.cancel_requested) [
      | inl q ↦
          rw (request_cancel_again r id h reason b q)
            (elim (Bool-cases b) [ inl c ↦ rw c (Closed-put id _ h) | inr c ↦ rw c Closed-same ])
      | inr q ↦ rw (request_cancel_first r id h reason b q) (Closed-put id _ h)
    ]
  ]

  step-Closed : (c : Command) → Closed j r (step r c)
  unfolding step reserve_slot register begin_shutdown
  step-Closed (reserve input) = simp shut Closed-same
  step-Closed (attach id input) = attach_provider-Closed id input
  step-Closed (relabel id b) = unfold step in relabel-Closed id b
  step-Closed (enroll input p) = simp shut Closed-same
  step-Closed (release id) = unregister-Closed id
  step-Closed (touch id g) = touch-Closed id g
  step-Closed (cancel id reason b) = request_cancel-Closed id reason b
  step-Closed shutdown = record { shut = refl; kept = λ h. h }

run-Closed :
    (j : String) (r : Registry) (cs : List Command) → r.shutting_down ≡ true → Closed j r (run r cs)
unfolding run
run-Closed j r [] h = Closed-same j r h
run-Closed j r (c ∷ cs) h =
    let first = step-Closed j r h c in
    let rest = run-Closed j (step r c) cs first.shut in
    record { shut = rest.shut; kept = λ m. first.kept (rest.kept m) }

-- Once shutdown has begun the registry stays shut, and a run is live after any further calls only
-- if it was live when shutdown began.
pub shutdown_admits_none :
    (j : String) (r : Registry) (cs : List Command)
    → Closed j (begin_shutdown r) (run (begin_shutdown r) cs)
shutdown_admits_none j r cs = run-Closed j (begin_shutdown r) cs (unfold begin_shutdown in refl)
