-- ===== src/Registry/InFlight/Calls.antt =====
-- What each call on a run id does, as equations: on a live run, and on one that is not live.
use symphonika.Base.{Bool, true, false, String, none, some, [], ◌∷◌, ◌≡◌, arith}
use symphonika.Base.Tests.{if◌then◌else◌}
use symphonika.Base.Lists.{remove}
use symphonika.Base.Maps.{lookup, put, delete}
use symphonika.Run.{CancelReason}
use symphonika.Registry.InFlight.{
  Footprint, Entry, AttachProviderInput, Registry, ok, err, no_run, lock_of, attached,
  attach_provider, update_respects_issue_labels, unregister, update_touched_files, request_cancel,
}

-- Where the run is live, each call that updates it replaces its entry.
module _ (r : Registry) (id : String) {e : Entry} (live : lookup id r.entries ≡ some e) where
  abbrev pub replaced : Entry → Registry
  replaced f = record r { entries = put id f r.entries }

  pub attach_provider_live :
      (input : AttachProviderInput)
      → attach_provider r id input
        ≡ ok (replaced (attached e input), (if e.cancel_requested then input.cancel ∷ [] else []))
  unfolding attach_provider
  attach_provider_live input = ground arith

  pub relabel_live :
      (b : Bool)
      → update_respects_issue_labels r id b ≡ ok (replaced (record e { respects_issue_labels = b }))
  unfolding update_respects_issue_labels
  relabel_live b = ground arith

  pub unregister_live : unregister r id ≡ (
    record r { entries = delete id r.entries; issue_locks = remove (lock_of e) r.issue_locks },
    some e,
  )
  unfolding unregister
  unregister_live = ground arith

  pub update_touched_files_live :
      (f : Footprint) → update_touched_files r id f ≡ replaced (record e { touched_files = some f })
  unfolding update_touched_files
  update_touched_files_live f = ground arith

  -- The first request records its reason and calls the handler; a later one can only replace the
  -- reason, and calls nothing.
  pub request_cancel_first :
      (reason : CancelReason) (b : Bool)
      → e.cancel_requested ≡ false
      → request_cancel r id reason b ≡ (
        replaced (record e { cancel_requested = true; cancel_reason = some reason }),
        some e.cancel,
      )
  unfolding request_cancel
  request_cancel_first reason b h = ground arith

  pub request_cancel_again :
      (reason : CancelReason) (b : Bool)
      → e.cancel_requested ≡ true
      → request_cancel r id reason b
        ≡ ((if b then replaced (record e { cancel_reason = some reason }) else r), none)
  unfolding request_cancel
  request_cancel_again reason b h = ground arith

-- Where it is not live, each call leaves the registry as it is.
module _ (r : Registry) (id : String) (gone : lookup id r.entries ≡ none) where
  pub attach_provider_gone :
      (input : AttachProviderInput) → attach_provider r id input ≡ err (no_run id)
  unfolding attach_provider
  attach_provider_gone input = ground arith

  pub relabel_gone : (b : Bool) → update_respects_issue_labels r id b ≡ err (no_run id)
  unfolding update_respects_issue_labels
  relabel_gone b = ground arith

  pub unregister_gone : unregister r id ≡ (r, none)
  unfolding unregister
  unregister_gone = ground arith

  pub update_touched_files_gone : (f : Footprint) → update_touched_files r id f ≡ r
  unfolding update_touched_files
  update_touched_files_gone f = ground arith

  pub request_cancel_gone :
      (reason : CancelReason) (b : Bool) → request_cancel r id reason b ≡ (r, none)
  unfolding request_cancel
  request_cancel_gone reason b = ground arith
