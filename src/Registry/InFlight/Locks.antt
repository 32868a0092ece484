-- ===== src/Registry/InFlight/Locks.antt =====
-- The locks are exactly the issues of the entries, and each operation keeps that.
use symphonika.Base.{
  String, true, false, none, some, List, [], ◌∷◌, ◌++◌, ◌≡◌, refl, sym, ap, ◌∙◌, arith, eq_iff,
}
use symphonika.Base.Lists.{member, Unique, remove, Unique-append, Unique-remove, remove_absent}
use symphonika.Base.Maps.{Dict, lookup, put, delete, keys, put_new, keys-delete, Unique-put}
use symphonika.Registry.InFlight.{Entry, Registry, lock_of}

abbrev pub locks : Dict Entry → List String
locks [] = []
locks ((k, e) ∷ m) = lock_of e ∷ locks m

-- Each entry stands under its own run id.
abbrev pub Named : Dict Entry → Type 0
Named [] = Unit
Named ((k, e) ∷ m) = (k ≡ e.run_id) × Named m

pub record IsConsistent (r : Registry) : Type 0 where
  pub locks_match : r.issue_locks ≡ locks r.entries
  pub runs_unique : Unique (keys r.entries)
  pub locks_unique : Unique r.issue_locks
  pub named : Named r.entries

locks-append : (m n : Dict Entry) → locks (m ++ n) ≡ locks m ++ locks n
locks-append [] n = refl
locks-append ((k, e) ∷ m) n = ap (λ (ks : List String). lock_of e ∷ ks) (locks-append m n)

Named-append :
    (m : Dict Entry) (k : String) (e : Entry) → Named m → k ≡ e.run_id → Named (m ++ (k, e) ∷ [])
Named-append [] k e h p = (p, tt)
Named-append ((j, f) ∷ m) k e h p = (h.0, Named-append m k e h.1 p)

-- An update in place that keeps the issue keeps the locks.
locks-put_old :
    (k : String) (e f : Entry) (m : Dict Entry)
    → lookup k m ≡ some f
    → lock_of e ≡ lock_of f
    → locks (put k e m) ≡ locks m
locks-put_old k e f [] h p = cc
locks-put_old k e f ((j, w) ∷ m) h p = ground (arith, locks-put_old k e f m)

Named-put_old :
    (k : String) (e : Entry) (m : Dict Entry) → k ≡ e.run_id → Named m → Named (put k e m)
Named-put_old k e [] p h = (p, tt)
Named-put_old k e ((j, w) ∷ m) p h = ground (arith, eq_iff j k, Named-put_old k e m p h.1)

Named-lookup :
    (k : String) (e : Entry) (m : Dict Entry) → Named m → lookup k m ≡ some e → k ≡ e.run_id
Named-lookup k e [] h q = cc
Named-lookup k e ((j, w) ∷ m) h q = ground (arith, eq_iff j k, Named-lookup k e m h.1)

Named-delete : (k : String) (m : Dict Entry) → Named m → Named (delete k m)
Named-delete k [] h = tt
Named-delete k ((j, w) ∷ m) h = ground (arith, Named-delete k m h.1)

member-locks :
    (k : String) (e : Entry) (m : Dict Entry)
    → lookup k m ≡ some e
    → member (lock_of e) (locks m) ≡ true
member-locks k e [] h = cc
member-locks k e ((j, w) ∷ m) h = ground (arith, member-locks k e m, eq_iff (lock_of w) (lock_of e))

delete_absent : (k : String) (m : Dict Entry) → member k (keys m) ≡ false → delete k m ≡ m
delete_absent k [] h = refl
delete_absent k ((j, w) ∷ m) h = ground (arith, delete_absent k m)

-- Releasing a run's lock removes exactly that run's place from the list of locks.
locks-delete :
    (k : String) (e : Entry) (m : Dict Entry)
    → Unique (keys m)
    → Unique (locks m)
    → lookup k m ≡ some e
    → locks (delete k m) ≡ remove (lock_of e) (locks m)
locks-delete k e [] u v h = cc
locks-delete k e ((j, w) ∷ m) u v h = ground (
  arith,
  eq_iff j k,
  eq_iff (lock_of w) (lock_of e),
  delete_absent k m,
  remove_absent (lock_of e) (locks m),
  locks-delete k e m u.1 v.1,
  member-locks k e m,
)

-- Replacing a live entry by one of the same run and issue keeps the invariant.
pub replace-IsConsistent :
    (r : Registry) (k : String) (e f : Entry)
    → IsConsistent r
    → lookup k r.entries ≡ some f
    → e.run_id ≡ f.run_id
    → lock_of e ≡ lock_of f
    → IsConsistent (record r { entries = put k e r.entries })
replace-IsConsistent r k e f v h p q = record {
  locks_match = v.locks_match ∙ sym (locks-put_old k e f r.entries h q);
  runs_unique = Unique-put k e r.entries v.runs_unique;
  locks_unique = v.locks_unique;
  named = Named-put_old k e r.entries (Named-lookup k f r.entries v.named h ∙ sym p) v.named;
}

pub insert-IsConsistent :
    (r : Registry) (e : Entry)
    → IsConsistent r
    → lookup e.run_id r.entries ≡ none
    → member (lock_of e) r.issue_locks ≡ false
    → IsConsistent (record r {
      entries = put e.run_id e r.entries;
      issue_locks = r.issue_locks ++ lock_of e ∷ [];
    })
insert-IsConsistent r e v h free = record {
  locks_match =
      rw (put_new e.run_id e r.entries h, locks-append r.entries ((e.run_id, e) ∷ []))
        (ap (λ (ks : List String). ks ++ lock_of e ∷ []) v.locks_match);
  runs_unique = Unique-put e.run_id e r.entries v.runs_unique;
  locks_unique = Unique-append (lock_of e) r.issue_locks v.locks_unique free;
  named = rw (put_new e.run_id e r.entries h) (Named-append r.entries e.run_id e v.named refl);
}

pub delete-IsConsistent :
    (r : Registry) (k : String) (e : Entry)
    → IsConsistent r
    → lookup k r.entries ≡ some e
    → IsConsistent
        (record r { entries = delete k r.entries; issue_locks = remove (lock_of e) r.issue_locks })
delete-IsConsistent r k e v h = record {
  locks_match =
      ap (remove (lock_of e)) v.locks_match
      ∙ sym (locks-delete k e r.entries v.runs_unique (rw v.locks_match at v.locks_unique) h);
  runs_unique = rw (keys-delete k r.entries) (Unique-remove k (keys r.entries) v.runs_unique);
  locks_unique = Unique-remove (lock_of e) r.issue_locks v.locks_unique;
  named = Named-delete k r.entries v.named;
}
