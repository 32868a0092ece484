-- ===== src/Registry/Reservations/Keys.antt =====
-- The listing of reserved issues against the test for one issue.
use symphonika.Base.{
  ℕ, String, ◌||◌, inl, inr, sym, List, [], ◌∷◌, map, ◌≡◌, refl, arith, eq_iff, str_eq,
}
use symphonika.Base.Tests.{Bool-cases}
use symphonika.Base.Lists.{member, Unique}
use symphonika.Base.Maps.{Dict, put, keys, values, Unique-put}
use symphonika.Registry.InFlight
use symphonika.Registry.InFlight.{Entry, IssueKey, issue_key, has, is_issue_in_flight}
use symphonika.Registry.InFlight.Locks.{locks}
use symphonika.Registry.InFlight.Trace.{run-IsConsistent}
use symphonika.Registry.InFlight.Trace
use symphonika.Registry.Scheduled
use symphonika.Registry.Scheduled.{ScheduledItem, is_issue_scheduled}
use symphonika.Registry.Scheduled.Account
use symphonika.Registry.Scheduled.Named.{Keyed, begin-Keyed}
use symphonika.Registry.Reservations.{is_issue_reserved, set_all, key_map, issue_keys}

abbrev pub texts : List IssueKey → List String
texts [] = []
texts (k ∷ ks) = issue_key k.project k.number ∷ texts ks

member-put :
    (j k : String) (v : IssueKey) (m : Dict IssueKey)
    → member j (keys (put k v m)) ≡ (str_eq k j || member j (keys m))
member-put j k v [] = refl
member-put j k v ((i, w) ∷ m) =
    ground (arith, member-put j k v m, eq_iff i k, eq_iff i j, eq_iff k j)

member-set_all :
    (j : String) (ks : List IssueKey) (m : Dict IssueKey)
    → member j (keys (set_all ks m)) ≡ (member j (texts ks) || member j (keys m))
member-set_all j [] m = refl
member-set_all j (k ∷ ks) m = ground (
  arith,
  member-set_all j ks (put (issue_key k.project k.number) k m),
  member-put j (issue_key k.project k.number) k m,
)

Unique-set_all :
    (ks : List IssueKey) (m : Dict IssueKey) → Unique (keys m) → Unique (keys (set_all ks m))
Unique-set_all [] m u = u
Unique-set_all (k ∷ ks) m u =
    Unique-set_all ks (put (issue_key k.project k.number) k m)
      (Unique-put (issue_key k.project k.number) k m u)

texts-locks : (m : Dict Entry) → texts (map InFlight.key_of (values m)) ≡ locks m
texts-locks [] = refl
texts-locks ((k, e) ∷ m) = cc (texts-locks m)

texts-items : (m : Dict ScheduledItem) → Keyed m → texts (map Scheduled.key_of (values m)) ≡ keys m
texts-items [] h = refl
texts-items ((k, i) ∷ m) h = cc (texts-items m h.1, h.0)

has-member : (j : String) (m : Dict ScheduledItem) → has j m ≡ member j (keys m)
unfolding has
has-member j [] = refl
has-member j ((i, w) ∷ m) = ground (arith, has-member j m)

-- Each issue in the map stands under its own key.
abbrev Own : Dict IssueKey → Type 0
Own [] = Unit
Own ((j, w) ∷ m) = (issue_key w.project w.number ≡ j) × Own m

Own-put : (v : IssueKey) (m : Dict IssueKey) → Own m → Own (put (issue_key v.project v.number) v m)
Own-put v [] h = (refl, tt)
Own-put v ((j, w) ∷ m) h = elim (Bool-cases (str_eq j (issue_key v.project v.number))) [
  | inl k ↦ rw k (sym ((eq_iff j (issue_key v.project v.number)).0 k), h.1)
  | inr k ↦ rw k (h.0, Own-put v m h.1)
]

Own-set_all : (ks : List IssueKey) (m : Dict IssueKey) → Own m → Own (set_all ks m)
Own-set_all [] m h = h
Own-set_all (k ∷ ks) m h = Own-set_all ks (put (issue_key k.project k.number) k m) (Own-put k m h)

texts-keys : (m : Dict IssueKey) → Own m → texts (values m) ≡ keys m
texts-keys [] h = refl
texts-keys ((j, w) ∷ m) h = rw (h.0, texts-keys m h.1) refl

-- After any calls on the two registries, the listing of reserved issues has an issue with the key of
-- the given one exactly if that one is reserved, and has no two with one key.
pub reserved_listed :
    (cs : List InFlight.Trace.Command) (es : List Scheduled.Account.Event) (project : String)
    (number : ℕ)
    → let runs = InFlight.Trace.run InFlight.empty cs in
      let work = (Scheduled.Account.run Scheduled.Account.begin es).registry in
      (member (issue_key project number) (texts (issue_keys runs work))
        ≡ is_issue_reserved runs work project number)
      × Unique (texts (issue_keys runs work))
unfolding issue_keys key_map is_issue_reserved is_issue_in_flight is_issue_scheduled
    InFlight.issue_keys Scheduled.issue_keys
reserved_listed cs es project number = rw own (
  listed,
  Unique-set_all (map Scheduled.key_of (values work.scheduled))
      (set_all (map InFlight.key_of (values runs.entries)) [])
      (Unique-set_all (map InFlight.key_of (values runs.entries)) [] tt),
)
  where
    runs : InFlight.Registry
    runs = InFlight.Trace.run InFlight.empty cs

    work : Scheduled.Registry
    work = (Scheduled.Account.run Scheduled.Account.begin es).registry

    own :
        texts (
          values (
            set_all
              (map Scheduled.key_of (values work.scheduled))
              (set_all (map InFlight.key_of (values runs.entries)) [])))
        ≡ keys (
            set_all
              (map Scheduled.key_of (values work.scheduled))
              (set_all (map InFlight.key_of (values runs.entries)) []))
    own =
        texts-keys
          (set_all (map Scheduled.key_of (values work.scheduled))
            (set_all (map InFlight.key_of (values runs.entries)) []))
          (Own-set_all (map Scheduled.key_of (values work.scheduled))
            (set_all (map InFlight.key_of (values runs.entries)) [])
            (Own-set_all (map InFlight.key_of (values runs.entries)) [] tt))

    k : String
    k = issue_key project number

    listed :
        member k (
          keys (
            set_all
              (map Scheduled.key_of (values work.scheduled))
              (set_all (map InFlight.key_of (values runs.entries)) [])))
        ≡ (member k runs.issue_locks || has k work.scheduled)
    listed = ground (
      arith,
      member-set_all k (map Scheduled.key_of (values work.scheduled))
          (set_all (map InFlight.key_of (values runs.entries)) []),
      member-set_all k (map InFlight.key_of (values runs.entries)) [],
      texts-locks runs.entries,
      (run-IsConsistent cs).locks_match,
      texts-items work.scheduled (begin-Keyed es),
      has-member k work.scheduled,
    )
