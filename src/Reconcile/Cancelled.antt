-- ===== src/Reconcile/Cancelled.antt =====
-- Which runs a pass cancels.
use symphonika.Base.{
  Bool, true, false, Option, none, some, String, List, [], ◌∷◌, ◌≡◌, refl, sym, ◌∙◌, ap, inl, inr,
  arith, str_eq, eq_iff,
}
use symphonika.Base.Tests.{if◌then◌else◌, Bool-cases, Option-cases}
use symphonika.Base.Lists.{any, find, member, Unique, Occurs, here, there}
use symphonika.Base.Maps.{lookup, lookup-put}
use mathlib.Core.Option.{some-injective}
use symphonika.Run.{CancelReason}
use symphonika.Store.{RunRow}
use symphonika.Store.Runs.{is_id, mark_cancel_requested, is_shutdown, to_cancel, update_where}
use symphonika.Store.Queries.{get_run_issue_repository}
use symphonika.Registry.InFlight.{Entry, request_cancel, list}
use symphonika.Reconcile.{
  Input, World, judge, judge_tracked, mark_cancelled, cancel_if, reconcile_each,
  reconcile_active_runs,
}
use symphonika.Reconcile.Spared.{row, entry, Same, cancel_other, reconcile_each-Same}

any-find :
    (p : RunRow → Bool) (rows : List RunRow)
    → any p rows ≡ (elim (find p rows) [ none ↦ false | some r ↦ true ])
any-find p [] = refl
any-find p (r ∷ rs) = elim (Bool-cases (p r)) [ inl k ↦ rw k refl | inr k ↦ rw k (any-find p rs) ]

origin-find :
    (id : String) (xs ys : List RunRow)
    → find (is_id id) xs ≡ find (is_id id) ys
    → get_run_issue_repository id xs ≡ get_run_issue_repository id ys
unfolding get_run_issue_repository
origin-find id xs ys h = rw (h, get_run_issue_repository) refl

-- The judgement reads the run's own row.
judge-rows :
    (input : Input) (xs ys : List RunRow) (e : Entry)
    → find (is_id e.run_id) xs ≡ find (is_id e.run_id) ys
    → judge input xs e ≡ judge input ys e
unfolding judge judge_tracked
judge-rows input xs ys e h =
    let known : any (is_id e.run_id) xs ≡ any (is_id e.run_id) ys =
      any-find (is_id e.run_id) xs ∙ rw h (sym (any-find (is_id e.run_id) ys)) in
    elim (Bool-cases e.cancel_requested) [
      | inl c ↦ rw c refl
      | inr c ↦ rw c (elim (Option-cases (lookup e.project_name input.projects)) [
        | inl k ↦ rw k refl
        | inr (p, k) ↦ rw k (elim (Option-cases p.tracker) [
          | inl n ↦ rw n refl
          | inr (t, n) ↦ rw (n, known, origin-find e.run_id xs ys h) refl
        ])
      ])
    ]

-- The reason in the row after a request, from the row before it.
abbrev pub row_reason : CancelReason → Option CancelReason → CancelReason
row_reason reason (some CancelReason.daemon_shutdown) = CancelReason.daemon_shutdown
row_reason reason _ = reason

-- What a cancellation leaves in the run's entry and row, where the row was the given one.
abbrev pub Requested : CancelReason → RunRow → Option Entry → Option RunRow → Type 0
Requested reason before none r = ⊥
Requested reason before (some e) none = ⊥
Requested reason before (some e) (some r) =
    (e.cancel_requested ≡ true)
    × (e.cancel_reason ≡ some reason)
    × (r.cancel_requested ≡ true)
    × (r.cancel_reason ≡ some (row_reason reason before.cancel_reason))

find-updated :
    (id : String) (reason : CancelReason) (now : String) (rows : List RunRow) (r : RunRow)
    → find (is_id id) rows ≡ some r
    → find (is_id id) (update_where (is_id id) (to_cancel reason now) rows)
      ≡ some (to_cancel reason now r)
find-updated id reason now [] r h = absurd (cc)
find-updated id reason now (x ∷ xs) r h = elim (Bool-cases (is_id id x)) [
  | inl k ↦
      let same : x ≡ r = some-injective x r (rw k at h) in
      rw (k, k) (ap (λ (y : RunRow). some (to_cancel reason now y)) same)
  | inr k ↦ rw (k, k) (find-updated id reason now xs r (rw k at h))
]

abbrev asked : CancelReason → Entry → Entry
asked reason e = record e { cancel_requested = true; cancel_reason = some reason }

entry_own :
    (id now : String) (reason : CancelReason) (e : Entry) (w : World)
    → entry id w ≡ some e
    → e.cancel_requested ≡ false
    → entry id (mark_cancelled id reason now w) ≡ some (asked reason e)
unfolding mark_cancelled request_cancel
entry_own id now reason e w h c =
    let self : str_eq id id ≡ true = ground (arith, eq_iff id id) in
    rw (h, lookup, c) (rw (lookup-put id id (asked reason e) w.runs.entries, self) refl)

to_cancel-row_reason :
    (reason : CancelReason) (now : String) (r : RunRow)
    → (to_cancel reason now r).cancel_reason ≡ some (row_reason reason r.cancel_reason)
to_cancel-row_reason reason now r = of r.cancel_reason
  where
    of :
        (c : Option CancelReason)
        → (if is_shutdown c then c else some reason) ≡ some (row_reason reason c)
    of none = refl
    of (some CancelReason.daemon_shutdown) = refl
    of (some CancelReason.closed_issue) = refl
    of (some CancelReason.eligibility_loss) = refl
    of (some CancelReason.no_convergence) = refl
    of (some CancelReason.no_progress) = refl
    of (some CancelReason.operator) = refl
    of (some CancelReason.run_timeout) = refl

cancel_own :
    (id now : String) (reason : CancelReason) (e : Entry) (r : RunRow) (w : World)
    → entry id w ≡ some e
    → e.cancel_requested ≡ false
    → row id w ≡ some r
    → Requested reason r
        (entry id (mark_cancelled id reason now w))
        (row id (mark_cancelled id reason now w))
cancel_own id now reason e r w h c k =
    let updated = row_own in
    rw (entry_own id now reason e w h c, updated)
      (refl, refl, refl, to_cancel-row_reason reason now r)
  where
    row_own : row id (mark_cancelled id reason now w) ≡ some (to_cancel reason now r)
    row_own =
        unfold mark_cancelled mark_cancel_requested in find-updated id reason now w.store.runs r k

abbrev pub run_ids : List Entry → List String
run_ids [] = []
run_ids (e ∷ es) = e.run_id ∷ run_ids es

member-run_ids : (e : Entry) (es : List Entry) → Occurs e es → member e.run_id (run_ids es) ≡ true
member-run_ids e [] o = elim o [ ]
member-run_ids e (_ ∷ es) here = ground (arith, eq_iff e.run_id e.run_id)
member-run_ids e (x ∷ es) (there o) = ground (arith, member-run_ids e es o)

judge_open :
    (input : Input) (rows : List RunRow) (e : Entry) (reason : CancelReason)
    → judge input rows e ≡ some reason
    → e.cancel_requested ≡ false
unfolding judge
judge_open input rows e reason h = elim (Bool-cases e.cancel_requested) [
  | inl c ↦ let no : none ≡ some reason = rw c at h in absurd (cc)
  | inr c ↦ c
]

other_id :
    (e x : Entry) (es : List Entry)
    → Occurs e es
    → member x.run_id (run_ids es) ≡ false
    → str_eq x.run_id e.run_id ≡ false
other_id e x es o h = elim (Bool-cases (str_eq x.run_id e.run_id)) [
  | inl k ↦
      let same : x.run_id ≡ e.run_id = ground (arith, eq_iff x.run_id e.run_id) in
      let no : true ≡ false = sym (member-run_ids e es o) ∙ (rw same at h) in absurd (ground arith)
  | inr k ↦ k
]

Requested-Same :
    (reason : CancelReason) (before : RunRow) (id : String) (v w : World)
    → Same id v w
    → Requested reason before (entry id w) (row id w)
    → Requested reason before (entry id v) (row id v)
Requested-Same reason before id v w s h = rw (s.0, s.1) h

reconcile_each-cancels :
    (input : Input) (now : String) (es : List Entry) (w : World) (e : Entry) (r : RunRow)
    (reason : CancelReason)
    → Occurs e es
    → Unique (run_ids es)
    → entry e.run_id w ≡ some e
    → row e.run_id w ≡ some r
    → judge input w.store.runs e ≡ some reason
    → Requested reason r
        (entry e.run_id (reconcile_each input now es w))
        (row e.run_id (reconcile_each input now es w))
unfolding reconcile_each
reconcile_each-cancels input now [] w e r reason o u h k j = elim o [ ]
reconcile_each-cancels input now (_ ∷ es) w e r reason here u h k j =
    let after = mark_cancelled e.run_id reason now w in
    let own = cancel_own e.run_id now reason e r w h (judge_open input w.store.runs e reason j) k in
    let rest = reconcile_each-Same input now e.run_id es after (λ v s x m i.
      let no : true ≡ false = sym (member-run_ids x es m) ∙ (rw (sym i) at u.0) in
      absurd (ground arith)) in
    rw (j, reconcile_each)
      (Requested-Same reason r e.run_id (reconcile_each input now es after) after rest own)
reconcile_each-cancels input now (x ∷ es) w e r reason (there o) u h k j =
    let after = cancel_if x.run_id now (judge input w.store.runs x) w in
    let same =
      cancel_other e.run_id x.run_id now (judge input w.store.runs x) w (other_id e x es o u.0) in
    reconcile_each-cancels input now es after e r reason o u.1 (same.1 ∙ h) (same.0 ∙ k)
      (judge-rows input after.store.runs w.store.runs e same.0 ∙ j)

-- A run in flight that a pass judges to be cancelled has the request and its reason in the registry
-- after the pass, and the request in its row, with its reason unless the row had the reason of a
-- shutdown, which stays.
pub judged_run_cancelled :
    (input : Input) (now : String) (w : World) (e : Entry) (r : RunRow) (reason : CancelReason)
    → Occurs e (list w.runs)
    → Unique (run_ids (list w.runs))
    → entry e.run_id w ≡ some e
    → row e.run_id w ≡ some r
    → judge input w.store.runs e ≡ some reason
    → Requested reason r
        (entry e.run_id (reconcile_active_runs input now w))
        (row e.run_id (reconcile_active_runs input now w))
unfolding reconcile_active_runs
judged_run_cancelled input now w e r reason o u h k j =
    reconcile_each-cancels input now (list w.runs) w e r reason o u h k j
