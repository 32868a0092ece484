-- ===== src/Reconcile/Spared.antt =====
-- Which runs a pass leaves as they are.
use symphonika.Base.{
  true, false, Option, none, some, String, List, [], ◌∷◌, ◌≡◌, refl, ◌∙◌, inl, inr, arith, str_eq,
  eq_iff,
}
use symphonika.Base.Tests.{Bool-cases, Option-cases}
use symphonika.Base.Lists.{any, find, Occurs, here, there}
use symphonika.Base.Maps.{lookup, lookup-put}
use symphonika.Run.{CancelReason}
use symphonika.Issue.{Repository, Project, Tracker, same_issue_repository}
use symphonika.Store.{RunRow}
use symphonika.Store.Runs.{is_id, mark_cancel_requested, update_where, to_cancel}
use symphonika.Store.Queries.{get_run_issue_repository}
use symphonika.Registry.InFlight
use symphonika.Registry.InFlight.{Entry, request_cancel, list}
use symphonika.Reconcile.{
  Input, World, judge, judge_tracked, mark_cancelled, cancel_if, reconcile_each,
  reconcile_active_runs,
}

-- The run's row and its entry in the registry.
abbrev pub row : String → World → Option RunRow
row id w = find (is_id id) w.store.runs

abbrev pub entry : String → World → Option Entry
entry id w = lookup id w.runs.entries

find-update_where :
    (id j : String) (reason : CancelReason) (now : String) (rows : List RunRow)
    → str_eq j id ≡ false
    → find (is_id id) (update_where (is_id j) (to_cancel reason now) rows) ≡ find (is_id id) rows
find-update_where id j reason now [] h = refl
find-update_where id j reason now (r ∷ rs) h = elim (Bool-cases (is_id j r)) [
  | inl k ↦
      let other : is_id id r ≡ false = ground (arith, eq_iff r.id j) in
      rw (k, other) (find-update_where id j reason now rs h)
  | inr k ↦ rw (k, find-update_where id j reason now rs h) refl
]

request_cancel_other :
    (r : InFlight.Registry) (id j : String) (reason : CancelReason)
    → str_eq j id ≡ false
    → lookup id (request_cancel r j reason false).0.entries ≡ lookup id r.entries
unfolding request_cancel
request_cancel_other r id j reason h = elim (Option-cases (lookup j r.entries)) [
  | inl k ↦ rw (k, lookup) refl
  | inr (e, k) ↦ elim (Bool-cases e.cancel_requested) [
    | inl c ↦ rw (k, lookup, c) refl
    | inr c ↦
        rw (k, lookup, c)
          (rw
            (
              lookup-put j id (record e { cancel_requested = true; cancel_reason = some reason })
                  r.entries,
              h,
            )
            refl)
  ]
]

-- Two worlds have the same row and entry of the run.
abbrev pub Same : String → World → World → Type 0
Same id v w = (row id v ≡ row id w) × (entry id v ≡ entry id w)

pub cancel_other :
    (id j now : String) (verdict : Option CancelReason) (w : World)
    → str_eq j id ≡ false
    → Same id (cancel_if j now verdict w) w
unfolding mark_cancelled mark_cancel_requested
cancel_other id j now none w h = (refl, refl)
cancel_other id j now (some reason) w h =
    (find-update_where id j reason now w.store.runs h, request_cancel_other w.runs id j reason h)

-- Nothing of a run changes in a pass that judges none of its entries to be cancelled.
pub reconcile_each-Same :
    (input : Input) (now id : String) (es : List Entry) (w : World)
    → ((v : World)
        → Same id v w
        → (e : Entry) → Occurs e es
        → e.run_id ≡ id
        → judge input v.store.runs e ≡ none)
    → Same id (reconcile_each input now es w) w
unfolding reconcile_each
reconcile_each-Same input now id [] w h = (refl, refl)
reconcile_each-Same input now id (e ∷ es) w h = elim (Bool-cases (str_eq e.run_id id)) [
  | inl k ↦
      let spared = h w (refl, refl) e here (ground (arith, eq_iff e.run_id id)) in
      rw (spared, reconcile_each)
        (reconcile_each-Same input now id es w (λ v s f o. h v s f (there o)))
  | inr k ↦
      let next = cancel_if e.run_id now (judge input w.store.runs e) w in
      let step = cancel_other id e.run_id now (judge input w.store.runs e) w k in
      let rest =
        reconcile_each-Same input now id es next
          (λ v s f o. h v (s.0 ∙ step.0, s.1 ∙ step.1) f (there o)) in
      (rest.0 ∙ step.0, rest.1 ∙ step.1)
]

-- Each project that an entry of the run names has its tracker at another repository.
abbrev pub Retargeted : Input → Repository → String → World → Type 0
Retargeted input origin id w =
    (e : Entry)
    → Occurs e (list w.runs)
    → e.run_id ≡ id
    → (p : Project) (t : Tracker) → lookup e.project_name input.projects ≡ some p
    → p.tracker ≡ some t
    → same_issue_repository origin t.repository ≡ false

judge_retargeted :
    (input : Input) (rows : List RunRow) (origin : Repository) (e : Entry)
    → get_run_issue_repository e.run_id rows ≡ some origin
    → ((p : Project) (t : Tracker)
        → lookup e.project_name input.projects ≡ some p
        → p.tracker ≡ some t
        → same_issue_repository origin t.repository ≡ false)
    → judge input rows e ≡ none
unfolding judge judge_tracked
judge_retargeted input rows origin e o h = elim (Bool-cases e.cancel_requested) [
  | inl c ↦ rw c refl
  | inr c ↦ rw c (elim (Option-cases (lookup e.project_name input.projects)) [
    | inl k ↦ rw k refl
    | inr (p, k) ↦ rw k (elim (Option-cases p.tracker) [
      | inl n ↦ rw n refl
      | inr (t, n) ↦ rw n (elim (Bool-cases (any (is_id e.run_id) rows)) [
        | inl a ↦ rw (a, o, h p t k n) refl
        | inr a ↦ rw a refl
      ])
    ])
  ])
]

origin_of :
    (id : String) (origin : Repository) (v w : World)
    → row id v ≡ row id w
    → get_run_issue_repository id w.store.runs ≡ some origin
    → get_run_issue_repository id v.store.runs ≡ some origin
unfolding get_run_issue_repository
origin_of id origin v w s h = rw (s, get_run_issue_repository) h

-- A pass leaves the row and the entry of a run as they are if the run's issue is recorded in another
-- repository than its project's tracker, whatever the poll and GitHub say.
pub Retargeted-spared :
    (input : Input) (now id : String) (origin : Repository) (w : World)
    → get_run_issue_repository id w.store.runs ≡ some origin
    → Retargeted input origin id w
    → Same id (reconcile_active_runs input now w) w
unfolding reconcile_active_runs
Retargeted-spared input now id origin w o h =
    reconcile_each-Same input now id (list w.runs) w (λ v s e m k.
      judge_retargeted input v.store.runs origin e (rw k (origin_of id origin v w s.0 o)) (h e m k))
