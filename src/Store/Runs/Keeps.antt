-- ===== src/Store/Runs/Keeps.antt =====
-- What a statement leaves of the rows: their keys, and a verdict that it does not overwrite.
use symphonika.Base.{
  ℕ, Bool, true, false, Option, none, some, String, List, [], ◌∷◌, ◌≡◌, refl, ap, ◌∙◌, inl, inr,
  arith, str_eq, eq_iff,
}
use symphonika.Base.Tests.{◌==◌, Bool-cases}
use symphonika.Base.Lists.{any, length}
use symphonika.Run.{RunState, FailureClassification}
use symphonika.Store.{Notification, WatchdogReason, RunRow, Store}
use symphonika.Store.Legacy.{legacy_runs, failed_legacy, fail_each, fail_legacy_input_required_runs}
use symphonika.Store.Runs.{
  update_where, changes, entered, update_run_state, stale_guard, marked_stale,
  cas_run_watchdog_stale, mark_run_watchdog_stale, mark_slot_owned_run_timed_out,
  reassert_run_watchdog_stale, mark_cancel_requested, mark_run_notification_pending,
  claim_run_notifications, claim_each, to_claim, claimed, to_complete, completed,
  complete_run_notifications, complete_each, release_interrupted_run_notifications, is_preparing,
  is_waiting, is_id, to_reassert, reasserted, to_cancel, to_notify, interrupted, released,
  StaleEntry, is_stale, swept, mark_run_stale, mark_runs_stale, with_reason, record_terminal_reason,
}
use symphonika.Store.Runs.Verdicts.{is_open, ids, update_closed, ids-update_where, verdict_is}
use symphonika.Store.Runs.Statements.{
  Statement, mark_stale, time_out, reassert, enter, request_cancel, mark_pending, claim, complete,
  release, record_reason, sweep, fail_legacy, execute, names_run, overwrites,
}

-- An assignment that leaves the key and the terminal reason.
abbrev Benign : (RunRow → RunRow) → Type 0
Benign f = (r : RunRow) → ((f r).id ≡ r.id) × ((f r).terminal_reason ≡ r.terminal_reason)

-- What two lists of rows share: the keys, and the runs with a verdict.
abbrev Keeps : List RunRow → List RunRow → Type 0
Keeps xs ys =
    (ids ys ≡ ids xs) × ((id : String) → any (is_open id) xs ≡ false → any (is_open id) ys ≡ false)

Benign-Keeps :
    (p : RunRow → Bool) (f : RunRow → RunRow) (rows : List RunRow)
    → Benign f
    → Keeps rows (update_where p f rows)
Benign-Keeps p f rows b = (
  ids-update_where p f rows (λ r. (b r).0),
  λ id h. update_closed id p f rows (λ r k. rw ((b r).0, (b r).1) k) h,
)

Keeps-trans : (xs ys zs : List RunRow) → Keeps xs ys → Keeps ys zs → Keeps xs zs
Keeps-trans xs ys zs a b = (b.0 ∙ a.0, λ id h. b.1 id (a.1 id h))

claim_each-Keeps : (names : List String) (rows : List RunRow) → Keeps rows (claim_each names rows).0
unfolding claim_each
claim_each-Keeps [] rows = (refl, λ id h. h)
claim_each-Keeps (name ∷ names) rows =
    Keeps-trans rows (update_where (to_claim name) claimed rows)
      (claim_each names (update_where (to_claim name) claimed rows)).0
      (Benign-Keeps (to_claim name) claimed rows (λ r. (refl, refl)))
      (claim_each-Keeps names (update_where (to_claim name) claimed rows))

complete_each-Keeps :
    (state : Notification) (error : Option String) (names : List String) (rows : List RunRow)
    → Keeps rows (complete_each state error names rows)
complete_each-Keeps state error [] rows = (refl, λ id h. h)
complete_each-Keeps state error (name ∷ names) rows =
    Keeps-trans rows (update_where (to_complete name) (completed state error) rows)
      (complete_each state error names
        (update_where (to_complete name) (completed state error) rows))
      (Benign-Keeps (to_complete name) (completed state error) rows (λ r. (refl, refl)))
      (complete_each-Keeps state error names
        (update_where (to_complete name) (completed state error) rows))

entered-Benign : (state : RunState) (now : String) → Benign (entered state now)
unfolding entered
entered-Benign entering now r = (refl, refl)

update_run_state-Keeps :
    (id : String) (state : RunState) (now : String) (s : Store)
    → Keeps s.runs (update_run_state id state now s).runs
unfolding update_run_state
update_run_state-Keeps id state now s = elim (Bool-cases (is_preparing state)) [
  | inl k ↦ elim (Bool-cases (is_waiting state)) [
    | inl w ↦
        rw (k, w) (Benign-Keeps (is_id id) (entered state now) s.runs (entered-Benign state now))
    | inr w ↦
        rw (k, w) (Benign-Keeps (is_id id) (entered state now) s.runs (entered-Benign state now))
  ]
  | inr k ↦ elim (Bool-cases (is_waiting state)) [
    | inl w ↦
        rw (k, w) (Benign-Keeps (is_id id) (entered state now) s.runs (entered-Benign state now))
    | inr w ↦
        rw (k, w) (Benign-Keeps (is_id id) (entered state now) s.runs (entered-Benign state now))
  ]
]

cas-Keeps :
    (q : Bool) (id : String) (reason : WatchdogReason) (at : String) (g : Option ℕ) (s : Store)
    → Keeps s.runs (cas_run_watchdog_stale q id reason at g s).0.runs
unfolding cas_run_watchdog_stale marked_stale
cas-Keeps q id reason at g s = elim (Bool-cases (changes (stale_guard q id g) s.runs == 0)) [
  | inl k ↦ rw k (marked s)
  | inr k ↦ rw k (marked s)
]
  where
    marked :
        (s : Store)
        → Keeps s.runs (update_where (stale_guard q id g) (marked_stale reason at) s.runs)
    marked s = (
      ids-update_where (stale_guard q id g) (marked_stale reason at) s.runs (λ r. refl),
      λ other h.
          update_closed other (stale_guard q id g) (marked_stale reason at) s.runs
            (λ r k. ground (arith, verdict_is reason)) h,
    )

reassert-Keeps :
    (id : String) (reason : WatchdogReason) (at : String) (s : Store)
    → Keeps s.runs (reassert_run_watchdog_stale id reason at s).0.runs
unfolding reassert_run_watchdog_stale
reassert-Keeps id reason at s = elim (Bool-cases (changes (to_reassert id reason) s.runs == 0)) [
  | inl k ↦ rw k (Benign-Keeps (to_reassert id reason) (reasserted at) s.runs (λ r. (refl, refl)))
  | inr k ↦ rw k (Benign-Keeps (to_reassert id reason) (reasserted at) s.runs (λ r. (refl, refl)))
]

-- The runs whose terminal reason is not overwritten keep a verdict.
abbrev pub KeepsBut : (String → Bool) → List RunRow → List RunRow → Type 0
KeepsBut touched xs ys =
    (ids ys ≡ ids xs)
    × ((id : String)
        → touched id ≡ false
        → any (is_open id) xs ≡ false
        → any (is_open id) ys ≡ false)

always : (touched : String → Bool) (xs ys : List RunRow) → Keeps xs ys → KeepsBut touched xs ys
always touched xs ys k = (k.0, λ id u h. k.1 id h)

update_other :
    (id name : String) (f : RunRow → RunRow) (rows : List RunRow)
    → ((r : RunRow) → (f r).id ≡ r.id)
    → str_eq name id ≡ false
    → any (is_open id) rows ≡ false
    → any (is_open id) (update_where (is_id name) f rows) ≡ false
update_other id name f [] keep n h = refl
update_other id name f (r ∷ rs) keep n h = elim (Bool-cases (is_id name r)) [
  | inl k ↦
      let is : r.id ≡ name = (eq_iff r.id name).0 k in
      rw (k, keep r, is, n) (update_other id name f rs keep n (ground arith))
  | inr k ↦ rw k (ground (arith, update_other id name f rs keep n))
]

update_id-KeepsBut :
    (name : String) (f : RunRow → RunRow) (rows : List RunRow)
    → ((r : RunRow) → (f r).id ≡ r.id)
    → KeepsBut (λ id. str_eq name id) rows (update_where (is_id name) f rows)
update_id-KeepsBut name f rows keep =
    (ids-update_where (is_id name) f rows keep, λ id n h. update_other id name f rows keep n h)

with_reason-id :
    (reason : String) (c : Option FailureClassification) (now : String) (r : RunRow)
    → (with_reason reason c now r).id ≡ r.id
with_reason-id reason none now r = refl
with_reason-id reason (some c) now r = refl

mark_run_stale-runs :
    (e : StaleEntry) (s : Store)
    → (mark_run_stale e s).runs ≡ update_where (is_id e.run_id) (swept e) s.runs
unfolding mark_run_stale
mark_run_stale-runs e s = elim (Bool-cases (is_stale e.previous_state)) [
  | inl k ↦ rw k refl
  | inr k ↦ rw k refl
]

sweep-KeepsBut :
    (es : List StaleEntry) (s : Store)
    → KeepsBut (λ id. names_run id es) s.runs (mark_runs_stale es s).runs
unfolding mark_runs_stale
sweep-KeepsBut [] s = (refl, λ id n h. h)
sweep-KeepsBut (e ∷ es) s =
    let first = update_id-KeepsBut e.run_id (swept e) s.runs (λ r. refl) in
    let rest = sweep-KeepsBut es (mark_run_stale e s) in
    let rows = mark_run_stale-runs e s in
    (
      rest.0 ∙ (ap ids rows ∙ first.0),
      λ id n h. rest.1 id (ground arith) (rw rows (first.1 id (ground arith) h)),
    )

ids-fail_each :
    (at : String → String) (rs : List RunRow) (s : Store)
    → ids (fail_each at rs s).runs ≡ ids s.runs
unfolding fail_each
ids-fail_each at [] s = refl
ids-fail_each at (r ∷ rs) s =
    ids-fail_each at rs _
    ∙ ids-update_where (is_id r.id) (failed_legacy (at r.id)) s.runs (λ x. refl)

claim-Keeps :
    (names : List String) (s : Store) → Keeps s.runs (claim_run_notifications names s).0.runs
unfolding claim_run_notifications
claim-Keeps [] s = (refl, λ id h. h)
claim-Keeps (name ∷ names) s =
    elim (Bool-cases ((claim_each (name ∷ names) s.runs).1 == length (name ∷ names))) [
      | inl k ↦ rw k (claim_each-Keeps (name ∷ names) s.runs)
      | inr k ↦ rw k (refl, λ id h. h)
    ]

pub execute-Keeps :
    (t : Statement) (s : Store) → KeepsBut (λ id. overwrites id t) s.runs (execute t s).0.runs
unfolding execute mark_run_watchdog_stale mark_slot_owned_run_timed_out mark_cancel_requested
    mark_run_notification_pending complete_run_notifications release_interrupted_run_notifications
    record_terminal_reason fail_legacy_input_required_runs
execute-Keeps (mark_stale id reason at generation) s =
    always (λ id. false) _ _ (cas-Keeps true id reason at generation s)
execute-Keeps (time_out id at) s =
    always (λ id. false) _ _ (cas-Keeps false id WatchdogReason.run_timeout at none s)
execute-Keeps (reassert id reason at) s = always (λ id. false) _ _ (reassert-Keeps id reason at s)
execute-Keeps (enter id entering now) s =
    always (λ id. false) _ _ (update_run_state-Keeps id entering now s)
execute-Keeps (request_cancel id reason now) s =
    always (λ id. false) _ _
      (Benign-Keeps (is_id id) (to_cancel reason now) s.runs (λ r. (refl, refl)))
execute-Keeps (mark_pending id) s =
    always (λ id. false) _ _ (Benign-Keeps (is_id id) to_notify s.runs (λ r. (refl, refl)))
execute-Keeps (claim names) s = always (λ id. false) _ _ (claim-Keeps names s)
execute-Keeps (complete names result error) s =
    always (λ id. false) _ _ (complete_each-Keeps result error names s.runs)
execute-Keeps release s =
    always (λ id. false) _ _ (Benign-Keeps interrupted released s.runs (λ r. (refl, refl)))
execute-Keeps (record_reason id reason c now) s =
    update_id-KeepsBut id (with_reason reason c now) s.runs (with_reason-id reason c now)
execute-Keeps (sweep entries) s = sweep-KeepsBut entries s
execute-Keeps (fail_legacy cutoff at) s =
    (ids-fail_each at (legacy_runs cutoff s.runs) s, λ id u h. absurd (ground arith))
