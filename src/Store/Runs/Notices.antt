-- ===== src/Store/Runs/Notices.antt =====
-- A claim of runs' notifications is all or nothing, and excludes every other.
use symphonika.Base.{
  ◌≤◌, ◌<◌, Bool, true, false, Option, none, some, String, List, [], ◌∷◌, ◌≡◌, ◌⊎◌, refl, sym, ap,
  ◌∙◌, inl, inr, arith, eq_iff,
}
use symphonika.Base.Tests.{if◌then◌else◌, ◌==◌, Bool-cases}
use symphonika.Base.Lists.{length, member, Unique, Occurs, here, there}
use symphonika.Store.{Notification, RunRow, Store}
use symphonika.Store.Runs.{
  update_where, changes, is_id, is_pending, to_claim, claimed, claim_each, claim_run_notifications,
}
use symphonika.Store.Runs.Verdicts.{ids}

-- The notification state of the run.
abbrev pub notice : String → List RunRow → Option Notification
notice id [] = none
notice id (r ∷ rs) =
    let rest = notice id rs in if is_id id r then some r.notification_state else rest

notice_absent :
    (id : String) (rows : List RunRow) → member id (ids rows) ≡ false → notice id rows ≡ none
notice_absent id [] h = refl
notice_absent id (r ∷ rs) h = ground (arith, notice_absent id rs)

absent_changes :
    (id : String) (rows : List RunRow)
    → member id (ids rows) ≡ false
    → changes (to_claim id) rows ≡ 0
absent_changes id [] h = refl
absent_changes id (r ∷ rs) h = ground (arith, absent_changes id rs)

ids-claim :
    (id : String) (rows : List RunRow) → ids (update_where (to_claim id) claimed rows) ≡ ids rows
ids-claim id [] = refl
ids-claim id (r ∷ rs) = elim (Bool-cases (to_claim id r)) [
  | inl k ↦ rw (k, ids-claim id rs) refl
  | inr k ↦ rw (k, ids-claim id rs) refl
]

pending_eq : (n : Notification) → is_pending n ≡ true → n ≡ Notification.pending
pending_eq Notification.skipped h = absurd (ground arith)
pending_eq Notification.pending h = refl
pending_eq Notification.sending h = absurd (ground arith)
pending_eq Notification.sent h = absurd (ground arith)
pending_eq Notification.failed h = absurd (ground arith)

-- One claim changes one row, which is pending before and sending after, or none.
claim_one :
    (id : String) (rows : List RunRow)
    → Unique (ids rows)
    → (changes (to_claim id) rows ≤ 1)
      × (changes (to_claim id) rows ≡ 1
          → (notice id rows ≡ some Notification.pending)
            × (notice id (update_where (to_claim id) claimed rows) ≡ some Notification.sending))
claim_one id [] u = (omega arith, λ e. absurd (ground arith))
claim_one id (r ∷ rs) u = elim (Bool-cases (is_id id r)) [
  | inr k ↦ rw (k, k) (claim_one id rs u.1)
  | inl k ↦
      let same : r.id ≡ id = ground (arith, eq_iff r.id id) in
      let rest = absent_changes id rs (rw same at u.0) in
      elim (Bool-cases (is_pending r.notification_state)) [
        | inl p ↦
            rw (k, p, rest)
              (omega arith, λ e. (ap some (pending_eq r.notification_state p), rw k refl))
        | inr p ↦ rw (k, p, rest) (omega arith, λ e. absurd (ground arith))
      ]
]

-- A run that is pending after a claim was before, and one that is sending stays so.
claim_others :
    (id j : String) (rows : List RunRow)
    → (notice j (update_where (to_claim id) claimed rows) ≡ some Notification.pending
        → notice j rows ≡ some Notification.pending)
      × (notice j rows ≡ some Notification.sending
          → notice j (update_where (to_claim id) claimed rows) ≡ some Notification.sending)
claim_others id j [] = (λ h. h, λ h. h)
claim_others id j (r ∷ rs) =
    let later = claim_others id j rs in
    elim (Bool-cases (to_claim id r)) [
      | inl c ↦ elim (Bool-cases (is_id j r)) [
        | inl k ↦ rw (c, k) (λ h. absurd (not_sending h), λ h. refl)
        | inr k ↦ rw (c, k) later
      ]
      | inr c ↦ elim (Bool-cases (is_id j r)) [
        | inl k ↦ rw (c, k) (λ h. h, λ h. h)
        | inr k ↦ rw (c, k) later
      ]
    ]
  where
    not_sending : some Notification.sending ≡ some Notification.pending → ⊥
    not_sending h = absurd (cc)

abbrev pub InState : Notification → List String → List RunRow → Type 0
InState n [] rows = Unit
InState n (id ∷ names) rows = (notice id rows ≡ some n) × InState n names rows

pending_before :
    (id : String) (names : List String) (rows : List RunRow)
    → InState Notification.pending names (update_where (to_claim id) claimed rows)
    → InState Notification.pending names rows
pending_before id [] rows h = tt
pending_before id (j ∷ names) rows h =
    ((claim_others id j rows).0 h.0, pending_before id names rows h.1)

sending_stays :
    (j : String) (names : List String) (rows : List RunRow)
    → notice j rows ≡ some Notification.sending
    → notice j (claim_each names rows).0 ≡ some Notification.sending
unfolding claim_each
sending_stays j [] rows h = h
sending_stays j (id ∷ names) rows h =
    sending_stays j names (update_where (to_claim id) claimed rows) ((claim_others id j rows).1 h)

claim_each-all :
    (names : List String) (rows : List RunRow)
    → Unique (ids rows)
    → ((claim_each names rows).1 ≤ length names)
      × ((claim_each names rows).1 ≡ length names
          → InState Notification.pending names rows
            × InState Notification.sending names (claim_each names rows).0)
unfolding claim_each
claim_each-all [] rows u = (omega arith, λ e. (tt, tt))
claim_each-all (id ∷ names) rows u =
    let one = claim_one id rows u in
    let after = update_where (to_claim id) claimed rows in
    let rest = claim_each-all names after (rw (ids-claim id rows) u) in
    (
      omega (arith, one.0, rest.0),
      λ e.
          let first = one.1 (omega (arith, e, one.0, rest.0)) in
          let all = rest.1 (omega (arith, e, one.0, rest.0)) in
          (
            (first.0, pending_before id names rows all.0),
            (sending_stays id names after first.1, all.1),
          ),
    )

-- A claim of at least one run finds every run pending and leaves every one sending, or a claim,
-- that of no run included, is refused and changes nothing.
pub claim_all_or_nothing :
    (names : List String) (s : Store)
    → Unique (ids s.runs)
    → (((claim_run_notifications names s).1 ≡ true)
        × (0 < length names)
        × InState Notification.pending names s.runs
        × InState Notification.sending names (claim_run_notifications names s).0.runs)
      ⊎ (claim_run_notifications names s ≡ (s, false))
unfolding claim_run_notifications
claim_all_or_nothing [] s u = inr refl
claim_all_or_nothing (id ∷ names) s u =
    elim (Bool-cases ((claim_each (id ∷ names) s.runs).1 == length (id ∷ names))) [
      | inl k ↦ rw k (
          inl (
            let both = (claim_each-all (id ∷ names) s.runs u).1 (ground arith) in
            (refl, omega arith, both.0, both.1)))
      | inr k ↦ rw k (inr refl)
    ]

pending_of :
    (i : String) (names : List String) (rows : List RunRow) (n : Notification)
    → Occurs i names
    → InState n names rows
    → notice i rows ≡ some n
pending_of i [] rows n o h = elim o [ ]
pending_of i (_ ∷ names) rows n here h = h.0
pending_of i (j ∷ names) rows n (there o) h = pending_of i names rows n o h.1

ids-claim_each :
    (names : List String) (rows : List RunRow) → ids (claim_each names rows).0 ≡ ids rows
unfolding claim_each
ids-claim_each [] rows = refl
ids-claim_each (id ∷ names) rows =
    ids-claim_each names (update_where (to_claim id) claimed rows) ∙ ids-claim id rows

ids-claim_run_notifications :
    (names : List String) (s : Store) → ids (claim_run_notifications names s).0.runs ≡ ids s.runs
unfolding claim_run_notifications
ids-claim_run_notifications [] s = refl
ids-claim_run_notifications (id ∷ names) s =
    elim (Bool-cases ((claim_each (id ∷ names) s.runs).1 == length (id ∷ names))) [
      | inl k ↦ rw k (ids-claim_each (id ∷ names) s.runs)
      | inr k ↦ rw k refl
    ]

-- After a claim that succeeds, a second claim that names one of its runs is refused.
pub claim_excludes :
    (a b : List String) (i : String) (s : Store)
    → Unique (ids s.runs)
    → Occurs i a
    → Occurs i b
    → (claim_run_notifications a s).1 ≡ true
    → (claim_run_notifications b (claim_run_notifications a s).0).1 ≡ false
claim_excludes a b i s u o p h =
    let after = (claim_run_notifications a s).0 in
    elim (claim_all_or_nothing a s u) [
      | inr e ↦
          let no : true ≡ false = sym h ∙ ap (λ (x : Store × Bool). x.1) e in absurd (ground arith)
      | inl (done, some_named, was, sends) ↦
          elim (claim_all_or_nothing b after (rw (ids-claim_run_notifications a s) u)) [
            | inr e ↦ ap (λ (x : Store × Bool). x.1) e
            | inl (again, more_named, pends, later) ↦
                let here_pending = pending_of i b after.runs Notification.pending p pends in
                let here_sending = pending_of i a after.runs Notification.sending o sends in
                absurd (cc)
          ]
    ]
