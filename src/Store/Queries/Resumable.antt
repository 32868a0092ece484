-- ===== src/Store/Queries/Resumable.antt =====
-- At most one run of an issue is there to be resumed after a shutdown.
use symphonika.Base.{
  Bool, true, false, ◌&&◌, sym, str_eq, ◌⊎◌, List, [], ◌∷◌, ◌≡◌, refl, inl, inr, String, arith,
  eq_iff, Option, none, some,
}
use symphonika.Base.Tests.{Bool-cases}
use symphonika.Base.Lists.{
  any, filter, Occurs, here, there, Occurs-under, Occurs-swap, Occurs-filter,
}
use symphonika.Base.Texts.{lower_case}
use symphonika.Base.Order.{precedes, precedes_total}
use symphonika.Run.{RunState, CancelReason}
use symphonika.Store.Runs.{is_shutdown}
use symphonika.Store.{RunRow}
use symphonika.Store.Queries.{
  is_resumable, list_resumable_shutdown_runs, order_by, insert_by, created_before, same_history,
  same_folded, newer, is_cancelled, is_none,
}

module _ (first : RunRow → RunRow → Bool) where
  Occurs-insert_by :
      {x : RunRow} (r : RunRow) (rs : List RunRow)
      → Occurs x (insert_by first r rs)
      → Occurs x (r ∷ rs)
  Occurs-insert_by r [] o = o
  Occurs-insert_by r (n ∷ ns) o = elim (Bool-cases (first n r)) [
    | inl k ↦ Occurs-swap (Occurs-under (Occurs-insert_by r ns) (rw k at o))
    | inr k ↦ rw k at o
  ]

  Occurs-order_by : {x : RunRow} (rs : List RunRow) → Occurs x (order_by first rs) → Occurs x rs
  Occurs-order_by [] o = o
  Occurs-order_by (r ∷ rs) o =
      Occurs-under (Occurs-order_by rs) (Occurs-insert_by r (order_by first rs) o)

any_of :
    {x : RunRow} (p : RunRow → Bool) (rs : List RunRow)
    → Occurs x rs
    → any p rs ≡ false
    → p x ≡ false
any_of p [] o h = elim o [ ]
any_of p (_ ∷ rs) here h = ground arith
any_of p (r ∷ rs) (there o) h = any_of p rs o (ground arith)

not_newer :
    (rows : List RunRow) (n r : RunRow)
    → is_resumable rows r ≡ true
    → Occurs n rows
    → same_history n r ≡ true
    → newer n r ≡ false
unfolding is_resumable
not_newer rows n r h o e =
    let none_newer : any (λ m. same_history m r && newer m r) rows ≡ false = ground arith in
    let this = any_of (λ m. same_history m r && newer m r) rows o none_newer in ground arith

folded_sym : (a b : Option String) → same_folded a b ≡ true → same_folded b a ≡ true
folded_sym none none h = refl
folded_sym none (some b) h = h
folded_sym (some a) none h = h
folded_sym (some a) (some b) h =
    ground (arith, eq_iff (lower_case a) (lower_case b), eq_iff (lower_case b) (lower_case a))

history_sym : (n r : RunRow) → same_history n r ≡ true → same_history r n ≡ true
history_sym n r h = ground (
  arith,
  eq_iff n.project_name r.project_name,
  eq_iff r.project_name n.project_name,
  folded_sym n.issue_owner r.issue_owner,
  folded_sym n.issue_repo r.issue_repo,
)

-- Two texts that differ at most in the case of their letters, or two that are both missing.
abbrev pub Folded : Option String → Option String → Type 0
Folded none none = Unit
Folded (some a) (some b) = lower_case a ≡ lower_case b
Folded _ _ = ⊥

-- The rows are of one project, issue and repository, whatever the case of the repository's name.
pub record IsSameIssue (n r : RunRow) : Type 0 where
  pub project : n.project_name ≡ r.project_name
  pub issue : n.issue_number ≡ r.issue_number
  pub owner : Folded n.issue_owner r.issue_owner
  pub repo : Folded n.issue_repo r.issue_repo

Folded-same : (a b : Option String) → Folded a b → same_folded a b ≡ true
Folded-same none none h = refl
Folded-same none (some b) h = elim h [ ]
Folded-same (some a) none h = elim h [ ]
Folded-same (some a) (some b) h = (eq_iff (lower_case a) (lower_case b)).1 h

IsSameIssue-same : (n r : RunRow) → IsSameIssue n r → same_history n r ≡ true
IsSameIssue-same n r h = ground (
  arith,
  (eq_iff n.project_name r.project_name).1 h.project,
  h.issue,
  Folded-same n.issue_owner r.issue_owner h.owner,
  Folded-same n.issue_repo r.issue_repo h.repo,
)

newest_once :
    (rows : List RunRow) (n r : RunRow)
    → is_resumable rows n ≡ true
    → is_resumable rows r ≡ true
    → Occurs n rows
    → Occurs r rows
    → same_history n r ≡ true
    → n.id ≡ r.id
newest_once rows n r n_ok r_ok n_in r_in e =
    let not_n = not_newer rows n r r_ok n_in e in
    let not_r = not_newer rows r n n_ok r_in (history_sym n r e) in
    let at : n.created_at ≡ r.created_at =
      precedes_total n.created_at r.created_at (ground arith) (ground arith) in
    precedes_total n.id r.id (ground (arith, eq_iff r.created_at n.created_at, at))
      (ground (arith, eq_iff n.created_at r.created_at, at))

-- The other row is not later than the run: not created later, nor at the same time with a later key.
pub record IsNotLater (m n : RunRow) : Type 0 where
  pub not_after : precedes n.created_at m.created_at ≡ false
  pub not_beyond : (n.created_at ≡ m.created_at → ⊥) ⊎ (precedes n.id m.id ≡ false)

not_newer-IsNotLater : (m n : RunRow) → newer m n ≡ false → IsNotLater m n
not_newer-IsNotLater m n h = record {
  not_after = ground arith;
  not_beyond = elim (Bool-cases (str_eq m.created_at n.created_at)) [
    | inl k ↦ inr (ground arith)
    | inr k ↦
        inl (λ e. let no = (eq_iff m.created_at n.created_at).1 (sym e) in absurd (ground arith))
  ];
}

resumable_of :
    (rows : List RunRow) (n : RunRow)
    → is_resumable rows n ≡ true
    → (n.state ≡ RunState.cancelled)
      × (n.cancel_reason ≡ some CancelReason.daemon_shutdown)
      × (n.shutdown_resume_declined_at ≡ none)
unfolding is_resumable
resumable_of rows n h = (
  cancelled n.state (ground arith),
  shutdown n.cancel_reason (ground arith),
  undeclined n.shutdown_resume_declined_at (ground arith),
)
  where
    cancelled : (s : RunState) → is_cancelled s ≡ true → s ≡ RunState.cancelled
    cancelled RunState.cancelled h = refl
    cancelled RunState.queued h = absurd (ground arith)
    cancelled RunState.preparing_workspace h = absurd (ground arith)
    cancelled RunState.running h = absurd (ground arith)
    cancelled RunState.input_required h = absurd (ground arith)
    cancelled RunState.failed h = absurd (ground arith)
    cancelled RunState.blocked h = absurd (ground arith)
    cancelled RunState.succeeded h = absurd (ground arith)
    cancelled RunState.stale h = absurd (ground arith)
    cancelled RunState.waiting h = absurd (ground arith)

    shutdown :
        (c : Option CancelReason) → is_shutdown c ≡ true → c ≡ some CancelReason.daemon_shutdown
    shutdown none h = absurd (ground arith)
    shutdown (some CancelReason.daemon_shutdown) h = refl
    shutdown (some CancelReason.closed_issue) h = absurd (ground arith)
    shutdown (some CancelReason.eligibility_loss) h = absurd (ground arith)
    shutdown (some CancelReason.no_convergence) h = absurd (ground arith)
    shutdown (some CancelReason.no_progress) h = absurd (ground arith)
    shutdown (some CancelReason.operator) h = absurd (ground arith)
    shutdown (some CancelReason.run_timeout) h = absurd (ground arith)

    undeclined : (o : Option String) → is_none o ≡ true → o ≡ none
    undeclined none h = refl
    undeclined (some t) h = absurd (ground arith)

-- A run that waits to be resumed is cancelled by a shutdown and was not declined; no run of the same
-- project, issue and repository, whatever the case of the repository's name, is later; and none
-- with another key also waits to be resumed.
pub resumable_unique :
    (rows : List RunRow) (n m : RunRow)
    → Occurs n (list_resumable_shutdown_runs rows)
    → Occurs m rows
    → IsSameIssue m n
    → ((n.state ≡ RunState.cancelled)
        × (n.cancel_reason ≡ some CancelReason.daemon_shutdown)
        × (n.shutdown_resume_declined_at ≡ none))
      × IsNotLater m n
      × ((m.id ≡ n.id) ⊎ (Occurs m (list_resumable_shutdown_runs rows) → ⊥))
unfolding list_resumable_shutdown_runs
resumable_unique rows n m o m_in same =
    let e = IsSameIssue-same m n same in
    let (n_in, n_ok) =
      Occurs-filter (is_resumable rows) rows
        (Occurs-order_by created_before (filter (is_resumable rows) rows) o) in
    (
      resumable_of rows n n_ok,
      not_newer-IsNotLater m n (not_newer rows m n n_ok m_in e),
      elim (Bool-cases (str_eq m.id n.id)) [
        | inl k ↦ inl ((eq_iff m.id n.id).0 k)
        | inr k ↦ inr (λ p.
            let m_ok =
              (Occurs-filter (is_resumable rows) rows
                (Occurs-order_by created_before (filter (is_resumable rows) rows) p)).1 in
            let is = (eq_iff m.id n.id).1 (newest_once rows m n m_ok n_ok m_in n_in e) in
            absurd (ground arith))
      ],
    )
