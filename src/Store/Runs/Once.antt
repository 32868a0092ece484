-- ===== src/Store/Runs/Once.antt =====
-- Between two verdicts of the watchdog on a run another statement has overwritten the first.
use symphonika.Base.{
  ℕ, suc, ◌≤◌, Bool, true, false, ◌&&◌, Option, none, String, List, [], ◌∷◌, ◌≡◌, refl, sym, ◌∙◌,
  inl, inr, arith, str_eq, eq_iff,
}
use symphonika.Base.Tests.{◌==◌, Bool-cases}
use symphonika.Base.Lists.{any, Unique}
use symphonika.Store.{WatchdogReason, Store}
use symphonika.Store.Runs.{
  changes, stale_guard, cas_run_watchdog_stale, mark_run_watchdog_stale,
  mark_slot_owned_run_timed_out,
}
use symphonika.Store.Runs.Verdicts.{is_open, ids, closed-changes, written-closed}
use symphonika.Store.Runs.Statements.{
  Statement, mark_stale, time_out, reassert, enter, request_cancel, mark_pending, claim, complete,
  release, record_reason, sweep, fail_legacy, execute, judges, overwrites, overwritings,
  verdicts_written,
}
use symphonika.Store.Runs.Keeps.{execute-Keeps}

cas_silent :
    (q : Bool) (id : String) (reason : WatchdogReason) (at : String) (g : Option ℕ) (s : Store)
    → any (is_open id) s.runs ≡ false
    → (cas_run_watchdog_stale q id reason at g s).1 ≡ false
unfolding cas_run_watchdog_stale
cas_silent q id reason at g s h = rw (closed-changes q id g s.runs h) refl

cas_closes :
    (q : Bool) (id : String) (reason : WatchdogReason) (at : String) (g : Option ℕ) (s : Store)
    → Unique (ids s.runs)
    → (cas_run_watchdog_stale q id reason at g s).1 ≡ true
    → any (is_open id) (cas_run_watchdog_stale q id reason at g s).0.runs ≡ false
unfolding cas_run_watchdog_stale
cas_closes q id reason at g s u h = elim (Bool-cases (changes (stale_guard q id g) s.runs == 0)) [
  | inl k ↦ let no : false ≡ true = rw k at h in absurd (ground arith)
  | inr k ↦ rw k (written-closed q id reason at g s.runs u k)
]

-- A run with a verdict gets no other, and one that gets a verdict has one.
closed_silent :
    (id : String) (t : Statement) (s : Store)
    → any (is_open id) s.runs ≡ false
    → (judges id t && (execute t s).1) ≡ false
unfolding execute mark_run_watchdog_stale mark_slot_owned_run_timed_out
closed_silent id (mark_stale name reason at g) s h = elim (Bool-cases (str_eq name id)) [
  | inl k ↦
      let same : name ≡ id = ground (arith, eq_iff name id) in
      rw (k, same, cas_silent true id reason at g s h) refl
  | inr k ↦ rw k refl
]
closed_silent id (time_out name at) s h = elim (Bool-cases (str_eq name id)) [
  | inl k ↦
      let same : name ≡ id = ground (arith, eq_iff name id) in
      rw (k, same, cas_silent false id WatchdogReason.run_timeout at none s h) refl
  | inr k ↦ rw k refl
]
closed_silent id (reassert _ _ _) s h = refl
closed_silent id (enter _ _ _) s h = refl
closed_silent id (request_cancel _ _ _) s h = refl
closed_silent id (mark_pending _) s h = refl
closed_silent id (claim _) s h = refl
closed_silent id (complete _ _ _) s h = refl
closed_silent id release s h = refl
closed_silent id (record_reason _ _ _ _) s h = refl
closed_silent id (sweep _) s h = refl
closed_silent id (fail_legacy _ _) s h = refl

judged_closes :
    (id : String) (t : Statement) (s : Store)
    → Unique (ids s.runs)
    → (judges id t && (execute t s).1) ≡ true
    → any (is_open id) (execute t s).0.runs ≡ false
unfolding execute mark_run_watchdog_stale mark_slot_owned_run_timed_out
judged_closes id (mark_stale name reason at g) s u h = elim (Bool-cases (str_eq name id)) [
  | inl k ↦
      let same : name ≡ id = ground (arith, eq_iff name id) in
      rw same (cas_closes true id reason at g s u (rw (k, same) at h))
  | inr k ↦ let no : false ≡ true = rw k at h in absurd (ground arith)
]
judged_closes id (time_out name at) s u h = elim (Bool-cases (str_eq name id)) [
  | inl k ↦
      let same : name ≡ id = ground (arith, eq_iff name id) in
      rw same (cas_closes false id WatchdogReason.run_timeout at none s u (rw (k, same) at h))
  | inr k ↦ let no : false ≡ true = rw k at h in absurd (ground arith)
]
judged_closes id (reassert _ _ _) s u h = absurd (ground arith)
judged_closes id (enter _ _ _) s u h = absurd (ground arith)
judged_closes id (request_cancel _ _ _) s u h = absurd (ground arith)
judged_closes id (mark_pending _) s u h = absurd (ground arith)
judged_closes id (claim _) s u h = absurd (ground arith)
judged_closes id (complete _ _ _) s u h = absurd (ground arith)
judged_closes id release s u h = absurd (ground arith)
judged_closes id (record_reason _ _ _ _) s u h = absurd (ground arith)
judged_closes id (sweep _) s u h = absurd (ground arith)
judged_closes id (fail_legacy _ _) s u h = absurd (ground arith)

overwrites_silent :
    (id : String) (t : Statement) (b : Bool) → overwrites id t ≡ true → (judges id t && b) ≡ false
overwrites_silent id (mark_stale _ _ _ _) b h = absurd (ground arith)
overwrites_silent id (time_out _ _) b h = absurd (ground arith)
overwrites_silent id (reassert _ _ _) b h = refl
overwrites_silent id (enter _ _ _) b h = refl
overwrites_silent id (request_cancel _ _ _) b h = refl
overwrites_silent id (mark_pending _) b h = refl
overwrites_silent id (claim _) b h = refl
overwrites_silent id (complete _ _ _) b h = refl
overwrites_silent id release b h = refl
overwrites_silent id (record_reason _ _ _ _) b h = refl
overwrites_silent id (sweep _) b h = refl
overwrites_silent id (fail_legacy _ _) b h = refl

-- The bound from a run without a verdict, and from one with a verdict.
verdicts-overwritings :
    (id : String) (ts : List Statement) (s : Store)
    → Unique (ids s.runs)
    → (verdicts_written id ts s ≤ suc (overwritings id ts))
      × (any (is_open id) s.runs ≡ false → verdicts_written id ts s ≤ overwritings id ts)
unfolding verdicts_written overwritings
verdicts-overwritings id [] s u = (omega arith, λ c. omega arith)
verdicts-overwritings id (t ∷ ts) s u =
    let keeps = execute-Keeps t s in
    let rest = verdicts-overwritings id ts (execute t s).0 (rw (keeps.0) u) in
    elim (Bool-cases (overwrites id t)) [
      | inl o ↦
          rw (o, overwrites_silent id t (execute t s).1 o)
            (omega (arith, rest.0), λ c. omega (arith, rest.0))
      | inr o ↦ elim (Bool-cases (judges id t && (execute t s).1)) [
        | inl k ↦
            let later = rest.1 (judged_closes id t s u k) in
            rw (o, k)
              (
                omega (arith, later),
                λ c.
                    let no : true ≡ false = sym k ∙ closed_silent id t s c in absurd (ground arith),
              )
        | inr k ↦ rw (o, k) (rest.0, λ c. rest.1 (keeps.1 id o c))
      ]
    ]

-- In a sequence of statements, in any order and number, the verdicts of the watchdog that are written
-- on a run are at most one more than the statements that set its terminal reason without a guard, or
-- may set it so, if the rows' keys differ: a verdict is followed by another only after an
-- overwriting.
pub verdicts_written_once :
    (id : String) (ts : List Statement) (s : Store)
    → Unique (ids s.runs)
    → verdicts_written id ts s ≤ suc (overwritings id ts)
verdicts_written_once id ts s u = (verdicts-overwritings id ts s u).0
