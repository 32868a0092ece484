-- ===== src/Store/Runs/Verdicts.antt =====
-- The watchdog's verdict on a run is written once.
use symphonika.Base.{
  ℕ, Bool, true, false, ◌&&◌, Option, some, String, List, [], ◌∷◌, ◌≡◌, refl, inl, inr, arith,
  str_eq, eq_iff,
}
use symphonika.Base.Tests.{◌==◌, Bool-cases}
use symphonika.Base.Lists.{any, member, Unique}
use symphonika.Store.{WatchdogReason, RunRow}
use symphonika.Store.Runs.{
  update_where, changes, is_id, unclaimed, stale_guard, marked_stale, verdict_text,
}

-- The run's row has no verdict of the watchdog.
abbrev pub is_open : String → RunRow → Bool
is_open id r = is_id id r && unclaimed r.terminal_reason

abbrev pub ids : List RunRow → List String
ids [] = []
ids (r ∷ rs) = r.id ∷ ids rs

pub update_closed :
    (id : String) (p : RunRow → Bool) (f : RunRow → RunRow) (rows : List RunRow)
    → ((r : RunRow) → is_open id r ≡ false → is_open id (f r) ≡ false)
    → any (is_open id) rows ≡ false
    → any (is_open id) (update_where p f rows) ≡ false
update_closed id p f [] keep h = refl
update_closed id p f (r ∷ rs) keep h = ground (arith, keep r, update_closed id p f rs keep)

pub ids-update_where :
    (p : RunRow → Bool) (f : RunRow → RunRow) (rows : List RunRow)
    → ((r : RunRow) → (f r).id ≡ r.id)
    → ids (update_where p f rows) ≡ ids rows
ids-update_where p f [] keep = refl
ids-update_where p f (r ∷ rs) keep = elim (Bool-cases (p r)) [
  | inl k ↦ rw (k, keep r, ids-update_where p f rs keep) refl
  | inr k ↦ rw (k, ids-update_where p f rs keep) refl
]

-- With no open row of the run, no verdict is written.
pub closed-changes :
    (require_running : Bool) (id : String) (generation : Option ℕ) (rows : List RunRow)
    → any (is_open id) rows ≡ false
    → changes (stale_guard require_running id generation) rows ≡ 0
unfolding stale_guard
closed-changes q id g [] h = refl
closed-changes q id g (r ∷ rs) h = ground (arith, closed-changes q id g rs)

pub verdict_is : (reason : WatchdogReason) → unclaimed (some (verdict_text reason)) ≡ false
verdict_is WatchdogReason.no_convergence = refl
verdict_is WatchdogReason.no_progress = refl
verdict_is WatchdogReason.run_timeout = refl

other_closed :
    (id : String) (p : RunRow → Bool) (f : RunRow → RunRow) (rows : List RunRow)
    → ((r : RunRow) → (f r).id ≡ r.id)
    → member id (ids rows) ≡ false
    → any (is_open id) (update_where p f rows) ≡ false
other_closed id p f [] keep h = refl
other_closed id p f (r ∷ rs) keep h = elim (Bool-cases (p r)) [
  | inl k ↦ rw (k, keep r) (ground (arith, other_closed id p f rs keep))
  | inr k ↦ rw k (ground (arith, other_closed id p f rs keep))
]

eq_text : (s t : String) → str_eq s t ≡ true → s ≡ t
eq_text s t h = ground (arith, eq_iff s t)

guard_id :
    (require_running : Bool) (id : String) (generation : Option ℕ) (r : RunRow)
    → stale_guard require_running id generation r ≡ true
    → r.id ≡ id
unfolding stale_guard
guard_id q id g r h = ground (arith, eq_iff r.id id)

absent-changes :
    (require_running : Bool) (id : String) (generation : Option ℕ) (rows : List RunRow)
    → member id (ids rows) ≡ false
    → changes (stale_guard require_running id generation) rows ≡ 0
unfolding stale_guard
absent-changes q id g [] h = refl
absent-changes q id g (r ∷ rs) h = ground (arith, absent-changes q id g rs)

-- Where a verdict is written, the run has no open row after it.
pub written-closed :
    (require_running : Bool) (id : String) (reason : WatchdogReason) (at : String)
    (generation : Option ℕ) (rows : List RunRow)
    → Unique (ids rows)
    → (changes (stale_guard require_running id generation) rows == 0) ≡ false
    → any
        (is_open id)
        (update_where (stale_guard require_running id generation) (marked_stale reason at) rows)
      ≡ false
unfolding marked_stale
written-closed q id reason at g [] u h = absurd (ground arith)
written-closed q id reason at g (r ∷ rs) u h = elim (Bool-cases (stale_guard q id g r)) [
  | inl k ↦
      let same : r.id ≡ id = guard_id q id g r k in
      let rest =
        other_closed id (stale_guard q id g) (marked_stale reason at) rs (λ x. refl)
          (rw same at u.0) in
      rw k (ground (arith, verdict_is reason, rest))
  | inr k ↦ elim (Bool-cases (is_id id r)) [
    | inl same ↦
        let none_left = absent-changes q id g rs (rw (eq_text r.id id same) at u.0) in
        absurd (ground (arith, none_left))
    | inr other ↦ rw (k, other) (written-closed q id reason at g rs u.1 (rw k at h))
  ]
]
