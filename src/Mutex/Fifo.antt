-- ===== src/Mutex/Fifo.antt =====
-- The mutex under every sequence of calls in which only a holder releases.
use symphonika.Base.{
  ℕ, suc, ◌+◌, Bool, true, false, Option, none, some, List, [], ◌∷◌, ◌++◌, ◌≡◌, refl, arith, inl,
  inr,
}
use mathlib.Core.List.{append_assoc, append-nil}
use symphonika.Base.Tests.{if◌then◌else◌, Bool-cases, List-cases}
use symphonika.Base.Lists.{length, length-append}
use symphonika.Mutex.{Mutex, create, acquire, release, try_acquire}

pub data Call : Type 0 where
  acquires : ℕ → Call
  tries : ℕ → Call
  releases : Call

-- The mutex, the waiters that asked for it and got in line or in, those let in, and the releases.
pub record History : Type 0 where
  pub mutex : Mutex
  pub asked : List ℕ
  pub granted : List ℕ
  pub released : ℕ

abbrev pub begin : History
begin = record { mutex = create; asked = []; granted = []; released = 0 }

abbrev grant : List ℕ → Option ℕ → List ℕ
grant gs none = gs
grant gs (some w) = gs ++ w ∷ []

abbrev after_try : History → ℕ → Mutex × Bool → History
after_try h w (m, true) = record h {
  mutex = m;
  asked = h.asked ++ w ∷ [];
  granted = h.granted ++ w ∷ [];
}
after_try h w (m, false) = record h { mutex = m }

-- A release by one who does not hold the mutex is not a call of the program: it is skipped.
unfoldable pub step : History → Call → History
step h (acquires w) =
    let (m, let_in) = acquire h.mutex w in
    record h { mutex = m; asked = h.asked ++ w ∷ []; granted = grant h.granted let_in }
step h (tries w) = after_try h w (try_acquire h.mutex)
step h releases =
    if h.mutex.locked
    then (let (m, let_in) = release h.mutex in
        record h { mutex = m; granted = grant h.granted let_in; released = suc h.released })
    else h

unfoldable pub run : History → List Call → History
run h [] = h
run h (c ∷ cs) = run (step h c) cs

pub record IsFair (h : History) : Type 0 where
  pub in_order : h.asked ≡ h.granted ++ h.mutex.waiters
  pub exclusive : length h.granted ≡ h.released + (if h.mutex.locked then 1 else 0)
  pub no_idle_wait : h.mutex.locked ≡ false → h.mutex.waiters ≡ []

release-IsFair : (h : History) → IsFair h → h.mutex.locked ≡ true → IsFair (step h releases)
unfolding step release
release-IsFair h v q = elim (List-cases h.mutex.waiters) [
  | inl e ↦ ground (arith, append-nil h.granted)
  | inr (w, ws, e) ↦
      ground (arith, append_assoc h.granted (w ∷ []) ws, length-append h.granted (w ∷ []))
]

step-IsFair : (h : History) (c : Call) → IsFair h → IsFair (step h c)
unfolding step acquire release try_acquire
step-IsFair h (acquires w) v = ground (
  arith,
  append_assoc h.granted h.mutex.waiters (w ∷ []),
  append-nil h.granted,
  append-nil (h.granted ++ w ∷ []),
  length-append h.granted (w ∷ []),
)
step-IsFair h (tries w) v = ground (
  arith,
  append-nil h.granted,
  append-nil (h.granted ++ w ∷ []),
  length-append h.granted (w ∷ []),
)
step-IsFair h releases v = elim (Bool-cases h.mutex.locked) [
  | inl q ↦ release-IsFair h v q
  | inr q ↦ simp q v
]

run-IsFair : (h : History) (cs : List Call) → IsFair h → IsFair (run h cs)
unfolding run
run-IsFair h [] v = v
run-IsFair h (c ∷ cs) v = run-IsFair (step h c) cs (step-IsFair h c v)

-- Over every sequence of calls: waiters get the mutex in the order in which they asked, at most one
-- grant is not yet released and the mutex is locked exactly then, and nobody waits for a free one.
pub grants_in_order : (cs : List Call) → IsFair (run begin cs)
grants_in_order cs =
    run-IsFair begin cs
      (record { in_order = refl; exclusive = omega arith; no_idle_wait = λ h. refl })
