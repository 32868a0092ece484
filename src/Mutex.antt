-- ===== src/Mutex.antt =====
-- src/lifecycle/async-mutex.ts: a first-in-first-out mutex. A waiter is a name for the `resolve` of
-- its promise; `acquire` and `release` return the waiter that they let in, if any.
pub mod Fifo
use symphonika.Base.{ℕ, Bool, true, false, Option, none, some, List, [], ◌∷◌, ◌++◌}
use symphonika.Base.Tests.{if◌then◌else◌}

pub record Mutex : Type 0 where
  pub waiters : List ℕ
  pub locked : Bool

abbrev pub create : Mutex
create = record { waiters = []; locked = false }

pub acquire : Mutex → ℕ → Mutex × Option ℕ
acquire m waiter =
    if m.locked
    then (record m { waiters = m.waiters ++ waiter ∷ [] }, none)
    else (record m { locked = true }, some waiter)

pub release : Mutex → Mutex × Option ℕ
release m = elim m.waiters [
  | [] ↦ (record m { locked = false }, none)
  | next ∷ rest ↦ (record m { waiters = rest }, some next)
]

pub try_acquire : Mutex → Mutex × Bool
try_acquire m = if m.locked then (m, false) else (record m { locked = true }, true)
