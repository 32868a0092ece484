-- ===== src/Registry/Reservations.antt =====
-- src/lifecycle/issue-reservations.ts: an issue is reserved while a run is in flight for it or work
-- is scheduled for it.
pub mod Keys
use symphonika.Base.{ℕ, String, Bool, ◌||◌, List, [], ◌∷◌}
use symphonika.Base.Maps.{Dict, put, values}
use symphonika.Registry.InFlight
use symphonika.Registry.InFlight.{IssueKey, issue_key}
use symphonika.Registry.Scheduled

unfoldable pub is_issue_reserved : InFlight.Registry → Scheduled.Registry → String → ℕ → Bool
is_issue_reserved runs work project number =
    InFlight.is_issue_in_flight runs project number
    || Scheduled.is_issue_scheduled work project number

-- The loop `for (const entry of …) keys.set(issueKey(…), entry)`.
abbrev pub set_all : List IssueKey → Dict IssueKey → Dict IssueKey
set_all [] m = m
set_all (k ∷ ks) m = set_all ks (put (issue_key k.project k.number) k m)

pub key_map : InFlight.Registry → Scheduled.Registry → Dict IssueKey
key_map runs work = set_all (Scheduled.issue_keys work) (set_all (InFlight.issue_keys runs) [])

unfoldable pub issue_keys : InFlight.Registry → Scheduled.Registry → List IssueKey
unfolding key_map
issue_keys runs work = values (key_map runs work)
