-- ===== src/Capacity.antt =====
-- src/lifecycle/concurrency-capacity.ts: the caps on runs in flight, for the daemon and for each
-- project. An omitted cap is `none`.
pub mod Admission
use symphonika.Base.{ℕ, String, ◌<>◌, Bool, true, false, Option, none, some}
use symphonika.Base.Tests.{if◌then◌else◌, leb}
use symphonika.Base.Decimal.{decimal}

unfoldable pub resolve_project_max_in_flight : Option ℕ → Option ℕ → Option ℕ
resolve_project_max_in_flight (some n) global = some n
resolve_project_max_in_flight none global = global

abbrev pub is_reached : Option ℕ → ℕ → Bool
is_reached none n = false
is_reached (some max) n = leb max n

unfoldable pub is_global_cap_reached : Option ℕ → ℕ → Bool
is_global_cap_reached global in_flight = is_reached global in_flight

unfoldable pub is_project_cap_reached : Option ℕ → ℕ → Option ℕ → Bool
unfolding resolve_project_max_in_flight
is_project_cap_reached configured in_flight global =
    is_reached (resolve_project_max_in_flight configured global) in_flight

pub record Input : Type 0 where
  pub configured_project_max : Option ℕ
  pub global_in_flight : ℕ
  pub global_max : Option ℕ
  pub project_in_flight : ℕ
  pub project_name : String

pub data Scope : Type 0 where
  global project : Scope

pub data Verdict : Type 0 where
  admitted : Verdict
  refused : String → Scope → Verdict

-- A number in a reason; the source only gets there when the cap is defined.
abbrev pub text_of : Option ℕ → String
text_of none = "undefined"
text_of (some n) = decimal n

unfoldable pub evaluate : Input → Verdict
unfolding is_global_cap_reached resolve_project_max_in_flight
evaluate i =
    let resolved = resolve_project_max_in_flight i.configured_project_max i.global_max in
    if is_global_cap_reached i.global_max i.global_in_flight
    then refused ("global max_in_flight (" <> (text_of i.global_max <> ") reached")) global
    else if is_reached resolved i.project_in_flight
    then refused
        ("project "
          <> (i.project_name <> (" max_in_flight (" <> (text_of resolved <> ") reached"))))
        project
    else admitted
