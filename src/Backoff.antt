-- ===== src/Backoff.antt =====
-- src/github-backoff-ledger.ts, with rateLimitedTokens, backoffUntil and resolveEnvBackedValue of
-- src/issue-polling.ts: the windows in which a credential is not used for polling. The clock's
-- answer to a call is an argument.
pub mod Window
pub mod Lapse
use symphonika.Base.{
  ℕ, ◌+◌, Bool, true, false, ◌||◌, not, Option, none, some, String, ◌<>◌, List, [], ◌∷◌, ◌++◌,
  str_eq,
}
use symphonika.Base.Tests.{if◌then◌else◌, leb}
use symphonika.Base.Lists.{add}
use symphonika.Base.Maps.{Dict, lookup, put, delete}
use symphonika.Base.Texts.{lower_case, json_text}
use symphonika.Issue.{Repository, Tracker}
use symphonika.Reconcile.{variable_name, non_empty}
use Prim.Native.String.{[] as ε, ◌∷◌ as ◌◂◌}
use text.Mathlib.Text.{starts_with}

-- PollReport
pub record PollReport : Type 0 where
  pub error : Option String
  pub name : String
  pub ok : Bool
  pub repository : Repository

-- The fields of `PollingProjectConfig` that are read here.
pub record Polled : Type 0 where
  pub name : String
  pub tracker : Tracker

-- `untilByToken`
abbrev pub Ledger : Type 0
Ledger = Dict ℕ

unfoldable pub resolve_env_backed_value : String → Dict String → Option String
resolve_env_backed_value input env = elim (variable_name input) [
  | none ↦ none
  | some name ↦ non_empty (lookup name env)
]

abbrev pub includes : String → String → Bool
includes needle ε = starts_with ε needle
includes needle (c ◂ s) = starts_with (c ◂ s) needle || includes needle s

-- `/rate limit|abuse detection/i`
unfoldable pub is_rate_limit_error : String → Bool
is_rate_limit_error message =
    includes "rate limit" (lower_case message) || includes "abuse detection" (lower_case message)

unfoldable pub project_poll_identity_key : String → Repository → String
project_poll_identity_key name repository =
    "["
    <> json_text name
    <> ","
    <> json_text (lower_case repository.owner)
    <> ","
    <> json_text (lower_case repository.repo)
    <> "]"

pub backoff_until : ℕ → ℕ
backoff_until now = now + 300000

abbrev pub or_nil : Option (List Polled) → List Polled
or_nil none = []
or_nil (some ps) = ps

-- The first loop of `rateLimitedTokens`.
pub by_identity : List Polled → Dict (List Polled) → Dict (List Polled)
by_identity [] d = d
by_identity (p ∷ ps) d =
    let key = project_poll_identity_key p.name p.tracker.repository in
    by_identity ps (put key (or_nil (lookup key d) ++ p ∷ []) d)

abbrev pub add_resolved : Option String → List String → List String
add_resolved none tokens = tokens
add_resolved (some token) tokens = add token tokens

pub add_tokens : Dict String → List Polled → List String → List String
add_tokens env [] tokens = tokens
add_tokens env (p ∷ ps) tokens =
    add_tokens env ps (add_resolved (resolve_env_backed_value p.tracker.token env) tokens)

abbrev pub is_limited : Option String → Bool
is_limited none = false
is_limited (some message) = is_rate_limit_error message

pub tokens_of : Dict String → Dict (List Polled) → List PollReport → List String → List String
unfolding add_tokens
tokens_of env d [] tokens = tokens
tokens_of env d (r ∷ rs) tokens =
    let found = or_nil (lookup (project_poll_identity_key r.name r.repository) d) in
    tokens_of env d rs (if is_limited r.error then add_tokens env found tokens else tokens)

pub rate_limited_tokens : List PollReport → List Polled → Dict String → List String
unfolding by_identity tokens_of
rate_limited_tokens reports projects env = tokens_of env (by_identity projects []) reports []

abbrev pub active_at : ℕ → String → Ledger → Option ℕ → Ledger × Bool
active_at now token l none = (l, false)
active_at now token l (some until) = if leb until now then (delete token l, false) else (l, true)

-- `isActive`, with the ledger that it leaves.
pub is_active : ℕ → String → Ledger → Ledger × Bool
is_active now token l = active_at now token l (lookup token l)

abbrev pub pollable_with : ℕ → Ledger → Option String → Ledger × Bool
pollable_with now l none = (l, true)
pollable_with now l (some token) =
    let (after, active) = is_active now token l in (after, not active)

-- `isPollableAt`
pub is_pollable : Dict String → Polled → ℕ → Ledger → Ledger × Bool
unfolding is_active resolve_env_backed_value
is_pollable env p now l = pollable_with now l (resolve_env_backed_value p.tracker.token env)

pub pollable : Dict String → List Polled → ℕ → Ledger → Ledger × List Polled
unfolding is_pollable
pollable env [] now l = (l, [])
pollable env (p ∷ ps) now l =
    let (after, ok) = is_pollable env p now l in
    let (last, rest) = pollable env ps now after in (last, if ok then p ∷ rest else rest)

-- The loop of `engage`, and the tokens whose window it warns of.
pub engage_each : ℕ → List String → Ledger → Ledger × List String
unfolding is_active backoff_until
engage_each now [] l = (l, [])
engage_each now (token ∷ tokens) l =
    let (after, was_active) = is_active now token l in
    let (last, warned) = engage_each now tokens (put token (backoff_until now) after) in
    (last, if was_active then warned else token ∷ warned)

pub engage : Dict String → List PollReport → List Polled → ℕ → Ledger → Ledger × List String
unfolding engage_each rate_limited_tokens
engage env reports polled now l = engage_each now (rate_limited_tokens reports polled env) l
