-- ===== src/Watchdog/Events.antt =====
-- What a sample reads from the new events of the normalized log (src/lifecycle/watchdog.ts).
pub mod Tokens
use symphonika.Base.{
  ℕ, ◌+◌, max, String, Bool, true, false, ◌&&◌, not, Option, none, some, List, [], ◌∷◌, str_eq,
}
use symphonika.Base.Tests.{if◌then◌else◌}
use symphonika.Base.Lists.{any, member, add}
use symphonika.Base.Json.{Event, Fields, string_field, object_field, number_field}

-- The set of turn ids, in the order in which they were first seen.
pub collect_turn_ids : List String → List Event → List String
collect_turn_ids seen [] = seen
collect_turn_ids seen (e ∷ es) =
    collect_turn_ids (elim (string_field e.fields "turnId") [ none ↦ seen | some t ↦ add t seen ])
      es

unfoldable pub latest_event_at : Option ℕ → List Event → List String → ℕ → Option ℕ
latest_event_at previous events types sampled_at =
    if any (λ e. member e.type types) events then some sampled_at else previous

abbrev or_next : Option ℕ → Option ℕ → Option ℕ
or_next (some n) o = some n
or_next none o = o

pub cumulative_output_tokens : Fields → Option ℕ
cumulative_output_tokens usage = number_field (object_field usage "total") "outputTokens"

pub per_message_output_tokens : Fields → Option ℕ
per_message_output_tokens usage =
    or_next (number_field (some usage) "outputTokens")
      (or_next (number_field (some usage) "output_tokens") (number_field (some usage) "output"))

-- One round of the loop over the events.
pub count_usage : ℕ → Fields → ℕ
unfolding cumulative_output_tokens per_message_output_tokens
count_usage total usage = elim (cumulative_output_tokens usage) [
  | some cumulative ↦ max total cumulative
  | none ↦ elim (per_message_output_tokens usage) [
    | some increment ↦ total + increment
    | none ↦ total
  ]
]

pub count_event : ℕ → Event → ℕ
unfolding count_usage
count_event total e =
    if str_eq e.type "usage_updated"
    then (elim (object_field e.fields "tokenUsage") [
      | none ↦ total
      | some usage ↦ count_usage total usage
    ])
    else total

unfoldable pub output_tokens_total : ℕ → List Event → ℕ
output_tokens_total previous [] = previous
output_tokens_total previous (e ∷ es) = output_tokens_total (count_event previous e) es
