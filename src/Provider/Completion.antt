-- ===== src/Provider/Completion.antt =====
-- src/providers/provider-completion.ts: the first event of each type decides, in a fixed order.
pub mod CleanExit
use symphonika.Base.{
  ℕ, zero, suc, Bool, true, false, Option, none, some, String, ◌<>◌, List, [], ◌∷◌, str_eq,
}
use symphonika.Base.Tests.{if◌then◌else◌}
use symphonika.Base.Lists.{find}
use symphonika.Base.Decimal.{decimal}
use symphonika.Base.Json.{Event, get, is_true, string_field, as_number}

pub data Grade : Type 0 where
  deterministic transient : Grade

pub data Completion : Type 0 where
  clean_exit : Completion
  cancelled : String → Completion
  input_required : String → Completion
  failed : Grade → String → Completion

unfoldable pub first : String → List Event → Option Event
first type events = find (λ (e : Event). str_eq e.type type) events

abbrev or_else : Option String → String → String
or_else none d = d
or_else (some s) d = s

abbrev message_or : Event → String → String
message_or e d = or_else (string_field e.fields "message") d

-- What a `process_exit` event says; `with_tail` appends the end of the provider's stderr to a text.
unfoldable pub classify_exit : (String → String) → Event → Completion
classify_exit with_tail exit =
    if is_true (get "cancelled" exit.fields)
    then cancelled "provider_cancelled"
    else (elim (as_number (get "exitCode" exit.fields)) [
      | some zero ↦ clean_exit
      | some (suc n) ↦ failed transient (with_tail ("process_exit_" <> decimal (suc n)))
      | none ↦ failed transient (
          with_tail
            ("process_exit_signal_" <> or_else (string_field exit.fields "signal") "unknown"))
    ])

-- classifyProviderCompletion
unfoldable pub classify_provider_completion : (String → String) → List Event → Completion
unfolding classify_exit
classify_provider_completion with_tail events = elim (first "input_required" events) [
  | some e ↦ input_required (message_or e "provider requested input")
  | none ↦ elim (first "malformed_event" events) [
    | some e ↦ failed deterministic "malformed_provider_event"
    | none ↦ elim (first "turn_failed" events) [
      | some e ↦ failed transient (message_or e "turn_failed")
      | none ↦ elim (first "process_exit" events) [
        | none ↦ failed transient (with_tail "no_process_exit_event")
        | some e ↦ classify_exit with_tail e
      ]
    ]
  ]
]
