-- ===== src/Provider/Completion/CleanExit.antt =====
-- When a provider's process counts as ended cleanly.
use symphonika.Base.{
  ℕ, zero, suc, false, Option, none, some, String, List, [], ◌∷◌, ◌++◌, ◌≡◌, ◌↔◌, refl, sym, ap,
  inl, inr, arith, str_eq, eq_iff,
}
use mathlib.Core.Option.{some-injective}
use symphonika.Base.Tests.{Bool-cases}
use symphonika.Base.Lists.{All}
use symphonika.Base.Json.{Event, get, is_true, as_number}
use symphonika.Provider.Completion.{clean_exit, first, classify_exit, classify_provider_completion}

-- No event has the type.
abbrev pub Without : String → List Event → Type 0
Without type events = All (λ (e : Event). str_eq e.type type ≡ false) events

-- The event has the type, and none before it has.
abbrev pub IsFirst : String → List Event → Event → Type 0
IsFirst type events e =
    (before : List Event) × (after : List Event) × (events ≡ before ++ e ∷ after)
    × Without type before
    × (e.type ≡ type)

abbrev pub IsClean : List Event → Type 0
IsClean events =
    Without "input_required" events
    × Without "malformed_event" events
    × Without "turn_failed" events
    × ((exit : Event) × IsFirst "process_exit" events exit
        × (is_true (get "cancelled" exit.fields) ≡ false)
        × (as_number (get "exitCode" exit.fields) ≡ some 0))

first-Without : (type : String) (es : List Event) → first type es ≡ none → Without type es
unfolding first
first-Without type [] h = tt
first-Without type (e ∷ es) h = elim (Bool-cases (str_eq e.type type)) [
  | inl k ↦ let no : some e ≡ none = rw k at h in absurd (cc)
  | inr k ↦ (k, first-Without type es (rw k at h))
]

Without-first : (type : String) (es : List Event) → Without type es → first type es ≡ none
unfolding first
Without-first type [] h = refl
Without-first type (e ∷ es) h = rw h.0 (Without-first type es h.1)

first-IsFirst :
    (type : String) (es : List Event) (x : Event) → first type es ≡ some x → IsFirst type es x
unfolding first
first-IsFirst type [] x h = absurd (cc)
first-IsFirst type (e ∷ es) x h = elim (Bool-cases (str_eq e.type type)) [
  | inl k ↦
      let same : e ≡ x = some-injective e x (rw k at h) in
      rw (sym same) ([], es, refl, tt, (eq_iff e.type type).0 k)
  | inr k ↦
      let (before, after, eq, none_before, is) = first-IsFirst type es x (rw k at h) in
      (e ∷ before, after, ap (λ (l : List Event). e ∷ l) eq, (k, none_before), is)
]

append-first :
    (type : String) (before after : List Event) (x : Event)
    → Without type before
    → x.type ≡ type
    → first type (before ++ x ∷ after) ≡ some x
unfolding first
append-first type [] after x h is = rw ((eq_iff x.type type).1 is) refl
append-first type (e ∷ es) after x h is = rw h.0 (append-first type es after x h.1 is)

IsFirst-first :
    (type : String) (es : List Event) (x : Event) → IsFirst type es x → first type es ≡ some x
IsFirst-first type es x (before, after, eq, h, is) = rw eq (append-first type before after x h is)

exit_iff :
    (with_tail : String → String) (exit : Event)
    → (classify_exit with_tail exit ≡ clean_exit) ↔ (
        (is_true (get "cancelled" exit.fields) ≡ false)
        × (as_number (get "exitCode" exit.fields) ≡ some 0))
unfolding classify_exit
exit_iff with_tail exit =
    (λ h. forth (as_number (get "exitCode" exit.fields)) refl h, λ h. rw (h.0, h.1))
  where
    forth :
        (code : Option ℕ)
        → as_number (get "exitCode" exit.fields) ≡ code
        → classify_exit with_tail exit ≡ clean_exit
        → (is_true (get "cancelled" exit.fields) ≡ false)
          × (as_number (get "exitCode" exit.fields) ≡ some 0)
    forth none e h = ground arith
    forth (some zero) e h = ground arith
    forth (some (suc n)) e h = ground arith

-- The same with the code's search in place of the events.
Decided : List Event → Type 0
Decided events =
    (first "input_required" events ≡ none)
    × (first "malformed_event" events ≡ none)
    × (first "turn_failed" events ≡ none)
    × ((exit : Event) × (first "process_exit" events ≡ some exit)
        × (is_true (get "cancelled" exit.fields) ≡ false)
        × (as_number (get "exitCode" exit.fields) ≡ some 0))

clean-Decided :
    (with_tail : String → String) (events : List Event) (exit : Option Event)
    → first "process_exit" events ≡ exit
    → classify_provider_completion with_tail events ≡ clean_exit
    → Decided events
unfolding Decided classify_provider_completion classify_exit
clean-Decided with_tail events none e h = ground arith
clean-Decided with_tail events (some exit) e h = ground (arith, exit_iff with_tail exit)

Decided-clean :
    (with_tail : String → String) (events : List Event)
    → Decided events
    → classify_provider_completion with_tail events ≡ clean_exit
unfolding Decided classify_provider_completion classify_exit
Decided-clean with_tail events h = ground (arith, exit_iff with_tail h.3.0)

-- The completion is a clean exit exactly if no event asks for input, is malformed or reports a
-- failed turn, and the first exit event was not cancelled and has exit code 0.
pub clean_exit_iff :
    (with_tail : String → String) (events : List Event)
    → (classify_provider_completion with_tail events ≡ clean_exit) ↔ IsClean events
unfolding Decided
clean_exit_iff with_tail events = (
  λ h.
      let (input, malformed, turn, (exit, is, calm, code)) =
        clean-Decided with_tail events (first "process_exit" events) refl h in
      (
        first-Without "input_required" events input,
        first-Without "malformed_event" events malformed,
        first-Without "turn_failed" events turn,
        (exit, first-IsFirst "process_exit" events exit is, calm, code),
      ),
  λ h.
      let (input, malformed, turn, (exit, is, calm, code)) = h in
      Decided-clean with_tail events (
        Without-first "input_required" events input,
        Without-first "malformed_event" events malformed,
        Without-first "turn_failed" events turn,
        (exit, IsFirst-first "process_exit" events exit is, calm, code),
      ),
)
