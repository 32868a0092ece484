-- ===== src/Watchdog/Events/Tokens.antt =====
-- The running total of output tokens.
use symphonika.Base.{ℕ, ◌+◌, ◌≤◌, max, none, some, List, [], ◌∷◌, ◌++◌, ◌≡◌, refl, arith}
use symphonika.Base.Json.{Event, Fields, object_field}
use symphonika.Base.{eq_iff}
use symphonika.Watchdog.Events.{
  cumulative_output_tokens, per_message_output_tokens, count_event, output_tokens_total,
}

le-count_event : (t : ℕ) (e : Event) → t ≤ count_event t e
unfolding count_event
le-count_event t e = ground arith

-- The total never falls, and reading the log in two parts, the second from the total of the first,
-- counts the same as reading it whole.
output_tokens_total_parts :
    (t : ℕ) (es fs : List Event)
    → (t ≤ output_tokens_total t es)
      × (output_tokens_total t (es ++ fs) ≡ output_tokens_total (output_tokens_total t es) fs)
unfolding output_tokens_total
output_tokens_total_parts t [] fs = (omega arith, refl)
output_tokens_total_parts t (e ∷ es) fs =
    let (le, eq) = output_tokens_total_parts (count_event t e) es fs in
    (omega (arith, le-count_event t e), eq)

-- The usage that an event reports, if it reports one.
abbrev pub Reports : Event → Fields → Type 0
Reports e usage = (e.type ≡ "usage_updated") × (object_field e.fields "tokenUsage" ≡ some usage)

-- Each event reports one message's tokens, as Claude and Oh My Pi do.
abbrev pub PerMessage : List Event → List ℕ → Type 0
PerMessage [] [] = Unit
PerMessage [] (n ∷ ns) = ⊥
PerMessage (e ∷ es) [] = ⊥
PerMessage (e ∷ es) (n ∷ ns) =
    (usage : Fields) × Reports e usage
    × (cumulative_output_tokens usage ≡ none)
    × (per_message_output_tokens usage ≡ some n)
    × PerMessage es ns

-- Each event reports a running total, as Codex does.
abbrev pub Running : List Event → List ℕ → Type 0
Running [] [] = Unit
Running [] (n ∷ ns) = ⊥
Running (e ∷ es) [] = ⊥
Running (e ∷ es) (n ∷ ns) =
    (usage : Fields) × Reports e usage × (cumulative_output_tokens usage ≡ some n) × Running es ns

abbrev pub sum : List ℕ → ℕ
sum [] = 0
sum (n ∷ ns) = n + sum ns

abbrev pub maximum : List ℕ → ℕ
maximum [] = 0
maximum (n ∷ ns) = max n (maximum ns)

step_per_message :
    (t n : ℕ) (e : Event) (usage : Fields)
    → Reports e usage
    → cumulative_output_tokens usage ≡ none
    → per_message_output_tokens usage ≡ some n
    → count_event t e ≡ t + n
unfolding count_event
step_per_message t n e usage r c p = ground (arith, eq_iff e.type "usage_updated")

step_running :
    (t n : ℕ) (e : Event) (usage : Fields)
    → Reports e usage
    → cumulative_output_tokens usage ≡ some n
    → count_event t e ≡ max t n
unfolding count_event
step_running t n e usage r c = ground (arith, eq_iff e.type "usage_updated")

-- Where each event reports one message, their counts add up.
output_tokens_total_sum :
    (t : ℕ) (es : List Event) (ns : List ℕ)
    → PerMessage es ns
    → output_tokens_total t es ≡ t + sum ns
unfolding output_tokens_total
output_tokens_total_sum t [] [] h = omega arith
output_tokens_total_sum t [] (n ∷ ns) h = elim h [ ]
output_tokens_total_sum t (e ∷ es) [] h = elim h [ ]
output_tokens_total_sum t (e ∷ es) (n ∷ ns) h =
    rw (step_per_message t n e h.0 h.1 h.2 h.3)
      (omega (arith, output_tokens_total_sum (t + n) es ns h.4))

-- Where each event reports a running total, the largest one counts.
output_tokens_total_max :
    (t : ℕ) (es : List Event) (ns : List ℕ)
    → Running es ns
    → output_tokens_total t es ≡ max t (maximum ns)
unfolding output_tokens_total
output_tokens_total_max t [] [] h = omega arith
output_tokens_total_max t [] (n ∷ ns) h = elim h [ ]
output_tokens_total_max t (e ∷ es) [] h = elim h [ ]
output_tokens_total_max t (e ∷ es) (n ∷ ns) h =
    rw (step_running t n e h.0 h.1 h.2) (omega (arith, output_tokens_total_max (max t n) es ns h.3))
