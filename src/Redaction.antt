-- ===== src/Redaction.antt =====
-- src/redaction.ts: the spans of a message that any secret covers, and the message without them.
-- A text is the list of its characters, and a position counts characters: UTF-16 finds a text in
-- another only at a character's beginning, so the matches are the source's.
pub mod Occurrences
pub mod Spans
pub mod Mask
use symphonika.Base.{
  ℕ, zero, suc, ◌+◌, ◌-◌, max, String, Bool, true, false, ◌&&◌, ◌||◌, not, Option, none, some, List,
  [], ◌∷◌, ◌++◌,
}
use symphonika.Base.Tests.{if◌then◌else◌, ltb, ◌==◌}
use symphonika.Base.Lists.{length, filter}
use Prim.Native.Char.{Char, code}

abbrev pub Text : Type 0
Text = List Char

-- SecretSpan
pub record Span : Type 0 where
  pub start : ℕ
  pub end : ℕ

pub same : Text → Text → Bool
same [] [] = true
same (c ∷ s) (d ∷ t) = code c == code d && same s t
same _ _ = false

abbrev pub is_empty : Text → Bool
is_empty [] = true
is_empty (c ∷ s) = false

abbrev pub has : Text → List Text → Bool
has s [] = false
has s (t ∷ ts) = same t s || has s ts

-- `new Set(...)`: each text at its first place.
pub distinct : List Text → List Text → List Text
unfolding same
distinct seen [] = []
distinct seen (s ∷ ss) =
    let skipped = distinct seen ss in
    let added = distinct (seen ++ s ∷ []) ss in if has s seen then skipped else s ∷ added

pub unique_secrets : List Text → List Text
unfolding distinct
unique_secrets secrets = filter (λ s. not (is_empty s)) (distinct [] secrets)

-- The text stands at the beginning of the other.
pub begins : Text → Text → Bool
begins [] rest = true
begins (c ∷ s) [] = false
begins (c ∷ s) (d ∷ rest) = code c == code d && begins s rest

-- `message.indexOf(secret, at)`, on the rest of the message from `at` on: the index, and what
-- stands after the first character there.
pub index_of : Text → Text → ℕ → Option (ℕ × Text)
unfolding begins
index_of secret [] at = if begins secret [] then some (at, []) else none
index_of secret (c ∷ rest) at =
    let later = index_of secret rest (suc at) in
    if begins secret (c ∷ rest) then some (at, rest) else later

-- The `while` loop over the occurrences of one secret, with fuel.
pub occurrences : ℕ → Text → Text → ℕ → List Span
unfolding index_of
occurrences zero secret rest at = []
occurrences (suc fuel) secret rest at = elim (index_of secret rest at) [
  | none ↦ []
  | some (i, after) ↦
      record { start = i; end = i + length secret } ∷ occurrences fuel secret after (suc i)
]

-- The message has as many places as characters, and one.
pub all_occurrences : Text → List Text → List Span
unfolding occurrences
all_occurrences message [] = []
all_occurrences message (s ∷ ss) =
    occurrences (suc (length message)) s message 0 ++ all_occurrences message ss

abbrev pub before : Span → Span → Bool
before a b = ltb a.start b.start || (a.start == b.start && ltb a.end b.end)

abbrev pub insert : Span → List Span → List Span
insert s [] = s ∷ []
insert s (t ∷ ts) = let rest = insert s ts in if before s t then s ∷ t ∷ ts else t ∷ rest

-- `Array.prototype.sort` by start, then by end.
pub sort : List Span → List Span
sort [] = []
sort (s ∷ ss) = insert s (sort ss)

-- The loop over the sorted spans, after the first: `previous` is the last merged span.
pub merge_into : Span → List Span → List Span
merge_into previous [] = previous ∷ []
merge_into previous (s ∷ ss) =
    let joined = merge_into (record previous { end = max previous.end s.end }) ss in
    let apart = merge_into s ss in if ltb s.start previous.end then joined else previous ∷ apart

pub merge : List Span → List Span
unfolding merge_into
merge [] = []
merge (s ∷ ss) = merge_into s ss

pub unique_secret_spans : Text → List Text → List Span
unfolding all_occurrences sort merge
unique_secret_spans message secrets = merge (sort (all_occurrences message secrets))

pub secret_spans : Text → List Text → List Span
unfolding unique_secrets unique_secret_spans
secret_spans message secrets = unique_secret_spans message (unique_secrets secrets)

abbrev pub take : ℕ → Text → Text
take zero s = []
take (suc n) [] = []
take (suc n) (c ∷ s) = c ∷ take n s

abbrev pub drop : ℕ → Text → Text
drop zero s = s
drop (suc n) [] = []
drop (suc n) (c ∷ s) = drop n s

abbrev pub marker : Text
marker = "[" ∷ "R" ∷ "E" ∷ "D" ∷ "A" ∷ "C" ∷ "T" ∷ "E" ∷ "D" ∷ "]" ∷ []

-- The loop over the spans, from the cursor on.
pub redact_from : Text → ℕ → List Span → Text
redact_from message cursor [] = drop cursor message
redact_from message cursor (s ∷ ss) =
    take (s.start - cursor) (drop cursor message) ++ (marker ++ redact_from message s.end ss)

pub redact_unique : Text → List Text → Text
unfolding unique_secret_spans redact_from
redact_unique message secrets = elim (unique_secret_spans message secrets) [
  | [] ↦ message
  | s ∷ ss ↦ redact_from message 0 (s ∷ ss)
]

pub redact_all : Text → List Text → Text
unfolding redact_unique unique_secrets
redact_all message secrets = redact_unique message (unique_secrets secrets)
