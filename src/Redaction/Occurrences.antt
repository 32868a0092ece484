-- ===== src/Redaction/Occurrences.antt =====
-- The loop over a secret's occurrences finds each of them, with the fuel that it is given.
use symphonika.Base.{
  ℕ, zero, suc, ◌+◌, ◌≤◌, ◌<◌, Bool, true, false, ◌&&◌, ◌||◌, not, List, [], ◌∷◌, ◌++◌, ◌≡◌, ◌↔◌,
  ◌⊎◌, inl, inr, refl, ◌∙◌, arith,
}
use symphonika.Base.Tests.{◌==◌, Bool-cases, Option-cases}
use symphonika.Base.Lists.{length, filter, Occurs, here, there, Occurs-under, Occurs-append}
use symphonika.Redaction.{
  Text, Span, same, has, is_empty, distinct, begins, index_of, occurrences, all_occurrences,
  unique_secrets, unique_secret_spans, secret_spans, sort, drop,
}
use symphonika.Redaction.Spans.{
  inside, covered, covered-append, covered-sort, covered-merge, sort-Below, merge-Apart, Apart,
  NonEmpty,
}
use Prim.Native.Char.{Char, code}
use text.Mathlib.TextEquality.{codes_equal}

-- A secret with a character, from a place on: some occurrence covers the position.
hits : Text → Text → ℕ → ℕ → Bool
hits secret [] at i = false
hits secret (c ∷ rest) at i =
    (begins secret (c ∷ rest) && inside i (record { start = at; end = at + length secret }))
    || hits secret rest (suc at) i

-- Enough fuel: as much as there are characters left, and one round more.
occurrences-hits :
    (x : Char) (s rest : Text) (at i fuel : ℕ)
    → length rest ≤ fuel
    → covered i (occurrences (suc fuel) (x ∷ s) rest at) ≡ hits (x ∷ s) rest at i
unfolding occurrences index_of hits begins
occurrences-hits x s [] at i fuel h = refl
occurrences-hits x s (c ∷ rest) at i zero h = absurd (omega arith)
occurrences-hits x s (c ∷ rest) at i (suc fuel) h = elim (Bool-cases (begins (x ∷ s) (c ∷ rest))) [
  | inl k ↦
      rw (k, occurrences, index_of) (ground (arith, occurrences-hits x s rest (suc at) i fuel))
  | inr k ↦
      rw (k, occurrences, index_of)
        (ground (arith, occurrences-hits x s rest (suc at) i (suc fuel)))
]

-- An occurrence in the rest of the message that covers the position.
abbrev pub Hit : Text → Text → ℕ → ℕ → Type 0
Hit secret rest at i =
    (j : ℕ) × (begins secret (drop j rest) ≡ true) × (at + j ≤ i) × (i < at + j + length secret)

hits-Hit :
    (x : Char) (s rest : Text) (at i : ℕ) → hits (x ∷ s) rest at i ≡ true → Hit (x ∷ s) rest at i
unfolding hits
hits-Hit x s [] at i h = ground arith
hits-Hit x s (c ∷ rest) at i h =
    elim (Bool-cases
      (begins (x ∷ s) (c ∷ rest) && inside i (record { start = at; end = at + length (x ∷ s) }))) [
        | inl k ↦ (0, ground arith, ground arith, ground arith)
        | inr k ↦
            let later = hits-Hit x s rest (suc at) i (rw (k, hits) at h) in
            (suc later.0, later.1, omega (arith, later.2), omega (arith, later.3))
      ]

Hit-hits :
    (x : Char) (s rest : Text) (at i : ℕ) → Hit (x ∷ s) rest at i → hits (x ∷ s) rest at i ≡ true
unfolding hits begins
Hit-hits x s [] at i (zero, b, p, q) = ground arith
Hit-hits x s [] at i (suc j, b, p, q) = ground arith
Hit-hits x s (c ∷ rest) at i (zero, b, p, q) = ground arith
Hit-hits x s (c ∷ rest) at i (suc j, b, p, q) =
    ground (arith, Hit-hits x s rest (suc at) i (j, b, omega (arith, p), omega (arith, q)))

occurrences-NonEmpty :
    (x : Char) (s rest : Text) (at fuel : ℕ) → NonEmpty (occurrences fuel (x ∷ s) rest at)
unfolding occurrences
occurrences-NonEmpty x s rest at zero = tt
occurrences-NonEmpty x s rest at (suc fuel) = elim (Option-cases (index_of (x ∷ s) rest at)) [
  | inl k ↦ rw (k, occurrences) tt
  | inr ((i, after), k) ↦
      rw (k, occurrences) (omega arith, occurrences-NonEmpty x s after (suc i) fuel)
]

NonEmpty-append : (xs ys : List Span) → NonEmpty xs → NonEmpty ys → NonEmpty (xs ++ ys)
NonEmpty-append [] ys h k = k
NonEmpty-append (x ∷ xs) ys h k = (h.0, NonEmpty-append xs ys h.1 k)

-- No secret is the empty text.
abbrev pub Proper : List Text → Type 0
Proper [] = Unit
Proper (s ∷ ss) = (is_empty s ≡ false) × Proper ss

pub all_occurrences-NonEmpty :
    (message : Text) (ss : List Text) → Proper ss → NonEmpty (all_occurrences message ss)
unfolding all_occurrences
all_occurrences-NonEmpty message [] h = tt
all_occurrences-NonEmpty message ([] ∷ ss) h = ground arith
all_occurrences-NonEmpty message ((x ∷ s) ∷ ss) h =
    NonEmpty-append (occurrences (suc (length message)) (x ∷ s) message 0)
      (all_occurrences message ss) (occurrences-NonEmpty x s message 0 (suc (length message)))
      (all_occurrences-NonEmpty message ss h.1)

-- A secret of the list with an occurrence in the message that covers the position.
abbrev pub Exposed : Text → List Text → ℕ → Type 0
Exposed message ss i = (s : Text) × Occurs s ss × (is_empty s ≡ false) × Hit s message 0 i

Exposed-covered :
    (message : Text) (ss : List Text) (i : ℕ) (s : Text)
    → Occurs s ss
    → is_empty s ≡ false
    → Hit s message 0 i
    → covered i (all_occurrences message ss) ≡ true
unfolding all_occurrences
Exposed-covered message [] i s o e h = elim o [ ]
Exposed-covered message (t ∷ ss) i [] o e h = ground arith
Exposed-covered message (_ ∷ ss) i (x ∷ s) here e h = ground (
  arith,
  Hit-hits x s message 0 i h,
  occurrences-hits x s message 0 i (length message) (omega arith),
  covered-append i (occurrences (suc (length message)) (x ∷ s) message 0)
      (all_occurrences message ss),
)
Exposed-covered message (t ∷ ss) i (x ∷ s) (there o) e h = ground (
  arith,
  Exposed-covered message ss i (x ∷ s) o e h,
  covered-append i (occurrences (suc (length message)) t message 0) (all_occurrences message ss),
)

covered-Exposed :
    (message : Text) (ss : List Text) (i : ℕ)
    → Proper ss
    → covered i (all_occurrences message ss) ≡ true
    → Exposed message ss i
unfolding all_occurrences
covered-Exposed message [] i p h = ground arith
covered-Exposed message ([] ∷ ss) i p h = ground arith
covered-Exposed message ((x ∷ s) ∷ ss) i p h =
    elim (Bool-cases (covered i (occurrences (suc (length message)) (x ∷ s) message 0))) [
      | inl k ↦ (
        x ∷ s,
        here,
        refl,
        hits-Hit x s message 0 i
            (ground (arith, occurrences-hits x s message 0 i (length message) (omega arith))),
      )
      | inr k ↦
          let later = covered-Exposed message ss i p.1 (
            ground (
              arith,
              covered-append i (occurrences (suc (length message)) (x ∷ s) message 0)
                  (all_occurrences message ss),
            )) in
          (later.0, there later.1, later.2, later.3)
    ]

code-eq : (c d : Char) → (code c == code d) ≡ true → c ≡ d
code-eq c d h = codes_equal c d (ground arith)

same-eq : (s t : Text) → same s t ≡ true → s ≡ t
unfolding same
same-eq [] [] h = refl
same-eq [] (d ∷ t) h = ground arith
same-eq (c ∷ s) [] h = ground arith
same-eq (c ∷ s) (d ∷ t) h = ground (arith, code-eq c d, same-eq s t)

has-Occurs : (s : Text) (ts : List Text) → has s ts ≡ true → Occurs s ts
has-Occurs s [] h = ground arith
has-Occurs s (t ∷ ts) h = elim (Bool-cases (same t s)) [
  | inl k ↦ rw (same-eq t s k) here
  | inr k ↦ there (has-Occurs s ts (rw (k, has) at h))
]

-- `Set` keeps each text: one that is in the list or was seen before is in the result or was seen.
distinct_keeps :
    (seen ss : List Text) {s : Text} → Occurs s ss → Occurs s seen ⊎ Occurs s (distinct seen ss)
unfolding distinct
distinct_keeps seen [] o = elim o [ ]
distinct_keeps seen (t ∷ ss) here = elim (Bool-cases (has t seen)) [
  | inl k ↦ inl (has-Occurs t seen k)
  | inr k ↦ inr (rw (k, distinct) here)
]
distinct_keeps seen (t ∷ ss) (there o) = elim (Bool-cases (has t seen)) [
  | inl k ↦ rw (k, distinct) (distinct_keeps seen ss o)
  | inr k ↦ elim (distinct_keeps (seen ++ t ∷ []) ss o) [
    | inr later ↦ inr (rw (k, distinct) (there later))
    | inl known ↦ elim (Occurs-append seen known) [
      | inl old ↦ inl old
      | inr new ↦ inr (rw (k, distinct) (first_one (distinct (seen ++ t ∷ []) ss) new))
    ]
  ]
]
  where
    first_one : {s t : Text} (rest : List Text) → Occurs s (t ∷ []) → Occurs s (t ∷ rest)
    first_one rest here = here
    first_one rest (there o) = elim o [ ]

nowhere : {A : Type 0} {s : Text} → Occurs s [] → A
nowhere o = elim o [ ]

distinct_drops : (seen ss : List Text) {s : Text} → Occurs s (distinct seen ss) → Occurs s ss
unfolding distinct
distinct_drops seen [] o = nowhere o
distinct_drops seen (t ∷ ss) o = elim (Bool-cases (has t seen)) [
  | inl k ↦ there (distinct_drops seen ss (rw (k, distinct) at o))
  | inr k ↦ Occurs-under (distinct_drops (seen ++ t ∷ []) ss) (rw (k, distinct) at o)
]

filter_keeps :
    (ss : List Text) {s : Text}
    → Occurs s ss
    → is_empty s ≡ false
    → Occurs s (filter (λ t. not (is_empty t)) ss)
filter_keeps [] o e = elim o [ ]
filter_keeps (t ∷ ss) here e = rw (e, filter) here
filter_keeps (t ∷ ss) (there o) e = elim (Bool-cases (is_empty t)) [
  | inl k ↦ rw (k, filter) (filter_keeps ss o e)
  | inr k ↦ rw (k, filter) (there (filter_keeps ss o e))
]

filter_drops :
    (ss : List Text) {s : Text} → Occurs s (filter (λ t. not (is_empty t)) ss) → Occurs s ss
filter_drops [] o = elim o [ ]
filter_drops (t ∷ ss) o = elim (Bool-cases (is_empty t)) [
  | inl k ↦ there (filter_drops ss (rw (k, filter) at o))
  | inr k ↦ Occurs-under (filter_drops ss) (rw (k, filter) at o)
]

filter-Proper : (ss : List Text) → Proper (filter (λ t. not (is_empty t)) ss)
filter-Proper [] = tt
filter-Proper (t ∷ ss) = elim (Bool-cases (is_empty t)) [
  | inl k ↦ rw (k, filter) (filter-Proper ss)
  | inr k ↦ rw (k, filter) (k, filter-Proper ss)
]

-- The spans of a message are in order and apart: each begins at or after the end of the one before
-- it, and ends after its begin.
pub secret_spans-Apart :
    (message : Text) (secrets : List Text) → Apart 0 (secret_spans message secrets)
unfolding secret_spans unique_secret_spans unique_secrets
secret_spans-Apart message secrets =
    let ss = filter (λ t. not (is_empty t)) (distinct [] secrets) in
    merge-Apart (sort (all_occurrences message ss)) (
      sort-Below (all_occurrences message ss)
        (all_occurrences-NonEmpty message ss (filter-Proper (distinct [] secrets))))

covered_spans :
    (message : Text) (ss : List Text) (i : ℕ)
    → Proper ss
    → covered i (unique_secret_spans message ss) ≡ covered i (all_occurrences message ss)
unfolding unique_secret_spans
covered_spans message ss i p =
    covered-merge i (sort (all_occurrences message ss))
      (sort-Below (all_occurrences message ss) (all_occurrences-NonEmpty message ss p))
    ∙ covered-sort i (all_occurrences message ss)

-- The spans cover a position exactly if a secret that is not empty occurs in the message over that
-- position, whatever the secrets' order, repetition and overlap.
pub covered_iff_Exposed :
    (message : Text) (secrets : List Text) (i : ℕ)
    → (covered i (secret_spans message secrets) ≡ true) ↔ Exposed message secrets i
unfolding secret_spans unique_secrets
covered_iff_Exposed message secrets i =
    let ss = filter (λ t. not (is_empty t)) (distinct [] secrets) in
    let proper = filter-Proper (distinct [] secrets) in
    (
      λ h.
          let found =
            covered-Exposed message ss i proper (rw (covered_spans message ss i proper) at h) in
          (
            found.0,
            distinct_drops [] secrets (filter_drops (distinct [] secrets) found.1),
            found.2,
            found.3,
          ),
      λ x. rw (covered_spans message ss i proper) (
          Exposed-covered message ss i x.0 (filter_keeps (distinct [] secrets) (kept x.1) x.2) x.2
            x.3),
    )
  where
    kept : {s : Text} → Occurs s secrets → Occurs s (distinct [] secrets)
    kept o = elim (distinct_keeps [] secrets o) [ inl none_seen ↦ elim none_seen [ ] | inr k ↦ k ]
