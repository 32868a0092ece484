-- ===== src/Redaction/Spans.antt =====
-- The spans are in order and apart, and cover just the characters of the secrets' occurrences.
use symphonika.Base.{
  ℕ, ◌≤◌, ◌<◌, max, Bool, false, ◌&&◌, ◌||◌, List, [], ◌∷◌, ◌++◌, ◌≡◌, inl, inr, refl, arith,
}
use symphonika.Base.Tests.{ltb, leb, Bool-cases}
use symphonika.Redaction.{Span, sort, merge, merge_into, insert, before}

-- The position lies in the span, or in one of the spans.
abbrev pub inside : ℕ → Span → Bool
inside i s = leb s.start i && ltb i s.end

abbrev pub covered : ℕ → List Span → Bool
covered i [] = false
covered i (s ∷ ss) = inside i s || covered i ss

pub covered-append :
    (i : ℕ) (xs ys : List Span) → covered i (xs ++ ys) ≡ (covered i xs || covered i ys)
covered-append i [] ys = refl
covered-append i (x ∷ xs) ys = ground (arith, covered-append i xs ys)

covered-insert :
    (i : ℕ) (s : Span) (ss : List Span) → covered i (insert s ss) ≡ (inside i s || covered i ss)
covered-insert i s [] = refl
covered-insert i s (t ∷ ts) = ground (arith, covered-insert i s ts)

pub covered-sort : (i : ℕ) (ss : List Span) → covered i (sort ss) ≡ covered i ss
unfolding sort
covered-sort i [] = refl
covered-sort i (s ∷ ss) = ground (arith, covered-insert i s (sort ss), covered-sort i ss)

-- Sorted by start, each span with a character at least.
abbrev pub Below : ℕ → List Span → Type 0
Below n [] = Unit
Below n (s ∷ ss) = (n ≤ s.start) × (s.start < s.end) × Below s.start ss

abbrev pub NonEmpty : List Span → Type 0
NonEmpty [] = Unit
NonEmpty (s ∷ ss) = (s.start < s.end) × NonEmpty ss

Below-weaken : (m n : ℕ) (ss : List Span) → m ≤ n → Below n ss → Below m ss
Below-weaken m n [] h b = tt
Below-weaken m n (s ∷ ss) h b = (omega (arith, b.0), b.1, b.2)

insert-Below :
    (n : ℕ) (s : Span) (ss : List Span)
    → n ≤ s.start
    → s.start < s.end
    → Below n ss
    → Below n (insert s ss)
insert-Below n s [] h e b = (h, e, tt)
insert-Below n s (t ∷ ts) h e b = elim (Bool-cases (before s t)) [
  | inl k ↦ rw k (h, e, (ground arith, b.1, b.2))
  | inr k ↦ rw k (b.0, b.1, insert-Below t.start s ts (ground arith) e b.2)
]

pub sort-Below : (ss : List Span) → NonEmpty ss → Below 0 (sort ss)
unfolding sort
sort-Below [] h = tt
sort-Below (s ∷ ss) h = insert-Below 0 s (sort ss) (omega arith) h.0 (sort-Below ss h.1)

covered-merge_into :
    (i : ℕ) (p : Span) (ss : List Span)
    → Below p.start ss
    → covered i (merge_into p ss) ≡ (inside i p || covered i ss)
unfolding merge_into
covered-merge_into i p [] b = refl
covered-merge_into i p (s ∷ ss) b = ground (
  arith,
  covered-merge_into i (record p { end = max p.end s.end }) ss
      (Below-weaken p.start s.start ss b.0 b.2),
  covered-merge_into i s ss b.2,
)

pub covered-merge : (i : ℕ) (ss : List Span) → Below 0 ss → covered i (merge ss) ≡ covered i ss
unfolding merge
covered-merge i [] b = refl
covered-merge i (s ∷ ss) b = covered-merge_into i s ss b.2

-- From `n` on: each span ends after it starts and where the next starts at the latest.
abbrev pub Apart : ℕ → List Span → Type 0
Apart n [] = Unit
Apart n (s ∷ ss) = (n ≤ s.start) × (s.start < s.end) × Apart s.end ss

merge_into-Apart :
    (n : ℕ) (p : Span) (ss : List Span)
    → n ≤ p.start
    → p.start < p.end
    → Below p.start ss
    → Apart n (merge_into p ss)
unfolding merge_into
merge_into-Apart n p [] h e b = (h, e, tt)
merge_into-Apart n p (s ∷ ss) h e b = elim (Bool-cases (ltb s.start p.end)) [
  | inl k ↦ rw k (
      merge_into-Apart n (record p { end = max p.end s.end }) ss h (omega (arith, e))
        (Below-weaken p.start s.start ss b.0 b.2))
  | inr k ↦ rw k (h, e, merge_into-Apart p.end s ss (ground arith) b.1 b.2)
]

pub merge-Apart : (ss : List Span) → Below 0 ss → Apart 0 (merge ss)
unfolding merge
merge-Apart [] b = tt
merge-Apart (s ∷ ss) b = merge_into-Apart 0 s ss b.0 b.1 b.2
