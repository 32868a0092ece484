-- ===== src/Redaction/Mask.antt =====
-- The masked message against a walk over the message, character by character.
use symphonika.Base.{
  ℕ, zero, suc, ◌+◌, ◌-◌, ◌≤◌, ◌<◌, Bool, true, false, ◌||◌, List, [], ◌∷◌, ◌++◌, ◌≡◌, refl, sym,
  ap, ◌∙◌, arith, inl, inr,
}
use symphonika.Base.Tests.{if◌then◌else◌, ◌==◌, List-cases}
use symphonika.Base.Lists.{length}
use symphonika.Redaction.{
  Text, Span, begins, unique_secret_spans, unique_secrets, secret_spans, take, drop, marker,
  redact_from, redact_unique, redact_all,
}
use symphonika.Redaction.Spans.{covered, Apart}
use symphonika.Redaction.Occurrences.{covered_iff_Exposed, secret_spans-Apart}

-- A span starts at the position.
abbrev pub starts : ℕ → List Span → Bool
starts i [] = false
starts i (s ∷ ss) = s.start == i || starts i ss

-- A marker where a span starts, and each character that no span covers.
pub mask : ℕ → List Span → Text → Text
mask i ss [] = []
mask i ss (c ∷ rest) =
    let shown = c ∷ mask (suc i) ss rest in
    let hidden = mask (suc i) ss rest in
    let from = (if covered i ss then hidden else shown) in
    if starts i ss then marker ++ from else from

-- No span of the list is at or before a position before the first.
Apart-later :
    (n i : ℕ) (ss : List Span) → Apart n ss → i < n → (starts i ss ≡ false) × (covered i ss ≡ false)
Apart-later n i [] a h = (refl, refl)
Apart-later n i (s ∷ ss) a h =
    let later = Apart-later s.end i ss a.2 (omega (arith, a.0, a.1)) in ground arith

mask_past :
    (s : Span) (ss : List Span) (i : ℕ) (rest : Text)
    → s.end ≤ i
    → s.start < i
    → mask i (s ∷ ss) rest ≡ mask i ss rest
unfolding mask
mask_past s ss i [] h k = refl
mask_past s ss i (c ∷ rest) h k =
    let same_start : starts i (s ∷ ss) ≡ starts i ss = ground arith in
    let same_cover : covered i (s ∷ ss) ≡ covered i ss = ground arith in
    rw (same_start, same_cover, mask_past s ss (suc i) rest (omega arith) (omega arith)) refl

mask_skip :
    (n : ℕ) (s : Span) (ss : List Span) (i k : ℕ) (rest : Text)
    → Apart n (s ∷ ss)
    → s.start < i
    → i + k ≡ s.end
    → mask i (s ∷ ss) rest ≡ mask s.end ss (drop k rest)
unfolding mask
mask_skip n s ss i zero rest a h e =
    let same : i ≡ s.end = omega (arith, e) in rw same (mask_past s ss s.end rest (omega arith) a.1)
mask_skip n s ss i (suc k) [] a h e = refl
mask_skip n s ss i (suc k) (c ∷ rest) a h e =
    let away = Apart-later s.end i ss a.2 (omega arith) in
    let no_start : starts i (s ∷ ss) ≡ false = ground arith in
    let cover : covered i (s ∷ ss) ≡ true = ground arith in
    rw (no_start, cover) (mask_skip n s ss (suc i) k rest a (omega arith) (omega arith))

mask_at :
    (n : ℕ) (s : Span) (ss : List Span) (rest : Text)
    → Apart n (s ∷ ss)
    → 0 < length rest
    → mask s.start (s ∷ ss) rest ≡ marker ++ mask s.end ss (drop (s.end - s.start) rest)
unfolding mask
mask_at n s ss [] a h = absurd (omega arith)
mask_at n s ss (c ∷ rest) a h =
    let start : starts s.start (s ∷ ss) ≡ true = ground arith in
    let cover : covered s.start (s ∷ ss) ≡ true = ground (arith, a.1) in
    let count : s.end - s.start ≡ suc (s.end - suc s.start) = omega (arith, a.1) in
    rw (start, cover, count)
      (ap (λ (t : Text). marker ++ t)
        (mask_skip n s ss (suc s.start) (s.end - suc s.start) rest a (omega arith)
          (omega (arith, a.1))))

mask_copy :
    (n : ℕ) (s : Span) (ss : List Span) (k : ℕ) (rest : Text)
    → Apart n (s ∷ ss)
    → n + k ≡ s.start
    → mask n (s ∷ ss) rest ≡ take k rest ++ mask s.start (s ∷ ss) (drop k rest)
unfolding mask
mask_copy n s ss zero rest a e = let same : n ≡ s.start = omega (arith, e) in rw same refl
mask_copy n s ss (suc k) [] a e = refl
mask_copy n s ss (suc k) (c ∷ rest) a e =
    let away = Apart-later s.start n (s ∷ ss) (omega arith, a.1, a.2) (omega arith) in
    rw (away.0, away.1)
      (ap (λ (t : Text). c ∷ t)
        (mask_copy (suc n) s ss k rest (omega arith, a.1, a.2) (omega arith)))

drop_add : (m n : ℕ) (t : Text) → drop n (drop m t) ≡ drop (m + n) t
drop_add zero n t = let e : 0 + n ≡ n = omega arith in rw e refl
drop_add (suc m) n t =
    let e : suc m + n ≡ suc (m + n) = omega arith in rw e (under (drop_add m) t n)
  where
    nothing : (k : ℕ) → drop k [] ≡ []
    nothing zero = refl
    nothing (suc k) = refl

    under :
        ((n : ℕ) (t : Text) → drop n (drop m t) ≡ drop (m + n) t)
        → (t : Text) (n : ℕ) → drop n (drop (suc m) t) ≡ drop (suc (m + n)) t
    under step [] n = nothing n
    under step (c ∷ t) n = step n t

length-drop : (n : ℕ) (t : Text) → length (drop n t) ≡ length t - n
length-drop zero t = omega arith
length-drop (suc n) [] = omega arith
length-drop (suc n) (c ∷ t) = omega (arith, length-drop n t)

mask_nothing : (i : ℕ) (rest : Text) → mask i [] rest ≡ rest
unfolding mask
mask_nothing i [] = refl
mask_nothing i (c ∷ rest) = ap (λ (t : Text). c ∷ t) (mask_nothing (suc i) rest)

-- Each span starts in the text.
abbrev Starting : ℕ → List Span → Type 0
Starting n [] = Unit
Starting n (s ∷ ss) = (s.start < n) × Starting n ss

redact_from-mask :
    (message : Text) (n : ℕ) (ss : List Span)
    → Apart n ss
    → Starting (length message) ss
    → redact_from message n ss ≡ mask n ss (drop n message)
unfolding redact_from
redact_from-mask message n [] a l = sym (mask_nothing n (drop n message))
redact_from-mask message n (s ∷ ss) a l =
    let k = s.start - n in
    let e : n + k ≡ s.start = omega (arith, a.0) in
    let here_text : drop k (drop n message) ≡ drop s.start message =
      rw (drop_add n k message, e) refl in
    let back : s.start + (s.end - s.start) ≡ s.end = omega (arith, a.1) in
    let end_text : drop (s.end - s.start) (drop s.start message) ≡ drop s.end message =
      rw (drop_add s.start (s.end - s.start) message, back) refl in
    let some_left : 0 < length (drop s.start message) =
      omega (arith, l.0, length-drop s.start message) in
    rw
      (
        mask_copy n s ss k (drop n message) a e,
        here_text,
        mask_at n s ss (drop s.start message) a some_left,
        end_text,
        redact_from-mask message s.end ss a.2 l.1,
      )
      refl

begins-length : (s rest : Text) → begins s rest ≡ true → length s ≤ length rest
unfolding begins
begins-length [] rest h = omega arith
begins-length (c ∷ s) [] h = ground arith
begins-length (c ∷ s) (d ∷ rest) h = ground (arith, begins-length s rest)

start_below :
    (s m : Text) (i j : ℕ) → begins s (drop j m) ≡ true → j ≤ i → i < j + length s → i < length m
start_below s m i j b h k = omega (arith, begins-length s (drop j m) b, length-drop j m)

all-Starting :
    (m : Text) (n : ℕ) (ss : List Span)
    → ((i : ℕ) → covered i ss ≡ true → i < length m)
    → Apart n ss
    → Starting (length m) ss
all-Starting m n [] f a = tt
all-Starting m n (s ∷ ss) f a =
    (f s.start (ground (arith, a.1)), all-Starting m s.end ss (λ i h. f i (ground (arith, h))) a.2)

secret_spans-Starting :
    (m : Text) (secrets : List Text) → Starting (length m) (secret_spans m secrets)
secret_spans-Starting m secrets =
    all-Starting m 0 (secret_spans m secrets)
      (λ i h.
        let x = (covered_iff_Exposed m secrets i).0 h in
        start_below x.0 m i x.3.0 x.3.1 (omega (arith, x.3.2)) (omega (arith, x.3.3)))
      (secret_spans-Apart m secrets)

redact_unique-from :
    (message : Text) (secrets : List Text)
    → redact_unique message secrets ≡ redact_from message 0 (unique_secret_spans message secrets)
unfolding redact_from redact_unique
redact_unique-from message secrets = elim (List-cases (unique_secret_spans message secrets)) [
  | inl e ↦ rw (e, redact_unique) refl
  | inr (s, ss, e) ↦ rw (e, redact_unique) refl
]

-- The masked message is the message walked once: a marker stands where a span starts, a character
-- that a span covers is left out, and each other character stays, in its order.
pub redact_all-mask :
    (message : Text) (secrets : List Text)
    → redact_all message secrets ≡ mask 0 (secret_spans message secrets) message
unfolding redact_all secret_spans
redact_all-mask message secrets =
    redact_unique-from message (unique_secrets secrets)
    ∙ redact_from-mask message 0 (secret_spans message secrets) (secret_spans-Apart message secrets)
        (secret_spans-Starting message secrets)
