-- ===== src/Dispatch/Scheduler/Shares.antt =====
-- How often the scheduler chooses each project, when the same projects stay dispatchable.
use symphonika.Base.{
  ℕ, zero, suc, ◌+◌, ◌*◌, ◌≤◌, ◌<◌, List, [], ◌∷◌, ◌≡◌, refl, sym, ◌⊎◌, inl, inr, ap, arith,
}
use symphonika.Base.Int.{pos, pos_part, neg_part}
use native.Mathlib.Nat.{suc-mul, mul_comm, lt_of_mul-lt-mul_right}
use symphonika.Dispatch.Scheduler.{Entry, total_weight}
use symphonika.Dispatch.Scheduler.Choice.{Balanced, sum_pos, sum_neg}
use symphonika.Dispatch.Scheduler.Ledger.{tally, Ledger, sum, weights, Shared, tally-shares}

-- Each project as it is first seen: at the weight zero.
abbrev pub Fresh : List Entry → Type 0
Fresh [] = Unit
Fresh (e ∷ es) = (e.current_weight ≡ pos 0) × Fresh es

abbrev pub zeros : List Entry → List ℕ
zeros [] = []
zeros (e ∷ es) = 0 ∷ zeros es

Fresh-Balanced : (es : List Entry) → Fresh es → Balanced es
unfolding sum_pos sum_neg
Fresh-Balanced [] f = refl
Fresh-Balanced (e ∷ es) f = omega (arith, ap pos_part f.0, ap neg_part f.0, Fresh-Balanced es f.1)

Fresh-Ledger : (w : ℕ) (es : List Entry) → 0 < w → Fresh es → Ledger w 0 es (zeros es)
Fresh-Ledger w [] h f = tt
Fresh-Ledger w (e ∷ es) h f = (
  ground (arith, ap pos_part f.0, ap neg_part f.0),
  omega (arith, ap neg_part f.0),
  Fresh-Ledger w es h f.1,
)

sum-zeros : (es : List Entry) → sum (zeros es) ≡ 0
unfolding sum
sum-zeros [] = refl
sum-zeros (e ∷ es) = omega (arith, sum-zeros es)

total-weights : (es : List Entry) → total_weight es ≡ sum (weights es)
unfolding sum total_weight
total-weights [] = refl
total-weights (e ∷ es) = omega (arith, total-weights es)

-- In any number of picks, the scheduler chooses no project more often than its share of the picks
-- by weight, rounded up: c * total < picks * weight + total for the count c.
pub tally-Shared :
    (n : ℕ) (es : List Entry)
    → Fresh es
    → 0 < total_weight es
    → Shared (total_weight es) n (weights es) (tally n es (zeros es))
tally-Shared n es f h =
    let same : 0 + n ≡ n = omega arith in
    rw same at
      (tally-shares (total_weight es) n 0 es (zeros es) h refl (Fresh-Balanced es f)
        (Fresh-Ledger (total_weight es) es h f) (sum-zeros es)).0

share_bound : (c v w : ℕ) → 0 < w → c * w < w * v + w → c ≤ v
share_bound c v w h k =
    let below : c * w < suc v * w = omega (arith, k, suc-mul v w, mul_comm v w) in
    omega (arith, lt_of_mul-lt-mul_right w below)

exact :
    (w : ℕ) (vs cs : List ℕ)
    → 0 < w
    → Shared w w vs cs
    → (sum cs ≤ sum vs) × (sum cs ≡ sum vs → cs ≡ vs)
unfolding sum
exact w [] [] h s = (omega arith, λ e. refl)
exact w [] (c ∷ cs) h s = absurd s
exact w (v ∷ vs) [] h s = absurd s
exact w (v ∷ vs) (c ∷ cs) h s =
    let (most, rest) = exact w vs cs h s.1 in
    let bound = share_bound c v w h s.0 in
    (
      omega (arith, bound, most),
      λ e.
          let head : c ≡ v = omega (arith, e, bound, most) in
          let tail : cs ≡ vs = rest (omega (arith, e, bound, most)) in rw (head, tail) refl,
    )

no_weights : (es : List Entry) → total_weight es ≡ 0 → zeros es ≡ weights es
unfolding total_weight
no_weights [] z = refl
no_weights (e ∷ es) z =
    let head : 0 ≡ e.weight = omega (arith, z) in
    rw (sym head, no_weights es (omega (arith, z))) refl

-- From the weight zero, a round of as many picks as the total weight chooses each project exactly
-- as often as its weight says, if the same projects stay dispatchable.
pub tally_round : (es : List Entry) → Fresh es → tally (total_weight es) es (zeros es) ≡ weights es
unfolding tally
tally_round es f = elim (zero_or_more (total_weight es)) [
  | inl z ↦ rw z (no_weights es z)
  | inr h ↦
      let counted =
        (tally-shares (total_weight es) (total_weight es) 0 es (zeros es) h refl
          (Fresh-Balanced es f) (Fresh-Ledger (total_weight es) es h f) (sum-zeros es)).1 in
      (exact (total_weight es) (weights es) (tally (total_weight es) es (zeros es)) h
          (tally-Shared (total_weight es) es f h)).1
        (omega (arith, counted, total-weights es))
]
  where
    zero_or_more : (n : ℕ) → (n ≡ 0) ⊎ (0 < n)
    zero_or_more zero = inl refl
    zero_or_more (suc n) = inr (omega arith)
