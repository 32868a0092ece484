-- ===== src/Dispatch/Scheduler/Choice.antt =====
-- The chosen entry has the largest next weight.
use symphonika.Base.{ℕ, zero, suc, ◌+◌, ◌≤◌, ◌<◌, List, [], ◌∷◌, ◌≡◌, refl, ◌⊎◌, inl, inr, arith}
use symphonika.Base.Tests.{Bool-cases}
use symphonika.Base.Int.{ℤ, pos, pos_part, neg_part, ltb_ℤ, +ℤ_parts}
use symphonika.Dispatch.Scheduler.{Entry, next_weight, total_weight, select_from, select}

abbrev pub ◌≤ℤ◌ : ℤ → ℤ → Type 0
a ≤ℤ b = pos_part a + neg_part b ≤ pos_part b + neg_part a

infix 50 ◌≤ℤ◌
-- Each next weight is at most the integer.
abbrev pub AllAtMost : ℤ → List Entry → Type 0
AllAtMost m [] = Unit
AllAtMost m (e ∷ es) = (next_weight e ≤ℤ m) × AllAtMost m es

-- The next weight at a position.
abbrev pub At : ℕ → List Entry → ℤ → Type 0
At k [] m = ⊥
At zero (e ∷ es) m = next_weight e ≡ m
At (suc k) (e ∷ es) m = At k es m

abbrev pub Chosen : ℕ → ℤ → ℕ → ℕ → List Entry → Type 0
Chosen selected best i r es =
    ((r ≡ selected) × AllAtMost best es)
    ⊎ ((k : ℕ) × (m : ℤ) × (r ≡ i + k) × At k es m × (best ≤ℤ m) × AllAtMost m es)

select_from-Chosen :
    (selected : ℕ) (best : ℤ) (i : ℕ) (es : List Entry)
    → Chosen selected best i (select_from selected best i es) es
unfolding select_from
select_from-Chosen selected best i [] = inl (refl, tt)
select_from-Chosen selected best i (e ∷ es) = elim (Bool-cases (ltb_ℤ best (next_weight e))) [
  | inl t ↦ rw t (elim (select_from-Chosen i (next_weight e) (suc i) es) [
    | inl (r, below) ↦
        inr (0, next_weight e, omega (arith, r), refl, ground arith, (omega arith, below))
    | inr (k, m, r, place, above, below) ↦
        inr (suc k, m, omega (arith, r), place, ground arith, (above, below))
  ])
  | inr t ↦ rw t (elim (select_from-Chosen selected best (suc i) es) [
    | inl (r, below) ↦ inl (r, (ground arith, below))
    | inr (k, m, r, place, above, below) ↦
        inr (suc k, m, omega (arith, r), place, above, (ground arith, below))
  ])
]

unfoldable pub sum_pos : List Entry → ℕ
sum_pos [] = 0
sum_pos (e ∷ es) = pos_part e.current_weight + sum_pos es

unfoldable pub sum_neg : List Entry → ℕ
sum_neg [] = 0
sum_neg (e ∷ es) = neg_part e.current_weight + sum_neg es

-- The projects together: the current weights sum up to zero.
abbrev pub Balanced : List Entry → Type 0
Balanced es = sum_pos es ≡ sum_neg es

-- If no next weight is positive, then neither is the sum of the current weights and the total.
AllAtMost-zero :
    (m : ℤ) (es : List Entry)
    → pos_part m ≡ 0
    → AllAtMost m es
    → sum_pos es + total_weight es ≤ sum_neg es
unfolding sum_pos sum_neg total_weight next_weight
AllAtMost-zero m [] z a = omega arith
AllAtMost-zero m (e ∷ es) z a =
    omega (arith, +ℤ_parts e.current_weight (pos e.weight), a.0, AllAtMost-zero m es z a.1)

-- The chosen entry: its place, with a next weight that is positive and at least each other's.
abbrev pub Best : List Entry → Type 0
Best es = (k : ℕ) × (m : ℤ) × (select es ≡ k) × At k es m × (0 < pos_part m) × AllAtMost m es

positive :
    (m : ℤ) (es : List Entry) → AllAtMost m es → Balanced es → 0 < total_weight es → 0 < pos_part m
positive m es a b h = elim (zero_or_positive (pos_part m)) [
  | inl z ↦ absurd (omega (arith, AllAtMost-zero m es z a, b, h))
  | inr p ↦ p
]
  where
    zero_or_positive : (n : ℕ) → (n ≡ 0) ⊎ (0 < n)
    zero_or_positive zero = inl refl
    zero_or_positive (suc n) = inr (omega arith)

pub select-Best : (es : List Entry) → Balanced es → 0 < total_weight es → Best es
unfolding select total_weight
select-Best [] b h = absurd (omega (arith, h))
select-Best (e ∷ es) b h = elim (select_from-Chosen 0 (next_weight e) 1 es) [
  | inl (r, below) ↦
      let all : AllAtMost (next_weight e) (e ∷ es) = (omega arith, below) in
      (0, next_weight e, r, refl, positive (next_weight e) (e ∷ es) all b h, all)
  | inr (k, m, r, place, above, below) ↦
      let all : AllAtMost m (e ∷ es) = (above, below) in
      (suc k, m, omega (arith, r), place, positive m (e ∷ es) all b h, all)
]
