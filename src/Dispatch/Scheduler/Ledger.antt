-- ===== src/Dispatch/Scheduler/Ledger.antt =====
-- What the current weights record of the picks before.
use symphonika.Base.{
  ℕ, zero, suc, ◌+◌, ◌*◌, ◌<◌, true, false, List, [], ◌∷◌, ◌≡◌, refl, ◌∙◌, ap, arith,
}
use symphonika.Base.Tests.{◌==◌}
use symphonika.Base.Int.{ℤ, pos, negsuc, pos_part, neg_part, +ℤ_parts, -ℤ_parts}
use native.Mathlib.Nat.{suc-mul}
use symphonika.Dispatch.Scheduler.{
  Entry, next_weight, total_weight, select, reweigh, scheduler_weights,
}
use symphonika.Dispatch.Scheduler.Choice.{At, Balanced, sum_pos, sum_neg, select-Best}

-- One more choice of the project at the position.
abbrev pub bump : ℕ → List ℕ → List ℕ
bump i [] = []
bump zero (c ∷ cs) = suc c ∷ cs
bump (suc i) (c ∷ cs) = c ∷ bump i cs

-- How often each project is chosen in a number of picks, each from the weights that the one before
-- it wrote, added to the counts given.
unfoldable pub tally : ℕ → List Entry → List ℕ → List ℕ
tally zero es cs = cs
tally (suc n) es cs = tally n (scheduler_weights es) (bump (select es) cs)

-- After `t` picks with total `w`: a project's current weight is its weight for each pick, less the
-- total for each time it was chosen, and is above minus the total.
abbrev pub Ledger : ℕ → ℕ → List Entry → List ℕ → Type 0
Ledger w t [] [] = Unit
Ledger w t [] (c ∷ cs) = ⊥
Ledger w t (e ∷ es) [] = ⊥
Ledger w t (e ∷ es) (c ∷ cs) =
    (pos_part e.current_weight + c * w ≡ t * e.weight + neg_part e.current_weight)
    × (neg_part e.current_weight < w + pos_part e.current_weight)
    × Ledger w t es cs

next_parts :
    (e : Entry)
    → pos_part (next_weight e) + neg_part e.current_weight
      ≡ neg_part (next_weight e) + pos_part e.current_weight + e.weight
unfolding next_weight
next_parts e = omega (arith, +ℤ_parts e.current_weight (pos e.weight))

small : (a : ℤ) → 0 < pos_part a → neg_part a ≡ 0
small (pos n) h = refl
small (negsuc n) h = absurd (omega arith)

-- The entries after the chosen one.
reweigh_rest :
    (w t r i : ℕ) (es : List Entry) (cs : List ℕ)
    → r < i
    → 0 < w
    → Ledger w t es cs
    → Ledger w (suc t) (reweigh r w i es) cs
unfolding reweigh
reweigh_rest w t r i [] [] h p l = tt
reweigh_rest w t r i [] (c ∷ cs) h p l = absurd l
reweigh_rest w t r i (e ∷ es) [] h p l = absurd l
reweigh_rest w t r i (e ∷ es) (c ∷ cs) h p l =
    let other : (i == r) ≡ false = ground arith in
    rw other (
      omega (arith, next_parts e, suc-mul t e.weight, l.0),
      omega (arith, next_parts e, l.1),
      reweigh_rest w t r (suc i) es cs (omega arith) p l.2,
    )

reweigh-Ledger :
    (w t k r i : ℕ) (m : ℤ) (es : List Entry) (cs : List ℕ)
    → r ≡ i + k
    → 0 < w
    → At k es m
    → 0 < pos_part m
    → Ledger w t es cs
    → Ledger w (suc t) (reweigh r w i es) (bump k cs)
unfolding reweigh
reweigh-Ledger w t k r i m [] cs h p a q l = absurd a
reweigh-Ledger w t k r i m (e ∷ es) [] h p a q l = absurd l
reweigh-Ledger w t zero r i m (e ∷ es) (c ∷ cs) h p a q l =
    let chosen : (i == r) ≡ true = ground arith in
    rw chosen (
      omega (
        arith,
        -ℤ_parts (next_weight e) (pos w),
        next_parts e,
        suc-mul t e.weight,
        suc-mul c w,
        l.0,
      ),
      omega (
        arith,
        -ℤ_parts (next_weight e) (pos w),
        next_parts e,
        ap pos_part a,
        small (next_weight e) (omega (arith, ap pos_part a, q)),
        l.1,
      ),
      reweigh_rest w t r (suc i) es cs (omega (arith, h)) p l.2,
    )
reweigh-Ledger w t (suc k) r i m (e ∷ es) (c ∷ cs) h p a q l =
    let other : (i == r) ≡ false = ground arith in
    rw other (
      omega (arith, next_parts e, suc-mul t e.weight, l.0),
      omega (arith, next_parts e, l.1),
      reweigh-Ledger w t k r (suc i) m es cs (omega (arith, h)) p a q l.2,
    )

reweigh-total : (w r i : ℕ) (es : List Entry) → total_weight (reweigh r w i es) ≡ total_weight es
unfolding reweigh total_weight
reweigh-total w r i [] = refl
reweigh-total w r i (e ∷ es) = omega (arith, reweigh-total w r (suc i) es)

reweigh_rest-sums :
    (w r i : ℕ) (es : List Entry)
    → r < i
    → sum_pos (reweigh r w i es) + sum_neg es
      ≡ sum_neg (reweigh r w i es) + sum_pos es + total_weight es
unfolding reweigh sum_pos sum_neg total_weight
reweigh_rest-sums w r i [] h = omega arith
reweigh_rest-sums w r i (e ∷ es) h =
    let other : (i == r) ≡ false = ground arith in
    rw other (omega (arith, next_parts e, reweigh_rest-sums w r (suc i) es (omega arith)))

reweigh-sums :
    (w k r i : ℕ) (m : ℤ) (es : List Entry)
    → r ≡ i + k
    → At k es m
    → sum_pos (reweigh r w i es) + sum_neg es + w
      ≡ sum_neg (reweigh r w i es) + sum_pos es + total_weight es
unfolding reweigh sum_pos sum_neg total_weight
reweigh-sums w k r i m [] h a = absurd a
reweigh-sums w zero r i m (e ∷ es) h a =
    let chosen : (i == r) ≡ true = ground arith in
    rw chosen (
      omega (
        arith,
        -ℤ_parts (next_weight e) (pos w),
        next_parts e,
        reweigh_rest-sums w r (suc i) es (omega (arith, h)),
      ))
reweigh-sums w (suc k) r i m (e ∷ es) h a =
    let other : (i == r) ≡ false = ground arith in
    rw other (omega (arith, next_parts e, reweigh-sums w k r (suc i) m es (omega (arith, h)) a))

scheduler_weights-Balanced :
    (es : List Entry) → Balanced es → 0 < total_weight es → Balanced (scheduler_weights es)
unfolding scheduler_weights
scheduler_weights-Balanced es b h =
    let (k, m, s, a, p, below) = select-Best es b h in
    omega (arith, reweigh-sums (total_weight es) k (select es) 0 m es (omega (arith, s)) a, b)

unfoldable pub sum : List ℕ → ℕ
sum [] = 0
sum (c ∷ cs) = c + sum cs

sum-bump :
    (w t k : ℕ) (m : ℤ) (es : List Entry) (cs : List ℕ)
    → At k es m
    → Ledger w t es cs
    → sum (bump k cs) ≡ suc (sum cs)
unfolding sum
sum-bump w t k m [] cs a l = absurd a
sum-bump w t k m (e ∷ es) [] a l = absurd l
sum-bump w t zero m (e ∷ es) (c ∷ cs) a l = omega arith
sum-bump w t (suc k) m (e ∷ es) (c ∷ cs) a l = omega (arith, sum-bump w t k m es cs a l.2)

abbrev pub weights : List Entry → List ℕ
weights [] = []
weights (e ∷ es) = e.weight ∷ weights es

weights-reweigh : (w r i : ℕ) (es : List Entry) → weights (reweigh r w i es) ≡ weights es
unfolding reweigh
weights-reweigh w r i [] = refl
weights-reweigh w r i (e ∷ es) = ap (λ (t : List ℕ). e.weight ∷ t) (weights-reweigh w r (suc i) es)

-- No project is chosen more often than its share of the picks, rounded up.
abbrev pub Shared : ℕ → ℕ → List ℕ → List ℕ → Type 0
Shared w t [] [] = Unit
Shared w t [] (c ∷ cs) = ⊥
Shared w t (v ∷ vs) [] = ⊥
Shared w t (v ∷ vs) (c ∷ cs) = (c * w < t * v + w) × Shared w t vs cs

Ledger-Shared :
    (w t : ℕ) (es : List Entry) (cs : List ℕ) → Ledger w t es cs → Shared w t (weights es) cs
Ledger-Shared w t [] [] l = tt
Ledger-Shared w t [] (c ∷ cs) l = absurd l
Ledger-Shared w t (e ∷ es) [] l = absurd l
Ledger-Shared w t (e ∷ es) (c ∷ cs) l = (omega (arith, l.0, l.1), Ledger-Shared w t es cs l.2)

scheduler_weights-total : (es : List Entry) → total_weight (scheduler_weights es) ≡ total_weight es
unfolding scheduler_weights
scheduler_weights-total es = reweigh-total (total_weight es) (select es) 0 es

weights-scheduler_weights : (es : List Entry) → weights (scheduler_weights es) ≡ weights es
unfolding scheduler_weights
weights-scheduler_weights es = weights-reweigh (total_weight es) (select es) 0 es

scheduler_weights-Ledger :
    (t : ℕ) (es : List Entry) (cs : List ℕ)
    → Balanced es
    → 0 < total_weight es
    → Ledger (total_weight es) t es cs
    → Ledger (total_weight es) (suc t) (scheduler_weights es) (bump (select es) cs)
      × (sum (bump (select es) cs) ≡ suc (sum cs))
unfolding scheduler_weights
scheduler_weights-Ledger t es cs b h l =
    let (k, m, chosen, a, p, below) = select-Best es b h in
    rw chosen (
      reweigh-Ledger (total_weight es) t k k 0 m es cs (omega arith) h a p l,
      sum-bump (total_weight es) t k m es cs a l,
    )

pub tally-shares :
    (w n t : ℕ) (es : List Entry) (cs : List ℕ)
    → 0 < w
    → total_weight es ≡ w
    → Balanced es
    → Ledger w t es cs
    → sum cs ≡ t
    → Shared w (t + n) (weights es) (tally n es cs) × (sum (tally n es cs) ≡ t + n)
unfolding tally
tally-shares w zero t es cs h e b l s =
    let same : t + 0 ≡ t = omega arith in rw same (Ledger-Shared w t es cs l, s)
tally-shares w (suc n) t es cs h e b l s =
    let some_weight : 0 < total_weight es = omega (arith, h, e) in
    let same : t + suc n ≡ suc t + n = omega arith in
    let (ledger, count) = scheduler_weights-Ledger t es cs b some_weight (rw e l) in
    let next =
      tally-shares w n (suc t) (scheduler_weights es) (bump (select es) cs) h
        (scheduler_weights-total es ∙ e) (scheduler_weights-Balanced es b some_weight)
        (rw e at ledger) (omega (arith, count, s)) in
    rw same (rw (weights-scheduler_weights es) at next)
