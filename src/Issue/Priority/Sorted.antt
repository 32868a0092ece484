-- ===== src/Issue/Priority/Sorted.antt =====
-- The order of candidates is a total order if `localeCompare` is consistent, and sorting respects it.
use symphonika.Base.{
  ℕ, zero, suc, ◌<◌, ◌≤◌, ◌⊎◌, inl, inr, Bool, true, false, ◌&&◌, ◌||◌, not, String, ◌≡◌, refl, sym,
  ◌∙◌, arith,
}
use symphonika.Base.Tests.{ltb, leb, ◌==◌, Bool-cases}
use symphonika.Base.Int.{ℤ, pos, negsuc, sub_ℕ, leb_ℤ, ltb_ℤ}
use symphonika.Issue.{IssueSnapshot}
use symphonika.Issue.Priority.{or_else, compare_candidate_issues}

abbrev pub at_most : ℤ → Bool
at_most z = leb_ℤ z (pos 0)

-- A consistent comparison: one text is after another exactly if that one is before it, and the order
-- is transitive.
pub record IsCollation (lc : String → String → ℤ) : Type 0 where
  pub flips : (a b : String) → ltb_ℤ (lc a b) (pos 0) ≡ ltb_ℤ (pos 0) (lc b a)
  pub chains :
      (a b c : String) → at_most (lc a b) ≡ true → at_most (lc b c) ≡ true → at_most (lc a c) ≡ true

abbrev is_zero : ℤ → Bool
is_zero (pos zero) = true
is_zero (pos (suc n)) = false
is_zero (negsuc n) = false

at_most-or_else : (a b : ℤ) → at_most (or_else a b) ≡ (ltb_ℤ a (pos 0) || (is_zero a && at_most b))
at_most-or_else (pos zero) b = ground arith
at_most-or_else (pos (suc n)) b = ground arith
at_most-or_else (negsuc n) b = ground arith

zero_parts : (a : ℤ) → is_zero a ≡ (at_most a && not (ltb_ℤ a (pos 0)))
zero_parts (pos zero) = refl
zero_parts (pos (suc n)) = ground arith
zero_parts (negsuc n) = ground arith

sub_before : (m n : ℕ) → ltb_ℤ (sub_ℕ m n) (pos 0) ≡ ltb m n
sub_before m n = ground arith

sub_at_most : (m n : ℕ) → at_most (sub_ℕ m n) ≡ leb m n
sub_at_most m n = ground arith

-- The first issue does not come after the second.
abbrev pub precedes : (String → String → ℤ) → IssueSnapshot → IssueSnapshot → Bool
precedes lc l r = at_most (compare_candidate_issues lc l r)

-- By priority, then by a comparison that is given by its tests, then by number.
abbrev lex : ℕ → ℕ → Bool → Bool → ℕ → ℕ → Bool
lex p q lt le n m = ltb p q || ((p == q) && (lt || ((le && not lt) && leb n m)))

lex_total :
    (p q n m : ℕ) (lt1 le1 lt2 le2 : Bool)
    → le1 ≡ not lt2
    → le2 ≡ not lt1
    → (le1 || le2) ≡ true
    → lex p q lt1 le1 n m ≡ false
    → lex q p lt2 le2 m n ≡ true
lex_total p q n m lt1 le1 lt2 le2 a b t h = ground arith

lex_trans :
    (p q r i j k : ℕ) (lt1 le1 lt2 le2 lt3 le3 back1 back2 back3 : Bool)
    → back1 ≡ not lt1
    → back2 ≡ not lt2
    → back3 ≡ not lt3
    → (lt1 ≡ true → le1 ≡ true)
    → (lt2 ≡ true → le2 ≡ true)
    → (le1 ≡ true → le2 ≡ true → le3 ≡ true)
    → (le2 ≡ true → back3 ≡ true → back1 ≡ true)
    → (back3 ≡ true → le1 ≡ true → back2 ≡ true)
    → lex p q lt1 le1 i j ≡ true
    → lex q r lt2 le2 j k ≡ true
    → lex p r lt3 le3 i k ≡ true
lex_trans p q r i j k lt1 le1 lt2 le2 lt3 le3 back1 back2 back3 a b c d e f g h u v = ground arith

strictly : (z : ℤ) → ltb_ℤ z (pos 0) ≡ true → at_most z ≡ true
strictly z h = ground arith

lex_cases :
    (p q : ℕ) (lt le : Bool) (n m : ℕ)
    → lex p q lt le n m ≡ true
    → (p < q) ⊎ ((p ≡ q) × ((lt ≡ true) ⊎ ((le ≡ true) × (lt ≡ false) × (n ≤ m))))
lex_cases p q lt le n m h = elim (Bool-cases (ltb p q)) [
  | inl k ↦ inl (ground arith)
  | inr k ↦ inr (
    ground arith,
    elim (Bool-cases lt) [ inl e ↦ inl e | inr e ↦ inr (ground arith, e, ground arith) ],
  )
]

negative : (z : ℤ) → ltb_ℤ z (pos 0) ≡ true → (k : ℕ) × (z ≡ negsuc k)
negative (pos zero) h = absurd (ground arith)
negative (pos (suc n)) h = absurd (ground arith)
negative (negsuc k) h = (k, refl)

neither : (z : ℤ) → at_most z ≡ true → ltb_ℤ z (pos 0) ≡ false → z ≡ pos 0
neither (pos zero) h k = refl
neither (pos (suc n)) h k = absurd (ground arith)
neither (negsuc n) h k = absurd (ground arith)

module _ (lc : String → String → ℤ) where
  abbrev lt : String → String → Bool
  lt a b = ltb_ℤ (lc a b) (pos 0)

  abbrev le : String → String → Bool
  le a b = at_most (lc a b)

  -- The order, spelled out.
  abbrev comes : IssueSnapshot → IssueSnapshot → Bool
  comes l r =
      lex l.priority r.priority (lt l.created_at r.created_at) (le l.created_at r.created_at)
        l.number r.number

  precedes-comes : (l r : IssueSnapshot) → precedes lc l r ≡ comes l r
  unfolding compare_candidate_issues
  precedes-comes l r = ground (
    arith,
    at_most-or_else (sub_ℕ l.priority r.priority)
        (or_else (lc l.created_at r.created_at) (sub_ℕ l.number r.number)),
    at_most-or_else (lc l.created_at r.created_at) (sub_ℕ l.number r.number),
    zero_parts (lc l.created_at r.created_at),
    zero_parts (sub_ℕ l.priority r.priority),
    sub_before l.priority r.priority,
    sub_at_most l.priority r.priority,
    sub_at_most l.number r.number,
  )

  before_flips : (c : IsCollation lc) (a b : String) → le a b ≡ not (lt b a)
  before_flips c a b = let f = c.flips b a in ground arith

  total_texts : (c : IsCollation lc) (a b : String) → (le a b || le b a) ≡ true
  total_texts c a b = let f = c.flips a b in ground arith

  pub precedes_total :
      IsCollation lc → (l r : IssueSnapshot) → precedes lc l r ≡ false → precedes lc r l ≡ true
  precedes_total c l r h =
      precedes-comes r l
      ∙ lex_total l.priority r.priority l.number r.number (lt l.created_at r.created_at)
          (le l.created_at r.created_at) (lt r.created_at l.created_at)
          (le r.created_at l.created_at) (before_flips c l.created_at r.created_at)
          (before_flips c r.created_at l.created_at) (total_texts c l.created_at r.created_at)
          (sym (precedes-comes l r) ∙ h)

  pub precedes_trans :
      IsCollation lc
      → (l m r : IssueSnapshot) → precedes lc l m ≡ true
      → precedes lc m r ≡ true
      → precedes lc l r ≡ true
  precedes_trans c l m r h k =
      let x = l.created_at in
      let y = m.created_at in
      let z = r.created_at in
      precedes-comes l r
      ∙ lex_trans l.priority m.priority r.priority l.number m.number r.number (lt x y) (le x y)
          (lt y z) (le y z) (lt x z) (le x z) (le y x) (le z y) (le z x) (before_flips c y x)
          (before_flips c z y) (before_flips c z x) (strictly (lc x y)) (strictly (lc y z))
          (c.chains x y z) (c.chains y z x) (c.chains z x y) (sym (precedes-comes l m) ∙ h)
          (sym (precedes-comes m r) ∙ k)

  -- The first issue has the smaller priority; or the same and the earlier creation, where
  -- `localeCompare` is negative; or those the same, where it is zero, and no greater number.
  abbrev pub NotAfter : IssueSnapshot → IssueSnapshot → Type 0
  NotAfter l r =
      (l.priority < r.priority)
      ⊎ ((l.priority ≡ r.priority)
          × (((k : ℕ) × (lc l.created_at r.created_at ≡ negsuc k))
              ⊎ ((lc l.created_at r.created_at ≡ pos 0) × (l.number ≤ r.number))))

  pub precedes-NotAfter : (l r : IssueSnapshot) → precedes lc l r ≡ true → NotAfter l r
  precedes-NotAfter l r h =
      let z = lc l.created_at r.created_at in
      elim (lex_cases l.priority r.priority (ltb_ℤ z (pos 0)) (at_most z) l.number r.number
        (sym (precedes-comes l r) ∙ h)) [
          | inl k ↦ inl k
          | inr (k, inl earlier) ↦ inr (k, inl (negative z earlier))
          | inr (k, inr (same, late, order)) ↦ inr (k, inr (neither z same late, order))
        ]
