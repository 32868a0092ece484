-- ===== src/Issue/Priority/Sorting.antt =====
-- Sorting by a total and transitive comparison, and the first element that passes a test.
use symphonika.Base.{Bool, true, false, some, List, [], ◌∷◌, ◌≡◌, sym, ◌∙◌, inl, inr, arith}
use symphonika.Base.Tests.{Bool-cases}
use symphonika.Base.Int.{ℤ, pos, leb_ℤ}
use symphonika.Base.Lists.{find, Occurs, here, there, Occurs-under, Occurs-swap}
use symphonika.Issue.Priority.{insert, sort}
use mathlib.Core.Option.{some-injective}

module _ {A : Type 0} (compare : A → A → ℤ)
    (total : (x y : A) → leb_ℤ (compare x y) (pos 0) ≡ false → leb_ℤ (compare y x) (pos 0) ≡ true)
    (trans : (x y z : A)
      → leb_ℤ (compare x y) (pos 0) ≡ true
      → leb_ℤ (compare y z) (pos 0) ≡ true
      → leb_ℤ (compare x z) (pos 0) ≡ true) where
  abbrev pub le : A → A → Bool
  le x y = leb_ℤ (compare x y) (pos 0)

  abbrev pub AllFrom : A → List A → Type 0
  AllFrom x [] = Unit
  AllFrom x (y ∷ ys) = (le x y ≡ true) × AllFrom x ys

  abbrev pub IsSorted : List A → Type 0
  IsSorted [] = Unit
  IsSorted (x ∷ xs) = AllFrom x xs × IsSorted xs

  AllFrom-before : (x y : A) (ys : List A) → le x y ≡ true → AllFrom y ys → AllFrom x ys
  AllFrom-before x y [] h a = tt
  AllFrom-before x y (z ∷ zs) h a = (trans x y z h a.0, AllFrom-before x y zs h a.1)

  AllFrom-insert :
      (x y : A) (ys : List A) → le x y ≡ true → AllFrom x ys → AllFrom x (insert compare y ys)
  AllFrom-insert x y [] h a = (h, tt)
  AllFrom-insert x y (z ∷ zs) h a = elim (Bool-cases (le y z)) [
    | inl k ↦ rw k (h, a)
    | inr k ↦ rw k (a.0, AllFrom-insert x y zs h a.1)
  ]

  insert-IsSorted : (x : A) (xs : List A) → IsSorted xs → IsSorted (insert compare x xs)
  insert-IsSorted x [] s = (tt, tt)
  insert-IsSorted x (y ∷ ys) s = elim (Bool-cases (le x y)) [
    | inl k ↦ rw k ((k, AllFrom-before x y ys k s.0), s)
    | inr k ↦ rw k (AllFrom-insert y x ys (total x y k) s.0, insert-IsSorted x ys s.1)
  ]

  pub sort-IsSorted : (xs : List A) → IsSorted (sort compare xs)
  sort-IsSorted [] = tt
  sort-IsSorted (x ∷ xs) = insert-IsSorted x (sort compare xs) (sort-IsSorted xs)

  AllFrom-Occurs : {y : A} (x : A) (ys : List A) → AllFrom x ys → Occurs y ys → le x y ≡ true
  AllFrom-Occurs x [] a o = elim o [ ]
  AllFrom-Occurs x (_ ∷ ys) a here = a.0
  AllFrom-Occurs x (z ∷ ys) a (there o) = AllFrom-Occurs x ys a.1 o

  -- Of the elements that pass the test, the first of a sorted list comes before each other.
  pub find-first :
      {c d : A} (p : A → Bool) (xs : List A)
      → IsSorted xs
      → find p xs ≡ some c
      → Occurs c xs × (p c ≡ true) × (Occurs d xs → p d ≡ true → le c d ≡ true)
  find-first p [] s h = absurd (cc)
  find-first {c} {d} p (x ∷ xs) s h = elim (Bool-cases (p x)) [
    | inl k ↦
        let same : x ≡ c = some-injective x c (rw k at h) in
        rw (sym same) (here_first {d = d} x xs p k s.0)
    | inr k ↦
        let later = find-first {c = c} {d = d} p xs s.1 (rw k at h) in
        (there later.0, later.1, λ o q. later.2 (not_first x xs p k o q) q)
  ]
    where
      reflexive : (x : A) → le x x ≡ true
      reflexive x = elim (Bool-cases (le x x)) [ inl k ↦ k | inr k ↦ total x x k ]

      first_le : {d : A} (x : A) (xs : List A) → AllFrom x xs → Occurs d (x ∷ xs) → le x d ≡ true
      first_le x xs a here = reflexive x
      first_le x xs a (there o) = AllFrom-Occurs x xs a o

      here_first :
          {d : A} (x : A) (xs : List A) (p : A → Bool)
          → p x ≡ true
          → AllFrom x xs
          → Occurs x (x ∷ xs) × (p x ≡ true) × (Occurs d (x ∷ xs) → p d ≡ true → le x d ≡ true)
      here_first x xs p k a = (here, k, λ o q. first_le x xs a o)

      not_first :
          {d : A} (x : A) (xs : List A) (p : A → Bool)
          → p x ≡ false
          → Occurs d (x ∷ xs)
          → p d ≡ true
          → Occurs d xs
      not_first x xs p k here q = let no : true ≡ false = sym q ∙ k in absurd (ground arith)
      not_first x xs p k (there o) q = o

module _ {A : Type 0} (compare : A → A → ℤ) where
  Occurs-insert : {y : A} (x : A) (xs : List A) → Occurs y (insert compare x xs) → Occurs y (x ∷ xs)
  Occurs-insert x [] o = o
  Occurs-insert x (z ∷ zs) o = elim (Bool-cases (leb_ℤ (compare x z) (pos 0))) [
    | inl k ↦ rw k at o
    | inr k ↦ Occurs-swap (Occurs-under (Occurs-insert x zs) (rw k at o))
  ]

  insert-Occurs : {y : A} (x : A) (xs : List A) → Occurs y (x ∷ xs) → Occurs y (insert compare x xs)
  insert-Occurs x [] o = o
  insert-Occurs x (z ∷ zs) o = elim (Bool-cases (leb_ℤ (compare x z) (pos 0))) [
    | inl k ↦ rw k o
    | inr k ↦ rw k (Occurs-under (insert-Occurs x zs) (Occurs-swap o))
  ]

  pub Occurs-sort : {y : A} (xs : List A) → Occurs y (sort compare xs) → Occurs y xs
  Occurs-sort [] o = o
  Occurs-sort (x ∷ xs) o = Occurs-under (Occurs-sort xs) (Occurs-insert x (sort compare xs) o)

  pub sort-Occurs : {y : A} (xs : List A) → Occurs y xs → Occurs y (sort compare xs)
  sort-Occurs [] o = o
  sort-Occurs (x ∷ xs) o = insert-Occurs x (sort compare xs) (Occurs-under (sort-Occurs xs) o)
