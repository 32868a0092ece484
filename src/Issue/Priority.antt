-- ===== src/Issue/Priority.antt =====
-- src/issue-priority.ts: labels, the priority that they give, and the order of candidates.
-- `localeCompare` belongs to the platform: the order takes it as an argument.
pub mod Sorted
pub mod Sorting
use symphonika.Base.{
  ℕ, zero, suc, ◌+◌, min, Bool, true, false, Option, none, some, String, List, [], ◌∷◌, str_eq,
}
use symphonika.Base.Tests.{if◌then◌else◌, leb}
use symphonika.Base.Int.{ℤ, pos, negsuc, sub_ℕ, leb_ℤ}
use symphonika.Base.Maps.{Dict, lookup}
use symphonika.Issue.{IssueSnapshot}

-- An entry of a raw label array: a text, an object with a text as its name, or anything else.
pub data RawLabel : Type 0 where
  text : String → RawLabel
  named : String → RawLabel
  other : RawLabel

pub normalize_labels : List RawLabel → List String
normalize_labels [] = []
normalize_labels (text t ∷ ls) = t ∷ normalize_labels ls
normalize_labels (named t ∷ ls) = t ∷ normalize_labels ls
normalize_labels (other ∷ ls) = normalize_labels ls

pub record LabelPriorityConfig : Type 0 where
  pub labels : Dict ℕ
  pub default : ℕ

-- The mapped priorities of the labels.
abbrev pub mapped : Dict ℕ → List String → List ℕ
mapped m [] = []
mapped m (l ∷ ls) = elim (lookup l m) [ none ↦ mapped m ls | some p ↦ p ∷ mapped m ls ]

abbrev pub least : ℕ → List ℕ → ℕ
least p [] = p
least p (q ∷ qs) = least (min p q) qs

abbrev pub least_or : ℕ → List ℕ → ℕ
least_or default [] = default
least_or default (p ∷ ps) = least p ps

pub priority_for_labels : List String → LabelPriorityConfig → ℕ
priority_for_labels labels config = least_or config.default (mapped config.labels labels)

-- `a || b` on numbers.
abbrev pub or_else : ℤ → ℤ → ℤ
or_else (pos zero) b = b
or_else (pos (suc n)) b = pos (suc n)
or_else (negsuc n) b = negsuc n

unfoldable pub compare_candidate_issues : (String → String → ℤ) → IssueSnapshot → IssueSnapshot → ℤ
compare_candidate_issues locale_compare left right =
    or_else (sub_ℕ left.priority right.priority)
      (or_else (locale_compare left.created_at right.created_at) (sub_ℕ left.number right.number))

-- `Array.prototype.sort` by a comparison, which is stable.
module _ {A : Type 0} (compare : A → A → ℤ) where
  abbrev pub insert : A → List A → List A
  insert x [] = x ∷ []
  insert x (y ∷ ys) =
      let rest = insert x ys in if leb_ℤ (compare x y) (pos 0) then x ∷ y ∷ ys else y ∷ rest

  abbrev pub sort : List A → List A
  sort [] = []
  sort (x ∷ xs) = insert x (sort xs)

-- A weight that is no positive integer counts as one; the configuration's numbers are integers.
unfoldable pub normalize_project_weight : Option ℤ → ℕ
normalize_project_weight none = 1
normalize_project_weight (some (pos zero)) = 1
normalize_project_weight (some (pos (suc n))) = suc n
normalize_project_weight (some (negsuc n)) = 1

pub sorted_priority_entries : (String → String → ℤ) → Dict ℕ → List (String × ℕ)
sorted_priority_entries locale_compare labels =
    sort (λ (l : String × ℕ) (r : String × ℕ). or_else (sub_ℕ l.1 r.1) (locale_compare l.0 r.0))
      labels
