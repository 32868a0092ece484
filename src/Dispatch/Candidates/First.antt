-- ===== src/Dispatch/Candidates/First.antt =====
-- The pick of a project's candidate is the first admissible one in the order of dispatch.
use symphonika.Base.{
  Bool, true, false, Option, none, some, List, [], ◌∷◌, ◌≡◌, refl, sym, ◌∙◌, arith, inl, inr, ◌⊎◌,
}
use symphonika.Base.Tests.{Bool-cases}
use symphonika.Base.Lists.{find, Occurs, here, there}
use symphonika.Issue.{Project}
use symphonika.Issue.Priority.{sort}
use symphonika.Issue.Priority.Sorted.{
  IsCollation, precedes_total, precedes_trans, NotAfter, precedes-NotAfter,
}
use symphonika.Issue.Priority.Sorting.{sort-IsSorted, find-first, Occurs-sort, sort-Occurs}
use symphonika.Dispatch.{Candidate}
use symphonika.Dispatch.Candidates.{
  Facts, Load, not_raw, load_failed, raw, is_admissible, compare_candidates, pick_loaded,
  pick_project_candidate,
}
use symphonika.Dispatch.Candidates.Admission.{
  IsAdmissible, is_admissible-IsAdmissible, IsAdmissible-is_admissible,
}

find-none :
    {A : Type 0} {d : A} (p : A → Bool) (xs : List A) → find p xs ≡ none → Occurs d xs → p d ≡ false
find-none {A = A} p [] h o = elim o [ ]
find-none {A = A} p (x ∷ xs) h o = elim (Bool-cases (p x)) [
  | inl k ↦ let no : some x ≡ none = rw k at h in absurd (cc)
  | inr k ↦ first_or p x xs k (find-none p xs (rw k at h)) o
]
  where
    first_or :
        {d : A} (p : A → Bool) (x : A) (xs : List A)
        → p x ≡ false
        → (Occurs d xs → p d ≡ false)
        → Occurs d (x ∷ xs)
        → p d ≡ false
    first_or p x xs k f here = k
    first_or p x xs k f (there o) = f o

-- What a pick says of the bucket: the picked candidate is in it, admissible, and not after any
-- admissible candidate; without a pick, none is admissible.
abbrev pub Picked : Facts → Project → Load → List Candidate → Option Candidate → Type 0
Picked f project workflow bucket none =
    (d : Candidate) → Occurs d bucket → IsAdmissible f project workflow d → ⊥
Picked f project workflow bucket (some c) =
    Occurs c bucket
    × IsAdmissible f project workflow c
    × ((d : Candidate)
        → Occurs d bucket
        → IsAdmissible f project workflow d
        → NotAfter f.locale_compare c.found.issue d.found.issue)

sorted_pick :
    (f : Facts) (project : Project) (workflow : Load) (bucket : List Candidate)
    (o : Option Candidate)
    → IsCollation f.locale_compare
    → find (is_admissible f project workflow) (sort (compare_candidates f) bucket) ≡ o
    → Picked f project workflow bucket o
sorted_pick f project workflow bucket none c h = λ d o a.
    let refused : is_admissible f project workflow d ≡ false =
      find-none (is_admissible f project workflow) (sort (compare_candidates f) bucket) h
        (sort-Occurs (compare_candidates f) bucket o) in
    let no : true ≡ false = sym (IsAdmissible-is_admissible f project workflow d a) ∙ refused in
    absurd (ground arith)
sorted_pick f project workflow bucket (some p) c h =
    let total = λ (x : Candidate) (y : Candidate).
      precedes_total f.locale_compare c x.found.issue y.found.issue in
    let trans = λ (x : Candidate) (y : Candidate) (z : Candidate).
      precedes_trans f.locale_compare c x.found.issue y.found.issue z.found.issue in
    let sorted = sort-IsSorted (compare_candidates f) total trans bucket in
    let first = λ (d : Candidate).
      find-first (compare_candidates f) total trans {c = p} {d = d}
        (is_admissible f project workflow) (sort (compare_candidates f) bucket) sorted h in
    (
      Occurs-sort (compare_candidates f) bucket (first p).0,
      is_admissible-IsAdmissible f project workflow p (first p).1,
      λ d o a. precedes-NotAfter f.locale_compare p.found.issue d.found.issue (
          (first d).2 (sort-Occurs (compare_candidates f) bucket o)
            (IsAdmissible-is_admissible f project workflow d a)),
    )

-- A project's candidate is picked from its bucket. The picked one is admissible, and against any
-- other admissible one it has the smaller priority, or with the same priority the earlier creation,
-- or with both the same a number that is not greater; without a pick, no candidate of the bucket is
-- admissible, or the workflow could not be loaded. `localeCompare` is a consistent order.
pub picks_first_admissible :
    (f : Facts) (project : Project) (bucket : List Candidate)
    → IsCollation f.locale_compare
    → Picked f project
        (f.load_raw_fsm_workflow project)
        bucket
        (pick_project_candidate f project bucket)
      ⊎ ((f.load_raw_fsm_workflow project ≡ load_failed)
          × (pick_project_candidate f project bucket ≡ none))
unfolding pick_project_candidate pick_loaded
picks_first_admissible f project bucket c = loaded (f.load_raw_fsm_workflow project) refl
  where
    loaded :
        (w : Load)
        → f.load_raw_fsm_workflow project ≡ w
        → Picked f project w bucket (pick_loaded f project w bucket)
          ⊎ ((w ≡ load_failed) × (pick_loaded f project w bucket ≡ none))
    loaded load_failed h = inr (refl, refl)
    loaded not_raw h =
        inl (sorted_pick f project not_raw bucket (pick_loaded f project not_raw bucket) c refl)
    loaded (raw states) h = inl (
        sorted_pick f project (raw states) bucket (pick_loaded f project (raw states) bucket) c
          refl)
