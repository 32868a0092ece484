-- ===== src/Workflow/Signals/Coverage.antt =====
-- Every settled observation is among the enumerated ones.
use symphonika.Base.{
  ℕ, zero, suc, Bool, true, false, not, String, List, [], ◌∷◌, ◌++◌, ◌≡◌, refl, arith, str_eq,
}
use symphonika.Base.Tests.{ltb}
use symphonika.Base.Lists.{Occurs, here, there, Occurs-append_left, Occurs-append_right}
use symphonika.Base.Maps.{lookup, lookup-append_same}
use symphonika.Workflow.{PredicateMap, flag, count, str}
use symphonika.Workflow.Signals.{
  Checks, Mergeable, ReviewDecision, Source, project_pull_request_signals, review_signals,
  map_review_decision, merged_signal, mergeable_signal, checks_signal, for_each, one, by_decision,
  unmerged_by_open, unmerged_by_threads, unmerged_by_mergeable, unmerged_cases, merged_by_threads,
  merged_by_mergeable, merged_cases, closed_by_threads, closed_cases,
  enumerate_actionable_pull_request_signals, must_advance_keys, checks_coverage, mergeable_coverage,
  review_decision_coverage, all_checks, all_mergeable, all_decisions, samples,
}

Occurs-for_each :
    {A B : Type 0} {a : A} {b : B} {xs : List A} (f : A → List B)
    → Occurs a xs
    → Occurs b (f a)
    → Occurs b (for_each xs f)
unfolding for_each
Occurs-for_each {xs = []} f k h = elim k [ ]
Occurs-for_each {xs = x ∷ xs} f here h = Occurs-append_left (for_each xs f) h
Occurs-for_each {xs = x ∷ xs} f (there k) h = Occurs-append_right (f x) (Occurs-for_each f k h)

-- A settled observation: finished checks; an open pull request is not merged and has a known
-- mergeability.
abbrev pub settled_pull_request : Bool → Bool → Mergeable → Bool
settled_pull_request true merged Mergeable.unknown = false
settled_pull_request true merged m = not merged
settled_pull_request false merged m = true

abbrev pub finished : Checks → Bool
finished Checks.success = true
finished Checks.failure = true
finished _ = false

in_checks :
    (c : Checks) → finished c ≡ true → Occurs c (must_advance_keys checks_coverage all_checks)
unfolding must_advance_keys checks_coverage
in_checks Checks.success h = here
in_checks Checks.failure h = there here
in_checks Checks.pending h = ground arith
in_checks Checks.unknown h = ground arith

in_decisions :
    (d : ReviewDecision) → Occurs d (must_advance_keys review_decision_coverage all_decisions)
unfolding must_advance_keys review_decision_coverage
in_decisions ReviewDecision.approved = here
in_decisions ReviewDecision.changes_requested = there here
in_decisions ReviewDecision.commented = there (there here)
in_decisions ReviewDecision.review_required = there (there (there here))
in_decisions ReviewDecision.unknown = there (there (there (there here)))

in_mergeable : (m : Mergeable) → Occurs m all_mergeable
in_mergeable Mergeable.mergeable = here
in_mergeable Mergeable.conflicting = there here
in_mergeable Mergeable.unknown = there (there here)

abbrev sample : ℕ → ℕ
sample zero = 0
sample (suc n) = 1

in_samples : (n : ℕ) → Occurs (sample n) samples
in_samples zero = there here
in_samples (suc n) = here

in_booleans : (b : Bool) → Occurs b (true ∷ false ∷ [])
in_booleans true = here
in_booleans false = there here

-- The observation with the sampled number of threads.
abbrev sampled : Source → Source
sampled s = record s { unresolved_review_threads = sample s.unresolved_review_threads }

in_one :
    (c : Checks) (merged : Bool) (m : Mergeable) (o : Bool) (n : ℕ) (d : ReviewDecision)
    → Occurs
        (project_pull_request_signals (record {
          checks = c;
          merged = merged;
          mergeable = m;
          is_open = o;
          review_decision = d;
          unresolved_review_threads = n;
        }))
        (one c merged m o n d)
unfolding one
in_one c merged m o n d = here

in_by_decision :
    (c : Checks) (merged : Bool) (m : Mergeable) (o : Bool) (n : ℕ) (d : ReviewDecision)
    → Occurs
        (project_pull_request_signals (record {
          checks = c;
          merged = merged;
          mergeable = m;
          is_open = o;
          review_decision = d;
          unresolved_review_threads = n;
        }))
        (by_decision c merged m o n)
unfolding by_decision
in_by_decision c merged m o n d =
    Occurs-for_each (one c merged m o n) (in_decisions d) (in_one c merged m o n d)

in_unmerged :
    (c : Checks) (m : Mergeable) (n : ℕ) (o : Bool) (d : ReviewDecision)
    → finished c ≡ true
    → Occurs m (must_advance_keys mergeable_coverage all_mergeable)
    → Occurs
        (project_pull_request_signals (record {
          checks = c;
          merged = false;
          mergeable = m;
          is_open = o;
          review_decision = d;
          unresolved_review_threads = sample n;
        }))
        unmerged_cases
unfolding unmerged_cases unmerged_by_mergeable unmerged_by_threads unmerged_by_open
in_unmerged c m n o d h k = Occurs-for_each unmerged_by_mergeable (in_checks c h) (
    Occurs-for_each (unmerged_by_threads c) k (
      Occurs-for_each (unmerged_by_open c m) (in_samples n) (
        Occurs-for_each (λ is_open. by_decision c false m is_open (sample n)) (in_booleans o)
          (in_by_decision c false m o (sample n) d))))

in_merged :
    (c : Checks) (m : Mergeable) (n : ℕ) (d : ReviewDecision)
    → finished c ≡ true
    → Occurs
        (project_pull_request_signals (record {
          checks = c;
          merged = true;
          mergeable = m;
          is_open = false;
          review_decision = d;
          unresolved_review_threads = sample n;
        }))
        merged_cases
unfolding merged_cases merged_by_mergeable merged_by_threads
in_merged c m n d h = Occurs-for_each merged_by_mergeable (in_checks c h) (
    Occurs-for_each (merged_by_threads c) (in_mergeable m) (
      Occurs-for_each (by_decision c true m false) (in_samples n)
        (in_by_decision c true m false (sample n) d)))

in_closed :
    (c : Checks) (n : ℕ) (d : ReviewDecision)
    → finished c ≡ true
    → Occurs
        (project_pull_request_signals (record {
          checks = c;
          merged = false;
          mergeable = Mergeable.unknown;
          is_open = false;
          review_decision = d;
          unresolved_review_threads = sample n;
        }))
        closed_cases
unfolding closed_cases closed_by_threads
in_closed c n d h = Occurs-for_each closed_by_threads (in_checks c h) (
    Occurs-for_each (by_decision c false Mergeable.unknown false) (in_samples n)
      (in_by_decision c false Mergeable.unknown false (sample n) d))

in_unmerged_part :
    {s : PredicateMap}
    → Occurs s unmerged_cases
    → Occurs s enumerate_actionable_pull_request_signals
unfolding enumerate_actionable_pull_request_signals
in_unmerged_part h = Occurs-append_left (merged_cases ++ closed_cases) h

in_merged_part :
    {s : PredicateMap} → Occurs s merged_cases → Occurs s enumerate_actionable_pull_request_signals
unfolding enumerate_actionable_pull_request_signals
in_merged_part h = Occurs-append_right unmerged_cases (Occurs-append_left closed_cases h)

in_closed_part :
    {s : PredicateMap} → Occurs s closed_cases → Occurs s enumerate_actionable_pull_request_signals
unfolding enumerate_actionable_pull_request_signals
in_closed_part h = Occurs-append_right unmerged_cases (Occurs-append_right merged_cases h)

sampled_in :
    (s : Source)
    → finished s.checks ≡ true
    → settled_pull_request s.is_open s.merged s.mergeable ≡ true
    → Occurs (project_pull_request_signals (sampled s)) enumerate_actionable_pull_request_signals
unfolding must_advance_keys mergeable_coverage
sampled_in s h k = of s.is_open s.merged s.mergeable k
  where
    of :
        (o merged : Bool) (m : Mergeable)
        → settled_pull_request o merged m ≡ true
        → Occurs
            (project_pull_request_signals (record {
              checks = s.checks;
              merged = merged;
              mergeable = m;
              is_open = o;
              review_decision = s.review_decision;
              unresolved_review_threads = sample s.unresolved_review_threads;
            }))
            enumerate_actionable_pull_request_signals
    of true merged Mergeable.unknown k = ground arith
    of true true Mergeable.mergeable k = ground arith
    of true true Mergeable.conflicting k = ground arith
    of true false Mergeable.mergeable k = in_unmerged_part (
        in_unmerged s.checks Mergeable.mergeable s.unresolved_review_threads true s.review_decision
          h (here))
    of true false Mergeable.conflicting k = in_unmerged_part (
        in_unmerged s.checks Mergeable.conflicting s.unresolved_review_threads true
          s.review_decision h (there here))
    of false true m k =
        in_merged_part (in_merged s.checks m s.unresolved_review_threads s.review_decision h)
    of false false Mergeable.mergeable k = in_unmerged_part (
        in_unmerged s.checks Mergeable.mergeable s.unresolved_review_threads false s.review_decision
          h (here))
    of false false Mergeable.conflicting k = in_unmerged_part (
        in_unmerged s.checks Mergeable.conflicting s.unresolved_review_threads false
          s.review_decision h (there here))
    of false false Mergeable.unknown k =
        in_closed_part (in_closed s.checks s.unresolved_review_threads s.review_decision h)

abbrev threads_signal : ReviewDecision → ℕ → PredicateMap
threads_signal d n =
    ("review_decision", str (map_review_decision d))
    ∷ ("unresolved_review_threads", count n)
    ∷ ("has_unresolved_reviews", flag (ltb 0 n))
    ∷ []

threads_lookup :
    (key : String) (d : ReviewDecision) (n : ℕ)
    → str_eq "unresolved_review_threads" key ≡ false
    → lookup key (threads_signal d (sample n)) ≡ lookup key (threads_signal d n)
threads_lookup key d zero h = refl
threads_lookup key d (suc n) h = ground arith

-- The number of threads stands under its own key alone, but for whether there are any.
sampled-lookup :
    (s : Source) (key : String)
    → str_eq "unresolved_review_threads" key ≡ false
    → lookup key (project_pull_request_signals (sampled s))
      ≡ lookup key (project_pull_request_signals s)
unfolding project_pull_request_signals review_signals
sampled-lookup s key h =
    let few = threads_signal s.review_decision (sample s.unresolved_review_threads) in
    let all = threads_signal s.review_decision s.unresolved_review_threads in
    let checks = checks_signal s.checks in
    let m = mergeable_signal s.mergeable in
    let merged = merged_signal s.merged in
    lookup-append_same key (("pr_open", flag s.is_open) ∷ []) (merged ++ (m ++ (checks ++ few)))
      (merged ++ (m ++ (checks ++ all)))
      (lookup-append_same key merged (m ++ (checks ++ few)) (m ++ (checks ++ all)) (
        lookup-append_same key m (checks ++ few) (checks ++ all) (
          lookup-append_same key checks few all
            (threads_lookup key s.review_decision s.unresolved_review_threads h))))

-- Every settled observation, of checks that are finished and, if the pull request is open, not
-- merged and of a known mergeability, is enumerated up to the number of unresolved threads: some
-- enumerated case has the same value under every other key.
pub settled_enumerated :
    (s : Source)
    → finished s.checks ≡ true
    → settled_pull_request s.is_open s.merged s.mergeable ≡ true
    → (signals : PredicateMap) × Occurs signals enumerate_actionable_pull_request_signals
      × ((key : String)
          → str_eq "unresolved_review_threads" key ≡ false
          → lookup key signals ≡ lookup key (project_pull_request_signals s))
settled_enumerated s h k =
    (project_pull_request_signals (sampled s), sampled_in s h k, sampled-lookup s)
