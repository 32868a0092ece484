-- ===== src/Workflow/Signals.antt =====
-- src/workflow/pr-signal-projection.ts: the signals of an observed pull request, and the
-- observations that a wait must be able to act on.
pub mod Coverage
use symphonika.Base.{ℕ, Bool, true, false, Option, none, some, String, List, [], ◌∷◌, ◌++◌}
use symphonika.Base.Tests.{if◌then◌else◌, ltb}
use symphonika.Base.Lists.{filter}
use symphonika.Workflow.{PredicateMap, PredicateValue, flag, count, str}

pub data Checks : Type 0 where
  success failure pending unknown : Checks

pub data Mergeable : Type 0 where
  mergeable conflicting unknown : Mergeable

pub data ReviewDecision : Type 0 where
  approved changes_requested commented review_required unknown : ReviewDecision

-- PullRequestSignalSource
pub record Source : Type 0 where
  pub checks : Checks
  pub merged : Bool
  pub mergeable : Mergeable
  pub is_open : Bool
  pub review_decision : ReviewDecision
  pub unresolved_review_threads : ℕ

pub map_review_decision : ReviewDecision → String
map_review_decision ReviewDecision.approved = "approved"
map_review_decision ReviewDecision.changes_requested = "changes_requested"
map_review_decision ReviewDecision.review_required = "review_required"
map_review_decision _ = "none"

abbrev pub mergeable_signal : Mergeable → PredicateMap
mergeable_signal Mergeable.mergeable = ("mergeable", flag true) ∷ []
mergeable_signal Mergeable.conflicting = ("mergeable", flag false) ∷ []
mergeable_signal Mergeable.unknown = []

abbrev pub checks_signal : Checks → PredicateMap
checks_signal Checks.success = ("checks", str "success") ∷ []
checks_signal Checks.failure = ("checks", str "failure") ∷ []
checks_signal Checks.pending = ("checks", str "pending") ∷ []
checks_signal Checks.unknown = []

abbrev pub merged_signal : Bool → PredicateMap
merged_signal true = ("pr_merged", flag true) ∷ []
merged_signal false = []

pub review_signals : Source → PredicateMap
unfolding map_review_decision
review_signals s =
    ("review_decision", str (map_review_decision s.review_decision))
    ∷ ("unresolved_review_threads", count s.unresolved_review_threads)
    ∷ ("has_unresolved_reviews", flag (ltb 0 s.unresolved_review_threads))
    ∷ []

-- The assignments are to distinct keys, so each adds to the end.
pub project_pull_request_signals : Source → PredicateMap
unfolding review_signals
project_pull_request_signals s =
    ("pr_open", flag s.is_open)
    ∷ (merged_signal s.merged
        ++ (mergeable_signal s.mergeable ++ (checks_signal s.checks ++ review_signals s)))

pub data SignalCoverage : Type 0 where
  may_park must_advance : SignalCoverage

abbrev is_must_advance : SignalCoverage → Bool
is_must_advance must_advance = true
is_must_advance may_park = false

pub checks_coverage : Checks → SignalCoverage
checks_coverage Checks.success = must_advance
checks_coverage Checks.failure = must_advance
checks_coverage Checks.pending = may_park
checks_coverage Checks.unknown = may_park

pub mergeable_coverage : Mergeable → SignalCoverage
mergeable_coverage Mergeable.mergeable = must_advance
mergeable_coverage Mergeable.conflicting = must_advance
mergeable_coverage Mergeable.unknown = may_park

pub review_decision_coverage : ReviewDecision → SignalCoverage
review_decision_coverage d = must_advance

-- The keys of the three records, in their order.
abbrev pub all_checks : List Checks
all_checks = Checks.success ∷ Checks.failure ∷ Checks.pending ∷ Checks.unknown ∷ []

abbrev pub all_mergeable : List Mergeable
all_mergeable = Mergeable.mergeable ∷ Mergeable.conflicting ∷ Mergeable.unknown ∷ []

abbrev pub all_decisions : List ReviewDecision
all_decisions =
    ReviewDecision.approved ∷ ReviewDecision.changes_requested ∷ ReviewDecision.commented
    ∷ ReviewDecision.review_required ∷ ReviewDecision.unknown ∷ []

pub must_advance_keys {ℓ} : {K : Type ℓ} → (K → SignalCoverage) → List K → List K
must_advance_keys coverage keys = filter (λ key. is_must_advance (coverage key)) keys

-- A loop that pushes what each round gives.
pub for_each {ℓ κ} : {A : Type ℓ} {B : Type κ} → List A → (A → List B) → List B
for_each [] f = []
for_each (x ∷ xs) f = f x ++ for_each xs f

abbrev pub samples : List ℕ
samples = 1 ∷ 0 ∷ []

pub one : Checks → Bool → Mergeable → Bool → ℕ → ReviewDecision → List PredicateMap
unfolding project_pull_request_signals
one checks merged m is_open threads decision =
    project_pull_request_signals (record {
      checks = checks;
      merged = merged;
      mergeable = m;
      is_open = is_open;
      review_decision = decision;
      unresolved_review_threads = threads;
    })
    ∷ []

-- The innermost loop of each nest.
pub by_decision : Checks → Bool → Mergeable → Bool → ℕ → List PredicateMap
unfolding for_each must_advance_keys review_decision_coverage one
by_decision checks merged m is_open threads =
    for_each (must_advance_keys review_decision_coverage all_decisions)
      (one checks merged m is_open threads)

-- The nest of the pull requests that are not merged.
pub unmerged_by_open : Checks → Mergeable → ℕ → List PredicateMap
unfolding for_each by_decision
unmerged_by_open checks m threads =
    for_each (true ∷ false ∷ []) (λ is_open. by_decision checks false m is_open threads)

pub unmerged_by_threads : Checks → Mergeable → List PredicateMap
unfolding for_each unmerged_by_open
unmerged_by_threads checks m = for_each samples (unmerged_by_open checks m)

pub unmerged_by_mergeable : Checks → List PredicateMap
unfolding for_each must_advance_keys mergeable_coverage unmerged_by_threads
unmerged_by_mergeable checks =
    for_each (must_advance_keys mergeable_coverage all_mergeable) (unmerged_by_threads checks)

pub unmerged_cases : List PredicateMap
unfolding for_each must_advance_keys checks_coverage unmerged_by_mergeable
unmerged_cases = for_each (must_advance_keys checks_coverage all_checks) unmerged_by_mergeable

-- The nest of the merged ones.
pub merged_by_threads : Checks → Mergeable → List PredicateMap
unfolding for_each by_decision
merged_by_threads checks m = for_each samples (by_decision checks true m false)

pub merged_by_mergeable : Checks → List PredicateMap
unfolding for_each merged_by_threads
merged_by_mergeable checks = for_each all_mergeable (merged_by_threads checks)

pub merged_cases : List PredicateMap
unfolding for_each must_advance_keys checks_coverage merged_by_mergeable
merged_cases = for_each (must_advance_keys checks_coverage all_checks) merged_by_mergeable

-- The nest of the closed ones with an unknown mergeability.
pub closed_by_threads : Checks → List PredicateMap
unfolding for_each by_decision
closed_by_threads checks = for_each samples (by_decision checks false Mergeable.unknown false)

pub closed_cases : List PredicateMap
unfolding for_each must_advance_keys checks_coverage closed_by_threads
closed_cases = for_each (must_advance_keys checks_coverage all_checks) closed_by_threads

pub enumerate_actionable_pull_request_signals : List PredicateMap
unfolding unmerged_cases merged_cases closed_cases
enumerate_actionable_pull_request_signals = unmerged_cases ++ merged_cases ++ closed_cases
