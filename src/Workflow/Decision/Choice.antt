-- ===== src/Workflow/Decision/Choice.antt =====
-- Which of the transitions a decision takes.
use symphonika.Base.{
  Bool, true, ◌||◌, Option, none, some, String, List, [], ◌∷◌, ◌++◌, ◌≡◌, ◌⊎◌, inl, inr, refl, ap,
  arith,
}
use symphonika.Base.Tests.{Option-cases}
use symphonika.Base.Lists.{All}
use symphonika.Workflow.{PredicateMap, Transition, State}
use symphonika.Workflow.Decision.{
  Resolver, advance, unmet_predicate, first_open, decide_next_step, after_action, is_parked,
}

-- A state in which the predicates are consulted: not terminal, and with nothing left to execute.
abbrev pub IsDecidable : Bool → State → Type 0
IsDecidable executed s =
    (s.terminal ≡ none) × ((s.action ≡ none) ⊎ ((is_parked s || executed) ≡ true))

abbrev pub Holds : PredicateMap → Option Resolver → PredicateMap → Type 0
Holds signals exists predicates = unmet_predicate predicates signals exists ≡ none

abbrev pub Fails : PredicateMap → Option Resolver → PredicateMap → Type 0
Fails signals exists predicates =
    (why : String) × (unmet_predicate predicates signals exists ≡ some why)

-- The transition stands after others that all fail.
abbrev pub FirstOpen : PredicateMap → Option Resolver → List Transition → Transition → Type 0
FirstOpen signals exists ts t =
    (before : List Transition) × (after : List Transition) × (ts ≡ before ++ t ∷ after)
    × All (λ (u : Transition). Fails signals exists u.when) before
    × Holds signals exists t.when

first_open-advance :
    (s : State) (signals : PredicateMap) (exists : Option Resolver) (ts : List Transition)
    {reason to : String} {when : PredicateMap}
    → first_open s signals exists ts ≡ advance reason to when
    → (t : Transition) × FirstOpen signals exists ts t × (to ≡ t.to) × (when ≡ t.when)
unfolding first_open
first_open-advance s signals exists [] h = ground arith
first_open-advance s signals exists (t ∷ ts) {reason} {to} {when} h =
    elim (Option-cases (unmet_predicate t.when signals exists)) [
      | inl e ↦ (t, ([], ts, refl, tt, e), ground arith, ground arith)
      | inr (why, e) ↦
          let found =
            first_open-advance s signals exists ts {reason = reason} {to = to} {when = when}
              (rw (e, first_open) at h) in
          let first = found.1 in
          (
            found.0,
            (
              t ∷ first.0,
              first.1,
              ap (λ (us : List Transition). t ∷ us) first.2,
              ((why, e), first.3),
              first.4,
            ),
            found.2,
            found.3,
          )
    ]

after_action-advance :
    (s : State) (signals : PredicateMap) (exists : Option Resolver) {reason to : String}
    {when : PredicateMap}
    → after_action s signals exists ≡ advance reason to when
    → Holds signals exists s.complete_when
      × ((t : Transition) × FirstOpen signals exists s.transitions t
          × (to ≡ t.to)
          × (when ≡ t.when))
after_action-advance s signals exists {reason} {to} {when} h =
    elim (Option-cases (unmet_predicate s.complete_when signals exists)) [
      | inl e ↦ (
        e,
        first_open-advance s signals exists s.transitions {reason = reason} {to = to} {when = when}
            (rw (e, after_action) at h),
      )
      | inr (why, e) ↦ ground arith
    ]

pub decide_next_step-advance :
    (executed : Bool) (exists : Option Resolver) (signals : PredicateMap) (s : State)
    {reason to : String} {when : PredicateMap}
    → decide_next_step executed exists signals s ≡ advance reason to when
    → IsDecidable executed s
      × Holds signals exists s.complete_when
      × ((t : Transition) × FirstOpen signals exists s.transitions t
          × (to ≡ t.to)
          × (when ≡ t.when))
unfolding decide_next_step
decide_next_step-advance executed exists signals s {reason} {to} {when} h =
    elim (Option-cases s.terminal) [
      | inr (x, e) ↦ ground arith
      | inl e ↦ elim (Option-cases s.action) [
        | inl d ↦
            let opened =
              after_action-advance s signals exists {reason = reason} {to = to} {when = when}
                (rw (e, d, decide_next_step) at h) in
            ((e, inl d), opened.0, opened.1)
        | inr (a, d) ↦
            ground (
              arith,
              after_action-advance s signals exists {reason = reason} {to = to} {when = when},
            )
      ]
    ]
