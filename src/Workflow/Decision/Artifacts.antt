-- ===== src/Workflow/Decision/Artifacts.antt =====
-- A transition on `artifact_exists` is taken only on files that are in the workspace.
use symphonika.Base.{
  Bool, true, false, not, Option, none, some, String, List, [], ◌∷◌, ◌++◌, ◌≡◌, ap, refl, ◌∙◌, inl,
  inr, arith, str_eq, eq_iff,
}
use symphonika.Base.Tests.{Option-cases, Bool-cases}
use symphonika.Base.Lists.{filter, member}
use symphonika.Base.Maps.{lookup}
use symphonika.Workflow.{PredicateValue, PredicateMap, State}
use symphonika.Workflow.Predicates.{
  workflow_predicate_evaluation, artifact_predicate_paths, resolve_artifact_path, resolve,
}
use symphonika.Workflow.Predicates.Containment.{resolve_artifact_path_lem}
use symphonika.Workflow.Decision.{
  Resolver, advance, unmet_predicate, unmet_one, unmet_artifact_predicate, decide_next_step,
  probe_state_artifacts, collect_artifact_paths, present,
}
use symphonika.Workflow.Decision.Choice.{Holds, decide_next_step-advance}

Holds-at :
    (signals : PredicateMap) (exists : Option Resolver) (key : String) (when : PredicateMap)
    {v : PredicateValue}
    → Holds signals exists when
    → lookup key when ≡ some v
    → unmet_one key v signals exists ≡ none
unfolding unmet_predicate
Holds-at signals exists key [] h k = cc
Holds-at signals exists key ((j, w) ∷ when) {v} h k =
    elim (Option-cases (unmet_one j w signals exists)) [
      | inl e ↦ ground (arith, eq_iff j key, Holds-at signals exists key when {v = v})
      | inr (why, e) ↦ ground arith
    ]

none_missing :
    (exists : Resolver) (p : String) (paths : List String)
    → filter (λ q. not (exists q)) paths ≡ []
    → member p paths ≡ true
    → exists p ≡ true
none_missing exists p [] h k = cc
none_missing exists p (q ∷ paths) h k = ground (arith, eq_iff q p, none_missing exists p paths)

artifact_holds :
    (signals : PredicateMap) (exists : Option Resolver) (v : PredicateValue) (paths : List String)
    → unmet_one "artifact_exists" v signals exists ≡ none
    → artifact_predicate_paths v ≡ some paths
    → (e : Resolver) × (exists ≡ some e) × (filter (λ q. not (e q)) paths ≡ [])
unfolding unmet_one unmet_artifact_predicate workflow_predicate_evaluation
artifact_holds signals none v paths h k = ground arith
artifact_holds signals (some e) v paths h k = (e, refl, ground arith)

abbrev Found : (List String → Bool) → String → String → Type 0
Found stat w p =
    (resolved : List String) × (resolve_artifact_path w p ≡ some resolved) × (stat resolved ≡ true)

present-Found :
    (stat : List String → Bool) (w p : String) (cs : List String)
    → member p (present stat w cs) ≡ true
    → Found stat w p
present-Found stat w p [] h = cc
present-Found stat w p (c ∷ cs) h = elim (Option-cases (resolve_artifact_path w c)) [
  | inl e ↦ present-Found stat w p cs (rw (e, present, member) at h)
  | inr (r, e) ↦ elim (Bool-cases (stat r)) [
    | inr d ↦ present-Found stat w p cs (rw (e, d, present, member) at h)
    | inl d ↦ elim (Bool-cases (str_eq c p)) [
      | inl q ↦ (r, rw (← (eq_iff c p).0 q) e, d)
      | inr q ↦ present-Found stat w p cs (rw (e, d, q, present, member) at h)
    ]
  ]
]

abbrev ask : String → Option Resolver → Bool
ask p none = false
ask p (some e) = e p

asked :
    (stat : List String → Bool) (s : State) (w p : String)
    → ask p (probe_state_artifacts stat s (some w)) ≡ true
    → member p (present stat w (collect_artifact_paths s)) ≡ true
unfolding probe_state_artifacts
asked stat s w p h = ground arith

probed :
    (stat : List String → Bool) (s : State) (workspace_path : Option String) (p : String)
    {e : Resolver}
    → probe_state_artifacts stat s workspace_path ≡ some e
    → e p ≡ true
    → (w : String) × (workspace_path ≡ some w) × Found stat w p
unfolding probe_state_artifacts
probed stat s none p h k = ground arith
probed stat s (some w) p {e} h k = (
  w,
  refl,
  present-Found stat w p (collect_artifact_paths s) (asked stat s w p (ap (ask p) h ∙ k)),
)

-- With the snapshot that the probe takes, a decision to advance over a transition on
-- `artifact_exists` means that there is a workspace and that each of the predicate's paths resolves
-- to a path at or below the workspace's own which the file system has.
pub advance_probed :
    (stat : List String → Bool) (executed : Bool) (signals : PredicateMap) (s : State)
    (workspace_path : Option String) (p : String) (paths : List String) {reason to : String}
    {when : PredicateMap} {value : PredicateValue}
    → decide_next_step executed (probe_state_artifacts stat s workspace_path) signals s
      ≡ advance reason to when
    → lookup "artifact_exists" when ≡ some value
    → artifact_predicate_paths value ≡ some paths
    → member p paths ≡ true
    → (w : String) × (resolved : List String) × (below : List String) × (workspace_path ≡ some w)
      × (resolve_artifact_path w p ≡ some resolved)
      × (resolved ≡ resolve [] w ++ below)
      × (stat resolved ≡ true)
advance_probed stat executed signals s workspace_path p paths {reason} {to} {when} {value} h k l m =
    let decision =
      decide_next_step-advance executed (probe_state_artifacts stat s workspace_path) signals s
        {reason = reason} {to = to} {when = when} h in
    let t = decision.2 in
    let holds =
      Holds-at signals (probe_state_artifacts stat s workspace_path) "artifact_exists" when
        {v = value} (rw t.3 t.1.4) k in
    let resolver =
      artifact_holds signals (probe_state_artifacts stat s workspace_path) value paths holds l in
    let there =
      probed stat s workspace_path p {e = resolver.0} resolver.1
        (none_missing resolver.0 p paths resolver.2 m) in
    let below = resolve_artifact_path_lem there.0 p {resolved = there.2.0} there.2.1 in
    (there.0, there.2.0, below.0, there.1, there.2.1, below.1, there.2.2)
