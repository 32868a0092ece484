-- ===== src/Dispatch/Pick/Bounds.antt =====
-- A pick keeps the caps and takes an admissible candidate of an open project.
use symphonika.Base.{
  ℕ, zero, suc, ◌<◌, arith, Option, Bool, true, false, none, some, String, List, [], ◌∷◌, ◌≡◌, sym,
  inl, inr, str_eq, eq_iff,
}
use symphonika.Base.Tests.{Bool-cases, Option-cases}
use symphonika.Base.Lists.{find, member, Occurs, here, there}
use symphonika.Base.Maps.{Dict}
use mathlib.Core.Option.{some-injective}
use symphonika.Capacity.{is_global_cap_reached, is_project_cap_reached}
use symphonika.Registry.InFlight.{count, count_by_project}
use symphonika.Issue.{Project}
use symphonika.Issue.Priority.{sort}
use symphonika.Issue.Priority.Sorting.{Occurs-sort}
use symphonika.Dispatch.{Candidate}
use symphonika.Dispatch.Candidates.{
  Facts, Load, not_raw, load_failed, raw, is_admissible, pick_loaded, pick_project_candidate,
  compare_candidates,
}
use symphonika.Dispatch.Candidates.Admission.{IsAdmissible, is_admissible-IsAdmissible}
use symphonika.Dispatch.Scheduler.{Entry, select, scheduler_weights}
use symphonika.Dispatch.Pick.{
  Setting, Dispatchable, Target, bucket, is_open_project, dispatchable, entries, get_elem?,
  target_at, pick_target_from_candidates,
}

find-some :
    {A : Type 0} {c : A} (p : A → Bool) (xs : List A)
    → find p xs ≡ some c
    → Occurs c xs × (p c ≡ true)
find-some p [] h = absurd (cc)
find-some {A = A} {c = c} p (x ∷ xs) h = elim (Bool-cases (p x)) [
  | inl k ↦ let same : x ≡ c = some-injective x c (rw k at h) in rw (sym same) (here, k)
  | inr k ↦ let later = find-some {A = A} {c = c} p xs (rw k at h) in (there later.0, later.1)
]

Occurs-bucket :
    {c : Candidate} (name : String) (cs : List Candidate)
    → Occurs c (bucket name cs)
    → Occurs c cs × (c.found.project ≡ name)
Occurs-bucket name [] o = elim o [ ]
Occurs-bucket {c = c} name (x ∷ xs) o = elim (Bool-cases (str_eq x.found.project name)) [
  | inl k ↦ kept k (Occurs-bucket {c = c} name xs) (rw k at o)
  | inr k ↦ let later = Occurs-bucket {c = c} name xs (rw k at o) in (there later.0, later.1)
]
  where
    kept :
        {x c : Candidate} {xs ys : List Candidate}
        → str_eq x.found.project name ≡ true
        → (Occurs c ys → Occurs c xs × (c.found.project ≡ name))
        → Occurs c (x ∷ ys)
        → Occurs c (x ∷ xs) × (c.found.project ≡ name)
    kept {x = y} k f here = (here, (eq_iff y.found.project name).0 k)
    kept k f (there o) = (there (f o).0, (f o).1)

-- A number of runs below a cap, where there is one; a project without a cap has the daemon's.
abbrev pub Below : Option ℕ → ℕ → Type 0
Below none n = Unit
Below (some max) n = n < max

abbrev pub BelowProject : Option ℕ → Option ℕ → ℕ → Type 0
BelowProject (some max) global n = n < max
BelowProject none global n = Below global n

Below-global : (global : Option ℕ) (n : ℕ) → is_global_cap_reached global n ≡ false → Below global n
unfolding is_global_cap_reached
Below-global none n h = tt
Below-global (some max) n h = ground arith

BelowProject-cap :
    (max global : Option ℕ) (n : ℕ)
    → is_project_cap_reached max n global ≡ false
    → BelowProject max global n
unfolding is_project_cap_reached
BelowProject-cap (some max) global n h = ground arith
BelowProject-cap none none n h = tt
BelowProject-cap none (some max) n h = ground arith

-- The project is among the configured ones, enabled, with a registered provider and below its cap.
pub record IsOpen (f : Facts) (setting : Setting) (name : String) (project : Project) : Type 0 where
  pub configured : Occurs (name, project) setting.projects
  pub enabled : project.disabled ≡ false
  pub registered : member project.provider setting.agent_providers ≡ true
  pub below :
      BelowProject project.max_in_flight setting.global_max
        (count_by_project f.active_runs.in_flight name)

is_open_project-IsOpen :
    (f : Facts) (setting : Setting) (candidates : List Candidate) (name : String)
    (project : Project)
    → Occurs (name, project) setting.projects
    → is_open_project f setting candidates name project ≡ true
    → IsOpen f setting name project
unfolding is_open_project
is_open_project-IsOpen f setting candidates name project o h = record {
  configured = o;
  enabled = ground arith;
  registered = ground arith;
  below =
      BelowProject-cap project.max_in_flight setting.global_max
        (count_by_project f.active_runs.in_flight name) (ground arith);
}

-- Such a project, with a candidate that is among those given, of the project, and admissible.
abbrev pub Allowed : Facts → Setting → List Candidate → Candidate → Project → Type 0
Allowed f setting candidates c project =
    (name : String) × IsOpen f setting name project
    × Occurs c candidates
    × (c.found.project ≡ name)
    × IsAdmissible f project (f.load_raw_fsm_workflow project) c

picked_from :
    (f : Facts) (project : Project) (cs : List Candidate) (c : Candidate) (w : Load)
    → pick_loaded f project w cs ≡ some c
    → Occurs c cs × (is_admissible f project w c ≡ true)
unfolding pick_loaded
picked_from f project cs c load_failed h = absurd (cc)
picked_from f project cs c not_raw h =
    let found =
      find-some {c = c} (is_admissible f project not_raw) (sort (compare_candidates f) cs) h in
    (Occurs-sort (compare_candidates f) cs found.0, found.1)
picked_from f project cs c (raw states) h =
    let found =
      find-some {c = c} (is_admissible f project (raw states)) (sort (compare_candidates f) cs) h in
    (Occurs-sort (compare_candidates f) cs found.0, found.1)

abbrev AllAllowed : Facts → Setting → List Candidate → List Dispatchable → Type 0
AllAllowed f setting candidates [] = Unit
AllAllowed f setting candidates (d ∷ ds) =
    Allowed f setting candidates d.candidate d.project × AllAllowed f setting candidates ds

dispatchable-AllAllowed :
    (f : Facts) (setting : Setting) (candidates : List Candidate) (ps : Dict Project)
    → ((name : String) (p : Project) → Occurs (name, p) ps → Occurs (name, p) setting.projects)
    → AllAllowed f setting candidates (dispatchable f setting candidates ps)
unfolding dispatchable
dispatchable-AllAllowed f setting candidates [] h = tt
dispatchable-AllAllowed f setting candidates ((name, p) ∷ ps) h =
    let rest = dispatchable-AllAllowed f setting candidates ps (λ n q o. h n q (there o)) in
    elim (Bool-cases (is_open_project f setting candidates name p)) [
      | inr k ↦ rw k rest
      | inl k ↦ elim (Option-cases (pick_project_candidate f p (bucket name candidates))) [
        | inl n ↦ rw (k, n) rest
        | inr (c, n) ↦
            let found =
              picked_from f p (bucket name candidates) c (f.load_raw_fsm_workflow p)
                (unfold pick_project_candidate in n) in
            let where_from = Occurs-bucket name candidates found.0 in
            rw (k, n)
              (
                (
                  name,
                  is_open_project-IsOpen f setting candidates name p (h name p here) k,
                  where_from.0,
                  where_from.1,
                  is_admissible-IsAdmissible f p (f.load_raw_fsm_workflow p) c found.1,
                ),
                rest,
              )
      ]
    ]

get_elem?-AllAllowed :
    (f : Facts) (setting : Setting) (candidates : List Candidate) (ds : List Dispatchable) (i : ℕ)
    (d : Dispatchable)
    → AllAllowed f setting candidates ds
    → get_elem? ds i ≡ some d
    → Allowed f setting candidates d.candidate d.project
get_elem?-AllAllowed f setting candidates [] i d a h = absurd (cc)
get_elem?-AllAllowed f setting candidates (x ∷ ds) zero d a h = rw (sym (some-injective x d h)) a.0
get_elem?-AllAllowed f setting candidates (x ∷ ds) (suc i) d a h =
    get_elem?-AllAllowed f setting candidates ds i d a.1 h

target_at-Allowed :
    (f : Facts) (setting : Setting) (candidates : List Candidate) (ds : List Dispatchable) (i : ℕ)
    (es : List Entry) (t : Target)
    → AllAllowed f setting candidates ds
    → target_at (get_elem? ds i) es ≡ some t
    → Allowed f setting candidates t.candidate t.project
target_at-Allowed f setting candidates ds i es t all h = elim (Option-cases (get_elem? ds i)) [
  | inl n ↦ let no : none ≡ some t = rw n at h in absurd (cc)
  | inr (d, n) ↦
      let ok = get_elem?-AllAllowed f setting candidates ds i d all n in
      let taken : Target = record {
        candidate = d.candidate;
        project = d.project;
        weights = scheduler_weights es;
      } in
      let same : taken ≡ t = some-injective taken t (rw n at h) in rw (sym same) ok
]

-- A picked target is allowed. The daemon's runs in flight are fewer than its cap, and the project's
-- fewer than its own cap, or than the daemon's where it has none; the project is configured, enabled
-- and has a registered provider; the candidate is one of those given, of that project, not reserved,
-- not suppressed by an earlier run, without a blocking provider plan, not parked, and without a known
-- overlap where the project guards against one.
pub pick_target_from_candidates-Allowed :
    (f : Facts) (setting : Setting) (candidates : List Candidate) (t : Target)
    → pick_target_from_candidates f setting candidates ≡ some t
    → Below setting.global_max (count f.active_runs.in_flight)
      × Allowed f setting candidates t.candidate t.project
unfolding pick_target_from_candidates
pick_target_from_candidates-Allowed f setting candidates t h =
    let ds = dispatchable f setting candidates setting.projects in
    let all = dispatchable-AllAllowed f setting candidates setting.projects (λ n p o. o) in
    elim (Bool-cases (is_global_cap_reached setting.global_max (count f.active_runs.in_flight))) [
      | inl k ↦ let no : none ≡ some t = rw k at h in absurd (cc)
      | inr k ↦ (
        Below-global setting.global_max (count f.active_runs.in_flight) k,
        target_at-Allowed f setting candidates ds (select (entries ds)) (entries ds) t all
            (rw k at h),
      )
    ]
