-- ===== src/Dispatch/Tick/Ends.antt =====
-- The loop of a tick ends.
use symphonika.Base.{
  ℕ, zero, suc, ◌+◌, ◌≤◌, ◌<◌, max, Bool, true, false, not, Option, none, some, String, List, [],
  ◌∷◌, ◌++◌, ◌≡◌, refl, arith, str_eq,
}
use symphonika.Base.Tests.{◌==◌}
use symphonika.Base.Lists.{length, length-append, length-filter-le, Occurs, here, there}
use symphonika.Dispatch.{Candidate}
use symphonika.Dispatch.Pick.{Target, pick_target_from_candidates}
use symphonika.Dispatch.Pick.Bounds.{pick_target_from_candidates-Allowed}
use symphonika.Dispatch.Tick.{
  DispatchResult, dispatched, Outcome, ready, terminal, Surroundings, without, without_project,
  closing, Loop, after_claim, after_pick, after_pressure, dispatch_fresh,
}

without-length :
    (c : Candidate) (cs : List Candidate) → Occurs c cs → length (without c cs) < length cs
without-length c [] o = elim o [ ]
without-length c (_ ∷ cs) here =
    ground (arith, length-filter-le (λ d. not (d.identity == c.identity)) cs)
without-length c (d ∷ cs) (there o) = ground (arith, without-length c cs o)

without_project-length :
    (exclude : Bool) (name : String) (cs : List Candidate)
    → length (without_project exclude name cs) ≤ length cs
without_project-length true name cs = length-filter-le (λ d. not (str_eq d.found.project name)) cs
without_project-length false name cs = omega arith

-- The loop returns, with no more results than the bound.
abbrev pub Ended : {W : Type 0} → ℕ → Option (List DispatchResult × W) → Type 0
Ended bound none = ⊥
Ended bound (some (claims, w)) = length claims ≤ bound

closing-length :
    (reason : String) (claims : List DispatchResult) (n : ℕ)
    → length (closing reason claims) ≤ max 1 (length claims + n)
closing-length reason [] n = omega arith
closing-length reason (r ∷ rs) n = omega arith

abbrev bound : List Candidate → List DispatchResult → ℕ
bound candidates claims = max 1 (length claims + length candidates)

Ended-weaken :
    {W : Type 0} (m n : ℕ) (o : Option (List DispatchResult × W)) → m ≤ n → Ended m o → Ended n o
Ended-weaken m n none h e = e
Ended-weaken m n (some (claims, w)) h e = omega (arith, e)

module _ {W : Type 0} (s : Surroundings W) (n : ℕ) (loop : Loop W)
    (ends : (candidates : List Candidate) (claims : List DispatchResult) (w : W)
      → length candidates < n
      → Ended (bound candidates claims) (loop candidates claims w)) where
  after_claim-Ended :
      (t : Target) (candidates : List Candidate) (claims : List DispatchResult) (x : W × Outcome)
      → length candidates < suc n
      → Occurs t.candidate candidates
      → Ended (bound candidates claims) (after_claim loop t candidates claims x)
  unfolding after_claim
  after_claim-Ended t candidates claims (w, ready run_id) h o =
      let fewer = without-length t.candidate candidates o in
      let one_more = length-append claims (dispatched run_id ∷ []) in
      Ended-weaken (bound (without t.candidate candidates) (claims ++ dispatched run_id ∷ []))
        (bound candidates claims)
        (loop (without t.candidate candidates) (claims ++ dispatched run_id ∷ []) w)
        (omega (arith, fewer, one_more))
        (ends (without t.candidate candidates) (claims ++ dispatched run_id ∷ []) w
          (omega (arith, fewer)))
  after_claim-Ended t candidates claims (w, terminal result exclude true) h o =
      omega (arith, without-length t.candidate candidates o, length-append claims (result ∷ []))
  after_claim-Ended t candidates claims (w, terminal result exclude false) h o =
      let left = without_project exclude t.project.name (without t.candidate candidates) in
      let fewer = without-length t.candidate candidates o in
      let fewer_still =
        without_project-length exclude t.project.name (without t.candidate candidates) in
      let one_more = length-append claims (result ∷ []) in
      Ended-weaken (bound left (claims ++ result ∷ [])) (bound candidates claims)
        (loop left (claims ++ result ∷ []) w) (omega (arith, fewer, fewer_still, one_more))
        (ends left (claims ++ result ∷ []) w (omega (arith, fewer, fewer_still)))

  after_pick-Ended :
      (candidates : List Candidate) (claims : List DispatchResult) (w : W) (o : Option Target)
      → length candidates < suc n
      → ((t : Target) → o ≡ some t → Occurs t.candidate candidates)
      → Ended (bound candidates claims) (after_pick s loop candidates claims w o)
  unfolding after_pick
  after_pick-Ended candidates claims w none h f =
      closing-length "no eligible issue has a registered provider" claims (length candidates)
  after_pick-Ended candidates claims w (some t) h f =
      after_claim-Ended t candidates claims (s.resolve_and_claim t w) h (f t refl)

  after_pressure-Ended :
      (candidates : List Candidate) (claims : List DispatchResult) (x : W × Option String)
      → length candidates < suc n
      → Ended (bound candidates claims) (after_pressure s loop candidates claims x)
  unfolding after_pressure
  after_pressure-Ended candidates claims (w, some reason) h =
      closing-length reason claims (length candidates)
  after_pressure-Ended candidates claims (w, none) h =
      after_pick-Ended candidates claims w
        (pick_target_from_candidates (s.facts w) (s.setting w) candidates) h
        (λ t e. (pick_target_from_candidates-Allowed (s.facts w) (s.setting w) candidates t e).1.2)

-- Whatever the host's pressure and the claims do, the loop of a tick ends within one round more than
-- there are candidates, with at most as many new results as candidates, or a single one.
pub dispatch_fresh_ends :
    {W : Type 0} (s : Surroundings W) (fuel : ℕ) (candidates : List Candidate)
    (claims : List DispatchResult) (w : W)
    → length candidates < fuel
    → Ended (max 1 (length claims + length candidates)) (dispatch_fresh s fuel candidates claims w)
unfolding dispatch_fresh
dispatch_fresh_ends s zero candidates claims w h = absurd (omega arith)
dispatch_fresh_ends s (suc fuel) candidates claims w h =
    after_pressure-Ended s fuel (dispatch_fresh s fuel) (dispatch_fresh_ends s fuel) candidates
      claims (s.refresh_host_pressure w) h
