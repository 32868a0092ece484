-- ===== src/Dispatch/Tick.antt =====
-- `dispatchFresh` of src/lifecycle/run-controller.ts: the loop of a tick that picks and claims until
-- nothing is left. Host pressure and the claim change the world in ways that are given.
pub mod Ends
use symphonika.Base.{
  ℕ, zero, suc, Bool, true, false, not, Option, none, some, String, List, [], ◌∷◌, ◌++◌, str_eq,
}
use symphonika.Base.Tests.{if◌then◌else◌, ◌==◌}
use symphonika.Base.Lists.{filter}
use symphonika.Dispatch.{Candidate}
use symphonika.Dispatch.Candidates.{Facts}
use symphonika.Dispatch.Pick.{Setting, Target, pick_target_from_candidates}

-- DispatchOneFreshResult
pub data DispatchResult : Type 0 where
  dispatched : String → DispatchResult
  refused : String → DispatchResult

-- What `resolveAndClaim` returns: a run to start, or a result with `excludeProject` and `stopLoop`.
pub data Outcome : Type 0 where
  ready : String → Outcome
  terminal : DispatchResult → Bool → Bool → Outcome

pub record Surroundings (W : Type 0) : Type 0 where
  pub refresh_host_pressure : W → W × Option String
  pub resolve_and_claim : Target → W → W × Outcome
  pub facts : W → Facts
  pub setting : W → Setting

abbrev pub without : Candidate → List Candidate → List Candidate
without c cs = filter (λ d. not (d.identity == c.identity)) cs

abbrev pub without_project : Bool → String → List Candidate → List Candidate
without_project exclude name cs =
    if exclude then filter (λ d. not (str_eq d.found.project name)) cs else cs

-- The reason of a tick that claims nothing.
abbrev pub closing : String → List DispatchResult → List DispatchResult
closing reason [] = refused reason ∷ []
closing reason (r ∷ rs) = r ∷ rs

-- The rest of the loop, for the candidates left, the results so far and the world; `none` where the
-- fuel runs out.
abbrev pub Loop : Type 0 → Type 0
Loop W = List Candidate → List DispatchResult → W → Option (List DispatchResult × W)

pub after_claim :
    {W : Type 0}
    → Loop W
    → Target
    → List Candidate
    → List DispatchResult
    → W × Outcome
    → Option (List DispatchResult × W)
after_claim loop t candidates claims (w, ready run_id) =
    loop (without t.candidate candidates) (claims ++ dispatched run_id ∷ []) w
after_claim loop t candidates claims (w, terminal result exclude true) =
    some (claims ++ result ∷ [], w)
after_claim loop t candidates claims (w, terminal result exclude false) =
    loop (without_project exclude t.project.name (without t.candidate candidates))
      (claims ++ result ∷ []) w

pub after_pick :
    {W : Type 0}
    → Surroundings W
    → Loop W
    → List Candidate
    → List DispatchResult
    → W
    → Option Target
    → Option (List DispatchResult × W)
unfolding after_claim
after_pick s loop candidates claims w none =
    some (closing "no eligible issue has a registered provider" claims, w)
after_pick s loop candidates claims w (some t) =
    after_claim loop t candidates claims (s.resolve_and_claim t w)

pub after_pressure :
    {W : Type 0}
    → Surroundings W
    → Loop W
    → List Candidate
    → List DispatchResult
    → W × Option String
    → Option (List DispatchResult × W)
unfolding after_pick
after_pressure s loop candidates claims (w, some reason) = some (closing reason claims, w)
after_pressure s loop candidates claims (w, none) =
    after_pick s loop candidates claims w
      (pick_target_from_candidates (s.facts w) (s.setting w) candidates)

pub dispatch_fresh : {W : Type 0} → Surroundings W → ℕ → Loop W
unfolding after_pressure
dispatch_fresh s zero candidates claims w = none
dispatch_fresh s (suc fuel) candidates claims w =
    after_pressure s (dispatch_fresh s fuel) candidates claims (s.refresh_host_pressure w)
