-- ===== src/Workflow/Predicates/Containment.antt =====
-- A path that is probed lies in the run's workspace.
use symphonika.Base.{true, some, String, List, [], ◌∷◌, ◌++◌, ◌≡◌, refl, arith, eq_iff}
use symphonika.Workflow.Predicates.{resolve, relative, is_path_inside, resolve_artifact_path}

-- A relative path that does not climb is the rest of the candidate below the parent.
relative-stays :
    (parent candidate : List String)
    → is_path_inside candidate parent ≡ true
    → parent ++ relative parent candidate ≡ candidate
unfolding relative is_path_inside
relative-stays [] candidate h = refl
relative-stays (p ∷ parent) [] h = ground arith
relative-stays (p ∷ parent) (c ∷ candidate) h =
    ground (arith, eq_iff p c, relative-stays parent candidate)

-- A path that the probe may look at is the workspace's own path, extended by segments that do not
-- begin with two dots.
pub resolve_artifact_path_lem :
    (workspace_path candidate : String) {resolved : List String}
    → resolve_artifact_path workspace_path candidate ≡ some resolved
    → (below : List String) × (resolved ≡ resolve [] workspace_path ++ below)
unfolding resolve_artifact_path
resolve_artifact_path_lem workspace_path candidate {resolved} h = (
  relative (resolve [] workspace_path) resolved,
  ground (
    arith,
    relative-stays (resolve [] workspace_path) (resolve (resolve [] workspace_path) candidate),
  ),
)
