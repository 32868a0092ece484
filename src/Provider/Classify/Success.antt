-- ===== src/Provider/Classify/Success.antt =====
-- What a successful classification rests on.
use symphonika.Base.{Bool, true, false, Option, none, some, String, ◌≡◌, ◌⊎◌, refl, inl, inr, arith}
use symphonika.Base.Tests.{Option-cases, Bool-cases}
use symphonika.Provider.{Kind}
use symphonika.Provider.Completion.{
  Completion, clean_exit, cancelled, input_required, failed, deterministic, transient,
  classify_provider_completion,
}
use symphonika.Provider.Completion.CleanExit.{IsClean, clean_exit_iff}
use symphonika.Provider.Classify.{
  Input, Workspace, Thrown, workspace_preparation, other, classify_failure, classify_error,
  terminal_of, verify_workspace_success, workspace_inspection_failed, branch_advanced,
}

-- The workspace bears the attempt out: its head and its commits could be read, and there are commits
-- of its own (with a digest that could be read, if one was taken at the start) or none are needed.
abbrev pub IsBorneOut : Workspace → Type 0
IsBorneOut w =
    (w.head_inspection_failed ≡ false)
    × (((w.commits_ahead ≡ some false) × (w.allow_zero_commits ≡ true))
        ⊎ ((w.commits_ahead ≡ some true)
            × ((w.content_digest_at_start ≡ none) ⊎ ((d : String) × (w.content_digest ≡ some d)))))

workspace_success :
    (w : Workspace) → (verify_workspace_success (some w)).kind ≡ Kind.success → IsBorneOut w
unfolding verify_workspace_success workspace_inspection_failed branch_advanced
workspace_success w h =
    forth w.commits_ahead w.content_digest_at_start w.content_digest refl refl refl
  where
    forth :
        (ahead : Option Bool) (start digest : Option String)
        → w.commits_ahead ≡ ahead
        → w.content_digest_at_start ≡ start
        → w.content_digest ≡ digest
        → IsBorneOut w
    forth none start digest e f g = ground arith
    forth (some false) start digest e f g = ground arith
    forth (some true) none digest e f g = ground arith
    forth (some true) (some x) none e f g = ground arith
    forth (some true) (some x) (some y) e f g = (ground arith, inr (e, inr (y, g)))

error_not_success : (t : Thrown) → (classify_error t).kind ≡ Kind.success → ⊥
unfolding classify_error
error_not_success (workspace_preparation c) h = ground arith
error_not_success (other message c) h = ground arith

terminal_success :
    (c : Completion) (workspace : Option Workspace)
    → (terminal_of c workspace).kind ≡ Kind.success
    → (c ≡ clean_exit) × ((w : Workspace) × (workspace ≡ some w) × IsBorneOut w)
unfolding terminal_of verify_workspace_success workspace_inspection_failed
terminal_success clean_exit none h = ground arith
terminal_success clean_exit (some w) h = (refl, (w, refl, workspace_success w h))
terminal_success (cancelled reason) workspace h = ground arith
terminal_success (input_required reason) workspace h = ground arith
terminal_success (failed deterministic reason) workspace h = ground arith
terminal_success (failed transient reason) workspace h = ground arith

-- An attempt is classified a success only if it was not cancelled and threw nothing, the provider's
-- events are a clean exit, and its workspace bears it out.
pub success_only_if :
    (with_tail : String → String) (input : Input)
    → (classify_failure with_tail input).kind ≡ Kind.success
    → (input.cancel_requested ≡ false)
      × (input.error ≡ none)
      × IsClean input.events
      × ((w : Workspace) × (input.success_workspace ≡ some w) × IsBorneOut w)
unfolding classify_failure terminal_of classify_error
success_only_if with_tail input h = elim (Bool-cases input.cancel_requested) [
  | inl c ↦ ground arith
  | inr c ↦ elim (Option-cases input.error) [
    | inr (t, e) ↦ ground (arith, error_not_success t)
    | inl e ↦
        let clean =
          terminal_success (classify_provider_completion with_tail input.events)
            input.success_workspace (ground arith) in
        (c, e, (clean_exit_iff with_tail input.events).0 clean.0, clean.1)
  ]
]
