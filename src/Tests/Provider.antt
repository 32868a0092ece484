-- ===== src/Tests/Provider.antt =====
-- Provider logs that no_fields cleanly, and what they are classified as.
use symphonika.Base.{true, false, none, some, String, ◌<>◌, List, [], ◌∷◌, ◌≡◌, ◌↔◌, refl}
use symphonika.Base.Json.{Event, no_fields, with_field, number, text}
use symphonika.Provider.{Kind}
use symphonika.Provider.Completion.{clean_exit, first, classify_exit, classify_provider_completion}
use symphonika.Provider.Completion.CleanExit.{IsClean, clean_exit_iff}
use symphonika.Provider.Classify.{
  Input, Workspace, classify_failure, terminal_of, verify_workspace_success, branch_advanced,
}
use symphonika.Provider.Classify.Success.{IsBorneOut, success_only_if}

-- The end of the provider's stderr, appended to a reason.
abbrev with_tail : String → String
with_tail reason = reason <> ": bye"

abbrev log : List Event
log =
    record { type = "message"; fields = with_field "text" (text "done") no_fields }
    ∷ record { type = "process_exit"; fields = with_field "exitCode" (number 0) no_fields }
    ∷ []

clean_exit_iff_example : (classify_provider_completion with_tail log ≡ clean_exit) ↔ IsClean log
clean_exit_iff_example = clean_exit_iff with_tail log

abbrev workspace : Workspace
workspace = record {
  allow_zero_commits = false;
  head_inspection_failed = false;
  content_digest_at_start = some "d";
  commits_ahead = some true;
  content_digest = some "e";
}

abbrev input : Input
input = record {
  cancel_requested = false;
  error = none;
  events = log;
  success_workspace = some workspace;
}

succeeds : (classify_failure with_tail input).kind ≡ Kind.success
unfolding classify_failure terminal_of verify_workspace_success branch_advanced first classify_exit
    classify_provider_completion
succeeds = refl

success_only_if_example :
    (input.cancel_requested ≡ false)
    × (input.error ≡ none)
    × IsClean input.events
    × ((w : Workspace) × (input.success_workspace ≡ some w) × IsBorneOut w)
success_only_if_example = success_only_if with_tail input succeeds
