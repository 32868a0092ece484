-- ===== src/Workflow/Reasons/Parse.antt =====
-- A reason that was written is read back, and no reader takes another's.
use symphonika.Base.{false, some, String, ◌<>◌, [], ◌∷◌, ◌≡◌, ◌≢◌, refl, arith, str_eq, eq_iff}
use symphonika.Base.Texts.{split, split_at, has_code}
use symphonika.Workflow.Reasons.{
  build_no_progress_reason, parse_no_progress_reason, CapReachedKind, no_commits, no_pr,
  work_landed, unknown, build_cap_reached_reason, parse_cap_reached_reason, suffix,
  no_progress_prefix, colon,
}
use Prim.Native.String.{[] as ε, ◌∷◌ as ◌◂◌}
use text.Mathlib.TextPositions.{starts_with-append, slice-append_right, len-append}
use text.Mathlib.TextLemmas.{nil-append, cons-append}

split_at-piece :
    (s t : String) → has_code colon s ≡ false → split_at colon (s <> ":" <> t) ≡ (s, split colon t)
unfolding split_at split has_code
split_at-piece ε t h = rw (nil-append (":" <> t), cons-append ":" ε t, nil-append t)
split_at-piece (c ◂ s) t h = rw (cons-append c s (":" <> t)) (ground (arith, split_at-piece s t))

split_at-last : (s : String) → has_code colon s ≡ false → split_at colon s ≡ (s, [])
unfolding split_at has_code
split_at-last ε h = refl
split_at-last (c ◂ s) h = ground (arith, split_at-last s)

split-pair :
    (s t : String)
    → has_code colon s ≡ false
    → has_code colon t ≡ false
    → split colon (s <> ":" <> t) ≡ s ∷ t ∷ []
unfolding split
split-pair s t h k = rw (split_at-piece s t h, split_at-last t k)

not_empty : (s : String) → s ≢ "" → str_eq s "" ≡ false
not_empty s h = ground (arith, eq_iff s "")

suffix-append : (s t : String) → suffix s (s <> t) ≡ t
suffix-append s t = rw (len-append s t) (slice-append_right s t)

-- The reason that is written for a held edge is read back as that edge, if the ids are not empty
-- and hold no colon.
pub parse-build_no_progress :
    (from_state_id to_state_id : String)
    → from_state_id ≢ ""
    → to_state_id ≢ ""
    → has_code colon from_state_id ≡ false
    → has_code colon to_state_id ≡ false
    → parse_no_progress_reason (some (build_no_progress_reason from_state_id to_state_id))
      ≡ some (from_state_id, to_state_id)
unfolding parse_no_progress_reason build_no_progress_reason
parse-build_no_progress f t f≢ t≢ hf ht = rw (
  starts_with-append no_progress_prefix (f <> ":" <> t),
  suffix-append no_progress_prefix (f <> ":" <> t),
  split-pair f t hf ht,
  not_empty f f≢,
  not_empty t t≢,
)

-- Each kind that is written after the continuation cap is read back as itself.
parse-build_cap_reached :
    (kind : CapReachedKind)
    → parse_cap_reached_reason (some (build_cap_reached_reason kind)) ≡ some kind
unfolding parse_cap_reached_reason build_cap_reached_reason
parse-build_cap_reached no_commits = refl
parse-build_cap_reached no_pr = refl
parse-build_cap_reached work_landed = refl
parse-build_cap_reached unknown = refl
