-- ===== src/Workflow.antt =====
-- src/workflow/types.ts: expanded workflows, their states, transitions and predicates.
pub mod Predicates
pub mod Decision
pub mod Progress
pub mod Reasons
pub mod Advancement
pub mod Outcome
pub mod Signals
use symphonika.Base.{ℕ, Bool, true, false, Option, none, some, String, List}
use symphonika.Base.Maps.{Dict}

pub data ActionKind : Type 0 where
  agent close_issue comment fail label_issue merge_pr wait : ActionKind

pub is_issue_content_action_kind : Option ActionKind → Bool
is_issue_content_action_kind (some close_issue) = true
is_issue_content_action_kind (some comment) = true
is_issue_content_action_kind (some label_issue) = true
is_issue_content_action_kind _ = false

-- A number is a natural number: the one count among the signals is one.
pub data PredicateValue : Type 0 where
  flag : Bool → PredicateValue
  count : ℕ → PredicateValue
  str : String → PredicateValue
  strings : List String → PredicateValue

abbrev pub PredicateMap : Type 0
PredicateMap = Dict PredicateValue

pub data StateReason : Type 0 where
  completed not_planned : StateReason

pub record Action : Type 0 where
  pub kind : ActionKind
  pub body : Option String
  pub labels : Option (List String)
  pub method : Option String
  pub prompt : Option String
  pub provider : Option String
  pub state_reason : Option StateReason

pub record Transition : Type 0 where
  pub to : String
  pub when : PredicateMap

pub record State : Type 0 where
  pub action : Option Action
  pub complete_when : PredicateMap
  pub id : String
  pub terminal : Option String
  pub transitions : List Transition

pub data SourceKind : Type 0 where
  markdown raw_fsm : SourceKind

pub record Workflow : Type 0 where
  pub content_hash : String
  pub initial : String
  pub name : String
  pub source_kind : SourceKind
  pub source_path : String
  pub states : List State
