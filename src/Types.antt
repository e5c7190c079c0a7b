-- ===== src/Types.antt =====
-- common/types.py: the domain types that the scheduler's parts share. Identifiers are native texts;
-- contents, family names and cluster keys are lists of code points. Fields that no modelled
-- operation reads (timing and token counts of a result, the tool manifest) are left out.
use clique.Prelude.{ℕ, String, Bool, true, false, Option, List}

abbrev pub Text : Type 0
Text = List ℕ

pub data NodeRole : Type 0 where
  server client : NodeRole

pub data NodeStatus : Type 0 where
  joining ready busy draining offline : NodeStatus

pub data TaskState : Type 0 where
  queued assigned running succeeded failed cancelled expired : TaskState

pub data TaskType : Type 0 where
  chat code_generation code_edit summarization embedding other : TaskType

pub record CodeTaskSpec : Type 0 where
  pub base_sha : String
  pub files : List (String × Text)
  pub allowed_paths : List Text
  pub test_cmd : List String
  pub timeout_s : ℕ
  pub patch_budget_kb : ℕ
  pub use_tools : Bool

pub record ChatMessage : Type 0 where
  pub role : Text
  pub content : Text

pub record TaskRequest : Type 0 where
  pub task_id : String
  pub submitted_by_node : String
  pub task_type : TaskType
  pub prompt : Text
  pub messages : Option (List ChatMessage)
  pub session_id : Option String
  pub model_hint : Option Text
  pub workspace_id : Option String
  pub workspace_seq : ℕ
  pub max_output_tokens : ℕ
  pub record_turns : Bool
  pub compaction_covers : Option (ℕ × ℕ)
  pub idempotency_key : String
  pub code : Option CodeTaskSpec

pub record TaskResult : Type 0 where
  pub task_id : String
  pub attempt_id : String
  pub state : TaskState
  pub output : Option Text
  pub error : Option String
  pub patch : Option Text
  pub applied_sha : Option String

pub record TaskView : Type 0 where
  pub request : TaskRequest
  pub state : TaskState
  pub assigned_node : Option String
  pub attempt_id : Option String
  pub attempts : ℕ
  pub result : Option TaskResult

pub record Session : Type 0 where
  pub session_id : String
  pub owner_node : String
  pub cluster_key : Text
  pub pinned_node : Option String
  pub context_version : ℕ
  pub watchers : List String

-- `state IN ('succeeded', 'failed', 'cancelled', 'expired')`
abbrev pub is_terminal : TaskState → Bool
is_terminal succeeded = true
is_terminal failed = true
is_terminal cancelled = true
is_terminal expired = true
is_terminal _ = false

-- `state IN ('assigned', 'running')`
abbrev pub in_flight : TaskState → Bool
in_flight assigned = true
in_flight running = true
in_flight _ = false

-- `state == TaskState.FAILED`
abbrev pub is_failed : TaskState → Bool
is_failed failed = true
is_failed _ = false

-- `state == 'queued'`
abbrev pub is_queued : TaskState → Bool
is_queued queued = true
is_queued _ = false

-- `state == 'assigned'`
abbrev pub is_assigned : TaskState → Bool
is_assigned assigned = true
is_assigned _ = false

-- What the scheduler uses of Python's floats: a parameter, with the arithmetic left abstract.
pub record Float : Type 1 where
  pub F : Type 0
  pub of_nat : ℕ → F
  pub add : F → F → F
  pub sub : F → F → F
  pub mul : F → F → F
  pub div : F → F → F
  pub least : F → F → F
  pub lt : F → F → Bool
  pub le : F → F → Bool
  pub is_zero : F → Bool
  -- the format `:g`
  pub show_g : F → Text

-- The fields that the scheduler uses; so in the two records below.
pub record ModelSpec (F : Type 0) : Type 0 where
  pub family : Text
  pub parameter_count_b : F
  pub quantization : Text
  pub artifact_hash : Option Text
  pub context_window : ℕ
  pub parallel_slots : ℕ
  pub capabilities : List TaskType

pub record ResourceSnapshot (F : Type 0) : Type 0 where
  pub cpu_percent : Option F
  pub memory_available_mb : Option ℕ
  pub on_battery : Option Bool
  pub measured_decode_tok_s : Option F

pub record NodeInfo (F : Type 0) : Type 0 where
  pub node_id : String
  pub display_name : String
  pub role : NodeRole
  pub status : NodeStatus
  pub address : String
  pub public_key : String
  pub model : Option (ModelSpec F)
  pub resources : Option (ResourceSnapshot F)
  pub last_heartbeat_at : Option ℕ
  pub current_task_id : Option String
  pub offline_since : Option ℕ
  pub last_task_duration_s : ℕ
