-- ===== src/Task/Types.antt =====
-- crawler/task/task.go: the data of a task.
-- Left out of `Task` are its two interface fields (`Pipeline`, `Storage`): no operation of the
-- modelled files reads them.
use go_backend_kit.Common.{ℕ, String, Bool, Option, List, ℤ, pos, Dict, Time, Duration}

pub data Status : Type 0 where
  pending queued running completed failed retrying cancelled : Status

pub Status-discrete : Discrete Status
Status-discrete = hlevel

-- `Priority` is an `int`; these are its named values.
abbrev pub priority_low : ℤ
priority_low = pos 0

abbrev pub priority_normal : ℤ
priority_normal = pos 1

abbrev pub priority_high : ℤ
priority_high = pos 2

abbrev pub priority_urgent : ℤ
priority_urgent = pos 3

-- The named values of `Type`.
abbrev pub type_seed : String
type_seed = "seed"

abbrev pub type_detail : String
type_detail = "detail"

-- A dynamic value (`interface{}`): a text, a Boolean, an instant, an entry of the cron library, or
-- any other.
pub data Value : Type 0 where
  text : String → Value
  flag : Bool → Value
  moment : Time → Value
  entry : ℕ → Value
  other : ℕ → Value

pub record TransformRule : Type 0 where
  pub kind : String
  pub params : Dict String Value

mutual
  -- Field, selector, type, attribute, multiple, required, default, transform, children.
  pub data ExtractRule : Type 0 where
    rule :
        String
        → String
        → String
        → String
        → Bool
        → Bool
        → Value
        → List TransformRule
        → ExtractRules
        → ExtractRule

  pub data ExtractRules : Type 0 where
    no_rules : ExtractRules
    rules : ExtractRule → ExtractRules → ExtractRules

pub record StorageConfig : Type 0 where
  pub kind : String
  pub database : String
  pub collection : String
  pub table : String
  pub bucket : String
  pub path : String
  pub format : String
  pub options : Dict String Value

-- The fields that no operation of task.go and queue.go changes after creation.
pub record Details : Type 0 where
  pub parent_id : String
  pub name : String
  pub body : List ℕ
  pub proxy : String
  pub user_agent : String
  pub follow_redirect : Bool
  pub extract_rules : ExtractRules
  pub pipeline_id : String
  pub storage_conf : StorageConfig
  pub depth : ℤ
  pub source : String
  pub project_id : String
  pub lua_script : String
  pub batch_id : String
  pub batch_size : ℤ
  pub batch_index : ℤ
  pub batch_type : String
  pub on_success : String
  pub on_failure : String
  pub on_complete : String

pub record Task : Type 0 where
  pub id : String
  pub url : String
  pub hash : String
  pub task_type : String
  pub priority : ℤ
  pub status : Status
  pub node_id : String
  pub retry_count : ℤ
  pub max_retries : ℤ
  pub retry_delay : Duration
  pub last_error : String
  pub created_at : Time
  pub queued_at : Option Time
  pub started_at : Option Time
  pub completed_at : Option Time
  pub expires_at : Option Time
  pub method : String
  pub headers : Dict String String
  pub cookies : Dict String String
  pub timeout : Duration
  pub metadata : Dict String Value
  pub tags : List String
  pub details : Details
