-- ===== src/Instances/Types.antt =====
-- crawler/task/manager.go: the data of the task manager.
use go_backend_kit.Common.{String, Option, List, ℤ, Dict, Time, Duration}
use go_backend_kit.Task.{Task, Value}
use go_backend_kit.Dispatch.{NodeInfo}

pub data TaskState : Type 0 where
  created allocated running paused completed failed cancelled timeout : TaskState

-- Left out are the worker, the result, the error and the progress (a `float64`), which no method
-- reads.
pub record TaskInstance : Type 0 where
  pub id : String
  pub definition_id : String
  pub task : Task
  pub state : TaskState
  pub node_id : String
  pub context : Dict String Value
  pub variables : Dict String Value
  pub created_at : Time
  pub started_at : Option Time
  pub completed_at : Option Time
  pub depends_on : List String
  pub last_heartbeat : Time
  pub metrics : Dict String Value

-- The channels hold identifiers, and `retrying` is the one that the allocation worker holds while it
-- sleeps. `saved` and `published` are what was written to Redis and its channel, newest first;
-- errors of these are only logged.
pub record TaskManager : Type 0 where
  pub tasks : Dict String TaskInstance
  pub total_tasks : ℤ
  pub active_tasks : ℤ
  pub completed_tasks : ℤ
  pub failed_tasks : ℤ
  pub task_timeout : Duration
  pub task_chan : List String
  pub complete_chan : List String
  pub retrying : Option String
  pub saved : List TaskInstance
  pub published : List (String × TaskState × TaskState)

-- The errors; the last two are panics, on a node that is `nil` and on an index out of range.
pub data ManagerError : Type 0 where
  no_definition no_template no_url task_refused not_found nodes_unknown no_nodes : ManagerError
  nil_node bad_index : ManagerError

-- The fields of a template that are read.
pub record Template : Type 0 where
  pub name : String
  pub definition : String

-- What comes from outside: the time and the clock of the allocator, what Redis has under an
-- identifier, the tasks that definitions make, and the available nodes.
pub record Outside : Type 0 where
  pub now : Time
  pub nanos : ℤ
  pub fresh_id : String
  pub load : String → Option TaskInstance
  pub create_task : String → Option (String → Dict String Value → Option Task)
  pub templates : String → Option Template
  pub template_task : String → Dict String Value → Option Task
  pub nodes : Option (List NodeInfo)
