-- ===== src/Dispatch/Types.antt =====
-- crawler/task/dispatcher.go: nodes, strategies and the state of the dispatcher.
use go_backend_kit.Common.{String, List, ℤ, Dict, Time}
use go_backend_kit.Task.{Task}

pub data Strategy : Type 0 where
  round_robin least_load random hash sticky : Strategy

pub record NodeInfo : Type 0 where
  pub id : String
  pub address : String
  pub capacity : ℤ
  pub current_load : ℤ
  pub status : String
  pub last_heartbeat : Time
  pub tags : List String
  pub capabilities : List String

-- The state that the methods read and change. `assignments` stands for what `assignTask` has
-- written to Redis, newest first: the identifiers of a task and its node.
pub record Dispatcher (Q : Type 0) : Type 0 where
  pub queue : Q
  pub nodes : Dict String NodeInfo
  pub strategy : Strategy
  pub dispatched : ℤ
  pub failed : ℤ
  pub batch_size : ℤ
  pub task_chan : List Task
  pub assignments : List (String × String)

-- What choosing a node ends in: a node, `nil`, or an index out of range.
pub data Pick : Type 0 where
  chosen : NodeInfo → Pick
  no_node crash : Pick
