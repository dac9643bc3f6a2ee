-- ===== src/Cluster/Types.antt =====
-- crawler/distributed: the data of nodes, results and Redis, as the cluster's code uses it.
use go_backend_kit.Common.{
  ℕ, String, Bool, ◌≡◌, ◌≢◌, Option, none, some, List, [], ◌∷◌, ◌++◌, ℤ, pos, negsuc, Dict, Time,
  Duration, take, drop, suc,
}
use go_backend_kit.Task.{Task, Value}

-- The part of a node's metrics that the cluster manager reads.
pub record NodeMetrics : Type 0 where
  pub tasks_processed : ℤ
  pub tasks_failed : ℤ
  pub tasks_in_queue : ℤ
  pub bytes_downloaded : ℤ
  pub items_extracted : ℤ

pub record ClusterNode : Type 0 where
  pub id : String
  pub ip : String
  pub port : ℤ
  pub status : String
  pub max_workers : ℤ
  pub last_heartbeat : Time
  pub updated_at : Time
  pub tags : List String
  pub capabilities : List String
  pub metrics : Option NodeMetrics

pub record TaskResult : Type 0 where
  pub task_id : String
  pub node_id : String
  pub status : String
  pub items : List (Dict String Value)
  pub error : String
  pub duration : Duration
  pub batch_id : String
  pub batch_size : ℤ
  pub batch_index : ℤ
  pub batch_type : String
  pub project_id : String
  pub source : String
  pub metadata : Dict String Value

-- The keys that are used, each a format of its own after the prefix.
pub data RedisKey : Type 0 where
  pending_tasks completed_tasks : RedisKey
  node_queue assignment_of task_of failure_of result_of batch_processed : String → RedisKey

-- What is stored as text: the JSON of a task or of a result, a bare identifier, the JSON of an
-- assignment, of a failure with its reason, or of an event.
pub data Entry : Type 0 where
  encoded : Task → Entry
  bare : String → Entry
  assigned_to : String → Entry
  failure : String → ℤ → Entry
  stored_result : TaskResult → Entry
  task_completed : String → Entry
  batch_completed : String → Dict String Value → Entry

-- `json.Unmarshal` into a task.
abbrev pub decode_task : Entry → Option Task
decode_task (encoded t) = some t
decode_task e = none

-- The commands that are used. An answer `none` or `false` is an error.
pub record RedisOps (R : Type 0) : Type 0 where
  pub lrange : RedisKey → ℤ → ℤ → R → Option (List Entry)
  pub ltrim : RedisKey → ℤ → ℤ → R → R
  pub rpush : RedisKey → Entry → R → R × Bool
  pub lpush : RedisKey → Entry → R → R × Bool
  pub rpop : RedisKey → R → R × Option Entry
  pub set_value : RedisKey → Entry → Duration → R → R
  pub incr : RedisKey → R → R × Option ℤ
  pub expire : RedisKey → Duration → R → R
  pub del : RedisKey → R → R

-- What the documentation of Redis says of lists, for the pending queue in a Redis that carries out
-- each command.
pub record ListLaws {R : Type 0} (ops : RedisOps R) : Type 0 where
  pub view : R → List Entry
  pub lrange_first :
      (n : ℕ) (r : R) → ops.lrange pending_tasks (pos 0) (pos n) r ≡ some (take (suc n) (view r))
  pub ltrim_rest :
      (n : ℕ) (r : R) → view (ops.ltrim pending_tasks (pos n) (negsuc 0) r) ≡ drop n (view r)
  pub rpush_last : (e : Entry) (r : R) → view (ops.rpush pending_tasks e r).0 ≡ view r ++ e ∷ []
  pub set_value_others :
      (k : RedisKey) (e : Entry) (d : Duration) (r : R)
      → pending_tasks ≢ k
      → view (ops.set_value k e d r) ≡ view r
