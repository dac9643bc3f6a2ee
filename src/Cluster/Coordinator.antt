-- ===== src/Cluster/Coordinator.antt =====
-- crawler/distributed/coordinator.go: tasks from Redis to the nodes, and their results.
-- Iterations over maps take the order of the list. Whether the hub sends a message to a node, and
-- the nodes of the cluster, come from outside; Redis calls whose errors are dropped have none.
use go_backend_kit.Common.{
  ℕ, suc, ◌%◌, String, Bool, true, false, Option, none, some, List, [], ◌∷◌, ℤ, pos, negsuc, ◌+ℤ◌,
  ◌-ℤ◌, ltb_ℤ, wrap64, Dict, get, put, string_key, str_eq, Time, Duration, sub_time, seconds,
  length, get_elem?, keep_if, if◌then◌else◌,
}
use go_backend_kit.Task.{Task, retrying, failed}
use go_backend_kit.Dispatch.{Dispatcher}
use go_backend_kit.Cluster.Types.{
  ClusterNode, pending_tasks, assignment_of, task_of, failure_of, Entry, encoded, bare, assigned_to,
  failure, decode_task, RedisOps,
}
use go_backend_kit.Cluster.Assign.{Format, TaskAssignment, assignment_message}
use go_backend_kit.Cluster.Chain.{Middleware, ChainState}

pub record CoordinatorConfig : Type 0 where
  pub task_timeout : Duration
  pub batch_size : ℤ

-- `updated` is what the scheduler was told, newest first.
pub record Coordinator (R Q : Type 0) : Type 0 where
  pub config : CoordinatorConfig
  pub chain : ChainState R
  pub middlewares : List (Middleware (ChainState R))
  pub dispatcher : Dispatcher Q
  pub has_scheduler : Bool
  pub assignments : Dict String String
  pub pending : Dict String Task
  pub updated : List (String × Bool × String)

-- The hub, and what new tasks are made with.
pub record Surroundings : Type 0 where
  pub now : Time
  pub format : Format
  pub send : String → TaskAssignment → Bool
  pub fresh_id : ℕ → String
  pub hash_url : String → String

unfoldable pub active_nodes : List ClusterNode → List ClusterNode
active_nodes ns = keep_if (λ n. str_eq n.status "active") ns

unfoldable pub has_timed_out : Time → Duration → Task → Bool
has_timed_out now limit t = elim t.started_at [
  | none ↦ false
  | some at ↦ ltb_ℤ limit (sub_time now at)
]

abbrev pub with_redis : {R Q : Type 0} → R → Coordinator R Q → Coordinator R Q
with_redis r c = let s = c.chain in record c { chain = record s { redis = r } }

module _ {R Q : Type 0} (ops : RedisOps R) where
  -- After the hub has taken the message.
  unfoldable pub record_assignment : Task → String → Coordinator R Q → Coordinator R Q
  record_assignment t node c =
      with_redis
        (ops.set_value (assignment_of t.id) (assigned_to node) (seconds (pos 1800)) c.chain.redis)
        (record c { assignments = put t.id node c.assignments; pending = put t.id t c.pending })

  unfoldable pub assign_task_to_node :
      Surroundings → Task → ClusterNode → Coordinator R Q → Coordinator R Q × Bool
  unfolding assignment_message record_assignment
  assign_task_to_node env t n c =
      if env.send n.id (assignment_message env.format t)
      then (record_assignment t n.id c, true)
      else (c, false)

  -- A task of a batch.
  unfoldable pub distribute_task :
      Surroundings → Task → ClusterNode → Coordinator R Q → Coordinator R Q
  unfolding assign_task_to_node
  distribute_task env t n c =
      let (c', sent) = assign_task_to_node env t n c in
      if sent then c' else with_redis (ops.rpush pending_tasks (encoded t) c'.chain.redis).0 c'

  -- Round robin over the active nodes, of which there is at least one. An entry that is not the JSON
  -- of a task is skipped.
  unfoldable pub distribute_to :
      Surroundings → Option Task → Option ClusterNode → Coordinator R Q → Coordinator R Q
  unfolding distribute_task
  distribute_to env none n c = c
  distribute_to env (some t) none c = c
  distribute_to env (some t) (some n) c = distribute_task env t n c

  unfoldable pub distribute_each :
      Surroundings → List ClusterNode → ℕ → List Entry → Coordinator R Q → Coordinator R Q
  unfolding distribute_to
  distribute_each env active i [] c = c
  distribute_each env active i (e ∷ es) c =
      distribute_each env active (suc i) es
        (distribute_to env (decode_task e) (get_elem? active (i % length active)) c)

  unfoldable pub distribute_fetched :
      Surroundings → List ClusterNode → Option (List Entry) → Coordinator R Q → Coordinator R Q
  unfolding distribute_each
  distribute_fetched env active none c = c
  distribute_fetched env active (some []) c = c
  distribute_fetched env active (some (e ∷ es)) c =
      distribute_each env active 0 (e ∷ es)
        (with_redis (ops.ltrim pending_tasks (pos (length (e ∷ es))) (negsuc 0) c.chain.redis) c)

  unfoldable pub distribute_active :
      Surroundings → List ClusterNode → Coordinator R Q → Coordinator R Q
  unfolding distribute_fetched
  distribute_active env [] c = c
  distribute_active env (n ∷ ns) c =
      distribute_fetched env (n ∷ ns)
        (ops.lrange pending_tasks (pos 0) (wrap64 (c.config.batch_size -ℤ pos 1)) c.chain.redis) c

  unfoldable pub distribute_task_batch :
      Surroundings → List ClusterNode → Coordinator R Q → Coordinator R Q
  unfolding distribute_active active_nodes
  distribute_task_batch env nodes c = distribute_active env (active_nodes nodes) c

  -- The task of a failure, which stays among the pending ones.
  unfoldable pub retry_or_fail : String → String → Task → Coordinator R Q → Coordinator R Q
  retry_or_fail id reason t c =
      if ltb_ℤ t.retry_count t.max_retries
      then (let t' : Task = record t {
        retry_count = wrap64 (t.retry_count +ℤ pos 1);
        status = retrying;
      } in
          let (r, _) = ops.rpush pending_tasks (bare id) c.chain.redis in
          with_redis (ops.set_value (task_of id) (encoded t') (seconds (pos 3600)) r)
            (record c { pending = put id t' c.pending }))
      else with_redis
          (ops.set_value (failure_of id) (failure reason t.retry_count) (seconds (pos 3600))
            c.chain.redis)
          (record c { pending = put id (record t { status = failed }) c.pending })

  unfoldable pub handle_task_failure : String → String → Coordinator R Q → Coordinator R Q
  unfolding retry_or_fail
  handle_task_failure id reason c = elim (get id c.pending) [
    | none ↦ c
    | some t ↦ retry_or_fail id reason t c
  ]

  unfoldable pub check_timeouts_of : Time → List (String × Task) → Coordinator R Q → Coordinator R Q
  unfolding has_timed_out handle_task_failure
  check_timeouts_of now [] c = c
  check_timeouts_of now ((id, t) ∷ ts) c =
      check_timeouts_of now ts (
        if has_timed_out now c.config.task_timeout t then handle_task_failure id "timeout" c else c)

  unfoldable pub check_task_timeouts : Time → Coordinator R Q → Coordinator R Q
  unfolding check_timeouts_of
  check_task_timeouts now c = check_timeouts_of now c.pending c
