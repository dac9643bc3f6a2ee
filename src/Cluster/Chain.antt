-- ===== src/Cluster/Chain.antt =====
-- crawler/distributed/middleware.go, batch_middleware.go: the middleware that sees each result.
use go_backend_kit.Common.{
  String, Bool, Option, none, some, List, [], ◌∷◌, ◌++◌, ℤ, pos, ◌+ℤ◌, eq_ℤ, leb_ℤ, wrap64, Dict,
  put, string_key, str_eq, Duration, seconds, length, if◌then◌else◌, ◌%◌, pos_part, neg_part, ◌+◌,
  ◌==◌,
}
use go_backend_kit.Task.{Value, text}
use go_backend_kit.Cluster.Types.{
  TaskResult, RedisOps, completed_tasks, batch_processed, task_completed, batch_completed,
}

-- How a middleware ends: with `nil`, an error, or a panic.
pub data Outcome : Type 0 where
  passed failed_with crashed : Outcome

abbrev pub Next : Type 0 → Type 0
Next S = S → S × Outcome

abbrev pub Middleware : Type 0 → Type 0
Middleware S = TaskResult → Next S → Next S

-- `Execute`: the first middleware gets the rest of the chain as `next`.
unfoldable pub execute : {S : Type 0} → List (Middleware S) → TaskResult → Next S
execute [] r s = (s, passed)
execute (m ∷ ms) r s = m r (execute ms r) s

unfoldable pub add_middleware :
    {S : Type 0} → Middleware S → List (Middleware S) → List (Middleware S)
add_middleware m ms = ms ++ m ∷ []

pub record Metrics : Type 0 where
  pub success_count : ℤ
  pub failure_count : ℤ
  pub total_items : ℤ

-- What the middleware of the coordinator reads and changes.
pub record ChainState (R : Type 0) : Type 0 where
  pub redis : R
  pub metrics : Metrics

unfoldable pub count_result : TaskResult → Metrics → Metrics
count_result r m =
    if str_eq r.error ""
    then record m {
      success_count = wrap64 (m.success_count +ℤ pos 1);
      total_items = wrap64 (m.total_items +ℤ pos (length r.items));
    }
    else record m { failure_count = wrap64 (m.failure_count +ℤ pos 1) }

-- Every hundredth result logs an average, which divides by the number of successes.
unfoldable pub logs_average : Metrics → Bool
logs_average m =
    let total = wrap64 (m.success_count +ℤ m.failure_count) in
    (pos_part total + neg_part total) % 100 == 0

unfoldable pub metrics_process : {R : Type 0} → Middleware (ChainState R)
unfolding count_result logs_average
metrics_process r next s =
    let m = count_result r s.metrics in
    let counted = record s { metrics = m } in
    if logs_average m
    then (if eq_ℤ m.success_count (pos 0) then (counted, crashed) else next counted)
    else next counted

-- The entries of `more` replace those of the event.
unfoldable pub merge : Dict String Value → Dict String Value → Dict String Value
merge [] m = m
merge ((k, v) ∷ more) m = merge more (put k v m)

unfoldable pub batch_event_metadata : TaskResult → Dict String Value
unfolding merge
batch_event_metadata r =
    merge r.metadata (("project_id", text r.project_id) ∷ ("source", text r.source) ∷ [])

module _ {R : Type 0} (ops : RedisOps R) where
  -- Times, durations and the item count of the event are left out. A failure is only logged.
  unfoldable pub publish_single_task_event : TaskResult → R → R
  publish_single_task_event r s = (ops.rpush completed_tasks (task_completed r.task_id) s).0

  unfoldable pub publish_batch_complete_event : TaskResult → R → R
  unfolding batch_event_metadata
  publish_batch_complete_event r s =
      (ops.rpush completed_tasks (batch_completed r.batch_id (batch_event_metadata r)) s).0

  unfoldable pub set_ttl : String → Duration → ℤ → R → R
  set_ttl batch ttl count s =
      if eq_ℤ count (pos 1) then ops.expire (batch_processed batch) ttl s else s

  unfoldable pub finish_batch : TaskResult → ℤ → R → R
  unfolding publish_batch_complete_event
  finish_batch r count s =
      if leb_ℤ r.batch_size count
      then ops.del (batch_processed r.batch_id) (publish_batch_complete_event r s)
      else s

  -- What follows the increment, which Redis may refuse.
  unfoldable pub counted_batch :
      Duration
      → TaskResult
      → Next (ChainState R)
      → ChainState R
      → R × Option ℤ
      → ChainState R × Outcome
  unfolding set_ttl finish_batch
  counted_batch ttl r next s (redis, none) = (record s { redis = redis }, failed_with)
  counted_batch ttl r next s (redis, some count) =
      next (record s { redis = finish_batch r count (set_ttl r.batch_id ttl count redis) })

  unfoldable pub batch_process : Duration → Middleware (ChainState R)
  unfolding publish_single_task_event counted_batch
  batch_process ttl r next s =
      if str_eq r.batch_id ""
      then next (record s { redis = publish_single_task_event r s.redis })
      else counted_batch ttl r next s (ops.incr (batch_processed r.batch_id) s.redis)

  unfoldable pub event_publish_process : Middleware (ChainState R)
  event_publish_process r next s =
      next (record s { redis = (ops.rpush completed_tasks (task_completed r.task_id) s.redis).0 })

  -- `setupDefaultMiddleware`: batches, kept for two hours, then metrics.
  unfoldable pub default_middleware : List (Middleware (ChainState R))
  default_middleware =
      add_middleware metrics_process (add_middleware (batch_process (seconds (pos 7200))) [])
