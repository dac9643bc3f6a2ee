-- ===== src/Tests/Clustering.antt =====
-- crawler/distributed at concrete inputs, with a small Redis.
use mathlib.Core.Path.{subst}
use mathlib.Core.Option.{some-injective}
use go_backend_kit.Common.{
  ℕ, suc, ◌+◌, ◌*◌, ◌<◌, String, true, false, ◌≡◌, refl, ◌≢◌, none, some, Option, List, [], ◌∷◌,
  ◌++◌, pos, pos_part, take, drop, get, string_key, eq_iff, seconds, All, arith, wrap64, ◌-ℤ◌, ◌+ℤ◌,
  Bool, Time, ◌≤ℤ◌, +ℤ_parts, leb_ℤ, add_time, str_eq, if◌then◌else◌, inl,
}
use go_backend_kit.Task.{new_task}
use go_backend_kit.Queue.Priority.{PriorityQueue}
use go_backend_kit.Queue.Instances.{priority_ops}
use go_backend_kit.Cluster.Types.{
  ClusterNode, TaskResult, RedisKey, pending_tasks, completed_tasks, batch_processed, Entry,
  encoded, bare, RedisOps, ListLaws,
}
use go_backend_kit.Cluster.Chain.{ChainState, default_middleware}
use go_backend_kit.Cluster.Coordinator.{
  Coordinator, Surroundings, active_nodes, check_task_timeouts, distribute_task_batch,
}
use go_backend_kit.Cluster.Results.{handle_task_result, check_and_reassign_tasks}
use go_backend_kit.Cluster.Placing.{IsPlaced, waiting_in}
use go_backend_kit.Cluster.Drain.{Tick, IsReady, active_in, rounds, rounds_drain}
use go_backend_kit.Cluster.Accepting.{tasks_in}
use go_backend_kit.Cluster.Retries.{handle_task_result-failed, handle_task_result-dispatcher}
use go_backend_kit.Cluster.Timeouts.{no_timeouts, IsUnstarted, IsUnstartedEntry}
use go_backend_kit.Cluster.Manager.{
  new_cluster_manager, node_values, monitor_nodes, start_cluster, stop_cluster,
  update_cluster_status, not_running,
}
use go_backend_kit.Cluster.Reassign.{check_and_reassign_tasks_idle}
use go_backend_kit.Cluster.Status.{idle_cluster}
use go_backend_kit.Cluster.Counters.{CounterLaws, count_announced, two_hours}
use go_backend_kit.Cluster.Batches.{execute_each, batch_results}
use go_backend_kit.Tests.Data.{low_task, urgent_task, now, dispatcher}

-- The pending and the completed queue, the counters of batches with their expiry, and the clock.
record Store : Type 0 where
  waiting : List Entry
  finished : List Entry
  counters : String → ℕ
  deadlines : String → Option Time
  clock : Time

abbrev push_at : RedisKey → Entry → Store → Store
push_at pending_tasks e r = record r { waiting = r.waiting ++ e ∷ [] }
push_at completed_tasks e r = record r { finished = r.finished ++ e ∷ [] }
push_at k e r = r

abbrev counter_of : RedisKey → String
counter_of (batch_processed b) = b
counter_of k = ""

abbrev set_at : {A : Type 0} → String → A → (String → A) → String → A
set_at b a f c = if str_eq c b then a else f c

abbrev is_there : Time → Option Time → Bool
is_there t none = true
is_there t (some d) = leb_ℤ t d

abbrev redis_at : Time → Store → Store
redis_at t r = record r {
  clock = t;
  counters = λ b. if is_there t (r.deadlines b) then r.counters b else 0;
  deadlines = λ b. if is_there t (r.deadlines b) then r.deadlines b else none;
}

abbrev ops : RedisOps Store
ops = record {
  lrange = λ k a b r. some (take (suc (pos_part b)) r.waiting);
  ltrim = λ k a b r. record r { waiting = drop (pos_part a) r.waiting };
  rpush = λ k e r. (push_at k e r, true);
  lpush = λ k e r. (r, true);
  rpop = λ k r. (r, none);
  set_value = λ k e d r. r;
  incr = λ k r. (
    record r { counters = set_at (counter_of k) (suc (r.counters (counter_of k))) r.counters },
    some (pos (suc (r.counters (counter_of k)))),
  );
  expire = λ k d r. record r {
    deadlines = set_at (counter_of k) (some (add_time r.clock d)) r.deadlines;
  };
  del = λ k r. record r {
    counters = set_at (counter_of k) 0 r.counters;
    deadlines = set_at (counter_of k) none r.deadlines;
  };
}

set_at-same : {A : Type 0} (b : String) (a : A) (f : String → A) → set_at b a f b ≡ a
set_at-same b a f = let same : str_eq b b ≡ true = ground (arith, eq_iff b b) in rw same refl

kept_until : (t d : Time) (o : Option Time) → o ≡ some d → t ≤ℤ d → is_there t o ≡ true
kept_until t d o e h = rw e (ground arith)

gone_after :
    (t d : Time) (o : Option Time)
    → o ≡ some d
    → add_time d (pos 1000000) ≤ℤ t
    → is_there t o ≡ false
gone_after t d o e h = rw e (ground (arith, +ℤ_parts d (pos 1000000)))

none_then : (b : Bool) (n : ℕ) → n ≡ 0 → (if b then n else 0) ≡ 0
none_then true n h = h
none_then false n h = refl

list_laws : ListLaws ops
list_laws = record {
  view = λ r. r.waiting;
  lrange_first = λ n r. refl;
  ltrim_rest = λ n r. refl;
  rpush_last = λ e r. refl;
  set_value_others = λ k e d r ne. refl;
}

counter_laws : CounterLaws ops
counter_laws = record {
  processed = λ b r. r.counters b;
  completed = λ r. r.finished;
  deadline = λ b r. r.deadlines b;
  clock = λ r. r.clock;
  at_time = redis_at;
  time_passes = λ now r h. (refl, refl);
  none_stays = λ b now r h. none_then (is_there now (r.deadlines b)) (r.counters b) h;
  counter_stays = λ b now d r h e k. rw (kept_until now d (r.deadlines b) e k) (refl, e);
  counter_expires = λ b now d r e k. rw (gone_after now d (r.deadlines b) e k) refl;
  incr_next = λ b r. (refl, set_at-same b (suc (r.counters b)) r.counters, refl, refl, refl);
  expire_sets = λ b n r h. (
    refl,
    refl,
    set_at-same b (some (add_time r.clock (seconds (pos (suc n))))) r.deadlines,
    refl,
  );
  del_zero = λ b r. (set_at-same b 0 r.counters, refl, refl);
  rpush_last = λ b e r. (refl, refl, refl);
}

abbrev worker : String → String → ClusterNode
worker id status = record {
  id = id;
  ip = "10.0.0.1";
  port = pos 8080;
  status = status;
  max_workers = pos 4;
  last_heartbeat = now;
  updated_at = now;
  tags = [];
  capabilities = [];
  metrics = none;
}

abbrev workers : List ClusterNode
workers = worker "a" "active" ∷ worker "b" "offline" ∷ worker "c" "active" ∷ []

abbrev connected : Surroundings
connected = record {
  now = now;
  format = record { value_text = λ v. ""; int_text = λ n. "" };
  send = λ node m. true;
  fresh_id = λ i. "new";
  hash_url = λ s. s;
}

abbrev coordinator : Coordinator Store PriorityQueue
coordinator = record {
  config = record { task_timeout = seconds (pos 300); batch_size = pos 2 };
  chain = record {
    redis = record {
      waiting = encoded low_task ∷ bare "lost" ∷ encoded urgent_task ∷ [];
      finished = [];
      counters = λ b. 0;
      deadlines = λ b. none;
      clock = pos 0;
    };
    metrics = record { success_count = pos 0; failure_count = pos 0; total_items = pos 0 };
  };
  middlewares = default_middleware ops;
  dispatcher = dispatcher;
  has_scheduler = false;
  assignments = [];
  pending = [];
  updated = [];
}

-- The next tick comes a second later and finds other nodes.
abbrev ticks : List Tick
ticks =
    (connected, workers)
    ∷ (
      record connected { now = add_time now (seconds (pos 1)) },
      worker "b" "active" ∷ worker "c" "offline" ∷ [],
    )
    ∷ []

ticks-All-IsReady : All IsReady ticks
unfolding active_nodes
ticks-All-IsReady = ((λ node m. refl, omega arith), ((λ node m. refl, omega arith), tt))

rounds_drain_example :
    (waiting_in ops list_laws (rounds ops ticks coordinator) ≡ [])
    × All
        (IsPlaced (active_in ticks) (rounds ops ticks coordinator))
        (tasks_in (waiting_in ops list_laws coordinator))
unfolding list_laws
rounds_drain_example =
    rounds_drain ops list_laws 1 ticks coordinator ticks-All-IsReady refl (omega arith)
      (omega arith)

abbrev result : String → String → TaskResult
result id error = record {
  task_id = id;
  node_id = "a";
  status = "done";
  items = [];
  error = error;
  duration = seconds (pos 1);
  batch_id = "batch";
  batch_size = pos 2;
  batch_index = pos 0;
  batch_type = "";
  project_id = "";
  source = "";
  metadata = [];
}

-- A result an hour after the other.
abbrev both : List (Time × TaskResult)
both = (pos 0, result "t1" "") ∷ (seconds (pos 3600), result "t2" "") ∷ []

abbrev after_both : ChainState Store
after_both = execute_each redis_at (default_middleware ops) both coordinator.chain

not_empty : ◌≢◌ {A = String} "batch" ""
not_empty e = ground (arith, eq_iff "batch" "")

batch_results_example :
    (counter_laws.processed "batch" after_both.redis < 2)
    × (2 * count_announced "batch" (counter_laws.completed after_both.redis)
          + counter_laws.processed "batch" after_both.redis
        ≡ 2 * count_announced "batch" (counter_laws.completed coordinator.chain.redis)
          + counter_laws.processed "batch" coordinator.chain.redis
          + 2)
    × (counter_laws.processed "batch" (counter_laws.at_time (seconds (pos 20000)) after_both.redis)
        ≡ 0)
unfolding counter_laws ◌+ℤ◌
batch_results_example =
    batch_results ops counter_laws "batch" two_hours 2 both coordinator.chain (seconds (pos 20000))
      not_empty ((refl, refl), ((refl, refl), tt))
      (omega arith, omega arith, (omega arith, omega arith, tt)) (omega arith) (omega arith)
      (inl refl) (omega arith)

-- A failed task, by the coordinator that has it.
abbrev busy : Coordinator Store PriorityQueue
busy = record coordinator { assignments = ("low", "a") ∷ []; pending = ("low", low_task) ∷ [] }

abbrev bad_result : TaskResult
bad_result = result "low" "no answer"

abbrev after_bad : Coordinator Store PriorityQueue
after_bad = handle_task_result ops priority_ops connected bad_result busy

is_bad : bad_result.error ≢ ""
is_bad e = ground (arith, eq_iff "no answer" "")

handle_task_result-failed_example :
    (after_bad.chain ≡ busy.chain)
    × (after_bad.dispatcher ≡ busy.dispatcher)
    × (get "low" after_bad.pending ≡ none)
    × (get "low" after_bad.assignments ≡ none)
handle_task_result-failed_example =
    handle_task_result-failed ops priority_ops connected bad_result busy is_bad

handle_task_result-dispatcher_example :
    (handle_task_result ops priority_ops connected (result "low" "") busy).dispatcher
    ≡ busy.dispatcher
handle_task_result-dispatcher_example =
    handle_task_result-dispatcher ops priority_ops connected (result "low" "") busy

-- None of the tasks in the queue has been started.
unstarted :
    (es : List Entry)
    → ◌≡◌ {A = Option (List Entry)} (some (encoded low_task ∷ bare "lost" ∷ [])) (some es)
    → All IsUnstartedEntry es
unfolding new_task
unstarted es e =
    subst (All IsUnstartedEntry) (some-injective _ es e)
      (λ t h. subst IsUnstarted (some-injective low_task t h) refl, (λ t h. cc, tt))

no_timeouts_example :
    check_task_timeouts ops
      (seconds (pos 5000))
      (distribute_task_batch ops connected workers coordinator)
    ≡ distribute_task_batch ops connected workers coordinator
unfolding wrap64 ◌-ℤ◌
no_timeouts_example =
    no_timeouts ops connected workers (seconds (pos 5000)) coordinator unstarted tt

check_and_reassign_tasks_idle_example :
    check_and_reassign_tasks ops
      (seconds (pos 510))
      (node_values (monitor_nodes (some workers) (seconds (pos 500)) new_cluster_manager).nodes)
      busy
    ≡ busy
unfolding new_cluster_manager ◌+ℤ◌
check_and_reassign_tasks_idle_example =
    check_and_reassign_tasks_idle ops (some workers) (seconds (pos 500)) (seconds (pos 510))
      new_cluster_manager busy tt (omega arith) (omega arith)

idle_cluster_example :
    ((stop_cluster (update_cluster_status new_cluster_manager)).1 ≡ some not_running)
    × ((start_cluster (update_cluster_status new_cluster_manager)).1 ≡ none)
    × ((start_cluster (update_cluster_status new_cluster_manager)).0.monitors
        ≡ suc new_cluster_manager.monitors)
unfolding new_cluster_manager
idle_cluster_example = idle_cluster new_cluster_manager refl
