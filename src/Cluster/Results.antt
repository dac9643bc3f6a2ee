-- ===== src/Cluster/Results.antt =====
-- crawler/distributed/coordinator.go: results of tasks, dead nodes, and the dispatcher's nodes.
use Prim.Native.String.{◌++◌ as join_text}
use go_backend_kit.Common.{
  ℕ, suc, String, Bool, true, false, ◌&&◌, not, Option, none, some, List, [], ◌∷◌, pos, ltb_ℤ, Dict,
  get, delete, string_key, str_eq, Time, sub_time, seconds, if◌then◌else◌, is_some,
}
use go_backend_kit.Task.{
  Task, Value, text, new_task, set_metadata, type_seed, type_detail, priority_normal,
}
use go_backend_kit.Queue.Interface.{QueueOps}
use go_backend_kit.Dispatch.{Dispatcher, register_node, update_node_heartbeat, submit}
use go_backend_kit.Cluster.Types.{
  ClusterNode, TaskResult, pending_tasks, result_of, bare, stored_result, RedisOps,
}
use go_backend_kit.Cluster.Assign.{Format}
use go_backend_kit.Cluster.Chain.{execute}
use go_backend_kit.Cluster.Coordinator.{Coordinator, Surroundings, with_redis, handle_task_failure}

-- The data of a result, as a dynamic value: an object or an array of objects.
pub data Dynamic : Type 0 where
  object : Dict String (List Value) → Dynamic
  array : List (Dict String Value) → Dynamic

unfoldable pub texts_of : List Value → List String
texts_of [] = []
texts_of (v ∷ vs) = let rest = texts_of vs in elim v [ text s ↦ s ∷ rest | _ ↦ rest ]

unfoldable pub extract_urls_from_data : Dynamic → List String
unfolding texts_of
extract_urls_from_data (object m) = elim (get "links" m) [ none ↦ [] | some vs ↦ texts_of vs ]
extract_urls_from_data (array items) = []

-- Not active, and silent for more than 60 seconds.
unfoldable pub is_dead : Time → ClusterNode → Bool
is_dead now n =
    not (str_eq n.status "active") && ltb_ℤ (seconds (pos 60)) (sub_time now n.updated_at)

unfoldable pub dead_nodes : Time → List ClusterNode → List String
unfolding is_dead
dead_nodes now [] = []
dead_nodes now (n ∷ ns) =
    let rest = dead_nodes now ns in if is_dead now n then n.id ∷ rest else rest

abbrev pub is_among : String → List String → Bool
is_among i [] = false
is_among i (j ∷ js) = if str_eq i j then true else is_among i js

abbrev pub is_seed : Option Task → Bool
is_seed none = false
is_seed (some t) = str_eq t.task_type type_seed

-- The pending tasks of dead nodes, and the assignments that are left.
unfoldable pub reassigned : List String → Dict String Task → Dict String String → List Task
reassigned dead tasks [] = []
reassigned dead tasks ((id, node) ∷ more) =
    let rest = reassigned dead tasks more in
    if is_among node dead then elim (get id tasks) [ none ↦ rest | some t ↦ t ∷ rest ] else rest

unfoldable pub kept_assignments :
    List String → Dict String Task → Dict String String → Dict String String
kept_assignments dead tasks [] = []
kept_assignments dead tasks ((id, node) ∷ more) =
    let rest = kept_assignments dead tasks more in
    if is_among node dead && is_some (get id tasks) then rest else (id, node) ∷ rest

unfoldable pub requeue_ids : {R : Type 0} → RedisOps R → List Task → R → R
requeue_ids ops [] r = r
requeue_ids ops (t ∷ ts) r = requeue_ids ops ts (ops.rpush pending_tasks (bare t.id) r).0

-- The task and its assignment are forgotten, and the scheduler is told.
unfoldable pub forget_task : {R Q : Type 0} → TaskResult → Coordinator R Q → Coordinator R Q
forget_task r c = record c {
  pending = delete r.task_id c.pending;
  assignments = delete r.task_id c.assignments;
  updated =
      (if c.has_scheduler then (r.task_id, str_eq r.error "", r.error) ∷ c.updated else c.updated);
}

module _ {R Q : Type 0} (ops : RedisOps R) where
  -- `NewTask` for each address, and `Submit`, whose error is only logged.
  unfoldable pub submit_urls :
      QueueOps Q → Surroundings → String → ℕ → List String → Dispatcher Q → Dispatcher Q
  unfolding new_task set_metadata submit
  submit_urls queue env parent i [] d = d
  submit_urls queue env parent i (url ∷ urls) d =
      let t = new_task env.hash_url (env.fresh_id i) env.now url type_detail priority_normal in
      let details = t.details in
      let child : Task = record t { details = record details { parent_id = parent } } in
      let marked =
        set_metadata "source" (text "seed_expansion")
          (set_metadata "parent_id" (text parent) child) in
      submit_urls queue env parent (suc i) urls (submit queue env.now marked d).0

  unfoldable pub process_seed_result :
      QueueOps Q → Surroundings → TaskResult → Coordinator R Q → Coordinator R Q
  unfolding submit_urls extract_urls_from_data
  process_seed_result queue env r c = record c {
    dispatcher =
        submit_urls queue env r.task_id 0 (extract_urls_from_data (array r.items)) c.dispatcher;
  }

  -- The result of a task that succeeded. The outcome of the chain is only logged; a panic of it
  -- ends the program.
  unfoldable pub store_success : TaskResult → Coordinator R Q → Coordinator R Q
  unfolding execute
  store_success r c =
      let stored = c.chain in
      let set = record stored {
        redis =
            ops.set_value (result_of r.task_id) (stored_result r) (seconds (pos 1800)) stored.redis;
      } in
      record c { chain = (execute c.middlewares r set).0 }

  unfoldable pub handle_success :
      QueueOps Q → Surroundings → Option Task → TaskResult → Coordinator R Q → Coordinator R Q
  unfolding store_success process_seed_result
  handle_success queue env t r c =
      if is_seed t then process_seed_result queue env r (store_success r c) else store_success r c

  unfoldable pub handle_task_result :
      QueueOps Q → Surroundings → TaskResult → Coordinator R Q → Coordinator R Q
  handle_task_result queue env r c =
      let t = get r.task_id c.pending in
      let c' = forget_task r c in
      if str_eq r.error ""
      then handle_success queue env t r c'
      else handle_task_failure ops r.task_id r.error c'

  unfoldable pub reassign_from : List String → Coordinator R Q → Coordinator R Q
  unfolding reassigned kept_assignments requeue_ids
  reassign_from [] c = c
  reassign_from (i ∷ dead) c =
      with_redis (requeue_ids ops (reassigned (i ∷ dead) c.pending c.assignments) c.chain.redis)
        (record c { assignments = kept_assignments (i ∷ dead) c.pending c.assignments })

  unfoldable pub check_and_reassign_tasks :
      Time → List ClusterNode → Coordinator R Q → Coordinator R Q
  unfolding reassign_from dead_nodes
  check_and_reassign_tasks now nodes c = reassign_from (dead_nodes now nodes) c

-- `performNodeSync`: the nodes of the cluster become nodes of the dispatcher, with no load.
unfoldable pub sync_node : {Q : Type 0} → Format → Time → ClusterNode → Dispatcher Q → Dispatcher Q
unfolding register_node update_node_heartbeat
sync_node f now n d =
    let registered =
      register_node now
        (record {
          id = n.id;
          address = join_text n.ip (join_text ":" (f.int_text n.port));
          capacity = n.max_workers;
          current_load = pos 0;
          status = n.status;
          last_heartbeat = n.last_heartbeat;
          tags = n.tags;
          capabilities = n.capabilities;
        })
        d in
    if str_eq n.status "active"
    then update_node_heartbeat now n.id (pos 0) registered
    else registered

unfoldable pub perform_node_sync :
    {Q : Type 0} → Format → Time → List ClusterNode → Dispatcher Q → Dispatcher Q
unfolding sync_node
perform_node_sync f now [] d = d
perform_node_sync f now (n ∷ ns) d = perform_node_sync f now ns (sync_node f now n d)
