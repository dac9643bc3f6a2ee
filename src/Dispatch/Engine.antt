-- ===== src/Dispatch/Engine.antt =====
-- crawler/task/dispatcher.go: the methods of the dispatcher, over any queue.
-- A pointer to a node is its identifier, read through the map each time, so that a load counted by
-- one assignment is seen by the next selection.
use go_backend_kit.Common.{
  String, Bool, true, false, Option, none, some, List, [], ◌∷◌, ◌++◌, map, ℤ, pos, ◌+ℤ◌, ltb_ℤ,
  leb_ℤ, wrap64, Dict, get, put, delete, string_key, str_eq, Time, sub_time, seconds, keep_if,
  if◌then◌else◌,
}
use go_backend_kit.Task.{Task, start}
use go_backend_kit.Queue.{Outcome, done, error, panics}
use go_backend_kit.Queue.Interface.{QueueOps}
use go_backend_kit.Dispatch.Types.{NodeInfo, Dispatcher, Pick, chosen, no_node, crash}
use go_backend_kit.Dispatch.Select.{select_node}

-- Alive within 30 seconds, below capacity and active.
unfoldable pub is_available : Time → NodeInfo → Bool
is_available now n =
    if ltb_ℤ (seconds (pos 30)) (sub_time now n.last_heartbeat)
    then false
    else if leb_ℤ n.capacity n.current_load
    then false
    else str_eq n.status "active"

unfoldable pub values : Dict String NodeInfo → List NodeInfo
values [] = []
values ((i, n) ∷ m) = n ∷ values m

unfoldable pub check_health : Time → Dict String NodeInfo → Dict String NodeInfo
check_health now [] = []
check_health now ((i, n) ∷ m) =
    (
      i,
      if ltb_ℤ (seconds (pos 60)) (sub_time now n.last_heartbeat)
          then record n { status = "dead" }
          else n,
    )
    ∷ check_health now m

-- The nodes that a list of pointers leads to.
unfoldable pub read_nodes : Dict String NodeInfo → List String → List NodeInfo
read_nodes m [] = []
read_nodes m (i ∷ is) =
    let rest = read_nodes m is in elim (get i m) [ none ↦ rest | some n ↦ n ∷ rest ]

-- `d.nodes[node.ID].CurrentLoad++`, if the node is there.
unfoldable pub count_load : String → Dict String NodeInfo → Dict String NodeInfo
count_load i m = elim (get i m) [
  | none ↦ m
  | some n ↦ put i (record n { current_load = wrap64 (n.current_load +ℤ pos 1) }) m
]

-- What a batch meets outside the dispatcher: the time, the clock when a task is placed, and whether
-- Redis stores the assignment of a task to a node.
pub record Env : Type 0 where
  pub now : Time
  pub nanos : String → ℤ
  pub exec : String → String → Bool

pub data BatchResult (Q : Type 0) : Type 0 where
  finished : Dispatcher Q → List Task → BatchResult Q
  crashed : BatchResult Q

module _ {Q : Type 0} where
  unfoldable pub get_available_nodes : Time → Dispatcher Q → List NodeInfo
  unfolding is_available values
  get_available_nodes now d = keep_if (is_available now) (values d.nodes)

  unfoldable pub register_node : Time → NodeInfo → Dispatcher Q → Dispatcher Q
  register_node now n d = record d { nodes = put n.id (record n { last_heartbeat = now }) d.nodes }

  unfoldable pub unregister_node : String → Dispatcher Q → Dispatcher Q
  unregister_node i d = record d { nodes = delete i d.nodes }

  unfoldable pub update_node_heartbeat : Time → String → ℤ → Dispatcher Q → Dispatcher Q
  update_node_heartbeat now i load d = elim (get i d.nodes) [
    | none ↦ d
    | some n ↦ record d {
      nodes = put i (record n { last_heartbeat = now; current_load = load }) d.nodes;
    }
  ]

  unfoldable pub check_node_health : Time → Dispatcher Q → Dispatcher Q
  unfolding check_health
  check_node_health now d = record d { nodes = check_health now d.nodes }

  -- A worker takes a task from the channel; `processTask` only logs it.
  unfoldable pub worker_step : Dispatcher Q → Dispatcher Q
  worker_step d = elim d.task_chan [ [] ↦ d | _ ∷ ts ↦ record d { task_chan = ts } ]

  -- The task as the dispatcher changes it, and the dispatcher; `false` if Redis refused.
  unfoldable pub assign_task : Env → Task → NodeInfo → Dispatcher Q → Dispatcher Q × Task × Bool
  unfolding start count_load
  assign_task env t n d =
      let t' = start env.now (record t { node_id = n.id }) in
      if env.exec t.id n.id
      then (
        record d { assignments = (t.id, n.id) ∷ d.assignments; nodes = count_load n.id d.nodes },
        t',
        true,
      )
      else (d, t', false)

module _ {Q : Type 0} (ops : QueueOps Q) where
  -- A push whose error is dropped. The list holds the tasks that are lost by that.
  unfoldable pub requeue : Time → Task → Dispatcher Q → Dispatcher Q × List Task
  requeue now t d =
      let (q, e) = ops.push now t d.queue in
      (record d { queue = q }, elim e [ none ↦ [] | some _ ↦ t ∷ [] ])

  unfoldable pub settle : Env → Dispatcher Q × Task × Bool → Dispatcher Q × List Task
  unfolding requeue
  settle env (d, t, true) = (d, [])
  settle env (d, t, false) =
      let (d', lost) = requeue env.now t d in
      (record d' { failed = wrap64 (d'.failed +ℤ pos 1) }, lost)

  -- One task of a batch; `none` is a panic.
  unfoldable pub place : Env → Task → Pick → Dispatcher Q → Option (Dispatcher Q × List Task)
  unfolding requeue settle assign_task
  place env t crash d = none
  place env t no_node d = some (requeue env.now t d)
  place env t (chosen n) d = some (settle env (assign_task env t n d))

  unfoldable pub dispatch_each :
      Env → List String → List Task → Dispatcher Q → List Task → BatchResult Q
  unfolding place select_node read_nodes
  dispatch_each env nodes [] d lost = finished d lost
  dispatch_each env nodes (t ∷ ts) d lost =
      elim (place env t (select_node d.strategy (env.nanos t.id) (read_nodes d.nodes nodes) t) d) [
        | none ↦ crashed
        | some (d', l) ↦ dispatch_each env nodes ts d' (l ++ lost)
      ]

  -- `PopN` of the queue, and the tasks it hands over; an error or an empty answer ends the batch.
  unfoldable pub run_batch :
      Env → List String → Dispatcher Q → Q × Outcome (List Task) → BatchResult Q
  unfolding dispatch_each
  run_batch env nodes d (q, done ts) = dispatch_each env nodes ts (record d { queue = q }) []
  run_batch env nodes d (q, error e) = finished (record d { queue = q }) []
  run_batch env nodes d (q, panics) = crashed

  unfoldable pub batch_on : Env → List NodeInfo → Dispatcher Q → BatchResult Q
  unfolding run_batch
  batch_on env [] d = finished d []
  batch_on env (n ∷ ns) d =
      run_batch env (map (λ m. m.id) (n ∷ ns)) d (ops.pop_n d.batch_size d.queue)

  unfoldable pub dispatch_batch : Env → Dispatcher Q → BatchResult Q
  unfolding batch_on get_available_nodes
  dispatch_batch env d = batch_on env (get_available_nodes env.now d) d
