-- ===== src/Tests/Dispatching.antt =====
-- crawler/task/dispatcher.go at concrete inputs.
use Prim.Native.Nat.{◌<◌}
use go_backend_kit.Common.{
  ℕ, ◌+◌, wrap64, ◌+ℤ◌, String, ◌≡◌, refl, ◌≢◌, ◌⊎◌, List, [], ◌∷◌, pos, ◌≤ℤ◌, ◌<ℤ◌, max_int64,
  seconds, get, put, string_key, arith, All,
}
use go_backend_kit.Task.{Task, text, new_task, set_metadata}
use go_backend_kit.Queue.Priority.{PriorityQueue, new_priority_queue, push}
use go_backend_kit.Queue.Order.{IsFiled, new-IsFiled, push-IsFiled}
use go_backend_kit.Queue.Occupancy.{HasRoomFor, push-HasRoomFor}
use go_backend_kit.Dispatch.Lossless.{dispatch_batch_lossless}
use go_backend_kit.Queue.Interface.{weigh_tasks}
use go_backend_kit.Queue.Instances.{priority_ops, priority_laws}
use go_backend_kit.Dispatch.{
  NodeInfo, Dispatcher, chosen, no_node, crash, select_least_load_node, select_hash_node, finished,
  dispatch_batch, check_node_health,
}
use go_backend_kit.Dispatch.Picks.{select_least_load_node_lem}
use go_backend_kit.Dispatch.Conserve.{weigh_dispatcher, dispatch_batch_conserves}
use go_backend_kit.Dispatch.Load.{IsFit, AllFit, put-AllFit, dispatch_batch-AllFit}
use go_backend_kit.Dispatch.Health.{Event, beats, checks}
use go_backend_kit.Tests.Data.{low_task, urgent_task, now, node, dispatcher, env, waiting}

fits : (i : String) (c : ℕ) → c < 9223372036854775808 → IsFit i (node i (pos c))
fits i c h = record {
  named = refl;
  within = omega arith;
  load_range = record { above = omega arith; below = omega arith };
  capacity_range = record { above = h; below = omega arith };
}

dispatcher-AllFit : AllFit dispatcher.nodes
unfolding put get
dispatcher-AllFit =
    put-AllFit "b" (node "b" (pos 2)) (put "a" (node "a" (pos 1)) []) (fits "b" 2 (omega arith))
      (put-AllFit "a" (node "a" (pos 1)) [] (fits "a" 1 (omega arith)) (λ i n e. cc))

dispatch_batch-AllFit_example :
    (d' : Dispatcher PriorityQueue) × (lost : List Task) × (dispatch_batch priority_ops env
        dispatcher
      ≡ finished d' lost)
    × AllFit d'.nodes
dispatch_batch-AllFit_example = dispatch_batch-AllFit env dispatcher dispatcher-AllFit refl

-- The batch of the example, run.
abbrev batch :
    (d' : Dispatcher PriorityQueue) × (lost : List Task) × (dispatch_batch priority_ops env
        dispatcher
      ≡ finished d' lost)
    × AllFit d'.nodes
batch = dispatch_batch-AllFit env dispatcher dispatcher-AllFit refl

dispatch_batch_conserves_example :
    weigh_dispatcher priority_ops priority_laws (λ id. 1) batch.0 + weigh_tasks (λ id. 1) batch.1
    ≡ weigh_dispatcher priority_ops priority_laws (λ id. 1) dispatcher
dispatch_batch_conserves_example =
    dispatch_batch_conserves priority_ops priority_laws (λ id. 1) env dispatcher batch.0 batch.1
      batch.2

new-HasRoomFor : HasRoomFor (low_task ∷ urgent_task ∷ []) new_priority_queue
unfolding new_priority_queue get
new-HasRoomFor p = ground arith

waiting-IsFiled : IsFiled waiting
waiting-IsFiled =
    push-IsFiled now urgent_task (push now low_task new_priority_queue).0
      (push-IsFiled now low_task new_priority_queue new-IsFiled)

waiting-HasRoomFor : HasRoomFor [] waiting
waiting-HasRoomFor =
    (push-HasRoomFor now urgent_task [] (push now low_task new_priority_queue).0
      (push-HasRoomFor now low_task (urgent_task ∷ []) new_priority_queue new-HasRoomFor).1).1

dispatch_batch_lossless_example : batch.1 ≡ []
dispatch_batch_lossless_example =
    dispatch_batch_lossless env dispatcher batch.0 batch.1 waiting-IsFiled waiting-HasRoomFor
      batch.2

abbrev two_nodes : List NodeInfo
two_nodes = node "a" (pos 1) ∷ node "b" (pos 2) ∷ []

select_least_load_node_example :
    ((n : NodeInfo)
      → select_least_load_node two_nodes ≡ chosen n
      → (n.current_load <ℤ n.capacity)
        × All (λ m. m.current_load <ℤ m.capacity → n.current_load ≤ℤ m.current_load) two_nodes)
    × (select_least_load_node two_nodes ≡ no_node
        → All (λ m. (m.capacity ≤ℤ m.current_load) ⊎ (max_int64 ≤ℤ m.current_load)) two_nodes)
    × (select_least_load_node two_nodes ≢ crash)
select_least_load_node_example = select_least_load_node_lem two_nodes

-- With two nodes this address makes the dispatcher panic.
hash_panics : select_hash_node two_nodes urgent_task ≡ crash
unfolding select_hash_node new_task wrap64 ◌+ℤ◌
hash_panics = refl

abbrev sticky_task : Task
sticky_task = set_metadata "preferred_node" (text "b") low_task

-- 61 seconds without a heartbeat.
abbrev checked : Dispatcher PriorityQueue
checked = check_node_health (seconds (pos 161)) dispatcher

abbrev events : List Event
events = beats (seconds (pos 162)) "a" (pos 0) ∷ checks (seconds (pos 163)) ∷ []
