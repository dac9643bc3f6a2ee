-- ===== src/Dispatch/Lossless.antt =====
-- crawler/task/dispatcher.go over a priority queue: a task that comes back finds its place.
use mathlib.Core.Path.{subst}
use go_backend_kit.Common.{
  String, Bool-cases, inl, inr, ◌≡◌, refl, ap, Option, none, some, List, [], ◌∷◌, ◌++◌, map, arith,
}
use go_backend_kit.Task.{Task, start}
use go_backend_kit.Queue.Priority.{PriorityQueue, pop_n}
use go_backend_kit.Queue.Order.{IsFiled}
use go_backend_kit.Queue.Occupancy.{HasRoomFor, pop_n-HasRoomFor, push-HasRoomFor}
use go_backend_kit.Queue.Instances.{priority_ops}
use go_backend_kit.Dispatch.Types.{NodeInfo, Dispatcher, Pick, chosen, no_node, crash}
use go_backend_kit.Dispatch.Select.{select_node}
use go_backend_kit.Dispatch.Engine.{
  Env, BatchResult, finished, crashed, assign_task, requeue, settle, place, dispatch_each,
  run_batch, batch_on, dispatch_batch, read_nodes, get_available_nodes,
}

abbrev Disp : Type 0
Disp = Dispatcher PriorityQueue

-- Nothing is lost, and the queue has room for the tasks that are left.
abbrev Safe : List Task → Disp × List Task → Type 0
Safe ts r = (r.1 ≡ []) × HasRoomFor ts r.0.queue

abbrev SafeIf : List Task → Option (Disp × List Task) → Type 0
SafeIf ts none = Unit
SafeIf ts (some r) = Safe ts r

requeue-Safe :
    (env : Env) (t : Task) (ts : List Task) (d : Disp)
    → HasRoomFor (t ∷ ts) d.queue
    → Safe ts (requeue priority_ops env.now t d)
unfolding requeue
requeue-Safe env t ts d h =
    let (queued, room) = push-HasRoomFor env.now t ts d.queue h in
    (ap (λ e. elim e [ none ↦ [] | some _ ↦ t ∷ [] ]) queued, room)

drop-HasRoomFor :
    (t : Task) (ts : List Task) (pq : PriorityQueue) → HasRoomFor (t ∷ ts) pq → HasRoomFor ts pq
drop-HasRoomFor t ts pq h p = ground (arith, h p)

settle-Safe :
    (env : Env) (t : Task) (n : NodeInfo) (ts : List Task) (d : Disp)
    → HasRoomFor (t ∷ ts) d.queue
    → Safe ts (settle priority_ops env (assign_task env t n d))
unfolding settle assign_task start
settle-Safe env t n ts d h = elim (Bool-cases (env.exec t.id n.id)) [
  | inl b ↦ rw (b, assign_task) (refl, drop-HasRoomFor t ts d.queue h)
  | inr b ↦
      rw (b, assign_task) (requeue-Safe env (start env.now (record t { node_id = n.id })) ts d h)
]

place-SafeIf :
    (env : Env) (t : Task) (pick : Pick) (ts : List Task) (d : Disp)
    → HasRoomFor (t ∷ ts) d.queue
    → SafeIf ts (place priority_ops env t pick d)
unfolding place
place-SafeIf env t crash ts d h = tt
place-SafeIf env t no_node ts d h = requeue-Safe env t ts d h
place-SafeIf env t (chosen n) ts d h = settle-Safe env t n ts d h

abbrev Lossless : BatchResult PriorityQueue → Type 0
Lossless (finished d lost) = lost ≡ []
Lossless crashed = Unit

continue-Lossless :
    (ts : List Task) (next : Disp → List Task → BatchResult PriorityQueue)
    (r : Option (Disp × List Task))
    → SafeIf ts r
    → ((d' : Disp) (l : List Task) → Safe ts (d', l) → Lossless (next d' l))
    → Lossless (elim r [ none ↦ crashed | some (d', l) ↦ next d' l ])
continue-Lossless ts next none k go = tt
continue-Lossless ts next (some (d', l)) k go = go d' l k

dispatch_each-Lossless :
    (env : Env) (nodes : List String) (ts : List Task) (d : Disp) (lost : List Task)
    → lost ≡ []
    → HasRoomFor ts d.queue
    → Lossless (dispatch_each priority_ops env nodes ts d lost)
unfolding dispatch_each
dispatch_each-Lossless env nodes [] d lost e h = e
dispatch_each-Lossless env nodes (t ∷ ts) d lost e h =
    let pick = select_node d.strategy (env.nanos t.id) (read_nodes d.nodes nodes) t in
    continue-Lossless ts (λ d' l. dispatch_each priority_ops env nodes ts d' (l ++ lost))
      (place priority_ops env t pick d) (place-SafeIf env t pick ts d h)
      λ d' l k. dispatch_each-Lossless env nodes ts d' (l ++ lost) (rw (k.0, e) refl) k.1

batch_on-Lossless :
    (env : Env) (ns : List NodeInfo) (d : Disp)
    → IsFiled d.queue
    → HasRoomFor [] d.queue
    → Lossless (batch_on priority_ops env ns d)
unfolding batch_on run_batch
batch_on-Lossless env [] d filed h = refl
batch_on-Lossless env (n ∷ ns) d filed h =
    dispatch_each-Lossless env (map (λ m. m.id) (n ∷ ns)) (pop_n d.batch_size d.queue).0
      (record d { queue = (pop_n d.batch_size d.queue).1 }) [] refl
      (pop_n-HasRoomFor d.batch_size d.queue filed h)

-- With a priority queue whose tasks stand under their own priorities and none of whose queues is
-- above its capacity, a batch that ends loses no task: the queue accepts every task that comes
-- back to it.
pub dispatch_batch_lossless :
    (env : Env) (d d' : Disp) (lost : List Task)
    → IsFiled d.queue
    → HasRoomFor [] d.queue
    → dispatch_batch priority_ops env d ≡ finished d' lost
    → lost ≡ []
unfolding dispatch_batch
dispatch_batch_lossless env d d' lost filed h e =
    subst Lossless e (batch_on-Lossless env (get_available_nodes env.now d) d filed h)
