-- ===== src/Queue/Priority.antt =====
-- crawler/task/queue.go: `PriorityQueue`, one `MemoryQueue` for each priority, and a counter.
use go_backend_kit.Common.{
  zero, suc, ℕ, Option, none, some, List, [], ◌∷◌, ℤ, pos, pos_part, ◌+ℤ◌, ◌-ℤ◌, wrap64, Dict, get,
  put, int_key, Time,
}
use go_backend_kit.Task.{
  Task, enqueue, priority_urgent, priority_high, priority_normal, priority_low,
}
use go_backend_kit.Queue.Types.{QueueError, Outcome, done}
use go_backend_kit.Queue.Memory.{MemoryQueue, new_memory_queue, QueueStats, empty_stats}
use go_backend_kit.Queue.Memory

pub record PriorityQueue : Type 0 where
  pub queues : Dict ℤ MemoryQueue
  pub counter : ℤ

unfoldable pub fresh_queue : MemoryQueue
unfolding new_memory_queue
fresh_queue = new_memory_queue (pos 1000)

unfoldable pub new_priority_queue : PriorityQueue
unfolding fresh_queue
new_priority_queue = record {
  queues =
      (priority_urgent, fresh_queue)
      ∷ (priority_high, fresh_queue)
      ∷ (priority_normal, fresh_queue)
      ∷ (priority_low, fresh_queue)
      ∷ [];
  counter = pos 0;
}

-- The queue of a priority; one is made for a priority that has none.
unfoldable pub queue_of : ℤ → PriorityQueue → MemoryQueue
unfolding fresh_queue
queue_of priority pq = elim (get priority pq.queues) [ none ↦ fresh_queue | some q ↦ q ]

-- The counter goes up before the queue is asked. Every named state change of `Push`: the queue
-- may be created, the task is marked twice, and the queue may refuse it.
unfoldable pub push : Time → Task → PriorityQueue → PriorityQueue × Option QueueError
unfolding queue_of enqueue Memory.push
push now t pq =
    let (q, e) = Memory.push now (enqueue now t) (queue_of t.priority pq) in
    (record { queues = put t.priority q pq.queues; counter = wrap64 (pq.counter +ℤ pos 1) }, e)

unfoldable pub push_batch : Time → List Task → PriorityQueue → PriorityQueue × Option QueueError
unfolding push
push_batch now [] pq = (pq, none)
push_batch now (t ∷ ts) pq =
    let (pq', e) = push now t pq in
    elim e [ none ↦ push_batch now ts pq' | some err ↦ (pq', some err) ]

abbrev pub priorities : List ℤ
priorities = priority_urgent ∷ priority_high ∷ priority_normal ∷ priority_low ∷ []

-- What `Pop` does with the answer of one queue: a task ends the loop.
unfoldable pub take_answer :
    ℤ → PriorityQueue → MemoryQueue × Outcome Task → Option (Task × PriorityQueue)
take_answer p pq (q, done t) =
    some (t, record { queues = put p q pq.queues; counter = wrap64 (pq.counter -ℤ pos 1) })
take_answer p pq (q, _) = none

unfoldable pub pop_one : ℤ → PriorityQueue → Option (Task × PriorityQueue)
unfolding take_answer Memory.pop
pop_one p pq = elim (get p pq.queues) [ none ↦ none | some q ↦ take_answer p pq (Memory.pop q) ]

-- The loop of `Pop`; `none` is the error "no tasks available".
unfoldable pub pop_from : List ℤ → PriorityQueue → Option (Task × PriorityQueue)
unfolding pop_one
pop_from [] pq = none
pop_from (p ∷ ps) pq =
    let rest = pop_from ps pq in elim (pop_one p pq) [ none ↦ rest | some r ↦ some r ]

unfoldable pub pop : PriorityQueue → Option (Task × PriorityQueue)
unfolding pop_from
pop pq = pop_from priorities pq

-- The loop of `PopN`, which an error of `Pop` ends.
unfoldable pub pop_times : ℕ → PriorityQueue → List Task × PriorityQueue
pop_times zero pq = ([], pq)
pop_times (suc n) pq = elim (pop pq) [
  | none ↦ ([], pq)
  | some (t, pq') ↦ let (ts, pq'') = pop_times n pq' in (t ∷ ts, pq'')
]

-- A negative `n` makes no round.
unfoldable pub pop_n : ℤ → PriorityQueue → List Task × PriorityQueue
unfolding pop_times
pop_n n pq = pop_times (pos_part n) pq

abbrev pub first_done : Outcome Task → Option Task → Option Task
first_done (done t) rest = some t
first_done _ rest = rest

unfoldable pub peek_from : List ℤ → PriorityQueue → Option Task
unfolding Memory.peek
peek_from [] pq = none
peek_from (p ∷ ps) pq =
    let rest = peek_from ps pq in
    elim (get p pq.queues) [ none ↦ rest | some q ↦ first_done (Memory.peek q) rest ]

unfoldable pub peek : PriorityQueue → Option Task
unfolding peek_from
peek pq = peek_from priorities pq

unfoldable pub size : PriorityQueue → ℤ
size pq = pq.counter

unfoldable pub clear_all : Dict ℤ MemoryQueue → Dict ℤ MemoryQueue
unfolding Memory.clear
clear_all [] = []
clear_all ((p, q) ∷ qs) = (p, Memory.clear q) ∷ clear_all qs

unfoldable pub clear : PriorityQueue → PriorityQueue
unfolding clear_all
clear pq = record { queues = clear_all pq.queues; counter = pos 0 }

unfoldable pub sizes : Dict ℤ MemoryQueue → Dict ℤ ℤ
unfolding Memory.size
sizes [] = []
sizes ((p, q) ∷ qs) = (p, Memory.size q) ∷ sizes qs

unfoldable pub stats : PriorityQueue → QueueStats
unfolding sizes
stats pq = let s = empty_stats pq.counter in record s { by_priority = sizes pq.queues }
