-- ===== src/Queue/Counter.antt =====
-- crawler/task/queue.go: the counter of a `PriorityQueue` against the tasks that it holds.
use go_backend_kit.Common.{
  ℕ, ◌+◌, ◌≡◌, refl, ap, inl, inr, Option-cases, Option, none, some, List, [], ◌∷◌, ℤ, pos, ◌+ℤ◌,
  ◌-ℤ◌, wrap64, int_key, Dict, get, put, Time, arith, length, length-append,
}
use go_backend_kit.Task.{Task, enqueue}
use go_backend_kit.Queue.Types.{QueueError}
use go_backend_kit.Queue.Memory.{MemoryQueue}
use go_backend_kit.Queue.Memory
use go_backend_kit.Queue.Priority.{
  PriorityQueue, new_priority_queue, priorities, queue_of, push, pop, pop_from, pop_one, clear,
  clear_all, size,
}

-- The tasks in all queues of the map.
unfoldable pub total : Dict ℤ MemoryQueue → ℕ
total [] = 0
total ((p, q) ∷ qs) = length q.tasks + total qs

abbrev held : Option MemoryQueue → ℕ
held none = 0
held (some q) = length q.tasks

total-put :
    (p : ℤ) (q : MemoryQueue) (m : Dict ℤ MemoryQueue)
    → total (put p q m) + held (get p m) ≡ total m + length q.tasks
unfolding total put get
total-put p q [] = omega arith
total-put p q ((i, r) ∷ m) = ground (arith, total-put p q m)

total-clear_all : (m : Dict ℤ MemoryQueue) → total (clear_all m) ≡ 0
unfolding total clear_all
total-clear_all [] = refl
total-clear_all ((p, q) ∷ m) = omega (arith, total-clear_all m)

wrap64_up : (n : ℕ) → wrap64 (wrap64 (pos n) +ℤ pos 1) ≡ wrap64 (pos (n + 1))
unfolding wrap64 ◌+ℤ◌
wrap64_up n = ground arith

wrap64_down : (n : ℕ) → wrap64 (wrap64 (pos (n + 1)) -ℤ pos 1) ≡ wrap64 (pos n)
unfolding wrap64 ◌-ℤ◌
wrap64_down n = ground arith

-- The calls that change a queue.
pub data Call : Type 0 where
  pushes : Time → Task → Call
  pops clears : Call

-- The queue with the number of pushes that it refused since it was last cleared.
abbrev pub after_push : ℕ → PriorityQueue × Option QueueError → PriorityQueue × ℕ
after_push lost (pq, none) = (pq, lost)
after_push lost (pq, some e) = (pq, lost + 1)

abbrev pub after_pop : PriorityQueue → ℕ → Option (Task × PriorityQueue) → PriorityQueue × ℕ
after_pop pq lost none = (pq, lost)
after_pop pq lost (some (t, pq')) = (pq', lost)

unfoldable pub step : Call → PriorityQueue × ℕ → PriorityQueue × ℕ
step (pushes now t) (pq, lost) = after_push lost (push now t pq)
step pops (pq, lost) = after_pop pq lost (pop pq)
step clears (pq, lost) = (clear pq, 0)

unfoldable pub run : List Call → PriorityQueue × ℕ → PriorityQueue × ℕ
unfolding step
run [] s = s
run (c ∷ cs) s = run cs (step c s)

abbrev pub IsCounted : PriorityQueue × ℕ → Type 0
IsCounted (pq, lost) = size pq ≡ wrap64 (pos (total pq.queues + lost))

push-IsCounted :
    (now : Time) (t : Task) (pq : PriorityQueue) (lost : ℕ)
    → IsCounted (pq, lost)
    → IsCounted (after_push lost (push now t pq))
unfolding push size
push-IsCounted now t pq lost h = ground (
  arith,
  total-put t.priority (Memory.push now (enqueue now t) (queue_of t.priority pq)).0 pq.queues,
  length-append (queue_of t.priority pq).tasks (enqueue now (enqueue now t) ∷ []),
  wrap64_up (total pq.queues + lost),
)

pop_one-IsCounted :
    (p : ℤ) (pq : PriorityQueue) (lost : ℕ)
    → IsCounted (pq, lost)
    → IsCounted (after_pop pq lost (pop_one p pq))
unfolding pop_one size
pop_one-IsCounted p pq lost h = elim (Option-cases (get p pq.queues)) [
  | inl e ↦ rw (e, pop_one) h
  | inr (q, e) ↦ by_tasks q q.tasks e refl
]
  where
    by_tasks :
        (q : MemoryQueue) (ts : List Task)
        → get p pq.queues ≡ some q
        → q.tasks ≡ ts
        → IsCounted (after_pop pq lost (pop_one p pq))
    by_tasks q [] e f = ground arith
    by_tasks q (t ∷ ts) e f = ground (
      arith,
      total-put p (record q { tasks = ts }) pq.queues,
      ap length f,
      wrap64_down (total (put p (record q { tasks = ts }) pq.queues) + lost),
    )

pop_from-IsCounted :
    (ps : List ℤ) (pq : PriorityQueue) (lost : ℕ)
    → IsCounted (pq, lost)
    → IsCounted (after_pop pq lost (pop_from ps pq))
unfolding pop_from
pop_from-IsCounted [] pq lost h = h
pop_from-IsCounted (p ∷ ps) pq lost h = elim (Option-cases (pop_one p pq)) [
  | inl e ↦ rw (e, pop_from) (pop_from-IsCounted ps pq lost h)
  | inr (r, e) ↦ rw (e, pop_from) (rw e at (pop_one-IsCounted p pq lost h))
]

clear-IsCounted : (pq : PriorityQueue) → IsCounted (clear pq, 0)
unfolding clear size wrap64
clear-IsCounted pq = rw (total-clear_all pq.queues)

step-IsCounted : (c : Call) (s : PriorityQueue × ℕ) → IsCounted s → IsCounted (step c s)
unfolding step
step-IsCounted (pushes now t) (pq, lost) h = push-IsCounted now t pq lost h
step-IsCounted pops (pq, lost) h = unfold pop in pop_from-IsCounted priorities pq lost h
step-IsCounted clears (pq, lost) h = clear-IsCounted pq

-- For every sequence of `Push`, `Pop` and `Clear` calls, the counter of a priority queue stays
-- equal, modulo 2^64, to the number of waiting tasks plus the number of pushes that a full queue
-- has refused since the last `Clear`, if it was equal before.
pub run-IsCounted : (cs : List Call) (s : PriorityQueue × ℕ) → IsCounted s → IsCounted (run cs s)
unfolding run
run-IsCounted [] s h = h
run-IsCounted (c ∷ cs) s h = run-IsCounted cs (step c s) (step-IsCounted c s h)

-- So from a new queue on.
pub new-IsCounted : IsCounted (new_priority_queue, 0)
unfolding new_priority_queue total size wrap64
new-IsCounted = refl
