-- ===== src/Queue/Instances.antt =====
-- crawler/task/queue.go: `PriorityQueue` keeps the laws of the `Queue` interface.
use go_backend_kit.Common.{
  ℕ, zero, suc, ◌+◌, String, ◌≡◌, refl, ◌≢◌, inl, inr, Option, none, some, List, [], ◌∷◌, ℤ,
  pos_part, int_key, Dict, get, put, Time, arith, Option-cases,
}
use go_backend_kit.Task.{Task, enqueue}
use go_backend_kit.Queue.Types.{done}
use go_backend_kit.Queue.Memory.{MemoryQueue}
use go_backend_kit.Queue.Memory
use go_backend_kit.Queue.Priority.{
  PriorityQueue, priorities, queue_of, push, push_batch, pop, pop_one, pop_from, pop_times, pop_n,
}
use go_backend_kit.Queue.Interface.{QueueOps, QueueLaws, weigh_tasks, weigh_tasks-append}

unfoldable pub weigh_all : (String → ℕ) → Dict ℤ MemoryQueue → ℕ
weigh_all w [] = 0
weigh_all w ((p, q) ∷ m) = weigh_tasks w q.tasks + weigh_all w m

abbrev weigh_held : (String → ℕ) → Option MemoryQueue → ℕ
weigh_held w none = 0
weigh_held w (some q) = weigh_tasks w q.tasks

weigh_all-put :
    (w : String → ℕ) (p : ℤ) (q : MemoryQueue) (m : Dict ℤ MemoryQueue)
    → weigh_all w (put p q m) + weigh_held w (get p m) ≡ weigh_all w m + weigh_tasks w q.tasks
unfolding weigh_all put get
weigh_all-put w p q [] = omega arith
weigh_all-put w p q ((i, r) ∷ m) = ground (arith, weigh_all-put w p q m)

abbrev pub weigh : (String → ℕ) → PriorityQueue → ℕ
weigh w pq = weigh_all w pq.queues

pub push-weigh :
    (w : String → ℕ) (now : Time) (t : Task) (pq : PriorityQueue)
    → ((push now t pq).1 ≡ none → weigh w (push now t pq).0 ≡ weigh w pq + w t.id)
      × ((push now t pq).1 ≢ none → weigh w (push now t pq).0 ≡ weigh w pq)
unfolding push
push-weigh w now t pq = ground (
  arith,
  weigh_all-put w t.priority (Memory.push now (enqueue now t) (queue_of t.priority pq)).0 pq.queues,
  weigh_tasks-append w (queue_of t.priority pq).tasks (enqueue now (enqueue now t) ∷ []),
)

abbrev Lighter : (String → ℕ) → PriorityQueue → Option (Task × PriorityQueue) → Type 0
Lighter w pq none = Unit
Lighter w pq (some (t, pq')) = weigh w pq' + w t.id ≡ weigh w pq

pop_one-Lighter : (w : String → ℕ) (p : ℤ) (pq : PriorityQueue) → Lighter w pq (pop_one p pq)
unfolding pop_one
pop_one-Lighter w p pq = elim (Option-cases (get p pq.queues)) [
  | inl e ↦ rw (e, pop_one) tt
  | inr (q, e) ↦ by_tasks q q.tasks e refl
]
  where
    by_tasks :
        (q : MemoryQueue) (ts : List Task)
        → get p pq.queues ≡ some q
        → q.tasks ≡ ts
        → Lighter w pq (pop_one p pq)
    by_tasks q [] e f = ground arith
    by_tasks q (t ∷ ts) e f = ground (arith, weigh_all-put w p (record q { tasks = ts }) pq.queues)

pop_from-Lighter :
    (w : String → ℕ) (ps : List ℤ) (pq : PriorityQueue) → Lighter w pq (pop_from ps pq)
unfolding pop_from
pop_from-Lighter w [] pq = tt
pop_from-Lighter w (p ∷ ps) pq = elim (Option-cases (pop_one p pq)) [
  | inl e ↦ rw (e, pop_from) (pop_from-Lighter w ps pq)
  | inr (r, e) ↦ rw (e, pop_from) (rw e at (pop_one-Lighter w p pq))
]

pop-Lighter : (w : String → ℕ) (pq : PriorityQueue) → Lighter w pq (pop pq)
unfolding pop
pop-Lighter w pq = pop_from-Lighter w priorities pq

pop_times-weigh :
    (w : String → ℕ) (n : ℕ) (pq : PriorityQueue)
    → weigh w (pop_times n pq).1 + weigh_tasks w (pop_times n pq).0 ≡ weigh w pq
unfolding pop_times
pop_times-weigh w zero pq = omega arith
pop_times-weigh w (suc n) pq = elim (Option-cases (pop pq)) [
  | inl e ↦ rw (e, pop_times) (omega arith)
  | inr ((t, pq'), e) ↦
      rw (e, pop_times) (omega (arith, pop_times-weigh w n pq', rw e at (pop-Lighter w pq)))
]

pub pop_n-weigh :
    (w : String → ℕ) (n : ℤ) (pq : PriorityQueue)
    → weigh w (pop_n n pq).1 + weigh_tasks w (pop_n n pq).0 ≡ weigh w pq
unfolding pop_n
pop_n-weigh w n pq = pop_times-weigh w (pos_part n) pq

abbrev pub priority_ops : QueueOps PriorityQueue
priority_ops = record {
  push = push;
  push_batch = push_batch;
  pop_n = λ n pq. let (ts, pq') = pop_n n pq in (pq', done ts);
}

-- No task is lost or made up by a push or a pop of a `PriorityQueue`.
abbrev pub priority_laws : QueueLaws priority_ops
priority_laws = record {
  weigh = weigh;
  push_ok = λ w now t pq. (push-weigh w now t pq).0;
  push_error = λ w now t pq. (push-weigh w now t pq).1;
  pop_n_hands_over = λ w n pq. pop_n-weigh w n pq;
}
