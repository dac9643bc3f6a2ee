-- ===== src/Queue/View.antt =====
-- crawler/task/queue.go: a `PriorityQueue` seen as a list of tasks for each priority.
use mathlib.Core.Path.{subst}
use go_backend_kit.Common.{
  Bool-cases, eq_ℤ, ◌∙◌, ap, ◌≡◌, refl, ◌≢◌, ◌⊎◌, inl, inr, Option, none, some, List, [], ◌∷◌, ◌++◌,
  ℤ, pos, ◌-ℤ◌, leb_ℤ, eq_ℤ_iff, wrap64, Dict, get, put, get-put, int_key, Time, arith, length, All,
  Option-cases, if◌then◌else◌,
}
use go_backend_kit.Task.{Task, enqueue}
use go_backend_kit.Queue.Types.{queue_full}
use go_backend_kit.Queue.Memory.{MemoryQueue, new_memory_queue}
use go_backend_kit.Queue.Memory
use go_backend_kit.Queue.Priority.{PriorityQueue, queue_of, fresh_queue, push, pop_one, pop_from}

-- The tasks of one priority, next one first; none where there is no queue.
abbrev pub tasks_of : Option MemoryQueue → List Task
tasks_of none = []
tasks_of (some q) = q.tasks

abbrev pub tasks_at : ℤ → PriorityQueue → List Task
tasks_at p pq = tasks_of (get p pq.queues)

abbrev pub capacity_of : Option MemoryQueue → ℤ
capacity_of none = pos 1000
capacity_of (some q) = q.capacity

abbrev pub capacity_at : ℤ → PriorityQueue → ℤ
capacity_at p pq = capacity_of (get p pq.queues)

pub tasks_at-put_self :
    (p : ℤ) (q : MemoryQueue) (m : Dict ℤ MemoryQueue) → get p (put p q m) ≡ some q
tasks_at-put_self p q m = rw (get-put p p q m) (ground (arith, eq_ℤ_iff p p))

pub tasks_at-put_ne :
    (i p : ℤ) (q : MemoryQueue) (m : Dict ℤ MemoryQueue) → i ≢ p → get i (put p q m) ≡ get i m
tasks_at-put_ne i p q m h = rw (get-put i p q m) (ground (arith, eq_ℤ_iff p i))

queue_of-capacity_at : (p : ℤ) (pq : PriorityQueue) → (queue_of p pq).capacity ≡ capacity_at p pq
unfolding queue_of fresh_queue new_memory_queue
queue_of-capacity_at p pq = ground arith

memory_push-capacity :
    (now : Time) (t : Task) (q : MemoryQueue) → (Memory.push now t q).0.capacity ≡ q.capacity
unfolding Memory.push
memory_push-capacity now t q = ground arith

push-capacity_at :
    (now : Time) (t : Task) (pq : PriorityQueue) (i : ℤ)
    → capacity_at i (push now t pq).0 ≡ capacity_at i pq
unfolding push
push-capacity_at now t pq i =
    let q = (Memory.push now (enqueue now t) (queue_of t.priority pq)).0 in
    let kept : q.capacity ≡ capacity_at t.priority pq =
      memory_push-capacity now (enqueue now t) (queue_of t.priority pq)
      ∙ queue_of-capacity_at t.priority pq in
    elim (Bool-cases (eq_ℤ t.priority i)) [
      | inl b ↦
          subst (λ j. capacity_at j (push now t pq).0 ≡ capacity_at j pq)
            ((eq_ℤ_iff t.priority i).0 b)
            (ap capacity_of (tasks_at-put_self t.priority q pq.queues) ∙ kept)
      | inr b ↦
          ap capacity_of
            (tasks_at-put_ne i t.priority q pq.queues (λ e. ground (arith, eq_ℤ_iff t.priority i)))
    ]

-- A push that succeeds appends the marked task to the list of its priority, one that meets a full
-- queue changes no list, and there is no other error.
pub record Pushed (now : Time) (t : Task) (pq : PriorityQueue) : Type 0 where
  pub appended :
      (push now t pq).1 ≡ none
      → tasks_at t.priority (push now t pq).0
        ≡ tasks_at t.priority pq ++ enqueue now (enqueue now t) ∷ []
  pub refused :
      (push now t pq).1 ≢ none → tasks_at t.priority (push now t pq).0 ≡ tasks_at t.priority pq
  pub others : (i : ℤ) → i ≢ t.priority → tasks_at i (push now t pq).0 ≡ tasks_at i pq
  pub accepts : (push now t pq).1 ≡ (
      if leb_ℤ (capacity_at t.priority pq) (pos (length (tasks_at t.priority pq)))
      then some queue_full
      else none)
  pub same_capacity : (i : ℤ) → capacity_at i (push now t pq).0 ≡ capacity_at i pq

-- `Push` of a priority queue fails with "queue is full" exactly if the queue of the priority (1000
-- places where it must be made) has no room; if it succeeds, the task stands last at its priority,
-- if it fails, that list is unchanged; no other priority changes.
pub push-Pushed : (now : Time) (t : Task) (pq : PriorityQueue) → Pushed now t pq
unfolding push
push-Pushed now t pq = record {
  appended = λ h. ground (
    arith,
    tasks_at-put_self t.priority (Memory.push now (enqueue now t) (queue_of t.priority pq)).0
        pq.queues,
  );
  refused = λ h. ground (
    arith,
    tasks_at-put_self t.priority (Memory.push now (enqueue now t) (queue_of t.priority pq)).0
        pq.queues,
  );
  others = λ i ne. rw (tasks_at-put_ne i t.priority _ pq.queues ne);
  accepts = ground arith;
  same_capacity = push-capacity_at now t pq;
}

-- What one priority's queue gives up.
pub record Popped (p : ℤ) (pq : PriorityQueue) (t : Task) (pq' : PriorityQueue) : Type 0 where
  pub first : tasks_at p pq ≡ t ∷ tasks_at p pq'
  pub others : (i : ℤ) → i ≢ p → tasks_at i pq' ≡ tasks_at i pq
  pub counted : pq'.counter ≡ wrap64 (pq.counter -ℤ pos 1)
  pub same_capacity : (i : ℤ) → capacity_at i pq' ≡ capacity_at i pq

abbrev pub Pops : ℤ → PriorityQueue → Type 0
Pops p pq =
    ((pop_one p pq ≡ none) × (tasks_at p pq ≡ []))
    ⊎ ((t : Task) × (pq' : PriorityQueue) × (pop_one p pq ≡ some (t, pq')) × Popped p pq t pq')

abbrev after_pop : ℤ → PriorityQueue → MemoryQueue → List Task → PriorityQueue
after_pop p pq q ts = record {
  queues = put p (record q { tasks = ts }) pq.queues;
  counter = wrap64 (pq.counter -ℤ pos 1);
}

pop_one-some :
    (p : ℤ) (pq : PriorityQueue) (q : MemoryQueue) (t : Task) (ts : List Task)
    → get p pq.queues ≡ some q
    → q.tasks ≡ t ∷ ts
    → Pops p pq
unfolding pop_one
pop_one-some p pq q t ts e f = inr (
  t,
  after_pop p pq q ts,
  ground arith,
  record {
    first = ground (arith, tasks_at-put_self p (record q { tasks = ts }) pq.queues);
    others = λ i ne. rw (tasks_at-put_ne i p (record q { tasks = ts }) pq.queues ne);
    counted = refl;
    same_capacity =
        λ i. ground (arith, e, get-put i p (record q { tasks = ts }) pq.queues, eq_ℤ_iff p i);
  },
)

pop_one-queue :
    (p : ℤ) (pq : PriorityQueue) (q : MemoryQueue) (ts : List Task)
    → get p pq.queues ≡ some q
    → q.tasks ≡ ts
    → Pops p pq
unfolding pop_one
pop_one-queue p pq q [] e f = inl (ground arith, ground arith)
pop_one-queue p pq q (t ∷ ts) e f = pop_one-some p pq q t ts e f

pub pop_one-Pops : (p : ℤ) (pq : PriorityQueue) → Pops p pq
unfolding pop_one
pop_one-Pops p pq = elim (Option-cases (get p pq.queues)) [
  | inl e ↦ inl (ground arith, ground arith)
  | inr (q, e) ↦ pop_one-queue p pq q q.tasks e refl
]

-- Which priority a call of `Pop` is served from, and that those tried before it have no task.
pub data Served (pq : PriorityQueue) (t : Task) (pq' : PriorityQueue) : List ℤ → Type 0 where
  hit : (p : ℤ) (ps : List ℤ) → Popped p pq t pq' → Served pq t pq' (p ∷ ps)
  miss : (p : ℤ) (ps : List ℤ) → tasks_at p pq ≡ [] → Served pq t pq' ps → Served pq t pq' (p ∷ ps)

-- The loop of `Pop` ends at the first priority that has a task, and fails only if none has one.
pub pop_from-Served :
    (ps : List ℤ) (pq : PriorityQueue)
    → ((pop_from ps pq ≡ none) × All (λ p. tasks_at p pq ≡ []) ps)
      ⊎ ((t : Task) × (pq' : PriorityQueue) × (pop_from ps pq ≡ some (t, pq')) × Served pq t pq' ps)
unfolding pop_from
pop_from-Served [] pq = inl (refl, tt)
pop_from-Served (p ∷ ps) pq = elim (pop_one-Pops p pq) [
  | inr (t, pq', e, h) ↦ inr (t, pq', rw (e, pop_from) refl, hit p ps h)
  | inl (e, empty) ↦ elim (pop_from-Served ps pq) [
    | inl (f, rest) ↦ inl (rw (e, pop_from) f, (empty, rest))
    | inr (t, pq', f, s) ↦ inr (t, pq', rw (e, pop_from) f, miss p ps empty s)
  ]
]
