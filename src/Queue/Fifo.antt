-- ===== src/Queue/Fifo.antt =====
-- crawler/task/queue.go: `MemoryQueue` is a bounded first-in-first-out queue.
use go_backend_kit.Common.{
  ℕ, zero, suc, ◌+◌, ◌≤◌, ◌≡◌, refl, ◌≢◌, ap, ◌∙◌, true, Option, none, some, List, [], ◌∷◌, ◌++◌,
  map, ℤ, pos, pos_part, ◌≤ℤ◌, ltb_ℤ, Time, arith, length, take, drop, length-append, length-drop,
}
use go_backend_kit.Task.{Task, enqueue}
use go_backend_kit.Queue.Types.{QueueError, not_enough_capacity, queue_empty, done, error, panics}
use go_backend_kit.Queue.Memory.{MemoryQueue, new_memory_queue, push, push_batch, pop, pop_n, clear}
use mathlib.Core.List.{append_assoc, append-nil}

-- The calls that change a queue.
pub data Call : Type 0 where
  pushes : Time → Task → Call
  pushes_batch : Time → List Task → Call
  pops clears : Call
  pops_n : ℤ → Call

unfoldable pub step : Call → MemoryQueue → MemoryQueue
unfolding push push_batch pop pop_n clear
step (pushes now t) q = (push now t q).0
step (pushes_batch now ts) q = (push_batch now ts q).0
step pops q = (pop q).0
step (pops_n n) q = (pop_n n q).0
step clears q = clear q

unfoldable pub run : List Call → MemoryQueue → MemoryQueue
run [] q = q
run (c ∷ cs) q = run cs (step c q)

abbrev pub IsBounded : MemoryQueue → Type 0
IsBounded q = pos (length q.tasks) ≤ℤ q.capacity

length-map-enqueue : (now : Time) (ts : List Task) → length (map (enqueue now) ts) ≡ length ts
length-map-enqueue now [] = refl
length-map-enqueue now (t ∷ ts) = ap suc (length-map-enqueue now ts)

pop-IsBounded :
    (q : MemoryQueue) (ts : List Task) → q.tasks ≡ ts → IsBounded q → IsBounded (pop q).0
unfolding pop
pop-IsBounded q [] e h = rw e (ground arith)
pop-IsBounded q (t ∷ ts) e h = ground arith

pop_n-IsBounded :
    (n : ℤ) (q : MemoryQueue) (ts : List Task)
    → q.tasks ≡ ts
    → IsBounded q
    → IsBounded (pop_n n q).0
unfolding pop_n
pop_n-IsBounded n q [] e h = ground arith
pop_n-IsBounded n q (t ∷ ts) e h =
    ground (arith, length-drop (pos_part n) q.tasks, length-drop (length q.tasks) q.tasks)

step-IsBounded : (c : Call) (q : MemoryQueue) → IsBounded q → IsBounded (step c q)
unfolding step
step-IsBounded (pushes now t) q h = ground (arith, length-append q.tasks (enqueue now t ∷ []))
step-IsBounded (pushes_batch now ts) q h =
    ground (arith, length-append q.tasks (map (enqueue now) ts), length-map-enqueue now ts)
step-IsBounded pops q h = pop-IsBounded q q.tasks refl h
step-IsBounded (pops_n n) q h = pop_n-IsBounded n q q.tasks refl h
step-IsBounded clears q h = omega arith

-- For every sequence of calls on a memory queue that holds at most as many tasks as its capacity,
-- the same holds afterwards.
pub run-IsBounded : (cs : List Call) (q : MemoryQueue) → IsBounded q → IsBounded (run cs q)
unfolding run
run-IsBounded [] q h = h
run-IsBounded (c ∷ cs) q h = run-IsBounded cs (step c q) (step-IsBounded c q h)

-- One `Push` after another, until the first error.
unfoldable pub push_each : Time → List Task → MemoryQueue → MemoryQueue × Option QueueError
push_each now [] q = (q, none)
push_each now (t ∷ ts) q =
    let (q', e) = push now t q in elim e [ none ↦ push_each now ts q' | some err ↦ (q', some err) ]

push_fits :
    (now : Time) (t : Task) (xs : List Task) (c : ℤ)
    → pos (length xs + 1) ≤ℤ c
    → push now t (record { tasks = xs; capacity = c })
      ≡ (record { tasks = xs ++ enqueue now t ∷ []; capacity = c }, none)
unfolding push
push_fits now t xs c h = ground arith

push_each_fits :
    (now : Time) (ts xs : List Task) (c : ℤ)
    → pos (length xs + length ts) ≤ℤ c
    → push_each now ts (record { tasks = xs; capacity = c })
      ≡ (record { tasks = xs ++ map (enqueue now) ts; capacity = c }, none)
unfolding push_each
push_each_fits now [] xs c h = rw append-nil refl
push_each_fits now (t ∷ ts) xs c h =
    let added = push_fits now t xs c (omega arith) in
    rw (added, push_each)
      (rw added (
        push_each_fits now ts (xs ++ enqueue now t ∷ []) c
          (omega (arith, length-append xs (enqueue now t ∷ [])))
        ∙ rw append_assoc refl))

-- A batch that fits into a memory queue has the same result as its tasks pushed one by one, and a
-- batch that does not fit is refused and leaves the queue unchanged.
pub push_batch_lem :
    (now : Time) (ts : List Task) (q : MemoryQueue)
    → (pos (length q.tasks + length ts) ≤ℤ q.capacity → push_batch now ts q ≡ push_each now ts q)
      × (¬ (pos (length q.tasks + length ts) ≤ℤ q.capacity)
          → push_batch now ts q ≡ (q, some not_enough_capacity))
unfolding push_batch
push_batch_lem now ts q =
    ((λ h. ground (arith, push_each_fits now ts q.tasks q.capacity h)), (λ h. ground arith))

-- One `Pop` after another, until the first error.
unfoldable pub pop_each : ℕ → MemoryQueue → MemoryQueue × List Task
pop_each zero q = (q, [])
pop_each (suc n) q = elim (pop q).1 [
  | done t ↦ let (q', ts) = pop_each n (pop q).0 in (q', t ∷ ts)
  | _ ↦ (q, [])
]

pop_each_lem :
    (n : ℕ) (ts : List Task) (c : ℤ)
    → pop_each n (record { tasks = ts; capacity = c })
      ≡ (record { tasks = drop n ts; capacity = c }, take n ts)
unfolding pop_each pop
pop_each_lem zero ts c = refl
pop_each_lem (suc n) [] c = refl
pop_each_lem (suc n) (t ∷ ts) c = rw (pop_each_lem n ts c)

take_all : (n : ℕ) (ts : List Task) → length ts ≤ n → (take n ts ≡ ts) × (drop n ts ≡ [])
take_all zero [] h = (refl, refl)
take_all zero (t ∷ ts) h = absurd (omega arith)
take_all (suc n) [] h = (refl, refl)
take_all (suc n) (t ∷ ts) h = let (e, d) = take_all n ts (omega arith) in (rw e, d)

pop_n-cons :
    (n : ℕ) (t : Task) (ts : List Task) (c : ℤ)
    → pop_n (pos n) (record { tasks = t ∷ ts; capacity = c })
      ≡ (record { tasks = drop n (t ∷ ts); capacity = c }, done (take n (t ∷ ts)))
unfolding pop_n
pop_n-cons n t ts c = ground (arith, take_all n (t ∷ ts), take_all (suc (length ts)) (t ∷ ts))

pop_n-nil :
    (m : ℤ) (c : ℤ)
    → pop_n m (record { tasks = []; capacity = c })
      ≡ (record { tasks = []; capacity = c }, error queue_empty)
unfolding pop_n
pop_n-nil m c = refl

pop_n-negative :
    (m : ℤ) (t : Task) (ts : List Task) (c : ℤ)
    → ltb_ℤ m (pos 0) ≡ true
    → pop_n m (record { tasks = t ∷ ts; capacity = c })
      ≡ (record { tasks = t ∷ ts; capacity = c }, panics)
unfolding pop_n
pop_n-negative m t ts c neg = ground arith

-- `PopN` of a number that is not negative gives, on a non-empty memory queue, the tasks and the
-- queue of that many `Pop` calls; on an empty queue it is an error; on a non-empty queue a
-- negative number is a panic.
pub pop_n_lem :
    (n : ℕ) (m : ℤ) (q : MemoryQueue)
    → (q.tasks ≢ [] → pop_n (pos n) q ≡ ((pop_each n q).0, done (pop_each n q).1))
      × (q.tasks ≢ [] → ltb_ℤ m (pos 0) ≡ true → pop_n m q ≡ (q, panics))
      × (q.tasks ≡ [] → pop_n m q ≡ (q, error queue_empty))
pop_n_lem n m q = by_tasks q.tasks q.capacity
  where
    by_tasks :
        (ts : List Task) (c : ℤ)
        → let r : MemoryQueue = record { tasks = ts; capacity = c } in
          (ts ≢ [] → pop_n (pos n) r ≡ ((pop_each n r).0, done (pop_each n r).1))
          × (ts ≢ [] → ltb_ℤ m (pos 0) ≡ true → pop_n m r ≡ (r, panics))
          × (ts ≡ [] → pop_n m r ≡ (r, error queue_empty))
    by_tasks [] c = (λ ne. absurd (ne refl), λ ne. absurd (ne refl), λ e. pop_n-nil m c)
    by_tasks (t ∷ ts) c = (
      λ ne. pop_n-cons n t ts c ∙ rw (pop_each_lem n (t ∷ ts) c),
      λ ne neg. pop_n-negative m t ts c neg,
      λ e. cc,
    )

-- The tasks of a non-empty list that are pushed one by one into a new memory queue of at least
-- that capacity are what `PopN` of their number returns, marked as queued and in the same order,
-- and the queue is empty then.
pub fifo_roundtrip :
    (now : Time) (t : Task) (ts : List Task) (c : ℤ)
    → pos (length (t ∷ ts)) ≤ℤ c
    → pop_n (pos (length (t ∷ ts))) (push_each now (t ∷ ts) (new_memory_queue c)).0
      ≡ (new_memory_queue c, done (map (enqueue now) (t ∷ ts)))
unfolding new_memory_queue
fifo_roundtrip now t ts c h = rw (push_each_fits now (t ∷ ts) [] c (omega arith)) (
    pop_n-cons (length (t ∷ ts)) (enqueue now t) _ c
    ∙ ground (arith, take_all (length ts) (map (enqueue now) ts), length-map-enqueue now ts))
