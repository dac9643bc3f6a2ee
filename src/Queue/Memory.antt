-- ===== src/Queue/Memory.antt =====
-- crawler/task/queue.go: `MemoryQueue`, its lock held for the whole of each call.
-- A call returns the new queue; `now` is the time that `task.Queue()` reads.
use go_backend_kit.Common.{
  ◌+◌, ◌≡◌, ◌↔◌, ◌||◌, arith, String, Bool, true, false, Option, none, some, List, [], ◌∷◌, ◌++◌,
  map, if◌then◌else◌, ℤ, pos, pos_part, ◌+ℤ◌, ltb_ℤ, leb_ℤ, wrap64, Dict, get, put, string_key,
  int_key, Key, Time, zero_time, is_zero, after, before, length, take, drop,
}
use go_backend_kit.Task.{
  Status, pending, queued, running, completed, failed, retrying, cancelled, Task, enqueue,
}
use go_backend_kit.Queue.Types.{
  QueueError, queue_full, not_enough_capacity, queue_empty, Outcome, done, error, panics,
}

pub record MemoryQueue : Type 0 where
  pub tasks : List Task
  pub capacity : ℤ

unfoldable pub new_memory_queue : ℤ → MemoryQueue
new_memory_queue capacity = record { tasks = []; capacity = capacity }

unfoldable pub push : Time → Task → MemoryQueue → MemoryQueue × Option QueueError
push now t q =
    if leb_ℤ q.capacity (pos (length q.tasks))
    then (q, some queue_full)
    else (record q { tasks = q.tasks ++ enqueue now t ∷ [] }, none)

unfoldable pub push_batch : Time → List Task → MemoryQueue → MemoryQueue × Option QueueError
push_batch now ts q =
    if ltb_ℤ q.capacity (pos (length q.tasks + length ts))
    then (q, some not_enough_capacity)
    else (record q { tasks = q.tasks ++ map (enqueue now) ts }, none)

unfoldable pub pop_first : List Task → MemoryQueue → MemoryQueue × Outcome Task
pop_first [] q = (q, error queue_empty)
pop_first (t ∷ ts) q = (record q { tasks = ts }, done t)

unfoldable pub pop : MemoryQueue → MemoryQueue × Outcome Task
unfolding pop_first
pop q = pop_first q.tasks q

-- `mq.tasks[:n]` and `mq.tasks[n:]` panic at a negative `n`.
unfoldable pub slice_off : ℤ → MemoryQueue → MemoryQueue × Outcome (List Task)
slice_off n q =
    if ltb_ℤ n (pos 0)
    then (q, panics)
    else (record q { tasks = drop (pos_part n) q.tasks }, done (take (pos_part n) q.tasks))

unfoldable pub pop_n : ℤ → MemoryQueue → MemoryQueue × Outcome (List Task)
unfolding slice_off
pop_n n q = elim q.tasks [
  | [] ↦ (q, error queue_empty)
  | _ ∷ _ ↦ slice_off (if ltb_ℤ (pos (length q.tasks)) n then pos (length q.tasks) else n) q
]

unfoldable pub peek : MemoryQueue → Outcome Task
peek q = elim q.tasks [ [] ↦ error queue_empty | t ∷ _ ↦ done t ]

unfoldable pub size : MemoryQueue → ℤ
size q = pos (length q.tasks)

unfoldable pub clear : MemoryQueue → MemoryQueue
clear q = record q { tasks = [] }

-- `m[k]++` on a map of `int64` counts, a missing key counting 0.
unfoldable pub increment {ℓ} : {K : Type ℓ} ⦃k : Key K⦄ → K → Dict K ℤ → Dict K ℤ
increment j m = put j (wrap64 (elim (get j m) [ none ↦ pos 0 | some n ↦ n ] +ℤ pos 1)) m

abbrev status_same : Status → Status → Bool
status_same pending pending = true
status_same queued queued = true
status_same running running = true
status_same completed completed = true
status_same failed failed = true
status_same retrying retrying = true
status_same cancelled cancelled = true
status_same _ _ = false

pub record QueueStats : Type 0 where
  pub total : ℤ
  pub by_status : Dict Status ℤ
  pub by_priority : Dict ℤ ℤ
  pub by_type : Dict String ℤ
  pub oldest_task : Time
  pub newest_task : Time

pub status_same_iff : (a b : Status) → (status_same a b ≡ true) ↔ (a ≡ b)
status_same_iff a b = ground arith

instance abbrev pub status_key : Key Status
status_key = record { same = status_same; same_iff = status_same_iff }

-- The body of the loop of `Stats`.
unfoldable pub count_task : QueueStats → Task → QueueStats
unfolding increment
count_task s t = record s {
  by_status = increment t.status s.by_status;
  by_priority = increment t.priority s.by_priority;
  by_type = increment t.task_type s.by_type;
  oldest_task =
      if is_zero s.oldest_task || before t.created_at s.oldest_task
      then t.created_at
      else s.oldest_task;
  newest_task = if after t.created_at s.newest_task then t.created_at else s.newest_task;
}

unfoldable pub count_tasks : QueueStats → List Task → QueueStats
unfolding count_task
count_tasks s [] = s
count_tasks s (t ∷ ts) = count_tasks (count_task s t) ts

abbrev pub empty_stats : ℤ → QueueStats
empty_stats total = record {
  total = total;
  by_status = [];
  by_priority = [];
  by_type = [];
  oldest_task = zero_time;
  newest_task = zero_time;
}

unfoldable pub stats : MemoryQueue → QueueStats
unfolding count_tasks
stats q = count_tasks (empty_stats (pos (length q.tasks))) q.tasks
