-- ===== src/Tests/Queues.antt =====
-- crawler/task/queue.go at concrete inputs.
use go_backend_kit.Common.{◌≡◌, refl, List, [], ◌∷◌, map, pos, get, put, arith}
use go_backend_kit.Task.{Task, new_task, enqueue}
use go_backend_kit.Queue.{done}
use go_backend_kit.Queue.Memory.{MemoryQueue, new_memory_queue}
use go_backend_kit.Queue.Memory
use go_backend_kit.Queue.Fifo.{
  push_each, pop_each, run-IsBounded, IsBounded, push_batch_lem, pop_n_lem, fifo_roundtrip,
}
use go_backend_kit.Queue.Fifo
use go_backend_kit.Queue.Priority.{PriorityQueue, new_priority_queue, priorities, push, pop, pop_n}
use go_backend_kit.Queue.View.{Pushed, push-Pushed}
use go_backend_kit.Queue.Order.{IsFiled, IsTop, Took, new-IsFiled, push-IsFiled, pop_highest}
use go_backend_kit.Queue.Rounds.{IsNonIncreasing, pop_n-IsNonIncreasing}
use go_backend_kit.Queue.Counter.{IsCounted, run-IsCounted, new-IsCounted}
use go_backend_kit.Queue.Counter
use go_backend_kit.Tests.Data.{low_task, urgent_task, now, waiting}

waiting-IsFiled : IsFiled waiting
waiting-IsFiled =
    push-IsFiled now urgent_task (push now low_task new_priority_queue).0
      (push-IsFiled now low_task new_priority_queue new-IsFiled)

abbrev queued_urgent : Task
queued_urgent = enqueue now (enqueue now urgent_task)

-- What is left after the urgent task is served.
abbrev left_over : PriorityQueue
left_over = (pop_n (pos 1) waiting).1

pop_highest_example : Took waiting queued_urgent left_over × IsTop (pos 3) waiting priorities
unfolding new_task enqueue push new_priority_queue pop pop_n get put
pop_highest_example = pop_highest waiting queued_urgent left_over waiting-IsFiled refl

pop_n-IsNonIncreasing_example : IsNonIncreasing (pop_n (pos 5) waiting).0
pop_n-IsNonIncreasing_example = pop_n-IsNonIncreasing (pos 5) waiting waiting-IsFiled

push-Pushed_example : Pushed now urgent_task waiting
push-Pushed_example = push-Pushed now urgent_task waiting

abbrev calls : List Counter.Call
calls =
    Counter.pushes now low_task
    ∷ Counter.pops
    ∷ Counter.clears
    ∷ Counter.pushes now urgent_task
    ∷ []

run-IsCounted_example : IsCounted (Counter.run calls (new_priority_queue, 0))
run-IsCounted_example = run-IsCounted calls (new_priority_queue, 0) new-IsCounted

abbrev small : MemoryQueue
small = record { tasks = low_task ∷ urgent_task ∷ []; capacity = pos 3 }

fifo_roundtrip_example :
    Memory.pop_n (pos 2) (push_each now (low_task ∷ urgent_task ∷ []) (new_memory_queue (pos 3))).0
    ≡ (new_memory_queue (pos 3), done (map (enqueue now) (low_task ∷ urgent_task ∷ [])))
fifo_roundtrip_example = fifo_roundtrip now low_task (urgent_task ∷ []) (pos 3) (omega arith)

abbrev fifo_calls : List Fifo.Call
fifo_calls = Fifo.pushes now low_task ∷ Fifo.pushes now low_task ∷ Fifo.pops_n (pos 2) ∷ []
