-- ===== src/Queue/Types.antt =====
-- crawler/task/queue.go: the errors of a queue, and what a call ends in.
pub data QueueError : Type 0 where
  queue_full not_enough_capacity queue_empty no_tasks_available : QueueError

-- A call returns a value, returns an error, or panics.
pub data Outcome {ℓ} (A : Type ℓ) : Type ℓ where
  done : A → Outcome A
  error : QueueError → Outcome A
  panics : Outcome A
