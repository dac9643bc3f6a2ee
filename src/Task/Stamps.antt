-- ===== src/Task/Stamps.antt =====
-- crawler/task/task.go: the time stamps agree with the status, over every history of calls.
use go_backend_kit.Common.{String, ◌≡◌, List, [], ◌∷◌, ℤ, Time, arith, is_some, true}
use go_backend_kit.Task.Types.{queued, running, completed, Task}
use go_backend_kit.Task.Lifecycle.{
  new_task, increment_retry, set_error, start, complete, fail, enqueue, cancel, add_tag, validate,
}

-- The calls that change the status or a time stamp, `AddTag` and `Validate`.
pub data Call : Type 0 where
  retries cancels validates : Call
  errs fails : String → Call
  starts completes enqueues : Call
  tags : String → Call

unfoldable pub apply : Time → Call → Task → Task
unfolding increment_retry set_error start complete fail enqueue cancel add_tag validate
apply now retries t = increment_retry t
apply now cancels t = cancel t
apply now validates t = (validate t).0
apply now (errs e) t = set_error now e t
apply now (fails e) t = fail now e t
apply now starts t = start now t
apply now completes t = complete now t
apply now enqueues t = enqueue now t
apply now (tags tag) t = add_tag tag t

pub run : List (Time × Call) → Task → Task
run [] t = t
run ((now, c) ∷ cs) t = run cs (apply now c t)

pub record IsStamped (t : Task) : Type 0 where
  pub queued_stamp : t.status ≡ queued → is_some t.queued_at ≡ true
  pub running_stamp : t.status ≡ running → is_some t.started_at ≡ true
  pub completed_stamp : t.status ≡ completed → is_some t.completed_at ≡ true

apply-IsStamped : (now : Time) (c : Call) (t : Task) → IsStamped t → IsStamped (apply now c t)
unfolding apply
apply-IsStamped now retries t h = ground arith
apply-IsStamped now cancels t h = ground arith
apply-IsStamped now validates t h = ground arith
apply-IsStamped now (errs e) t h = ground arith
apply-IsStamped now (fails e) t h = ground arith
apply-IsStamped now _ t h = ground arith

-- For every sequence of state-changing calls on a task in which a queued task has its queueing
-- time, a running one its start time and a completed one its completion time, the same holds
-- afterwards.
pub run-IsStamped : (cs : List (Time × Call)) (t : Task) → IsStamped t → IsStamped (run cs t)
unfolding run
run-IsStamped [] t h = h
run-IsStamped ((now, c) ∷ cs) t h = run-IsStamped cs (apply now c t) (apply-IsStamped now c t h)

pub new_task-IsStamped :
    (hash_url : String → String) (id : String) (now : Time) (url task_type : String) (priority : ℤ)
    → IsStamped (new_task hash_url id now url task_type priority)
unfolding new_task
new_task-IsStamped hash_url id now url task_type priority = ground arith
