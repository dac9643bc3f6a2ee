-- ===== src/Instances/Engine.antt =====
-- crawler/task/manager.go: creation, states and allocation of instances.
use go_backend_kit.Common.{
  String, Bool, true, false, Option, none, some, List, [], ◌∷◌, ◌++◌, pos, ◌+ℤ◌, ◌-ℤ◌, ltb, ltb_ℤ,
  wrap64, Dict, get, put, string_key, Time, Duration, seconds, length, is_none, if◌then◌else◌,
}
use go_backend_kit.Task.{Value}
use go_backend_kit.Instances.Types.{
  TaskState, created, allocated, running, paused, completed, failed, cancelled, timeout,
  TaskInstance, TaskManager, ManagerError, not_found, Outside,
}

-- `NewTaskManager`; the limit of active tasks, which nothing reads, and the intervals of the ticks
-- are left out.
unfoldable pub new_task_manager : Duration → TaskManager
new_task_manager limit = record {
  tasks = [];
  total_tasks = pos 0;
  active_tasks = pos 0;
  completed_tasks = pos 0;
  failed_tasks = pos 0;
  task_timeout = (if ltb_ℤ (pos 0) limit then limit else seconds (pos 1800));
  task_chan = [];
  complete_chan = [];
  retrying = none;
  saved = [];
  published = [];
}

-- A send that does not wait, to a channel of 100 places.
abbrev pub send_if_room : String → List String → List String
send_if_room i is = if ltb (length is) 100 then is ++ i ∷ [] else is

-- An instance that is not in memory is read from Redis and kept.
unfoldable pub keep_loaded :
    String → Option TaskInstance → TaskManager → TaskManager × Option TaskInstance
keep_loaded id none m = (m, none)
keep_loaded id (some i) m = (record m { tasks = put id i m.tasks }, some i)

unfoldable pub get_found :
    Outside → String → Option TaskInstance → TaskManager → TaskManager × Option TaskInstance
get_found env id (some i) m = (m, some i)
get_found env id none m = keep_loaded id (env.load id) m

unfoldable pub get_instance : Outside → String → TaskManager → TaskManager × Option TaskInstance
get_instance env id m = get_found env id (get id m.tasks) m

-- The `switch` of `UpdateState`, on an instance that has its new state.
unfoldable pub enter_running : Time → TaskInstance → TaskManager → TaskManager × TaskInstance
enter_running now i m =
    if is_none i.started_at
    then (
      record m { active_tasks = wrap64 (m.active_tasks +ℤ pos 1) },
      record i { started_at = some now },
    )
    else (m, i)

unfoldable pub enter_completed : Time → TaskInstance → TaskManager → TaskManager × TaskInstance
enter_completed now i m =
    if is_none i.completed_at
    then (
      record m {
        completed_tasks = wrap64 (m.completed_tasks +ℤ pos 1);
        active_tasks = wrap64 (m.active_tasks -ℤ pos 1);
      },
      record i { completed_at = some now },
    )
    else (m, i)

unfoldable pub enter_failed : Time → TaskInstance → TaskManager → TaskManager × TaskInstance
enter_failed now i m =
    if is_none i.completed_at
    then (
      record m {
        failed_tasks = wrap64 (m.failed_tasks +ℤ pos 1);
        active_tasks = wrap64 (m.active_tasks -ℤ pos 1);
      },
      record i { completed_at = some now },
    )
    else (m, i)

unfoldable pub enter : TaskState → Time → TaskInstance → TaskManager → TaskManager × TaskInstance
enter running now i m = enter_running now i m
enter completed now i m = enter_completed now i m
enter failed now i m = enter_failed now i m
enter created now i m = (m, i)
enter allocated now i m = (m, i)
enter paused now i m = (m, i)
enter cancelled now i m = (m, i)
enter timeout now i m = (m, i)

abbrev pub ends : TaskState → Bool
ends completed = true
ends failed = true
ends created = false
ends allocated = false
ends running = false
ends paused = false
ends cancelled = false
ends timeout = false

unfoldable pub merge_values : Dict String Value → Dict String Value → Dict String Value
merge_values [] m = m
merge_values ((k, v) ∷ more) m = merge_values more (put k v m)

-- The rest of `UpdateState`: metadata, heartbeat, Redis, the event, and the end of the instance.
unfoldable pub finish_update :
    Time
    → String
    → TaskState
    → TaskState
    → Dict String Value
    → TaskManager × TaskInstance
    → TaskManager
finish_update now id old state metadata (m, i) =
    let i' = record i { context = merge_values metadata i.context; last_heartbeat = now } in
    record m {
      tasks = put id i' m.tasks;
      saved = i' ∷ m.saved;
      published = (i.id, old, state) ∷ m.published;
      complete_chan = (if ends state then send_if_room id m.complete_chan else m.complete_chan);
    }

unfoldable pub update_found :
    Time → String → TaskState → Dict String Value → TaskInstance → TaskManager → TaskManager
update_found now id state metadata i m =
    finish_update now id i.state state metadata (enter state now (record i { state = state }) m)

unfoldable pub update_state :
    Time → String → TaskState → Dict String Value → TaskManager → TaskManager × Option ManagerError
update_state now id state metadata m = elim (get id m.tasks) [
  | none ↦ (m, some not_found)
  | some i ↦ (update_found now id state metadata i m, none)
]

-- The progress, which goes to Redis only, is left out.
unfoldable pub update_progress :
    Time → String → Dict String Value → TaskManager → TaskManager × Option ManagerError
update_progress now id metrics m = elim (get id m.tasks) [
  | none ↦ (m, some not_found)
  | some i ↦ (
    record m {
      tasks =
          put id (record i { last_heartbeat = now; metrics = merge_values metrics i.metrics })
            m.tasks;
    },
    none,
  )
]
