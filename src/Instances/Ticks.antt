-- ===== src/Instances/Ticks.antt =====
-- crawler/task/manager.go: allocation, the goroutines' ticks and the cleanup.
use go_backend_kit.Common.{
  str_eq, String, map, length, ltb, ◌&&◌, ◌||◌, Bool, true, false, Option, none, some, List, [],
  ◌∷◌, pos, ltb_ℤ, Dict, get, put, string_key, Time, Duration, sub_time, seconds, if◌then◌else◌,
}
use go_backend_kit.Task.{Value, text}
use go_backend_kit.Dispatch.{NodeInfo, Pick, chosen, no_node, crash}
use go_backend_kit.Instances.Types.{
  TaskState, created, allocated, running, paused, completed, failed, cancelled, timeout,
  TaskInstance, TaskManager, ManagerError, not_found, nodes_unknown, no_nodes, nil_node, bad_index,
  Outside,
}
use go_backend_kit.Instances.Engine.{send_if_room, get_instance, update_state, update_progress}
use go_backend_kit.Instances.Create.{create_instance, create_instance_from_template}
use go_backend_kit.Instances.Allocator.{allocate}

abbrev pub is_in_created : TaskState → Bool
is_in_created created = true
is_in_created allocated = false
is_in_created running = false
is_in_created paused = false
is_in_created completed = false
is_in_created failed = false
is_in_created cancelled = false
is_in_created timeout = false

abbrev pub is_in_running : TaskState → Bool
is_in_running running = true
is_in_running created = false
is_in_running allocated = false
is_in_running paused = false
is_in_running completed = false
is_in_running failed = false
is_in_running cancelled = false
is_in_running timeout = false

abbrev pub is_in_completed : TaskState → Bool
is_in_completed completed = true
is_in_completed created = false
is_in_completed allocated = false
is_in_completed running = false
is_in_completed paused = false
is_in_completed failed = false
is_in_completed cancelled = false
is_in_completed timeout = false

abbrev pub is_in_allocated : TaskState → Bool
is_in_allocated allocated = true
is_in_allocated created = false
is_in_allocated running = false
is_in_allocated completed = false
is_in_allocated paused = false
is_in_allocated failed = false
is_in_allocated cancelled = false
is_in_allocated timeout = false

-- `AllocateTask`; the load of the node and the record of the allocation go to others.
unfoldable pub allocate_to :
    String → TaskInstance → Option Pick → TaskManager → TaskManager × Option ManagerError
allocate_to id i none m = (m, some no_nodes)
allocate_to id i (some no_node) m = (m, some nil_node)
allocate_to id i (some crash) m = (m, some bad_index)
allocate_to id i (some (chosen n)) m =
    (record m { tasks = put id (record i { node_id = n.id; state = allocated }) m.tasks }, none)

unfoldable pub allocate_among :
    Outside
    → String
    → String
    → TaskInstance
    → Option (List NodeInfo)
    → TaskManager
    → TaskManager × Option ManagerError
allocate_among env strategy id i none m = (m, some nodes_unknown)
allocate_among env strategy id i (some []) m = (m, some no_nodes)
allocate_among env strategy id i (some (n ∷ ns)) m =
    allocate_to id i (allocate strategy env.nanos i (n ∷ ns)) m

unfoldable pub allocate_found :
    Outside
    → String
    → String
    → TaskManager × Option TaskInstance
    → TaskManager × Option ManagerError
allocate_found env strategy id (m, none) = (m, some not_found)
allocate_found env strategy id (m, some i) = allocate_among env strategy id i env.nodes m

unfoldable pub allocate_task :
    Outside → String → String → TaskManager → TaskManager × Option ManagerError
allocate_task env strategy id m = allocate_found env strategy id (get_instance env id m)

-- An error lets the worker sleep with the instance, and a panic ends it with the process.
unfoldable pub after_allocation : String → TaskManager × Option ManagerError → TaskManager
after_allocation id (m, none) = m
after_allocation id (m, some nil_node) = m
after_allocation id (m, some bad_index) = m
after_allocation id (m, some _) = record m { retrying = some id }

-- A step of `allocationWorker`: the end of its sleep, or the next instance of the channel.
unfoldable pub allocate_next : Outside → String → List String → TaskManager → TaskManager
allocate_next env strategy [] m = m
allocate_next env strategy (id ∷ ids) m =
    after_allocation id (allocate_task env strategy id (record m { task_chan = ids }))

unfoldable pub worker_turn : Outside → String → Option String → TaskManager → TaskManager
worker_turn env strategy (some id) m = record m {
  task_chan = send_if_room id m.task_chan;
  retrying = none;
}
worker_turn env strategy none m = allocate_next env strategy m.task_chan m

unfoldable pub allocation_worker : Outside → String → TaskManager → TaskManager
allocation_worker env strategy m = worker_turn env strategy m.retrying m

-- Dependencies that Redis has are kept in memory by the way.
unfoldable pub check_dependency : TaskManager × Option TaskInstance → TaskManager × Bool
check_dependency (m, none) = (m, false)
check_dependency (m, some i) = (m, is_in_completed i.state)

unfoldable pub check_dependencies : Outside → List String → TaskManager → TaskManager × Bool
check_dependencies env [] m = (m, true)
check_dependencies env (d ∷ ds) m =
    let first = check_dependency (get_instance env d m) in
    let rest = check_dependencies env ds first.0 in if first.1 then rest else first

unfoldable pub has_overrun : Time → Duration → TaskInstance → Bool
has_overrun now limit i = elim i.started_at [
  | none ↦ false
  | some t ↦ is_in_running i.state && ltb_ℤ limit (sub_time now t)
]

-- The missed heartbeat, which is only logged, is left out.
abbrev pub queue_if : String → TaskManager × Bool → TaskManager
queue_if id (m, ready) = if ready then record m { task_chan = send_if_room id m.task_chan } else m

unfoldable pub check_instance : Outside → TaskInstance → TaskManager → TaskManager
check_instance env i m =
    if has_overrun env.now m.task_timeout i
    then (update_state env.now i.id timeout (("reason", text "task timeout") ∷ []) m).0
    else if is_in_created i.state && ltb 0 (length i.depends_on)
    then queue_if i.id (check_dependencies env i.depends_on m)
    else m

-- The instances are shared with the map, so that each is read when its turn comes.
unfoldable pub check_found : Outside → Option TaskInstance → TaskManager → TaskManager
check_found env none m = m
check_found env (some i) m = check_instance env i m

unfoldable pub check_each : Outside → List String → TaskManager → TaskManager
check_each env [] m = m
check_each env (id ∷ ids) m = check_each env ids (check_found env (get id m.tasks) m)

unfoldable pub check_task_states : Outside → TaskManager → TaskManager
check_task_states env m = check_each env (map (λ p. p.0) m.tasks) m

unfoldable pub is_old : Time → TaskInstance → Bool
is_old now i = elim i.completed_at [
  | none ↦ false
  | some t ↦ ltb_ℤ (seconds (pos 86400)) (sub_time now t)
]

unfoldable pub delete_old : Time → Dict String TaskInstance → Dict String TaskInstance
delete_old now [] = []
delete_old now ((id, i) ∷ m) =
    let rest = delete_old now m in if is_old now i then rest else (id, i) ∷ rest

unfoldable pub cleanup_old_instances : Time → TaskManager → TaskManager
cleanup_old_instances now m = record m { tasks = delete_old now m.tasks }

unfoldable pub is_active : TaskInstance → Bool
is_active i = is_in_running i.state || is_in_allocated i.state

-- What Redis has under each of its keys, in order, if it can be read.
unfoldable pub keep_active : Option TaskInstance → TaskManager → TaskManager
keep_active none m = m
keep_active (some i) m = if is_active i then record m { tasks = put i.id i m.tasks } else m

unfoldable pub load_instances : List (Option TaskInstance) → TaskManager → TaskManager
load_instances [] m = m
load_instances (o ∷ os) m = load_instances os (keep_active o m)

-- What Redis has under the identifier of an instance: what was last saved there.
unfoldable pub last_saved : String → List TaskInstance → Option TaskInstance
last_saved id [] = none
last_saved id (i ∷ is) = if str_eq i.id id then some i else last_saved id is

-- The calls of the methods and the turns of the goroutines.
pub data Call : Type 0 where
  creates templates : Outside → String → Dict String Value → Call
  updates : Time → String → TaskState → Dict String Value → Call
  progresses : Time → String → Dict String Value → Call
  gets : Outside → String → Call
  allocates : Outside → String → String → Call
  works : Outside → String → Call
  checks : Outside → Call
  cleans : Time → Call
  loads : List (Option TaskInstance) → Call

unfoldable pub step : Call → TaskManager → TaskManager
step (creates env definition params) m = (create_instance env definition params m).0
step (templates env id params) m = (create_instance_from_template env id params m).0
step (updates now id state metadata) m = (update_state now id state metadata m).0
step (progresses now id metrics) m = (update_progress now id metrics m).0
step (gets env id) m = (get_instance env id m).0
step (allocates env strategy id) m = (allocate_task env strategy id m).0
step (works env strategy) m = allocation_worker env strategy m
step (checks env) m = check_task_states env m
step (cleans now) m = cleanup_old_instances now m
step (loads is) m = load_instances is m

unfoldable pub run : List Call → TaskManager → TaskManager
run [] m = m
run (c ∷ cs) m = run cs (step c m)
