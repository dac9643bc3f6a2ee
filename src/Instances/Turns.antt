-- ===== src/Instances/Turns.antt =====
-- crawler/task/manager.go: updates and allocations keep an instance that has not ended.
use go_backend_kit.Common.{
  String, true, false, Bool-cases, inl, inr, ◌≡◌, ◌≢◌, refl, Option, Option-cases, none, some, List,
  [], ◌∷◌, Dict, get, string_key, arith, ◌∙◌, Time,
}
use go_backend_kit.Task.{Value}
use go_backend_kit.Dispatch.{NodeInfo, Pick, chosen, no_node, crash}
use go_backend_kit.Instances.Types.{
  TaskState, created, allocated, running, paused, completed, failed, cancelled, timeout,
  TaskInstance, TaskManager, ManagerError, nil_node, bad_index, no_definition, no_template, no_url,
  task_refused, not_found, nodes_unknown, no_nodes, Outside,
}
use go_backend_kit.Instances.Engine.{
  get_instance, ends, enter, enter_running, enter_completed, enter_failed, finish_update,
  update_found, update_state, update_progress,
}
use go_backend_kit.Instances.Ticks.{
  allocate_to, allocate_among, allocate_found, allocate_task, after_allocation, allocate_next,
  worker_turn,
}
use go_backend_kit.Instances.Open.{
  IsOpen, put-IsOpen, found-IsOpen, get_instance-IsOpen, get_instance_found,
}

-- An update that does not end an instance sets no completion time.
enter-tasks :
    (state : TaskState) (now : Time) (i : TaskInstance) (m : TaskManager)
    → (enter state now i m).0.tasks ≡ m.tasks
unfolding enter enter_running enter_completed enter_failed
enter-tasks created now i m = refl
enter-tasks allocated now i m = refl
enter-tasks running now i m = ground arith
enter-tasks paused now i m = refl
enter-tasks completed now i m = ground arith
enter-tasks failed now i m = ground arith
enter-tasks cancelled now i m = refl
enter-tasks timeout now i m = refl

enter-completed_at :
    (state : TaskState) (now : Time) (i : TaskInstance) (m : TaskManager)
    → ends state ≡ false
    → (enter state now i m).1.completed_at ≡ i.completed_at
unfolding enter enter_running
enter-completed_at created now i m e = refl
enter-completed_at allocated now i m e = refl
enter-completed_at running now i m e = ground arith
enter-completed_at paused now i m e = refl
enter-completed_at completed now i m e = cc
enter-completed_at failed now i m e = cc
enter-completed_at cancelled now i m e = refl
enter-completed_at timeout now i m e = refl

finish_update-IsOpen :
    (now : Time) (id j : String) (old state : TaskState) (metadata : Dict String Value)
    (s : TaskManager × TaskInstance)
    → IsOpen id s.0.tasks
    → (j ≡ id → s.1.completed_at ≡ none)
    → IsOpen id (finish_update now j old state metadata s).tasks
unfolding finish_update
finish_update-IsOpen now id j old state metadata (m, i) h n = put-IsOpen id j _ m.tasks h n

update_found-IsOpen :
    (now : Time) (id j : String) (state : TaskState) (metadata : Dict String Value)
    (i : TaskInstance) (m : TaskManager)
    → IsOpen id m.tasks
    → get j m.tasks ≡ some i
    → (ends state ≡ true → j ≢ id)
    → IsOpen id (update_found now j state metadata i m).tasks
unfolding update_found
update_found-IsOpen now id j state metadata i m h e spared =
    finish_update-IsOpen now id j i.state state metadata
      (enter state now (record i { state = state }) m)
      (rw (enter-tasks state now (record i { state = state }) m) h)
      (λ q. elim (Bool-cases (ends state)) [
        | inl b ↦ ground (arith, spared b q)
        | inr b ↦
            enter-completed_at state now (record i { state = state }) m b
            ∙ found-IsOpen id j i m.tasks h e q
      ])

pub update_state-IsOpen :
    (now : Time) (id j : String) (state : TaskState) (metadata : Dict String Value)
    (m : TaskManager)
    → IsOpen id m.tasks
    → (ends state ≡ true → j ≢ id)
    → IsOpen id (update_state now j state metadata m).0.tasks
unfolding update_state
update_state-IsOpen now id j state metadata m h spared = elim (Option-cases (get j m.tasks)) [
  | inl e ↦ rw (e, update_state) h
  | inr (i, e) ↦ rw (e, update_state) (update_found-IsOpen now id j state metadata i m h e spared)
]

pub update_progress-IsOpen :
    (now : Time) (id j : String) (metrics : Dict String Value) (m : TaskManager)
    → IsOpen id m.tasks
    → IsOpen id (update_progress now j metrics m).0.tasks
unfolding update_progress
update_progress-IsOpen now id j metrics m h = elim (Option-cases (get j m.tasks)) [
  | inl e ↦ rw (e, update_progress) h
  | inr (i, e) ↦
      rw (e, update_progress) (put-IsOpen id j _ m.tasks h (found-IsOpen id j i m.tasks h e))
]

allocate_to-IsOpen :
    (id j : String) (i : TaskInstance) (p : Option Pick) (m : TaskManager)
    → IsOpen id m.tasks
    → get j m.tasks ≡ some i
    → IsOpen id (allocate_to j i p m).0.tasks
unfolding allocate_to
allocate_to-IsOpen id j i none m h e = h
allocate_to-IsOpen id j i (some no_node) m h e = h
allocate_to-IsOpen id j i (some crash) m h e = h
allocate_to-IsOpen id j i (some (chosen n)) m h e =
    put-IsOpen id j _ m.tasks h (found-IsOpen id j i m.tasks h e)

allocate_among-IsOpen :
    (env : Outside) (strategy id j : String) (i : TaskInstance) (ns : Option (List NodeInfo))
    (m : TaskManager)
    → IsOpen id m.tasks
    → get j m.tasks ≡ some i
    → IsOpen id (allocate_among env strategy j i ns m).0.tasks
unfolding allocate_among
allocate_among-IsOpen env strategy id j i none m h e = h
allocate_among-IsOpen env strategy id j i (some []) m h e = h
allocate_among-IsOpen env strategy id j i (some (n ∷ ns)) m h e = allocate_to-IsOpen id j i _ m h e

allocate_found-IsOpen :
    (env : Outside) (strategy id j : String) (s : TaskManager × Option TaskInstance)
    → IsOpen id s.0.tasks
    → ((i : TaskInstance) → s.1 ≡ some i → get j s.0.tasks ≡ some i)
    → IsOpen id (allocate_found env strategy j s).0.tasks
unfolding allocate_found
allocate_found-IsOpen env strategy id j (m, none) h e = h
allocate_found-IsOpen env strategy id j (m, some i) h e =
    allocate_among-IsOpen env strategy id j i env.nodes m h (e i refl)

pub allocate_task-IsOpen :
    (env : Outside) (strategy id j : String) (m : TaskManager)
    → IsOpen id m.tasks
    → IsOpen id (allocate_task env strategy j m).0.tasks
unfolding allocate_task
allocate_task-IsOpen env strategy id j m h =
    allocate_found-IsOpen env strategy id j (get_instance env j m)
      (get_instance-IsOpen env id j m h) (λ i e. get_instance_found env j i m e)

after_allocation-tasks :
    (id : String) (s : TaskManager × Option ManagerError)
    → (after_allocation id s).tasks ≡ s.0.tasks
unfolding after_allocation
after_allocation-tasks id (m, none) = refl
after_allocation-tasks id (m, some e) = by e
  where
    by : (e : ManagerError) → (after_allocation id (m, some e)).tasks ≡ m.tasks
    by no_definition = refl
    by no_template = refl
    by no_url = refl
    by task_refused = refl
    by not_found = refl
    by nodes_unknown = refl
    by no_nodes = refl
    by nil_node = refl
    by bad_index = refl

allocate_next-IsOpen :
    (env : Outside) (strategy id : String) (ids : List String) (m : TaskManager)
    → IsOpen id m.tasks
    → IsOpen id (allocate_next env strategy ids m).tasks
unfolding allocate_next
allocate_next-IsOpen env strategy id [] m h = h
allocate_next-IsOpen env strategy id (j ∷ ids) m h =
    rw (after_allocation-tasks j (allocate_task env strategy j (record m { task_chan = ids })))
      (allocate_task-IsOpen env strategy id j (record m { task_chan = ids }) h)

pub worker_turn-IsOpen :
    (env : Outside) (strategy id : String) (o : Option String) (m : TaskManager)
    → IsOpen id m.tasks
    → IsOpen id (worker_turn env strategy o m).tasks
unfolding worker_turn
worker_turn-IsOpen env strategy id none m h = allocate_next-IsOpen env strategy id m.task_chan m h
worker_turn-IsOpen env strategy id (some j) m h = h
