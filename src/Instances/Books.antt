-- ===== src/Instances/Books.antt =====
-- crawler/task/manager.go: what leaves the counters and the saved instances.
use go_backend_kit.Common.{
  String, true, false, Bool, Bool-cases, inl, inr, ◌≡◌, refl, ◌∙◌, Option, Option-cases, none, some,
  List, [], ◌∷◌, Dict, get, string_key, Time, ℤ,
}
use go_backend_kit.Task.{Value}
use go_backend_kit.Dispatch.{NodeInfo, Pick, chosen, no_node, crash}
use go_backend_kit.Instances.Types.{
  TaskInstance, TaskManager, ManagerError, nil_node, bad_index, no_definition, no_template, no_url,
  task_refused, not_found, nodes_unknown, no_nodes, Outside,
}
use go_backend_kit.Instances.Engine.{get_instance, get_found, keep_loaded, update_progress}
use go_backend_kit.Instances.Ticks.{
  allocate_to, allocate_among, allocate_found, allocate_task, after_allocation, allocate_next,
  worker_turn, check_dependency, check_dependencies, is_active, keep_active, load_instances,
  queue_if,
}

-- The counters apart from the total.
abbrev pub counters : TaskManager → ℤ × ℤ × ℤ
counters m = (m.active_tasks, m.completed_tasks, m.failed_tasks)

-- The same, with the instances that were saved.
abbrev pub books : TaskManager → ℤ × ℤ × ℤ × List TaskInstance
books m = (m.active_tasks, m.completed_tasks, m.failed_tasks, m.saved)

get_found-books :
    (env : Outside) (j : String) (o : Option TaskInstance) (m : TaskManager)
    → books (get_found env j o m).0 ≡ books m
unfolding get_found
get_found-books env j (some i) m = refl
get_found-books env j none m = loaded (env.load j)
  where
    loaded : (o : Option TaskInstance) → books (keep_loaded j o m).0 ≡ books m
    loaded none = unfold keep_loaded in refl
    loaded (some i) = unfold keep_loaded in refl

pub get_instance-books :
    (env : Outside) (j : String) (m : TaskManager) → books (get_instance env j m).0 ≡ books m
unfolding get_instance
get_instance-books env j m = get_found-books env j (get j m.tasks) m

allocate_to-books :
    (j : String) (i : TaskInstance) (p : Option Pick) (m : TaskManager)
    → books (allocate_to j i p m).0 ≡ books m
unfolding allocate_to
allocate_to-books j i none m = refl
allocate_to-books j i (some no_node) m = refl
allocate_to-books j i (some crash) m = refl
allocate_to-books j i (some (chosen n)) m = refl

allocate_among-books :
    (env : Outside) (strategy j : String) (i : TaskInstance) (ns : Option (List NodeInfo))
    (m : TaskManager)
    → books (allocate_among env strategy j i ns m).0 ≡ books m
unfolding allocate_among
allocate_among-books env strategy j i none m = refl
allocate_among-books env strategy j i (some []) m = refl
allocate_among-books env strategy j i (some (n ∷ ns)) m = allocate_to-books j i _ m

allocate_found-books :
    (env : Outside) (strategy j : String) (s : TaskManager × Option TaskInstance)
    → books (allocate_found env strategy j s).0 ≡ books s.0
unfolding allocate_found
allocate_found-books env strategy j (m, none) = refl
allocate_found-books env strategy j (m, some i) = allocate_among-books env strategy j i env.nodes m

pub allocate_task-books :
    (env : Outside) (strategy j : String) (m : TaskManager)
    → books (allocate_task env strategy j m).0 ≡ books m
unfolding allocate_task
allocate_task-books env strategy j m =
    allocate_found-books env strategy j (get_instance env j m) ∙ get_instance-books env j m

after_allocation-books :
    (id : String) (s : TaskManager × Option ManagerError)
    → books (after_allocation id s) ≡ books s.0
unfolding after_allocation
after_allocation-books id (m, none) = refl
after_allocation-books id (m, some e) = by e
  where
    by : (e : ManagerError) → books (after_allocation id (m, some e)) ≡ books m
    by no_definition = refl
    by no_template = refl
    by no_url = refl
    by task_refused = refl
    by not_found = refl
    by nodes_unknown = refl
    by no_nodes = refl
    by nil_node = refl
    by bad_index = refl

allocate_next-books :
    (env : Outside) (strategy : String) (ids : List String) (m : TaskManager)
    → books (allocate_next env strategy ids m) ≡ books m
unfolding allocate_next
allocate_next-books env strategy [] m = refl
allocate_next-books env strategy (j ∷ ids) m =
    after_allocation-books j (allocate_task env strategy j (record m { task_chan = ids }))
    ∙ allocate_task-books env strategy j (record m { task_chan = ids })

pub worker_turn-books :
    (env : Outside) (strategy : String) (o : Option String) (m : TaskManager)
    → books (worker_turn env strategy o m) ≡ books m
unfolding worker_turn
worker_turn-books env strategy none m = allocate_next-books env strategy m.task_chan m
worker_turn-books env strategy (some j) m = refl

check_dependency-books :
    (s : TaskManager × Option TaskInstance) → books (check_dependency s).0 ≡ books s.0
unfolding check_dependency
check_dependency-books (m, none) = refl
check_dependency-books (m, some i) = refl

pub check_dependencies-books :
    (env : Outside) (ds : List String) (m : TaskManager)
    → books (check_dependencies env ds m).0 ≡ books m
unfolding check_dependencies
check_dependencies-books env [] m = refl
check_dependencies-books env (d ∷ ds) m =
    let first = check_dependency (get_instance env d m) in
    let e : books first.0 ≡ books m =
      check_dependency-books (get_instance env d m) ∙ get_instance-books env d m in
    elim (Bool-cases first.1) [
      | inl b ↦ rw b (check_dependencies-books env ds first.0 ∙ e)
      | inr b ↦ rw b e
    ]

pub queue_if-books : (id : String) (s : TaskManager × Bool) → books (queue_if id s) ≡ books s.0
queue_if-books id (m, true) = refl
queue_if-books id (m, false) = refl

keep_active-books : (o : Option TaskInstance) (m : TaskManager) → books (keep_active o m) ≡ books m
unfolding keep_active
keep_active-books none m = refl
keep_active-books (some i) m = elim (Bool-cases (is_active i)) [
  | inl b ↦ rw b refl
  | inr b ↦ rw b refl
]

pub load_instances-books :
    (os : List (Option TaskInstance)) (m : TaskManager) → books (load_instances os m) ≡ books m
unfolding load_instances
load_instances-books [] m = refl
load_instances-books (o ∷ os) m = load_instances-books os (keep_active o m) ∙ keep_active-books o m

pub update_progress-books :
    (now : Time) (id : String) (metrics : Dict String Value) (m : TaskManager)
    → books (update_progress now id metrics m).0 ≡ books m
unfolding update_progress
update_progress-books now id metrics m = elim (Option-cases (get id m.tasks)) [
  | inl e ↦ rw (e, update_progress) refl
  | inr (i, e) ↦ rw (e, update_progress) refl
]
