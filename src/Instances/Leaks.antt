-- ===== src/Instances/Leaks.antt =====
-- crawler/task/manager.go: what keeps an instance in memory.
use go_backend_kit.Common.{
  String, true, false, Bool, Bool-cases, inl, inr, ◌≡◌, ◌≢◌, refl, ap, Option, none, some, List, [],
  ◌∷◌, All, Dict, get, string_key, str_eq, arith, ◌∙◌, Time, ltb, ◌&&◌, length,
}
use mathlib.Core.Option.{some-injective}
use go_backend_kit.Task.{text}
use go_backend_kit.Instances.Types.{timeout, TaskInstance, TaskManager, Outside}
use go_backend_kit.Instances.Engine.{get_instance, ends}
use go_backend_kit.Instances.Create.{create_instance, create_instance_from_template}
use go_backend_kit.Instances.Ticks.{
  allocation_worker, check_found, check_dependency, check_dependencies, has_overrun, check_instance,
  check_each, check_task_states, is_old, delete_old, cleanup_old_instances, is_active, keep_active,
  load_instances, Call, creates, templates, updates, progresses, gets, allocates, works, checks,
  cleans, loads, step, run, queue_if, is_in_created,
}
use go_backend_kit.Instances.Open.{
  IsOpen, put-IsOpen, get_instance-IsOpen, create_for-IsOpen, create_by-IsOpen,
}
use go_backend_kit.Instances.Turns.{
  update_state-IsOpen, update_progress-IsOpen, allocate_task-IsOpen, worker_turn-IsOpen,
}

check_dependency-tasks :
    (s : TaskManager × Option TaskInstance) → (check_dependency s).0.tasks ≡ s.0.tasks
unfolding check_dependency
check_dependency-tasks (m, none) = refl
check_dependency-tasks (m, some i) = refl

check_dependencies-IsOpen :
    (env : Outside) (id : String) (ds : List String) (m : TaskManager)
    → IsOpen id m.tasks
    → IsOpen id (check_dependencies env ds m).0.tasks
unfolding check_dependencies
check_dependencies-IsOpen env id [] m h = h
check_dependencies-IsOpen env id (d ∷ ds) m h =
    let first = check_dependency (get_instance env d m) in
    let h' : IsOpen id first.0.tasks =
      rw (check_dependency-tasks (get_instance env d m)) (get_instance-IsOpen env id d m h) in
    elim (Bool-cases first.1) [
      | inl b ↦ rw b (check_dependencies-IsOpen env id ds first.0 h')
      | inr b ↦ rw b h'
    ]

queue_if-tasks : (id : String) (s : TaskManager × Bool) → (queue_if id s).tasks ≡ s.0.tasks
queue_if-tasks id (m, true) = refl
queue_if-tasks id (m, false) = refl

check_instance-IsOpen :
    (env : Outside) (id : String) (i : TaskInstance) (m : TaskManager)
    → IsOpen id m.tasks
    → IsOpen id (check_instance env i m).tasks
unfolding check_instance
check_instance-IsOpen env id i m h = elim (Bool-cases (has_overrun env.now m.task_timeout i)) [
  | inl b ↦ rw b (
      update_state-IsOpen env.now id i.id timeout (("reason", text "task timeout") ∷ []) m h
        (λ e. cc))
  | inr b ↦ elim (Bool-cases (is_in_created i.state && ltb 0 (length i.depends_on))) [
    | inl c ↦
        rw (b, c, queue_if-tasks i.id (check_dependencies env i.depends_on m))
          (check_dependencies-IsOpen env id i.depends_on m h)
    | inr c ↦ rw (b, c) h
  ]
]

check_found-IsOpen :
    (env : Outside) (id : String) (o : Option TaskInstance) (m : TaskManager)
    → IsOpen id m.tasks
    → IsOpen id (check_found env o m).tasks
unfolding check_found
check_found-IsOpen env id none m h = h
check_found-IsOpen env id (some i) m h = check_instance-IsOpen env id i m h

check_each-IsOpen :
    (env : Outside) (id : String) (ids : List String) (m : TaskManager)
    → IsOpen id m.tasks
    → IsOpen id (check_each env ids m).tasks
unfolding check_each
check_each-IsOpen env id [] m h = h
check_each-IsOpen env id (j ∷ ids) m h =
    check_each-IsOpen env id ids _ (check_found-IsOpen env id (get j m.tasks) m h)

open_kept : (now : Time) (i : TaskInstance) → i.completed_at ≡ none → is_old now i ≡ false
unfolding is_old
open_kept now i e = rw e refl

delete_old-IsOpen :
    (now : Time) (id : String) (d : Dict String TaskInstance)
    → IsOpen id d
    → IsOpen id (delete_old now d)
unfolding delete_old get
delete_old-IsOpen now id [] h = h
delete_old-IsOpen now id ((j, k) ∷ d) (i, e, n) = elim (Bool-cases (str_eq j id)) [
  | inl b ↦
      let same : k ≡ i = some-injective k i (rw b at e) in
      (i, rw (open_kept now k (ap (λ x. x.completed_at) same ∙ n), b) (ap some same), n)
  | inr b ↦
      let rest = delete_old-IsOpen now id d (i, rw b at e, n) in
      elim (Bool-cases (is_old now k)) [ inl c ↦ rw c rest | inr c ↦ rw (c, b) rest ]
]

-- A list of what Redis has that has no instance of this identifier.
abbrev pub IsWithout : String → List (Option TaskInstance) → Type 0
IsWithout id = All (λ o. (i : TaskInstance) → o ≡ some i → i.id ≢ id)

keep_active-IsOpen :
    (id : String) (o : Option TaskInstance) (m : TaskManager)
    → IsOpen id m.tasks
    → ((i : TaskInstance) → o ≡ some i → i.id ≢ id)
    → IsOpen id (keep_active o m).tasks
unfolding keep_active
keep_active-IsOpen id none m h new = h
keep_active-IsOpen id (some i) m h new = elim (Bool-cases (is_active i)) [
  | inl b ↦ rw b (put-IsOpen id i.id i m.tasks h (λ q. ground (arith, new i refl q)))
  | inr b ↦ rw b h
]

load_instances-IsOpen :
    (id : String) (os : List (Option TaskInstance)) (m : TaskManager)
    → IsOpen id m.tasks
    → IsWithout id os
    → IsOpen id (load_instances os m).tasks
unfolding load_instances
load_instances-IsOpen id [] m h new = h
load_instances-IsOpen id (o ∷ os) m h new =
    load_instances-IsOpen id os _ (keep_active-IsOpen id o m h new.0) new.1

-- A call that neither ends the instance nor puts another in its place.
abbrev pub Spares : String → Call → Type 0
Spares id (creates env definition params) = env.fresh_id ≢ id
Spares id (templates env t params) = env.fresh_id ≢ id
Spares id (updates now j state metadata) = ends state ≡ true → j ≢ id
Spares id (progresses now j metrics) = Unit
Spares id (gets env j) = Unit
Spares id (allocates env strategy j) = Unit
Spares id (works env strategy) = Unit
Spares id (checks env) = Unit
Spares id (cleans now) = Unit
Spares id (loads is) = IsWithout id is

step-IsOpen :
    (id : String) (c : Call) (m : TaskManager)
    → IsOpen id m.tasks
    → Spares id c
    → IsOpen id (step c m).tasks
unfolding step create_instance create_instance_from_template allocation_worker check_task_states
    cleanup_old_instances
step-IsOpen id (creates env definition params) m h s =
    create_for-IsOpen env id definition params (env.create_task definition) m h s
step-IsOpen id (templates env t params) m h s =
    create_by-IsOpen env id t params (env.templates t) m h s
step-IsOpen id (updates now j state metadata) m h s =
    update_state-IsOpen now id j state metadata m h s
step-IsOpen id (progresses now j metrics) m h s = update_progress-IsOpen now id j metrics m h
step-IsOpen id (gets env j) m h s = get_instance-IsOpen env id j m h
step-IsOpen id (allocates env strategy j) m h s = allocate_task-IsOpen env strategy id j m h
step-IsOpen id (works env strategy) m h s = worker_turn-IsOpen env strategy id m.retrying m h
step-IsOpen id (checks env) m h s = check_each-IsOpen env id _ m h
step-IsOpen id (cleans now) m h s = delete_old-IsOpen now id m.tasks h
step-IsOpen id (loads is) m h s = load_instances-IsOpen id is m h s

-- An instance in memory without a completion time stays there and without one through any calls
-- and ticks, timeouts, cancellations, checks and cleanups included, except an update of it to
-- completed or failed and a new or loaded instance of its identifier.
pub run-IsOpen :
    (id : String) (cs : List Call) (m : TaskManager)
    → IsOpen id m.tasks
    → All (Spares id) cs
    → IsOpen id (run cs m).tasks
unfolding run
run-IsOpen id [] m h s = h
run-IsOpen id (c ∷ cs) m h s = run-IsOpen id cs (step c m) (step-IsOpen id c m h s.0) s.1
