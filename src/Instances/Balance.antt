-- ===== src/Instances/Balance.antt =====
-- crawler/task/manager.go: the counters against the changes of state.
use go_backend_kit.Common.{
  String, Bool-cases, inl, inr, ◌≡◌, refl, ◌∙◌, Option, none, some, List, [], ◌∷◌, Dict, get,
  string_key, Time, ◌&&◌, ltb, length,
}
use go_backend_kit.Task.{Task, Value, text}
use go_backend_kit.Instances.Types.{timeout, TaskInstance, TaskManager, Template, Outside}
use go_backend_kit.Instances.Books.{
  counters, get_instance-books, allocate_task-books, worker_turn-books, check_dependencies-books,
  queue_if-books, load_instances-books, update_progress-books,
}
use go_backend_kit.Instances.Engine.{update_state}
use go_backend_kit.Instances.Create.{
  add_instance, add_created, create_from, create_for, create_by, create_instance, add_from_template,
  create_instance_from_template, url_of,
}
use go_backend_kit.Instances.Ticks.{
  allocation_worker, check_found, check_dependencies, has_overrun, check_instance, check_each,
  check_task_states, cleanup_old_instances, Call, creates, templates, updates, progresses, gets,
  allocates, works, checks, cleans, loads, step, run, queue_if, is_in_created,
}
use go_backend_kit.Instances.Moves.{
  starting, ending, counted, first_run, first_end, count_all, HasMoved, HasMoved-trans,
  HasMoved-same, HasMoved-books, update_state-HasMoved,
}

-- The other operations leave the counters.
add_created-counters :
    (env : Outside) (definition : String) (params : Dict String Value) (o : Option Task)
    (m : TaskManager)
    → counters (add_created env definition params o m).0 ≡ counters m
unfolding add_created add_instance
add_created-counters env definition params none m = refl
add_created-counters env definition params (some t) m = refl

create_from-counters :
    (env : Outside) (definition : String) (params : Dict String Value)
    (make : String → Dict String Value → Option Task) (o : Option String) (m : TaskManager)
    → counters (create_from env definition params make o m).0 ≡ counters m
unfolding create_from
create_from-counters env definition params make none m = refl
create_from-counters env definition params make (some url) m =
    add_created-counters env definition params (make url params) m

create_for-counters :
    (env : Outside) (definition : String) (params : Dict String Value)
    (o : Option (String → Dict String Value → Option Task)) (m : TaskManager)
    → counters (create_for env definition params o m).0 ≡ counters m
unfolding create_for
create_for-counters env definition params none m = refl
create_for-counters env definition params (some make) m =
    create_from-counters env definition params make (url_of params) m

add_from_template-counters :
    (env : Outside) (j : String) (tmpl : Template) (params : Dict String Value) (o : Option Task)
    (m : TaskManager)
    → counters (add_from_template env j tmpl params o m).0 ≡ counters m
unfolding add_from_template add_instance
add_from_template-counters env j tmpl params none m = refl
add_from_template-counters env j tmpl params (some t) m = refl

create_by-counters :
    (env : Outside) (j : String) (params : Dict String Value) (o : Option Template)
    (m : TaskManager)
    → counters (create_by env j params o m).0 ≡ counters m
unfolding create_by
create_by-counters env j params none m = refl
create_by-counters env j params (some tmpl) m =
    add_from_template-counters env j tmpl params (env.template_task j params) m

timeout-HasMoved :
    (now : Time) (id : String) (metadata : Dict String Value) (m : TaskManager)
    → HasMoved 0 0 m (update_state now id timeout metadata m).0
timeout-HasMoved now id metadata m =
    by (get id m.tasks) (update_state-HasMoved now id timeout metadata m)
  where
    by :
        (o : Option TaskInstance)
        → HasMoved
            (counted (starting timeout) o)
            (counted (ending timeout) o)
            m
            (update_state now id timeout metadata m).0
        → HasMoved 0 0 m (update_state now id timeout metadata m).0
    by none h = h
    by (some i) h = h

check_instance-HasMoved :
    (env : Outside) (i : TaskInstance) (m : TaskManager) → HasMoved 0 0 m (check_instance env i m)
unfolding check_instance
check_instance-HasMoved env i m = elim (Bool-cases (has_overrun env.now m.task_timeout i)) [
  | inl b ↦ rw b (timeout-HasMoved env.now i.id (("reason", text "task timeout") ∷ []) m)
  | inr b ↦ elim (Bool-cases (is_in_created i.state && ltb 0 (length i.depends_on))) [
    | inl c ↦
        rw (b, c)
          (HasMoved-books m (queue_if i.id (check_dependencies env i.depends_on m)) (
            queue_if-books i.id (check_dependencies env i.depends_on m)
            ∙ check_dependencies-books env i.depends_on m))
    | inr c ↦ rw (b, c) (HasMoved-same m m refl)
  ]
]

check_found-HasMoved :
    (env : Outside) (o : Option TaskInstance) (m : TaskManager)
    → HasMoved 0 0 m (check_found env o m)
unfolding check_found
check_found-HasMoved env none m = HasMoved-same m m refl
check_found-HasMoved env (some i) m = check_instance-HasMoved env i m

check_each-HasMoved :
    (env : Outside) (ids : List String) (m : TaskManager) → HasMoved 0 0 m (check_each env ids m)
unfolding check_each
check_each-HasMoved env [] m = HasMoved-same m m refl
check_each-HasMoved env (id ∷ ids) m =
    HasMoved-trans 0 0 0 0 m (check_found env (get id m.tasks) m) (check_each env (id ∷ ids) m)
      (check_found-HasMoved env (get id m.tasks) m)
      (check_each-HasMoved env ids (check_found env (get id m.tasks) m))

step-HasMoved : (c : Call) (m : TaskManager) → HasMoved (first_run c m) (first_end c m) m (step c m)
unfolding step create_instance create_instance_from_template allocation_worker check_task_states
    cleanup_old_instances
step-HasMoved (creates env definition params) m =
    HasMoved-same m (step (creates env definition params) m)
      (create_for-counters env definition params (env.create_task definition) m)
step-HasMoved (templates env t params) m =
    HasMoved-same m (step (templates env t params) m)
      (create_by-counters env t params (env.templates t) m)
step-HasMoved (updates now j state metadata) m = update_state-HasMoved now j state metadata m
step-HasMoved (progresses now j metrics) m =
    HasMoved-books m (step (progresses now j metrics) m) (update_progress-books now j metrics m)
step-HasMoved (gets env j) m = HasMoved-books m (step (gets env j) m) (get_instance-books env j m)
step-HasMoved (allocates env strategy j) m =
    HasMoved-books m (step (allocates env strategy j) m) (allocate_task-books env strategy j m)
step-HasMoved (works env strategy) m =
    HasMoved-books m (step (works env strategy) m) (worker_turn-books env strategy m.retrying m)
step-HasMoved (checks env) m = check_each-HasMoved env _ m
step-HasMoved (cleans now) m = HasMoved-same m (step (cleans now) m) refl
step-HasMoved (loads os) m = HasMoved-books m (step (loads os) m) (load_instances-books os m)

-- Modulo 2^64, any calls and ticks raise the sum of the completed and the failed counter by the
-- number of updates that end an instance for the first time, and the active counter by the number
-- of updates that run one for the first time, less the former: no other call and no timeout
-- changes the active counter.
pub run-HasMoved :
    (cs : List Call) (m : TaskManager)
    → HasMoved (count_all first_run cs m) (count_all first_end cs m) m (run cs m)
unfolding run count_all
run-HasMoved [] m = HasMoved-same m m refl
run-HasMoved (c ∷ cs) m =
    HasMoved-trans (first_run c m) (first_end c m) (count_all first_run cs (step c m))
      (count_all first_end cs (step c m)) m (step c m) (run cs (step c m)) (step-HasMoved c m)
      (run-HasMoved cs (step c m))
