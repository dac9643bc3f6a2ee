-- ===== src/Instances/Restart.antt =====
-- crawler/task/manager.go: what `loadInstances` finds after a restart.
use go_backend_kit.Common.{
  String, Bool-cases, inl, inr, ◌≡◌, refl, ap, ◌∙◌, Option, none, some, List, [], ◌∷◌, map, All,
  Dict, str_eq,
}
use go_backend_kit.Task.{Task, Value}
use go_backend_kit.Instances.Types.{created, TaskInstance, TaskManager, Template, Outside}
use go_backend_kit.Instances.Books.{
  books, get_instance-books, allocate_task-books, worker_turn-books, update_progress-books,
}
use go_backend_kit.Instances.Create.{
  new_instance, add_instance, add_created, create_from, create_for, create_by, create_instance,
  add_from_template, create_instance_from_template, url_of,
}
use go_backend_kit.Instances.Ticks.{
  allocation_worker, cleanup_old_instances, is_active, keep_active, load_instances, last_saved,
  Call, creates, templates, updates, progresses, gets, allocates, works, checks, cleans, loads,
  step, run,
}

-- Only instances in state `created` were saved.
abbrev pub AllCreated : List TaskInstance → Type 0
AllCreated = All (λ i. i.state ≡ created)

-- The same books, the same saved instances.
kept_saved : (m n : TaskManager) → books n ≡ books m → AllCreated m.saved → AllCreated n.saved
kept_saved m n e h = rw (ap (λ b. b.3) e) h

add_created-AllCreated :
    (env : Outside) (definition : String) (params : Dict String Value) (o : Option Task)
    (m : TaskManager)
    → AllCreated m.saved
    → AllCreated (add_created env definition params o m).0.saved
unfolding add_created add_instance new_instance
add_created-AllCreated env definition params none m h = h
add_created-AllCreated env definition params (some t) m h = (refl, h)

create_from-AllCreated :
    (env : Outside) (definition : String) (params : Dict String Value)
    (make : String → Dict String Value → Option Task) (o : Option String) (m : TaskManager)
    → AllCreated m.saved
    → AllCreated (create_from env definition params make o m).0.saved
unfolding create_from
create_from-AllCreated env definition params make none m h = h
create_from-AllCreated env definition params make (some url) m h =
    add_created-AllCreated env definition params (make url params) m h

create_for-AllCreated :
    (env : Outside) (definition : String) (params : Dict String Value)
    (o : Option (String → Dict String Value → Option Task)) (m : TaskManager)
    → AllCreated m.saved
    → AllCreated (create_for env definition params o m).0.saved
unfolding create_for
create_for-AllCreated env definition params none m h = h
create_for-AllCreated env definition params (some make) m h =
    create_from-AllCreated env definition params make (url_of params) m h

add_from_template-AllCreated :
    (env : Outside) (j : String) (tmpl : Template) (params : Dict String Value) (o : Option Task)
    (m : TaskManager)
    → AllCreated m.saved
    → AllCreated (add_from_template env j tmpl params o m).0.saved
unfolding add_from_template add_instance new_instance
add_from_template-AllCreated env j tmpl params none m h = h
add_from_template-AllCreated env j tmpl params (some t) m h = (refl, h)

create_by-AllCreated :
    (env : Outside) (j : String) (params : Dict String Value) (o : Option Template)
    (m : TaskManager)
    → AllCreated m.saved
    → AllCreated (create_by env j params o m).0.saved
unfolding create_by
create_by-AllCreated env j params none m h = h
create_by-AllCreated env j params (some tmpl) m h =
    add_from_template-AllCreated env j tmpl params (env.template_task j params) m h

-- A call that neither updates a state nor checks the states.
abbrev pub IsQuiet : Call → Type 0
IsQuiet (creates env definition params) = Unit
IsQuiet (templates env t params) = Unit
IsQuiet (updates now j state metadata) = ⊥
IsQuiet (progresses now j metrics) = Unit
IsQuiet (gets env j) = Unit
IsQuiet (allocates env strategy j) = Unit
IsQuiet (works env strategy) = Unit
IsQuiet (checks env) = ⊥
IsQuiet (cleans now) = Unit
IsQuiet (loads os) = ⊥

step-AllCreated :
    (c : Call) (m : TaskManager) → IsQuiet c → AllCreated m.saved → AllCreated (step c m).saved
unfolding step create_instance create_instance_from_template allocation_worker cleanup_old_instances
step-AllCreated (creates env definition params) m q h =
    create_for-AllCreated env definition params (env.create_task definition) m h
step-AllCreated (templates env t params) m q h =
    create_by-AllCreated env t params (env.templates t) m h
step-AllCreated (progresses now j metrics) m q h =
    kept_saved m (step (progresses now j metrics) m) (update_progress-books now j metrics m) h
step-AllCreated (gets env j) m q h =
    kept_saved m (step (gets env j) m) (get_instance-books env j m) h
step-AllCreated (allocates env strategy j) m q h =
    kept_saved m (step (allocates env strategy j) m) (allocate_task-books env strategy j m) h
step-AllCreated (works env strategy) m q h =
    kept_saved m (step (works env strategy) m) (worker_turn-books env strategy m.retrying m) h
step-AllCreated (cleans now) m q h = h
step-AllCreated (updates now j state metadata) m q h = absurd q
step-AllCreated (checks env) m q h = absurd q
step-AllCreated (loads os) m q h = absurd q

run-AllCreated :
    (cs : List Call) (m : TaskManager)
    → All IsQuiet cs
    → AllCreated m.saved
    → AllCreated (run cs m).saved
unfolding run
run-AllCreated [] m q h = h
run-AllCreated (c ∷ cs) m q h = run-AllCreated cs (step c m) q.1 (step-AllCreated c m q.0 h)

keep_active-last_saved :
    (id : String) (is : List TaskInstance) (m : TaskManager)
    → AllCreated is
    → keep_active (last_saved id is) m ≡ m
unfolding last_saved keep_active is_active
keep_active-last_saved id [] m h = refl
keep_active-last_saved id (i ∷ is) m h = elim (Bool-cases (str_eq i.id id)) [
  | inl b ↦ rw (b, h.0) refl
  | inr b ↦ rw b (keep_active-last_saved id is m h.1)
]

load_instances-last_saved :
    (ids : List String) (is : List TaskInstance) (m : TaskManager)
    → AllCreated is
    → load_instances (map (λ id. last_saved id is) ids) m ≡ m
unfolding load_instances
load_instances-last_saved [] is m h = refl
load_instances-last_saved (id ∷ ids) is m h =
    ap (load_instances (map (λ j. last_saved j is) ids)) (keep_active-last_saved id is m h)
    ∙ load_instances-last_saved ids is m h

-- If all saved instances are in state created, then after any calls other than updates, state
-- checks and loads, a restart that reads what was last saved under any identifiers loads nothing,
-- the instances that were allocated included.
pub run-forgotten :
    (cs : List Call) (ids : List String) (m fresh : TaskManager)
    → All IsQuiet cs
    → AllCreated m.saved
    → load_instances (map (λ id. last_saved id (run cs m).saved) ids) fresh ≡ fresh
run-forgotten cs ids m fresh q h =
    load_instances-last_saved ids (run cs m).saved fresh (run-AllCreated cs m q h)
