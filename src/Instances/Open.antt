-- ===== src/Instances/Open.antt =====
-- crawler/task/manager.go: creations keep an instance that has not ended.
use go_backend_kit.Common.{
  String, Bool-cases, inl, inr, ◌≡◌, ◌≢◌, refl, ap, Option, none, some, [], Dict, get, put, get-put,
  string_key, str_eq, eq_iff, arith, ◌∙◌,
}
use mathlib.Core.Option.{some-injective}
use go_backend_kit.Task.{Task, Value}
use go_backend_kit.Instances.Types.{TaskInstance, TaskManager, Template, Outside}
use go_backend_kit.Instances.Engine.{get_instance, get_found, keep_loaded}
use go_backend_kit.Instances.Create.{
  add_instance, new_instance, add_created, create_from, create_for, create_by, add_from_template,
  url_of,
}

-- The manager has the instance, and it has no completion time.
abbrev pub IsOpen : String → Dict String TaskInstance → Type 0
IsOpen id d = (i : TaskInstance) × (get id d ≡ some i) × (i.completed_at ≡ none)

pub put-IsOpen :
    (id j : String) (v : TaskInstance) (d : Dict String TaskInstance)
    → IsOpen id d
    → (j ≡ id → v.completed_at ≡ none)
    → IsOpen id (put j v d)
put-IsOpen id j v d (i, e, n) h = elim (Bool-cases (str_eq j id)) [
  | inl b ↦ (v, get-put id j v d ∙ rw b refl, h ((eq_iff j id).0 b))
  | inr b ↦ (i, get-put id j v d ∙ rw (b, e) refl, n)
]

-- Of two entries under one key, one is the other.
pub found-IsOpen :
    (id j : String) (i : TaskInstance) (d : Dict String TaskInstance)
    → IsOpen id d
    → get j d ≡ some i
    → j ≡ id
    → i.completed_at ≡ none
found-IsOpen id j i d (k, e, n) f h = ground (arith, some-injective k i, ap (λ x. get x d) h)

keep_loaded-IsOpen :
    (id j : String) (o : Option TaskInstance) (m : TaskManager)
    → IsOpen id m.tasks
    → get j m.tasks ≡ none
    → IsOpen id (keep_loaded j o m).0.tasks
unfolding keep_loaded
keep_loaded-IsOpen id j none m h e = h
keep_loaded-IsOpen id j (some i) m (k, f, n) e =
    put-IsOpen id j i m.tasks (k, f, n) (λ q. ground (arith, ap (λ x. get x m.tasks) q))

get_found-IsOpen :
    (env : Outside) (id j : String) (o : Option TaskInstance) (m : TaskManager)
    → IsOpen id m.tasks
    → get j m.tasks ≡ o
    → IsOpen id (get_found env j o m).0.tasks
unfolding get_found
get_found-IsOpen env id j (some i) m h e = h
get_found-IsOpen env id j none m h e = keep_loaded-IsOpen id j (env.load j) m h e

pub get_instance-IsOpen :
    (env : Outside) (id j : String) (m : TaskManager)
    → IsOpen id m.tasks
    → IsOpen id (get_instance env j m).0.tasks
unfolding get_instance
get_instance-IsOpen env id j m h = get_found-IsOpen env id j (get j m.tasks) m h refl

-- An instance that is given stands in the map.
keep_loaded_found :
    (j : String) (i : TaskInstance) (o : Option TaskInstance) (m : TaskManager)
    → (keep_loaded j o m).1 ≡ some i
    → get j (keep_loaded j o m).0.tasks ≡ some i
unfolding keep_loaded
keep_loaded_found j i none m e = cc
keep_loaded_found j i (some k) m e = ground (arith, get-put j j k m.tasks, eq_iff j j)

get_found_found :
    (env : Outside) (j : String) (i : TaskInstance) (o : Option TaskInstance) (m : TaskManager)
    → get j m.tasks ≡ o
    → (get_found env j o m).1 ≡ some i
    → get j (get_found env j o m).0.tasks ≡ some i
unfolding get_found
get_found_found env j i (some k) m f e = f ∙ e
get_found_found env j i none m f e = keep_loaded_found j i (env.load j) m e

pub get_instance_found :
    (env : Outside) (j : String) (i : TaskInstance) (m : TaskManager)
    → (get_instance env j m).1 ≡ some i
    → get j (get_instance env j m).0.tasks ≡ some i
unfolding get_instance
get_instance_found env j i m e = get_found_found env j i (get j m.tasks) m refl e

add_instance-IsOpen :
    (id : String) (i : TaskInstance) (m : TaskManager)
    → IsOpen id m.tasks
    → i.id ≢ id
    → IsOpen id (add_instance i m).tasks
unfolding add_instance
add_instance-IsOpen id i m h new = put-IsOpen id i.id i m.tasks h (λ q. ground arith)

add_created-IsOpen :
    (env : Outside) (id definition : String) (params : Dict String Value) (o : Option Task)
    (m : TaskManager)
    → IsOpen id m.tasks
    → env.fresh_id ≢ id
    → IsOpen id (add_created env definition params o m).0.tasks
unfolding add_created new_instance
add_created-IsOpen env id definition params none m h new = h
add_created-IsOpen env id definition params (some t) m h new =
    add_instance-IsOpen id (new_instance env definition t [] params) m h new

create_from-IsOpen :
    (env : Outside) (id definition : String) (params : Dict String Value)
    (make : String → Dict String Value → Option Task) (o : Option String) (m : TaskManager)
    → IsOpen id m.tasks
    → env.fresh_id ≢ id
    → IsOpen id (create_from env definition params make o m).0.tasks
unfolding create_from
create_from-IsOpen env id definition params make none m h new = h
create_from-IsOpen env id definition params make (some url) m h new =
    add_created-IsOpen env id definition params (make url params) m h new

pub create_for-IsOpen :
    (env : Outside) (id definition : String) (params : Dict String Value)
    (o : Option (String → Dict String Value → Option Task)) (m : TaskManager)
    → IsOpen id m.tasks
    → env.fresh_id ≢ id
    → IsOpen id (create_for env definition params o m).0.tasks
unfolding create_for
create_for-IsOpen env id definition params none m h new = h
create_for-IsOpen env id definition params (some make) m h new =
    create_from-IsOpen env id definition params make (url_of params) m h new

add_from_template-IsOpen :
    (env : Outside) (id j : String) (tmpl : Template) (params : Dict String Value) (o : Option Task)
    (m : TaskManager)
    → IsOpen id m.tasks
    → env.fresh_id ≢ id
    → IsOpen id (add_from_template env j tmpl params o m).0.tasks
unfolding add_from_template new_instance
add_from_template-IsOpen env id j tmpl params none m h new = h
add_from_template-IsOpen env id j tmpl params (some t) m h new =
    add_instance-IsOpen id (new_instance env tmpl.definition t _ params) m h new

pub create_by-IsOpen :
    (env : Outside) (id j : String) (params : Dict String Value) (o : Option Template)
    (m : TaskManager)
    → IsOpen id m.tasks
    → env.fresh_id ≢ id
    → IsOpen id (create_by env j params o m).0.tasks
unfolding create_by
create_by-IsOpen env id j params none m h new = h
create_by-IsOpen env id j params (some tmpl) m h new =
    add_from_template-IsOpen env id j tmpl params (env.template_task j params) m h new
