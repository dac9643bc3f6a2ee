-- ===== src/Instances/Create.antt =====
-- crawler/task/manager.go: creation of instances.
use go_backend_kit.Common.{
  String, Option, none, some, [], ◌∷◌, pos, ◌+ℤ◌, wrap64, Dict, get, put, string_key,
}
use go_backend_kit.Task.{Task, Value, text}
use go_backend_kit.Instances.Engine.{send_if_room}
use go_backend_kit.Instances.Types.{
  created, TaskInstance, TaskManager, ManagerError, no_definition, no_template, no_url,
  task_refused, Template, Outside,
}

unfoldable pub url_of : Dict String Value → Option String
url_of params = elim (get "url" params) [ some (text s) ↦ some s | _ ↦ none ]

unfoldable pub new_instance :
    Outside → String → Task → Dict String Value → Dict String Value → TaskInstance
new_instance env definition t labels params = record {
  id = env.fresh_id;
  definition_id = definition;
  task = t;
  state = created;
  node_id = "";
  context = labels;
  variables = params;
  created_at = env.now;
  started_at = none;
  completed_at = none;
  depends_on = [];
  last_heartbeat = env.now;
  metrics = [];
}

-- The instance is stored and counted, saved, and queued for allocation if there is room.
unfoldable pub add_instance : TaskInstance → TaskManager → TaskManager
add_instance i m = record m {
  tasks = put i.id i m.tasks;
  total_tasks = wrap64 (m.total_tasks +ℤ pos 1);
  saved = i ∷ m.saved;
  task_chan = send_if_room i.id m.task_chan;
}

unfoldable pub add_created :
    Outside
    → String
    → Dict String Value
    → Option Task
    → TaskManager
    → TaskManager × Option ManagerError
add_created env definition params none m = (m, some task_refused)
add_created env definition params (some t) m =
    (add_instance (new_instance env definition t [] params) m, none)

unfoldable pub create_from :
    Outside
    → String
    → Dict String Value
    → (String → Dict String Value → Option Task)
    → Option String
    → TaskManager
    → TaskManager × Option ManagerError
create_from env definition params make none m = (m, some no_url)
create_from env definition params make (some url) m =
    add_created env definition params (make url params) m

unfoldable pub create_for :
    Outside
    → String
    → Dict String Value
    → Option (String → Dict String Value → Option Task)
    → TaskManager
    → TaskManager × Option ManagerError
create_for env definition params none m = (m, some no_definition)
create_for env definition params (some make) m =
    create_from env definition params make (url_of params) m

unfoldable pub create_instance :
    Outside → String → Dict String Value → TaskManager → TaskManager × Option ManagerError
create_instance env definition params m =
    create_for env definition params (env.create_task definition) m

unfoldable pub add_from_template :
    Outside
    → String
    → Template
    → Dict String Value
    → Option Task
    → TaskManager
    → TaskManager × Option ManagerError
add_from_template env id tmpl params none m = (m, some task_refused)
add_from_template env id tmpl params (some t) m =
    let labels = put "template_name" (text tmpl.name) (put "template_id" (text id) []) in
    (add_instance (new_instance env tmpl.definition t labels params) m, none)

unfoldable pub create_by :
    Outside
    → String
    → Dict String Value
    → Option Template
    → TaskManager
    → TaskManager × Option ManagerError
create_by env id params none m = (m, some no_template)
create_by env id params (some tmpl) m =
    add_from_template env id tmpl params (env.template_task id params) m

unfoldable pub create_instance_from_template :
    Outside → String → Dict String Value → TaskManager → TaskManager × Option ManagerError
create_instance_from_template env id params m = create_by env id params (env.templates id) m
