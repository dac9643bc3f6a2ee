-- ===== src/Tests/Managing.antt =====
-- Runs of crawler/task/manager.go.
use go_backend_kit.Common.{
  String, ◌≡◌, refl, none, some, List, [], ◌∷◌, All, Dict, map, pos, seconds, string_key, get, put,
  inl, inr, ◌⊎◌, arith,
}
use go_backend_kit.Task.{Value, text}
use go_backend_kit.Instances.{
  running, TaskManager, Outside, new_task_manager, Call, creates, updates, works, cleans, checks,
  run, step, last_saved, load_instances, create_instance, create_for, create_from, add_created,
  add_instance, new_instance, url_of,
}
use go_backend_kit.Instances.Balance.{run-HasMoved}
use go_backend_kit.Instances.Moves.{HasMoved, count_all, first_run, first_end}
use go_backend_kit.Instances.Open.{IsOpen}
use go_backend_kit.Instances.Leaks.{run-IsOpen}
use go_backend_kit.Instances.Restart.{run-forgotten}
use go_backend_kit.Instances.Worker.{IsPlaced, turns, worker_drains}
use go_backend_kit.Tests.Data.{make_task, node}

abbrev surroundings : String → Outside
surroundings id = record {
  now = seconds (pos 1000);
  nanos = pos 7;
  fresh_id = id;
  load = λ id. none;
  create_task = λ definition. some (λ url params. some (make_task "t" url (pos 0)));
  templates = λ id. none;
  template_task = λ id params. none;
  nodes = some (node "a" (pos 1) ∷ node "b" (pos 2) ∷ []);
}

abbrev params : Dict String Value
params = ("url", text "https://example.com/items") ∷ []

abbrev manager : TaskManager
manager = run (creates (surroundings "x") "list" params ∷ []) (new_task_manager (pos 0))

abbrev life : List Call
life =
    works (surroundings "y") "round-robin"
    ∷ updates (seconds (pos 1001)) "x" running []
    ∷ checks (record (surroundings "y") { now = seconds (pos 9000) })
    ∷ cleans (seconds (pos 999999))
    ∷ []

run-IsOpen_example : IsOpen "x" (run life manager).tasks
unfolding run step create_instance create_for create_from add_created add_instance new_instance
    url_of new_task_manager get put
run-IsOpen_example = run-IsOpen "x" life manager (_, refl, refl) (tt, ((λ e. cc), (tt, (tt, tt))))

run-HasMoved_example :
    HasMoved
      (count_all first_run life manager)
      (count_all first_end life manager)
      manager
      (run life manager)
run-HasMoved_example = run-HasMoved life manager

abbrev IsNode : String → Type 0
IsNode id = (id ≡ "a") ⊎ (id ≡ "b")

run-forgotten_example :
    load_instances
      (map
        (λ id. last_saved id (run (turns "round-robin" (surroundings "y" ∷ [])) manager).saved)
        ("x" ∷ []))
      manager
    ≡ manager
unfolding run step create_instance create_for create_from add_created add_instance new_instance
    url_of new_task_manager get
run-forgotten_example =
    run-forgotten (turns "round-robin" (surroundings "y" ∷ [])) ("x" ∷ []) manager manager (tt, tt)
      (refl, tt)

worker_drains_example :
    ((run (turns "round-robin" (surroundings "y" ∷ [])) manager).task_chan ≡ [])
    × All
        (IsPlaced IsNode (run (turns "round-robin" (surroundings "y" ∷ [])) manager).tasks)
        manager.task_chan
unfolding run step create_instance create_for create_from add_created add_instance new_instance
    url_of new_task_manager get put
worker_drains_example =
    worker_drains IsNode "round-robin" (surroundings "y" ∷ []) manager (refl, refl)
      ((node "a" (pos 1), _, 7, refl, refl, (inl refl, (inr refl, tt))), tt) refl (omega arith)
      ((_, refl), tt)
