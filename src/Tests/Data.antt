-- ===== src/Tests/Data.antt =====
-- Tasks, nodes and surroundings for the tests of crawler/task.
use go_backend_kit.Common.{String, [], ◌∷◌, ℤ, pos, true, seconds, Time}
use go_backend_kit.Task.{Task, new_task}
use go_backend_kit.Queue.Priority.{PriorityQueue, new_priority_queue, push}
use go_backend_kit.Dispatch.{NodeInfo, Dispatcher, least_load, Env}

abbrev pub make_task : String → String → ℤ → Task
make_task id url priority = new_task (λ s. s) id (pos 10) url "detail" priority

abbrev pub low_task : Task
low_task = make_task "low" "https://example.com/items" (pos 0)

abbrev pub urgent_task : Task
urgent_task = make_task "urgent" "https://example.com/list?page=1" (pos 3)

abbrev pub now : Time
now = seconds (pos 100)

abbrev pub waiting : PriorityQueue
waiting = (push now urgent_task (push now low_task new_priority_queue).0).0

abbrev pub node : String → ℤ → NodeInfo
node id capacity = record {
  id = id;
  address = "10.0.0.1:80";
  capacity = capacity;
  current_load = pos 0;
  status = "active";
  last_heartbeat = now;
  tags = [];
  capabilities = [];
}

abbrev pub dispatcher : Dispatcher PriorityQueue
dispatcher = record {
  queue = waiting;
  nodes = ("a", node "a" (pos 1)) ∷ ("b", node "b" (pos 2)) ∷ [];
  strategy = least_load;
  dispatched = pos 2;
  failed = pos 0;
  batch_size = pos 10;
  task_chan = [];
  assignments = [];
}

abbrev pub env : Env
env = record { now = now; nanos = λ id. pos 7; exec = λ task node. true }
