-- ===== src/Cluster/Accepting.antt =====
-- crawler/distributed/coordinator.go: a tick whose hub takes every message, and the configuration.
use go_backend_kit.Common.{
  ℕ, suc, ◌%◌, get_elem?, String, true, ◌≡◌, refl, ◌∙◌, Option, none, some, List, [], ◌∷◌, ◌++◌,
  pos, ◌-ℤ◌, wrap64, length, arith,
}
use go_backend_kit.Task.{Task}
use go_backend_kit.Cluster.Types.{ClusterNode, pending_tasks, Entry, decode_task, RedisOps}
use go_backend_kit.Cluster.Assign.{TaskAssignment}
use go_backend_kit.Cluster.Coordinator.{
  Coordinator, Surroundings, active_nodes, record_assignment, assign_task_to_node, distribute_task,
  distribute_to, distribute_each, distribute_fetched, distribute_active, distribute_task_batch,
}
use go_backend_kit.Cluster.Placing.{takes, at_turn, taken, returned, accepted, refused}

-- A hub that takes every message, as it does while all nodes are connected.
abbrev pub TakesAll : Surroundings → Type 0
TakesAll env = (node : String) (m : TaskAssignment) → env.send node m ≡ true

-- The tasks among the entries of a queue.
abbrev pub tasks_in : List Entry → List Task
tasks_in [] = []
tasks_in (e ∷ es) = elim (decode_task e) [ none ↦ tasks_in es | some t ↦ t ∷ tasks_in es ]

takes-all :
    (env : Surroundings) (o : Option ClusterNode) (t : Task) → TakesAll env → takes env o t ≡ true
takes-all env none t h = refl
takes-all env (some n) t h = h n.id _

returned-all :
    (env : Surroundings) (active : List ClusterNode) (i : ℕ) (o : Option Task)
    → TakesAll env
    → returned env active i o ≡ []
returned-all env active i none h = refl
returned-all env active i (some t) h = rw (takes-all env (at_turn env active i) t h) refl

pub refused-all :
    (env : Surroundings) (active : List ClusterNode) (i : ℕ) (es : List Entry)
    → TakesAll env
    → refused env active i es ≡ []
refused-all env active i [] h = refl
refused-all env active i (e ∷ es) h =
    rw (returned-all env active i (decode_task e) h, refused-all env active (suc i) es h) refl

taken-all :
    (env : Surroundings) (active : List ClusterNode) (i : ℕ) (o : Option Task) (ts : List Task)
    → TakesAll env
    → taken env active i o ++ ts ≡ elim o [ none ↦ ts | some t ↦ t ∷ ts ]
taken-all env active i none ts h = refl
taken-all env active i (some t) ts h = rw (takes-all env (at_turn env active i) t h) refl

pub accepted-all :
    (env : Surroundings) (active : List ClusterNode) (i : ℕ) (es : List Entry)
    → TakesAll env
    → accepted env active i es ≡ tasks_in es
accepted-all env active i [] h = refl
accepted-all env active i (e ∷ es) h =
    rw (accepted-all env active (suc i) es h)
      (taken-all env active i (decode_task e) (tasks_in es) h)

pub tasks_in-append : (es fs : List Entry) → tasks_in (es ++ fs) ≡ tasks_in es ++ tasks_in fs
tasks_in-append [] fs = refl
tasks_in-append (e ∷ es) fs = ground (arith, tasks_in-append es fs)

module _ {R Q : Type 0} (ops : RedisOps R) (env : Surroundings) where
  distribute_to-config :
      (o : Option Task) (n : Option ClusterNode) (c : Coordinator R Q)
      → (distribute_to ops env o n c).config ≡ c.config
  unfolding distribute_to distribute_task assign_task_to_node record_assignment
  distribute_to-config none n c = refl
  distribute_to-config (some t) none c = refl
  distribute_to-config (some t) (some n) c = ground arith

  distribute_each-config :
      (active : List ClusterNode) (i : ℕ) (es : List Entry) (c : Coordinator R Q)
      → (distribute_each ops env active i es c).config ≡ c.config
  unfolding distribute_each
  distribute_each-config active i [] c = refl
  distribute_each-config active i (e ∷ es) c =
      distribute_each-config active (suc i) es _
      ∙ distribute_to-config (decode_task e) (get_elem? active (i % length active)) c

  pub distribute_task_batch-config :
      (nodes : List ClusterNode) (c : Coordinator R Q)
      → (distribute_task_batch ops env nodes c).config ≡ c.config
  unfolding distribute_task_batch
  distribute_task_batch-config nodes c = active-config (active_nodes nodes)
    where
      fetched-config :
          (ns : List ClusterNode) (o : Option (List Entry))
          → (distribute_fetched ops env ns o c).config ≡ c.config
      fetched-config ns none = refl
      fetched-config ns (some []) = refl
      fetched-config ns (some (e ∷ es)) = distribute_each-config ns 0 (e ∷ es) _

      active-config : (ns : List ClusterNode) → (distribute_active ops env ns c).config ≡ c.config
      active-config [] = refl
      active-config (n ∷ ns) =
          fetched-config (n ∷ ns)
            (ops.lrange pending_tasks (pos 0) (wrap64 (c.config.batch_size -ℤ pos 1)) c.chain.redis)
