-- ===== src/Cluster/Drain.antt =====
-- crawler/distributed/coordinator.go: enough ticks of the coordinator empty the queue.
use mathlib.Core.List.{append-nil}
use go_backend_kit.Common.{
  ℕ, suc, ◌*◌, ◌≤◌, ◌<◌, String, true, ◌≡◌, refl, ap, ◌∙◌, List, [], ◌∷◌, ◌++◌, pos, length,
  length-drop, take, drop, take-append-drop, All, All-map, All-append, arith,
}
use go_backend_kit.Task.{Task}
use go_backend_kit.Cluster.Types.{ClusterNode, Entry, RedisOps, ListLaws}
use go_backend_kit.Cluster.Coordinator.{
  Coordinator, Surroundings, active_nodes, distribute_task_batch,
}
use go_backend_kit.Cluster.Placing.{IsPlaced, IsWithin, has_node, takes, waiting_in}
use go_backend_kit.Cluster.Rounds.{Round, distribute_task_batch-Round}
use go_backend_kit.Cluster.Accepting.{
  TakesAll, tasks_in, refused-all, accepted-all, tasks_in-append, distribute_task_batch-config,
}

nil_of_length : {A : Type 0} (xs : List A) → length xs ≤ 0 → xs ≡ []
nil_of_length [] h = refl
nil_of_length (x ∷ xs) h = absurd (omega arith)

few_left :
    (j k : ℕ) (es : List Entry) → length es ≤ suc j * suc k → length (drop (suc k) es) ≤ j * suc k
few_left j k es h = omega (arith, length-drop (suc k) es)

-- What a tick finds: the clock, the hub and the hashes, and the nodes of `GetNodes`.
abbrev pub Tick : Type 0
Tick = Surroundings × List ClusterNode

-- The ticks of `distributeTasks`, each with what it finds.
unfoldable pub rounds : {R Q : Type 0} → RedisOps R → List Tick → Coordinator R Q → Coordinator R Q
rounds ops [] c = c
rounds ops ((env, nodes) ∷ ts) c = rounds ops ts (distribute_task_batch ops env nodes c)

-- The hub takes every message, and a node is active.
abbrev pub IsReady : Tick → Type 0
IsReady (env, nodes) = TakesAll env × (0 < length (active_nodes nodes))

-- The nodes that are active in one of the ticks.
abbrev pub active_in : List Tick → List ClusterNode
active_in [] = []
active_in ((env, nodes) ∷ ts) = active_nodes nodes ++ active_in ts

has_node-left :
    (ns ms : List ClusterNode) (i : String) → has_node i ns ≡ true → has_node i (ns ++ ms) ≡ true
has_node-left [] ms i h = cc
has_node-left (n ∷ ns) ms i h = ground (arith, has_node-left ns ms i)

has_node-right :
    (ns ms : List ClusterNode) (i : String) → has_node i ms ≡ true → has_node i (ns ++ ms) ≡ true
has_node-right [] ms i h = h
has_node-right (n ∷ ns) ms i h = ground (arith, has_node-right ns ms i h)

abbrev IsTickWithin : List ClusterNode → Tick → Type 0
IsTickWithin all (env, nodes) = IsWithin (active_nodes nodes) all

active_in-IsWithin : (ts : List Tick) → All (IsTickWithin (active_in ts)) ts
active_in-IsWithin [] = tt
active_in-IsWithin ((env, nodes) ∷ ts) = (
  has_node-left (active_nodes nodes) (active_in ts),
  All-map (IsTickWithin (active_in ts)) (IsTickWithin (active_nodes nodes ++ active_in ts)) ts
      (λ t w i h. has_node-right (active_nodes nodes) (active_in ts) i (w i h))
      (active_in-IsWithin ts),
)

tasks_in-All :
    (k : ℕ) (es : List Entry) (P : Task → Type 0)
    → All P (tasks_in (take (suc k) es))
    → All P (tasks_in (drop (suc k) es))
    → All P (tasks_in es)
tasks_in-All k es P h rest =
    rw (← (take-append-drop (suc k) es))
      (rw (tasks_in-append (take (suc k) es) (drop (suc k) es)) (All-append P _ _ h rest))

module _ {R Q : Type 0} (ops : RedisOps R) (laws : ListLaws ops) (k : ℕ) where
  -- All entries are gone, their tasks are placed, and no task has lost its place.
  Drained : List ClusterNode → List Entry → Coordinator R Q → Coordinator R Q → Type 0
  Drained all es c c' =
      (waiting_in ops laws c' ≡ [])
      × All (IsPlaced all c') (tasks_in es)
      × ((t : Task) → IsPlaced all c t → IsPlaced all c' t)

  distribute_task_batch-placed :
      (env : Surroundings) (nodes all : List ClusterNode) (c : Coordinator R Q)
      → TakesAll env
      → Round ops laws env all
          (active_nodes nodes)
          (suc k)
          c
          (distribute_task_batch ops env nodes c)
      → (waiting_in ops laws (distribute_task_batch ops env nodes c)
          ≡ drop (suc k) (waiting_in ops laws c))
        × All
            (IsPlaced all (distribute_task_batch ops env nodes c))
            (tasks_in (take (suc k) (waiting_in ops laws c)))
  distribute_task_batch-placed env nodes all c takes r =
      let q = waiting_in ops laws c in
      (
        r.queue
            ∙ ap (λ l. drop (suc k) q ++ l)
                (refused-all env (active_nodes nodes) 0 (take (suc k) q) takes)
            ∙ append-nil (drop (suc k) q),
        rw (← (accepted-all env (active_nodes nodes) 0 (take (suc k) q) takes)) r.placed,
      )

  rounds-Drained :
      (ts : List Tick) (all : List ClusterNode) (c : Coordinator R Q)
      → All IsReady ts
      → All (IsTickWithin all) ts
      → c.config.batch_size ≡ pos (suc k)
      → suc k < 9223372036854775808
      → length (waiting_in ops laws c) ≤ length ts * suc k
      → Drained all (waiting_in ops laws c) c (rounds ops ts c)
  unfolding Drained rounds
  rounds-Drained [] all c ready within size small few =
      let empty : waiting_in ops laws c ≡ [] =
        nil_of_length (waiting_in ops laws c) (omega arith) in
      (empty, rw empty tt, λ t p. p)
  rounds-Drained ((env, nodes) ∷ ts) all c ((takes, some_active), ready) (w, within) size small
        few =
      let c' = distribute_task_batch ops env nodes c in
      let r = distribute_task_batch-Round ops laws env all nodes k c some_active w size small in
      let (queue, placed) = distribute_task_batch-placed env nodes all c takes r in
      let (empty, placed', kept) =
        rounds-Drained ts all c' ready within
          (ap (λ f. f.batch_size) (distribute_task_batch-config ops env nodes c) ∙ size) small
          (rw queue (few_left (length ts) k (waiting_in ops laws c) few)) in
      (
        empty,
        tasks_in-All k (waiting_in ops laws c) (IsPlaced all (rounds ops ts c'))
            (All-map (IsPlaced all c') (IsPlaced all (rounds ops ts c'))
              (tasks_in (take (suc k) (waiting_in ops laws c))) kept placed)
            (rw (← queue) placed'),
        λ t p. kept t (r.kept t p),
      )

  -- Over any Redis with the list laws, let each tick of the coordinator find its own clock, hub and
  -- nodes. If in every one of the ticks at least one node is active and the hub takes every message,
  -- and the batch size is a positive 64-bit integer, enough ticks for the length of the queue empty
  -- it, and then each task that stood in it is pending at the coordinator with an assignment to a
  -- node that was active in one of the ticks.
  pub rounds_drain :
      (ts : List Tick) (c : Coordinator R Q)
      → All IsReady ts
      → c.config.batch_size ≡ pos (suc k)
      → suc k < 9223372036854775808
      → length (waiting_in ops laws c) ≤ length ts * suc k
      → (waiting_in ops laws (rounds ops ts c) ≡ [])
        × All (IsPlaced (active_in ts) (rounds ops ts c)) (tasks_in (waiting_in ops laws c))
  unfolding Drained
  rounds_drain ts c ready size small few =
      let (empty, placed, kept) =
        rounds-Drained ts (active_in ts) c ready (active_in-IsWithin ts) size small few in
      (empty, placed)
