-- ===== src/Cluster/Placing.antt =====
-- crawler/distributed/coordinator.go: where a batch of the pending queue goes.
use native.Mathlib.Nat.{mod-lt}
use mathlib.Core.List.{append_assoc, append-nil}
use go_backend_kit.Common.{
  ℕ, zero, suc, ◌%◌, ◌<◌, String, Bool, true, false, Bool-cases, ◌≡◌, ◌⊎◌, refl, sym, ap, ◌∙◌, inl,
  inr, Option, none, some, List, [], ◌∷◌, ◌++◌, get, get-put, string_key, str_eq, eq_iff, is_some,
  length, get_elem?, get_elem?-lt, All, All-map, All-append, arith, if◌then◌else◌,
}
use go_backend_kit.Task.{Task}
use go_backend_kit.Cluster.Types.{
  ClusterNode, assignment_of, Entry, encoded, assigned_to, decode_task, RedisOps, ListLaws,
}
use go_backend_kit.Cluster.Assign.{assignment_message}
use go_backend_kit.Cluster.Coordinator.{
  Coordinator, Surroundings, record_assignment, assign_task_to_node, distribute_task, distribute_to,
  distribute_each,
}

abbrev pub has_node : String → List ClusterNode → Bool
has_node i [] = false
has_node i (n ∷ ns) = if str_eq n.id i then true else has_node i ns

-- The coordinator has the task and has noted that one of the nodes works on it.
pub record IsPlaced {R Q : Type 0} (active : List ClusterNode) (c : Coordinator R Q) (t : Task)
    : Type 0 where
  pub node : String
  pub is_active : has_node node active ≡ true
  pub assigned : get t.id c.assignments ≡ some node
  pub is_pending : is_some (get t.id c.pending) ≡ true

-- Whether the hub takes a task for the node whose turn it is.
abbrev pub takes : Surroundings → Option ClusterNode → Task → Bool
takes env none t = true
takes env (some n) t = env.send n.id (assignment_message env.format t)

module _ (env : Surroundings) (active : List ClusterNode) where
  abbrev pub at_turn : ℕ → Option ClusterNode
  at_turn i = get_elem? active (i % length active)

  abbrev pub taken : ℕ → Option Task → List Task
  taken i none = []
  taken i (some t) = if takes env (at_turn i) t then t ∷ [] else []

  abbrev pub returned : ℕ → Option Task → List Entry
  returned i none = []
  returned i (some t) = if takes env (at_turn i) t then [] else encoded t ∷ []

  -- The tasks of a batch that the hub takes, and the entries that return to the queue.
  abbrev pub accepted : ℕ → List Entry → List Task
  accepted i [] = []
  accepted i (e ∷ es) = taken i (decode_task e) ++ accepted (suc i) es

  abbrev pub refused : ℕ → List Entry → List Entry
  refused i [] = []
  refused i (e ∷ es) = returned i (decode_task e) ++ refused (suc i) es

get_elem?-has_node :
    (ns : List ClusterNode) (i : ℕ) (n : ClusterNode)
    → get_elem? ns i ≡ some n
    → has_node n.id ns ≡ true
get_elem?-has_node [] i n h = cc
get_elem?-has_node (m ∷ ns) zero n h = ground (arith, eq_iff m.id n.id)
get_elem?-has_node (m ∷ ns) (suc i) n h = ground (arith, get_elem?-has_node ns i n h)

-- In a list of nodes there is always one whose turn it is.
at_at_turn-some :
    (env : Surroundings) (active : List ClusterNode) (i : ℕ)
    → 0 < length active
    → (n : ClusterNode) × (at_turn env active i ≡ some n)
at_at_turn-some env active i h = get_elem?-lt active (i % length active) (mod-lt i h)

abbrev pub waiting_in :
    {R Q : Type 0} (ops : RedisOps R) → ListLaws ops → Coordinator R Q → List Entry
waiting_in ops laws c = laws.view c.chain.redis

-- The nodes of a list are among those of another one.
abbrev pub IsWithin : List ClusterNode → List ClusterNode → Type 0
IsWithin active nodes = (i : String) → has_node i active ≡ true → has_node i nodes ≡ true

module _ {R Q : Type 0} (ops : RedisOps R) (laws : ListLaws ops) (env : Surroundings)
    (active nodes : List ClusterNode) where
  open laws use {rpush_last, set_value_others}

  -- The entries that come back stand last in the queue, the tasks that are taken are placed, and no
  -- other task loses its place.
  abbrev pub Distributed : List Entry → List Task → Coordinator R Q → Coordinator R Q → Type 0
  Distributed back placed c c' =
      (waiting_in ops laws c' ≡ waiting_in ops laws c ++ back)
      × All (IsPlaced nodes c') placed
      × ((t : Task) → IsPlaced nodes c t → IsPlaced nodes c' t)

  record_assignment-queue :
      (t : Task) (node : String) (c : Coordinator R Q)
      → waiting_in ops laws (record_assignment ops t node c) ≡ waiting_in ops laws c
  unfolding record_assignment
  record_assignment-queue t node c =
      set_value_others (assignment_of t.id) (assigned_to node) _ c.chain.redis (λ e. cc)

  record_assignment-IsPlaced :
      (t u : Task) (n : ClusterNode) (c : Coordinator R Q)
      → has_node n.id nodes ≡ true
      → (u.id ≡ t.id) ⊎ IsPlaced nodes c u
      → IsPlaced nodes (record_assignment ops t n.id c) u
  unfolding record_assignment
  record_assignment-IsPlaced t u n c h p = elim (Bool-cases (str_eq t.id u.id)) [
    | inl b ↦ record {
      node = n.id;
      is_active = h;
      assigned = ground (arith, get-put u.id t.id n.id c.assignments);
      is_pending = ground (arith, get-put u.id t.id t c.pending);
    }
    | inr b ↦ elim p [
      | inl e ↦ absurd (ground (arith, eq_iff t.id u.id))
      | inr q ↦ record {
        node = q.node;
        is_active = q.is_active;
        assigned = ground (arith, get-put u.id t.id n.id c.assignments, q.assigned);
        is_pending = ground (arith, get-put u.id t.id t c.pending, q.is_pending);
      }
    ]
  ]

  distribute_task-Distributed :
      (t : Task) (n : ClusterNode) (c : Coordinator R Q)
      → has_node n.id nodes ≡ true
      → Distributed
          (if takes env (some n) t then [] else encoded t ∷ [])
          (if takes env (some n) t then t ∷ [] else [])
          c
          (distribute_task ops env t n c)
  unfolding distribute_task assign_task_to_node
  distribute_task-Distributed t n c h = elim (Bool-cases (takes env (some n) t)) [
    | inl b ↦ rw b (
      record_assignment-queue t n.id c ∙ sym (append-nil (waiting_in ops laws c)),
      (record_assignment-IsPlaced t t n c h (inl refl), tt),
      λ u p. record_assignment-IsPlaced t u n c h (inr p),
    )
    | inr b ↦ rw b (
      rpush_last (encoded t) c.chain.redis,
      tt,
      λ u p. record {
        node = p.node;
        is_active = p.is_active;
        assigned = p.assigned;
        is_pending = p.is_pending;
      },
    )
  ]

  distribute_to-Distributed :
      (i : ℕ) (o : Option Task) (c : Coordinator R Q)
      → 0 < length active
      → IsWithin active nodes
      → Distributed
          (returned env active i o)
          (taken env active i o)
          c
          (distribute_to ops env o (at_turn env active i) c)
  unfolding distribute_to
  distribute_to-Distributed i none c h w = (sym (append-nil (waiting_in ops laws c)), tt, λ u p. p)
  distribute_to-Distributed i (some t) c h w =
      let (n, turn_n) = at_at_turn-some env active i h in
      rw turn_n (distribute_task-Distributed t n c (w n.id (get_elem?-has_node active _ n turn_n)))

  pub distribute_each-Distributed :
      (i : ℕ) (es : List Entry) (c : Coordinator R Q)
      → 0 < length active
      → IsWithin active nodes
      → Distributed
          (refused env active i es)
          (accepted env active i es)
          c
          (distribute_each ops env active i es c)
  unfolding distribute_each
  distribute_each-Distributed i [] c h w = (sym (append-nil (waiting_in ops laws c)), tt, λ t p. p)
  distribute_each-Distributed i (e ∷ es) c h w =
      let c' = distribute_to ops env (decode_task e) (at_turn env active i) c in
      let (queue, placed, kept) = distribute_to-Distributed i (decode_task e) c h w in
      let (queue', placed', kept') = distribute_each-Distributed (suc i) es c' h w in
      (
        queue'
            ∙ ap (λ q. q ++ refused env active (suc i) es) queue
            ∙ append_assoc (waiting_in ops laws c) (returned env active i (decode_task e)) _,
        All-append (IsPlaced nodes _) (taken env active i (decode_task e)) _
            (All-map (IsPlaced nodes c') (IsPlaced nodes _) _ kept' placed) placed',
        λ t p. kept' t (kept t p),
      )
