-- ===== src/Instances/Worker.antt =====
-- crawler/task/manager.go: `allocationWorker` against a round-robin allocator.
use go_backend_kit.Common.{
  get_elem?-All, ℕ, ◌%◌, ◌≤◌, String, false, Bool-cases, inl, inr, ◌≡◌, refl, ap, sym, ◌∙◌, none,
  some, List, [], ◌∷◌, map, All, Dict, get, put, get-put, string_key, str_eq, eq_iff, arith, length,
  get_elem?-lt, pos,
}
use mathlib.Core.Path.{subst}
use native.Mathlib.Nat.{mod-lt}
use go_backend_kit.Dispatch.{NodeInfo, chosen, node_at, remainder, select_round_robin_node}
use go_backend_kit.Instances.Types.{allocated, TaskInstance, TaskManager, Outside}
use go_backend_kit.Instances.Engine.{get_instance, get_found}
use go_backend_kit.Instances.Allocator.{allocate}
use go_backend_kit.Instances.Ticks.{
  allocate_to, allocate_among, allocate_found, allocate_task, after_allocation, allocate_next,
  worker_turn, allocation_worker, Call, works, step, run,
}

-- A strategy that is neither of the other two.
abbrev pub IsRoundRobin : String → Type 0
IsRoundRobin strategy = (str_eq strategy "least-load" ≡ false) × (str_eq strategy "hash" ≡ false)

-- There are nodes, all with the property, and the clock stands after 1970.
abbrev pub HasNodes {μ} : (String → Type μ) → Outside → Type μ
HasNodes P env =
    (n : NodeInfo) × (ns : List NodeInfo) × (k : ℕ) × (env.nodes ≡ some (n ∷ ns))
    × (env.nanos ≡ pos k)
    × All (λ o. P o.id) (n ∷ ns)

-- The instance is in memory and allocated to a node with the property.
abbrev pub IsPlaced {μ} : (String → Type μ) → Dict String TaskInstance → String → Type μ
IsPlaced P d id = (i : TaskInstance) × (get id d ≡ some i) × (i.state ≡ allocated) × P i.node_id

abbrev pub IsKnown : Dict String TaskInstance → String → Type 0
IsKnown d id = (i : TaskInstance) × (get id d ≡ some i)

-- Turns of the worker, each with its surroundings.
abbrev pub turns : String → List Outside → List Call
turns strategy = map (λ env. works env strategy)

module _ {μ} (P : String → Type μ) where
  round_robin-chosen :
      (k : ℕ) (n : NodeInfo) (ns : List NodeInfo)
      → All (λ o. P o.id) (n ∷ ns)
      → (o : NodeInfo) × (select_round_robin_node (pos k) (n ∷ ns) ≡ chosen o) × P o.id
  unfolding select_round_robin_node remainder
  round_robin-chosen k n ns all =
      let (o, e) = get_elem?-lt (n ∷ ns) (k % length (n ∷ ns)) (mod-lt k (omega arith)) in
      (o, rw (e, node_at) refl, get_elem?-All (λ x. P x.id) o (n ∷ ns) _ all e)

  allocate-chosen :
      (strategy : String) (k : ℕ) (i : TaskInstance) (n : NodeInfo) (ns : List NodeInfo)
      → IsRoundRobin strategy
      → All (λ o. P o.id) (n ∷ ns)
      → (o : NodeInfo) × (allocate strategy (pos k) i (n ∷ ns) ≡ some (chosen o)) × P o.id
  unfolding allocate
  allocate-chosen strategy k i n ns (h, h') all =
      let (o, e, p) = round_robin-chosen k n ns all in (o, rw (h, h', e) refl, p)

  put-Placed :
      (id j : String) (v : TaskInstance) (d : Dict String TaskInstance)
      → v.state ≡ allocated
      → P v.node_id
      → IsPlaced P d id
      → IsPlaced P (put j v d) id
  put-Placed id j v d s p (i, e, h, h') = elim (Bool-cases (str_eq j id)) [
    | inl b ↦ (v, get-put id j v d ∙ rw b refl, s, p)
    | inr b ↦ (i, get-put id j v d ∙ rw (b, e) refl, h, h')
  ]

  put-Known :
      (id j : String) (v : TaskInstance) (d : Dict String TaskInstance)
      → IsKnown d id
      → IsKnown (put j v d) id
  put-Known id j v d (i, e) = elim (Bool-cases (str_eq j id)) [
    | inl b ↦ (v, get-put id j v d ∙ rw b refl)
    | inr b ↦ (i, get-put id j v d ∙ rw (b, e) refl)
  ]

  put-AllPlaced :
      (ids : List String) (j : String) (v : TaskInstance) (d : Dict String TaskInstance)
      → v.state ≡ allocated
      → P v.node_id
      → All (IsPlaced P d) ids
      → All (IsPlaced P (put j v d)) ids
  put-AllPlaced [] j v d s p h = tt
  put-AllPlaced (id ∷ ids) j v d s p h =
      (put-Placed id j v d s p h.0, put-AllPlaced ids j v d s p h.1)

  put-AllKnown :
      (ids : List String) (j : String) (v : TaskInstance) (d : Dict String TaskInstance)
      → All (IsKnown d) ids
      → All (IsKnown (put j v d)) ids
  put-AllKnown [] j v d h = tt
  put-AllKnown (id ∷ ids) j v d h = (put-Known id j v d h.0, put-AllKnown ids j v d h.1)

  -- What a turn of the worker leaves.
  abbrev HasTurned : String → List String → TaskManager → TaskManager → Type μ
  HasTurned id ids m n =
      (v : TaskInstance) × (v.state ≡ allocated)
      × P v.node_id
      × (n ≡ record m { tasks = put id v m.tasks; task_chan = ids })

  allocate_task-chosen :
      (env : Outside) (strategy id : String) (m : TaskManager) (i : TaskInstance) (n : NodeInfo)
      (ns : List NodeInfo) (o : NodeInfo)
      → get id m.tasks ≡ some i
      → env.nodes ≡ some (n ∷ ns)
      → allocate strategy env.nanos i (n ∷ ns) ≡ some (chosen o)
      → allocate_task env strategy id m ≡ (
        record m { tasks = put id (record i { node_id = o.id; state = allocated }) m.tasks },
        none,
      )
  unfolding allocate_task get_instance get_found allocate_found allocate_among allocate_to
  allocate_task-chosen env strategy id m i n ns o g e c =
      ap (λ x. allocate_found env strategy id (get_found env id x m)) g
      ∙ ap (λ x. allocate_among env strategy id i x m) e
      ∙ ap (λ x. allocate_to id i x m) c

  allocate_next-HasTurned :
      (env : Outside) (strategy id : String) (ids : List String) (m : TaskManager)
      → IsRoundRobin strategy
      → HasNodes P env
      → IsKnown m.tasks id
      → HasTurned id ids m (allocate_next env strategy (id ∷ ids) m)
  unfolding allocate_next after_allocation
  allocate_next-HasTurned env strategy id ids m r (n, ns, k, e, f, all) (i, g) =
      let (o, c, p) = allocate-chosen strategy k i n ns r all in
      (
        record i { node_id = o.id; state = allocated },
        refl,
        p,
        ap (after_allocation id) (
            allocate_task-chosen env strategy id (record m { task_chan = ids }) i n ns o g e
              (ap (λ z. allocate strategy z i (n ∷ ns)) f ∙ c)),
      )

  worker_idle :
      (env : Outside) (strategy : String) (m : TaskManager)
      → m.task_chan ≡ []
      → m.retrying ≡ none
      → allocation_worker env strategy m ≡ m
  unfolding allocation_worker worker_turn allocate_next
  worker_idle env strategy m e q =
      ap (λ o. worker_turn env strategy o m) q ∙ ap (λ ids. allocate_next env strategy ids m) e

  worker_next :
      (env : Outside) (strategy w : String) (ws : List String) (m : TaskManager)
      → m.task_chan ≡ w ∷ ws
      → m.retrying ≡ none
      → allocation_worker env strategy m ≡ allocate_next env strategy (w ∷ ws) m
  unfolding allocation_worker worker_turn
  worker_next env strategy w ws m e q =
      ap (λ o. worker_turn env strategy o m) q ∙ ap (λ ids. allocate_next env strategy ids m) e

  abbrev IsDrained : List String → List String → TaskManager → Type μ
  IsDrained ids waiting n =
      (n.task_chan ≡ []) × All (IsPlaced P n.tasks) ids × All (IsPlaced P n.tasks) waiting

  -- The turns keep what was placed and place the rest.
  drain_from :
      (strategy : String) (envs : List Outside) (ids waiting : List String) (m : TaskManager)
      → IsRoundRobin strategy
      → All (HasNodes P) envs
      → m.task_chan ≡ waiting
      → m.retrying ≡ none
      → length waiting ≤ length envs
      → All (IsKnown m.tasks) waiting
      → All (IsPlaced P m.tasks) ids
      → IsDrained ids waiting (run (turns strategy envs) m)
  unfolding run step
  drain_from strategy [] ids [] m r hs e q l known placed = (e, placed, tt)
  drain_from strategy [] ids (w ∷ ws) m r hs e q l known placed = absurd (omega arith)
  drain_from strategy (env ∷ envs) ids [] m r hs e q l known placed =
      subst (λ n. IsDrained ids [] (run (turns strategy envs) n))
        (sym (worker_idle env strategy m e q))
        (drain_from strategy envs ids [] m r hs.1 e q (omega arith) known placed)
  drain_from strategy (env ∷ envs) ids (w ∷ ws) m r hs e q l known placed =
      let (v, s, p, eq) = allocate_next-HasTurned env strategy w ws m r hs.0 known.0 in
      let m' = record m { tasks = put w v m.tasks; task_chan = ws } in
      let rest : IsDrained (w ∷ ids) ws (run (turns strategy envs) m') =
        drain_from strategy envs (w ∷ ids) ws m' r hs.1 refl q (omega arith)
          (put-AllKnown ws w v m.tasks known.1)
          (
            (v, get-put w w v m.tasks ∙ ground (arith, eq_iff w w), s, p),
            put-AllPlaced ids w v m.tasks s p placed,
          ) in
      subst (λ n. IsDrained ids (w ∷ ws) (run (turns strategy envs) n))
        (sym (worker_next env strategy w ws m e q ∙ eq)) (rest.0, rest.1.1, (rest.1.0, rest.2))

  -- If every turn of the allocation worker finds at least one node by a clock after 1970, the
  -- strategy is neither "least-load" nor "hash", the worker does not sleep and the instances in its
  -- channel are in memory, then at least as many turns as the channel is long empty it and leave
  -- each of these instances allocated, to a node with any property that all the nodes offered have.
  pub worker_drains :
      (strategy : String) (envs : List Outside) (m : TaskManager)
      → IsRoundRobin strategy
      → All (HasNodes P) envs
      → m.retrying ≡ none
      → length m.task_chan ≤ length envs
      → All (IsKnown m.tasks) m.task_chan
      → ((run (turns strategy envs) m).task_chan ≡ [])
        × All (IsPlaced P (run (turns strategy envs) m).tasks) m.task_chan
  worker_drains strategy envs m r hs q l known =
      let d = drain_from strategy envs [] m.task_chan m r hs refl q l known tt in (d.0, d.2)
