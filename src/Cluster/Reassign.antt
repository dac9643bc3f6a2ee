-- ===== src/Cluster/Reassign.antt =====
-- crawler/distributed/cluster.go, coordinator.go: health checks, and tasks of dead nodes.
use go_backend_kit.Common.{
  String, Bool, true, false, Bool-cases, ◌≡◌, ◌≢◌, ◌⊎◌, refl, sym, inl, inr, Option, none, some,
  List, [], ◌∷◌, Dict, put, delete, string_key, str_eq, eq_iff, Time, Duration, sub_time, seconds,
  pos, ◌≤ℤ◌, +ℤ_parts, -ℤ_parts, add_time, All, All-map, arith, if◌then◌else◌,
}
use go_backend_kit.Cluster.Types.{ClusterNode, RedisOps}
use go_backend_kit.Cluster.Manager.{
  ClusterManager, node_values, is_stale, handle_node_failure, check_each, check_cluster_health,
  put_nodes, update_node_list, monitor_nodes, update_cluster_status,
}
use go_backend_kit.Cluster.Coordinator.{Coordinator}
use go_backend_kit.Cluster.Results.{is_dead, dead_nodes, reassign_from, check_and_reassign_tasks}

-- Nodes stand under their own identifiers.
abbrev pub AllNamed : Dict String ClusterNode → Type 0
AllNamed m = All (λ p. p.1.id ≡ p.0) m

abbrev IsFresh : Time → Duration → ClusterNode → Type 0
IsFresh now limit n = is_stale now limit n ≡ false

-- An entry is fresh, or its key is that of a stale node of the list.
abbrev IsListed : Time → Duration → List ClusterNode → String × ClusterNode → Type 0
IsListed now limit [] p = IsFresh now limit p.1
IsListed now limit (n ∷ ns) p =
    ((is_stale now limit n ≡ true) × (p.0 ≡ n.id)) ⊎ IsListed now limit ns p

IsFresh-IsListed :
    (now : Time) (limit : Duration) (ns : List ClusterNode) (p : String × ClusterNode)
    → IsFresh now limit p.1
    → IsListed now limit ns p
IsFresh-IsListed now limit [] p h = h
IsFresh-IsListed now limit (n ∷ ns) p h = inr (IsFresh-IsListed now limit ns p h)

node_values-IsListed :
    (now : Time) (limit : Duration) (m : Dict String ClusterNode)
    → AllNamed m
    → All (IsListed now limit (node_values m)) m
node_values-IsListed now limit [] h = tt
node_values-IsListed now limit ((i, n) ∷ m) h = (
  elim (Bool-cases (is_stale now limit n)) [
    | inl b ↦ inl (b, sym h.0)
    | inr b ↦ inr (IsFresh-IsListed now limit (node_values m) (i, n) b)
  ],
  All-map (IsListed now limit (node_values m)) _ m (λ p l. inr l)
      (node_values-IsListed now limit m h.1),
)

delete-All_ne :
    (P Q : String × ClusterNode → Type 0) (i : String) (m : Dict String ClusterNode)
    → ((p : String × ClusterNode) → P p → p.0 ≢ i → Q p)
    → All P m
    → All Q (delete i m)
unfolding delete
delete-All_ne P Q i [] f h = tt
delete-All_ne P Q i ((j, n) ∷ m) f h = elim (Bool-cases (str_eq j i)) [
  | inl b ↦ rw b (delete-All_ne P Q i m f h.1)
  | inr b ↦ rw b (f (j, n) h.0 (λ e. ground (arith, eq_iff j i)), delete-All_ne P Q i m f h.1)
]

check_each-IsFresh :
    (now : Time) (ns : List ClusterNode) (c : ClusterManager)
    → All (IsListed now c.heartbeat_timeout ns) c.nodes
    → All (λ p. IsFresh now c.heartbeat_timeout p.1) (check_each now ns c).nodes
unfolding check_each handle_node_failure
check_each-IsFresh now [] c h = h
check_each-IsFresh now (n ∷ ns) c h =
    next (check_each-IsFresh now ns (handle_node_failure n.id c)) (check_each-IsFresh now ns c)
      (is_stale now c.heartbeat_timeout n) refl
  where
    limit : Duration
    limit = c.heartbeat_timeout

    next :
        (All (IsListed now limit ns) (delete n.id c.nodes)
          → All (λ p. IsFresh now limit p.1) (check_each now ns (handle_node_failure n.id c)).nodes)
        → (All (IsListed now limit ns) c.nodes
            → All (λ p. IsFresh now limit p.1) (check_each now ns c).nodes)
        → (b : Bool) → is_stale now limit n ≡ b
        → All
            (λ p. IsFresh now limit p.1)
            (check_each now ns (if b then handle_node_failure n.id c else c)).nodes
    next failed kept true e = failed (
        delete-All_ne (IsListed now limit (n ∷ ns)) (IsListed now limit ns) n.id c.nodes
          (λ p l ne. elim l [ inl (_, same) ↦ absurd (ne same) | inr r ↦ r ]) h)
    next failed kept false e = kept (
        All-map (IsListed now limit (n ∷ ns)) (IsListed now limit ns) c.nodes
          (λ p l. elim l [ inl (stale, _) ↦ absurd (cc) | inr r ↦ r ]) h)

-- A node that was fresh is not dead within half a minute.
is_dead-IsFresh :
    (now later : Time) (limit : Duration) (n : ClusterNode)
    → limit ≤ℤ seconds (pos 30)
    → later ≤ℤ add_time now (seconds (pos 30))
    → IsFresh now limit n
    → is_dead later n ≡ false
unfolding is_dead is_stale sub_time
is_dead-IsFresh now later limit n h soon fresh =
    ground (
      arith,
      -ℤ_parts later n.updated_at,
      -ℤ_parts now n.updated_at,
      +ℤ_parts now (seconds (pos 30)),
    )

dead_nodes-none :
    (now later : Time) (limit : Duration) (m : Dict String ClusterNode)
    → limit ≤ℤ seconds (pos 30)
    → later ≤ℤ add_time now (seconds (pos 30))
    → All (λ p. IsFresh now limit p.1) m
    → dead_nodes later (node_values m) ≡ []
unfolding dead_nodes
dead_nodes-none now later limit [] h soon fresh = refl
dead_nodes-none now later limit ((i, n) ∷ m) h soon fresh =
    rw
      (
        is_dead-IsFresh now later limit n h soon fresh.0,
        dead_nodes-none now later limit m h soon fresh.1,
      )
      refl

put-AllNamed :
    (n : ClusterNode) (m : Dict String ClusterNode) → AllNamed m → AllNamed (put n.id n m)
unfolding put
put-AllNamed n [] h = (refl, tt)
put-AllNamed n ((i, k) ∷ m) h = elim (Bool-cases (str_eq i n.id)) [
  | inl b ↦ rw b (refl, h.1)
  | inr b ↦ rw b (h.0, put-AllNamed n m h.1)
]

put_nodes-AllNamed :
    (ns : List ClusterNode) (m : Dict String ClusterNode) → AllNamed m → AllNamed (put_nodes ns m)
unfolding put_nodes
put_nodes-AllNamed [] m h = h
put_nodes-AllNamed (n ∷ ns) m h = put_nodes-AllNamed ns (put n.id n m) (put-AllNamed n m h)

update_node_list-AllNamed :
    (listed : Option (List ClusterNode)) (c : ClusterManager)
    → AllNamed c.nodes
    → AllNamed (update_node_list listed c).nodes
      × ((update_node_list listed c).heartbeat_timeout ≡ c.heartbeat_timeout)
unfolding update_node_list
update_node_list-AllNamed none c h = (h, refl)
update_node_list-AllNamed (some ns) c h = (put_nodes-AllNamed ns [] tt, refl)

-- If the nodes of the cluster manager stand under their own identifiers and its heartbeat timeout
-- is at most 30 seconds, then with its nodes after a monitoring tick the coordinator reassigns
-- nothing up to 30 seconds later, whatever its assignments.
pub check_and_reassign_tasks_idle :
    {R Q : Type 0} (ops : RedisOps R) (listed : Option (List ClusterNode)) (now later : Time)
    (cluster : ClusterManager) (c : Coordinator R Q)
    → AllNamed cluster.nodes
    → cluster.heartbeat_timeout ≤ℤ seconds (pos 30)
    → later ≤ℤ add_time now (seconds (pos 30))
    → check_and_reassign_tasks ops later (node_values (monitor_nodes listed now cluster).nodes) c
      ≡ c
unfolding check_and_reassign_tasks monitor_nodes check_cluster_health update_cluster_status
    reassign_from
check_and_reassign_tasks_idle ops listed now later cluster c named h soon =
    let updated = update_node_list listed cluster in
    let (named', same) = update_node_list-AllNamed listed cluster named in
    rw
      (dead_nodes-none now later updated.heartbeat_timeout
        (check_each now (node_values updated.nodes) updated).nodes (rw same h) soon
        (check_each-IsFresh now (node_values updated.nodes) updated
          (node_values-IsListed now updated.heartbeat_timeout updated.nodes named')))
      refl
