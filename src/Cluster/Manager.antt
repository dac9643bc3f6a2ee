-- ===== src/Cluster/Manager.antt =====
-- crawler/distributed/cluster.go: the nodes of a cluster, its status and its leader.
use Prim.Native.String.{compare}
use Prim.Native.Nat.{Ordering}
use go_backend_kit.Common.{
  ℕ, suc, String, Bool, true, false, Option, none, some, List, [], ◌∷◌, map, ℤ, pos, ltb_ℤ, Dict,
  put, delete, string_key, str_eq, Time, Duration, sub_time, seconds, length, keep_if,
  if◌then◌else◌,
}
use go_backend_kit.Cluster.Types.{ClusterNode}

pub data ClusterStatus : Type 0 where
  initializing running degraded stopping stopped : ClusterStatus

pub data ClusterError : Type 0 where
  already_running not_running close_of_closed_channel : ClusterError

-- `monitors` counts the calls that started the goroutines, and `closed` is whether their channel
-- has been closed. `unregistered` is what the registry was told to forget, newest first.
pub record ClusterManager : Type 0 where
  pub heartbeat_timeout : Duration
  pub min_nodes : ℤ
  pub nodes : Dict String ClusterNode
  pub leader : String
  pub status : ClusterStatus
  pub monitors : ℕ
  pub closed : Bool
  pub unregistered : List String

unfoldable pub new_cluster_manager : ClusterManager
new_cluster_manager = record {
  heartbeat_timeout = seconds (pos 30);
  min_nodes = pos 1;
  nodes = [];
  leader = "";
  status = stopped;
  monitors = 0;
  closed = false;
  unregistered = [];
}

abbrev pub is_stopped : ClusterStatus → Bool
is_stopped stopped = true
is_stopped initializing = false
is_stopped running = false
is_stopped degraded = false
is_stopped stopping = false

abbrev pub is_running : ClusterStatus → Bool
is_running running = true
is_running initializing = false
is_running degraded = false
is_running stopping = false
is_running stopped = false

unfoldable pub start_cluster : ClusterManager → ClusterManager × Option ClusterError
start_cluster c =
    if is_stopped c.status
    then (record c { status = running; monitors = suc c.monitors }, none)
    else (c, some already_running)

-- Closing a closed channel is a panic.
unfoldable pub stop_cluster : ClusterManager → ClusterManager × Option ClusterError
stop_cluster c =
    if is_running c.status
    then (if c.closed
        then (record c { status = stopping }, some close_of_closed_channel)
        else (record c { status = stopped; closed = true }, none))
    else (c, some not_running)

unfoldable pub put_nodes : List ClusterNode → Dict String ClusterNode → Dict String ClusterNode
put_nodes [] m = m
put_nodes (n ∷ ns) m = put_nodes ns (put n.id n m)

-- `none` is an error of the registry.
unfoldable pub update_node_list : Option (List ClusterNode) → ClusterManager → ClusterManager
unfolding put_nodes
update_node_list none c = c
update_node_list (some ns) c = record c { nodes = put_nodes ns [] }

abbrev pub node_values : Dict String ClusterNode → List ClusterNode
node_values m = map (λ p. p.1) m

unfoldable pub is_stale : Time → Duration → ClusterNode → Bool
is_stale now limit n = ltb_ℤ limit (sub_time now n.updated_at)

-- The rebalancing that a failure may trigger is left to `rebalance_tasks`.
unfoldable pub handle_node_failure : String → ClusterManager → ClusterManager
handle_node_failure i c = record c { nodes = delete i c.nodes; unregistered = i ∷ c.unregistered }

unfoldable pub check_each : Time → List ClusterNode → ClusterManager → ClusterManager
unfolding is_stale handle_node_failure
check_each now [] c = c
check_each now (n ∷ ns) c =
    check_each now ns (if is_stale now c.heartbeat_timeout n then handle_node_failure n.id c else c)

unfoldable pub check_cluster_health : Time → ClusterManager → ClusterManager
unfolding check_each
check_cluster_health now c = check_each now (node_values c.nodes) c

abbrev pub is_active_node : ClusterNode → Bool
is_active_node n = str_eq n.status "active"

unfoldable pub status_for : ℤ → List ClusterNode → ClusterStatus
status_for min_nodes [] = stopped
status_for min_nodes (n ∷ ns) =
    if ltb_ℤ (pos (length (n ∷ ns))) min_nodes then degraded else running

unfoldable pub update_cluster_status : ClusterManager → ClusterManager
unfolding status_for
update_cluster_status c = record c {
  status = status_for c.min_nodes (keep_if is_active_node (node_values c.nodes));
}

-- One tick of `monitorNodes`.
unfoldable pub monitor_nodes : Option (List ClusterNode) → Time → ClusterManager → ClusterManager
monitor_nodes listed now c =
    update_cluster_status (check_cluster_health now (update_node_list listed c))

abbrev pub text_lt : String → String → Bool
text_lt s t = elim (compare s t) [ Ordering.lt ↦ true | _ ↦ false ]

unfoldable pub lowest_id : String → List ClusterNode → String
lowest_id i [] = i
lowest_id i (n ∷ ns) = lowest_id (if text_lt n.id i then n.id else i) ns

unfoldable pub elect_from : List ClusterNode → ClusterManager → ClusterManager
unfolding lowest_id
elect_from [] c = c
elect_from (n ∷ ns) c = record c { leader = lowest_id n.id ns }

unfoldable pub elect_leader : ClusterManager → ClusterManager
unfolding elect_from
elect_leader c = elect_from (keep_if is_active_node (node_values c.nodes)) c
