-- ===== src/Cluster/Status.antt =====
-- crawler/distributed/cluster.go: stopping and restarting a cluster manager.
use go_backend_kit.Common.{suc, false, ◌≡◌, refl, none, some, [], keep_if}
use go_backend_kit.Cluster.Manager.{
  ClusterManager, stopped, not_running, close_of_closed_channel, start_cluster, stop_cluster,
  update_cluster_status, status_for, node_values, is_active_node,
}

-- After an update of the status that finds no active node, a cluster manager refuses to stop as
-- not running, and can be started again, which starts a further monitor.
pub idle_cluster :
    (c : ClusterManager)
    → keep_if is_active_node (node_values c.nodes) ≡ []
    → ((stop_cluster (update_cluster_status c)).1 ≡ some not_running)
      × ((start_cluster (update_cluster_status c)).1 ≡ none)
      × ((start_cluster (update_cluster_status c)).0.monitors ≡ suc c.monitors)
unfolding start_cluster stop_cluster update_cluster_status status_for
idle_cluster c h = rw h (refl, refl, refl)

-- A cluster manager that is stopped and whose channel is open can be started, stopped and started
-- again, and the second stop panics on the closed channel.
pub restarted_cluster :
    (c : ClusterManager)
    → c.status ≡ stopped
    → c.closed ≡ false
    → ((stop_cluster (start_cluster c).0).1 ≡ none)
      × ((start_cluster (stop_cluster (start_cluster c).0).0).1 ≡ none)
      × ((stop_cluster (start_cluster (stop_cluster (start_cluster c).0).0).0).1
          ≡ some close_of_closed_channel)
unfolding start_cluster stop_cluster
restarted_cluster c h k = rw (h, k) (refl, refl, refl)
