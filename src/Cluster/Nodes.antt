-- ===== src/Cluster/Nodes.antt =====
-- mq/cluster_state_do_nodes.go.
use eventter.Base.{[], ◌∷◌, ◌++◌, none, some, ◌==◌, set}
use eventter.Base.Search.{find_index}
use eventter.Cluster.Data.{ClusterState, ClusterNode, NodeUpdate}
use eventter.Cluster.Sort.{SortLib}

-- The four assignments to `nextNode` leave nothing of what it was a copy of.
abbrev pub updated : NodeUpdate → ClusterNode
updated cmd = record {
  id = cmd.id;
  address = cmd.address;
  state = cmd.state;
  last_seen_alive = cmd.last_seen_alive;
}

module _ (lib : SortLib) where
  unfoldable pub do_update_node : ClusterState → NodeUpdate → ClusterState
  do_update_node s cmd = record s {
    nodes =
        lib.slice ClusterNode (λ n. n.id)
          (elim (find_index (λ n. n.id == cmd.id) s.nodes) [
            | none ↦ s.nodes ++ (updated cmd ∷ [])
            | some (n, i) ↦ set s.nodes i (updated cmd)
          ]);
  }
