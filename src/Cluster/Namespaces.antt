-- ===== src/Cluster/Namespaces.antt =====
-- mq/cluster_state_do_namespaces.go. States are values: what the code copies before it changes it
-- is changed here in place.
use eventter.Base.{[], ◌∷◌, ◌++◌, none, some, remove_at}
use eventter.Cluster.Data.{ClusterState, NamespaceCreate, NamespaceDelete}
use eventter.Cluster.Queries.{find_namespace}

unfoldable pub do_create_namespace : ClusterState → NamespaceCreate → ClusterState
do_create_namespace s cmd = elim (find_namespace s cmd.namespace) [
  | some (n, i) ↦ s
  | none ↦ record s {
    namespaces =
        s.namespaces ++ (record { name = cmd.namespace; topics = []; consumer_groups = [] } ∷ []);
  }
]

unfoldable pub do_delete_namespace : ClusterState → NamespaceDelete → ClusterState
do_delete_namespace s cmd = elim (find_namespace s cmd.namespace) [
  | none ↦ s
  | some (n, i) ↦ record s { namespaces = remove_at s.namespaces i }
]
