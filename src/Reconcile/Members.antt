-- ===== src/Reconcile/Members.antt =====
-- mq/reconciler_nodes.go and mq/reconciler_namespaces.go. A member of memberlist is the id that its
-- name stands for and its address; `AddVoter` changes nothing here.
use eventter.Base.{
  ℕ, Bool, true, ◌||◌, not, List, [], ◌∷◌, ◌++◌, Option, none, some, String, str_eq, ◌==◌,
  if◌then◌else◌, any, find,
}
use eventter.Base.Int.{ℤ}
use eventter.Cluster.Data.{ClusterState, ClusterNode, NodeUpdate, NodeState}
use eventter.Cluster.Queries.{find_namespace}
use eventter.Cluster.Store.{Command}
use eventter.Reconcile.Outcome.{is_up}

pub record Member : Type 0 where
  pub id : ℕ
  pub address : String

-- `node == nil || node.Address != member.Address() || node.State != ClusterNode_ALIVE`
abbrev pub is_news : List ClusterNode → Member → Bool
is_news ns m = elim (find (λ n. n.id == m.id) ns) [
  | none ↦ true
  | some n ↦ not (str_eq n.address m.address) || not (is_up n)
]

abbrev pub join : Member → NodeUpdate
join m = record { id = m.id; address = m.address; state = NodeState.alive; last_seen_alive = none }

-- The loop over the members.
unfoldable pub joins : List ClusterNode → List Member → List NodeUpdate
joins ns [] = []
joins ns (m ∷ ms) = if is_news ns m then join m ∷ joins ns ms else joins ns ms

abbrev pub is_member : List Member → ℕ → Bool
is_member ms id = any (λ m. m.id == id) ms

abbrev pub leave : ℤ → ClusterNode → NodeUpdate
leave now n = record {
  id = n.id;
  address = n.address;
  state = NodeState.dead;
  last_seen_alive = some now;
}

-- The loop over the nodes, where `Apply` goes through; it ends at the first failure.
unfoldable pub leaves : ℤ → List Member → List ClusterNode → List NodeUpdate
leaves now ms [] = []
leaves now ms (n ∷ ns) =
    if is_member ms n.id || not (is_up n) then leaves now ms ns else leave now n ∷ leaves now ms ns

-- `ReconcileNodes`: the updates that it applies, in their order.
unfoldable pub reconcile_nodes : ℤ → List Member → ClusterState → List NodeUpdate
unfolding joins leaves
reconcile_nodes now ms s = joins s.nodes ms ++ leaves now ms s.nodes

abbrev pub default_namespace : String
default_namespace = "default"

-- `ReconcileNamespaces`
unfoldable pub reconcile_namespaces : ClusterState → Option Command
reconcile_namespaces s = elim (find_namespace s default_namespace) [
  | none ↦ some (Command.create_namespace (record { namespace = default_namespace }))
  | some found ↦ none
]
