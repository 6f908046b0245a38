-- ===== src/Reconcile/Outcome.antt =====
-- What the parts of the reconciler share: the map of nodes, the counts of segments per node, and how
-- the work on one segment ends. The commands go to the delegate's `Apply`, whose failure is logged
-- and changes nothing else: a part of the reconciler is the command that it applies.
use eventter.Base.{
  ℕ, Bool, true, false, ◌&&◌, List, [], ◌∷◌, Option, none, some, ◌==◌, if◌then◌else◌,
}
use eventter.Base.Int.{ℤ, pos, up, down}
use eventter.Cluster.Data.{ClusterState, ClusterSegment, ClusterNode, dead, alive}
use eventter.Cluster.Queries.{count_segments_per_node}
use eventter.Cluster.Store.{Command}

-- `nodeMap[id]`, after `nodeMap[node.ID] = node` for one node after the other.
unfoldable pub node_of : List ClusterNode → ℕ → Option ClusterNode
node_of [] id = none
node_of (n ∷ ns) id = elim (node_of ns id) [
  | some m ↦ some m
  | none ↦ if n.id == id then some n else none
]

abbrev pub is_up : ClusterNode → Bool
is_up n = elim n.state [ dead ↦ false | alive ↦ true ]

-- `nodeMap[id].State == ClusterNode_ALIVE`, where the map has the id; a nil entry is a panic, and
-- the code's loops meet every id that `knows_all` is asked for.
unfoldable pub is_alive : List ClusterNode → ℕ → Bool
is_alive ns id = elim (node_of ns id) [ none ↦ false | some n ↦ is_up n ]

abbrev pub knows : List ClusterNode → ℕ → Bool
knows ns id = elim (node_of ns id) [ none ↦ false | some n ↦ true ]

unfoldable pub knows_all : List ClusterNode → List ℕ → Bool
knows_all ns [] = true
knows_all ns (id ∷ ids) = knows ns id && knows_all ns ids

abbrev pub alive_node_ids : List ClusterNode → List ℕ
alive_node_ids [] = []
alive_node_ids (n ∷ ns) = if is_up n then n.id ∷ alive_node_ids ns else alive_node_ids ns

-- `nodeSegmentCounts`, a map to int.
abbrev pub Counts : Type 0
Counts = ℕ → ℤ

abbrev pub bump : Counts → ℕ → Counts
bump counts id k = if id == k then up (counts k) else counts k

abbrev pub lower : Counts → ℕ → Counts
lower counts id k = if id == k then down (counts k) else counts k

abbrev pub start_counts : ClusterState → Counts
start_counts s id = pos (count_segments_per_node s id)

-- How a segment ends: a panic; nothing applied; or a command applied.
pub data Outcome : Type 0 where
  panics : Outcome
  quiet : Counts → Outcome
  applies : Command → Counts → Outcome

-- One segment after the other: what was applied, or a panic.
unfoldable pub for_each :
    (ClusterSegment → Counts → Outcome)
    → List ClusterSegment
    → Counts
    → Option (List Command × Counts)
for_each f [] counts = some ([], counts)
for_each f (g ∷ gs) counts = elim (f g counts) [
  | panics ↦ none
  | quiet counts' ↦ for_each f gs counts'
  | applies cmd counts' ↦ elim (for_each f gs counts') [
    | none ↦ none
    | some (cmds, last) ↦ some (cmd ∷ cmds, last)
  ]
]
