-- ===== src/Reconcile/Open.antt =====
-- `reconcileOpenSegments` of mq/reconciler_segments.go. The numbers of replicas are those of lists
-- shorter than 2^32, which a uint32 holds. The sizes that other nodes answer are an argument.
use eventter.Base.{
  ℕ, ◌+◌, ◌-◌, Bool, false, ◌&&◌, not, List, [], ◌∷◌, Option, none, some, String, ◌==◌, ltb,
  if◌then◌else◌, length, count_if, filter,
}
use eventter.Base.Int.{ℤ, negsuc, ltb_ℤ}
use eventter.Cluster.Data.{
  ClusterState, ClusterSegment, ClusterNode, invalid, topic, consumer_group_offset_commits, Which,
  dead, alive,
}
use eventter.Cluster.Queries.{get_topic, get_consumer_group}
use eventter.Cluster.Store.{Command}
use eventter.Reconcile.Outcome.{
  node_of, is_alive, knows_all, alive_node_ids, Counts, Outcome, panics, quiet, applies, for_each,
}
use eventter.Reconcile.Replicas.{is_in, add_replicas, keep_first}

abbrev pub default_replication_factor : ℕ
default_replication_factor = 3

-- The command that gives an open segment its nodes.
abbrev pub open_nodes : ClusterSegment → ℕ → List ℕ → Command
open_nodes g primary replicating = Command.update_segment_nodes (record {
  id = g.id;
  which = Which.open_which;
  nodes = record {
    primary_node_id = primary;
    done_node_ids = [];
    replicating_node_ids = replicating;
  };
})

-- More alive replicas than are wanted.
unfoldable pub trim_open : List ClusterNode → ClusterSegment → ℕ → Counts → Outcome
trim_open ns g factor counts =
    let (kept, after) = keep_first (is_alive ns) factor 1 g.nodes.replicating_node_ids counts in
    if ltb 0 (factor - 1)
    then applies (open_nodes g g.nodes.primary_node_id kept) after
    else applies (open_nodes g g.nodes.primary_node_id []) counts

abbrev pub is_open_candidate : ℕ → List ℕ → ℕ → Bool
is_open_candidate primary kept id = not (id == primary) && not (is_in kept id)

-- Fewer alive replicas than are wanted.
unfoldable pub extend_open : List ClusterNode → ClusterSegment → ℕ → Counts → List ℕ → Outcome
extend_open ns g factor counts all =
    let kept = filter (is_alive ns) g.nodes.replicating_node_ids in
    let candidates = filter (is_open_candidate g.nodes.primary_node_id kept) all in
    let a = add_replicas (length candidates) 0 (factor - 1) counts candidates kept false in
    if a.added
    then applies (open_nodes g g.nodes.primary_node_id a.replicas) a.counts
    else quiet a.counts

-- `reconcileOpenSegmentWithAlivePrimary`
unfoldable pub with_alive_primary :
    List ClusterNode → ClusterSegment → ℕ → Counts → List ℕ → Outcome
unfolding trim_open extend_open
with_alive_primary ns g factor counts all =
    let alive_replicas = 1 + count_if (is_alive ns) g.nodes.replicating_node_ids in
    if ltb factor 1
    then panics
    else if not (knows_all ns g.nodes.replicating_node_ids)
    then panics
    else if ltb factor alive_replicas
    then trim_open ns g factor counts
    else if ltb alive_replicas factor
    then extend_open ns g factor counts all
    else quiet counts

-- What the search for a new primary comes to: a nil node; an error from a node; or the best one, 0
-- if there is none.
pub data Best : Type 0 where
  unknown_node gives_up : Best
  best : ℕ → Best

module _ (size_of : ℕ → ℕ → String → Option ℤ) where
  -- The loop over the replicas, with the best one so far and its size.
  unfoldable pub best_replica : List ClusterNode → ℕ → List ℕ → ℕ → ℤ → Best
  best_replica ns segment_id [] id size = best id
  best_replica ns segment_id (r ∷ rs) id size = elim (node_of ns r) [
    | none ↦ unknown_node
    | some n ↦ elim n.state [
      | dead ↦ best_replica ns segment_id rs id size
      | alive ↦ elim (size_of segment_id r n.address) [
        | none ↦ gives_up
        | some z ↦
            if ltb_ℤ size z
            then best_replica ns segment_id rs r z
            else best_replica ns segment_id rs id size
      ]
    ]
  ]

  -- `reconcileOpenSegmentWithDeadPrimary`
  unfoldable pub with_dead_primary : List ClusterNode → ClusterSegment → Counts → Outcome
  unfolding best_replica
  with_dead_primary ns g counts = elim g.nodes.replicating_node_ids [
    | [] ↦ quiet counts
    | r ∷ rs ↦ elim (best_replica ns g.id g.nodes.replicating_node_ids 0 (negsuc 0)) [
      | unknown_node ↦ panics
      | gives_up ↦ quiet counts
      | best id ↦
          if id == 0
          then quiet counts
          else applies
              (open_nodes g id
                (filter (λ n. not (n == id) && is_alive ns n) g.nodes.replicating_node_ids))
              counts
    ]
  ]

  -- The end of `reconcileOpenSegment`, at the factor that it has found.
  unfoldable pub with_primary : List ClusterNode → ClusterSegment → ℕ → Counts → List ℕ → Outcome
  unfolding with_alive_primary with_dead_primary
  with_primary ns g factor counts all = elim (node_of ns g.nodes.primary_node_id) [
    | none ↦ panics
    | some n ↦ elim n.state [
      | alive ↦ with_alive_primary ns g factor counts all
      | dead ↦ with_dead_primary ns g counts
    ]
  ]

  abbrev pub delete_open : ClusterSegment → Command
  delete_open g = Command.delete_segment (record { id = g.id; which = Which.open_which })

  -- `reconcileOpenSegment`
  unfoldable pub reconcile_open_segment : ClusterState → List ℕ → ClusterSegment → Counts → Outcome
  unfolding with_primary
  reconcile_open_segment s all g counts = elim g.type [
    | invalid ↦ with_primary s.nodes g default_replication_factor counts all
    | topic ↦ elim (get_topic s g.owner_namespace g.owner_name) [
      | none ↦ applies (delete_open g) counts
      | some t ↦ with_primary s.nodes g t.replication_factor counts all
    ]
    | consumer_group_offset_commits ↦ elim (get_consumer_group s g.owner_namespace g.owner_name) [
      | none ↦ applies (delete_open g) counts
      | some c ↦ with_primary s.nodes g default_replication_factor counts all
    ]
  ]

  -- `reconcileOpenSegments`
  unfoldable pub reconcile_open_segments : ClusterState → Counts → Option (List Command × Counts)
  unfolding reconcile_open_segment
  reconcile_open_segments s counts =
      for_each (reconcile_open_segment s (alive_node_ids s.nodes)) s.open_segments counts
