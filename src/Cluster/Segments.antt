-- ===== src/Cluster/Segments.antt =====
-- mq/cluster_state_do_segments.go. `none` is the panic "unhandled which".
use eventter.Base.{
  ℕ, List, [], ◌∷◌, ◌++◌, Option, none, some, if◌then◌else◌, ltb, ◌==◌, set, remove_at,
}
use eventter.Base.Int.{pos}
use eventter.Base.Search.{find_index}
use eventter.Cluster.Data.{
  ClusterState, ClusterSegment, SegmentCreate, SegmentClose, SegmentNodesUpdate, SegmentDelete,
  invalid_which, open_which, closed_which,
}
use eventter.Cluster.Sort.{SortLib}
use eventter.Cluster.Queries.{search_segment}

abbrev pub opened : SegmentCreate → ClusterSegment
opened cmd = record {
  id = cmd.id;
  type = cmd.type;
  owner_namespace = cmd.owner_namespace;
  owner_name = cmd.owner_name;
  generation = cmd.generation;
  shard = cmd.shard;
  created_at = cmd.opened_at;
  closed_at = pos 0;
  nodes = record {
    primary_node_id = cmd.primary_node_id;
    done_node_ids = [];
    replicating_node_ids = cmd.replicating_node_ids;
  };
  size = pos 0;
  sha1 = [];
}

abbrev pub closed : ClusterSegment → SegmentClose → ClusterSegment
closed g cmd = record g {
  closed_at = cmd.closed_at;
  size = cmd.size;
  sha1 = cmd.sha1;
  nodes = record {
    primary_node_id = 0;
    done_node_ids = cmd.done_node_id ∷ [];
    replicating_node_ids = g.nodes.replicating_node_ids;
  };
}

module _ (lib : SortLib) where
  abbrev pub by_id : List ClusterSegment → List ClusterSegment
  by_id = lib.slice ClusterSegment (λ g. g.id)

  unfoldable pub do_open_segment : ClusterState → SegmentCreate → ClusterState
  do_open_segment s cmd = record s {
    current_segment_id = if ltb s.current_segment_id cmd.id then cmd.id else s.current_segment_id;
    open_segments = by_id (s.open_segments ++ (opened cmd ∷ []));
  }

  unfoldable pub do_close_segment : ClusterState → SegmentClose → ClusterState
  do_close_segment s cmd = elim (find_index (λ g. g.id == cmd.id) s.open_segments) [
    | none ↦ s
    | some (g, i) ↦ record s {
      open_segments = remove_at s.open_segments i;
      closed_segments = by_id (s.closed_segments ++ (closed g cmd ∷ []));
    }
  ]

  -- `doUpdateSegmentNodesIn`, at the segment `g` that stands at `i`.
  abbrev pub do_update_segment_nodes_in :
      List ClusterSegment → ClusterSegment → ℕ → SegmentNodesUpdate → List ClusterSegment
  do_update_segment_nodes_in segments g i cmd = set segments i (record g { nodes = cmd.nodes })

  unfoldable pub do_update_segment_nodes : ClusterState → SegmentNodesUpdate → Option ClusterState
  do_update_segment_nodes s cmd = elim cmd.which [
    | invalid_which ↦ none
    | open_which ↦ some (elim (search_segment lib s.open_segments cmd.id) [
      | none ↦ s
      | some (g, i) ↦ record s {
        open_segments = do_update_segment_nodes_in s.open_segments g i cmd;
      }
    ])
    | closed_which ↦ some (elim (search_segment lib s.closed_segments cmd.id) [
      | none ↦ s
      | some (g, i) ↦ record s {
        closed_segments = do_update_segment_nodes_in s.closed_segments g i cmd;
      }
    ])
  ]

  unfoldable pub do_delete_segment : ClusterState → SegmentDelete → Option ClusterState
  do_delete_segment s cmd = elim cmd.which [
    | invalid_which ↦ none
    | open_which ↦ some (elim (search_segment lib s.open_segments cmd.id) [
      | none ↦ s
      | some (g, i) ↦ record s { open_segments = remove_at s.open_segments i }
    ])
    | closed_which ↦ some (elim (search_segment lib s.closed_segments cmd.id) [
      | none ↦ s
      | some (g, i) ↦ record s { closed_segments = remove_at s.closed_segments i }
    ])
  ]
