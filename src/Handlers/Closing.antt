-- ===== src/Handlers/Closing.antt =====
-- `txSegmentClose` of mq/server_segment_close.go, `SegmentReplicaClose` and `SegmentRotate` from their
-- transactions on. What `raftNode.Apply` does is the dispatch of the command, where it goes through.
use eventter.Base.{
  ℕ, Bool, true, false, ◌&&◌, not, List, [], ◌∷◌, ◌++◌, Option, none, some, ◌==◌, if◌then◌else◌,
  filter,
}
use eventter.Base.Int.{ℤ, ltb_ℤ}
use eventter.Cluster.Data.{
  ClusterState, ClusterSegment, SegmentClose, SegmentNodesUpdate, OffsetCommitsUpdate, Which,
}
use eventter.Cluster.Sort.{SortLib}
use eventter.Cluster.Queries.{get_open_segment, get_closed_segment}
use eventter.Cluster.Store.{Command, next_segment_id, dispatch}
use eventter.Handlers.Opening.{Opened, segment_open}

-- `SegmentCloseRequest`
pub record CloseRequest : Type 0 where
  pub node_id : ℕ
  pub segment_id : ℕ
  pub size : ℤ
  pub sha1 : List ℕ
  pub commits : Option OffsetCommitsUpdate

abbrev pub same_bytes : List ℕ → List ℕ → Bool
same_bytes [] [] = true
same_bytes [] (y ∷ ys) = false
same_bytes (x ∷ xs) [] = false
same_bytes (x ∷ xs) (y ∷ ys) = x == y && same_bytes xs ys

abbrev pub same_size : ℤ → ℤ → Bool
same_size a b = not (ltb_ℤ a b) && not (ltb_ℤ b a)

pub data Closing : Type 0 where
  not_found not_primary already_closed : Closing
  closes : SegmentClose → Closing

abbrev pub close_command : ClusterSegment → CloseRequest → ℤ → SegmentClose
close_command g request now = record {
  id = g.id;
  done_node_id = request.node_id;
  closed_at = if ltb_ℤ now g.created_at then g.created_at else now;
  size = request.size;
  sha1 = request.sha1;
}

-- How `SegmentReplicaClose` ends; it panics where it makes a slice with a capacity of -1.
pub data ReplicaClosing : Type 0 where
  not_closed corrupted panics : ReplicaClosing
  updates : SegmentNodesUpdate → ReplicaClosing

abbrev pub without : ℕ → List ℕ → List ℕ
without node_id ids = filter (λ id. not (id == node_id)) ids

abbrev pub done_nodes : ClusterSegment → ℕ → SegmentNodesUpdate
done_nodes g node_id = record {
  id = g.id;
  which = Which.closed_which;
  nodes = record {
    primary_node_id = 0;
    done_node_ids = without node_id g.nodes.done_node_ids ++ (node_id ∷ []);
    replicating_node_ids = without node_id g.nodes.replicating_node_ids;
  };
}

-- How `SegmentRotate` ends: without the segment, or a panic; or with the state that the new segment
-- is opened in, and what `txSegmentOpen` answers.
pub data Rotated : Type 0 where
  panics not_found not_primary deleted : Rotated
  opens : ClusterState → Opened → Rotated

module _ (lib : SortLib) where
  unfoldable pub segment_close : ClusterState → CloseRequest → ℤ → Closing
  segment_close s request now = elim (get_open_segment lib s request.segment_id) [
    | some g ↦
        if g.nodes.primary_node_id == request.node_id
        then closes (close_command g request now)
        else not_primary
    | none ↦ elim (get_closed_segment lib s request.segment_id) [
      | some g ↦ already_closed
      | none ↦ not_found
    ]
  ]

  unfoldable pub segment_replica_close : ClusterState → CloseRequest → ReplicaClosing
  segment_replica_close s request = elim (get_closed_segment lib s request.segment_id) [
    | none ↦ not_closed
    | some g ↦
        if same_size request.size g.size && same_bytes request.sha1 g.sha1
        then elim g.nodes.replicating_node_ids [
          | [] ↦ ReplicaClosing.panics
          | id ∷ ids ↦ updates (done_nodes g request.node_id)
        ]
        else corrupted
  ]

  -- Behind the close.
  unfoldable pub rotate_open : (ℕ → ℕ) → ClusterState → CloseRequest → ℤ → Rotated
  unfolding segment_open next_segment_id
  rotate_open intn s request now = elim (get_closed_segment lib s request.segment_id) [
    | none ↦ deleted
    | some g ↦ opens s (
        segment_open intn s request.node_id g.type g.owner_namespace g.owner_name
          (next_segment_id s).1 now)
  ]

  unfoldable pub rotate_close : (ℕ → ℕ) → ClusterState → CloseRequest → ℤ → Rotated
  unfolding segment_close rotate_open dispatch
  rotate_close intn s request now = elim (segment_close s request now) [
    | not_found ↦ not_found
    | not_primary ↦ not_primary
    | already_closed ↦ rotate_open intn s request now
    | closes cmd ↦ elim (dispatch lib s (Command.close_segment cmd)) [
      | none ↦ panics
      | some next ↦ rotate_open intn next request now
    ]
  ]

  unfoldable pub segment_rotate : (ℕ → ℕ) → ClusterState → CloseRequest → ℤ → Rotated
  unfolding rotate_close dispatch
  segment_rotate intn s request now = elim request.commits [
    | none ↦ rotate_close intn s request now
    | some cmd ↦ elim (dispatch lib s (Command.update_consumer_group_offset_commits cmd)) [
      | none ↦ panics
      | some next ↦ rotate_close intn next request now
    ]
  ]
