-- ===== src/Cluster/Store.antt =====
-- mq/cluster_state_store.go: the dispatch of commands and the store's own counter. One round of the
-- compare-and-swap loop is a function of the state that it loaded; a round whose swap fails changes
-- nothing, and the last one is applied to the state that its swap replaces.
use eventter.Base.{ℕ, ◌+◌, ◌%◌, ◌^◌, Option, none, some}
use eventter.Cluster.Data.{
  ClusterState, NamespaceCreate, NamespaceDelete, TopicCreate, TopicDelete, ConsumerGroupCreate,
  ConsumerGroupDelete, OffsetCommitsUpdate, SegmentCreate, SegmentClose, SegmentNodesUpdate,
  SegmentDelete, NodeUpdate,
}
use eventter.Cluster.Sort.{SortLib}
use eventter.Cluster.Namespaces.{do_create_namespace, do_delete_namespace}
use eventter.Cluster.Topics.{do_create_topic, do_delete_topic}
use eventter.Cluster.Groups.{
  do_create_consumer_group, do_delete_consumer_group, do_update_offset_commits,
}
use eventter.Cluster.Segments.{
  do_open_segment, do_close_segment, do_update_segment_nodes, do_delete_segment,
}
use eventter.Cluster.Nodes.{do_update_node}

-- The oneof of `ClusterCommand`; `unset` is a command that carries none.
pub data Command : Type 0 where
  unset : Command
  create_namespace : NamespaceCreate → Command
  delete_namespace : NamespaceDelete → Command
  create_topic : TopicCreate → Command
  delete_topic : TopicDelete → Command
  create_consumer_group : ConsumerGroupCreate → Command
  delete_consumer_group : ConsumerGroupDelete → Command
  update_consumer_group_offset_commits : OffsetCommitsUpdate → Command
  create_segment : SegmentCreate → Command
  close_segment : SegmentClose → Command
  update_segment_nodes : SegmentNodesUpdate → Command
  delete_segment : SegmentDelete → Command
  update_node : NodeUpdate → Command

-- `NextSegmentID`, with a uint64 that wraps.
unfoldable pub next_segment_id : ClusterState → ClusterState × ℕ
next_segment_id s =
    let id = (s.current_segment_id + 1) % 2 ^ 64 in (record s { current_segment_id = id }, id)

module _ (lib : SortLib) where
  -- The switch of `Do`; `none` is a panic.
  unfoldable pub dispatch : ClusterState → Command → Option ClusterState
  dispatch s unset = none
  dispatch s (create_namespace cmd) = some (do_create_namespace s cmd)
  dispatch s (delete_namespace cmd) = some (do_delete_namespace s cmd)
  dispatch s (create_topic cmd) = do_create_topic s cmd
  dispatch s (delete_topic cmd) = do_delete_topic lib s cmd
  dispatch s (create_consumer_group cmd) = do_create_consumer_group s cmd
  dispatch s (delete_consumer_group cmd) = do_delete_consumer_group s cmd
  dispatch s (update_consumer_group_offset_commits cmd) = do_update_offset_commits lib s cmd
  dispatch s (create_segment cmd) = some (do_open_segment lib s cmd)
  dispatch s (close_segment cmd) = some (do_close_segment lib s cmd)
  dispatch s (update_segment_nodes cmd) = do_update_segment_nodes lib s cmd
  dispatch s (delete_segment cmd) = do_delete_segment lib s cmd
  dispatch s (update_node cmd) = some (do_update_node lib s cmd)

  -- `Do`; the command is `none` for a nil pointer.
  unfoldable pub do_command : ClusterState → ℕ → Option Command → Option ClusterState
  unfolding dispatch
  do_command s index none = some (record s { index = index })
  do_command s index (some cmd) = elim (dispatch s cmd) [
    | none ↦ none
    | some next ↦ some (record next { index = index })
  ]
