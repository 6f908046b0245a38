-- ===== src/Cluster/Groups.antt =====
-- mq/cluster_state_do_consumer_groups.go. `none` is the panic "namespace must exist".
use eventter.Base.{[], ◌∷◌, ◌++◌, Option, none, some, set, remove_at}
use eventter.Cluster.Data.{
  ClusterState, ClusterNamespace, ClusterConsumerGroup, OffsetCommit, SegmentType,
  ConsumerGroupCreate, ConsumerGroupDelete, OffsetCommitsUpdate,
}
use eventter.Cluster.Sort.{SortLib}
use eventter.Cluster.Queries.{find_namespace, find_consumer_group}
use eventter.Cluster.Topics.{remove_owned}

abbrev pub configured : ClusterConsumerGroup → ClusterConsumerGroup → ClusterConsumerGroup
configured g c = record g { bindings = c.bindings; size = c.size; since = c.since }

abbrev pub new_group : ClusterConsumerGroup → ClusterConsumerGroup
new_group c = record {
  name = c.name;
  bindings = c.bindings;
  size = c.size;
  since = c.since;
  offset_commits = [];
}

unfoldable pub put_consumer_group : ClusterNamespace → ClusterConsumerGroup → ClusterNamespace
put_consumer_group n c = elim (find_consumer_group n c.name) [
  | none ↦ record n { consumer_groups = n.consumer_groups ++ (new_group c ∷ []) }
  | some (g, i) ↦ record n { consumer_groups = set n.consumer_groups i (configured g c) }
]

unfoldable pub do_create_consumer_group : ClusterState → ConsumerGroupCreate → Option ClusterState
unfolding put_consumer_group
do_create_consumer_group s cmd = elim (find_namespace s cmd.namespace) [
  | none ↦ none
  | some (n, i) ↦
      some (record s { namespaces = set s.namespaces i (put_consumer_group n cmd.consumer_group) })
]

unfoldable pub do_delete_consumer_group : ClusterState → ConsumerGroupDelete → Option ClusterState
do_delete_consumer_group s cmd = elim (find_namespace s cmd.namespace) [
  | none ↦ none
  | some (n, i) ↦ elim (find_consumer_group n cmd.name) [
    | none ↦ some s
    | some (g, j) ↦ some (record s {
      namespaces =
          set s.namespaces i (record n { consumer_groups = remove_at n.consumer_groups j });
      open_segments =
          remove_owned SegmentType.consumer_group_offset_commits cmd.namespace cmd.name
            s.open_segments;
      closed_segments =
          remove_owned SegmentType.consumer_group_offset_commits cmd.namespace cmd.name
            s.closed_segments;
    })
  ]
]

module _ (lib : SortLib) where
  unfoldable pub do_update_offset_commits : ClusterState → OffsetCommitsUpdate → Option ClusterState
  do_update_offset_commits s cmd = elim (find_namespace s cmd.namespace) [
    | none ↦ none
    | some (n, i) ↦ elim (find_consumer_group n cmd.name) [
      | none ↦ some s
      | some (g, j) ↦ some (record s {
        namespaces = set s.namespaces i (record n {
          consumer_groups = set n.consumer_groups j (record g {
            offset_commits = lib.slice OffsetCommit (λ c. c.segment_id) cmd.offset_commits;
          });
        });
      })
    ]
  ]
