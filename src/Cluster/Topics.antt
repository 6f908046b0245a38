-- ===== src/Cluster/Topics.antt =====
-- mq/cluster_state_do_topics.go. `none` is the panic "namespace must exist".
use eventter.Base.{ℕ, List, [], ◌∷◌, ◌++◌, map, Option, none, some, Bool, true, not, ◌||◌}
use eventter.Base.{String, str_eq, if◌then◌else◌, any, filter, set, remove_at}
use eventter.Cluster.Data.{
  ClusterState, ClusterNamespace, ClusterTopic, ClusterConsumerGroup, Binding, OffsetCommit,
  ClusterSegment, SegmentType, TopicCreate, TopicDelete,
}
use eventter.Cluster.Sort.{SortLib}
use eventter.Cluster.Queries.{find_namespace, find_topic, get_segment, is_owned}

-- The five fields of the command's topic, where the command made one or found one.
abbrev pub configured : ClusterTopic → ClusterTopic → ClusterTopic
configured t c = record t {
  default_exchange_type = c.default_exchange_type;
  shards = c.shards;
  replication_factor = c.replication_factor;
  retention = c.retention;
}

abbrev pub new_topic : ClusterTopic → ClusterTopic
new_topic c = record {
  name = c.name;
  shards = c.shards;
  replication_factor = c.replication_factor;
  retention = c.retention;
  default_exchange_type = c.default_exchange_type;
}

unfoldable pub put_topic : ClusterNamespace → ClusterTopic → ClusterNamespace
put_topic n c = elim (find_topic n c.name) [
  | none ↦ record n { topics = n.topics ++ (new_topic c ∷ []) }
  | some (t, i) ↦ record n { topics = set n.topics i (configured t c) }
]

unfoldable pub do_create_topic : ClusterState → TopicCreate → Option ClusterState
unfolding put_topic
do_create_topic s cmd = elim (find_namespace s cmd.namespace) [
  | none ↦ none
  | some (n, i) ↦ some (record s { namespaces = set s.namespaces i (put_topic n cmd.topic) })
]

-- The loop that copies the segments of another type or owner, and assigns if it left one out.
abbrev pub remove_owned : SegmentType → String → String → List ClusterSegment → List ClusterSegment
remove_owned type namespace name segments =
    if any (is_owned type namespace name) segments
    then filter (λ g. not (is_owned type namespace name g)) segments
    else segments

module _ (lib : SortLib) where
  -- `segment == nil || (segment.Type == TOPIC && …)`
  abbrev pub is_stale : ClusterState → TopicDelete → OffsetCommit → Bool
  is_stale s cmd commit = elim (get_segment lib s commit.segment_id) [
    | none ↦ true
    | some g ↦ is_owned SegmentType.topic cmd.namespace cmd.name g
  ]

  abbrev pub is_bound : TopicDelete → Binding → Bool
  is_bound cmd b = str_eq b.topic_name cmd.name

  -- One consumer group without the topic's bindings and commits; `changed` as the code has it.
  abbrev pub is_changed : ClusterState → TopicDelete → ClusterConsumerGroup → Bool
  is_changed s cmd group =
      any (is_bound cmd) group.bindings || any (is_stale s cmd) group.offset_commits

  abbrev pub without_topic :
      ClusterState → TopicDelete → ClusterConsumerGroup → ClusterConsumerGroup
  without_topic s cmd group =
      if is_changed s cmd group
      then record group {
        bindings = filter (λ b. not (is_bound cmd b)) group.bindings;
        offset_commits = filter (λ c. not (is_stale s cmd c)) group.offset_commits;
      }
      else group

  unfoldable pub drop_topic : ClusterState → TopicDelete → ClusterNamespace → ℕ → ClusterNamespace
  drop_topic s cmd n i = record n {
    topics = remove_at n.topics i;
    consumer_groups =
        if any (is_changed s cmd) n.consumer_groups
        then map (without_topic s cmd) n.consumer_groups
        else n.consumer_groups;
  }

  unfoldable pub do_delete_topic : ClusterState → TopicDelete → Option ClusterState
  unfolding drop_topic
  do_delete_topic s cmd = elim (find_namespace s cmd.namespace) [
    | none ↦ none
    | some (n, i) ↦ elim (find_topic n cmd.name) [
      | none ↦ some s
      | some (t, j) ↦ some (record s {
        namespaces = set s.namespaces i (drop_topic s cmd n j);
        open_segments = remove_owned SegmentType.topic cmd.namespace cmd.name s.open_segments;
        closed_segments = remove_owned SegmentType.topic cmd.namespace cmd.name s.closed_segments;
      })
    ]
  ]
