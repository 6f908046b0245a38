-- ===== src/Cluster/Data.antt =====
-- The messages of mq/cluster_state.proto. A time or a duration is an integer, `last_seen_alive` a
-- pointer to one. A nil map and an empty one are one list of fields; a header's value is a
-- reference to a value of the protobuf library, which only `reflect.DeepEqual` looks into.
use eventter.Base.{ℕ, List, [], Option, String}
use eventter.Base.Int.{ℤ}

pub record ClusterTopic : Type 0 where
  pub name : String
  pub shards : ℕ
  pub replication_factor : ℕ
  pub retention : ℤ
  pub default_exchange_type : String

pub data By : Type 0 where
  unset : By
  routing_key : String → By
  headers_all headers_any : List (String × ℕ) → By

pub record Binding : Type 0 where
  pub topic_name : String
  pub exchange_type : String
  pub by : By

pub record OffsetCommit : Type 0 where
  pub segment_id : ℕ
  pub offset : ℤ

pub record ClusterConsumerGroup : Type 0 where
  pub name : String
  pub bindings : List Binding
  pub size : ℕ
  pub since : ℤ
  pub offset_commits : List OffsetCommit

pub record ClusterNamespace : Type 0 where
  pub name : String
  pub topics : List ClusterTopic
  pub consumer_groups : List ClusterConsumerGroup

pub data SegmentType : Type 0 where
  invalid topic consumer_group_offset_commits : SegmentType

pub record SegmentNodes : Type 0 where
  pub primary_node_id : ℕ
  pub done_node_ids : List ℕ
  pub replicating_node_ids : List ℕ

pub record ClusterSegment : Type 0 where
  pub id : ℕ
  pub type : SegmentType
  pub owner_namespace : String
  pub owner_name : String
  pub generation : ℕ
  pub shard : ℕ
  pub created_at : ℤ
  pub closed_at : ℤ
  pub nodes : SegmentNodes
  pub size : ℤ
  pub sha1 : List ℕ

pub data NodeState : Type 0 where
  dead alive : NodeState

pub record ClusterNode : Type 0 where
  pub id : ℕ
  pub address : String
  pub state : NodeState
  pub last_seen_alive : Option ℤ

pub record ClusterState : Type 0 where
  pub index : ℕ
  pub current_segment_id : ℕ
  pub namespaces : List ClusterNamespace
  pub open_segments : List ClusterSegment
  pub closed_segments : List ClusterSegment
  pub nodes : List ClusterNode

-- `&ClusterState{}`
abbrev pub empty_state : ClusterState
empty_state = record {
  index = 0;
  current_segment_id = 0;
  namespaces = [];
  open_segments = [];
  closed_segments = [];
  nodes = [];
}

pub record NamespaceCreate : Type 0 where
  pub namespace : String

pub record NamespaceDelete : Type 0 where
  pub namespace : String

pub record TopicCreate : Type 0 where
  pub namespace : String
  pub topic : ClusterTopic

pub record TopicDelete : Type 0 where
  pub namespace : String
  pub name : String

pub record ConsumerGroupCreate : Type 0 where
  pub namespace : String
  pub consumer_group : ClusterConsumerGroup

pub record ConsumerGroupDelete : Type 0 where
  pub namespace : String
  pub name : String

pub record OffsetCommitsUpdate : Type 0 where
  pub namespace : String
  pub name : String
  pub offset_commits : List OffsetCommit

pub record SegmentCreate : Type 0 where
  pub id : ℕ
  pub type : SegmentType
  pub owner_namespace : String
  pub owner_name : String
  pub generation : ℕ
  pub shard : ℕ
  pub opened_at : ℤ
  pub primary_node_id : ℕ
  pub replicating_node_ids : List ℕ

pub record SegmentClose : Type 0 where
  pub id : ℕ
  pub done_node_id : ℕ
  pub closed_at : ℤ
  pub size : ℤ
  pub sha1 : List ℕ

-- A number other than these three is one of the cases that panic, as `invalid_which` does.
pub data Which : Type 0 where
  invalid_which open_which closed_which : Which

pub record SegmentNodesUpdate : Type 0 where
  pub id : ℕ
  pub which : Which
  pub nodes : SegmentNodes

pub record SegmentDelete : Type 0 where
  pub id : ℕ
  pub which : Which

pub record NodeUpdate : Type 0 where
  pub id : ℕ
  pub address : String
  pub state : NodeState
  pub last_seen_alive : Option ℤ
