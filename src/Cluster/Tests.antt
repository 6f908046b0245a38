-- ===== src/Cluster/Tests.antt =====
-- The theorems on the cluster's state at the state that a short log leaves: two topics, a consumer
-- group of both and two segments.
use eventter.Base.{
  ℕ, ◌≡◌, refl, false, [], ◌∷◌, none, some, str_eq, ◌==◌, ◌&&◌, find, count_if, if◌then◌else◌,
  String,
}
use eventter.Base.Int.{pos}
use eventter.Base.Search.{All-find, find_index}
use eventter.Cluster.Data.{
  ClusterState, ClusterNamespace, ClusterTopic, ClusterConsumerGroup, ClusterSegment, Binding, By,
  SegmentType, NodeState, empty_state, TopicCreate, TopicDelete, ConsumerGroupCreate, SegmentCreate,
  NodeUpdate,
}
use eventter.Cluster.Insertion.{insertion}
use eventter.Cluster.Queries.{
  find_namespace, find_topic, find_consumer_group, get_topic, get_consumer_group, is_owned,
  get_open_segment, get_closed_segment, get_segment, any_consumer_group_references_topic,
}
use eventter.Cluster.Namespaces.{do_create_namespace}
use eventter.Cluster.Topics.{put_topic, do_create_topic, drop_topic, do_delete_topic}
use eventter.Cluster.Groups.{put_consumer_group, do_create_consumer_group}
use eventter.Cluster.Segments.{opened, do_open_segment}
use eventter.Cluster.Store.{Command, dispatch, do_command}
use eventter.Cluster.Lookup.{by_name}
use eventter.Cluster.Created.{
  created, get_topic-do_create_topic, get_consumer_group-do_create_consumer_group,
}
use eventter.Cluster.Deleted.{do_delete_topic-unreferenced, get_topic-do_delete_topic}
use eventter.Cluster.Invariant.{IsValid, NamespaceIsValid, start-IsValid}
use eventter.Cluster.Commands.{do_command-IsValid}
use eventter.Cluster.Searching.{get_segment-find}

abbrev topic : String → ClusterTopic
topic name = record {
  name = name;
  shards = 1;
  replication_factor = 2;
  retention = pos 0;
  default_exchange_type = "topic";
}

abbrev bound : String → Binding
bound name = record { topic_name = name; exchange_type = "topic"; by = By.routing_key "a.*" }

abbrev billing : ClusterConsumerGroup
billing = record {
  name = "billing";
  bindings = bound "orders" ∷ bound "mails" ∷ [];
  size = 4;
  since = pos 0;
  offset_commits = [];
}

abbrev segment : ℕ → String → SegmentCreate
segment id name = record {
  id = id;
  type = SegmentType.topic;
  owner_namespace = "default";
  owner_name = name;
  generation = 1;
  shard = 0;
  opened_at = pos 9;
  primary_node_id = 1;
  replicating_node_ids = 2 ∷ [];
}

-- One entry of the log after the other.
abbrev with_namespace : ClusterState
with_namespace = record empty_state {
  index = 1;
  namespaces = record { name = "default"; topics = []; consumer_groups = [] } ∷ [];
}

abbrev with_topics : ClusterState
with_topics = record empty_state {
  index = 3;
  namespaces =
      record {
        name = "default";
        topics = topic "orders" ∷ topic "mails" ∷ [];
        consumer_groups = [];
      }
      ∷ [];
}

abbrev order_topic : ClusterState
order_topic = record empty_state {
  index = 2;
  namespaces = record { name = "default"; topics = topic "orders" ∷ []; consumer_groups = [] } ∷ [];
}

abbrev with_group : ClusterState
with_group = record with_topics {
  index = 4;
  namespaces =
      record {
        name = "default";
        topics = topic "orders" ∷ topic "mails" ∷ [];
        consumer_groups = billing ∷ [];
      }
      ∷ [];
}

abbrev one_segment : ClusterState
one_segment = record with_group {
  index = 5;
  current_segment_id = 3;
  open_segments = opened (segment 3 "orders") ∷ [];
}

-- The second segment has the smaller id, and is sorted in before the first.
abbrev two_segments : ClusterState
two_segments = record one_segment {
  index = 6;
  open_segments = opened (segment 2 "mails") ∷ opened (segment 3 "orders") ∷ [];
}

abbrev create_orders : TopicCreate
create_orders = record { namespace = "default"; topic = topic "orders" }

abbrev create_mails : TopicCreate
create_mails = record { namespace = "default"; topic = topic "mails" }

abbrev create_billing : ConsumerGroupCreate
create_billing = record { namespace = "default"; consumer_group = billing }

with_namespace-IsValid : IsValid with_namespace
unfolding do_command dispatch do_create_namespace find_namespace find_index
with_namespace-IsValid =
    (do_command-IsValid insertion empty_state with_namespace 1
      (some (Command.create_namespace (record { namespace = "default" }))) start-IsValid refl).0

do_create_orders :
    do_create_topic with_namespace create_orders ≡ some (record order_topic { index = 1 })
unfolding do_create_topic find_namespace find_index put_topic find_topic
do_create_orders = refl

order_topic-IsValid : IsValid order_topic
unfolding do_command dispatch do_create_topic find_namespace find_index put_topic find_topic
order_topic-IsValid =
    (do_command-IsValid insertion with_namespace order_topic 2
      (some (Command.create_topic create_orders)) with_namespace-IsValid refl).0

with_topics-IsValid : IsValid with_topics
unfolding do_command dispatch do_create_topic find_namespace find_index put_topic find_topic
with_topics-IsValid =
    (do_command-IsValid insertion order_topic with_topics 3
      (some (Command.create_topic create_mails)) order_topic-IsValid refl).0

do_create_billing :
    do_create_consumer_group with_topics create_billing ≡ some (record with_group { index = 3 })
unfolding do_create_consumer_group find_namespace find_index put_consumer_group find_consumer_group
do_create_billing = refl

with_group-IsValid : IsValid with_group
unfolding do_command dispatch do_create_consumer_group find_namespace find_index put_consumer_group
    find_consumer_group
with_group-IsValid =
    (do_command-IsValid insertion with_topics with_group 4
      (some (Command.create_consumer_group create_billing)) with_topics-IsValid refl).0

one_segment-IsValid : IsValid one_segment
unfolding do_command dispatch do_open_segment
one_segment-IsValid =
    (do_command-IsValid insertion with_group one_segment 5
      (some (Command.create_segment (segment 3 "orders"))) with_group-IsValid refl).0

do_second :
    do_command insertion one_segment 6 (some (Command.create_segment (segment 2 "mails")))
    ≡ some two_segments
unfolding do_command dispatch do_open_segment
do_second = refl

do_command-IsValid_example : IsValid two_segments × (two_segments.index ≡ 6)
do_command-IsValid_example =
    do_command-IsValid insertion one_segment two_segments 6
      (some (Command.create_segment (segment 2 "mails"))) one_segment-IsValid do_second

two_segments-IsValid : IsValid two_segments
two_segments-IsValid =
    (do_command-IsValid insertion one_segment two_segments 6
      (some (Command.create_segment (segment 2 "mails"))) one_segment-IsValid do_second).0

get_segment-find_example :
    (get_open_segment insertion two_segments 3
      ≡ find (λ (g : ClusterSegment). g.id == 3) two_segments.open_segments)
    × (get_closed_segment insertion two_segments 3
        ≡ find (λ (g : ClusterSegment). g.id == 3) two_segments.closed_segments)
    × (get_segment insertion two_segments 3
        ≡ (elim (find (λ (g : ClusterSegment). g.id == 3) two_segments.open_segments) [
          | none ↦ find (λ (g : ClusterSegment). g.id == 3) two_segments.closed_segments
          | some g ↦ some g
        ]))
get_segment-find_example = get_segment-find insertion two_segments 3 two_segments-IsValid

abbrev second_node : NodeUpdate
second_node = record {
  id = 2;
  address = "b:16000";
  state = NodeState.alive;
  last_seen_alive = none;
}

get_topic-do_create_topic_example :
    get_topic (record order_topic { index = 1 }) "default" "orders" ≡ (
      if str_eq "default" "default" && str_eq "orders" "orders"
      then some (topic "orders")
      else get_topic with_namespace "default" "orders")
get_topic-do_create_topic_example =
    get_topic-do_create_topic with_namespace (record order_topic { index = 1 }) create_orders
      "default" "orders" do_create_orders

get_consumer_group-do_create_consumer_group_example :
    get_consumer_group (record with_group { index = 3 }) "default" "billing" ≡ (
      if str_eq "default" "default" && str_eq "billing" "billing"
      then some (created (get_consumer_group with_topics "default" "billing") billing)
      else get_consumer_group with_topics "default" "billing")
get_consumer_group-do_create_consumer_group_example =
    get_consumer_group-do_create_consumer_group with_topics (record with_group { index = 3 })
      create_billing "default" "billing" do_create_billing

abbrev delete_orders : TopicDelete
delete_orders = record { namespace = "default"; name = "orders" }

-- The segment 3 of the topic and the group's binding go with it.
abbrev without_orders : ClusterState
without_orders = record two_segments {
  namespaces =
      record {
        name = "default";
        topics = topic "mails" ∷ [];
        consumer_groups = record billing { bindings = bound "mails" ∷ [] } ∷ [];
      }
      ∷ [];
  open_segments = opened (segment 2 "mails") ∷ [];
}

do_delete_orders : do_delete_topic insertion two_segments delete_orders ≡ some without_orders
unfolding do_delete_topic find_namespace find_index find_topic drop_topic
do_delete_orders = refl

orders_known : get_topic two_segments "default" "orders" ≡ some (topic "orders")
unfolding get_topic find_namespace find_index find_topic
orders_known = refl

do_delete_topic-unreferenced_example :
    (count_if (is_owned SegmentType.topic "default" "orders") without_orders.open_segments ≡ 0)
    × (count_if (is_owned SegmentType.topic "default" "orders") without_orders.closed_segments ≡ 0)
    × ((n : ClusterNamespace) × (find (by_name "default") without_orders.namespaces ≡ some n)
        × (any_consumer_group_references_topic n "orders" ≡ false))
do_delete_topic-unreferenced_example =
    do_delete_topic-unreferenced insertion two_segments without_orders delete_orders
      do_delete_orders (λ e. cc (e, orders_known))

get_topic-do_delete_topic_example : get_topic without_orders "default" "mails" ≡ (
    if str_eq "default" "default" && str_eq "orders" "mails"
    then none
    else get_topic two_segments "default" "mails")
get_topic-do_delete_topic_example =
    get_topic-do_delete_topic insertion two_segments without_orders delete_orders "default" "mails"
      (λ n f.
        (All-find NamespaceIsValid (by_name "default") two_segments.namespaces n
          two_segments-IsValid.parts f).topics)
      do_delete_orders
