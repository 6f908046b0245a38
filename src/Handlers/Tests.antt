-- ===== src/Handlers/Tests.antt =====
-- The theorems on the handlers at a state of three nodes and a topic of two shards, one of them taken.
use eventter.Base.{ℕ, ◌-◌, ◌<◌, ◌≡◌, ◌≢◌, refl, arith, List, [], ◌∷◌, Bool, false, none, ◌==◌}
use eventter.Base.Int.{ℤ, pos}
use eventter.Base.Search.{find_index}
use eventter.Cluster.Data.{
  ClusterState, ClusterTopic, ClusterConsumerGroup, ClusterSegment, ClusterNode, Binding, By,
  SegmentType, NodeState, SegmentNodes, SegmentCreate, OffsetCommitsUpdate, ConsumerGroupCreate,
}
use eventter.Cluster.Insertion.{insertion}
use eventter.Cluster.Invariant.{IsValid}
use eventter.Cluster.Queries.{
  get_node, get_topic, find_namespace, find_topic, find_consumer_group, find_open_segments_for,
  count_segments_per_node, get_closed_segment, search_segment, segment_index,
}
use eventter.Cluster.Segments.{do_open_segment}
use eventter.Cluster.Store.{Command}
use eventter.Match.Messages.{Published, message_matches}
use eventter.Reconcile.Replicas.{least_at}
use eventter.Handlers.Opening.{
  shards_and_factor, latest, place, free_shard, take_replicas, replica_ids, commits_of, creates,
  open_new, open_for, segment_open,
}
use eventter.Handlers.Replication.{Replicas, replica_ids-Replicas}
use eventter.Handlers.Places.{PlacesUnique, segment_open-PlacesUnique}
use eventter.Handlers.Closing.{CloseRequest, ReplicaClosing, segment_replica_close}
use eventter.Handlers.Copies.{ReplicaSpec, segment_replica_close-ReplicaSpec}
use eventter.Handlers.Requests.{bind_by, bind_all, create_consumer_group, delete_consumer_group}
use eventter.Handlers.Effects.{deletes_group, answer-Effect}
use eventter.Handlers.Running.{Effect}
use eventter.Handlers.Bound.{create_consumer_group-message_matches}

abbrev orders : ClusterTopic
orders = record {
  name = "orders";
  shards = 2;
  replication_factor = 2;
  retention = pos 0;
  default_exchange_type = "topic";
}

abbrev bound : Binding
bound = record { topic_name = "orders"; exchange_type = "topic"; by = By.routing_key "#" }

abbrev billing : ClusterConsumerGroup
billing = record {
  name = "billing";
  bindings = bound ∷ [];
  size = 4;
  since = pos 0;
  offset_commits = [];
}

abbrev node : ℕ → NodeState → ClusterNode
node id state = record { id = id; address = "a:1"; state = state; last_seen_alive = none }

abbrev segment : ℕ → ℕ → SegmentNodes → ClusterSegment
segment id shard nodes = record {
  id = id;
  type = SegmentType.topic;
  owner_namespace = "default";
  owner_name = "orders";
  generation = 1;
  shard = shard;
  created_at = pos 0;
  closed_at = pos 0;
  nodes = nodes;
  size = pos 7;
  sha1 = 5 ∷ [];
}

abbrev held_by : ℕ → List ℕ → List ℕ → SegmentNodes
held_by primary done replicating = record {
  primary_node_id = primary;
  done_node_ids = done;
  replicating_node_ids = replicating;
}

-- Node 1 has closed its segment, which node 2 is copying.
abbrev written : ClusterSegment
written = segment 4 1 (held_by 0 (1 ∷ []) (2 ∷ []))

abbrev cluster : ClusterState
cluster = record {
  index = 9;
  current_segment_id = 4;
  namespaces =
      record { name = "default"; topics = orders ∷ []; consumer_groups = billing ∷ [] } ∷ [];
  open_segments = [];
  closed_segments = written ∷ [];
  nodes = node 1 NodeState.alive ∷ node 2 NodeState.alive ∷ node 3 NodeState.dead ∷ [];
}

cluster-IsValid : IsValid cluster
cluster-IsValid = record {
  names = λ k. ground arith;
  parts = (record { topics = λ k. ground arith; groups = λ k. ground arith }, tt);
  open_valid = ground arith;
  closed_valid = ground arith;
  nodes_sorted = ground arith;
  nodes_unique = λ k. ground arith;
}

abbrev last : ℕ → ℕ
last n = n - 1

last_lt : (n : ℕ) → 0 < n → last n < n
last_lt n h = omega arith

-- Node 2 gets the second shard, with a replica on node 1.
abbrev second : SegmentCreate
second = record {
  id = 5;
  type = SegmentType.topic;
  owner_namespace = "default";
  owner_name = "orders";
  generation = 1;
  shard = 2;
  opened_at = pos 8;
  primary_node_id = 2;
  replicating_node_ids = 1 ∷ [];
}

abbrev updates : List OffsetCommitsUpdate
updates =
    record {
      namespace = "default";
      name = "billing";
      offset_commits = record { segment_id = 5; offset = pos 0 } ∷ [];
    }
    ∷ []

opens_second :
    segment_open last cluster 2 SegmentType.topic "default" "orders" 5 (pos 8)
    ≡ creates second updates
unfolding segment_open shards_and_factor open_for open_new latest place free_shard take_replicas
    replica_ids commits_of get_node get_topic find_namespace find_topic find_index
    find_open_segments_for count_segments_per_node least_at
opens_second = refl

-- Node 1 has a segment in the generation already.
abbrev third : SegmentCreate
third = record second {
  generation = 2;
  shard = 1;
  primary_node_id = 1;
  replicating_node_ids = 2 ∷ [];
}

abbrev closing : CloseRequest
closing = record { node_id = 1; segment_id = 4; size = pos 7; sha1 = 5 ∷ []; commits = none }

cluster-PlacesUnique : PlacesUnique cluster SegmentType.topic "default" "orders"
cluster-PlacesUnique generation shard = ground arith

segment_open-PlacesUnique_example :
    PlacesUnique (do_open_segment insertion cluster second) SegmentType.topic "default" "orders"
unfolding shards_and_factor get_topic find_namespace find_topic find_index
segment_open-PlacesUnique_example =
    segment_open-PlacesUnique insertion last last_lt cluster 2 SegmentType.topic "default" "orders"
      5 (pos 8) 2 2 second updates cluster-IsValid (ground arith) refl (ground arith)
      cluster-PlacesUnique opens_second

replica_ids-Replicas_example : Replicas cluster 2 1 (replica_ids cluster 2 1)
replica_ids-Replicas_example = replica_ids-Replicas cluster 2 1 cluster-IsValid

-- Node 2 has copied the segment.
abbrev copied : CloseRequest
copied = record closing { node_id = 2 }

segment_replica_close-ReplicaSpec_example :
    ReplicaSpec insertion cluster copied (segment_replica_close insertion cluster copied)
segment_replica_close-ReplicaSpec_example =
    segment_replica_close-ReplicaSpec insertion cluster copied

-- Closed a second time, when no node is getting the segment any more.
abbrev copied_before : ClusterState
copied_before = record cluster { closed_segments = segment 4 1 (held_by 0 (1 ∷ 2 ∷ []) []) ∷ [] }

segment_replica_close-panics :
    segment_replica_close insertion copied_before copied ≡ ReplicaClosing.panics
unfolding segment_replica_close get_closed_segment search_segment segment_index
segment_replica_close-panics = refl

abbrev is_zero : ℤ → Bool
is_zero (pos n) = n == 0
is_zero t = false

answer-Effect_example :
    Effect insertion cluster
      (Command.delete_consumer_group (record { namespace = "default"; name = "billing" }) ∷ [])
unfolding delete_consumer_group find_namespace find_consumer_group find_index find_open_segments_for
answer-Effect_example =
    answer-Effect insertion is_zero 100 (pos 8) cluster (deletes_group "default" "billing")
      (Command.delete_consumer_group (record { namespace = "default"; name = "billing" }) ∷ [])
      cluster-IsValid refl

-- The group is created again, and keeps its time.
abbrev made : ConsumerGroupCreate
made = record { namespace = "default"; consumer_group = billing }

abbrev published : Published
published = record { routing_key = "a.b"; headers = none }

create_consumer_group-message_matches_example :
    message_matches (λ a b. a == b) published (pos 8) "orders" billing ≢ none
unfolding create_consumer_group bind_all bind_by get_topic find_namespace find_topic
    find_consumer_group find_index
create_consumer_group-message_matches_example =
    create_consumer_group-message_matches is_zero 100 (pos 9) cluster "default" billing made
      (λ a b. a == b) published (pos 8) "orders" refl
