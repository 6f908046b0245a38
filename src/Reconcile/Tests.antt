-- ===== src/Reconcile/Tests.antt =====
-- The theorems on the reconciler at a state of three nodes, one of them dead: an open segment with a
-- replica too few, one with a dead primary, and closed ones that are past their retention.
use eventter.Base.{◌⊎◌, ℕ, ◌≡◌, refl, arith, List, [], ◌∷◌, Option, none, some, String, true}
use eventter.Base.Int.{ℤ, pos}
use eventter.Cluster.Data.{
  ClusterState, ClusterTopic, ClusterConsumerGroup, ClusterSegment, ClusterNode, By, SegmentType,
  NodeState, SegmentNodes, SegmentNodesUpdate, Which,
}
use eventter.Cluster.Insertion.{insertion}
use eventter.Cluster.Invariant.{IsValid}
use eventter.Cluster.Queries.{
  get_node, get_topic, find_namespace, find_topic, count_segments_per_node,
}
use eventter.Base.Search.{find_index}
use eventter.Cluster.Store.{Command}
use eventter.Reconcile.Outcome.{
  bump, for_each, node_of, is_alive, knows_all, alive_node_ids, Counts, quiet,
}
use eventter.Reconcile.Replicas.{least_at, add_replicas}
use eventter.Reconcile.Open.{
  reconcile_open_segments, with_primary, with_dead_primary, best_replica, extend_open,
  with_alive_primary, reconcile_open_segment,
}
use eventter.Reconcile.Closed.{
  reconcile_closed_segments, is_needed, extend_closed, balance_closed, reconcile_closed_segment,
  reconcile_segments,
}
use eventter.Reconcile.Groups.{offset_commits}
use eventter.Reconcile.Members.{Member, reconcile_nodes}
use eventter.Reconcile.Commits.{commit_at, commits_after, offset_commits-commits_after}
use eventter.Reconcile.Wanted.{ReadAt, commits_after-ReadAt}
use eventter.Reconcile.Membership.{apply_updates, MemberSpec, reconcile_nodes-MemberSpec}
use eventter.Reconcile.OpenSettled.{with_alive_primary-settled}
use eventter.Reconcile.ClosedSettled.{balance_closed-settled}
use eventter.Reconcile.Retention.{ClosedOutcome, reconcile_closed_segment-ClosedOutcome}
use eventter.Reconcile.Upkeep.{OpenOutcome, reconcile_open_segment-OpenOutcome}
use eventter.Reconcile.Completion.{completes, reconcile_segments-completes}

abbrev orders : ClusterTopic
orders = record {
  name = "orders";
  shards = 1;
  replication_factor = 2;
  retention = pos 5;
  default_exchange_type = "topic";
}

-- Behind segment 2 by four bytes; segment 9 does not exist.
abbrev billing : ClusterConsumerGroup
billing = record {
  name = "billing";
  bindings =
      record { topic_name = "orders"; exchange_type = "topic"; by = By.routing_key "#" } ∷ [];
  size = 4;
  since = pos 0;
  offset_commits =
      record { segment_id = 2; offset = pos 3 } ∷ record { segment_id = 9; offset = pos 1 } ∷ [];
}

abbrev node : ℕ → String → NodeState → ClusterNode
node id address state = record { id = id; address = address; state = state; last_seen_alive = none }

abbrev segment : ℕ → String → ℤ → SegmentNodes → ClusterSegment
segment id owner closed_at nodes = record {
  id = id;
  type = SegmentType.topic;
  owner_namespace = "default";
  owner_name = owner;
  generation = 1;
  shard = 0;
  created_at = pos 0;
  closed_at = closed_at;
  nodes = nodes;
  size = pos 7;
  sha1 = [];
}

abbrev held_by : ℕ → List ℕ → List ℕ → SegmentNodes
held_by primary done replicating = record {
  primary_node_id = primary;
  done_node_ids = done;
  replicating_node_ids = replicating;
}

abbrev lacking : ClusterSegment
lacking = segment 4 "orders" (pos 0) (held_by 1 [] (3 ∷ []))

abbrev orphaned : ClusterSegment
orphaned = segment 5 "orders" (pos 0) (held_by 3 [] (1 ∷ 2 ∷ []))

-- One done node is alive.
abbrev needed : ClusterSegment
needed = segment 2 "orders" (pos 10) (held_by 0 (1 ∷ 3 ∷ []) [])

abbrev old : ClusterSegment
old = segment 3 "orders" (pos 10) (held_by 0 (1 ∷ []) [])

abbrev cluster : ClusterState
cluster = record {
  index = 9;
  current_segment_id = 5;
  namespaces =
      record { name = "default"; topics = orders ∷ []; consumer_groups = billing ∷ [] } ∷ [];
  open_segments = lacking ∷ orphaned ∷ [];
  closed_segments = needed ∷ old ∷ [];
  nodes =
      node 1 "a:1" NodeState.alive
      ∷ node 2 "b:1" NodeState.alive
      ∷ node 3 "c:1" NodeState.dead
      ∷ [];
}

cluster-IsValid : IsValid cluster
cluster-IsValid = record {
  names = λ k. ground arith;
  parts = (record { topics = λ k. ground arith; groups = λ k. ground arith }, tt);
  open_valid = ground arith;
  closed_valid = ground arith;
  nodes_sorted = ground arith;
  nodes_unique = λ k. ground arith;
}

-- The size of a segment is the number of the node.
abbrev by_number : ℕ → ℕ → String → Option ℤ
by_number segment_id node_id address = some (pos node_id)

abbrev no_counts : Counts
no_counts id = pos 0

-- Node 2 is added to the segment, of which node 3 does not count.
abbrev grown : SegmentNodesUpdate
grown = record { id = 4; which = Which.open_which; nodes = held_by 1 [] (2 ∷ []) }

with_alive_primary-settled_example :
    with_alive_primary cluster.nodes
      (record lacking { nodes = grown.nodes })
      2
      (bump no_counts 2)
      (1 ∷ 2 ∷ [])
    ≡ quiet (bump no_counts 2)
unfolding with_alive_primary extend_open add_replicas least_at is_alive node_of knows_all
with_alive_primary-settled_example =
    with_alive_primary-settled cluster.nodes lacking 2 no_counts (bump no_counts 2) (1 ∷ 2 ∷ [])
      grown (refl, (refl, tt)) refl

-- Node 2 is to copy the closed segment from node 1.
abbrev copied : SegmentNodesUpdate
copied = record { id = 2; which = Which.closed_which; nodes = held_by 0 (1 ∷ []) (2 ∷ []) }

balance_closed-settled_example :
    balance_closed cluster.nodes
      (record needed { nodes = copied.nodes })
      2
      (bump no_counts 2)
      (1 ∷ 2 ∷ [])
    ≡ quiet (bump no_counts 2)
unfolding balance_closed extend_closed add_replicas least_at is_alive node_of knows_all
balance_closed-settled_example =
    balance_closed-settled cluster.nodes needed 2 no_counts (bump no_counts 2) (1 ∷ 2 ∷ []) copied
      (refl, (refl, tt)) refl

reconcile_closed_segment-ClosedOutcome_example :
    ClosedOutcome
      (pos 20)
      cluster
      old
      (reconcile_closed_segment (pos 20) cluster (alive_node_ids cluster.nodes) old no_counts)
reconcile_closed_segment-ClosedOutcome_example =
    reconcile_closed_segment-ClosedOutcome (pos 20) cluster old no_counts cluster-IsValid

reconcile_open_segment-OpenOutcome_example :
    OpenOutcome by_number cluster orphaned
      (reconcile_open_segment by_number cluster (alive_node_ids cluster.nodes) orphaned no_counts)
reconcile_open_segment-OpenOutcome_example =
    reconcile_open_segment-OpenOutcome by_number cluster orphaned no_counts cluster-IsValid

reconcile_segments-completes_example :
    completes (reconcile_segments by_number (pos 20) cluster) ≡ true
unfolding knows_all node_of get_topic find_namespace find_topic find_index
reconcile_segments-completes_example =
    reconcile_segments-completes by_number (pos 20) cluster cluster-IsValid (refl, (refl, tt))
      (refl, (refl, tt))

commits_after-ReadAt_example :
    (ReadAt cluster "default" billing 4
      × (commit_at (commits_after cluster "default" billing) 4
          ≡ some (record { segment_id = 4; offset = pos 0 })))
    ⊎ ((ReadAt cluster "default" billing 4 → ⊥)
        × (commit_at (commits_after cluster "default" billing) 4 ≡ none))
commits_after-ReadAt_example = commits_after-ReadAt cluster "default" billing 4

offset_commits-commits_after_example :
    offset_commits cluster "default"
      (record billing { offset_commits = commits_after cluster "default" billing })
    ≡ none
offset_commits-commits_after_example = offset_commits-commits_after cluster "default" billing

-- Node 3 is back, under another address, and node 2 has gone.
abbrev members : List Member
members = record { id = 1; address = "a:1" } ∷ record { id = 3; address = "c:2" } ∷ []

reconcile_nodes-MemberSpec_example :
    MemberSpec
      (some (record { id = 3; address = "c:2" }))
      (get_node (apply_updates insertion cluster (reconcile_nodes (pos 40) members cluster)) 3)
reconcile_nodes-MemberSpec_example =
    reconcile_nodes-MemberSpec insertion (pos 40) members cluster 3 cluster-IsValid (ground arith)

-- What a pass over the segments applies: a replica for the first, a new primary for the second, a
-- copy of the third; the last is past its retention, and read.
reconcile_segments-cluster :
    reconcile_segments by_number (pos 20) cluster
    ≡ some (
        Command.update_segment_nodes grown
        ∷ Command.update_segment_nodes
            (record { id = 5; which = Which.open_which; nodes = held_by 2 [] (1 ∷ []) })
        ∷ Command.update_segment_nodes copied
        ∷ Command.delete_segment (record { id = 3; which = Which.closed_which })
        ∷ [])
unfolding reconcile_segments reconcile_open_segments reconcile_closed_segments
    reconcile_open_segment reconcile_closed_segment for_each with_primary with_alive_primary
    with_dead_primary best_replica extend_open balance_closed extend_closed add_replicas least_at
    is_alive node_of knows_all is_needed get_topic find_namespace find_topic find_index
    count_segments_per_node
reconcile_segments-cluster = refl
