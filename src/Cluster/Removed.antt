-- ===== src/Cluster/Removed.antt =====
-- Deleting topics and consumer groups, and new offset commits, keep a state well formed.
use eventter.Base.{ℕ, ◌≡◌, refl, subst, inl, inr, arith, List}
use eventter.Base.{some, String, set, remove_at, Bool-cases}
use eventter.Base.Named.{Unique-set, Unique-remove_at}
use eventter.Cluster.Data.{
  ClusterState, ClusterNamespace, ClusterTopic, ClusterConsumerGroup, ClusterSegment, OffsetCommit,
  SegmentType,
}
use eventter.Cluster.Data.{TopicDelete, ConsumerGroupDelete, OffsetCommitsUpdate}
use eventter.Cluster.Sort.{SortLib}
use eventter.Cluster.Queries.{find_topic, find_consumer_group}
use eventter.Cluster.Topics.{remove_owned, drop_topic, do_delete_topic, is_changed, without_topic}
use eventter.Cluster.Groups.{do_delete_consumer_group, do_update_offset_commits}
use eventter.Cluster.Lookup.{topic_named, group_named, find_namespace-cases}
use eventter.Cluster.Deleted.{drop_topic-name}
use eventter.Base.{any, Option-cases}
use eventter.Base.Counting.{count_if-map}
use eventter.Cluster.Invariant.{
  IsValid, NamespaceIsValid, SegmentsAreValid, with_segments-IsValid, remove_owned-Valid,
}
use eventter.Cluster.Preserved.{change-IsValid}

-- Namespaces and both lists of segments changed at once.
with_parts-IsValid :
    (s : ClusterState) (ns : List ClusterNamespace) (os cs : List ClusterSegment)
    → IsValid (record s { namespaces = ns })
    → SegmentsAreValid s.current_segment_id os
    → SegmentsAreValid s.current_segment_id cs
    → IsValid (record s { namespaces = ns; open_segments = os; closed_segments = cs })
with_parts-IsValid s ns os cs v o c = with_segments-IsValid s.current_segment_id os cs v o c

module _ (lib : SortLib) where
  drop_topic-Valid :
      (s : ClusterState) (cmd : TopicDelete) (n : ClusterNamespace) (t : ClusterTopic) (j : ℕ)
      → find_topic n cmd.name ≡ some (t, j)
      → NamespaceIsValid n
      → NamespaceIsValid (drop_topic lib s cmd n j)
  unfolding drop_topic find_topic
  drop_topic-Valid s cmd n t j e v = record {
    topics =
        Unique-remove_at (λ (x : ClusterTopic). x.name) (topic_named cmd.name) t j n.topics e
          v.topics;
    groups = λ k. elim (Bool-cases (any (is_changed lib s cmd) n.consumer_groups)) [
      | inl a ↦
          rw
            (
              a,
              count_if-map (group_named k) (without_topic lib s cmd) (same_name k)
                  n.consumer_groups,
            )
            (v.groups k)
      | inr a ↦ rw a (v.groups k)
    ];
  }
    where
      same_name :
          (k : String) (g : ClusterConsumerGroup)
          → group_named k (without_topic lib s cmd g) ≡ group_named k g
      same_name k g = elim (Bool-cases (is_changed lib s cmd g)) [ inl a ↦ rw a | inr a ↦ rw a ]

  pub delete_topic-IsValid :
      (s s' : ClusterState) (cmd : TopicDelete)
      → IsValid s
      → do_delete_topic lib s cmd ≡ some s'
      → IsValid s'
  unfolding do_delete_topic
  delete_topic-IsValid s s' cmd v e = elim (find_namespace-cases s cmd.namespace) [
    | inl f ↦ ground arith
    | inr (n, i, f, _) ↦ elim (Option-cases (find_topic n cmd.name)) [
      | inl gone ↦ let now : s ≡ s' = ground arith in subst IsValid now v
      | inr ((t, j), found) ↦
          let n' = drop_topic lib s cmd n j in
          let now : record s {
            namespaces = set s.namespaces i n';
            open_segments = remove_owned SegmentType.topic cmd.namespace cmd.name s.open_segments;
            closed_segments =
                remove_owned SegmentType.topic cmd.namespace cmd.name s.closed_segments;
          }
              ≡ s' =
            ground arith in
          subst IsValid now (
            with_parts-IsValid s _ _ _
              (change-IsValid s cmd.namespace n n' i v f (drop_topic-name lib s cmd n j)
                (drop_topic-Valid s cmd n t j found))
              (remove_owned-Valid SegmentType.topic cmd.namespace cmd.name _ s.open_segments
                v.open_valid)
              (remove_owned-Valid SegmentType.topic cmd.namespace cmd.name _ s.closed_segments
                v.closed_valid))
    ]
  ]

  pub delete_consumer_group-IsValid :
      (s s' : ClusterState) (cmd : ConsumerGroupDelete)
      → IsValid s
      → do_delete_consumer_group s cmd ≡ some s'
      → IsValid s'
  unfolding do_delete_consumer_group
  delete_consumer_group-IsValid s s' cmd v e = elim (find_namespace-cases s cmd.namespace) [
    | inl f ↦ ground arith
    | inr (n, i, f, _) ↦ elim (Option-cases (find_consumer_group n cmd.name)) [
      | inl gone ↦ let now : s ≡ s' = ground arith in subst IsValid now v
      | inr ((g, j), found) ↦
          let n' : ClusterNamespace = record n {
            consumer_groups = remove_at n.consumer_groups j;
          } in
          let ty = SegmentType.consumer_group_offset_commits in
          let now : record s {
            namespaces = set s.namespaces i n';
            open_segments = remove_owned ty cmd.namespace cmd.name s.open_segments;
            closed_segments = remove_owned ty cmd.namespace cmd.name s.closed_segments;
          }
              ≡ s' =
            ground arith in
          subst IsValid now (
            with_parts-IsValid s _ _ _
              (change-IsValid s cmd.namespace n n' i v f refl (λ w. record {
                topics = w.topics;
                groups =
                    Unique-remove_at (λ (x : ClusterConsumerGroup). x.name) (group_named cmd.name) g
                      j n.consumer_groups (unfold find_consumer_group in found) w.groups;
              }))
              (remove_owned-Valid ty cmd.namespace cmd.name _ s.open_segments v.open_valid)
              (remove_owned-Valid ty cmd.namespace cmd.name _ s.closed_segments v.closed_valid))
    ]
  ]

  pub update_offset_commits-IsValid :
      (s s' : ClusterState) (cmd : OffsetCommitsUpdate)
      → IsValid s
      → do_update_offset_commits lib s cmd ≡ some s'
      → IsValid s'
  unfolding do_update_offset_commits
  update_offset_commits-IsValid s s' cmd v e = elim (find_namespace-cases s cmd.namespace) [
    | inl f ↦ ground arith
    | inr (n, i, f, _) ↦ elim (Option-cases (find_consumer_group n cmd.name)) [
      | inl gone ↦ let now : s ≡ s' = ground arith in subst IsValid now v
      | inr ((g, j), found) ↦
          let g' : ClusterConsumerGroup = record g {
            offset_commits = lib.slice OffsetCommit (λ c. c.segment_id) cmd.offset_commits;
          } in
          let n' : ClusterNamespace = record n { consumer_groups = set n.consumer_groups j g' } in
          let now : record s { namespaces = set s.namespaces i n' } ≡ s' = ground arith in
          subst IsValid now (
            change-IsValid s cmd.namespace n n' i v f refl (λ w. record {
              topics = w.topics;
              groups =
                  Unique-set (λ (x : ClusterConsumerGroup). x.name) (group_named cmd.name) g g' j
                    n.consumer_groups (unfold find_consumer_group in found) refl w.groups;
            }))
    ]
  ]
