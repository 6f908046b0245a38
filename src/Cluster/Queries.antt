-- ===== src/Cluster/Queries.antt =====
-- mq/cluster_state_queries.go. `find_index` is the loop `for index, x := range xs { if x.Name ==
-- name { return x, index } }`, with `none` for `nil, -1`.
use eventter.Base.{ℕ, ◌+◌, Bool, true, false, ◌&&◌, List, [], ◌∷◌}
use eventter.Base.{
  Option, none, some, String, str_eq, if◌then◌else◌, ◌==◌, ltb, leb, any, find, filter, length,
  get_elem?,
}
use eventter.Base.Search.{find_index}
use eventter.Cluster.Data.{
  ClusterState, ClusterNamespace, ClusterTopic, ClusterConsumerGroup, ClusterSegment, SegmentType,
  invalid, topic, consumer_group_offset_commits, ClusterNode,
}
use eventter.Cluster.Sort.{SortLib}

unfoldable pub find_namespace : ClusterState → String → Option (ClusterNamespace × ℕ)
find_namespace s name = find_index (λ n. str_eq n.name name) s.namespaces

unfoldable pub find_topic : ClusterNamespace → String → Option (ClusterTopic × ℕ)
find_topic n name = find_index (λ t. str_eq t.name name) n.topics

unfoldable pub find_consumer_group : ClusterNamespace → String → Option (ClusterConsumerGroup × ℕ)
find_consumer_group n name = find_index (λ g. str_eq g.name name) n.consumer_groups

-- `none` is a nil slice of pointers, which the code does not tell from an empty one.
unfoldable pub list_topics : ClusterNamespace → String → List ClusterTopic
list_topics n topic_name =
    if str_eq topic_name ""
    then n.topics
    else elim (find_topic n topic_name) [ none ↦ [] | some (t, i) ↦ t ∷ [] ]

unfoldable pub list_consumer_groups : ClusterNamespace → String → List ClusterConsumerGroup
list_consumer_groups n name =
    if str_eq name ""
    then n.consumer_groups
    else elim (find_consumer_group n name) [ none ↦ [] | some (g, i) ↦ g ∷ [] ]

unfoldable pub any_consumer_group_references_topic : ClusterNamespace → String → Bool
any_consumer_group_references_topic n topic_name =
    any (λ g. any (λ b. str_eq b.topic_name topic_name) g.bindings) n.consumer_groups

unfoldable pub get_topic : ClusterState → String → String → Option ClusterTopic
get_topic s namespace_name topic_name = elim (find_namespace s namespace_name) [
  | none ↦ none
  | some (n, i) ↦ elim (find_topic n topic_name) [ none ↦ none | some (t, j) ↦ some t ]
]

unfoldable pub topic_exists : ClusterState → String → String → Bool
topic_exists s namespace_name topic_name = elim (find_namespace s namespace_name) [
  | none ↦ false
  | some (n, i) ↦ elim (find_topic n topic_name) [ none ↦ false | some (t, j) ↦ true ]
]

unfoldable pub get_consumer_group : ClusterState → String → String → Option ClusterConsumerGroup
get_consumer_group s namespace_name name = elim (find_namespace s namespace_name) [
  | none ↦ none
  | some (n, i) ↦ elim (find_consumer_group n name) [ none ↦ none | some (g, j) ↦ some g ]
]

unfoldable pub consumer_group_exists : ClusterState → String → String → Bool
consumer_group_exists s namespace_name name = elim (find_namespace s namespace_name) [
  | none ↦ false
  | some (n, i) ↦ elim (find_consumer_group n name) [ none ↦ false | some (g, j) ↦ true ]
]

-- `==` on the enum
abbrev pub same_type : SegmentType → SegmentType → Bool
same_type invalid invalid = true
same_type topic topic = true
same_type consumer_group_offset_commits consumer_group_offset_commits = true
same_type _ _ = false

-- `segment.Type == segmentType && segment.OwnerNamespace == namespaceName && segment.OwnerName == name`
abbrev pub is_owned : SegmentType → String → String → ClusterSegment → Bool
is_owned type namespace name segment =
    same_type segment.type type
    && str_eq segment.owner_namespace namespace
    && str_eq segment.owner_name name

unfoldable pub find_open_segments_for :
    ClusterState → SegmentType → String → String → List ClusterSegment
find_open_segments_for s type namespace name = filter (is_owned type namespace name) s.open_segments

unfoldable pub find_open_segments_in : ClusterState → ℕ → List ClusterSegment
find_open_segments_in s node_id =
    filter (λ segment. segment.nodes.primary_node_id == node_id) s.open_segments

unfoldable pub get_node : ClusterState → ℕ → Option ClusterNode
get_node s node_id = find (λ n. n.id == node_id) s.nodes

-- A map from node ids to counts, as a function; a missing key reads as 0.
abbrev pub count_id : ℕ → List ℕ → ℕ
count_id id [] = 0
count_id id (x ∷ xs) = (if x == id then 1 else 0) + count_id id xs

unfoldable pub count_segments_of : List ClusterSegment → ℕ → ℕ
count_segments_of [] id = 0
count_segments_of (g ∷ gs) id =
    (if ltb 0 g.nodes.primary_node_id && g.nodes.primary_node_id == id then 1 else 0)
    + count_id id g.nodes.replicating_node_ids
    + count_id id g.nodes.done_node_ids
    + count_segments_of gs id

unfoldable pub count_segments_per_node : ClusterState → ℕ → ℕ
unfolding count_segments_of
count_segments_per_node s id =
    count_segments_of s.open_segments id + count_segments_of s.closed_segments id

module _ (lib : SortLib) where
  -- `sort.Search(len(segments), func(i int) bool { return segments[i].ID >= id })`
  unfoldable pub segment_index : List ClusterSegment → ℕ → ℕ
  segment_index segments id =
      lib.search (length segments)
        (λ i. elim (get_elem? segments i) [ none ↦ true | some g ↦ leb id g.id ])

  -- The search and the test behind it: the segment with its index.
  unfoldable pub search_segment : List ClusterSegment → ℕ → Option (ClusterSegment × ℕ)
  unfolding segment_index
  search_segment segments id = elim (get_elem? segments (segment_index segments id)) [
    | none ↦ none
    | some g ↦ if g.id == id then some (g, segment_index segments id) else none
  ]

  unfoldable pub get_open_segment : ClusterState → ℕ → Option ClusterSegment
  get_open_segment s id = elim (search_segment s.open_segments id) [
    | none ↦ none
    | some (g, i) ↦ some g
  ]

  unfoldable pub get_closed_segment : ClusterState → ℕ → Option ClusterSegment
  get_closed_segment s id = elim (search_segment s.closed_segments id) [
    | none ↦ none
    | some (g, i) ↦ some g
  ]

  unfoldable pub get_segment : ClusterState → ℕ → Option ClusterSegment
  unfolding get_open_segment get_closed_segment
  get_segment s id = elim (get_open_segment s id) [
    | none ↦ elim (get_closed_segment s id) [ none ↦ none | some g ↦ some g ]
    | some g ↦ some g
  ]
