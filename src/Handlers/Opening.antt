-- ===== src/Handlers/Opening.antt =====
-- `txSegmentOpen` of mq/server_segment_create.go: the commands that it applies and its answer. The
-- numbers of shards, generations and replicas are uint32.
use eventter.Base.{
  ℕ, zero, suc, ◌+◌, ◌-◌, ◌%◌, ◌^◌, Bool, ◌&&◌, ◌||◌, not, List, [], ◌∷◌, ◌++◌, Option, none, some,
  String, str_eq, ◌==◌, ltb, leb, if◌then◌else◌, length, any, filter, find, map, get_elem?,
  remove_at,
}
use eventter.Base.Int.{ℤ, pos}
use eventter.Cluster.Data.{
  ClusterState, ClusterSegment, ClusterConsumerGroup, SegmentCreate, OffsetCommitsUpdate,
  SegmentType, invalid, topic, consumer_group_offset_commits,
}
use eventter.Cluster.Queries.{
  get_node, get_topic, get_consumer_group, find_open_segments_for, is_owned, find_namespace,
}
use eventter.Reconcile.Outcome.{Counts, alive_node_ids, start_counts}
use eventter.Reconcile.Replicas.{least_at}
use eventter.Reconcile.Open.{default_replication_factor}

-- `shards` and `replicationFactor`; none where the owner is not found.
unfoldable pub shards_and_factor : ClusterState → SegmentType → String → String → Option (ℕ × ℕ)
shards_and_factor s invalid namespace name = some (1, default_replication_factor)
shards_and_factor s topic namespace name = elim (get_topic s namespace name) [
  | none ↦ none
  | some t ↦ some (t.shards, t.replication_factor)
]
shards_and_factor s consumer_group_offset_commits namespace name =
    elim (get_consumer_group s namespace name) [
      | none ↦ none
      | some c ↦ some (1, default_replication_factor)
    ]

-- a) The loop over the owner's segments: the latest generation and the segments in it.
unfoldable pub latest : ℕ → List ClusterSegment → List ClusterSegment → ℕ × List ClusterSegment
latest generation members [] = (generation, members)
latest generation members (g ∷ gs) =
    if ltb generation g.generation
    then latest g.generation (g ∷ []) gs
    else (if g.generation == generation
        then latest generation (members ++ (g ∷ [])) gs
        else latest generation members gs)

-- b) `nodeFound`
abbrev pub has_node : ℕ → ClusterSegment → Bool
has_node primary g =
    g.nodes.primary_node_id == primary || any (λ id. id == primary) g.nodes.done_node_ids

-- The loop over the shards from `i` on, `fuel` of them; the shard is 1 if all are taken.
unfoldable pub free_shard : ℕ → ℕ → List ClusterSegment → ℕ
free_shard zero i members = 1
free_shard (suc fuel) i members =
    let rest = free_shard fuel (suc i) members in
    if any (λ g. g.shard == i) members then rest else i

-- The generation and the shard of the new segment.
unfoldable pub place : ℕ → ℕ → ℕ × List ClusterSegment → ℕ × ℕ
place shards primary (generation, members) =
    if ltb 0 shards && leb shards (length members)
    then ((generation + 1) % 2 ^ 32, 1)
    else (if any (has_node primary) members
        then ((generation + 1) % 2 ^ 32, 1)
        else (generation, free_shard shards 1 members))

-- c) The loop over the candidates; the fuel is their number, of which each round takes one.
unfoldable pub take_replicas : ℕ → ℕ → Counts → List ℕ → List ℕ → List ℕ
take_replicas zero limit counts candidates replicas = replicas
take_replicas (suc fuel) limit counts [] replicas = replicas
take_replicas (suc fuel) limit counts (c ∷ cs) replicas =
    let (i, id) = least_at counts cs 1 (0, c) in
    let rest = take_replicas fuel limit counts (remove_at (c ∷ cs) i) (replicas ++ (id ∷ [])) in
    if ltb (length replicas) limit then rest else replicas

abbrev pub candidate_ids : ClusterState → ℕ → List ℕ
candidate_ids s primary = filter (λ id. not (id == primary)) (alive_node_ids s.nodes)

unfoldable pub replica_ids : ClusterState → ℕ → ℕ → List ℕ
replica_ids s factor primary =
    let candidates = candidate_ids s primary in
    let chosen = take_replicas (length candidates) (factor - 1) (start_counts s) candidates [] in
    if ltb 1 factor then chosen else []

-- e) The groups that are bound to the topic, with a commit at the segment's start.
abbrev pub is_bound : String → ClusterConsumerGroup → Bool
is_bound name c = any (λ b. str_eq b.topic_name name) c.bindings

abbrev pub next_commits : ℕ → String → ClusterConsumerGroup → OffsetCommitsUpdate
next_commits segment_id namespace c = record {
  namespace = namespace;
  name = c.name;
  offset_commits = c.offset_commits ++ (record { segment_id = segment_id; offset = pos 0 } ∷ []);
}

unfoldable pub commits_of :
    ClusterState → SegmentType → String → String → ℕ → List OffsetCommitsUpdate
commits_of s invalid namespace name segment_id = []
commits_of s topic namespace name segment_id = elim (find_namespace s namespace) [
  | none ↦ []
  | some (n, i) ↦ map (next_commits segment_id n.name) (filter (is_bound name) n.consumer_groups)
]
commits_of s consumer_group_offset_commits namespace name segment_id = []

-- The answer: an error; a panic; the id and the primary of a segment that is open; or a new segment,
-- with the updates of offset commits behind it. An error of `Apply` ends the request at the segment,
-- and is logged at an update.
pub data Opened : Type 0 where
  node_not_found owner_not_found panics : Opened
  exists : ℕ → ℕ → Opened
  creates : SegmentCreate → List OffsetCommitsUpdate → Opened

-- `rand.Intn`
module _ (intn : ℕ → ℕ) where
  -- Behind the search for a segment that exists.
  unfoldable pub open_new :
      ClusterState → ℕ → SegmentType → String → String → ℕ → ℕ → ℕ → ℤ → Opened
  unfolding latest place replica_ids commits_of
  open_new s primary type namespace name shards factor next_id now =
      let owned = filter (is_owned type namespace name) (s.closed_segments ++ s.open_segments) in
      let (generation, shard) = place shards primary (latest 1 [] owned) in
      creates
        (record {
          id = next_id;
          type = type;
          owner_namespace = namespace;
          owner_name = name;
          generation = generation;
          shard = shard;
          opened_at = now;
          primary_node_id = primary;
          replicating_node_ids = replica_ids s factor primary;
        })
        (commits_of s type namespace name next_id)

  unfoldable pub open_for :
      ClusterState → ℕ → SegmentType → String → String → ℕ → ℕ → ℕ → ℤ → Opened
  unfolding open_new
  open_for s primary type namespace name shards factor next_id now =
      let opens = find_open_segments_for s type namespace name in
      elim (find (λ g. g.nodes.primary_node_id == primary) opens) [
        | some g ↦ exists g.id primary
        | none ↦
            if ltb 0 shards && leb shards (length opens)
            then elim (get_elem? opens (intn (length opens))) [
              | none ↦ panics
              | some g ↦ exists g.id g.nodes.primary_node_id
            ]
            else open_new s primary type namespace name shards factor next_id now
      ]

  -- `txSegmentOpen`, at the id that `NextSegmentID` gives.
  unfoldable pub segment_open : ClusterState → ℕ → SegmentType → String → String → ℕ → ℤ → Opened
  unfolding shards_and_factor open_for
  segment_open s primary type namespace name next_id now = elim (get_node s primary) [
    | none ↦ node_not_found
    | some n ↦ elim (shards_and_factor s type namespace name) [
      | none ↦ owner_not_found
      | some (shards, factor) ↦ open_for s primary type namespace name shards factor next_id now
    ]
  ]
