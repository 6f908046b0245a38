-- ===== src/Reconcile/Groups.antt =====
-- mq/reconciler_consumer_groups.go: the segment that a consumer group's commits go to, and the
-- offset commits that it has in the state of the cluster. Whether `Apply` goes through is an argument
-- where it matters. A consumer group comes with the namespace that it is in.
use eventter.Base.{
  ℕ, suc, ◌+◌, ◌-◌, ◌^◌, Bool, true, false, ◌&&◌, not, List, [], ◌∷◌, ◌++◌, Option, none, some,
  String, str_eq, ◌==◌, if◌then◌else◌, any, filter, map,
}
use eventter.Base.Int.{ℤ, pos, ltb_ℤ}
use eventter.Cluster.Data.{
  ClusterState, ClusterSegment, ClusterNode, ClusterNamespace, ClusterConsumerGroup, OffsetCommit,
  SegmentType,
}
use eventter.Cluster.Queries.{find_open_segments_for, same_type}
use eventter.Cluster.Store.{Command}
use eventter.Reconcile.Outcome.{is_up, Counts, bump, start_counts}

-- The loop over the nodes: the first alive one with the least count below `count`, with its count.
unfoldable pub least_loaded : Counts → List ClusterNode → ℕ → ℤ → ℕ
least_loaded counts [] id count = id
least_loaded counts (n ∷ ns) id count =
    if is_up n && ltb_ℤ (counts n.id) count
    then least_loaded counts ns n.id (counts n.id)
    else least_loaded counts ns id count

abbrev pub max_int32 : ℤ
max_int32 = pos (2 ^ 31 - 1)

-- The command that opens the segment, under the id that the delegate hands out.
abbrev pub create_offsets : String → String → ℕ → ℤ → ℕ → Command
create_offsets namespace name id now primary = Command.create_segment (record {
  id = id;
  type = SegmentType.consumer_group_offset_commits;
  owner_namespace = namespace;
  owner_name = name;
  generation = 0;
  shard = 0;
  opened_at = now;
  primary_node_id = primary;
  replicating_node_ids = [];
})

-- How `reconcileConsumerGroupOffsetCommitsSegment` ends.
pub data Opening : Type 0 where
  panics exists no_primary : Opening
  opens : Command → ℕ → Opening

unfoldable pub offsets_segment : ClusterState → String → String → Counts → ℕ → ℤ → Opening
offsets_segment s namespace name counts next_id now =
    elim (find_open_segments_for s SegmentType.consumer_group_offset_commits namespace name) [
      | [] ↦
          let primary = least_loaded counts s.nodes 0 max_int32 in
          if primary == 0
          then no_primary
          else opens (create_offsets namespace name next_id now primary) primary
      | g ∷ [] ↦ exists
      | g ∷ h ∷ gs ↦ panics
    ]

-- `boundTopicNames`, `m` and `n` as the tests that the code makes of them.
abbrev pub is_bound_to : ClusterConsumerGroup → String → Bool
is_bound_to c topic = any (λ b. str_eq b.topic_name topic) c.bindings

abbrev pub is_source : String → ClusterConsumerGroup → ClusterSegment → Bool
is_source namespace c g =
    same_type g.type SegmentType.topic
    && (str_eq g.owner_namespace namespace && is_bound_to c g.owner_name)

-- The segments that the loops come to, and their ids, the keys of `n`.
abbrev pub sources : ClusterState → String → ClusterConsumerGroup → List ClusterSegment
sources s namespace c = filter (is_source namespace c) (s.open_segments ++ s.closed_segments)

abbrev pub has_commit : List OffsetCommit → ℕ → Bool
has_commit commits id = any (λ o. o.segment_id == id) commits

abbrev pub has_segment : List ClusterSegment → ℕ → Bool
has_segment gs id = any (λ g. g.id == id) gs

-- `len` of a map with these keys.
unfoldable pub count_keys : List ℕ → ℕ
count_keys [] = 0
count_keys (k ∷ ks) = (if any (λ x. x == k) ks then 0 else 1) + count_keys ks

abbrev pub at_start : ClusterSegment → OffsetCommit
at_start g = record { segment_id = g.id; offset = pos 0 }

-- `newOffsetCommits`
abbrev pub new_commits : List OffsetCommit → List ClusterSegment → List OffsetCommit
new_commits commits gs = map at_start (filter (λ g. not (has_commit commits g.id)) gs)

abbrev pub is_nil : List OffsetCommit → Bool
is_nil [] = true
is_nil (o ∷ os) = false

-- The commits that `reconcileConsumerGroupOffsetCommits` sends, none if it returns before.
unfoldable pub offset_commits :
    ClusterState → String → ClusterConsumerGroup → Option (List OffsetCommit)
offset_commits s namespace c =
    let gs = sources s namespace c in
    let new = new_commits c.offset_commits gs in
    if is_nil new
      && count_keys (map (λ (o : OffsetCommit). o.segment_id) c.offset_commits)
        == count_keys (map (λ (g : ClusterSegment). g.id) gs)
    then none
    else some (filter (λ o. has_segment gs o.segment_id) c.offset_commits ++ new)

abbrev pub update_commits : String → ClusterConsumerGroup → List OffsetCommit → Command
update_commits namespace c commits =
    Command.update_consumer_group_offset_commits
      (record { namespace = namespace; name = c.name; offset_commits = commits })

-- The commands of one consumer group, and the counts behind them; a panic is `none`.
unfoldable pub reconcile_group :
    (Command → Bool)
    → ClusterState
    → String
    → ClusterConsumerGroup
    → ℕ
    → ℤ
    → Counts
    → Option (List Command × Counts)
unfolding offsets_segment offset_commits
reconcile_group goes_through s namespace c next_id now counts =
    let commits : List Command = elim (offset_commits s namespace c) [
      | none ↦ []
      | some os ↦ update_commits namespace c os ∷ []
    ] in
    elim (offsets_segment s namespace c.name counts next_id now) [
      | panics ↦ none
      | exists ↦ some (commits, counts)
      | no_primary ↦ some (commits, counts)
      | opens cmd primary ↦
          some (cmd ∷ commits, if goes_through cmd then bump counts primary else counts)
    ]

-- The consumer groups, with their namespaces, in the order of the loops.
unfoldable pub all_groups : List ClusterNamespace → List (String × ClusterConsumerGroup)
all_groups [] = []
all_groups (n ∷ ns) = map (λ c. (n.name, c)) n.consumer_groups ++ all_groups ns

-- The loops over them; `ids` are the ids that the delegate hands out, by the place of the group.
unfoldable pub each_group :
    (Command → Bool)
    → (ℕ → ℕ)
    → ClusterState
    → ℤ
    → List (String × ClusterConsumerGroup)
    → ℕ
    → Counts
    → Option (List Command)
unfolding reconcile_group
each_group goes_through ids s now [] k counts = some []
each_group goes_through ids s now ((namespace, c) ∷ cs) k counts =
    elim (reconcile_group goes_through s namespace c (ids k) now counts) [
      | none ↦ none
      | some (cmds, after) ↦ elim (each_group goes_through ids s now cs (suc k) after) [
        | none ↦ none
        | some more ↦ some (cmds ++ more)
      ]
    ]

-- `ReconcileConsumerGroups`
unfoldable pub reconcile_consumer_groups :
    (Command → Bool) → (ℕ → ℕ) → ClusterState → ℤ → Option (List Command)
unfolding all_groups each_group
reconcile_consumer_groups goes_through ids s now =
    each_group goes_through ids s now (all_groups s.namespaces) 0 (start_counts s)
