-- ===== src/Reconcile/Closed.antt =====
-- `reconcileClosedSegments` of mq/reconciler_segments.go, at the time `now`.
use eventter.Base.{
  ℕ, suc, ◌+◌, Bool, false, ◌&&◌, not, List, [], ◌∷◌, ◌++◌, Option, none, some, ◌==◌, ltb,
  if◌then◌else◌, length, count_if, any, filter,
}
use eventter.Base.Int.{ℤ, pos, ltb_ℤ, ◌-ℤ◌}
use eventter.Cluster.Data.{
  ClusterState, ClusterSegment, ClusterNode, ClusterTopic, invalid, topic,
  consumer_group_offset_commits, Which,
}
use eventter.Cluster.Queries.{get_topic}
use eventter.Cluster.Store.{Command}
use eventter.Reconcile.Outcome.{
  is_alive, knows_all, alive_node_ids, Counts, start_counts, Outcome, panics, quiet, applies,
  for_each,
}
use eventter.Reconcile.Replicas.{is_in, add_replicas, keep_first}
use eventter.Reconcile.Open.{default_replication_factor, reconcile_open_segments}
use eventter.Base.{String}

abbrev pub delete_closed : ClusterSegment → Command
delete_closed g = Command.delete_segment (record { id = g.id; which = Which.closed_which })

-- The command that gives a closed segment its nodes.
abbrev pub closed_nodes : ClusterSegment → List ℕ → List ℕ → Command
closed_nodes g done replicating = Command.update_segment_nodes (record {
  id = g.id;
  which = Which.closed_which;
  nodes = record { primary_node_id = 0; done_node_ids = done; replicating_node_ids = replicating };
})

-- The loop over the done nodes: the first alive ones, `limit` at most, but one at least.
unfoldable pub first_done : (ℕ → Bool) → ℕ → ℕ → List ℕ → List ℕ
first_done alive limit k [] = []
first_done alive limit k (id ∷ ids) =
    let next = first_done alive limit (suc k) ids in
    let skipped = first_done alive limit k ids in
    if alive id then (if ltb (suc k) limit then id ∷ next else id ∷ []) else skipped

-- More alive replicas than are wanted.
unfoldable pub trim_closed : List ClusterNode → ClusterSegment → ℕ → Counts → Outcome
trim_closed ns g factor counts =
    let done = first_done (is_alive ns) factor 0 g.nodes.done_node_ids in
    let (kept, after) =
      keep_first (is_alive ns) factor (length done) g.nodes.replicating_node_ids counts in
    if ltb (length done) factor
    then applies (closed_nodes g done kept) after
    else applies (closed_nodes g done []) counts

abbrev pub is_closed_candidate : List ℕ → List ℕ → ℕ → Bool
is_closed_candidate done kept id = not (is_in done id) && not (is_in kept id)

-- Fewer alive replicas than are wanted.
unfoldable pub extend_closed : List ClusterNode → ClusterSegment → ℕ → Counts → List ℕ → Outcome
extend_closed ns g factor counts all =
    let done = filter (is_alive ns) g.nodes.done_node_ids in
    let kept = filter (is_alive ns) g.nodes.replicating_node_ids in
    let candidates = filter (is_closed_candidate done kept) all in
    let a = add_replicas (length candidates) (length done) factor counts candidates kept false in
    if a.added then applies (closed_nodes g done a.replicas) a.counts else quiet a.counts

-- The end of `reconcileClosedSegment`, from the counting of alive replicas on.
unfoldable pub balance_closed : List ClusterNode → ClusterSegment → ℕ → Counts → List ℕ → Outcome
unfolding trim_closed extend_closed
balance_closed ns g factor counts all =
    let alive_done = count_if (is_alive ns) g.nodes.done_node_ids in
    let alive_replicas = alive_done + count_if (is_alive ns) g.nodes.replicating_node_ids in
    if not (knows_all ns g.nodes.done_node_ids && knows_all ns g.nodes.replicating_node_ids)
    then panics
    else if ltb factor 1
    then panics
    else if ltb factor alive_replicas
    then (if alive_done == 0 then quiet counts else trim_closed ns g factor counts)
    else if ltb alive_replicas factor
    then (if alive_done == 0 then quiet counts else extend_closed ns g factor counts all)
    else quiet counts

-- Some consumer group has yet to read to the end of the segment.
unfoldable pub is_needed : ClusterState → ClusterSegment → Bool
is_needed s g =
    any
      (λ n.
        any (λ c. any (λ o. o.segment_id == g.id && ltb_ℤ o.offset g.size) c.offset_commits)
          n.consumer_groups)
      s.namespaces

-- `topic.Retention > 0` and `segment.ClosedAt.Before(now.Add(-topic.Retention))`
abbrev pub is_past_retention : ℤ → ClusterTopic → ClusterSegment → Bool
is_past_retention now t g = ltb_ℤ (pos 0) t.retention && ltb_ℤ g.closed_at (now -ℤ t.retention)

-- `reconcileClosedSegment`
unfoldable pub reconcile_closed_segment :
    ℤ → ClusterState → List ℕ → ClusterSegment → Counts → Outcome
unfolding balance_closed
reconcile_closed_segment now s all g counts = elim g.type [
  | invalid ↦ balance_closed s.nodes g default_replication_factor counts all
  | topic ↦ elim (get_topic s g.owner_namespace g.owner_name) [
    | none ↦ applies (delete_closed g) counts
    | some t ↦
        if is_past_retention now t g && not (is_needed s g)
        then applies (delete_closed g) counts
        else balance_closed s.nodes g t.replication_factor counts all
  ]
  | consumer_group_offset_commits ↦ applies (delete_closed g) counts
]

-- `reconcileClosedSegments`
unfoldable pub reconcile_closed_segments :
    ℤ → ClusterState → Counts → Option (List Command × Counts)
unfolding reconcile_closed_segment
reconcile_closed_segments now s counts =
    for_each (reconcile_closed_segment now s (alive_node_ids s.nodes)) s.closed_segments counts

-- `ReconcileSegments`: the commands that it applies.
unfoldable pub reconcile_segments :
    (ℕ → ℕ → String → Option ℤ) → ℤ → ClusterState → Option (List Command)
unfolding reconcile_open_segments reconcile_closed_segments
reconcile_segments size_of now s = elim (reconcile_open_segments size_of s (start_counts s)) [
  | none ↦ none
  | some (opens, counts) ↦ elim (reconcile_closed_segments now s counts) [
    | none ↦ none
    | some (closes, last) ↦ some (opens ++ closes)
  ]
]
