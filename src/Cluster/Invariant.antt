-- ===== src/Cluster/Invariant.antt =====
-- The well-formedness of the cluster's state, and that every command keeps it.
use eventter.Base.{ℕ, ◌≤◌, ◌≡◌, inl, inr, arith, not, List, [], ◌∷◌}
use eventter.Base.{some, String, ◌==◌, any, count_if, get_elem?, set, remove_at, Bool-cases, All}
use eventter.Base.Search.{All-set, All-remove_at, All-filter, All-get_elem?}
use eventter.Base.Ordered.{IsSorted, IsSorted-remove_at, IsSorted-filter, IsSorted-set, All-perm}
use eventter.Base.Named.{Unique}
use eventter.Cluster.Data.{
  ClusterState, ClusterNamespace, ClusterTopic, ClusterConsumerGroup, ClusterSegment, ClusterNode,
  empty_state,
}
use eventter.Cluster.Data.{SegmentType}
use eventter.Cluster.Sort.{SortLib}
use eventter.Cluster.Queries.{is_owned, search_segment}
use eventter.Cluster.Topics.{remove_owned}
use eventter.Cluster.Segments.{by_id}
use native.Mathlib.Bridge.{le_prop}

abbrev pub namespace_name : ClusterNamespace → String
namespace_name n = n.name

abbrev pub segment_id : ClusterSegment → ℕ
segment_id g = g.id

abbrev pub node_id : ClusterNode → ℕ
node_id n = n.id

-- No two topics of a namespace have one name, nor two of its consumer groups.
pub record NamespaceIsValid (n : ClusterNamespace) : Type 0 where
  pub topics : Unique (λ (t : ClusterTopic). t.name) n.topics
  pub groups : Unique (λ (g : ClusterConsumerGroup). g.name) n.consumer_groups

abbrev pub NodesUnique : List ClusterNode → Type 0
NodesUnique ns = (k : ℕ) → count_if (λ n. n.id == k) ns ≤ 1

-- Segments are sorted by id, as the binary searches need, and no id passes the counter.
abbrev pub SegmentsAreValid : ℕ → List ClusterSegment → Type 0
SegmentsAreValid current gs = IsSorted segment_id gs × All (λ g. g.id ≤ current) gs

pub record IsValid (s : ClusterState) : Type 0 where
  pub names : Unique namespace_name s.namespaces
  pub parts : All NamespaceIsValid s.namespaces
  pub open_valid : SegmentsAreValid s.current_segment_id s.open_segments
  pub closed_valid : SegmentsAreValid s.current_segment_id s.closed_segments
  pub nodes_sorted : IsSorted node_id s.nodes
  pub nodes_unique : NodesUnique s.nodes

pub start-IsValid : IsValid empty_state
start-IsValid = record {
  names = λ k. omega arith;
  parts = tt;
  open_valid = (tt, tt);
  closed_valid = (tt, tt);
  nodes_sorted = tt;
  nodes_unique = λ k. omega arith;
}

-- A change of the list of namespaces alone.
pub with_namespaces-IsValid :
    {s : ClusterState} (ns : List ClusterNamespace)
    → IsValid s
    → Unique namespace_name ns
    → All NamespaceIsValid ns
    → IsValid (record s { namespaces = ns })
with_namespaces-IsValid ns v names parts = record {
  names = names;
  parts = parts;
  open_valid = v.open_valid;
  closed_valid = v.closed_valid;
  nodes_sorted = v.nodes_sorted;
  nodes_unique = v.nodes_unique;
}

pub with_segments-IsValid :
    {s : ClusterState} (current : ℕ) (open_segments closed_segments : List ClusterSegment)
    → IsValid s
    → SegmentsAreValid current open_segments
    → SegmentsAreValid current closed_segments
    → IsValid (record s {
      current_segment_id = current;
      open_segments = open_segments;
      closed_segments = closed_segments;
    })
with_segments-IsValid current os cs v o c = record {
  names = v.names;
  parts = v.parts;
  open_valid = o;
  closed_valid = c;
  nodes_sorted = v.nodes_sorted;
  nodes_unique = v.nodes_unique;
}

pub remove_owned-Valid :
    (type : SegmentType) (namespace name : String) (current : ℕ) (gs : List ClusterSegment)
    → SegmentsAreValid current gs
    → SegmentsAreValid current (remove_owned type namespace name gs)
remove_owned-Valid type namespace name current gs h =
    elim (Bool-cases (any (is_owned type namespace name) gs)) [
      | inl e ↦ rw e (
        IsSorted-filter segment_id (λ g. not (is_owned type namespace name g)) gs h.0,
        All-filter (λ g. g.id ≤ current) (λ g. not (is_owned type namespace name g)) gs h.1,
      )
      | inr e ↦ rw e h
    ]

pub remove_at-Valid :
    (current i : ℕ) (gs : List ClusterSegment)
    → SegmentsAreValid current gs
    → SegmentsAreValid current (remove_at gs i)
remove_at-Valid current i gs h =
    (IsSorted-remove_at segment_id gs i h.0, All-remove_at (λ g. g.id ≤ current) gs i h.1)

pub set-Valid :
    (current i : ℕ) (g g' : ClusterSegment) (gs : List ClusterSegment)
    → get_elem? gs i ≡ some g
    → g'.id ≡ g.id
    → SegmentsAreValid current gs
    → SegmentsAreValid current (set gs i g')
set-Valid current i g g' gs e same h =
    let low : g.id ≤ current = All-get_elem? (λ x. x.id ≤ current) g gs i h.1 e in
    (
      IsSorted-set segment_id g' g gs i e same h.0,
      All-set (λ x. x.id ≤ current) g' gs i h.1 (omega arith),
    )

pub raise :
    (low high : ℕ) (gs : List ClusterSegment)
    → low ≤ high
    → SegmentsAreValid low gs
    → SegmentsAreValid high gs
raise low high gs h v = (v.0, bounds gs v.1)
  where
    bounds : (xs : List ClusterSegment) → All (λ g. g.id ≤ low) xs → All (λ g. g.id ≤ high) xs
    bounds = elim [ [] ↦ λ _. tt | x ∷ (xs → ih) ↦ λ a. (omega arith, ih a.1) ]

module _ (lib : SortLib) where
  pub by_id-Valid :
      (current : ℕ) (gs : List ClusterSegment)
      → All (λ g. g.id ≤ current) gs
      → SegmentsAreValid current (by_id lib gs)
  by_id-Valid current gs h = (
    lib.slice_sorts ClusterSegment segment_id gs,
    All-perm (λ g. g.id ≤ current) (λ g. le_prop) (lib.slice_keeps ClusterSegment segment_id gs) h,
  )

  -- What a binary search finds stands at the index that it gives.
  pub search_segment_at :
      (gs : List ClusterSegment) (id : ℕ) (g : ClusterSegment) (i : ℕ)
      → search_segment lib gs id ≡ some (g, i)
      → (get_elem? gs i ≡ some g) × (g.id ≡ id)
  unfolding search_segment
  search_segment_at gs id g i e = ground arith
