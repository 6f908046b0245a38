-- ===== src/Reconcile/Placement.antt =====
-- Where the reconciler places the segment that a consumer group's commits go to.
use eventter.Base.{ℕ, ◌≤◌, ◌≡◌, ◌⊎◌, true, false, ◌&&◌, List, String, ◌==◌, length, All, any}
use eventter.Base.Int.{ℤ, ltb_ℤ}
use eventter.Cluster.Data.{ClusterState, ClusterNode, SegmentType}
use eventter.Cluster.Queries.{find_open_segments_for}
use eventter.Reconcile.Outcome.{is_up, Counts}
use eventter.Reconcile.Groups.{
  max_int32, create_offsets, Opening, panics, exists, no_primary, opens,
}

-- The alive node with the least count below `count`, if there is one, and what there was before.
pub record IsLeastLoaded (counts : Counts) (ns : List ClusterNode) (id : ℕ) (count : ℤ) (found : ℕ)
    : Type 0 where
  pub level : ℤ
  pub source :
      ((found ≡ id) × (level ≡ count))
      ⊎ ((any (λ n. is_up n && n.id == found) ns ≡ true) × (counts found ≡ level))
  pub sunk : ltb_ℤ count level ≡ false
  pub least : All (λ n. (is_up n && ltb_ℤ (counts n.id) level) ≡ false) ns

-- By the number of open segments that the group has for its commits: with none, one is opened on an
-- alive node that no other alive node has fewer segments than, if a node is below the limit.
abbrev pub OpeningSpec : ClusterState → String → String → Counts → ℕ → ℤ → Opening → Type 0
OpeningSpec s namespace name counts next_id now panics =
    2 ≤ length (find_open_segments_for s SegmentType.consumer_group_offset_commits namespace name)
OpeningSpec s namespace name counts next_id now exists =
    length (find_open_segments_for s SegmentType.consumer_group_offset_commits namespace name) ≡ 1
OpeningSpec s namespace name counts next_id now no_primary =
    (length (find_open_segments_for s SegmentType.consumer_group_offset_commits namespace name) ≡ 0)
    × IsLeastLoaded counts s.nodes 0 max_int32 0
OpeningSpec s namespace name counts next_id now (opens cmd primary) =
    (length (find_open_segments_for s SegmentType.consumer_group_offset_commits namespace name) ≡ 0)
    × (cmd ≡ create_offsets namespace name next_id now primary)
    × (any (λ n. is_up n && n.id == primary) s.nodes ≡ true)
    × All (λ n. (is_up n && ltb_ℤ (counts n.id) (counts primary)) ≡ false) s.nodes
