-- ===== src/Reconcile/Upkeep.antt =====
-- How the reconciler leaves an open segment of a valid state, and when it deletes it.
use eventter.Base.{
  ℕ, ◌≡◌, refl, ap, sym, subst, ◌∙◌, ◌⊎◌, inl, inr, true, false, Option, some, none, String,
  Option-cases,
}
use eventter.Base.Int.{ℤ}
use eventter.Cluster.Data.{
  ClusterState, ClusterSegment, Which, SegmentType, invalid, topic, consumer_group_offset_commits,
}
use eventter.Cluster.Invariant.{IsValid}
use eventter.Cluster.Queries.{get_topic, get_consumer_group}
use eventter.Cluster.Store.{Command}
use eventter.Reconcile.Outcome.{
  node_of, is_alive, knows, alive_node_ids, Counts, Outcome, panics, quiet, applies,
}
use eventter.Reconcile.Open.{
  default_replication_factor, delete_open, with_primary, with_alive_primary, with_dead_primary,
  reconcile_open_segment,
}
use eventter.Reconcile.OpenBalance.{OpenSpec}
use eventter.Reconcile.OpenSettled.{alive_node_ids-alive, with_alive_primary-OpenSpec}
use eventter.Reconcile.Largest.{NodeState-cases}
use eventter.Reconcile.Promoted.{PromotedSpec, with_dead_primary-PromotedSpec}

-- The number of nodes that are to have the segment, none where its owner does not exist.
abbrev pub open_factor : ClusterState → ClusterSegment → SegmentType → Option ℕ
open_factor s g invalid = some default_replication_factor
open_factor s g topic = elim (get_topic s g.owner_namespace g.owner_name) [
  | none ↦ none
  | some t ↦ some t.replication_factor
]
open_factor s g consumer_group_offset_commits =
    elim (get_consumer_group s g.owner_namespace g.owner_name) [
      | none ↦ none
      | some c ↦ some default_replication_factor
    ]

module _ (size_of : ℕ → ℕ → String → Option ℤ) where
  -- By what the state says of the primary: it has no such node, an alive or a dead one.
  abbrev pub OpenEnds : ClusterState → ClusterSegment → ℕ → Outcome → Type 0
  OpenEnds s g factor o =
      (knows s.nodes g.nodes.primary_node_id ≡ false) × (o ≡ panics)
      ⊎ (is_alive s.nodes g.nodes.primary_node_id ≡ true)
        × OpenSpec s.nodes g factor (alive_node_ids s.nodes) o
      ⊎ (is_alive s.nodes g.nodes.primary_node_id ≡ false) × PromotedSpec size_of s.nodes g.id g o

  pub record Keeps (s : ClusterState) (g : ClusterSegment) (o : Outcome) : Type 0 where
    pub factor : ℕ
    pub wanted : open_factor s g g.type ≡ some factor
    pub ends : OpenEnds s g factor o

  abbrev pub OpenOutcome : ClusterState → ClusterSegment → Outcome → Type 0
  OpenOutcome s g (applies (Command.delete_segment d) counts) =
      (d.id ≡ g.id) × (d.which ≡ Which.open_which) × (open_factor s g g.type ≡ none)
  OpenOutcome s g o = Keeps s g o

  -- Neither balancing a segment nor promoting a replica deletes it.
  kept : (s : ClusterState) (g : ClusterSegment) (o : Outcome) → Keeps s g o → OpenOutcome s g o
  kept s g panics k = k
  kept s g (quiet counts) k = k
  kept s g (applies (Command.delete_segment d) counts) k = elim k.ends [
    | inl (_, e) ↦ cc
    | inr (inl (_, b)) ↦ absurd b
    | inr (inr (_, b)) ↦ absurd b
  ]
  kept s g (applies cmd counts) k = k

  with_primary-OpenEnds :
      (s : ClusterState) (g : ClusterSegment) (factor : ℕ) (counts : Counts)
      → IsValid s
      → OpenEnds s g factor (with_primary size_of s.nodes g factor counts (alive_node_ids s.nodes))
  unfolding with_primary is_alive
  with_primary-OpenEnds s g factor counts v =
      elim (Option-cases (node_of s.nodes g.nodes.primary_node_id)) [
        | inl e ↦ inl (rw (knows, e) refl, rw (with_primary, e) refl)
        | inr (n, e) ↦ elim (NodeState-cases n.state) [
          | inl d ↦
              let step : with_primary size_of s.nodes g factor counts (alive_node_ids s.nodes)
                  ≡ with_dead_primary size_of s.nodes g counts =
                rw (with_primary, e) (rw d refl) in
              inr (
                inr (
                  rw (is_alive, e) (rw d refl),
                  subst (PromotedSpec size_of s.nodes g.id g) (sym step)
                      (with_dead_primary-PromotedSpec size_of s.nodes g counts),
                ))
          | inr a ↦
              let step : with_primary size_of s.nodes g factor counts (alive_node_ids s.nodes)
                  ≡ with_alive_primary s.nodes g factor counts (alive_node_ids s.nodes) =
                rw (with_primary, e) (rw a refl) in
              inr (
                inl (
                  rw (is_alive, e) (rw a refl),
                  subst (OpenSpec s.nodes g factor (alive_node_ids s.nodes)) (sym step) (
                      with_alive_primary-OpenSpec s.nodes g factor counts (alive_node_ids s.nodes)
                        (alive_node_ids-alive s.nodes v.nodes_unique)),
                ))
        ]
      ]

  -- Of a valid state, `reconcileOpenSegment` deletes an open segment only if its owner does not
  -- exist; with an alive primary, an update keeps the primary and makes the replicas alive and,
  -- with it, as many as wanted or all alive nodes; with a dead primary, it makes an alive replica
  -- the primary that has the largest size of them, and its replicas the other alive ones; where it
  -- does nothing or panics, the reason is one that the specification lists.
  pub reconcile_open_segment-OpenOutcome :
      (s : ClusterState) (g : ClusterSegment) (counts : Counts)
      → IsValid s
      → OpenOutcome s g (reconcile_open_segment size_of s (alive_node_ids s.nodes) g counts)
  unfolding reconcile_open_segment
  reconcile_open_segment-OpenOutcome s g counts v = by_type g.type refl
    where
      result : Type 0
      result = OpenOutcome s g (reconcile_open_segment size_of s (alive_node_ids s.nodes) g counts)

      deletes :
          open_factor s g g.type ≡ none
          → reconcile_open_segment size_of s (alive_node_ids s.nodes) g counts
            ≡ applies (delete_open size_of g) counts
          → result
      deletes gone e = subst (OpenOutcome s g) (sym e) (refl, refl, gone)

      keeps :
          (factor : ℕ)
          → open_factor s g g.type ≡ some factor
          → reconcile_open_segment size_of s (alive_node_ids s.nodes) g counts
            ≡ with_primary size_of s.nodes g factor counts (alive_node_ids s.nodes)
          → result
      keeps factor wanted e = subst (OpenOutcome s g) (sym e) (
          kept s g _ (record {
            factor = factor;
            wanted = wanted;
            ends = with_primary-OpenEnds s g factor counts v;
          }))

      by_type : (k : SegmentType) → g.type ≡ k → result
      by_type invalid k =
          keeps default_replication_factor (ap (open_factor s g) k)
            (rw (reconcile_open_segment, k) refl)
      by_type topic k = elim (Option-cases (get_topic s g.owner_namespace g.owner_name)) [
        | inl e ↦
            deletes (ap (open_factor s g) k ∙ rw (open_factor, e) refl)
              (rw (reconcile_open_segment, k, e) refl)
        | inr (t, e) ↦
            keeps t.replication_factor (ap (open_factor s g) k ∙ rw (open_factor, e) refl)
              (rw (reconcile_open_segment, k, e) refl)
      ]
      by_type consumer_group_offset_commits k =
          elim (Option-cases (get_consumer_group s g.owner_namespace g.owner_name)) [
            | inl e ↦
                deletes (ap (open_factor s g) k ∙ rw (open_factor, e) refl)
                  (rw (reconcile_open_segment, k, e) refl)
            | inr (c, e) ↦
                keeps default_replication_factor (ap (open_factor s g) k ∙ rw (open_factor, e) refl)
                  (rw (reconcile_open_segment, k, e) refl)
          ]
