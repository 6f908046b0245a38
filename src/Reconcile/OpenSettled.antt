-- ===== src/Reconcile/OpenSettled.antt =====
-- An open segment whose primary is alive, from one pass of the reconciler to the next.
use eventter.Base.{
  ℕ, ◌+◌, ◌<◌, ◌≡◌, refl, sym, subst, ◌⊎◌, inl, inr, arith, true, false, List, [], ◌∷◌, none, ◌==◌,
  ltb, length, All, filter, count_if, Bool-cases, Option-cases,
}
use eventter.Cluster.Data.{ClusterSegment, ClusterNode, SegmentNodesUpdate}
use eventter.Cluster.Store.{Command}
use eventter.Cluster.Invariant.{NodesUnique}
use eventter.Reconcile.Outcome.{
  node_of, is_up, is_alive, knows_all, alive_node_ids, Counts, quiet, applies,
}
use eventter.Reconcile.Replicas.{add_replicas}
use eventter.Reconcile.Open.{is_open_candidate, extend_open, with_alive_primary}
use eventter.Reconcile.Kept.{count_if-whole, filter-whole, length-filter}
use eventter.Reconcile.OpenBalance.{
  is_used, OpenBalanced, OpenSpec, knows_all-alive, trim_open-OpenSpec, extend_open-OpenSpec,
}

pub with_alive_primary-OpenSpec :
    (ns : List ClusterNode) (g : ClusterSegment) (factor : ℕ) (counts : Counts) (all : List ℕ)
    → All (λ id. is_alive ns id ≡ true) all
    → OpenSpec ns g factor all (with_alive_primary ns g factor counts all)
unfolding with_alive_primary
with_alive_primary-OpenSpec ns g factor counts all up =
    let alive_replicas = 1 + count_if (is_alive ns) g.nodes.replicating_node_ids in
    elim (Bool-cases (ltb factor 1)) [
      | inl e ↦ rw e (inl (ground arith))
      | inr some_factor ↦ elim (Bool-cases (knows_all ns g.nodes.replicating_node_ids)) [
        | inr e ↦ rw some_factor (rw e (inr e))
        | inl known ↦ elim (Bool-cases (ltb factor alive_replicas)) [
          | inl over ↦ rw some_factor (
              rw known
                (rw over (trim_open-OpenSpec ns g factor counts all (ground arith) (ground arith))))
          | inr over ↦ elim (Bool-cases (ltb alive_replicas factor)) [
            | inl under ↦ rw some_factor (
                rw known (
                  rw over
                    (rw under (extend_open-OpenSpec ns g factor counts all up (ground arith)))))
            | inr under ↦ rw some_factor (
                rw known (
                  rw over (
                    rw under (
                      inl (
                        ground
                          (arith, length-filter (is_alive ns) g.nodes.replicating_node_ids))))))
          ]
        ]
      ]
    ]

no_candidate :
    (primary : ℕ) (replicas all : List ℕ)
    → All (λ id. is_used primary replicas id ≡ true) all
    → filter (is_open_candidate primary replicas) all ≡ []
no_candidate primary replicas [] a = refl
no_candidate primary replicas (id ∷ all) a =
    ground (arith, a.0, no_candidate primary replicas all a.1)

extend_open-full :
    (ns : List ClusterNode) (g : ClusterSegment) (factor : ℕ) (counts : Counts) (all : List ℕ)
    → All (λ id. is_alive ns id ≡ true) g.nodes.replicating_node_ids
    → All (λ id. is_used g.nodes.primary_node_id g.nodes.replicating_node_ids id ≡ true) all
    → extend_open ns g factor counts all ≡ quiet counts
unfolding extend_open add_replicas
extend_open-full ns g factor counts all up used =
    rw (filter-whole (is_alive ns) g.nodes.replicating_node_ids up)
      (rw (no_candidate g.nodes.primary_node_id g.nodes.replicating_node_ids all used) refl)

-- Nodes that satisfy the specification are left as they are.
balanced-quiet :
    (ns : List ClusterNode) (g : ClusterSegment) (factor : ℕ) (counts : Counts) (all : List ℕ)
    → 0 < factor
    → All (λ id. is_alive ns id ≡ true) g.nodes.replicating_node_ids
    → (1 + length g.nodes.replicating_node_ids ≡ factor)
      ⊎ (1 + length g.nodes.replicating_node_ids < factor)
        × All (λ id. is_used g.nodes.primary_node_id g.nodes.replicating_node_ids id ≡ true) all
    → with_alive_primary ns g factor counts all ≡ quiet counts
unfolding with_alive_primary
balanced-quiet ns g factor counts all some_factor up enough =
    let some : ltb factor 1 ≡ false = ground arith in
    let known = knows_all-alive ns g.nodes.replicating_node_ids up in
    let count = count_if-whole (is_alive ns) g.nodes.replicating_node_ids up in
    elim enough [
      | inl e ↦
          let over : ltb factor (1 + count_if (is_alive ns) g.nodes.replicating_node_ids) ≡ false =
            ground arith in
          let under : ltb (1 + count_if (is_alive ns) g.nodes.replicating_node_ids) factor ≡ false =
            ground arith in
          rw some (rw known (rw over (rw under refl)))
      | inr (short, used) ↦
          let over : ltb factor (1 + count_if (is_alive ns) g.nodes.replicating_node_ids) ≡ false =
            ground arith in
          let under : ltb (1 + count_if (is_alive ns) g.nodes.replicating_node_ids) factor ≡ true =
            ground arith in
          rw some (rw known (rw over (rw under (extend_open-full ns g factor counts all up used))))
    ]

-- When `reconcileOpenSegmentWithAlivePrimary` has updated the nodes of a segment and the
-- candidates are alive, then a second call with the same nodes, factor and candidates does
-- nothing.
pub with_alive_primary-settled :
    (ns : List ClusterNode) (g : ClusterSegment) (factor : ℕ) (counts after : Counts) (all : List ℕ)
    (u : SegmentNodesUpdate)
    → All (λ id. is_alive ns id ≡ true) all
    → with_alive_primary ns g factor counts all ≡ applies (Command.update_segment_nodes u) after
    → with_alive_primary ns (record g { nodes = u.nodes }) factor after all ≡ quiet after
with_alive_primary-settled ns g factor counts after all u up h =
    let b : OpenBalanced ns g factor all u =
      subst (OpenSpec ns g factor all) h (with_alive_primary-OpenSpec ns g factor counts all up) in
    balanced-quiet ns (record g { nodes = u.nodes }) factor after all
      (elim b.enough [ inl e ↦ omega (arith, e) | inr (short, used) ↦ omega (arith, short) ])
      b.alive
      (elim b.enough [
        | inl e ↦ inl e
        | inr (short, used) ↦ inr (
          short,
          subst (λ p. All (λ id. is_used p u.nodes.replicating_node_ids id ≡ true) all)
              (sym b.primary) used,
        )
      ])

node_of-absent :
    (ns : List ClusterNode) (id : ℕ) → count_if (λ n. n.id == id) ns ≡ 0 → node_of ns id ≡ none
unfolding node_of
node_of-absent [] id h = refl
node_of-absent (n ∷ ns) id h = ground (arith, node_of-absent ns id (ground arith))

still_alive :
    (n : ClusterNode) (ns : List ClusterNode) (ids : List ℕ)
    → All (λ id. is_alive ns id ≡ true) ids
    → All (λ id. is_alive (n ∷ ns) id ≡ true) ids
unfolding is_alive node_of
still_alive n ns [] a = tt
still_alive n ns (id ∷ ids) a = elim (Option-cases (node_of ns id)) [
  | inl e ↦ absurd (ground (arith, a.0, e))
  | inr (m, e) ↦ (ground (arith, a.0, e), still_alive n ns ids a.1)
]

-- The candidates are alive: where no two nodes have one id, the map of nodes has each node.
pub alive_node_ids-alive :
    (ns : List ClusterNode) → NodesUnique ns → All (λ id. is_alive ns id ≡ true) (alive_node_ids ns)
unfolding is_alive node_of
alive_node_ids-alive [] u = tt
alive_node_ids-alive (n ∷ ns) u =
    let before =
      still_alive n ns (alive_node_ids ns) (alive_node_ids-alive ns (λ k. ground (arith, u k))) in
    let fresh = node_of-absent ns n.id (ground (arith, u n.id)) in
    elim (Bool-cases (is_up n)) [
      | inl e ↦ rw e (ground (arith, e, fresh), before)
      | inr e ↦ rw e before
    ]
