-- ===== src/Reconcile/ClosedSettled.antt =====
-- Closed segments: when they are deleted, and their nodes from one pass to the next.
use eventter.Base.{
  ℕ, ◌+◌, ◌<◌, ◌≡◌, refl, subst, inl, inr, arith, Bool, true, false, ◌&&◌, List, [], ◌∷◌, ◌==◌, ltb,
  length, All, filter, count_if, Bool-cases,
}
use eventter.Cluster.Data.{ClusterSegment, ClusterNode, SegmentNodesUpdate}
use eventter.Cluster.Store.{Command}
use eventter.Reconcile.Outcome.{is_alive, knows_all, Counts, quiet, applies}
use eventter.Reconcile.Replicas.{add_replicas}
use eventter.Reconcile.Closed.{is_closed_candidate, extend_closed, balance_closed}
use eventter.Reconcile.Kept.{count_if-whole, filter-whole, length-filter}
use eventter.Reconcile.OpenBalance.{knows_all-alive}
use eventter.Reconcile.ClosedBalance.{
  has_or_gets, IsEnough, ClosedBalanced, ClosedSpec, trim_closed-ClosedSpec,
  extend_closed-ClosedSpec,
}

filter-none : (p : ℕ → Bool) (ids : List ℕ) → count_if p ids ≡ 0 → filter p ids ≡ []
filter-none p [] h = refl
filter-none p (x ∷ ids) h = ground (arith, h, filter-none p ids)

pub balance_closed-ClosedSpec :
    (ns : List ClusterNode) (g : ClusterSegment) (factor : ℕ) (counts : Counts) (all : List ℕ)
    → All (λ id. is_alive ns id ≡ true) all
    → ClosedSpec ns g factor all (balance_closed ns g factor counts all)
unfolding balance_closed
balance_closed-ClosedSpec ns g factor counts all up =
    let done = count_if (is_alive ns) g.nodes.done_node_ids in
    let replicas = count_if (is_alive ns) g.nodes.replicating_node_ids in
    let no_done : (done == 0) ≡ true → filter (is_alive ns) g.nodes.done_node_ids ≡ [] =
      λ h. filter-none (is_alive ns) g.nodes.done_node_ids (ground (arith, h)) in
    let lengths : length (filter (is_alive ns) g.nodes.done_node_ids)
          + length (filter (is_alive ns) g.nodes.replicating_node_ids)
        ≡ done + replicas =
      omega (
        arith,
        length-filter (is_alive ns) g.nodes.done_node_ids,
        length-filter (is_alive ns) g.nodes.replicating_node_ids,
      ) in
    elim (Bool-cases
      (knows_all ns g.nodes.done_node_ids && knows_all ns g.nodes.replicating_node_ids)) [
        | inr e ↦ rw e (inr e)
        | inl known ↦ elim (Bool-cases (ltb factor 1)) [
          | inl e ↦ rw known (rw e (inl (ground arith)))
          | inr f ↦ elim (Bool-cases (ltb factor (done + replicas))) [
            | inl over ↦ elim (Bool-cases (done == 0)) [
              | inl z ↦ rw known (rw f (rw over (rw z (inl (no_done z)))))
              | inr z ↦ rw known (
                  rw f (
                    rw over (
                      rw z (
                        trim_closed-ClosedSpec ns g factor counts all (ground arith) (ground arith)
                          (ground arith)))))
            ]
            | inr over ↦ elim (Bool-cases (ltb (done + replicas) factor)) [
              | inl under ↦ elim (Bool-cases (done == 0)) [
                | inl z ↦ rw known (rw f (rw over (rw under (rw z (inl (no_done z))))))
                | inr z ↦ rw known (
                    rw f (
                      rw over (
                        rw under (
                          rw z (
                            extend_closed-ClosedSpec ns g factor counts all up (ground arith)
                              (ground arith))))))
              ]
              | inr under ↦
                  rw known (rw f (rw over (rw under (inr (inl (ground (arith, lengths)))))))
            ]
          ]
        ]
      ]

no_candidate :
    (done replicas all : List ℕ)
    → All (λ id. has_or_gets done replicas id ≡ true) all
    → filter (is_closed_candidate done replicas) all ≡ []
no_candidate done replicas [] a = refl
no_candidate done replicas (id ∷ all) a = ground (arith, a.0, no_candidate done replicas all a.1)

extend_closed-full :
    (ns : List ClusterNode) (g : ClusterSegment) (factor : ℕ) (counts : Counts) (all : List ℕ)
    → All (λ id. is_alive ns id ≡ true) g.nodes.done_node_ids
    → All (λ id. is_alive ns id ≡ true) g.nodes.replicating_node_ids
    → All (λ id. has_or_gets g.nodes.done_node_ids g.nodes.replicating_node_ids id ≡ true) all
    → extend_closed ns g factor counts all ≡ quiet counts
unfolding extend_closed add_replicas
extend_closed-full ns g factor counts all done up used =
    rw (filter-whole (is_alive ns) g.nodes.replicating_node_ids up) (
      rw (filter-whole (is_alive ns) g.nodes.done_node_ids done)
        (rw (no_candidate g.nodes.done_node_ids g.nodes.replicating_node_ids all used) refl))

balanced-quiet :
    (ns : List ClusterNode) (g : ClusterSegment) (factor : ℕ) (counts : Counts) (all : List ℕ)
    → 0 < factor
    → 0 < length g.nodes.done_node_ids
    → All (λ id. is_alive ns id ≡ true) g.nodes.done_node_ids
    → All (λ id. is_alive ns id ≡ true) g.nodes.replicating_node_ids
    → IsEnough factor all g.nodes.done_node_ids g.nodes.replicating_node_ids
    → balance_closed ns g factor counts all ≡ quiet counts
unfolding balance_closed
balanced-quiet ns g factor counts all some_factor some_done done up enough =
    let f : ltb factor 1 ≡ false = ground arith in
    let known : (knows_all ns g.nodes.done_node_ids && knows_all ns g.nodes.replicating_node_ids)
        ≡ true =
      ground (
        arith,
        knows_all-alive ns g.nodes.done_node_ids done,
        knows_all-alive ns g.nodes.replicating_node_ids up,
      ) in
    let n = count_if-whole (is_alive ns) g.nodes.done_node_ids done in
    let m = count_if-whole (is_alive ns) g.nodes.replicating_node_ids up in
    let total =
      count_if (is_alive ns) g.nodes.done_node_ids
      + count_if (is_alive ns) g.nodes.replicating_node_ids in
    let z : (count_if (is_alive ns) g.nodes.done_node_ids == 0) ≡ false = ground arith in
    elim enough [
      | inl e ↦
          let over : ltb factor total ≡ false = ground arith in
          let under : ltb total factor ≡ false = ground arith in
          rw known (rw f (rw over (rw under refl)))
      | inr (short, used) ↦
          let over : ltb factor total ≡ false = ground arith in
          let under : ltb total factor ≡ true = ground arith in
          rw known (
            rw f
              (rw over (rw under (rw z (extend_closed-full ns g factor counts all done up used)))))
    ]

-- When `reconcileClosedSegment` has updated the nodes of a segment and the candidates are alive,
-- then balancing it again with the same nodes, factor and candidates does nothing.
pub balance_closed-settled :
    (ns : List ClusterNode) (g : ClusterSegment) (factor : ℕ) (counts after : Counts) (all : List ℕ)
    (u : SegmentNodesUpdate)
    → All (λ id. is_alive ns id ≡ true) all
    → balance_closed ns g factor counts all ≡ applies (Command.update_segment_nodes u) after
    → balance_closed ns (record g { nodes = u.nodes }) factor after all ≡ quiet after
balance_closed-settled ns g factor counts after all u up h =
    let b : ClosedBalanced ns g factor all u =
      subst (ClosedSpec ns g factor all) h (balance_closed-ClosedSpec ns g factor counts all up) in
    let some = b.some_done in
    balanced-quiet ns (record g { nodes = u.nodes }) factor after all
      (elim b.enough [ inl e ↦ omega (arith, e, some) | inr (short, used) ↦ omega (arith, short) ])
      b.some_done b.done_alive b.alive b.enough
