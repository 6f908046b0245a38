-- ===== src/Cluster/NodeList.antt =====
-- The list of nodes before `doUpdateNode` sorts it.
use eventter.Base.{ℕ, ◌≡◌, inl, inr, arith, Bool, List, [], ◌∷◌, ◌++◌}
use eventter.Base.{none, some, if◌then◌else◌, ◌==◌, find, count_if-append, set}
use eventter.Base.Search.{
  find_index, find-set_self, find-set_other, find-append_self, find-append_other, count_if-none,
  count_if-set,
}
use eventter.Base.Named.{find_index-cases}
use eventter.Cluster.Data.{ClusterNode, NodeUpdate}
use eventter.Cluster.Nodes.{updated}
use eventter.Cluster.Invariant.{NodesUnique}

abbrev has_id : ℕ → ClusterNode → Bool
has_id k n = n.id == k

abbrev pub placed : List ClusterNode → NodeUpdate → List ClusterNode
placed ns cmd = elim (find_index (λ n. n.id == cmd.id) ns) [
  | none ↦ ns ++ (updated cmd ∷ [])
  | some (n, i) ↦ set ns i (updated cmd)
]

pub placed-Unique :
    (ns : List ClusterNode) (cmd : NodeUpdate) → NodesUnique ns → NodesUnique (placed ns cmd)
placed-Unique ns cmd u k = elim (find_index-cases (has_id cmd.id) ns) [
  | inl (e, f) ↦
      rw (e, placed)
        (ground (
          arith,
          u k,
          count_if-append (has_id k) ns (updated cmd ∷ []),
          count_if-none (has_id cmd.id) ns f,
        ))
  | inr (n, i, e, _, p) ↦
      rw (e, placed)
        (ground (arith, u k, p, count_if-set (has_id cmd.id) (has_id k) (updated cmd) ns n i e))
]

pub find-placed :
    (ns : List ClusterNode) (cmd : NodeUpdate) (id : ℕ)
    → find (has_id id) (placed ns cmd)
      ≡ (if cmd.id == id then some (updated cmd) else find (has_id id) ns)
find-placed ns cmd id = elim (find_index-cases (has_id cmd.id) ns) [
  | inl (e, f) ↦
      rw (e, placed)
        (ground (
          arith,
          find-append_self (has_id id) (updated cmd) ns,
          find-append_other (has_id id) (updated cmd) ns,
          f,
        ))
  | inr (n, i, e, _, p) ↦
      rw (e, placed)
        (ground (
          arith,
          p,
          find-set_self (has_id cmd.id) (updated cmd) ns n i e,
          find-set_other (has_id cmd.id) (has_id id) (updated cmd) ns n i e,
        ))
]
