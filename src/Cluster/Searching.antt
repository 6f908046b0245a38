-- ===== src/Cluster/Searching.antt =====
-- The binary searches for a segment agree with going through the list, where it is sorted; and
-- what closing a segment and updating a node do to the queries by id.
use eventter.Base.{
  ℕ, zero, suc, ◌≤◌, ◌<◌, ◌≡◌, refl, ap, ◌∙◌, inl, inr, arith, Bool, true, false, List, [], ◌∷◌,
}
use eventter.Base.{
  Option, none, some, if◌then◌else◌, ◌==◌, leb, length, find, get_elem?, Bool-cases, Option-cases,
  All,
}
use text.Mathlib.TextEquality.{IsScalar-prop}
use eventter.Base.Search.{All-get_elem?}
use eventter.Base.Ordered.{IsSorted, find-perm, count_if-perm}
use eventter.Cluster.Data.{ClusterState, ClusterSegment, ClusterNode, NodeUpdate}
use eventter.Cluster.Sort.{SortLib}
use eventter.Cluster.Queries.{
  segment_index, search_segment, get_open_segment, get_closed_segment, get_segment, get_node,
}
use eventter.Cluster.Nodes.{updated, do_update_node}
use eventter.Cluster.NodeList.{placed, placed-Unique, find-placed}
use eventter.Cluster.Invariant.{IsValid, segment_id, node_id}

-- The first index at which an id of at least `id` stands.
abbrev lower : List ClusterSegment → ℕ → ℕ
lower [] id = 0
lower (g ∷ gs) id = if leb id g.id then 0 else suc (lower gs id)

abbrev reaches : List ClusterSegment → ℕ → ℕ → Bool
reaches gs id i = elim (get_elem? gs i) [ none ↦ true | some g ↦ leb id g.id ]

lower-le : (gs : List ClusterSegment) (id : ℕ) → lower gs id ≤ length gs
lower-le [] id = omega arith
lower-le (g ∷ gs) id = ground (arith, lower-le gs id)

below_lower : (gs : List ClusterSegment) (id j : ℕ) → j < lower gs id → reaches gs id j ≡ false
below_lower [] id j h = absurd (omega arith)
below_lower (g ∷ gs) id zero h = ground arith
below_lower (g ∷ gs) id (suc j) h = ground (arith, below_lower gs id j)

All-reach :
    (gs : List ClusterSegment) (id low j : ℕ)
    → id ≤ low
    → All (λ g. low ≤ g.id) gs
    → reaches gs id j ≡ true
All-reach gs id low j h a = elim (Option-cases (get_elem? gs j)) [
  | inl e ↦ rw (e, reaches)
  | inr (g, e) ↦ rw (e, reaches) (at_least g (All-get_elem? (λ x. low ≤ x.id) g gs j a e))
]
  where
    at_least : (g : ClusterSegment) → low ≤ g.id → leb id g.id ≡ true
    at_least g l = ground arith

from_lower :
    (gs : List ClusterSegment) (id j : ℕ)
    → IsSorted segment_id gs
    → lower gs id ≤ j
    → reaches gs id j ≡ true
from_lower [] id j s h = refl
from_lower (g ∷ gs) id zero s h = ground arith
from_lower (g ∷ gs) id (suc j) s h = elim (Bool-cases (leb id g.id)) [
  | inl e ↦ All-reach gs id g.id j (ground arith) s.0
  | inr e ↦ from_lower gs id j s.1 (omega (arith, ap (λ b. if b then 0 else suc (lower gs id)) e))
]

-- What stands at that index is what going through the list finds, if the id is there.
abbrev at_lower : List ClusterSegment → ℕ → Option ClusterSegment
at_lower gs id = elim (get_elem? gs (lower gs id)) [
  | none ↦ none
  | some g ↦ if g.id == id then some g else none
]

above_find :
    (gs : List ClusterSegment) (id low : ℕ)
    → All (λ g. low ≤ g.id) gs
    → id < low
    → find (λ g. g.id == id) gs ≡ none
above_find [] id low a h = refl
above_find (g ∷ gs) id low a h = ground (arith, a.0, above_find gs id low a.1 h)

at_lower-find :
    (gs : List ClusterSegment) (id : ℕ)
    → IsSorted segment_id gs
    → at_lower gs id ≡ find (λ g. g.id == id) gs
at_lower-find [] id s = refl
at_lower-find (g ∷ gs) id s = ground (arith, at_lower-find gs id s.1, above_find gs id g.id s.0)

module _ (lib : SortLib) where
  segment_index-lower :
      (gs : List ClusterSegment) (id : ℕ)
      → IsSorted segment_id gs
      → segment_index lib gs id ≡ lower gs id
  unfolding segment_index
  segment_index-lower gs id s =
      lib.search_least (length gs) (reaches gs id) (lower gs id) (lower-le gs id)
        (λ j h. below_lower gs id j h) (λ j h _. from_lower gs id j s h)

  search_segment-find :
      (gs : List ClusterSegment) (id : ℕ)
      → IsSorted segment_id gs
      → (elim (search_segment lib gs id) [ none ↦ none | some (g, i) ↦ some g ])
        ≡ find (λ g. g.id == id) gs
  unfolding search_segment
  search_segment-find gs id s = found (segment_index-lower gs id s) ∙ at_lower-find gs id s
    where
      found :
          segment_index lib gs id ≡ lower gs id
          → (elim (search_segment lib gs id) [ none ↦ none | some (g, i) ↦ some g ])
            ≡ at_lower gs id
      found e = ground (arith, e)

  -- On a well-formed state the binary searches for an open, a closed and any segment find what
  -- going through the open, the closed, and the open and then the closed segments does.
  pub get_segment-find :
      (s : ClusterState) (id : ℕ)
      → IsValid s
      → (get_open_segment lib s id ≡ find (λ g. g.id == id) s.open_segments)
        × (get_closed_segment lib s id ≡ find (λ g. g.id == id) s.closed_segments)
        × (get_segment lib s id ≡ (elim (find (λ g. g.id == id) s.open_segments) [
          | none ↦ find (λ g. g.id == id) s.closed_segments
          | some g ↦ some g
        ]))
  unfolding get_segment get_open_segment get_closed_segment
  get_segment-find s id v =
      let o = search_segment-find s.open_segments id v.open_valid.0 in
      let c = search_segment-find s.closed_segments id v.closed_valid.0 in
      (o, c, ground (arith, o, c))

  option_set : IsSet (Option ClusterNode)
  option_set = hlevel IsScalar-prop

  pub get_node-do_update_node :
      (s : ClusterState) (cmd : NodeUpdate) (id : ℕ)
      → IsValid s
      → get_node (do_update_node lib s cmd) id
        ≡ (if cmd.id == id then some (updated cmd) else get_node s id)
  unfolding get_node do_update_node
  get_node-do_update_node s cmd id v =
      find-perm (λ n. n.id == id) option_set
        (lib.slice_keeps ClusterNode node_id (placed s.nodes cmd))
        (rw
          (count_if-perm (λ n. n.id == id)
            (lib.slice_keeps ClusterNode node_id (placed s.nodes cmd)))
          (placed-Unique s.nodes cmd v.nodes_unique id))
      ∙ find-placed s.nodes cmd id
