-- ===== src/Reconcile/Completion.antt =====
-- Where the state has the nodes and the replication factors that its segments refer to, a pass over
-- the segments goes through.
use eventter.Base.{
  ℕ, ◌≡◌, refl, ap, subst, ◌∙◌, inl, inr, arith, Bool, true, false, ◌&&◌, not, List, [], ◌∷◌, ◌++◌,
  Option, none, some, String, ltb, All, any, Option-cases,
}
use eventter.Base.Int.{ℤ}
use eventter.Cluster.Data.{ClusterState, ClusterSegment, ClusterNode}
use eventter.Cluster.Invariant.{IsValid}
use eventter.Reconcile.Outcome.{
  node_of, is_alive, knows, knows_all, alive_node_ids, Counts, start_counts, Outcome, panics, quiet,
  applies, for_each,
}
use eventter.Reconcile.Open.{reconcile_open_segment, reconcile_open_segments}
use eventter.Reconcile.Closed.{
  reconcile_closed_segment, reconcile_closed_segments, reconcile_segments,
}
use eventter.Reconcile.Retention.{
  closed_factor, Balances, ClosedOutcome, reconcile_closed_segment-ClosedOutcome,
}
use eventter.Reconcile.Upkeep.{open_factor, Keeps, OpenOutcome, reconcile_open_segment-OpenOutcome}

abbrev pub completes : {A : Type 0} → Option A → Bool
completes none = false
completes (some x) = true

-- One replica is wanted at least, if any.
abbrev pub is_positive : Option ℕ → Bool
is_positive none = true
is_positive (some factor) = ltb 0 factor

-- The nodes of an open segment are known, and its owner, if there is one, wants a replica.
abbrev pub open_is_sound : ClusterState → ClusterSegment → Bool
open_is_sound s g =
    knows s.nodes g.nodes.primary_node_id
    && (knows_all s.nodes g.nodes.replicating_node_ids && is_positive (open_factor s g g.type))

abbrev pub closed_is_sound : ClusterState → ClusterSegment → Bool
closed_is_sound s g =
    (knows_all s.nodes g.nodes.done_node_ids && knows_all s.nodes g.nodes.replicating_node_ids)
    && is_positive (closed_factor s g g.type)

for_each-completes :
    (f : ClusterSegment → Counts → Outcome) (gs : List ClusterSegment)
    → All (λ g. (counts : Counts) → f g counts ≡ panics → ⊥) gs
    → (counts : Counts) → completes (for_each f gs counts) ≡ true
unfolding for_each
for_each-completes f [] a counts = refl
for_each-completes f (g ∷ gs) a counts = go (for_each-completes f gs a.1) (f g counts) refl
  where
    go :
        ((c : Counts) → completes (for_each f gs c) ≡ true)
        → (o : Outcome) → f g counts ≡ o
        → completes (for_each f (g ∷ gs) counts) ≡ true
    go rest panics e = absurd (a.0 counts e)
    go rest (quiet counts') e = ap completes (rw (for_each, e) refl) ∙ rest counts'
    go rest (applies cmd counts') e = elim (Option-cases (for_each f gs counts')) [
      | inl h ↦ absurd (ground (arith, rest counts', h))
      | inr ((cmds, last), h) ↦
          let step : for_each f (g ∷ gs) counts ≡ some (cmd ∷ cmds, last) =
            rw (for_each, e, h) refl in
          ap completes step
    ]

unknown_replica :
    (ns : List ClusterNode) (rs : List ℕ)
    → knows_all ns rs ≡ not (any (λ r. elim (node_of ns r) [ none ↦ true | some n ↦ false ]) rs)
unfolding knows_all
unknown_replica ns [] = refl
unknown_replica ns (r ∷ rs) = elim (Option-cases (node_of ns r)) [
  | inl e ↦ ground (arith, e, unknown_replica ns rs)
  | inr (n, e) ↦ ground (arith, e, unknown_replica ns rs)
]

All-to :
    {P : ClusterSegment → Type 0} (p : ClusterSegment → Bool) (gs : List ClusterSegment)
    → ((g : ClusterSegment) → p g ≡ true → P g)
    → All (λ g. p g ≡ true) gs
    → All P gs
All-to p [] h a = tt
All-to p (g ∷ gs) h a = (h g a.0, All-to p gs h a.1)

open_completes :
    (size_of : ℕ → ℕ → String → Option ℤ) (s : ClusterState) (g : ClusterSegment)
    → IsValid s
    → open_is_sound s g ≡ true
    → (counts : Counts)
    → reconcile_open_segment size_of s (alive_node_ids s.nodes) g counts ≡ panics
    → ⊥
unfolding is_alive
open_completes size_of s g v sound counts e =
    let k : Keeps size_of s g panics =
      subst (OpenOutcome size_of s g) e (reconcile_open_segment-OpenOutcome size_of s g counts v) in
    let some_factor : ltb 0 k.factor ≡ true =
      subst (λ w. is_positive w ≡ true) k.wanted (ground (arith, sound)) in
    let known : knows_all s.nodes g.nodes.replicating_node_ids ≡ true = ground (arith, sound) in
    elim k.ends [
      | inl (unknown, _) ↦ ground (arith, sound, unknown)
      | inr (inl (_, inl no_replica)) ↦ ground (arith, some_factor, no_replica)
      | inr (inl (_, inr unknown)) ↦ ground (arith, known, unknown)
      | inr (inr (_, some_unknown)) ↦
          ground (arith, known, some_unknown, unknown_replica s.nodes g.nodes.replicating_node_ids)
    ]

closed_completes :
    (now : ℤ) (s : ClusterState) (g : ClusterSegment)
    → IsValid s
    → closed_is_sound s g ≡ true
    → (counts : Counts) → reconcile_closed_segment now s (alive_node_ids s.nodes) g counts ≡ panics
    → ⊥
closed_completes now s g v sound counts e =
    let b : Balances s g panics =
      subst (ClosedOutcome now s g) e (reconcile_closed_segment-ClosedOutcome now s g counts v) in
    let some_factor : ltb 0 b.factor ≡ true =
      subst (λ w. is_positive w ≡ true) b.wanted (ground (arith, sound)) in
    elim b.ends [
      | inl no_replica ↦ ground (arith, some_factor, no_replica)
      | inr unknown ↦ ground (arith, sound, unknown)
    ]

-- `ReconcileSegments` ends without a panic on a valid state that knows the nodes its segments
-- refer to and in which no topic that has segments wants 0 replicas.
pub reconcile_segments-completes :
    (size_of : ℕ → ℕ → String → Option ℤ) (now : ℤ) (s : ClusterState)
    → IsValid s
    → All (λ g. open_is_sound s g ≡ true) s.open_segments
    → All (λ g. closed_is_sound s g ≡ true) s.closed_segments
    → completes (reconcile_segments size_of now s) ≡ true
unfolding reconcile_segments reconcile_open_segments reconcile_closed_segments
reconcile_segments-completes size_of now s v opens closes =
    let open_all =
      All-to (open_is_sound s) s.open_segments (λ g. open_completes size_of s g v) opens in
    let closed_all =
      All-to (closed_is_sound s) s.closed_segments (λ g. closed_completes now s g v) closes in
    let opening =
      for_each (reconcile_open_segment size_of s (alive_node_ids s.nodes)) s.open_segments
        (start_counts s) in
    let first =
      for_each-completes (reconcile_open_segment size_of s (alive_node_ids s.nodes)) s.open_segments
        open_all (start_counts s) in
    elim (Option-cases opening) [
      | inl e ↦ absurd (ground (arith, first, e))
      | inr ((cmds, counts), e) ↦
          let closing =
            for_each (reconcile_closed_segment now s (alive_node_ids s.nodes)) s.closed_segments
              counts in
          let second =
            for_each-completes (reconcile_closed_segment now s (alive_node_ids s.nodes))
              s.closed_segments closed_all counts in
          elim (Option-cases closing) [
            | inl h ↦ absurd (ground (arith, second, h))
            | inr ((more, last), h) ↦
                let step : reconcile_segments size_of now s ≡ some (cmds ++ more) =
                  rw (reconcile_segments, e, h) refl in
                ap completes step
          ]
    ]
