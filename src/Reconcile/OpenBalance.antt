-- ===== src/Reconcile/OpenBalance.antt =====
-- What the reconciler makes of an open segment whose primary is alive.
use eventter.Base.{
  ℕ, ◌+◌, ◌-◌, ◌<◌, ◌≡◌, refl, ◌⊎◌, inl, inr, arith, Bool, true, false, ◌||◌, List, [], ◌∷◌, ◌==◌,
  ltb, length, All, filter, count_if, Bool-cases, Option-cases,
}
use eventter.Cluster.Data.{ClusterSegment, ClusterNode, SegmentNodesUpdate, Which}
use eventter.Cluster.Store.{Command}
use eventter.Reconcile.Outcome.{
  node_of, is_alive, knows, knows_all, Counts, Outcome, panics, quiet, applies,
}
use eventter.Reconcile.Replicas.{is_in}
use eventter.Reconcile.Open.{trim_open, is_open_candidate, extend_open}
use eventter.Reconcile.Candidates.{add_replicas-extends}
use eventter.Reconcile.Picks.{add_replicas-Chosen}
use eventter.Reconcile.Kept.{filter-All, length-filter, keep_first-All, length-keep_first}

-- A node that has the segment, as its primary or as one of these replicas.
abbrev pub is_used : ℕ → List ℕ → ℕ → Bool
is_used primary replicas id = id == primary || is_in replicas id

-- The nodes that a command gives an open segment: the primary is the one it had; the replicas are
-- alive; and with the primary there are as many as wanted, or fewer and every alive node is one.
pub record OpenBalanced (ns : List ClusterNode) (g : ClusterSegment) (factor : ℕ) (all : List ℕ)
    (u : SegmentNodesUpdate) : Type 0 where
  pub segment : u.id ≡ g.id
  pub which : u.which ≡ Which.open_which
  pub primary : u.nodes.primary_node_id ≡ g.nodes.primary_node_id
  pub alive : All (λ id. is_alive ns id ≡ true) u.nodes.replicating_node_ids
  pub enough :
      (1 + length u.nodes.replicating_node_ids ≡ factor)
      ⊎ (1 + length u.nodes.replicating_node_ids < factor)
        × All (λ id. is_used g.nodes.primary_node_id u.nodes.replicating_node_ids id ≡ true) all

knows-alive : (ns : List ClusterNode) (id : ℕ) → is_alive ns id ≡ true → knows ns id ≡ true
unfolding is_alive
knows-alive ns id h = elim (Option-cases (node_of ns id)) [
  | inl e ↦ ground (arith, e)
  | inr (n, e) ↦ rw (e, knows) refl
]

pub knows_all-alive :
    (ns : List ClusterNode) (ids : List ℕ)
    → All (λ id. is_alive ns id ≡ true) ids
    → knows_all ns ids ≡ true
unfolding knows_all
knows_all-alive ns [] a = refl
knows_all-alive ns (id ∷ ids) a = ground (arith, knows-alive ns id a.0, knows_all-alive ns ids a.1)

-- A command balances the segment; without one it is balanced, not counting replicas that are dead.
abbrev pub OpenSpec : List ClusterNode → ClusterSegment → ℕ → List ℕ → Outcome → Type 0
OpenSpec ns g factor all panics = (factor ≡ 0) ⊎ (knows_all ns g.nodes.replicating_node_ids ≡ false)
OpenSpec ns g factor all (quiet counts) =
    let replicas = filter (is_alive ns) g.nodes.replicating_node_ids in
    (1 + length replicas ≡ factor)
    ⊎ (1 + length replicas < factor)
      × All (λ id. is_used g.nodes.primary_node_id replicas id ≡ true) all
OpenSpec ns g factor all (applies (Command.update_segment_nodes u) counts) =
    OpenBalanced ns g factor all u
OpenSpec ns g factor all (applies _ counts) = ⊥

pub trim_open-OpenSpec :
    (ns : List ClusterNode) (g : ClusterSegment) (factor : ℕ) (counts : Counts) (all : List ℕ)
    → 0 < factor
    → factor < 1 + count_if (is_alive ns) g.nodes.replicating_node_ids
    → OpenSpec ns g factor all (trim_open ns g factor counts)
unfolding trim_open
trim_open-OpenSpec ns g factor counts all some_factor over =
    elim (Bool-cases (ltb 0 (factor - 1))) [
      | inl e ↦ rw e (record {
        segment = refl;
        which = refl;
        primary = refl;
        alive = keep_first-All (is_alive ns) factor 1 g.nodes.replicating_node_ids counts;
        enough = inl (
            length-keep_first (is_alive ns) factor 1 g.nodes.replicating_node_ids counts
              (omega arith) (omega arith));
      })
      | inr e ↦ rw e (record {
        segment = refl;
        which = refl;
        primary = refl;
        alive = tt;
        enough = inl (ground arith);
      })
    ]

pub extend_open-OpenSpec :
    (ns : List ClusterNode) (g : ClusterSegment) (factor : ℕ) (counts : Counts) (all : List ℕ)
    → All (λ id. is_alive ns id ≡ true) all
    → 1 + count_if (is_alive ns) g.nodes.replicating_node_ids < factor
    → OpenSpec ns g factor all (extend_open ns g factor counts all)
unfolding extend_open
extend_open-OpenSpec ns g factor counts all up under =
    let primary = g.nodes.primary_node_id in
    let kept = filter (is_alive ns) g.nodes.replicating_node_ids in
    let cs = filter (is_open_candidate primary kept) all in
    let few : 1 + length kept < factor =
      omega (arith, length-filter (is_alive ns) g.nodes.replicating_node_ids, under) in
    elim (add_replicas-extends (λ id. id == primary) (is_alive ns) 0 (factor - 1) counts kept all _
      (add_replicas-Chosen (length cs) 0 (factor - 1) counts cs kept false (omega arith))
      (filter-All (is_alive ns) g.nodes.replicating_node_ids) up (omega arith)) [
        | inl (e, used) ↦ rw e (inr (few, used))
        | inr (e, x) ↦ rw e (record {
          segment = refl;
          which = refl;
          primary = refl;
          alive = x.alive;
          enough = elim x.enough [
            | inl n ↦ inl (omega (arith, n, few))
            | inr (short, used) ↦ inr (omega (arith, short), used)
          ];
        })
      ]
