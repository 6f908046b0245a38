-- ===== src/Reconcile/ClosedBalance.antt =====
-- What the reconciler makes of the nodes of a closed segment.
use eventter.Base.{
  ℕ, suc, ◌+◌, ◌≤◌, ◌<◌, ◌≡◌, refl, ap, ◌⊎◌, inl, inr, arith, Bool, true, false, ◌&&◌, ◌||◌, List,
  [], ◌∷◌, ltb, length, All, filter, count_if, Bool-cases,
}
use eventter.Cluster.Data.{ClusterSegment, ClusterNode, SegmentNodesUpdate, Which}
use eventter.Cluster.Store.{Command}
use eventter.Reconcile.Outcome.{is_alive, knows_all, Counts, Outcome, panics, quiet, applies}
use eventter.Reconcile.Replicas.{is_in}
use eventter.Reconcile.Closed.{first_done, trim_closed, is_closed_candidate, extend_closed}
use eventter.Reconcile.Candidates.{add_replicas-extends}
use eventter.Reconcile.Picks.{add_replicas-Chosen}
use eventter.Reconcile.Kept.{filter-All, length-filter, keep_first-All, length-keep_first}

-- A node that has the segment or is getting it.
abbrev pub has_or_gets : List ℕ → List ℕ → ℕ → Bool
has_or_gets done replicas id = is_in done id || is_in replicas id

-- As many nodes as wanted have the segment or are getting it; or fewer, and every alive node is one.
abbrev pub IsEnough : ℕ → List ℕ → List ℕ → List ℕ → Type 0
IsEnough factor all done replicas =
    (length done + length replicas ≡ factor)
    ⊎ (length done + length replicas < factor) × All (λ id. has_or_gets done replicas id ≡ true) all

-- The nodes that a command gives a closed segment.
pub record ClosedBalanced (ns : List ClusterNode) (g : ClusterSegment) (factor : ℕ) (all : List ℕ)
    (u : SegmentNodesUpdate) : Type 0 where
  pub segment : u.id ≡ g.id
  pub which : u.which ≡ Which.closed_which
  pub some_done : 0 < length u.nodes.done_node_ids
  pub was_done : All (λ id. is_in g.nodes.done_node_ids id ≡ true) u.nodes.done_node_ids
  pub done_alive : All (λ id. is_alive ns id ≡ true) u.nodes.done_node_ids
  pub alive : All (λ id. is_alive ns id ≡ true) u.nodes.replicating_node_ids
  pub enough : IsEnough factor all u.nodes.done_node_ids u.nodes.replicating_node_ids

-- A panic, where the topic wants no replica or a node is not known; nothing, where no alive node has
-- the segment or the alive ones are enough; or a command that makes them so.
abbrev pub ClosedSpec : List ClusterNode → ClusterSegment → ℕ → List ℕ → Outcome → Type 0
ClosedSpec ns g factor all panics =
    (factor ≡ 0)
    ⊎ ((knows_all ns g.nodes.done_node_ids && knows_all ns g.nodes.replicating_node_ids) ≡ false)
ClosedSpec ns g factor all (quiet counts) =
    let done = filter (is_alive ns) g.nodes.done_node_ids in
    let replicas = filter (is_alive ns) g.nodes.replicating_node_ids in
    (done ≡ []) ⊎ IsEnough factor all done replicas
ClosedSpec ns g factor all (applies (Command.update_segment_nodes u) counts) =
    ClosedBalanced ns g factor all u
ClosedSpec ns g factor all (applies _ counts) = ⊥

module _ (alive : ℕ → Bool) where
  first_done-All :
      (limit k : ℕ) (ids : List ℕ) → All (λ x. alive x ≡ true) (first_done alive limit k ids)
  unfolding first_done
  first_done-All limit k [] = tt
  first_done-All limit k (id ∷ ids) =
      ground (arith, first_done-All limit (suc k) ids, first_done-All limit k ids)

  in_more :
      (x : ℕ) (ids from : List ℕ)
      → All (λ y. is_in from y ≡ true) ids
      → All (λ y. is_in (x ∷ from) y ≡ true) ids
  in_more x [] from a = tt
  in_more x (y ∷ ids) from a = ground (arith, a.0, in_more x ids from a.1)

  first_done-among :
      (limit k : ℕ) (ids : List ℕ) → All (λ x. is_in ids x ≡ true) (first_done alive limit k ids)
  unfolding first_done
  first_done-among limit k [] = tt
  first_done-among limit k (id ∷ ids) =
      let next = in_more id _ ids (first_done-among limit (suc k) ids) in
      let skipped = in_more id _ ids (first_done-among limit k ids) in
      let here : is_in (id ∷ ids) id ≡ true = ground arith in
      elim (Bool-cases (alive id)) [
        | inr e ↦ rw e skipped
        | inl e ↦ elim (Bool-cases (ltb (suc k) limit)) [
          | inl f ↦ rw e (rw f (here, next))
          | inr f ↦ rw e (rw f (here, tt))
        ]
      ]

  filter-among : (ids : List ℕ) → All (λ x. is_in ids x ≡ true) (filter alive ids)
  filter-among [] = tt
  filter-among (id ∷ ids) =
      let next = in_more id _ ids (filter-among ids) in
      let here : is_in (id ∷ ids) id ≡ true = ground arith in
      elim (Bool-cases (alive id)) [ inl e ↦ rw e (here, next) | inr e ↦ rw e next ]

  -- All alive done nodes, or as many as wanted.
  length-first_done :
      (limit k : ℕ) (ids : List ℕ)
      → k < limit
      → (length (first_done alive limit k ids) ≡ count_if alive ids)
          × (k + count_if alive ids ≤ limit)
        ⊎ (k + length (first_done alive limit k ids) ≡ limit) × (limit ≤ k + count_if alive ids)
  unfolding first_done
  length-first_done limit k [] h = inl (refl, omega arith)
  length-first_done limit k (id ∷ ids) h = elim (Bool-cases (alive id)) [
    | inr e ↦ rw e (length-first_done limit k ids h)
    | inl e ↦ elim (Bool-cases (ltb (suc k) limit)) [
      | inr f ↦ rw e (rw f (inr (ground arith, ground arith)))
      | inl f ↦ rw e (
          rw f (elim (length-first_done limit (suc k) ids (ground arith)) [
            | inl (a, b) ↦ inl (ap suc a, omega (arith, b))
            | inr (a, b) ↦ inr (omega (arith, a), omega (arith, b))
          ]))
    ]
  ]

pub trim_closed-ClosedSpec :
    (ns : List ClusterNode) (g : ClusterSegment) (factor : ℕ) (counts : Counts) (all : List ℕ)
    → 0 < factor
    → 0 < count_if (is_alive ns) g.nodes.done_node_ids
    → factor
      < count_if (is_alive ns) g.nodes.done_node_ids
        + count_if (is_alive ns) g.nodes.replicating_node_ids
    → ClosedSpec ns g factor all (trim_closed ns g factor counts)
unfolding trim_closed
trim_closed-ClosedSpec ns g factor counts all some_factor some_done over =
    let done = first_done (is_alive ns) factor 0 g.nodes.done_node_ids in
    let up = is_alive ns in
    let size = length-first_done up factor 0 g.nodes.done_node_ids some_factor in
    let some : 0 < length done = elim size [
      | inl (a, b) ↦ omega (arith, a, some_done)
      | inr (a, b) ↦ omega (arith, a, some_factor)
    ] in
    elim (Bool-cases (ltb (length done) factor)) [
      | inl e ↦ rw e (record {
        segment = refl;
        which = refl;
        some_done = some;
        was_done = first_done-among up factor 0 g.nodes.done_node_ids;
        done_alive = first_done-All up factor 0 g.nodes.done_node_ids;
        alive = keep_first-All up factor (length done) g.nodes.replicating_node_ids counts;
        enough = inl (
            length-keep_first up factor (length done) g.nodes.replicating_node_ids counts
              (ground arith)
              (elim size [
                | inl (a, b) ↦ omega (arith, a, over)
                | inr (a, b) ↦ absurd (ground (arith, a, e))
              ]));
      })
      | inr e ↦ rw e (record {
        segment = refl;
        which = refl;
        some_done = some;
        was_done = first_done-among up factor 0 g.nodes.done_node_ids;
        done_alive = first_done-All up factor 0 g.nodes.done_node_ids;
        alive = tt;
        enough =
            inl
              (elim size [ inl (a, b) ↦ ground (arith, a, b, e) | inr (a, b) ↦ omega (arith, a) ]);
      })
    ]

pub extend_closed-ClosedSpec :
    (ns : List ClusterNode) (g : ClusterSegment) (factor : ℕ) (counts : Counts) (all : List ℕ)
    → All (λ id. is_alive ns id ≡ true) all
    → 0 < count_if (is_alive ns) g.nodes.done_node_ids
    → count_if (is_alive ns) g.nodes.done_node_ids
        + count_if (is_alive ns) g.nodes.replicating_node_ids
      < factor
    → ClosedSpec ns g factor all (extend_closed ns g factor counts all)
unfolding extend_closed
extend_closed-ClosedSpec ns g factor counts all up some_done under =
    let done = filter (is_alive ns) g.nodes.done_node_ids in
    let kept = filter (is_alive ns) g.nodes.replicating_node_ids in
    let cs = filter (is_closed_candidate done kept) all in
    let few : length done + length kept < factor = omega (
      arith,
      length-filter (is_alive ns) g.nodes.replicating_node_ids,
      length-filter (is_alive ns) g.nodes.done_node_ids,
      under,
    ) in
    elim (add_replicas-extends (is_in done) (is_alive ns) (length done) factor counts kept all _
      (add_replicas-Chosen (length cs) (length done) factor counts cs kept false (omega arith))
      (filter-All (is_alive ns) g.nodes.replicating_node_ids) up few) [
        | inl (e, used) ↦ rw e (inr (inr (few, used)))
        | inr (e, x) ↦ rw e (record {
          segment = refl;
          which = refl;
          some_done = omega (arith, length-filter (is_alive ns) g.nodes.done_node_ids, some_done);
          was_done = filter-among (is_alive ns) g.nodes.done_node_ids;
          done_alive = filter-All (is_alive ns) g.nodes.done_node_ids;
          alive = x.alive;
          enough = x.enough;
        })
      ]
