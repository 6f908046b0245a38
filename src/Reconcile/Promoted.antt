-- ===== src/Reconcile/Promoted.antt =====
-- What the reconciler makes of an open segment whose primary is dead.
use eventter.Base.{
  ℕ, ◌≡◌, refl, ap, sym, subst, ◌⊎◌, inl, inr, arith, Bool, true, false, ◌&&◌, not, List, [], ◌∷◌,
  Option, some, String, ◌==◌, if◌then◌else◌, All, filter, Bool-cases,
}
use eventter.Base.Int.{ℤ, negsuc}
use eventter.Cluster.Data.{ClusterSegment, ClusterNode, SegmentNodesUpdate, Which}
use eventter.Cluster.Store.{Command}
use eventter.Reconcile.Outcome.{is_alive, Counts, Outcome, panics, quiet, applies}
use eventter.Reconcile.Replicas.{is_in}
use eventter.Reconcile.Open.{
  Best, unknown_node, gives_up, best, open_nodes, best_replica, with_dead_primary,
}
use eventter.Reconcile.Largest.{size_at, at_most, IsBest, BestSpec, best_replica-BestSpec}

module _ (size_of : ℕ → ℕ → String → Option ℤ) (ns : List ClusterNode) (segment_id : ℕ) where
  -- The new nodes of the segment.
  pub record Promoted (g : ClusterSegment) (u : SegmentNodesUpdate) : Type 0 where
    pub segment : u.id ≡ g.id
    pub which : u.which ≡ Which.open_which
    pub some_node : (u.nodes.primary_node_id == 0) ≡ false
    pub was_replica : is_in g.nodes.replicating_node_ids u.nodes.primary_node_id ≡ true
    pub largest : ℤ
    pub size : size_at size_of ns segment_id u.nodes.primary_node_id ≡ some largest
    pub most :
        All (λ r. at_most size_of ns segment_id largest r ≡ true) g.nodes.replicating_node_ids
    pub others :
        (id : ℕ)
        → is_in u.nodes.replicating_node_ids id ≡ (
            is_in g.nodes.replicating_node_ids id
            && (not (id == u.nodes.primary_node_id) && is_alive ns id))

  -- What becomes of the segment: a panic on a node that is not known; nothing, where there is no
  -- alive replica or a node gives no size; or a new primary, which is an alive replica with the
  -- largest size, and the other alive replicas.
  abbrev pub PromotedSpec : ClusterSegment → Outcome → Type 0
  PromotedSpec g panics =
      BestSpec size_of ns segment_id g.nodes.replicating_node_ids 0 (negsuc 0) unknown_node
  PromotedSpec g (quiet counts) =
      BestSpec size_of ns segment_id g.nodes.replicating_node_ids 0 (negsuc 0) gives_up
      ⊎ IsBest size_of ns segment_id g.nodes.replicating_node_ids 0 (negsuc 0) 0
  PromotedSpec g (applies (Command.update_segment_nodes u) counts) = Promoted g u
  PromotedSpec g (applies _ counts) = ⊥

  is_in-filter :
      (p : ℕ → Bool) (ids : List ℕ) (id : ℕ) → is_in (filter p ids) id ≡ (is_in ids id && p id)
  is_in-filter p [] id = refl
  is_in-filter p (x ∷ ids) id = elim (Bool-cases (id == x)) [
    | inl e ↦ let same : id ≡ x = ground arith in rw same (ground (arith, is_in-filter p ids x))
    | inr e ↦ ground (arith, is_in-filter p ids id)
  ]

  promoted :
      (g : ClusterSegment) (counts : Counts) (found : ℕ)
      → IsBest size_of ns segment_id g.nodes.replicating_node_ids 0 (negsuc 0) found
      → PromotedSpec g (
          if found == 0
          then quiet counts
          else applies
              (open_nodes g found
                (filter (λ n. not (n == found) && is_alive ns n) g.nodes.replicating_node_ids))
              counts)
  promoted g counts found b = elim (Bool-cases (found == 0)) [
    | inl e ↦
        let same : found ≡ 0 = ground arith in
        rw e (
          inr
            (subst (IsBest size_of ns segment_id g.nodes.replicating_node_ids 0 (negsuc 0)) same b))
    | inr e ↦
        let source : (is_in g.nodes.replicating_node_ids found ≡ true)
            × (size_at size_of ns segment_id found ≡ some b.largest) =
          elim b.source [ inl (f, _) ↦ absurd (ground (arith, e, f)) | inr h ↦ h ] in
        rw e (record {
          segment = refl;
          which = refl;
          some_node = e;
          was_replica = source.0;
          largest = b.largest;
          size = source.1;
          most = b.most;
          others = λ id.
              is_in-filter (λ n. not (n == found) && is_alive ns n) g.nodes.replicating_node_ids id;
        })
  ]

pub with_dead_primary-PromotedSpec :
    (size_of : ℕ → ℕ → String → Option ℤ) (ns : List ClusterNode) (g : ClusterSegment)
    (counts : Counts)
    → PromotedSpec size_of ns g.id g (with_dead_primary size_of ns g counts)
unfolding with_dead_primary
with_dead_primary-PromotedSpec size_of ns g counts =
    go g.nodes.replicating_node_ids refl _ refl
      (best_replica-BestSpec size_of ns g.id g.nodes.replicating_node_ids 0 (negsuc 0))
  where
    result : Type 0
    result = PromotedSpec size_of ns g.id g (with_dead_primary size_of ns g counts)

    found : Best
    found = best_replica size_of ns g.id g.nodes.replicating_node_ids 0 (negsuc 0)

    go :
        (rs : List ℕ)
        → g.nodes.replicating_node_ids ≡ rs
        → (b : Best) → found ≡ b
        → BestSpec size_of ns g.id g.nodes.replicating_node_ids 0 (negsuc 0) b
        → result
    go [] e b f spec =
        let step : with_dead_primary size_of ns g counts ≡ quiet counts = rw e refl in
        subst (PromotedSpec size_of ns g.id g) (sym step) (
          inr (
            subst (λ l. IsBest size_of ns g.id l 0 (negsuc 0) 0) (sym e)
              (record { largest = negsuc 0; source = inl (refl, refl); grown = refl; most = tt })))
    go (r ∷ rs) e unknown_node f spec =
        let step : with_dead_primary size_of ns g counts ≡ panics =
          rw (with_dead_primary, e, f) refl in
        subst (PromotedSpec size_of ns g.id g) (sym step) spec
    go (r ∷ rs) e gives_up f spec =
        let step : with_dead_primary size_of ns g counts ≡ quiet counts =
          rw (with_dead_primary, e, f) refl in
        subst (PromotedSpec size_of ns g.id g) (sym step) (inl spec)
    go (r ∷ rs) e (best n) f spec =
        let step : with_dead_primary size_of ns g counts ≡ (
            if n == 0
            then quiet counts
            else applies
                (open_nodes g n
                  (filter (λ m. not (m == n) && is_alive ns m) g.nodes.replicating_node_ids))
                counts) =
          rw (with_dead_primary, e, f)
            (ap
              (λ l.
                if n == 0
                then quiet counts
                else applies (open_nodes g n (filter (λ m. not (m == n) && is_alive ns m) l))
                    counts)
              e) in
        subst (PromotedSpec size_of ns g.id g) (sym step) (promoted size_of ns g.id g counts n spec)
