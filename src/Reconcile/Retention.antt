-- ===== src/Reconcile/Retention.antt =====
-- How the reconciler leaves a closed segment of a valid state, and when it deletes it.
use eventter.Base.{
  ℕ, ◌≡◌, refl, ap, sym, subst, ◌∙◌, ◌⊎◌, inl, inr, arith, Bool, true, false, ◌&&◌, not, List, [],
  ◌∷◌, Option, some, none, ◌==◌, All, any, Bool-cases, Option-cases,
}
use eventter.Base.Int.{ℤ, pos, ltb_ℤ, ◌-ℤ◌}
use eventter.Cluster.Data.{
  ClusterState, ClusterSegment, ClusterNamespace, ClusterConsumerGroup, OffsetCommit, ClusterTopic,
  Which, SegmentType, invalid, topic, consumer_group_offset_commits,
}
use eventter.Cluster.Invariant.{IsValid}
use eventter.Cluster.Queries.{get_topic}
use eventter.Cluster.Store.{Command}
use eventter.Reconcile.Outcome.{alive_node_ids, Counts, Outcome, panics, quiet, applies}
use eventter.Reconcile.Open.{default_replication_factor}
use eventter.Reconcile.Closed.{
  delete_closed, balance_closed, is_needed, is_past_retention, reconcile_closed_segment,
}
use eventter.Reconcile.OpenSettled.{alive_node_ids-alive}
use eventter.Reconcile.ClosedBalance.{ClosedSpec}
use eventter.Reconcile.ClosedSettled.{balance_closed-ClosedSpec}

-- Every consumer group that has a commit in the segment has read to its end.
abbrev pub IsRead : ClusterState → ClusterSegment → Type 0
IsRead s g =
    All
      (λ n.
        All
          (λ c. All (λ o. (o.segment_id == g.id && ltb_ℤ o.offset g.size) ≡ false) c.offset_commits)
          n.consumer_groups)
      s.namespaces

-- The topic keeps segments for a time, which is over, and everyone has read the segment.
pub record IsExpired (now : ℤ) (s : ClusterState) (g : ClusterSegment) : Type 0 where
  pub owner : ClusterTopic
  pub found : get_topic s g.owner_namespace g.owner_name ≡ some owner
  pub limited : ltb_ℤ (pos 0) owner.retention ≡ true
  pub over : ltb_ℤ g.closed_at (now -ℤ owner.retention) ≡ true
  pub done : IsRead s g

-- What a segment may be deleted for.
abbrev pub MayDelete : ℤ → ClusterState → ClusterSegment → SegmentType → Type 0
MayDelete now s g invalid = ⊥
MayDelete now s g topic = (get_topic s g.owner_namespace g.owner_name ≡ none) ⊎ IsExpired now s g
MayDelete now s g consumer_group_offset_commits = Unit

-- The number of nodes that are to have the segment.
abbrev pub closed_factor : ClusterState → ClusterSegment → SegmentType → Option ℕ
closed_factor s g invalid = some default_replication_factor
closed_factor s g topic = elim (get_topic s g.owner_namespace g.owner_name) [
  | none ↦ none
  | some t ↦ some t.replication_factor
]
closed_factor s g consumer_group_offset_commits = none

pub record Balances (s : ClusterState) (g : ClusterSegment) (o : Outcome) : Type 0 where
  pub factor : ℕ
  pub wanted : closed_factor s g g.type ≡ some factor
  pub ends : ClosedSpec s.nodes g factor (alive_node_ids s.nodes) o

abbrev pub ClosedOutcome : ℤ → ClusterState → ClusterSegment → Outcome → Type 0
ClosedOutcome now s g (applies (Command.delete_segment d) counts) =
    (d.id ≡ g.id) × (d.which ≡ Which.closed_which) × MayDelete now s g g.type
ClosedOutcome now s g o = Balances s g o

module _ (g : ClusterSegment) where
  abbrev is_open_commit : OffsetCommit → Bool
  is_open_commit o = o.segment_id == g.id && ltb_ℤ o.offset g.size

  any-All :
      (os : List OffsetCommit)
      → any is_open_commit os ≡ false
      → All (λ o. is_open_commit o ≡ false) os
  any-All [] h = tt
  any-All (o ∷ os) h = ground (arith, h, any-All os)

  any-groups :
      (cs : List ClusterConsumerGroup)
      → any (λ c. any is_open_commit c.offset_commits) cs ≡ false
      → All (λ c. All (λ o. is_open_commit o ≡ false) c.offset_commits) cs
  any-groups [] h = tt
  any-groups (c ∷ cs) h =
      (any-All c.offset_commits (ground (arith, h)), any-groups cs (ground (arith, h)))

  any-namespaces :
      (ns : List ClusterNamespace)
      → any (λ n. any (λ c. any is_open_commit c.offset_commits) n.consumer_groups) ns ≡ false
      → All
          (λ n. All (λ c. All (λ o. is_open_commit o ≡ false) c.offset_commits) n.consumer_groups)
          ns
  any-namespaces [] h = tt
  any-namespaces (n ∷ ns) h =
      (any-groups n.consumer_groups (ground (arith, h)), any-namespaces ns (ground (arith, h)))

is_needed-IsRead : (s : ClusterState) (g : ClusterSegment) → is_needed s g ≡ false → IsRead s g
unfolding is_needed
is_needed-IsRead s g h = any-namespaces g s.namespaces h

balanced :
    (now : ℤ) (s : ClusterState) (g : ClusterSegment) (o : Outcome)
    → Balances s g o
    → ClosedOutcome now s g o
balanced now s g panics b = b
balanced now s g (quiet counts) b = b
balanced now s g (applies (Command.delete_segment d) counts) b = absurd b.ends
balanced now s g (applies cmd counts) b = b

balances :
    (s : ClusterState) (g : ClusterSegment) (factor : ℕ) (counts : Counts)
    → IsValid s
    → closed_factor s g g.type ≡ some factor
    → Balances s g (balance_closed s.nodes g factor counts (alive_node_ids s.nodes))
balances s g factor counts v wanted = record {
  factor = factor;
  wanted = wanted;
  ends =
      balance_closed-ClosedSpec s.nodes g factor counts (alive_node_ids s.nodes)
        (alive_node_ids-alive s.nodes v.nodes_unique);
}

-- Of a valid state, `reconcileClosedSegment` deletes a closed segment only if it holds offset
-- commits, its topic does not exist, or the topic's retention has passed and every commit in the
-- segment is at its end; an update of its nodes keeps an alive node that had it, gives it alive
-- nodes only, and as many as the topic wants or, if there are too few alive nodes, all of them; it
-- does nothing only where no alive node has the segment or the alive ones are already so, and
-- panics only where a node is not known or no replica is wanted.
pub reconcile_closed_segment-ClosedOutcome :
    (now : ℤ) (s : ClusterState) (g : ClusterSegment) (counts : Counts)
    → IsValid s
    → ClosedOutcome now s g (reconcile_closed_segment now s (alive_node_ids s.nodes) g counts)
unfolding reconcile_closed_segment
reconcile_closed_segment-ClosedOutcome now s g counts v = by_type g.type refl
  where
    result : Type 0
    result =
        ClosedOutcome now s g (reconcile_closed_segment now s (alive_node_ids s.nodes) g counts)

    deletes :
        MayDelete now s g g.type
        → reconcile_closed_segment now s (alive_node_ids s.nodes) g counts
          ≡ applies (delete_closed g) counts
        → result
    deletes why e = subst (ClosedOutcome now s g) (sym e) (refl, refl, why)

    keeps :
        (factor : ℕ)
        → closed_factor s g g.type ≡ some factor
        → reconcile_closed_segment now s (alive_node_ids s.nodes) g counts
          ≡ balance_closed s.nodes g factor counts (alive_node_ids s.nodes)
        → result
    keeps factor wanted e =
        subst (ClosedOutcome now s g) (sym e)
          (balanced now s g _ (balances s g factor counts v wanted))

    by_topic :
        g.type ≡ topic
        → (t : ClusterTopic) → get_topic s g.owner_namespace g.owner_name ≡ some t
        → result
    by_topic k t e = elim (Bool-cases (is_past_retention now t g && not (is_needed s g))) [
      | inr f ↦
          keeps t.replication_factor (ap (closed_factor s g) k ∙ rw (closed_factor, e) refl)
            (rw (reconcile_closed_segment, k, e, f) refl)
      | inl f ↦
          let expired : IsExpired now s g = record {
            owner = t;
            found = e;
            limited = ground (arith, f);
            over = ground (arith, f);
            done = is_needed-IsRead s g (ground (arith, f));
          } in
          deletes (subst (MayDelete now s g) (sym k) (inr expired))
            (rw (reconcile_closed_segment, k, e, f) refl)
    ]

    by_type : (k : SegmentType) → g.type ≡ k → result
    by_type invalid k =
        keeps default_replication_factor (ap (closed_factor s g) k)
          (rw (reconcile_closed_segment, k) refl)
    by_type topic k = elim (Option-cases (get_topic s g.owner_namespace g.owner_name)) [
      | inl e ↦
          deletes (subst (MayDelete now s g) (sym k) (inl e))
            (rw (reconcile_closed_segment, k, e) refl)
      | inr (t, e) ↦ by_topic k t e
    ]
    by_type consumer_group_offset_commits k =
        deletes (subst (MayDelete now s g) (sym k) tt) (rw (reconcile_closed_segment, k) refl)
