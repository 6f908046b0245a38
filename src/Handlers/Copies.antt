-- ===== src/Handlers/Copies.antt =====
-- What `SegmentReplicaClose` makes of the nodes of a segment.
use eventter.Base.{
  ℕ, ◌≡◌, refl, ap, ◌∙◌, ◌≢◌, ◌⊎◌, sym, subst, inl, inr, arith, true, ◌&&◌, ◌||◌, not, List, [],
  ◌∷◌, none, some, ◌==◌, count_if, count_if-append, Bool-cases, Option-cases,
}
use eventter.Base.Int.{ℤ, pos, negsuc}
use eventter.Cluster.Data.{ClusterState, ClusterSegment, SegmentNodesUpdate, Which}
use eventter.Cluster.Sort.{SortLib}
use eventter.Cluster.Queries.{get_closed_segment}
use eventter.Reconcile.Replicas.{is_in}
use eventter.Reconcile.Candidates.{in-append}
use eventter.Handlers.Closing.{
  CloseRequest, same_bytes, same_size, ReplicaClosing, not_closed, corrupted, updates, without,
  done_nodes, segment_replica_close,
}

-- The node has the segment, once, and is not getting it any more; nothing changes of another node.
pub record IsDone (g : ClusterSegment) (node_id : ℕ) (u : SegmentNodesUpdate) : Type 0 where
  pub segment : (u.id ≡ g.id) × (u.which ≡ Which.closed_which)
  pub once : count_if (λ id. id == node_id) u.nodes.done_node_ids ≡ 1
  pub done :
      (id : ℕ) → is_in u.nodes.done_node_ids id ≡ (id == node_id || is_in g.nodes.done_node_ids id)
  pub left :
      (id : ℕ)
      → is_in u.nodes.replicating_node_ids id
        ≡ (is_in g.nodes.replicating_node_ids id && not (id == node_id))

is_in-without :
    (node_id : ℕ) (ids : List ℕ) (id : ℕ)
    → is_in (without node_id ids) id ≡ (is_in ids id && not (id == node_id))
is_in-without node_id [] id = refl
is_in-without node_id (x ∷ ids) id = elim (Bool-cases (x == node_id)) [
  | inl e ↦ ground (arith, e, is_in-without node_id ids id)
  | inr e ↦ ground (arith, e, is_in-without node_id ids id)
]

without-none :
    (node_id : ℕ) (ids : List ℕ) → count_if (λ id. id == node_id) (without node_id ids) ≡ 0
without-none node_id [] = refl
without-none node_id (x ∷ ids) = ground (arith, without-none node_id ids)

done_nodes-IsDone : (g : ClusterSegment) (node_id : ℕ) → IsDone g node_id (done_nodes g node_id)
done_nodes-IsDone g node_id =
    let done = g.nodes.done_node_ids in
    let left = g.nodes.replicating_node_ids in
    record {
      segment = (refl, refl);
      once = ground (
        arith,
        count_if-append (λ id. id == node_id) (without node_id done) (node_id ∷ []),
        without-none node_id done,
      );
      done = λ id. ground (
        arith,
        in-append (without node_id done) (node_id ∷ []) id,
        is_in-without node_id done id,
      );
      left = λ id. is_in-without node_id left id;
    }

-- What the replica was closed with is what the segment was closed with.
abbrev pub IsSame : CloseRequest → ClusterSegment → Type 0
IsSame request g = (request.size ≡ g.size) × (request.sha1 ≡ g.sha1)

pub record Accepted (lib : SortLib) (s : ClusterState) (request : CloseRequest)
    (u : SegmentNodesUpdate) : Type 0 where
  pub segment : ClusterSegment
  pub found : get_closed_segment lib s request.segment_id ≡ some segment
  pub same : IsSame request segment
  pub replicating : segment.nodes.replicating_node_ids ≢ []
  pub nodes : IsDone segment request.node_id u

pub record Rejected (lib : SortLib) (s : ClusterState) (request : CloseRequest) : Type 0 where
  pub segment : ClusterSegment
  pub found : get_closed_segment lib s request.segment_id ≡ some segment
  pub differs : ¬ IsSame request segment

pub record Panicked (lib : SortLib) (s : ClusterState) (request : CloseRequest) : Type 0 where
  pub segment : ClusterSegment
  pub found : get_closed_segment lib s request.segment_id ≡ some segment
  pub same : IsSame request segment
  pub replicating : segment.nodes.replicating_node_ids ≡ []

abbrev pub ReplicaSpec : SortLib → ClusterState → CloseRequest → ReplicaClosing → Type 0
ReplicaSpec lib s request not_closed = get_closed_segment lib s request.segment_id ≡ none
ReplicaSpec lib s request corrupted = Rejected lib s request
ReplicaSpec lib s request ReplicaClosing.panics = Panicked lib s request
ReplicaSpec lib s request (updates u) = Accepted lib s request u

same_bytes_sound : (xs ys : List ℕ) → same_bytes xs ys ≡ true → xs ≡ ys
same_bytes_sound [] [] h = refl
same_bytes_sound [] (y ∷ ys) h = absurd (ground (arith, h))
same_bytes_sound (x ∷ xs) [] h = absurd (ground (arith, h))
same_bytes_sound (x ∷ xs) (y ∷ ys) h =
    let tail = same_bytes_sound xs ys (ground (arith, h)) in
    let head : x ≡ y = ground (arith, h) in cc

same_bytes_refl : (xs : List ℕ) → same_bytes xs xs ≡ true
same_bytes_refl [] = refl
same_bytes_refl (x ∷ xs) = ground (arith, same_bytes_refl xs)

same_size_sound : (a b : ℤ) → same_size a b ≡ true → a ≡ b
same_size_sound (pos a) (pos b) h = ap pos (ground (arith, h))
same_size_sound (pos a) (negsuc b) h = absurd (ground (arith, h))
same_size_sound (negsuc a) (pos b) h = absurd (ground (arith, h))
same_size_sound (negsuc a) (negsuc b) h = ap negsuc (ground (arith, h))

same_size_refl : (a : ℤ) → same_size a a ≡ true
same_size_refl a = ground arith

nil_or_not : (ids : List ℕ) → (ids ≡ []) ⊎ ((x : ℕ) × (xs : List ℕ) × (ids ≡ x ∷ xs))
nil_or_not [] = inl refl
nil_or_not (x ∷ xs) = inr (x, xs, refl)

-- `SegmentReplicaClose` fails only where there is no such closed segment, or it is not of the
-- request's size and sum; panics only where it is and no node is getting the segment; and
-- otherwise, where some node is, the node has the segment, once, and is no longer getting it, and
-- nothing changes of other nodes.
pub segment_replica_close-ReplicaSpec :
    (lib : SortLib) (s : ClusterState) (request : CloseRequest)
    → ReplicaSpec lib s request (segment_replica_close lib s request)
unfolding segment_replica_close
segment_replica_close-ReplicaSpec lib s request =
    let run = segment_replica_close lib s request in
    elim (Option-cases (get_closed_segment lib s request.segment_id)) [
      | inl e ↦
          let step : run ≡ not_closed = rw (segment_replica_close, e) refl in
          subst (ReplicaSpec lib s request) (sym step) e
      | inr (g, e) ↦
          elim (Bool-cases (same_size request.size g.size && same_bytes request.sha1 g.sha1)) [
            | inl f ↦
                let same : IsSame request g = (
                  same_size_sound request.size g.size (ground (arith, f)),
                  same_bytes_sound request.sha1 g.sha1 (ground (arith, f)),
                ) in
                elim (nil_or_not g.nodes.replicating_node_ids) [
                  | inl z ↦
                      let step : run ≡ ReplicaClosing.panics =
                        rw (segment_replica_close, e) (rw f (rw z refl)) in
                      subst (ReplicaSpec lib s request) (sym step)
                        (record { segment = g; found = e; same = same; replicating = z })
                  | inr (id, ids, z) ↦
                      let step : run ≡ updates (done_nodes g request.node_id) =
                        rw (segment_replica_close, e)
                          (rw f (
                            ap
                              (λ (l : List ℕ). elim l as (λ _. ReplicaClosing) [
                                | [] ↦ ReplicaClosing.panics
                                | x ∷ xs ↦ updates (done_nodes g request.node_id)
                              ])
                              z)) in
                      subst (ReplicaSpec lib s request) (sym step) (record {
                        segment = g;
                        found = e;
                        same = same;
                        replicating = λ n. cc;
                        nodes = done_nodes-IsDone g request.node_id;
                      })
                ]
            | inr f ↦
                let step : run ≡ corrupted = rw (segment_replica_close, e) (rw f refl) in
                subst (ReplicaSpec lib s request) (sym step) (record {
                  segment = g;
                  found = e;
                  differs = λ (a, b).
                      let size : same_size request.size g.size ≡ true =
                        ap (same_size request.size) (sym a) ∙ same_size_refl request.size in
                      let sha1 : same_bytes request.sha1 g.sha1 ≡ true =
                        ap (same_bytes request.sha1) (sym b) ∙ same_bytes_refl request.sha1 in
                      ground (arith, f, size, sha1);
                })
          ]
    ]
