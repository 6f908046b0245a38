-- ===== src/Handlers/Replication.antt =====
-- The nodes that replicate a new segment.
use eventter.Base.{
  ℕ, zero, suc, ◌+◌, ◌-◌, ◌≤◌, ◌<◌, ◌≡◌, refl, ap, sym, subst, ◌∙◌, ◌⊎◌, inl, inr, arith, Bool,
  true, ◌&&◌, not, List, [], ◌∷◌, ◌++◌, append_assoc, append-nil, ◌==◌, ltb, length, length-append,
  filter, count_if, remove_at, get_elem?, All, Bool-cases, some,
}
use eventter.Cluster.Data.{ClusterState, ClusterNode}
use eventter.Cluster.Invariant.{IsValid}
use eventter.Reconcile.Outcome.{is_alive, alive_node_ids, Counts, start_counts}
use eventter.Reconcile.Replicas.{least_at}
use eventter.Reconcile.Picks.{least_at-IsBest, length-remove_at, count_if-taken}
use eventter.Reconcile.Kept.{count_if-All, All-count_if}
use eventter.Reconcile.OpenSettled.{alive_node_ids-alive}
use eventter.Handlers.Opening.{take_replicas, candidate_ids, replica_ids}

-- What is taken of the candidates, and what is left.
record Taken (limit : ℕ) (cs reps out : List ℕ) : Type 0 where
  new : List ℕ
  left : List ℕ
  whole : out ≡ reps ++ new
  split : (p : ℕ → Bool) → count_if p cs ≡ count_if p new + count_if p left
  enough : (left ≡ []) ⊎ (limit ≤ length out)
  within : (new ≡ []) ⊎ (length out ≤ limit)

Taken-none :
    (limit : ℕ) (cs reps : List ℕ) → (cs ≡ []) ⊎ (limit ≤ length reps) → Taken limit cs reps reps
Taken-none limit cs reps h = record {
  new = [];
  left = cs;
  whole = sym (append-nil reps);
  split = λ p. omega arith;
  enough = h;
  within = inl refl;
}

Taken-more :
    (limit i id : ℕ) (cs reps out : List ℕ)
    → get_elem? cs i ≡ some id
    → length reps < limit
    → Taken limit (remove_at cs i) (reps ++ (id ∷ [])) out
    → Taken limit cs reps out
Taken-more limit i id cs reps out at room t = record {
  new = id ∷ t.new;
  left = t.left;
  whole = t.whole ∙ append_assoc reps (id ∷ []) t.new;
  split = λ p. ground (arith, count_if-taken p cs i id at, t.split p);
  enough = t.enough;
  within = inr (elim t.within [
    | inl e ↦ omega (
      arith,
      ap length t.whole,
      length-append (reps ++ (id ∷ [])) t.new,
      ap length e,
      length-append reps (id ∷ []),
    )
    | inr h ↦ h
  ]);
}

take_replicas-Taken :
    (fuel limit : ℕ) (counts : Counts) (cs reps : List ℕ)
    → length cs ≤ fuel
    → Taken limit cs reps (take_replicas fuel limit counts cs reps)
unfolding take_replicas
take_replicas-Taken zero limit counts [] reps h = Taken-none limit [] reps (inl refl)
take_replicas-Taken zero limit counts (c ∷ cs) reps h = absurd (omega arith)
take_replicas-Taken (suc fuel) limit counts [] reps h = Taken-none limit [] reps (inl refl)
take_replicas-Taken (suc fuel) limit counts (c ∷ cs) reps h =
    elim (Bool-cases (ltb (length reps) limit)) [
      | inr e ↦ rw e (Taken-none limit (c ∷ cs) reps (inr (ground arith)))
      | inl e ↦
          let (i, id) = least_at counts cs 1 (0, c) in
          let (at, least) = least_at-IsBest counts (c ∷ []) cs 1 0 c refl refl (ground arith, tt) in
          rw e (
            Taken-more limit i id (c ∷ cs) reps _ at (ground arith) (
              take_replicas-Taken fuel limit counts (remove_at (c ∷ cs) i) (reps ++ (id ∷ []))
                (omega (arith, length-remove_at (c ∷ cs) i id at))))
    ]

count_if-alive :
    (ns : List ClusterNode) (id : ℕ)
    → count_if (λ x. x == id) (alive_node_ids ns) ≤ count_if (λ n. n.id == id) ns
count_if-alive [] id = omega arith
count_if-alive (n ∷ ns) id = ground (arith, count_if-alive ns id)

count_if-filter : (p q : ℕ → Bool) (xs : List ℕ) → count_if p (filter q xs) ≤ count_if p xs
count_if-filter p q [] = omega arith
count_if-filter p q (x ∷ xs) = ground (arith, count_if-filter p q xs)

All-candidates :
    (p : ℕ → Bool) (primary : ℕ) (xs : List ℕ)
    → All (λ x. p x ≡ true) xs
    → All (λ x. (p x && not (x == primary)) ≡ true) (filter (λ x. not (x == primary)) xs)
All-candidates p primary [] a = tt
All-candidates p primary (x ∷ xs) a = ground (arith, a.0, All-candidates p primary xs a.1)

-- Replicas of a node: other nodes, alive, each of them once, as many as are wanted beside the
-- primary, or all that there are.
pub record Replicas (s : ClusterState) (factor primary : ℕ) (replicas : List ℕ) : Type 0 where
  pub others : All (λ id. (is_alive s.nodes id && not (id == primary)) ≡ true) replicas
  pub once : (id : ℕ) → count_if (λ x. x == id) replicas ≤ 1
  pub most : length replicas ≤ factor - 1
  pub enough :
      (length replicas ≡ factor - 1)
      ⊎ ((id : ℕ)
          → count_if (λ x. x == id) replicas ≡ count_if (λ x. x == id) (candidate_ids s primary))

-- In a valid state, the replicas that `txSegmentOpen` chooses are alive nodes other than the
-- primary, each once, at most one fewer than the replication factor, and just as many or else all
-- such nodes.
pub replica_ids-Replicas :
    (s : ClusterState) (factor primary : ℕ)
    → IsValid s
    → Replicas s factor primary (replica_ids s factor primary)
unfolding replica_ids
replica_ids-Replicas s factor primary v = elim (Bool-cases (ltb 1 factor)) [
  | inr e ↦ rw e (record {
    others = tt;
    once = λ id. omega arith;
    most = omega arith;
    enough = inl (ground arith);
  })
  | inl e ↦
      let cs = candidate_ids s primary in
      let t : Taken (factor - 1) cs []
          (take_replicas (length cs) (factor - 1) (start_counts s) cs []) =
        take_replicas-Taken (length cs) (factor - 1) (start_counts s) cs [] (omega arith) in
      let up =
        All-candidates (is_alive s.nodes) primary (alive_node_ids s.nodes)
          (alive_node_ids-alive s.nodes v.nodes_unique) in
      let ok : ℕ → Bool = λ id. is_alive s.nodes id && not (id == primary) in
      let most : length (take_replicas (length cs) (factor - 1) (start_counts s) cs [])
          ≤ factor - 1 =
        elim t.within [ inl h ↦ omega (arith, ap length t.whole, ap length h) | inr h ↦ h ] in
      rw e (record {
        others = subst (All (λ id. ok id ≡ true)) (sym t.whole) (
            count_if-All ok t.new
              (omega (arith, t.split (λ id. not (ok id)), All-count_if ok cs up)));
        once = λ id. omega (
          arith,
          ap (count_if (λ x. x == id)) t.whole,
          t.split (λ x. x == id),
          count_if-filter (λ x. x == id) (λ x. not (x == primary)) (alive_node_ids s.nodes),
          count_if-alive s.nodes id,
          v.nodes_unique id,
        );
        most = most;
        enough = elim t.enough [
          | inl h ↦ inr (λ id. omega (
            arith,
            ap (count_if (λ x. x == id)) t.whole,
            t.split (λ x. x == id),
            ap (count_if (λ x. x == id)) h,
          ))
          | inr h ↦ inl (omega (arith, h, most))
        ];
      })
]
