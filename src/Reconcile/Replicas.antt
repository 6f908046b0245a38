-- ===== src/Reconcile/Replicas.antt =====
-- Choosing the nodes that are to replicate a segment.
use eventter.Base.{
  ℕ, zero, suc, ◌+◌, Bool, true, ◌&&◌, List, [], ◌∷◌, ◌++◌, ◌==◌, ltb, if◌then◌else◌, length, any,
  remove_at,
}
use eventter.Base.Int.{ltb_ℤ}
use eventter.Reconcile.Outcome.{Counts, bump, lower}

abbrev pub is_in : List ℕ → ℕ → Bool
is_in ids id = any (λ x. id == x) ids

-- The loop over the candidates: the index and the id of the first one with the least count, where
-- `best` is what it has found so far.
unfoldable pub least_at : Counts → List ℕ → ℕ → ℕ × ℕ → ℕ × ℕ
least_at counts [] i best = best
least_at counts (c ∷ cs) i (j, b) =
    least_at counts cs (suc i) (if ltb_ℤ (counts c) (counts b) then (i, c) else (j, b))

pub record Added : Type 0 where
  pub replicas : List ℕ
  pub counts : Counts
  pub added : Bool

-- `for len(candidateNodeIDs) > 0 && … < limit`, where `base` nodes count in front of the replicas;
-- the fuel is the number of candidates, of which each round takes one.
unfoldable pub add_replicas : ℕ → ℕ → ℕ → Counts → List ℕ → List ℕ → Bool → Added
add_replicas zero base limit counts candidates replicas added = record {
  replicas = replicas;
  counts = counts;
  added = added;
}
add_replicas (suc fuel) base limit counts [] replicas added = record {
  replicas = replicas;
  counts = counts;
  added = added;
}
add_replicas (suc fuel) base limit counts (c ∷ cs) replicas added =
    let (i, id) = least_at counts cs 1 (0, c) in
    let rest =
      add_replicas fuel base limit (bump counts id) (remove_at (c ∷ cs) i) (replicas ++ (id ∷ []))
        true in
    if ltb (base + length replicas) limit
    then rest
    else record { replicas = replicas; counts = counts; added = added }

-- The loop that keeps the first alive replicas, `k` kept so far counting those in front of them, and
-- lowers the count of every other node.
unfoldable pub keep_first : (ℕ → Bool) → ℕ → ℕ → List ℕ → Counts → List ℕ × Counts
keep_first alive limit k [] counts = ([], counts)
keep_first alive limit k (id ∷ ids) counts =
    let (kept, after) = keep_first alive limit (suc k) ids counts in
    let dropped = keep_first alive limit k ids (lower counts id) in
    if alive id && ltb k limit then (id ∷ kept, after) else dropped
