-- ===== src/Reconcile/Kept.antt =====
-- What is kept of the replicas that there are, and what a test that all of a list pass keeps of it.
use eventter.Base.{
  ℕ, suc, ◌+◌, ◌≤◌, ◌≡◌, refl, inl, inr, arith, Bool, true, ◌&&◌, not, List, [], ◌∷◌, ltb, length,
  All, filter, count_if, Bool-cases,
}
use eventter.Reconcile.Outcome.{Counts, lower}
use eventter.Reconcile.Replicas.{keep_first}

pub count_if-All :
    (p : ℕ → Bool) (ids : List ℕ) → count_if (λ x. not (p x)) ids ≡ 0 → All (λ x. p x ≡ true) ids
count_if-All p [] h = tt
count_if-All p (x ∷ ids) h = ground (arith, count_if-All p ids)

pub All-count_if :
    (p : ℕ → Bool) (ids : List ℕ) → All (λ x. p x ≡ true) ids → count_if (λ x. not (p x)) ids ≡ 0
All-count_if p [] a = refl
All-count_if p (x ∷ ids) a = ground (arith, a.0, All-count_if p ids a.1)

pub count_if-whole :
    (p : ℕ → Bool) (ids : List ℕ) → All (λ x. p x ≡ true) ids → count_if p ids ≡ length ids
count_if-whole p [] a = refl
count_if-whole p (x ∷ ids) a = ground (arith, a.0, count_if-whole p ids a.1)

pub filter-All : (p : ℕ → Bool) (ids : List ℕ) → All (λ x. p x ≡ true) (filter p ids)
filter-All p [] = tt
filter-All p (x ∷ ids) = ground (arith, filter-All p ids)

pub filter-whole : (p : ℕ → Bool) (ids : List ℕ) → All (λ x. p x ≡ true) ids → filter p ids ≡ ids
filter-whole p [] a = refl
filter-whole p (x ∷ ids) a = ground (arith, a.0, filter-whole p ids a.1)

pub length-filter : (p : ℕ → Bool) (ids : List ℕ) → length (filter p ids) ≡ count_if p ids
length-filter p [] = refl
length-filter p (x ∷ ids) = ground (arith, length-filter p ids)

-- What is kept is alive, and there is as much of it as may be.
pub keep_first-All :
    (alive : ℕ → Bool) (limit k : ℕ) (ids : List ℕ) (counts : Counts)
    → All (λ x. alive x ≡ true) (keep_first alive limit k ids counts).0
unfolding keep_first
keep_first-All alive limit k [] counts = tt
keep_first-All alive limit k (id ∷ ids) counts = elim (Bool-cases (alive id && ltb k limit)) [
  | inl e ↦ rw e (ground arith, keep_first-All alive limit (suc k) ids counts)
  | inr e ↦ rw e (keep_first-All alive limit k ids (lower counts id))
]

pub length-keep_first :
    (alive : ℕ → Bool) (limit k : ℕ) (ids : List ℕ) (counts : Counts)
    → k ≤ limit
    → limit ≤ k + count_if alive ids
    → k + length (keep_first alive limit k ids counts).0 ≡ limit
unfolding keep_first
length-keep_first alive limit k [] counts h g = omega arith
length-keep_first alive limit k (id ∷ ids) counts h g =
    elim (Bool-cases (alive id && ltb k limit)) [
      | inl e ↦ rw e (
          omega
            (arith, length-keep_first alive limit (suc k) ids counts (ground arith) (ground arith)))
      | inr e ↦ rw e (length-keep_first alive limit k ids (lower counts id) h (ground arith))
    ]
