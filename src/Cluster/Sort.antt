-- ===== src/Cluster/Sort.antt =====
-- What the code uses of Go's package sort, as a parameter of the model with its documented laws.
use eventter.Base.{ℕ, ◌<◌, ◌≤◌, ◌≡◌, List, Bool, true, false}
use eventter.Base.Ordered.{IsSorted}
use mathlib.Core.List.{Perm}

-- `sort.Slice` by a key sorts, and keeps what it sorts; it need not be stable. `sort.Search` finds
-- the first index below `n` from which on `f` is true, if there is one, and `n` if not.
pub record SortLib : Type 1 where
  pub slice : (A : Type 0) → (A → ℕ) → List A → List A
  pub slice_sorts : (A : Type 0) (key : A → ℕ) (xs : List A) → IsSorted key (slice A key xs)
  pub slice_keeps : (A : Type 0) (key : A → ℕ) (xs : List A) → Perm (slice A key xs) xs
  pub search : ℕ → (ℕ → Bool) → ℕ
  pub search_least :
      (n : ℕ) (f : ℕ → Bool) (i : ℕ)
      → i ≤ n
      → ((j : ℕ) → j < i → f j ≡ false)
      → ((j : ℕ) → i ≤ j → j < n → f j ≡ true)
      → search n f ≡ i
