-- ===== src/Cluster/Insertion.antt =====
-- An insertion sort and a linear search, which do what is asked of Go's package sort.
use eventter.Base.{ℕ, zero, suc, ◌<◌, ◌≤◌, ◌≡◌, refl, ap, arith, inl, inr}
use eventter.Base.{Bool, true, false, List, [], ◌∷◌, leb, if◌then◌else◌, All, Bool-cases}
use eventter.Base.Ordered.{IsSorted}
use eventter.Cluster.Sort.{SortLib}
use mathlib.Core.List.{Perm}
use mathlib.Core.List.Perm

abbrev pub insert : {A : Type 0} → (A → ℕ) → A → List A → List A
insert key x [] = x ∷ []
insert key x (y ∷ ys) = if leb (key x) (key y) then x ∷ y ∷ ys else y ∷ insert key x ys

abbrev pub sort : {A : Type 0} → (A → ℕ) → List A → List A
sort key [] = []
sort key (x ∷ xs) = insert key x (sort key xs)

module _ {A : Type 0} (key : A → ℕ) where
  All-insert :
      (low : ℕ) (x : A) (ys : List A)
      → low ≤ key x
      → All (λ y. low ≤ key y) ys
      → All (λ y. low ≤ key y) (insert key x ys)
  All-insert low x [] h a = (h, tt)
  All-insert low x (y ∷ ys) h a = ground (arith, All-insert low x ys h a.1)

  All-le :
      (low high : ℕ) (ys : List A)
      → low ≤ high
      → All (λ y. high ≤ key y) ys
      → All (λ y. low ≤ key y) ys
  All-le low high [] h a = tt
  All-le low high (y ∷ ys) h a = (omega (arith, a.0), All-le low high ys h a.1)

  IsSorted-insert : (x : A) (ys : List A) → IsSorted key ys → IsSorted key (insert key x ys)
  IsSorted-insert x [] s = (tt, tt)
  IsSorted-insert x (y ∷ ys) s = elim (Bool-cases (leb (key x) (key y))) [
    | inl e ↦ rw e ((ground arith, All-le (key x) (key y) ys (ground arith) s.0), s)
    | inr e ↦ rw e (All-insert (key y) x ys (ground arith) s.0, IsSorted-insert x ys s.1)
  ]

  pub sort-IsSorted : (xs : List A) → IsSorted key (sort key xs)
  sort-IsSorted [] = tt
  sort-IsSorted (x ∷ xs) = IsSorted-insert x (sort key xs) (sort-IsSorted xs)

  insert-Perm : (x : A) (ys : List A) → Perm (insert key x ys) (x ∷ ys)
  insert-Perm x [] = Perm.refl (x ∷ [])
  insert-Perm x (y ∷ ys) = elim (Bool-cases (leb (key x) (key y))) [
    | inl e ↦ rw e (Perm.refl (x ∷ y ∷ ys))
    | inr e ↦ rw e (Perm.trans (Perm.cons y (insert-Perm x ys)) (Perm.swap x y ys))
  ]

  pub sort-Perm : (xs : List A) → Perm (sort key xs) xs
  sort-Perm [] = Perm.nil
  sort-Perm (x ∷ xs) = Perm.trans (insert-Perm x (sort key xs)) (Perm.cons x (sort-Perm xs))

abbrev pub search_up : ℕ → (ℕ → Bool) → ℕ
search_up zero f = zero
search_up (suc n) f = if f zero then zero else suc (search_up n (λ i. f (suc i)))

pub search_up-least :
    (n : ℕ) (f : ℕ → Bool) (i : ℕ)
    → i ≤ n
    → ((j : ℕ) → j < i → f j ≡ false)
    → ((j : ℕ) → i ≤ j → j < n → f j ≡ true)
    → search_up n f ≡ i
search_up-least zero f zero h low high = refl
search_up-least zero f (suc i) h low high = absurd (omega arith)
search_up-least (suc n) f zero h low high = rw (high zero (omega arith) (omega arith))
search_up-least (suc n) f (suc i) h low high = rw (low zero (omega arith)) (
    ap suc (
      search_up-least n (λ j. f (suc j)) i (omega arith) (λ j l. low (suc j) (omega arith))
        (λ j l u. high (suc j) (omega arith) (omega arith))))

abbrev pub insertion : SortLib
insertion = record {
  slice = λ A key xs. sort key xs;
  slice_sorts = λ A key xs. sort-IsSorted key xs;
  slice_keeps = λ A key xs. sort-Perm key xs;
  search = search_up;
  search_least = search_up-least;
}
