-- ===== src/Base/Search.antt =====
-- The loop that finds an element with its index, and what a change at that index does to the
-- searches and counts of a list.
use eventter.Base.Tests.{if◌then◌else◌, Bool-cases}
use eventter.Base.Lists.{find, count_if, filter, set, remove_at, get_elem?, All}
use Prim.Native.Nat.{ℕ, zero, suc, ◌+◌}
use mathlib.Core.Path.{◌≡◌, refl, subst}
use mathlib.Core.Logic.{inl, inr}
use mathlib.Core.Bool.{Bool, true, false}
use mathlib.Core.List.{List, [], ◌∷◌, ◌++◌}
use mathlib.Core.Option.{Option, none, some}
use native.Mathlib.Omega.{arith}

unfoldable pub find_index {ℓ} : {A : Type ℓ} → (A → Bool) → List A → Option (A × ℕ)
find_index p [] = none
find_index p (x ∷ xs) =
    if p x
    then some (x, 0)
    else elim (find_index p xs) [ none ↦ none | some (y, i) ↦ some (y, suc i) ]

module _ {ℓ} {A : Type ℓ} (p : A → Bool) where
  pub find_index-none : (xs : List A) → find_index p xs ≡ none → find p xs ≡ none
  unfolding find_index
  find_index-none [] e = refl
  find_index-none (x ∷ xs) e = ground (arith, find_index-none xs)

  pub count_if-none : (xs : List A) → find p xs ≡ none → count_if p xs ≡ 0
  count_if-none [] e = refl
  count_if-none (x ∷ xs) e = ground (arith, count_if-none xs)

  pub none-count_if : (xs : List A) → count_if p xs ≡ 0 → find p xs ≡ none
  none-count_if [] e = refl
  none-count_if (x ∷ xs) e = ground (arith, none-count_if xs)

-- `find_index` finds `x` at index `i`: a list split there.
module _ {ℓ} {A : Type ℓ} (p : A → Bool) where
  pub find_index-find :
      (xs : List A) (x : A) (i : ℕ) → find_index p xs ≡ some (x, i) → find p xs ≡ some x
  unfolding find_index
  find_index-find [] x i e = cc
  find_index-find (y ∷ xs) x zero e = ground arith
  find_index-find (y ∷ xs) x (suc i) e = ground (arith, find_index-find xs x i)

  pub count_if-set :
      (q : A → Bool) (y : A) (xs : List A) (x : A) (i : ℕ)
      → find_index p xs ≡ some (x, i)
      → count_if q (set xs i y) + (if q x then 1 else 0) ≡ count_if q xs + (if q y then 1 else 0)
  unfolding find_index
  count_if-set q y [] x i e = cc
  count_if-set q y (z ∷ xs) x zero e = ground arith
  count_if-set q y (z ∷ xs) x (suc i) e = ground (arith, count_if-set q y xs x i)

  pub count_if-remove_at :
      (q : A → Bool) (xs : List A) (x : A) (i : ℕ)
      → find_index p xs ≡ some (x, i)
      → count_if q (remove_at xs i) + (if q x then 1 else 0) ≡ count_if q xs
  unfolding find_index
  count_if-remove_at q [] x i e = cc
  count_if-remove_at q (z ∷ xs) x zero e = ground arith
  count_if-remove_at q (z ∷ xs) x (suc i) e = ground (arith, count_if-remove_at q xs x i)

  pub find-set_self :
      (y : A) (xs : List A) (x : A) (i : ℕ)
      → find_index p xs ≡ some (x, i)
      → p y ≡ true
      → find p (set xs i y) ≡ some y
  unfolding find_index
  find-set_self y [] x i e h = cc
  find-set_self y (z ∷ xs) x zero e h = ground arith
  find-set_self y (z ∷ xs) x (suc i) e h = ground (arith, find-set_self y xs x i)

  pub find-set_other :
      (q : A → Bool) (y : A) (xs : List A) (x : A) (i : ℕ)
      → find_index p xs ≡ some (x, i)
      → q x ≡ false
      → q y ≡ false
      → find q (set xs i y) ≡ find q xs
  unfolding find_index
  find-set_other q y [] x i e h k = cc
  find-set_other q y (z ∷ xs) x zero e h k = ground arith
  find-set_other q y (z ∷ xs) x (suc i) e h k = ground (arith, find-set_other q y xs x i)

  pub find-remove_at_other :
      (q : A → Bool) (xs : List A) (x : A) (i : ℕ)
      → find_index p xs ≡ some (x, i)
      → q x ≡ false
      → find q (remove_at xs i) ≡ find q xs
  unfolding find_index
  find-remove_at_other q [] x i e h = cc
  find-remove_at_other q (z ∷ xs) x zero e h = ground arith
  find-remove_at_other q (z ∷ xs) x (suc i) e h = ground (arith, find-remove_at_other q xs x i)

  pub find-append_self :
      (y : A) (xs : List A) → find p xs ≡ none → p y ≡ true → find p (xs ++ (y ∷ [])) ≡ some y
  find-append_self y [] e h = rw h
  find-append_self y (x ∷ xs) e h = ground (arith, find-append_self y xs)

  pub find-append_other : (y : A) (xs : List A) → p y ≡ false → find p (xs ++ (y ∷ [])) ≡ find p xs
  find-append_other y [] h = rw h
  find-append_other y (x ∷ xs) h = ground (arith, find-append_other y xs)

module _ {ℓ κ} {A : Type ℓ} (P : A → Type κ) where
  pub All-set : (y : A) (xs : List A) (i : ℕ) → All P xs → P y → All P (set xs i y)
  All-set y [] i h k = h
  All-set y (x ∷ xs) zero h k = (k, h.1)
  All-set y (x ∷ xs) (suc i) h k = (h.0, All-set y xs i h.1 k)

  pub All-remove_at : (xs : List A) (i : ℕ) → All P xs → All P (remove_at xs i)
  All-remove_at [] i h = h
  All-remove_at (x ∷ xs) zero h = h.1
  All-remove_at (x ∷ xs) (suc i) h = (h.0, All-remove_at xs i h.1)

  pub All-append_one : (y : A) (xs : List A) → All P xs → P y → All P (xs ++ (y ∷ []))
  All-append_one y [] h k = (k, h)
  All-append_one y (x ∷ xs) h k = (h.0, All-append_one y xs h.1 k)

  pub All-filter : (q : A → Bool) (xs : List A) → All P xs → All P (filter q xs)
  All-filter q [] h = h
  All-filter q (x ∷ xs) h = ground (arith, All-filter q xs h.1)

  pub All-find : (q : A → Bool) (xs : List A) (x : A) → All P xs → find q xs ≡ some x → P x
  All-find q [] x h e = cc
  All-find q (y ∷ xs) x h e = elim (Bool-cases (q y)) [
    | inl t ↦ let same : y ≡ x = ground arith in subst P same h.0
    | inr f ↦ All-find q xs x h.1 (rw f at e)
  ]

  pub All-get_elem? : (x : A) (xs : List A) (i : ℕ) → All P xs → get_elem? xs i ≡ some x → P x
  All-get_elem? x [] i h e = cc
  All-get_elem? x (y ∷ xs) zero h e = let same : y ≡ x = cc in subst P same h.0
  All-get_elem? x (y ∷ xs) (suc i) h e = All-get_elem? x xs i h.1 e
