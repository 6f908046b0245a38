-- ===== src/Base/Ordered.antt =====
-- Lists sorted by a key, and what a permutation keeps.
use eventter.Base.Lists.{find, count_if, filter, set, remove_at, get_elem?, All}
use eventter.Base.Search.{All-set, All-remove_at, All-filter, All-get_elem?}
use Prim.Native.Nat.{ℕ, zero, suc, ◌≤◌}
use mathlib.Core.Path.{◌≡◌, refl, ap, sym, subst, ◌∙◌}
use mathlib.Core.Logic.{∥∥₁_elim}
use mathlib.Core.Bool.{Bool}
use mathlib.Core.List.{List, [], ◌∷◌, Perm, Permᴰ}
use mathlib.Core.Option.{Option, some}
use native.Mathlib.Omega.{arith}
use native.Mathlib.Nat.{ℕ_set}
use mathlib.Core.HLevel.{×_prop}

-- Every key is at least those before it.
abbrev pub IsSorted {ℓ} : {A : Type ℓ} → (A → ℕ) → List A → Type 0
IsSorted key [] = Unit {0}
IsSorted key (x ∷ xs) = All (λ y. key x ≤ key y) xs × IsSorted key xs

module _ {ℓ} {A : Type ℓ} (key : A → ℕ) where
  pub IsSorted-remove_at : (xs : List A) (i : ℕ) → IsSorted key xs → IsSorted key (remove_at xs i)
  IsSorted-remove_at [] i h = h
  IsSorted-remove_at (x ∷ xs) zero h = h.1
  IsSorted-remove_at (x ∷ xs) (suc i) h =
      (All-remove_at (λ y. key x ≤ key y) xs i h.0, IsSorted-remove_at xs i h.1)

  pub IsSorted-filter : (q : A → Bool) (xs : List A) → IsSorted key xs → IsSorted key (filter q xs)
  IsSorted-filter q [] h = h
  IsSorted-filter q (x ∷ xs) h =
      ground (arith, All-filter (λ y. key x ≤ key y) q xs h.0, IsSorted-filter q xs h.1)

module _ {ℓ} {A : Type ℓ} (key : A → ℕ) where
  -- A change that keeps the key at its place.
  pub IsSorted-set :
      (y x : A) (xs : List A) (i : ℕ)
      → get_elem? xs i ≡ some x
      → key y ≡ key x
      → IsSorted key xs
      → IsSorted key (set xs i y)
  IsSorted-set y x [] i e k h = h
  IsSorted-set y x (z ∷ zs) zero e k h =
      let same : key z ≡ key y = cc in (subst (λ n. All (λ w. n ≤ key w) zs) same h.0, h.1)
  IsSorted-set y x (z ∷ zs) (suc i) e k h =
      let low : key z ≤ key x = All-get_elem? (λ w. key z ≤ key w) x zs i h.0 e in
      (All-set (λ w. key z ≤ key w) y zs i h.0 (omega arith), IsSorted-set y x zs i e k h.1)

module _ {ℓ} {A : Type ℓ} (p : A → Bool) where
  count_if-permᴰ : {xs ys : List A} → Permᴰ xs ys → count_if p xs ≡ count_if p ys
  count_if-permᴰ Permᴰ.nil = refl
  count_if-permᴰ (Permᴰ.cons e t) = ground (arith, ap p e, count_if-permᴰ t)
  count_if-permᴰ (Permᴰ.swap e f) = ground (arith, ap p e, ap p f)
  count_if-permᴰ (Permᴰ.trans t u) = count_if-permᴰ t ∙ count_if-permᴰ u

  pub count_if-perm : {xs ys : List A} → Perm xs ys → count_if p xs ≡ count_if p ys
  count_if-perm t = ∥∥₁_elim t (ℕ_set _ _) count_if-permᴰ

  find-permᴰ : {xs ys : List A} → Permᴰ xs ys → count_if p xs ≤ 1 → find p xs ≡ find p ys
  find-permᴰ Permᴰ.nil h = refl
  find-permᴰ (Permᴰ.cons e t) h = ground (arith, e, find-permᴰ t)
  find-permᴰ (Permᴰ.swap e f) h = ground (arith, e, f)
  find-permᴰ (Permᴰ.trans t u) h = find-permᴰ t h ∙ find-permᴰ u (omega (arith, count_if-permᴰ t))

  -- Where at most one element passes, a permutation does not change which one is found.
  pub find-perm :
      {xs ys : List A} → IsSet (Option A) → Perm xs ys → count_if p xs ≤ 1 → find p xs ≡ find p ys
  find-perm s t h = ∥∥₁_elim t (s _ _) (λ d. find-permᴰ d h)

module _ {ℓ} {A : Type ℓ} (P : A → Type 0) where
  All-permᴰ : {xs ys : List A} → Permᴰ xs ys → All P ys → All P xs
  All-permᴰ Permᴰ.nil h = h
  All-permᴰ (Permᴰ.cons e t) h = (subst P (sym e) h.0, All-permᴰ t h.1)
  All-permᴰ (Permᴰ.swap e f) h = (subst P (sym e) h.1.0, (subst P (sym f) h.0, h.1.1))
  All-permᴰ (Permᴰ.trans t u) h = All-permᴰ t (All-permᴰ u h)

  All-prop : ((x : A) → IsProp (P x)) → (xs : List A) → IsProp (All P xs)
  All-prop h [] = hlevel
  All-prop h (x ∷ xs) = ×_prop (h x) (All-prop h xs)

  pub All-perm : {xs ys : List A} → ((x : A) → IsProp (P x)) → Perm xs ys → All P ys → All P xs
  All-perm {xs = xs} h t a = ∥∥₁_elim t (All-prop h xs) (λ d. All-permᴰ d a)
