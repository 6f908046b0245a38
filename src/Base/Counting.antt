-- ===== src/Base/Counting.antt =====
-- Counting, searching and replacing in a list by a Boolean test.
use Prim.Native.Nat.{◌+◌, ◌≤◌, ◌<◌}
use mathlib.Core.Path.{◌≡◌, refl}
use mathlib.Core.Logic.{inl, inr}
use mathlib.Core.Bool.{Bool, true, false}
use mathlib.Core.List.{List, [], ◌∷◌, map}
use mathlib.Core.Option.{some}
use native.Mathlib.Omega.{arith}
use eventter.Base.Tests.{if◌then◌else◌, Bool-cases}
use eventter.Base.Lists.{length, find, count_if, update_first, drop_while}

module _ {ℓ} {A : Type ℓ} where
  pub count_if-le-length : (p : A → Bool) (xs : List A) → count_if p xs ≤ length xs
  count_if-le-length p [] = omega arith
  count_if-le-length p (x ∷ xs) = ground (arith, count_if-le-length p xs)

  pub find_passes : (p : A → Bool) (xs : List A) (x : A) → find p xs ≡ some x → p x ≡ true
  find_passes p [] x e = cc
  find_passes p (y ∷ xs) x e = ground (arith, find_passes p xs x)

  pub find_pos : (p : A → Bool) (xs : List A) (x : A) → find p xs ≡ some x → 0 < count_if p xs
  find_pos p [] x e = cc
  find_pos p (y ∷ xs) x e = ground (arith, find_pos p xs x)

  -- One element changes, so the count moves by what that element counts before and after.
  pub count_if-update_first :
      (q p : A → Bool) (f : A → A) (xs : List A) (x : A)
      → find p xs ≡ some x
      → count_if q (update_first p f xs) + (if q x then 1 else 0)
        ≡ count_if q xs + (if q (f x) then 1 else 0)
  count_if-update_first q p f [] x e = cc
  count_if-update_first q p f (y ∷ xs) x e = ground (arith, count_if-update_first q p f xs x)

  pub count_if-drop_while :
      (q p : A → Bool)
      → ((x : A) → p x ≡ true → q x ≡ false)
      → (xs : List A) → count_if q (drop_while p xs) ≡ count_if q xs
  count_if-drop_while q p h [] = refl
  count_if-drop_while q p h (x ∷ xs) = ground (arith, h x, count_if-drop_while q p h xs)

  pub count_if-map :
      (q : A → Bool) (f : A → A)
      → ((x : A) → q (f x) ≡ q x)
      → (xs : List A) → count_if q (map f xs) ≡ count_if q xs
  count_if-map q f h [] = refl
  count_if-map q f h (x ∷ xs) = ground (arith, h x, count_if-map q f h xs)

  pub find-update_first :
      (p q : A → Bool) (f : A → A) (xs : List A) (x : A)
      → find p xs ≡ some x
      → q (f x) ≡ true
      → 0 < count_if q (update_first p f xs)
  find-update_first p q f [] x e h = cc
  find-update_first p q f (y ∷ xs) x e h = ground (arith, find-update_first p q f xs x)

  pub find_of_pos :
      (p : A → Bool) (xs : List A) → 0 < count_if p xs → (x : A) × (find p xs ≡ some x)
  find_of_pos p [] h = absurd (omega arith)
  find_of_pos p (x ∷ xs) h = elim (Bool-cases (p x)) [
    | inl e ↦ (x, rw e)
    | inr e ↦ rw e (find_of_pos p xs (rw e at h))
  ]
