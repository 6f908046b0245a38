-- ===== src/Base/Named.antt =====
-- Lists whose elements have a name each, no two the same.
use eventter.Base.Tests.{if◌then◌else◌, Bool-cases, Option-cases}
use eventter.Base.Lists.{find, count_if, count_if-append, set, remove_at}
use eventter.Base.Counting.{find_passes}
use eventter.Base.Search.{
  find_index, find_index-none, find_index-find, count_if-none, none-count_if, count_if-set,
  count_if-remove_at, find-set_self, find-set_other, find-remove_at_other, find-append_self,
  find-append_other,
}
use Prim.Native.Nat.{ℕ, ◌≤◌}
use Prim.Native.String.{String}
use mathlib.Core.Path.{◌≡◌, refl, ap}
use mathlib.Core.Logic.{◌⊎◌, inl, inr}
use mathlib.Core.Bool.{Bool, true, false}
use mathlib.Core.List.{List, [], ◌∷◌, ◌++◌}
use mathlib.Core.Option.{none, some}
use native.Mathlib.Omega.{arith}
use text.Mathlib.Text.{◌==◌ as str_eq}
use text.Mathlib.TextEquality.{eq_iff}

-- A search by index and one for the element agree, and what they find passes.
pub find_index-cases {ℓ} :
    {A : Type ℓ} (p : A → Bool) (xs : List A)
    → ((find_index p xs ≡ none) × (find p xs ≡ none))
      ⊎ ((x : A) × (i : ℕ) × (find_index p xs ≡ some (x, i)) × (find p xs ≡ some x) × (p x ≡ true))
find_index-cases p xs = elim (Option-cases (find_index p xs)) [
  | inl e ↦ inl (e, find_index-none p xs e)
  | inr ((x, i), e) ↦ inr (x, i, e, found x i e, find_passes p xs x (found x i e))
]
  where
    found : (x : _) (i : ℕ) → find_index p xs ≡ some (x, i) → find p xs ≡ some x
    found x i e = find_index-find p xs x i e

pub str_eq_refl : (k : String) → str_eq k k ≡ true
str_eq_refl k = (eq_iff k k).1 refl

pub str_eq_ne : (j k l : String) → str_eq j k ≡ true → str_eq k l ≡ false → str_eq j l ≡ false
str_eq_ne j k l e h = ground (arith, eq_iff j k, eq_iff k l, eq_iff j l)

module _ {A : Type 0} (key : A → String) where
  abbrev pub named : String → A → Bool
  named k x = str_eq (key x) k

  abbrev pub Unique : List A → Type 0
  Unique xs = (k : String) → count_if (named k) xs ≤ 1

  pub Unique-append :
      (y : A) (xs : List A) → Unique xs → find (named (key y)) xs ≡ none → Unique (xs ++ (y ∷ []))
  Unique-append y xs u e k = ground (
    arith,
    u k,
    count_if-append (named k) xs (y ∷ []),
    eq_iff (key y) k,
    count_if-none (named (key y)) xs e,
  )

  pub Unique-set :
      (p : A → Bool) (x y : A) (i : ℕ) (xs : List A)
      → find_index p xs ≡ some (x, i)
      → key y ≡ key x
      → Unique xs
      → Unique (set xs i y)
  Unique-set p x y i xs e h u k =
      let same : str_eq (key y) k ≡ str_eq (key x) k = ap (λ j. str_eq j k) h in
      ground (arith, u k, count_if-set p (named k) y xs x i e, same)

  pub Unique-remove_at :
      (p : A → Bool) (x : A) (i : ℕ) (xs : List A)
      → find_index p xs ≡ some (x, i)
      → Unique xs
      → Unique (remove_at xs i)
  Unique-remove_at p x i xs e u k = ground (arith, u k, count_if-remove_at p (named k) xs x i e)

  -- The element named `k` replaced, or a new one appended: the searches for all names.
  pub find-set-named :
      (x y : A) (i : ℕ) (k l : String) (xs : List A)
      → find_index (named k) xs ≡ some (x, i)
      → str_eq (key y) k ≡ true
      → find (named l) (set xs i y) ≡ (if str_eq k l then some y else find (named l) xs)
  find-set-named x y i k l xs e h = elim (Bool-cases (str_eq k l)) [
    | inl t ↦ rw (t, ← (eq_iff k l).0 t) (find-set_self (named k) y xs x i e h)
    | inr f ↦ rw f (
        find-set_other (named k) (named l) y xs x i e
          (str_eq_ne (key x) k l (find_passes (named k) xs x (find_index-find (named k) xs x i e))
            f)
          (str_eq_ne (key y) k l h f))
  ]

  pub find-append_named :
      (y : A) (k l : String) (xs : List A)
      → find (named k) xs ≡ none
      → str_eq (key y) k ≡ true
      → find (named l) (xs ++ (y ∷ [])) ≡ (if str_eq k l then some y else find (named l) xs)
  find-append_named y k l xs e h = elim (Bool-cases (str_eq k l)) [
    | inl t ↦ rw (t, ← (eq_iff k l).0 t) (find-append_self (named k) y xs e h)
    | inr f ↦ rw f (find-append_other (named l) y xs (str_eq_ne (key y) k l h f))
  ]

  pub find-remove_at-named :
      (x : A) (i : ℕ) (k l : String) (xs : List A)
      → Unique xs
      → find_index (named k) xs ≡ some (x, i)
      → find (named l) (remove_at xs i) ≡ (if str_eq k l then none else find (named l) xs)
  find-remove_at-named x i k l xs u e =
      let hit = find_passes (named k) xs x (find_index-find (named k) xs x i e) in
      elim (Bool-cases (str_eq k l)) [
        | inl t ↦
            rw (t, ← (eq_iff k l).0 t)
              (none-count_if (named k) (remove_at xs i)
                (ground (arith, u k, hit, count_if-remove_at (named k) (named k) xs x i e)))
        | inr f ↦
            rw f (find-remove_at_other (named k) (named l) xs x i e (str_eq_ne (key x) k l hit f))
      ]
