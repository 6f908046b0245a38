-- ===== src/Reconcile/Keys.antt =====
-- The number of keys of a map, as the number of different ids in a list.
use eventter.Base.{
  ℕ, zero, suc, ◌+◌, ◌≤◌, ◌≡◌, refl, ap, sym, ◌∙◌, inl, inr, arith, Bool, true, false, not, List,
  [], ◌∷◌, ◌==◌, ==_iff, if◌then◌else◌, length, any, filter, Bool-cases,
}
use eventter.Reconcile.Groups.{count_keys}

abbrev pub has : List ℕ → ℕ → Bool
has ks k = any (λ x. x == k) ks

abbrev without : ℕ → List ℕ → List ℕ
without k ks = filter (λ x. not (x == k)) ks

has-without : (k j : ℕ) (ks : List ℕ) → has (without k ks) j ≡ (if k == j then false else has ks j)
has-without k j [] = ground arith
has-without k j (x ∷ ks) = ground (arith, has-without k j ks)

length-without : (k : ℕ) (ks : List ℕ) → length (without k ks) ≤ length ks
length-without k [] = omega arith
length-without k (x ∷ ks) = ground (arith, length-without k ks)

count_keys-without :
    (k : ℕ) (ks : List ℕ) → count_keys ks ≡ (if has ks k then 1 else 0) + count_keys (without k ks)
unfolding count_keys
count_keys-without k [] = refl
count_keys-without k (x ∷ ks) = elim (Bool-cases (x == k)) [
  | inl e ↦ ground (arith, count_keys-without k ks, (==_iff x k).0 e)
  | inr e ↦ ground (arith, count_keys-without k ks, has-without k x ks)
]

count_keys-le_fuel :
    (fuel : ℕ) (ks js : List ℕ)
    → length ks ≤ fuel
    → ((k : ℕ) → has ks k ≡ true → has js k ≡ true)
    → count_keys ks ≤ count_keys js
count_keys-le_fuel fuel [] js h sub = unfold count_keys in omega arith
count_keys-le_fuel zero (k ∷ ks) js h sub = absurd (omega arith)
count_keys-le_fuel (suc fuel) (k ∷ ks) js h sub =
    let first = count_keys-without k (k ∷ ks) in
    let others = count_keys-without k js in
    let inside : has js k ≡ true = sub k (ground arith) in
    let rest =
      count_keys-le_fuel fuel (without k ks) (without k js) (omega (arith, length-without k ks))
        (λ j m. ground (arith, has-without k j ks, has-without k j js, sub j)) in
    ground (arith, first, others, inside, rest)

pub count_keys-le :
    (ks js : List ℕ) → ((k : ℕ) → has ks k ≡ true → has js k ≡ true) → count_keys ks ≤ count_keys js
count_keys-le ks js = count_keys-le_fuel (length ks) ks js (omega arith)

-- Keys among others, and as many of them, are the same ones.
pub has-same :
    (ks js : List ℕ)
    → ((k : ℕ) → has ks k ≡ true → has js k ≡ true)
    → count_keys ks ≡ count_keys js
    → (k : ℕ) → has ks k ≡ has js k
has-same ks js sub same k = elim (Bool-cases (has ks k)) [
  | inl e ↦ e ∙ sym (sub k e)
  | inr out ↦ elim (Bool-cases (has js k)) [
    | inr e ↦ out ∙ sym e
    | inl e ↦
        let fewer = count_keys-le ks (without k js) (others out) in
        let one_more : count_keys js ≡ 1 + count_keys (without k js) =
          ground (arith, count_keys-without k js, e) in
        absurd (omega (arith, fewer, one_more, same))
  ]
]
  where
    others : has ks k ≡ false → (j : ℕ) → has ks j ≡ true → has (without k js) j ≡ true
    others out j m = elim (Bool-cases (k == j)) [
      | inl e ↦
          let in_ks : has ks k ≡ true = ap (has ks) ((==_iff k j).0 e) ∙ m in
          absurd (cc (out, in_ks))
      | inr e ↦ has-without k j js ∙ rw e (sub j m)
    ]

pub count_keys-same :
    (ks js : List ℕ) → ((k : ℕ) → has ks k ≡ has js k) → count_keys ks ≡ count_keys js
count_keys-same ks js same =
    omega (
      arith,
      count_keys-le ks js (λ k h. sym (same k) ∙ h),
      count_keys-le js ks (λ k h. same k ∙ h),
    )
