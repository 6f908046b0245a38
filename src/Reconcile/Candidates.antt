-- ===== src/Reconcile/Candidates.antt =====
-- What the choice of further replicas comes to, for open and for closed segments.
use eventter.Base.{
  ℕ, ◌+◌, ◌≤◌, ◌<◌, ◌≡◌, refl, ap, sym, subst, ◌⊎◌, inl, inr, arith, Bool, true, false, ◌&&◌, ◌||◌,
  not, List, [], ◌∷◌, ◌++◌, append-nil, ◌==◌, length, All, filter, count_if, Bool-cases,
}
use eventter.Reconcile.Outcome.{Counts}
use eventter.Reconcile.Replicas.{is_in, Added}
use eventter.Reconcile.Picks.{Picks, Chosen, any_chosen, Picks-count, Picks-All}

in_count : (ids : List ℕ) (id : ℕ) → 0 < count_if (λ x. x == id) ids → is_in ids id ≡ true
in_count [] id h = absurd (omega arith)
in_count (x ∷ ids) id h = ground (arith, in_count ids id)

pub in-append : (xs ys : List ℕ) (id : ℕ) → is_in (xs ++ ys) id ≡ (is_in xs id || is_in ys id)
in-append [] ys id = refl
in-append (x ∷ xs) ys id = ground (arith, in-append xs ys id)

All-filtered :
    (p q : ℕ → Bool) (ids : List ℕ)
    → All (λ x. p x ≡ true) ids
    → All (λ x. p x ≡ true) (filter q ids)
All-filtered p q [] a = tt
All-filtered p q (x ∷ ids) a = ground (arith, a.0, All-filtered p q ids a.1)

All-append :
    (p : ℕ → Bool) (xs ys : List ℕ)
    → All (λ x. p x ≡ true) xs
    → All (λ x. p x ≡ true) ys
    → All (λ x. p x ≡ true) (xs ++ ys)
All-append p [] ys a b = b
All-append p (x ∷ xs) ys a b = (a.0, All-append p xs ys a.1 b)

-- `had` are the nodes that have the segment and are not replicating it.
module _ (had : ℕ → Bool) where
  abbrev is_candidate : List ℕ → ℕ → Bool
  is_candidate kept id = not (had id) && not (is_in kept id)

  abbrev IsUsed : List ℕ → ℕ → Type 0
  IsUsed replicas id = (had id || is_in replicas id) ≡ true

  IsUsed-from :
      (kept new rest : List ℕ)
      → ((id : ℕ)
          → 0 < count_if (λ x. x == id) (filter (is_candidate kept) rest)
          → is_in new id ≡ true)
      → All (IsUsed (kept ++ new)) rest
  IsUsed-from kept new [] h = tt
  IsUsed-from kept new (x ∷ rest) h = elim (Bool-cases (is_candidate kept x)) [
    | inl e ↦ (
      ground (arith, in-append kept new x, h x (ground (arith, e))),
      IsUsed-from kept new rest (λ id m. h id (ground (arith, e, m))),
    )
    | inr e ↦ (
      ground (arith, in-append kept new x, e),
      IsUsed-from kept new rest (λ id m. h id (ground (arith, e, m))),
    )
  ]

  -- Where no candidate is left, every node is in use.
  IsUsed-All :
      (kept new left all : List ℕ) {counts : Counts}
      → Picks counts (filter (is_candidate kept) all) new left
      → left ≡ []
      → All (IsUsed (kept ++ new)) all
  IsUsed-All kept new left all {counts} picks e =
      let picks' = subst (Picks counts (filter (is_candidate kept) all) new) e picks in
      IsUsed-from kept new all
        (λ id m. in_count new id (omega (arith, Picks-count (λ x. x == id) picks', m)))

  -- Either nothing is added, since every node is in use; or what replicates then is alive, and as
  -- many as wanted, or fewer and every node is in use.
  pub record Extended (p : ℕ → Bool) (base limit : ℕ) (all replicas : List ℕ) : Type 0 where
    pub alive : All (λ id. p id ≡ true) replicas
    pub enough :
        (base + length replicas ≡ limit)
        ⊎ (base + length replicas < limit) × All (IsUsed replicas) all

  pub add_replicas-extends :
      (p : ℕ → Bool) (base limit : ℕ) (counts : Counts) (kept all : List ℕ) (a : Added)
      → Chosen base limit counts (filter (is_candidate kept) all) kept false a
      → All (λ id. p id ≡ true) kept
      → All (λ id. p id ≡ true) all
      → base + length kept < limit
      → (a.added ≡ false) × All (IsUsed kept) all
        ⊎ (a.added ≡ true) × Extended p base limit all a.replicas
  add_replicas-extends p base limit counts kept all a c up_kept up few =
      finish c.new c.left c.picks c.all c.enough c.within c.flag
    where
      finish :
          (new left : List ℕ)
          → Picks counts (filter (is_candidate kept) all) new left
          → a.replicas ≡ kept ++ new
          → (left ≡ []) ⊎ (limit ≤ base + length a.replicas)
          → (new ≡ []) ⊎ (base + length a.replicas ≤ limit)
          → a.added ≡ any_chosen new false
          → (a.added ≡ false) × All (IsUsed kept) all
            ⊎ (a.added ≡ true) × Extended p base limit all a.replicas
      finish [] left picks whole (inl e) within flag = inl (
        flag,
        subst (λ l. All (IsUsed l) all) (append-nil kept) (IsUsed-All kept [] left all picks e),
      )
      finish [] left picks whole (inr h) within flag =
          absurd (omega (arith, ap length whole, ap length (append-nil kept)))
      finish (x ∷ new) left picks whole enough within flag =
          let most : base + length a.replicas ≤ limit = elim within [ inl e ↦ cc | inr h ↦ h ] in
          let cases : (base + length a.replicas ≡ limit) ⊎ (base + length a.replicas < limit) =
            omega (arith, most) in
          inr (
            flag,
            record {
              alive = subst (All (λ id. p id ≡ true)) (sym whole) (
                  All-append p kept (x ∷ new) up_kept
                    (Picks-All p picks (All-filtered p (is_candidate kept) all up)));
              enough = elim cases [
                | inl e ↦ inl e
                | inr short ↦ inr (
                  short,
                  elim enough [
                    | inl e ↦
                        subst (λ l. All (IsUsed l) all) (sym whole)
                          (IsUsed-All kept (x ∷ new) left all picks e)
                    | inr h ↦ absurd (omega (arith, h, short))
                  ],
                )
              ];
            },
          )
