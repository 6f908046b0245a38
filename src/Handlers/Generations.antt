-- ===== src/Handlers/Generations.antt =====
-- The generation and the shard that a new segment gets.
use eventter.Base.{
  ℕ, zero, suc, ◌+◌, ◌-◌, ◌%◌, ◌^◌, ◌≤◌, ◌<◌, ◌≡◌, refl, ap, sym, subst, ◌∙◌, ◌⊎◌, inl, inr, arith,
  Bool, true, false, ◌&&◌, ◌||◌, List, [], ◌∷◌, ◌++◌, append_assoc, append-nil, ◌==◌, ltb, leb,
  if◌then◌else◌, length, any, filter, count_if, All, Bool-cases,
}
use eventter.Cluster.Data.{ClusterSegment}
use eventter.Handlers.Opening.{latest, has_node, free_shard, place}

abbrev pub in_generation : ℕ → ClusterSegment → Bool
in_generation generation g = g.generation == generation

-- The members are the segments of the generation, and no segment is of a later one.
abbrev pub IsLatest : List ClusterSegment → ℕ × List ClusterSegment → Type 0
IsLatest gs (generation, members) =
    (1 ≤ generation)
    × (members ≡ filter (in_generation generation) gs)
    × All (λ g. g.generation ≤ generation) gs

filter-append :
    (p : ClusterSegment → Bool) (xs ys : List ClusterSegment)
    → filter p (xs ++ ys) ≡ filter p xs ++ filter p ys
filter-append p [] ys = refl
filter-append p (x ∷ xs) ys = ground (arith, filter-append p xs ys)

filter-later :
    (generation later : ℕ) (gs : List ClusterSegment)
    → generation < later
    → All (λ g. g.generation ≤ generation) gs
    → filter (in_generation later) gs ≡ []
filter-later generation later [] h a = refl
filter-later generation later (g ∷ gs) h a =
    ground (arith, a.0, filter-later generation later gs h a.1)

All-le-append :
    (generation low : ℕ) (gs : List ClusterSegment) (g : ClusterSegment)
    → low ≤ generation
    → g.generation ≤ generation
    → All (λ x. x.generation ≤ low) gs
    → All (λ x. x.generation ≤ generation) (gs ++ (g ∷ []))
All-le-append generation low [] g h k a = (k, tt)
All-le-append generation low (x ∷ gs) g h k a =
    (omega (arith, a.0), All-le-append generation low gs g h k a.1)

latest-IsLatest :
    (generation : ℕ) (members seen gs : List ClusterSegment)
    → IsLatest seen (generation, members)
    → IsLatest (seen ++ gs) (latest generation members gs)
unfolding latest
latest-IsLatest generation members seen [] l = rw (append-nil seen) l
latest-IsLatest generation members seen (g ∷ gs) (positive, same, most) =
    let whole : (seen ++ (g ∷ [])) ++ gs ≡ seen ++ (g ∷ gs) = append_assoc seen (g ∷ []) gs in
    elim (Bool-cases (ltb generation g.generation)) [
      | inl e ↦
          let none_yet = filter-later generation g.generation seen (ground arith) most in
          let here : in_generation g.generation g ≡ true = ground arith in
          let members' : g ∷ [] ≡ filter (in_generation g.generation) (seen ++ (g ∷ [])) = sym (
            filter-append (in_generation g.generation) seen (g ∷ [])
            ∙ rw none_yet (rw here refl)) in
          let rest = latest-IsLatest g.generation (g ∷ []) (seen ++ (g ∷ [])) gs (
            ground arith,
            members',
            All-le-append g.generation generation seen g (ground arith) (omega arith) most,
          ) in
          rw e (subst (λ l. IsLatest l (latest g.generation (g ∷ []) gs)) whole rest)
      | inr e ↦ elim (Bool-cases (g.generation == generation)) [
        | inl f ↦
            let members' : members ++ (g ∷ [])
                ≡ filter (in_generation generation) (seen ++ (g ∷ [])) =
              sym (
                filter-append (in_generation generation) seen (g ∷ [])
                ∙ rw f (ap (λ l. l ++ (g ∷ [])) (sym same))) in
            let rest = latest-IsLatest generation (members ++ (g ∷ [])) (seen ++ (g ∷ [])) gs (
              positive,
              members',
              All-le-append generation generation seen g (omega arith) (ground arith) most,
            ) in
            rw e (
              rw f
                (subst (λ l. IsLatest l (latest generation (members ++ (g ∷ [])) gs)) whole rest))
        | inr f ↦
            let members' : members ≡ filter (in_generation generation) (seen ++ (g ∷ [])) = sym (
              filter-append (in_generation generation) seen (g ∷ [])
              ∙ rw f (append-nil (filter (in_generation generation) seen) ∙ sym same)) in
            let rest = latest-IsLatest generation members (seen ++ (g ∷ [])) gs (
              positive,
              members',
              All-le-append generation generation seen g (omega arith) (ground arith) most,
            ) in
            rw e (rw f (subst (λ l. IsLatest l (latest generation members gs)) whole rest))
      ]
    ]

abbrev in_range : ℕ → ℕ → ClusterSegment → Bool
in_range i n g = leb i g.shard && ltb g.shard (i + n)

count_if-range :
    (i n : ℕ) (gs : List ClusterSegment)
    → count_if (in_range i (suc n)) gs
      ≡ count_if (λ g. g.shard == i) gs + count_if (in_range (suc i) n) gs
count_if-range i n [] = refl
count_if-range i n (g ∷ gs) = ground (arith, count_if-range i n gs)

count_if-any :
    (p : ClusterSegment → Bool) (gs : List ClusterSegment) → any p gs ≡ true → 1 ≤ count_if p gs
count_if-any p [] h = absurd (ground (arith, h))
count_if-any p (g ∷ gs) h = ground (arith, h, count_if-any p gs)

count_if-most : (p : ClusterSegment → Bool) (gs : List ClusterSegment) → count_if p gs ≤ length gs
count_if-most p [] = omega arith
count_if-most p (g ∷ gs) = ground (arith, count_if-most p gs)

-- Either a shard is free, or each of them has a segment.
free_shard-free :
    (fuel i : ℕ) (gs : List ClusterSegment)
    → (any (λ g. g.shard == free_shard fuel i gs) gs ≡ false)
        × (i ≤ free_shard fuel i gs)
        × (free_shard fuel i gs < i + fuel)
      ⊎ (fuel ≤ count_if (in_range i fuel) gs)
unfolding free_shard
free_shard-free zero i gs = inr (omega arith)
free_shard-free (suc fuel) i gs = elim (Bool-cases (any (λ g. g.shard == i) gs)) [
  | inr e ↦ rw e (inl (e, omega arith, omega arith))
  | inl e ↦ elim (free_shard-free fuel (suc i) gs) [
    | inl (free, low, high) ↦ rw e (inl (free, omega (arith, low), omega (arith, high)))
    | inr all ↦
        inr (omega (arith, all, count_if-range i fuel gs, count_if-any (λ g. g.shard == i) gs e))
  ]
]

latest-le :
    (bound generation : ℕ) (members gs : List ClusterSegment)
    → generation ≤ bound
    → All (λ g. g.generation ≤ bound) gs
    → (latest generation members gs).0 ≤ bound
unfolding latest
latest-le bound generation members [] h a = h
latest-le bound generation members (g ∷ gs) h a = elim (Bool-cases (ltb generation g.generation)) [
  | inl e ↦ rw e (latest-le bound g.generation (g ∷ []) gs a.0 a.1)
  | inr e ↦ elim (Bool-cases (g.generation == generation)) [
    | inl f ↦ rw e (rw f (latest-le bound generation (members ++ (g ∷ [])) gs h a.1))
    | inr f ↦ rw e (rw f (latest-le bound generation members gs h a.1))
  ]
]

-- No segment has this shard of this generation, nor is there one of this node in the generation.
abbrev pub IsFree : ℕ → List ClusterSegment → ℕ → ℕ → Type 0
IsFree primary gs generation shard =
    All (λ g. (in_generation generation g && (g.shard == shard || has_node primary g)) ≡ false) gs

IsFree-later :
    (primary : ℕ) (gs : List ClusterSegment) (generation shard low : ℕ)
    → low < generation
    → All (λ g. g.generation ≤ low) gs
    → IsFree primary gs generation shard
IsFree-later primary [] generation shard low h a = tt
IsFree-later primary (g ∷ gs) generation shard low h a =
    (ground (arith, a.0), IsFree-later primary gs generation shard low h a.1)

IsFree-same :
    (primary : ℕ) (gs : List ClusterSegment) (generation shard : ℕ)
    → any (λ g. g.shard == shard) (filter (in_generation generation) gs) ≡ false
    → any (has_node primary) (filter (in_generation generation) gs) ≡ false
    → IsFree primary gs generation shard
IsFree-same primary [] generation shard h k = tt
IsFree-same primary (g ∷ gs) generation shard h k = elim (Bool-cases (in_generation generation g)) [
  | inl e ↦
      let h' : (if g.shard == shard
            then true
            else any (λ x. x.shard == shard) (filter (in_generation generation) gs))
          ≡ false =
        rw e at h in
      let k' : (if has_node primary g
            then true
            else any (has_node primary) (filter (in_generation generation) gs))
          ≡ false =
        rw e at k in
      (
        ground (arith, h', k'),
        IsFree-same primary gs generation shard (ground (arith, h')) (ground (arith, k')),
      )
  | inr e ↦ (ground (arith, e), IsFree-same primary gs generation shard (rw e at h) (rw e at k))
]

next_generation :
    (generation : ℕ) → generation < 2 ^ 32 - 1 → (generation + 1) % 2 ^ 32 ≡ generation + 1
next_generation generation h = omega arith

-- The place is free, where there are shards and the generations are far from the last of a uint32.
pub place-IsFree :
    (shards primary : ℕ) (gs : List ClusterSegment)
    → 0 < shards
    → All (λ g. g.generation ≤ 2 ^ 32 - 2) gs
    → IsFree primary gs
        (place shards primary (latest 1 [] gs)).0
        (place shards primary (latest 1 [] gs)).1
      × (1 ≤ (place shards primary (latest 1 [] gs)).1)
      × ((place shards primary (latest 1 [] gs)).1 ≤ shards)
unfolding place
place-IsFree shards primary gs some_shards low =
    let generation = (latest 1 [] gs).0 in
    let members = (latest 1 [] gs).1 in
    let (positive, same, most) : IsLatest gs (latest 1 [] gs) =
      latest-IsLatest 1 [] [] gs (omega arith, refl, tt) in
    let small : generation ≤ 2 ^ 32 - 2 = latest-le (2 ^ 32 - 2) 1 [] gs (omega arith) low in
    let next = next_generation generation (omega (arith, small)) in
    let later : IsFree primary gs ((generation + 1) % 2 ^ 32) 1 =
      subst (λ n. IsFree primary gs n 1) (sym next)
        (IsFree-later primary gs (generation + 1) 1 generation (omega arith) most) in
    elim (Bool-cases (ltb 0 shards && leb shards (length members))) [
      | inl e ↦ rw e (later, omega arith, omega arith)
      | inr e ↦ elim (Bool-cases (any (has_node primary) members)) [
        | inl f ↦ rw e (rw f (later, omega arith, omega arith))
        | inr f ↦ elim (free_shard-free shards 1 members) [
          | inl (free, one, last) ↦ rw e (
              rw f (
                IsFree-same primary gs generation (free_shard shards 1 members)
                    (subst (λ l. any (λ g. g.shard == free_shard shards 1 members) l ≡ false) same
                      free)
                    (subst (λ l. any (has_node primary) l ≡ false) same f),
                one,
                omega (arith, last),
              ))
          | inr all ↦
              absurd
                (ground (arith, all, e, some_shards, count_if-most (in_range 1 shards) members))
        ]
      ]
    ]
