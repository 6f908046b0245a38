-- ===== src/Reconcile/Picks.antt =====
-- Which candidates are chosen.
use eventter.Base.{
  ℕ, zero, suc, ◌+◌, ◌≤◌, ◌<◌, ◌≡◌, refl, ap, sym, subst, ◌∙◌, ◌⊎◌, inl, inr, arith, Bool, true,
  false, not, List, [], ◌∷◌, ◌++◌, append_assoc, append-nil, some, ltb, if◌then◌else◌, length,
  length-append, All, count_if, get_elem?, remove_at, Bool-cases,
}
use eventter.Base.Int.{ℤ, ltb_ℤ}
use eventter.Reconcile.Kept.{count_if-All, All-count_if}
use eventter.Reconcile.Outcome.{Counts, bump}
use eventter.Reconcile.Replicas.{least_at, Added, add_replicas}

-- No candidate of a list has a smaller count.
abbrev pub IsLeast : Counts → List ℕ → ℕ → Type 0
IsLeast counts ids b = All (λ x. ltb_ℤ (counts x) (counts b) ≡ false) ids

-- What each round of the choice takes, and what it leaves, in the end.
pub data Picks : Counts → List ℕ → List ℕ → List ℕ → Type 0 where
  stop : {counts : Counts} {ids : List ℕ} → Picks counts ids [] ids
  pick :
      {counts : Counts} {ids new left : List ℕ} (i id : ℕ)
      → get_elem? ids i ≡ some id
      → IsLeast counts ids id
      → Picks (bump counts id) (remove_at ids i) new left
      → Picks counts ids (id ∷ new) left

ltb_ℤ-trans : (a b c : ℤ) → ltb_ℤ a b ≡ true → ltb_ℤ c b ≡ false → ltb_ℤ c a ≡ false
ltb_ℤ-trans a b c h k = ground arith

ltb_ℤ-irrefl : (a : ℤ) → ltb_ℤ a a ≡ false
ltb_ℤ-irrefl a = ground arith

IsLeast-less :
    (counts : Counts) (ids : List ℕ) (b c : ℕ)
    → ltb_ℤ (counts c) (counts b) ≡ true
    → IsLeast counts ids b
    → IsLeast counts ids c
IsLeast-less counts [] b c h a = tt
IsLeast-less counts (x ∷ ids) b c h a =
    (ltb_ℤ-trans (counts c) (counts b) (counts x) h a.0, IsLeast-less counts ids b c h a.1)

IsLeast-append :
    (counts : Counts) (xs : List ℕ) (c b : ℕ)
    → IsLeast counts xs b
    → ltb_ℤ (counts c) (counts b) ≡ false
    → IsLeast counts (xs ++ (c ∷ [])) b
IsLeast-append counts [] c b a h = (h, tt)
IsLeast-append counts (x ∷ xs) c b a h = (a.0, IsLeast-append counts xs c b a.1 h)

get_elem?-behind :
    (xs : List ℕ) (c : ℕ) (ys : List ℕ) → get_elem? (xs ++ (c ∷ ys)) (length xs) ≡ some c
get_elem?-behind [] c ys = refl
get_elem?-behind (x ∷ xs) c ys = get_elem?-behind xs c ys

abbrev pub IsBest : Counts → List ℕ → ℕ × ℕ → Type 0
IsBest counts ids (i, b) = (get_elem? ids i ≡ some b) × IsLeast counts ids b

-- The loop over the candidates behind `seen`, with the best of `seen` at hand.
pub least_at-IsBest :
    (counts : Counts) (seen cs : List ℕ) (i j b : ℕ)
    → i ≡ length seen
    → get_elem? (seen ++ cs) j ≡ some b
    → IsLeast counts seen b
    → IsBest counts (seen ++ cs) (least_at counts cs i (j, b))
unfolding least_at
least_at-IsBest counts seen [] i j b n at least = (at, rw (append-nil seen) least)
least_at-IsBest counts seen (c ∷ cs) i j b n at least =
    let whole : (seen ++ (c ∷ [])) ++ cs ≡ seen ++ (c ∷ cs) = append_assoc seen (c ∷ []) cs in
    let longer : suc i ≡ length (seen ++ (c ∷ [])) =
      omega (arith, n, length-append seen (c ∷ [])) in
    elim (Bool-cases (ltb_ℤ (counts c) (counts b))) [
      | inl e ↦
          let here : get_elem? ((seen ++ (c ∷ [])) ++ cs) i ≡ some c =
            ap (λ l. get_elem? l i) whole
            ∙ ap (get_elem? (seen ++ (c ∷ cs))) n
            ∙ get_elem?-behind seen c cs in
          let least' =
            IsLeast-append counts seen c c (IsLeast-less counts seen b c e least)
              (ltb_ℤ-irrefl (counts c)) in
          let rest = least_at-IsBest counts (seen ++ (c ∷ [])) cs (suc i) i c longer here least' in
          let step : least_at counts cs (suc i) (i, c) ≡ least_at counts (c ∷ cs) i (j, b) = rw e in
          subst (λ l. IsBest counts l (least_at counts (c ∷ cs) i (j, b))) whole
            (subst (IsBest counts ((seen ++ (c ∷ [])) ++ cs)) step rest)
      | inr e ↦
          let here : get_elem? ((seen ++ (c ∷ [])) ++ cs) j ≡ some b =
            ap (λ l. get_elem? l j) whole ∙ at in
          let least' = IsLeast-append counts seen c b least e in
          let rest = least_at-IsBest counts (seen ++ (c ∷ [])) cs (suc i) j b longer here least' in
          let step : least_at counts cs (suc i) (j, b) ≡ least_at counts (c ∷ cs) i (j, b) = rw e in
          subst (λ l. IsBest counts l (least_at counts (c ∷ cs) i (j, b))) whole
            (subst (IsBest counts ((seen ++ (c ∷ [])) ++ cs)) step rest)
    ]

pub length-remove_at :
    (ids : List ℕ) (i id : ℕ)
    → get_elem? ids i ≡ some id
    → suc (length (remove_at ids i)) ≡ length ids
length-remove_at [] i id e = cc
length-remove_at (x ∷ ids) zero id e = refl
length-remove_at (x ∷ ids) (suc i) id e = ap suc (length-remove_at ids i id e)

abbrev pub any_chosen : List ℕ → Bool → Bool
any_chosen [] added = added
any_chosen (x ∷ new) added = true

-- How the rounds end: what they chose stands behind the replicas that there were; they stop where
-- the candidates are used up or the limit is reached, and not above it.
pub record Chosen (base limit : ℕ) (counts : Counts) (cs reps : List ℕ) (added : Bool) (a : Added)
    : Type 0 where
  pub new : List ℕ
  pub left : List ℕ
  pub picks : Picks counts cs new left
  pub all : a.replicas ≡ reps ++ new
  pub enough : (left ≡ []) ⊎ (limit ≤ base + length a.replicas)
  pub within : (new ≡ []) ⊎ (base + length a.replicas ≤ limit)
  pub flag : a.added ≡ any_chosen new added

Chosen-more :
    (base limit i id : ℕ) (counts : Counts) (cs reps : List ℕ) (added : Bool) (a : Added)
    → get_elem? cs i ≡ some id
    → IsLeast counts cs id
    → base + length reps < limit
    → Chosen base limit (bump counts id) (remove_at cs i) (reps ++ (id ∷ [])) true a
    → Chosen base limit counts cs reps added a
Chosen-more base limit i id counts cs reps added a at least room r = record {
  new = id ∷ r.new;
  left = r.left;
  picks = pick i id at least r.picks;
  all = r.all ∙ append_assoc reps (id ∷ []) r.new;
  enough = r.enough;
  within = inr (within r.within);
  flag = r.flag ∙ chosen r.new;
}
  where
    chosen : (new : List ℕ) → any_chosen new true ≡ true
    chosen [] = refl
    chosen (x ∷ new) = refl

    within : (r.new ≡ []) ⊎ (base + length a.replicas ≤ limit) → base + length a.replicas ≤ limit
    within (inl e) = omega (
      arith,
      ap length r.all,
      length-append (reps ++ (id ∷ [])) r.new,
      ap length e,
      length-append reps (id ∷ []),
    )
    within (inr h) = h

pub add_replicas-Chosen :
    (fuel base limit : ℕ) (counts : Counts) (cs reps : List ℕ) (added : Bool)
    → length cs ≤ fuel
    → Chosen base limit counts cs reps added (add_replicas fuel base limit counts cs reps added)
unfolding add_replicas
add_replicas-Chosen zero base limit counts [] reps added h = record {
  new = [];
  left = [];
  picks = stop;
  all = sym (append-nil reps);
  enough = inl refl;
  within = inl refl;
  flag = refl;
}
add_replicas-Chosen zero base limit counts (c ∷ cs) reps added h = absurd (omega arith)
add_replicas-Chosen (suc fuel) base limit counts [] reps added h = record {
  new = [];
  left = [];
  picks = stop;
  all = sym (append-nil reps);
  enough = inl refl;
  within = inl refl;
  flag = refl;
}
add_replicas-Chosen (suc fuel) base limit counts (c ∷ cs) reps added h =
    elim (Bool-cases (ltb (base + length reps) limit)) [
      | inr e ↦ rw e (record {
        new = [];
        left = c ∷ cs;
        picks = stop;
        all = sym (append-nil reps);
        enough = inr (ground arith);
        within = inl refl;
        flag = refl;
      })
      | inl e ↦
          let (i, id) = least_at counts cs 1 (0, c) in
          let (at, least) =
            least_at-IsBest counts (c ∷ []) cs 1 0 c refl refl (ltb_ℤ-irrefl (counts c), tt) in
          let shorter = length-remove_at (c ∷ cs) i id at in
          rw e (
            Chosen-more base limit i id counts (c ∷ cs) reps added _ at least (ground arith) (
              add_replicas-Chosen fuel base limit (bump counts id) (remove_at (c ∷ cs) i)
                (reps ++ (id ∷ [])) true (omega (arith, shorter))))
    ]

pub count_if-taken :
    (p : ℕ → Bool) (ids : List ℕ) (i id : ℕ)
    → get_elem? ids i ≡ some id
    → count_if p ids ≡ (if p id then 1 else 0) + count_if p (remove_at ids i)
count_if-taken p [] i id e = cc
count_if-taken p (x ∷ ids) zero id e = let same : x ≡ id = ground arith in rw same (ground arith)
count_if-taken p (x ∷ ids) (suc i) id e = ground (arith, count_if-taken p ids i id e)

-- What is chosen and what is left are the candidates.
pub Picks-count :
    {counts : Counts} {cs new left : List ℕ} (p : ℕ → Bool)
    → Picks counts cs new left
    → count_if p cs ≡ count_if p new + count_if p left
Picks-count p stop = omega arith
Picks-count {cs = cs} p (pick i id at least rest) =
    ground (arith, count_if-taken p cs i id at, Picks-count p rest)

pub Picks-All :
    {counts : Counts} {cs new left : List ℕ} (p : ℕ → Bool)
    → Picks counts cs new left
    → All (λ x. p x ≡ true) cs
    → All (λ x. p x ≡ true) new
Picks-All {new = new} p picks a =
    count_if-All p new (omega (arith, Picks-count (λ x. not (p x)) picks, All-count_if p _ a))
