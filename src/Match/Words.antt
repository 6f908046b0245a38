-- ===== src/Match/Words.antt =====
-- Routing keys and patterns as lists of words.
use eventter.Base.{ℕ, ◌<◌, ◌≡◌, refl, ◌∙◌, inl, inr, arith}
use eventter.Base.{Bool, true, false, List, [], ◌∷◌, none, some, Option-cases}
use eventter.Base.{◌==◌, if◌then◌else◌, length}
use eventter.Match.Keys.{pattern_separator, same, cut, is_empty}

-- `strings.Split(s, ".")`
abbrev pub split : List ℕ → List (List ℕ)
split [] = [] ∷ []
split (c ∷ s) =
    if c == pattern_separator
    then [] ∷ split s
    else elim (split s) [ [] ↦ (c ∷ []) ∷ [] | w ∷ ws ↦ (c ∷ w) ∷ ws ]

-- The empty routing key has no words.
abbrev pub key_words : List ℕ → List (List ℕ)
key_words [] = []
key_words (c ∷ s) = split (c ∷ s)

abbrev pub ends_in_separator : List ℕ → Bool
ends_in_separator [] = false
ends_in_separator (c ∷ []) = c == pattern_separator
ends_in_separator (c ∷ d ∷ s) = ends_in_separator (d ∷ s)

pub split-cut :
    (s : List ℕ)
    → split s ≡ (elim (cut s) [ none ↦ s ∷ [] | some (before, after) ↦ before ∷ split after ])
split-cut [] = refl
split-cut (c ∷ s) = elim (Option-cases (cut s)) [
  | inl e ↦ ground (arith, split-cut s, e)
  | inr ((before, after), e) ↦ ground (arith, split-cut s, e)
]

pub same_refl : (s : List ℕ) → same s s ≡ true
same_refl [] = refl
same_refl (c ∷ s) = ground (arith, same_refl s)

pub same-eq : (s t : List ℕ) → same s t ≡ true → s ≡ t
same-eq [] [] h = refl
same-eq [] (y ∷ ys) h = cc
same-eq (x ∷ xs) [] h = cc
same-eq (x ∷ xs) (y ∷ ys) h = ground (arith, same-eq xs ys)

-- What the first separator of a key says of its words and of its end.
pub data KeyView (k : List ℕ) : Type 0 where
  no_words : k ≡ [] → KeyView k
  one_word :
      cut k ≡ none
      → is_empty k ≡ false
      → key_words k ≡ k ∷ []
      → ends_in_separator k ≡ false
      → KeyView k
  ends : (w : List ℕ) → cut k ≡ some (w, []) → ends_in_separator k ≡ true → KeyView k
  more_words :
      (w : List ℕ) (c : ℕ) (s : List ℕ)
      → cut k ≡ some (w, c ∷ s)
      → key_words k ≡ w ∷ key_words (c ∷ s)
      → ends_in_separator k ≡ ends_in_separator (c ∷ s)
      → length (c ∷ s) < length k
      → KeyView k

cut-end : (k w : List ℕ) → cut k ≡ some (w, []) → ends_in_separator k ≡ true
cut-end [] w e = cc
cut-end (c ∷ []) w e = ground arith
cut-end (c ∷ d ∷ s) w e = elim (Option-cases (cut (d ∷ s))) [
  | inl f ↦ ground arith
  | inr ((before, []), f) ↦ cut-end (d ∷ s) before f
  | inr ((before, x ∷ xs), f) ↦ ground arith
]

cut-on :
    (k w : List ℕ) (x : ℕ) (xs : List ℕ)
    → cut k ≡ some (w, x ∷ xs)
    → (ends_in_separator k ≡ ends_in_separator (x ∷ xs)) × (length (x ∷ xs) < length k)
cut-on [] w x xs e = cc
cut-on (c ∷ []) w x xs e = ground arith
cut-on (c ∷ d ∷ s) w x xs e = elim (Option-cases (cut (d ∷ s))) [
  | inl f ↦ ground arith
  | inr ((before, []), f) ↦ ground arith
  | inr ((before, y ∷ ys), f) ↦ ground (arith, cut-on (d ∷ s) before y ys f)
]

cut-none : (k : List ℕ) → cut k ≡ none → ends_in_separator k ≡ false
cut-none [] e = refl
cut-none (c ∷ []) e = ground arith
cut-none (c ∷ d ∷ s) e = elim (Option-cases (cut (d ∷ s))) [
  | inl f ↦ cut-none (d ∷ s) f
  | inr (p, f) ↦ ground arith
]

key_words-split : (k : List ℕ) → is_empty k ≡ false → key_words k ≡ split k
key_words-split [] h = cc
key_words-split (c ∷ s) h = refl

pub key-KeyView : (k : List ℕ) → KeyView k
key-KeyView [] = no_words refl
key-KeyView (c ∷ s) = elim (Option-cases (cut (c ∷ s))) [
  | inl e ↦ one_word e refl (split-cut (c ∷ s) ∙ rw e) (cut-none (c ∷ s) e)
  | inr ((w, []), e) ↦ ends w e (cut-end (c ∷ s) w e)
  | inr ((w, x ∷ xs), e) ↦
      let (same_end, shorter) = cut-on (c ∷ s) w x xs e in
      more_words w x xs e (split-cut (c ∷ s) ∙ rw e) same_end shorter
]
