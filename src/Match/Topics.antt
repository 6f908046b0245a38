-- ===== src/Match/Topics.antt =====
-- The matching of a routing key as a matching of lists of words.
use eventter.Base.{ℕ, zero, suc, ◌+◌, ◌<◌, ◌≤◌, ◌≡◌, ◌≢◌, refl, ap, ◌∙◌, inl, inr, arith}
use eventter.Base.{
  Bool, true, false, not, ◌&&◌, ◌||◌, List, [], ◌∷◌, none, some, Option-cases, Bool-cases, length,
}
use eventter.Match.Keys.{
  pattern_wildcard, pattern_zero_or_more, same, cut, is_empty, match_rest, match_last, match_part,
  match_key, routing_key_matches,
}
use eventter.Match.Words.{
  split, key_words, ends_in_separator, no_words, one_word, ends, more_words, key-KeyView, split-cut,
  same-eq,
}

-- Some end of a list of words, not the empty one behind a word.
unfoldable pub any_end : (List (List ℕ) → Bool) → List (List ℕ) → Bool
any_end m [] = m []
any_end m (w ∷ []) = m (w ∷ [])
any_end m (w ∷ v ∷ ws) = m (w ∷ v ∷ ws) || any_end m (v ∷ ws)

-- `*` takes one word, `#` any number of words, and another word of the pattern itself; an empty one
-- also matches the end of the key.
unfoldable pub topic_matches : List (List ℕ) → List (List ℕ) → Bool
unfolding any_end
topic_matches [] [] = true
topic_matches [] (w ∷ ws) = false
topic_matches (p ∷ ps) words = elim (same p pattern_wildcard) [
  | true ↦ elim words [ [] ↦ false | w ∷ ws ↦ topic_matches ps ws ]
  | false ↦ elim (same p pattern_zero_or_more) [
    | true ↦ elim ps [ [] ↦ true | q ∷ qs ↦ any_end (topic_matches ps) words ]
    | false ↦ elim words [
      | [] ↦ is_empty p && topic_matches ps []
      | w ∷ ws ↦ same w p && topic_matches ps ws
    ]
  ]
]

-- What a match of the words `ps` says of a key, which does not match if it ends in a separator.
abbrev says : List (List ℕ) → List ℕ → Bool
says ps k = not (ends_in_separator k) && topic_matches ps (key_words k)

key_words-cons :
    (c : ℕ) (s : List ℕ) → (w : List ℕ) × (ws : List (List ℕ)) × (key_words (c ∷ s) ≡ w ∷ ws)
key_words-cons c s = elim (Option-cases (cut (c ∷ s))) [
  | inl e ↦ (c ∷ s, [], split-cut (c ∷ s) ∙ rw e)
  | inr ((w, r), e) ↦ (w, split r, split-cut (c ∷ s) ∙ rw e)
]

same-empty : (p : List ℕ) → is_empty p ≡ false → same [] p ≡ false
same-empty [] n = cc
same-empty (c ∷ p) n = refl

same-cut : (k p : List ℕ) → cut k ≢ cut p → same k p ≡ false
same-cut k p h = elim (Bool-cases (same k p)) [
  | inl e ↦ absurd (h (ap cut (same-eq k p e)))
  | inr e ↦ e
]

match_last-says :
    (m : List ℕ → Bool) (p k : List ℕ)
    → cut p ≡ none
    → is_empty p ≡ false
    → ((s : List ℕ) → length s < length k → m s ≡ says (p ∷ []) s)
    → match_last m p k ≡ says (p ∷ []) k
unfolding match_last topic_matches
match_last-says m p k e n h = elim (key-KeyView k) [
  | no_words z ↦ ground (arith, same-empty p n)
  | one_word f g words end ↦ ground arith
  | ends w f end ↦ ground (arith, same-cut k p (λ x. cc))
  | more_words w c s f words end shorter ↦
      let (v, vs, two) = key_words-cons c s in
      ground (arith, same-cut k p (λ x. cc), h (c ∷ s) shorter)
]

match_rest-says :
    (fuel : ℕ) (m : List ℕ → Bool) (ps : List (List ℕ)) (k : List ℕ)
    → length k < fuel
    → ((s : List ℕ) → length s ≤ length k → m s ≡ says ps s)
    → match_rest fuel m k ≡ not (ends_in_separator k) && any_end (topic_matches ps) (key_words k)
unfolding match_rest any_end
match_rest-says zero m ps k l h = absurd (omega arith)
match_rest-says (suc fuel) m ps k l h = elim (key-KeyView k) [
  | no_words z ↦ ground (arith, h [] (omega arith))
  | one_word f g words end ↦ ground (arith, h k (omega arith))
  | ends w f end ↦ ground (arith, h k (omega arith))
  | more_words w c s f words end shorter ↦
      let (v, vs, two) = key_words-cons c s in
      let rest = match_rest-says fuel m ps (c ∷ s) (omega arith) (λ t b. h t (omega arith)) in
      ground (arith, rest, h k (omega arith))
]

split-cons : (s : List ℕ) → (w : List ℕ) × (ws : List (List ℕ)) × (split s ≡ w ∷ ws)
split-cons s = elim (Option-cases (cut s)) [
  | inl e ↦ (s, [], split-cut s ∙ rw e)
  | inr ((w, r), e) ↦ (w, split r, split-cut s ∙ rw e)
]

match_part-says :
    (fuel : ℕ) (m : List ℕ → Bool) (part rest k : List ℕ)
    → length k < fuel
    → ((s : List ℕ) → length s ≤ length k → m s ≡ says (split rest) s)
    → match_part fuel m part k ≡ says (part ∷ split rest) k
unfolding match_part topic_matches
match_part-says fuel m part rest k l h =
    let (q, qs, parts) = split-cons rest in
    let loop = match_rest-says fuel m (split rest) k l h in
    let last = h [] (omega arith) in
    elim (key-KeyView k) [
      | no_words z ↦ ground (arith, loop, last, parts)
      | one_word f g words end ↦ ground (arith, loop, last, parts)
      | ends w f end ↦ ground (arith, loop, parts)
      | more_words w c s f words end shorter ↦ ground (arith, loop, parts, h (c ∷ s) (omega arith))
    ]

cut-length : (k w r : List ℕ) → cut k ≡ some (w, r) → length r < length k
cut-length [] w r e = cc
cut-length (c ∷ s) w r e = elim (Option-cases (cut s)) [
  | inl f ↦ ground arith
  | inr ((before, after), f) ↦ ground (arith, cut-length s before after f)
]

empty-says : (k : List ℕ) → is_empty k ≡ says ([] ∷ []) k
unfolding topic_matches
empty-says k = elim (key-KeyView k) [
  | no_words z ↦ ground arith
  | one_word f g words end ↦ ground arith
  | ends w f end ↦ ground arith
  | more_words w c s f words end shorter ↦ let (v, vs, two) = key_words-cons c s in ground arith
]

empty_split : (p : List ℕ) → is_empty p ≡ true → split p ≡ [] ∷ []
empty_split [] z = refl
empty_split (c ∷ p) z = cc

-- With fuel above the bytes of the pattern and of the key, a key matches just if it does not end in
-- a separator and its words match those of the pattern: the fuel of `routing_key_matches` is enough.
pub match_key-topic_matches :
    (fuel : ℕ) (pattern key : List ℕ)
    → length pattern + length key < fuel
    → match_key fuel pattern key
      ≡ not (ends_in_separator key) && topic_matches (split pattern) (key_words key)
unfolding match_key
match_key-topic_matches zero p k h = absurd (omega arith)
match_key-topic_matches (suc fuel) p k h = elim (Bool-cases (is_empty p)) [
  | inl z ↦ rw (z, match_key, empty_split p z) (empty-says k)
  | inr n ↦ elim (Option-cases (cut p)) [
    | inl e ↦
        let one : split p ≡ p ∷ [] = split-cut p ∙ rw e in
        rw (n, match_key, e, one)
          (match_last-says (match_key fuel p) p k e n
            (λ s l. match_key-topic_matches fuel p s (omega arith) ∙ rw one))
    | inr ((part, rest), e) ↦
        let more : split p ≡ part ∷ split rest = split-cut p ∙ rw e in
        let shorter = cut-length p part rest e in
        rw (n, match_key, e, more)
          (match_part-says fuel (match_key fuel rest) part rest k (omega arith)
            (λ s l. match_key-topic_matches fuel rest s (omega arith)))
  ]
]

-- For every pattern and key, `routingKeyMatches` says whether the key does not end in a separator
-- and its words match those of the pattern: `*` one word, `#` any number, another word itself,
-- with what an empty word and a `#` before the end do as `topic_matches` has it.
pub routing_key_matches-topic_matches :
    (pattern key : List ℕ)
    → routing_key_matches pattern key
      ≡ not (ends_in_separator key) && topic_matches (split pattern) (key_words key)
unfolding routing_key_matches
routing_key_matches-topic_matches pattern key = match_key-topic_matches _ pattern key (omega arith)
