-- ===== src/Match/Keys.antt =====
-- `routingKeyMatches` of mq/match.go. A string is the list of its bytes. The recursion runs on fuel,
-- one more than the bytes of the pattern and of the key: each call drops a byte of one of them.
use eventter.Base.{ℕ, zero, suc, ◌+◌, Bool, true, false, ◌&&◌, List, [], ◌∷◌, Option, none, some}
use eventter.Base.{◌==◌, if◌then◌else◌, length}

abbrev pub pattern_separator : ℕ
pattern_separator = 46

-- "*" and "#"
abbrev pub pattern_wildcard : List ℕ
pattern_wildcard = 42 ∷ []

abbrev pub pattern_zero_or_more : List ℕ
pattern_zero_or_more = 35 ∷ []

abbrev pub same : List ℕ → List ℕ → Bool
same [] [] = true
same [] (y ∷ ys) = false
same (x ∷ xs) [] = false
same (x ∷ xs) (y ∷ ys) = x == y && same xs ys

-- `i := strings.IndexByte(s, patternSeparator)` with `s[:i]` and `s[i+1:]`; `none` is -1.
abbrev pub cut : List ℕ → Option (List ℕ × List ℕ)
cut [] = none
cut (c ∷ s) =
    if c == pattern_separator
    then some ([], s)
    else elim (cut s) [ none ↦ none | some (before, after) ↦ some (c ∷ before, after) ]

abbrev pub is_empty : List ℕ → Bool
is_empty [] = true
is_empty (c ∷ s) = false

-- The loop of a `#` that is not the last part, where `m` matches the rest of the pattern.
unfoldable pub match_rest : ℕ → (List ℕ → Bool) → List ℕ → Bool
match_rest zero m key = false
match_rest (suc fuel) m key = elim (m key) [
  | true ↦ true
  | false ↦ elim (cut key) [
    | none ↦ false
    | some (before, []) ↦ false
    | some (before, c ∷ s) ↦ match_rest fuel m (c ∷ s)
  ]
]

-- The key behind its first separator: `last` if it has none, false if nothing comes behind it, and
-- what `m` says of the rest otherwise.
abbrev pub behind : (List ℕ → Bool) → Bool → Option (List ℕ × List ℕ) → Bool
behind m last none = last
behind m last (some (before, [])) = false
behind m last (some (before, c ∷ s)) = m (c ∷ s)

unfoldable pub match_last : (List ℕ → Bool) → List ℕ → List ℕ → Bool
match_last m pattern key = elim (same pattern pattern_wildcard) [
  | true ↦ elim (cut key) [
    | none ↦ elim (is_empty key) [ true ↦ false | false ↦ true ]
    | some c ↦ false
  ]
  | false ↦ elim (same pattern pattern_zero_or_more) [
    | true ↦ behind m true (cut key)
    | false ↦ same key pattern
  ]
]

unfoldable pub match_part : ℕ → (List ℕ → Bool) → List ℕ → List ℕ → Bool
match_part fuel m part key = elim (same part pattern_wildcard) [
  | true ↦ elim (cut key) [
    | none ↦ elim (is_empty key) [ true ↦ false | false ↦ m [] ]
    | some c ↦ behind m false (some c)
  ]
  | false ↦ elim (same part pattern_zero_or_more) [
    | true ↦ match_rest fuel m key
    | false ↦ elim (cut key) [
      | none ↦ elim (same key part) [ true ↦ m [] | false ↦ false ]
      | some (before, after) ↦ elim (same before part) [
        | true ↦ behind m false (some (before, after))
        | false ↦ false
      ]
    ]
  ]
]

unfoldable pub match_key : ℕ → List ℕ → List ℕ → Bool
match_key zero pattern key = false
match_key (suc fuel) pattern key = elim (is_empty pattern) [
  | true ↦ is_empty key
  | false ↦ elim (cut pattern) [
    | none ↦ match_last (match_key fuel pattern) pattern key
    | some (part, rest) ↦ match_part fuel (match_key fuel rest) part key
  ]
]

unfoldable pub routing_key_matches : List ℕ → List ℕ → Bool
routing_key_matches pattern key = match_key (suc (length pattern + length key)) pattern key
