-- ===== src/Match/Messages.antt =====
-- `messageMatches` of mq/match.go. `reflect.DeepEqual` of two header values is a parameter. An
-- exchange type that is none of the four is a panic, `none`.
use eventter.Base.{
  ℕ, Bool, true, false, List, [], ◌∷◌, Option, none, some, String, str_eq, if◌then◌else◌,
}
use eventter.Base.Int.{ℤ, ltb_ℤ}
use eventter.Cluster.Data.{By, Binding, ClusterConsumerGroup}
use eventter.Match.Keys.{routing_key_matches}
use Prim.Native.Char.{char}
use Prim.Native.String.{[] as nil, ◌∷◌ as ◌∷ˢ◌}

-- The characters of a string as numbers. A routing key is only compared and split at ".", which is
-- the same for these as for its bytes.
unfoldable pub codes : String → List ℕ
codes nil = []
codes (char n p ∷ˢ s) = n ∷ codes s

-- What is used of emq.Message; `headers` is none if `Headers` or its `Fields` is nil.
pub record Published : Type 0 where
  pub routing_key : String
  pub headers : Option (List (String × ℕ))

-- `fields[name]`
abbrev pub field : String → List (String × ℕ) → Option ℕ
field name [] = none
field name ((key, v) ∷ fields) = if str_eq key name then some v else field name fields

-- How a binding ends its round of the loop.
pub data Round : Type 0 where
  matches goes_on panics : Round

abbrev pub matches_if : Bool → Round
matches_if true = matches
matches_if false = goes_on

module _ (deep_equal : ℕ → ℕ → Bool) where
  -- `gotHeaderValue, ok := …` and the comparison with what is expected.
  abbrev pub has_value : List (String × ℕ) → String → ℕ → Bool
  has_value fields name expected = elim (field name fields) [
    | none ↦ false
    | some got ↦ deep_equal expected got
  ]

  -- The two loops over the headers of a binding.
  abbrev pub has_all : List (String × ℕ) → List (String × ℕ) → Bool
  has_all fields [] = true
  has_all fields ((name, expected) ∷ rest) =
      if has_value fields name expected then has_all fields rest else false

  abbrev pub has_any : List (String × ℕ) → List (String × ℕ) → Bool
  has_any fields [] = false
  has_any fields ((name, expected) ∷ rest) =
      if has_value fields name expected then true else has_any fields rest

  abbrev pub headers_match : By → Option (List (String × ℕ)) → Bool
  headers_match by none = false
  headers_match (By.headers_all expected) (some fields) = has_all fields expected
  headers_match (By.headers_any expected) (some fields) = has_any fields expected
  headers_match by (some fields) = false

  abbrev pub key_matches : (String → Bool) → By → Bool
  key_matches test (By.routing_key key) = test key
  key_matches test by = false

  -- The switch on the exchange type.
  unfoldable pub binding_round : Published → Binding → Round
  binding_round m b =
      if str_eq b.exchange_type "direct"
      then matches_if (key_matches (λ k. str_eq k m.routing_key) b.by)
      else if str_eq b.exchange_type "fanout"
      then matches
      else if str_eq b.exchange_type "topic"
      then matches_if (key_matches (λ k. routing_key_matches (codes k) (codes m.routing_key)) b.by)
      else if str_eq b.exchange_type "headers"
      then matches_if (headers_match b.by m.headers)
      else panics

  unfoldable pub any_binding : Published → String → List Binding → Option Bool
  any_binding m topic [] = some false
  any_binding m topic (b ∷ bindings) =
      let rest = any_binding m topic bindings in
      if str_eq b.topic_name topic
      then (elim (binding_round m b) [ matches ↦ some true | goes_on ↦ rest | panics ↦ none ])
      else rest

  unfoldable pub message_matches : Published → ℤ → String → ClusterConsumerGroup → Option Bool
  message_matches m time topic g =
      if ltb_ℤ time g.since then some false else any_binding m topic g.bindings
