-- ===== src/Match/Tests.antt =====
-- The theorems on matching at a routing key of two words and at two bindings.
use eventter.Base.{◌≡◌, not, ◌&&◌, refl, true, false, List, [], ◌∷◌, ℕ}
use eventter.Base.{◌≢◌, none, some, ◌==◌}
use eventter.Base.Int.{pos}
use eventter.Cluster.Data.{By, Binding, ClusterConsumerGroup}
use eventter.Match.Messages.{Published, codes, binding_round, any_binding, message_matches}
use eventter.Match.Bindings.{message_matches-Perm}
use mathlib.Core.List.Perm
use eventter.Match.Keys.{routing_key_matches, match_key, match_last, match_part, match_rest}
use eventter.Match.Words.{split, key_words, ends_in_separator}
use eventter.Match.Topics.{topic_matches, routing_key_matches-topic_matches}

-- "#.b"
abbrev any_b : List ℕ
any_b = 35 ∷ 46 ∷ 98 ∷ []

-- "a.b"
abbrev a_b : List ℕ
a_b = 97 ∷ 46 ∷ 98 ∷ []

any_b-matches : routing_key_matches any_b a_b ≡ true
unfolding routing_key_matches match_key match_last match_part match_rest
any_b-matches = refl

-- "#." does not match "a", although "#" may stand for no word and the rest for none either.
blank-matches : routing_key_matches (35 ∷ 46 ∷ []) (97 ∷ []) ≡ false
unfolding routing_key_matches match_key match_last match_part match_rest
blank-matches = refl

routing_key_matches-topic_matches_example :
    routing_key_matches any_b a_b
    ≡ not (ends_in_separator a_b) && topic_matches (split any_b) (key_words a_b)
routing_key_matches-topic_matches_example = routing_key_matches-topic_matches any_b a_b

abbrev published : Published
published = record { routing_key = "a.b"; headers = none }

abbrev direct : Binding
direct = record { topic_name = "orders"; exchange_type = "direct"; by = By.routing_key "a" }

abbrev by_topic : Binding
by_topic = record { topic_name = "orders"; exchange_type = "topic"; by = By.routing_key "a.*" }

abbrev two_bindings : ClusterConsumerGroup
two_bindings = record {
  name = "billing";
  bindings = direct ∷ by_topic ∷ [];
  size = 4;
  since = pos 0;
  offset_commits = [];
}

published-matches : message_matches ◌==◌ published (pos 1) "orders" two_bindings ≡ some true
unfolding message_matches any_binding binding_round codes routing_key_matches match_key match_last
    match_part match_rest
published-matches = refl

message_matches-Perm_example :
    (message_matches ◌==◌ published (pos 1) "orders" two_bindings ≢ none)
    × (message_matches ◌==◌ published
          (pos 1)
          "orders"
          (record two_bindings { bindings = by_topic ∷ direct ∷ [] })
        ≡ message_matches ◌==◌ published (pos 1) "orders" two_bindings)
message_matches-Perm_example =
    message_matches-Perm ◌==◌ published (pos 1) "orders" two_bindings (by_topic ∷ direct ∷ [])
      (refl, (refl, tt)) (Perm.swap direct by_topic [])
