-- ===== src/Match/Bindings.antt =====
-- Which bindings a message needs does not depend on their order.
use eventter.Base.{
  ℕ, ◌≡◌, ◌≢◌, refl, arith, Bool, true, false, ◌&&◌, ◌||◌, List, [], ◌∷◌, none, some, String,
  str_eq, All, count_if, ltb,
}
use eventter.Base.Int.{ℤ}
use eventter.Base.Ordered.{count_if-perm, All-perm}
use eventter.Cluster.Data.{Binding, ClusterConsumerGroup}
use eventter.Match.Messages.{
  Published, matches, goes_on, panics, binding_round, any_binding, message_matches,
}
use mathlib.Core.List.{Perm}

-- The four exchange types.
abbrev pub is_known : Binding → Bool
is_known b =
    str_eq b.exchange_type "direct"
    || (str_eq b.exchange_type "fanout"
        || (str_eq b.exchange_type "topic" || str_eq b.exchange_type "headers"))

abbrev pub IsKnown : Binding → Type 0
IsKnown b = is_known b ≡ true

module _ (deep_equal : ℕ → ℕ → Bool) where
  abbrev accepts : Published → String → Binding → Bool
  accepts m topic b =
      str_eq b.topic_name topic
      && (elim (binding_round deep_equal m b) [ matches ↦ true | goes_on ↦ false | panics ↦ false ])

  binding_round-known :
      (m : Published) (b : Binding) → IsKnown b → binding_round deep_equal m b ≢ panics
  unfolding binding_round
  binding_round-known m b k e = ground arith

  any_binding-count :
      (m : Published) (topic : String) (bs : List Binding)
      → All IsKnown bs
      → any_binding deep_equal m topic bs ≡ some (ltb 0 (count_if (accepts m topic) bs))
  unfolding any_binding
  any_binding-count m topic [] a = refl
  any_binding-count m topic (b ∷ bs) a =
      ground (arith, any_binding-count m topic bs a.1, binding_round-known m b a.0)

  -- For a group whose bindings all have one of the four exchange types, `messageMatches` does not
  -- panic, and answers the same for any order of the bindings, whatever `reflect.DeepEqual` says
  -- of header values.
  pub message_matches-Perm :
      (m : Published) (time : ℤ) (topic : String) (g : ClusterConsumerGroup) (bs : List Binding)
      → All IsKnown g.bindings
      → Perm bs g.bindings
      → (message_matches deep_equal m time topic g ≢ none)
        × (message_matches deep_equal m time topic (record g { bindings = bs })
            ≡ message_matches deep_equal m time topic g)
  unfolding message_matches
  message_matches-Perm m time topic g bs known p =
      let here = any_binding-count m topic g.bindings known in
      let there = any_binding-count m topic bs (All-perm IsKnown (λ b. hlevel) p known) in
      let same = count_if-perm (accepts m topic) p in
      (ground (arith, here), ground (arith, here, there, same))
