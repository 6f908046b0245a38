-- ===== src/Handlers/Bound.antt =====
-- The bindings of a consumer group that `CreateConsumerGroup` makes.
use eventter.Base.{
  ℕ, ◌≡◌, ◌≢◌, refl, ap, sym, subst, ◌∙◌, inl, inr, arith, Bool, List, [], ◌∷◌, none, some, String,
  All, Bool-cases, Option-cases,
}
use eventter.Base.Int.{ℤ}
use eventter.Cluster.Data.{ClusterState, ClusterConsumerGroup, ConsumerGroupCreate, Binding}
use eventter.Cluster.Queries.{find_namespace, get_topic}
use eventter.Cluster.Store.{Command}
use eventter.Match.Messages.{Published, message_matches}
use eventter.Match.Bindings.{is_known, IsKnown, message_matches-Perm}
use eventter.Handlers.Requests.{Answer, fails, applies, bind_by, bind_all, create_consumer_group}
use mathlib.Core.List.Perm

bind_by-IsKnown : (b : Binding) → (bind_by b ≡ none → ⊥) → IsKnown b
unfolding bind_by
bind_by-IsKnown b h = elim (Bool-cases (is_known b)) [
  | inl k ↦ k
  | inr k ↦ absurd (h (ground (arith, k)))
]

bind_all-IsKnown :
    (s : ClusterState) (namespace : String) (bs bound : List Binding)
    → bind_all s namespace bs ≡ some bound
    → All IsKnown bound
unfolding bind_all
bind_all-IsKnown s namespace [] bound e =
    let same : bound ≡ [] = ground (arith, e) in subst (All IsKnown) (sym same) tt
bind_all-IsKnown s namespace (b ∷ bs) bound e =
    elim (Option-cases (get_topic s namespace b.topic_name)) [
      | inl f ↦ absurd (ground (arith, e, f))
      | inr (t, f) ↦ elim (Option-cases (bind_by b)) [
        | inl g ↦ absurd (ground (arith, e, f, g))
        | inr (by, g) ↦ elim (Option-cases (bind_all s namespace bs)) [
          | inl h ↦ absurd (ground (arith, e, f, g, h))
          | inr (rest, h) ↦
              let step : bind_all s namespace (b ∷ bs) ≡ some (record b { by = by } ∷ rest) =
                rw (bind_all, f) (rw g (rw h refl)) in
              let both : some bound ≡ some (record b { by = by } ∷ rest) = sym e ∙ step in
              let same : bound ≡ record b { by = by } ∷ rest =
                ap (λ o. elim o [ none ↦ bound | some l ↦ l ]) both in
              let known : IsKnown b = bind_by-IsKnown b (λ none_by. ground (arith, g, none_by)) in
              subst (All IsKnown) (sym same) (known, bind_all-IsKnown s namespace bs rest h)
        ]
      ]
    ]

-- The bindings of the group that a command makes.
abbrev bindings_of : Answer → List Binding
bindings_of fails = []
bindings_of (applies (Command.create_consumer_group cmd ∷ cmds)) = cmd.consumer_group.bindings
bindings_of (applies cmds) = []

-- `messageMatches` does not panic on a consumer group that `CreateConsumerGroup` makes, whatever
-- the message, the time, the topic and `reflect.DeepEqual` are.
pub create_consumer_group-message_matches :
    (is_zero : ℤ → Bool) (size : ℕ) (now : ℤ) (s : ClusterState) (namespace : String)
    (request : ClusterConsumerGroup) (cmd : ConsumerGroupCreate) (deep_equal : ℕ → ℕ → Bool)
    (m : Published) (time : ℤ) (topic : String)
    → create_consumer_group is_zero size now s namespace request
      ≡ applies (Command.create_consumer_group cmd ∷ [])
    → message_matches deep_equal m time topic cmd.consumer_group ≢ none
unfolding create_consumer_group
create_consumer_group-message_matches is_zero size now s namespace request cmd deep_equal m time
      topic h =
    elim (Option-cases (find_namespace s namespace)) [
      | inl e ↦
          let step : create_consumer_group is_zero size now s namespace request ≡ fails =
            rw (create_consumer_group, e) refl in
          let both = sym step ∙ h in cc
      | inr (p, e) ↦ elim (Option-cases (bind_all s namespace request.bindings)) [
        | inl f ↦
            let step : create_consumer_group is_zero size now s namespace request ≡ fails =
              rw (create_consumer_group, e) (rw f refl) in
            let both = sym step ∙ h in cc
        | inr (bound, f) ↦
            let step : bindings_of (create_consumer_group is_zero size now s namespace request)
                ≡ bound =
              rw (create_consumer_group, e) (rw f refl) in
            let same : bound ≡ cmd.consumer_group.bindings = sym step ∙ ap bindings_of h in
            let known =
              subst (All IsKnown) same (bind_all-IsKnown s namespace request.bindings bound f) in
            (message_matches-Perm deep_equal m time topic cmd.consumer_group
              cmd.consumer_group.bindings known (Perm.refl cmd.consumer_group.bindings)).0
      ]
    ]
