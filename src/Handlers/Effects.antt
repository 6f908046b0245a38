-- ===== src/Handlers/Effects.antt =====
-- What the commands of a request make of the state.
use eventter.Base.{
  ℕ, ◌≡◌, refl, sym, subst, inl, inr, Bool, ◌&&◌, List, [], ◌∷◌, map, String, str_eq, ◌==◌,
  if◌then◌else◌, Bool-cases, Option-cases,
}
use eventter.Base.Int.{ℤ}
use eventter.Cluster.Data.{ClusterState, ClusterConsumerGroup, TopicCreate, SegmentType}
use eventter.Cluster.Sort.{SortLib}
use eventter.Cluster.Queries.{
  find_namespace, find_topic, find_consumer_group, get_topic, any_consumer_group_references_topic,
  find_open_segments_for,
}
use eventter.Cluster.Store.{Command, dispatch}
use eventter.Cluster.Invariant.{IsValid}
use eventter.Handlers.Requests.{
  Answer, fails, applies, with_default_factor, since_of, create_namespace, delete_namespace,
  create_topic, delete_topic, bind_all, create_consumer_group, delete_open, delete_consumer_group,
}
use eventter.Handlers.Running.{
  Effect, Effect-more, Effect-one, Effect-deletes, topic_completes, group_completes,
  delete_topic-completes, group_deletion_completes,
}

pub data Request : Type 0 where
  creates_namespace deletes_namespace : String → Request
  creates_topic : TopicCreate → Request
  deletes_topic : String → String → Bool → Request
  creates_group : String → ClusterConsumerGroup → Request
  deletes_group : String → String → Request

abbrev pub answer : (ℤ → Bool) → ℕ → ℤ → ClusterState → Request → Answer
answer is_zero size now s (creates_namespace name) = create_namespace name
answer is_zero size now s (deletes_namespace name) = delete_namespace s name
answer is_zero size now s (creates_topic request) = create_topic s request
answer is_zero size now s (deletes_topic namespace name if_unused) =
    delete_topic s namespace name if_unused
answer is_zero size now s (creates_group namespace request) =
    create_consumer_group is_zero size now s namespace request
answer is_zero size now s (deletes_group namespace name) = delete_consumer_group s namespace name

module _ (lib : SortLib) where
  abbrev EffectSpec : ClusterState → Answer → Type 0
  EffectSpec s fails = Unit {0}
  EffectSpec s (applies cmds) = Effect lib s cmds

  namespace_created-Effect :
      (s : ClusterState) (name : String) → IsValid s → EffectSpec s (create_namespace name)
  unfolding dispatch
  namespace_created-Effect s name v = Effect-one lib s _ v refl

  namespace_deleted-Effect :
      (s : ClusterState) (name : String) → IsValid s → EffectSpec s (delete_namespace s name)
  unfolding dispatch delete_namespace
  namespace_deleted-Effect s name v = elim (Option-cases (find_namespace s name)) [
    | inl e ↦
        let step : delete_namespace s name ≡ fails = rw (delete_namespace, e) refl in
        subst (EffectSpec s) (sym step) tt
    | inr (p, e) ↦
        let delete = Command.delete_namespace (record { namespace = name }) in
        let step : delete_namespace s name ≡ applies (delete ∷ []) =
          rw (delete_namespace, e) refl in
        subst (EffectSpec s) (sym step) (Effect-one lib s delete v refl)
  ]

  topic_created-Effect :
      (s : ClusterState) (request : TopicCreate) → IsValid s → EffectSpec s (create_topic s request)
  unfolding create_topic
  topic_created-Effect s request v = elim (Option-cases (find_namespace s request.namespace)) [
    | inl e ↦
        let step : create_topic s request ≡ fails = rw (create_topic, e) refl in
        subst (EffectSpec s) (sym step) tt
    | inr (p, e) ↦
        let create =
          Command.create_topic
            (record { namespace = request.namespace; topic = with_default_factor request.topic }) in
        let effect : Effect lib s (create ∷ []) =
          Effect-one lib s create v (topic_completes lib s _ e) in
        elim (Option-cases (get_topic s request.namespace request.topic.name)) [
          | inl f ↦
              let step : create_topic s request ≡ applies (create ∷ []) =
                rw (create_topic, e) (rw f refl) in
              subst (EffectSpec s) (sym step) effect
          | inr (t, f) ↦
              elim (Bool-cases
                (str_eq request.topic.default_exchange_type t.default_exchange_type)) [
                  | inl g ↦
                      let step : create_topic s request ≡ applies (create ∷ []) =
                        rw (create_topic, e) (rw f (rw g refl)) in
                      subst (EffectSpec s) (sym step) effect
                  | inr g ↦
                      let step : create_topic s request ≡ fails =
                        rw (create_topic, e) (rw f (rw g refl)) in
                      subst (EffectSpec s) (sym step) tt
                ]
        ]
  ]

  topic_deleted-Effect :
      (s : ClusterState) (namespace name : String) (if_unused : Bool)
      → IsValid s
      → EffectSpec s (delete_topic s namespace name if_unused)
  unfolding delete_topic
  topic_deleted-Effect s namespace name if_unused v =
      let run = delete_topic s namespace name if_unused in
      elim (Option-cases (find_namespace s namespace)) [
        | inl e ↦
            let step : run ≡ fails = rw (delete_topic, e) refl in subst (EffectSpec s) (sym step) tt
        | inr ((n, i), e) ↦ elim (Option-cases (find_topic n name)) [
          | inl f ↦
              let step : run ≡ fails = rw (delete_topic, e) (rw f refl) in
              subst (EffectSpec s) (sym step) tt
          | inr (p, f) ↦
              elim (Bool-cases (if_unused && any_consumer_group_references_topic n name)) [
                | inl g ↦
                    let step : run ≡ fails = rw (delete_topic, e) (rw f (rw g refl)) in
                    subst (EffectSpec s) (sym step) tt
                | inr g ↦
                    let delete =
                      Command.delete_topic (record { namespace = namespace; name = name }) in
                    let step : run ≡ applies (delete ∷ []) =
                      rw (delete_topic, e) (rw f (rw g refl)) in
                    subst (EffectSpec s) (sym step)
                      (Effect-one lib s delete v (delete_topic-completes lib s _ e))
              ]
        ]
      ]

  group_created-Effect :
      (is_zero : ℤ → Bool) (size : ℕ) (now : ℤ) (s : ClusterState) (namespace : String)
      (request : ClusterConsumerGroup)
      → IsValid s
      → EffectSpec s (create_consumer_group is_zero size now s namespace request)
  unfolding create_consumer_group
  group_created-Effect is_zero size now s namespace request v =
      elim (Option-cases (find_namespace s namespace)) [
        | inl e ↦
            let step : create_consumer_group is_zero size now s namespace request ≡ fails =
              rw (create_consumer_group, e) refl in
            subst (EffectSpec s) (sym step) tt
        | inr (p, e) ↦ elim (Option-cases (bind_all s namespace request.bindings)) [
          | inl f ↦
              let step : create_consumer_group is_zero size now s namespace request ≡ fails =
                rw (create_consumer_group, e) (rw f refl) in
              subst (EffectSpec s) (sym step) tt
          | inr (bound, f) ↦
              let create = Command.create_consumer_group (record {
                namespace = namespace;
                consumer_group = record {
                  name = request.name;
                  bindings = bound;
                  size = if request.size == 0 then size else request.size;
                  since = since_of is_zero size now p.0 request;
                  offset_commits = [];
                };
              }) in
              let step : create_consumer_group is_zero size now s namespace request
                  ≡ applies (create ∷ []) =
                rw (create_consumer_group, e) (rw f refl) in
              subst (EffectSpec s) (sym step)
                (Effect-one lib s create v (group_completes lib s _ e))
        ]
      ]

  group_deleted-Effect :
      (s : ClusterState) (namespace name : String)
      → IsValid s
      → EffectSpec s (delete_consumer_group s namespace name)
  unfolding delete_consumer_group
  group_deleted-Effect s namespace name v =
      let run = delete_consumer_group s namespace name in
      elim (Option-cases (find_namespace s namespace)) [
        | inl e ↦
            let step : run ≡ fails = rw (delete_consumer_group, e) refl in
            subst (EffectSpec s) (sym step) tt
        | inr ((n, i), e) ↦ elim (Option-cases (find_consumer_group n name)) [
          | inl f ↦
              let step : run ≡ fails = rw (delete_consumer_group, e) (rw f refl) in
              subst (EffectSpec s) (sym step) tt
          | inr (p, f) ↦
              let delete =
                Command.delete_consumer_group (record { namespace = namespace; name = name }) in
              let gs =
                find_open_segments_for s SegmentType.consumer_group_offset_commits namespace name in
              let step : run ≡ applies (delete ∷ map delete_open gs) =
                rw (delete_consumer_group, e) (rw f refl) in
              subst (EffectSpec s) (sym step) (
                Effect-more lib s delete (map delete_open gs) v (group_deletion_completes lib s _ e)
                  (λ next w. Effect-deletes lib gs next w))
        ]
      ]

  answer-EffectSpec :
      (is_zero : ℤ → Bool) (size : ℕ) (now : ℤ) (s : ClusterState) (r : Request)
      → IsValid s
      → EffectSpec s (answer is_zero size now s r)
  answer-EffectSpec is_zero size now s (creates_namespace name) v =
      namespace_created-Effect s name v
  answer-EffectSpec is_zero size now s (deletes_namespace name) v =
      namespace_deleted-Effect s name v
  answer-EffectSpec is_zero size now s (creates_topic request) v = topic_created-Effect s request v
  answer-EffectSpec is_zero size now s (deletes_topic namespace name if_unused) v =
      topic_deleted-Effect s namespace name if_unused v
  answer-EffectSpec is_zero size now s (creates_group namespace request) v =
      group_created-Effect is_zero size now s namespace request v
  answer-EffectSpec is_zero size now s (deletes_group namespace name) v =
      group_deleted-Effect s namespace name v

  -- The commands that a request to create or delete a namespace, a topic or a consumer group
  -- applies go through without a panic, one after the other, and leave a valid state valid.
  pub answer-Effect :
      (is_zero : ℤ → Bool) (size : ℕ) (now : ℤ) (s : ClusterState) (r : Request)
      (cmds : List Command)
      → IsValid s
      → answer is_zero size now s r ≡ applies cmds
      → Effect lib s cmds
  answer-Effect is_zero size now s r cmds v e =
      subst (EffectSpec s) e (answer-EffectSpec is_zero size now s r v)
