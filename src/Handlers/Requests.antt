-- ===== src/Handlers/Requests.antt =====
-- server_namespace_*.go, server_topic_create.go, server_topic_delete.go, server_consumer_group_create.go
-- and server_consumer_group_delete.go, from their transactions on: a request that is valid, on the
-- leader. A request's binding has the fields of a binding of the state.
use eventter.Base.{
  ℕ, Bool, true, false, ◌&&◌, ◌||◌, List, [], ◌∷◌, map, Option, none, some, String, str_eq, ◌==◌,
  if◌then◌else◌,
}
use eventter.Base.Int.{ℤ}
use eventter.Cluster.Data.{
  ClusterState, ClusterNamespace, ClusterTopic, ClusterConsumerGroup, ClusterSegment, Binding, By,
  unset, routing_key, headers_all, headers_any, TopicCreate, SegmentType, Which,
}
use eventter.Cluster.Queries.{
  find_namespace, find_topic, find_consumer_group, get_topic, any_consumer_group_references_topic,
  find_open_segments_for,
}
use eventter.Cluster.Store.{Command}
use eventter.Reconcile.Open.{default_replication_factor}

-- An error, or the commands that are applied, up to one whose `Apply` fails.
pub data Answer : Type 0 where
  fails : Answer
  applies : List Command → Answer

abbrev pub create_namespace : String → Answer
create_namespace name = applies (Command.create_namespace (record { namespace = name }) ∷ [])

unfoldable pub delete_namespace : ClusterState → String → Answer
delete_namespace s name = elim (find_namespace s name) [
  | none ↦ fails
  | some found ↦ applies (Command.delete_namespace (record { namespace = name }) ∷ [])
]

abbrev pub with_default_factor : ClusterTopic → ClusterTopic
with_default_factor t =
    if t.replication_factor == 0
    then record t { replication_factor = default_replication_factor }
    else t

-- `CreateTopic`; the type of a topic that exists is not changed.
unfoldable pub create_topic : ClusterState → TopicCreate → Answer
create_topic s request =
    let create =
      Command.create_topic
        (record { namespace = request.namespace; topic = with_default_factor request.topic }) in
    elim (find_namespace s request.namespace) [
      | none ↦ fails
      | some found ↦ elim (get_topic s request.namespace request.topic.name) [
        | none ↦ applies (create ∷ [])
        | some t ↦
            if str_eq request.topic.default_exchange_type t.default_exchange_type
            then applies (create ∷ [])
            else fails
      ]
    ]

-- `DeleteTopic`
unfoldable pub delete_topic : ClusterState → String → String → Bool → Answer
delete_topic s namespace name if_unused = elim (find_namespace s namespace) [
  | none ↦ fails
  | some (n, i) ↦ elim (find_topic n name) [
    | none ↦ fails
    | some found ↦
        if if_unused && any_consumer_group_references_topic n name
        then fails
        else applies (Command.delete_topic (record { namespace = namespace; name = name }) ∷ [])
  ]
]

-- The switch on the exchange type, with what the binding is by.
abbrev pub has_key : By → Bool
has_key (routing_key key) = true
has_key by = false

abbrev pub has_headers : By → Bool
has_headers (headers_all fields) = true
has_headers (headers_any fields) = true
has_headers by = false

unfoldable pub bind_by : Binding → Option By
bind_by b =
    if str_eq b.exchange_type "direct" || str_eq b.exchange_type "topic"
    then (if has_key b.by then some b.by else none)
    else (if str_eq b.exchange_type "headers"
        then (if has_headers b.by then some b.by else none)
        else (if str_eq b.exchange_type "fanout" then some unset else none))

-- The loop over the bindings.
unfoldable pub bind_all : ClusterState → String → List Binding → Option (List Binding)
unfolding bind_by
bind_all s namespace [] = some []
bind_all s namespace (b ∷ bs) =
    let rest = bind_all s namespace bs in
    elim (get_topic s namespace b.topic_name) [
      | none ↦ none
      | some t ↦ elim (bind_by b) [
        | none ↦ none
        | some by ↦ elim rest [ none ↦ none | some bound ↦ some (record b { by = by } ∷ bound) ]
      ]
    ]

-- `IsZero` of the time, the size of a group that asks for none, and the time.
module _ (is_zero : ℤ → Bool) (default_size : ℕ) (now : ℤ) where
  abbrev pub since_of : ClusterNamespace → ClusterConsumerGroup → ℤ
  since_of n request =
      if is_zero request.since
      then (elim (find_consumer_group n request.name) [ none ↦ now | some (c, i) ↦ c.since ])
      else request.since

  -- `CreateConsumerGroup`, up to the reconciler's part.
  unfoldable pub create_consumer_group : ClusterState → String → ClusterConsumerGroup → Answer
  unfolding bind_all
  create_consumer_group s namespace request = elim (find_namespace s namespace) [
    | none ↦ fails
    | some (n, i) ↦ elim (bind_all s namespace request.bindings) [
      | none ↦ fails
      | some bound ↦ applies (
          Command.create_consumer_group (record {
            namespace = namespace;
            consumer_group = record {
              name = request.name;
              bindings = bound;
              size = if request.size == 0 then default_size else request.size;
              since = since_of n request;
              offset_commits = [];
            };
          })
          ∷ [])
    ]
  ]

abbrev pub delete_open : ClusterSegment → Command
delete_open g = Command.delete_segment (record { id = g.id; which = Which.open_which })

-- `DeleteConsumerGroup`
unfoldable pub delete_consumer_group : ClusterState → String → String → Answer
delete_consumer_group s namespace name = elim (find_namespace s namespace) [
  | none ↦ fails
  | some (n, i) ↦ elim (find_consumer_group n name) [
    | none ↦ fails
    | some found ↦ applies (
        Command.delete_consumer_group (record { namespace = namespace; name = name })
        ∷ map delete_open
            (find_open_segments_for s SegmentType.consumer_group_offset_commits namespace name))
  ]
]
