-- ===== src/Cluster/Preserved.antt =====
-- Commands on namespaces, and the creation of topics and consumer groups, keep the state well formed.
use eventter.Base.{ℕ, ◌≡◌, refl, subst, inl, inr, arith, []}
use eventter.Base.{some, String, set}
use eventter.Base.Search.{find_index-find, All-set, All-remove_at, All-append_one, All-find}
use eventter.Base.Named.{find_index-cases, named, Unique-append, Unique-set, Unique-remove_at}
use eventter.Cluster.Data.{ClusterState, ClusterNamespace, ClusterTopic, ClusterConsumerGroup}
use eventter.Cluster.Data.{NamespaceCreate, NamespaceDelete, TopicCreate, ConsumerGroupCreate}
use eventter.Cluster.Queries.{find_namespace, find_topic, find_consumer_group}
use eventter.Cluster.Namespaces.{do_create_namespace, do_delete_namespace}
use eventter.Cluster.Topics.{put_topic, new_topic, configured, do_create_topic}
use eventter.Cluster.Groups
use eventter.Cluster.Groups.{
  put_consumer_group, new_group, do_create_consumer_group, do_delete_consumer_group,
  do_update_offset_commits,
}
use eventter.Cluster.Lookup.{by_name, find_namespace-cases}
use eventter.Cluster.Created.{put_topic-name, put_consumer_group-name}
use eventter.Cluster.Invariant.{IsValid, NamespaceIsValid, namespace_name, with_namespaces-IsValid}

pub create_namespace-IsValid :
    (s : ClusterState) (cmd : NamespaceCreate) → IsValid s → IsValid (do_create_namespace s cmd)
unfolding do_create_namespace find_namespace
create_namespace-IsValid s cmd v = elim (find_index-cases (by_name cmd.namespace) s.namespaces) [
  | inl (e, f) ↦
      rw (e, do_create_namespace, find_namespace)
        (with_namespaces-IsValid _ v (Unique-append namespace_name new s.namespaces v.names f)
          (All-append_one NamespaceIsValid new s.namespaces v.parts fresh))
  | inr (n, i, e, _, _) ↦ rw (e, do_create_namespace, find_namespace) v
]
  where
    new : ClusterNamespace
    new = record { name = cmd.namespace; topics = []; consumer_groups = [] }

    fresh : NamespaceIsValid new
    fresh = record { topics = λ k. omega arith; groups = λ k. omega arith }

pub delete_namespace-IsValid :
    (s : ClusterState) (cmd : NamespaceDelete) → IsValid s → IsValid (do_delete_namespace s cmd)
unfolding do_delete_namespace find_namespace
delete_namespace-IsValid s cmd v = elim (find_index-cases (by_name cmd.namespace) s.namespaces) [
  | inl (e, f) ↦ rw (e, do_delete_namespace, find_namespace) v
  | inr (n, i, e, _, _) ↦
      rw (e, do_delete_namespace, find_namespace)
        (with_namespaces-IsValid _ v
          (Unique-remove_at namespace_name (by_name cmd.namespace) n i s.namespaces e v.names)
          (All-remove_at NamespaceIsValid s.namespaces i v.parts))
]

-- One namespace changed, with its name kept.
pub change-IsValid :
    (s : ClusterState) (k : String) (n n' : ClusterNamespace) (i : ℕ)
    → IsValid s
    → find_namespace s k ≡ some (n, i)
    → n'.name ≡ n.name
    → (NamespaceIsValid n → NamespaceIsValid n')
    → IsValid (record s { namespaces = set s.namespaces i n' })
unfolding find_namespace
change-IsValid s k n n' i v e same keep =
    with_namespaces-IsValid _ v
      (Unique-set namespace_name (by_name k) n n' i s.namespaces e same v.names)
      (All-set NamespaceIsValid n' s.namespaces i v.parts (
        keep (
          All-find NamespaceIsValid (by_name k) s.namespaces n v.parts
            (find_index-find (by_name k) s.namespaces n i e))))

put_topic-Valid :
    (n : ClusterNamespace) (c : ClusterTopic)
    → NamespaceIsValid n
    → NamespaceIsValid (put_topic n c)
unfolding put_topic find_topic
put_topic-Valid n c v = elim (find_index-cases (named key c.name) n.topics) [
  | inl (e, f) ↦
      rw (e, put_topic, find_topic)
        (record { topics = Unique-append key (new_topic c) n.topics v.topics f; groups = v.groups })
  | inr (t, i, e, _, _) ↦
      rw (e, put_topic, find_topic)
        (record {
          topics = Unique-set key (named key c.name) t (configured t c) i n.topics e refl v.topics;
          groups = v.groups;
        })
]
  where
    key : ClusterTopic → String
    key t = t.name

put_consumer_group-Valid :
    (n : ClusterNamespace) (c : ClusterConsumerGroup)
    → NamespaceIsValid n
    → NamespaceIsValid (put_consumer_group n c)
unfolding put_consumer_group find_consumer_group
put_consumer_group-Valid n c v = elim (find_index-cases (named key c.name) n.consumer_groups) [
  | inl (e, f) ↦
      rw (e, put_consumer_group, find_consumer_group)
        (record {
          topics = v.topics;
          groups = Unique-append key (new_group c) n.consumer_groups v.groups f;
        })
  | inr (t, i, e, _, _) ↦
      rw (e, put_consumer_group, find_consumer_group)
        (record {
          topics = v.topics;
          groups =
              Unique-set key (named key c.name) t (Groups.configured t c) i n.consumer_groups e refl
                v.groups;
        })
]
  where
    key : ClusterConsumerGroup → String
    key t = t.name

pub create_topic-IsValid :
    (s s' : ClusterState) (cmd : TopicCreate)
    → IsValid s
    → do_create_topic s cmd ≡ some s'
    → IsValid s'
unfolding do_create_topic
create_topic-IsValid s s' cmd v e = elim (find_namespace-cases s cmd.namespace) [
  | inl f ↦ ground arith
  | inr (n, i, f, _) ↦
      let now : record s { namespaces = set s.namespaces i (put_topic n cmd.topic) } ≡ s' =
        ground arith in
      subst IsValid now (
        change-IsValid s cmd.namespace n (put_topic n cmd.topic) i v f (put_topic-name n cmd.topic)
          (put_topic-Valid n cmd.topic))
]

pub create_consumer_group-IsValid :
    (s s' : ClusterState) (cmd : ConsumerGroupCreate)
    → IsValid s
    → do_create_consumer_group s cmd ≡ some s'
    → IsValid s'
unfolding do_create_consumer_group
create_consumer_group-IsValid s s' cmd v e = elim (find_namespace-cases s cmd.namespace) [
  | inl f ↦ ground arith
  | inr (n, i, f, _) ↦
      let c = cmd.consumer_group in
      let now : record s { namespaces = set s.namespaces i (put_consumer_group n c) } ≡ s' =
        ground arith in
      subst IsValid now (
        change-IsValid s cmd.namespace n (put_consumer_group n c) i v f
          (put_consumer_group-name n c) (put_consumer_group-Valid n c))
]
