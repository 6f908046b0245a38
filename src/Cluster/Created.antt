-- ===== src/Cluster/Created.antt =====
-- Creating: what every query by name finds afterwards.
use eventter.Base.{ℕ, ◌≡◌, sym, ap, ◌∙◌, inl, inr, arith, true, ◌&&◌}
use eventter.Base.{Option, none, some, String, str_eq, eq_iff, if◌then◌else◌, find, set, Bool-cases}
use eventter.Base.Named.{find_index-cases, find-set-named, find-append_named, str_eq_refl}
use eventter.Base.Search.{find_index}
use eventter.Cluster.Data.{
  ClusterState, ClusterNamespace, ClusterTopic, ClusterConsumerGroup, TopicCreate,
  ConsumerGroupCreate,
}
use eventter.Cluster.Queries.{find_consumer_group, get_topic, get_consumer_group}
use eventter.Cluster.Topics.{put_topic, do_create_topic}
use eventter.Cluster.Groups.{put_consumer_group, new_group, configured, do_create_consumer_group}
use eventter.Cluster.Lookup.{
  by_name, topic_named, group_named, in_namespace, get_topic-find, get_consumer_group-find,
  find-put_topic, find_namespace-cases, in_changed, in_same,
}

pub put_topic-name : (n : ClusterNamespace) (c : ClusterTopic) → (put_topic n c).name ≡ n.name
unfolding put_topic
put_topic-name n c = ground arith

-- Creating a topic without a panic makes the query for it find what the command says, and leaves
-- the query for every other topic as it was.
pub get_topic-do_create_topic :
    (s s' : ClusterState) (cmd : TopicCreate) (ns t : String)
    → do_create_topic s cmd ≡ some s'
    → get_topic s' ns t ≡ (
        if str_eq cmd.namespace ns && str_eq cmd.topic.name t
        then some cmd.topic
        else get_topic s ns t)
unfolding do_create_topic
get_topic-do_create_topic s s' cmd ns t e = elim (find_namespace-cases s cmd.namespace) [
  | inl f ↦ ground arith
  | inr (n, i, f, g) ↦
      let n' = put_topic n cmd.topic in
      let now : s' ≡ record s { namespaces = set s.namespaces i n' } = ground arith in
      let look = λ (m : ClusterNamespace). find (topic_named t) m.topics in
      get_topic-find s' ns t
      ∙ ap (λ (x : ClusterState). in_namespace (find (by_name ns) x.namespaces) look) now
      ∙ in_changed s n n' i cmd.namespace ns look f (put_topic-name n cmd.topic)
      ∙ branches n g
]
  where
    branches :
        (n : ClusterNamespace)
        → find (by_name cmd.namespace) s.namespaces ≡ some n
        → (if str_eq cmd.namespace ns
            then find (topic_named t) (put_topic n cmd.topic).topics
            else in_namespace (find (by_name ns) s.namespaces) (λ m. find (topic_named t) m.topics))
          ≡ (if str_eq cmd.namespace ns && str_eq cmd.topic.name t
              then some cmd.topic
              else get_topic s ns t)
    branches n g = elim (Bool-cases (str_eq cmd.namespace ns)) [
      | inl h ↦ rw h (
          find-put_topic n cmd.topic t
          ∙ ap (λ o. if str_eq cmd.topic.name t then some cmd.topic else o)
              (sym (in_same s n cmd.namespace ns (λ m. find (topic_named t) m.topics) g h)
                ∙ sym (get_topic-find s ns t)))
      | inr h ↦ rw h (sym (get_topic-find s ns t))
    ]

pub put_consumer_group-name :
    (n : ClusterNamespace) (c : ClusterConsumerGroup) → (put_consumer_group n c).name ≡ n.name
unfolding put_consumer_group
put_consumer_group-name n c = ground arith

-- The group that the command makes: its own settings, and the offsets committed so far.
abbrev pub created : Option ClusterConsumerGroup → ClusterConsumerGroup → ClusterConsumerGroup
created none c = new_group c
created (some g) c = record c { offset_commits = g.offset_commits }

find-put_consumer_group :
    (n : ClusterNamespace) (c : ClusterConsumerGroup) (t : String)
    → find (group_named t) (put_consumer_group n c).consumer_groups ≡ (
        if str_eq c.name t
        then some (created (find (group_named c.name) n.consumer_groups) c)
        else find (group_named t) n.consumer_groups)
unfolding put_consumer_group find_consumer_group
find-put_consumer_group n c t = elim (find_index-cases (group_named c.name) n.consumer_groups) [
  | inl (e, f) ↦ appended e f
  | inr (x, i, e, f, p) ↦ replaced x i e f p
]
  where
    key : ClusterConsumerGroup → String
    key x = x.name

    appended :
        find_index (group_named c.name) n.consumer_groups ≡ none
        → find (group_named c.name) n.consumer_groups ≡ none
        → find (group_named t) (put_consumer_group n c).consumer_groups ≡ (
            if str_eq c.name t
            then some (created (find (group_named c.name) n.consumer_groups) c)
            else find (group_named t) n.consumer_groups)
    appended e f =
        rw (f, e, put_consumer_group)
          (find-append_named key (new_group c) c.name t n.consumer_groups f (str_eq_refl c.name))

    replaced :
        (x : ClusterConsumerGroup) (i : ℕ)
        → find_index (group_named c.name) n.consumer_groups ≡ some (x, i)
        → find (group_named c.name) n.consumer_groups ≡ some x
        → group_named c.name x ≡ true
        → find (group_named t) (put_consumer_group n c).consumer_groups ≡ (
            if str_eq c.name t
            then some (created (find (group_named c.name) n.consumer_groups) c)
            else find (group_named t) n.consumer_groups)
    replaced x i e f p =
        let same : x.name ≡ c.name = (eq_iff x.name c.name).0 p in
        let all : configured x c ≡ created (some x) c =
          ap (λ k. record c { name = k; offset_commits = x.offset_commits }) same in
        rw (f, e, put_consumer_group)
          (find-set-named key x (configured x c) i c.name t n.consumer_groups e p
            ∙ ap (λ y. if str_eq c.name t then some y else find (group_named t) n.consumer_groups)
                all)

-- Creating a consumer group without a panic makes the query for it find the settings of the
-- command with the offset commits that a group of that name had, and leaves the query for every
-- other group as it was.
pub get_consumer_group-do_create_consumer_group :
    (s s' : ClusterState) (cmd : ConsumerGroupCreate) (ns t : String)
    → do_create_consumer_group s cmd ≡ some s'
    → get_consumer_group s' ns t ≡ (
        if str_eq cmd.namespace ns && str_eq cmd.consumer_group.name t
        then some (
            created (get_consumer_group s cmd.namespace cmd.consumer_group.name) cmd.consumer_group)
        else get_consumer_group s ns t)
unfolding do_create_consumer_group
get_consumer_group-do_create_consumer_group s s' cmd ns t e =
    elim (find_namespace-cases s cmd.namespace) [
      | inl f ↦ ground arith
      | inr (n, i, f, g) ↦
          let n' = put_consumer_group n cmd.consumer_group in
          let now : s' ≡ record s { namespaces = set s.namespaces i n' } = ground arith in
          get_consumer_group-find s' ns t
          ∙ ap (λ (x : ClusterState). in_namespace (find (by_name ns) x.namespaces) (look t)) now
          ∙ in_changed s n n' i cmd.namespace ns (look t) f
              (put_consumer_group-name n cmd.consumer_group)
          ∙ branches n g
    ]
  where
    look : String → ClusterNamespace → Option ClusterConsumerGroup
    look k m = find (group_named k) m.consumer_groups

    branches :
        (n : ClusterNamespace)
        → find (by_name cmd.namespace) s.namespaces ≡ some n
        → (if str_eq cmd.namespace ns
            then look t (put_consumer_group n cmd.consumer_group)
            else in_namespace (find (by_name ns) s.namespaces) (look t))
          ≡ (if str_eq cmd.namespace ns && str_eq cmd.consumer_group.name t
              then some (
                  created
                    (get_consumer_group s cmd.namespace cmd.consumer_group.name)
                    cmd.consumer_group)
              else get_consumer_group s ns t)
    branches n g = elim (Bool-cases (str_eq cmd.namespace ns)) [
      | inl h ↦
          let old =
            get_consumer_group-find s cmd.namespace cmd.consumer_group.name
            ∙ in_same s n cmd.namespace cmd.namespace (look cmd.consumer_group.name) g
                (str_eq_refl cmd.namespace) in
          rw (h, old)
            (find-put_consumer_group n cmd.consumer_group t
              ∙ ap
                  (λ o.
                    if str_eq cmd.consumer_group.name t
                    then some (created (look cmd.consumer_group.name n) cmd.consumer_group)
                    else o)
                  (sym (in_same s n cmd.namespace ns (look t) g h)
                    ∙ sym (get_consumer_group-find s ns t)))
      | inr h ↦ rw h (sym (get_consumer_group-find s ns t))
    ]
