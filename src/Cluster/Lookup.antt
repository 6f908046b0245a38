-- ===== src/Cluster/Lookup.antt =====
-- The queries by name as searches, and what creating and deleting does to them.
use eventter.Base.{ℕ, ◌≡◌, ap, ◌∙◌, ◌⊎◌, inl, inr, arith, Bool, true}
use eventter.Base.{Option, none, some, String, str_eq, eq_iff, if◌then◌else◌, find, set, Bool-cases}
use eventter.Base.Search.{find_index, find_index-find}
use eventter.Base.Counting.{find_passes}
use eventter.Base.Named.{find_index-cases, named, find-set-named, find-append_named, str_eq_refl}
use eventter.Cluster.Data.{ClusterState, ClusterNamespace, ClusterTopic, ClusterConsumerGroup}
use eventter.Cluster.Queries.{
  find_namespace, find_topic, find_consumer_group, get_topic, get_consumer_group,
}
use eventter.Cluster.Topics.{put_topic, new_topic, configured}

abbrev pub by_name : String → ClusterNamespace → Bool
by_name = named (λ (n : ClusterNamespace). n.name)

abbrev pub topic_named : String → ClusterTopic → Bool
topic_named = named (λ (t : ClusterTopic). t.name)

abbrev pub group_named : String → ClusterConsumerGroup → Bool
group_named = named (λ (g : ClusterConsumerGroup). g.name)

-- A query in a namespace: in none, nothing is found.
abbrev pub in_namespace :
    {A : Type 0} → Option ClusterNamespace → (ClusterNamespace → Option A) → Option A
in_namespace none f = none
in_namespace (some n) f = f n

pub get_topic-find :
    (s : ClusterState) (ns t : String)
    → get_topic s ns t
      ≡ in_namespace (find (by_name ns) s.namespaces) (λ n. find (topic_named t) n.topics)
unfolding get_topic find_namespace find_topic
get_topic-find s ns t = elim (find_index-cases (by_name ns) s.namespaces) [
  | inl (e, f) ↦ ground arith
  | inr (n, i, e, f, _) ↦ (elim (find_index-cases (topic_named t) n.topics) [
    | inl (e', f') ↦ ground arith
    | inr (x, j, e', f', _) ↦ ground arith
  ])
]

pub get_consumer_group-find :
    (s : ClusterState) (ns g : String)
    → get_consumer_group s ns g
      ≡ in_namespace (find (by_name ns) s.namespaces) (λ n. find (group_named g) n.consumer_groups)
unfolding get_consumer_group find_namespace find_consumer_group
get_consumer_group-find s ns g = elim (find_index-cases (by_name ns) s.namespaces) [
  | inl (e, f) ↦ ground arith
  | inr (n, i, e, f, _) ↦ (elim (find_index-cases (group_named g) n.consumer_groups) [
    | inl (e', f') ↦ ground arith
    | inr (x, j, e', f', _) ↦ ground arith
  ])
]

-- A namespace put in the place of the one named `k`, with the same name.
pub find_changed :
    (s : ClusterState) (n n' : ClusterNamespace) (i : ℕ) (k ns : String)
    → find_namespace s k ≡ some (n, i)
    → n'.name ≡ n.name
    → find (by_name ns) (set s.namespaces i n')
      ≡ (if str_eq k ns then some n' else find (by_name ns) s.namespaces)
unfolding find_namespace
find_changed s n n' i k ns e h =
    find-set-named (λ (m : ClusterNamespace). m.name) n n' i k ns s.namespaces e
      (ap (λ j. str_eq j k) h
        ∙ find_passes (by_name k) s.namespaces n (find_index-find (by_name k) s.namespaces n i e))

pub find-put_topic :
    (n : ClusterNamespace) (c : ClusterTopic) (t : String)
    → find (topic_named t) (put_topic n c).topics
      ≡ (if str_eq c.name t then some c else find (topic_named t) n.topics)
unfolding put_topic find_topic
find-put_topic n c t = elim (find_index-cases (topic_named c.name) n.topics) [
  | inl (e, f) ↦ appended e f
  | inr (x, i, e, f, p) ↦ replaced x i e p
]
  where
    key : ClusterTopic → String
    key x = x.name

    appended :
        find_index (topic_named c.name) n.topics ≡ none
        → find (topic_named c.name) n.topics ≡ none
        → find (topic_named t) (put_topic n c).topics
          ≡ (if str_eq c.name t then some c else find (topic_named t) n.topics)
    appended e f =
        rw (e, put_topic)
          (find-append_named key (new_topic c) c.name t n.topics f (str_eq_refl c.name))

    replaced :
        (x : ClusterTopic) (i : ℕ)
        → find_index (topic_named c.name) n.topics ≡ some (x, i)
        → topic_named c.name x ≡ true
        → find (topic_named t) (put_topic n c).topics
          ≡ (if str_eq c.name t then some c else find (topic_named t) n.topics)
    replaced x i e p =
        let same : x.name ≡ c.name = (eq_iff x.name c.name).0 p in
        let all : configured x c ≡ c = ap (λ k. record c { name = k }) same in
        rw (e, put_topic)
          (find-set-named key x (configured x c) i c.name t n.topics e p
            ∙ ap (λ y. if str_eq c.name t then some y else find (topic_named t) n.topics) all)

-- A command on a namespace fails where there is none of that name; otherwise it changes that one.
pub find_namespace-cases :
    (s : ClusterState) (k : String)
    → (find_namespace s k ≡ none)
      ⊎ ((n : ClusterNamespace) × (i : ℕ) × (find_namespace s k ≡ some (n, i))
          × (find (by_name k) s.namespaces ≡ some n))
unfolding find_namespace
find_namespace-cases s k = elim (find_index-cases (by_name k) s.namespaces) [
  | inl (e, _) ↦ inl e
  | inr (n, i, e, f, _) ↦ inr (n, i, e, f)
]

-- What a query reads in namespace `ns` of a state in which the one named `k` became `n'`.
pub in_changed :
    {A : Type 0} (s : ClusterState) (n n' : ClusterNamespace) (i : ℕ) (k ns : String)
    (f : ClusterNamespace → Option A)
    → find_namespace s k ≡ some (n, i)
    → n'.name ≡ n.name
    → in_namespace (find (by_name ns) (set s.namespaces i n')) f
      ≡ (if str_eq k ns then f n' else in_namespace (find (by_name ns) s.namespaces) f)
in_changed s n n' i k ns f e h =
    ap (λ o. in_namespace o f) (find_changed s n n' i k ns e h)
    ∙ elim (Bool-cases (str_eq k ns)) [ inl t ↦ rw t | inr t ↦ rw t ]

-- And in the namespace itself before the change.
pub in_same :
    {A : Type 0} (s : ClusterState) (n : ClusterNamespace) (k ns : String)
    (f : ClusterNamespace → Option A)
    → find (by_name k) s.namespaces ≡ some n
    → str_eq k ns ≡ true
    → in_namespace (find (by_name ns) s.namespaces) f ≡ f n
in_same s n k ns f e t = rw (← (eq_iff k ns).0 t, e)
