-- ===== src/Cluster/Deleted.antt =====
-- Deleting a topic: what is left of it in the state.
use eventter.Base.{
  ℕ, ◌≡◌, refl, sym, ap, ◌∙◌, ◌⊎◌, inl, inr, arith, Bool, false, not, ◌&&◌, ◌||◌, List, [], ◌∷◌,
  map,
}
use eventter.Base.{
  ◌≢◌, Option, none, some, String, str_eq, eq_iff, if◌then◌else◌, find, any, filter, count_if, set,
  Bool-cases,
}
use eventter.Base.Named.{find_index-cases, Unique, find-remove_at-named, str_eq_refl}
use eventter.Cluster.Data.{
  ClusterState, ClusterNamespace, ClusterTopic, ClusterConsumerGroup, ClusterSegment, SegmentType,
  TopicDelete,
}
use eventter.Cluster.Sort.{SortLib}
use eventter.Cluster.Queries.{find_topic, get_topic, any_consumer_group_references_topic, is_owned}
use eventter.Cluster.Topics.{
  remove_owned, is_bound, is_stale, is_changed, without_topic, drop_topic, do_delete_topic,
}
use eventter.Cluster.Lookup.{
  by_name, topic_named, in_namespace, get_topic-find, find_namespace-cases, find_changed,
  in_changed, in_same,
}

module _ {A : Type 0} (p : A → Bool) where
  filter_all : (xs : List A) → any p xs ≡ false → filter (λ x. not (p x)) xs ≡ xs
  filter_all [] e = refl
  filter_all (x ∷ xs) e = ground (arith, filter_all xs)

  count_if-filter-not : (xs : List A) → count_if p (filter (λ x. not (p x)) xs) ≡ 0
  count_if-filter-not [] = refl
  count_if-filter-not (x ∷ xs) = ground (arith, count_if-filter-not xs)

  any-filter-not : (xs : List A) → any p (filter (λ x. not (p x)) xs) ≡ false
  any-filter-not [] = refl
  any-filter-not (x ∷ xs) = ground (arith, any-filter-not xs)

  any-map : (f : A → A) (xs : List A) → ((x : A) → p (f x) ≡ false) → any p (map f xs) ≡ false
  any-map f [] h = refl
  any-map f (x ∷ xs) h = rw (h x) (any-map f xs h)

  any_left : (q : A → Bool) (xs : List A) → any (λ x. p x || q x) xs ≡ false → any p xs ≡ false
  any_left q [] e = refl
  any_left q (x ∷ xs) e = ground (arith, any_left q xs)

-- The copy that is made only where it differs is the copy.
pub remove_owned-filter :
    (type : SegmentType) (namespace name : String) (segments : List ClusterSegment)
    → remove_owned type namespace name segments
      ≡ filter (λ g. not (is_owned type namespace name g)) segments
remove_owned-filter type namespace name segments =
    elim (Bool-cases (any (is_owned type namespace name) segments)) [
      | inl e ↦ rw e
      | inr e ↦ rw e (sym (filter_all (is_owned type namespace name) segments e))
    ]

pub remove_owned_none :
    (type : SegmentType) (namespace name : String) (segments : List ClusterSegment)
    → count_if (is_owned type namespace name) (remove_owned type namespace name segments) ≡ 0
remove_owned_none type namespace name segments =
    ap (count_if (is_owned type namespace name)) (remove_owned-filter type namespace name segments)
    ∙ count_if-filter-not (is_owned type namespace name) segments

abbrev references : String → ClusterConsumerGroup → Bool
references name g = any (λ b. str_eq b.topic_name name) g.bindings

module _ (lib : SortLib) where
  without_topic-references :
      (s : ClusterState) (cmd : TopicDelete) (g : ClusterConsumerGroup)
      → references cmd.name (without_topic lib s cmd g) ≡ false
  without_topic-references s cmd g = elim (Bool-cases (any (is_bound lib cmd) g.bindings)) [
    | inl e ↦ rw e (any-filter-not (is_bound lib cmd) g.bindings)
    | inr e ↦ elim (Bool-cases (any (is_stale lib s cmd) g.offset_commits)) [
      | inl f ↦ rw (e, f) (any-filter-not (is_bound lib cmd) g.bindings)
      | inr f ↦ rw (e, f) e
    ]
  ]

  unchanged_references :
      (s : ClusterState) (cmd : TopicDelete) (gs : List ClusterConsumerGroup)
      → any (is_changed lib s cmd) gs ≡ false
      → any (references cmd.name) gs ≡ false
  unchanged_references s cmd [] e = refl
  unchanged_references s cmd (g ∷ gs) e = ground (arith, unchanged_references s cmd gs)

  drop_topic-references :
      (s : ClusterState) (cmd : TopicDelete) (n : ClusterNamespace) (j : ℕ)
      → any_consumer_group_references_topic (drop_topic lib s cmd n j) cmd.name ≡ false
  unfolding drop_topic any_consumer_group_references_topic
  drop_topic-references s cmd n j =
      elim (Bool-cases (any (is_changed lib s cmd) n.consumer_groups)) [
        | inl e ↦ rw e (
            any-map (references cmd.name) (without_topic lib s cmd) n.consumer_groups
              (without_topic-references s cmd))
        | inr e ↦ rw e (unchanged_references s cmd n.consumer_groups e)
      ]

  pub drop_topic-name :
      (s : ClusterState) (cmd : TopicDelete) (n : ClusterNamespace) (j : ℕ)
      → (drop_topic lib s cmd n j).name ≡ n.name
  unfolding drop_topic
  drop_topic-name s cmd n j = refl

  abbrev dropped : ClusterState → TopicDelete → ClusterNamespace → ℕ → ℕ → ClusterState
  dropped s cmd n i j = record s {
    namespaces = set s.namespaces i (drop_topic lib s cmd n j);
    open_segments = remove_owned SegmentType.topic cmd.namespace cmd.name s.open_segments;
    closed_segments = remove_owned SegmentType.topic cmd.namespace cmd.name s.closed_segments;
  }

  find_topic-cases :
      (n : ClusterNamespace) (k : String)
      → ((find_topic n k ≡ none) × (find (topic_named k) n.topics ≡ none))
        ⊎ ((t : ClusterTopic) × (j : ℕ) × (find_topic n k ≡ some (t, j)))
  unfolding find_topic
  find_topic-cases n k = elim (find_index-cases (topic_named k) n.topics) [
    | inl (e, f) ↦ inl (e, f)
    | inr (t, j, e, _, _) ↦ inr (t, j, e)
  ]

  -- After a topic that is known is deleted without a panic, no segment, open or closed, belongs to
  -- it, and no binding of its namespace names it.
  pub do_delete_topic-unreferenced :
      (s s' : ClusterState) (cmd : TopicDelete)
      → do_delete_topic lib s cmd ≡ some s'
      → get_topic s cmd.namespace cmd.name ≢ none
      → (count_if (is_owned SegmentType.topic cmd.namespace cmd.name) s'.open_segments ≡ 0)
        × (count_if (is_owned SegmentType.topic cmd.namespace cmd.name) s'.closed_segments ≡ 0)
        × ((n' : ClusterNamespace) × (find (by_name cmd.namespace) s'.namespaces ≡ some n')
            × (any_consumer_group_references_topic n' cmd.name ≡ false))
  unfolding do_delete_topic
  do_delete_topic-unreferenced s s' cmd e h = elim (find_namespace-cases s cmd.namespace) [
    | inl f ↦ ground arith
    | inr (n, i, f, g) ↦ elim (find_topic-cases n cmd.name) [
      | inl (none_found, gone) ↦ absurd (
          h (
            get_topic-find s cmd.namespace cmd.name
            ∙ in_same s n cmd.namespace cmd.namespace (λ m. find (topic_named cmd.name) m.topics) g
                (str_eq_refl cmd.namespace)
            ∙ gone))
      | inr (t, j, found) ↦
          let now : s' ≡ dropped s cmd n i j = ground arith in
          (
            ap
                  (λ (x : ClusterState).
                    count_if (is_owned SegmentType.topic cmd.namespace cmd.name) x.open_segments)
                  now
                ∙ remove_owned_none SegmentType.topic cmd.namespace cmd.name s.open_segments,
            ap
                  (λ (x : ClusterState).
                    count_if (is_owned SegmentType.topic cmd.namespace cmd.name) x.closed_segments)
                  now
                ∙ remove_owned_none SegmentType.topic cmd.namespace cmd.name s.closed_segments,
            (
              drop_topic lib s cmd n j,
              ap (λ (x : ClusterState). find (by_name cmd.namespace) x.namespaces) now
                  ∙ find_changed s n (drop_topic lib s cmd n j) i cmd.namespace cmd.namespace f
                      (drop_topic-name s cmd n j)
                  ∙ rw (str_eq_refl cmd.namespace),
              drop_topic-references s cmd n j,
            ),
          )
    ]
  ]

  -- Where the topics of the namespace have different names, deleting a topic without a panic makes
  -- the query for it find none, and leaves the query for every other topic as it was.
  pub get_topic-do_delete_topic :
      (s s' : ClusterState) (cmd : TopicDelete) (ns t : String)
      → ((n : ClusterNamespace)
          → find (by_name cmd.namespace) s.namespaces ≡ some n
          → Unique (λ (x : ClusterTopic). x.name) n.topics)
      → do_delete_topic lib s cmd ≡ some s'
      → get_topic s' ns t
        ≡ (if str_eq cmd.namespace ns && str_eq cmd.name t then none else get_topic s ns t)
  unfolding do_delete_topic
  get_topic-do_delete_topic s s' cmd ns t unique e = elim (find_namespace-cases s cmd.namespace) [
    | inl f ↦ ground arith
    | inr (n, i, f, g) ↦ elim (find_topic-cases n cmd.name) [
      | inl (none_found, gone) ↦
          let now : s' ≡ s = ground arith in ap (λ x. get_topic x ns t) now ∙ missing n g gone
      | inr (x, j, found) ↦
          let n' = drop_topic lib s cmd n j in
          let now : s' ≡ dropped s cmd n i j = ground arith in
          get_topic-find s' ns t
          ∙ ap (λ (x : ClusterState). in_namespace (find (by_name ns) x.namespaces) (look t)) now
          ∙ in_changed s n n' i cmd.namespace ns (look t) f (drop_topic-name s cmd n j)
          ∙ removed n g x j found
    ]
  ]
    where
      look : String → ClusterNamespace → Option ClusterTopic
      look k m = find (topic_named k) m.topics

      missing :
          (n : ClusterNamespace)
          → find (by_name cmd.namespace) s.namespaces ≡ some n
          → find (topic_named cmd.name) n.topics ≡ none
          → get_topic s ns t
            ≡ (if str_eq cmd.namespace ns && str_eq cmd.name t then none else get_topic s ns t)
      missing n g gone = elim (Bool-cases (str_eq cmd.namespace ns && str_eq cmd.name t)) [
        | inl h ↦ rw h (
            get_topic-find s ns t
            ∙ in_same s n cmd.namespace ns (look t) g (ground arith)
            ∙ ap (λ k. look k n) (sym ((eq_iff cmd.name t).0 (ground arith)))
            ∙ gone)
        | inr h ↦ rw h
      ]

      removed :
          (n : ClusterNamespace)
          → find (by_name cmd.namespace) s.namespaces ≡ some n
          → (x : ClusterTopic) (j : ℕ) → find_topic n cmd.name ≡ some (x, j)
          → (if str_eq cmd.namespace ns
              then look t (drop_topic lib s cmd n j)
              else in_namespace (find (by_name ns) s.namespaces) (look t))
            ≡ (if str_eq cmd.namespace ns && str_eq cmd.name t then none else get_topic s ns t)
      removed n g x j found = elim (Bool-cases (str_eq cmd.namespace ns)) [
        | inl h ↦ rw h (
            unfold drop_topic find_topic in
            find-remove_at-named (λ (y : ClusterTopic). y.name) x j cmd.name t n.topics (unique n g)
              found
            ∙ ap (λ o. if str_eq cmd.name t then none else o)
                (sym (in_same s n cmd.namespace ns (look t) g h) ∙ sym (get_topic-find s ns t)))
        | inr h ↦ rw h (sym (get_topic-find s ns t))
      ]
