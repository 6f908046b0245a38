-- ===== src/Handlers/Running.antt =====
-- Commands one after the other, and which of them cannot panic.
use eventter.Base.{
  ℕ, ◌≡◌, refl, ◌∙◌, inl, inr, arith, true, List, [], ◌∷◌, map, Option, none, some, Option-cases,
}
use eventter.Cluster.Data.{
  ClusterState, ClusterSegment, ClusterNamespace, TopicCreate, TopicDelete, ConsumerGroupCreate,
  ConsumerGroupDelete,
}
use eventter.Cluster.Sort.{SortLib}
use eventter.Cluster.Queries.{find_namespace, find_topic, find_consumer_group}
use eventter.Cluster.Store.{Command, dispatch}
use eventter.Cluster.Topics.{do_create_topic, do_delete_topic}
use eventter.Cluster.Groups.{do_create_consumer_group, do_delete_consumer_group}
use eventter.Cluster.Segments.{do_delete_segment}
use eventter.Cluster.Invariant.{IsValid}
use eventter.Cluster.Commands.{dispatch-IsValid}
use eventter.Reconcile.Completion.{completes}
use eventter.Handlers.Requests.{delete_open}

module _ (lib : SortLib) where
  abbrev pub run_all : ClusterState → List Command → Option ClusterState
  run_all s [] = some s
  run_all s (cmd ∷ cmds) = elim (dispatch lib s cmd) [ none ↦ none | some next ↦ run_all next cmds ]

  -- The commands do not panic, and leave a valid state.
  pub record Effect (s : ClusterState) (cmds : List Command) : Type 0 where
    pub after : ClusterState
    pub runs : run_all s cmds ≡ some after
    pub valid : IsValid after

  pub Effect-more :
      (s : ClusterState) (cmd : Command) (cmds : List Command)
      → IsValid s
      → completes (dispatch lib s cmd) ≡ true
      → ((next : ClusterState) → IsValid next → Effect next cmds)
      → Effect s (cmd ∷ cmds)
  Effect-more s cmd cmds v c rest = elim (Option-cases (dispatch lib s cmd)) [
    | inl e ↦ absurd (ground (arith, c, e))
    | inr (next, e) ↦
        let r = rest next (dispatch-IsValid lib s next cmd v e) in
        let step : run_all s (cmd ∷ cmds) ≡ run_all next cmds = rw (run_all, e) refl in
        record { after = r.after; runs = step ∙ r.runs; valid = r.valid }
  ]

  pub Effect-one :
      (s : ClusterState) (cmd : Command)
      → IsValid s
      → completes (dispatch lib s cmd) ≡ true
      → Effect s (cmd ∷ [])
  Effect-one s cmd v c =
      Effect-more s cmd [] v c (λ next w. record { after = next; runs = refl; valid = w })

  delete_completes :
      (s : ClusterState) (g : ClusterSegment) → completes (dispatch lib s (delete_open g)) ≡ true
  unfolding dispatch do_delete_segment
  delete_completes s g = refl

  pub Effect-deletes :
      (gs : List ClusterSegment) (s : ClusterState) → IsValid s → Effect s (map delete_open gs)
  Effect-deletes [] s v = record { after = s; runs = refl; valid = v }
  Effect-deletes (g ∷ gs) s v =
      Effect-more s (delete_open g) (map delete_open gs) v (delete_completes s g)
        (λ next w. Effect-deletes gs next w)

  pub topic_completes :
      (s : ClusterState) (cmd : TopicCreate) {p : ClusterNamespace × ℕ}
      → find_namespace s cmd.namespace ≡ some p
      → completes (dispatch lib s (Command.create_topic cmd)) ≡ true
  unfolding dispatch do_create_topic
  topic_completes s cmd e = ground (arith, e)

  pub group_completes :
      (s : ClusterState) (cmd : ConsumerGroupCreate) {p : ClusterNamespace × ℕ}
      → find_namespace s cmd.namespace ≡ some p
      → completes (dispatch lib s (Command.create_consumer_group cmd)) ≡ true
  unfolding dispatch do_create_consumer_group
  group_completes s cmd e = ground (arith, e)

  pub delete_topic-completes :
      (s : ClusterState) (cmd : TopicDelete) {p : ClusterNamespace × ℕ}
      → find_namespace s cmd.namespace ≡ some p
      → completes (dispatch lib s (Command.delete_topic cmd)) ≡ true
  unfolding dispatch do_delete_topic
  delete_topic-completes s cmd {p} e = elim (Option-cases (find_topic p.0 cmd.name)) [
    | inl f ↦ ground (arith, e, f)
    | inr (t, f) ↦ ground (arith, e, f)
  ]

  pub group_deletion_completes :
      (s : ClusterState) (cmd : ConsumerGroupDelete) {p : ClusterNamespace × ℕ}
      → find_namespace s cmd.namespace ≡ some p
      → completes (dispatch lib s (Command.delete_consumer_group cmd)) ≡ true
  unfolding dispatch do_delete_consumer_group
  group_deletion_completes s cmd {p} e = elim (Option-cases (find_consumer_group p.0 cmd.name)) [
    | inl f ↦ ground (arith, e, f)
    | inr (t, f) ↦ ground (arith, e, f)
  ]
