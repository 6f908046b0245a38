-- ===== src/Cluster/Commands.antt =====
-- The commands on segments and nodes keep the state well formed, and so does every command.
use eventter.Base.{ℕ, ◌≤◌, ◌≡◌, refl, sym, ap, subst, inl, inr, arith}
use eventter.Base.{Option, none, some, if◌then◌else◌, ◌==◌, ltb, set, remove_at, Option-cases}
use eventter.Base.Search.{All-append_one, All-find}
use eventter.Base.Ordered.{count_if-perm}
use eventter.Base.Named.{find_index-cases}
use eventter.Cluster.Data.{
  ClusterState, ClusterSegment, ClusterNode, SegmentCreate, SegmentClose, SegmentNodesUpdate,
  SegmentDelete, NodeUpdate, Which, invalid_which, open_which, closed_which,
}
use eventter.Cluster.Sort.{SortLib}
use eventter.Cluster.Queries.{search_segment}
use eventter.Cluster.Segments.{
  opened, closed, do_open_segment, do_close_segment, do_update_segment_nodes, do_delete_segment,
}
use eventter.Cluster.Nodes.{do_update_node}
use eventter.Cluster.Store.{
  Command, unset, create_namespace, delete_namespace, create_topic, delete_topic,
  create_consumer_group, delete_consumer_group, update_consumer_group_offset_commits,
  create_segment, close_segment, update_segment_nodes, delete_segment, update_node, dispatch,
  do_command,
}
use eventter.Cluster.NodeList.{placed, placed-Unique}
use eventter.Cluster.Invariant.{
  IsValid, SegmentsAreValid, node_id, with_segments-IsValid, remove_at-Valid, set-Valid, raise,
  by_id-Valid, search_segment_at,
}
use eventter.Cluster.Preserved.{
  create_namespace-IsValid, delete_namespace-IsValid, create_topic-IsValid,
  create_consumer_group-IsValid,
}
use eventter.Cluster.Removed.{
  delete_topic-IsValid, delete_consumer_group-IsValid, update_offset_commits-IsValid,
}

some_eq : {a b : ClusterState} → some a ≡ some b → a ≡ b
some_eq e = cc

indexed : (s : ClusterState) {index : ℕ} → IsValid s → IsValid (record s { index = index })
indexed s v = record {
  names = v.names;
  parts = v.parts;
  open_valid = v.open_valid;
  closed_valid = v.closed_valid;
  nodes_sorted = v.nodes_sorted;
  nodes_unique = v.nodes_unique;
}

module _ (lib : SortLib) where
  open_segment-IsValid :
      (s : ClusterState) (cmd : SegmentCreate) → IsValid s → IsValid (do_open_segment lib s cmd)
  unfolding do_open_segment
  open_segment-IsValid s cmd v =
      with_segments-IsValid next _ _ v
        (by_id-Valid lib next _
          (All-append_one (λ g. g.id ≤ next) (opened cmd) s.open_segments wider.1 (ground arith)))
        (raise s.current_segment_id next s.closed_segments low v.closed_valid)
    where
      next : ℕ
      next = if ltb s.current_segment_id cmd.id then cmd.id else s.current_segment_id

      low : s.current_segment_id ≤ next
      low = ground arith

      wider : SegmentsAreValid next s.open_segments
      wider = raise s.current_segment_id next s.open_segments low v.open_valid

  close_segment-IsValid :
      (s : ClusterState) (cmd : SegmentClose) → IsValid s → IsValid (do_close_segment lib s cmd)
  unfolding do_close_segment
  close_segment-IsValid s cmd v = elim (find_index-cases (λ g. g.id == cmd.id) s.open_segments) [
    | inl (e, _) ↦ rw (e, do_close_segment) v
    | inr (g, i, e, f, _) ↦
        rw (e, do_close_segment)
          (with_segments-IsValid s.current_segment_id _ _ v
            (remove_at-Valid s.current_segment_id i s.open_segments v.open_valid)
            (by_id-Valid lib s.current_segment_id _ (
              All-append_one (λ x. x.id ≤ s.current_segment_id) (closed g cmd) s.closed_segments
                v.closed_valid.1
                (All-find (λ x. x.id ≤ s.current_segment_id) (λ x. x.id == cmd.id) s.open_segments g
                  v.open_valid.1 f))))
  ]

  update_segment_nodes-IsValid :
      (s s' : ClusterState) (cmd : SegmentNodesUpdate) (w : Which)
      → cmd.which ≡ w
      → IsValid s
      → do_update_segment_nodes lib s cmd ≡ some s'
      → IsValid s'
  unfolding do_update_segment_nodes
  update_segment_nodes-IsValid s s' cmd invalid_which w v e = ground arith
  update_segment_nodes-IsValid s s' cmd open_which w v e =
      elim (Option-cases (search_segment lib s.open_segments cmd.id)) [
        | inl gone ↦ let now : s ≡ s' = ground arith in subst IsValid now v
        | inr ((g, i), found) ↦
            let g' : ClusterSegment = record g { nodes = cmd.nodes } in
            let now : record s { open_segments = set s.open_segments i g' } ≡ s' = ground arith in
            subst IsValid now (
              with_segments-IsValid s.current_segment_id _ s.closed_segments v
                (set-Valid s.current_segment_id i g g' s.open_segments
                  (search_segment_at lib s.open_segments cmd.id g i found).0 refl v.open_valid)
                v.closed_valid)
      ]
  update_segment_nodes-IsValid s s' cmd closed_which w v e =
      elim (Option-cases (search_segment lib s.closed_segments cmd.id)) [
        | inl gone ↦ let now : s ≡ s' = ground arith in subst IsValid now v
        | inr ((g, i), found) ↦
            let g' : ClusterSegment = record g { nodes = cmd.nodes } in
            let now : record s { closed_segments = set s.closed_segments i g' } ≡ s' =
              ground arith in
            subst IsValid now (
              with_segments-IsValid s.current_segment_id s.open_segments _ v v.open_valid (
                set-Valid s.current_segment_id i g g' s.closed_segments
                  (search_segment_at lib s.closed_segments cmd.id g i found).0 refl v.closed_valid))
      ]

  delete_segment-IsValid :
      (s s' : ClusterState) (cmd : SegmentDelete) (w : Which)
      → cmd.which ≡ w
      → IsValid s
      → do_delete_segment lib s cmd ≡ some s'
      → IsValid s'
  unfolding do_delete_segment
  delete_segment-IsValid s s' cmd invalid_which w v e = ground arith
  delete_segment-IsValid s s' cmd open_which w v e =
      elim (Option-cases (search_segment lib s.open_segments cmd.id)) [
        | inl gone ↦ let now : s ≡ s' = ground arith in subst IsValid now v
        | inr ((g, i), found) ↦
            let now : record s { open_segments = remove_at s.open_segments i } ≡ s' =
              ground arith in
            subst IsValid now (
              with_segments-IsValid s.current_segment_id _ s.closed_segments v
                (remove_at-Valid s.current_segment_id i s.open_segments v.open_valid)
                v.closed_valid)
      ]
  delete_segment-IsValid s s' cmd closed_which w v e =
      elim (Option-cases (search_segment lib s.closed_segments cmd.id)) [
        | inl gone ↦ let now : s ≡ s' = ground arith in subst IsValid now v
        | inr ((g, i), found) ↦
            let now : record s { closed_segments = remove_at s.closed_segments i } ≡ s' =
              ground arith in
            subst IsValid now (
              with_segments-IsValid s.current_segment_id s.open_segments _ v v.open_valid
                (remove_at-Valid s.current_segment_id i s.closed_segments v.closed_valid))
      ]

  pub update_node-IsValid :
      (s : ClusterState) (cmd : NodeUpdate) → IsValid s → IsValid (do_update_node lib s cmd)
  unfolding do_update_node
  update_node-IsValid s cmd v =
      let ns = placed s.nodes cmd in
      record {
        names = v.names;
        parts = v.parts;
        open_valid = v.open_valid;
        closed_valid = v.closed_valid;
        nodes_sorted = lib.slice_sorts ClusterNode node_id ns;
        nodes_unique = λ k.
            rw (count_if-perm (λ n. n.id == k) (lib.slice_keeps ClusterNode node_id ns))
              (placed-Unique s.nodes cmd v.nodes_unique k);
      }

  pub dispatch-IsValid :
      (s s' : ClusterState) (cmd : Command) → IsValid s → dispatch lib s cmd ≡ some s' → IsValid s'
  unfolding dispatch
  dispatch-IsValid s s' unset v e = cc
  dispatch-IsValid s s' (create_namespace cmd) v e =
      subst IsValid (some_eq e) (create_namespace-IsValid s cmd v)
  dispatch-IsValid s s' (delete_namespace cmd) v e =
      subst IsValid (some_eq e) (delete_namespace-IsValid s cmd v)
  dispatch-IsValid s s' (create_topic cmd) v e = create_topic-IsValid s s' cmd v e
  dispatch-IsValid s s' (delete_topic cmd) v e = delete_topic-IsValid lib s s' cmd v e
  dispatch-IsValid s s' (create_consumer_group cmd) v e = create_consumer_group-IsValid s s' cmd v e
  dispatch-IsValid s s' (delete_consumer_group cmd) v e =
      delete_consumer_group-IsValid lib s s' cmd v e
  dispatch-IsValid s s' (update_consumer_group_offset_commits cmd) v e =
      update_offset_commits-IsValid lib s s' cmd v e
  dispatch-IsValid s s' (create_segment cmd) v e =
      subst IsValid (some_eq e) (open_segment-IsValid s cmd v)
  dispatch-IsValid s s' (close_segment cmd) v e =
      subst IsValid (some_eq e) (close_segment-IsValid s cmd v)
  dispatch-IsValid s s' (update_segment_nodes cmd) v e =
      update_segment_nodes-IsValid s s' cmd cmd.which refl v e
  dispatch-IsValid s s' (delete_segment cmd) v e =
      delete_segment-IsValid s s' cmd cmd.which refl v e
  dispatch-IsValid s s' (update_node cmd) v e =
      subst IsValid (some_eq e) (update_node-IsValid s cmd v)

  -- Every command, and a nil one, that the store applies to a well-formed state without a panic
  -- leaves a well-formed state at the index of the entry: names and node ids unique, segments and
  -- nodes sorted by id, no segment id above the counter.
  pub do_command-IsValid :
      (s s' : ClusterState) (index : ℕ) (cmd : Option Command)
      → IsValid s
      → do_command lib s index cmd ≡ some s'
      → IsValid s' × (s'.index ≡ index)
  unfolding do_command
  do_command-IsValid s s' index none v e =
      let now : record s { index = index } ≡ s' = some_eq e in
      (subst IsValid now (indexed s v), ap (λ (x : ClusterState). x.index) (sym now))
  do_command-IsValid s s' index (some cmd) v e = elim (Option-cases (dispatch lib s cmd)) [
    | inl p ↦ ground arith
    | inr (next, d) ↦
        let now : record next { index = index } ≡ s' = ground arith in
        (
          subst IsValid now (indexed next (dispatch-IsValid s next cmd v d)),
          ap (λ (x : ClusterState). x.index) (sym now),
        )
  ]
