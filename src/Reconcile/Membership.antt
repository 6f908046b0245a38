-- ===== src/Reconcile/Membership.antt =====
-- What the nodes of the cluster are once the updates of `ReconcileNodes` have been applied.
use eventter.Base.{
  ℕ, ◌≤◌, ◌≡◌, refl, sym, ap, ◌∙◌, inl, inr, arith, true, false, ◌||◌, not, List, [], ◌∷◌, ◌++◌,
  Option, none, some, eq_iff, ◌==◌, ==_iff, if◌then◌else◌, find, count_if, Bool-cases, Option-cases,
}
use eventter.Base.Search.{none-count_if}
use eventter.Base.Counting.{find_passes}
use eventter.Base.Int.{ℤ}
use eventter.Cluster.Data.{ClusterState, ClusterNode, NodeUpdate}
use eventter.Cluster.Sort.{SortLib}
use eventter.Cluster.Queries.{get_node}
use eventter.Cluster.Nodes.{updated, do_update_node}
use eventter.Cluster.Invariant.{IsValid}
use eventter.Cluster.Commands.{update_node-IsValid}
use eventter.Cluster.Searching.{get_node-do_update_node}
use eventter.Reconcile.Outcome.{is_up}
use eventter.Reconcile.Members.{
  Member, is_news, join, joins, is_member, leave, leaves, reconcile_nodes,
}

-- The last update of an id.
abbrev pub last_update : List NodeUpdate → ℕ → Option NodeUpdate
last_update [] id = none
last_update (u ∷ us) id = elim (last_update us id) [
  | some v ↦ some v
  | none ↦ if u.id == id then some u else none
]

last_update-append :
    (us vs : List NodeUpdate) (id : ℕ)
    → last_update (us ++ vs) id
      ≡ (elim (last_update vs id) [ some v ↦ some v | none ↦ last_update us id ])
last_update-append [] vs id = elim (Option-cases (last_update vs id)) [
  | inl e ↦ rw e
  | inr (v, e) ↦ rw e
]
last_update-append (u ∷ us) vs id = elim (Option-cases (last_update vs id)) [
  | inl e ↦ ground (arith, last_update-append us vs id, e)
  | inr (v, e) ↦ ground (arith, last_update-append us vs id, e)
]

module _ (lib : SortLib) where
  -- The log's updates, one after the other.
  abbrev pub apply_updates : ClusterState → List NodeUpdate → ClusterState
  apply_updates s [] = s
  apply_updates s (u ∷ us) = apply_updates (do_update_node lib s u) us

  get_node-apply_updates :
      (s : ClusterState) (us : List NodeUpdate) (id : ℕ)
      → IsValid s
      → get_node (apply_updates s us) id
        ≡ (elim (last_update us id) [ some u ↦ some (updated u) | none ↦ get_node s id ])
  get_node-apply_updates s [] id v = refl
  get_node-apply_updates s (u ∷ us) id v =
      let rest =
        get_node-apply_updates (do_update_node lib s u) us id (update_node-IsValid lib s u v) in
      let here = get_node-do_update_node lib s u id v in
      elim (Option-cases (last_update us id)) [
        | inl e ↦ ground (arith, rest, here, e)
        | inr (w, e) ↦ ground (arith, rest, e)
      ]

leaves-member :
    (now : ℤ) (ms : List Member) (ns : List ClusterNode) (id : ℕ)
    → is_member ms id ≡ true
    → last_update (leaves now ms ns) id ≡ none
unfolding leaves
leaves-member now ms [] id h = refl
leaves-member now ms (n ∷ ns) id h = elim (Bool-cases (n.id == id)) [
  | inl t ↦
      let own : is_member ms n.id ≡ true = ap (is_member ms) ((==_iff n.id id).0 t) ∙ h in
      ground (arith, own, leaves-member now ms ns id h)
  | inr f ↦ ground (arith, f, leaves-member now ms ns id h)
]

joins-stranger :
    (ns : List ClusterNode) (ms : List Member) (id : ℕ)
    → is_member ms id ≡ false
    → last_update (joins ns ms) id ≡ none
unfolding joins
joins-stranger ns [] id h = refl
joins-stranger ns (m ∷ ms) id h = ground (arith, joins-stranger ns ms id)

any_none : (ms : List Member) (id : ℕ) → find (λ y. y.id == id) ms ≡ none → is_member ms id ≡ false
any_none [] id e = refl
any_none (m ∷ ms) id e = ground (arith, any_none ms id)

joins-member :
    (ns : List ClusterNode) (ms : List Member) (id : ℕ) (m : Member)
    → find (λ x. x.id == id) ms ≡ some m
    → count_if (λ x. x.id == id) ms ≤ 1
    → last_update (joins ns ms) id ≡ (if is_news ns m then some (join m) else none)
unfolding joins
joins-member ns [] id m e u = cc
joins-member ns (x ∷ ms) id m e u = elim (Bool-cases (x.id == id)) [
  | inl t ↦
      let same : x ≡ m = ground arith in
      let none_left : find (λ y. y.id == id) ms ≡ none =
        none-count_if (λ y. y.id == id) ms (ground arith) in
      ground (arith, same, joins-stranger ns ms id (any_none ms id none_left), t)
  | inr f ↦ ground (arith, f, joins-member ns ms id m (ground arith) (ground arith))
]

leaves-stranger :
    (now : ℤ) (ms : List Member) (ns : List ClusterNode) (id : ℕ)
    → is_member ms id ≡ false
    → last_update (leaves now ms ns) id ≡ none
    → (n : ClusterNode) → find (λ x. x.id == id) ns ≡ some n
    → is_up n ≡ false
unfolding leaves
leaves-stranger now ms [] id h e n f = cc
leaves-stranger now ms (x ∷ ns) id h e n f = elim (Bool-cases (x.id == id)) [
  | inl t ↦
      let same : x ≡ n = ground arith in
      let stranger : is_member ms x.id ≡ false = ap (is_member ms) ((==_iff x.id id).0 t) ∙ h in
      elim (Bool-cases (is_up x)) [
        | inr off ↦ ap is_up (sym same) ∙ off
        | inl on ↦ ground (arith, t, on, stranger)
      ]
  | inr other ↦ leaves-stranger now ms ns id h (ground arith) n (ground arith)
]

-- A member is known, alive, under its address; another node that is known is dead.
abbrev pub MemberSpec : Option Member → Option ClusterNode → Type 0
MemberSpec (some m) (some n) = (n.address ≡ m.address) × (is_up n ≡ true)
MemberSpec (some m) none = ⊥
MemberSpec none (some n) = is_up n ≡ false
MemberSpec none none = Unit {0}

kept_member :
    (s : ClusterState) (m : Member) (id : ℕ)
    → find (λ (x : ClusterNode). x.id == m.id) s.nodes ≡ get_node s id
    → is_news s.nodes m ≡ false
    → MemberSpec (some m) (get_node s id)
kept_member s m id same old = elim (Option-cases (get_node s id)) [
  | inl e ↦ let gone = same ∙ e in ground (arith, gone)
  | inr (n, e) ↦
      let here : find (λ (x : ClusterNode). x.id == m.id) s.nodes ≡ some n = same ∙ e in
      rw e (((eq_iff n.address m.address).0 (ground (arith, here)), ground (arith, here)))
]

kept_stranger :
    (now : ℤ) (ms : List Member) (s : ClusterState) (id : ℕ)
    → is_member ms id ≡ false
    → last_update (leaves now ms s.nodes) id ≡ none
    → MemberSpec none (get_node s id)
unfolding get_node
kept_stranger now ms s id h e =
    elim (Option-cases (find (λ (n : ClusterNode). n.id == id) s.nodes)) [
      | inl gone ↦ rw gone tt
      | inr (n, f) ↦ rw f (leaves-stranger now ms s.nodes id h e n f)
    ]

last_leave-dead :
    (now : ℤ) (ms : List Member) (ns : List ClusterNode) (id : ℕ) (u : NodeUpdate)
    → last_update (leaves now ms ns) id ≡ some u
    → is_up (updated u) ≡ false
unfolding leaves
last_leave-dead now ms [] id u e = cc
last_leave-dead now ms (n ∷ ns) id u e = elim (Option-cases (last_update (leaves now ms ns) id)) [
  | inl f ↦ elim (Bool-cases (is_member ms n.id || not (is_up n))) [
    | inl skip ↦ last_leave-dead now ms ns id u (ground (arith, f, skip))
    | inr out ↦
        let same : leave now n ≡ u = ground (arith, f, out) in
        ap (λ w. is_up (updated w)) (sym same)
  ]
  | inr (w, f) ↦ last_leave-dead now ms ns id u (ground (arith, f))
]

any_some :
    (ms : List Member) (id : ℕ) (m : Member)
    → find (λ (y : Member). y.id == id) ms ≡ some m
    → is_member ms id ≡ true
any_some [] id m e = cc
any_some (x ∷ ms) id m e = ground (arith, any_some ms id m)

module _ (lib : SortLib) where
  -- From a valid state, and where no two members have one id, the updates of `ReconcileNodes`,
  -- applied, leave a member's node known, alive and under the member's address, and any other
  -- known node dead.
  pub reconcile_nodes-MemberSpec :
      (now : ℤ) (ms : List Member) (s : ClusterState) (id : ℕ)
      → IsValid s
      → count_if (λ (m : Member). m.id == id) ms ≤ 1
      → MemberSpec
          (find (λ (m : Member). m.id == id) ms)
          (get_node (apply_updates lib s (reconcile_nodes now ms s)) id)
  unfolding reconcile_nodes
  reconcile_nodes-MemberSpec now ms s id v once =
      let all = get_node-apply_updates lib s (reconcile_nodes now ms s) id v in
      let parts = last_update-append (joins s.nodes ms) (leaves now ms s.nodes) id in
      elim (Option-cases (find (λ (m : Member). m.id == id) ms)) [
        | inl e ↦
            let stranger = any_none ms id e in
            let no_join = joins-stranger s.nodes ms id stranger in
            elim (Option-cases (last_update (leaves now ms s.nodes) id)) [
              | inl gone ↦
                  let here : get_node (apply_updates lib s (reconcile_nodes now ms s)) id
                      ≡ get_node s id =
                    ground (arith, all, parts, gone, no_join) in
                  rw (e, here) (kept_stranger now ms s id stranger gone)
              | inr (u, f) ↦
                  let here : get_node (apply_updates lib s (reconcile_nodes now ms s)) id
                      ≡ some (updated u) =
                    ground (arith, all, parts, f) in
                  rw (e, here) (last_leave-dead now ms s.nodes id u f)
            ]
        | inr (m, e) ↦
            let same : m.id ≡ id =
              (==_iff m.id id).0 (find_passes (λ (x : Member). x.id == id) ms m e) in
            let no_leave = leaves-member now ms s.nodes id (any_some ms id m e) in
            let joined = joins-member s.nodes ms id m e once in
            elim (Bool-cases (is_news s.nodes m)) [
              | inl news ↦
                  let here : get_node (apply_updates lib s (reconcile_nodes now ms s)) id
                      ≡ some (updated (join m)) =
                    ground (arith, all, parts, no_leave, joined, news) in
                  rw (e, here) (refl, refl)
              | inr old ↦
                  let here : get_node (apply_updates lib s (reconcile_nodes now ms s)) id
                      ≡ get_node s id =
                    ground (arith, all, parts, no_leave, joined, old) in
                  rw (e, here)
                    (kept_member s m id
                      (unfold get_node in
                        ap (λ k. find (λ (x : ClusterNode). x.id == k) s.nodes) same)
                      old)
            ]
      ]
