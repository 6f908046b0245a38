-- ===== src/Handlers/Answers.antt =====
-- What `txSegmentOpen` answers, on every branch.
use eventter.Base.{
  ℕ, zero, suc, ◌-◌, ◌^◌, ◌≤◌, ◌<◌, ◌≡◌, refl, sym, subst, ◌⊎◌, inl, inr, arith, Bool, true, false,
  ◌&&◌, List, [], ◌∷◌, ◌++◌, none, some, String, ◌==◌, ltb, leb, length, any, filter, find,
  get_elem?, All, Bool-cases, Option-cases,
}
use eventter.Base.Int.{ℤ}
use eventter.Cluster.Data.{ClusterState, ClusterSegment, ClusterNode, SegmentCreate, SegmentType}
use eventter.Cluster.Queries.{get_node, find_open_segments_for, is_owned}
use eventter.Cluster.Invariant.{IsValid}
use eventter.Handlers.Opening.{
  shards_and_factor, Opened, node_not_found, owner_not_found, panics, exists, creates, open_new,
  open_for, segment_open,
}
use eventter.Handlers.Generations.{IsFree, place-IsFree}
use eventter.Handlers.Replication.{Replicas, replica_ids-Replicas}

abbrev pub owned : ClusterState → SegmentType → String → String → List ClusterSegment
owned s type namespace name =
    filter (is_owned type namespace name) (s.closed_segments ++ s.open_segments)

abbrev pub is_at : ℕ → ℕ → ClusterSegment → Bool
is_at id primary g = g.id == id && g.nodes.primary_node_id == primary

abbrev pub is_on : ℕ → ClusterSegment → Bool
is_on primary g = g.nodes.primary_node_id == primary

-- A new segment: of a node that exists and has no open segment of the owner, which has room for it, in
-- a place that is free unless the number of shards is 0, and with its replicas.
pub record IsNew (s : ClusterState) (primary : ℕ) (type : SegmentType) (namespace name : String)
    (next_id : ℕ) (now : ℤ) (cmd : SegmentCreate) : Type 0 where
  pub shards : ℕ
  pub factor : ℕ
  pub known : ClusterNode
  pub exists : get_node s primary ≡ some known
  pub absent : any (is_on primary) (find_open_segments_for s type namespace name) ≡ false
  pub wanted : shards_and_factor s type namespace name ≡ some (shards, factor)
  pub room : (shards ≡ 0) ⊎ (length (find_open_segments_for s type namespace name) < shards)
  pub id : cmd.id ≡ next_id
  pub owner : (cmd.type ≡ type) × (cmd.owner_namespace ≡ namespace) × (cmd.owner_name ≡ name)
  pub opened_at : cmd.opened_at ≡ now
  pub node : cmd.primary_node_id ≡ primary
  pub free :
      (shards ≡ 0)
      ⊎ IsFree primary (owned s type namespace name) cmd.generation cmd.shard
        × (1 ≤ cmd.shard)
        × (cmd.shard ≤ shards)
  pub replicas : Replicas s factor primary cmd.replicating_node_ids

-- An open segment: of a node that exists, and of the owner; on the node itself, or on another one where
-- the node has none and the owner no room.
pub record IsOpen (s : ClusterState) (primary : ℕ) (type : SegmentType) (namespace name : String)
    (id p : ℕ) : Type 0 where
  pub shards : ℕ
  pub factor : ℕ
  pub known : ClusterNode
  pub exists : get_node s primary ≡ some known
  pub wanted : shards_and_factor s type namespace name ≡ some (shards, factor)
  pub present : any (is_at id p) (find_open_segments_for s type namespace name) ≡ true
  pub own :
      (p ≡ primary)
      ⊎ (any (is_on primary) (find_open_segments_for s type namespace name) ≡ false)
        × (0 < shards)
        × (shards ≤ length (find_open_segments_for s type namespace name))

abbrev pub OpenedSpec : ClusterState → ℕ → SegmentType → String → String → ℕ → ℤ → Opened → Type 0
OpenedSpec s primary type namespace name next_id now node_not_found = get_node s primary ≡ none
OpenedSpec s primary type namespace name next_id now owner_not_found =
    ((n : ClusterNode) × (get_node s primary ≡ some n))
    × (shards_and_factor s type namespace name ≡ none)
OpenedSpec s primary type namespace name next_id now panics = ⊥
OpenedSpec s primary type namespace name next_id now (exists id p) =
    IsOpen s primary type namespace name id p
OpenedSpec s primary type namespace name next_id now (creates cmd commits) =
    IsNew s primary type namespace name next_id now cmd

any_found :
    (primary : ℕ) (gs : List ClusterSegment) (g : ClusterSegment)
    → find (λ x. x.nodes.primary_node_id == primary) gs ≡ some g
    → any (is_at g.id primary) gs ≡ true
any_found primary [] g e = cc
any_found primary (x ∷ gs) g e = elim (Bool-cases (x.nodes.primary_node_id == primary)) [
  | inl f ↦
      let same : x ≡ g = ground (arith, e, f) in
      subst (λ y. any (is_at y.id primary) (x ∷ gs) ≡ true) same (ground (arith, f))
  | inr f ↦ ground (arith, any_found primary gs g (ground (arith, e, f)), f)
]

not_found :
    (primary : ℕ) (gs : List ClusterSegment)
    → find (λ x. x.nodes.primary_node_id == primary) gs ≡ none
    → any (λ x. x.nodes.primary_node_id == primary) gs ≡ false
not_found primary [] e = refl
not_found primary (x ∷ gs) e = ground (arith, e, not_found primary gs)

any_at :
    (gs : List ClusterSegment) (i : ℕ) (g : ClusterSegment)
    → get_elem? gs i ≡ some g
    → any (is_at g.id g.nodes.primary_node_id) gs ≡ true
any_at [] i g e = cc
any_at (x ∷ gs) zero g e =
    let same : x ≡ g = ground (arith, e) in
    subst (λ y. any (is_at y.id y.nodes.primary_node_id) (x ∷ gs) ≡ true) same (ground arith)
any_at (x ∷ gs) (suc i) g e = ground (arith, any_at gs i g e)

some_at : (gs : List ClusterSegment) (i : ℕ) → i < length gs → get_elem? gs i ≡ none → ⊥
some_at [] i h e = omega (arith, h)
some_at (x ∷ gs) zero h e = cc
some_at (x ∷ gs) (suc i) h e = some_at gs i (omega (arith, h)) e

module _ (intn : ℕ → ℕ) (intn_lt : (n : ℕ) → 0 < n → intn n < n) where
  open_for-OpenedSpec :
      (s : ClusterState) (primary : ℕ) (type : SegmentType) (namespace name : String)
      (shards factor next_id : ℕ) (now : ℤ) (n : ClusterNode)
      → IsValid s
      → get_node s primary ≡ some n
      → shards_and_factor s type namespace name ≡ some (shards, factor)
      → All (λ g. g.generation ≤ 2 ^ 32 - 2) (owned s type namespace name)
      → OpenedSpec s primary type namespace name next_id now
          (open_for intn s primary type namespace name shards factor next_id now)
  unfolding open_for open_new
  open_for-OpenedSpec s primary type namespace name shards factor next_id now n v there wanted low =
      let opens = find_open_segments_for s type namespace name in
      let run = open_for intn s primary type namespace name shards factor next_id now in
      elim (Option-cases (find (λ g. g.nodes.primary_node_id == primary) opens)) [
        | inr (g, e) ↦
            let step : run ≡ exists g.id primary = rw (open_for, e) refl in
            subst (OpenedSpec s primary type namespace name next_id now) (sym step) (record {
              shards = shards;
              factor = factor;
              known = n;
              exists = there;
              wanted = wanted;
              present = any_found primary opens g e;
              own = inl refl;
            })
        | inl e ↦ elim (Bool-cases (ltb 0 shards && leb shards (length opens))) [
          | inl full ↦ elim (Option-cases (get_elem? opens (intn (length opens)))) [
            | inl f ↦ absurd (
                some_at opens (intn (length opens)) (intn_lt (length opens) (ground (arith, full)))
                  f)
            | inr (g, f) ↦
                let step : run ≡ exists g.id g.nodes.primary_node_id =
                  rw (open_for, e) (rw full (rw f refl)) in
                subst (OpenedSpec s primary type namespace name next_id now) (sym step) (record {
                  shards = shards;
                  factor = factor;
                  known = n;
                  exists = there;
                  wanted = wanted;
                  present = any_at opens (intn (length opens)) g f;
                  own = inr (not_found primary opens e, ground (arith, full), ground (arith, full));
                })
          ]
          | inr room ↦
              let step : run
                  ≡ open_new intn s primary type namespace name shards factor next_id now =
                rw (open_for, e) (rw room refl) in
              subst (OpenedSpec s primary type namespace name next_id now) (sym step) (record {
                shards = shards;
                factor = factor;
                known = n;
                exists = there;
                absent = not_found primary opens e;
                wanted = wanted;
                room = elim (Bool-cases (ltb 0 shards)) [
                  | inr z ↦ inl (ground (arith, z))
                  | inl p ↦ inr (ground (arith, p, room))
                ];
                id = refl;
                owner = (refl, refl, refl);
                opened_at = refl;
                node = refl;
                free = elim (Bool-cases (ltb 0 shards)) [
                  | inr z ↦ inl (ground (arith, z))
                  | inl p ↦ inr (
                      place-IsFree shards primary (owned s type namespace name) (ground (arith, p))
                        low)
                ];
                replicas = replica_ids-Replicas s factor primary v;
              })
        ]
      ]

  pub segment_open-OpenedSpec :
      (s : ClusterState) (primary : ℕ) (type : SegmentType) (namespace name : String) (next_id : ℕ)
      (now : ℤ)
      → IsValid s
      → All (λ g. g.generation ≤ 2 ^ 32 - 2) (owned s type namespace name)
      → OpenedSpec s primary type namespace name next_id now
          (segment_open intn s primary type namespace name next_id now)
  unfolding segment_open
  segment_open-OpenedSpec s primary type namespace name next_id now v low =
      let run = segment_open intn s primary type namespace name next_id now in
      elim (Option-cases (get_node s primary)) [
        | inl e ↦
            let step : run ≡ node_not_found = rw (segment_open, e) refl in
            subst (OpenedSpec s primary type namespace name next_id now) (sym step) e
        | inr (n, e) ↦ elim (Option-cases (shards_and_factor s type namespace name)) [
          | inl f ↦
              let step : run ≡ owner_not_found = rw (segment_open, e) (rw f refl) in
              subst (OpenedSpec s primary type namespace name next_id now) (sym step) ((n, e), f)
          | inr ((shards, factor), f) ↦
              let step : run
                  ≡ open_for intn s primary type namespace name shards factor next_id now =
                rw (segment_open, e) (rw f refl) in
              subst (OpenedSpec s primary type namespace name next_id now) (sym step) (
                open_for-OpenedSpec s primary type namespace name shards factor next_id now n v e f
                  low)
        ]
      ]
