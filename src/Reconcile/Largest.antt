-- ===== src/Reconcile/Largest.antt =====
-- The search for the alive replica with the largest size.
use eventter.Base.{
  ℕ, ◌≡◌, refl, ap, sym, subst, ◌∙◌, ◌⊎◌, inl, inr, arith, Bool, true, false, not, List, [], ◌∷◌,
  Option, some, none, String, if◌then◌else◌, All, any, Bool-cases, Option-cases,
}
use eventter.Base.Int.{ℤ, ltb_ℤ}
use eventter.Cluster.Data.{ClusterNode, NodeState, dead, alive}
use eventter.Reconcile.Outcome.{node_of, is_up, is_alive}
use eventter.Reconcile.Replicas.{is_in}
use eventter.Reconcile.Open.{Best, unknown_node, gives_up, best, best_replica}

pub NodeState-cases : (x : NodeState) → (x ≡ dead) ⊎ (x ≡ alive)
NodeState-cases dead = inl refl
NodeState-cases alive = inr refl

module _ (size_of : ℕ → ℕ → String → Option ℤ) (ns : List ClusterNode) (segment_id : ℕ) where
  -- The size that an alive node answers.
  abbrev pub size_at : ℕ → Option ℤ
  size_at r = elim (node_of ns r) [
    | none ↦ none
    | some n ↦ if is_up n then size_of segment_id r n.address else none
  ]

  -- The node is known; and if it is alive, then it answers with a size that is at most this one.
  abbrev pub at_most : ℤ → ℕ → Bool
  at_most z r = elim (node_of ns r) [
    | none ↦ false
    | some n ↦
        if is_up n
        then (elim (size_of segment_id r n.address) [ none ↦ false | some y ↦ not (ltb_ℤ z y) ])
        else true
  ]

  -- The best of the replicas and of what there was before them.
  pub record IsBest (rs : List ℕ) (id : ℕ) (size : ℤ) (found : ℕ) : Type 0 where
    pub largest : ℤ
    pub source :
        ((found ≡ id) × (largest ≡ size))
        ⊎ ((is_in rs found ≡ true) × (size_at found ≡ some largest))
    pub grown : ltb_ℤ largest size ≡ false
    pub most : All (λ r. at_most largest r ≡ true) rs

  abbrev pub BestSpec : List ℕ → ℕ → ℤ → Best → Type 0
  BestSpec rs id size unknown_node =
      any (λ r. elim (node_of ns r) [ none ↦ true | some n ↦ false ]) rs ≡ true
  BestSpec rs id size gives_up =
      any (λ r. elim (size_at r) [ none ↦ is_alive ns r | some z ↦ false ]) rs ≡ true
  BestSpec rs id size (best found) = IsBest rs id size found

  at_most-grown : (y z : ℤ) (r : ℕ) → at_most y r ≡ true → ltb_ℤ z y ≡ false → at_most z r ≡ true
  at_most-grown y z r h grown = elim (Option-cases (node_of ns r)) [
    | inl e ↦ absurd (ground (arith, h, e))
    | inr (n, e) ↦ elim (Option-cases (size_of segment_id r n.address)) [
      | inl f ↦ ground (arith, h, e, f)
      | inr (x, f) ↦ ground (arith, h, e, f, grown)
    ]
  ]

  -- A replica that leaves the best one as it is.
  BestSpec-smaller :
      (r : ℕ) (rs : List ℕ) (id : ℕ) (size : ℤ) (b : Best)
      → at_most size r ≡ true
      → BestSpec rs id size b
      → BestSpec (r ∷ rs) id size b
  BestSpec-smaller r rs id size unknown_node h s = ground (arith, s)
  BestSpec-smaller r rs id size gives_up h s = ground (arith, s)
  BestSpec-smaller r rs id size (best found) h s = record {
    largest = s.largest;
    source = elim s.source [ inl e ↦ inl e | inr (m, e) ↦ inr (ground (arith, m), e) ];
    grown = s.grown;
    most = (at_most-grown size s.largest r h s.grown, s.most);
  }

  -- A replica that becomes the best one.
  BestSpec-larger :
      (r : ℕ) (rs : List ℕ) (id : ℕ) (size z : ℤ) (b : Best)
      → ltb_ℤ size z ≡ true
      → size_at r ≡ some z
      → at_most z r ≡ true
      → BestSpec rs r z b
      → BestSpec (r ∷ rs) id size b
  BestSpec-larger r rs id size z unknown_node larger at h s = ground (arith, s)
  BestSpec-larger r rs id size z gives_up larger at h s = ground (arith, s)
  BestSpec-larger r rs id size z (best found) larger at h s = record {
    largest = s.largest;
    source = elim s.source [
      | inl (e, f) ↦ inr (ground (arith, e), ap size_at e ∙ at ∙ ap some (sym f))
      | inr (m, e) ↦ inr (ground (arith, m), e)
    ];
    grown = larger_than size z s.largest larger s.grown;
    most = (at_most-grown z s.largest r h s.grown, s.most);
  }
    where
      larger_than : (a b c : ℤ) → ltb_ℤ a b ≡ true → ltb_ℤ c b ≡ false → ltb_ℤ c a ≡ false
      larger_than a b c h k = ground arith

  pub best_replica-BestSpec :
      (rs : List ℕ) (id : ℕ) (size : ℤ)
      → BestSpec rs id size (best_replica size_of ns segment_id rs id size)
  unfolding best_replica is_alive
  best_replica-BestSpec [] id size = record {
    largest = size;
    source = inl (refl, refl);
    grown = ground arith;
    most = tt;
  }
  best_replica-BestSpec (r ∷ rs) id size = elim (Option-cases (node_of ns r)) [
    | inl e ↦
        let step : best_replica size_of ns segment_id (r ∷ rs) id size ≡ unknown_node =
          rw (best_replica, e) refl in
        subst (BestSpec (r ∷ rs) id size) (sym step) (ground (arith, e))
    | inr (n, e) ↦ elim (NodeState-cases n.state) [
      | inl d ↦
          let step : best_replica size_of ns segment_id (r ∷ rs) id size
              ≡ best_replica size_of ns segment_id rs id size =
            rw (best_replica, e) (rw d refl) in
          subst (BestSpec (r ∷ rs) id size) (sym step) (
            BestSpec-smaller r rs id size _ (ground (arith, e, d))
              (best_replica-BestSpec rs id size))
      | inr a ↦ elim (Option-cases (size_of segment_id r n.address)) [
        | inl f ↦
            let step : best_replica size_of ns segment_id (r ∷ rs) id size ≡ gives_up =
              rw (best_replica, e) (rw a (rw f refl)) in
            let up : is_alive ns r ≡ true = rw (is_alive, e) (rw a refl) in
            subst (BestSpec (r ∷ rs) id size) (sym step) (ground (arith, e, a, f, up))
        | inr (z, f) ↦ elim (Bool-cases (ltb_ℤ size z)) [
          | inl larger ↦
              let step : best_replica size_of ns segment_id (r ∷ rs) id size
                  ≡ best_replica size_of ns segment_id rs r z =
                rw (best_replica, e) (rw a (rw f (rw larger refl))) in
              subst (BestSpec (r ∷ rs) id size) (sym step) (
                BestSpec-larger r rs id size z _ larger (ground (arith, e, a, f))
                  (ground (arith, e, a, f)) (best_replica-BestSpec rs r z))
          | inr larger ↦
              let step : best_replica size_of ns segment_id (r ∷ rs) id size
                  ≡ best_replica size_of ns segment_id rs id size =
                rw (best_replica, e) (rw a (rw f (rw larger refl))) in
              subst (BestSpec (r ∷ rs) id size) (sym step) (
                BestSpec-smaller r rs id size _ (ground (arith, e, a, f, larger))
                  (best_replica-BestSpec rs id size))
        ]
      ]
    ]
  ]
