-- ===== src/Handlers/Places.antt =====
-- A place, a shard of a generation, has one segment of an owner at most.
use eventter.Base.{
  ℕ, ◌+◌, ◌-◌, ◌^◌, ◌≤◌, ◌<◌, ◌≡◌, refl, subst, inl, inr, arith, Bool, ◌&&◌, List, [], ◌∷◌, ◌++◌,
  some, String, ◌==◌, ==_iff, if◌then◌else◌, filter, count_if, count_if-append, All, Bool-cases,
}
use eventter.Base.Int.{ℤ}
use eventter.Base.Ordered.{count_if-perm}
use eventter.Cluster.Data.{
  ClusterState, ClusterSegment, SegmentCreate, OffsetCommitsUpdate, SegmentType,
}
use eventter.Cluster.Queries.{is_owned}
use eventter.Cluster.Sort.{SortLib}
use eventter.Cluster.Segments.{opened, do_open_segment}
use eventter.Cluster.Invariant.{IsValid}
use eventter.Handlers.Opening.{shards_and_factor, creates, segment_open}
use eventter.Handlers.Generations.{in_generation, IsFree}
use eventter.Handlers.Answers.{owned, IsNew, OpenedSpec, segment_open-OpenedSpec}

abbrev pub is_placed : SegmentType → String → String → ℕ → ℕ → ClusterSegment → Bool
is_placed type namespace name generation shard g =
    is_owned type namespace name g && (in_generation generation g && g.shard == shard)

abbrev pub PlacesUnique : ClusterState → SegmentType → String → String → Type 0
PlacesUnique s type namespace name =
    (generation shard : ℕ)
    → count_if (is_placed type namespace name generation shard)
        (s.closed_segments ++ s.open_segments)
      ≤ 1

free_count :
    (type : SegmentType) (namespace name : String) (primary generation shard : ℕ)
    (gs : List ClusterSegment)
    → IsFree primary (filter (is_owned type namespace name) gs) generation shard
    → count_if (is_placed type namespace name generation shard) gs ≡ 0
free_count type namespace name primary generation shard [] f = refl
free_count type namespace name primary generation shard (g ∷ gs) f =
    elim (Bool-cases (is_owned type namespace name g)) [
      | inl e ↦
          let f' : IsFree primary (g ∷ filter (is_owned type namespace name) gs) generation shard =
            rw e at f in
          rw e
            (ground (arith, f'.0, free_count type namespace name primary generation shard gs f'.1))
      | inr e ↦
          let f' : IsFree primary (filter (is_owned type namespace name) gs) generation shard =
            rw e at f in
          rw e (free_count type namespace name primary generation shard gs f')
    ]

module _ (lib : SortLib) (intn : ℕ → ℕ) (intn_lt : (n : ℕ) → 0 < n → intn n < n) where
  count_if-opened :
      (p : ClusterSegment → Bool) (s : ClusterState) (cmd : SegmentCreate)
      → count_if p
          ((do_open_segment lib s cmd).closed_segments ++ (do_open_segment lib s cmd).open_segments)
        ≡ count_if p (s.closed_segments ++ s.open_segments) + (if p (opened cmd) then 1 else 0)
  unfolding do_open_segment
  count_if-opened p s cmd =
      let sorted =
        count_if-perm p
          (lib.slice_keeps ClusterSegment (λ g. g.id) (s.open_segments ++ (opened cmd ∷ []))) in
      ground (
        arith,
        sorted,
        count_if-append p s.closed_segments
            (lib.slice ClusterSegment (λ g. g.id) (s.open_segments ++ (opened cmd ∷ []))),
        count_if-append p s.closed_segments s.open_segments,
        count_if-append p s.open_segments (opened cmd ∷ []),
      )

  -- If no two segments of an owner have one shard of one generation, then this is so once the
  -- segment that `txSegmentOpen` makes is open, for a valid state, generations below 2^32 - 1, an
  -- owner with a limit of shards and a random number in its range.
  pub segment_open-PlacesUnique :
      (s : ClusterState) (primary : ℕ) (type : SegmentType) (namespace name : String) (next_id : ℕ)
      (now : ℤ) (shards factor : ℕ) (cmd : SegmentCreate) (commits : List OffsetCommitsUpdate)
      → IsValid s
      → All (λ g. g.generation ≤ 2 ^ 32 - 2) (owned s type namespace name)
      → shards_and_factor s type namespace name ≡ some (shards, factor)
      → 0 < shards
      → PlacesUnique s type namespace name
      → segment_open intn s primary type namespace name next_id now ≡ creates cmd commits
      → PlacesUnique (do_open_segment lib s cmd) type namespace name
  segment_open-PlacesUnique s primary type namespace name next_id now shards factor cmd commits v
        low wanted some_shards u h generation shard =
      let new : IsNew s primary type namespace name next_id now cmd =
        subst (OpenedSpec s primary type namespace name next_id now) h
          (segment_open-OpenedSpec intn intn_lt s primary type namespace name next_id now v low) in
      let same_shards : new.shards ≡ shards = ground (arith, new.wanted, wanted) in
      let free : IsFree primary (owned s type namespace name) cmd.generation cmd.shard =
        elim new.free [
          | inl z ↦ absurd (omega (arith, z, same_shards, some_shards))
          | inr (f, _, _) ↦ f
        ] in
      let count = count_if-opened (is_placed type namespace name generation shard) s cmd in
      elim (Bool-cases (is_placed type namespace name generation shard (opened cmd))) [
        | inr e ↦ ground (arith, count, e, u generation shard)
        | inl e ↦
            let g_same : cmd.generation ≡ generation =
              (==_iff cmd.generation generation).0 (ground (arith, e)) in
            let s_same : cmd.shard ≡ shard = (==_iff cmd.shard shard).0 (ground (arith, e)) in
            let before : count_if (is_placed type namespace name generation shard)
                  (s.closed_segments ++ s.open_segments)
                ≡ 0 =
              free_count type namespace name primary generation shard
                (s.closed_segments ++ s.open_segments)
                (subst (λ k. IsFree primary (owned s type namespace name) k shard) g_same
                  (subst (λ k. IsFree primary (owned s type namespace name) cmd.generation k) s_same
                    free)) in
            ground (arith, count, e, before)
      ]
