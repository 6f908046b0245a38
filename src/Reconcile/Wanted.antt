-- ===== src/Reconcile/Wanted.antt =====
-- For which segments a consumer group has an offset commit once the reconciler has gone over it.
use eventter.Base.{
  ℕ, ◌≡◌, refl, ap, sym, ◌∙◌, ◌⊎◌, inl, inr, arith, Bool, true, ◌&&◌, List, [], ◌∷◌, ◌++◌, none,
  some, String, str_eq, eq_iff, ◌==◌, ==_iff, any, filter, find, Bool-cases,
}
use mathlib.Core.List.{Memᴰ}
use mathlib.Core.List.Memᴰ
use eventter.Base.Int.{pos}
use eventter.Cluster.Data.{
  ClusterState, ClusterSegment, ClusterConsumerGroup, Binding, OffsetCommit, SegmentType,
}
use eventter.Cluster.Queries.{same_type}
use eventter.Reconcile.Groups.{is_bound_to, is_source, sources, has_segment}
use eventter.Reconcile.Commits.{commit_at, commits_after, wanted, commits_after-sources}

-- The group reads the segment: it is of a topic of the namespace that a binding of the group names.
pub record IsRead (namespace : String) (c : ClusterConsumerGroup) (g : ClusterSegment)
    : Type 0 where
  pub type : g.type ≡ SegmentType.topic
  pub owner : g.owner_namespace ≡ namespace
  pub binding : Binding
  pub of_group : Memᴰ binding c.bindings
  pub bound : binding.topic_name ≡ g.owner_name

-- The commit that the group has for a segment, or one at the segment's start.
abbrev pub kept_or_new : List OffsetCommit → ℕ → OffsetCommit
kept_or_new os id = elim (find (λ (o : OffsetCommit). o.segment_id == id) os) [
  | some o ↦ o
  | none ↦ record { segment_id = id; offset = pos 0 }
]

module _ {ℓ} {A : Type ℓ} where
  any_sound : (p : A → Bool) (xs : List A) → any p xs ≡ true → (x : A) × Memᴰ x xs × (p x ≡ true)
  any_sound p [] h = cc
  any_sound p (x ∷ xs) h = elim (Bool-cases (p x)) [
    | inl y ↦ (x, Memᴰ.head refl, y)
    | inr n ↦ let (z, m, k) = any_sound p xs (ground (arith, h, n)) in (z, Memᴰ.tail m, k)
  ]

  any_complete : (p : A → Bool) (xs : List A) (x : A) → Memᴰ x xs → p x ≡ true → any p xs ≡ true
  any_complete p [] x m k = absurd (Memᴰ.not-nil m)
  any_complete p (y ∷ xs) x (Memᴰ.head e) k =
      let h : p y ≡ true = ap p (sym e) ∙ k in ground (arith, h)
  any_complete p (y ∷ xs) x (Memᴰ.tail m) k = ground (arith, any_complete p xs x m k)

  any-filter : (p q : A → Bool) (xs : List A) → any p (filter q xs) ≡ any (λ x. q x && p x) xs
  any-filter p q [] = refl
  any-filter p q (x ∷ xs) = elim (Bool-cases (q x)) [
    | inl y ↦ ground (arith, y, any-filter p q xs)
    | inr n ↦ ground (arith, n, any-filter p q xs)
  ]

same_type_sound : (a : SegmentType) → same_type a SegmentType.topic ≡ true → a ≡ SegmentType.topic
same_type_sound SegmentType.invalid h = cc
same_type_sound SegmentType.topic h = refl
same_type_sound SegmentType.consumer_group_offset_commits h = cc

is_source-IsRead :
    (namespace : String) (c : ClusterConsumerGroup) (g : ClusterSegment)
    → is_source namespace c g ≡ true
    → IsRead namespace c g
is_source-IsRead namespace c g h =
    let (b, m, k) =
      any_sound (λ (b : Binding). str_eq b.topic_name g.owner_name) c.bindings
        (ground (arith, h)) in
    record {
      type = same_type_sound g.type (ground (arith, h));
      owner = (eq_iff g.owner_namespace namespace).0 (ground (arith, h));
      binding = b;
      of_group = m;
      bound = (eq_iff b.topic_name g.owner_name).0 k;
    }

IsRead-is_source :
    (namespace : String) (c : ClusterConsumerGroup) (g : ClusterSegment)
    → IsRead namespace c g
    → is_source namespace c g ≡ true
IsRead-is_source namespace c g r =
    let type : same_type g.type SegmentType.topic ≡ true =
      ap (λ t. same_type t SegmentType.topic) r.type in
    let owner : str_eq g.owner_namespace namespace ≡ true =
      (eq_iff g.owner_namespace namespace).1 r.owner in
    let bound : is_bound_to c g.owner_name ≡ true =
      any_complete (λ (b : Binding). str_eq b.topic_name g.owner_name) c.bindings r.binding
        r.of_group ((eq_iff r.binding.topic_name g.owner_name).1 r.bound) in
    ground (arith, type, owner, bound)

-- A segment of the state with this id that the group reads.
pub record ReadAt (s : ClusterState) (namespace : String) (c : ClusterConsumerGroup) (id : ℕ)
    : Type 0 where
  pub segment : ClusterSegment
  pub of_state : Memᴰ segment (s.open_segments ++ s.closed_segments)
  pub same : segment.id ≡ id
  pub read : IsRead namespace c segment

has_segment-ReadAt :
    (s : ClusterState) (namespace : String) (c : ClusterConsumerGroup) (id : ℕ)
    → has_segment (sources s namespace c) id ≡ true
    → ReadAt s namespace c id
has_segment-ReadAt s namespace c id h =
    let all = s.open_segments ++ s.closed_segments in
    let test : ClusterSegment → Bool = λ g. is_source namespace c g && g.id == id in
    let (g, m, k) =
      any_sound test all (sym (any-filter (λ g. g.id == id) (is_source namespace c) all) ∙ h) in
    record {
      segment = g;
      of_state = m;
      same = (==_iff g.id id).0 (ground (arith, k));
      read = is_source-IsRead namespace c g (ground (arith, k));
    }

ReadAt-has_segment :
    (s : ClusterState) (namespace : String) (c : ClusterConsumerGroup) (id : ℕ)
    → ReadAt s namespace c id
    → has_segment (sources s namespace c) id ≡ true
ReadAt-has_segment s namespace c id r =
    let all = s.open_segments ++ s.closed_segments in
    let test : ClusterSegment → Bool = λ g. is_source namespace c g && g.id == id in
    let source = IsRead-is_source namespace c r.segment r.read in
    let here : (r.segment.id == id) ≡ true = (==_iff r.segment.id id).1 r.same in
    any-filter (λ g. g.id == id) (is_source namespace c) all
    ∙ any_complete test all r.segment r.of_state (ground (arith, source, here))

-- Once `reconcileConsumerGroupOffsetCommits` has gone over a consumer group, its commit for a
-- segment id is the one it had, or one at offset 0, if a segment of that id, open or closed, is of
-- type topic, in the namespace and of a topic that a binding of the group names, and there is none
-- if no such segment has the id.
pub commits_after-ReadAt :
    (s : ClusterState) (namespace : String) (c : ClusterConsumerGroup) (id : ℕ)
    → (ReadAt s namespace c id
        × (commit_at (commits_after s namespace c) id ≡ some (kept_or_new c.offset_commits id)))
      ⊎ ((ReadAt s namespace c id → ⊥) × (commit_at (commits_after s namespace c) id ≡ none))
commits_after-ReadAt s namespace c id =
    let os = c.offset_commits in
    let gs = sources s namespace c in
    let code = commits_after-sources s namespace c id in
    elim (Bool-cases (has_segment gs id)) [
      | inl y ↦ inl (has_segment-ReadAt s namespace c id y, code ∙ kept os gs y)
      | inr n ↦
          inr (λ r. ground (arith, ReadAt-has_segment s namespace c id r, n), code ∙ rw n refl)
    ]
  where
    kept :
        (os : List OffsetCommit) (gs : List ClusterSegment)
        → has_segment gs id ≡ true
        → wanted os gs id ≡ some (kept_or_new os id)
    kept os gs y = ground (arith, y)
