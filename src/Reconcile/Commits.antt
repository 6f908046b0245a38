-- ===== src/Reconcile/Commits.antt =====
-- The offset commits that a consumer group has once the reconciler has gone over it.
use eventter.Base.{
  ℕ, ◌≡◌, refl, ap, sym, ◌∙◌, inl, inr, arith, Bool, true, false, ◌&&◌, not, List, [], ◌∷◌, ◌++◌,
  map, Option, none, some, String, ◌==◌, ==_iff, if◌then◌else◌, find, filter, Bool-cases,
}
use eventter.Base.Int.{pos}
use eventter.Cluster.Data.{ClusterState, ClusterSegment, ClusterConsumerGroup, OffsetCommit}
use eventter.Reconcile.Groups.{
  sources, has_commit, has_segment, count_keys, new_commits, is_nil, offset_commits,
}
use eventter.Reconcile.Keys.{has, has-same, count_keys-same}

abbrev segment_of : OffsetCommit → ℕ
segment_of o = o.segment_id

abbrev id_of : ClusterSegment → ℕ
id_of g = g.id

has_commit-has : (os : List OffsetCommit) (id : ℕ) → has_commit os id ≡ has (map segment_of os) id
has_commit-has [] id = refl
has_commit-has (o ∷ os) id = ground (arith, has_commit-has os id)

has_segment-has : (gs : List ClusterSegment) (id : ℕ) → has_segment gs id ≡ has (map id_of gs) id
has_segment-has [] id = refl
has_segment-has (g ∷ gs) id = ground (arith, has_segment-has gs id)

abbrev pub commit_at : List OffsetCommit → ℕ → Option OffsetCommit
commit_at os id = find (λ o. o.segment_id == id) os

-- The commit that a group should have for a segment: for those of its topics the one it has, or one
-- at the segment's start.
abbrev pub wanted : List OffsetCommit → List ClusterSegment → ℕ → Option OffsetCommit
wanted os gs id =
    if has_segment gs id
    then (elim (find (λ (o : OffsetCommit). o.segment_id == id) os) [
      | some o ↦ some o
      | none ↦ some (record { segment_id = id; offset = pos 0 })
    ])
    else none

commit_at-new :
    (os : List OffsetCommit) (gs : List ClusterSegment) (id : ℕ)
    → commit_at (new_commits os gs) id ≡ (
        if has_segment gs id && not (has_commit os id)
        then some (record { segment_id = id; offset = pos 0 })
        else none)
commit_at-new os [] id = refl
commit_at-new os (g ∷ gs) id = elim (Bool-cases (g.id == id)) [
  | inl e ↦
      let same = (==_iff g.id id).0 e in
      let known : has_commit os g.id ≡ has_commit os id = ap (has_commit os) same in
      ground (arith, commit_at-new os gs id, e, same, known)
  | inr e ↦ ground (arith, commit_at-new os gs id, e)
]

commit_at-kept :
    (os : List OffsetCommit) (gs : List ClusterSegment) (id : ℕ)
    → commit_at (filter (λ o. has_segment gs o.segment_id) os) id
      ≡ (if has_segment gs id then commit_at os id else none)
commit_at-kept [] gs id = ground arith
commit_at-kept (o ∷ os) gs id = elim (Bool-cases (o.segment_id == id)) [
  | inl e ↦
      let same : has_segment gs o.segment_id ≡ has_segment gs id =
        ap (has_segment gs) ((==_iff o.segment_id id).0 e) in
      ground (arith, commit_at-kept os gs id, e, same)
  | inr e ↦ ground (arith, commit_at-kept os gs id, e)
]

commit_at-append :
    (os us : List OffsetCommit) (id : ℕ)
    → commit_at (os ++ us) id
      ≡ (elim (commit_at os id) [ some o ↦ some o | none ↦ commit_at us id ])
commit_at-append [] us id = refl
commit_at-append (o ∷ os) us id = ground (arith, commit_at-append os us id)

has_commit-find :
    (os : List OffsetCommit) (id : ℕ)
    → has_commit os id ≡ (elim (commit_at os id) [ none ↦ false | some o ↦ true ])
has_commit-find [] id = refl
has_commit-find (o ∷ os) id = ground (arith, has_commit-find os id)

-- What the group's commits are behind the reconciler: those that it sends, or those that it leaves.
abbrev pub commits_after : ClusterState → String → ClusterConsumerGroup → List OffsetCommit
commits_after s namespace c = elim (offset_commits s namespace c) [
  | none ↦ c.offset_commits
  | some os ↦ os
]

nil_new-sub :
    (os : List OffsetCommit) (gs : List ClusterSegment) (id : ℕ)
    → is_nil (new_commits os gs) ≡ true
    → has_segment gs id ≡ true
    → has_commit os id ≡ true
nil_new-sub os gs id h m = elim (Bool-cases (has_commit os id)) [
  | inl e ↦ e
  | inr e ↦
      let found = commit_at-new os gs id in
      let nothing : commit_at (new_commits os gs) id ≡ none = nil_find (new_commits os gs) id h in
      ground (arith, found, nothing, m, e)
]
  where
    nil_find : (us : List OffsetCommit) (k : ℕ) → is_nil us ≡ true → commit_at us k ≡ none
    nil_find [] k h = refl
    nil_find (u ∷ us) k h = cc

sub-nil_new :
    (os : List OffsetCommit) (gs : List ClusterSegment)
    → ((id : ℕ) → has_segment gs id ≡ true → has_commit os id ≡ true)
    → is_nil (new_commits os gs) ≡ true
sub-nil_new os gs sub = none_left (new_commits os gs) refl
  where
    none_left : (us : List OffsetCommit) → new_commits os gs ≡ us → is_nil us ≡ true
    none_left [] e = refl
    none_left (u ∷ us) e =
        let found = ap (λ l. commit_at l u.segment_id) (sym e) ∙ commit_at-new os gs u.segment_id in
        ground (arith, found, sub u.segment_id)

-- Whether the reconciler leaves the commits as they are.
leaves_them : (os : List OffsetCommit) (gs : List ClusterSegment) → Bool
leaves_them os gs =
    is_nil (new_commits os gs) && count_keys (map segment_of os) == count_keys (map id_of gs)

left-same :
    (os : List OffsetCommit) (gs : List ClusterSegment) (id : ℕ)
    → leaves_them os gs ≡ true
    → has_commit os id ≡ has_segment gs id
unfolding leaves_them
left-same os gs id h =
    has_commit-has os id
    ∙ sym (
        has-same (map id_of gs) (map segment_of os)
          (λ k m.
            sym (has_commit-has os k)
            ∙ nil_new-sub os gs k (ground arith) (has_segment-has gs k ∙ m))
          (ground arith) id)
    ∙ sym (has_segment-has gs id)

same-left :
    (os : List OffsetCommit) (gs : List ClusterSegment)
    → ((id : ℕ) → has_commit os id ≡ has_segment gs id)
    → leaves_them os gs ≡ true
unfolding leaves_them
same-left os gs same =
    let nil = sub-nil_new os gs (λ id m. same id ∙ m) in
    let count =
      count_keys-same (map segment_of os) (map id_of gs)
        (λ k. sym (has_commit-has os k) ∙ same k ∙ has_segment-has gs k) in
    ground (arith, nil, count)

wanted_sent :
    (os : List OffsetCommit) (gs : List ClusterSegment) (id : ℕ)
    → commit_at (filter (λ o. has_segment gs o.segment_id) os ++ new_commits os gs) id
      ≡ wanted os gs id
wanted_sent os gs id = ground (
  arith,
  commit_at-append (filter (λ o. has_segment gs o.segment_id) os) (new_commits os gs) id,
  commit_at-kept os gs id,
  commit_at-new os gs id,
  has_commit-find os id,
)

wanted_left :
    (os : List OffsetCommit) (gs : List ClusterSegment) (id : ℕ)
    → leaves_them os gs ≡ true
    → commit_at os id ≡ wanted os gs id
wanted_left os gs id h = ground (arith, left-same os gs id h, has_commit-find os id)

offset_commits-leaves_them :
    (s : ClusterState) (namespace : String) (c : ClusterConsumerGroup)
    → offset_commits s namespace c ≡ (
        if leaves_them c.offset_commits (sources s namespace c)
        then none
        else some (
            filter (λ o. has_segment (sources s namespace c) o.segment_id) c.offset_commits
            ++ new_commits c.offset_commits (sources s namespace c)))
unfolding offset_commits leaves_them
offset_commits-leaves_them s namespace c = refl

wanted-has :
    (os : List OffsetCommit) (gs : List ClusterSegment) (id : ℕ)
    → (elim (wanted os gs id) [ none ↦ false | some o ↦ true ]) ≡ has_segment gs id
wanted-has os gs id = ground arith

-- The commits that a group has behind the reconciler, by the segments that the code selects.
pub commits_after-sources :
    (s : ClusterState) (namespace : String) (c : ClusterConsumerGroup) (id : ℕ)
    → commit_at (commits_after s namespace c) id
      ≡ wanted c.offset_commits (sources s namespace c) id
commits_after-sources s namespace c id =
    let os = c.offset_commits in
    let gs = sources s namespace c in
    let code = offset_commits-leaves_them s namespace c in
    elim (Bool-cases (leaves_them os gs)) [
      | inl e ↦
          let now : offset_commits s namespace c ≡ none = rw e at code in
          ap (λ o. commit_at (elim o [ none ↦ os | some us ↦ us ]) id) now ∙ wanted_left os gs id e
      | inr e ↦
          let now : offset_commits s namespace c
              ≡ some (filter (λ o. has_segment gs o.segment_id) os ++ new_commits os gs) =
            rw e at code in
          ap (λ o. commit_at (elim o [ none ↦ os | some us ↦ us ]) id) now ∙ wanted_sent os gs id
    ]

-- Once `reconcileConsumerGroupOffsetCommits` has gone over a consumer group, going over it again
-- sends nothing.
pub offset_commits-commits_after :
    (s : ClusterState) (namespace : String) (c : ClusterConsumerGroup)
    → offset_commits s namespace (record c { offset_commits = commits_after s namespace c }) ≡ none
offset_commits-commits_after s namespace c =
    let gs = sources s namespace c in
    let os = commits_after s namespace c in
    let in_both : (id : ℕ) → has_commit os id ≡ has_segment gs id = λ id.
      has_commit-find os id
      ∙ ap (λ (o : Option OffsetCommit). elim o as (λ _. Bool) [ none ↦ false | some x ↦ true ])
          (commits_after-sources s namespace c id)
      ∙ wanted-has c.offset_commits gs id in
    let settled : leaves_them os gs ≡ true = same-left os gs in_both in
    let code = offset_commits-leaves_them s namespace (record c { offset_commits = os }) in
    rw settled at code
