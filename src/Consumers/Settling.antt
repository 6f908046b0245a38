-- ===== src/Consumers/Settling.antt =====
-- `Ack`, `Nack` and `Close` of a subscription as operations on the list of the group's messages.
use eventter.Base.{ℕ, ◌≡◌, refl, sym, ap, subst, ◌∙◌, ◌≢◌, inl, inr, arith}
use eventter.Base.{Bool, true, false, List, [], map, none, some, ◌==◌, find}
use eventter.Base.{length, update_first, take_while, drop_while, Bool-cases, Option-cases}
use eventter.Base.{if◌then◌else◌}
use eventter.Consumers.Data.{
  Message, Group, Subscription, Commit, hold, ready, ack_id, zero_seq_no, is_acked, is_leased,
  commit_of,
}
use eventter.Consumers.Subscription.{
  at, search_group, bad_seq_no, not_leased, Acked, ack_at, ack, sweep, drop_inflight, Nacked,
  nack_at, nack, close,
}
use eventter.Consumers.Window.{window}
use eventter.Consumers.Loops.{Swept, SweptTo, sweep-Swept, unlease, window-release, length-release}
use eventter.Consumers.Contents.{
  IsValid, count, contents, group-Gap, contents_of_Gap, with_slot, with_slot-IsValid,
  contents-with_slot, search-none, search-find,
}

-- The contents with the message leased under `seq` marked as acked.
abbrev pub marked : Group → Subscription → ℕ → List Message
marked g s seq = update_first (is_leased s.id seq) (hold ack_id zero_seq_no) (contents g)

-- `Ack` fails on sequence number 0 and on a message that the subscription does not hold; otherwise
-- it marks the message, drops the acked messages at the front of the queue and commits just those,
-- in the order of the queue, where commits are wanted.
abbrev pub AckSpec : Group → Subscription → ℕ → Acked → Type 0
AckSpec g s seq (Acked.failed bad_seq_no) = seq ≡ 0
AckSpec g s seq (Acked.failed not_leased) =
    (seq ≢ 0) × (find (is_leased s.id seq) (contents g) ≡ none)
AckSpec g s seq (Acked.acked g' s' commits) =
    IsValid g'
    × (seq ≢ 0)
    × ((o : Message) × (find (is_leased s.id seq) (contents g) ≡ some o))
    × (contents g' ≡ drop_while is_acked (marked g s seq))
    × (commits ≡ (if g.commits then map commit_of (take_while is_acked (marked g s seq)) else []))
    × (g'.n ≡ g.n)
    × (g'.closed ≡ g.closed)
    × (g'.commits ≡ g.commits)
    × (s' ≡ drop_inflight s)

Swept-IsValid :
    (g : Group) (c : Bool) (ms : List Message) (j k : ℕ) (sent : List Commit)
    → IsValid g
    → Swept c (length g.messages) g.messages g.read g.write k ms j sent
    → IsValid (record g { messages = ms; read = j })
Swept-IsValid g c ms j k sent v s = record {
  size = s.same_length ∙ v.size;
  read_in = omega (arith, s.same_length, s.gap);
  write_in = omega (arith, s.same_length, v.write_in);
}

contents-Swept :
    (g : Group) (c : Bool) (ms : List Message) (j : ℕ) (sent : List Commit)
    → Swept c (length g.messages) g.messages g.read g.write (count g) ms j sent
    → contents (record g { messages = ms; read = j }) ≡ drop_while is_acked (contents g)
unfolding contents
contents-Swept g c ms j sent s =
    contents_of_Gap (record g { messages = ms; read = j }) (length g.messages) s.left
      (sym s.same_length) s.gap
    ∙ s.kept

ack_at-AckSpec :
    (g : Group) (s : Subscription) (seq i : ℕ)
    → IsValid g
    → seq ≢ 0
    → search_group (is_leased s.id seq) g ≡ some i
    → AckSpec g s seq (ack_at g s i)
unfolding ack_at
ack_at-AckSpec g s seq i v h e = (
  Swept-IsValid g' g.commits _ _ (count g') _ v' swept,
  h,
  (at g.messages i, search-find (is_leased s.id seq) g i v e),
  contents-Swept g' g.commits _ _ _ swept ∙ ap (drop_while is_acked) same,
  (swept.sends ∙ ap (λ l. if g.commits then map commit_of (take_while is_acked l) else []) slots),
  refl,
  refl,
  refl,
  refl,
)
  where
    g' : Group
    g' = with_slot g i (hold ack_id zero_seq_no (at g.messages i))

    v' : IsValid g'
    v' = with_slot-IsValid g i _ v

    same : contents g' ≡ marked g s seq
    same = contents-with_slot (is_leased s.id seq) (hold ack_id zero_seq_no) g i v e

    slots : window (length g'.messages) g'.messages g'.read (count g') ≡ marked g s seq
    slots = unfold contents in same

    swept :
        SweptTo g.commits
          (length g'.messages)
          g'.messages
          g'.read
          g'.write
          (count g')
          (sweep (length g'.messages) g.commits g'.messages g'.read g'.write)
    swept =
        sweep-Swept (length g'.messages) g.commits (length g'.messages) g'.messages g'.read g'.write
          (count g') refl (omega (arith, group-Gap g' v')) (group-Gap g' v')

-- On a valid group, `Ack` fails on sequence number 0 and on a message that the subscription does
-- not hold; otherwise it marks the message, drops the acked messages at the front of the queue,
-- commits just those in order where commits are wanted, and leaves a valid group.
pub ack-AckSpec :
    (g : Group) (s : Subscription) (seq : ℕ) → IsValid g → AckSpec g s seq (ack g s seq)
unfolding ack
ack-AckSpec g s seq v = elim (Bool-cases (seq == 0)) [
  | inl z ↦ subst (AckSpec g s seq) (refuses z) (ground arith)
  | inr p ↦ elim (Option-cases (search_group (is_leased s.id seq) g)) [
    | inl e ↦
        subst (AckSpec g s seq) (misses p e) (ground arith, search-none (is_leased s.id seq) g v e)
    | inr (i, e) ↦
        subst (AckSpec g s seq) (hits p i e) (ack_at-AckSpec g s seq i v (ground arith) e)
  ]
]
  where
    refuses : (seq == 0) ≡ true → Acked.failed bad_seq_no ≡ ack g s seq
    refuses z = rw z

    misses :
        (seq == 0) ≡ false
        → search_group (is_leased s.id seq) g ≡ none
        → Acked.failed not_leased ≡ ack g s seq
    misses p e = rw (p, e)

    hits :
        (seq == 0) ≡ false
        → (i : ℕ) → search_group (is_leased s.id seq) g ≡ some i
        → ack_at g s i ≡ ack g s seq
    hits p i e = rw (p, e)

-- `Nack` fails as `Ack` does, and otherwise makes the message ready again where it stands.
abbrev pub NackSpec : Group → Subscription → ℕ → Nacked → Type 0
NackSpec g s seq (Nacked.failed bad_seq_no) = seq ≡ 0
NackSpec g s seq (Nacked.failed not_leased) =
    (seq ≢ 0) × (find (is_leased s.id seq) (contents g) ≡ none)
NackSpec g s seq (Nacked.nacked g' s') =
    IsValid g'
    × (seq ≢ 0)
    × ((o : Message) × (find (is_leased s.id seq) (contents g) ≡ some o))
    × (contents g' ≡ update_first (is_leased s.id seq) (hold ready zero_seq_no) (contents g))
    × (g'.n ≡ g.n)
    × (g'.closed ≡ g.closed)
    × (g'.commits ≡ g.commits)
    × (s' ≡ drop_inflight s)

nack_at-NackSpec :
    (g : Group) (s : Subscription) (seq i : ℕ)
    → IsValid g
    → seq ≢ 0
    → search_group (is_leased s.id seq) g ≡ some i
    → NackSpec g s seq (nack_at g s i)
unfolding nack_at
nack_at-NackSpec g s seq i v h e = (
  with_slot-IsValid g i (hold ready zero_seq_no (at g.messages i)) v,
  h,
  (at g.messages i, search-find (is_leased s.id seq) g i v e),
  contents-with_slot (is_leased s.id seq) (hold ready zero_seq_no) g i v e,
  refl,
  refl,
  refl,
  refl,
)

-- On a valid group, `Nack` fails on sequence number 0 and on a message that the subscription does
-- not hold; otherwise it makes the message ready again where it stands, and leaves a valid group.
pub nack-NackSpec :
    (g : Group) (s : Subscription) (seq : ℕ) → IsValid g → NackSpec g s seq (nack g s seq)
unfolding nack
nack-NackSpec g s seq v = elim (Bool-cases (seq == 0)) [
  | inl z ↦ subst (NackSpec g s seq) (refuses z) (ground arith)
  | inr p ↦ elim (Option-cases (search_group (is_leased s.id seq) g)) [
    | inl e ↦
        subst (NackSpec g s seq) (misses p e) (ground arith, search-none (is_leased s.id seq) g v e)
    | inr (i, e) ↦
        subst (NackSpec g s seq) (hits p i e) (nack_at-NackSpec g s seq i v (ground arith) e)
  ]
]
  where
    refuses : (seq == 0) ≡ true → Nacked.failed bad_seq_no ≡ nack g s seq
    refuses z = rw z

    misses :
        (seq == 0) ≡ false
        → search_group (is_leased s.id seq) g ≡ none
        → Nacked.failed not_leased ≡ nack g s seq
    misses p e = rw (p, e)

    hits :
        (seq == 0) ≡ false
        → (i : ℕ) → search_group (is_leased s.id seq) g ≡ some i
        → nack_at g s i ≡ nack g s seq
    hits p i e = rw (p, e)

pub close-IsValid : (g : Group) (s : Subscription) → IsValid g → IsValid (close g s).0
unfolding close
close-IsValid g s v = record {
  size = length-release _ s.id g.messages g.read g.write ∙ v.size;
  read_in = rw (length-release (length g.messages) s.id g.messages g.read g.write) v.read_in;
  write_in = rw (length-release (length g.messages) s.id g.messages g.read g.write) v.write_in;
}

-- On a valid group, `Close` of a subscription makes every message that it holds ready again where
-- it stands, and changes no other.
pub contents-close :
    (g : Group) (s : Subscription)
    → IsValid g
    → contents (close g s).0 ≡ map (unlease s.id) (contents g)
unfolding close
contents-close g s v =
    contents_of_Gap (unfold close in (close g s).0) (length g.messages) (count g)
      (sym (length-release _ s.id g.messages g.read g.write)) (group-Gap g v)
    ∙ window-release (length g.messages) s.id (length g.messages) g.messages g.read g.write
        (count g) refl (omega (arith, group-Gap g v)) (group-Gap g v)
    ∙ unfold contents in refl
