-- ===== src/Consumers/Turns.antt =====
-- The invariant of a subscription through its own operations and those of all others.
use eventter.Base.{ℕ, ◌≡◌, refl, sym, ap, subst, ◌∙◌, ◌≢◌, ◌+◌, Bool, List}
use eventter.Base.{count_if, drop_while}
use eventter.Base.Counting.{count_if-drop_while, count_if-map}
use eventter.Consumers.Data.{Message, Group, Subscription, Commit, ready, ack_id, is_acked, is_held}
use eventter.Consumers.Group.{Offered, offer_locked, close_group}
use eventter.Consumers.Subscription.{
  Received, next_locked, Acked, ack, Nacked, nack, close, set_max_messages, set_blocking,
}
use eventter.Consumers.Contents.{contents, count}
use eventter.Consumers.Loops.{unlease}
use eventter.Consumers.Refinement.{
  OfferSpec, offer_locked-OfferSpec, NextSpec, next_locked-NextSpec,
}
use eventter.Consumers.Settling.{
  marked, AckSpec, ack-AckSpec, NackSpec, nack-NackSpec, close-IsValid, contents-close,
}
use eventter.Consumers.Accounting.{
  Holds, held, offer-Holds, receive-Holds, receive_other-Holds, settled, settled_other,
  acked_not_held, drop_inflight-Holds, unmoved, unlease_other,
}

-- One operation as the subscription `s` sees it: its own, or that of another one, `t`.
pub data Turn (g : Group) (s : Subscription) (g' : Group) (s' : Subscription) : Type 0 where
  offers : (m : Message) → offer_locked g m ≡ Offered.offered g' → s' ≡ s → Turn g s g' s'
  receives : (m : Message) → next_locked g s ≡ Received.received g' s' m → Turn g s g' s'
  other_receives :
      (t t' : Subscription) (m : Message)
      → t.id ≢ s.id
      → next_locked g t ≡ Received.received g' t' m
      → s' ≡ s
      → Turn g s g' s'
  acks : (seq : ℕ) (sent : List Commit) → ack g s seq ≡ Acked.acked g' s' sent → Turn g s g' s'
  other_acks :
      (t t' : Subscription) (seq : ℕ) (sent : List Commit)
      → t.id ≢ s.id
      → ack g t seq ≡ Acked.acked g' t' sent
      → s' ≡ s
      → Turn g s g' s'
  nacks : (seq : ℕ) → nack g s seq ≡ Nacked.nacked g' s' → Turn g s g' s'
  other_nacks :
      (t t' : Subscription) (seq : ℕ)
      → t.id ≢ s.id
      → nack g t seq ≡ Nacked.nacked g' t'
      → s' ≡ s
      → Turn g s g' s'
  other_closes : (t : Subscription) → t.id ≢ s.id → g' ≡ (close g t).0 → s' ≡ s → Turn g s g' s'
  sets_max_messages : (k : ℕ) → g' ≡ g → s' ≡ set_max_messages s k → Turn g s g' s'
  sets_blocking : (b : Bool) → g' ≡ g → s' ≡ set_blocking s b → Turn g s g' s'
  group_closes : g' ≡ close_group g → s' ≡ s → Turn g s g' s'

swept_held :
    (g g' : Group) (s t : Subscription) (seq : ℕ)
    → Holds g s
    → contents g' ≡ drop_while is_acked (marked g t seq)
    → held s g' ≡ count_if (is_held s.id) (marked g t seq)
swept_held g g' s t seq h after =
    ap (count_if (is_held s.id)) after
    ∙ count_if-drop_while (is_held s.id) is_acked (acked_not_held s.id h.proper.1) (marked g t seq)

ack-Holds :
    {g g' : Group} {s s' : Subscription} (seq : ℕ) (sent : List Commit)
    → Holds g s
    → AckSpec g s seq (Acked.acked g' s' sent)
    → Holds g' s'
ack-Holds {g} {g'} {s} {s'} seq sent h (v, _, (o, first), after, _, n, _, _, e) = rw e (
    drop_inflight-Holds h v n (
      ap (λ k. k + 1) (swept_held g g' s s seq h after)
      ∙ settled seq ack_id h (λ z. h.proper.1 (sym z)) first))

ack_other-Holds :
    {g g' : Group} {s : Subscription} (t t' : Subscription) (seq : ℕ) (sent : List Commit)
    → t.id ≢ s.id
    → Holds g s
    → AckSpec g t seq (Acked.acked g' t' sent)
    → Holds g' s
ack_other-Holds {g} {g'} {s} t t' seq sent ne h (v, _, (o, first), after, _, n, _, _, e) =
    unmoved h v n (
      swept_held g g' s t seq h after
      ∙ settled_other g s t seq ack_id ne (λ z. h.proper.1 (sym z)) first)

nack-Holds :
    {g g' : Group} {s s' : Subscription} (seq : ℕ)
    → Holds g s
    → NackSpec g s seq (Nacked.nacked g' s')
    → Holds g' s'
nack-Holds {g} {g'} {s} {s'} seq h (v, _, (o, first), after, n, _, _, e) = rw e (
    drop_inflight-Holds h v n (
      ap (λ l. count_if (is_held s.id) l + 1) after
      ∙ settled seq ready h (λ z. h.proper.0 (sym z)) first))

nack_other-Holds :
    {g g' : Group} {s : Subscription} (t t' : Subscription) (seq : ℕ)
    → t.id ≢ s.id
    → Holds g s
    → NackSpec g t seq (Nacked.nacked g' t')
    → Holds g' s
nack_other-Holds {g} {g'} {s} t t' seq ne h (v, _, (o, first), after, n, _, _, e) = unmoved h v n (
    ap (count_if (is_held s.id)) after
    ∙ settled_other g s t seq ready ne (λ z. h.proper.0 (sym z)) first)

close_other-Holds :
    (g : Group) (s t : Subscription) → t.id ≢ s.id → Holds g s → Holds (close g t).0 s
close_other-Holds g s t ne h = unmoved h (close-IsValid g t h.valid) (unfold close in refl) (
    ap (count_if (is_held s.id)) (contents-close g t h.valid)
    ∙ count_if-map (is_held s.id) (unlease t.id) (unlease_other s.id t.id h.proper.0 ne)
        (contents g))

close_group-Holds : (g : Group) (s : Subscription) → Holds g s → Holds (close_group g) s
unfolding close_group
close_group-Holds g s h =
    let v = h.valid in
    unmoved h (record { size = v.size; read_in = v.read_in; write_in = v.write_in }) refl
      (unfold contents count in refl)

set_max_messages-Holds :
    (g : Group) (s : Subscription) (k : ℕ) → Holds g s → Holds g (set_max_messages s k)
unfolding set_max_messages
set_max_messages-Holds g s k h = record {
  valid = h.valid;
  small = h.small;
  proper = h.proper;
  counted = h.counted;
  within = h.within;
}

set_blocking-Holds :
    (g : Group) (s : Subscription) (b : Bool) → Holds g s → Holds g (set_blocking s b)
unfolding set_blocking
set_blocking-Holds g s b h = record {
  valid = h.valid;
  small = h.small;
  proper = h.proper;
  counted = h.counted;
  within = h.within;
}

-- When `Offer`, `Next`, `Ack` or `Nack` of a subscription or of another, its `SetMaxMessages` or
-- `SetBlocking`, `Close` of another or `Close` of the group goes through, a subscription for which
-- `Holds` stays so: its `inflight` is the number of messages leased to it, and not above its size
-- where it has one.
pub Turn-Holds : {g g' : Group} {s s' : Subscription} → Holds g s → Turn g s g' s' → Holds g' s'
Turn-Holds {g} {g'} {s} h (offers m e es) =
    rw es (offer-Holds m h (subst (OfferSpec g m) e (offer_locked-OfferSpec g m h.valid)))
Turn-Holds {g} {g'} {s} h (receives m e) =
    receive-Holds m h (subst (NextSpec g s) e (next_locked-NextSpec g s h.valid))
Turn-Holds {g} {g'} {s} h (other_receives t t' m ne e es) =
    rw es (receive_other-Holds t m ne h (subst (NextSpec g t) e (next_locked-NextSpec g t h.valid)))
Turn-Holds {g} {g'} {s} h (acks seq sent e) =
    ack-Holds seq sent h (subst (AckSpec g s seq) e (ack-AckSpec g s seq h.valid))
Turn-Holds {g} {g'} {s} h (other_acks t t' seq sent ne e es) =
    rw es
      (ack_other-Holds t t' seq sent ne h (subst (AckSpec g t seq) e (ack-AckSpec g t seq h.valid)))
Turn-Holds {g} {g'} {s} h (nacks seq e) =
    nack-Holds seq h (subst (NackSpec g s seq) e (nack-NackSpec g s seq h.valid))
Turn-Holds {g} {g'} {s} h (other_nacks t t' seq ne e es) =
    rw es
      (nack_other-Holds t t' seq ne h (subst (NackSpec g t seq) e (nack-NackSpec g t seq h.valid)))
Turn-Holds {g} {g'} {s} h (other_closes t ne e es) = rw (es, e) (close_other-Holds g s t ne h)
Turn-Holds {g} {g'} {s} h (sets_max_messages k e es) = rw (es, e) (set_max_messages-Holds g s k h)
Turn-Holds {g} {g'} {s} h (sets_blocking b e es) = rw (es, e) (set_blocking-Holds g s b h)
Turn-Holds {g} {g'} {s} h (group_closes e es) = rw (es, e) (close_group-Holds g s h)
