-- ===== src/Consumers/Accounting.antt =====
-- A subscription's own count of its messages in flight, whatever the other subscriptions do.
use eventter.Base.{ℕ, suc, ◌+◌, ◌-◌, ◌%◌, ◌^◌, ◌<◌, ◌≤◌, ◌≡◌, sym, ◌∙◌, ◌≢◌, ◌⊎◌, arith}
use eventter.Base.{true, false, [], ◌∷◌, some, find}
use eventter.Base.{count_if, count_if-append, update_first}
use eventter.Base.Counting.{count_if-le-length, find_passes, count_if-update_first}
use eventter.Consumers.Data.{
  Message, Group, Subscription, hold, ready, ack_id, zero_seq_no, is_acked, is_leased, is_ready,
  is_held,
}
use eventter.Consumers.Group.{Offered}
use eventter.Consumers.Subscription.{Received, drop_inflight}
use eventter.Consumers.Contents.{IsValid, contents, length-contents, count-le}
use eventter.Consumers.Loops.{unlease}
use eventter.Consumers.Refinement.{OfferSpec, NextSpec}

abbrev pub held : Subscription → Group → ℕ
held s g = count_if (is_held s.id) (contents g)

-- The subscription's counter is the number of messages that it holds, and within its size.
pub record Holds (g : Group) (s : Subscription) : Type 0 where
  pub valid : IsValid g
  pub small : g.n < 2 ^ 32 - 1
  pub proper : (s.id ≢ ready) × (s.id ≢ ack_id)
  pub counted : s.inflight ≡ held s g
  pub within : (s.size ≡ 0) ⊎ (s.inflight ≤ s.size)

pub held-le : (g : Group) (s : Subscription) → IsValid g → held s g ≤ g.n
held-le g s v =
    omega (arith, count_if-le-length (is_held s.id) (contents g), length-contents g, count-le g v)

pub unmoved :
    {g g' : Group} {s : Subscription}
    → Holds g s
    → IsValid g'
    → g'.n ≡ g.n
    → held s g' ≡ held s g
    → Holds g' s
unmoved {g} {g'} {s} h v n same = record {
  valid = v;
  small = rw n h.small;
  proper = h.proper;
  counted = h.counted ∙ sym same;
  within = h.within;
}

-- Another message in the queue, ready: nothing changes for the subscription.
pub offer-Holds :
    {g g' : Group} {s : Subscription} (m : Message)
    → Holds g s
    → OfferSpec g m (Offered.offered g')
    → Holds g' s
offer-Holds {g} {g'} {s} m h (v, _, after, n, _, _) = unmoved h v n same
  where
    same : held s g' ≡ held s g
    same = rw after (
        count_if-append (is_held s.id) (contents g) (hold ready zero_seq_no m ∷ [])
        ∙ ground (arith, h.proper.0))

pub receive-Holds :
    {g g' : Group} {s s' : Subscription} (m : Message)
    → Holds g s
    → NextSpec g s (Received.received g' s' m)
    → Holds g' s'
receive-Holds {g} {g'} {s} {s'} m h (v, room, (o, first, _), after, n, _, _, e) = rw e (record {
  valid = v;
  small = rw n h.small;
  proper = h.proper;
  counted = omega (arith, more, h.counted, held-le g s h.valid, h.small);
  within = ground (arith, room, h.within, h.counted, held-le g s h.valid, h.small);
})
  where
    more : held s g' ≡ suc (held s g)
    more =
        let moved =
          count_if-update_first (is_held s.id) is_ready (hold s.id ((s.seq + 1) % 2 ^ 64))
            (contents g) o first in
        let o_ready = find_passes is_ready (contents g) o first in
        rw after (ground (arith, moved, o_ready, h.proper.0))

pub receive_other-Holds :
    {g g' : Group} {s : Subscription} (t : Subscription) {t' : Subscription} (m : Message)
    → t.id ≢ s.id
    → Holds g s
    → NextSpec g t (Received.received g' t' m)
    → Holds g' s
receive_other-Holds {g} {g'} {s} t m ne h (v, room, (o, first, _), after, n, _, _, e) =
    unmoved h v n same
  where
    same : held s g' ≡ held s g
    same =
        let moved =
          count_if-update_first (is_held s.id) is_ready (hold t.id ((t.seq + 1) % 2 ^ 64))
            (contents g) o first in
        let o_ready = find_passes is_ready (contents g) o first in
        rw after (ground (arith, moved, o_ready, h.proper.0, ne))

-- An acked or nacked message is held no more: the count falls by one.
pub settled :
    {g : Group} {s : Subscription} {o : Message} (seq to : ℕ)
    → Holds g s
    → to ≢ s.id
    → find (is_leased s.id seq) (contents g) ≡ some o
    → count_if (is_held s.id) (update_first (is_leased s.id seq) (hold to zero_seq_no) (contents g))
        + 1
      ≡ held s g
settled {g} {s} {o} seq to h ne first = ground (
  arith,
  count_if-update_first (is_held s.id) (is_leased s.id seq) (hold to zero_seq_no) (contents g) o
      first,
  find_passes (is_leased s.id seq) (contents g) o first,
)

pub settled_other :
    (g : Group) (s t : Subscription) {o : Message} (seq to : ℕ)
    → t.id ≢ s.id
    → to ≢ s.id
    → find (is_leased t.id seq) (contents g) ≡ some o
    → count_if (is_held s.id) (update_first (is_leased t.id seq) (hold to zero_seq_no) (contents g))
      ≡ held s g
settled_other g s t {o} seq to ne nt first = ground (
  arith,
  count_if-update_first (is_held s.id) (is_leased t.id seq) (hold to zero_seq_no) (contents g) o
      first,
  find_passes (is_leased t.id seq) (contents g) o first,
)

pub acked_not_held :
    (id : ℕ) → id ≢ ack_id → (m : Message) → is_acked m ≡ true → is_held id m ≡ false
acked_not_held id h m e = ground arith

pub drop_inflight-Holds :
    {g g' : Group} {s : Subscription}
    → Holds g s
    → IsValid g'
    → g'.n ≡ g.n
    → held s g' + 1 ≡ held s g
    → Holds g' (drop_inflight s)
drop_inflight-Holds {g} {g'} {s} h v n less = record {
  valid = v;
  small = rw n h.small;
  proper = h.proper;
  counted = omega (arith, h.counted, held-le g s h.valid, h.small);
  within = omega (arith, h.within, h.counted, held-le g s h.valid, h.small);
}

pub unlease_other :
    (id other : ℕ)
    → id ≢ ready
    → other ≢ id
    → (m : Message) → is_held id (unlease other m) ≡ is_held id m
unlease_other id other hr ne m = ground arith
