-- ===== src/Consumers/Stuck.antt =====
-- A `Next` that is waiting on a full subscription when it is closed: what may still happen.
use eventter.Base.{
  ℕ, ◌≤◌, ◌≡◌, ◌≢◌, refl, sym, ap, subst, ◌∙◌, inl, inr, arith, Bool, true, List, [], ◌∷◌,
}
use eventter.Base.{map, some, find, count_if, Bool-cases}
use eventter.Consumers.Data.{Message, Group, Subscription, ready, is_held, is_leased}
use eventter.Consumers.Subscription.{
  Received, next_locked, Acked, ack, close, set_max_messages, set_blocking, Error,
}
use eventter.Consumers.Contents.{contents}
use eventter.Consumers.Loops.{unlease}
use eventter.Consumers.Refinement.{HasRoom, NextSpec, next_locked-NextSpec}
use eventter.Consumers.Settling.{
  AckSpec, ack-AckSpec, NackSpec, nack-NackSpec, close-IsValid, contents-close,
}
use eventter.Consumers.Accounting.{Holds}
use eventter.Consumers.Turns.{
  Turn, offers, receives, other_receives, acks, other_acks, nacks, other_nacks, other_closes,
  sets_max_messages, sets_blocking, group_closes, Turn-Holds,
}

-- The subscription as if it had nothing in flight and no size: what counts is what it holds.
abbrev relaxed : Subscription → Subscription
relaxed s = record s { inflight = 0; size = 0 }

-- Closed, holding nothing, and yet full.
record IsStuck (g : Group) (s : Subscription) : Type 0 where
  holds_nothing : Holds g (relaxed s)
  closed : s.closed ≡ true
  sized : s.size ≢ 0
  full : s.size ≤ s.inflight

unleased_none :
    (id : ℕ) (ms : List Message) → id ≢ ready → count_if (is_held id) (map (unlease id) ms) ≡ 0
unleased_none id [] ne = refl
unleased_none id (m ∷ ms) ne = ground (arith, unleased_none id ms ne)

close-IsStuck :
    (g : Group) (s : Subscription)
    → Holds g s
    → s.size ≢ 0
    → s.size ≤ s.inflight
    → IsStuck (close g s).0 (close g s).1
close-IsStuck g s h sized full = record {
  holds_nothing = record {
    valid = close-IsValid g s h.valid;
    small = unfold close in h.small;
    proper = unfold close in h.proper;
    counted = sym (
        unfold close in
        ap (count_if (is_held s.id)) (contents-close g s h.valid)
        ∙ unleased_none s.id (contents g) h.proper.0);
    within = inl refl;
  };
  closed = unfold close in refl;
  sized = unfold close in sized;
  full = unfold close in full;
}

leased_held :
    (id seq : ℕ) (ms : List Message) (o : Message)
    → find (is_leased id seq) ms ≡ some o
    → count_if (is_held id) ms ≢ 0
leased_held id seq [] o e = cc
leased_held id seq (m ∷ ms) o e = elim (Bool-cases (is_leased id seq m)) [
  | inl y ↦ λ z. ground (arith, y, z)
  | inr n ↦
      let rest = leased_held id seq ms o (ground (arith, e, n)) in λ z. rest (ground (arith, z))
]

nothing_leased :
    {g : Group} {s : Subscription}
    → IsStuck g s
    → (seq : ℕ) (o : Message) → find (is_leased s.id seq) (contents g) ≢ some o
nothing_leased {g} {s} h seq o e =
    leased_held s.id seq (contents g) o e (sym h.holds_nothing.counted)

no_room : {g : Group} {s : Subscription} → IsStuck g s → HasRoom s → ⊥
no_room {g} {s} h room = ground (arith, h.sized, h.full, room)

moved :
    {g g' : Group} {s : Subscription}
    → IsStuck g s
    → Turn g (relaxed s) g' (relaxed s)
    → IsStuck g' s
moved h t = record {
  holds_nothing = Turn-Holds h.holds_nothing t;
  closed = h.closed;
  sized = h.sized;
  full = h.full;
}

set_max_messages-IsStuck :
    (g : Group) (s : Subscription) (k : ℕ) → IsStuck g s → IsStuck g (set_max_messages s k)
unfolding set_max_messages
set_max_messages-IsStuck g s k h = record {
  holds_nothing = Turn-Holds h.holds_nothing (sets_max_messages k refl refl);
  closed = h.closed;
  sized = h.sized;
  full = h.full;
}

set_blocking-IsStuck :
    (g : Group) (s : Subscription) (k : Bool) → IsStuck g s → IsStuck g (set_blocking s k)
unfolding set_blocking
set_blocking-IsStuck g s k h = record {
  holds_nothing = Turn-Holds h.holds_nothing (sets_blocking k refl refl);
  closed = h.closed;
  sized = h.sized;
  full = h.full;
}

Turn-IsStuck : {g g' : Group} {s s' : Subscription} → IsStuck g s → Turn g s g' s' → IsStuck g' s'
Turn-IsStuck h (offers m e es) = rw es (moved h (offers m e refl))
Turn-IsStuck {g} {g'} {s} h (receives m e) =
    let (_, room, _, _, _, _, _, _) =
      subst (NextSpec g s) e (next_locked-NextSpec g s h.holds_nothing.valid) in
    absurd (no_room h room)
Turn-IsStuck h (other_receives t t' m ne e es) = rw es (moved h (other_receives t t' m ne e refl))
Turn-IsStuck {g} {g'} {s} h (acks seq sent e) =
    let (_, _, (o, first), _, _, _, _, _, _) =
      subst (AckSpec g s seq) e (ack-AckSpec g s seq h.holds_nothing.valid) in
    absurd (nothing_leased h seq o first)
Turn-IsStuck h (other_acks t t' seq sent ne e es) =
    rw es (moved h (other_acks t t' seq sent ne e refl))
Turn-IsStuck {g} {g'} {s} h (nacks seq e) =
    let (_, _, (o, first), _, _, _, _, _) =
      subst (NackSpec g s seq) e (nack-NackSpec g s seq h.holds_nothing.valid) in
    absurd (nothing_leased h seq o first)
Turn-IsStuck h (other_nacks t t' seq ne e es) = rw es (moved h (other_nacks t t' seq ne e refl))
Turn-IsStuck h (other_closes t ne e es) = rw es (moved h (other_closes t ne e refl))
Turn-IsStuck {g} {g'} {s} h (sets_max_messages k e es) =
    rw (es, e) (set_max_messages-IsStuck g s k h)
Turn-IsStuck {g} {g'} {s} h (sets_blocking b e es) = rw (es, e) (set_blocking-IsStuck g s b h)
Turn-IsStuck h (group_closes e es) = rw es (moved h (group_closes e refl))

-- Any number of turns.
pub data Turns (g : Group) (s : Subscription) : Group → Subscription → Type 0 where
  start : Turns g s g s
  then_turn : {h k : Group} {t u : Subscription} → Turns g s h t → Turn h t k u → Turns g s k u

Turns-IsStuck :
    {g : Group} {s : Subscription} {g' : Group} {s' : Subscription}
    → IsStuck g s
    → Turns g s g' s'
    → IsStuck g' s'
Turns-IsStuck h start = h
Turns-IsStuck h (then_turn r t) = Turn-IsStuck (Turns-IsStuck h r) t

no_ack :
    {g : Group} {s : Subscription} (seq : ℕ) (r : Acked)
    → IsStuck g s
    → AckSpec g s seq r
    → (e : Error) × (r ≡ Acked.failed e)
no_ack seq (Acked.failed x) h spec = (x, refl)
no_ack seq (Acked.acked g' s' sent) h (_, _, (o, first), _, _, _, _, _, _) =
    absurd (nothing_leased h seq o first)

stuck_waits : {g : Group} {s : Subscription} → IsStuck g s → next_locked g s ≡ Received.wait
unfolding next_locked
stuck_waits {g} {s} h = ground (arith, h.sized, h.full)

-- Where a subscription with a size, for which `Holds`, is closed while the size is reached, then
-- behind any number of turns, `Offer`, `Next`, `Ack` and `Nack` of it or of another, its
-- `SetMaxMessages` and `SetBlocking`, `Close` of another and `Close` of the group, it is closed,
-- its `Next` under the lock waits, and its `Ack` fails under any sequence number.
pub Turns-next_locked :
    {g g' : Group} {s s' : Subscription} (seq : ℕ)
    → Holds g s
    → s.size ≢ 0
    → s.size ≤ s.inflight
    → Turns (close g s).0 (close g s).1 g' s'
    → (s'.closed ≡ true)
      × (next_locked g' s' ≡ Received.wait)
      × ((e : Error) × (ack g' s' seq ≡ Acked.failed e))
Turns-next_locked {g} {g'} {s} {s'} seq h sized full r =
    let stuck : IsStuck g' s' = Turns-IsStuck (close-IsStuck g s h sized full) r in
    (
      stuck.closed,
      stuck_waits stuck,
      no_ack seq (ack g' s' seq) stuck (ack-AckSpec g' s' seq stuck.holds_nothing.valid),
    )
