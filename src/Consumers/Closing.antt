-- ===== src/Consumers/Closing.antt =====
-- What a `Next` that is waiting does once its subscription is closed, and that what it hands out
-- can be acknowledged.
use eventter.Base.{ℕ, ◌+◌, ◌%◌, ◌^◌, ◌<◌, ◌≡◌, refl, ap, subst, ◌∙◌, ◌≢◌, arith}
use eventter.Base.{true, List, [], ◌∷◌, map, some, find, Bool-cases, inl, inr}
use eventter.Base.{count_if, update_first}
use eventter.Base.Counting.{find-update_first, find_of_pos}
use eventter.Consumers.Data.{
  Message, Group, Subscription, Commit, hold, is_ready, is_held, is_leased,
}
use eventter.Consumers.Subscription.{
  Received, next_locked, has_room, close, Acked, ack, bad_seq_no, not_leased,
}
use eventter.Consumers.Loops.{unlease}
use eventter.Consumers.Contents.{IsValid, contents}
use eventter.Consumers.Refinement.{NextSpec, next_locked-NextSpec}
use eventter.Consumers.Settling.{close-IsValid, contents-close, AckSpec, ack-AckSpec}

find-unlease :
    (id : ℕ) (ms : List Message) {m : Message}
    → find (is_held id) ms ≡ some m
    → (o : Message) × (find is_ready (map (unlease id) ms) ≡ some o)
find-unlease id [] e = cc
find-unlease id (x ∷ ms) {m = m} e = elim (Bool-cases (is_ready (unlease id x))) [
  | inl r ↦ (unlease id x, rw r)
  | inr r ↦ rw r (find-unlease id ms {m = m} (ground arith))
]

-- With room, and a ready message, no answer but a message fits.
must_receive :
    (g : Group) (s : Subscription) (o : Message) (r : Received)
    → has_room s ≡ true
    → find is_ready (contents g) ≡ some o
    → NextSpec g s r
    → (g' : Group) × (s' : Subscription) × (m : Message) × (r ≡ Received.received g' s' m)
must_receive g s o Received.subscription_closed room e (_, _, n) = cc
must_receive g s o Received.group_closed room e (_, _, _, n) = cc
must_receive g s o Received.empty room e (_, inl full, _) = absurd (ground (arith, room, full))
must_receive g s o Received.empty room e (_, inr (n, _, _), _) = cc
must_receive g s o Received.wait room e (inl full, _) = absurd (ground (arith, room, full))
must_receive g s o Received.wait room e (inr (n, _, _), _) = cc
must_receive g s o (Received.received g' s' m) room e spec = (g', s', m, refl)

must_ack :
    (g : Group) (s : Subscription) (seq : ℕ) (o : Message) (r : Acked)
    → seq ≢ 0
    → find (is_leased s.id seq) (contents g) ≡ some o
    → AckSpec g s seq r
    → (h : Group) × (t : Subscription) × (sent : List Commit) × (r ≡ Acked.acked h t sent)
must_ack g s seq o (Acked.failed bad_seq_no) p e z = absurd (p z)
must_ack g s seq o (Acked.failed not_leased) p e (_, n) = cc
must_ack g s seq o (Acked.acked h t sent) p e spec = (h, t, sent, refl)

-- On a valid group, for a subscription with room that holds a message, `Next` under the lock right
-- after `Close` hands out a message, leased to the closed subscription.
pub next_locked-close_leases :
    (g : Group) (s : Subscription) (o : Message)
    → IsValid g
    → has_room s ≡ true
    → find (is_held s.id) (contents g) ≡ some o
    → (g' : Group) × (s' : Subscription) × (m : Message) × (next_locked (close g s).0 (close g s).1
        ≡ Received.received g' s' m)
      × (s'.closed ≡ true)
      × (m.subscription_id ≡ s.id)
next_locked-close_leases g s o v room e =
    let (p, found) = find-unlease s.id (contents g) e in
    let v' = close-IsValid g s v in
    let (g', s', m, r) =
      must_receive (close g s).0 (close g s).1 p (next_locked (close g s).0 (close g s).1)
        (unfold close in room) (ap (find is_ready) (contents-close g s v) ∙ found)
        (next_locked-NextSpec (close g s).0 (close g s).1 v') in
    let (_, _, (q, _, held), _, _, _, _, after) =
      subst (NextSpec (close g s).0 (close g s).1) r
        (next_locked-NextSpec (close g s).0 (close g s).1 v') in
    (g', s', m, r, unfold close in cc after, unfold close in cc held)

-- On a valid group, what `Next` hands out can be acknowledged at once under the sequence number
-- that it bears, while the counter of sequence numbers does not wrap.
pub ack-next_locked :
    (g g' : Group) (s s' : Subscription) (m : Message)
    → IsValid g
    → s.seq + 1 < 2 ^ 64
    → next_locked g s ≡ Received.received g' s' m
    → (h : Group) × (t : Subscription) × (sent : List Commit) × (ack g' s' m.seq_no
        ≡ Acked.acked h t sent)
ack-next_locked g g' s s' m v wide e =
    let (v', _, (o, first, held), after, _, _, _, es) =
      subst (NextSpec g s) e (next_locked-NextSpec g s v) in
    let q : ℕ = (s.seq + 1) % 2 ^ 64 in
    let same : m.seq_no ≡ q = ap (λ (x : Message). x.seq_no) held in
    let here : 0 < count_if (is_leased s.id q) (update_first is_ready (hold s.id q) (contents g)) =
      find-update_first is_ready (is_leased s.id q) (hold s.id q) (contents g) o first
        (ground arith) in
    let (p, leased) = find_of_pos (is_leased s.id q) _ here in
    must_ack g' s' m.seq_no p (ack g' s' m.seq_no) (omega (arith, same))
      (cc (after, es, held, leased)) (ack-AckSpec g' s' m.seq_no v')
