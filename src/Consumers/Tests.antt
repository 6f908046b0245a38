-- ===== src/Consumers/Tests.antt =====
-- The theorems on consumers at a group of two messages, one of them leased, whose contents run over
-- the end of the slice, and at what becomes of it.
use eventter.Base.{ℕ, ◌+◌, ◌≡◌, ◌⊎◌, refl, arith, inr, Bool, ◌==◌, count_if}
use eventter.Base.{true, false, List, [], ◌∷◌, ◌++◌, map}
use eventter.Base.Int.{pos}
use eventter.Consumers.Data.{
  Message, zero_message, hold, ready, zero_seq_no, Group, Subscription, Commit, commit_of,
}
use eventter.Consumers.Group.{offer, close_group}
use eventter.Consumers.Subscription.{
  next_locked, lease, Error, ack, ack_at, nack, close, Received, Acked, scan, sweep,
}
use eventter.Consumers.Contents.{IsValid, contents, count}
use eventter.Consumers.Window.{window}
use eventter.Consumers.Loops.{unlease}
use eventter.Consumers.Refinement.{OpenOfferSpec, offer-OfferSpec, NextSpec, next_locked-NextSpec}
use eventter.Consumers.Settling.{AckSpec, ack-AckSpec, NackSpec, nack-NackSpec, contents-close}
use eventter.Consumers.History.{Run, more, sends, count_pending, Run-commits}
use eventter.Consumers.Steps.{receives, acks}
use eventter.Consumers.Accounting.{Holds}
use eventter.Consumers.Turns.{Turn, Turn-Holds}
use eventter.Consumers.Closing.{next_locked-close_leases, ack-next_locked}
use eventter.Consumers.Stuck.{Turns, then_turn, Turns-next_locked}

abbrev message : ℕ → Message
message k = record {
  topic_namespace = "default";
  topic_name = "orders";
  segment_id = 7;
  commit_offset = pos k;
  time = pos k;
  message = k;
  subscription_id = ready;
  seq_no = zero_seq_no;
}

-- Message 1 stands at the last slot, leased to subscription 3; message 2, behind it, at the first.
abbrev queued : Group
queued = record {
  n = 2;
  messages = message 2 ∷ zero_message ∷ hold 3 1 (message 1) ∷ [];
  read = 2;
  write = 1;
  closed = false;
  commits = true;
}

abbrev reader : Subscription
reader = record {
  id = 3;
  size = 2;
  inflight = 1;
  max_messages = 0;
  blocking = true;
  closed = false;
  seq = 1;
}

queued-IsValid : IsValid queued
queued-IsValid = record { size = refl; read_in = omega arith; write_in = omega arith }

queued-contents : contents queued ≡ hold 3 1 (message 1) ∷ message 2 ∷ []
unfolding contents count window
queued-contents = refl

offer-OfferSpec_example : OpenOfferSpec queued (message 3) (offer queued (message 3))
offer-OfferSpec_example = offer-OfferSpec queued (message 3) queued-IsValid

next_locked-NextSpec_example : NextSpec queued reader (next_locked queued reader)
next_locked-NextSpec_example = next_locked-NextSpec queued reader queued-IsValid

ack-AckSpec_example : AckSpec queued reader 1 (ack queued reader 1)
ack-AckSpec_example = ack-AckSpec queued reader 1 queued-IsValid

nack-NackSpec_example : NackSpec queued reader 1 (nack queued reader 1)
nack-NackSpec_example = nack-NackSpec queued reader 1 queued-IsValid

contents-close_example : contents (close queued reader).0 ≡ map (unlease 3) (contents queued)
contents-close_example = contents-close queued reader queued-IsValid

-- The second message handed out as well.
abbrev handed_out : Group
handed_out = record queued {
  messages = hold 3 2 (message 2) ∷ zero_message ∷ hold 3 1 (message 1) ∷ [];
}

abbrev busy : Subscription
busy = record reader { seq = 2; inflight = 2 }

queued_next : next_locked queued reader ≡ Received.received handed_out busy (hold 3 2 (message 2))
unfolding next_locked lease scan
queued_next = refl

-- The first message acknowledged: its commit is collected, and its slot is free.
abbrev swept : Group
swept = record handed_out {
  messages = hold 3 2 (message 2) ∷ zero_message ∷ zero_message ∷ [];
  read = 0;
}

abbrev less_busy : Subscription
less_busy = record busy { inflight = 1 }

handed_out-ack : ack handed_out busy 1 ≡ Acked.acked swept less_busy (commit_of (message 1) ∷ [])
unfolding ack ack_at scan sweep
handed_out-ack = refl

-- And then it is sent.
queued-Run :
    Run queued swept ([] ∷ [] ∷ []) (commit_of (message 1) ∷ []) (commit_of (message 1) ∷ []) []
queued-Run = sends ([] ∷ []) [] (commit_of (message 1)) [] (
    more (more Run.start (receives reader busy (hold 3 2 (message 2)) queued_next refl refl))
      (acks busy less_busy 1 handed_out-ack refl))

abbrev of_segment : Commit → Bool
of_segment c = c.segment_id == (commit_of (message 1)).segment_id

Run-commits_example :
    ((dropped : List Commit) × ((commit_of (message 1) ∷ [])
          ++ (dropped ++ map commit_of (contents swept))
        ≡ map commit_of (contents queued) ++ [])
      × ((true ≡ false) ⊎ (dropped ≡ [])))
    × (count_if of_segment (commit_of (message 1) ∷ []) + count_pending of_segment ([] ∷ [] ∷ [])
        ≡ count_if of_segment (commit_of (message 1) ∷ []))
Run-commits_example = Run-commits of_segment queued-IsValid queued-Run

queued-Holds : Holds queued reader
queued-Holds = record {
  valid = queued-IsValid;
  small = omega arith;
  proper = (ground arith, ground arith);
  counted = unfold contents count window in refl;
  within = inr (omega arith);
}

Turn-Holds_example : Holds handed_out busy
Turn-Holds_example = Turn-Holds queued-Holds (Turn.receives (hold 3 2 (message 2)) queued_next)

ack-next_locked_example :
    (h : Group) × (t : Subscription) × (sent : List Commit) × (ack handed_out busy 2
      ≡ Acked.acked h t sent)
ack-next_locked_example =
    ack-next_locked queued handed_out reader busy (hold 3 2 (message 2)) queued-IsValid
      (omega arith) queued_next

handed_out-Holds : Holds handed_out busy
handed_out-Holds = Turn-Holds queued-Holds (Turn.receives (hold 3 2 (message 2)) queued_next)

-- Subscription 3 is full and is closed; the group is closed behind it.
Turns-next_locked_example :
    ((close handed_out busy).1.closed ≡ true)
    × (next_locked (close_group (close handed_out busy).0) (close handed_out busy).1
        ≡ Received.wait)
    × ((e : Error) × (ack (close_group (close handed_out busy).0) (close handed_out busy).1 1
          ≡ Acked.failed e))
Turns-next_locked_example =
    Turns-next_locked 1 handed_out-Holds (ground arith) (omega arith)
      (then_turn Turns.start (Turn.group_closes refl refl))

next_locked-close_leases_example :
    (g' : Group) × (s' : Subscription) × (m : Message) × (next_locked
        (close queued reader).0
        (close queued reader).1
      ≡ Received.received g' s' m)
    × (s'.closed ≡ true)
    × (m.subscription_id ≡ 3)
next_locked-close_leases_example =
    next_locked-close_leases queued reader (hold 3 1 (message 1)) queued-IsValid refl
      (unfold contents count window in refl)
