-- ===== src/Consumers/Group.antt =====
-- mq/consumers/group.go. An operation that blocks is its locked region as one step, which answers
-- `wait` where the code calls `cond.Wait`: the goroutine then runs the region again, on the group
-- as others have left it. `n` is an int that the check `n < 1` has passed.
use eventter.Base.{ℕ, ◌+◌, ◌%◌, ◌^◌, Bool, true, false, Option, none, some}
use eventter.Base.{◌==◌, ltb, if◌then◌else◌, length, set, replicate}
use eventter.Consumers.Data.{Message, zero_message, ready, zero_seq_no, hold, Group, Subscription}

-- `NewGroup`: `none` for "n must be positive".
unfoldable pub new_group : ℕ → Option Group
new_group n =
    if ltb n 1
    then none
    else some (record {
      n = n;
      messages = replicate (n + 1) zero_message;
      read = 0;
      write = 0;
      closed = false;
      commits = false;
    })

pub data Offered : Type 0 where
  group_closed wait : Offered
  offered : Group → Offered

-- `(g.write + 1) % len(g.messages) == g.read`
abbrev pub is_full : Group → Bool
is_full g = (g.write + 1) % length g.messages == g.read

-- The four assignments to the slot at `write` and to `write`.
unfoldable pub put : Group → Message → Group
put g m = record g {
  messages = set g.messages g.write (hold ready zero_seq_no m);
  write = (g.write + 1) % length g.messages;
}

-- `Offer` from `g.mutex.Lock()` on: the loop's test, and what follows the loop.
unfoldable pub offer_locked : Group → Message → Offered
offer_locked g m =
    if is_full g then (if g.closed then group_closed else wait) else offered (put g m)

-- `Offer`, where nothing comes between the first test and the lock.
unfoldable pub offer : Group → Message → Offered
offer g m = if g.closed then group_closed else offer_locked g m

-- `Subscribe`: `current` is `currentSubscriptionID`, which it also leaves.
unfoldable pub subscribe : ℕ → Subscription × ℕ
subscribe current =
    let id = (current + 1) % 2 ^ 64 in
    (
      record {
        id = id;
        size = 0;
        inflight = 0;
        max_messages = 0;
        blocking = true;
        closed = false;
        seq = 0;
      },
      id,
    )

-- `Close`
unfoldable pub close_group : Group → Group
close_group g = record g { closed = true; commits = false }
