-- ===== src/Consumers/Subscription.antt =====
-- mq/consumers/subscription.go. `messages` is shared, so an operation takes the group and the
-- subscription and returns both. The loops run from `read` to `write` round the slice; each takes
-- `length messages` rounds of fuel, and `read` reaches `write` sooner. A slot outside the slice
-- reads as the zero message: the code would panic there, and its indices stay inside.
use eventter.Base.{ℕ, zero, suc, ◌+◌, ◌-◌, ◌%◌, ◌^◌, Bool, true, ◌&&◌, ◌||◌, not}
use eventter.Base.{List, [], ◌∷◌, Option, none, some}
use eventter.Base.{◌==◌, ltb, leb, if◌then◌else◌, length, set, get_or}
use eventter.Consumers.Data.{Message, Commit, zero_message, ready, ack_id, zero_seq_no, hold}
use eventter.Consumers.Data.{Group, Subscription, is_ready, is_acked, is_held, is_leased, commit_of}

abbrev pub at : List Message → ℕ → Message
at ms j = get_or ms j zero_message

-- `for j := read; j != write; j = (j + 1) % len(messages) { if p { i = j; break } }`; `none` is -1.
unfoldable pub scan : ℕ → (Message → Bool) → List Message → ℕ → ℕ → Option ℕ
scan zero p ms j w = none
scan (suc fuel) p ms j w =
    let rest = scan fuel p ms ((j + 1) % length ms) w in
    if j == w then none else if p (at ms j) then some j else rest

abbrev pub search_group : (Message → Bool) → Group → Option ℕ
search_group p g = scan (length g.messages) p g.messages g.read g.write

-- `SetSize`, `SetMaxMessages`, `SetBlocking`
unfoldable pub set_size : Subscription → ℕ → Subscription
set_size s size = record s { size = size }

unfoldable pub set_max_messages : Subscription → ℕ → Subscription
set_max_messages s max_messages = record s { max_messages = max_messages }

unfoldable pub set_blocking : Subscription → Bool → Subscription
set_blocking s blocking = record s { blocking = blocking }

-- What `Next` returns; `wait` is `cond.Wait`.
pub data Received : Type 0 where
  subscription_closed group_closed empty wait : Received
  received : Group → Subscription → Message → Received

-- `(s.size == 0 || s.inflight < s.size) && (s.maxMessages == 0 || s.seq < s.maxMessages)`
abbrev pub has_room : Subscription → Bool
has_room s =
    (s.size == 0 || ltb s.inflight s.size) && (s.max_messages == 0 || ltb s.seq s.max_messages)

-- The assignments behind the loop, at the slot `i` that it found.
unfoldable pub lease : Group → Subscription → ℕ → Received
lease g s i =
    let seq = (s.seq + 1) % 2 ^ 64 in
    let m = hold s.id seq (at g.messages i) in
    received (record g { messages = set g.messages i m })
      (record s { seq = seq; inflight = (s.inflight + 1) % 2 ^ 32 }) m

-- `s.inflight == 0 && (!s.blocking || (s.maxMessages != 0 && s.seq >= s.maxMessages))`
abbrev pub gives_up : Subscription → Bool
gives_up s =
    s.inflight == 0 && (not s.blocking || (not (s.max_messages == 0) && leb s.max_messages s.seq))

-- The test before `cond.Wait`.
unfoldable pub empty_or_wait : Subscription → Received
empty_or_wait s = if gives_up s then empty else wait

unfoldable pub none_ready : Group → Subscription → Received
unfolding empty_or_wait
none_ready g s =
    if s.closed
    then subscription_closed
    else if g.read == g.write && g.closed
    then group_closed
    else empty_or_wait s

-- `Next` from `s.group.mutex.Lock()` on: one round of its loop, and what follows the loop.
unfoldable pub next_locked : Group → Subscription → Received
unfolding lease none_ready empty_or_wait
next_locked g s =
    if has_room s
    then elim (search_group is_ready g) [ none ↦ none_ready g s | some i ↦ lease g s i ]
    else empty_or_wait s

-- `Next`, where nothing comes between the first test and the lock.
unfoldable pub next : Group → Subscription → Received
next g s = if s.closed then subscription_closed else next_locked g s

pub data Error : Type 0 where
  bad_seq_no not_leased : Error

-- What `Ack` returns: an error, or the group and the subscription at its unlock, with the commits that
-- it has collected, which it sends behind the unlock, one by one.
pub data Acked : Type 0 where
  failed : Error → Acked
  acked : Group → Subscription → List Commit → Acked

-- The loop over the acked messages from `read` on: the slots, the new `read` and the commits.
unfoldable pub sweep : ℕ → Bool → List Message → ℕ → ℕ → List Message × ℕ × List Commit
sweep zero c ms j w = (ms, j, [])
sweep (suc fuel) c ms j w =
    let rest = sweep fuel c (set ms j zero_message) ((j + 1) % length ms) w in
    let (ms', j', commits) = rest in
    if not (j == w) && is_acked (at ms j)
    then (ms', j', if c then commit_of (at ms j) ∷ commits else commits)
    else (ms, j, [])

-- `s.inflight--` on a uint32
abbrev pub drop_inflight : Subscription → Subscription
drop_inflight s = record s { inflight = (s.inflight + 2 ^ 32 - 1) % 2 ^ 32 }

unfoldable pub ack_at : Group → Subscription → ℕ → Acked
ack_at g s i =
    let ms = set g.messages i (hold ack_id zero_seq_no (at g.messages i)) in
    let (ms', read', commits) = sweep (length ms) g.commits ms g.read g.write in
    acked (record g { messages = ms'; read = read' }) (drop_inflight s) commits

-- `Ack`
unfoldable pub ack : Group → Subscription → ℕ → Acked
unfolding ack_at
ack g s seq = if seq == 0 then failed bad_seq_no else elim (search_group (is_leased s.id seq) g) [
  | none ↦ failed not_leased
  | some i ↦ ack_at g s i
]

pub data Nacked : Type 0 where
  failed : Error → Nacked
  nacked : Group → Subscription → Nacked

unfoldable pub nack_at : Group → Subscription → ℕ → Nacked
nack_at g s i =
    nacked (record g { messages = set g.messages i (hold ready zero_seq_no (at g.messages i)) })
      (drop_inflight s)

-- `Nack`
unfoldable pub nack : Group → Subscription → ℕ → Nacked
unfolding nack_at
nack g s seq =
    if seq == 0 then Nacked.failed bad_seq_no else elim (search_group (is_leased s.id seq) g) [
      | none ↦ Nacked.failed not_leased
      | some i ↦ nack_at g s i
    ]

-- The loop of `Close`.
unfoldable pub release : ℕ → ℕ → List Message → ℕ → ℕ → List Message
release zero id ms j w = ms
release (suc fuel) id ms j w =
    let ms' = if is_held id (at ms j) then set ms j (hold ready zero_seq_no (at ms j)) else ms in
    let rest = release fuel id ms' ((j + 1) % length ms) w in if j == w then ms else rest

-- `Close`
unfoldable pub close : Group → Subscription → Group × Subscription
unfolding release
close g s = (
  record g { messages = release (length g.messages) s.id g.messages g.read g.write },
  record s { closed = true },
)
