-- ===== src/Consumers/Refinement.antt =====
-- Every operation of a group and its subscriptions, on every branch, as an operation on the list of
-- the group's messages.
use eventter.Base.{ℕ, ◌+◌, ◌%◌, ◌^◌, ◌<◌, ◌≤◌, ◌≡◌, refl, subst, ◌≢◌, ◌⊎◌, inl, inr, arith}
use eventter.Base.{true, false, ◌&&◌, [], ◌∷◌, ◌++◌, none, some, ◌==◌, find}
use eventter.Base.{length, update_first, Bool-cases, Option-cases}
use eventter.Consumers.Data.{Message, Group, Subscription, hold, ready, zero_seq_no, is_ready}
use eventter.Consumers.Group.{put, is_full, Offered, offer, offer_locked}
use eventter.Consumers.Subscription.{
  at, search_group, has_room, gives_up, Received, lease, empty_or_wait, none_ready, next_locked,
}
use eventter.Consumers.Contents.{
  IsValid, count, contents, length-contents, contents_empty, empty_contents, is_full-count,
  count-le, put-IsValid, contents-put, with_slot-IsValid, contents-with_slot, search-find,
  search-none,
}

-- `Offer` refuses on a closed group, waits on a full one, and otherwise appends the message, ready.
abbrev pub OfferSpec : Group → Message → Offered → Type 0
OfferSpec g m Offered.group_closed = g.closed ≡ true
OfferSpec g m Offered.wait = (g.closed ≡ false) × (length (contents g) ≡ g.n)
OfferSpec g m (Offered.offered g') =
    IsValid g'
    × (length (contents g) < g.n)
    × (contents g' ≡ contents g ++ (hold ready zero_seq_no m ∷ []))
    × (g'.n ≡ g.n)
    × (g'.closed ≡ g.closed)
    × (g'.commits ≡ g.commits)

pub offer_locked-OfferSpec :
    (g : Group) (m : Message) → IsValid g → OfferSpec g m (offer_locked g m)
unfolding offer_locked
offer_locked-OfferSpec g m v = elim (Bool-cases (is_full g)) [
  | inl e ↦ elim (Bool-cases g.closed) [
    | inl c ↦ subst (OfferSpec g m) (closes e c) c
    | inr c ↦ subst (OfferSpec g m) (waits e c) (c, omega (arith, full e, length-contents g))
  ]
  | inr e ↦ subst (OfferSpec g m) (puts e) (
    put-IsValid g m v,
    omega (arith, space e, length-contents g),
    contents-put g m v (space e),
    unfold put in refl,
    unfold put in refl,
    unfold put in refl,
  )
]
  where
    closes : is_full g ≡ true → g.closed ≡ true → Offered.group_closed ≡ offer_locked g m
    closes e c = ground arith

    waits : is_full g ≡ true → g.closed ≡ false → Offered.wait ≡ offer_locked g m
    waits e c = ground arith

    puts : is_full g ≡ false → Offered.offered (put g m) ≡ offer_locked g m
    puts e = ground arith

    full : is_full g ≡ true → count g ≡ g.n
    full e = ground (arith, is_full-count g v)

    space : is_full g ≡ false → count g < g.n
    space e = ground (arith, is_full-count g v, count-le g v)

-- `Offer` as a whole: it does the same, and whatever it does but refuse is on an open group.
abbrev pub OpenOfferSpec : Group → Message → Offered → Type 0
OpenOfferSpec g m Offered.group_closed = g.closed ≡ true
OpenOfferSpec g m Offered.wait = OfferSpec g m Offered.wait
OpenOfferSpec g m (Offered.offered g') = (g.closed ≡ false) × OfferSpec g m (Offered.offered g')

opens-OpenOfferSpec :
    (g : Group) (m : Message) (r : Offered)
    → g.closed ≡ false
    → OfferSpec g m r
    → OpenOfferSpec g m r
opens-OpenOfferSpec g m Offered.group_closed c h = h
opens-OpenOfferSpec g m Offered.wait c h = h
opens-OpenOfferSpec g m (Offered.offered g') c h = (c, h)

-- On a valid group, `Offer` refuses only if the group is closed, waits only if it is open and has
-- `n` messages, and otherwise, on an open group only, appends the message, ready, where there are
-- fewer, and leaves a valid group.
pub offer-OfferSpec : (g : Group) (m : Message) → IsValid g → OpenOfferSpec g m (offer g m)
unfolding offer
offer-OfferSpec g m v = elim (Bool-cases g.closed) [
  | inl c ↦ subst (OpenOfferSpec g m) (closes c) c
  | inr c ↦
      subst (OpenOfferSpec g m) (locks c)
        (opens-OpenOfferSpec g m (offer_locked g m) c (offer_locked-OfferSpec g m v))
]
  where
    closes : g.closed ≡ true → Offered.group_closed ≡ offer g m
    closes c = ground arith

    locks : g.closed ≡ false → offer_locked g m ≡ offer g m
    locks c = ground arith

-- A subscription has room if its size and its number of messages, where it has them, are not reached.
abbrev pub HasRoom : Subscription → Type 0
HasRoom s =
    ((s.size ≡ 0) ⊎ (s.inflight < s.size)) × ((s.max_messages ≡ 0) ⊎ (s.seq < s.max_messages))

abbrev pub LacksRoom : Subscription → Type 0
LacksRoom s =
    ((s.size ≢ 0) × (s.size ≤ s.inflight)) ⊎ ((s.max_messages ≢ 0) × (s.max_messages ≤ s.seq))

has_room-HasRoom : (s : Subscription) → has_room s ≡ true → HasRoom s
has_room-HasRoom s e = ground (arith, e)

has_room-LacksRoom : (s : Subscription) → has_room s ≡ false → LacksRoom s
has_room-LacksRoom s e = ground (arith, e)

-- No message is ready, but one may still become so: the subscription is open, and the group is open
-- or still has messages.
abbrev pub NothingYet : Group → Subscription → Type 0
NothingYet g s =
    (find is_ready (contents g) ≡ none)
    × (s.closed ≡ false)
    × ((g.closed ≡ false) ⊎ (contents g ≢ []))

-- What `Next` returns: it leases the oldest ready message, under the next sequence number, to a
-- subscription that has room; the other answers say that there is none, or no room for it.
abbrev pub NextSpec : Group → Subscription → Received → Type 0
NextSpec g s Received.subscription_closed =
    (s.closed ≡ true) × HasRoom s × (find is_ready (contents g) ≡ none)
NextSpec g s Received.group_closed =
    (s.closed ≡ false) × HasRoom s × (g.closed ≡ true) × (contents g ≡ [])
NextSpec g s Received.empty =
    (s.inflight ≡ 0)
    × (LacksRoom s ⊎ NothingYet g s)
    × ((s.blocking ≡ false) ⊎ (s.max_messages ≢ 0) × (s.max_messages ≤ s.seq))
NextSpec g s Received.wait =
    (LacksRoom s ⊎ NothingYet g s)
    × ((s.inflight ≢ 0) ⊎ (s.blocking ≡ true) × ((s.max_messages ≡ 0) ⊎ (s.seq < s.max_messages)))
NextSpec g s (Received.received g' s' m) =
    IsValid g'
    × HasRoom s
    × ((o : Message) × (find is_ready (contents g) ≡ some o)
        × (m ≡ hold s.id ((s.seq + 1) % 2 ^ 64) o))
    × (contents g' ≡ update_first is_ready (hold s.id ((s.seq + 1) % 2 ^ 64)) (contents g))
    × (g'.n ≡ g.n)
    × (g'.closed ≡ g.closed)
    × (g'.commits ≡ g.commits)
    × (s' ≡ record s { seq = (s.seq + 1) % 2 ^ 64; inflight = (s.inflight + 1) % 2 ^ 32 })

lease-NextSpec :
    (g : Group) (s : Subscription) (i : ℕ)
    → IsValid g
    → HasRoom s
    → search_group is_ready g ≡ some i
    → NextSpec g s (lease g s i)
unfolding lease
lease-NextSpec g s i v room e = (
  with_slot-IsValid g i (hold s.id ((s.seq + 1) % 2 ^ 64) (at g.messages i)) v,
  room,
  (at g.messages i, search-find is_ready g i v e, refl),
  contents-with_slot is_ready (hold s.id ((s.seq + 1) % 2 ^ 64)) g i v e,
  refl,
  refl,
  refl,
  refl,
)

empty_or_wait-NextSpec :
    (g : Group) (s : Subscription) → LacksRoom s ⊎ NothingYet g s → NextSpec g s (empty_or_wait s)
unfolding empty_or_wait
empty_or_wait-NextSpec g s h = elim (Bool-cases (gives_up s)) [
  | inl e ↦ subst (NextSpec g s) (empties e) (ground arith, h, ground arith)
  | inr e ↦ subst (NextSpec g s) (waits e) (h, ground arith)
]
  where
    empties : gives_up s ≡ true → Received.empty ≡ empty_or_wait s
    empties e = ground arith

    waits : gives_up s ≡ false → Received.wait ≡ empty_or_wait s
    waits e = ground arith

none_ready-NextSpec :
    (g : Group) (s : Subscription)
    → IsValid g
    → HasRoom s
    → find is_ready (contents g) ≡ none
    → NextSpec g s (none_ready g s)
unfolding none_ready
none_ready-NextSpec g s v room none_found = elim (Bool-cases s.closed) [
  | inl c ↦ subst (NextSpec g s) (closes c) (c, room, none_found)
  | inr c ↦ elim (Bool-cases (g.read == g.write && g.closed)) [
    | inl d ↦
        subst (NextSpec g s) (group_closes c d)
          (c, room, ground arith, contents_empty g v (ground arith))
    | inr d ↦
        subst (NextSpec g s) (goes_on c d)
          (empty_or_wait-NextSpec g s (inr (none_found, c, lasts d)))
  ]
]
  where
    closes : s.closed ≡ true → Received.subscription_closed ≡ none_ready g s
    closes c = ground arith

    group_closes :
        s.closed ≡ false
        → (g.read == g.write && g.closed) ≡ true
        → Received.group_closed ≡ none_ready g s
    group_closes c d = rw (c, d)

    goes_on :
        s.closed ≡ false
        → (g.read == g.write && g.closed) ≡ false
        → empty_or_wait s ≡ none_ready g s
    goes_on c d = rw (c, d)

    lasts : (g.read == g.write && g.closed) ≡ false → (g.closed ≡ false) ⊎ (contents g ≢ [])
    lasts d = elim (Bool-cases g.closed) [
      | inr o ↦ inl o
      | inl k ↦ inr (λ e. ground (arith, empty_contents g v e, d, k))
    ]

-- On a valid group, `Next` under the lock leases the oldest ready message under the next sequence
-- number to a subscription with room, and leaves a valid group; each of its other answers comes
-- only without room or without a ready message, and under the conditions that `NextSpec` lists:
-- with room and without a ready message, it waits or answers that there is none only if the
-- subscription is open and the group is open or has messages.
pub next_locked-NextSpec :
    (g : Group) (s : Subscription) → IsValid g → NextSpec g s (next_locked g s)
unfolding next_locked
next_locked-NextSpec g s v = elim (Bool-cases (has_room s)) [
  | inl room ↦ elim (Option-cases (search_group is_ready g)) [
    | inl e ↦
        subst (NextSpec g s) (finds_none room e)
          (none_ready-NextSpec g s v (has_room-HasRoom s room) (search-none is_ready g v e))
    | inr (i, e) ↦
        subst (NextSpec g s) (finds room i e) (lease-NextSpec g s i v (has_room-HasRoom s room) e)
  ]
  | inr full ↦
      subst (NextSpec g s) (no_room full)
        (empty_or_wait-NextSpec g s (inl (has_room-LacksRoom s full)))
]
  where
    finds_none :
        has_room s ≡ true → search_group is_ready g ≡ none → none_ready g s ≡ next_locked g s
    finds_none room e = rw (room, e)

    finds :
        has_room s ≡ true
        → (i : ℕ) → search_group is_ready g ≡ some i
        → lease g s i ≡ next_locked g s
    finds room i e = rw (room, e)

    no_room : has_room s ≡ false → empty_or_wait s ≡ next_locked g s
    no_room full = rw full
