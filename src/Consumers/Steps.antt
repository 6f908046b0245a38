-- ===== src/Consumers/Steps.antt =====
-- The operations that change a group, as steps, and what each owes to the commits.
use eventter.Base.{ℕ, ◌≡◌, refl, sym, ap, ◌∙◌, arith, ◌+◌, ◌%◌, ◌^◌, append-nil}
use eventter.Base.{
  ◌⊎◌, inl, inr, Bool, true, false, Bool-cases, List, [], ◌∷◌, ◌++◌, map, if◌then◌else◌,
}
use eventter.Base.{take_while, drop_while, map-update_first, take_while-append-drop_while, subst}
use mathlib.Core.List.{map-append}
use eventter.Consumers.Data.{
  Message, Group, Subscription, Commit, hold, ready, ack_id, zero_seq_no, is_acked, is_leased,
  is_ready, commit_of,
}
use eventter.Consumers.Group.{Offered, offer_locked, close_group}
use eventter.Consumers.Subscription.{Received, next_locked, Acked, ack, Nacked, nack, close}
use eventter.Consumers.Contents.{IsValid, contents, count}
use eventter.Consumers.Loops.{unlease}
use eventter.Consumers.Refinement.{
  OfferSpec, offer_locked-OfferSpec, NextSpec, next_locked-NextSpec,
}
use eventter.Consumers.Settling.{
  marked, AckSpec, ack-AckSpec, NackSpec, nack-NackSpec, close-IsValid, contents-close,
}

-- One operation that went through, from its lock to its unlock: the group before and after, the
-- commits that it collected to send, and those of the messages that it took in. The subscription is
-- any.
pub data Step (g g' : Group) (collected taken : List Commit) : Type 0 where
  offers :
      (m : Message)
      → offer_locked g m ≡ Offered.offered g'
      → collected ≡ []
      → taken ≡ commit_of m ∷ []
      → Step g g' collected taken
  receives :
      (s s' : Subscription) (m : Message)
      → next_locked g s ≡ Received.received g' s' m
      → collected ≡ []
      → taken ≡ []
      → Step g g' collected taken
  acks :
      (s s' : Subscription) (seq : ℕ)
      → ack g s seq ≡ Acked.acked g' s' collected
      → taken ≡ []
      → Step g g' collected taken
  nacks :
      (s s' : Subscription) (seq : ℕ)
      → nack g s seq ≡ Nacked.nacked g' s'
      → collected ≡ []
      → taken ≡ []
      → Step g g' collected taken
  closes :
      (s : Subscription)
      → g' ≡ (close g s).0
      → collected ≡ []
      → taken ≡ []
      → Step g g' collected taken
  group_closes : g' ≡ close_group g → collected ≡ [] → taken ≡ [] → Step g g' collected taken

abbrev pub commits_of : Group → List Commit
commits_of g = map commit_of (contents g)

-- What a step owes: a valid group; commits are not wanted again once they are not, and none is
-- collected then; and those collected, those dropped because they are not wanted, and those still
-- queued are those queued before with those taken in behind.
pub record Keeps (g g' : Group) (collected taken : List Commit) : Type 0 where
  pub valid : IsValid g'
  pub wanted : (g'.commits ≡ false) ⊎ (g.commits ≡ true)
  pub unwanted : (g.commits ≡ true) ⊎ (collected ≡ [])
  pub dropped : List Commit
  pub nothing : (g'.commits ≡ false) ⊎ (dropped ≡ [])
  pub due : collected ++ (dropped ++ commits_of g') ≡ commits_of g ++ taken

stays : (b c : Bool) → b ≡ c → (b ≡ false) ⊎ (c ≡ true)
stays b c e = ground (arith, e, Bool-cases c)

quiet :
    {g g' : Group} {collected taken : List Commit}
    → IsValid g'
    → g'.commits ≡ g.commits
    → commits_of g' ≡ commits_of g
    → collected ≡ []
    → taken ≡ []
    → Keeps g g' collected taken
quiet {g} {g'} v same h es et = record {
  valid = v;
  wanted = stays g'.commits g.commits same;
  unwanted = inr es;
  dropped = [];
  nothing = inr refl;
  due = rw (es, et) (h ∙ sym (append-nil (commits_of g)));
}

offer-Keeps :
    {g g' : Group} {collected taken : List Commit} (m : Message)
    → OfferSpec g m (Offered.offered g')
    → collected ≡ []
    → taken ≡ commit_of m ∷ []
    → Keeps g g' collected taken
offer-Keeps {g} {g'} m (v, _, after, _, _, same) es et = record {
  valid = v;
  wanted = stays g'.commits g.commits same;
  unwanted = inr es;
  dropped = [];
  nothing = inr refl;
  due = rw (es, et, after) (map-append commit_of (contents g) (hold ready zero_seq_no m ∷ []));
}

-- What an acknowledgement takes away, with what it leaves, is what was there.
ack_due :
    (g g' : Group) (s : Subscription) (seq : ℕ)
    → contents g' ≡ drop_while is_acked (marked g s seq)
    → map commit_of (take_while is_acked (marked g s seq)) ++ commits_of g' ≡ commits_of g
ack_due g g' s seq after = rw after (
    sym (
      map-append commit_of (take_while is_acked (marked g s seq))
        (drop_while is_acked (marked g s seq)))
    ∙ ap (map commit_of) (take_while-append-drop_while is_acked (marked g s seq))
    ∙ map-update_first (is_leased s.id seq) (hold ack_id zero_seq_no) commit_of (λ m. refl)
        (contents g))

ack-Keeps :
    {g g' : Group} {collected taken : List Commit} (s s' : Subscription) (seq : ℕ)
    → AckSpec g s seq (Acked.acked g' s' collected)
    → taken ≡ []
    → Keeps g g' collected taken
ack-Keeps {g} {g'} s s' seq (v, _, _, after, commits, _, _, same, _) et =
    let gone = map commit_of (take_while is_acked (marked g s seq)) in
    let all : gone ++ commits_of g' ≡ commits_of g = ack_due g g' s seq after in
    let end = sym (append-nil (commits_of g)) ∙ ap (λ l. commits_of g ++ l) (sym et) in
    elim (Bool-cases g.commits) [
      | inl on ↦ record {
        valid = v;
        wanted = inr on;
        unwanted = inl on;
        dropped = [];
        nothing = inr refl;
        due =
            ap (λ l. l ++ commits_of g') (commits ∙ ap (λ b. if b then gone else []) on)
            ∙ all
            ∙ end;
      }
      | inr off ↦ record {
        valid = v;
        wanted = inl (same ∙ off);
        unwanted = inr (commits ∙ ap (λ b. if b then gone else []) off);
        dropped = gone;
        nothing = inl (same ∙ off);
        due =
            ap (λ l. l ++ (gone ++ commits_of g')) (commits ∙ ap (λ b. if b then gone else []) off)
            ∙ all
            ∙ end;
      }
    ]

map-unlease : (id : ℕ) (ms : List Message) → map commit_of (map (unlease id) ms) ≡ map commit_of ms
map-unlease id [] = refl
map-unlease id (m ∷ ms) = ground (arith, map-unlease id ms)

pub Step-Keeps :
    {g g' : Group} {sent taken : List Commit}
    → IsValid g
    → Step g g' sent taken
    → Keeps g g' sent taken
unfolding close_group
Step-Keeps {g} {g'} v (offers m e es et) =
    offer-Keeps m (subst (OfferSpec g m) e (offer_locked-OfferSpec g m v)) es et
Step-Keeps {g} {g'} v (receives s s' m e es et) =
    let (v', _, _, after, _, _, same, _) = subst (NextSpec g s) e (next_locked-NextSpec g s v) in
    quiet v' same
      (ap (map commit_of) after
        ∙ map-update_first is_ready (hold s.id ((s.seq + 1) % 2 ^ 64)) commit_of (λ m. refl)
            (contents g))
      es et
Step-Keeps {g} {g'} v (acks s s' seq e et) =
    ack-Keeps s s' seq (subst (AckSpec g s seq) e (ack-AckSpec g s seq v)) et
Step-Keeps {g} {g'} v (nacks s s' seq e es et) =
    let (v', _, _, after, _, _, same, _) = subst (NackSpec g s seq) e (nack-NackSpec g s seq v) in
    quiet v' same
      (ap (map commit_of) after
        ∙ map-update_first (is_leased s.id seq) (hold ready zero_seq_no) commit_of (λ m. refl)
            (contents g))
      es et
Step-Keeps {g} {g'} v (closes s e es et) =
    quiet (rw e (close-IsValid g s v)) (ap (λ (h : Group). h.commits) e ∙ unfold close in refl)
      (ap commits_of e ∙ ap (map commit_of) (contents-close g s v) ∙ map-unlease s.id (contents g))
      es et
Step-Keeps {g} {g'} v (group_closes e es et) = record {
  valid = rw e (record { size = v.size; read_in = v.read_in; write_in = v.write_in });
  wanted = inl (rw e refl);
  unwanted = inr es;
  dropped = [];
  nothing = inr refl;
  due = rw (es, et, append-nil (commits_of g)) (ap commits_of e ∙ unfold contents count in refl);
}
