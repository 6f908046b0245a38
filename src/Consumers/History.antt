-- ===== src/Consumers/History.antt =====
-- Runs of a group: the operations of any number of subscriptions and of `Offer`, in any order, and
-- the sends to the channel of commits, which `Ack` does behind its unlock.
use eventter.Base.{ℕ, ◌≡◌, refl, sym, ap, ◌∙◌, arith, ◌+◌, append-nil, append_assoc}
use eventter.Base.{
  ◌⊎◌, inl, inr, Bool, true, false, count_if, count_if-append, List, [], ◌∷◌, ◌++◌, map,
}
use eventter.Consumers.Data.{Group, Commit, commit_of}
use eventter.Consumers.Contents.{IsValid, contents}
use eventter.Consumers.Steps.{Step, commits_of, Keeps, Step-Keeps}

-- A run: `pending` has, for each operation, the commits that it has yet to send, none for most; what
-- one `Ack` collected is sent behind its unlock, in order, but the sends of two may come in any
-- order, with other operations between.
pub data Run (g : Group)
    : Group → List (List Commit) → List Commit → List Commit → List Commit → Type 0 where
  start : Run g g [] [] [] []
  more :
      {h k : Group} {pending : List (List Commit)}
      {sent collected taken collected' taken' : List Commit}
      → Run g h pending sent collected taken
      → Step h k collected' taken'
      → Run g k (pending ++ (collected' ∷ [])) sent (collected ++ collected') (taken ++ taken')
  sends :
      {h : Group} {sent collected taken : List Commit} (before after : List (List Commit))
      (c : Commit) (cs : List Commit)
      → Run g h (before ++ ((c ∷ cs) ∷ after)) sent collected taken
      → Run g h (before ++ (cs ∷ after)) (sent ++ (c ∷ [])) collected taken

pub Run-IsValid :
    {g g' : Group} {pending : List (List Commit)} {sent collected taken : List Commit}
    → IsValid g
    → Run g g' pending sent collected taken
    → IsValid g'
Run-IsValid v start = v
Run-IsValid v (more r s) = (Step-Keeps (Run-IsValid v r) s).valid
Run-IsValid v (sends before after c cs r) = Run-IsValid v r

-- What a run has collected, dropped and left of the commits of `g` and of those taken in.
record Due (g g' : Group) (collected taken : List Commit) : Type 0 where
  dropped : List Commit
  nothing : (g'.commits ≡ false) ⊎ (dropped ≡ [])
  due : collected ++ (dropped ++ commits_of g') ≡ commits_of g ++ taken

-- Nothing is collected where something was dropped before.
swap :
    (b : Bool) (dropped collected : List Commit)
    → (b ≡ false) ⊎ (dropped ≡ [])
    → (b ≡ true) ⊎ (collected ≡ [])
    → dropped ++ collected ≡ collected ++ dropped
swap b dropped collected h (inr e) = rw e (append-nil dropped)
swap b dropped collected (inr e) k = rw e (sym (append-nil collected))
swap b dropped collected (inl off) (inl on) = cc

later :
    (b c : Bool) (d d' : List Commit)
    → (b ≡ false) ⊎ (c ≡ true)
    → (c ≡ false) ⊎ (d ≡ [])
    → (b ≡ false) ⊎ (d' ≡ [])
    → (b ≡ false) ⊎ (d ++ d' ≡ [])
later b c d d' (inl off) k l = inl off
later b c d d' (inr on) (inl off) l = cc
later b c d d' (inr on) (inr e) (inl off) = inl off
later b c d d' (inr on) (inr e) (inr e') = inr (rw (e, e') refl)

rebracket :
    (c c' d d' m : List Commit)
    → d ++ c' ≡ c' ++ d
    → (c ++ c') ++ ((d ++ d') ++ m) ≡ c ++ (d ++ (c' ++ (d' ++ m)))
rebracket c c' d d' m e =
    append_assoc c c' ((d ++ d') ++ m)
    ∙ ap (◌++◌ c) (
        ap (◌++◌ c') (append_assoc d d' m)
        ∙ sym (append_assoc c' d (d' ++ m))
        ∙ ap (λ l. l ++ (d' ++ m)) (sym e)
        ∙ append_assoc d c' (d' ++ m))

Run-Due :
    {g g' : Group} {pending : List (List Commit)} {sent collected taken : List Commit}
    → IsValid g
    → Run g g' pending sent collected taken
    → Due g g' collected taken
Run-Due {g} v start = record {
  dropped = [];
  nothing = inr refl;
  due = sym (append-nil (commits_of g));
}
Run-Due {g} {g'} v (sends before after c cs r) = Run-Due v r
Run-Due {g} {g'} v (more {h = h} {collected = c} {taken = t} {collected' = c'} {taken' = t'} r s) =
    let k : Keeps h g' c' t' = Step-Keeps (Run-IsValid v r) s in
    let d : Due g h c t = Run-Due v r in
    record {
      dropped = d.dropped ++ k.dropped;
      nothing = later g'.commits h.commits d.dropped k.dropped k.wanted d.nothing k.nothing;
      due =
          rebracket c c' d.dropped k.dropped (commits_of g')
            (swap h.commits d.dropped c' d.nothing k.unwanted)
          ∙ ap (λ l. c ++ (d.dropped ++ l)) k.due
          ∙ ap (◌++◌ c) (sym (append_assoc d.dropped (commits_of h) t'))
          ∙ sym (append_assoc c (d.dropped ++ commits_of h) t')
          ∙ ap (λ l. l ++ t') d.due
          ∙ append_assoc (commits_of g) t t';
    }

-- How many of the commits yet to send pass a test.
abbrev pub count_pending : (Commit → Bool) → List (List Commit) → ℕ
count_pending p [] = 0
count_pending p (cs ∷ pending) = count_if p cs + count_pending p pending

count_pending-append :
    (p : Commit → Bool) (xs ys : List (List Commit))
    → count_pending p (xs ++ ys) ≡ count_pending p xs + count_pending p ys
count_pending-append p [] ys = omega arith
count_pending-append p (x ∷ xs) ys = omega (arith, count_pending-append p xs ys)

Run-sent :
    {g g' : Group} {pending : List (List Commit)} {sent collected taken : List Commit}
    (p : Commit → Bool)
    → Run g g' pending sent collected taken
    → count_if p sent + count_pending p pending ≡ count_if p collected
Run-sent p start = refl
Run-sent p (more {pending = pending} {collected = c} {collected' = c'} r s) =
    omega (arith, Run-sent p r, count_pending-append p pending (c' ∷ []), count_if-append p c c')
Run-sent p (sends {sent = sent} before after c cs r) = ground (
  arith,
  Run-sent p r,
  count_pending-append p before ((c ∷ cs) ∷ after),
  count_pending-append p before (cs ∷ after),
  count_if-append p sent (c ∷ []),
)

-- In every run from a valid group of `Offer`, `Next`, `Ack`, `Nack`, `Close` of a subscription and
-- `Close` of the group, by any number of subscriptions, with the sends of each `Ack` in order
-- somewhere behind it: the commits collected under the lock, followed by dropped ones and by those
-- of the messages still queued, are those of the messages queued at first, followed by those
-- offered since, in order, and none is dropped unless the commits are no longer wanted at the end;
-- and of the commits that pass any test, those sent and those yet to be sent are together as many
-- as those collected.
pub Run-commits :
    {g g' : Group} {pending : List (List Commit)} {sent collected taken : List Commit}
    (p : Commit → Bool)
    → IsValid g
    → Run g g' pending sent collected taken
    → ((dropped : List Commit) × (collected ++ (dropped ++ map commit_of (contents g'))
          ≡ map commit_of (contents g) ++ taken)
        × ((g'.commits ≡ false) ⊎ (dropped ≡ [])))
      × (count_if p sent + count_pending p pending ≡ count_if p collected)
Run-commits {g} {g'} {collected = c} {taken = t} p v r =
    let d : Due g g' c t = Run-Due v r in ((d.dropped, d.due, d.nothing), Run-sent p r)
