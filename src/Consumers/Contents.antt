-- ===== src/Consumers/Contents.antt =====
-- The abstract view of a group: the list of its messages from the oldest to the newest.
use eventter.Base.{ℕ, suc, ◌+◌, ◌-◌, ◌%◌, ◌<◌, ◌≤◌, ◌≡◌, refl, sym, ap, subst, ◌∙◌, arith}
use eventter.Base.{Bool, List, [], ◌∷◌, ◌++◌, none, some, ◌==◌, find}
use eventter.Base.{length, set, length-set, update_first}
use eventter.Consumers.Data.{Message, Group, hold, ready, zero_seq_no}
use eventter.Consumers.Group.{put, is_full}
use eventter.Consumers.Subscription.{at, search_group}
use eventter.Consumers.Ring.{Gap, Gap-extend, Gap-unique, next_cases, next-lt}
use eventter.Consumers.Window.{window, length-window, window-set_end, Found, Scanned, scan-Scanned}

-- The slice has one slot more than `n`, and both indices stay inside.
pub record IsValid (g : Group) : Type 0 where
  pub size : length g.messages ≡ suc g.n
  pub read_in : g.read < length g.messages
  pub write_in : g.write < length g.messages

-- How many slots lie from `read` to `write`.
unfoldable pub count : Group → ℕ
count g = (g.write + length g.messages - g.read) % length g.messages

unfoldable pub contents : Group → List Message
contents g = window (length g.messages) g.messages g.read (count g)

ring-Gap : (len j w : ℕ) → j < len → w < len → Gap len j w ((w + len - j) % len)
ring-Gap len j w hj hw = grind arith

count-Gap :
    (g : Group)
    → g.read < length g.messages
    → g.write < length g.messages
    → Gap (length g.messages) g.read g.write (count g)
unfolding count
count-Gap g = ring-Gap (length g.messages) g.read g.write

pub group-Gap : (g : Group) → IsValid g → Gap (length g.messages) g.read g.write (count g)
group-Gap g v = count-Gap g v.read_in v.write_in

pub length-contents : (g : Group) → length (contents g) ≡ count g
unfolding contents
length-contents g = length-window _ g.messages g.read (count g)

-- A group whose slices agree with a window has it for its contents.
pub contents_of_Gap :
    (g : Group) (len k : ℕ)
    → len ≡ length g.messages
    → Gap len g.read g.write k
    → contents g ≡ window len g.messages g.read k
unfolding contents
contents_of_Gap g len k e gap = cc (e, Gap-unique len g.read g.write (count g) k gap' gap)
  where
    gap' : Gap len g.read g.write (count g)
    gap' =
        subst (λ l. Gap l g.read g.write (count g)) (sym e)
          (count-Gap g (omega arith) (omega arith))

pub contents_empty : (g : Group) → IsValid g → g.read ≡ g.write → contents g ≡ []
unfolding contents window
contents_empty g v e = rw (Gap-unique _ g.read g.write (count g) 0 (group-Gap g v) (omega arith))

pub empty_contents : (g : Group) → IsValid g → contents g ≡ [] → g.read ≡ g.write
empty_contents g v e =
    let none_left : count g ≡ 0 = sym (length-contents g) ∙ ap length e in
    omega (arith, group-Gap g v, none_left)

-- `Offer` waits exactly while the contents have `n` messages.
pub is_full-count : (g : Group) → IsValid g → is_full g ≡ (count g == g.n)
is_full-count g v =
    let gap = group-Gap g v in ground (arith, next_cases (length g.messages) g.write gap.to)

pub count-le : (g : Group) → IsValid g → count g ≤ g.n
count-le g v = omega (arith, (group-Gap g v).short, v.size)

pub put-IsValid : (g : Group) (m : Message) → IsValid g → IsValid (put g m)
unfolding put
put-IsValid g m v = record {
  size = length-set g.messages g.write _ ∙ v.size;
  read_in = rw (length-set g.messages g.write (hold ready zero_seq_no m)) v.read_in;
  write_in = rw (length-set g.messages g.write (hold ready zero_seq_no m)) (next-lt _ _ v.write_in);
}

pub contents-put :
    (g : Group) (m : Message)
    → IsValid g
    → count g < g.n
    → contents (put g m) ≡ contents g ++ (hold ready zero_seq_no m ∷ [])
unfolding put
contents-put g m v h =
    contents_of_Gap (put g m) (length g.messages) (suc (count g))
      (sym (length-set g.messages g.write _)) (Gap-extend _ _ _ _ gap (omega (arith, v.size)))
    ∙ window-set_end _ g.messages g.write g.read (count g) _ refl gap
    ∙ unfold contents in refl
  where
    gap : Gap (length g.messages) g.read g.write (count g)
    gap = group-Gap g v

-- What a search of the group says.
pub search-Scanned :
    (p : Message → Bool) (g : Group)
    → IsValid g
    → Scanned p (length g.messages) g.messages g.read (count g) (search_group p g)
search-Scanned p g v =
    let gap = group-Gap g v in
    scan-Scanned (length g.messages) p g.messages g.read g.write (count g) (omega arith) gap

abbrev pub with_slot : Group → ℕ → Message → Group
with_slot g i m = record g { messages = set g.messages i m }

pub with_slot-IsValid : (g : Group) (i : ℕ) (m : Message) → IsValid g → IsValid (with_slot g i m)
with_slot-IsValid g i m v = record {
  size = length-set g.messages i m ∙ v.size;
  read_in = rw (length-set g.messages i m) v.read_in;
  write_in = rw (length-set g.messages i m) v.write_in;
}

-- A write to the slot that a search found changes the first message that passes.
pub contents-with_slot :
    (p : Message → Bool) (f : Message → Message) (g : Group) (i : ℕ)
    → IsValid g
    → search_group p g ≡ some i
    → contents (with_slot g i (f (at g.messages i))) ≡ update_first p f (contents g)
contents-with_slot p f g i v e =
    contents_of_Gap (with_slot g i (f (at g.messages i))) (length g.messages) (count g)
      (sym (length-set g.messages i _)) (group-Gap g v)
    ∙ found.place f
    ∙ unfold contents in refl
  where
    found : Found p (length g.messages) g.messages g.read (count g) i
    found =
        subst (Scanned p (length g.messages) g.messages g.read (count g)) e (search-Scanned p g v)

pub search-find :
    (p : Message → Bool) (g : Group) (i : ℕ)
    → IsValid g
    → search_group p g ≡ some i
    → find p (contents g) ≡ some (at g.messages i)
unfolding contents
search-find p g i v e = found.hit
  where
    found : Found p (length g.messages) g.messages g.read (count g) i
    found =
        subst (Scanned p (length g.messages) g.messages g.read (count g)) e (search-Scanned p g v)

pub search-none :
    (p : Message → Bool) (g : Group)
    → IsValid g
    → search_group p g ≡ none
    → find p (contents g) ≡ none
unfolding contents
search-none p g v e =
    subst (Scanned p (length g.messages) g.messages g.read (count g)) e (search-Scanned p g v)
