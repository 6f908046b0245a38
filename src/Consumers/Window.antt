-- ===== src/Consumers/Window.antt =====
-- The messages between `read` and `write`, in order, and each loop of the code as a list function
-- on them.
use eventter.Base.{ℕ, zero, suc, ◌+◌, ◌%◌, ◌<◌, ◌≤◌, ◌≡◌, refl, sym, ap, ◌≢◌, inl, inr, arith}
use eventter.Base.{Bool, true, false, List, [], ◌∷◌, ◌++◌, Option, none, some}
use eventter.Base.{length, set, find, update_first}
use eventter.Base.{get_or-set_self, get_or-set_ne, Bool-cases, ==_iff, ==_ne}
use eventter.Consumers.Data.{Message, zero_message}
use eventter.Consumers.Subscription.{at, scan}
use eventter.Consumers.Ring.{Gap, next_cases, Gap-step, Gap-self, Gap-zero, Gap-ne, Gap-around}

-- The `k` slots from `j` on, on a ring of `len` slots.
unfoldable pub window : ℕ → List Message → ℕ → ℕ → List Message
window len ms j zero = []
window len ms j (suc k) = at ms j ∷ window len ms ((j + 1) % len) k

pub length-window : (len : ℕ) (ms : List Message) (j k : ℕ) → length (window len ms j k) ≡ k
unfolding window
length-window len ms j zero = refl
length-window len ms j (suc k) = ap suc (length-window len ms ((j + 1) % len) k)

at-set_ne : (ms : List Message) (i j : ℕ) (m : Message) → i ≢ j → at (set ms i m) j ≡ at ms j
at-set_ne ms i j m h = get_or-set_ne ms i j m zero_message h

-- A write at or behind the end of a window does not show in it.
pub window-set_beyond :
    (len : ℕ) (ms : List Message) (i j d k : ℕ) (m : Message)
    → Gap len j i d
    → k ≤ d
    → window len (set ms i m) j k ≡ window len ms j k
unfolding window
window-set_beyond len ms i j d zero m g h = refl
window-set_beyond len ms i j zero (suc k) m g h = absurd (omega arith)
window-set_beyond len ms i j (suc d) (suc k) m g h = cc (
  at-set_ne ms i j m (λ e. Gap-ne len j i d g (sym e)),
  window-set_beyond len ms i ((j + 1) % len) d k m (Gap-step len j i d g) (omega arith),
)

-- A write to the slot behind a window extends it.
pub window-set_end :
    (len : ℕ) (ms : List Message) (w j k : ℕ) (m : Message)
    → len ≡ length ms
    → Gap len j w k
    → window len (set ms w m) j (suc k) ≡ window len ms j k ++ (m ∷ [])
unfolding window
window-set_end len ms w j zero m e g =
    rw (Gap-zero len j w g, get_or-set_self ms w m zero_message (omega arith))
window-set_end len ms w j (suc k) m e g = cc (
  at-set_ne ms w j m (λ e. Gap-ne len j w k g (sym e)),
  window-set_end len ms w ((j + 1) % len) k m e (Gap-step len j w k g),
)

-- What a scan that finds slot `i` says: the first message of the window that passes stands there,
-- and a write to the slot is a change of that message.
pub record Found (p : Message → Bool) (len : ℕ) (ms : List Message) (j k i : ℕ) : Type 0 where
  pub offset : ℕ
  pub near : offset < k
  pub gap : Gap len j i offset
  pub hit : find p (window len ms j k) ≡ some (at ms i)
  pub place :
      (f : Message → Message)
      → window len (set ms i (f (at ms i))) j k ≡ update_first p f (window len ms j k)

abbrev pub Scanned : (Message → Bool) → ℕ → List Message → ℕ → ℕ → Option ℕ → Type 0
Scanned p len ms j k none = find p (window len ms j k) ≡ none
Scanned p len ms j k (some i) = Found p len ms j k i

Found-here :
    (p : Message → Bool) (len : ℕ) (ms : List Message) (j w k : ℕ)
    → len ≡ length ms
    → Gap len j w (suc k)
    → p (at ms j) ≡ true
    → Found p len ms j (suc k) j
unfolding window
Found-here p len ms j w k e g h = record {
  offset = 0;
  near = omega arith;
  gap = Gap-self len j g.from;
  hit = rw h;
  place = λ f. rw h (cc (get_or-set_self ms j (f (at ms j)) zero_message (omega arith), beyond f));
}
  where
    beyond :
        (f : Message → Message)
        → window len (set ms j (f (at ms j))) ((j + 1) % len) k ≡ window len ms ((j + 1) % len) k
    beyond f =
        let (d, around, whole) = Gap-around len j g.from in
        window-set_beyond len ms j ((j + 1) % len) d k (f (at ms j)) around (omega arith)

Found-later :
    (p : Message → Bool) (len : ℕ) (ms : List Message) (j w k i : ℕ)
    → Gap len j w (suc k)
    → p (at ms j) ≡ false
    → Found p len ms ((j + 1) % len) k i
    → Found p len ms j (suc k) i
unfolding window
Found-later p len ms j w k i g h r = record {
  offset = suc r.offset;
  near = omega arith;
  gap = later;
  hit = rw h r.hit;
  place = λ f.
      rw h (
        cc
          (at-set_ne ms i j (f (at ms i)) (λ e. Gap-ne len j i r.offset later (sym e)), r.place f));
}
  where
    later : Gap len j i (suc r.offset)
    later = omega (arith, next_cases len j g.from)

Scanned-later :
    (p : Message → Bool) (ms : List Message) (j w k : ℕ)
    → Gap (length ms) j w (suc k)
    → p (at ms j) ≡ false
    → (r : Option ℕ) → Scanned p (length ms) ms ((j + 1) % length ms) k r
    → Scanned p (length ms) ms j (suc k) r
unfolding window
Scanned-later p ms j w k g h none s = rw h s
Scanned-later p ms j w k g h (some i) s = Found-later p (length ms) ms j w k i g h s

pub scan-Scanned :
    (fuel : ℕ) (p : Message → Bool) (ms : List Message) (j w k : ℕ)
    → k ≤ fuel
    → Gap (length ms) j w k
    → Scanned p (length ms) ms j k (scan fuel p ms j w)
unfolding scan window
scan-Scanned zero p ms j w zero h g = refl
scan-Scanned zero p ms j w (suc k) h g = absurd (omega arith)
scan-Scanned (suc fuel) p ms j w zero h g = rw ((==_iff j w).1 (Gap-zero _ j w g)) refl
scan-Scanned (suc fuel) p ms j w (suc k) h g =
    rw (==_ne j w (Gap-ne _ j w k g)) (elim (Bool-cases (p (at ms j))) [
      | inl e ↦ rw e (Found-here p (length ms) ms j w k refl g e)
      | inr e ↦ rw e (
          Scanned-later p ms j w k g e _
            (scan-Scanned fuel p ms ((j + 1) % length ms) w k (omega arith) (Gap-step _ j w k g)))
    ])
