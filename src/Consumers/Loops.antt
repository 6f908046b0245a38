-- ===== src/Consumers/Loops.antt =====
-- The loops of `Ack` and `Close` as list functions on the window.
use eventter.Base.{ℕ, zero, suc, ◌+◌, ◌%◌, ◌<◌, ◌≤◌, ◌≡◌, refl, sym, ap, ◌∙◌, ◌≢◌, inl, inr, arith}
use eventter.Base.{Bool, true, false, List, [], ◌∷◌, map, ◌==◌, if◌then◌else◌}
use eventter.Base.{length, set, take_while, drop_while, length-set, Bool-cases, ==_iff, ==_ne}
use eventter.Base.{get_or-set_self, get_or-set_ne}
use eventter.Consumers.Data.{Message, Commit, zero_message, hold, is_acked, is_held, commit_of}
use eventter.Consumers.Data.{ready, zero_seq_no}
use eventter.Consumers.Subscription.{at, sweep, release}
use eventter.Consumers.Ring.{Gap, Gap-step, Gap-zero, Gap-ne, Gap-around}
use eventter.Consumers.Window.{window, window-set_beyond}

-- What the sweep leaves is the window behind its leading acked messages; it sends theirs, in order.
pub record Swept (c : Bool) (len : ℕ) (ms : List Message) (j w k : ℕ) (ms' : List Message) (j' : ℕ)
    (sent : List Commit) : Type 0 where
  pub left : ℕ
  pub gap : Gap len j' w left
  pub fewer : left ≤ k
  pub same_length : length ms' ≡ length ms
  pub kept : window len ms' j' left ≡ drop_while is_acked (window len ms j k)
  pub sends : sent ≡ (if c then map commit_of (take_while is_acked (window len ms j k)) else [])

abbrev pub SweptTo : Bool → ℕ → List Message → ℕ → ℕ → ℕ → List Message × ℕ × List Commit → Type 0
SweptTo c len ms j w k r = Swept c len ms j w k r.0 r.1 r.2

stop :
    (c : Bool) (len : ℕ) (ms : List Message) (j w k : ℕ)
    → Gap len j w (suc k)
    → is_acked (at ms j) ≡ false
    → SweptTo c len ms j w (suc k) (ms, j, [])
unfolding window
stop c len ms j w k g h = record {
  left = suc k;
  gap = g;
  fewer = omega arith;
  same_length = refl;
  kept = rw h;
  sends = rw h (ground arith);
}

with_head :
    (b : Bool) (m : Message) (cs ds : List Commit)
    → cs ≡ (if b then ds else [])
    → (if b then commit_of m ∷ cs else cs) ≡ (if b then commit_of m ∷ ds else [])
with_head true m cs ds e = ap (◌∷◌ (commit_of m)) e
with_head false m cs ds e = e

go_on :
    (c : Bool) (len : ℕ) (ms : List Message) (j w k : ℕ) (ms' : List Message) (j' : ℕ)
    (sent : List Commit)
    → Gap len j w (suc k)
    → is_acked (at ms j) ≡ true
    → Swept c len (set ms j zero_message) ((j + 1) % len) w k ms' j' sent
    → Swept c len ms j w (suc k) ms' j' (if c then commit_of (at ms j) ∷ sent else sent)
unfolding window
go_on c len ms j w k ms' j' sent g h s = record {
  left = s.left;
  gap = s.gap;
  fewer = omega (arith, s.fewer);
  same_length = s.same_length ∙ length-set ms j zero_message;
  kept = rw h (s.kept ∙ ap (drop_while is_acked) beyond);
  sends = rw h (rw beyond at (with_head c (at ms j) _ _ s.sends));
}
  where
    beyond : window len (set ms j zero_message) ((j + 1) % len) k ≡ window len ms ((j + 1) % len) k
    beyond =
        let (d, around, whole) = Gap-around len j g.from in
        window-set_beyond len ms j ((j + 1) % len) d k zero_message around (omega arith)

finish :
    (c : Bool) (len : ℕ) (ms : List Message) (j w : ℕ)
    → Gap len j w 0
    → SweptTo c len ms j w 0 (ms, j, [])
unfolding window
finish c len ms j w g = record {
  left = 0;
  gap = g;
  fewer = omega arith;
  same_length = refl;
  kept = refl;
  sends = ground arith;
}

pub sweep-Swept :
    (fuel : ℕ) (c : Bool) (len : ℕ) (ms : List Message) (j w k : ℕ)
    → len ≡ length ms
    → k ≤ fuel
    → Gap len j w k
    → SweptTo c len ms j w k (sweep fuel c ms j w)
unfolding sweep
sweep-Swept zero c len ms j w zero e h g = finish c len ms j w g
sweep-Swept zero c len ms j w (suc k) e h g = absurd (omega arith)
sweep-Swept (suc fuel) c len ms j w zero e h g =
    rw ((==_iff j w).1 (Gap-zero _ j w g)) (finish c len ms j w g)
sweep-Swept (suc fuel) c len ms j w (suc k) e h g =
    rw (==_ne j w (Gap-ne _ j w k g)) (elim (Bool-cases (is_acked (at ms j))) [
      | inl a ↦
          rw (a, ← e)
            (go_on c len ms j w k _ _ _ g a (
              sweep-Swept fuel c len (set ms j zero_message) ((j + 1) % len) w k
                (e ∙ sym (length-set ms j zero_message)) (omega arith) (Gap-step len j w k g)))
      | inr a ↦ rw a (stop c len ms j w k g a)
    ])

-- What `Close` makes of a message.
abbrev pub unlease : ℕ → Message → Message
unlease id m = if is_held id m then hold ready zero_seq_no m else m

abbrev unlease_slot : ℕ → List Message → ℕ → List Message
unlease_slot id ms j =
    if is_held id (at ms j) then set ms j (hold ready zero_seq_no (at ms j)) else ms

length-unlease_slot :
    (id : ℕ) (ms : List Message) (j : ℕ) → length (unlease_slot id ms j) ≡ length ms
length-unlease_slot id ms j = ground (arith, length-set ms j (hold ready zero_seq_no (at ms j)))

at-unlease_slot_ne :
    (id : ℕ) (ms : List Message) (j i : ℕ) → j ≢ i → at (unlease_slot id ms j) i ≡ at ms i
at-unlease_slot_ne id ms j i h = elim (Bool-cases (is_held id (at ms j))) [
  | inl e ↦ rw e (get_or-set_ne ms j i _ zero_message h)
  | inr e ↦ rw e
]

at-unlease_slot_self :
    (id : ℕ) (ms : List Message) (j : ℕ)
    → j < length ms
    → at (unlease_slot id ms j) j ≡ unlease id (at ms j)
at-unlease_slot_self id ms j h = elim (Bool-cases (is_held id (at ms j))) [
  | inl e ↦ rw e (get_or-set_self ms j _ zero_message h)
  | inr e ↦ rw e
]

window-unlease_slot :
    (id len : ℕ) (ms : List Message) (j k d : ℕ)
    → Gap len ((j + 1) % len) j d
    → k ≤ d
    → window len (unlease_slot id ms j) ((j + 1) % len) k ≡ window len ms ((j + 1) % len) k
window-unlease_slot id len ms j k d g h = elim (Bool-cases (is_held id (at ms j))) [
  | inl e ↦ rw e (window-set_beyond len ms j _ d k _ g h)
  | inr e ↦ rw e
]

-- A slot at or behind the end of the loop is left alone.
release-beyond :
    (fuel id len : ℕ) (ms : List Message) (j w i d k : ℕ)
    → len ≡ length ms
    → Gap len j w k
    → Gap len j i d
    → k ≤ d
    → at (release fuel id ms j w) i ≡ at ms i
unfolding release
release-beyond zero id len ms j w i d k e g gi h = refl
release-beyond (suc fuel) id len ms j w i d zero e g gi h = rw ((==_iff j w).1 (Gap-zero _ j w g))
release-beyond (suc fuel) id len ms j w i zero (suc k) e g gi h = absurd (omega arith)
release-beyond (suc fuel) id len ms j w i (suc d) (suc k) e g gi h =
    rw (==_ne j w (Gap-ne _ j w k g), ← e)
      (release-beyond fuel id len (unlease_slot id ms j) ((j + 1) % len) w i d k
          (e ∙ sym (length-unlease_slot id ms j)) (Gap-step len j w k g) (Gap-step len j i d gi)
          (omega arith)
        ∙ at-unlease_slot_ne id ms j i (Gap-ne len j i d gi))

pub length-release :
    (fuel id : ℕ) (ms : List Message) (j w : ℕ) → length (release fuel id ms j w) ≡ length ms
unfolding release
length-release zero id ms j w = refl
length-release (suc fuel) id ms j w = elim (Bool-cases (j == w)) [
  | inl e ↦ rw e
  | inr e ↦ rw e (length-release fuel id (unlease_slot id ms j) _ w ∙ length-unlease_slot id ms j)
]

release-step :
    (fuel id len : ℕ) (ms : List Message) (j w : ℕ)
    → len ≡ length ms
    → j ≢ w
    → release (suc fuel) id ms j w ≡ release fuel id (unlease_slot id ms j) ((j + 1) % len) w
unfolding release
release-step fuel id len ms j w e h = rw (==_ne j w h, e)

pub window-release :
    (fuel id len : ℕ) (ms : List Message) (j w k : ℕ)
    → len ≡ length ms
    → k ≤ fuel
    → Gap len j w k
    → window len (release fuel id ms j w) j k ≡ map (unlease id) (window len ms j k)
unfolding window
window-release fuel id len ms j w zero e h g = refl
window-release zero id len ms j w (suc k) e h g = absurd (omega arith)
window-release (suc fuel) id len ms j w (suc k) e h g =
    let (d, around, whole) = Gap-around len j g.from in
    let e' = e ∙ sym (length-unlease_slot id ms j) in
    let g' = Gap-step len j w k g in
    ap (λ r. window len r j (suc k)) (release-step fuel id len ms j w e (Gap-ne _ j w k g))
    ∙ cc (
      release-beyond fuel id len (unlease_slot id ms j) ((j + 1) % len) w j d k e' g' around
          (omega arith),
      at-unlease_slot_self id ms j (omega arith),
      window-release fuel id len (unlease_slot id ms j) ((j + 1) % len) w k e' (omega arith) g',
      window-unlease_slot id len ms j k d around (omega arith),
    )
