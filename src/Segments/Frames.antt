-- ===== src/Segments/Frames.antt =====
-- The bytes of messages in a file of mq/segments, and what can be read at their start.
use eventter.Base.{ℕ, zero, suc, ◌+◌, ◌^◌, ◌<◌, ◌≤◌, ◌≡◌, refl, ap, ◌∙◌, arith}
use eventter.Base.{
  true, false, List, [], ◌∷◌, ◌++◌, append_assoc, ltb, length, length-append, take, drop,
}
use eventter.Segments.Varint.{value, max_varint_len, put_uvarint, uvarint, uvarint-put_uvarint}
use eventter.Segments.File.{frame}

pub drop-append : (xs ys : List ℕ) → drop (length xs) (xs ++ ys) ≡ ys
drop-append [] ys = refl
drop-append (x ∷ xs) ys = drop-append xs ys

pub take-append_self : (xs ys : List ℕ) → take (length xs) (xs ++ ys) ≡ xs
take-append_self [] ys = refl
take-append_self (x ∷ xs) ys = ap (λ l. x ∷ l) (take-append_self xs ys)

abbrev pub frames : List (List ℕ) → List ℕ
frames [] = []
frames (m ∷ ms) = frame m ++ frames ms

pub frame_read :
    (m rest : List ℕ)
    → length m < 2 ^ 63
    → uvarint (take max_varint_len (frame m ++ rest))
      ≡ value (length m) (length (put_uvarint (length m)))
frame_read m rest h =
    ap (λ l. uvarint (take max_varint_len l)) (append_assoc (put_uvarint (length m)) m rest)
    ∙ uvarint-put_uvarint (length m) (m ++ rest) (omega arith)

pub length-frame : (m : List ℕ) → length (frame m) ≡ length (put_uvarint (length m)) + length m
length-frame m = length-append (put_uvarint (length m)) m

pub not_above : (a b : ℕ) → b ≤ a → ltb a b ≡ false
not_above a b h = ground arith

pub above : (a b : ℕ) → a < b → ltb a b ≡ true
above a b h = ground arith

pub length-take_le : (k : ℕ) (m : List ℕ) → k ≤ length m → length (take k m) ≡ k
length-take_le zero m h = refl
length-take_le (suc k) [] h = absurd (omega arith)
length-take_le (suc k) (x ∷ m) h = ap suc (length-take_le k m (omega arith))
