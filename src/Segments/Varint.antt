-- ===== src/Segments/Varint.antt =====
-- `PutUvarint` and `Uvarint` of Go's package encoding/binary, on numbers below 2^64: seven bits to a
-- byte, the lowest first, in at most ten bytes.
use eventter.Base.{ap, ◌∙◌, ◌-◌, ℕ, zero, suc, ◌+◌, ◌*◌, ◌/◌, ◌%◌, ◌^◌, ◌<◌, ◌≤◌, ◌≡◌, refl, arith}
use eventter.Base.{◌&&◌, List, [], ◌∷◌, ◌++◌}
use eventter.Base.{◌==◌, ltb, if◌then◌else◌, length, take}

abbrev pub max_varint_len : ℕ
max_varint_len = 10

-- The bytes of `x`, at most `room` of them.
abbrev pub put_in : ℕ → ℕ → List ℕ
put_in zero x = []
put_in (suc room) x =
    let rest = put_in room (x / 128) in if ltb x 128 then x ∷ [] else (x % 128 + 128) ∷ rest

unfoldable pub put_uvarint : ℕ → List ℕ
put_uvarint x = put_in max_varint_len x

-- What `Uvarint` returns: n = 0, n < 0, or the value and the number of its bytes.
pub data Uvarint : Type 0 where
  too_small overflow : Uvarint
  value : ℕ → ℕ → Uvarint

abbrev pub then_more : ℕ → Uvarint → Uvarint
then_more b too_small = too_small
then_more b overflow = overflow
then_more b (value x n) = value (b % 128 + 128 * x) (suc n)

abbrev pub uvarint_in : ℕ → List ℕ → Uvarint
uvarint_in room [] = too_small
uvarint_in zero (b ∷ bs) = overflow
uvarint_in (suc room) (b ∷ bs) =
    let rest = then_more b (uvarint_in room bs) in
    if ltb b 128 then (if room == 0 && ltb 1 b then overflow else value b 1) else rest

unfoldable pub uvarint : List ℕ → Uvarint
uvarint bs = uvarint_in max_varint_len bs

uvarint_in-put_in :
    (room x : ℕ) (rest : List ℕ)
    → x < 2 * 128 ^ room
    → uvarint_in (suc room) (put_in (suc room) x ++ rest) ≡ value x (length (put_in (suc room) x))
uvarint_in-put_in zero x rest h = ground arith
uvarint_in-put_in (suc room) x rest h =
    let below : x / 128 < 2 * 128 ^ room = omega (arith, h) in
    let more = uvarint_in-put_in room (x / 128) rest below in ground (arith, more)

uvarint_in-torn :
    (room x k : ℕ)
    → k < length (put_in room x)
    → uvarint_in room (take k (put_in room x)) ≡ too_small
uvarint_in-torn zero x k h = absurd (omega arith)
uvarint_in-torn (suc room) x zero h = refl
uvarint_in-torn (suc room) x (suc k) h = ground (arith, uvarint_in-torn room (x / 128) k)

length-put_in : (room x : ℕ) → length (put_in room x) ≤ room
length-put_in zero x = omega arith
length-put_in (suc room) x = ground (arith, length-put_in room (x / 128))

pub take-append :
    (k : ℕ) (xs ys : List ℕ) → length xs ≤ k → take k (xs ++ ys) ≡ xs ++ take (k - length xs) ys
take-append zero [] ys h = refl
take-append (suc k) [] ys h = let same : suc k ≡ suc k - 0 = omega arith in ap (λ j. take j ys) same
take-append zero (x ∷ xs) ys h = absurd (omega arith)
take-append (suc k) (x ∷ xs) ys h =
    ap (λ l. x ∷ l) (take-append k xs ys (omega arith) ∙ ap (λ j. xs ++ take j ys) (omega arith))

pub take_all : (k : ℕ) (xs : List ℕ) → length xs ≤ k → take k xs ≡ xs
take_all zero [] h = refl
take_all (suc k) [] h = refl
take_all zero (x ∷ xs) h = absurd (omega arith)
take_all (suc k) (x ∷ xs) h = ap (λ l. x ∷ l) (take_all k xs (omega arith))

length-take : (k : ℕ) (xs : List ℕ) → length (take k xs) ≤ k
length-take zero xs = omega arith
length-take (suc k) [] = omega arith
length-take (suc k) (x ∷ xs) = omega (arith, length-take k xs)

-- What the code peeks at, up to ten bytes, gives back the number that was put there.
pub uvarint-put_uvarint :
    (x : ℕ) (rest : List ℕ)
    → x < 2 ^ 64
    → uvarint (take max_varint_len (put_uvarint x ++ rest)) ≡ value x (length (put_uvarint x))
unfolding uvarint put_uvarint
uvarint-put_uvarint x rest h =
    ap uvarint (take-append max_varint_len (put_uvarint x) rest (length-put_in max_varint_len x))
    ∙ uvarint_in-put_in 9 x _ (omega arith)

-- And a part of its bytes gives none.
pub uvarint-torn :
    (x k : ℕ)
    → k < length (put_uvarint x)
    → uvarint (take max_varint_len (take k (put_uvarint x))) ≡ too_small
unfolding uvarint put_uvarint
uvarint-torn x k h =
    ap uvarint (
      take_all max_varint_len (take k (put_uvarint x))
        (omega (arith, length-take k (put_uvarint x), length-put_in max_varint_len x)))
    ∙ uvarint_in-torn max_varint_len x k h

pub put_uvarint-length : (x : ℕ) → 0 < length (put_uvarint x)
unfolding put_uvarint
put_uvarint-length x = ground arith

pub put_uvarint-short : (x : ℕ) → length (put_uvarint x) ≤ max_varint_len
unfolding put_uvarint
put_uvarint-short x = length-put_in max_varint_len x
