-- ===== src/Segments/Opening.antt =====
-- What opening makes of a file that holds whole messages, or ends within one.
use eventter.Base.{ℕ, zero, suc, ◌+◌, ◌^◌, ◌<◌, ◌≤◌, ◌≡◌, refl, ap, sym, ◌∙◌, arith}
use eventter.Base.{
  List, [], ◌∷◌, ◌++◌, append_assoc, append-nil, ltb, if◌then◌else◌, length, length-append, take,
  drop,
}
use eventter.Segments.Varint.{
  value, too_small, max_varint_len, put_uvarint, uvarint, uvarint-put_uvarint, uvarint-torn,
  put_uvarint-length, put_uvarint-short,
}
use eventter.Segments.File.{
  Opened, opened, Scan, scanned, scan_messages, opened_at, open_file, frame, version,
}
use eventter.Segments.Frames.{
  drop-append, take-append_self, frames, frame_read, length-frame, not_above, above, length-take_le,
}

-- One round of the loop at a length that can be read.
scan-step :
    (fuel : ℕ) (bytes : List ℕ) (offset size n : ℕ)
    → offset < length bytes
    → uvarint (take max_varint_len (drop offset bytes)) ≡ value size n
    → offset + (n + size) < 2 ^ 63
    → scan_messages (suc fuel) bytes offset ≡ (
        if ltb (length bytes) (offset + (n + size))
        then scanned (take offset bytes) offset
        else scan_messages fuel bytes (offset + (n + size)))
unfolding scan_messages
scan-step fuel bytes offset size n h e small = ground arith

scan-frame :
    (fuel : ℕ) (pre m rest : List ℕ)
    → length pre + length (frame m) < 2 ^ 63
    → scan_messages (suc fuel) (pre ++ (frame m ++ rest)) (length pre)
      ≡ scan_messages fuel (pre ++ (frame m ++ rest)) (length (pre ++ frame m))
scan-frame fuel pre m rest h =
    let n = put_uvarint-length (length m) in
    let total : length (pre ++ (frame m ++ rest)) ≡ length pre + (length (frame m) + length rest) =
      omega (arith, length-append pre (frame m ++ rest), length-append (frame m) rest) in
    let prefix : uvarint (take max_varint_len (drop (length pre) (pre ++ (frame m ++ rest))))
        ≡ value (length m) (length (put_uvarint (length m))) =
      ap (λ l. uvarint (take max_varint_len l)) (drop-append pre (frame m ++ rest))
      ∙ frame_read m rest (omega (arith, length-frame m)) in
    let end : length (pre ++ frame m) ≡ length pre + (length (put_uvarint (length m)) + length m) =
      omega (arith, length-append pre (frame m), length-frame m) in
    let fits : length (pre ++ frame m) ≤ length (pre ++ (frame m ++ rest)) =
      omega (arith, total, end, length-frame m) in
    scan-step fuel (pre ++ (frame m ++ rest)) (length pre) (length m)
      (length (put_uvarint (length m))) (omega (arith, total, length-frame m, n)) prefix
      (omega (arith, length-frame m))
    ∙ ap
        (λ e.
          if ltb (length (pre ++ (frame m ++ rest))) e
          then scanned (take (length pre) (pre ++ (frame m ++ rest))) (length pre)
          else scan_messages fuel (pre ++ (frame m ++ rest)) e)
        (sym end)
    ∙ rw (not_above _ _ fits)

-- What is left behind the whole messages: nothing, or a part of one with all of its length.
pub data Tail (rest : List ℕ) : Type 0 where
  nothing : rest ≡ [] → Tail rest
  cut_off :
      (m : List ℕ) (k : ℕ)
      → rest ≡ put_uvarint (length m) ++ take k m
      → k < length m
      → length m < 2 ^ 61
      → Tail rest

scan_end :
    (fuel : ℕ) (bytes : List ℕ)
    → scan_messages fuel bytes (length bytes) ≡ scanned bytes (length bytes)
unfolding scan_messages
scan_end zero bytes = refl
scan_end (suc fuel) bytes =
    rw (not_above (length bytes) (length bytes) (omega arith), scan_messages)

scan-Tail :
    (fuel : ℕ) (pre rest : List ℕ)
    → length pre < 2 ^ 62
    → length rest ≤ fuel
    → Tail rest
    → scan_messages fuel (pre ++ rest) (length pre) ≡ scanned pre (length pre)
scan-Tail fuel pre rest h room (nothing e) = rw (e, append-nil pre) (scan_end fuel pre)
scan-Tail zero pre rest h room (cut_off m k e l small) =
    let some_bytes = put_uvarint-length (length m) in
    absurd (omega (arith, ap length e, length-append (put_uvarint (length m)) (take k m)))
scan-Tail (suc fuel) pre rest h room (cut_off m k e l small) =
    let short = put_uvarint-short (length m) in
    let some_bytes = put_uvarint-length (length m) in
    let rest_length : length rest ≡ length (put_uvarint (length m)) + k =
      ap length e
      ∙ length-append (put_uvarint (length m)) (take k m)
      ∙ ap (λ j. length (put_uvarint (length m)) + j) (length-take_le k m (omega arith)) in
    let total = length-append pre rest in
    let prefix : uvarint (take max_varint_len (drop (length pre) (pre ++ rest)))
        ≡ value (length m) (length (put_uvarint (length m))) =
      ap (λ l. uvarint (take max_varint_len l)) (drop-append pre rest ∙ e)
      ∙ uvarint-put_uvarint (length m) (take k m) (omega arith) in
    scan-step fuel (pre ++ rest) (length pre) (length m) (length (put_uvarint (length m)))
      (omega (arith, total, rest_length, some_bytes)) prefix (omega arith)
    ∙ rw
        (above (length (pre ++ rest)) (length pre + (length (put_uvarint (length m)) + length m))
          (omega (arith, total, rest_length)))
        (ap (λ l. scanned l (length pre)) (take-append_self pre rest))

-- A scan goes through whole messages to what is left behind them, with fuel for that.
scan-frames :
    (fuel : ℕ) (ms : List (List ℕ)) (pre rest : List ℕ) (out : Scan)
    → length (pre ++ frames ms) < 2 ^ 62
    → length (frames ms ++ rest) ≤ fuel
    → ((left : ℕ)
        → length rest ≤ left
        → scan_messages left ((pre ++ frames ms) ++ rest) (length (pre ++ frames ms)) ≡ out)
    → scan_messages fuel (pre ++ (frames ms ++ rest)) (length pre) ≡ out
scan-frames fuel [] pre rest out h room last =
    ap (λ l. scan_messages fuel (l ++ rest) (length l)) (sym (append-nil pre)) ∙ last fuel room
scan-frames zero (m ∷ ms) pre rest out h room last =
    let n = put_uvarint-length (length m) in
    absurd (
      omega (
        arith,
        n,
        length-frame m,
        length-append (frame m) (frames ms),
        length-append (frame m ++ frames ms) rest,
      ))
scan-frames (suc fuel) (m ∷ ms) pre rest out h room last =
    let n = put_uvarint-length (length m) in
    let one : (frame m ++ frames ms) ++ rest ≡ frame m ++ (frames ms ++ rest) =
      append_assoc (frame m) (frames ms) rest in
    let all : pre ++ (frame m ++ frames ms) ≡ (pre ++ frame m) ++ frames ms =
      sym (append_assoc pre (frame m) (frames ms)) in
    let more : pre ++ (frame m ++ (frames ms ++ rest)) ≡ (pre ++ frame m) ++ (frames ms ++ rest) =
      sym (append_assoc pre (frame m) (frames ms ++ rest)) in
    let sizes = length-append pre (frame m ++ frames ms) in
    let sizes' = length-append (frame m) (frames ms) in
    let room' : length (frames ms ++ rest) ≤ fuel =
      omega
        (arith, n, length-frame m, ap length one, length-append (frame m) (frames ms ++ rest)) in
    ap (λ l. scan_messages (suc fuel) (pre ++ l) (length pre)) one
    ∙ scan-frame fuel pre m (frames ms ++ rest) (omega (arith, sizes, sizes'))
    ∙ ap (λ l. scan_messages fuel l (length (pre ++ frame m))) more
    ∙ scan-frames fuel ms (pre ++ frame m) rest out (omega (arith, ap length all)) room'
        (λ left r. ap (λ l. scan_messages left (l ++ rest) (length l)) (sym all) ∙ last left r)

-- A file of the version byte and whole messages, of less than 2^61 bytes, with nothing behind them
-- or the whole length and a part of the bytes of one message more, itself of less than 2^61 bytes,
-- opens as just the version byte and the whole messages, with the offset at their end.
pub open_file-frames :
    (ms : List (List ℕ)) (rest : List ℕ) (max_size : ℕ)
    → length (frames ms) < 2 ^ 61
    → Tail rest
    → open_file (version ∷ (frames ms ++ rest)) max_size
      ≡ opened (record {
        max_size = max_size;
        bytes = version ∷ frames ms;
        offset = suc (length (frames ms));
        term = 1;
      })
unfolding open_file
open_file-frames ms rest max_size h tail = ap (opened_at max_size) (
    scan-frames (length (frames ms ++ rest)) ms (version ∷ []) rest
      (scanned (version ∷ frames ms) (suc (length (frames ms)))) (omega arith) (omega arith)
      (λ left r. scan-Tail left (version ∷ frames ms) rest (omega arith) r tail))

scan-torn :
    (fuel : ℕ) (pre rest : List ℕ) (x k : ℕ)
    → rest ≡ take k (put_uvarint x)
    → 0 < k
    → k < length (put_uvarint x)
    → length rest ≤ fuel
    → scan_messages fuel (pre ++ rest) (length pre) ≡ Scan.bad_size
unfolding scan_messages
scan-torn zero pre rest x k e some_bytes short room =
    absurd (omega (arith, ap length e, length-take_le k (put_uvarint x)))
scan-torn (suc fuel) pre rest x k e some_bytes short room =
    let here : length pre < length (pre ++ rest) =
      omega (arith, length-append pre rest, ap length e, length-take_le k (put_uvarint x)) in
    let prefix : uvarint (take max_varint_len (drop (length pre) (pre ++ rest))) ≡ too_small =
      ap (λ l. uvarint (take max_varint_len l)) (drop-append pre rest ∙ e)
      ∙ uvarint-torn x k short in
    rw (above _ _ here, scan_messages, prefix) refl

-- A file of the version byte and whole messages, of less than 2^61 bytes, that ends within the
-- bytes of a length does not open.
pub open_file-torn :
    (ms : List (List ℕ)) (x k max_size : ℕ)
    → length (frames ms) < 2 ^ 61
    → 0 < k
    → k < length (put_uvarint x)
    → open_file (version ∷ (frames ms ++ take k (put_uvarint x))) max_size ≡ Opened.bad_size
unfolding open_file
open_file-torn ms x k max_size h some_bytes short = ap (opened_at max_size) (
    scan-frames (length (frames ms ++ take k (put_uvarint x))) ms (version ∷ []) _ Scan.bad_size
      (omega arith) (omega arith)
      (λ left r. scan-torn left (version ∷ frames ms) _ x k refl some_bytes short r))
