-- ===== src/Segments/Reading.antt =====
-- What an iterator reads of the messages in a file.
use eventter.Base.{ℕ, ◌+◌, ◌-◌, ◌^◌, ◌<◌, ◌≡◌, ap, sym, ◌∙◌, arith}
use eventter.Base.{
  Bool, true, false, List, [], ◌++◌, append_assoc, append-nil, ltb, ◌==◌, length, length-append,
  take, drop,
}
use eventter.Segments.Varint.{value, max_varint_len, put_uvarint, uvarint, take_all}
use eventter.Segments.File.{
  File, frame, Iterator, section, next_pass, Next, next, write, written, Outcome, complete,
  closed_handle, torn, torn_for_good, read_at,
}
use eventter.Base.Int.{pos}
use eventter.Base.{some}
use eventter.Segments.Frames.{drop-append, take-append_self, frame_read, length-frame, not_above}

section-frame :
    (before m after : List ℕ) (f : File) (it : Iterator)
    → f.bytes ≡ before ++ (frame m ++ after)
    → it.offset ≡ length before
    → it.end_offset ≡ length f.bytes
    → section f it ≡ frame m ++ after
section-frame before m after f it e o end =
    let left : it.end_offset - it.offset ≡ length (frame m ++ after) =
      omega (arith, ap length e, length-append before (frame m ++ after)) in
    let rest : drop it.offset f.bytes ≡ frame m ++ after =
      ap (λ n. drop n f.bytes) o
      ∙ ap (drop (length before)) e
      ∙ drop-append before (frame m ++ after) in
    ap (λ n. take n (drop it.offset f.bytes)) left
    ∙ ap (take (length (frame m ++ after))) rest
    ∙ take_all _ (frame m ++ after) (omega arith)

next-value :
    (f : File) (it : Iterator) (size n : ℕ)
    → it.closed ≡ false
    → it.term ≡ f.term
    → uvarint (take max_varint_len (section f it)) ≡ value size n
    → ltb (length (drop n (section f it))) size ≡ false
    → next f it
      ≡ Next.message
          (take size (drop n (section f it)))
          it.offset
          (it.offset + (n + size))
          (record it { offset = it.offset + (n + size) })
unfolding next next_pass
next-value f it size n c t e enough =
    let same : (f.term == it.term) ≡ true = ground (arith, t) in
    rw (c, next, next_pass, same, e, enough)
      (ap
        (λ b.
          Next.message (take size (drop n (section f it))) it.offset (it.offset + (n + size))
            (record it { offset = it.offset + (n + size); closed = b }))
        c)

-- Reading.
pub next-frame :
    (before m after : List ℕ) (f : File) (it : Iterator)
    → f.bytes ≡ before ++ (frame m ++ after)
    → it.offset ≡ length before
    → it.end_offset ≡ length f.bytes
    → it.closed ≡ false
    → it.term ≡ f.term
    → length m < 2 ^ 63
    → next f it
      ≡ Next.message m
          (length before)
          (length (before ++ frame m))
          (record it { offset = length (before ++ frame m) })
unfolding next next_pass
next-frame before m after f it e o end c t small =
    let prefix : uvarint (take max_varint_len (section f it))
        ≡ value (length m) (length (put_uvarint (length m))) =
      ap (λ l. uvarint (take max_varint_len l)) (section-frame before m after f it e o end)
      ∙ frame_read m after small in
    let behind : drop (length (put_uvarint (length m))) (section f it) ≡ m ++ after =
      ap (drop (length (put_uvarint (length m))))
        (section-frame before m after f it e o end ∙ append_assoc (put_uvarint (length m)) m after)
      ∙ drop-append (put_uvarint (length m)) (m ++ after) in
    let enough : ltb (length (drop (length (put_uvarint (length m))) (section f it))) (length m)
        ≡ false =
      not_above _ _ (omega (arith, ap length behind, length-append m after)) in
    let got : take (length m) (drop (length (put_uvarint (length m))) (section f it)) ≡ m =
      ap (take (length m)) behind ∙ take-append_self m after in
    let stop : it.offset + (length (put_uvarint (length m)) + length m)
        ≡ length (before ++ frame m) =
      omega (arith, o, length-append before (frame m), length-frame m) in
    next-value f it (length m) (length (put_uvarint (length m))) c t prefix enough
    ∙ ap
        (λ l.
          Next.message l it.offset (it.offset + (length (put_uvarint (length m)) + length m))
            (record it { offset = it.offset + (length (put_uvarint (length m)) + length m) }))
        got
    ∙ ap (λ q. Next.message m it.offset q (record it { offset = q })) stop
    ∙ ap
        (λ q.
          Next.message m q (length (before ++ frame m))
            (record it { offset = length (before ++ frame m) }))
        o

write-written :
    (f f' : File) (m : List ℕ) (outcome : Outcome)
    → write f m outcome ≡ written f'
    → f' ≡ record f { bytes = f.bytes ++ frame m; offset = f.offset + length (frame m) }
unfolding write
write-written f f' m complete e = ground arith
write-written f f' m closed_handle e = ground arith
write-written f f' m torn e = ground arith
write-written f f' m torn_for_good e = ground arith

read_at-some :
    (f : File) (offset : ℕ) (wait : Bool) (it : Iterator)
    → read_at f (pos offset) wait ≡ some it
    → it ≡ record {
      term = f.term;
      offset = offset;
      end_offset = f.offset;
      wait = wait;
      closed = false;
    }
unfolding read_at
read_at-some f offset wait it e = ground arith

-- Where the offset is the number of bytes of the file, a message of less than 2^63 bytes that
-- `Write` has written is what `Next` returns on an iterator at the offset before, with the offsets
-- before and behind it, and the offset is the number of bytes again.
pub next-write :
    (f f' : File) (m : List ℕ) (outcome : Outcome) (it : Iterator)
    → f.offset ≡ length f.bytes
    → write f m outcome ≡ written f'
    → read_at f' (pos f.offset) false ≡ some it
    → length m < 2 ^ 63
    → (more : Iterator) × (next f' it ≡ Next.message m f.offset f'.offset more)
      × (f'.offset ≡ length f'.bytes)
next-write f f' m outcome it whole e r small =
    let now = write-written f f' m outcome e in
    let reader = read_at-some f' f.offset false it r in
    let bytes : f'.bytes ≡ f.bytes ++ (frame m ++ []) =
      ap (λ (x : File). x.bytes) now ∙ ap (λ l. f.bytes ++ l) (sym (append-nil (frame m))) in
    let end : length (f.bytes ++ frame m) ≡ f'.offset =
      length-append f.bytes (frame m)
      ∙ ap (λ n. n + length (frame m)) (sym whole)
      ∙ sym (ap (λ (x : File). x.offset) now) in
    let kept : f'.offset ≡ length f'.bytes =
      sym end ∙ sym (ap (λ (x : File). length x.bytes) now) in
    let at : it.offset ≡ f.offset = ap (λ (x : Iterator). x.offset) reader in
    (
      record it { offset = length (f.bytes ++ frame m) },
      next-frame f.bytes m [] f' it bytes (at ∙ whole)
            (ap (λ (x : Iterator). x.end_offset) reader ∙ kept)
            (ap (λ (x : Iterator). x.closed) reader) (ap (λ (x : Iterator). x.term) reader) small
          ∙ ap
              (λ n.
                Next.message m n (length (f.bytes ++ frame m))
                  (record it { offset = length (f.bytes ++ frame m) }))
              (sym whole)
          ∙ ap (λ n. Next.message m f.offset n (record it { offset = length (f.bytes ++ frame m) }))
              end,
      kept,
    )
