-- ===== src/Segments/File.antt =====
-- mq/segments/file.go and iterator.go. A segment's file of the operating system is its bytes, with
-- `offset` their number; what a write may come to is an argument. Sizes and offsets are numbers, and
-- a negative int64 is refused where the code refuses it. `id`, `rc` and `idle` belong to the
-- directory, and are not part of this. An operation that blocks answers `wait`.
-- Calls of the operating system other than that write go through. A length that the file does not
-- hold fails to read, also one for which the code could not make the buffer.
use eventter.Base.{ℕ, zero, suc, ◌+◌, ◌-◌, ◌%◌, ◌^◌, Bool, true, false, not, List, [], ◌∷◌, ◌++◌}
use eventter.Base.{◌==◌, ltb, leb, if◌then◌else◌, length, take, drop, Option, none, some}
use eventter.Base.Int.{ℤ, pos, negsuc}
use eventter.Segments.Varint.{too_small, overflow, value, max_varint_len, put_uvarint, uvarint}

abbrev pub version : ℕ
version = 1

abbrev pub truncate_all : ℕ
truncate_all = 0

pub record File : Type 0 where
  pub max_size : ℕ
  pub bytes : List ℕ
  pub offset : ℕ
  pub term : ℕ

-- How `Open` ends. `goes_back` is where a length, or the offset behind it, is no int64, and the code
-- steps to a smaller offset, or, for the ten greatest lengths, to the same one or one a few bytes on.
pub data Opened : Type 0 where
  bad_version bad_size goes_back : Opened
  opened : File → Opened

-- The end of a scan: the bytes that are left, and how many they are.
pub data Scan : Type 0 where
  bad_size goes_back : Scan
  scanned : List ℕ → ℕ → Scan

-- `increment` and what the loop does with it.
abbrev pub in_range : ℕ → ℕ → Bool
in_range offset increment = ltb (offset + increment) (2 ^ 63)

-- The loop of `Open` on fuel: each round moves `offset` up by a byte at least.
unfoldable pub scan_messages : ℕ → List ℕ → ℕ → Scan
scan_messages zero bytes offset = scanned bytes offset
scan_messages (suc fuel) bytes offset = elim (ltb offset (length bytes)) [
  | false ↦ scanned bytes offset
  | true ↦ elim (uvarint (take max_varint_len (drop offset bytes))) [
    | too_small ↦ Scan.bad_size
    | overflow ↦ Scan.goes_back
    | value size n ↦ elim (in_range offset (n + size)) [
      | false ↦ Scan.goes_back
      | true ↦ elim (ltb (length bytes) (offset + (n + size))) [
        | true ↦ scanned (take offset bytes) offset
        | false ↦ scan_messages fuel bytes (offset + (n + size))
      ]
    ]
  ]
]

abbrev pub opened_at : ℕ → Scan → Opened
opened_at max_size bad_size = Opened.bad_size
opened_at max_size goes_back = Opened.goes_back
opened_at max_size (scanned bytes offset) =
    opened (record { max_size = max_size; bytes = bytes; offset = offset; term = 1 })

-- `Open`, given what the file holds.
unfoldable pub open_file : List ℕ → ℕ → Opened
open_file [] max_size = opened_at max_size (scanned (version ∷ []) 1)
open_file (v ∷ bytes) max_size =
    let scan = scan_messages (length bytes) (v ∷ bytes) 1 in
    if v == version then opened_at max_size scan else bad_version

-- What the operating system makes of a write: all, or the first bytes only; and then the truncation
-- behind it. `closed_handle` is os.ErrClosed.
pub data Outcome : Type 0 where
  complete closed_handle torn torn_for_good : Outcome

pub data Written : Type 0 where
  full write_failed panics : Written
  written : File → Written

-- The bytes of a message in the file.
abbrev pub frame : List ℕ → List ℕ
frame message = put_uvarint (length message) ++ message

-- `Write`; a failure leaves the file as it was, or ends the process.
unfoldable pub write : File → List ℕ → Outcome → Written
write f message outcome = if leb f.max_size f.offset then full else elim outcome [
  | complete ↦
      written
        (record f { bytes = f.bytes ++ frame message; offset = f.offset + length (frame message) })
  | closed_handle ↦ write_failed
  | torn ↦ write_failed
  | torn_for_good ↦ panics
]

-- `IsFull`
unfoldable pub is_full : File → Bool
is_full f = leb f.max_size f.offset

pub data Truncated : Type 0 where
  negative would_extend : Truncated
  truncated : File → Truncated

-- What `Truncate` does behind its checks of the size, where the file's truncation succeeds.
abbrev pub cut_to : File → ℕ → Truncated
cut_to f size =
    if ltb f.offset size
    then would_extend
    else truncated
        (record f { bytes = take size f.bytes; offset = size; term = (f.term + 1) % 2 ^ 32 })

-- `Truncate`; size 0 keeps the byte of the version.
unfoldable pub truncate : File → ℤ → Truncated
truncate f (negsuc n) = negative
truncate f (pos size) = if size == truncate_all then cut_to f 1 else cut_to f size

-- `Close`
unfoldable pub close_file : File → File
close_file f = record f { term = (f.term + 1) % 2 ^ 32 }

-- A reader that has read up to `offset` of the section that ends at `end_offset`.
pub record Iterator : Type 0 where
  pub term : ℕ
  pub offset : ℕ
  pub end_offset : ℕ
  pub wait : Bool
  pub closed : Bool

-- `ReadAt`: `none` for an offset that is not positive or out of bounds.
unfoldable pub read_at : File → ℤ → Bool → Option Iterator
read_at f (negsuc n) wait = none
read_at f (pos offset) wait =
    if ltb offset 1
    then none
    else if ltb f.offset offset
    then none
    else some (record {
      term = f.term;
      offset = offset;
      end_offset = f.offset;
      wait = wait;
      closed = false;
    })

-- `Read`
unfoldable pub read : File → Bool → Option Iterator
unfolding read_at
read f wait = read_at f (pos 1) wait

-- How one pass of `Next` ends: an error closes the iterator, `at_end` is where it may wait for more.
pub data Pass : Type 0 where
  iterator_closed iterator_invalid at_end discard_failed read_failed : Pass
  message : List ℕ → ℕ → ℕ → Iterator → Pass

-- The bytes that the reader has still to give.
abbrev pub section : File → Iterator → List ℕ
section f it = take (it.end_offset - it.offset) (drop it.offset f.bytes)

abbrev pub read_message : Iterator → List ℕ → ℕ → ℕ → Pass
read_message it bytes size n =
    if ltb (length (drop n bytes)) size
    then read_failed
    else message (take size (drop n bytes)) it.offset (it.offset + (n + size))
        (record it { offset = it.offset + (n + size) })

unfoldable pub next_pass : File → Iterator → Pass
next_pass f it =
    if it.closed
    then iterator_closed
    else if not (f.term == it.term)
    then iterator_invalid
    else elim (uvarint (take max_varint_len (section f it))) [
      | too_small ↦ at_end
      | overflow ↦ discard_failed
      | value size n ↦ read_message it (section f it) size n
    ]

-- `nextWait` from the lock on; `extended` is where the code reads on.
pub data Waited : Type 0 where
  eof closed invalid wait : Waited
  extended : Iterator → Waited

unfoldable pub next_wait : File → Iterator → Waited
next_wait f it =
    if leb f.max_size it.end_offset
    then eof
    else if not (f.term == it.term)
    then invalid
    else if f.offset == it.end_offset
    then (if it.closed then closed else wait)
    else extended (record it { end_offset = f.offset })

-- What `Next` returns, and the iterator behind it, which an error closes; `again` is the jump back
-- with the section that `nextWait` has set.
pub data Next : Type 0 where
  closed invalid wait : Next
  eof failed shut again : Iterator → Next
  message : List ℕ → ℕ → ℕ → Iterator → Next

abbrev pub shut_down : Iterator → Iterator
shut_down it = record it { closed = true }

abbrev pub at_the_end : File → Iterator → Next
at_the_end f it = if not it.wait then Next.eof (shut_down it) else elim (next_wait f it) [
  | eof ↦ Next.eof (shut_down it)
  | closed ↦ Next.shut (shut_down it)
  | invalid ↦ Next.shut (shut_down it)
  | wait ↦ Next.wait
  | extended more ↦ again more
]

-- `Next`, one pass of it.
unfoldable pub next : File → Iterator → Next
unfolding next_pass next_wait
next f it = elim (next_pass f it) [
  | iterator_closed ↦ Next.closed
  | iterator_invalid ↦ Next.invalid
  | at_end ↦ at_the_end f it
  | discard_failed ↦ failed (shut_down it)
  | read_failed ↦ failed (shut_down it)
  | message bytes offset commit more ↦ Next.message bytes offset commit more
]

-- `Iterator.Close`
unfoldable pub close_iterator : Iterator → Iterator
close_iterator it = shut_down it
