-- ===== src/Segments/Tests.antt =====
-- The theorems on segment files at a file of one message.
use eventter.Base.{
  ℕ, suc, ◌<◌, ◌^◌, ◌++◌, ◌≡◌, refl, arith, false, List, [], ◌∷◌, none, some, ◌⊎◌, inr, take,
  length,
}
use eventter.Base.Int.{pos}
use eventter.Segments.Varint.{put_uvarint}
use eventter.Segments.File.{
  File, Opened, opened, open_file, version, Iterator, frame, Next, next, write, written, complete,
  read_at,
}
use eventter.Segments.Dir.{Dir, open_id, opened_file}
use eventter.Segments.Use.{opens, Act-HasUsers}
use eventter.Segments.Entries.{used, unused, HasUsers}
use eventter.Segments.Frames.{frames}
use eventter.Segments.Opening.{cut_off, open_file-frames, open_file-torn}
use eventter.Segments.Reading.{next-write}

abbrev hello : List ℕ
hello = 104 ∷ 105 ∷ []

-- The file's first message whole, and one byte of the second.
abbrev torn_tail : List ℕ
torn_tail = put_uvarint 2 ++ (104 ∷ [])

short : length (frames (hello ∷ [])) < 2 ^ 61
unfolding put_uvarint
short = omega arith

long : 1 < length (put_uvarint 200)
unfolding put_uvarint
long = omega arith

open_file-frames_example :
    open_file (version ∷ (frames (hello ∷ []) ++ torn_tail)) 100
    ≡ opened (record {
      max_size = 100;
      bytes = version ∷ frames (hello ∷ []);
      offset = suc (length (frames (hello ∷ [])));
      term = 1;
    })
open_file-frames_example =
    open_file-frames (hello ∷ []) torn_tail 100 short
      (cut_off hello 1 refl (omega arith) (omega arith))

-- One of the two bytes of the length 200.
open_file-torn_example :
    open_file (version ∷ (frames (hello ∷ []) ++ take 1 (put_uvarint 200))) 100 ≡ Opened.bad_size
open_file-torn_example = open_file-torn (hello ∷ []) 200 1 100 short (omega arith) long

abbrev empty_file : File
empty_file = record { max_size = 100; bytes = version ∷ []; offset = 1; term = 1 }

abbrev one_message : File
one_message = record empty_file { bytes = version ∷ frame hello; offset = 4 }

abbrev reader : Iterator
reader = record { term = 1; offset = 1; end_offset = 4; wait = false; closed = false }

write_hello : write empty_file hello complete ≡ written one_message
unfolding write put_uvarint
write_hello = refl

read_hello : read_at one_message (pos 1) false ≡ some reader
unfolding read_at
read_hello = refl

next-write_example :
    (more : Iterator) × (next one_message reader ≡ Next.message hello 1 4 more)
    × (4 ≡ length one_message.bytes)
next-write_example =
    next-write empty_file one_message hello complete reader refl write_hello read_hello
      (omega arith)

-- File 6 without users, idle since 3, and file 70 with two.
abbrev two_files : Dir
two_files = record { idle_timeout = 5; files = unused 6 1 (pos 3) ∷ used 70 2 2 ∷ [] }

abbrev no_users : ℕ
no_users = 0

abbrev first_handle : ℕ
first_handle = 1

-- File 6 opened again.
abbrev taken_up : Dir
taken_up = record { idle_timeout = 5; files = used 6 1 1 ∷ used 70 2 2 ∷ [] }

two_files-open_id : open_id two_files 6 none ≡ opened_file taken_up 1
unfolding open_id
two_files-open_id = refl

Act-HasUsers_example : HasUsers taken_up 6 1 1 × ((no_users ≡ 0) ⊎ (first_handle ≡ 1))
Act-HasUsers_example =
    Act-HasUsers two_files taken_up 6 1 1 0 1 (inr (pos 3, refl))
      (opens none two_files-open_id refl)
