-- ===== src/Segments/Dir.antt =====
-- mq/segments/dir.go: which files are open, how often, and since when they have been idle. The 64
-- buckets are by the id, so that an id is always found in the same one: here they are one list.
-- What the operating system answers is an argument; a file's handle is a number.
use eventter.Base.{ℕ, Bool, true, false, not, ◌||◌, List, [], ◌∷◌, Option, none, some}
use eventter.Base.{◌==◌, ltb, if◌then◌else◌, find, filter, any, update_first}
use eventter.Base.Int.{ℤ, up, down, pos, ltb_ℤ}

-- An entry of `fileMaps`. `rc` is the count of references; `idle` is none for time.Time{}.
pub record Entry : Type 0 where
  pub id : ℕ
  pub handle : ℕ
  pub rc : ℤ
  pub idle : Option ℤ

pub record Dir : Type 0 where
  pub idle_timeout : ℕ
  pub files : List Entry

-- `NewDir`, where the directory could be made; the timeout is not negative.
unfoldable pub new_dir : ℕ → Dir
new_dir idle_timeout = record { idle_timeout = idle_timeout; files = [] }

-- `rc > 0`
abbrev pub is_used : ℤ → Bool
is_used rc = ltb_ℤ (pos 0) rc

abbrev pub has_id : ℕ → Entry → Bool
has_id id e = e.id == id

abbrev pub take_up : Entry → Entry
take_up e = record e { rc = up e.rc; idle = none }

pub data OpenedFile : Type 0 where
  invalid_id open_failed : OpenedFile
  opened_file : Dir → ℕ → OpenedFile

-- `Open`; `answer` is the new handle, or none if the directory or the file cannot be opened.
unfoldable pub open_id : Dir → ℕ → Option ℕ → OpenedFile
open_id d id answer = elim (id == 0) [
  | true ↦ invalid_id
  | false ↦ elim (find (has_id id) d.files) [
    | some e ↦ opened_file (record d { files = update_first (has_id id) take_up d.files }) e.handle
    | none ↦ elim answer [
      | none ↦ open_failed
      | some handle ↦
          opened_file
            (record d {
              files = record { id = id; handle = handle; rc = pos 1; idle = none } ∷ d.files;
            })
            handle
    ]
  ]
]

-- `Exists`; `on_disk` is whether os.Stat finds the file.
unfoldable pub exists : Dir → ℕ → Bool → Bool
exists d id on_disk = if id == 0 then false else if any (has_id id) d.files then true else on_disk

-- `closeFile`: the entry goes, and the handle is closed.
abbrev pub close_id : ℕ → List Entry → List Entry
close_id id files = filter (λ e. not (has_id id e)) files

pub data Released : Type 0 where
  invalid_id not_belongs : Released
  released : Dir → Released

-- `Release` of the file that is kept under this id, at the time `now`; see `release_file`.
unfoldable pub release_id : Dir → ℕ → ℤ → Released
release_id d id now = elim (id == 0) [
  | true ↦ Released.invalid_id
  | false ↦ elim (find (has_id id) d.files) [
    | none ↦ not_belongs
    | some e ↦ released (record d {
      files =
          if is_used (down e.rc)
          then update_first (has_id id) (λ x. record x { rc = down x.rc }) d.files
          else if ltb 0 d.idle_timeout
          then update_first (has_id id) (λ x. record x { rc = down x.rc; idle = some now }) d.files
          else close_id id d.files;
    })
  ]
]

-- `Release` of any file: one that the directory no longer keeps counts its own references, none by
-- then, and its own idle time; where idle files are not kept, the entry of its id goes all the same.
unfoldable pub release_file : Dir → Entry → ℤ → Released
unfolding release_id
release_file d f now = elim (f.id == 0) [
  | true ↦ Released.invalid_id
  | false ↦ elim (find (has_id f.id) d.files) [
    | none ↦ not_belongs
    | some e ↦
        if e.handle == f.handle
        then release_id d f.id now
        else if is_used (down f.rc) || ltb 0 d.idle_timeout
        then released d
        else released (record d { files = close_id f.id d.files })
  ]
]

pub data Removed : Type 0 where
  invalid_id in_use : Removed
  removed : Dir → Removed

-- `Remove`, where closing the file and os.Remove go through.
unfoldable pub remove_id : Dir → ℕ → Removed
remove_id d id = elim (id == 0) [
  | true ↦ Removed.invalid_id
  | false ↦ elim (find (has_id id) d.files) [
    | none ↦ removed d
    | some e ↦ if is_used e.rc then in_use else removed (record d { files = close_id id d.files })
  ]
]

-- A round of `closeIdle`: the files that have been idle since before `t` are closed.
abbrev pub is_expired : ℤ → Entry → Bool
is_expired t e = elim e.idle [ none ↦ false | some since ↦ ltb_ℤ since t ]

unfoldable pub close_idle : Dir → ℤ → Dir
close_idle d t = record d { files = filter (λ e. not (is_expired t e)) d.files }

-- `Close`
unfoldable pub close_dir : Dir → Dir
close_dir d = record d { files = [] }
