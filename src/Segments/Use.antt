-- ===== src/Segments/Use.antt =====
-- Files in use stay open: the count of references and what closes a file.
use eventter.Base.{ℕ, zero, suc, ◌≡◌, ◌≢◌, refl, ap, sym, ◌∙◌, ◌⊎◌, inl, inr, arith}
use eventter.Base.{Bool, not, [], ◌∷◌, Option, some, Option-cases, Bool-cases}
use eventter.Base.{◌==◌, ltb, filter, update_first, subst, ==_iff}
use eventter.Base.Int.{ℤ, down}
use eventter.Segments.Dir.{
  Entry, Dir, has_id, take_up, opened_file, open_id, released, release_id, removed, remove_id,
  close_id, is_expired, close_idle,
}
use eventter.Segments.Others.{open_other, release_other, remove_other}
use eventter.Segments.Entries.{
  used, unused, entries, UsersOf, HasUsers, found_entry, no_entry, entries-update_own,
  entries-close_own, entries-filter,
}

-- One operation on the directory, as it is for the users of `id`: `n` before, of the file `handle`,
-- and `m` behind it, of the file `handle'`. A file is released by a user that has it.
pub data Act (d d' : Dir) (id handle handle' n m : ℕ) : Type 0 where
  opens :
      (answer : Option ℕ)
      → open_id d id answer ≡ opened_file d' handle'
      → m ≡ suc n
      → Act d d' id handle handle' n m
  releases :
      (now : ℤ)
      → release_id d id now ≡ released d'
      → n ≡ suc m
      → handle' ≡ handle
      → Act d d' id handle handle' n m
  other_opens :
      (other : ℕ) (answer : Option ℕ) (h : ℕ)
      → id ≢ other
      → open_id d other answer ≡ opened_file d' h
      → m ≡ n
      → handle' ≡ handle
      → Act d d' id handle handle' n m
  other_releases :
      (other : ℕ) (now : ℤ)
      → id ≢ other
      → release_id d other now ≡ released d'
      → m ≡ n
      → handle' ≡ handle
      → Act d d' id handle handle' n m
  removes :
      (any_id : ℕ)
      → remove_id d any_id ≡ removed d'
      → m ≡ n
      → handle' ≡ handle
      → Act d d' id handle handle' n m
  expires :
      (t : ℤ) → d' ≡ close_idle d t → m ≡ n → handle' ≡ handle → Act d d' id handle handle' n m

-- `Open` of a file that is kept takes it up; of one that is not, makes the first user of a new one.
open_kept :
    (d d' : Dir) (id h : ℕ) (answer : Option ℕ) (e : Entry)
    → entries id d.files ≡ e ∷ []
    → open_id d id answer ≡ opened_file d' h
    → (entries id d'.files ≡ take_up e ∷ []) × (h ≡ e.handle)
unfolding open_id
open_kept d d' id h answer e one k = elim (Bool-cases (id == 0)) [
  | inl z ↦ ground arith
  | inr p ↦
      let found = found_entry id d.files e one in
      let now : record d { files = update_first (has_id id) take_up d.files } ≡ d' = ground arith in
      (
        subst (λ (x : Dir). entries id x.files ≡ take_up e ∷ []) now
            (entries-update_own id take_up d.files e (λ x. refl) one),
        ground (arith, found, k, p),
      )
]

open_fresh :
    (d d' : Dir) (id h : ℕ) (answer : Option ℕ)
    → entries id d.files ≡ []
    → open_id d id answer ≡ opened_file d' h
    → entries id d'.files ≡ used id h 1 ∷ []
unfolding open_id
open_fresh d d' id h answer gone k = elim (Bool-cases (id == 0)) [
  | inl z ↦ ground arith
  | inr p ↦ elim (Option-cases answer) [
    | inl a ↦ ground (arith, no_entry id d.files gone)
    | inr (new, a) ↦
        let found = no_entry id d.files gone in
        let same : new ≡ h = ground arith in
        let now : record d { files = used id new 1 ∷ d.files } ≡ d' = ground arith in
        subst (λ (x : Dir). entries id x.files ≡ used id h 1 ∷ []) now (ground (arith, gone, same))
  ]
]

open-HasUsers :
    (d d' : Dir) (id handle n h : ℕ) (answer : Option ℕ)
    → HasUsers d id handle n
    → open_id d id answer ≡ opened_file d' h
    → HasUsers d' id h (suc n) × ((n ≡ 0) ⊎ (h ≡ handle))
open-HasUsers d d' id handle zero h answer (inl gone) k =
    (open_fresh d d' id h answer gone k, inl refl)
open-HasUsers d d' id handle zero h answer (inr (since, one)) k =
    let (after, same) = open_kept d d' id h answer (unused id handle since) one k in
    (rw same after, inl refl)
open-HasUsers d d' id handle (suc n) h answer one k =
    let (after, same) = open_kept d d' id h answer (used id handle (suc n)) one k in
    (rw same after, inr same)

release-HasUsers :
    (d d' : Dir) (id handle m : ℕ) (now : ℤ)
    → HasUsers d id handle (suc m)
    → release_id d id now ≡ released d'
    → HasUsers d' id handle m
unfolding release_id
release-HasUsers d d' id handle zero t one k = elim (Bool-cases (id == 0)) [
  | inl z ↦ ground arith
  | inr p ↦
      let found = found_entry id d.files (used id handle 1) one in
      elim (Bool-cases (ltb 0 d.idle_timeout)) [
        | inl keep ↦
            let now : record d {
              files =
                  update_first (has_id id) (λ x. record x { rc = down x.rc; idle = some t })
                    d.files;
            }
                ≡ d' =
              ground arith in
            subst (λ (x : Dir). HasUsers x id handle 0) now
              (inr (
                t,
                entries-update_own id (λ x. record x { rc = down x.rc; idle = some t }) d.files
                    (used id handle 1) (λ x. refl) one,
              ))
        | inr drop ↦
            let now : record d { files = close_id id d.files } ≡ d' = ground arith in
            subst (λ (x : Dir). HasUsers x id handle 0) now (inl (entries-close_own id d.files))
      ]
]
release-HasUsers d d' id handle (suc m) t one k = elim (Bool-cases (id == 0)) [
  | inl z ↦ ground arith
  | inr p ↦
      let found = found_entry id d.files (used id handle (suc (suc m))) one in
      let now : record d {
        files = update_first (has_id id) (λ x. record x { rc = down x.rc }) d.files;
      }
          ≡ d' =
        ground arith in
      subst (λ (x : Dir). HasUsers x id handle (suc m)) now
        (entries-update_own id (λ x. record x { rc = down x.rc }) d.files
          (used id handle (suc (suc m))) (λ x. refl) one)
]

-- `Remove` goes through only where the file has no user, and leaves no entry.
remove_own :
    (d d' : Dir) (id handle n : ℕ)
    → HasUsers d id handle n
    → remove_id d id ≡ removed d'
    → HasUsers d' id handle n
unfolding remove_id
remove_own d d' id handle zero (inl gone) k = elim (Bool-cases (id == 0)) [
  | inl z ↦ ground arith
  | inr p ↦
      let found = no_entry id d.files gone in
      let now : d ≡ d' = ground arith in subst (λ (y : Dir). HasUsers y id handle 0) now (inl gone)
]
remove_own d d' id handle zero (inr (since, one)) k = elim (Bool-cases (id == 0)) [
  | inl z ↦ ground arith
  | inr p ↦
      let found = found_entry id d.files (unused id handle since) one in
      let now : record d { files = close_id id d.files } ≡ d' = ground arith in
      subst (λ (y : Dir). HasUsers y id handle 0) now (inl (entries-close_own id d.files))
]
remove_own d d' id handle (suc n) one k = elim (Bool-cases (id == 0)) [
  | inl z ↦ ground arith
  | inr p ↦ ground (arith, found_entry id d.files (used id handle (suc n)) one)
]

expire-HasUsers :
    (d : Dir) (id handle n : ℕ) (t : ℤ)
    → HasUsers d id handle n
    → HasUsers (close_idle d t) id handle n
unfolding close_idle
expire-HasUsers d id handle zero t (inl gone) = inl (
    entries-filter id (λ e. not (is_expired t e)) d.files
    ∙ ap (filter (λ e. not (is_expired t e))) gone)
expire-HasUsers d id handle zero t (inr (since, one)) =
    let q : Entry → Bool = λ e. not (is_expired t e) in
    let left = entries-filter id q d.files ∙ ap (filter q) one in
    elim (Bool-cases (q (unused id handle since))) [
      | inl keep ↦ inr (since, ground (arith, left, keep))
      | inr drop ↦ inl (ground (arith, left, drop))
    ]
expire-HasUsers d id handle (suc n) t one =
    entries-filter id (λ e. not (is_expired t e)) d.files
    ∙ ap (filter (λ e. not (is_expired t e))) one

-- Where an id has one entry, not idle, with its handle and `n` references, or for no references
-- none or one that is idle, then behind any `Open`, `Release` or `Remove`, of this id or another,
-- that goes through, or a round of `closeIdle`, it has so many references, in the same sense, one
-- more behind an `Open` and one less behind a `Release` of this id, and as many otherwise, and the
-- same handle unless there were none; the `Release` is that of a user who has the file.
pub Act-HasUsers :
    (d d' : Dir) (id handle handle' n m : ℕ)
    → HasUsers d id handle n
    → Act d d' id handle handle' n m
    → HasUsers d' id handle' m × ((n ≡ 0) ⊎ (handle' ≡ handle))
Act-HasUsers d d' id handle handle' n m u (opens answer e k) =
    rw k (open-HasUsers d d' id handle n handle' answer u e)
Act-HasUsers d d' id handle handle' n m u (releases now e k same) =
    (rw same (release-HasUsers d d' id handle m now (subst (HasUsers d id handle) k u) e), inr same)
Act-HasUsers d d' id handle handle' n m u (other_opens other answer h ne e k same) = (
  rw (k, same) (subst (UsersOf id handle n) (sym (open_other d d' id other h answer ne e)) u),
  inr same,
)
Act-HasUsers d d' id handle handle' n m u (other_releases other now ne e k same) = (
  rw (k, same) (subst (UsersOf id handle n) (sym (release_other d d' id other now ne e)) u),
  inr same,
)
Act-HasUsers d d' id handle handle' n m u (removes any_id e k same) =
    elim (Bool-cases (id == any_id)) [
      | inl own ↦
          let it : remove_id d id ≡ removed d' = ap (remove_id d) ((==_iff id any_id).0 own) ∙ e in
          (rw (k, same) (remove_own d d' id handle n u it), inr same)
      | inr ne ↦ (
        rw (k, same)
            (subst (UsersOf id handle n) (sym (remove_other d d' id any_id (ground (arith, ne)) e))
              u),
        inr same,
      )
    ]
Act-HasUsers d d' id handle handle' n m u (expires t e k same) =
    (rw (k, same, e) (expire-HasUsers d id handle n t u), inr same)
