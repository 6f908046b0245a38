-- ===== src/Segments/Others.antt =====
-- What the operations on one id leave of the entries of another.
use eventter.Base.{ℕ, ◌≡◌, ◌≢◌, refl, inl, inr, arith}
use eventter.Base.{◌∷◌, Option, some, Option-cases, Bool-cases}
use eventter.Base.{◌==◌, ltb, find, update_first, subst}
use eventter.Base.Int.{ℤ, down}
use eventter.Segments.Dir.{
  Dir, is_used, has_id, take_up, opened_file, open_id, released, release_id, removed, remove_id,
  close_id,
}
use eventter.Segments.Entries.{used, entries, entries-update_else, entries-close_else}

pub open_other :
    (d d' : Dir) (id other h : ℕ) (answer : Option ℕ)
    → id ≢ other
    → open_id d other answer ≡ opened_file d' h
    → entries id d'.files ≡ entries id d.files
unfolding open_id
open_other d d' id other h answer ne k = elim (Bool-cases (other == 0)) [
  | inl z ↦ ground arith
  | inr p ↦ elim (Option-cases (find (has_id other) d.files)) [
    | inr (x, found) ↦
        let now : record d { files = update_first (has_id other) take_up d.files } ≡ d' =
          ground arith in
        subst (λ (y : Dir). entries id y.files ≡ entries id d.files) now
          (entries-update_else id other take_up d.files (λ x. refl) ne)
    | inl gone ↦ elim (Option-cases answer) [
      | inl a ↦ ground arith
      | inr (new, a) ↦
          let now : record d { files = used other new 1 ∷ d.files } ≡ d' = ground arith in
          subst (λ (y : Dir). entries id y.files ≡ entries id d.files) now (ground (arith, ne))
    ]
  ]
]

pub release_other :
    (d d' : Dir) (id other : ℕ) (now : ℤ)
    → id ≢ other
    → release_id d other now ≡ released d'
    → entries id d'.files ≡ entries id d.files
unfolding release_id
release_other d d' id other t ne k = elim (Bool-cases (other == 0)) [
  | inl z ↦ ground arith
  | inr p ↦ elim (Option-cases (find (has_id other) d.files)) [
    | inl gone ↦ ground arith
    | inr (x, found) ↦ elim (Bool-cases (is_used (down x.rc))) [
      | inl more ↦
          let now : record d {
            files = update_first (has_id other) (λ y. record y { rc = down y.rc }) d.files;
          }
              ≡ d' =
            ground arith in
          subst (λ (y : Dir). entries id y.files ≡ entries id d.files) now
            (entries-update_else id other (λ y. record y { rc = down y.rc }) d.files (λ y. refl) ne)
      | inr last ↦ elim (Bool-cases (ltb 0 d.idle_timeout)) [
        | inl keep ↦
            let now : record d {
              files =
                  update_first (has_id other) (λ y. record y { rc = down y.rc; idle = some t })
                    d.files;
            }
                ≡ d' =
              ground arith in
            subst (λ (y : Dir). entries id y.files ≡ entries id d.files) now
              (entries-update_else id other (λ y. record y { rc = down y.rc; idle = some t })
                d.files (λ y. refl) ne)
        | inr drop ↦
            let now : record d { files = close_id other d.files } ≡ d' = ground arith in
            subst (λ (y : Dir). entries id y.files ≡ entries id d.files) now
              (entries-close_else id other d.files ne)
      ]
    ]
  ]
]

pub remove_other :
    (d d' : Dir) (id other : ℕ)
    → id ≢ other
    → remove_id d other ≡ removed d'
    → entries id d'.files ≡ entries id d.files
unfolding remove_id
remove_other d d' id other ne k = elim (Bool-cases (other == 0)) [
  | inl z ↦ ground arith
  | inr p ↦ elim (Option-cases (find (has_id other) d.files)) [
    | inl gone ↦
        let now : d ≡ d' = ground arith in
        subst (λ (y : Dir). entries id y.files ≡ entries id d.files) now refl
    | inr (x, found) ↦
        let now : record d { files = close_id other d.files } ≡ d' = ground arith in
        subst (λ (y : Dir). entries id y.files ≡ entries id d.files) now
          (entries-close_else id other d.files ne)
  ]
]
