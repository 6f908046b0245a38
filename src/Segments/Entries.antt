-- ===== src/Segments/Entries.antt =====
-- The entries that a directory has for an id, and those that an id with so many users may have.
use eventter.Base.{ℕ, zero, suc, ◌≡◌, ◌≢◌, refl, ap, ◌⊎◌, inl, inr, arith}
use eventter.Base.{Bool, List, [], ◌∷◌, none, some, Bool-cases}
use eventter.Base.{find, filter, update_first}
use eventter.Base.Int.{ℤ, pos}
use eventter.Segments.Dir.{Entry, Dir, has_id, close_id}

-- The entry of a file with so many users, which is not idle, and of one without, which is.
abbrev pub used : ℕ → ℕ → ℕ → Entry
used id handle n = record { id = id; handle = handle; rc = pos n; idle = none }

abbrev pub unused : ℕ → ℕ → ℤ → Entry
unused id handle since = record { id = id; handle = handle; rc = pos 0; idle = some since }

abbrev pub entries : ℕ → List Entry → List Entry
entries id es = filter (has_id id) es

-- What entries an id with so many users may have: one; or none, or an idle one, without users.
abbrev pub UsersOf : ℕ → ℕ → ℕ → List Entry → Type 0
UsersOf id handle zero es = (es ≡ []) ⊎ ((since : ℤ) × (es ≡ unused id handle since ∷ []))
UsersOf id handle (suc n) es = es ≡ used id handle (suc n) ∷ []

abbrev pub HasUsers : Dir → ℕ → ℕ → ℕ → Type 0
HasUsers d id handle n = UsersOf id handle n (entries id d.files)

pub found_entry :
    (id : ℕ) (es : List Entry) (e : Entry) → entries id es ≡ e ∷ [] → find (has_id id) es ≡ some e
found_entry id [] e h = cc
found_entry id (x ∷ es) e h = elim (Bool-cases (has_id id x)) [
  | inl y ↦ ground (arith, h, y)
  | inr n ↦ ground (arith, n, found_entry id es e (ground (arith, h, n)))
]

pub no_entry : (id : ℕ) (es : List Entry) → entries id es ≡ [] → find (has_id id) es ≡ none
no_entry id [] h = refl
no_entry id (x ∷ es) h = elim (Bool-cases (has_id id x)) [
  | inl y ↦ ground (arith, h, y)
  | inr n ↦ ground (arith, n, no_entry id es (ground (arith, h, n)))
]

pub entries-update_own :
    (id : ℕ) (f : Entry → Entry) (es : List Entry) (e : Entry)
    → ((x : Entry) → (f x).id ≡ x.id)
    → entries id es ≡ e ∷ []
    → entries id (update_first (has_id id) f es) ≡ f e ∷ []
entries-update_own id f [] e keeps h = cc
entries-update_own id f (x ∷ es) e keeps h = elim (Bool-cases (has_id id x)) [
  | inl y ↦
      let same : x ≡ e = ground (arith, h, y) in
      let end : entries id es ≡ [] = ground (arith, h, y) in
      ground (arith, keeps x, y, end, ap f same)
  | inr n ↦ ground (arith, n, entries-update_own id f es e keeps (ground (arith, h, n)))
]

pub entries-update_else :
    (id other : ℕ) (f : Entry → Entry) (es : List Entry)
    → ((x : Entry) → (f x).id ≡ x.id)
    → id ≢ other
    → entries id (update_first (has_id other) f es) ≡ entries id es
entries-update_else id other f [] keeps ne = refl
entries-update_else id other f (x ∷ es) keeps ne =
    ground (arith, keeps x, entries-update_else id other f es keeps ne)

pub entries-close_own : (id : ℕ) (es : List Entry) → entries id (close_id id es) ≡ []
entries-close_own id [] = refl
entries-close_own id (x ∷ es) = ground (arith, entries-close_own id es)

pub entries-close_else :
    (id other : ℕ) (es : List Entry) → id ≢ other → entries id (close_id other es) ≡ entries id es
entries-close_else id other [] ne = refl
entries-close_else id other (x ∷ es) ne = ground (arith, entries-close_else id other es ne)

pub entries-filter :
    (id : ℕ) (q : Entry → Bool) (es : List Entry)
    → entries id (filter q es) ≡ filter q (entries id es)
entries-filter id q [] = refl
entries-filter id q (x ∷ es) = ground (arith, entries-filter id q es)
