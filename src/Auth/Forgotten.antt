-- ===== src/Auth/Forgotten.antt =====
-- What each section of the calls on sessions does to an id that is not, or no longer, accepted.
use thism.Base.{
  ℕ, ◌≡◌, refl, ◌∙◌, ap, ◌⊎◌, inl, inr, Bool, true, false, none, List, [], ◌∷◌, ◌++◌, String, ◌==◌,
  ◌&&◌, not, string_eq, filter, contains, arith, Bool-cases, is_blank_text, ==_false,
}
use text.Mathlib.TextEquality.{eq_iff}
use thism.Base.Table.{lookup, delete, lookup-insert, lookup-delete}
use thism.Auth.Sessions.{
  Sessions, create_admin_session, delete_admin_session, cleanup_expired_admin_sessions,
  new_session_manager, is_valid_row, is_expired_row, insert_row, add_created, is_in_memory,
  read_row, remember, forget, delete_row, Section, looks_in_memory, reads_row, remembers,
  inserts_row, adds, forgets, deletes_row, restarts, run_section,
}

-- The state after sections in their order, and the ids that were accepted, newest last.
unfoldable pub run_sections : List Section → Sessions → Sessions × List String
run_sections [] s = (s, [])
run_sections (x ∷ xs) s =
    let (s', ids) = run_section x s in let (s'', more) = run_sections xs s' in (s'', ids ++ more)

-- The section does not create the session.
abbrev pub IsOther : String → Section → Type 0
IsOther id (inserts_row new now ok) = (new == id) ≡ false
IsOther id _ = Unit

-- The section neither creates the session nor reads its row.
abbrev pub IsQuiet : String → Section → Type 0
IsQuiet id (inserts_row new now ok) = (new == id) ≡ false
IsQuiet id (reads_row key now ok deleted) = (key == id) ≡ false
IsQuiet id _ = Unit

-- The section does not end the session in memory.
abbrev pub IsKeeping : String → Section → Type 0
IsKeeping id (forgets key) = (key == id) ≡ false
IsKeeping id (restarts now ok) = true ≡ false
IsKeeping id _ = Unit

-- The id is not in memory, and no call is about to put it there.
pub record Forgotten (id : String) (s : Sessions) : Type 0 where
  pub memory : contains s.memory id ≡ false
  pub found : contains s.found id ≡ false
  pub created : contains s.created id ≡ false

-- Nor is it in the table.
pub record Gone (id : String) (s : Sessions) : Type 0 where
  pub forgotten : Forgotten id s
  pub no_row : lookup id s.rows ≡ none

pub contains-filter_self :
    (id : String) (xs : List String) → contains (filter (λ x. not (x == id)) xs) id ≡ false
unfolding contains filter
contains-filter_self id [] = refl
contains-filter_self id (x ∷ xs) = ground (arith, contains-filter_self id xs)

pub contains-filter_none :
    (p : String → Bool) (id : String) (xs : List String)
    → contains xs id ≡ false
    → contains (filter p xs) id ≡ false
unfolding contains filter
contains-filter_none p id [] h = refl
contains-filter_none p id (x ∷ xs) h = ground (arith, contains-filter_none p id xs)

missing-filter :
    (p : String × ℕ → Bool) (id : String) (rows : List (String × ℕ))
    → lookup id rows ≡ none
    → lookup id (filter p rows) ≡ none
unfolding lookup filter
missing-filter p id [] h = refl
missing-filter p id (r ∷ rows) h = ground (arith, missing-filter p id rows)

missing-delete :
    (id key : String) (rows : List (String × ℕ))
    → lookup id rows ≡ none
    → lookup id (delete key rows) ≡ none
missing-delete id key rows h = lookup-delete id key rows ∙ ground (arith, h)

pub blank-empty : (id : String) → is_blank_text id ≡ false → (id == "") ≡ false
unfolding is_blank_text
blank-empty id h = ==_false id "" (λ p. let q : is_blank_text id ≡ true = ap is_blank_text p in cc)

pub cons-other :
    (id key : String) (xs : List String)
    → (key == id) ≡ false
    → contains xs id ≡ false
    → contains (key ∷ xs) id ≡ false
unfolding contains
cons-other id key xs h k = ground (arith, h, k)

-- A list that has one of two ids, and not the other.
other-key :
    (id key : String) (xs : List String)
    → contains xs id ≡ false
    → contains xs key ≡ true
    → (key == id) ≡ false
other-key id key xs h k = elim (Bool-cases (key == id)) [
  | inr other ↦ other
  | inl same ↦ let q = ap (contains xs) ((eq_iff key id).0 same) in cc
]

row-read :
    (id key : String) (now : ℕ) (ok deleted : Bool) (s : Sessions)
    → lookup id s.rows ≡ none
    → lookup id (read_row key now ok deleted s).rows ≡ none
unfolding read_row
row-read id key now ok deleted s h = ground (arith, h, missing-delete id key s.rows h)

read-Forgotten :
    (id key : String) (now : ℕ) (ok deleted : Bool) (s : Sessions)
    → ((key == id) ≡ false) ⊎ (lookup id s.rows ≡ none)
    → Forgotten id s
    → Forgotten id (read_row key now ok deleted s)
unfolding read_row
read-Forgotten id key now false deleted s o f = f
read-Forgotten id key now true deleted s o f = elim (Bool-cases (is_blank_text key)) [
  | inl blank ↦ rw blank f
  | inr given ↦ elim (Bool-cases (is_valid_row now (lookup key s.rows))) [
    | inl valid ↦
        rw (given, valid)
          (record {
            memory = f.memory;
            found = cons-other id key s.found (other o valid) f.found;
            created = f.created;
          })
    | inr invalid ↦ elim (Bool-cases (is_expired_row now (lookup key s.rows) && deleted)) [
      | inl over ↦
          rw (given, invalid, over)
            (record { memory = f.memory; found = f.found; created = f.created })
      | inr kept ↦ rw (given, invalid, kept) f
    ]
  ]
]
  where
    other :
        ((key == id) ≡ false) ⊎ (lookup id s.rows ≡ none)
        → is_valid_row now (lookup key s.rows) ≡ true
        → (key == id) ≡ false
    other (inl o) valid = o
    other (inr none_) valid = elim (Bool-cases (key == id)) [
      | inr o ↦ o
      | inl same ↦
          let row : lookup key s.rows ≡ none =
            ap (λ k. lookup k s.rows) ((eq_iff key id).0 same) ∙ none_ in
          let q : is_valid_row now (lookup key s.rows) ≡ false =
            ap (is_valid_row now) row ∙ (unfold is_valid_row in refl) in
          cc
    ]

pub section-Forgotten :
    (id : String) (x : Section) (s : Sessions)
    → IsOther id x
    → ((IsQuiet id x) ⊎ (lookup id s.rows ≡ none))
    → Forgotten id s
    → Forgotten id (run_section x s).0
unfolding run_section
section-Forgotten id (looks_in_memory key) s o q f = f
section-Forgotten id (reads_row key now ok deleted) s o q f =
    read-Forgotten id key now ok deleted s q f
section-Forgotten id (remembers key) s o q f = elim (Bool-cases (contains s.found key)) [
  | inl known ↦ rw known (
      unfold remember in
      (record {
        memory = cons-other id key s.memory (other-key id key s.found f.found known) f.memory;
        found = contains-filter_none _ id s.found f.found;
        created = f.created;
      }))
  | inr unknown ↦ rw unknown f
]
section-Forgotten id (inserts_row new now true) s o q f =
    unfold insert_row in
    (record {
      memory = f.memory;
      found = f.found;
      created = cons-other id new s.created o f.created;
    })
section-Forgotten id (inserts_row new now false) s o q f = unfold insert_row in f
section-Forgotten id (adds key) s o q f = elim (Bool-cases (contains s.created key)) [
  | inl known ↦
      unfold add_created in
      rw known (record {
        memory = cons-other id key s.memory (other-key id key s.created f.created known) f.memory;
        found = f.found;
        created = contains-filter_none _ id s.created f.created;
      })
  | inr unknown ↦ unfold add_created in rw unknown f
]
section-Forgotten id (forgets key) s o q f = elim (Bool-cases (key == "")) [
  | inl empty ↦ unfold forget in rw empty f
  | inr given ↦
      unfold forget in
      rw given (record {
        memory = contains-filter_none _ id s.memory f.memory;
        found = f.found;
        created = f.created;
      })
]
section-Forgotten id (deletes_row key ok) s o q f = elim (Bool-cases (key == "")) [
  | inl empty ↦ unfold delete_row in rw empty f
  | inr given ↦ elim (Bool-cases ok) [
    | inl works ↦
        unfold delete_row in
        rw (given, works) (record { memory = f.memory; found = f.found; created = f.created })
    | inr fails ↦ unfold delete_row in rw (given, fails) f
  ]
]
section-Forgotten id (restarts now ok) s o q f =
    unfold new_session_manager in
    (record {
      memory = unfold contains in refl;
      found = unfold contains in refl;
      created = unfold contains in refl;
    })

section-row :
    (id : String) (x : Section) (s : Sessions)
    → IsOther id x
    → lookup id s.rows ≡ none
    → lookup id (run_section x s).0.rows ≡ none
unfolding run_section
section-row id (looks_in_memory key) s o h = h
section-row id (reads_row key now ok deleted) s o h = row-read id key now ok deleted s h
section-row id (remembers key) s o h = unfold remember in ground (arith, h)
section-row id (inserts_row new now true) s o h =
    unfold insert_row create_admin_session in lookup-insert id new _ s.rows ∙ rw o h
section-row id (inserts_row new now false) s o h = unfold insert_row in h
section-row id (adds key) s o h = unfold add_created in ground (arith, h)
section-row id (forgets key) s o h = unfold forget in ground (arith, h)
section-row id (deletes_row key ok) s o h =
    unfold delete_row delete_admin_session in ground (arith, h, missing-delete id key s.rows h)
section-row id (restarts now true) s o h =
    unfold new_session_manager cleanup_expired_admin_sessions in missing-filter _ id s.rows h
section-row id (restarts now false) s o h = unfold new_session_manager in h

pub section-Gone :
    (id : String) (x : Section) (s : Sessions)
    → IsOther id x
    → Gone id s
    → Gone id (run_section x s).0
section-Gone id x s o g = record {
  forgotten = section-Forgotten id x s o (inr g.no_row) g.forgotten;
  no_row = section-row id x s o g.no_row;
}

-- A section accepts no id that is neither in memory nor found.
pub section-refuses :
    (id : String) (x : Section) (s : Sessions)
    → Forgotten id s
    → contains (run_section x s).1 id ≡ false
unfolding run_section contains
section-refuses id (looks_in_memory key) s f = elim (Bool-cases (is_in_memory key s)) [
  | inr no_ ↦ rw no_ refl
  | inl yes_ ↦ rw yes_ (cons-other id key [] (other-key id key s.memory f.memory (known yes_)) refl)
]
  where
    known : is_in_memory key s ≡ true → contains s.memory key ≡ true
    known h = unfold is_in_memory in ground (arith, h)
section-refuses id (reads_row key now ok deleted) s f = refl
section-refuses id (remembers key) s f = elim (Bool-cases (contains s.found key)) [
  | inl known ↦ rw known (cons-other id key [] (other-key id key s.found f.found known) refl)
  | inr unknown ↦ rw unknown refl
]
section-refuses id (inserts_row new now ok) s f = refl
section-refuses id (adds key) s f = refl
section-refuses id (forgets key) s f = refl
section-refuses id (deletes_row key ok) s f = refl
section-refuses id (restarts now ok) s f = refl
