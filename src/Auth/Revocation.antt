-- ===== src/Auth/Revocation.antt =====
-- What ends a session, and what does not, over any interleaving of the sections of the calls.
use thism.Base.{
  ℕ, ◌+◌, ◌≡◌, refl, ◌∙◌, ap, inl, inr, true, false, some, List, [], ◌∷◌, ◌++◌, String, ◌==◌, not,
  string_eq, ltb, filter, contains, All, arith, Bool-cases, is_blank_text, ==_self,
}
use text.Mathlib.TextEquality.{eq_iff}
use thism.Base.Table.{lookup, insert, lookup-insert, lookup-delete}
use thism.Auth.Sessions.{
  Sessions, create_admin_session, delete_admin_session, session_lifetime, is_expired, is_valid_row,
  insert_row, add_created, is_in_memory, read_row, remember, forget, delete_row, Section,
  looks_in_memory, reads_row, remembers, inserts_row, adds, forgets, deletes_row, restarts,
  run_section,
}
use thism.Auth.Forgotten.{
  run_sections, IsOther, IsQuiet, IsKeeping, Forgotten, Gone, contains-filter_self, blank-empty,
  section-Forgotten, section-Gone, section-refuses,
}

contains-append_none :
    (id : String) (xs ys : List String)
    → contains xs id ≡ false
    → contains ys id ≡ false
    → contains (xs ++ ys) id ≡ false
unfolding contains
contains-append_none id [] ys h k = k
contains-append_none id (x ∷ xs) ys h k = ground (arith, contains-append_none id xs ys, h, k)

run-refuses :
    (id : String) (xs : List Section) (s : Sessions)
    → All (IsOther id) xs
    → Gone id s
    → contains (run_sections xs s).1 id ≡ false
unfolding run_sections
run-refuses id [] s o g = unfold contains in refl
run-refuses id (x ∷ xs) s o g =
    contains-append_none id (run_section x s).1 _ (section-refuses id x s g.forgotten)
      (run-refuses id xs (run_section x s).0 o.1 (section-Gone id x s o.0 g))

quiet-IsOther : (id : String) (x : Section) → IsQuiet id x → IsOther id x
quiet-IsOther id (looks_in_memory key) q = tt
quiet-IsOther id (reads_row key now ok deleted) q = tt
quiet-IsOther id (remembers key) q = tt
quiet-IsOther id (inserts_row new now ok) q = q
quiet-IsOther id (adds key) q = tt
quiet-IsOther id (forgets key) q = tt
quiet-IsOther id (deletes_row key ok) q = tt
quiet-IsOther id (restarts now ok) q = tt

run-Forgotten :
    (id : String) (xs : List Section) (s : Sessions)
    → All (IsQuiet id) xs
    → Forgotten id s
    → Forgotten id (run_sections xs s).0
unfolding run_sections
run-Forgotten id [] s q f = f
run-Forgotten id (x ∷ xs) s q f =
    run-Forgotten id xs (run_section x s).0 q.1
      (section-Forgotten id x s (quiet-IsOther id x q.0) (inl q.0) f)

deleted-Gone :
    (id : String) (s : Sessions)
    → is_blank_text id ≡ false
    → Forgotten id s
    → Gone id (delete_row id true s)
unfolding delete_row delete_admin_session
deleted-Gone id s h f =
    rw (blank-empty id h, h)
      (record {
        forgotten = record { memory = f.memory; found = f.found; created = f.created };
        no_row = lookup-delete id id s.rows ∙ rw (==_self id) refl;
      })

forget-Forgotten :
    (id : String) (s : Sessions)
    → is_blank_text id ≡ false
    → contains s.found id ≡ false
    → contains s.created id ≡ false
    → Forgotten id (forget id s)
unfolding forget
forget-Forgotten id s h found created =
    rw (blank-empty id h)
      (record { memory = contains-filter_self id s.memory; found = found; created = created })

-- When Delete ends a session whose id no call of Has or Create is about to put into memory, no call
-- reads its row or creates it again between the section and the statement of Delete, and that
-- statement works: then the session is accepted by no section of any later call, restarts included,
-- unless a session with the same id is created.
pub delete_session-revoked :
    (id : String) (during later : List Section) (s : Sessions)
    → is_blank_text id ≡ false
    → contains s.found id ≡ false
    → contains s.created id ≡ false
    → All (IsQuiet id) during
    → All (IsOther id) later
    → contains (run_sections later (delete_row id true (run_sections during (forget id s)).0)).1 id
      ≡ false
delete_session-revoked id during later s h found created quiet other =
    run-refuses id later _ other (
      deleted-Gone id _ h
        (run-Forgotten id during (forget id s) quiet (forget-Forgotten id s h found created)))

filter-keeps :
    (id key : String) (xs : List String)
    → (key == id) ≡ false
    → contains xs id ≡ true
    → contains (filter (λ x. not (x == key)) xs) id ≡ true
unfolding contains filter
filter-keeps id key [] k h = h
filter-keeps id key (x ∷ xs) k h = elim (Bool-cases (x == key)) [
  | inl same ↦
      let q : (x == id) ≡ false = ap (λ y. y == id) ((eq_iff x key).0 same) ∙ k in
      ground (arith, same, q, h, filter-keeps id key xs k)
  | inr other ↦ ground (arith, other, h, filter-keeps id key xs k)
]

-- An id stays in memory.
section-keeps :
    (id : String) (x : Section) (s : Sessions)
    → IsKeeping id x
    → contains s.memory id ≡ true
    → contains (run_section x s).0.memory id ≡ true
unfolding run_section
section-keeps id (looks_in_memory key) s k h = h
section-keeps id (reads_row key now ok deleted) s k h = unfold read_row in ground (arith, h)
section-keeps id (remembers key) s k h = unfold remember contains in ground (arith, h)
section-keeps id (inserts_row new now ok) s k h = unfold insert_row in ground (arith, h)
section-keeps id (adds key) s k h = unfold add_created contains in ground (arith, h)
section-keeps id (forgets key) s k h = elim (Bool-cases (key == "")) [
  | inl empty ↦ unfold forget in rw empty h
  | inr given ↦ unfold forget in rw given (filter-keeps id key s.memory k h)
]
section-keeps id (deletes_row key ok) s k h = unfold delete_row in ground (arith, h)
section-keeps id (restarts now ok) s k h = cc

run-keeps :
    (id : String) (xs : List Section) (s : Sessions)
    → All (IsKeeping id) xs
    → contains s.memory id ≡ true
    → contains (run_sections xs s).0.memory id ≡ true
unfolding run_sections
run-keeps id [] s k h = h
run-keeps id (x ∷ xs) s k h = run-keeps id xs (run_section x s).0 k.1 (section-keeps id x s k.0 h)

-- The two steps of Create.
abbrev pub created_session : String → ℕ → Sessions → Sessions
created_session id now s = add_created id (insert_row id now true s)

created-memory :
    (id : String) (now : ℕ) (s : Sessions) → contains (created_session id now s).memory id ≡ true
unfolding add_created insert_row contains
created-memory id now s = ground (arith, ==_self id)

created-row :
    (id : String) (now : ℕ) (s : Sessions)
    → lookup id (created_session id now s).rows ≡ some (now + session_lifetime)
created-row id now s =
    rows ∙ lookup-insert id id (now + session_lifetime) s.rows ∙ rw (==_self id) refl
  where
    rows :
        lookup id (created_session id now s).rows
        ≡ lookup id (insert id (now + session_lifetime) s.rows)
    rows = unfold add_created insert_row create_admin_session in ground arith

-- A session that was created is accepted from memory after any sections but its deletion from memory
-- and a restart, whatever the time; its row, as Create left it, is accepted only until its lifetime
-- of 30 days is over.
pub create-has_forever :
    (id : String) (now later : ℕ) (xs : List Section) (s : Sessions)
    → is_blank_text id ≡ false
    → All (IsKeeping id) xs
    → (is_in_memory id (run_sections xs (created_session id now s)).0 ≡ true)
      × (is_valid_row later (lookup id (created_session id now s).rows)
          ≡ not (ltb (now + session_lifetime) later))
unfolding is_in_memory
create-has_forever id now later xs s h k = (
  rw (blank-empty id h, run-keeps id xs (created_session id now s) k (created-memory id now s))
      refl,
  ap (is_valid_row later) (created-row id now s) ∙ (unfold is_valid_row is_expired in ground arith),
)
