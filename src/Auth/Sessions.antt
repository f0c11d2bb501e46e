-- ===== src/Auth/Sessions.antt =====
-- The administrator's sessions: sessionManager of internal/api/api.go, which keeps the ids in memory,
-- over the table admin_sessions of internal/store/store.go. A section under the mutex of the manager
-- is one step, and so is a statement of the table, which may fail. Times are in seconds.
use thism.Base.{
  ℕ, ◌+◌, ◌*◌, Bool, false, Option, none, some, List, [], ◌∷◌, String, ◌==◌, ◌&&◌, not, string_eq,
  if◌then◌else◌, ltb, filter, contains, is_blank_text,
}
use thism.Base.Table.{lookup, insert, delete}

-- The ids in memory; the rows by id with their expires_at (created_at is never read); the calls of
-- Has that found a row, and the calls of Create that inserted one, and have not yet put their id
-- into memory.
pub record Sessions : Type 0 where
  pub memory : List String
  pub rows : List (String × ℕ)
  pub found : List String
  pub created : List String

abbrev pub session_lifetime : ℕ
session_lifetime = 30 * 24 * 3600

unfoldable pub is_expired : ℕ → ℕ → Bool
is_expired now expires_at = ltb 0 expires_at && ltb expires_at now

unfoldable pub create_admin_session : String → ℕ → List (String × ℕ) → List (String × ℕ)
create_admin_session id expires_at rows = insert id expires_at rows

-- What HasAdminSession answers of the row that it reads.
unfoldable pub is_valid_row : ℕ → Option ℕ → Bool
unfolding is_expired
is_valid_row now none = false
is_valid_row now (some expires_at) = not (is_expired now expires_at)

unfoldable pub is_expired_row : ℕ → Option ℕ → Bool
unfolding is_expired
is_expired_row now none = false
is_expired_row now (some expires_at) = is_expired now expires_at

unfoldable pub delete_admin_session : String → List (String × ℕ) → List (String × ℕ)
delete_admin_session id rows = if is_blank_text id then rows else delete id rows

unfoldable pub cleanup_expired_admin_sessions : ℕ → List (String × ℕ) → List (String × ℕ)
unfolding is_expired
cleanup_expired_admin_sessions now rows = filter (λ r. not (is_expired now r.1)) rows

-- newSessionManager, at the start of the server: memory is empty and no call runs.
unfoldable pub new_session_manager : ℕ → Bool → Sessions → Sessions
new_session_manager now ok s = record {
  memory = [];
  rows = if ok then cleanup_expired_admin_sessions now s.rows else s.rows;
  found = [];
  created = [];
}

-- Create, its statement: `id` is what generateHexBytes returns.
unfoldable pub insert_row : String → ℕ → Bool → Sessions → Sessions
insert_row id now ok s =
    if ok
    then record s {
      rows = create_admin_session id (now + session_lifetime) s.rows;
      created = id ∷ s.created;
    }
    else s

-- Create, its section: the id is in memory.
unfoldable pub add_created : String → Sessions → Sessions
add_created id s =
    if contains s.created id
    then record s { memory = id ∷ s.memory; created = filter (λ x. not (x == id)) s.created }
    else s

-- Has, its first section.
unfoldable pub is_in_memory : String → Sessions → Bool
is_in_memory id s = not (id == "") && contains s.memory id

-- Has, its statement HasAdminSession, where the id was not in memory. An expired row is deleted, if
-- `deleted` says that this works.
unfoldable pub read_row : String → ℕ → Bool → Bool → Sessions → Sessions
read_row id now ok deleted s =
    if not ok
    then s
    else if is_blank_text id
    then s
    else if is_valid_row now (lookup id s.rows)
    then record s { found = id ∷ s.found }
    else if is_expired_row now (lookup id s.rows) && deleted
    then record s { rows = delete id s.rows }
    else s

-- Has, its last section, where a row was found: the id is accepted.
unfoldable pub remember : String → Sessions → Sessions
remember id s = record s { memory = id ∷ s.memory; found = filter (λ x. not (x == id)) s.found }

-- Delete, its section.
unfoldable pub forget : String → Sessions → Sessions
forget id s = if id == "" then s else record s { memory = filter (λ x. not (x == id)) s.memory }

-- Delete, its statement, whose error is ignored.
unfoldable pub delete_row : String → Bool → Sessions → Sessions
delete_row id ok s =
    if id == "" then s else if ok then record s { rows = delete_admin_session id s.rows } else s

-- The sections and statements of the calls.
pub data Section : Type 0 where
  looks_in_memory : (id : String) → Section
  reads_row : (id : String) (now : ℕ) (ok deleted : Bool) → Section
  remembers : (id : String) → Section
  inserts_row : (id : String) (now : ℕ) (ok : Bool) → Section
  adds : (id : String) → Section
  forgets : (id : String) → Section
  deletes_row : (id : String) (ok : Bool) → Section
  restarts : (now : ℕ) (ok : Bool) → Section

-- A section or statement, and the ids that Has accepts with it.
unfoldable pub run_section : Section → Sessions → Sessions × List String
run_section (looks_in_memory id) s = (s, if is_in_memory id s then id ∷ [] else [])
run_section (reads_row id now ok deleted) s = (read_row id now ok deleted s, [])
run_section (remembers id) s = if contains s.found id then (remember id s, id ∷ []) else (s, [])
run_section (inserts_row id now ok) s = (insert_row id now ok s, [])
run_section (adds id) s = (add_created id s, [])
run_section (forgets id) s = (forget id s, [])
run_section (deletes_row id ok) s = (delete_row id ok s, [])
run_section (restarts now ok) s = (new_session_manager now ok s, [])
