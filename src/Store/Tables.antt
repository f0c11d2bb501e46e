-- ===== src/Store/Tables.antt =====
-- The tables of internal/store/store.go that the control plane uses, as lists of rows in the order
-- of insertion. A primary key is checked where a row is inserted, and an update by a primary key
-- changes the one row that has it.
use thism.Base.{
  ℕ, suc, Bool, true, false, Option, List, [], ◌∷◌, ◌++◌, String, Message, ◌==◌, ◌&&◌, string_eq,
  nat_eq, find_first, update_first, any_of,
}
use thism.Models.{UpdateJob, UpdateJobTarget, CommandStream, AuditEvent}

-- A row of update_cancel_tombstones or of update_sequence_retirements (with its reason).
pub record Retirement : Type 0 where
  pub node_id : String
  pub seq : ℕ
  pub job_id : String
  pub reason : String
  pub created_at : ℕ

-- `last_audit_id` is the sequence of control_audit_log's AUTOINCREMENT.
pub record Db : Type 0 where
  pub jobs : List UpdateJob
  pub targets : List UpdateJobTarget
  pub streams : List CommandStream
  pub tombstones : List Retirement
  pub retirements : List Retirement
  pub audit : List AuditEvent
  pub last_audit_id : ℕ

abbrev pub is_stream : String → CommandStream → Bool
is_stream node s = s.node_id == node

abbrev pub is_target : String → String → UpdateJobTarget → Bool
is_target job node t = t.job_id == job && t.node_id == node

unfoldable pub find_stream : String → Db → Option CommandStream
find_stream node db = find_first (is_stream node) db.streams

unfoldable pub find_target : String → String → Db → Option UpdateJobTarget
find_target job node db = find_first (is_target job node) db.targets

unfoldable pub update_stream : String → (CommandStream → CommandStream) → Db → Db
update_stream node f db = record db { streams = update_first (is_stream node) f db.streams }

unfoldable pub update_target : String → String → (UpdateJobTarget → UpdateJobTarget) → Db → Db
update_target job node f db = record db { targets = update_first (is_target job node) f db.targets }

-- auditTx and AuditNodeEvent
unfoldable pub audit_event : String → String → Message → ℕ → Db → Db
audit_event node event detail now db = record db {
  audit =
      db.audit
      ++ (record {
        id = suc db.last_audit_id;
        node_id = node;
        event = event;
        detail = detail;
        created_at = now;
      }
          ∷ []);
  last_audit_id = suc db.last_audit_id;
}

-- INSERT OR IGNORE under the primary key (node_id, seq).
unfoldable pub insert_retirement : Retirement → List Retirement → List Retirement
insert_retirement r rs = elim (any_of (λ x. x.node_id == r.node_id && x.seq == r.seq) rs) [
  | true ↦ rs
  | false ↦ rs ++ (r ∷ [])
]
