-- ===== src/Store/Reconcile.antt =====
-- The creation and the reconciliation of command streams take them forward.
use thism.Base.{
  ℕ, ◌+◌, ◌<◌, ◌≡◌, refl, sym, subst, ◌∙◌, Option, none, some, String, Message, ◌==◌, ==_self,
  nat_eq, string_eq, if◌then◌else◌, ltb, leb, arith, Bool-cases, inl, inr, find_first-append_none,
  find_first-update_first,
}
use thism.Models.{CommandStream, ControlState, control_none, control_quarantined, control_blocked}
use thism.Store.Tables.{Db, is_stream, find_stream, update_stream, audit_event}
use thism.Store.Watermark.{advance_retired_watermark, retired_watermark_from}
use thism.Store.Streams.{
  new_stream, ensure_in, ensure_stream, catch_up, bind_fresh_agent, raise_watermark,
  reconcile_mismatch, reconcile_open, set_node_control_state, reconcile_command_stream,
  reconcile_in,
}
use thism.Store.Onward.{Onward, Onward-refl, Onward-trans, Onward-append, update_stream-Onward}

abbrev pub After : Db → Db → Type 0
After db db' = Onward db.streams db'.streams

pub advance-Onward :
    (node : String) (now : ℕ) (db : Db) → After db (advance_retired_watermark node now db)
unfolding advance_retired_watermark
advance-Onward node now db = elim (Bool-cases (retired_watermark_from node db == 0)) [
  | inl e ↦ rw e (Onward-refl db.streams)
  | inr e ↦ rw e (update_stream-Onward node _ db (λ s h. ground arith))
]

audit-Onward :
    (node event : String) (detail : Message) (now : ℕ) (db : Db)
    → After db (audit_event node event detail now db)
unfolding audit_event
audit-Onward node event detail now db = Onward-refl db.streams

-- The stream that `ensure_stream` returns is the row of the node, but for its time.
pub record IsRow (node : String) (s : CommandStream) (db : Db) : Type 0 where
  pub row : CommandStream
  pub found : find_stream node db ≡ some row
  pub same_next : row.next_seq ≡ s.next_seq
  pub same_watermark : row.retired_watermark ≡ s.retired_watermark
  pub same_id : row.stream_id ≡ s.stream_id
  pub positive : 0 < s.next_seq

ensure_in-Onward :
    (fresh node : String) (now : ℕ) (found : Option CommandStream) (db : Db)
    → find_stream node db ≡ found
    → After db (ensure_in fresh node now found db).0
unfolding ensure_in audit_event
ensure_in-Onward fresh node now none db h = Onward-append db.streams _
ensure_in-Onward fresh node now (some s) db h = elim (Bool-cases (s.next_seq == 0)) [
  | inl e ↦ rw e (update_stream-Onward node _ db (λ t q. ground arith))
  | inr e ↦ rw e (Onward-refl db.streams)
]

ensure_in-IsRow :
    (fresh node : String) (now : ℕ) (found : Option CommandStream) (db : Db)
    → find_stream node db ≡ found
    → IsRow node (ensure_in fresh node now found db).1 (ensure_in fresh node now found db).0
unfolding ensure_in audit_event find_stream update_stream
ensure_in-IsRow fresh node now none db h = record {
  row = new_stream node fresh now;
  found = find_first-append_none (is_stream node) db.streams _ h (==_self node);
  same_next = refl;
  same_watermark = refl;
  same_id = refl;
  positive = omega arith;
}
ensure_in-IsRow fresh node now (some s) db h = elim (Bool-cases (s.next_seq == 0)) [
  | inl e ↦ rw e (record {
    row = record s { next_seq = s.retired_watermark + 1; updated_at = now };
    found =
        find_first-update_first (is_stream node)
          (λ r. record r { next_seq = s.retired_watermark + 1; updated_at = now }) db.streams
          (λ x. refl)
        ∙ rw h;
    same_next = refl;
    same_watermark = refl;
    same_id = refl;
    positive = omega arith;
  })
  | inr e ↦ rw e (record {
    row = s;
    found = h;
    same_next = refl;
    same_watermark = refl;
    same_id = refl;
    positive = ground arith;
  })
]

pub ensure-Onward :
    (fresh node : String) (now : ℕ) (db : Db) → After db (ensure_stream fresh node now db).0
unfolding ensure_stream
ensure-Onward fresh node now db = ensure_in-Onward fresh node now (find_stream node db) db refl

pub ensure-IsRow :
    (fresh node : String) (now : ℕ) (db : Db)
    → IsRow node (ensure_stream fresh node now db).1 (ensure_stream fresh node now db).0
unfolding ensure_stream
ensure-IsRow fresh node now db = ensure_in-IsRow fresh node now (find_stream node db) db refl

pub set_control-Onward :
    (node : String) (state : ControlState) (reason : Message) (now : ℕ) (db : Db)
    → After db (set_node_control_state node state reason now db)
unfolding set_node_control_state audit_event
set_control-Onward node state reason now db = update_stream-Onward node _ db (λ s h. ground arith)

catch_up-Onward :
    (node agent : String) (w now : ℕ) (s : CommandStream) (db : Db)
    → IsRow node s db
    → After db (catch_up node agent w now s db).0
unfolding catch_up audit_event
catch_up-Onward node agent w now s db r = elim (Bool-cases (agent == "")) [
  | inl e ↦ rw e (Onward-refl db.streams)
  | inr e ↦ elim (Bool-cases (leb s.next_seq w)) [
    | inl l ↦ rw (e, l) (update_stream-Onward node _ db (λ t q. ground arith))
    | inr l ↦ rw (e, l) (Onward-refl db.streams)
  ]
]

catch_up-IsRow :
    (node agent : String) (w now : ℕ) (s : CommandStream) (db : Db)
    → IsRow node s db
    → IsRow node (catch_up node agent w now s db).1 (catch_up node agent w now s db).0
unfolding catch_up audit_event find_stream update_stream
catch_up-IsRow node agent w now s db r = elim (Bool-cases (agent == "")) [
  | inl e ↦ rw e r
  | inr e ↦ elim (Bool-cases (leb s.next_seq w)) [
    | inl l ↦
        rw (e, l)
          (record {
            row = record r.row { next_seq = w + 1; updated_at = now };
            found =
                find_first-update_first (is_stream node)
                  (λ t. record t { next_seq = w + 1; updated_at = now }) db.streams (λ x. refl)
                ∙ rw r.found;
            same_next = refl;
            same_watermark = r.same_watermark;
            same_id = r.same_id;
            positive = omega arith;
          })
    | inr l ↦ rw (e, l) r
  ]
]

bind_fresh_agent-streams :
    (node agent : String) (now : ℕ) (s : CommandStream) (db : Db)
    → (bind_fresh_agent node agent now s db).streams ≡ db.streams
unfolding bind_fresh_agent audit_event
bind_fresh_agent-streams node agent now s db = ground arith

raise_watermark-Onward :
    (node : String) (w now : ℕ) (s : CommandStream) (db : Db)
    → IsRow node s db
    → After db (raise_watermark node w now s db).0
unfolding raise_watermark
raise_watermark-Onward node w now s db r =
    let server = retired_watermark_from node db in
    let w' = if ltb s.retired_watermark w then w else s.retired_watermark in
    let w'' = if ltb w' server then server else w' in
    elim (Bool-cases (ltb s.retired_watermark w'')) [
      | inl l ↦ rw l (update_stream-Onward node _ db (λ t q. ground arith))
      | inr l ↦ rw l (Onward-refl db.streams)
    ]

IsRow-streams :
    (node : String) (s : CommandStream) (db db' : Db)
    → db'.streams ≡ db.streams
    → IsRow node s db
    → IsRow node s db'
unfolding find_stream
IsRow-streams node s db db' e r = record {
  row = r.row;
  found = rw e r.found;
  same_next = r.same_next;
  same_watermark = r.same_watermark;
  same_id = r.same_id;
  positive = r.positive;
}

reconcile_rest :
    (node agent : String) (w now : ℕ) (s : CommandStream) (db : Db)
    → IsRow node s db
    → let (caught, s') = catch_up node agent w now s db in
      After db (raise_watermark node w now s' (bind_fresh_agent node agent now s' caught)).0
reconcile_rest node agent w now s db r =
    let (caught, s') = catch_up node agent w now s db in
    let bound = bind_fresh_agent node agent now s' caught in
    let e = bind_fresh_agent-streams node agent now s' caught in
    Onward-trans db.streams bound.streams _
      (subst (Onward db.streams) (sym e) (catch_up-Onward node agent w now s db r))
      (raise_watermark-Onward node w now s' bound
        (IsRow-streams node s' caught bound e (catch_up-IsRow node agent w now s db r)))

reconcile_open-Onward :
    (node agent : String) (w now : ℕ) (s : CommandStream) (db : Db)
    → IsRow node s db
    → After db (reconcile_open node agent w now s db).0
unfolding reconcile_open reconcile_mismatch audit_event
reconcile_open-Onward node agent w now s db r = elim (Bool-cases (agent == "")) [
  | inl e ↦ rw e (reconcile_rest node agent w now s db r)
  | inr e ↦ elim (Bool-cases (agent == s.stream_id)) [
    | inl l ↦ rw (e, l) (reconcile_rest node agent w now s db r)
    | inr l ↦ rw (e, l) (update_stream-Onward node _ db (λ t q. ground arith))
  ]
]

reconcile_in-Onward :
    (state : ControlState) (node agent : String) (w now : ℕ) (s : CommandStream) (db : Db)
    → IsRow node s db
    → After db (reconcile_in state node agent w now s db).0
unfolding reconcile_in
reconcile_in-Onward control_none node agent w now s db r =
    reconcile_open-Onward node agent w now s db r
reconcile_in-Onward control_quarantined node agent w now s db r = Onward-refl db.streams
reconcile_in-Onward control_blocked node agent w now s db r = Onward-refl db.streams

pub reconcile-Onward :
    (fresh node agent : String) (w now : ℕ) (db : Db)
    → After db (reconcile_command_stream fresh node agent w now db).0
unfolding reconcile_command_stream
reconcile-Onward fresh node agent w now db =
    let (db', s) = ensure_stream fresh node now db in
    Onward-trans db.streams db'.streams _ (ensure-Onward fresh node now db)
      (reconcile_in-Onward s.control_state node agent w now s db' (ensure-IsRow fresh node now db))
