-- ===== src/Store/Streams.antt =====
-- internal/store/updates_concurrency.go: the command stream of a node and its reconciliation with
-- the handshake of the agent. A call reads the clock once, and `fresh` is newStreamID's text.
use thism.Base.{
  ℕ, ◌+◌, Option, none, some, [], ◌∷◌, ◌++◌, String, Message, lit, num, ◌==◌, string_eq, nat_eq,
  if◌then◌else◌, ltb, leb,
}
use thism.Models.{ControlState, control_none, control_quarantined, control_blocked, CommandStream}
use thism.Store.Tables.{Db, find_stream, update_stream, audit_event}
use thism.Store.Watermark.{retired_watermark_from}

abbrev pub new_stream : String → String → ℕ → CommandStream
new_stream node fresh now = record {
  node_id = node;
  stream_id = fresh;
  next_seq = 1;
  retired_watermark = 0;
  control_state = control_none;
  control_reason = [];
  updated_at = now;
}

-- The stream as it is returned is the row, but for the time of an update made here.
unfoldable pub ensure_in : String → String → ℕ → Option CommandStream → Db → Db × CommandStream
ensure_in fresh node now none db = (
  audit_event node "stream-created" (lit "new command stream bound: " ∷ lit fresh ∷ []) now
      (record db { streams = db.streams ++ (new_stream node fresh now ∷ []) }),
  new_stream node fresh 0,
)
ensure_in fresh node now (some s) db =
    if s.next_seq == 0
    then (
      update_stream node (λ r. record r { next_seq = s.retired_watermark + 1; updated_at = now })
          db,
      record s { next_seq = s.retired_watermark + 1 },
    )
    else (db, s)

unfoldable pub ensure_stream : String → String → ℕ → Db → Db × CommandStream
unfolding ensure_in
ensure_stream fresh node now db = ensure_in fresh node now (find_stream node db) db

control_state_text : ControlState → String
control_state_text control_none = ""
control_state_text control_quarantined = "control-quarantined"
control_state_text control_blocked = "control-blocked"

unfoldable pub set_node_control_state : String → ControlState → Message → ℕ → Db → Db
unfolding control_state_text
set_node_control_state node state reason now db =
    audit_event node "control-state" (lit (control_state_text state) ∷ lit ": " ∷ reason) now (
      update_stream node
        (λ r. record r { control_state = state; control_reason = reason; updated_at = now }) db)

-- A mismatch isolates the node.
unfoldable pub reconcile_mismatch : String → String → ℕ → CommandStream → Db → Db × CommandStream
reconcile_mismatch node agent_stream now s db = (
  audit_event node "stream-mismatch"
      (lit "agent stream "
        ∷ lit agent_stream
        ∷ lit " does not match server stream "
        ∷ lit s.stream_id
        ∷ lit "; node quarantined"
        ∷ [])
      now
      (update_stream node
        (λ r. record r {
          control_state = control_quarantined;
          control_reason =
              lit "stream mismatch: agent has "
              ∷ lit agent_stream
              ∷ lit ", server has "
              ∷ lit s.stream_id
              ∷ [];
          updated_at = now;
        })
        db),
  record s { control_state = control_quarantined; control_reason = lit "stream mismatch" ∷ [] },
)

-- A server that was rolled back catches up with the watermark of the agent.
unfoldable pub catch_up : String → String → ℕ → ℕ → CommandStream → Db → Db × CommandStream
catch_up node agent_stream agent_watermark now s db =
    if agent_stream == ""
    then (db, s)
    else if leb s.next_seq agent_watermark
    then (
      audit_event node "rollback-reconciled"
          (lit "advanced next_seq "
            ∷ num s.next_seq
            ∷ lit " -> "
            ∷ num (agent_watermark + 1)
            ∷ lit " from agent watermark "
            ∷ num agent_watermark
            ∷ [])
          now
          (update_stream node (λ r. record r { next_seq = agent_watermark + 1; updated_at = now })
            db),
      record s { next_seq = agent_watermark + 1 },
    )
    else (db, s)

unfoldable pub bind_fresh_agent : String → String → ℕ → CommandStream → Db → Db
bind_fresh_agent node agent_stream now s db =
    if agent_stream == ""
    then audit_event node "stream-bound" (lit "agent adopted server stream " ∷ lit s.stream_id ∷ [])
        now db
    else db

-- The greatest watermark of the row, the agent and the tables is kept.
unfoldable pub raise_watermark : String → ℕ → ℕ → CommandStream → Db → Db × CommandStream
raise_watermark node agent_watermark now s db =
    let server = retired_watermark_from node db in
    let w =
      if ltb s.retired_watermark agent_watermark then agent_watermark else s.retired_watermark in
    let w' = if ltb w server then server else w in
    if ltb s.retired_watermark w'
    then (
      update_stream node (λ r. record r { retired_watermark = w'; updated_at = now }) db,
      record s { retired_watermark = w' },
    )
    else (db, s)

unfoldable pub reconcile_open : String → String → ℕ → ℕ → CommandStream → Db → Db × CommandStream
reconcile_open node agent_stream agent_watermark now s db =
    let (caught, s') = catch_up node agent_stream agent_watermark now s db in
    let rest =
      raise_watermark node agent_watermark now s'
        (bind_fresh_agent node agent_stream now s' caught) in
    if agent_stream == ""
    then rest
    else if agent_stream == s.stream_id
    then rest
    else reconcile_mismatch node agent_stream now s db

unfoldable pub reconcile_in :
    ControlState → String → String → ℕ → ℕ → CommandStream → Db → Db × CommandStream
unfolding reconcile_open
reconcile_in control_none node agent_stream agent_watermark now s db =
    reconcile_open node agent_stream agent_watermark now s db
reconcile_in control_quarantined node agent_stream agent_watermark now s db = (db, s)
reconcile_in control_blocked node agent_stream agent_watermark now s db = (db, s)

unfoldable pub reconcile_command_stream : String → String → String → ℕ → ℕ → Db → Db × CommandStream
unfolding reconcile_in
reconcile_command_stream fresh node agent_stream agent_watermark now db =
    let (db', s) = ensure_stream fresh node now db in
    reconcile_in s.control_state node agent_stream agent_watermark now s db'
