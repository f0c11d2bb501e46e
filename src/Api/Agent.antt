-- ===== src/Api/Agent.antt =====
-- internal/api/api.go: what the read loop of an agent's connection does with the messages that
-- concern the control plane.
use thism.Base.{
  ℕ, Bool, true, false, Option, none, some, List, [], ◌∷◌, String, lit, ◌==◌, ◌&&◌, ◌||◌, not,
  string_eq, nat_eq, if◌then◌else◌, ltb, trim_space, length,
}
use thism.Models.{
  ControlState, control_none, control_quarantined, control_blocked, sequence_gap, UpdateJobTarget,
  CommandStream, AgentCommandStatusPayload, AgentHandshakePayload, AgentHandshakeAckPayload,
}
use thism.Store.Tables.{Db, find_stream, find_target}
use thism.Store.Streams.{ensure_stream, set_node_control_state, reconcile_command_stream}
use thism.Store.Transitions.{apply_execution_transition, finalize_update_jobs_for_node_version}
use thism.Store.Backfill.{apply_handshake_backfill}
use thism.Hub.Connections.{
  Hub, agent_handshake_ack, agent_update_status, send_to_agent, complete_handshake, is_current,
  broadcast_message,
}
use thism.Api.Server.{Server, World, set_db, resend_pending_deliveries}

unfoldable pub is_blank : String → Bool
is_blank t = trim_space t == ""

-- The identity check of a status that carries a sequence.
unfoldable pub identifies : AgentCommandStatusPayload → Option UpdateJobTarget → Bool
unfolding is_blank
identifies p none = false
identifies p (some t) = t.seq == p.seq && (not (is_blank p.stream_id) && t.stream_id == p.stream_id)

unfoldable pub announce : Option UpdateJobTarget → Hub → Hub
announce none h = h
announce (some t) h = broadcast_message (agent_update_status t) h

ack_message : ControlState → String
ack_message control_none = ""
ack_message control_quarantined =
    "node quarantined: stream mismatch or local state corruption; operator action required"
ack_message control_blocked = "node control-blocked: undisposed unknown execution state"

or_stream : CommandStream → Option CommandStream → CommandStream
or_stream s none = s
or_stream s (some t) = t

is_quarantined : ControlState → Bool
is_quarantined control_none = false
is_quarantined control_quarantined = true
is_quarantined control_blocked = false

ack_of : CommandStream → AgentHandshakeAckPayload
unfolding ack_message
ack_of s = record {
  stream_id = s.stream_id;
  next_seq = s.next_seq;
  retired_watermark = s.retired_watermark;
  control_state = s.control_state;
  message = lit (ack_message s.control_state) ∷ [];
}

-- The messages that the read loop tells apart. A snapshot of metrics is its agent version, all that
-- the control plane reads of it; `other` is any other message, or one whose payload cannot be decoded.
pub data AgentMessage : Type 0 where
  handshake : AgentHandshakePayload → AgentMessage
  command_status : AgentCommandStatusPayload → AgentMessage
  snapshot : String → AgentMessage
  other : AgentMessage
  unreadable : AgentMessage

is_unreadable : AgentMessage → Bool
is_unreadable unreadable = true
is_unreadable _ = false

module _ (w : World) where
  -- What is broadcast is the row as it was committed.
  unfoldable pub commit_status : String → AgentCommandStatusPayload → Server → Server
  unfolding announce
  commit_status node p s =
      let (db, applied) =
        apply_execution_transition p.job_id node p.status p.message p.reported_version w.now s.db in
      if applied
      then record s { db = db; hub = announce (find_target p.job_id node db) s.hub }
      else s

  unfoldable pub handle_agent_command_status : String → AgentCommandStatusPayload → Server → Server
  unfolding is_blank identifies commit_status
  handle_agent_command_status node p s = elim p.reject_code [
    | some code ↦ s
    | none ↦
        if is_blank p.job_id
        then s
        else if ltb 0 p.seq && not (identifies p (find_target p.job_id node s.db))
        then s
        else commit_status node p s
  ]

  -- The tables after a handshake, and the stream that the answer shows.
  unfoldable pub handshake_tables :
      String → String → AgentHandshakePayload → Db → Db × CommandStream
  unfolding or_stream is_quarantined
  handshake_tables fresh node p db =
      let isolated =
        if is_quarantined p.control_state
        then set_node_control_state node p.control_state p.control_reason w.now
            (ensure_stream fresh node w.now db).0
        else db in
      let (reconciled, stream) =
        reconcile_command_stream fresh node (trim_space p.stream_id) p.retired_watermark w.now
          isolated in
      let filled = apply_handshake_backfill node p.in_progress p.records w.now reconciled in
      (filled, or_stream stream (find_stream node filled))

  unfoldable pub acknowledge : String → ℕ → CommandStream → Hub × Bool → Server → Server
  unfolding ack_of
  acknowledge node g stream (hub, false) s = record s { hub = hub }
  acknowledge node g stream (hub, true) s =
      let msg = agent_handshake_ack (ack_of stream) in
      let told = record s { hub = (send_to_agent (w.write_ok msg) node msg hub).0 } in
      elim stream.control_state [
        | control_none ↦ (resend_pending_deliveries w node g told).0
        | _ ↦ told
      ]

  unfoldable pub handle_agent_handshake :
      String → String → AgentHandshakePayload → ℕ → Server → Server
  unfolding acknowledge
  handle_agent_handshake fresh node p g s =
      let (db, stream) = handshake_tables fresh node p s.db in
      acknowledge node g stream (complete_handshake node g s.hub) (record s { db = db })

  -- A gap that the agent reports: its watermark is taken over and what is pending sent again.
  unfoldable pub resend_gap : String → String → AgentCommandStatusPayload → ℕ → Server → Server
  unfolding is_blank set_db
  resend_gap fresh node p g s = elim p.reject_code [
    | some sequence_gap ↦
        if is_blank p.stream_id
        then s
        else (resend_pending_deliveries w node g (
            set_db
              (λ db.
                (reconcile_command_stream fresh node p.stream_id p.retired_watermark w.now db).0)
              s)).0
    | _ ↦ s
  ]

  unfoldable pub handle_message : String → String → ℕ → AgentMessage → Server → Server
  unfolding resend_gap is_blank set_db
  handle_message fresh node g (handshake p) s = handle_agent_handshake fresh node p g s
  handle_message fresh node g (command_status p) s =
      resend_gap fresh node p g (handle_agent_command_status node p s)
  handle_message fresh node g (snapshot version) s =
      if is_blank version
      then s
      else set_db (finalize_update_jobs_for_node_version node version w.now) s
  handle_message fresh node g other s = s
  handle_message fresh node g unreadable s = s

-- The read loop of handleAgentWS. `others n` is what other goroutines do before the message that
-- leaves `n` messages. A message of a stale generation ends the loop.
unfoldable pub read_loop :
    String → String → ℕ → List (World × AgentMessage) → (ℕ → Server → Server) → Server → Server
unfolding is_unreadable
read_loop fresh node g [] others s = s
read_loop fresh node g ((w, msg) ∷ msgs) others s =
    let met = others (length msgs) s in
    let rest = read_loop fresh node g msgs others (handle_message w fresh node g msg met) in
    if is_unreadable msg || is_current node g met.hub then rest else met
