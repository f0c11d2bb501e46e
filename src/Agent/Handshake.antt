-- ===== src/Agent/Handshake.antt =====
-- internal/collector/agent_state.go: the handshake that the agent sends and the answer it adopts.
use thism.Base.{
  Bool, true, false, Option, none, some, [], ◌∷◌, ◌==◌, string_eq, if◌then◌else◌, ltb, lit,
  trim_space, map,
}
use thism.Models.{
  ControlState, control_none, control_quarantined, control_blocked, AgentHandshakePayload,
  AgentHandshakeAckPayload, AgentInProgressState, AgentExecutionRecord,
}
use thism.Agent.State.{
  ExecutionRecord, InProgressState, AgentState, SaveFault, Collector, save_agent_state,
}

in_progress_payload : InProgressState → AgentInProgressState
in_progress_payload p = record {
  job_id = p.job_id;
  seq = p.seq;
  stage = p.stage;
  target_version = p.target_version;
  target_sha256 = p.target_sha256;
  last_progress_at = p.last_progress_at;
  commit_point = p.commit_point;
  cancel_intent = p.cancel_intent;
}

record_payload : ExecutionRecord → AgentExecutionRecord
record_payload r = record {
  seq = r.seq;
  job_id = r.job_id;
  status = r.status;
  message = r.message;
  reported_version = r.reported_version;
  target_sha256 = r.target_sha256;
  updated_at = r.updated_at;
}

map_option : Option InProgressState → Option AgentInProgressState
unfolding in_progress_payload
map_option none = none
map_option (some p) = some (in_progress_payload p)

unfoldable pub handshake_payload : Collector → AgentHandshakePayload
unfolding map_option record_payload
handshake_payload c = record {
  stream_id = c.state.stream_id;
  retired_watermark = c.state.retired_watermark;
  control_state = c.state.control_state;
  control_reason = c.state.control_reason;
  in_progress = map_option c.state.in_progress;
  records = map record_payload c.state.records;
}

is_blocked : ControlState → Bool
is_blocked control_blocked = true
is_blocked _ = false

-- The last part of applyHandshakeAck: the watermark moves forward only, and an answer with no
-- control state ends a block.
adopted_state : AgentHandshakeAckPayload → AgentState → AgentState
unfolding is_blocked
adopted_state ack s =
    let unblock = is_blocked s.control_state in
    record s {
      retired_watermark =
          if ltb s.retired_watermark ack.retired_watermark
          then ack.retired_watermark
          else s.retired_watermark;
      control_state = if unblock then control_none else s.control_state;
      control_reason = if unblock then [] else s.control_reason;
    }

-- The stream binding, and whether it contradicts the one that the agent has.
bind_stream : AgentHandshakeAckPayload → AgentState → AgentState × Bool
bind_stream ack s =
    if trim_space ack.stream_id == ""
    then (s, false)
    else if s.stream_id == ""
    then (record s { stream_id = ack.stream_id }, false)
    else if s.stream_id == ack.stream_id
    then (s, false)
    else (
      record s {
        control_state = control_quarantined;
        control_reason = lit "stream mismatch with server" ∷ [];
      },
      true,
    )

-- The state after an answer: what the server isolates is isolated here as well.
ack_state : ControlState → AgentHandshakeAckPayload → AgentState → AgentState
unfolding adopted_state bind_stream
ack_state control_quarantined ack s = record s {
  control_state = control_quarantined;
  control_reason = lit "server quarantined node: " ∷ ack.message;
}
ack_state control_blocked ack s = record s {
  control_state = control_blocked;
  control_reason = lit "server control-blocked: " ∷ ack.message;
}
ack_state control_none ack s =
    let (bound, mismatch) = bind_stream ack s in if mismatch then bound else adopted_state ack bound

unfoldable pub apply_handshake_ack : SaveFault → AgentHandshakeAckPayload → Collector → Collector
unfolding ack_state
apply_handshake_ack fault ack c =
    (save_agent_state fault (record c { state = ack_state ack.control_state ack c.state })).0
