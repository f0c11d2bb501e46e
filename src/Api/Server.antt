-- ===== src/Api/Server.antt =====
-- internal/api/api.go: what the handlers of the control plane share, and how commands are delivered.
use thism.Base.{
  ℕ, Bool, true, false, Option, none, some, List, [], ◌∷◌, String, lit, ◌==◌, nat_eq, if◌then◌else◌,
  not,
}
use thism.Models.{
  status_eq, dispatched, offline_skipped, delivery_sending, delivery_sent, delivery_send_failed,
  ControlState, control_none, control_quarantined, control_blocked, UpdateJob, UpdateJobTarget,
  CommandStream, AgentCommandPayload,
}
use thism.Store.Tables.{Db, find_stream}
use thism.Store.Jobs.{record_delivery, pending_deliveries_for_node, get_update_job}
use thism.Store.Transitions.{apply_execution_transition}
use thism.Hub.Connections.{
  Hub, WsMessage, agent_command, SendResult, sent, send_to_agent, handshake_ready,
  current_generation, is_current, is_online,
}

-- The tables of the control plane, the ids of the table nodes, and the hub.
pub record Server : Type 0 where
  pub db : Db
  pub nodes : List String
  pub hub : Hub

-- The places of a delivery where other goroutines may run: before a turn of the loop, and before each
-- call of the store or the hub after the first of a turn. `before_record` is before RecordDelivery.
pub data Gap : Type 0 where
  before_turn before_ready before_stream before_generation before_job : Gap
  before_record before_send before_transition : Gap

-- What a handler finds around it: the clock, whether the write of a message succeeds, the text of
-- the error of a send, and what other goroutines do to the server: in the gaps of a delivery to a
-- target, and before resendPendingDeliveries reads the stream and queries the deliveries.
pub record World : Type 0 where
  pub now : ℕ
  pub write_ok : WsMessage → Bool
  pub error_text : SendResult → String
  pub meanwhile : Gap → UpdateJobTarget → Server → Server
  pub until_stream : Server → Server
  pub until_query : Server → Server

-- How a turn of one of the two delivery loops ends: the command went out, the send failed, the
-- command was not sent, or the connection is not, or no longer, the current one.
pub data Turn : Type 0 where
  delivered : AgentCommandPayload → Turn
  send_failed : AgentCommandPayload → SendResult → Turn
  withheld : String → Turn
  replaced : Turn

unfoldable pub command_of : UpdateJob → UpdateJobTarget → String → AgentCommandPayload
command_of job t kind = record {
  job_id = t.job_id;
  kind = kind;
  target_version = job.target_version;
  download_url = job.download_url;
  sha256 = job.sha256;
  signature = job.signature;
  stream_id = t.stream_id;
  seq = t.seq;
}

control_state_error : ControlState → String
control_state_error control_none = "node control state: "
control_state_error control_quarantined = "node control state: control-quarantined"
control_state_error control_blocked = "node control state: control-blocked"

-- AgentCommandKindSelfUpdate
abbrev pub self_update_kind : String
self_update_kind = "self_update"

-- Whether resendPendingDeliveries goes on after a turn.
abbrev pub goes_on : Turn → Bool
goes_on (delivered cmd) = true
goes_on (send_failed cmd result) = false
goes_on (withheld reason) = true
goes_on replaced = false

unfoldable pub set_db : (Db → Db) → Server → Server
set_db f s = record s { db = f s.db }

module _ (w : World) where
  -- A delivery that failed before anything was sent.
  unfoldable pub fail : UpdateJobTarget → String → ℕ → Server → Server
  unfolding set_db
  fail t reason g s =
      set_db (record_delivery t.job_id t.node_id delivery_send_failed reason g w.now)
        (w.meanwhile before_record t s)

  unfoldable pub settle_sent : UpdateJobTarget → AgentCommandPayload → ℕ → Server → Server × Turn
  unfolding set_db
  settle_sent t cmd g s =
      let recorded =
        set_db (record_delivery t.job_id t.node_id delivery_sent "" g w.now)
          (w.meanwhile before_record t s) in
      (
        set_db
            (λ db.
              (apply_execution_transition t.job_id t.node_id dispatched
                (lit "command dispatched" ∷ []) "" w.now db).0)
            (w.meanwhile before_transition t recorded),
        delivered cmd,
      )

  unfoldable pub settle :
      UpdateJobTarget → AgentCommandPayload → ℕ → Hub × SendResult → Server → Server × Turn
  unfolding settle_sent fail
  settle t cmd g (hub, sent) s = settle_sent t cmd g (record s { hub = hub })
  settle t cmd g (hub, result) s =
      (fail t (w.error_text result) g (record s { hub = hub }), send_failed cmd result)

  -- The server when a command is sent: the attempt is recorded.
  unfoldable pub before_sending : UpdateJobTarget → ℕ → Server → Server
  unfolding set_db
  before_sending t g s = w.meanwhile before_send t (
      set_db (record_delivery t.job_id t.node_id delivery_sending "" g w.now)
        (w.meanwhile before_record t s))

  -- The attempt is recorded, the message sent, and what came of it recorded.
  unfoldable pub deliver_command :
      String → UpdateJobTarget → AgentCommandPayload → ℕ → Server → Server × Turn
  unfolding settle before_sending
  deliver_command node t cmd g s =
      let at = before_sending t g s in
      settle t cmd g
        (send_to_agent (w.write_ok (agent_command cmd)) node (agent_command cmd) at.hub) at

  -- One turn of deliverTargets, by the stream that it reads.
  deliver_on : Option CommandStream → UpdateJob → UpdateJobTarget → Server → Server × Turn
  unfolding fail control_state_error
  deliver_on none job t s =
      (fail t "command stream unavailable" 0 s, withheld "command stream unavailable")
  deliver_on (some stream) job t s =
      let read = w.meanwhile before_generation t s in
      let g = current_generation t.node_id read.hub in
      let sent_now = deliver_command t.node_id t (command_of job t self_update_kind) g read in
      elim stream.control_state [
        | control_none ↦
            if g == 0
            then (
              fail t "agent generation unavailable" 0 read,
              withheld "agent generation unavailable",
            )
            else sent_now
        | state ↦ (fail t (control_state_error state) 0 s, withheld (control_state_error state))
      ]

  ready_turn : UpdateJob → UpdateJobTarget → Server → Server × Turn
  unfolding fail deliver_on
  ready_turn job t s =
      let read = w.meanwhile before_stream t s in
      if not (handshake_ready t.node_id w.now s.hub)
      then (fail t "agent handshake pending" 0 s, withheld "agent handshake pending")
      else deliver_on (find_stream t.node_id read.db) job t read

  unfoldable pub deliver_turn : UpdateJob → UpdateJobTarget → Server → Server × Turn
  unfolding fail ready_turn set_db
  deliver_turn job t s =
      if not (is_online t.node_id s.hub)
      then (
        set_db
            (λ db.
              (apply_execution_transition t.job_id t.node_id offline_skipped
                (lit "agent offline" ∷ []) "" w.now db).0)
            (w.meanwhile before_transition t (fail t "agent offline at creation" 0 s)),
        withheld "agent offline at creation",
      )
      else ready_turn job t (w.meanwhile before_ready t s)

  unfoldable pub deliver_targets : UpdateJob → List UpdateJobTarget → Server → Server × List Turn
  deliver_targets job [] s = (s, [])
  deliver_targets job (t ∷ ts) s =
      let (s', turn) = deliver_turn job t (w.meanwhile before_turn t s) in
      let (last, turns) = deliver_targets job ts s' in (last, turn ∷ turns)

  unfoldable pub resend_job :
      String → ℕ → UpdateJobTarget → Option UpdateJob → Server → Server × Turn
  unfolding fail
  resend_job node g t none s = (fail t "job record missing" 0 s, withheld "job record missing")
  resend_job node g t (some job) s = deliver_command node t (command_of job t job.kind) g s

  unfoldable pub resend_ready : String → ℕ → UpdateJobTarget → Server → Server × Turn
  unfolding resend_job
  resend_ready node g t s =
      let read = w.meanwhile before_job t s in
      if not (handshake_ready node w.now s.hub)
      then (s, replaced)
      else resend_job node g t (get_update_job t.job_id read.db) read

  -- One turn of resendPendingDeliveries.
  unfoldable pub resend_turn : String → ℕ → UpdateJobTarget → Server → Server × Turn
  unfolding resend_ready
  resend_turn node g t s =
      if not (is_current node g s.hub)
      then (s, replaced)
      else resend_ready node g t (w.meanwhile before_ready t s)

  unfoldable pub resend_loop : String → ℕ → List UpdateJobTarget → Server → Server × List Turn
  resend_loop node g [] s = (s, [])
  resend_loop node g (t ∷ ts) s =
      let (s', turn) = resend_turn node g t (w.meanwhile before_turn t s) in
      let (last, turns) = resend_loop node g ts s' in
      if goes_on turn then (last, turn ∷ turns) else (s', turn ∷ [])

  unfoldable pub resend_on : Option CommandStream → String → ℕ → Server → Server × List Turn
  resend_on none node g s = (s, [])
  resend_on (some stream) node g s = elim stream.control_state [
    | control_none ↦
        let read = w.until_query s in
        resend_loop node g (pending_deliveries_for_node node stream.retired_watermark 64 read.db)
          read
    | _ ↦ (s, [])
  ]

  unfoldable pub resend_pending_deliveries : String → ℕ → Server → Server × List Turn
  unfolding resend_on
  resend_pending_deliveries node g s =
      let read = w.until_stream s in
      if is_current node g s.hub then resend_on (find_stream node read.db) node g read else (s, [])
