-- ===== src/Api/Sending.antt =====
-- Where a command goes that a turn of resendPendingDeliveries of internal/api/api.go delivers.
use thism.Base.{
  ℕ, ◌≡◌, refl, ◌∙◌, sym, ap, inl, inr, true, Option, none, some, ◌∷◌, String, Bool-cases, nat_eq,
}
use thism.Models.{UpdateJob, UpdateJobTarget, AgentCommandPayload}
use thism.Store.Jobs.{get_update_job}
use thism.Hub.Connections.{
  Hub, AgentConn, agent_command, SendResult, sent, hub_closed, agent_offline, stale_connection,
  write_error, send_to_agent, handshake_ready, is_current, current,
}
use thism.Hub.Races.{send_to_agent_lem}
use thism.Api.Server.{
  before_ready, before_job, before_sending, resend_ready, Server, World, delivered, command_of,
  settle, settle_sent, deliver_command, resend_job, resend_turn,
}

sent-command :
    (w : World) (t : UpdateJobTarget) (c cmd : AgentCommandPayload) (g : ℕ) (s : Server)
    → (settle_sent w t c g s).1 ≡ delivered cmd
    → c ≡ cmd
unfolding settle_sent
sent-command w t c cmd g s h = cc

settle-delivered :
    (w : World) (t : UpdateJobTarget) (c cmd : AgentCommandPayload) (g : ℕ) (r : Hub × SendResult)
    (s : Server)
    → (settle w t c g r s).1 ≡ delivered cmd
    → (r.1 ≡ sent)
      × (c ≡ cmd)
      × (settle w t c g r s ≡ settle_sent w t cmd g (record s { hub = r.0 }))
unfolding settle
settle-delivered w t c cmd g (hub, sent) s h =
    let same = sent-command w t c cmd g (record s { hub = hub }) h in
    (refl, same, ap (λ k. settle_sent w t k g (record s { hub = hub })) same)
settle-delivered w t c cmd g (hub, hub_closed) s h = cc
settle-delivered w t c cmd g (hub, agent_offline) s h = cc
settle-delivered w t c cmd g (hub, stale_connection) s h = cc
settle-delivered w t c cmd g (hub, write_error) s h = cc

-- The server when a turn sends its command.
abbrev pub sending_server : World → ℕ → UpdateJobTarget → Server → Server
sending_server w g t s =
    before_sending w t g (w.meanwhile before_job t (w.meanwhile before_ready t s))

-- The command was written, and nothing else, to the socket of the connection of the node that is
-- current at `at`; what was recorded of it afterwards is in `after`.
pub record WrittenAt (w : World) (node : String) (g : ℕ) (t : UpdateJobTarget)
    (cmd : AgentCommandPayload) (at after : Server) : Type 0 where
  pub entry : AgentConn
  pub found : current node at.hub ≡ some entry
  pub socket : ℕ
  pub conn : entry.conn ≡ some socket
  pub settled :
      after
      ≡ (settle_sent w t cmd g (record at {
        hub = record at.hub { written = (socket, agent_command cmd) ∷ at.hub.written };
      })).0
  pub seq : cmd.seq ≡ t.seq

job-delivered :
    (w : World) (node : String) (g : ℕ) (t : UpdateJobTarget) (s : Server)
    (cmd : AgentCommandPayload) (job : Option UpdateJob)
    → (resend_job w node g t job s).1 ≡ delivered cmd
    → WrittenAt w node g t cmd (before_sending w t g s) (resend_job w node g t job s).0
unfolding resend_job deliver_command
job-delivered w node g t s cmd none h = cc
job-delivered w node g t s cmd (some job) h =
    let c = command_of job t job.kind in
    let msg = agent_command c in
    let at = before_sending w t g s in
    let (success, same, settled) =
      settle-delivered w t c cmd g (send_to_agent (w.write_ok msg) node msg at.hub) at h in
    elim (send_to_agent_lem (w.write_ok msg) node msg at.hub) [
      | inl (q, open_, e, found, free, socket, conn, k) ↦ record {
        entry = e;
        found = found;
        socket = socket;
        conn = conn;
        settled =
            ap (λ r. r.0) settled
            ∙ ap (λ hub. (settle_sent w t cmd g (record at { hub = hub })).0)
                (k
                  ∙ ap (λ m. record at.hub { written = (socket, agent_command m) ∷ at.hub.written })
                      same);
        seq = ap (λ m. m.seq) (sym same) ∙ (unfold command_of in refl);
      }
      | inr (q, k) ↦ absurd (q success)
    ]

-- When a turn of the resend loop delivers a command, whatever other goroutines do before each of its
-- calls: the generation of the loop was current at its first call, the node's connection was ready
-- at its second, and the command, which carries the sequence of the target, was written, and nothing
-- else, to the socket of the connection that was current when it was sent. That may be a newer
-- connection than the one that was checked.
pub resend_turn-delivered :
    (w : World) (node : String) (g : ℕ) (t : UpdateJobTarget) (s : Server)
    (cmd : AgentCommandPayload)
    → (resend_turn w node g t s).1 ≡ delivered cmd
    → (is_current node g s.hub ≡ true)
      × (handshake_ready node w.now (w.meanwhile before_ready t s).hub ≡ true)
      × WrittenAt w node g t cmd (sending_server w g t s) (resend_turn w node g t s).0
unfolding resend_turn resend_ready
resend_turn-delivered w node g t s cmd = elim (Bool-cases (is_current node g s.hub)) [
  | inl now ↦
      let ready_at = w.meanwhile before_ready t s in
      elim (Bool-cases (handshake_ready node w.now ready_at.hub)) [
        | inl ready ↦
            let read = w.meanwhile before_job t ready_at in
            rw (now, ready)
              (λ h.
                (refl, refl, job-delivered w node g t read cmd (get_update_job t.job_id read.db) h))
        | inr early ↦ rw (now, early) (λ h. cc)
      ]
  | inr stale ↦ rw stale (λ h. cc)
]
