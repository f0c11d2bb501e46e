-- ===== src/Tests/Api.antt =====
-- Runs of the control plane's handlers on a server with a node "n1" and two update jobs.
use thism.Base.{
  List, ◌≡◌, ◌≢◌, ◌≤◌, ◌<◌, refl, ◌⊎◌, true, false, none, some, [], ◌∷◌, String, ◌==◌, string_eq,
  nat_eq, any_of, All, trim_space, length, find_first,
}
use thism.Base.Table.{lookup}
use thism.Models.{
  delivery_sending, sequence_gap, pending, accepted, delivery_pending, observation_none,
  control_none, job_pending, UpdateJob, UpdateJobTarget, CommandStream, AgentCommandStatusPayload,
}
use thism.Store.Tables.{Db, find_stream, find_target}
use thism.Store.Jobs.{create_update_job_with_targets, get_update_job}
use thism.Store.Transitions.{is_allowed}
use thism.Hub.Connections.{
  AgentConn, current, entry, is_current, handshake_ready, send_to_agent, send_in, write_to,
}
use thism.Alerting.Settings.{normalize_node_ids}
use thism.Api.Server.{
  Server, World, delivered, command_of, resend_turn, resend_ready, before_sending, resend_job,
  deliver_command, settle, settle_sent, set_db, resend_pending_deliveries,
}
use thism.Api.Agent.{command_status, handle_message, is_blank, handle_agent_command_status}
use thism.Api.Delivery.{
  attempts, Rising, Unbroken, Checked, due_targets, resend_pending_deliveries-order,
}
use thism.Api.Sending.{WrittenAt, sending_server, resend_turn-delivered}
use thism.Api.Isolation.{Kept, handle_agent_command_status-Kept}
use thism.Api.Reports.{handle_message_lem}
use thism.Api.Creation.{Distinct, Added, create_update_job_with_targets-Added}
use thism.Api.Offline.{Write, writes_status, writes_delivery}

abbrev job : UpdateJob
job = record {
  id = "j1";
  kind = "self_update";
  target_version = "2.0";
  download_url = "https://example.org/agent";
  sha256 = "00";
  signature = "sig";
  created_at = 5;
  updated_at = 5;
  created_by = "admin";
  status = job_pending;
}

abbrev row : UpdateJobTarget
row = record {
  job_id = "j1";
  node_id = "n1";
  status = pending;
  message = [];
  updated_at = 5;
  reported_version = "";
  seq = 1;
  stream_id = "s1";
  delivery_state = delivery_pending;
  delivery_error = "";
  delivery_attempts = 0;
  delivery_attempted_at = 0;
  delivery_generation = 0;
  target_sha256 = "00";
  observation = observation_none;
  cancel_intent_at = 0;
  cancelled_at = 0;
  last_progress_at = 5;
}

abbrev stream : CommandStream
stream = record {
  node_id = "n1";
  stream_id = "s1";
  next_seq = 2;
  retired_watermark = 0;
  control_state = control_none;
  control_reason = [];
  updated_at = 5;
}

abbrev tables : Db
tables = record {
  jobs = job ∷ [];
  targets = row ∷ [];
  streams = stream ∷ [];
  tombstones = [];
  retirements = [];
  audit = [];
  last_audit_id = 0;
}

abbrev conn : AgentConn
conn = record {
  node_id = "n1";
  generation = 1;
  conn = some 70;
  fenced = false;
  handshake_done = true;
  handshake_deadline = 130;
}

abbrev online : Server
online = record {
  db = tables;
  nodes = "n1" ∷ [];
  hub = record {
    entries = conn ∷ [];
    agents = ("n1", 1) ∷ [];
    register = [];
    unregister = [];
    broadcast = [];
    subscribers = [];
    closing = false;
    closed = false;
    next_gen = 1;
    written = [];
    closed_sockets = [];
  };
}

abbrev offline : Server
offline = record online { hub = record online.hub { entries = []; agents = [] } }

abbrev world : World
world = record {
  now = 200;
  write_ok = λ m. true;
  error_text = λ r. "";
  meanwhile = λ gap t s. s;
  until_stream = λ s. s;
  until_query = λ s. s;
}

online-stream : find_stream "n1" online.db ≡ some stream
unfolding find_stream find_first
online-stream = refl

resend_pending_deliveries-order_example :
    let turns = (resend_pending_deliveries world "n1" 1 online).1 in
    All (λ c. 0 < c.seq) (attempts turns)
    × Rising 0 (attempts turns)
    × (length turns ≤ 64)
    × Unbroken turns
    × Checked world "n1" 1 (due_targets world "n1" stream online) online turns
resend_pending_deliveries-order_example =
    resend_pending_deliveries-order world "n1" 1 online stream online-stream

online-delivers :
    (resend_turn world "n1" 1 row online).1 ≡ delivered (command_of job row "self_update")
unfolding resend_turn resend_ready resend_job deliver_command before_sending settle settle_sent
    set_db is_current handshake_ready current lookup entry find_first get_update_job send_to_agent
    send_in write_to
online-delivers = refl

resend_turn-delivered_example :
    (is_current "n1" 1 online.hub ≡ true)
    × (handshake_ready "n1" 200 online.hub ≡ true)
    × WrittenAt world "n1" 1 row
        (command_of job row "self_update")
        (sending_server world 1 row online)
        (resend_turn world "n1" 1 row online).0
resend_turn-delivered_example =
    resend_turn-delivered world "n1" 1 row online (command_of job row "self_update") online-delivers

abbrev report : AgentCommandStatusPayload
report = record {
  job_id = "j1";
  status = accepted;
  message = [];
  reported_version = "";
  stream_id = "s1";
  seq = 1;
  retired_watermark = 0;
  reject_code = none;
}

handle_agent_command_status-Kept_example :
    Kept "n1" online (handle_agent_command_status world "n1" report online)
handle_agent_command_status-Kept_example = handle_agent_command_status-Kept world "n1" report online

handle_message_lem_example :
    (handle_message world "s2" "n1" 1 (command_status report) online ≡ online)
    ⊎ ((report.reject_code ≡ some sequence_gap) × (is_blank "s1" ≡ false))
    ⊎ ((report.reject_code ≡ none)
        × (is_blank "j1" ≡ false)
        × (t : UpdateJobTarget) × (find_target "j1" "n1" tables ≡ some t)
        × (is_allowed t.status accepted ≡ true)
        × ((report.seq ≡ 0) ⊎ ((t.seq ≡ 1) × (t.stream_id ≡ "s1"))))
handle_message_lem_example = handle_message_lem world "s2" "n1" report 1 online

abbrev next_job : UpdateJob
next_job = record job { id = "j2" }

j2-new : any_of (λ j. j.id == "j2") tables.jobs ≡ false
unfolding any_of
j2-new = refl

j2-no_rows : any_of (λ t. t.job_id == "j2") tables.targets ≡ false
unfolding any_of
j2-no_rows = refl

create_update_job_with_targets-Added_example :
    let ids = normalize_node_ids (" n1" ∷ "n2" ∷ "n1" ∷ "" ∷ []) in
    All (λ id. (id ≢ "") × (raw : String) × (id ≡ trim_space raw)) ids
    × Distinct [] ids
    × (db' : Db) × (create_update_job_with_targets (λ n. "s2") 200 next_job ids tables ≡ some db')
    × Added next_job ids tables db'
create_update_job_with_targets-Added_example =
    create_update_job_with_targets-Added (λ n. "s2") 200 next_job (" n1" ∷ "n2" ∷ "n1" ∷ "" ∷ [])
      tables j2-new j2-no_rows

abbrev later_writes : List Write
later_writes =
    writes_status pending [] "" 300
    ∷ writes_delivery delivery_sending "" 2 301
    ∷ writes_status accepted [] "" 302
    ∷ []
