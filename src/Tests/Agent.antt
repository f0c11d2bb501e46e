-- ===== src/Tests/Agent.antt =====
-- Runs of the agent: one command of a stream "s1" from its admission to its end.
use thism.Base.{
  trim_space, to_lower, ◌≡◌, refl, ◌≢◌, ◌⊎◌, inl, inr, ◌≤◌, ◌↔◌, true, false, none, some, [], ◌∷◌,
  arith, length, ℕ, zero, suc, List, ◌==◌, string_eq,
}
use thism.Models.{
  status_beq, succeeded, unknown, restarting, accepted, AgentCommandPayload,
  AgentHandshakeAckPayload, control_none, control_blocked, control_quarantined,
}
use thism.Agent.State.{
  has_key, replace_record, command_dedup_key, key_beq, seq_key, ExecutionRecord, InProgressState,
  AgentState, stored, no_fault, sync_failed, Collector, append_record, find_record, killed_save,
  save_agent_state, agent_state_records_window,
}
use thism.Agent.Recover.{empty_state, recover_in_progress_state, load_agent_state}
use thism.Agent.Admission.{admitted, replay, begin_update_task, stream_mismatch}
use thism.Agent.Tasks.{finish_update_task, mark_commit_point, update_task_progress}
use thism.Agent.Handshake.{apply_handshake_ack}
use thism.Agent.History.{
  History, Reach, here, next, begin, start, finish, acknowledge, installed, Descending,
  execute_once,
}
use thism.Agent.Records.{length-append_record, find-append_record, find-append_record_ne}
use thism.Agent.Gate.{
  IsAdmissible, begin_update_task-admitted, begin_update_task-refused, begin_update_task-replay,
}
use thism.Agent.Durability.{
  RecoveryOutcome, save_agent_state_atomic, recover_in_progress_state_lem,
  begin_update_task_forgotten,
}
use thism.Agent.SelfUpdate.{
  answered, live, Host, Machine, executed, verify_binary, checksum_matches, run_self_update,
  validate_self_update_source,
}

abbrev update : AgentCommandPayload
update = record {
  job_id = "job-1";
  kind = "self_update";
  target_version = "1.2.0";
  download_url = "";
  sha256 = "ab";
  signature = "";
  stream_id = "s1";
  seq = 1;
}

abbrev late_update : AgentCommandPayload
late_update = record update { seq = 3 }

abbrev bound_state : AgentState
bound_state = record empty_state { stream_id = "s1" }

abbrev bound : Collector
bound = record {
  state = bound_state;
  state_path = "/state";
  state_file = stored bound_state;
  update_tmp = false;
  task_cancel = false;
  task_cancelled = false;
}

abbrev ack : AgentHandshakeAckPayload
ack = record {
  stream_id = "s1";
  next_seq = 1;
  retired_watermark = 0;
  control_state = control_none;
  message = [];
}

abbrev task : InProgressState
task = record {
  key = seq_key 1;
  seq = 1;
  job_id = "job-1";
  stage = accepted;
  target_version = "1.2.0";
  target_sha256 = "ab";
  started_at = 7;
  last_progress_at = 7;
  commit_point = false;
  cancel_intent = false;
}

abbrev done_record : ExecutionRecord
done_record = record {
  key = seq_key 1;
  seq = 1;
  job_id = "job-1";
  status = succeeded;
  message = [];
  reported_version = "";
  target_sha256 = "ab";
  updated_at = 9;
}

update-admitted : (begin_update_task no_fault 7 update bound).1 ≡ admitted
update-admitted = (begin_update_task-admitted no_fault 7 update bound).1 (record {
  control = refl;
  stream = unfold stream_mismatch trim_space in refl;
  next_in_order = inr refl;
  unrecorded = unfold find_record in refl;
  idle = refl;
})

begin_update_task-admitted_example :
    ((begin_update_task no_fault 7 late_update bound).1 ≡ admitted) ↔ IsAdmissible late_update bound
begin_update_task-admitted_example = begin_update_task-admitted no_fault 7 late_update bound

find-append_record_example :
    find_record (append_record [] done_record) (seq_key 1) ≡ some done_record
find-append_record_example = find-append_record [] done_record

length-append_record_example : length (append_record [] done_record) ≤ agent_state_records_window
length-append_record_example = length-append_record [] done_record (omega arith)

find-append_record_ne_example :
    find_record (append_record [] done_record) (seq_key 2) ≡ find_record [] (seq_key 2)
find-append_record_ne_example =
    find-append_record_ne [] done_record (seq_key 2) (λ e. absurd (grind arith)) (omega arith)

begin_update_task-refused_example :
    let s = (begin_update_task no_fault 7 late_update bound).0.state in
    (s.in_progress ≡ none)
    × (s.records ≡ [])
    × (s.retired_watermark ≡ 0)
    × (s.stream_id ≡ "s1")
    × ((stream_mismatch late_update bound_state ≡ true) ⊎ (s.control_state ≡ control_none))
begin_update_task-refused_example = begin_update_task-refused no_fault 7 late_update bound (λ e.
    elim ((begin_update_task-admitted no_fault 7 late_update bound).0 e).next_in_order [
      | inl q ↦ omega arith
      | inr q ↦ omega arith
    ])

begin_update_task-replay_example :
    let d =
      finish_update_task sync_failed 9 succeeded [] (begin_update_task no_fault 7 update bound).0 in
    (r : ExecutionRecord) × (begin_update_task no_fault 11 update d ≡ (d, replay r))
    × (r.status ≡ succeeded)
    × (r.key ≡ seq_key 1)
unfolding status_beq command_dedup_key
begin_update_task-replay_example =
    begin_update_task-replay no_fault sync_failed 7 9 11 update succeeded [] bound update-admitted
      refl refl

save_agent_state_atomic_example :
    let (d, err) = save_agent_state sync_failed bound in
    (d.state ≡ bound_state)
    × (((err ≡ true) × (d.state_file ≡ stored bound_state))
        ⊎ ((err ≡ false)
            × ((bound.state_path ≡ "") ⊎ (control_none ≡ control_quarantined))
            × (d.state_file ≡ stored bound_state))
        ⊎ ((err ≡ false)
            × (bound.state_path ≢ "")
            × (control_none ≢ control_quarantined)
            × (d.state_file ≡ stored bound_state)))
    × ((killed_save 3 sync_failed bound ≡ stored bound_state)
        ⊎ (killed_save 3 sync_failed bound ≡ stored bound_state))
save_agent_state_atomic_example = save_agent_state_atomic sync_failed 3 bound

abbrev restarted_task : InProgressState
restarted_task = record task { stage = restarting; commit_point = true }

abbrev restarted : Collector
restarted = record bound { state = record bound_state { in_progress = some restarted_task } }

recover_in_progress_state_lem_example :
    let t = (recover_in_progress_state no_fault (some "cd") 20 restarted).state in
    (r : ExecutionRecord) × (find_record t.records (seq_key 1) ≡ some r)
    × RecoveryOutcome (some "cd") restarted_task r.status
    × (t.in_progress ≡ none)
    × (1 ≤ t.retired_watermark)
    × (((r.status ≡ unknown) × (t.control_state ≡ control_blocked))
        ⊎ ((r.status ≢ unknown) × (t.control_state ≡ control_none)))
recover_in_progress_state_lem_example =
    recover_in_progress_state_lem no_fault (some "cd") 20 restarted_task restarted refl

update-admitted_unsaved : (begin_update_task sync_failed 7 update bound).1 ≡ admitted
update-admitted_unsaved =
    (begin_update_task-admitted sync_failed 7 update bound).1
      ((begin_update_task-admitted no_fault 7 update bound).0 update-admitted)

begin_update_task_forgotten_example :
    let d = load_agent_state "" no_fault none 20 (begin_update_task sync_failed 7 update bound).0 in
    (begin_update_task no_fault 20 update d).1 ≡ admitted
begin_update_task_forgotten_example =
    begin_update_task_forgotten sync_failed 7 20 "" none update bound (λ e. cc e) refl refl
      update-admitted_unsaved

abbrev connected : History
connected = record (installed "/state") {
  agent = apply_handshake_ack no_fault ack (installed "/state").agent;
}

abbrev begun : History
begun = record connected { agent = (begin_update_task no_fault 7 update connected.agent).0 }

begun-in_progress : begun.agent.state.in_progress ≡ some task
unfolding begin_update_task apply_handshake_ack save_agent_state command_dedup_key trim_space
    to_lower
begun-in_progress = refl

abbrev started : History
started = record begun { running = true; executed = 1 ∷ [] }

abbrev finished : History
finished = record started {
  agent = finish_update_task no_fault 9 succeeded [] started.agent;
  running = false;
}

abbrev second_update : AgentCommandPayload
second_update = record update { job_id = "job-2"; seq = 2 }

abbrev second_task : InProgressState
second_task = record task {
  key = seq_key 2;
  seq = 2;
  job_id = "job-2";
  started_at = 12;
  last_progress_at = 12;
}

abbrev begun_again : History
begun_again = record finished {
  agent = (begin_update_task no_fault 12 second_update finished.agent).0;
}

begun_again-in_progress : begun_again.agent.state.in_progress ≡ some second_task
unfolding begin_update_task apply_handshake_ack save_agent_state command_dedup_key trim_space
    to_lower finish_update_task append_record has_key replace_record find_record status_beq key_beq
begun_again-in_progress = refl

abbrev started_again : History
started_again = record begun_again { running = true; executed = 2 ∷ 1 ∷ [] }

run : Reach (installed "/state") started_again
unfolding status_beq
run =
    next
      (next
        (next
          (next (next (next here (acknowledge no_fault ack)) (begin 7 update))
            (start task begun-in_progress refl))
          (finish no_fault 9 succeeded [] refl))
        (begin 12 second_update))
      (start second_task begun_again-in_progress refl)

execute_once_example : Descending (2 ∷ 1 ∷ [])
execute_once_example = execute_once "/state" started_again refl run

bytes : ℕ → List ℕ
bytes zero = []
bytes (suc n) = 7 ∷ bytes n

abbrev host : Host
host = record {
  server_url = "https://thism.example";
  agent_version = "1.1.0";
  parse_url = λ url. some ("https", "releases.example");
  sha256_hex = λ data_. "ab";
  public_key = "a2V5";
  decode_base64 = λ key. some (bytes 32);
  decode_hex = λ sig. some (bytes 64);
  ed25519_verify = λ key data_ sig. data_ == "new binary";
  report_ok = λ status. true;
  download = λ url. answered 200 "new binary";
  before_verify = live;
  after_verify = live;
  before_commit = live;
  executable_found = true;
  tmp_written = true;
  partial_tmp = none;
  tmp_removed = true;
  renamed = true;
  restart_live = true;
  version_path_known = true;
  version_written = true;
  partial_version = "";
  still_live = true;
  executes = true;
  now = 50;
  fault = λ status. no_fault;
  commit_fault = no_fault;
}

abbrev machine : Machine
machine = record {
  collector = record bound { state = record bound_state { in_progress = some task } };
  executable = "old binary";
  tmp = none;
  version_file = "1.1.0\n";
  reports = [];
}

abbrev signed_update : AgentCommandPayload
signed_update = record update { download_url = "https://releases.example/agent"; signature = "07" }

run_self_update_replaces :
    ((run_self_update host signed_update machine).0.executable ≡ "new binary")
    × ((run_self_update host signed_update machine).1 ≡ executed)
unfolding run_self_update validate_self_update_source checksum_matches to_lower trim_space
    verify_binary bytes mark_commit_point update_task_progress find_record save_agent_state
run_self_update_replaces = (refl, refl)
