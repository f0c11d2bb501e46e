-- ===== src/Agent/Admission.antt =====
-- internal/collector/agent_state.go: beginUpdateTask, the admission control of the one update
-- executor of the agent.
use thism.Base.{
  ℕ, ◌+◌, Bool, false, Option, none, some, [], ◌∷◌, ◌==◌, ◌||◌, string_eq, nat_eq, if◌then◌else◌,
  ltb, lit, num, Message, trim_space, to_lower, not,
}
use thism.Models.{
  ControlState, control_none, control_quarantined, control_blocked, accepted, AgentCommandPayload,
  CommandRejectCode, sequence_gap, expired, already_processed, reject_control_quarantined,
  reject_control_blocked,
}
use thism.Agent.State.{
  Key, key_eq, command_dedup_key, ExecutionRecord, InProgressState, AgentState, append_record,
  find_record, SaveFault, Collector, save_agent_state,
}

-- The results of beginUpdateTask: ok; a record to replay; or a refusal, with its code unless the
-- executor is merely busy.
pub data Admission : Type 0 where
  admitted : Admission
  replay : ExecutionRecord → Admission
  rejected : Option CommandRejectCode → Message → Admission

in_progress_record : InProgressState → ExecutionRecord
in_progress_record p = record {
  key = p.key;
  seq = p.seq;
  job_id = p.job_id;
  status = p.stage;
  message = lit "already in progress" ∷ [];
  reported_version = p.target_version;
  target_sha256 = p.target_sha256;
  updated_at = p.last_progress_at;
}

unfoldable pub new_in_progress : Key → ℕ → AgentCommandPayload → InProgressState
new_in_progress key now cmd = record {
  key = key;
  seq = cmd.seq;
  job_id = cmd.job_id;
  stage = accepted;
  target_version = cmd.target_version;
  target_sha256 = to_lower (trim_space cmd.sha256);
  started_at = now;
  last_progress_at = now;
  commit_point = false;
  cancel_intent = false;
}

accepted_record : Key → ℕ → AgentCommandPayload → ExecutionRecord
accepted_record key now cmd = record {
  key = key;
  seq = cmd.seq;
  job_id = cmd.job_id;
  status = accepted;
  message = lit "accepted" ∷ [];
  reported_version = "";
  target_sha256 = to_lower (trim_space cmd.sha256);
  updated_at = now;
}

-- The state that an admission leaves.
unfoldable pub accepted_state : ℕ → AgentCommandPayload → AgentState → AgentState
unfolding new_in_progress accepted_record
accepted_state now cmd s = record s {
  in_progress = some (new_in_progress (command_dedup_key cmd) now cmd);
  records = append_record s.records (accepted_record (command_dedup_key cmd) now cmd);
}

-- The command is new: the executor must be free. A save that fails is only logged.
admit_in :
    SaveFault → ℕ → AgentCommandPayload → Option InProgressState → Collector → Collector × Admission
unfolding in_progress_record accepted_state
admit_in fault now cmd (some p) c = (
  c,
  if p.key == command_dedup_key cmd
      then replay (in_progress_record p)
      else rejected none (lit "another self update is already in progress" ∷ []),
)
admit_in fault now cmd none c =
    ((save_agent_state fault (record c { state = accepted_state now cmd c.state })).0, admitted)

dedup :
    SaveFault → ℕ → AgentCommandPayload → Option ExecutionRecord → Collector → Collector × Admission
unfolding admit_in
dedup fault now cmd (some r) c = (c, replay r)
dedup fault now cmd none c = admit_in fault now cmd c.state.in_progress c

replay_retired : ℕ → Option ExecutionRecord → Admission
replay_retired seq (some r) = replay r
replay_retired seq none =
    rejected (some already_processed) (lit "seq " ∷ num seq ∷ lit " already processed" ∷ [])

-- The sequence gate, then the deduplication.
gate : SaveFault → ℕ → AgentCommandPayload → Collector → Collector × Admission
unfolding dedup replay_retired find_record
gate fault now cmd c =
    let w = c.state.retired_watermark in
    let found = find_record c.state.records (command_dedup_key cmd) in
    if ltb 0 cmd.seq
    then if ltb cmd.seq w
      then (
        c,
        rejected (some expired)
            (lit "seq " ∷ num cmd.seq ∷ lit " already retired (watermark " ∷ num w ∷ lit ")" ∷ []),
      )
      else if cmd.seq == w
      then (c, replay_retired cmd.seq found)
      else if ltb (w + 1) cmd.seq
      then (c, rejected (some sequence_gap) (lit "expected seq " ∷ num (w + 1) ∷ []))
      else dedup fault now cmd found c
    else dedup fault now cmd found c

unfoldable pub stream_mismatch : AgentCommandPayload → AgentState → Bool
stream_mismatch cmd s =
    if ltb 0 cmd.seq
    then trim_space s.stream_id == "" || not (trim_space cmd.stream_id == trim_space s.stream_id)
    else false

begin_in : ControlState → SaveFault → ℕ → AgentCommandPayload → Collector → Collector × Admission
unfolding gate stream_mismatch
begin_in control_quarantined fault now cmd c = (
  c,
  rejected (some reject_control_quarantined) (lit "agent quarantined: " ∷ c.state.control_reason),
)
begin_in control_blocked fault now cmd c = (
  c,
  rejected (some reject_control_blocked) (lit "agent control-blocked: " ∷ c.state.control_reason),
)
begin_in control_none fault now cmd c =
    if stream_mismatch cmd c.state
    then (
      (save_agent_state fault (record c {
        state = record c.state {
          control_state = control_quarantined;
          control_reason = lit "command stream mismatch" ∷ [];
        };
      })).0,
      rejected (some reject_control_quarantined) (lit "command stream mismatch" ∷ []),
    )
    else gate fault now cmd c

unfoldable pub begin_update_task :
    SaveFault → ℕ → AgentCommandPayload → Collector → Collector × Admission
unfolding begin_in
begin_update_task fault now cmd c = begin_in c.state.control_state fault now cmd c
