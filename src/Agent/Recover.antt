-- ===== src/Agent/Recover.antt =====
-- internal/collector/agent_state.go: loading the state file, and the recovery of a task that a
-- crash or a restart left in progress.
use thism.Base.{
  ℕ, Bool, true, false, Option, none, some, [], ◌∷◌, ◌==◌, string_eq, if◌then◌else◌, ltb, lit,
  String, Message, trim_space, equal_fold,
}
use thism.Models.{
  control_none, control_quarantined, control_blocked, Status, succeeded, unknown, failed, cancelled,
}
use thism.Agent.State.{
  ExecutionRecord, InProgressState, AgentState, append_record, StateFile, missing, unreadable,
  corrupted, stored, SaveFault, Collector, save_agent_state,
}

abbrev pub unknown_reason : Message
unknown_reason = lit "undisposed unknown execution state" ∷ []

outcome : InProgressState → Status → Message → String → ℕ → ExecutionRecord
outcome p s message sha now = record {
  key = p.key;
  seq = p.seq;
  job_id = p.job_id;
  status = s;
  message = message;
  reported_version = "";
  target_sha256 = sha;
  updated_at = now;
}

-- `digest` is currentExecutableSHA256, none when it fails.
unfoldable pub digest_matches : Option String → String → Bool
digest_matches none target = false
digest_matches (some d) target = equal_fold (trim_space d) (trim_space target)

-- The record that recovery writes for the task.
unfoldable pub recovery_record : Option String → ℕ → InProgressState → ExecutionRecord
unfolding digest_matches outcome
recovery_record digest now p =
    if p.commit_point
    then if digest_matches digest p.target_sha256
      then outcome p succeeded
          (lit "recovered after restart: executable SHA256 matches target" ∷ []) p.target_sha256 now
      else outcome p unknown
          (lit "post-commit restart with unverifiable binary; operator disposition required" ∷ [])
          p.target_sha256 now
    else if p.cancel_intent
    then outcome p cancelled (lit "cancelled before commit point" ∷ []) "" now
    else outcome p failed (lit "interrupted before commit point" ∷ []) "" now

-- The state after recovery; the task is blocked on when its binary cannot be verified.
unfoldable pub recovered_state : Option String → ℕ → InProgressState → AgentState → AgentState
unfolding recovery_record
recovered_state digest now p s =
    let blocks =
      if p.commit_point
      then (if digest_matches digest p.target_sha256 then false else true)
      else false in
    record s {
      records = append_record s.records (recovery_record digest now p);
      control_state = if blocks then control_blocked else s.control_state;
      control_reason = if blocks then unknown_reason else s.control_reason;
      retired_watermark = if ltb s.retired_watermark p.seq then p.seq else s.retired_watermark;
      in_progress = none;
    }

recover_task : SaveFault → Option String → ℕ → Option InProgressState → Collector → Collector
unfolding recovered_state save_agent_state
recover_task fault digest now none c = c
recover_task fault digest now (some p) c =
    (save_agent_state fault (record c {
      state = recovered_state digest now p c.state;
      update_tmp = if p.commit_point then c.update_tmp else false;
    })).0

unfoldable pub recover_in_progress_state : SaveFault → Option String → ℕ → Collector → Collector
unfolding recover_task
recover_in_progress_state fault digest now c = recover_task fault digest now c.state.in_progress c

abbrev pub empty_state : AgentState
empty_state = record {
  stream_id = "";
  retired_watermark = 0;
  in_progress = none;
  records = [];
  control_state = control_none;
  control_reason = [];
}

quarantined_state : String → String → AgentState
quarantined_state cause err = record empty_state {
  control_state = control_quarantined;
  control_reason = lit cause ∷ lit err ∷ [];
}

load_file : SaveFault → Option String → ℕ → StateFile → Collector → Collector
unfolding quarantined_state recover_in_progress_state
load_file fault digest now missing c = record c { state = empty_state }
load_file fault digest now (unreadable e) c = record c {
  state = quarantined_state "local state unreadable: " e;
}
load_file fault digest now (corrupted e) c = record c {
  state = quarantined_state "local state corrupted: " e;
}
load_file fault digest now (stored s) c =
    recover_in_progress_state fault digest now (record c { state = s })

-- `default_path` is defaultAgentStatePath, "" when the executable is not found.
unfoldable pub load_agent_state : String → SaveFault → Option String → ℕ → Collector → Collector
unfolding load_file
load_agent_state default_path fault digest now c =
    let path = if c.state_path == "" then default_path else c.state_path in
    let started = record c { state_path = path } in
    if path == ""
    then record started { state = empty_state }
    else load_file fault digest now c.state_file started
