-- ===== src/Agent/Tasks.antt =====
-- internal/collector/agent_state.go and collector.go: progress, end, cancellation and abort of the
-- task, the commit point, the handshake, and the executor.
use thism.Base.{
  ℕ, Bool, true, false, Option, none, some, [], ◌∷◌, ◌==◌, ◌&&◌, ◌||◌, not, string_eq, nat_eq,
  if◌then◌else◌, ltb, lit, String, Message, filter,
}
use thism.Models.{
  control_blocked, Status, status_eq, accepted, unknown, cancelled, AgentCommandPayload,
}
use thism.Agent.State.{
  Key, key_eq, command_dedup_key, ExecutionRecord, InProgressState, AgentState, append_record,
  replace_record, find_record, SaveFault, Collector, save_agent_state,
}
use thism.Agent.Recover.{unknown_reason}

with_state : Collector → AgentState → Collector
with_state c s = record c { state = s }

-- `record.ReportedVersion` and the other fields are written through the pointer that findRecord
-- returns, so the record is replaced where it stands.
progress_record : Status → Message → ℕ → InProgressState → ExecutionRecord → ExecutionRecord
progress_record stage message now p r = record r {
  status = stage;
  message = message;
  updated_at = now;
  reported_version = if p.target_version == "" then r.reported_version else p.target_version;
}

progress_save : SaveFault → Status → Message → ℕ → InProgressState → Collector → Collector
unfolding progress_record with_state
progress_save fault stage message now p c = elim (find_record c.state.records p.key) [
  | none ↦ c
  | some r ↦
      (save_agent_state fault (
        with_state c (record c.state {
          records = replace_record (progress_record stage message now p r) c.state.records;
        }))).0
]

progress_in : SaveFault → Status → Message → ℕ → Option InProgressState → Collector → Collector
unfolding progress_save
progress_in fault stage message now none c = c
progress_in fault stage message now (some p) c = progress_save fault stage message now p (record c {
  state = record c.state {
    in_progress = some (record p { stage = stage; last_progress_at = now });
  };
})

unfoldable pub update_task_progress : SaveFault → ℕ → Status → Message → Collector → Collector
unfolding progress_in
update_task_progress fault now stage message c =
    progress_in fault stage message now c.state.in_progress c

unfoldable pub finish_record : Status → Message → ℕ → InProgressState → ExecutionRecord
finish_record status message now p = record {
  key = p.key;
  seq = p.seq;
  job_id = p.job_id;
  status = status;
  message = if status == cancelled then lit "cancelled before commit point" ∷ [] else message;
  reported_version = if status == cancelled then "" else p.target_version;
  target_sha256 = p.target_sha256;
  updated_at = now;
}

-- The state after the end of the task. Its sequence is retired.
unfoldable pub finished_state : Status → Message → ℕ → InProgressState → AgentState → AgentState
unfolding finish_record
finished_state status message now p s = record s {
  records = append_record s.records (finish_record status message now p);
  control_state = if status == unknown then control_blocked else s.control_state;
  control_reason = if status == unknown then unknown_reason else s.control_reason;
  retired_watermark =
      if ltb 0 p.seq && not (status == accepted)
      then (if ltb s.retired_watermark p.seq then p.seq else s.retired_watermark)
      else s.retired_watermark;
  in_progress = none;
}

finish_in : SaveFault → Status → Message → ℕ → Option InProgressState → Collector → Collector
unfolding finished_state
finish_in fault status message now none c = c
finish_in fault status message now (some p) c =
    (save_agent_state fault (record c { state = finished_state status message now p c.state })).0

unfoldable pub finish_update_task : SaveFault → ℕ → Status → Message → Collector → Collector
unfolding finish_in
finish_update_task fault now status message c =
    finish_in fault status message now c.state.in_progress c

commit_in : SaveFault → Option InProgressState → Collector → Collector × Bool
commit_in fault none c = (c, true)
commit_in fault (some p) c =
    save_agent_state fault (record c {
      state = record c.state { in_progress = some (record p { commit_point = true }) };
    })

-- The Boolean is true when an error is returned.
unfoldable pub mark_commit_point : SaveFault → Collector → Collector × Bool
unfolding commit_in
mark_commit_point fault c = commit_in fault c.state.in_progress c

-- abortUpdateTask
abort_in : SaveFault → Key → Option InProgressState → Collector → Collector
abort_in fault key none c = c
abort_in fault key (some p) c =
    if p.key == key
    then (save_agent_state fault (record c {
      state = record c.state {
        in_progress = none;
        records = filter (λ r. not (r.key == key)) c.state.records;
      };
    })).0
    else c

unfoldable pub abort_update_task : SaveFault → AgentCommandPayload → Collector → Collector
unfolding abort_in
abort_update_task fault cmd c = abort_in fault (command_dedup_key cmd) c.state.in_progress c

-- cancelTask's test: a zero sequence and an empty job match any task.
unfoldable pub task_matches : ℕ → String → Option InProgressState → Bool
task_matches seq job_id none = false
task_matches seq job_id (some p) =
    not (ltb 0 seq && not (p.seq == seq)) && (job_id == "" || p.job_id == job_id)

unfoldable pub cancel_task : ℕ → String → Collector → Collector × Bool
unfolding task_matches
cancel_task seq job_id c =
    if task_matches seq job_id c.state.in_progress
    then (record c { task_cancelled = c.task_cancelled || c.task_cancel }, true)
    else (c, false)

-- The answer that handleCancelRequest sends, if it sends one.
pub data CancelReply : Type 0 where
  no_matching_task cancel_refused cancel_applied no_reply : CancelReply

cancel_commit : SaveFault → ℕ → String → InProgressState → Collector → Collector × CancelReply
unfolding cancel_task
cancel_commit fault seq job_id p c =
    if p.commit_point
    then (c, cancel_refused)
    else let marked =
        (save_agent_state fault (record c {
          state = record c.state { in_progress = some (record p { cancel_intent = true }) };
        })).0 in
      let (c', done) = cancel_task seq job_id marked in
      (c', if done then cancel_applied else no_reply)

cancel_in : SaveFault → ℕ → String → Option InProgressState → Collector → Collector × CancelReply
unfolding cancel_commit
cancel_in fault seq job_id none c = (c, no_matching_task)
cancel_in fault seq job_id (some p) c =
    if task_matches seq job_id (some p)
    then cancel_commit fault seq job_id p c
    else (c, no_matching_task)

-- handleCancelRequest, with no other call between its two sections under the lock.
unfoldable pub handle_cancel_request : SaveFault → ℕ → String → Collector → Collector × CancelReply
unfolding cancel_in task_matches
handle_cancel_request fault seq job_id c = cancel_in fault seq job_id c.state.in_progress c
