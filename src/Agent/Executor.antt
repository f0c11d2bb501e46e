-- ===== src/Agent/Executor.antt =====
-- internal/collector/agent_state.go, runUpdateTask, and collector.go, dispatchAgentCommand.
use thism.Base.{
  ℕ, Bool, true, false, Option, none, some, List, [], ◌∷◌, ◌==◌, string_eq, if◌then◌else◌, lit,
  String, Message,
}
use thism.Models.{Status, succeeded, failed, cancelled, AgentCommandPayload, CommandRejectCode}
use thism.Agent.State.{ExecutionRecord, InProgressState, SaveFault, Collector}
use thism.Agent.Admission.{Admission, admitted, replay, rejected, begin_update_task}
use thism.Agent.Tasks.{finish_update_task, abort_update_task}

-- The error of selfUpdateFunc: errSelfUpdateCancelled, context.Canceled, or another with its text.
pub data UpdateError : Type 0 where
  self_update_cancelled context_cancelled : UpdateError
  other_error : String → UpdateError

-- A call of `report`: a status, a message and a version.
pub record Report : Type 0 where
  pub status : Status
  pub message : Message
  pub version : String

cancelled_report : AgentCommandPayload → Report
cancelled_report cmd = record {
  status = cancelled;
  message = lit "cancelled before commit point" ∷ [];
  version = cmd.target_version;
}

-- The default case: a clean failure, if the update function has not recorded an outcome itself.
fail_task :
    SaveFault
    → ℕ
    → AgentCommandPayload
    → String
    → Option InProgressState
    → Collector
    → Collector × List Report
fail_task fault now cmd e none c = (c, [])
fail_task fault now cmd e (some p) c = (
  finish_update_task fault now failed (lit e ∷ []) c,
  record { status = failed; message = lit e ∷ []; version = cmd.target_version } ∷ [],
)

end_task :
    SaveFault → ℕ → AgentCommandPayload → Option UpdateError → Collector → Collector × List Report
unfolding fail_task cancelled_report
end_task fault now cmd none c =
    (finish_update_task fault now succeeded (lit "self update completed" ∷ []) c, [])
end_task fault now cmd (some self_update_cancelled) c = (
  finish_update_task fault now cancelled (lit "self update cancelled before commit point" ∷ []) c,
  cancelled_report cmd ∷ [],
)
end_task fault now cmd (some context_cancelled) c =
    (finish_update_task fault now cancelled (lit "cancelled" ∷ []) c, cancelled_report cmd ∷ [])
end_task fault now cmd (some (other_error e)) c = fail_task fault now cmd e c.state.in_progress c

-- runUpdateTask. `self_update` is selfUpdateFunc: the collector that it leaves, and its error.
unfoldable pub run_update_task :
    (self_update : AgentCommandPayload → Collector → Collector × Option UpdateError)
    → SaveFault
    → ℕ
    → AgentCommandPayload
    → Collector
    → Collector × List Report
unfolding end_task
run_update_task self_update fault now cmd c =
    let (ran, err) = self_update cmd (record c { task_cancel = true; task_cancelled = false }) in
    let (ended, reports) = end_task fault now cmd err ran in
    (record ended { task_cancel = false; task_cancelled = false }, reports)

-- The payload of sendAgentCommandStatus, its seq, stream and watermark left to the caller's state.
pub data Answer : Type 0 where
  unsupported : Answer
  replayed : ExecutionRecord → Answer
  refused : CommandRejectCode → Message → Answer
  busy : Message → Answer
  started : Answer

answer_rejected : Option CommandRejectCode → Message → Answer
answer_rejected none m = busy m
answer_rejected (some code) m = refused code m

answer : Admission → Answer
unfolding answer_rejected
answer admitted = started
answer (replay r) = replayed r
answer (rejected code m) = answer_rejected code m

-- dispatchAgentCommand up to the start of the task's goroutine.
unfoldable pub dispatch_agent_command :
    SaveFault → ℕ → AgentCommandPayload → Collector → Collector × Answer
unfolding answer
dispatch_agent_command fault now cmd c =
    let (c', outcome) = begin_update_task fault now cmd c in
    if cmd.kind == "self_update" then (c', answer outcome) else (c, unsupported)

-- The goroutine: it reports the acceptance, and gives the admission back if the socket is gone.
unfoldable pub run_dispatched :
    (self_update : AgentCommandPayload → Collector → Collector × Option UpdateError)
    → (report_ok : Bool) → SaveFault
    → ℕ
    → AgentCommandPayload
    → Collector
    → Collector × List Report
run_dispatched self_update report_ok fault now cmd c =
    if report_ok
    then run_update_task self_update fault now cmd c
    else (abort_update_task fault cmd c, [])
