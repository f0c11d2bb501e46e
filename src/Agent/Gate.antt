-- ===== src/Agent/Gate.antt =====
-- What beginUpdateTask admits, what it refuses, and what a refusal leaves alone.
use thism.Base.{
  true, ◌⊎◌, ◌∙◌, ap, ◌∙◌, ap, ℕ, ◌+◌, ◌<◌, ◌≡◌, refl, ◌≢◌, ◌↔◌, false, none, some, ◌==◌, string_eq,
  arith, Message,
}
use thism.Models.{control_none, Status, status_eq, accepted, unknown, AgentCommandPayload}
use thism.Agent.State.{
  key_eq, InProgressState, command_dedup_key, ExecutionRecord, find_record, SaveFault, Collector,
  save_agent_state,
}
use thism.Agent.Admission.{
  admitted, replay, stream_mismatch, begin_update_task, accepted_state, new_in_progress,
}
use thism.Agent.Tasks.{finish_update_task, finish_record, finished_state}
use thism.Agent.Records.{find-append_record}

-- What an admission needs.
pub record IsAdmissible (cmd : AgentCommandPayload) (c : Collector) : Type 0 where
  pub control : c.state.control_state ≡ control_none
  pub stream : stream_mismatch cmd c.state ≡ false
  pub next_in_order : (cmd.seq ≡ 0) ⊎ (cmd.seq ≡ c.state.retired_watermark + 1)
  pub unrecorded : find_record c.state.records (command_dedup_key cmd) ≡ none
  pub idle : c.state.in_progress ≡ none

pub admitted-IsAdmissible :
    (fault : SaveFault) (now : ℕ) (cmd : AgentCommandPayload) (c : Collector)
    → (begin_update_task fault now cmd c).1 ≡ admitted
    → IsAdmissible cmd c
unfolding begin_update_task
admitted-IsAdmissible fault now cmd c h = ground arith

pub IsAdmissible-admitted :
    (fault : SaveFault) (now : ℕ) (cmd : AgentCommandPayload) (c : Collector)
    → IsAdmissible cmd c
    → (begin_update_task fault now cmd c).1 ≡ admitted
unfolding begin_update_task
IsAdmissible-admitted fault now cmd c v = ground arith

-- A command is admitted exactly when the agent has no control state, the stream of a sequenced
-- command is the agent's, its sequence is the one after the retired watermark, no record has its
-- key, and no task is in progress; whether the save succeeds makes no difference.
pub begin_update_task-admitted :
    (fault : SaveFault) (now : ℕ) (cmd : AgentCommandPayload) (c : Collector)
    → ((begin_update_task fault now cmd c).1 ≡ admitted) ↔ IsAdmissible cmd c
begin_update_task-admitted fault now cmd c =
    (admitted-IsAdmissible fault now cmd c, IsAdmissible-admitted fault now cmd c)

-- A command that is not admitted changes neither the task in progress, nor the records, nor the
-- watermark, nor the stream; it ends in quarantine only from a stream that does not match.
pub begin_update_task-refused :
    (fault : SaveFault) (now : ℕ) (cmd : AgentCommandPayload) (c : Collector)
    → (begin_update_task fault now cmd c).1 ≢ admitted
    → let s = (begin_update_task fault now cmd c).0.state in
      (s.in_progress ≡ c.state.in_progress)
      × (s.records ≡ c.state.records)
      × (s.retired_watermark ≡ c.state.retired_watermark)
      × (s.stream_id ≡ c.state.stream_id)
      × ((stream_mismatch cmd c.state ≡ true) ⊎ (s.control_state ≡ c.state.control_state))
unfolding begin_update_task save_agent_state
begin_update_task-refused fault now cmd c h = ground arith

admitted-state :
    (fault : SaveFault) (now : ℕ) (cmd : AgentCommandPayload) (c : Collector)
    → (begin_update_task fault now cmd c).1 ≡ admitted
    → (begin_update_task fault now cmd c).0.state ≡ accepted_state now cmd c.state
unfolding begin_update_task save_agent_state
admitted-state fault now cmd c h = ground arith

admitted-in_progress :
    (fault : SaveFault) (now : ℕ) (cmd : AgentCommandPayload) (c : Collector)
    → (begin_update_task fault now cmd c).1 ≡ admitted
    → (begin_update_task fault now cmd c).0.state.in_progress
      ≡ some (new_in_progress (command_dedup_key cmd) now cmd)
unfolding accepted_state
admitted-in_progress fault now cmd c h = rw (admitted-state fault now cmd c h)

finish-state :
    (fault : SaveFault) (now : ℕ) (status : Status) (message : Message) (p : InProgressState)
    (c : Collector)
    → c.state.in_progress ≡ some p
    → (finish_update_task fault now status message c).state
      ≡ finished_state status message now p c.state
unfolding finish_update_task save_agent_state
finish-state fault now status message p c h = ground arith

begin-recorded :
    (fault : SaveFault) (now : ℕ) (cmd : AgentCommandPayload) (r : ExecutionRecord) (c : Collector)
    → c.state.control_state ≡ control_none
    → stream_mismatch cmd c.state ≡ false
    → (0 < cmd.seq → cmd.seq ≡ c.state.retired_watermark)
    → find_record c.state.records (command_dedup_key cmd) ≡ some r
    → begin_update_task fault now cmd c ≡ (c, replay r)
unfolding begin_update_task
begin-recorded fault now cmd r c n m w f = ground arith

finished-recorded :
    (later now : ℕ) (cmd : AgentCommandPayload) (status : Status) (message : Message)
    (c : Collector)
    → IsAdmissible cmd c
    → (status == accepted) ≡ false
    → (status == unknown) ≡ false
    → let p = new_in_progress (command_dedup_key cmd) now cmd in
      let s = finished_state status message later p (accepted_state now cmd c.state) in
      (s.control_state ≡ control_none)
      × (stream_mismatch cmd s ≡ false)
      × (0 < cmd.seq → cmd.seq ≡ s.retired_watermark)
      × (find_record s.records (command_dedup_key cmd)
          ≡ some (finish_record status message later p))
unfolding finished_state accepted_state stream_mismatch
finished-recorded later now cmd status message c v a u = ground (
  arith,
  find-append_record (accepted_state now cmd c.state).records
      (finish_record status message later (new_in_progress (command_dedup_key cmd) now cmd)),
)

-- A command is answered from its record once it has ended: after an admission and the end of the
-- task with a status other than accepted and unknown, the same command starts nothing, changes
-- nothing, and is answered by a record under its key with that status.
pub begin_update_task-replay :
    (fault fault' : SaveFault) (now later again : ℕ) (cmd : AgentCommandPayload) (status : Status)
    (message : Message) (c : Collector)
    → (begin_update_task fault now cmd c).1 ≡ admitted
    → (status == accepted) ≡ false
    → (status == unknown) ≡ false
    → let d =
        finish_update_task fault' later status message (begin_update_task fault now cmd c).0 in
      (r : ExecutionRecord) × (begin_update_task fault again cmd d ≡ (d, replay r))
      × (r.status ≡ status)
      × (r.key ≡ command_dedup_key cmd)
begin_update_task-replay fault fault' now later again cmd status message c h a u =
    let p = new_in_progress (command_dedup_key cmd) now cmd in
    let b = (begin_update_task fault now cmd c).0 in
    let d = finish_update_task fault' later status message b in
    let (n, m, w, f) =
      finished-recorded later now cmd status message c (admitted-IsAdmissible fault now cmd c h) a
        u in
    let e : d.state ≡ finished_state status message later p (accepted_state now cmd c.state) =
      finish-state fault' later status message p b (admitted-in_progress fault now cmd c h)
      ∙ ap (finished_state status message later p) (admitted-state fault now cmd c h) in
    (
      finish_record status message later p,
      begin-recorded fault again cmd _ d (rw e n) (rw e m) (rw e w) (rw e f),
      unfold finish_record in refl,
      unfold finish_record new_in_progress in refl,
    )
