-- ===== src/Agent/History.antt =====
-- Every history of an agent: calls in any order, crashes, and saves that fail.
use thism.Base.{
  ℕ, ◌≤◌, ◌<◌, max, ◌≡◌, Bool, true, false, Option, none, some, List, [], ◌∷◌, String, ◌==◌,
  string_eq, Message, if◌then◌else◌, ltb, arith,
}
use thism.Models.{Status, status_eq, accepted, AgentCommandPayload, AgentHandshakeAckPayload}
use thism.Agent.State.{
  InProgressState, StateFile, missing, unreadable, corrupted, stored, SaveFault, no_fault,
  Collector, save_agent_state,
}
use thism.Agent.Recover.{load_agent_state, empty_state}
use thism.Agent.Admission.{begin_update_task}
use thism.Agent.Tasks.{
  update_task_progress, finish_update_task, mark_commit_point, abort_update_task,
  handle_cancel_request,
}
use thism.Agent.Handshake.{apply_handshake_ack}

-- An agent, whether the executor has started the task in progress, and the sequences of the
-- commands that it started, newest first. An auto-update has sequence 0 and is not listed.
pub record History : Type 0 where
  pub agent : Collector
  pub running : Bool
  pub executed : List ℕ

-- One call, or a crash: a new process with the file that the old one left. The save of an
-- admission succeeds; any other save may fail. An abort comes before the start.
pub data Step (h : History) : History → Type 0 where
  begin :
      (now : ℕ) (cmd : AgentCommandPayload)
      → Step h (record h { agent = (begin_update_task no_fault now cmd h.agent).0 })
  start :
      (p : InProgressState)
      → h.agent.state.in_progress ≡ some p
      → h.running ≡ false
      → Step h (record h {
        running = true;
        executed = if ltb 0 p.seq then p.seq ∷ h.executed else h.executed;
      })
  abort :
      (fault : SaveFault) (cmd : AgentCommandPayload)
      → h.running ≡ false
      → Step h (record h { agent = abort_update_task fault cmd h.agent })
  progress :
      (fault : SaveFault) (now : ℕ) (stage : Status) (message : Message)
      → Step h (record h { agent = update_task_progress fault now stage message h.agent })
  commit : (fault : SaveFault) → Step h (record h { agent = (mark_commit_point fault h.agent).0 })
  cancel :
      (fault : SaveFault) (seq : ℕ) (job_id : String)
      → Step h (record h { agent = (handle_cancel_request fault seq job_id h.agent).0 })
  finish :
      (fault : SaveFault) (now : ℕ) (status : Status) (message : Message)
      → (status == accepted) ≡ false
      → Step h (record h {
        agent = finish_update_task fault now status message h.agent;
        running = false;
      })
  acknowledge :
      (fault : SaveFault) (ack : AgentHandshakeAckPayload)
      → Step h (record h { agent = apply_handshake_ack fault ack h.agent })
  crash :
      (default_path : String) (fault : SaveFault) (digest : Option String) (now : ℕ)
      → Step h (record h {
        agent = load_agent_state default_path fault digest now h.agent;
        running = false;
      })

pub data Reach (h : History) : History → Type 0 where
  here : Reach h h
  next : {t u : History} → Reach h t → Step t u → Reach h u

abbrev pub top : List ℕ → ℕ
top [] = 0
top (x ∷ xs) = x

-- Newest first, so the commands were started in the order of their sequences, none twice.
abbrev pub Descending : List ℕ → Type 0
Descending [] = Unit
Descending (x ∷ xs) = (top xs < x) × Descending xs

abbrev pub seq_of : Option InProgressState → ℕ
seq_of none = 0
seq_of (some p) = p.seq

-- What the file keeps a new process from doing again.
abbrev pub file_cover : StateFile → ℕ
file_cover missing = 0
file_cover (unreadable e) = 0
file_cover (corrupted e) = 0
file_cover (stored s) = max s.retired_watermark (seq_of s.in_progress)

pub record Inv (h : History) : Type 0 where
  pub path : (h.agent.state_path == "") ≡ false
  pub covered :
      top h.executed
      ≤ max h.agent.state.retired_watermark
          (if h.running then seq_of h.agent.state.in_progress else 0)
  pub fresh :
      h.running ≡ false
      → 0 < seq_of h.agent.state.in_progress
      → top h.executed < seq_of h.agent.state.in_progress
  pub durable : top h.executed ≤ file_cover h.agent.state_file
  pub durable_task : seq_of h.agent.state.in_progress ≤ file_cover h.agent.state_file
  pub descending : Descending h.executed

begin-Inv :
    (h : History) (now : ℕ) (cmd : AgentCommandPayload)
    → Inv h
    → Inv (record h { agent = (begin_update_task no_fault now cmd h.agent).0 })
unfolding begin_update_task save_agent_state
begin-Inv h now cmd v = ground arith

start-Inv :
    (h : History) (p : InProgressState)
    → h.agent.state.in_progress ≡ some p
    → h.running ≡ false
    → Inv h
    → Inv (record h {
      running = true;
      executed = if ltb 0 p.seq then p.seq ∷ h.executed else h.executed;
    })
start-Inv h p e r v = ground arith

abort-Inv :
    (h : History) (fault : SaveFault) (cmd : AgentCommandPayload)
    → h.running ≡ false
    → Inv h
    → Inv (record h { agent = abort_update_task fault cmd h.agent })
unfolding abort_update_task save_agent_state
abort-Inv h fault cmd r v = ground arith

progress-Inv :
    (h : History) (fault : SaveFault) (now : ℕ) (stage : Status) (message : Message)
    → Inv h
    → Inv (record h { agent = update_task_progress fault now stage message h.agent })
unfolding update_task_progress save_agent_state
progress-Inv h fault now stage message v = ground arith

commit-Inv :
    (h : History) (fault : SaveFault)
    → Inv h
    → Inv (record h { agent = (mark_commit_point fault h.agent).0 })
unfolding mark_commit_point save_agent_state
commit-Inv h fault v = ground arith

cancel-Inv :
    (h : History) (fault : SaveFault) (seq : ℕ) (job_id : String)
    → Inv h
    → Inv (record h { agent = (handle_cancel_request fault seq job_id h.agent).0 })
unfolding handle_cancel_request save_agent_state
cancel-Inv h fault seq job_id v = ground arith

finish-Inv :
    (h : History) (fault : SaveFault) (now : ℕ) (status : Status) (message : Message)
    → (status == accepted) ≡ false
    → Inv h
    → Inv
        (record h { agent = finish_update_task fault now status message h.agent; running = false })
unfolding finish_update_task save_agent_state
finish-Inv h fault now status message e v = ground arith

acknowledge-Inv :
    (h : History) (fault : SaveFault) (ack : AgentHandshakeAckPayload)
    → Inv h
    → Inv (record h { agent = apply_handshake_ack fault ack h.agent })
unfolding apply_handshake_ack save_agent_state
acknowledge-Inv h fault ack v = ground arith

crash-Inv :
    (h : History) (default_path : String) (fault : SaveFault) (digest : Option String) (now : ℕ)
    → Inv h
    → Inv (record h {
      agent = load_agent_state default_path fault digest now h.agent;
      running = false;
    })
unfolding load_agent_state save_agent_state
crash-Inv h default_path fault digest now v = ground arith

Step-Inv : {h k : History} → Step h k → Inv h → Inv k
Step-Inv {h} (begin now cmd) v = begin-Inv h now cmd v
Step-Inv {h} (start p e r) v = start-Inv h p e r v
Step-Inv {h} (abort fault cmd r) v = abort-Inv h fault cmd r v
Step-Inv {h} (progress fault now stage message) v = progress-Inv h fault now stage message v
Step-Inv {h} (commit fault) v = commit-Inv h fault v
Step-Inv {h} (cancel fault seq job_id) v = cancel-Inv h fault seq job_id v
Step-Inv {h} (finish fault now status message e) v = finish-Inv h fault now status message e v
Step-Inv {h} (acknowledge fault ack) v = acknowledge-Inv h fault ack v
Step-Inv {h} (crash path fault digest now) v = crash-Inv h path fault digest now v

Reach-Inv : {h k : History} → Inv h → Reach h k → Inv k
Reach-Inv v here = v
Reach-Inv v (next r s) = Step-Inv s (Reach-Inv v r)

-- An agent as it is installed: no state file, and nothing done.
abbrev pub installed : String → History
installed path = record {
  agent = record {
    state = empty_state;
    state_path = path;
    state_file = missing;
    update_tmp = false;
    task_cancel = false;
    task_cancelled = false;
  };
  running = false;
  executed = [];
}

installed-Inv : (path : String) → (path == "") ≡ false → Inv (installed path)
installed-Inv path e = ground arith

-- From an installed agent with a path for its state file, over calls of the control plane in any
-- order, crashes at any point and failing saves (but not the save of an admission), the executor
-- starts commands in strictly increasing order of their sequences: none is executed twice.
pub execute_once :
    (path : String) (h : History)
    → (path == "") ≡ false
    → Reach (installed path) h
    → Descending h.executed
execute_once path h e r = (Reach-Inv (installed-Inv path e) r).descending
