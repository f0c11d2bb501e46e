-- ===== src/Agent/State.antt =====
-- internal/collector/agent_state.go: the durable state of the agent, its records and its file.
use thism.Base.{
  ℕ, ◌-◌, Bool, true, false, Option, none, some, List, [], ◌∷◌, ◌++◌, ◌≡◌, ◌↔◌, String, Message, Eq,
  ◌==◌, string_eq, nat_eq, if◌then◌else◌, ltb, length, drop, take, arith, trim_space, to_lower,
}
use text.Mathlib.TextEquality.{eq_iff}
use thism.Models.{ControlState, control_quarantined, Status, AgentCommandPayload}

-- commandDedupKey builds "seq:%d", "job:" and an id, or "auto:" and a digest: three disjoint sets
-- of texts, each determined by what follows the prefix.
pub data Key : Type 0 where
  seq_key : ℕ → Key
  job_key auto_key : String → Key

unfoldable pub key_beq : Key → Key → Bool
key_beq (seq_key a) (seq_key b) = a == b
key_beq (job_key a) (job_key b) = a == b
key_beq (auto_key a) (auto_key b) = a == b
key_beq _ _ = false

pub key_beq_iff : (a b : Key) → (key_beq a b ≡ true) ↔ (a ≡ b)
unfolding key_beq
key_beq_iff (seq_key a) (seq_key b) = ground arith
key_beq_iff (job_key a) (job_key b) = ground (arith, eq_iff a b)
key_beq_iff (auto_key a) (auto_key b) = ground (arith, eq_iff a b)
key_beq_iff (seq_key a) (job_key b) = ground arith
key_beq_iff (seq_key a) (auto_key b) = ground arith
key_beq_iff (job_key a) (seq_key b) = ground arith
key_beq_iff (job_key a) (auto_key b) = ground arith
key_beq_iff (auto_key a) (seq_key b) = ground arith
key_beq_iff (auto_key a) (job_key b) = ground arith

instance abbrev pub key_eq : Eq Key
key_eq = record { beq = key_beq; beq_iff = key_beq_iff }

unfoldable pub command_dedup_key : AgentCommandPayload → Key
command_dedup_key cmd =
    if ltb 0 cmd.seq
    then seq_key cmd.seq
    else if cmd.job_id == ""
    then auto_key (to_lower (trim_space cmd.sha256))
    else if cmd.job_id == "auto-update"
    then auto_key (to_lower (trim_space cmd.sha256))
    else job_key cmd.job_id

pub record ExecutionRecord : Type 0 where
  pub key : Key
  pub seq : ℕ
  pub job_id : String
  pub status : Status
  pub message : Message
  pub reported_version : String
  pub target_sha256 : String
  pub updated_at : ℕ

pub record InProgressState : Type 0 where
  pub key : Key
  pub seq : ℕ
  pub job_id : String
  pub stage : Status
  pub target_version : String
  pub target_sha256 : String
  pub started_at : ℕ
  pub last_progress_at : ℕ
  pub commit_point : Bool
  pub cancel_intent : Bool

pub record AgentState : Type 0 where
  pub stream_id : String
  pub retired_watermark : ℕ
  pub in_progress : Option InProgressState
  pub records : List ExecutionRecord
  pub control_state : ControlState
  pub control_reason : Message

abbrev pub agent_state_records_window : ℕ
agent_state_records_window = 1024

unfoldable pub has_key : Key → List ExecutionRecord → Bool
has_key k [] = false
has_key k (r ∷ rs) = let rest = has_key k rs in if r.key == k then true else rest

-- The loop of appendRecord: the first record with the key is overwritten.
unfoldable pub replace_record : ExecutionRecord → List ExecutionRecord → List ExecutionRecord
replace_record new [] = []
replace_record new (r ∷ rs) =
    let rest = r ∷ replace_record new rs in if r.key == new.key then new ∷ rs else rest

unfoldable pub append_record : List ExecutionRecord → ExecutionRecord → List ExecutionRecord
unfolding has_key replace_record
append_record rs new =
    if has_key new.key rs
    then replace_record new rs
    else let all = rs ++ (new ∷ []) in
      if ltb agent_state_records_window (length all)
      then drop (length all - agent_state_records_window) all
      else all

unfoldable pub find_record : List ExecutionRecord → Key → Option ExecutionRecord
find_record [] k = none
find_record (r ∷ rs) k = let rest = find_record rs k in if r.key == k then some r else rest

-- What a read of the state file gives: os.ReadFile and json.Unmarshal. The errors are texts.
pub data StateFile : Type 0 where
  missing : StateFile
  unreadable corrupted : String → StateFile
  stored : AgentState → StateFile

-- The operating system call of saveAgentState that fails, if one does.
pub data SaveFault : Type 0 where
  no_fault create_failed write_failed sync_failed close_failed rename_failed : SaveFault

-- The collector's protocol fields, the state file at `state_path`, whether a replacement binary
-- lies in .thism-agent-update.tmp, and whether taskCancel is set and has been called.
pub record Collector : Type 0 where
  pub state : AgentState
  pub state_path : String
  pub state_file : StateFile
  pub update_tmp : Bool
  pub task_cancel : Bool
  pub task_cancelled : Bool

-- The quarantined state is never written: the file is evidence.
unfoldable pub is_quarantined : ControlState → Bool
is_quarantined control_quarantined = true
is_quarantined _ = false

-- The calls of a save, and the two files that they change: the state file and the temporary file
-- beside it.
pub data SaveCall : Type 0 where
  create_tmp write_tmp sync_tmp close_tmp rename_tmp remove_tmp : SaveCall

pub record Files : Type 0 where
  pub target : StateFile
  pub tmp : StateFile

-- A call that succeeds. The file that os.Create leaves is empty, which is no JSON text.
unfoldable pub call_done : AgentState → SaveCall → Files → Files
call_done s create_tmp f = record f { tmp = corrupted "unexpected end of JSON input" }
call_done s write_tmp f = record f { tmp = stored s }
call_done s sync_tmp f = f
call_done s close_tmp f = f
call_done s rename_tmp f = record { target = f.tmp; tmp = missing }
call_done s remove_tmp f = record f { tmp = missing }

-- A call that fails; a write may have written a part.
unfoldable pub call_failed : SaveCall → Files → Files
call_failed write_tmp f = record f { tmp = corrupted "unexpected end of JSON input" }
call_failed _ f = f

unfoldable pub fails_at : SaveFault → SaveCall → Bool
fails_at create_failed create_tmp = true
fails_at write_failed write_tmp = true
fails_at sync_failed sync_tmp = true
fails_at close_failed close_tmp = true
fails_at rename_failed rename_tmp = true
fails_at _ _ = false

-- os.Remove after a failure; what it leaves if it fails is truncated by the next save.
unfoldable pub give_up : AgentState → SaveCall → Files → Files
unfolding call_done
give_up s create_tmp f = f
give_up s call f = call_done s remove_tmp f

-- The Boolean is true when an error is returned.
unfoldable pub run_save_calls : SaveFault → AgentState → List SaveCall → Files → Files × Bool
unfolding call_done call_failed fails_at give_up
run_save_calls fault s [] f = (f, false)
run_save_calls fault s (call ∷ calls) f =
    let rest = run_save_calls fault s calls (call_done s call f) in
    if fails_at fault call then (give_up s call (call_failed call f), true) else rest

abbrev pub save_calls : List SaveCall
save_calls = create_tmp ∷ write_tmp ∷ sync_tmp ∷ close_tmp ∷ rename_tmp ∷ []

abbrev pub files_of : Collector → Files
files_of c = record { target = c.state_file; tmp = missing }

unfoldable pub write_state : SaveFault → Collector → Collector × Bool
unfolding run_save_calls
write_state fault c =
    let (f, err) = run_save_calls fault c.state save_calls (files_of c) in
    (record c { state_file = f.target }, err)

unfoldable pub save_agent_state : SaveFault → Collector → Collector × Bool
unfolding write_state is_quarantined
save_agent_state fault c =
    if c.state_path == ""
    then (c, false)
    else if is_quarantined c.state.control_state
    then (c, false)
    else write_state fault c

-- The state file if the process dies after the first `n` calls of a save.
unfoldable pub killed_save : ℕ → SaveFault → Collector → StateFile
unfolding run_save_calls is_quarantined
killed_save n fault c =
    let f = (run_save_calls fault c.state (take n save_calls) (files_of c)).0 in
    if c.state_path == ""
    then c.state_file
    else if is_quarantined c.state.control_state
    then c.state_file
    else f.target
