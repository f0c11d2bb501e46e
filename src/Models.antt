-- ===== src/Models.antt =====
-- internal/models/types.go: the values of the control-plane protocol that agent and server share.
-- A Go string that holds one of a closed set of constants is a data type; an int64 is a natural
-- number, since every comparison of the code treats a negative number as it treats 0.
use mathlib.Core.Bool.{decide}
use mathlib.Core.Logic.{◌↔◌}
use thism.Base.{ℕ, ◌≡◌, refl, Bool, true, Option, List, String, Message, Eq}

-- UpdateJobTargetStatus
pub data Status : Type 0 where
  pending dispatched accepted downloading verifying restarting : Status
  succeeded failed unknown timeout offline_skipped cancelled : Status

pub Status-discrete : Discrete Status
Status-discrete = hlevel

unfoldable pub status_beq : Status → Status → Bool
unfolding decide Status-discrete
status_beq a b = decide (Status-discrete a b)

pub decide_iff : {A : Type 0} (d : Dec A) → (decide d ≡ true) ↔ A
unfolding decide
decide_iff (yes a) = (λ _. a, λ _. refl)
decide_iff (no n) = (λ e. cc, λ a. absurd (n a))

pub status_beq_iff : (a b : Status) → (status_beq a b ≡ true) ↔ (a ≡ b)
unfolding status_beq
status_beq_iff a b = decide_iff (Status-discrete a b)

instance abbrev pub status_eq : Eq Status
status_eq = record { beq = status_beq; beq_iff = status_beq_iff }

-- UpdateJobStatus
pub data JobStatus : Type 0 where
  job_pending job_running job_completed job_partial_failed job_failed : JobStatus

pub data DeliveryState : Type 0 where
  delivery_pending delivery_sending delivery_sent delivery_send_failed : DeliveryState

pub data ObservationState : Type 0 where
  observation_none observation_stalled : ObservationState

pub data ControlState : Type 0 where
  control_none control_quarantined control_blocked : ControlState

pub data CommandRejectCode : Type 0 where
  sequence_gap expired already_processed : CommandRejectCode
  reject_control_quarantined reject_control_blocked : CommandRejectCode

pub record AgentCommandPayload : Type 0 where
  pub job_id : String
  pub kind : String
  pub target_version : String
  pub download_url : String
  pub sha256 : String
  pub signature : String
  pub stream_id : String
  pub seq : ℕ

-- The reject code is none for the empty string.
pub record AgentCommandStatusPayload : Type 0 where
  pub job_id : String
  pub status : Status
  pub message : Message
  pub reported_version : String
  pub stream_id : String
  pub seq : ℕ
  pub retired_watermark : ℕ
  pub reject_code : Option CommandRejectCode

pub record AgentInProgressState : Type 0 where
  pub job_id : String
  pub seq : ℕ
  pub stage : Status
  pub target_version : String
  pub target_sha256 : String
  pub last_progress_at : ℕ
  pub commit_point : Bool
  pub cancel_intent : Bool

pub record AgentExecutionRecord : Type 0 where
  pub seq : ℕ
  pub job_id : String
  pub status : Status
  pub message : Message
  pub reported_version : String
  pub target_sha256 : String
  pub updated_at : ℕ

pub record AgentHandshakePayload : Type 0 where
  pub stream_id : String
  pub retired_watermark : ℕ
  pub control_state : ControlState
  pub control_reason : Message
  pub in_progress : Option AgentInProgressState
  pub records : List AgentExecutionRecord

pub record AgentHandshakeAckPayload : Type 0 where
  pub stream_id : String
  pub next_seq : ℕ
  pub retired_watermark : ℕ
  pub control_state : ControlState
  pub message : Message

pub record UpdateJob : Type 0 where
  pub id : String
  pub kind : String
  pub target_version : String
  pub download_url : String
  pub sha256 : String
  pub signature : String
  pub created_at : ℕ
  pub updated_at : ℕ
  pub created_by : String
  pub status : JobStatus

pub record UpdateJobTarget : Type 0 where
  pub job_id : String
  pub node_id : String
  pub status : Status
  pub message : Message
  pub updated_at : ℕ
  pub reported_version : String
  pub seq : ℕ
  pub stream_id : String
  pub delivery_state : DeliveryState
  pub delivery_error : String
  pub delivery_attempts : ℕ
  pub delivery_attempted_at : ℕ
  pub delivery_generation : ℕ
  pub target_sha256 : String
  pub observation : ObservationState
  pub cancel_intent_at : ℕ
  pub cancelled_at : ℕ
  pub last_progress_at : ℕ

pub record CommandStream : Type 0 where
  pub node_id : String
  pub stream_id : String
  pub next_seq : ℕ
  pub retired_watermark : ℕ
  pub control_state : ControlState
  pub control_reason : Message
  pub updated_at : ℕ

pub record AuditEvent : Type 0 where
  pub id : ℕ
  pub node_id : String
  pub event : String
  pub detail : Message
  pub created_at : ℕ
