-- ===== src/Store/Backfill.antt =====
-- internal/store/updates_concurrency.go: the facts of an agent's handshake, applied to targets.
use thism.Base.{
  ℕ, Option, none, some, List, [], ◌∷◌, String, lit, num, ◌==◌, ◌&&◌, not, string_eq, nat_eq,
  if◌then◌else◌, ltb,
}
use thism.Models.{
  status_eq, unknown, control_blocked, UpdateJobTarget, AgentExecutionRecord, AgentInProgressState,
}
use thism.Store.Tables.{Db, find_target, update_target, update_stream, audit_event}
use thism.Store.Transitions.{is_allowed}
use thism.Store.Aggregate.{recompute_update_job_status}

unfoldable pub backfill_unknown : String → AgentExecutionRecord → ℕ → Db → Db
backfill_unknown node r now db =
    if r.status == unknown
    then audit_event node "unknown-execution"
        (lit "job "
          ∷ lit r.job_id
          ∷ lit " seq "
          ∷ num r.seq
          ∷ lit " backfilled unknown from agent handshake; node control-blocked"
          ∷ [])
        now
        (update_stream node
          (λ s. record s {
            control_state = control_blocked;
            control_reason = lit "undisposed unknown execution state (handshake backfill)" ∷ [];
            updated_at = now;
          })
          db)
    else db

unfoldable pub backfill_row : AgentExecutionRecord → ℕ → UpdateJobTarget → UpdateJobTarget
backfill_row r now t = record t {
  status = r.status;
  message = r.message;
  reported_version = r.reported_version;
  updated_at = now;
  last_progress_at = r.updated_at;
}

unfoldable pub backfill_target :
    String → AgentExecutionRecord → ℕ → Option UpdateJobTarget → Db → Db
backfill_target node r now none db = db
backfill_target node r now (some t) db =
    if t.seq == r.seq && is_allowed t.status r.status
    then recompute_update_job_status r.job_id now
        (backfill_unknown node r now (update_target r.job_id node (backfill_row r now) db))
    else db

unfoldable pub backfill_record : String → AgentExecutionRecord → ℕ → Db → Db
backfill_record node r now db =
    if ltb 0 r.seq && not (r.job_id == "")
    then backfill_target node r now (find_target r.job_id node db) db
    else db

unfoldable pub backfill_records : String → List AgentExecutionRecord → ℕ → Db → Db
backfill_records node [] now db = db
backfill_records node (r ∷ rs) now db = backfill_records node rs now (backfill_record node r now db)

unfoldable pub backfill_stage : String → AgentInProgressState → ℕ → Option UpdateJobTarget → Db → Db
backfill_stage node p now none db = db
backfill_stage node p now (some t) db =
    if t.seq == p.seq && is_allowed t.status p.stage
    then recompute_update_job_status p.job_id now (
        update_target p.job_id node
          (λ t. record t { status = p.stage; last_progress_at = p.last_progress_at }) db)
    else db

unfoldable pub backfill_in_progress : String → Option AgentInProgressState → ℕ → Db → Db
backfill_in_progress node none now db = db
backfill_in_progress node (some p) now db =
    if ltb 0 p.seq && not (p.job_id == "")
    then backfill_stage node p now (find_target p.job_id node db) db
    else db

unfoldable pub apply_handshake_backfill :
    String → Option AgentInProgressState → List AgentExecutionRecord → ℕ → Db → Db
apply_handshake_backfill node p rs now db =
    backfill_in_progress node p now (backfill_records node rs now db)
