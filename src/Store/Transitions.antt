-- ===== src/Store/Transitions.antt =====
-- internal/store/updates_concurrency.go: the execution state machine, the transitions that agents
-- report, and cancel tombstones.
use thism.Base.{
  ℕ, Bool, true, false, Option, none, some, List, [], ◌∷◌, String, Message, lit, num, ◌==◌, ◌&&◌,
  ◌||◌, string_eq, nat_eq, if◌then◌else◌, ltb, contains, any_of, filter,
}
use thism.Models.{
  Status, status_eq, pending, dispatched, accepted, downloading, verifying, restarting, succeeded,
  failed, unknown, timeout, offline_skipped, cancelled, control_blocked, UpdateJobTarget, UpdateJob,
}
use thism.Store.Tables.{
  Db, Retirement, find_target, update_target, update_stream, audit_event, insert_retirement,
}
use thism.Store.Watermark.{is_terminal, in_progress_execution_status, advance_retired_watermark}
use thism.Store.Aggregate.{recompute_update_job_status}

unfoldable pub execution_transitions : Status → List Status
execution_transitions pending =
    dispatched ∷ accepted ∷ downloading ∷ verifying ∷ restarting ∷ succeeded ∷ failed ∷ unknown
    ∷ timeout ∷ cancelled ∷ offline_skipped ∷ []
execution_transitions dispatched =
    accepted ∷ downloading ∷ verifying ∷ restarting ∷ succeeded ∷ failed ∷ unknown ∷ timeout
    ∷ cancelled ∷ []
execution_transitions accepted =
    downloading ∷ succeeded ∷ failed ∷ unknown ∷ timeout ∷ cancelled ∷ []
execution_transitions downloading =
    verifying ∷ succeeded ∷ failed ∷ unknown ∷ timeout ∷ cancelled ∷ []
execution_transitions verifying =
    restarting ∷ succeeded ∷ failed ∷ unknown ∷ timeout ∷ cancelled ∷ []
execution_transitions restarting = succeeded ∷ failed ∷ unknown ∷ timeout ∷ cancelled ∷ []
execution_transitions _ = []

-- The same state again, or a listed successor.
unfoldable pub is_allowed : Status → Status → Bool
unfolding execution_transitions contains
is_allowed current status =
    if current == status then true else contains (execution_transitions current) status

unfoldable pub transition_row : Status → Message → String → ℕ → UpdateJobTarget → UpdateJobTarget
transition_row status message version now t = record t {
  status = status;
  message = message;
  reported_version = if version == "" then t.reported_version else version;
  updated_at = now;
  last_progress_at = if in_progress_execution_status status then now else t.last_progress_at;
  cancelled_at = if status == cancelled then now else t.cancelled_at;
}

-- An unknown outcome of a sequenced command blocks the control plane of its node.
unfoldable pub block_unknown : String → String → ℕ → Status → ℕ → Db → Db
block_unknown job node seq status now db =
    if status == unknown && ltb 0 seq
    then audit_event node "unknown-execution"
        (lit "job "
          ∷ lit job
          ∷ lit " seq "
          ∷ num seq
          ∷ lit " reported unknown; node control-blocked"
          ∷ [])
        now
        (update_stream node
          (λ r. record r {
            control_state = control_blocked;
            control_reason = lit "undisposed unknown execution state" ∷ [];
            updated_at = now;
          })
          db)
    else db

unfoldable pub retire_terminal : String → ℕ → Status → ℕ → Db → Db
retire_terminal node seq status now db =
    if is_terminal status && ltb 0 seq then advance_retired_watermark node now db else db

unfoldable pub transition_in :
    String → String → Status → Message → String → ℕ → Option UpdateJobTarget → Db → Db × Bool
transition_in job node status message version now none db = (db, false)
transition_in job node status message version now (some t) db =
    if is_allowed t.status status
    then (
      recompute_update_job_status job now (
          retire_terminal node t.seq status now (
            block_unknown job node t.seq status now
              (update_target job node (transition_row status message version now) db))),
      true,
    )
    else (db, false)

-- Whether the transition was committed.
unfoldable pub apply_execution_transition :
    String → String → Status → Message → String → ℕ → Db → Db × Bool
unfolding transition_in
apply_execution_transition job node status message version now db =
    transition_in job node status message version now (find_target job node db) db

unfoldable pub create_cancel_tombstone : String → String → ℕ → ℕ → Db → Db
create_cancel_tombstone job node seq now db =
    let tombstone : Retirement = record {
      node_id = node;
      seq = seq;
      job_id = job;
      reason = "";
      created_at = now;
    } in
    let closed =
      update_target job node (λ t. record t { cancel_intent_at = now })
        (record db { tombstones = insert_retirement tombstone db.tombstones }) in
    audit_event node "cancel-tombstone"
      (lit "job " ∷ lit job ∷ lit " seq " ∷ num seq ∷ lit " cancel intent recorded" ∷ []) now
      (advance_retired_watermark node now closed)

-- The jobs that FinalizeUpdateJobsForNodeVersion selects: the node runs the version that they ask
-- for, and its target has been dispatched and is not over.
is_finalizable : String → String → List UpdateJob → UpdateJobTarget → Bool
is_finalizable node version jobs t =
    t.node_id == node
    && (in_progress_execution_status t.status || t.status == dispatched)
    && any_of (λ j. j.id == t.job_id && j.target_version == version) jobs

finalize_rows : String → String → ℕ → List UpdateJobTarget → Db → Db
finalize_rows node version now [] db = db
finalize_rows node version now (t ∷ ts) db =
    finalize_rows node version now ts
      (apply_execution_transition t.job_id node succeeded
        (lit "agent reconnected with target version" ∷ []) version now db).0

unfoldable pub finalize_update_jobs_for_node_version : String → String → ℕ → Db → Db
unfolding is_finalizable finalize_rows
finalize_update_jobs_for_node_version node version now db =
    finalize_rows node version now (filter (is_finalizable node version db.jobs) db.targets) db
