-- ===== src/Store/Disposition.antt =====
-- internal/store/updates_concurrency.go: the operator's disposition of an unknown execution state,
-- and the observation of stalled executions.
use thism.Base.{
  ℕ, ◌-◌, Bool, true, false, Option, none, some, [], ◌∷◌, String, lit, ◌==◌, ◌&&◌, not, string_eq,
  nat_eq, if◌then◌else◌, ltb, trim_space, any_of, update_where, length, filter,
}
use thism.Models.{
  Status, status_eq, succeeded, failed, cancelled, unknown, control_none, UpdateJobTarget,
  ObservationState, observation_none, observation_stalled,
}
use thism.Store.Tables.{Db, find_target, update_target, update_stream, audit_event}
use thism.Store.Watermark.{in_progress_execution_status}
use thism.Store.Aggregate.{recompute_update_job_status}

unfoldable pub is_resolution : Status → Bool
is_resolution succeeded = true
is_resolution failed = true
is_resolution cancelled = true
is_resolution _ = false

pub data Disposition : Type 0 where
  invalid_resolution no_evidence : Disposition
  disposed : Bool → Disposition

unfoldable pub has_unknown : String → Db → Bool
has_unknown node db = any_of (λ t. t.node_id == node && t.status == unknown) db.targets

status_text : Status → String
status_text succeeded = "succeeded"
status_text failed = "failed"
status_text cancelled = "cancelled"
status_text _ = ""

-- The control state is cleared when no unknown target of the node is left.
unfoldable pub unblock : String → ℕ → Db → Db
unblock node now db =
    if has_unknown node db
    then db
    else audit_event node "control-state"
        (lit "control-blocked cleared after unknown disposition" ∷ []) now
        (update_stream node
          (λ s. record s { control_state = control_none; control_reason = []; updated_at = now })
          db)

unfoldable pub dispose : String → String → Status → String → String → ℕ → Db → Db
unfolding status_text
dispose job node resolution evidence reason now db = recompute_update_job_status job now (
    unblock node now (
      audit_event node "unknown-disposition"
        (lit "job "
          ∷ lit job
          ∷ lit " resolved unknown -> "
          ∷ lit (status_text resolution)
          ∷ lit " (evidence: "
          ∷ lit evidence
          ∷ lit ", reason: "
          ∷ lit reason
          ∷ lit ")"
          ∷ [])
        now
        (update_target job node
          (λ t. record t { status = resolution; message = lit reason ∷ []; updated_at = now }) db)))

unfoldable pub resolve_in :
    String → String → Status → String → String → ℕ → Option UpdateJobTarget → Db → Db × Disposition
resolve_in job node resolution evidence reason now none db = (db, disposed false)
resolve_in job node resolution evidence reason now (some t) db =
    if t.status == unknown
    then (dispose job node resolution evidence reason now db, disposed true)
    else (db, disposed false)

unfoldable pub resolve_unknown_target :
    String → String → Status → String → String → ℕ → Db → Db × Disposition
unfolding resolve_in is_resolution
resolve_unknown_target job node resolution evidence reason now db =
    if is_resolution resolution
    then if trim_space evidence == "" && trim_space reason == ""
      then (db, no_evidence)
      else resolve_in job node resolution evidence reason now (find_target job node db) db
    else (db, invalid_resolution)

is_stalled : ObservationState → Bool
is_stalled observation_none = false
is_stalled observation_stalled = true

stalls : ℕ → UpdateJobTarget → Bool
unfolding is_stalled
stalls cutoff t =
    not (is_stalled t.observation)
    && (in_progress_execution_status t.status
        && (ltb 0 t.last_progress_at && ltb t.last_progress_at cutoff))

-- `cutoff` is the current time less the lease. The number is that of the rows written.
unfoldable pub mark_stalled_update_observations : ℕ → ℕ → Db → Db × ℕ
unfolding stalls
mark_stalled_update_observations now stale_after db =
    let cutoff = now - stale_after in
    (
      record db {
        targets =
            update_where (stalls cutoff) (λ t. record t { observation = observation_stalled })
              db.targets;
      },
      length (filter (stalls cutoff) db.targets),
    )
