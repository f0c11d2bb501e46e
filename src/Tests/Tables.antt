-- ===== src/Tests/Tables.antt =====
-- Runs of the tables: trimming the audit, the commands to deliver, a lost stream, and a job's status.
use thism.Base.{
  ltb, length, if◌then◌else◌, ◌≡◌, ◌↔◌, refl, true, some, List, [], ◌∷◌, drop, filter, find_first,
  length, All, ◌≤◌, nat_eq,
}
use thism.Models.{
  AuditEvent, UpdateJobTarget, CommandStream, control_quarantined, pending, succeeded, failed,
  delivery_pending, observation_none, job_completed,
}
use thism.Store.Tables.{Db, find_stream}
use thism.Store.Watermark.{is_terminal}
use thism.Store.Aggregate.{aggregate_update_job_status}
use thism.Store.Jobs.{pending_deliveries_for_node}
use thism.Store.Retention.{prune_audit}
use thism.Store.Streams.{reconcile_command_stream}
use thism.Store.Audit.{of_node, recent_events, prune_audit_lem}
use thism.Store.Deliveries.{IsDue, InOrder, pending_deliveries_for_node_lem}
use thism.Store.Rebinding.{reconcile_command_stream-missing}
use thism.Store.JobStatus.{is_over, aggregate_update_job_status_lem}

abbrev event : AuditEvent
event = record { id = 1; node_id = "n1"; event = "stream-created"; detail = []; created_at = 5 }

abbrev events : List AuditEvent
events = event ∷ record event { id = 2; node_id = "n2" } ∷ record event { id = 3 } ∷ []

prune_audit_lem_example : filter (of_node "n1") (prune_audit 9 events) ≡ (
    let kept = filter (of_node "n1") (recent_events 9 events) in
    if ltb 2048 (length kept) then drop 2048 kept else kept)
prune_audit_lem_example = prune_audit_lem "n1" 9 events

abbrev row : UpdateJobTarget
row = record {
  job_id = "j1";
  node_id = "n1";
  status = pending;
  message = [];
  updated_at = 5;
  reported_version = "";
  seq = 2;
  stream_id = "s1";
  delivery_state = delivery_pending;
  delivery_error = "";
  delivery_attempts = 0;
  delivery_attempted_at = 0;
  delivery_generation = 0;
  target_sha256 = "";
  observation = observation_none;
  cancel_intent_at = 0;
  cancelled_at = 0;
  last_progress_at = 5;
}

abbrev lost : Db
lost = record {
  jobs = [];
  targets = row ∷ record row { job_id = "j2"; seq = 1 } ∷ [];
  streams = [];
  tombstones = [];
  retirements = [];
  audit = [];
  last_audit_id = 0;
}

pending_deliveries_for_node_lem_example :
    let ts = pending_deliveries_for_node "n1" 0 0 lost in
    All (IsDue "n1" 0) ts × InOrder 0 ts × (length ts ≤ 64)
pending_deliveries_for_node_lem_example = pending_deliveries_for_node_lem "n1" 0 0 lost

reconcile_command_stream-missing_example :
    let (db', s) = reconcile_command_stream "s9" "n1" "s1" 4 10 lost in
    (s.stream_id ≡ "s9")
    × (s.control_state ≡ control_quarantined)
    × (t : CommandStream) × (find_stream "n1" db' ≡ some t)
    × (t.stream_id ≡ "s9")
    × (t.control_state ≡ control_quarantined)
reconcile_command_stream-missing_example =
    reconcile_command_stream-missing "s9" "n1" "s1" 4 10 lost
      (unfold find_stream find_first in refl) refl refl

abbrev done_row : UpdateJobTarget
done_row = record row { status = succeeded }

abbrev failed_row : UpdateJobTarget
failed_row = record row { job_id = "j2"; status = failed }

aggregate_update_job_status_lem_example :
    ((aggregate_update_job_status (done_row ∷ failed_row ∷ []) ≡ job_completed)
      ↔ All (λ u. u.status ≡ succeeded) (done_row ∷ failed_row ∷ []))
    × ((is_over (aggregate_update_job_status (done_row ∷ failed_row ∷ [])) ≡ true)
        ↔ All (λ u. is_terminal u.status ≡ true) (done_row ∷ failed_row ∷ []))
aggregate_update_job_status_lem_example = aggregate_update_job_status_lem done_row (failed_row ∷ [])
