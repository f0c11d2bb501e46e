-- ===== src/Tests/Store.antt =====
-- Runs of the control-plane tables: a node "n1" with a stream, an unknown target and a succeeded one.
use thism.Base.{
  ℕ, ◌<◌, ◌≤◌, find_first, any_of, update_first, trim_space, ◌≡◌, refl, ◌⊎◌, true, false, some,
  List, [], ◌∷◌, contains, lit, ◌+◌, trim_space, nat_eq, string_eq,
}
use thism.Models.{
  status_beq, succeeded, unknown, failed, downloading, verifying, delivery_pending,
  observation_none, UpdateJobTarget, CommandStream, control_none, control_quarantined,
}
use thism.Store.Tables.{Db, find_stream, find_target, update_target, update_stream, audit_event}
use thism.Store.Watermark.{is_terminal, retired_seqs, retired_watermark_from}
use thism.Store.Contiguous.{retired_watermark_from_contiguous}
use thism.Store.Transitions.{is_allowed, apply_execution_transition}
use thism.Store.Disposition.{
  resolve_unknown_target, has_unknown, disposed, is_resolution, dispose, unblock, resolve_in,
}
use thism.Store.Aggregate.{recompute_update_job_status}
use thism.Store.Execution.{apply_execution_transition_lem, resolve_unknown_target-control}
use thism.Store.Onward.{Forward}
use thism.Store.History.{Call, transition, reconcile, prune, run, run-stream}

abbrev row : UpdateJobTarget
row = record {
  job_id = "j1";
  node_id = "n1";
  status = succeeded;
  message = [];
  updated_at = 5;
  reported_version = "";
  seq = 1;
  stream_id = "s1";
  delivery_state = delivery_pending;
  delivery_error = "";
  delivery_attempts = 0;
  delivery_attempted_at = 0;
  delivery_generation = 0;
  target_sha256 = "";
  observation = observation_none;
  cancel_intent_at = 0;
  cancelled_at = 0;
  last_progress_at = 5;
}

abbrev unknown_row : UpdateJobTarget
unknown_row = record row { job_id = "j2"; seq = 2; status = unknown }

abbrev active_row : UpdateJobTarget
active_row = record row { job_id = "j3"; seq = 3; status = downloading }

abbrev stream : CommandStream
stream = record {
  node_id = "n1";
  stream_id = "s1";
  next_seq = 4;
  retired_watermark = 1;
  control_state = control_quarantined;
  control_reason = lit "stream mismatch" ∷ [];
  updated_at = 5;
}

abbrev tables : Db
tables = record {
  jobs = [];
  targets = row ∷ unknown_row ∷ active_row ∷ [];
  streams = stream ∷ [];
  tombstones = [];
  retirements = [];
  audit = [];
  last_audit_id = 0;
}

abbrev calls : List Call
calls = transition "j3" "n1" verifying [] "" 8 ∷ reconcile "s9" "n1" "s1" 3 9 ∷ prune 10 ∷ []

run-stream_example :
    (t : CommandStream) × (find_stream "n1" (run calls tables) ≡ some t) × Forward stream t
run-stream_example = run-stream calls "n1" tables stream (unfold find_stream find_first in refl)

watermark : retired_watermark_from "n1" tables ≡ 2
unfolding retired_watermark_from
watermark = refl

retired_watermark_from_contiguous_example :
    ((k : ℕ)
      → 0 < k
      → k ≤ retired_watermark_from "n1" tables
      → contains (retired_seqs "n1" tables) k ≡ true)
    × (contains (retired_seqs "n1" tables) (retired_watermark_from "n1" tables + 1) ≡ false)
retired_watermark_from_contiguous_example = retired_watermark_from_contiguous "n1" tables

apply_execution_transition_lem_example :
    let (db', ok) = apply_execution_transition "j3" "n1" verifying [] "" 8 tables in
    ((is_allowed downloading verifying ≡ true)
      × (ok ≡ true)
      × (u : UpdateJobTarget) × (find_target "j3" "n1" db' ≡ some u)
      × (u.status ≡ verifying)
      × (u.seq ≡ 3)
      × (u.delivery_state ≡ delivery_pending)
      × ((is_terminal downloading ≡ false) ⊎ (downloading ≡ verifying)))
    ⊎ ((is_allowed downloading verifying ≡ false) × (ok ≡ false) × (db' ≡ tables))
apply_execution_transition_lem_example =
    apply_execution_transition_lem "j3" "n1" verifying [] "" 8 active_row tables
      (unfold find_target find_first in refl)

resolved : has_unknown "n1" (resolve_unknown_target "j2" "n1" failed "ticket" "" 9 tables).0 ≡ false
unfolding has_unknown resolve_unknown_target resolve_in dispose unblock recompute_update_job_status
    update_target update_stream audit_event trim_space status_beq any_of find_target find_first
    update_first
resolved = refl

resolve_unknown_target-control_example :
    let (db', outcome) = resolve_unknown_target "j2" "n1" failed "ticket" "" 9 tables in
    (outcome ≡ disposed true)
    × (u : CommandStream) × (find_stream "n1" db' ≡ some u)
    × (u.control_state ≡ control_none)
unfolding is_resolution trim_space
resolve_unknown_target-control_example =
    resolve_unknown_target-control "j2" "n1" failed "ticket" "" 9 unknown_row stream tables refl
      refl (unfold find_target find_first in refl) refl (unfold find_stream find_first in refl)
      resolved
