-- ===== src/Store/Calls.antt =====
-- Every history of calls on the control-plane tables: what it does to the command streams.
use thism.Base.{
  ℕ, ◌+◌, ◌≡◌, refl, sym, Option, none, some, List, [], ◌∷◌, String, Message, ◌==◌, ◌&&◌, nat_eq,
  string_eq, ltb, arith, Bool-cases, any_of, not, subst, Option-cases, inl, inr,
}
use thism.Models.{
  Status, status_eq, unknown, UpdateJob, AgentInProgressState, AgentExecutionRecord,
  UpdateJobTarget,
}
use thism.Store.Tables.{Db, update_target, audit_event, find_target}
use thism.Store.Watermark.{is_terminal}
use thism.Store.Streams.{ensure_stream}
use thism.Store.Jobs.{add_target, add_targets, create_update_job_with_targets}
use thism.Store.Aggregate.{recompute_update_job_status}
use thism.Store.Transitions.{
  apply_execution_transition, create_cancel_tombstone, transition_row, transition_in, block_unknown,
  retire_terminal, is_allowed,
}
use thism.Store.Backfill.{
  backfill_unknown, backfill_target, backfill_stage, backfill_record, backfill_records,
  backfill_in_progress, apply_handshake_backfill,
}
use thism.Store.Disposition.{resolve_unknown_target, resolve_in, unblock, dispose, has_unknown}
use thism.Store.Retention.{
  prune_target_row, prune_rows, prune_excess, excess_rows, aged_rows, prune_update_detail,
}
use thism.Store.Onward.{Onward, Onward-refl, Onward-trans, update_stream-Onward}
use thism.Store.Reconcile.{After, advance-Onward, ensure-Onward, ensure-IsRow}

add_target-Onward :
    (fresh : String → String) (job : UpdateJob) (updated_at now : ℕ) (node : String) (db db' : Db)
    → add_target fresh job updated_at now node db ≡ some db'
    → After db db'
unfolding add_target
add_target-Onward fresh job updated_at now node db db' h =
    let (d, s) = ensure_stream (fresh node) node now db in
    let r = ensure-IsRow (fresh node) node now db in
    let kept =
      update_stream-Onward node (λ r. record r { next_seq = s.next_seq + 1; updated_at = now }) d
        (λ t q. ground arith) in
    Onward-trans db.streams d.streams _ (ensure-Onward (fresh node) node now db)
      (ground (arith, kept))

add_targets-Onward :
    (fresh : String → String) (job : UpdateJob) (updated_at now : ℕ) (nodes : List String)
    (db db' : Db)
    → add_targets fresh job updated_at now nodes db ≡ some db'
    → After db db'
unfolding add_targets
add_targets-Onward fresh job updated_at now [] db db' h = ground (arith, Onward-refl db.streams)
add_targets-Onward fresh job updated_at now (node ∷ nodes) db db' h =
    elim (Option-cases (add_target fresh job updated_at now node db)) [
      | inl e ↦ ground arith
      | inr (d, e) ↦
          Onward-trans db.streams d.streams _
            (add_target-Onward fresh job updated_at now node db d e)
            (add_targets-Onward fresh job updated_at now nodes d db' (ground arith))
    ]

pub create-Onward :
    (fresh : String → String) (now : ℕ) (job : UpdateJob) (nodes : List String) (db db' : Db)
    → create_update_job_with_targets fresh now job nodes db ≡ some db'
    → After db db'
unfolding create_update_job_with_targets
create-Onward fresh now job nodes db db' h =
    elim (Bool-cases (any_of (λ j. j.id == job.id) db.jobs)) [
      | inl e ↦ ground arith
      | inr e ↦ add_targets-Onward fresh job _ now nodes _ db' (rw e at h)
    ]

block_unknown-Onward :
    (job node : String) (seq : ℕ) (status : Status) (now : ℕ) (db : Db)
    → After db (block_unknown job node seq status now db)
unfolding block_unknown audit_event
block_unknown-Onward job node seq status now db =
    elim (Bool-cases (status == unknown && ltb 0 seq)) [
      | inl e ↦ rw e (update_stream-Onward node _ db (λ s h. ground arith))
      | inr e ↦ rw e (Onward-refl db.streams)
    ]

retire_terminal-Onward :
    (node : String) (seq : ℕ) (status : Status) (now : ℕ) (db : Db)
    → After db (retire_terminal node seq status now db)
unfolding retire_terminal
retire_terminal-Onward node seq status now db =
    elim (Bool-cases (is_terminal status && ltb 0 seq)) [
      | inl e ↦ rw e (advance-Onward node now db)
      | inr e ↦ rw e (Onward-refl db.streams)
    ]

transition_in-Onward :
    (job node : String) (status : Status) (message : Message) (version : String) (now : ℕ)
    (found : Option UpdateJobTarget) (db : Db)
    → After db (transition_in job node status message version now found db).0
unfolding transition_in recompute_update_job_status update_target
transition_in-Onward job node status message version now none db = Onward-refl db.streams
transition_in-Onward job node status message version now (some t) db =
    let row = update_target job node (transition_row status message version now) db in
    let blocked = block_unknown job node t.seq status now row in
    elim (Bool-cases (is_allowed t.status status)) [
      | inl e ↦ rw e (
          Onward-trans db.streams blocked.streams _
            (block_unknown-Onward job node t.seq status now row)
            (retire_terminal-Onward node t.seq status now blocked))
      | inr e ↦ rw e (Onward-refl db.streams)
    ]

pub transition-Onward :
    (job node : String) (status : Status) (message : Message) (version : String) (now : ℕ) (db : Db)
    → After db (apply_execution_transition job node status message version now db).0
unfolding apply_execution_transition
transition-Onward job node status message version now db =
    transition_in-Onward job node status message version now (find_target job node db) db

pub tombstone-Onward :
    (job node : String) (seq now : ℕ) (db : Db)
    → After db (create_cancel_tombstone job node seq now db)
unfolding create_cancel_tombstone update_target audit_event
tombstone-Onward job node seq now db = advance-Onward node now _

backfill_unknown-Onward :
    (node : String) (r : AgentExecutionRecord) (now : ℕ) (db : Db)
    → After db (backfill_unknown node r now db)
unfolding backfill_unknown audit_event
backfill_unknown-Onward node r now db = elim (Bool-cases (r.status == unknown)) [
  | inl e ↦ rw e (update_stream-Onward node _ db (λ s h. ground arith))
  | inr e ↦ rw e (Onward-refl db.streams)
]

backfill_target-Onward :
    (node : String) (r : AgentExecutionRecord) (now : ℕ) (found : Option UpdateJobTarget) (db : Db)
    → After db (backfill_target node r now found db)
unfolding backfill_target recompute_update_job_status update_target
backfill_target-Onward node r now none db = Onward-refl db.streams
backfill_target-Onward node r now (some t) db =
    elim (Bool-cases (t.seq == r.seq && is_allowed t.status r.status)) [
      | inl e ↦ rw e (backfill_unknown-Onward node r now _)
      | inr e ↦ rw e (Onward-refl db.streams)
    ]

backfill_record-Onward :
    (node : String) (r : AgentExecutionRecord) (now : ℕ) (db : Db)
    → After db (backfill_record node r now db)
unfolding backfill_record
backfill_record-Onward node r now db = elim (Bool-cases (ltb 0 r.seq && not (r.job_id == ""))) [
  | inl e ↦ rw e (backfill_target-Onward node r now (find_target r.job_id node db) db)
  | inr e ↦ rw e (Onward-refl db.streams)
]

backfill_records-Onward :
    (node : String) (rs : List AgentExecutionRecord) (now : ℕ) (db : Db)
    → After db (backfill_records node rs now db)
unfolding backfill_records
backfill_records-Onward node [] now db = Onward-refl db.streams
backfill_records-Onward node (r ∷ rs) now db =
    let d = backfill_record node r now db in
    Onward-trans db.streams d.streams _ (backfill_record-Onward node r now db)
      (backfill_records-Onward node rs now d)

backfill_stage-streams :
    (node : String) (p : AgentInProgressState) (now : ℕ) (found : Option UpdateJobTarget) (db : Db)
    → (backfill_stage node p now found db).streams ≡ db.streams
unfolding backfill_stage recompute_update_job_status update_target
backfill_stage-streams node p now none db = refl
backfill_stage-streams node p now (some t) db = ground arith

backfill_in_progress-streams :
    (node : String) (p : Option AgentInProgressState) (now : ℕ) (db : Db)
    → (backfill_in_progress node p now db).streams ≡ db.streams
unfolding backfill_in_progress
backfill_in_progress-streams node none now db = refl
backfill_in_progress-streams node (some p) now db =
    ground (arith, backfill_stage-streams node p now (find_target p.job_id node db) db)

pub backfill-Onward :
    (node : String) (p : Option AgentInProgressState) (rs : List AgentExecutionRecord) (now : ℕ)
    (db : Db)
    → After db (apply_handshake_backfill node p rs now db)
unfolding apply_handshake_backfill
backfill-Onward node p rs now db =
    subst (Onward db.streams)
      (sym (backfill_in_progress-streams node p now (backfill_records node rs now db)))
      (backfill_records-Onward node rs now db)

unblock-Onward : (node : String) (now : ℕ) (db : Db) → After db (unblock node now db)
unfolding unblock audit_event
unblock-Onward node now db = elim (Bool-cases (has_unknown node db)) [
  | inl e ↦ rw e (Onward-refl db.streams)
  | inr e ↦ rw e (update_stream-Onward node _ db (λ s h. ground arith))
]

resolve_in-Onward :
    (job node : String) (resolution : Status) (evidence reason : String) (now : ℕ)
    (found : Option UpdateJobTarget) (db : Db)
    → After db (resolve_in job node resolution evidence reason now found db).0
unfolding resolve_in dispose recompute_update_job_status audit_event update_target
resolve_in-Onward job node resolution evidence reason now none db = Onward-refl db.streams
resolve_in-Onward job node resolution evidence reason now (some t) db =
    elim (Bool-cases (t.status == unknown)) [
      | inl e ↦ rw e (unblock-Onward node now _)
      | inr e ↦ rw e (Onward-refl db.streams)
    ]

pub resolve-Onward :
    (job node : String) (resolution : Status) (evidence reason : String) (now : ℕ) (db : Db)
    → After db (resolve_unknown_target job node resolution evidence reason now db).0
unfolding resolve_unknown_target
resolve-Onward job node resolution evidence reason now db = ground (
  arith,
  Onward-refl db.streams,
  resolve_in-Onward job node resolution evidence reason now (find_target job node db) db,
)

prune_target_row-Onward :
    (now : ℕ) (t : UpdateJobTarget) (db : Db) → After db (prune_target_row now t db)
unfolding prune_target_row
prune_target_row-Onward now t db = advance-Onward t.node_id now _

prune_rows-Onward :
    (now : ℕ) (ts : List UpdateJobTarget) (db : Db) → After db (prune_rows now ts db).0
unfolding prune_rows
prune_rows-Onward now [] db = Onward-refl db.streams
prune_rows-Onward now (t ∷ ts) db =
    let d = prune_target_row now t db in
    Onward-trans db.streams d.streams _ (prune_target_row-Onward now t db)
      (prune_rows-Onward now ts d)

prune_excess-Onward :
    (now : ℕ) (nodes : List String) (db : Db) → After db (prune_excess now nodes db).0
unfolding prune_excess
prune_excess-Onward now [] db = Onward-refl db.streams
prune_excess-Onward now (node ∷ nodes) db =
    let (d, n) = prune_rows now (excess_rows node db) db in
    Onward-trans db.streams d.streams _ (prune_rows-Onward now (excess_rows node db) db)
      (prune_excess-Onward now nodes d)

pub prune-Onward : (now : ℕ) (db : Db) → After db (prune_update_detail now db).0
unfolding prune_update_detail
prune-Onward now db =
    let (d, n) = prune_rows now (aged_rows now db) db in
    Onward-trans db.streams d.streams _ (prune_rows-Onward now (aged_rows now db) db)
      (prune_excess-Onward now _ d)
