-- ===== src/Store/Execution.antt =====
-- What a report of an agent, and the disposition of an operator, make of a target.
use thism.Base.{
  ℕ, ◌≡◌, refl, ◌∙◌, true, false, some, [], String, Message, ◌==◌, string_eq, nat_eq,
  find_first-update_first, update_first, arith, Bool-cases, ◌⊎◌, inl, inr, trim_space,
}
use thism.Models.{
  Status, status_eq, status_beq, unknown, status_beq_iff, UpdateJobTarget, CommandStream,
  control_none,
}
use thism.Store.Tables.{
  Db, is_target, is_stream, find_target, find_stream, update_target, update_stream, audit_event,
}
use thism.Store.Watermark.{is_terminal, advance_retired_watermark}
use thism.Store.Aggregate.{recompute_update_job_status}
use thism.Store.Transitions.{
  is_allowed, transition_row, transition_in, block_unknown, retire_terminal,
  apply_execution_transition,
}
use thism.Store.Disposition.{
  is_resolution, has_unknown, unblock, dispose, resolve_in, resolve_unknown_target, disposed,
}

-- The machine never leaves a terminal state, and never goes from a state to an earlier one.
pub is_allowed_terminal : (a b : Status) → is_terminal a ≡ true → is_allowed a b ≡ true → a ≡ b
unfolding is_terminal is_allowed status_beq
is_allowed_terminal a b t h = ground arith

retire_terminal-targets :
    (node : String) (seq : ℕ) (status : Status) (now : ℕ) (db : Db)
    → (retire_terminal node seq status now db).targets ≡ db.targets
unfolding retire_terminal advance_retired_watermark update_stream
retire_terminal-targets node seq status now db = ground arith

block_unknown-targets :
    (job node : String) (seq : ℕ) (status : Status) (now : ℕ) (db : Db)
    → (block_unknown job node seq status now db).targets ≡ db.targets
unfolding block_unknown update_stream audit_event
block_unknown-targets job node seq status now db = ground arith

pub transition-targets :
    (job node : String) (status : Status) (message : Message) (version : String) (now : ℕ)
    (t : UpdateJobTarget) (db : Db)
    → is_allowed t.status status ≡ true
    → (transition_in job node status message version now (some t) db).0.targets
      ≡ update_first (is_target job node) (transition_row status message version now) db.targets
unfolding transition_in recompute_update_job_status
transition-targets job node status message version now t db e =
    let row = update_target job node (transition_row status message version now) db in
    let blocked = block_unknown job node t.seq status now row in
    rw e (
      retire_terminal-targets node t.seq status now blocked
      ∙ block_unknown-targets job node t.seq status now row
      ∙ unfold update_target in refl)

transition-found :
    (job node : String) (status : Status) (message : Message) (version : String) (now : ℕ)
    (t : UpdateJobTarget) (db : Db)
    → is_allowed t.status status ≡ true
    → find_target job node db ≡ some t
    → find_target job node (transition_in job node status message version now (some t) db).0
      ≡ some (transition_row status message version now t)
unfolding find_target transition_row
transition-found job node status message version now t db e h =
    rw (transition-targets job node status message version now t db e) (
      find_first-update_first (is_target job node) (transition_row status message version now)
        db.targets (λ x. refl)
      ∙ rw h)

-- A report is committed exactly when the machine allows it from the state of the target: the
-- target then has the reported state, with its sequence and its delivery state unchanged, and it
-- was not terminal, or had that very state. A report that the machine forbids changes nothing.
pub apply_execution_transition_lem :
    (job node : String) (status : Status) (message : Message) (version : String) (now : ℕ)
    (t : UpdateJobTarget) (db : Db)
    → find_target job node db ≡ some t
    → let (db', ok) = apply_execution_transition job node status message version now db in
      ((is_allowed t.status status ≡ true)
        × (ok ≡ true)
        × (u : UpdateJobTarget) × (find_target job node db' ≡ some u)
        × (u.status ≡ status)
        × (u.seq ≡ t.seq)
        × (u.delivery_state ≡ t.delivery_state)
        × ((is_terminal t.status ≡ false) ⊎ (t.status ≡ status)))
      ⊎ ((is_allowed t.status status ≡ false) × (ok ≡ false) × (db' ≡ db))
unfolding apply_execution_transition
apply_execution_transition_lem job node status message version now t db h =
    rw h (elim (Bool-cases (is_allowed t.status status)) [
      | inl e ↦ inl (
        e,
        unfold transition_in in rw e,
        transition_row status message version now t,
        transition-found job node status message version now t db e h,
        unfold transition_row in refl,
        unfold transition_row in refl,
        unfold transition_row in refl,
        elim (Bool-cases (is_terminal t.status)) [
          | inl k ↦ inr (is_allowed_terminal t.status status k e)
          | inr k ↦ inl k
        ],
      )
      | inr e ↦ inr (e, unfold transition_in in rw e, unfold transition_in in rw e)
    ])

unblock-targets : (node : String) (now : ℕ) (d : Db) → (unblock node now d).targets ≡ d.targets
unfolding unblock audit_event update_stream
unblock-targets node now d = ground arith

unblock-control :
    (node : String) (now : ℕ) (s : CommandStream) (d : Db)
    → find_stream node d ≡ some s
    → has_unknown node d ≡ false
    → find_stream node (unblock node now d)
      ≡ some (record s { control_state = control_none; control_reason = []; updated_at = now })
unfolding unblock audit_event update_stream find_stream
unblock-control node now s d f n = rw n (
    find_first-update_first (is_stream node)
      (λ r. record r { control_state = control_none; control_reason = []; updated_at = now })
      d.streams (λ x. refl)
    ∙ rw f)

cleared :
    (job node : String) (now : ℕ) (s : CommandStream) (d : Db)
    → find_stream node d ≡ some s
    → has_unknown node (recompute_update_job_status job now (unblock node now d)) ≡ false
    → (u : CommandStream) × (find_stream node
          (recompute_update_job_status job now (unblock node now d))
        ≡ some u)
      × (u.control_state ≡ control_none)
unfolding recompute_update_job_status has_unknown find_stream
cleared job node now s d f n = (
  record s { control_state = control_none; control_reason = []; updated_at = now },
  unblock-control node now s d f (rw (unblock-targets node now d) at n),
  refl,
)

dispose-control :
    (job node : String) (resolution : Status) (evidence reason : String) (now : ℕ)
    (s : CommandStream) (db : Db)
    → find_stream node db ≡ some s
    → has_unknown node (dispose job node resolution evidence reason now db) ≡ false
    → (u : CommandStream) × (find_stream node (dispose job node resolution evidence reason now db)
        ≡ some u)
      × (u.control_state ≡ control_none)
unfolding dispose audit_event update_target find_stream
dispose-control job node resolution evidence reason now s db f n = cleared job node now s _ f n

-- The disposition of the last unknown target of a node clears the control state of its stream
-- whatever that state was: a node that was quarantined for a stream mismatch is released by it.
pub resolve_unknown_target-control :
    (job node : String) (resolution : Status) (evidence reason : String) (now : ℕ)
    (t : UpdateJobTarget) (s : CommandStream) (db : Db)
    → is_resolution resolution ≡ true
    → (trim_space evidence == "") ≡ false
    → find_target job node db ≡ some t
    → t.status ≡ unknown
    → find_stream node db ≡ some s
    → has_unknown node (resolve_unknown_target job node resolution evidence reason now db).0 ≡ false
    → let (db', outcome) = resolve_unknown_target job node resolution evidence reason now db in
      (outcome ≡ disposed true)
      × (u : CommandStream) × (find_stream node db' ≡ some u)
      × (u.control_state ≡ control_none)
resolve_unknown_target-control job node resolution evidence reason now t s db r e h k f n =
    let d = dispose job node resolution evidence reason now db in
    let q : resolve_unknown_target job node resolution evidence reason now db ≡ (d, disposed true) =
      unfold resolve_unknown_target resolve_in in ground (arith, status_beq_iff t.status unknown) in
    let (u, found, clear) =
      dispose-control job node resolution evidence reason now s db f (rw q at n) in
    rw q (refl, u, found, clear)
