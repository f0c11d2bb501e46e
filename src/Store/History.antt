-- ===== src/Store/History.antt =====
-- Any sequence of calls of the server on its control-plane tables.
use thism.Base.{ℕ, ◌≡◌, Option, none, some, List, [], ◌∷◌, String, Message, refl}
use thism.Models.{
  CommandStream, ControlState, Status, DeliveryState, UpdateJob, AgentInProgressState,
  AgentExecutionRecord,
}
use thism.Store.Tables.{Db, find_stream, update_target}
use thism.Store.Streams.{ensure_stream, set_node_control_state, reconcile_command_stream}
use thism.Store.Jobs.{create_update_job_with_targets, record_delivery}
use thism.Store.Transitions.{apply_execution_transition, create_cancel_tombstone}
use thism.Store.Backfill.{apply_handshake_backfill}
use thism.Store.Disposition.{resolve_unknown_target, mark_stalled_update_observations}
use thism.Store.Retention.{prune_update_detail}
use thism.Store.Onward.{Forward, Onward-refl, Onward-trans, Onward-find}
use thism.Store.Reconcile.{After, ensure-Onward, set_control-Onward, reconcile-Onward}
use thism.Store.Calls.{
  create-Onward, transition-Onward, tombstone-Onward, backfill-Onward, resolve-Onward, prune-Onward,
}

pub data Call : Type 0 where
  ensure : (fresh node : String) (now : ℕ) → Call
  control : (node : String) (state : ControlState) (reason : Message) (now : ℕ) → Call
  reconcile : (fresh node agent_stream : String) (agent_watermark now : ℕ) → Call
  create : (fresh : String → String) (now : ℕ) (job : UpdateJob) (nodes : List String) → Call
  deliver : (job node : String) (state : DeliveryState) (err : String) (generation now : ℕ) → Call
  transition :
      (job node : String) (status : Status) (message : Message) (version : String) (now : ℕ) → Call
  tombstone : (job node : String) (seq now : ℕ) → Call
  backfill :
      (node : String) (p : Option AgentInProgressState) (rs : List AgentExecutionRecord) (now : ℕ)
      → Call
  resolve : (job node : String) (resolution : Status) (evidence reason : String) (now : ℕ) → Call
  stall : (now stale_after : ℕ) → Call
  prune : (now : ℕ) → Call

-- A transaction that fails is rolled back.
committed : Db → Option Db → Db
committed db none = db
committed db (some db') = db'

unfoldable pub call : Call → Db → Db
unfolding committed
call (ensure fresh node now) db = (ensure_stream fresh node now db).0
call (control node state reason now) db = set_node_control_state node state reason now db
call (reconcile fresh node agent w now) db = (reconcile_command_stream fresh node agent w now db).0
call (create fresh now job nodes) db =
    committed db (create_update_job_with_targets fresh now job nodes db)
call (deliver job node state err generation now) db =
    record_delivery job node state err generation now db
call (transition job node status message version now) db =
    (apply_execution_transition job node status message version now db).0
call (tombstone job node seq now) db = create_cancel_tombstone job node seq now db
call (backfill node p rs now) db = apply_handshake_backfill node p rs now db
call (resolve job node resolution evidence reason now) db =
    (resolve_unknown_target job node resolution evidence reason now db).0
call (stall now stale_after) db = (mark_stalled_update_observations now stale_after db).0
call (prune now) db = (prune_update_detail now db).0

unfoldable pub run : List Call → Db → Db
run [] db = db
run (c ∷ cs) db = run cs (call c db)

committed-Onward :
    (db : Db) (r : Option Db) → ((d : Db) → r ≡ some d → After db d) → After db (committed db r)
unfolding committed
committed-Onward db none h = Onward-refl db.streams
committed-Onward db (some d) h = h d refl

call-Onward : (c : Call) (db : Db) → After db (call c db)
unfolding call record_delivery update_target mark_stalled_update_observations
call-Onward (ensure fresh node now) db = ensure-Onward fresh node now db
call-Onward (control node state reason now) db = set_control-Onward node state reason now db
call-Onward (reconcile fresh node agent w now) db = reconcile-Onward fresh node agent w now db
call-Onward (create fresh now job nodes) db =
    committed-Onward db (create_update_job_with_targets fresh now job nodes db)
      (λ d h. create-Onward fresh now job nodes db d h)
call-Onward (deliver job node state err generation now) db = Onward-refl db.streams
call-Onward (transition job node status message version now) db =
    transition-Onward job node status message version now db
call-Onward (tombstone job node seq now) db = tombstone-Onward job node seq now db
call-Onward (backfill node p rs now) db = backfill-Onward node p rs now db
call-Onward (resolve job node resolution evidence reason now) db =
    resolve-Onward job node resolution evidence reason now db
call-Onward (stall now stale_after) db = Onward-refl db.streams
call-Onward (prune now) db = prune-Onward now db

run-Onward : (cs : List Call) (db : Db) → After db (run cs db)
unfolding run
run-Onward [] db = Onward-refl db.streams
run-Onward (c ∷ cs) db =
    Onward-trans db.streams (call c db).streams _ (call-Onward c db) (run-Onward cs (call c db))

-- The stream of a node is never lost and only goes forward, over any sequence of the store's
-- calls: it keeps its id, and neither its next sequence nor its retired watermark ever falls.
pub run-stream :
    (cs : List Call) (node : String) (db : Db) (s : CommandStream)
    → find_stream node db ≡ some s
    → (t : CommandStream) × (find_stream node (run cs db) ≡ some t) × Forward s t
unfolding find_stream
run-stream cs node db s h = Onward-find node db.streams (run cs db).streams s (run-Onward cs db) h
