-- ===== src/Api/Handlers.antt =====
-- internal/api/api.go: the REST handlers of update jobs, and what the read loop of an agent's
-- connection does with the messages that concern the control plane.
use thism.Base.{
  ℕ, Bool, true, false, Option, none, some, List, [], ◌∷◌, String, ◌==◌, ◌&&◌, ◌||◌, not, string_eq,
  nat_eq, if◌then◌else◌, ltb, trim_space, contains, length, drop,
}
use thism.Models.{Status, UpdateJob, UpdateJobTarget, job_pending}
use thism.Store.Tables.{Db}
use thism.Store.Jobs.{create_update_job_with_targets, list_update_job_targets, get_update_job}
use thism.Store.Transitions.{create_cancel_tombstone}
use thism.Store.Disposition.{
  resolve_unknown_target, Disposition, disposed, no_evidence, invalid_resolution,
}
use thism.Hub.Connections.{agent_command_cancel, send_to_agent, handshake_ready}
use thism.Alerting.Settings.{is_empty, normalize_node_ids}
use thism.Api.Server.{Server, World, self_update_kind, set_db, deliver_targets}

-- What decodeJSONBody finds.
pub data Decoded {ℓ} (A : Type ℓ) : Type ℓ where
  body : A → Decoded A
  too_large : Decoded A
  malformed : Decoded A

-- createAgentUpdateJobRequest
pub record UpdateJobRequest : Type 0 where
  pub node_ids : List String
  pub target_version : String
  pub download_url : String
  pub sha256 : String
  pub signature : String

-- The status code of an error with its message, or the answer 200.
pub data Response : Type 0 where
  refused : ℕ → String → Response
  answered : Option UpdateJob → List UpdateJobTarget → Response

is_blank : String → Bool
is_blank t = trim_space t == ""

all_known : List String → List String → Bool
all_known nodes [] = true
all_known nodes (id ∷ ids) = contains nodes id && all_known nodes ids

module _ (w : World) where
  new_job : String → UpdateJobRequest → UpdateJob
  new_job id req = record {
    id = id;
    kind = self_update_kind;
    target_version = req.target_version;
    download_url = req.download_url;
    sha256 = req.sha256;
    signature = trim_space req.signature;
    created_at = w.now;
    updated_at = w.now;
    created_by = "admin";
    status = job_pending;
  }

  answer : String → Server → Server × Response
  answer job s = (s, answered (get_update_job job s.db) (list_update_job_targets job s.db))

  -- The job was committed: its targets are the rows that were added.
  deliver_created : UpdateJob → Server → Option Db → Server × Response
  unfolding answer
  deliver_created job s none = (s, refused 500 "database error")
  deliver_created job s (some db) =
      answer job.id
        (deliver_targets w job (drop (length s.db.targets) db.targets) (record s { db = db })).0

  -- `fresh` gives stream ids, and `job_id` is none where generateHex fails.
  unfoldable pub create_job :
      (String → String) → Option String → UpdateJobRequest → Server → Server × Response
  unfolding is_blank all_known new_job deliver_created
  create_job fresh job_id req s =
      let ids = normalize_node_ids req.node_ids in
      let created : Server × Response = elim job_id [
        | none ↦ (s, refused 500 "random source")
        | some id ↦
            deliver_created (new_job id req) s
              (create_update_job_with_targets fresh w.now (new_job id req) ids s.db)
      ] in
      if is_empty ids
        || (is_blank req.target_version
            || (is_blank req.download_url || (is_blank req.sha256 || is_blank req.signature)))
      then (s, refused 400 "invalidRequestBody")
      else if not (all_known s.nodes ids)
      then (s, refused 404 "node not found")
      else created

  unfoldable pub handle_create_agent_update_job :
      (String → String) → Option String → Decoded UpdateJobRequest → Server → Server × Response
  handle_create_agent_update_job fresh job_id (body req) s = create_job fresh job_id req s
  handle_create_agent_update_job fresh job_id too_large s =
      (s, refused 413 "request body too large")
  handle_create_agent_update_job fresh job_id malformed s = (s, refused 400 "invalidRequestBody")

  get_in : String → Option UpdateJob → Server → Response
  get_in job none s = refused 404 "node not found"
  get_in job (some j) s = answered (some j) (list_update_job_targets job s.db)

  unfoldable pub handle_get_agent_update_job : String → Server → Response
  unfolding get_in
  handle_get_agent_update_job job s = get_in job (get_update_job job s.db) s

  -- The cancel intent of one target, and its message where the agent takes commands.
  unfoldable pub cancel_target : UpdateJobTarget → Server → Server
  unfolding set_db
  cancel_target t s =
      let closed : Server =
        if ltb 0 t.seq
        then set_db (create_cancel_tombstone t.job_id t.node_id t.seq w.now) s
        else s in
      let msg = agent_command_cancel t.job_id t.seq in
      if handshake_ready t.node_id w.now closed.hub
      then record closed { hub = (send_to_agent (w.write_ok msg) t.node_id msg closed.hub).0 }
      else closed

  unfoldable pub cancel_loop : List String → List UpdateJobTarget → Server → Server
  cancel_loop selected [] s = s
  cancel_loop selected (t ∷ ts) s =
      let skipped = cancel_loop selected ts s in
      let cancelled = cancel_loop selected ts (cancel_target t s) in
      if not (is_empty selected) && not (contains selected t.node_id) then skipped else cancelled

  cancel_in : String → List String → Option UpdateJob → Server → Server × Response
  cancel_in job selected none s = (s, refused 404 "job not found")
  cancel_in job selected (some j) s =
      let last = cancel_loop selected (list_update_job_targets job s.db) s in
      (last, answered (some j) (list_update_job_targets job last.db))

  -- The job is looked up before the body is decoded.
  unfoldable pub handle_cancel_agent_update_job :
      String → Decoded (List String) → Server → Server × Response
  unfolding cancel_in
  handle_cancel_agent_update_job job (body selected) s =
      cancel_in job selected (get_update_job job s.db) s
  handle_cancel_agent_update_job job too_large s = elim (get_update_job job s.db) [
    | none ↦ (s, refused 404 "job not found")
    | some j ↦ (s, refused 413 "request body too large")
  ]
  handle_cancel_agent_update_job job malformed s = elim (get_update_job job s.db) [
    | none ↦ (s, refused 404 "job not found")
    | some j ↦ (s, refused 400 "invalidRequestBody")
  ]

  resolved : String → Db × Disposition → Server → Server × Response
  resolved job (db, disposed true) s =
      (record s { db = db }, answered none (list_update_job_targets job db))
  resolved job (db, disposed false) s =
      (record s { db = db }, refused 409 "target is not in unknown state")
  resolved job (db, no_evidence) s =
      (s, refused 500 "unknown resolution requires evidence or a reason")
  resolved job (db, invalid_resolution) s = (s, refused 500 "invalid unknown resolution")

  -- A decoded body: node_id, status, evidence and reason.
  unfoldable pub handle_resolve_unknown_agent_update :
      String → Decoded (String × Status × String × String) → Server → Server × Response
  unfolding is_blank resolved
  handle_resolve_unknown_agent_update job (body (node, status, evidence, reason)) s =
      let result =
        resolved job (resolve_unknown_target job node status evidence reason w.now s.db) s in
      if is_blank node then (s, refused 400 "node_id is required") else result
  handle_resolve_unknown_agent_update job too_large s = (s, refused 413 "request body too large")
  handle_resolve_unknown_agent_update job malformed s = (s, refused 400 "invalidRequestBody")
