-- ===== src/Api/Offline.antt =====
-- deliverTargets of internal/api/api.go for a node that is offline when its update job is created.
use thism.Base.{ℕ, ◌≡◌, Message, true, some, List, [], ◌∷◌, String, lit, string_eq, nat_eq}
use thism.Models.{
  Status, offline_skipped, delivery_send_failed, DeliveryState, UpdateJobTarget, status_eq,
}
use thism.Store.Tables.{Db, find_target}
use thism.Store.Watermark.{is_terminal}
use thism.Store.Jobs.{record_delivery}
use thism.Store.Transitions.{apply_execution_transition}
use thism.Api.Server.{Server}

record Delivered (state : DeliveryState) (job node : String) (r : UpdateJobTarget) (db : Db)
    : Type 0 where
  row : UpdateJobTarget
  found : find_target job node db ≡ some row
  status : row.status ≡ r.status
  delivery : row.delivery_state ≡ state

-- What may still be written to the row of a target: a status that is reported or set, or a delivery.
pub data Write : Type 0 where
  writes_status : (status : Status) (message : Message) (version : String) (now : ℕ) → Write
  writes_delivery : (state : DeliveryState) (err : String) (g now : ℕ) → Write

unfoldable pub apply_writes : String → String → List Write → Db → Db
apply_writes job node [] db = db
apply_writes job node (writes_status st message version now ∷ ws) db =
    apply_writes job node ws (apply_execution_transition job node st message version now db).0
apply_writes job node (writes_delivery state err g now ∷ ws) db =
    apply_writes job node ws (record_delivery job node state err g now db)

-- The target was skipped.
pub record Skipped (job node : String) (db : Db) : Type 0 where
  pub row : UpdateJobTarget
  pub found : find_target job node db ≡ some row
  pub status : row.status ≡ offline_skipped

-- The row of a skipped target.
OfflineRow : String → String → Db → Type 0
OfflineRow job node db =
    (u : UpdateJobTarget) × (find_target job node db ≡ some u)
    × (u.delivery_state ≡ delivery_send_failed)
    × (u.status ≡ offline_skipped)
    × (is_terminal u.status ≡ true)

-- The two calls for an offline target, one after the other.
skipped_db : ℕ → UpdateJobTarget → Db → Db
skipped_db now t db =
    (apply_execution_transition t.job_id t.node_id offline_skipped (lit "agent offline" ∷ []) "" now
      (record_delivery t.job_id t.node_id delivery_send_failed "agent offline at creation" 0 now
        db)).0
