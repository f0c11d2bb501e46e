-- ===== src/Store/Jobs.antt =====
-- internal/store/updates_concurrency.go: creating a job with its targets, delivery facts, and the
-- commands to deliver.
use thism.Base.{
  ℕ, ◌+◌, Bool, true, false, Option, none, some, List, [], ◌∷◌, ◌++◌, String, ◌==◌, ◌&&◌, string_eq,
  nat_eq, if◌then◌else◌, ltb, leb, filter, take, any_of, text_leb, find_first,
}
use thism.Models.{
  Status, pending, dispatched, DeliveryState, delivery_pending, delivery_sending, delivery_sent,
  delivery_send_failed, observation_none, UpdateJob, UpdateJobTarget, CommandStream,
}
use thism.Store.Tables.{Db, is_target, update_target, update_stream}
use thism.Store.Streams.{ensure_stream}

unfoldable pub new_target : UpdateJob → String → ℕ → CommandStream → UpdateJobTarget
new_target job node updated_at s = record {
  job_id = job.id;
  node_id = node;
  status = pending;
  message = [];
  updated_at = updated_at;
  reported_version = "";
  seq = s.next_seq;
  stream_id = s.stream_id;
  delivery_state = delivery_pending;
  delivery_error = "";
  delivery_attempts = 0;
  delivery_attempted_at = 0;
  delivery_generation = 0;
  target_sha256 = job.sha256;
  observation = observation_none;
  cancel_intent_at = 0;
  cancelled_at = 0;
  last_progress_at = updated_at;
}

-- INSERT under the primary key (job_id, node_id).
unfoldable pub insert_target : UpdateJobTarget → Db → Option Db
insert_target t db =
    if any_of (is_target t.job_id t.node_id) db.targets
    then none
    else some (record db { targets = db.targets ++ (t ∷ []) })

-- One node of the loop: its stream, the sequence it gives, and the target's row.
unfoldable pub add_target : (String → String) → UpdateJob → ℕ → ℕ → String → Db → Option Db
unfolding new_target insert_target
add_target fresh job updated_at now node db =
    let (db', s) = ensure_stream (fresh node) node now db in
    insert_target (new_target job node updated_at s)
      (update_stream node (λ r. record r { next_seq = s.next_seq + 1; updated_at = now }) db')

unfoldable pub add_targets : (String → String) → UpdateJob → ℕ → ℕ → List String → Db → Option Db
add_targets fresh job updated_at now [] db = some db
add_targets fresh job updated_at now (node ∷ nodes) db =
    elim (add_target fresh job updated_at now node db) [
      | none ↦ none
      | some db' ↦ add_targets fresh job updated_at now nodes db'
    ]

abbrev or_time : ℕ → ℕ → ℕ
or_time t fallback = if t == 0 then fallback else t

-- The whole transaction; `none` is an error, after which it is rolled back. `fresh` gives a new
-- stream id for a node that has no stream. The targets returned are the rows added.
unfoldable pub create_update_job_with_targets :
    (String → String) → ℕ → UpdateJob → List String → Db → Option Db
create_update_job_with_targets fresh now job nodes db =
    let created_at = or_time job.created_at now in
    let updated_at = or_time job.updated_at created_at in
    if any_of (λ j. j.id == job.id) db.jobs
    then none
    else add_targets fresh job updated_at now nodes (record db {
      jobs = db.jobs ++ (record job { created_at = created_at; updated_at = updated_at } ∷ []);
    })

attempts : DeliveryState → ℕ
attempts delivery_pending = 1
attempts delivery_sending = 1
attempts delivery_sent = 0
attempts delivery_send_failed = 0

unfoldable pub record_delivery : String → String → DeliveryState → String → ℕ → ℕ → Db → Db
unfolding attempts
record_delivery job node state err generation now db =
    update_target job node
      (λ t. record t {
        delivery_state = state;
        delivery_error = err;
        delivery_attempted_at = now;
        delivery_generation = generation;
        delivery_attempts = t.delivery_attempts + attempts state;
        updated_at = now;
      })
      db

unfoldable pub is_unstarted : Status → Bool
is_unstarted pending = true
is_unstarted dispatched = true
is_unstarted _ = false

-- ORDER BY seq
unfoldable pub insert_by_seq : UpdateJobTarget → List UpdateJobTarget → List UpdateJobTarget
insert_by_seq t [] = t ∷ []
insert_by_seq t (u ∷ us) =
    let rest = u ∷ insert_by_seq t us in if leb t.seq u.seq then t ∷ u ∷ us else rest

unfoldable pub sort_by_seq : List UpdateJobTarget → List UpdateJobTarget
unfolding insert_by_seq
sort_by_seq [] = []
sort_by_seq (t ∷ ts) = insert_by_seq t (sort_by_seq ts)

-- The WHERE clause; each of the four delivery states is listed in it.
unfoldable pub is_deliverable : String → ℕ → UpdateJobTarget → Bool
unfolding is_unstarted
is_deliverable node after t = t.node_id == node && (ltb after t.seq && is_unstarted t.status)

unfoldable pub pending_deliveries_for_node : String → ℕ → ℕ → Db → List UpdateJobTarget
unfolding is_deliverable sort_by_seq
pending_deliveries_for_node node after limit db =
    let n = or_time limit 64 in take n (sort_by_seq (filter (is_deliverable node after) db.targets))

-- ORDER BY node_id
insert_by_node : UpdateJobTarget → List UpdateJobTarget → List UpdateJobTarget
insert_by_node t [] = t ∷ []
insert_by_node t (u ∷ us) =
    let rest = u ∷ insert_by_node t us in if text_leb t.node_id u.node_id then t ∷ u ∷ us else rest

sort_by_node : List UpdateJobTarget → List UpdateJobTarget
unfolding insert_by_node
sort_by_node [] = []
sort_by_node (t ∷ ts) = insert_by_node t (sort_by_node ts)

unfoldable pub list_update_job_targets : String → Db → List UpdateJobTarget
unfolding sort_by_node
list_update_job_targets job db = sort_by_node (filter (λ t. t.job_id == job) db.targets)

unfoldable pub get_update_job : String → Db → Option UpdateJob
get_update_job job db = find_first (λ j. j.id == job) db.jobs
