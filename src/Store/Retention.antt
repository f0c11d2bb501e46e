-- ===== src/Store/Retention.antt =====
-- internal/store/updates_concurrency.go: the bounded retention of target rows and of the audit.
use thism.Base.{
  ℕ, suc, ◌+◌, ◌-◌, ◌*◌, Bool, true, false, List, [], ◌∷◌, String, ◌==◌, ◌&&◌, not, string_eq,
  nat_eq, if◌then◌else◌, ltb, leb, filter, take, length, map, contains,
}
use thism.Models.{
  Status, accepted, downloading, verifying, restarting, unknown, UpdateJobTarget, AuditEvent,
}
use thism.Store.Tables.{Db, Retirement, is_target, insert_retirement}
use thism.Store.Watermark.{advance_retired_watermark}

abbrev pub detail_retention_days : ℕ
detail_retention_days = 180

abbrev pub detail_rows_per_node : ℕ
detail_rows_per_node = 1024

abbrev pub audit_retention_days : ℕ
audit_retention_days = 365

abbrev pub audit_rows_per_node : ℕ
audit_rows_per_node = 2048

-- A row that is in progress or unknown is never pruned.
unfoldable pub is_protected : Status → Bool
is_protected accepted = true
is_protected downloading = true
is_protected verifying = true
is_protected restarting = true
is_protected unknown = true
is_protected _ = false

retirement : UpdateJobTarget → ℕ → Retirement
retirement t now = record {
  node_id = t.node_id;
  seq = t.seq;
  job_id = t.job_id;
  reason = "detail-pruned";
  created_at = now;
}

-- The sequence of the row is retired before the row goes.
unfoldable pub prune_target_row : ℕ → UpdateJobTarget → Db → Db
unfolding retirement
prune_target_row now t db =
    let retirements =
      if ltb 0 t.seq then insert_retirement (retirement t now) db.retirements else db.retirements in
    advance_retired_watermark t.node_id now (record db {
      retirements = retirements;
      targets = filter (λ u. not (is_target t.job_id t.node_id u)) db.targets;
    })

unfoldable pub prune_rows : ℕ → List UpdateJobTarget → Db → Db × ℕ
prune_rows now [] db = (db, 0)
prune_rows now (t ∷ ts) db =
    let (db', n) = prune_rows now ts (prune_target_row now t db) in (db', suc n)

abbrev pub day : ℕ
day = 24 * 3600

unfoldable pub aged_rows : ℕ → Db → List UpdateJobTarget
unfolding is_protected
aged_rows now db =
    filter
      (λ t. ltb t.updated_at (now - detail_retention_days * day) && not (is_protected t.status))
      db.targets

-- GROUP BY node_id HAVING COUNT(*) > limit, over the node ids of a table.
unfoldable pub distinct : List String → List String
distinct [] = []
distinct (x ∷ xs) = let rest = distinct xs in if contains rest x then rest else x ∷ rest

unfoldable pub nodes_above : ℕ → List String → List String
unfolding distinct
nodes_above limit ids = filter (λ n. ltb limit (length (filter (λ i. i == n) ids))) (distinct ids)

-- ORDER BY updated_at
insert_by_age : UpdateJobTarget → List UpdateJobTarget → List UpdateJobTarget
insert_by_age t [] = t ∷ []
insert_by_age t (u ∷ us) =
    let rest = u ∷ insert_by_age t us in if leb t.updated_at u.updated_at then t ∷ u ∷ us else rest

unfoldable pub sort_by_age : List UpdateJobTarget → List UpdateJobTarget
unfolding insert_by_age
sort_by_age [] = []
sort_by_age (t ∷ ts) = insert_by_age t (sort_by_age ts)

unfoldable pub excess_rows : String → Db → List UpdateJobTarget
unfolding sort_by_age is_protected
excess_rows node db =
    let candidates =
      sort_by_age (filter (λ t. t.node_id == node && not (is_protected t.status)) db.targets) in
    take (length candidates - detail_rows_per_node) candidates

unfoldable pub prune_excess : ℕ → List String → Db → Db × ℕ
prune_excess now [] db = (db, 0)
prune_excess now (node ∷ nodes) db =
    let (db', n) = prune_rows now (excess_rows node db) db in
    let (db'', m) = prune_excess now nodes db' in (db'', n + m)

-- DELETE … WHERE id IN (SELECT id … WHERE node_id = ? ORDER BY id ASC LIMIT ?): ids rise along the
-- table, so the oldest `n` events of the node are those that come first.
unfoldable pub delete_oldest : String → ℕ → List AuditEvent → List AuditEvent
delete_oldest node n [] = []
delete_oldest node n (e ∷ es) =
    let gone = delete_oldest node (n - 1) es in
    let kept = e ∷ delete_oldest node n es in if e.node_id == node && ltb 0 n then gone else kept

unfoldable pub trim_audit : List String → List AuditEvent → List AuditEvent
trim_audit [] es = es
trim_audit (node ∷ nodes) es = trim_audit nodes (delete_oldest node audit_rows_per_node es)

unfoldable pub prune_audit : ℕ → List AuditEvent → List AuditEvent
unfolding nodes_above trim_audit delete_oldest
prune_audit now es =
    let recent = filter (λ e. not (ltb e.created_at (now - audit_retention_days * day))) es in
    trim_audit (nodes_above audit_rows_per_node (map (λ e. e.node_id) recent)) recent

unfoldable pub prune_update_detail : ℕ → Db → Db × ℕ
prune_update_detail now db =
    let (db', n) = prune_rows now (aged_rows now db) db in
    let crowded = nodes_above detail_rows_per_node (map (λ t. t.node_id) db'.targets) in
    let (db'', m) = prune_excess now crowded db' in
    (record db'' { audit = prune_audit now db''.audit }, n + m)
