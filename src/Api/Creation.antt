-- ===== src/Api/Creation.antt =====
-- A new update job: the node ids of the request and the targets that the store creates for them.
use thism.Base.{
  append_nil, append_assoc, ℕ, ◌+◌, ◌≡◌, ◌≢◌, refl, ◌∙◌, sym, ap, subst, inl, inr, Bool, true,
  false, Option, none, some, List, [], ◌∷◌, ◌++◌, map, String, ◌==◌, string_eq, nat_eq,
  if◌then◌else◌, contains, any_of, All, trim_space, arith, Bool-cases,
}
use text.Mathlib.TextEquality.{eq_iff}
use thism.Models.{pending, UpdateJob, UpdateJobTarget, CommandStream}
use thism.Store.Tables.{Db, is_target, find_stream, audit_event, update_stream}
use thism.Store.Streams.{ensure_stream, ensure_in}
use thism.Store.Jobs.{
  new_target, insert_target, add_target, add_targets, create_update_job_with_targets,
}
use thism.Alerting.Settings.{clean_ids, normalize_node_ids, or_else}

-- No id twice, and none of those seen before.
abbrev pub Distinct : List String → List String → Type 0
Distinct seen [] = Unit
Distinct seen (id ∷ ids) = (contains seen id ≡ false) × Distinct (id ∷ seen) ids

clean-Distinct : (ids seen : List String) → Distinct seen (clean_ids seen ids)
unfolding clean_ids
clean-Distinct [] seen = tt
clean-Distinct (id ∷ ids) seen = elim (Bool-cases (trim_space id == "")) [
  | inl blank ↦ rw blank (clean-Distinct ids seen)
  | inr given ↦ elim (Bool-cases (contains seen (trim_space id))) [
    | inl known ↦ rw (given, known) (clean-Distinct ids seen)
    | inr new ↦ rw (given, new) (new, clean-Distinct ids (trim_space id ∷ seen))
  ]
]

clean-trimmed :
    (ids seen : List String)
    → All (λ id. (id ≢ "") × (raw : String) × (id ≡ trim_space raw)) (clean_ids seen ids)
unfolding clean_ids
clean-trimmed [] seen = tt
clean-trimmed (id ∷ ids) seen = elim (Bool-cases (trim_space id == "")) [
  | inl blank ↦ rw blank (clean-trimmed ids seen)
  | inr given ↦ elim (Bool-cases (contains seen (trim_space id))) [
    | inl known ↦ rw (given, known) (clean-trimmed ids seen)
    | inr new ↦
        rw (given, new)
          (
            ((λ p. ground (arith, eq_iff (trim_space id) "")), id, refl),
            clean-trimmed ids (trim_space id ∷ seen),
          )
  ]
]

-- Rows that a new job adds: one for each node, in their order.
pub record Added (job : UpdateJob) (nodes : List String) (db db' : Db) : Type 0 where
  pub rows : List UpdateJobTarget
  pub appended : db'.targets ≡ db.targets ++ rows
  pub one_each : map (λ t. t.node_id) rows ≡ nodes
  pub all_new : All (λ t. (t.job_id ≡ job.id) × (t.status ≡ pending)) rows

ensure-targets :
    (fresh node : String) (now : ℕ) (db : Db)
    → (ensure_stream fresh node now db).0.targets ≡ db.targets
unfolding ensure_stream
ensure-targets fresh node now db = go (find_stream node db)
  where
    go : (o : Option CommandStream) → (ensure_in fresh node now o db).0.targets ≡ db.targets
    go none = unfold ensure_in audit_event in refl
    go (some s) = unfold ensure_in update_stream in ground arith

any-append {ℓ} :
    {A : Type ℓ} (p : A → Bool) (xs : List A) (y : A)
    → any_of p xs ≡ false
    → p y ≡ false
    → any_of p (xs ++ (y ∷ [])) ≡ false
unfolding any_of
any-append p [] y h k = ground arith
any-append p (x ∷ xs) y h k = ground (arith, any-append p xs y)

insert_target-some :
    (t : UpdateJobTarget) (db : Db)
    → any_of (is_target t.job_id t.node_id) db.targets ≡ false
    → insert_target t db ≡ some (record db { targets = db.targets ++ (t ∷ []) })
unfolding insert_target
insert_target-some t db h = rw h refl

-- The target of one node is new.
record OneAdded (job : UpdateJob) (node : String) (db : Db) (result : Option Db) : Type 0 where
  after : Db
  row : UpdateJobTarget
  returned : result ≡ some after
  appended : after.targets ≡ db.targets ++ (row ∷ [])
  own : row.node_id ≡ node
  of_job : row.job_id ≡ job.id
  waits : row.status ≡ pending

add_target-OneAdded :
    (fresh : String → String) (job : UpdateJob) (updated_at now : ℕ) (node : String) (db : Db)
    → any_of (is_target job.id node) db.targets ≡ false
    → OneAdded job node db (add_target fresh job updated_at now node db)
unfolding add_target update_stream new_target
add_target-OneAdded fresh job updated_at now node db h =
    let ensured = ensure_stream (fresh node) node now db in
    let row = new_target job node updated_at ensured.1 in
    let ready =
      update_stream node (λ r. record r { next_seq = ensured.1.next_seq + 1; updated_at = now })
        ensured.0 in
    let same = ensure-targets (fresh node) node now db in
    record {
      after = record ready { targets = ready.targets ++ (row ∷ []) };
      row = row;
      returned = insert_target-some row ready (ap (any_of (is_target job.id node)) same ∙ h);
      appended = ap (λ ts. ts ++ (row ∷ [])) same;
      own = refl;
      of_job = refl;
      waits = refl;
    }

-- No node of the list has a target of the job.
abbrev pub Absent : UpdateJob → List UpdateJobTarget → List String → Type 0
Absent job targets nodes = All (λ node. any_of (is_target job.id node) targets ≡ false) nodes

contains_self : (seen : List String) (id : String) → contains (id ∷ seen) id ≡ true
unfolding contains
contains_self seen id = ground (arith, eq_iff id id)

-- Nodes that come later differ from one that was seen.
later-Absent :
    (job : UpdateJob) (targets : List UpdateJobTarget) (row : UpdateJobTarget) (nodes : List String)
    (seen : List String)
    → contains seen row.node_id ≡ true
    → Distinct seen nodes
    → Absent job targets nodes
    → Absent job (targets ++ (row ∷ [])) nodes
later-Absent job targets row [] seen c d a = tt
later-Absent job targets row (node ∷ nodes) seen c d a = (
  any-append (is_target job.id node) targets row a.0
      (ground (arith, d.0, c, eq_iff row.node_id node)),
  later-Absent job targets row nodes (node ∷ seen) (unfold contains in ground arith) d.1 a.1,
)

add_targets-step :
    (fresh : String → String) (job : UpdateJob) (updated_at now : ℕ) (node : String)
    (nodes : List String) (db after : Db)
    → add_target fresh job updated_at now node db ≡ some after
    → add_targets fresh job updated_at now (node ∷ nodes) db
      ≡ add_targets fresh job updated_at now nodes after
unfolding add_targets
add_targets-step fresh job updated_at now node nodes db after h =
    ap
      (λ r. elim r as (λ x. Option Db) [
        | none ↦ none
        | some d ↦ add_targets fresh job updated_at now nodes d
      ])
      h

add_targets-Added :
    (fresh : String → String) (job : UpdateJob) (updated_at now : ℕ) (nodes : List String)
    (seen : List String) (db : Db)
    → Distinct seen nodes
    → Absent job db.targets nodes
    → (db' : Db) × (add_targets fresh job updated_at now nodes db ≡ some db')
      × Added job nodes db db'
unfolding add_targets
add_targets-Added fresh job updated_at now [] seen db d a = (
  db,
  refl,
  record { rows = []; appended = sym (append_nil db.targets); one_each = refl; all_new = tt },
)
add_targets-Added fresh job updated_at now (node ∷ nodes) seen db d a =
    let one = add_target-OneAdded fresh job updated_at now node db a.0 in
    let (db', returned, rest) =
      add_targets-Added fresh job updated_at now nodes (node ∷ seen) one.after d.1 (
        subst (λ ts. Absent job ts nodes) (sym one.appended)
          (later-Absent job db.targets one.row nodes (node ∷ seen)
            (rw one.own (contains_self seen node)) d.1 a.1)) in
    (
      db',
      add_targets-step fresh job updated_at now node nodes db one.after one.returned ∙ returned,
      record {
        rows = one.row ∷ rest.rows;
        appended =
            rest.appended
            ∙ ap (λ ts. ts ++ rest.rows) one.appended
            ∙ append_assoc db.targets (one.row ∷ []) rest.rows;
        one_each = rw (one.own, rest.one_each) refl;
        all_new = ((one.of_job, one.waits), rest.all_new);
      },
    )

absent-all :
    (job : UpdateJob) (targets : List UpdateJobTarget) (node : String)
    → any_of (λ t. t.job_id == job.id) targets ≡ false
    → any_of (is_target job.id node) targets ≡ false
unfolding any_of
absent-all job [] node h = refl
absent-all job (t ∷ ts) node h = ground (arith, absent-all job ts node)

Absent-nodes :
    (job : UpdateJob) (targets : List UpdateJobTarget) (nodes : List String)
    → any_of (λ t. t.job_id == job.id) targets ≡ false
    → Absent job targets nodes
Absent-nodes job targets [] h = tt
Absent-nodes job targets (node ∷ nodes) h =
    (absent-all job targets node h, Absent-nodes job targets nodes h)

if-false {ℓ} : {A : Type ℓ} (b : Bool) (x y : A) → b ≡ false → (if b then x else y) ≡ y
if-false b x y h = rw h refl

-- The node ids of a request are cleaned: each is a trimmed id of the request, none is empty, and none
-- comes twice. A job with a new id is then always created, whatever streams the nodes have: one
-- pending target of the job is appended for each of these ids, in their order.
pub create_update_job_with_targets-Added :
    (fresh : String → String) (now : ℕ) (job : UpdateJob) (ids : List String) (db : Db)
    → any_of (λ j. j.id == job.id) db.jobs ≡ false
    → any_of (λ t. t.job_id == job.id) db.targets ≡ false
    → All (λ id. (id ≢ "") × (raw : String) × (id ≡ trim_space raw)) (normalize_node_ids ids)
      × Distinct [] (normalize_node_ids ids)
      × (db' : Db) × (create_update_job_with_targets fresh now job (normalize_node_ids ids) db
          ≡ some db')
      × Added job (normalize_node_ids ids) db db'
unfolding create_update_job_with_targets normalize_node_ids
create_update_job_with_targets-Added fresh now job ids db new_job new_rows =
    let created_at = or_else job.created_at now in
    let updated_at = or_else job.updated_at created_at in
    let row = record job { created_at = created_at; updated_at = updated_at } in
    let opened = record db { jobs = db.jobs ++ (row ∷ []) } in
    let distinct = clean-Distinct ids [] in
    let (db', returned, added) =
      add_targets-Added fresh job updated_at now (clean_ids [] ids) [] opened distinct
        (Absent-nodes job db.targets (clean_ids [] ids) new_rows) in
    (
      clean-trimmed ids [],
      distinct,
      db',
      if-false _ none _ new_job ∙ returned,
      record {
        rows = added.rows;
        appended = added.appended;
        one_each = added.one_each;
        all_new = added.all_new;
      },
    )
