-- ===== src/Store/Audit.antt =====
-- internal/store/updates_concurrency.go: what the retention of the audit deletes.
use thism.Base.{
  Bool, ap, subst, sym, ◌∙◌, ◌*◌, ltb, length, map, contains, true, false, not, ◌&&◌, Bool-cases,
  inl, inr, ==_self, if◌then◌else◌, nat_eq, ℕ, suc, zero, ◌-◌, ◌≡◌, ◌≢◌, refl, List, [], ◌∷◌,
  String, ◌==◌, string_eq, filter, drop, arith, Bool,
}
use text.Mathlib.TextEquality.{eq_iff}
use thism.Models.{AuditEvent}
use thism.Store.Retention.{
  delete_oldest, trim_audit, prune_audit, nodes_above, distinct, audit_rows_per_node,
  audit_retention_days, day,
}

abbrev pub of_node : String → AuditEvent → Bool
of_node node e = e.node_id == node

delete_oldest-drop :
    (node : String) (n : ℕ) (es : List AuditEvent)
    → filter (of_node node) (delete_oldest node n es) ≡ drop n (filter (of_node node) es)
unfolding delete_oldest filter
delete_oldest-drop node zero [] = refl
delete_oldest-drop node (suc n) [] = refl
delete_oldest-drop node zero (e ∷ es) = ground (arith, delete_oldest-drop node zero es)
delete_oldest-drop node (suc n) (e ∷ es) =
    ground (arith, delete_oldest-drop node n es, delete_oldest-drop node (suc n) es)

delete_oldest-others :
    (node other : String) (n : ℕ) (es : List AuditEvent)
    → other ≢ node
    → filter (of_node other) (delete_oldest node n es) ≡ filter (of_node other) es
unfolding delete_oldest filter
delete_oldest-others node other n [] h = refl
delete_oldest-others node other n (e ∷ es) h = ground (
  arith,
  delete_oldest-others node other n es h,
  delete_oldest-others node other (n - 1) es h,
  eq_iff e.node_id node,
  eq_iff e.node_id other,
)

-- No name stands twice in the list.
Distinct : List String → Type 0
Distinct [] = Unit
Distinct (x ∷ xs) = (contains xs x ≡ false) × Distinct xs

contains-distinct : (ids : List String) (n : String) → contains (distinct ids) n ≡ contains ids n
unfolding distinct contains
contains-distinct [] n = refl
contains-distinct (x ∷ xs) n =
    ground (arith, contains-distinct xs n, contains-distinct xs x, eq_iff x n)

distinct-Distinct : (ids : List String) → Distinct (distinct ids)
unfolding distinct Distinct
distinct-Distinct [] = tt
distinct-Distinct (x ∷ xs) = elim (Bool-cases (contains (distinct xs) x)) [
  | inl known ↦ rw known (distinct-Distinct xs)
  | inr new ↦ rw new (new, distinct-Distinct xs)
]

contains-filter :
    (p : String → Bool) (n : String) (xs : List String)
    → contains (filter p xs) n ≡ (contains xs n && p n)
unfolding contains filter
contains-filter p n [] = refl
contains-filter p n (x ∷ xs) = elim (Bool-cases (x == n)) [
  | inl same ↦ rw ((eq_iff x n).0 same) (ground (arith, contains-filter p n xs, ==_self n))
  | inr other ↦ ground (arith, contains-filter p n xs, other)
]

filter-Distinct : (p : String → Bool) (xs : List String) → Distinct xs → Distinct (filter p xs)
unfolding filter Distinct
filter-Distinct p [] d = tt
filter-Distinct p (x ∷ xs) d = elim (Bool-cases (p x)) [
  | inl fits ↦ rw fits (contains-filter p x xs ∙ rw d.0 refl, filter-Distinct p xs d.1)
  | inr dropped ↦ rw dropped (filter-Distinct p xs d.1)
]

count-events :
    (node : String) (es : List AuditEvent)
    → length (filter (λ i. i == node) (map (λ e. e.node_id) es)) ≡ length (filter (of_node node) es)
unfolding filter
count-events node [] = refl
count-events node (e ∷ es) = ground (arith, count-events node es)

contains-counted :
    (node : String) (ids : List String)
    → contains ids node ≡ false
    → length (filter (λ i. i == node) ids) ≡ 0
unfolding contains filter
contains-counted node [] h = refl
contains-counted node (x ∷ xs) h = ground (arith, contains-counted node xs)

trim_audit-other :
    (node : String) (nodes : List String) (es : List AuditEvent)
    → contains nodes node ≡ false
    → filter (of_node node) (trim_audit nodes es) ≡ filter (of_node node) es
unfolding trim_audit contains
trim_audit-other node [] es h = refl
trim_audit-other node (x ∷ xs) es h =
    trim_audit-other node xs _ (ground (arith, h))
    ∙ delete_oldest-others x node audit_rows_per_node es
        (λ e. ground (arith, h, (eq_iff x node).1 (sym e)))

trim_audit-crowded :
    (node : String) (nodes : List String) (es : List AuditEvent)
    → Distinct nodes
    → contains nodes node ≡ true
    → filter (of_node node) (trim_audit nodes es)
      ≡ drop audit_rows_per_node (filter (of_node node) es)
unfolding trim_audit contains Distinct
trim_audit-crowded node [] es d h = cc
trim_audit-crowded node (x ∷ xs) es d h = elim (Bool-cases (x == node)) [
  | inl same ↦
      trim_audit-other node xs _ (subst (λ k. contains xs k ≡ false) ((eq_iff x node).0 same) d.0)
      ∙ subst
          (λ k.
            filter (of_node node) (delete_oldest k audit_rows_per_node es)
            ≡ drop audit_rows_per_node (filter (of_node node) es))
          (sym ((eq_iff x node).0 same)) (delete_oldest-drop node audit_rows_per_node es)
  | inr other ↦
      trim_audit-crowded node xs _ d.1 (rw other at h)
      ∙ ap (drop audit_rows_per_node) (
          delete_oldest-others x node audit_rows_per_node es
            (λ e. ground (arith, other, (eq_iff x node).1 (sym e))))
]

-- The events that are young enough.
abbrev pub recent_events : ℕ → List AuditEvent → List AuditEvent
recent_events now es = filter (λ e. not (ltb e.created_at (now - audit_retention_days * day))) es

nodes_above-crowded :
    (node : String) (es : List AuditEvent)
    → contains (nodes_above audit_rows_per_node (map (λ e. e.node_id) es)) node
      ≡ ltb audit_rows_per_node (length (filter (of_node node) es))
unfolding nodes_above
nodes_above-crowded node es =
    let ids = map (λ e. e.node_id) es in
    let many : String → Bool = λ n. ltb audit_rows_per_node (length (filter (λ i. i == n) ids)) in
    contains-filter many node (distinct ids) ∙ (elim (Bool-cases (contains ids node)) [
      | inl known ↦
          rw (contains-distinct ids node, known)
            (ap (ltb audit_rows_per_node) (count-events node es))
      | inr absent ↦
          rw (contains-distinct ids node, absent)
            (ap (ltb audit_rows_per_node)
              (sym (contains-counted node ids absent) ∙ count-events node es))
    ])

-- The retention of the audit keeps of each node its events of the last 365 days; where these are more
-- than 2048 it deletes the oldest 2048 of them, not the excess: a node that has one event too many
-- keeps one event.
pub prune_audit_lem :
    (node : String) (now : ℕ) (es : List AuditEvent)
    → filter (of_node node) (prune_audit now es) ≡ (
        let events = filter (of_node node) (recent_events now es) in
        if ltb 2048 (length events) then drop 2048 events else events)
unfolding prune_audit
prune_audit_lem node now es =
    let recent = recent_events now es in
    let nodes = nodes_above audit_rows_per_node (map (λ e. e.node_id) recent) in
    elim (Bool-cases (ltb 2048 (length (filter (of_node node) recent)))) [
      | inl crowded ↦ rw crowded (
          trim_audit-crowded node nodes recent
            (unfold nodes_above in filter-Distinct _ _ (distinct-Distinct _))
            (nodes_above-crowded node recent ∙ crowded))
      | inr fits ↦
          rw fits (trim_audit-other node nodes recent (nodes_above-crowded node recent ∙ fits))
    ]
