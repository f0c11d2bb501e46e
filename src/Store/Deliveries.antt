-- ===== src/Store/Deliveries.antt =====
-- internal/store/updates_concurrency.go: the commands that a node is sent.
use thism.Base.{
  ℕ, suc, zero, ◌≡◌, ◌≤◌, ◌<◌, ◌⊎◌, inl, inr, List, [], ◌∷◌, String, ◌==◌, string_eq, nat_eq,
  filter, take, length, length-take-le, arith, true, All, Bool-cases, if◌then◌else◌,
}
use text.Mathlib.TextEquality.{eq_iff}
use thism.Models.{Status, pending, dispatched, UpdateJobTarget}
use thism.Store.Tables.{Db}
use thism.Store.Jobs.{
  is_deliverable, is_unstarted, insert_by_seq, sort_by_seq, pending_deliveries_for_node,
}

-- A command of the node that lies beyond the watermark and has not started.
pub record IsDue (node : String) (after : ℕ) (t : UpdateJobTarget) : Type 0 where
  pub own : t.node_id ≡ node
  pub beyond : after < t.seq
  pub unstarted : (t.status ≡ pending) ⊎ (t.status ≡ dispatched)

-- The sequences never fall along the list.
abbrev pub InOrder : ℕ → List UpdateJobTarget → Type 0
InOrder low [] = Unit
InOrder low (t ∷ ts) = (low ≤ t.seq) × InOrder t.seq ts

is_unstarted-cases : (s : Status) → is_unstarted s ≡ true → (s ≡ pending) ⊎ (s ≡ dispatched)
unfolding is_unstarted
is_unstarted-cases s h = ground arith

is_deliverable-IsDue :
    (node : String) (after : ℕ) (t : UpdateJobTarget)
    → is_deliverable node after t ≡ true
    → IsDue node after t
unfolding is_deliverable
is_deliverable-IsDue node after t h =
    ground (arith, eq_iff t.node_id node, is_unstarted-cases t.status)

filter-IsDue :
    (node : String) (after : ℕ) (ts : List UpdateJobTarget)
    → All (IsDue node after) (filter (is_deliverable node after) ts)
unfolding filter
filter-IsDue node after [] = tt
filter-IsDue node after (t ∷ ts) = elim (Bool-cases (is_deliverable node after t)) [
  | inl e ↦ rw e (is_deliverable-IsDue node after t e, filter-IsDue node after ts)
  | inr e ↦ rw e (filter-IsDue node after ts)
]

insert-All :
    (P : UpdateJobTarget → Type 0) (t : UpdateJobTarget) (ts : List UpdateJobTarget)
    → P t
    → All P ts
    → All P (insert_by_seq t ts)
unfolding insert_by_seq
insert-All P t [] p h = (p, h)
insert-All P t (u ∷ us) p h = ground (arith, insert-All P t us p h.1)

sort-All :
    (P : UpdateJobTarget → Type 0) (ts : List UpdateJobTarget) → All P ts → All P (sort_by_seq ts)
unfolding sort_by_seq
sort-All P [] h = tt
sort-All P (t ∷ ts) h = insert-All P t (sort_by_seq ts) h.0 (sort-All P ts h.1)

insert-InOrder :
    (low : ℕ) (t : UpdateJobTarget) (ts : List UpdateJobTarget)
    → low ≤ t.seq
    → InOrder low ts
    → InOrder low (insert_by_seq t ts)
unfolding insert_by_seq
insert-InOrder low t [] h o = (h, tt)
insert-InOrder low t (u ∷ us) h o = ground (arith, insert-InOrder u.seq t us)

sort-InOrder : (ts : List UpdateJobTarget) → InOrder 0 (sort_by_seq ts)
unfolding sort_by_seq
sort-InOrder [] = tt
sort-InOrder (t ∷ ts) = insert-InOrder 0 t (sort_by_seq ts) (omega arith) (sort-InOrder ts)

take-All :
    (P : UpdateJobTarget → Type 0) (n : ℕ) (ts : List UpdateJobTarget)
    → All P ts
    → All P (take n ts)
take-All P zero ts h = tt
take-All P (suc n) [] h = tt
take-All P (suc n) (t ∷ ts) h = (h.0, take-All P n ts h.1)

take-InOrder : (low n : ℕ) (ts : List UpdateJobTarget) → InOrder low ts → InOrder low (take n ts)
take-InOrder low zero ts h = tt
take-InOrder low (suc n) [] h = tt
take-InOrder low (suc n) (t ∷ ts) h = (h.0, take-InOrder t.seq n ts h.1)

-- The commands to deliver are targets of the node beyond the watermark that have not started, in
-- the order of their sequences, and at most as many as the limit, or 64 where it is 0.
pub pending_deliveries_for_node_lem :
    (node : String) (after limit : ℕ) (db : Db)
    → let ts = pending_deliveries_for_node node after limit db in
      All (IsDue node after) ts × InOrder 0 ts × (length ts ≤ (if limit == 0 then 64 else limit))
unfolding pending_deliveries_for_node
pending_deliveries_for_node_lem node after limit db =
    let due = filter (is_deliverable node after) db.targets in
    let n = if limit == 0 then 64 else limit in
    (
      take-All (IsDue node after) n (sort_by_seq due)
          (sort-All (IsDue node after) due (filter-IsDue node after db.targets)),
      take-InOrder 0 n (sort_by_seq due) (sort-InOrder due),
      length-take-le n (sort_by_seq due),
    )
