-- ===== src/Store/JobStatus.antt =====
-- internal/store/store.go: what the status of an update job says of its targets.
use thism.Base.{
  ℕ, suc, ◌≡◌, ◌≢◌, ◌<◌, ◌⊎◌, inl, ◌+◌, ◌↔◌, refl, List, [], ◌∷◌, Bool, true, false, length, arith,
  All, nat_eq,
}
use thism.Models.{
  Status, succeeded, UpdateJobTarget, JobStatus, job_pending, job_running, job_completed,
  job_partial_failed, job_failed,
}
use thism.Store.Watermark.{is_terminal}
use thism.Store.Aggregate.{
  no_counts, Counts, count_status, count_targets, status_of_counts, aggregate_update_job_status,
}

-- A job that needs no more work.
pub is_over : JobStatus → Bool
is_over job_pending = false
is_over job_running = false
is_over job_completed = true
is_over job_partial_failed = true
is_over job_failed = true

abbrev open_count : Counts → ℕ
open_count c = c.pending_count + c.active_count

abbrev total_count : Counts → ℕ
total_count c = c.pending_count + c.active_count + c.success_count + c.failure_count

count_status-facts :
    (s : Status) (c : Counts)
    → (total_count (count_status s c) ≡ suc (total_count c))
      × (((is_terminal s ≡ true) × (open_count (count_status s c) ≡ open_count c))
          ⊎ ((is_terminal s ≡ false) × (open_count (count_status s c) ≡ suc (open_count c))))
      × (((s ≡ succeeded) × ((count_status s c).success_count ≡ suc c.success_count))
          ⊎ ((s ≢ succeeded) × ((count_status s c).success_count ≡ c.success_count)))
unfolding count_status is_terminal
count_status-facts s c = ground arith

count_targets-total :
    (ts : List UpdateJobTarget) (c : Counts)
    → total_count (count_targets ts c) ≡ total_count c + length ts
unfolding count_targets
count_targets-total [] c = omega arith
count_targets-total (t ∷ ts) c =
    ground (arith, count_targets-total ts (count_status t.status c), count_status-facts t.status c)

count_targets-open :
    (ts : List UpdateJobTarget) (c : Counts)
    → ((All (λ t. is_terminal t.status ≡ true) ts)
        × (open_count (count_targets ts c) ≡ open_count c))
      ⊎ ((¬ All (λ t. is_terminal t.status ≡ true) ts)
          × (open_count c < open_count (count_targets ts c)))
unfolding count_targets
count_targets-open [] c = inl (tt, refl)
count_targets-open (t ∷ ts) c =
    ground (arith, count_targets-open ts (count_status t.status c), count_status-facts t.status c)

count_targets-success :
    (ts : List UpdateJobTarget) (c : Counts)
    → ((All (λ t. t.status ≡ succeeded) ts)
        × ((count_targets ts c).success_count ≡ c.success_count + length ts))
      ⊎ ((¬ All (λ t. t.status ≡ succeeded) ts)
          × ((count_targets ts c).success_count < c.success_count + length ts))
unfolding count_targets
count_targets-success [] c = inl (tt, omega arith)
count_targets-success (t ∷ ts) c =
    ground
      (arith, count_targets-success ts (count_status t.status c), count_status-facts t.status c)

-- The status of a job with targets is completed exactly when every target succeeded, and it is
-- completed, failed or partly failed exactly when every target has a terminal status.
pub aggregate_update_job_status_lem :
    (t : UpdateJobTarget) (ts : List UpdateJobTarget)
    → ((aggregate_update_job_status (t ∷ ts) ≡ job_completed)
        ↔ All (λ u. u.status ≡ succeeded) (t ∷ ts))
      × ((is_over (aggregate_update_job_status (t ∷ ts)) ≡ true)
          ↔ All (λ u. is_terminal u.status ≡ true) (t ∷ ts))
unfolding aggregate_update_job_status status_of_counts is_over
aggregate_update_job_status_lem t ts = ground (
  arith,
  count_targets-total (t ∷ ts) no_counts,
  count_targets-open (t ∷ ts) no_counts,
  count_targets-success (t ∷ ts) no_counts,
)
