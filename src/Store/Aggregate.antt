-- ===== src/Store/Aggregate.antt =====
-- internal/store/store.go: the status of an update job from the states of its targets.
use thism.Base.{
  ℕ, suc, List, [], ◌∷◌, String, ◌==◌, ◌||◌, ◌&&◌, string_eq, nat_eq, if◌then◌else◌, ltb, length,
  filter,
}
use thism.Models.{
  Status, pending, dispatched, accepted, downloading, verifying, restarting, succeeded, failed,
  unknown, timeout, offline_skipped, cancelled, JobStatus, job_pending, job_running, job_completed,
  job_partial_failed, job_failed, UpdateJobTarget,
}
use thism.Store.Tables.{Db}
use thism.Base.{update_where}

pub record Counts : Type 0 where
  pub pending_count : ℕ
  pub active_count : ℕ
  pub success_count : ℕ
  pub failure_count : ℕ

-- The switch of the loop. Its default counts a failure, as for unknown and cancelled.
unfoldable pub count_status : Status → Counts → Counts
count_status pending c = record c { pending_count = suc c.pending_count }
count_status dispatched c = record c { active_count = suc c.active_count }
count_status accepted c = record c { active_count = suc c.active_count }
count_status downloading c = record c { active_count = suc c.active_count }
count_status verifying c = record c { active_count = suc c.active_count }
count_status restarting c = record c { active_count = suc c.active_count }
count_status succeeded c = record c { success_count = suc c.success_count }
count_status failed c = record c { failure_count = suc c.failure_count }
count_status timeout c = record c { failure_count = suc c.failure_count }
count_status offline_skipped c = record c { failure_count = suc c.failure_count }
count_status unknown c = record c { failure_count = suc c.failure_count }
count_status cancelled c = record c { failure_count = suc c.failure_count }

unfoldable pub count_targets : List UpdateJobTarget → Counts → Counts
unfolding count_status
count_targets [] c = c
count_targets (t ∷ ts) c = count_targets ts (count_status t.status c)

abbrev pub no_counts : Counts
no_counts = record { pending_count = 0; active_count = 0; success_count = 0; failure_count = 0 }

unfoldable pub status_of_counts : ℕ → Counts → JobStatus
status_of_counts total c =
    if c.pending_count == total
    then job_pending
    else if ltb 0 c.active_count || ltb 0 c.pending_count
    then job_running
    else if c.success_count == total
    then job_completed
    else if c.failure_count == total
    then job_failed
    else if ltb 0 c.success_count && ltb 0 c.failure_count
    then job_partial_failed
    else job_running

unfoldable pub aggregate_update_job_status : List UpdateJobTarget → JobStatus
unfolding status_of_counts count_targets
aggregate_update_job_status [] = job_pending
aggregate_update_job_status (t ∷ ts) =
    status_of_counts (length (t ∷ ts)) (count_targets (t ∷ ts) no_counts)

-- recomputeUpdateJobStatusTx
unfoldable pub recompute_update_job_status : String → ℕ → Db → Db
recompute_update_job_status job now db = record db {
  jobs =
      update_where (λ j. j.id == job)
        (λ j. record j {
          status = aggregate_update_job_status (filter (λ t. t.job_id == job) db.targets);
          updated_at = now;
        })
        db.jobs;
}
