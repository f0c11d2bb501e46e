-- ===== src/Store/Watermark.antt =====
-- internal/store/updates_concurrency.go: the terminal states and the retired watermark.
use thism.Base.{
  ℕ, ◌+◌, Bool, true, false, List, [], ◌∷◌, ◌++◌, String, ◌==◌, ◌&&◌, string_eq, nat_eq,
  if◌then◌else◌, ltb, filter, map,
}
use thism.Models.{
  Status, accepted, downloading, verifying, restarting, succeeded, failed, unknown, timeout,
  offline_skipped, cancelled, UpdateJobTarget,
}
use thism.Store.Tables.{Retirement, Db, update_stream}

-- terminalExecutionStatuses
unfoldable pub is_terminal : Status → Bool
is_terminal succeeded = true
is_terminal failed = true
is_terminal unknown = true
is_terminal timeout = true
is_terminal cancelled = true
is_terminal offline_skipped = true
is_terminal _ = false

unfoldable pub in_progress_execution_status : Status → Bool
in_progress_execution_status accepted = true
in_progress_execution_status downloading = true
in_progress_execution_status verifying = true
in_progress_execution_status restarting = true
in_progress_execution_status _ = false

-- ORDER BY seq over a UNION, which holds no row twice.
unfoldable pub insert_distinct : ℕ → List ℕ → List ℕ
insert_distinct n [] = n ∷ []
insert_distinct n (m ∷ ms) =
    let rest = m ∷ insert_distinct n ms in
    if ltb n m then n ∷ m ∷ ms else if n == m then m ∷ ms else rest

unfoldable pub sort_distinct : List ℕ → List ℕ
unfolding insert_distinct
sort_distinct [] = []
sort_distinct (n ∷ ns) = insert_distinct n (sort_distinct ns)

unfoldable pub retired_target_seqs : String → List UpdateJobTarget → List ℕ
unfolding is_terminal filter
retired_target_seqs node ts =
    map (λ t. t.seq) (filter (λ t. t.node_id == node && (ltb 0 t.seq && is_terminal t.status)) ts)

unfoldable pub retirement_seqs : String → List Retirement → List ℕ
unfolding filter
retirement_seqs node rs = map (λ r. r.seq) (filter (λ r. r.node_id == node && ltb 0 r.seq) rs)

-- The three parts of the query.
unfoldable pub retired_seqs : String → Db → List ℕ
unfolding retired_target_seqs retirement_seqs
retired_seqs node db =
    retired_target_seqs node db.targets
    ++ (retirement_seqs node db.tombstones ++ retirement_seqs node db.retirements)

-- The loop over the rows: the watermark so far, and one more than it, the sequence expected.
unfoldable pub scan_watermark : ℕ → List ℕ → ℕ
scan_watermark w [] = w
scan_watermark w (seq ∷ rows) =
    let onward = scan_watermark seq rows in
    let skip = scan_watermark w rows in
    if seq == w + 1 then onward else if ltb (w + 1) seq then w else skip

unfoldable pub retired_watermark_from : String → Db → ℕ
unfolding retired_seqs sort_distinct scan_watermark
retired_watermark_from node db = scan_watermark 0 (sort_distinct (retired_seqs node db))

unfoldable pub advance_retired_watermark : String → ℕ → Db → Db
advance_retired_watermark node now db =
    let w = retired_watermark_from node db in
    if w == 0
    then db
    else update_stream node
        (λ s. record s {
          retired_watermark = if ltb s.retired_watermark w then w else s.retired_watermark;
          updated_at = now;
        })
        db
