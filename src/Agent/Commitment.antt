-- ===== src/Agent/Commitment.antt =====
-- The stages of a self-update after the verification, and the commit point.
use thism.Base.{
  ℕ, Bool, subst, sym, lit, Message, ◌∷◌, [], ◌≡◌, ◌≢◌, refl, ◌∙◌, ◌⊎◌, inl, inr, false, none, some,
  String, Bool-cases,
}
use thism.Models.{Status, restarting, unknown, AgentCommandPayload}
use thism.Agent.State.{Collector, SaveFault}
use thism.Agent.Tasks.{update_task_progress, finish_update_task, mark_commit_point}
use thism.Agent.Executor.{self_update_cancelled}
use thism.Agent.SelfUpdate.{
  removed, Context, live, cancelled_context, expired_context, Host, Machine, Exit, failed_with,
  executed, fails, report, progress, post_commit_failure, exec_stage, restart_stage, rename_stage,
  commit_stage, stop_in, install_stage,
}

-- The files of the first machine are those of the second.
pub record SameFiles (m m' : Machine) : Type 0 where
  pub executable : m'.executable ≡ m.executable
  pub version_file : m'.version_file ≡ m.version_file
  pub tmp : m'.tmp ≡ m.tmp
  pub collector : m'.collector ≡ m.collector

-- The collectors that the code can reach from `c` after the commit point.
pub data Later (fault : Status → SaveFault) (now : ℕ) (c : Collector) : Collector → Type 0 where
  here : Later fault now c c
  progressed :
      (d : Collector)
      → Later fault now c d
      → Later fault now c
          (update_task_progress (fault restarting) now restarting (lit "restarting agent" ∷ []) d)
  ended :
      (message : Message) (d : Collector)
      → Later fault now c d
      → Later fault now c (finish_update_task (fault unknown) now unknown message d)

Later-same :
    (fault : Status → SaveFault) (now : ℕ) (c d d' : Collector)
    → d' ≡ d
    → Later fault now c d
    → Later fault now c d'
Later-same fault now c d d' same k = subst (λ x. Later fault now c x) (sym same) k

-- The binary and its version are the old ones, and an error is returned; if it is the cancellation,
-- no temporary file is left, unless its removal failed.
pub record Untouched (removes : Bool) (m : Machine) (r : Machine × Exit) : Type 0 where
  pub executable : r.0.executable ≡ m.executable
  pub version_file : r.0.version_file ≡ m.version_file
  pub returned : r.1 ≢ executed
  pub clean : (r.1 ≢ failed_with self_update_cancelled) ⊎ (r.0.tmp ≡ none) ⊎ (removes ≡ false)

-- The binary is the downloaded one, no cancellation is reported, and the collector comes from the one
-- that marked the commit point.
pub record Replaced (fault : Status → SaveFault) (now : ℕ) (c : Collector) (data_ : String)
    (r : Machine × Exit) : Type 0 where
  pub executable : r.0.executable ≡ data_
  pub tmp : r.0.tmp ≡ none
  pub uncancelled : r.1 ≢ failed_with self_update_cancelled
  pub marked : Later fault now c r.0.collector

module _ (h : Host) (cmd : AgentCommandPayload) where
  pub report-SameFiles :
      (status : Status) (message version : String) (m : Machine)
      → SameFiles m (report h cmd status message version m)
  unfolding report
  report-SameFiles status message version m = elim (Bool-cases (h.report_ok status)) [
    | inl sent ↦
        rw sent (record { executable = refl; version_file = refl; tmp = refl; collector = refl })
    | inr lost ↦
        rw lost (record { executable = refl; version_file = refl; tmp = refl; collector = refl })
  ]

  pub fails-Untouched :
      (e : String) (m m' : Machine)
      → m'.executable ≡ m.executable
      → m'.version_file ≡ m.version_file
      → Untouched h.tmp_removed m (fails h cmd e m')
  unfolding fails
  fails-Untouched e m m' p q = record {
    executable = p;
    version_file = q;
    returned = λ r. cc;
    clean = inl (λ r. cc);
  }

  post-Untouched :
      (e : String) (m m' : Machine)
      → m'.executable ≡ m.executable
      → m'.version_file ≡ m.version_file
      → Untouched h.tmp_removed m (post_commit_failure h cmd e m')
  unfolding post_commit_failure
  post-Untouched e m m' p q =
      let k = report-SameFiles unknown e cmd.target_version _ in
      fails-Untouched e m _ (k.executable ∙ p) (k.version_file ∙ q)

  post-Replaced :
      (e data_ : String) (c : Collector) (m : Machine)
      → Later h.fault h.now (mark_commit_point h.commit_fault c).0 m.collector
      → m.executable ≡ data_
      → m.tmp ≡ none
      → Replaced h.fault h.now
          (mark_commit_point h.commit_fault c).0
          data_
          (post_commit_failure h cmd e m)
  unfolding post_commit_failure fails
  post-Replaced e data_ c m l p q =
      let k = report-SameFiles unknown e cmd.target_version _ in
      record {
        executable = k.executable ∙ p;
        tmp = k.tmp ∙ q;
        uncancelled = λ r. cc;
        marked = Later-same h.fault h.now _ _ _ k.collector (ended _ m.collector l);
      }

  exec-Replaced :
      (data_ : String) (c : Collector) (m : Machine)
      → Later h.fault h.now (mark_commit_point h.commit_fault c).0 m.collector
      → m.executable ≡ data_
      → m.tmp ≡ none
      → Replaced h.fault h.now (mark_commit_point h.commit_fault c).0 data_ (exec_stage h cmd m)
  unfolding exec_stage
  exec-Replaced data_ c m l p q = elim (Bool-cases h.still_live) [
    | inr over ↦ rw over (post-Replaced _ data_ c m l p q)
    | inl on ↦ elim (Bool-cases h.executes) [
      | inl runs ↦
          rw (on, runs) (record { executable = p; tmp = q; uncancelled = λ r. cc; marked = l })
      | inr stays ↦ rw (on, stays) (post-Replaced _ data_ c m l p q)
    ]
  ]

  restart-Replaced :
      (data_ : String) (c : Collector) (m : Machine)
      → Later h.fault h.now (mark_commit_point h.commit_fault c).0 m.collector
      → m.executable ≡ data_
      → m.tmp ≡ none
      → Replaced h.fault h.now (mark_commit_point h.commit_fault c).0 data_ (restart_stage h cmd m)
  unfolding restart_stage progress
  restart-Replaced data_ c m l p q =
      let k = report-SameFiles restarting "restarting agent" cmd.target_version m in
      let on_ = progressed _ (Later-same h.fault h.now _ _ _ k.collector l) in
      elim (Bool-cases h.restart_live) [
        | inr over ↦ rw over (post-Replaced _ data_ c m l p q)
        | inl on ↦ elim (Bool-cases h.version_path_known) [
          | inr unknown_path ↦
              rw (on, unknown_path) (exec-Replaced data_ c _ on_ (k.executable ∙ p) (k.tmp ∙ q))
          | inl known ↦ elim (Bool-cases h.version_written) [
            | inl wrote ↦
                rw (on, known, wrote) (exec-Replaced data_ c _ on_ (k.executable ∙ p) (k.tmp ∙ q))
            | inr lost ↦
                rw (on, known, lost) (post-Replaced _ data_ c _ on_ (k.executable ∙ p) (k.tmp ∙ q))
          ]
        ]
      ]

  -- Nothing changed, or the binary was replaced after the commit point of `c` was saved.
  unfoldable pub Committed : Collector → String → Machine → Machine × Exit → Type 0
  Committed c data_ m r =
      Untouched h.tmp_removed m r
      ⊎ (((mark_commit_point h.commit_fault c).1 ≡ false)
          × Replaced h.fault h.now (mark_commit_point h.commit_fault c).0 data_ r)

  removed-executable : (m : Machine) → (removed h cmd m).executable ≡ m.executable
  unfolding removed
  removed-executable m = elim (Bool-cases h.tmp_removed) [
    | inl gone ↦ rw gone refl
    | inr left ↦ rw left refl
  ]

  removed-version : (m : Machine) → (removed h cmd m).version_file ≡ m.version_file
  unfolding removed
  removed-version m = elim (Bool-cases h.tmp_removed) [
    | inl gone ↦ rw gone refl
    | inr left ↦ rw left refl
  ]

  removed-clean : (m : Machine) → ((removed h cmd m).tmp ≡ none) ⊎ (h.tmp_removed ≡ false)
  unfolding removed
  removed-clean m = elim (Bool-cases h.tmp_removed) [
    | inl gone ↦ inl (rw gone refl)
    | inr left ↦ inr left
  ]

  commit-Committed :
      (data_ : String) (m m' : Machine)
      → m'.executable ≡ m.executable
      → m'.version_file ≡ m.version_file
      → Committed m'.collector data_ m (commit_stage h cmd data_ m')
  unfolding commit_stage rename_stage Committed
  commit-Committed data_ m m' p q =
      elim (Bool-cases (mark_commit_point h.commit_fault m'.collector).1) [
        | inl err ↦ rw err (
            inl (
              fails-Untouched "commit point" m _ (removed-executable _ ∙ p)
                (removed-version _ ∙ q)))
        | inr saved ↦ elim (Bool-cases h.renamed) [
          | inl done ↦
              rw (saved, done) (inr (refl, restart-Replaced data_ m'.collector _ here refl refl))
          | inr kept ↦
              rw (saved, kept)
                (inl (
                  post-Untouched "rename failed after commit point" m _ (removed-executable _ ∙ p)
                    (removed-version _ ∙ q)))
        ]
      ]

  stop-Committed :
      (c : Context) (lease data_ : String) (at : Collector) (m m' : Machine) (rest : Machine × Exit)
      → m'.executable ≡ m.executable
      → m'.version_file ≡ m.version_file
      → (m'.tmp ≡ none) ⊎ (h.tmp_removed ≡ false)
      → Committed at data_ m rest
      → Committed at data_ m (stop_in h cmd c lease m' rest)
  unfolding stop_in Committed
  stop-Committed live lease data_ at m m' rest p q t k = k
  stop-Committed cancelled_context lease data_ at m m' rest p q t k =
      inl (record { executable = p; version_file = q; returned = λ r. cc; clean = inr t })
  stop-Committed expired_context lease data_ at m m' rest p q t k =
      inl (fails-Untouched lease m m' p q)

  pub install-Committed :
      (data_ : String) (m m' : Machine)
      → m'.executable ≡ m.executable
      → m'.version_file ≡ m.version_file
      → Committed m'.collector data_ m (install_stage h cmd data_ m')
  unfolding install_stage Committed
  install-Committed data_ m m' p q = elim (Bool-cases h.executable_found) [
    | inr lost ↦ rw lost (inl (fails-Untouched _ m m' p q))
    | inl found ↦ elim (Bool-cases h.tmp_written) [
      | inr failed ↦
          rw (found, failed)
            (inl (fails-Untouched "temporary file" m (record m' { tmp = h.partial_tmp }) p q))
      | inl wrote ↦
          rw (found, wrote)
            (stop-Committed h.before_commit "context" data_ m'.collector m
              (removed h cmd (record m' { tmp = some data_ }))
              (commit_stage h cmd data_ (record m' { tmp = some data_ })) (removed-executable _ ∙ p)
              (removed-version _ ∙ q) (removed-clean _)
              (commit-Committed data_ m (record m' { tmp = some data_ }) p q))
    ]
  ]
