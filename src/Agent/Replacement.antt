-- ===== src/Agent/Replacement.antt =====
-- What a self-update leaves on the machine, whatever its libraries and system calls answer.
use thism.Base.{lit, ◌∷◌, [], ◌≡◌, ◌⊎◌, true, false, String, ℕ}
use thism.Models.{Status, downloading, verifying, AgentCommandPayload}
use thism.Agent.State.{Collector}
use thism.Agent.Tasks.{update_task_progress, mark_commit_point}
use thism.Agent.SelfUpdate.{
  Download, answered, Host, Machine, Exit, verify_binary, checksum_matches, report, progress,
}
use thism.Agent.Commitment.{Untouched, Replaced}

-- The collector when the stage of the status has begun.
abbrev pub stage : Host → Status → String → Collector → Collector
stage h status message c = update_task_progress (h.fault status) h.now status (lit message ∷ []) c

-- The collector when the commit point is marked.
abbrev pub commit_collector : Host → Machine → Collector
commit_collector h m =
    stage h verifying "verifying binary checksum"
      (stage h downloading "downloading replacement binary" m.collector)

module _ (h : Host) (cmd : AgentCommandPayload) where
  -- Nothing changed, or the binary was replaced by one that was verified.
  unfoldable pub Verified : Collector → String → Machine → Machine × Exit → Type 0
  Verified at data_ m r =
      Untouched h.tmp_removed m r
      ⊎ ((checksum_matches h cmd data_ ≡ true)
          × (verify_binary h data_ cmd.signature ≡ true)
          × ((mark_commit_point h.commit_fault at).1 ≡ false)
          × Replaced h.fault h.now (mark_commit_point h.commit_fault at).0 data_ r)

  -- The machine when the stage of the status begins, with its collector.
  begun : Status → String → Machine → Machine
  begun status message m =
      progress h cmd status message (report h cmd status message h.agent_version m)

  -- Nothing changed, or the binary was replaced by one that was downloaded and verified.
  Downloaded : Collector → Download → Machine → Machine × Exit → Type 0
  Downloaded at d m r =
      Untouched h.tmp_removed m r
      ⊎ ((code : ℕ) × (data_ : String) × (d ≡ answered code data_)
          × (checksum_matches h cmd data_ ≡ true)
          × (verify_binary h data_ cmd.signature ≡ true)
          × ((mark_commit_point h.commit_fault at).1 ≡ false)
          × Replaced h.fault h.now (mark_commit_point h.commit_fault at).0 data_ r)
