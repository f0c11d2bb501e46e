-- ===== src/Agent/SelfUpdate.antt =====
-- internal/collector/collector.go, runSelfUpdate, with internal/security/release/verify.go: the
-- download, the verification and the replacement of the agent's binary.
use thism.Base.{
  ℕ, Bool, false, Option, none, some, List, [], ◌∷◌, String, lit, ◌==◌, ◌||◌, ◌&&◌, not, string_eq,
  nat_eq, if◌then◌else◌, ltb, leb, length, trim_space, to_lower, equal_fold, text_append,
}
use thism.Models.{Status, downloading, verifying, restarting, unknown, AgentCommandPayload}
use thism.Agent.State.{SaveFault, Collector}
use thism.Agent.Tasks.{update_task_progress, finish_update_task, mark_commit_point}
use thism.Agent.Executor.{UpdateError, self_update_cancelled, other_error, Report}

-- What net/http gives of a download: a cancelled or expired context, another error, or an answer.
pub data Download : Type 0 where
  download_cancelled download_expired : Download
  download_error : String → Download
  answered : ℕ → String → Download

-- What a context says when it is asked.
pub data Context : Type 0 where
  live cancelled_context expired_context : Context

-- The libraries and the machine of one run: url.Parse (scheme and host), the digest in hexadecimal,
-- base64, hexadecimal and ed25519; the key that is built in; whether reports go out; what each check
-- of a context and each system call answers; and the faults of the saves.
pub record Host : Type 0 where
  pub server_url : String
  pub agent_version : String
  pub parse_url : String → Option (String × String)
  pub sha256_hex : String → String
  pub public_key : String
  pub decode_base64 : String → Option (List ℕ)
  pub decode_hex : String → Option (List ℕ)
  pub ed25519_verify : List ℕ → String → List ℕ → Bool
  pub report_ok : Status → Bool
  pub download : String → Download
  pub before_verify : Context
  pub after_verify : Context
  pub before_commit : Context
  pub executable_found : Bool
  pub tmp_written : Bool
  pub partial_tmp : Option String
  pub tmp_removed : Bool
  pub renamed : Bool
  pub restart_live : Bool
  pub version_path_known : Bool
  pub version_written : Bool
  pub partial_version : String
  pub still_live : Bool
  pub executes : Bool
  pub now : ℕ
  pub fault : Status → SaveFault
  pub commit_fault : SaveFault

-- The collector, the files of the machine, and the reports, newest first.
pub record Machine : Type 0 where
  pub collector : Collector
  pub executable : String
  pub tmp : Option String
  pub version_file : String
  pub reports : List Report

-- The function returns an error, or the process is replaced.
pub data Exit : Type 0 where
  failed_with : UpdateError → Exit
  executed : Exit

http_source : Option (String × String) → String → Bool
http_source none host = false
http_source (some (scheme, base)) host = equal_fold host base

source_in : Host → Option (String × String) → Bool
unfolding http_source
source_in h none = false
source_in h (some (scheme, host)) =
    scheme == "https" || (scheme == "http" && http_source (h.parse_url h.server_url) host)

-- Whether validateSelfUpdateSource returns no error.
unfoldable pub validate_self_update_source : Host → String → Bool
unfolding source_in
validate_self_update_source h url = source_in h (h.parse_url url)

sized : ℕ → Option (List ℕ) → Option (List ℕ)
sized n none = none
sized n (some bytes) = if length bytes == n then some bytes else none

signed_by : Host → Option (List ℕ) → String → Option (List ℕ) → Bool
signed_by h (some key) data_ (some sig) = h.ed25519_verify key data_ sig
signed_by h _ data_ _ = false

-- Whether VerifyBinary returns no error: the key has 32 bytes and the signature 64.
unfoldable pub verify_binary : Host → String → String → Bool
unfolding sized signed_by
verify_binary h data_ signature =
    not (trim_space h.public_key == "")
    && (not (trim_space signature == "")
        && signed_by h (sized 32 (h.decode_base64 (trim_space h.public_key))) data_
            (sized 64 (h.decode_hex (trim_space signature))))

unfoldable pub checksum_matches : Host → AgentCommandPayload → String → Bool
checksum_matches h cmd data_ = to_lower (trim_space cmd.sha256) == h.sha256_hex data_

module _ (h : Host) (cmd : AgentCommandPayload) where
  unfoldable pub fails : String → Machine → Machine × Exit
  fails e m = (m, failed_with (other_error e))

  unfoldable pub report : Status → String → String → Machine → Machine
  report status message version m =
      if h.report_ok status
      then record m {
        reports =
            record { status = status; message = lit message ∷ []; version = version } ∷ m.reports;
      }
      else m

  unfoldable pub progress : Status → String → Machine → Machine
  progress stage message m = record m {
    collector = update_task_progress (h.fault stage) h.now stage (lit message ∷ []) m.collector;
  }

  -- An error after the commit point: the outcome is unknown.
  unfoldable pub post_commit_failure : String → Machine → Machine × Exit
  unfolding report fails
  post_commit_failure e m = fails e (
      report unknown e cmd.target_version (record m {
        collector =
            finish_update_task (h.fault unknown) h.now unknown
              (lit "post-commit failure: " ∷ lit e ∷ []) m.collector;
      }))

  unfoldable pub exec_stage : Machine → Machine × Exit
  unfolding post_commit_failure
  exec_stage m =
      if not h.still_live
      then post_commit_failure "restart stage lease expired" m
      else if h.executes
      then (m, executed)
      else post_commit_failure "exec failed after commit point" m

  unfoldable pub restart_stage : Machine → Machine × Exit
  unfolding exec_stage report progress
  restart_stage m =
      let told =
        progress restarting "restarting agent"
          (report restarting "restarting agent" cmd.target_version m) in
      let versioned = record told {
        version_file = text_append (trim_space cmd.target_version) "\n";
      } in
      if not h.restart_live
      then post_commit_failure "restart stage lease expired" m
      else if not h.version_path_known
      then exec_stage told
      else if h.version_written
      then exec_stage versioned
      else post_commit_failure "version file write failed after commit point"
          (record told { version_file = h.partial_version })

  -- The deferred os.Remove of the temporary file, whose error is ignored.
  unfoldable pub removed : Machine → Machine
  removed m = if h.tmp_removed then record m { tmp = none } else m

  -- After a rename there is no temporary file to remove.
  unfoldable pub rename_stage : String → Machine → Machine × Exit
  unfolding restart_stage removed
  rename_stage data_ m =
      if h.renamed
      then restart_stage (record m { executable = data_; tmp = none })
      else post_commit_failure "rename failed after commit point" (removed m)

  unfoldable pub commit_stage : String → Machine → Machine × Exit
  unfolding rename_stage removed fails
  commit_stage data_ m =
      let (c, err) = mark_commit_point h.commit_fault m.collector in
      let marked = record m { collector = c } in
      if err then fails "commit point" (removed marked) else rename_stage data_ marked

  unfoldable pub stop_in : Context → String → Machine → Machine × Exit → Machine × Exit
  unfolding fails
  stop_in live lease m rest = rest
  stop_in cancelled_context lease m rest = (m, failed_with self_update_cancelled)
  stop_in expired_context lease m rest = fails lease m

  unfoldable pub install_stage : String → Machine → Machine × Exit
  unfolding commit_stage removed stop_in fails
  install_stage data_ m =
      if not h.executable_found
      then fails "executable" m
      else if not h.tmp_written
      then fails "temporary file" (record m { tmp = h.partial_tmp })
      else stop_in h.before_commit "context" (removed (record m { tmp = some data_ }))
          (commit_stage data_ (record m { tmp = some data_ }))

  unfoldable pub check_stage : String → Machine → Machine × Exit
  unfolding install_stage stop_in fails
  check_stage data_ m =
      if not (checksum_matches h cmd data_)
      then fails "sha256 mismatch" m
      else if not (verify_binary h data_ cmd.signature)
      then fails "signature verification failed" m
      else stop_in h.after_verify "verify stage lease expired" m (install_stage data_ m)

  unfoldable pub verify_stage : String → Machine → Machine × Exit
  unfolding check_stage report progress stop_in fails
  verify_stage data_ m =
      let told = report verifying "verifying binary checksum" h.agent_version m in
      let begun = progress verifying "verifying binary checksum" told in
      if not (h.report_ok verifying)
      then fails "report" m
      else stop_in h.before_verify "verify stage lease expired" begun (check_stage data_ begun)

  unfoldable pub download_stage : Download → Machine → Machine × Exit
  unfolding verify_stage fails
  download_stage download_cancelled m = (m, failed_with self_update_cancelled)
  download_stage download_expired m = fails "download stage lease expired" m
  download_stage (download_error e) m = fails e m
  download_stage (answered code data_) m =
      if ltb code 200 || leb 300 code then fails "download failed" m else verify_stage data_ m

  unfoldable pub run_self_update : Machine → Machine × Exit
  unfolding download_stage report progress fails
  run_self_update m =
      let told = report downloading "downloading replacement binary" h.agent_version m in
      let begun = progress downloading "downloading replacement binary" told in
      if not (validate_self_update_source h cmd.download_url)
      then fails "update source" m
      else if not (h.report_ok downloading)
      then fails "report" m
      else download_stage (h.download cmd.download_url) begun
