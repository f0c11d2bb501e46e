-- ===== src/Agent/Durability.antt =====
-- The state file across saves, crashes and restarts, and the recovery of an interrupted task.
use thism.Base.{
  sym, ap, refl, inl, inr, zero, suc, List, [], ◌∷◌, All, take, ◌↔◌, Bool-cases, ◌∙◌, subst, ℕ, ◌≤◌,
  ◌≡◌, ◌≢◌, ◌⊎◌, true, false, Option, none, some, ◌==◌, string_eq, arith, String,
}
use text.Mathlib.TextEquality.{eq_iff}
use thism.Models.{
  ControlState, control_none, control_quarantined, control_blocked, Status, succeeded, unknown,
  failed, cancelled, AgentCommandPayload,
}
use thism.Agent.State.{
  InProgressState, AgentState, stored, SaveFault, no_fault, create_failed, write_failed,
  sync_failed, close_failed, rename_failed, Collector, save_agent_state, killed_save, write_state,
  SaveCall, create_tmp, write_tmp, sync_tmp, close_tmp, rename_tmp, remove_tmp, Files, call_done,
  call_failed, fails_at, give_up, run_save_calls, save_calls, files_of, is_quarantined, find_record,
  append_record, ExecutionRecord,
}
use thism.Agent.Recover.{
  digest_matches, recovery_record, recover_in_progress_state, load_agent_state, recovered_state,
}
use thism.Agent.Admission.{admitted, begin_update_task}
use thism.Agent.Records.{find-append_record}
use thism.Agent.Gate.{IsAdmissible, admitted-IsAdmissible, IsAdmissible-admitted}

-- The file is the old one after an error, and the new one otherwise.
Written : SaveFault → Collector → Type 0
Written fault c =
    (((write_state fault c).1 ≡ true) × ((write_state fault c).0.state_file ≡ c.state_file))
    ⊎ (((write_state fault c).1 ≡ false) × ((write_state fault c).0.state_file ≡ stored c.state))

write-Written : (fault : SaveFault) (c : Collector) → Written fault c
unfolding Written write_state
write-Written no_fault c = inr (refl, refl)
write-Written create_failed c = inl (refl, refl)
write-Written write_failed c = inl (refl, refl)
write-Written sync_failed c = inl (refl, refl)
write-Written close_failed c = inl (refl, refl)
write-Written rename_failed c = inl (refl, refl)

-- The calls but for the last change the temporary file only.
kept-target :
    (s : AgentState) (call : SaveCall) (f : Files)
    → call ≢ rename_tmp
    → (call_done s call f).target ≡ f.target
unfolding call_done
kept-target s create_tmp f h = refl
kept-target s write_tmp f h = refl
kept-target s sync_tmp f h = refl
kept-target s close_tmp f h = refl
kept-target s rename_tmp f h = absurd (h refl)
kept-target s remove_tmp f h = refl

failed-target :
    (s : AgentState) (call : SaveCall) (f : Files)
    → (give_up s call (call_failed call f)).target ≡ f.target
unfolding give_up call_failed call_done
failed-target s create_tmp f = refl
failed-target s write_tmp f = refl
failed-target s sync_tmp f = refl
failed-target s close_tmp f = refl
failed-target s rename_tmp f = refl
failed-target s remove_tmp f = refl

run-target :
    (fault : SaveFault) (s : AgentState) (calls : List SaveCall) (f : Files)
    → All (λ call. call ≢ rename_tmp) calls
    → (run_save_calls fault s calls f).0.target ≡ f.target
unfolding run_save_calls
run-target fault s [] f h = refl
run-target fault s (call ∷ calls) f h = elim (Bool-cases (fails_at fault call)) [
  | inl fails ↦ rw fails (failed-target s call f)
  | inr works ↦
      rw works (run-target fault s calls (call_done s call f) h.1 ∙ kept-target s call f h.0)
]

take-nil : (k : ℕ) (calls : List SaveCall) → calls ≡ [] → take k calls ≡ []
take-nil zero calls e = refl
take-nil (suc k) [] e = refl
take-nil (suc k) (call ∷ calls) e = cc

take-all : (k : ℕ) → take (suc (suc (suc (suc (suc k))))) save_calls ≡ save_calls
take-all k =
    ap (λ calls. create_tmp ∷ write_tmp ∷ sync_tmp ∷ close_tmp ∷ rename_tmp ∷ calls)
      (take-nil k [] refl)

whole :
    (fault : SaveFault) (c : Collector)
    → Written fault c
    → ((run_save_calls fault c.state save_calls (files_of c)).0.target ≡ c.state_file)
      ⊎ ((run_save_calls fault c.state save_calls (files_of c)).0.target ≡ stored c.state)
unfolding Written write_state
whole fault c (inl k) = inl k.1
whole fault c (inr k) = inr k.1

-- The state file after the first calls.
killed-target :
    (n : ℕ) (fault : SaveFault) (c : Collector)
    → ((run_save_calls fault c.state (take n save_calls) (files_of c)).0.target ≡ c.state_file)
      ⊎ ((run_save_calls fault c.state (take n save_calls) (files_of c)).0.target ≡ stored c.state)
killed-target zero fault c = inl (run-target fault c.state _ _ tt)
killed-target (suc zero) fault c = inl (run-target fault c.state _ _ (λ e. cc, tt))
killed-target (suc (suc zero)) fault c = inl (run-target fault c.state _ _ (λ e. cc, (λ e. cc, tt)))
killed-target (suc (suc (suc zero))) fault c =
    inl (run-target fault c.state _ _ (λ e. cc, (λ e. cc, (λ e. cc, tt))))
killed-target (suc (suc (suc (suc zero)))) fault c =
    inl (run-target fault c.state _ _ (λ e. cc, (λ e. cc, (λ e. cc, (λ e. cc, tt)))))
killed-target (suc (suc (suc (suc (suc n))))) fault c =
    subst
      (λ calls.
        ((run_save_calls fault c.state calls (files_of c)).0.target ≡ c.state_file)
        ⊎ ((run_save_calls fault c.state calls (files_of c)).0.target ≡ stored c.state))
      (sym (take-all n)) (whole fault c (write-Written fault c))

quarantined_iff : (c : ControlState) → (is_quarantined c ≡ true) ↔ (c ≡ control_quarantined)
unfolding is_quarantined
quarantined_iff control_none = (λ e. cc, λ e. cc)
quarantined_iff control_blocked = (λ e. cc, λ e. cc)
quarantined_iff control_quarantined = (λ e. refl, λ e. refl)

-- A save never changes the state in memory. Without an error it has put the whole new state in the
-- file, unless there is no path or the agent is quarantined, and then nothing is written; with an
-- error, at whichever call, the file is the old one. And if the process dies after any of the calls
-- of a save, the file is the old one or the whole new state.
pub save_agent_state_atomic :
    (fault : SaveFault) (n : ℕ) (c : Collector)
    → let (d, err) = save_agent_state fault c in
      (d.state ≡ c.state)
      × (((err ≡ true) × (d.state_file ≡ c.state_file))
          ⊎ ((err ≡ false)
              × ((c.state_path ≡ "") ⊎ (c.state.control_state ≡ control_quarantined))
              × (d.state_file ≡ c.state_file))
          ⊎ ((err ≡ false)
              × (c.state_path ≢ "")
              × (c.state.control_state ≢ control_quarantined)
              × (d.state_file ≡ stored c.state)))
      × ((killed_save n fault c ≡ c.state_file) ⊎ (killed_save n fault c ≡ stored c.state))
unfolding save_agent_state killed_save Written
save_agent_state_atomic fault n c = elim (Bool-cases (c.state_path == "")) [
  | inl none_ ↦
      rw none_ (refl, inr (inl (refl, inl ((eq_iff c.state_path "").0 none_), refl)), inl refl)
  | inr path ↦ elim (Bool-cases (is_quarantined c.state.control_state)) [
    | inl held ↦
        rw (path, held)
          (
            refl,
            inr (inl (refl, inr ((quarantined_iff c.state.control_state).0 held), refl)),
            inl refl,
          )
    | inr free ↦
        rw (path, free)
          (
            unfold write_state in refl,
            go path free (write-Written fault c),
            killed-target n fault c,
          )
  ]
]
  where
    go :
        (c.state_path == "") ≡ false
        → is_quarantined c.state.control_state ≡ false
        → Written fault c
        → (((write_state fault c).1 ≡ true) × ((write_state fault c).0.state_file ≡ c.state_file))
          ⊎ (((write_state fault c).1 ≡ false)
              × ((c.state_path ≡ "") ⊎ (c.state.control_state ≡ control_quarantined))
              × ((write_state fault c).0.state_file ≡ c.state_file))
          ⊎ (((write_state fault c).1 ≡ false)
              × (c.state_path ≢ "")
              × (c.state.control_state ≢ control_quarantined)
              × ((write_state fault c).0.state_file ≡ stored c.state))
    go path free (inl k) = unfold Written in inl k
    go path free (inr k) = inr (
        inr (
          k.0,
          λ e. cc (path, (eq_iff c.state_path "").1 e),
          λ e. cc (free, (quarantined_iff c.state.control_state).1 e),
          k.1,
        ))

-- What recovery must conclude of a task from its commit point, the digest of the executable and
-- the cancel intent.
pub data RecoveryOutcome (digest : Option String) (p : InProgressState) : Status → Type 0 where
  replaced :
      p.commit_point ≡ true
      → digest_matches digest p.target_sha256 ≡ true
      → RecoveryOutcome digest p succeeded
  unverifiable :
      p.commit_point ≡ true
      → digest_matches digest p.target_sha256 ≡ false
      → RecoveryOutcome digest p unknown
  called_off : p.commit_point ≡ false → p.cancel_intent ≡ true → RecoveryOutcome digest p cancelled
  interrupted : p.commit_point ≡ false → p.cancel_intent ≡ false → RecoveryOutcome digest p failed

recovery_record-Outcome :
    (digest : Option String) (now : ℕ) (p : InProgressState)
    → RecoveryOutcome digest p (recovery_record digest now p).status
unfolding recovery_record
recovery_record-Outcome digest now p =
    grind (arith, replaced, unverifiable, called_off, interrupted)

recovered_state-facts :
    (digest : Option String) (now : ℕ) (p : InProgressState) (s : AgentState)
    → let t = recovered_state digest now p s in
      (t.in_progress ≡ none)
      × (p.seq ≤ t.retired_watermark)
      × (t.records ≡ append_record s.records (recovery_record digest now p))
      × ((recovery_record digest now p).key ≡ p.key)
      × ((((recovery_record digest now p).status ≡ unknown) × (t.control_state ≡ control_blocked))
          ⊎ (((recovery_record digest now p).status ≢ unknown)
              × (t.control_state ≡ s.control_state)))
unfolding recovered_state
recovered_state-facts digest now p s = ground arith

recover-state :
    (fault : SaveFault) (digest : Option String) (now : ℕ) (p : InProgressState) (c : Collector)
    → c.state.in_progress ≡ some p
    → (recover_in_progress_state fault digest now c).state ≡ recovered_state digest now p c.state
unfolding recover_in_progress_state save_agent_state
recover-state fault digest now p c e = ground arith

-- The recovery of an interrupted task ends it: nothing is in progress, its sequence is retired,
-- and its key has a record whose status follows from the commit point, the executable's digest
-- and the cancel intent; the agent is blocked after an unknown, and else keeps its control state.
pub recover_in_progress_state_lem :
    (fault : SaveFault) (digest : Option String) (now : ℕ) (p : InProgressState) (c : Collector)
    → c.state.in_progress ≡ some p
    → let t = (recover_in_progress_state fault digest now c).state in
      (r : ExecutionRecord) × (find_record t.records p.key ≡ some r)
      × RecoveryOutcome digest p r.status
      × (t.in_progress ≡ none)
      × (p.seq ≤ t.retired_watermark)
      × (((r.status ≡ unknown) × (t.control_state ≡ control_blocked))
          ⊎ ((r.status ≢ unknown) × (t.control_state ≡ c.state.control_state)))
recover_in_progress_state_lem fault digest now p c e =
    let (i, w, l, k, b) = recovered_state-facts digest now p c.state in
    let r = recovery_record digest now p in
    rw (recover-state fault digest now p c e) (
      r,
      rw l (
          subst (λ k. find_record (append_record c.state.records r) k ≡ some r) k
            (find-append_record c.state.records r)),
      recovery_record-Outcome digest now p,
      i,
      w,
      b,
    )

begin-unsaved :
    (fault : SaveFault) (now : ℕ) (cmd : AgentCommandPayload) (c : Collector)
    → fault ≢ no_fault
    → let d = (begin_update_task fault now cmd c).0 in
      (d.state_file ≡ c.state_file) × (d.state_path ≡ c.state_path)
unfolding begin_update_task save_agent_state
begin-unsaved fault now cmd c f = ground arith

load-stored :
    (default_path : String) (fault : SaveFault) (digest : Option String) (now : ℕ) (s : AgentState)
    (c : Collector)
    → (c.state_path == "") ≡ false
    → c.state_file ≡ stored s
    → s.in_progress ≡ none
    → (load_agent_state default_path fault digest now c).state ≡ s
unfolding load_agent_state recover_in_progress_state
load-stored default_path fault digest now s c p f i = ground arith

IsAdmissible-state :
    (cmd : AgentCommandPayload) (c d : Collector)
    → d.state ≡ c.state
    → IsAdmissible cmd c
    → IsAdmissible cmd d
IsAdmissible-state cmd c d e v = record {
  control = rw e v.control;
  stream = rw e v.stream;
  next_in_order = rw e v.next_in_order;
  unrecorded = rw e v.unrecorded;
  idle = rw e v.idle;
}

-- An admission whose save fails is not durable: the code starts the update all the same, and a
-- process that starts from the file afterwards admits the same command again, whenever the file
-- held the state as it was.
pub begin_update_task_forgotten :
    (fault : SaveFault) (now later : ℕ) (default_path : String) (digest : Option String)
    (cmd : AgentCommandPayload) (c : Collector)
    → fault ≢ no_fault
    → (c.state_path == "") ≡ false
    → c.state_file ≡ stored c.state
    → (begin_update_task fault now cmd c).1 ≡ admitted
    → let d =
        load_agent_state default_path no_fault digest later (begin_update_task fault now cmd c).0 in
      (begin_update_task no_fault later cmd d).1 ≡ admitted
begin_update_task_forgotten fault now later default_path digest cmd c f path file h =
    let v = admitted-IsAdmissible fault now cmd c h in
    let b = (begin_update_task fault now cmd c).0 in
    let (kept, place) = begin-unsaved fault now cmd c f in
    IsAdmissible-admitted no_fault later cmd _ (
      IsAdmissible-state cmd c _
        (load-stored default_path no_fault digest later c.state b (rw place path) (kept ∙ file)
          v.idle)
        v)
