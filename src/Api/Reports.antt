-- ===== src/Api/Reports.antt =====
-- Which reports of an agent change anything: handleAgentCommandStatus and the case of a gap in the
-- read loop of handleAgentWS.
use thism.Base.{
  ℕ, ◌≡◌, refl, ◌∙◌, ◌⊎◌, inl, inr, true, false, none, some, String, ◌&&◌, not, string_eq, nat_eq,
  ltb, arith, Bool-cases, Option-cases,
}
use text.Mathlib.TextEquality.{eq_iff}
use thism.Models.{
  CommandRejectCode, sequence_gap, expired, already_processed, reject_control_quarantined,
  reject_control_blocked, status_eq, UpdateJobTarget, AgentCommandStatusPayload,
}
use thism.Store.Tables.{find_target}
use thism.Store.Transitions.{is_allowed, transition_in, apply_execution_transition}
use thism.Api.Server.{Server, World}
use thism.Api.Agent.{
  commit_status, identifies, is_blank, handle_agent_command_status, command_status, handle_message,
  resend_gap,
}

commit-changes :
    (w : World) (node : String) (p : AgentCommandStatusPayload) (s : Server)
    → (commit_status w node p s ≡ s)
      ⊎ ((t : UpdateJobTarget) × (find_target p.job_id node s.db ≡ some t)
          × (is_allowed t.status p.status ≡ true))
unfolding commit_status apply_execution_transition
commit-changes w node p s = elim (Option-cases (find_target p.job_id node s.db)) [
  | inl missing ↦ inl (unfold transition_in in rw missing refl)
  | inr (t, found) ↦ elim (Bool-cases (is_allowed t.status p.status)) [
    | inl legal ↦ inr (t, found, legal)
    | inr illegal ↦ inl (unfold transition_in in rw (found, illegal) refl)
  ]
]

status-changes :
    (w : World) (node : String) (p : AgentCommandStatusPayload) (s : Server)
    → (handle_agent_command_status w node p s ≡ s)
      ⊎ ((p.reject_code ≡ none)
          × (is_blank p.job_id ≡ false)
          × (t : UpdateJobTarget) × (find_target p.job_id node s.db ≡ some t)
          × (is_allowed t.status p.status ≡ true)
          × ((p.seq ≡ 0) ⊎ ((t.seq ≡ p.seq) × (t.stream_id ≡ p.stream_id))))
unfolding handle_agent_command_status
status-changes w node p s = elim (Option-cases p.reject_code) [
  | inr (code, rejected) ↦ inl (rw rejected refl)
  | inl clean ↦ elim (Bool-cases (is_blank p.job_id)) [
    | inl blank ↦ inl (rw (clean, blank) refl)
    | inr named ↦
        elim (Bool-cases (ltb 0 p.seq && not (identifies p (find_target p.job_id node s.db)))) [
          | inl foreign ↦ inl (rw (clean, named, foreign) refl)
          | inr known ↦ elim (commit-changes w node p s) [
            | inl same ↦ inl (rw (clean, named, known) same)
            | inr (t, found, legal) ↦
                inr (clean, named, t, found, legal, identified p t (rw found at known))
          ]
        ]
  ]
]
  where
    identified :
        (p : AgentCommandStatusPayload) (t : UpdateJobTarget)
        → (ltb 0 p.seq && not (identifies p (some t))) ≡ false
        → (p.seq ≡ 0) ⊎ ((t.seq ≡ p.seq) × (t.stream_id ≡ p.stream_id))
    identified p t h = unfold identifies in ground (arith, eq_iff t.stream_id p.stream_id)

unrejected-no_gap :
    (w : World) (fresh node : String) (p : AgentCommandStatusPayload) (g : ℕ) (s : Server)
    → p.reject_code ≡ none
    → resend_gap w fresh node p g s ≡ s
unfolding resend_gap
unrejected-no_gap w fresh node p g s h = rw h refl

-- A report of an agent that the read loop handles changes the server only if it rejects a command
-- for a gap and names a stream, or rejects nothing, names a job, reports a state that the machine
-- allows from the state of the node's target, and, where it carries a sequence, the sequence and the
-- stream are those of that target.
pub handle_message_lem :
    (w : World) (fresh node : String) (p : AgentCommandStatusPayload) (g : ℕ) (s : Server)
    → (handle_message w fresh node g (command_status p) s ≡ s)
      ⊎ ((p.reject_code ≡ some sequence_gap) × (is_blank p.stream_id ≡ false))
      ⊎ ((p.reject_code ≡ none)
          × (is_blank p.job_id ≡ false)
          × (t : UpdateJobTarget) × (find_target p.job_id node s.db ≡ some t)
          × (is_allowed t.status p.status ≡ true)
          × ((p.seq ≡ 0) ⊎ ((t.seq ≡ p.seq) × (t.stream_id ≡ p.stream_id))))
unfolding handle_message
handle_message_lem w fresh node p g s = elim (Option-cases p.reject_code) [
  | inl clean ↦ elim (status-changes w node p s) [
    | inl same ↦
        inl
          (unrejected-no_gap w fresh node p g (handle_agent_command_status w node p s) clean ∙ same)
    | inr known ↦ inr (inr known)
  ]
  | inr (code, rejected) ↦ rejection code rejected (Bool-cases (is_blank p.stream_id))
]
  where
    kept :
        (code : CommandRejectCode)
        → p.reject_code ≡ some code
        → handle_agent_command_status w node p s ≡ s
    kept code h = unfold handle_agent_command_status in rw h refl

    rejection :
        (code : CommandRejectCode)
        → p.reject_code ≡ some code
        → (is_blank p.stream_id ≡ true) ⊎ (is_blank p.stream_id ≡ false)
        → (resend_gap w fresh node p g (handle_agent_command_status w node p s) ≡ s)
          ⊎ ((p.reject_code ≡ some sequence_gap) × (is_blank p.stream_id ≡ false))
          ⊎ ((p.reject_code ≡ none)
              × (is_blank p.job_id ≡ false)
              × (t : UpdateJobTarget) × (find_target p.job_id node s.db ≡ some t)
              × (is_allowed t.status p.status ≡ true)
              × ((p.seq ≡ 0) ⊎ ((t.seq ≡ p.seq) × (t.stream_id ≡ p.stream_id))))
    rejection sequence_gap h (inl blank) =
        inl (unfold resend_gap in rw (kept sequence_gap h, h, blank) refl)
    rejection sequence_gap h (inr named) = inr (inl (h, named))
    rejection expired h b = inl (unfold resend_gap in rw (kept expired h, h) refl)
    rejection already_processed h b =
        inl (unfold resend_gap in rw (kept already_processed h, h) refl)
    rejection reject_control_quarantined h b =
        inl (unfold resend_gap in rw (kept reject_control_quarantined h, h) refl)
    rejection reject_control_blocked h b =
        inl (unfold resend_gap in rw (kept reject_control_blocked h, h) refl)
