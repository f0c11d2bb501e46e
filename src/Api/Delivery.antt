-- ===== src/Api/Delivery.antt =====
-- The commands that resendPendingDeliveries of internal/api/api.go sends, over the store's query and
-- the hub's send.
use thism.Base.{
  Bool, false, ◌⊎◌, ℕ, suc, ◌≤◌, ◌<◌, ◌≡◌, refl, inl, inr, true, Option, none, some, List, [], ◌∷◌,
  String, length, All, arith, Bool-cases, nat_eq,
}
use thism.Models.{
  ControlState, control_none, control_quarantined, control_blocked, UpdateJob, UpdateJobTarget,
  CommandStream, AgentCommandPayload,
}
use thism.Store.Tables.{find_stream}
use thism.Store.Jobs.{pending_deliveries_for_node}
use thism.Store.Deliveries.{IsDue, InOrder, pending_deliveries_for_node_lem}
use thism.Hub.Connections.{
  Hub, SendResult, sent, hub_closed, agent_offline, stale_connection, write_error, handshake_ready,
  is_current, current,
}
use thism.Api.Server.{
  before_turn, before_ready, before_job, resend_ready, Server, World, Turn, delivered, send_failed,
  withheld, replaced, goes_on, command_of, settle, deliver_command, resend_job, resend_turn,
  resend_loop, resend_on, resend_pending_deliveries,
}

-- The commands that were tried, in order.
abbrev pub attempts : List Turn → List AgentCommandPayload
attempts [] = []
attempts (delivered cmd ∷ turns) = cmd ∷ attempts turns
attempts (send_failed cmd result ∷ turns) = cmd ∷ attempts turns
attempts (withheld reason ∷ turns) = attempts turns
attempts (replaced ∷ turns) = attempts turns

-- The sequences never fall.
abbrev pub Rising : ℕ → List AgentCommandPayload → Type 0
Rising low [] = Unit
Rising low (c ∷ cs) = (low ≤ c.seq) × Rising c.seq cs

-- Nothing follows a send that failed or a turn that found the connection replaced or not ready.
abbrev pub Unbroken : List Turn → Type 0
Unbroken [] = Unit
Unbroken (turn ∷ []) = Unit
Unbroken (turn ∷ next ∷ turns) = (goes_on turn ≡ true) × Unbroken (next ∷ turns)

-- Whether a command was tried in the turn.
abbrev pub tried : Turn → Bool
tried (delivered cmd) = true
tried (send_failed cmd result) = true
tried (withheld reason) = false
tried replaced = false

-- In each turn that tried a command, the first call of the hub found the generation current, and the
-- second found the connection ready, on the server as it was at that call.
abbrev pub Checked : World → String → ℕ → List UpdateJobTarget → Server → List Turn → Type 0
Checked w node g [] s turns = Unit
Checked w node g (t ∷ ts) s [] = Unit
Checked w node g (t ∷ ts) s (turn ∷ turns) =
    ((tried turn ≡ false)
      ⊎ ((is_current node g (w.meanwhile before_turn t s).hub ≡ true)
          × (handshake_ready node w.now
                (w.meanwhile before_ready t (w.meanwhile before_turn t s)).hub
              ≡ true)))
    × Checked w node g ts (resend_turn w node g t (w.meanwhile before_turn t s)).0 turns

-- A turn that tried nothing, or the command of the target.
data About (t : UpdateJobTarget) : Turn → Type 0 where
  by_delivered : (cmd : AgentCommandPayload) → cmd.seq ≡ t.seq → About t (delivered cmd)
  by_failed :
      (cmd : AgentCommandPayload) (result : SendResult)
      → cmd.seq ≡ t.seq
      → About t (send_failed cmd result)
  by_withheld : (reason : String) → About t (withheld reason)
  by_replaced : About t replaced

module _ (w : World) where
  settle-About :
      (t : UpdateJobTarget) (cmd : AgentCommandPayload) (g : ℕ) (r : Hub × SendResult) (s : Server)
      → cmd.seq ≡ t.seq
      → About t (settle w t cmd g r s).1
  unfolding settle
  settle-About t cmd g (hub, sent) s h = by_delivered cmd h
  settle-About t cmd g (hub, hub_closed) s h = by_failed cmd hub_closed h
  settle-About t cmd g (hub, agent_offline) s h = by_failed cmd agent_offline h
  settle-About t cmd g (hub, stale_connection) s h = by_failed cmd stale_connection h
  settle-About t cmd g (hub, write_error) s h = by_failed cmd write_error h

  job-About :
      (node : String) (g : ℕ) (t : UpdateJobTarget) (job : Option UpdateJob) (s : Server)
      → About t (resend_job w node g t job s).1
  unfolding resend_job deliver_command
  job-About node g t none s = by_withheld "job record missing"
  job-About node g t (some job) s =
      settle-About t (command_of job t job.kind) g _ _ (unfold command_of in refl)

  ready-About :
      (node : String) (g : ℕ) (t : UpdateJobTarget) (s : Server)
      → About t (resend_ready w node g t s).1
  unfolding resend_ready
  ready-About node g t s = elim (Bool-cases (handshake_ready node w.now s.hub)) [
    | inl ready ↦ rw ready (job-About node g t _ (w.meanwhile before_job t s))
    | inr early ↦ rw early by_replaced
  ]

  turn-About :
      (node : String) (g : ℕ) (t : UpdateJobTarget) (s : Server)
      → About t (resend_turn w node g t s).1
  unfolding resend_turn
  turn-About node g t s = elim (Bool-cases (is_current node g s.hub)) [
    | inl current ↦ rw current (ready-About node g t (w.meanwhile before_ready t s))
    | inr stale ↦ rw stale by_replaced
  ]

  turn-checked :
      (node : String) (g : ℕ) (t : UpdateJobTarget) (s : Server)
      → (tried (resend_turn w node g t s).1 ≡ false)
        ⊎ ((is_current node g s.hub ≡ true)
            × (handshake_ready node w.now (w.meanwhile before_ready t s).hub ≡ true))
  unfolding resend_turn resend_ready
  turn-checked node g t s = elim (Bool-cases (is_current node g s.hub)) [
    | inl current ↦
        elim (Bool-cases (handshake_ready node w.now (w.meanwhile before_ready t s).hub)) [
          | inl ready ↦ inr (current, ready)
          | inr early ↦ inl (rw (current, early) refl)
        ]
    | inr stale ↦ inl (rw stale refl)
  ]

  loop-Checked :
      (node : String) (g : ℕ) (ts : List UpdateJobTarget) (s : Server)
      → Checked w node g ts s (resend_loop w node g ts s).1
  unfolding resend_loop
  loop-Checked node g [] s = tt
  loop-Checked node g (t ∷ ts) s =
      let met = w.meanwhile before_turn t s in
      let step = resend_turn w node g t met in
      elim (Bool-cases (goes_on step.1)) [
        | inl on ↦ rw on (turn-checked node g t met, loop-Checked node g ts step.0)
        | inr off ↦ rw off (turn-checked node g t met, no-turns node g ts step.0)
      ]
    where
      no-turns :
          (node : String) (g : ℕ) (ts : List UpdateJobTarget) (s : Server)
          → Checked w node g ts s []
      no-turns node g [] s = tt
      no-turns node g (t ∷ ts) s = tt

  -- What the loop tried on targets beyond `after`, in their order from `low` on.
  record Tried (after low count : ℕ) (turns : List Turn) : Type 0 where
    beyond : All (λ c. after < c.seq) (attempts turns)
    rising : Rising low (attempts turns)
    few : length turns ≤ count
    unbroken : Unbroken turns

  none-Tried : (after low count : ℕ) → Tried after low count []
  none-Tried after low count = record { beyond = tt; rising = tt; few = omega arith; unbroken = tt }

  lower-Rising :
      (low high : ℕ) (cs : List AgentCommandPayload) → low ≤ high → Rising high cs → Rising low cs
  lower-Rising low high [] p r = tt
  lower-Rising low high (c ∷ cs) p r = (omega (arith, r.0), r.1)

  last-Tried :
      (after low count : ℕ) (t : UpdateJobTarget) (turn : Turn)
      → About t turn
      → after < t.seq
      → low ≤ t.seq
      → Tried after low (suc count) (turn ∷ [])
  last-Tried after low count t turn (by_delivered cmd e) a l = record {
    beyond = (rw e a, tt);
    rising = (rw e l, tt);
    few = omega arith;
    unbroken = tt;
  }
  last-Tried after low count t turn (by_failed cmd result e) a l = record {
    beyond = (rw e a, tt);
    rising = (rw e l, tt);
    few = omega arith;
    unbroken = tt;
  }
  last-Tried after low count t turn (by_withheld reason) a l = record {
    beyond = tt;
    rising = tt;
    few = omega arith;
    unbroken = tt;
  }
  last-Tried after low count t turn by_replaced a l = record {
    beyond = tt;
    rising = tt;
    few = omega arith;
    unbroken = tt;
  }

  cons-Unbroken :
      (turn : Turn) (turns : List Turn)
      → goes_on turn ≡ true
      → Unbroken turns
      → Unbroken (turn ∷ turns)
  cons-Unbroken turn [] g u = tt
  cons-Unbroken turn (next ∷ turns) g u = (g, u)

  more-Tried :
      (after low count : ℕ) (t : UpdateJobTarget) (turn : Turn) (turns : List Turn)
      → About t turn
      → goes_on turn ≡ true
      → after < t.seq
      → low ≤ t.seq
      → Tried after t.seq count turns
      → Tried after low (suc count) (turn ∷ turns)
  more-Tried after low count t turn turns (by_delivered cmd e) g a l k = record {
    beyond = (rw e a, k.beyond);
    rising = (rw e l, rw e k.rising);
    few = omega (arith, k.few);
    unbroken = cons-Unbroken turn turns g k.unbroken;
  }
  more-Tried after low count t turn turns (by_failed cmd result e) g a l k = cc
  more-Tried after low count t turn turns (by_withheld reason) g a l k = record {
    beyond = k.beyond;
    rising = lower-Rising low t.seq (attempts turns) l k.rising;
    few = omega (arith, k.few);
    unbroken = cons-Unbroken turn turns g k.unbroken;
  }
  more-Tried after low count t turn turns by_replaced g a l k = cc

  loop-Tried :
      (node : String) (g after low : ℕ) (ts : List UpdateJobTarget) (s : Server)
      → All (IsDue node after) ts
      → InOrder low ts
      → Tried after low (length ts) (resend_loop w node g ts s).1
  unfolding resend_loop
  loop-Tried node g after low [] s due o = none-Tried after low 0
  loop-Tried node g after low (t ∷ ts) s due o =
      let step = resend_turn w node g t (w.meanwhile before_turn t s) in
      let about = turn-About node g t (w.meanwhile before_turn t s) in
      elim (Bool-cases (goes_on step.1)) [
        | inl on ↦ rw on (
            more-Tried after low (length ts) t step.1 _ about on due.0.beyond o.0
              (loop-Tried node g after t.seq ts step.0 due.1 o.1))
        | inr off ↦ rw off (last-Tried after low (length ts) t step.1 about due.0.beyond o.0)
      ]

  -- The targets that the query gives.
  abbrev pub due_targets : String → CommandStream → Server → List UpdateJobTarget
  due_targets node stream s =
      pending_deliveries_for_node node stream.retired_watermark 64 (w.until_query s).db

  record Sent (node : String) (g : ℕ) (stream : CommandStream) (s : Server) (turns : List Turn)
      : Type 0 where
    tries : Tried stream.retired_watermark 0 64 turns
    checked : Checked w node g (due_targets node stream s) (w.until_query s) turns

  on-Sent :
      (node : String) (g : ℕ) (stream : CommandStream) (s : Server)
      → Sent node g stream s (resend_on w (some stream) node g s).1
  unfolding resend_on
  on-Sent node g stream s = go stream.control_state
    where
      facts :
          All (IsDue node stream.retired_watermark) (due_targets node stream s)
          × InOrder 0 (due_targets node stream s)
          × (length (due_targets node stream s) ≤ 64)
      facts = pending_deliveries_for_node_lem node stream.retired_watermark 64 (w.until_query s).db

      unchecked : (ts : List UpdateJobTarget) (read : Server) → Checked w node g ts read []
      unchecked [] read = tt
      unchecked (t ∷ ts) read = tt

      nothing : Sent node g stream s []
      nothing = record {
        tries = none-Tried stream.retired_watermark 0 64;
        checked = unchecked (due_targets node stream s) (w.until_query s);
      }

      go :
          (c : ControlState)
          → Sent node g stream s
              (elim c as (λ x. Server × List Turn) [
                | control_none ↦ resend_loop w node g (due_targets node stream s) (w.until_query s)
                | _ ↦ (s, [])
              ]).1
      go control_none =
          let k =
            loop-Tried node g stream.retired_watermark 0 _ (w.until_query s) facts.0 facts.1 in
          record {
            tries = record {
              beyond = k.beyond;
              rising = k.rising;
              few = omega (arith, k.few, facts.2);
              unbroken = k.unbroken;
            };
            checked = loop-Checked node g (due_targets node stream s) (w.until_query s);
          }
      go control_quarantined = nothing
      go control_blocked = nothing

-- Whatever other goroutines do before each call of the store and the hub and whichever writes fail:
-- the commands that are resent to a node lie beyond the retired watermark of the stream that was
-- read and go out in the order of their sequences, there are at most 64 turns, nothing is tried
-- after a send that failed or after a turn that found the connection replaced or not ready, and
-- each command is tried in a turn whose calls found the generation of the loop current and the
-- connection ready, each on the server as it was at that call.
pub resend_pending_deliveries-order :
    (w : World) (node : String) (g : ℕ) (s : Server) (stream : CommandStream)
    → find_stream node (w.until_stream s).db ≡ some stream
    → let turns = (resend_pending_deliveries w node g s).1 in
      All (λ c. stream.retired_watermark < c.seq) (attempts turns)
      × Rising 0 (attempts turns)
      × (length turns ≤ 64)
      × Unbroken turns
      × Checked w node g
          (due_targets w node stream (w.until_stream s))
          (w.until_query (w.until_stream s))
          turns
unfolding resend_pending_deliveries
resend_pending_deliveries-order w node g s stream h = elim (Bool-cases (is_current node g s.hub)) [
  | inl current ↦
      let k = on-Sent w node g stream (w.until_stream s) in
      rw (current, h) (k.tries.beyond, k.tries.rising, k.tries.few, k.tries.unbroken, k.checked)
  | inr stale ↦
      rw stale (tt, tt, omega arith, tt, unchecked (due_targets w node stream (w.until_stream s)) _)
]
  where
    unchecked : (ts : List UpdateJobTarget) (read : Server) → Checked w node g ts read []
    unchecked [] read = tt
    unchecked (t ∷ ts) read = tt
